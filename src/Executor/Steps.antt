-- ===== src/Executor/Steps.antt =====
-- What the stages that a run may pass through say of the order of its calls.
use engineering_worker_pool.Base.{
  ℕ, ◌≡◌, refl, inl, inr, Bool, true, false, not, ◌||◌, List, [], ◌∷◌, some, Text, arith, iff, any,
  if◌then◌else◌, Option-cases,
}
use engineering_worker_pool.Executor.Run.{Artifact, Event, action_of, mutates}
use engineering_worker_pool.Executor.Protocol.{
  Stage, unclaimed, handed_in, is_unclaimed, next_event, next_stage, accepts,
}
use engineering_worker_pool.Executor.Order.{
  is_claim, claims_first, hands_in, is_handed_in, number_after, is_in_order, is_numbered,
  is_allowed, Doubt, doubt_after, is_cautious, has_read_back, is_confirmed, is_backed_call,
  is_backed, is_next, is_sure, knows_artifact, knows_effect, reached,
}

module _ (fenced : Bool) (effect_of : Text → Text) where
  -- One step of a run: what a claim it is, and where it leads.
  step-claims :
      (s t : Stage) (x : Event)
      → next_event fenced effect_of s x ≡ some t
      → ((if mutates x then not (iff (not (is_unclaimed s)) (is_claim x)) else true) ≡ true)
        × (not (is_unclaimed t) ≡ (not (is_unclaimed s) || is_claim x))
  unfolding next_event next_stage
  step-claims s t x n = ground arith

  pub claims_first-accepts :
      (s : Stage) (xs : List Event)
      → accepts fenced effect_of s xs ≡ true
      → claims_first (not (is_unclaimed s)) xs ≡ true
  unfolding accepts claims_first
  claims_first-accepts s [] h = refl
  claims_first-accepts s (x ∷ xs) h = elim (Option-cases (next_event fenced effect_of s x)) [
    | inl n ↦ absurd (cc)
    | inr (t, n) ↦ ground (arith, step-claims s t x n, claims_first-accepts t xs)
  ]

  step-numbers :
      (s t : Stage) (x : Event) (n : ℕ)
      → next_event fenced effect_of s x ≡ some t
      → is_next s n ≡ true
      → (is_in_order x n ≡ true) × (is_next t (number_after x n) ≡ true)
  unfolding next_event next_stage
  step-numbers s t x n h k = ground arith

  pub is_numbered-accepts :
      (s : Stage) (n : ℕ) (xs : List Event)
      → accepts fenced effect_of s xs ≡ true
      → is_next s n ≡ true
      → is_numbered n xs ≡ true
  unfolding accepts is_numbered
  is_numbered-accepts s n [] h k = refl
  is_numbered-accepts s n (x ∷ xs) h k = elim (Option-cases (next_event fenced effect_of s x)) [
    | inl m ↦ absurd (cc)
    | inr (t, m) ↦
        ground (arith, step-numbers s t x n m k, is_numbered-accepts t (number_after x n) xs)
  ]

  step-doubt :
      (s t : Stage) (x : Event) (d : Doubt)
      → next_event fenced effect_of s x ≡ some t
      → is_sure s d ≡ true
      → (is_allowed d (action_of x) ≡ true) × (is_sure t (doubt_after x d) ≡ true)
  unfolding next_event next_stage
  step-doubt s t x d h k = ground arith

  pub is_cautious-accepts :
      (s : Stage) (d : Doubt) (xs : List Event)
      → accepts fenced effect_of s xs ≡ true
      → is_sure s d ≡ true
      → is_cautious d xs ≡ true
  unfolding accepts is_cautious
  is_cautious-accepts s d [] h k = refl
  is_cautious-accepts s d (x ∷ xs) h k = elim (Option-cases (next_event fenced effect_of s x)) [
    | inl m ↦ absurd (cc)
    | inr (t, m) ↦
        ground (arith, step-doubt s t x d m k, is_cautious-accepts t (doubt_after x d) xs)
  ]

  step-reads_back :
      (s t : Stage) (x : Event) (h : List Event) (b : Artifact)
      → next_event fenced effect_of s x ≡ some t
      → (knows_artifact s b ≡ true → has_read_back b h ≡ true)
      → knows_artifact t b ≡ true
      → has_read_back b (x ∷ h) ≡ true
  unfolding next_event next_stage has_read_back
  step-reads_back s t x h b n k m = ground arith

  step-confirms :
      (s t : Stage) (x : Event) (h : List Event) (y : Text)
      → next_event fenced effect_of s x ≡ some t
      → ((b : Artifact) → knows_artifact s b ≡ true → has_read_back b h ≡ true)
      → (knows_effect s y ≡ true → is_confirmed y h ≡ true)
      → knows_effect t y ≡ true
      → is_confirmed y (x ∷ h) ≡ true
  unfolding next_event next_stage is_confirmed
  step-confirms s t x h y n k l m = grind (arith, k)

  step-submits :
      (s t : Stage) (x : Event) (h : List Event)
      → fenced ≡ true
      → next_event fenced effect_of s x ≡ some t
      → ((y : Text) → knows_effect s y ≡ true → is_confirmed y h ≡ true)
      → is_backed_call effect_of h x ≡ true
  unfolding next_event next_stage
  step-submits s t x h f n k = grind (arith, k)

  pub is_backed-accepts :
      (s : Stage) (h xs : List Event)
      → fenced ≡ true
      → accepts fenced effect_of s xs ≡ true
      → ((b : Artifact) → knows_artifact s b ≡ true → has_read_back b h ≡ true)
      → ((y : Text) → knows_effect s y ≡ true → is_confirmed y h ≡ true)
      → is_backed effect_of h xs ≡ true
  unfolding accepts is_backed
  is_backed-accepts s h [] f n k l = refl
  is_backed-accepts s h (x ∷ xs) f n k l = elim (Option-cases (next_event fenced effect_of s x)) [
    | inl m ↦ absurd (cc)
    | inr (t, m) ↦ ground (
      arith,
      step-submits s t x h f m l,
      is_backed-accepts t (x ∷ h) xs f (ground arith) (λ b. step-reads_back s t x h b m (k b))
          (λ y. step-confirms s t x h y m k (l y)),
    )
  ]

  step-unclaimed :
      (s t : Stage) (x : Event)
      → next_event fenced effect_of s x ≡ some t
      → is_unclaimed t ≡ true
      → (is_unclaimed s ≡ true) × (mutates x ≡ false)
  unfolding next_event next_stage
  step-unclaimed s t x n h = ground arith

  pub unclaimed-reached :
      (s : Stage) (xs : List Event)
      → reached fenced effect_of s xs ≡ some unclaimed
      → (is_unclaimed s ≡ true) × (any mutates xs ≡ false)
  unfolding reached any
  unclaimed-reached s [] h = ground arith
  unclaimed-reached s (x ∷ xs) h = elim (Option-cases (next_event fenced effect_of s x)) [
    | inl m ↦ absurd (cc)
    | inr (t, m) ↦ ground (arith, unclaimed-reached t xs, step-unclaimed s t x m)
  ]

  step-handed_in :
      (s : Stage) (x : Event)
      → next_event fenced effect_of s x ≡ some handed_in
      → (is_handed_in s || hands_in x) ≡ true
  unfolding next_event next_stage
  step-handed_in s x n = ground arith

  pub handed_in-reached :
      (s : Stage) (xs : List Event)
      → reached fenced effect_of s xs ≡ some handed_in
      → (is_handed_in s || any hands_in xs) ≡ true
  unfolding reached any
  handed_in-reached s [] h = ground arith
  handed_in-reached s (x ∷ xs) h = elim (Option-cases (next_event fenced effect_of s x)) [
    | inl m ↦ absurd (cc)
    | inr (t, m) ↦ ground (arith, handed_in-reached t xs, step-handed_in s x)
  ]
