-- ===== src/Executor/Order.antt =====
-- Readings of the calls of a run: which come first, how checkpoints are numbered, what a submission
-- rests on, and the stages that the calls lead through.
use engineering_worker_pool.Base.{
  ℕ, suc, Bool, true, false, not, ◌&&◌, ◌||◌, List, [], ◌∷◌, Option, none, some, Text, same, iff,
  ◌==◌, if◌then◌else◌,
}
use engineering_worker_pool.Executor.Run.{
  Action, Event, done, lost, action_of, claims, publishes, verifies, records, submits, completes,
  fails, Artifact, Entry, without, publishing, unsure, settled, mutates,
}
use engineering_worker_pool.Executor.Protocol.{
  Stage, recorded_check, reassured, announced, published, assured, confirmed, doubtful, broken,
  handed_in, given_up, next_event, same_artifact,
}

abbrev pub is_claim : Event → Bool
is_claim (done claims) = true
is_claim (lost claims) = true
is_claim _ = false

-- The first call that changes the pool is the claim, and there is no second one.
unfoldable pub claims_first : Bool → List Event → Bool
claims_first seen [] = true
claims_first seen (x ∷ xs) =
    (if mutates x then not (iff seen (is_claim x)) else true)
    && claims_first (seen || is_claim x) xs

-- The work is handed in, by a call that answered.
abbrev pub hands_in : Event → Bool
hands_in (done (submits sha)) = true
hands_in (done completes) = true
hands_in _ = false

abbrev pub is_handed_in : Stage → Bool
is_handed_in handed_in = true
is_handed_in _ = false

abbrev pub number_after : Event → ℕ → ℕ
number_after (done (records e)) n = suc n
number_after (lost (records e)) n = suc n
number_after _ n = n

abbrev pub is_in_order : Event → ℕ → Bool
is_in_order (done (records e)) n = e.sequence == n
is_in_order (lost (records e)) n = e.sequence == n
is_in_order _ n = true

-- Every number of a recorded checkpoint follows the one before.
unfoldable pub is_numbered : ℕ → List Event → Bool
is_numbered n [] = true
is_numbered n (x ∷ xs) = is_in_order x n && is_numbered (number_after x n) xs

-- Whether a publication is in doubt: none is, or one is open, or its confirmation was asked for in a
-- call that raised.
pub data Doubt : Type 0 where
  settled_all open_doubt asked : Doubt

abbrev pub is_settling : Entry → Bool
is_settling e = elim e.effect [
  | settled x ↦ true
  | without ↦ false
  | publishing x ↦ false
  | unsure x ↦ false
]

abbrev pub doubt_after : Event → Doubt → Doubt
doubt_after (done publishes) d = open_doubt
doubt_after (lost publishes) d = open_doubt
doubt_after (done (records e)) d = if is_settling e then settled_all else d
doubt_after (lost (records e)) open_doubt = if is_settling e then asked else open_doubt
doubt_after _ d = d

-- What may be called in doubt; the work is handed in in none, and failed only where the confirmation
-- was asked for.
abbrev pub is_allowed : Doubt → Action → Bool
is_allowed settled_all x = true
is_allowed open_doubt (submits sha) = false
is_allowed open_doubt completes = false
is_allowed open_doubt (fails c) = false
is_allowed asked (submits sha) = false
is_allowed asked completes = false
is_allowed _ x = true

unfoldable pub is_cautious : Doubt → List Event → Bool
is_cautious d [] = true
is_cautious d (x ∷ xs) = is_allowed d (action_of x) && is_cautious (doubt_after x d) xs

-- The artifact was read back, in a call so far that answered.
unfoldable pub has_read_back : Artifact → List Event → Bool
has_read_back a [] = false
has_read_back a (x ∷ h) =
    (elim x [ done (verifies b) ↦ same_artifact a b | _ ↦ false ]) || has_read_back a h

abbrev pub is_confirmation : Text → List Event → Entry → Bool
is_confirmation x h e = elim e.effect [
  | settled y ↦ same y x && (elim e.artifact [ some a ↦ has_read_back a h | none ↦ false ])
  | without ↦ false
  | publishing y ↦ false
  | unsure y ↦ false
]

-- The effect was recorded as confirmed, in a call that answered, with an artifact that had been read
-- back.
unfoldable pub is_confirmed : Text → List Event → Bool
unfolding has_read_back
is_confirmed x [] = false
is_confirmed x (c ∷ h) =
    (elim c [ done (records e) ↦ is_confirmation x h e | _ ↦ false ]) || is_confirmed x h

abbrev pub is_backed_call : (Text → Text) → List Event → Event → Bool
is_backed_call effect_of h (done (submits sha)) = is_confirmed (effect_of sha) h
is_backed_call effect_of h (lost (submits sha)) = is_confirmed (effect_of sha) h
is_backed_call effect_of h _ = true

-- Every submission follows the confirmation of the effect of its commit; `h` is what was called
-- before, the latest call first.
unfoldable pub is_backed : (Text → Text) → List Event → List Event → Bool
is_backed effect_of h [] = true
is_backed effect_of h (x ∷ xs) = is_backed_call effect_of h x && is_backed effect_of (x ∷ h) xs

-- The number is that of the next checkpoint, where the stage records one.
abbrev pub is_next : Stage → ℕ → Bool
is_next (announced x) n = n == 2
is_next (published x) n = n == 2
is_next (assured x a) n = n == 2
is_next (confirmed x) n = true
is_next doubtful n = true
is_next recorded_check n = true
is_next handed_in n = true
is_next given_up n = true
is_next broken n = true
is_next _ n = n == 1

-- What doubt a stage may stand in.
abbrev pub is_sure : Stage → Doubt → Bool
is_sure (published x) asked = false
is_sure (published x) d = true
is_sure (assured x a) open_doubt = true
is_sure (assured x a) settled_all = true
is_sure (assured x a) asked = false
is_sure doubtful d = true
is_sure given_up d = true
is_sure broken settled_all = true
is_sure broken asked = true
is_sure broken open_doubt = false
is_sure s settled_all = true
is_sure s open_doubt = false
is_sure s asked = false

-- The artifacts that are read back in a stage, and the effect that is confirmed.
abbrev pub knows_artifact : Stage → Artifact → Bool
knows_artifact (assured x a) b = same_artifact b a
knows_artifact (reassured a) b = same_artifact b a
knows_artifact _ b = false

abbrev pub knows_effect : Stage → Text → Bool
knows_effect (confirmed x) y = same x y
knows_effect _ y = false

module _ (fenced : Bool) (effect_of : Text → Text) where
  -- What a run calls, up to a stage.
  unfoldable pub reached : Stage → List Event → Option Stage
  unfolding next_event
  reached s [] = some s
  reached s (x ∷ xs) = elim (next_event fenced effect_of s x) [
    | none ↦ none
    | some t ↦ reached t xs
  ]
