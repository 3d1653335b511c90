-- ===== src/Store/Operations/Order.antt =====
-- app/store.py: the order of SQL on rows of keys, and the first row by it.
use engineering_worker_pool.Base.{
  ◌≡◌, inl, inr, refl, subst, true, false, List, [], ◌∷◌, none, some, Text, arith, All, All-map,
  Bool-cases, Option-cases,
}
use engineering_worker_pool.Store.Claim.{text_lt, key_lt, first_by}

pub text_lt_asym : (s t : Text) → text_lt s t ≡ true → text_lt t s ≡ false
unfolding text_lt
text_lt_asym [] [] h = refl
text_lt_asym [] (e ∷ t) h = refl
text_lt_asym (c ∷ s) [] h = cc
text_lt_asym (c ∷ s) (e ∷ t) h = ground (arith, text_lt_asym s t)

pub text_lt_irrefl : (s : Text) → text_lt s s ≡ false
unfolding text_lt
text_lt_irrefl [] = refl
text_lt_irrefl (c ∷ s) = ground (arith, text_lt_irrefl s)

text_lt_total : (s t : Text) → text_lt s t ≡ false → text_lt t s ≡ false → s ≡ t
unfolding text_lt
text_lt_total [] [] h k = refl
text_lt_total [] (e ∷ t) h k = absurd (cc)
text_lt_total (c ∷ s) [] h k = absurd (cc)
text_lt_total (c ∷ s) (e ∷ t) h k = ground (arith, text_lt_total s t)

-- Whatever is not below `t`, and `t` not below `u`, is not below `u`.
text_lt_trans : (s t u : Text) → text_lt s t ≡ false → text_lt t u ≡ false → text_lt s u ≡ false
unfolding text_lt
text_lt_trans s t [] h k = refl
text_lt_trans [] [] (g ∷ u) h k = cc
text_lt_trans [] (e ∷ t) (g ∷ u) h k = absurd (cc)
text_lt_trans (c ∷ s) [] (g ∷ u) h k = absurd (cc)
text_lt_trans (c ∷ s) (e ∷ t) (g ∷ u) h k = ground (arith, text_lt_trans s t u)

key_lt_asym : (ks ls : List Text) → key_lt ks ls ≡ true → key_lt ls ks ≡ false
unfolding key_lt
key_lt_asym [] [] h = refl
key_lt_asym [] (l ∷ ls) h = refl
key_lt_asym (k ∷ ks) [] h = cc
key_lt_asym (k ∷ ks) (l ∷ ls) h =
    ground (arith, text_lt_asym k l, text_lt_irrefl k, text_lt_irrefl l, key_lt_asym ks ls)

key_lt_trans :
    (ks ls ms : List Text) → key_lt ks ls ≡ false → key_lt ls ms ≡ false → key_lt ks ms ≡ false
unfolding key_lt
key_lt_trans ks ls [] h g = refl
key_lt_trans [] [] (m ∷ ms) h g = cc
key_lt_trans [] (l ∷ ls) (m ∷ ms) h g = absurd (cc)
key_lt_trans (k ∷ ks) [] (m ∷ ms) h g = absurd (cc)
key_lt_trans (k ∷ ks) (l ∷ ls) (m ∷ ms) h g = ground (
  arith,
  text_lt_trans k l m,
  text_lt_total k l,
  text_lt_total l m,
  text_lt_total k m,
  text_lt_asym l k,
  text_lt_asym m l,
  text_lt_asym m k,
  key_lt_trans ks ls ms,
)

key_lt_irrefl : (ks : List Text) → key_lt ks ks ≡ false
unfolding key_lt
key_lt_irrefl [] = refl
key_lt_irrefl (k ∷ ks) = ground (arith, text_lt_irrefl k, key_lt_irrefl ks)

pub first_by-none {ℓ} :
    {A : Type ℓ} (key : A → List Text) (xs : List A) → first_by key xs ≡ none → xs ≡ []
unfolding first_by
first_by-none key [] h = refl
first_by-none key (y ∷ ys) h = elim (Option-cases (first_by key ys)) [
  | inl e ↦ absurd (ground arith)
  | inr (z, e) ↦ absurd (ground arith)
]

pub first_by_least {ℓ} :
    {A : Type ℓ} (key : A → List Text) (xs : List A) (x : A)
    → first_by key xs ≡ some x
    → All (λ y. key_lt (key y) (key x) ≡ false) xs
unfolding first_by
first_by_least key [] x h = tt
first_by_least {A} key (y ∷ ys) x h = elim (Option-cases (first_by key ys)) [
  | inl e ↦ alone e
  | inr (z, e) ↦
      let rest = first_by_least key ys z e in
      elim (Bool-cases (key_lt (key z) (key y))) [
        | inl lower ↦
            let here : z ≡ x = ground arith in
            subst (λ v. All (λ w. key_lt (key w) (key v) ≡ false) (y ∷ ys)) here
              (key_lt_asym (key z) (key y) lower, rest)
        | inr upper ↦
            let here : y ≡ x = ground arith in
            subst (λ v. All (λ w. key_lt (key w) (key v) ≡ false) (y ∷ ys)) here
              (
                key_lt_irrefl (key y),
                All-map (λ w. key_lt (key w) (key z) ≡ false) (λ w. key_lt (key w) (key y) ≡ false)
                    ys (λ w l. key_lt_trans (key w) (key z) (key y) l upper) rest,
              )
      ]
]
  where
    alone : first_by key ys ≡ none → All (λ w. key_lt (key w) (key x) ≡ false) (y ∷ ys)
    alone e =
        let here : y ≡ x = ground arith in
        let empty : ys ≡ [] = first_by-none key ys e in
        subst (λ v. All (λ w. key_lt (key w) (key v) ≡ false) (y ∷ ys)) here
          (rw empty (key_lt_irrefl (key y), tt))
