-- ===== src/Store/Operations/Expiry.antt =====
-- app/store.py: `iso`, the order of the texts it gives, and the recovery of leases by that order.
use engineering_worker_pool.Base.{
  ℕ, zero, suc, ◌+◌, ◌/◌, ◌%◌, ◌<◌, ◌≡◌, ◌⊎◌, inl, inr, ◌∙◌, refl, sym, ap, true, not, Bool, [],
  ◌∷◌, ◌++◌, Text, Time, arith, length, Bool-cases, iso_le, ltb, iso_rank, ◌==◌, if◌then◌else◌,
}
use engineering_worker_pool.Store.Claim.{text_lt}
use engineering_worker_pool.Store.Operations.Order.{text_lt_asym, text_lt_irrefl}

-- The last `k` digits of a number.
unfoldable pub digits : ℕ → ℕ → Text
digits zero n = []
digits (suc k) n = digits k (n / 10) ++ ((48 + n % 10) ∷ [])

-- The fraction and the zone: "Z" on a whole second, and else "." with six digits before it.
unfoldable pub fraction : ℕ → Text
unfolding digits
fraction n = if n == 0 then 90 ∷ [] else 46 ∷ (digits 6 n ++ 90 ∷ [])

-- `iso`, where `to_second` is the text up to the second.
unfoldable pub iso_text : (ℕ → Text) → Time → Text
unfolding fraction
iso_text to_second t = to_second (t / 1000000) ++ fraction (t % 1000000)

text_lt-append :
    (p q x y : Text) → length p ≡ length q → text_lt p q ≡ true → text_lt (p ++ x) (q ++ y) ≡ true
unfolding text_lt
text_lt-append [] [] x y n h = absurd (cc)
text_lt-append [] (e ∷ q) x y n h = absurd (omega arith)
text_lt-append (c ∷ p) [] x y n h = absurd (cc)
text_lt-append (c ∷ p) (e ∷ q) x y n h = ground (arith, text_lt-append p q x y)

text_lt-append_same : (p x y : Text) → text_lt (p ++ x) (p ++ y) ≡ text_lt x y
unfolding text_lt
text_lt-append_same [] x y = refl
text_lt-append_same (c ∷ p) x y = ground (arith, text_lt-append_same p x y)

length-snoc : (s : Text) (c : ℕ) → length (s ++ c ∷ []) ≡ suc (length s)
length-snoc [] c = refl
length-snoc (d ∷ s) c = ap suc (length-snoc s c)

length-digits : (k n : ℕ) → length (digits k n) ≡ k
unfolding digits
length-digits zero n = refl
length-digits (suc k) n = length-snoc (digits k (n / 10)) _ ∙ ap suc (length-digits k (n / 10))

-- A number that `k` digits hold.
abbrev fits : ℕ → ℕ → Bool
fits zero n = n == 0
fits (suc k) n = fits k (n / 10)

text_lt-digits :
    (k a b : ℕ)
    → fits k a ≡ true
    → fits k b ≡ true
    → a < b
    → text_lt (digits k a) (digits k b) ≡ true
unfolding digits text_lt
text_lt-digits zero a b f g h = absurd (ground arith)
text_lt-digits (suc k) a b f g h = elim (Bool-cases (a / 10 == b / 10)) [
  | inl e ↦
      let same_tens : a / 10 ≡ b / 10 = ground arith in
      let first =
        text_lt-append_same (digits k (b / 10)) ((48 + a % 10) ∷ []) ((48 + b % 10) ∷ []) in
      rw same_tens (first ∙ ground arith)
  | inr e ↦
      text_lt-append (digits k (a / 10)) (digits k (b / 10)) _ _
        (length-digits k (a / 10) ∙ sym (length-digits k (b / 10)))
        (text_lt-digits k (a / 10) (b / 10) f g (ground arith))
]

-- Within a second, the whole one comes last.
text_lt-fraction :
    (a b : ℕ)
    → a < 1000000
    → b < 1000000
    → (0 < a) × ((a < b) ⊎ (b ≡ 0))
    → text_lt (fraction a) (fraction b) ≡ true
unfolding fraction text_lt
text_lt-fraction a b f g (p, inr z) = ground arith
text_lt-fraction a b f g (p, inl h) =
    let body =
      text_lt-append (digits 6 a) (digits 6 b) (90 ∷ []) (90 ∷ [])
        (length-digits 6 a ∙ sym (length-digits 6 b))
        (text_lt-digits 6 a b (ground arith) (ground arith) h) in
    ground (arith, body)

trichotomy : (m n : ℕ) → (m < n) ⊎ ((m ≡ n) ⊎ (n < m))
trichotomy m n = elim (Bool-cases (ltb m n)) [
  | inl h ↦ inl (ground arith)
  | inr h ↦ elim (Bool-cases (m == n)) [
    | inl e ↦ inr (inl (ground arith))
    | inr e ↦ inr (inr (ground arith))
  ]
]

rank-fraction :
    (a b : Time)
    → a / 1000000 ≡ b / 1000000
    → iso_rank a < iso_rank b
    → (0 < a % 1000000) × ((a % 1000000 < b % 1000000) ⊎ (b % 1000000 ≡ 0))
rank-fraction a b e h = elim (Bool-cases (b % 1000000 == 0)) [
  | inl z ↦ (ground arith, inr (ground arith))
  | inr z ↦ (ground arith, inl (ground arith))
]

iso_rank-eq : (a b : Time) → iso_rank a ≡ iso_rank b → a ≡ b
iso_rank-eq a b h = ground arith

module _ (to_second : ℕ → Text) (width : (a b : ℕ) → length (to_second a) ≡ length (to_second b))
    (ordered : (a b : ℕ) → a < b → text_lt (to_second a) (to_second b) ≡ true) where
  iso_text-rank :
      (a b : Time)
      → iso_rank a < iso_rank b
      → text_lt (iso_text to_second a) (iso_text to_second b) ≡ true
  unfolding iso_text
  iso_text-rank a b h = elim (Bool-cases (a / 1000000 == b / 1000000)) [
    | inl e ↦
        let same_second : a / 1000000 ≡ b / 1000000 = ground arith in
        rw same_second (
          text_lt-append_same (to_second (b / 1000000)) _ _
          ∙ text_lt-fraction (a % 1000000) (b % 1000000) (omega arith) (omega arith)
              (rank-fraction a b same_second h))
    | inr e ↦
        text_lt-append (to_second (a / 1000000)) (to_second (b / 1000000)) _ _
          (width (a / 1000000) (b / 1000000)) (ordered (a / 1000000) (b / 1000000) (ground arith))
  ]

  -- The order of instants that the model takes for that of SQL is the order of the texts of `iso`,
  -- where the texts up to the second have one width and are in the order of the seconds.
  pub iso_le-texts :
      (a b : Time) → iso_le a b ≡ not (text_lt (iso_text to_second b) (iso_text to_second a))
  iso_le-texts a b = elim (trichotomy (iso_rank a) (iso_rank b)) [
    | inl h ↦
        ground
          (arith, text_lt_asym (iso_text to_second a) (iso_text to_second b) (iso_text-rank a b h))
    | inr (inl e) ↦ rw (iso_rank-eq a b e) (ground (arith, text_lt_irrefl (iso_text to_second b)))
    | inr (inr h) ↦ ground (arith, iso_text-rank b a h)
  ]
