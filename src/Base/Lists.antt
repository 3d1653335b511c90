-- ===== src/Base/Lists.antt =====
-- Lists as the rows of a table: the first row that fits, updates, counts, and the laws of each.
use Prim.Native.Nat.{ℕ, zero, suc, ◌+◌}
use mathlib.Core.Path.{◌≡◌, refl}
use mathlib.Core.Bool.{Bool, true, false, ◌||◌}
use mathlib.Core.Option.{Option, none, some}
use mathlib.Core.List.{List, [], ◌∷◌, ◌++◌}
use native.Mathlib.Omega.{arith}
use engineering_worker_pool.Base.Tests.{if◌then◌else◌}

-- 1 for true, to count with.
abbrev pub bit : Bool → ℕ
bit true = 1
bit false = 0

module _ {ℓ} {A : Type ℓ} where
  abbrev pub length : List A → ℕ
  length [] = 0
  length (x ∷ xs) = suc (length xs)

  abbrev pub take : ℕ → List A → List A
  take zero xs = []
  take (suc n) [] = []
  take (suc n) (x ∷ xs) = x ∷ take n xs

  -- `SELECT … WHERE p`, and its first row.
  unfoldable pub select : (A → Bool) → List A → List A
  select p [] = []
  select p (x ∷ xs) = if p x then x ∷ select p xs else select p xs

  unfoldable pub find : (A → Bool) → List A → Option A
  find p [] = none
  find p (x ∷ xs) = if p x then some x else find p xs

  -- `EXISTS(SELECT 1 … WHERE p)`
  unfoldable pub any : (A → Bool) → List A → Bool
  any p [] = false
  any p (x ∷ xs) = p x || any p xs

  -- `SELECT COUNT(*) … WHERE p`
  unfoldable pub count : (A → Bool) → List A → ℕ
  count p [] = 0
  count p (x ∷ xs) = bit (p x) + count p xs

  -- `UPDATE … SET f WHERE p`, where `p` tests a key, which one row has at most.
  unfoldable pub update : (A → Bool) → (A → A) → List A → List A
  update p f [] = []
  update p f (x ∷ xs) = if p x then f x ∷ xs else x ∷ update p f xs

  -- Every row satisfies a predicate.
  abbrev pub All {κ} : (A → Type κ) → List A → Type κ
  All P [] = Unit
  All P (x ∷ xs) = P x × All P xs

module _ {ℓ} {A : Type ℓ} where
  pub find-holds : (p : A → Bool) (xs : List A) (r : A) → find p xs ≡ some r → p r ≡ true
  unfolding find
  find-holds p [] r h = cc
  find-holds p (x ∷ xs) r h = ground (arith, find-holds p xs r)

  pub find-All {κ} :
      (P : A → Type κ) (p : A → Bool) (xs : List A) (r : A) → All P xs → find p xs ≡ some r → P r
  unfolding find
  find-All P p [] r a h = absurd (cc)
  find-All P p (x ∷ xs) r a h = ground (arith, find-All P p xs r a.1)

  pub find-update_self :
      (p : A → Bool) (f : A → A) (xs : List A) (r : A)
      → find p xs ≡ some r
      → p (f r) ≡ true
      → find p (update p f xs) ≡ some (f r)
  unfolding find update
  find-update_self p f [] r h k = cc
  find-update_self p f (x ∷ xs) r h k = ground (arith, find-update_self p f xs r)

  -- A search that neither the old row nor the new one fits does not see the update.
  pub find-update_other :
      (q p : A → Bool) (f : A → A) (xs : List A) (r : A)
      → find p xs ≡ some r
      → q r ≡ false
      → q (f r) ≡ false
      → find q (update p f xs) ≡ find q xs
  unfolding find update
  find-update_other q p f [] r h k l = refl
  find-update_other q p f (x ∷ xs) r h k l = ground (arith, find-update_other q p f xs r)

  pub any-update_other :
      (q p : A → Bool) (f : A → A) (xs : List A) (r : A)
      → find p xs ≡ some r
      → q r ≡ q (f r)
      → any q (update p f xs) ≡ any q xs
  unfolding find update any
  any-update_other q p f [] r h k = refl
  any-update_other q p f (x ∷ xs) r h k = ground (arith, any-update_other q p f xs r)

  pub find-eq_none : (p : A → Bool) (xs : List A) → any p xs ≡ false → find p xs ≡ none
  unfolding find any
  find-eq_none p [] h = refl
  find-eq_none p (x ∷ xs) h = ground (arith, find-eq_none p xs)

  pub find-append_none :
      (p : A → Bool) (xs ys : List A) → find p xs ≡ none → find p (xs ++ ys) ≡ find p ys
  unfolding find
  find-append_none p [] ys h = refl
  find-append_none p (x ∷ xs) ys h = ground (arith, find-append_none p xs ys)

  pub any-append : (p : A → Bool) (xs ys : List A) → any p (xs ++ ys) ≡ (any p xs || any p ys)
  unfolding any
  any-append p [] ys = refl
  any-append p (x ∷ xs) ys = ground (arith, any-append p xs ys)

  pub All-update {κ} :
      (P : A → Type κ) (p : A → Bool) (f : A → A) (xs : List A)
      → All P xs
      → ((r : A) → find p xs ≡ some r → P r → P (f r))
      → All P (update p f xs)
  unfolding find update
  All-update P p f [] a k = tt
  All-update P p f (x ∷ xs) a k = ground (arith, k x, All-update P p f xs a.1)

  pub count-update :
      (q p : A → Bool) (f : A → A) (xs : List A) (r : A)
      → find p xs ≡ some r
      → count q (update p f xs) + bit (q r) ≡ count q xs + bit (q (f r))
  unfolding find update count
  count-update q p f [] r h = cc
  count-update q p f (x ∷ xs) r h = ground (arith, count-update q p f xs r)

  pub update-none : (p : A → Bool) (f : A → A) (xs : List A) → find p xs ≡ none → update p f xs ≡ xs
  unfolding find update
  update-none p f [] h = refl
  update-none p f (x ∷ xs) h = ground (arith, update-none p f xs)

  pub any-eq_false : (p : A → Bool) (xs : List A) → count p xs ≡ 0 → any p xs ≡ false
  unfolding any count
  any-eq_false p [] h = refl
  any-eq_false p (x ∷ xs) h = ground (arith, any-eq_false p xs)

  pub count-eq_zero : (p : A → Bool) (xs : List A) → any p xs ≡ false → count p xs ≡ 0
  unfolding any count
  count-eq_zero p [] h = refl
  count-eq_zero p (x ∷ xs) h = ground (arith, count-eq_zero p xs)

  pub All-append {κ} : (P : A → Type κ) (xs ys : List A) → All P xs → All P ys → All P (xs ++ ys)
  All-append P [] ys a b = b
  All-append P (x ∷ xs) ys a b = (a.0, All-append P xs ys a.1 b)

  pub All-map {κ} : (P Q : A → Type κ) (xs : List A) → ((x : A) → P x → Q x) → All P xs → All Q xs
  All-map P Q [] f a = tt
  All-map P Q (x ∷ xs) f a = (f x a.0, All-map P Q xs f a.1)

  pub count-append : (p : A → Bool) (xs ys : List A) → count p (xs ++ ys) ≡ count p xs + count p ys
  unfolding count
  count-append p [] ys = omega arith
  count-append p (x ∷ xs) ys = omega (arith, count-append p xs ys)

  pub find-append :
      (p : A → Bool) (xs ys : List A) (r : A) → find p xs ≡ some r → find p (xs ++ ys) ≡ some r
  unfolding find
  find-append p [] ys r h = cc
  find-append p (x ∷ xs) ys r h = ground (arith, find-append p xs ys r)

  -- What one row of a table is, given what none is.
  pub find-any :
      (q p : A → Bool) (xs : List A) (r : A) → find q xs ≡ some r → any p xs ≡ false → p r ≡ false
  unfolding find any
  find-any q p [] r h k = cc
  find-any q p (x ∷ xs) r h k = ground (arith, find-any q p xs r)

  pub any-select : (q p : A → Bool) (xs : List A) → any q xs ≡ false → any q (select p xs) ≡ false
  unfolding select any
  any-select q p [] h = refl
  any-select q p (x ∷ xs) h = ground (arith, any-select q p xs)

  pub count-select : (p : A → Bool) (xs : List A) → length (select p xs) ≡ count p xs
  unfolding select count
  count-select p [] = refl
  count-select p (x ∷ xs) = ground (arith, count-select p xs)

  pub select-All {κ} :
      (P : A → Type κ) (p : A → Bool) (xs : List A) → All P xs → All P (select p xs)
  unfolding select
  select-All P p [] a = tt
  select-All P p (x ∷ xs) a = ground (arith, select-All P p xs a.1)

  pub select-holds : (p : A → Bool) (xs : List A) → All (λ x. p x ≡ true) (select p xs)
  unfolding select
  select-holds p [] = tt
  select-holds p (x ∷ xs) = ground (arith, select-holds p xs)

  pub All-both {κ} :
      (P Q : A → Type κ) (xs : List A) → All P xs → All Q xs → All (λ x. P x × Q x) xs
  All-both P Q [] a b = tt
  All-both P Q (x ∷ xs) a b = ((a.0, b.0), All-both P Q xs a.1 b.1)
