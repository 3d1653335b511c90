-- ===== src/Base/Texts.antt =====
-- Text as a list of code points. Case is mapped for ASCII letters only; white space is Python's.
use Prim.Native.Char.{code}
use Prim.Native.String.{String}
use Prim.Native.Nat.{ℕ, zero, suc, ◌+◌, ◌-◌, ◌/◌, ◌%◌}
use mathlib.Core.Path.{◌≡◌, refl}
use mathlib.Core.Bool.{Bool, true, false, ◌&&◌, ◌||◌}
use mathlib.Core.Option.{Option, none, some}
use mathlib.Core.List.{List, [], ◌∷◌, map, reverse}
use native.Mathlib.Omega.{arith}
use native.Mathlib.Decide.{ℕ_discrete}
use engineering_worker_pool.Base.Tests.{ltb, leb, ◌==◌, if◌then◌else◌}

abbrev pub Text : Type 0
Text = List ℕ

-- The code points of a literal.
abbrev pub codes : String → Text
codes String.[] = []
codes (String.◌∷◌ c s) = code c ∷ codes s

unfoldable pub text_discrete : Discrete Text
unfolding ℕ_discrete
text_discrete [] [] = yes refl
text_discrete [] (d ∷ t) = no λ e. absurd (cc)
text_discrete (c ∷ s) [] = no λ e. absurd (cc)
text_discrete (c ∷ s) (d ∷ t) = elim (ℕ_discrete c d) [
  | no n ↦ no λ e. absurd (n (cc))
  | yes p ↦ elim (text_discrete s t) [ no n ↦ no λ e. absurd (n (cc)) | yes q ↦ yes (cc) ]
]

-- `a == b` on two texts.
abbrev pub same : Text → Text → Bool
same a b = elim (text_discrete a b) [ yes _ ↦ true | no _ ↦ false ]

-- `a == b` where `a` may be NULL.
abbrev pub is_text : Option Text → Text → Bool
is_text none _ = false
is_text (some a) b = same a b

-- Python's truth value of a text, and of an optional text.
abbrev pub nonempty : Text → Bool
nonempty [] = false
nonempty (_ ∷ _) = true

abbrev pub truthy : Option Text → Bool
truthy none = false
truthy (some a) = nonempty a

-- `a or None`.
abbrev pub or_none : Text → Option Text
or_none [] = none
or_none (c ∷ s) = some (c ∷ s)

pub same_refl : (a : Text) → same a a ≡ true
same_refl a = ground arith

pub same-eq : (a b : Text) → same a b ≡ true → a ≡ b
same-eq a b h = ground arith

-- The characters that `str.isspace` accepts.
unfoldable pub is_space : ℕ → Bool
is_space c =
    (leb 9 c && leb c 13)
    || (leb 28 c && leb c 32)
    || (c == 0x85)
    || (c == 0xa0)
    || (c == 0x1680)
    || (leb 0x2000 c && leb c 0x200a)
    || (c == 0x2028)
    || (c == 0x2029)
    || (c == 0x202f)
    || (c == 0x205f)
    || (c == 0x3000)

unfoldable pub lstrip : Text → Text
unfolding is_space
lstrip [] = []
lstrip (c ∷ s) = if is_space c then lstrip s else c ∷ s

unfoldable pub strip : Text → Text
unfolding lstrip
strip s = reverse (lstrip (reverse (lstrip s)))

abbrev pub lower_char : ℕ → ℕ
lower_char c = if leb b'A' c && leb c b'Z' then c + 32 else c

unfoldable pub lower : Text → Text
lower s = map lower_char s

abbrev pub upper_char : ℕ → ℕ
upper_char c = if leb b'a' c && leb c b'z' then c - 32 else c

unfoldable pub upper : Text → Text
upper s = map upper_char s

abbrev pub has_char : ℕ → Text → Bool
has_char c [] = false
has_char c (d ∷ s) = (c == d) || has_char c s

-- `s.startswith(p)`
unfoldable pub starts_with : Text → Text → Bool
starts_with [] s = true
starts_with (c ∷ p) [] = false
starts_with (c ∷ p) (d ∷ s) = (c == d) && starts_with p s

-- `s.endswith(p)`
unfoldable pub ends_with : Text → Text → Bool
unfolding starts_with
ends_with p s = starts_with (reverse p) (reverse s)

-- `p in s`
unfoldable pub has_part : Text → Text → Bool
unfolding starts_with
has_part p [] = starts_with p []
has_part p (c ∷ s) = starts_with p (c ∷ s) || has_part p s

abbrev pub all_chars : (ℕ → Bool) → Text → Bool
all_chars p [] = true
all_chars p (c ∷ s) = p c && all_chars p s

abbrev pub is_digit : ℕ → Bool
is_digit c = leb b'0' c && leb c b'9'

abbrev pub is_alnum : ℕ → Bool
is_alnum c = is_digit c || (leb b'a' c && leb c b'z') || (leb b'A' c && leb c b'Z')

-- `[0-9a-f]`
abbrev pub is_hex : ℕ → Bool
is_hex c = is_digit c || (leb b'a' c && leb c b'f')

-- The decimal digits of a number, by one round for each digit at most.
unfoldable pub decimal_from : ℕ → ℕ → Text → Text
decimal_from zero n s = s
decimal_from (suc fuel) n s =
    let rest = decimal_from fuel (n / 10) ((b'0' + n % 10) ∷ s) in
    if ltb n 10 then (b'0' + n) ∷ s else rest

-- `str(n)`
unfoldable pub decimal : ℕ → Text
unfolding decimal_from
decimal n = decimal_from (suc n) n []
