-- ===== src/Store/Sanitize.antt =====
-- `sanitize` of app/store.py, with its patterns `BEARER` and `SECRET`, which ignore case (of ASCII
-- letters), and the other patterns of that file, `SHA40`, `SAFE_ID`, `TASK_ID` and `TARGET_BRANCH`.
use engineering_worker_pool.Base.{
  ℕ, zero, suc, Bool, true, false, ◌&&◌, ◌||◌, not, List, [], ◌∷◌, ◌++◌, Option, none, some, Text,
  codes, is_space, lower_char, lower, strip, is_alnum, is_hex, all_chars, length, take, leb, ◌==◌,
  if◌then◌else◌, same, starts_with, ends_with, has_part,
}
use engineering_worker_pool.Store.Errors.{Result, ok, err, invalid_argument}

-- `\w`, of ASCII.
abbrev pub is_word : ℕ → Bool
is_word c = is_alnum c || c == b'_'

-- `[A-Za-z0-9._~+/=-]`
abbrev pub is_token_char : ℕ → Bool
is_token_char c =
    is_alnum c
    || c == b'.'
    || c == b'_'
    || c == b'~'
    || c == b'+'
    || c == b'/'
    || c == b'='
    || c == b'-'

-- `[^\s,;]`
abbrev pub is_value_char : ℕ → Bool
is_value_char c = not (is_space c || c == b',' || c == b';')

unfoldable pub skip_while : (ℕ → Bool) → Text → Text
skip_while p [] = []
skip_while p (c ∷ s) = if p c then skip_while p s else c ∷ s

-- `p+`: what is left after one character that fits, and then all that fit.
unfoldable pub skip_some : (ℕ → Bool) → Text → Option Text
unfolding skip_while
skip_some p [] = none
skip_some p (c ∷ s) = if p c then some (skip_while p s) else none

-- A word in any case, given in lower case: the text as it stands, and the rest.
unfoldable pub match_word : Text → Text → Option (Text × Text)
match_word [] s = some ([], s)
match_word (c ∷ p) [] = none
match_word (c ∷ p) (d ∷ s) = elim (match_word p s) [
  | none ↦ none
  | some (m, rest) ↦ if lower_char d == c then some (d ∷ m, rest) else none
]

-- `Bearer\s+[A-Za-z0-9._~+/=-]+`: the replacement, and the rest.
unfoldable pub match_bearer : Text → Option (Text × Text)
unfolding match_word skip_some is_space
match_bearer s = elim (match_word (codes "bearer") s) [
  | none ↦ none
  | some (_, rest) ↦ elim (skip_some is_space rest) [
    | none ↦ none
    | some value ↦ elim (skip_some is_token_char value) [
      | none ↦ none
      | some after ↦ some (codes "Bearer [REDACTED]", after)
    ]
  ]
]

-- The separator and the value behind a name of `SECRET`.
unfoldable pub match_value : Text → Option Text
unfolding skip_while skip_some is_space
match_value s = elim (skip_while is_space s) [
  | [] ↦ none
  | c ∷ rest ↦
      if c == b':' || c == b'=' then skip_some is_value_char (skip_while is_space rest) else none
]

-- The alternatives of `SECRET`, an optional `[_-]` written out.
abbrev pub secret_names : List Text
secret_names =
    codes "token"
    ∷ codes "secret"
    ∷ codes "password"
    ∷ codes "passwd"
    ∷ codes "dsn"
    ∷ codes "connection_string"
    ∷ codes "connection-string"
    ∷ codes "connectionstring"
    ∷ codes "api_key"
    ∷ codes "api-key"
    ∷ codes "apikey"
    ∷ []

unfoldable pub match_secret_of : List Text → Text → Option (Text × Text)
unfolding match_word match_value
match_secret_of [] s = none
match_secret_of (n ∷ names) s =
    let others = match_secret_of names s in
    elim (match_word n s) [
      | none ↦ others
      | some (name, rest) ↦ elim (match_value rest) [
        | none ↦ others
        | some after ↦ some (name ++ codes "=[REDACTED]", after)
      ]
    ]

unfoldable pub match_secret : Text → Option (Text × Text)
unfolding match_secret_of
match_secret s = match_secret_of secret_names s

-- `pattern.sub(…)`, for a pattern that begins with `\b` and a letter; `inside` says whether the
-- character before belongs to a word. Each round takes a character, so the length is enough fuel.
unfoldable pub substitute : (Text → Option (Text × Text)) → ℕ → Bool → Text → Text
substitute found zero inside s = s
substitute found (suc fuel) inside [] = []
substitute found (suc fuel) inside (c ∷ s) =
    let skip = c ∷ substitute found fuel (is_word c) s in
    if inside then skip else elim (found (c ∷ s)) [
      | none ↦ skip
      | some (new, rest) ↦ new ++ substitute found fuel true rest
    ]

unfoldable pub sanitize : Text → Text
unfolding substitute match_bearer match_secret
sanitize value =
    let masked = substitute match_bearer (length value) false value in
    take 1000 (substitute match_secret (length masked) false masked)

-- `SHA40.fullmatch`
abbrev pub is_sha40 : Text → Bool
is_sha40 s = length s == 40 && all_chars is_hex s

-- `[0-9a-f]{64}`
abbrev pub is_sha256 : Text → Bool
is_sha256 s = length s == 64 && all_chars is_hex s

abbrev pub is_id_char : ℕ → Bool
is_id_char c = is_alnum c || c == b'.' || c == b'_' || c == b':' || c == b'-'

-- `SAFE_ID.fullmatch`
unfoldable pub is_safe_id : Text → Bool
is_safe_id [] = false
is_safe_id (c ∷ s) = is_alnum c && all_chars is_id_char s && leb (length s) 127

-- `TASK_ID.fullmatch`
unfoldable pub is_task_id : Text → Bool
unfolding starts_with
is_task_id s = starts_with (codes "cwp-") s && length s == 28 && all_chars is_hex (skip_prefix s)
  where
    skip_prefix : Text → Text
    skip_prefix (_ ∷ _ ∷ _ ∷ _ ∷ hex) = hex
    skip_prefix _ = []

abbrev pub is_branch_char : ℕ → Bool
is_branch_char c = is_alnum c || c == b'.' || c == b'_' || c == b'/' || c == b'-'

-- `TARGET_BRANCH.fullmatch`
unfoldable pub is_target_branch : Text → Bool
is_target_branch [] = false
is_target_branch (c ∷ s) = is_alnum c && all_chars is_branch_char s && leb (length s) 199

-- `PROTECTED_TARGET_BRANCHES`
abbrev pub is_protected : Text → Bool
is_protected s = same s (codes "main") || same s (codes "master") || same s (codes "develop")

-- `validate_target_branch`
unfoldable pub validate_target_branch : Text → Result Text
unfolding strip is_target_branch lower has_part ends_with
validate_target_branch value =
    let normalized = strip value in
    if not (is_target_branch normalized)
    then err invalid_argument
    else if is_protected (lower normalized)
    then err invalid_argument
    else if has_part (codes "..") normalized
        || has_part (codes "//") normalized
        || ends_with (codes "/") normalized
        || ends_with (codes ".") normalized
        || ends_with (codes ".lock") normalized
    then err invalid_argument
    else ok normalized
