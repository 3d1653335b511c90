-- ===== src/Executor/Paths.antt =====
-- The paths that a run normalises: the parts of a text, and the text of parts.
use engineering_worker_pool.Base.{
  ℕ, ◌≡◌, refl, sym, ap, ◌∙◌, Bool, true, false, not, ◌&&◌, ◌||◌, List, [], ◌∷◌, ◌++◌, Text, arith,
  codes, same, nonempty, has_char, ◌==◌, All, any, starts_with, Bool-cases, inl, inr, text_discrete,
}
use engineering_worker_pool.Executor.Manifest.{
  segments_from, drop_empty, root_of, relative_parts, parts_of, join_parts, posix_of, as_posix,
  safe_path,
}
use engineering_worker_pool.Executor.Run.{◌>>=◌, outcome, answered}

append_nil : (s : Text) → s ++ [] ≡ s
append_nil [] = refl
append_nil (c ∷ s) = ap (λ t. c ∷ t) (append_nil s)

append_assoc : (s t u : Text) → (s ++ t) ++ u ≡ s ++ (t ++ u)
append_assoc [] t u = refl
append_assoc (c ∷ s) t u = ap (λ v. c ∷ v) (append_assoc s t u)

has_char-append : (c : ℕ) (s t : Text) → has_char c (s ++ t) ≡ (has_char c s || has_char c t)
has_char-append c [] t = refl
has_char-append c (d ∷ s) t = ground (arith, has_char-append c s t)

-- A part of a path: it has no slash, is not empty and is not ".".
abbrev is_free : Text → Bool
is_free p = not (has_char b'/' p)

abbrev is_part : Text → Bool
is_part p = is_free p && nonempty p && not (same p (codes "."))

abbrev AllFree : List Text → Type 0
AllFree ps = All (λ p. is_free p ≡ true) ps

abbrev AllParts : List Text → Type 0
AllParts ps = All (λ p. is_part p ≡ true) ps

segments_from-AllFree : (part s : Text) → is_free part ≡ true → AllFree (segments_from part s)
unfolding segments_from
segments_from-AllFree part [] h = (h, tt)
segments_from-AllFree part (c ∷ s) h = elim (Bool-cases (c == b'/')) [
  | inl e ↦ rw (segments_from, e) (h, segments_from-AllFree [] s refl)
  | inr e ↦
      rw (segments_from, e)
        (segments_from-AllFree (part ++ c ∷ []) s
          (ground (arith, has_char-append 47 part (c ∷ []))))
]

drop_empty-AllParts : (ps : List Text) → AllFree ps → AllParts (drop_empty ps)
unfolding drop_empty
drop_empty-AllParts [] h = tt
drop_empty-AllParts (p ∷ ps) h = elim (Bool-cases (not (nonempty p) || same p (codes "."))) [
  | inl e ↦ rw (drop_empty, e) (drop_empty-AllParts ps h.1)
  | inr e ↦ rw (drop_empty, e) (ground (arith, h.0), drop_empty-AllParts ps h.1)
]

segments_from-free :
    (part p s : Text) → is_free p ≡ true → segments_from part (p ++ s) ≡ segments_from (part ++ p) s
unfolding segments_from
segments_from-free part [] s h = ap (λ q. segments_from q s) (sym (append_nil part))
segments_from-free part (c ∷ p) s h =
    let other : (c == b'/') ≡ false = ground arith in
    rw (segments_from, other)
      (segments_from-free (part ++ c ∷ []) p s (ground arith)
        ∙ ap (λ q. segments_from q s) (append_assoc part (c ∷ []) p))

segments_from-join_parts :
    (p : Text) (ps : List Text) → AllFree (p ∷ ps) → segments_from [] (join_parts (p ∷ ps)) ≡ p ∷ ps
unfolding segments_from join_parts
segments_from-join_parts p [] h =
    ap (λ q. segments_from [] q) (sym (append_nil p)) ∙ segments_from-free [] p [] h.0
segments_from-join_parts p (q ∷ ps) h =
    ap (segments_from []) (append_assoc p (codes "/") (join_parts (q ∷ ps)))
    ∙ segments_from-free [] p (codes "/" ++ join_parts (q ∷ ps)) h.0
    ∙ ap (λ qs. p ∷ qs) (segments_from-join_parts q ps h.1)

AllParts-AllFree : (ps : List Text) → AllParts ps → AllFree ps
AllParts-AllFree [] h = tt
AllParts-AllFree (p ∷ ps) h = (ground (arith, h.0), AllParts-AllFree ps h.1)

drop_empty-AllParts_same : (ps : List Text) → AllParts ps → drop_empty ps ≡ ps
unfolding drop_empty
drop_empty-AllParts_same [] h = refl
drop_empty-AllParts_same (p ∷ ps) h =
    let kept : (not (nonempty p) || same p (codes ".")) ≡ false = ground (arith, h.0) in
    rw (drop_empty, kept) (ap (λ qs. p ∷ qs) (drop_empty-AllParts_same ps h.1))

relative_parts-posix_of : (ps : List Text) → AllParts ps → relative_parts (posix_of [] ps) ≡ ps
unfolding relative_parts posix_of segments_from drop_empty text_discrete
relative_parts-posix_of [] h = refl
relative_parts-posix_of (p ∷ ps) h =
    ap drop_empty (segments_from-join_parts p ps (AllParts-AllFree (p ∷ ps) h))
    ∙ drop_empty-AllParts_same (p ∷ ps) h

root_of-posix_of : (ps : List Text) → AllParts ps → root_of (posix_of [] ps) ≡ []
unfolding root_of posix_of join_parts starts_with
root_of-posix_of [] h = refl
root_of-posix_of ([] ∷ ps) h = absurd (ground (arith, h.0))
root_of-posix_of ((c ∷ p) ∷ []) h = ground (arith, h.0)
root_of-posix_of ((c ∷ p) ∷ q ∷ ps) h = ground (arith, h.0)

parts_of-relative : (v : Text) → root_of v ≡ [] → parts_of v ≡ relative_parts v
unfolding parts_of
parts_of-relative v h = rw (parts_of, h) refl

AllParts-relative_parts : (v : Text) → AllParts (relative_parts v)
unfolding relative_parts
AllParts-relative_parts v =
    drop_empty-AllParts (segments_from [] v) (segments_from-AllFree [] v refl)

-- Texts without a character.
abbrev AllWithout : ℕ → List Text → Type 0
AllWithout c ps = All (λ p. has_char c p ≡ false) ps

segments_from-AllWithout :
    (k : ℕ) (part s : Text)
    → has_char k part ≡ false
    → has_char k s ≡ false
    → AllWithout k (segments_from part s)
unfolding segments_from
segments_from-AllWithout k part [] h w = (h, tt)
segments_from-AllWithout k part (c ∷ s) h w = elim (Bool-cases (c == b'/')) [
  | inl e ↦ rw (segments_from, e) (h, segments_from-AllWithout k [] s refl (ground arith))
  | inr e ↦
      rw (segments_from, e)
        (segments_from-AllWithout k (part ++ c ∷ []) s
          (ground (arith, has_char-append k part (c ∷ []))) (ground arith))
]

drop_empty-AllWithout : (k : ℕ) (ps : List Text) → AllWithout k ps → AllWithout k (drop_empty ps)
unfolding drop_empty
drop_empty-AllWithout k [] h = tt
drop_empty-AllWithout k (p ∷ ps) h = elim (Bool-cases (not (nonempty p) || same p (codes "."))) [
  | inl e ↦ rw (drop_empty, e) (drop_empty-AllWithout k ps h.1)
  | inr e ↦ rw (drop_empty, e) (h.0, drop_empty-AllWithout k ps h.1)
]

join_parts-without : (ps : List Text) → AllWithout 92 ps → has_char 92 (join_parts ps) ≡ false
unfolding join_parts
join_parts-without [] h = refl
join_parts-without (p ∷ []) h = h.0
join_parts-without (p ∷ q ∷ ps) h = ground (
  arith,
  h.0,
  has_char-append 92 p (codes "/"),
  has_char-append 92 (p ++ codes "/") (join_parts (q ∷ ps)),
  join_parts-without (q ∷ ps) h.1,
)

posix_of-without : (ps : List Text) → AllWithout 92 ps → has_char 92 (posix_of [] ps) ≡ false
unfolding posix_of
posix_of-without [] h = refl
posix_of-without (p ∷ ps) h = join_parts-without (p ∷ ps) h

relative_parts-AllWithout : (v : Text) → has_char 92 v ≡ false → AllWithout 92 (relative_parts v)
unfolding relative_parts
relative_parts-AllWithout v h =
    drop_empty-AllWithout 92 (segments_from [] v) (segments_from-AllWithout 92 [] v refl h)

no_dots :
    (ps : List Text)
    → any (starts_with (codes ".")) ps ≡ false
    → any (λ p. same p (codes "..")) ps ≡ false
unfolding any starts_with
no_dots [] h = refl
no_dots (p ∷ ps) h = ground (arith, no_dots ps)

as_posix-relative : (v : Text) → root_of v ≡ [] → as_posix v ≡ posix_of [] (relative_parts v)
unfolding as_posix
as_posix-relative v h = rw (as_posix, h) refl

safe_path-answers :
    (v q : Text)
    → outcome (safe_path v) ≡ answered q
    → (q ≡ as_posix v)
      × (root_of v ≡ [])
      × (has_char 92 v ≡ false)
      × (any (starts_with (codes ".")) (parts_of v) ≡ false)
unfolding safe_path outcome ◌>>=◌
safe_path-answers v q h = ground arith

-- A path that is accepted is relative and has no backslash; it has the parts of the text that was
-- given, and none of them is "..", or begins with a dot.
pub safe_path-confined :
    (v q : Text)
    → outcome (safe_path v) ≡ answered q
    → (root_of q ≡ [])
      × (has_char 92 q ≡ false)
      × (parts_of q ≡ parts_of v)
      × (any (starts_with (codes ".")) (parts_of q) ≡ false)
      × (any (λ p. same p (codes "..")) (parts_of q) ≡ false)
safe_path-confined v q h =
    let found = safe_path-answers v q h in
    let path : q ≡ posix_of [] (relative_parts v) = found.0 ∙ as_posix-relative v found.1 in
    let root : root_of q ≡ [] =
      ap root_of path ∙ root_of-posix_of (relative_parts v) (AllParts-relative_parts v) in
    let parts : parts_of q ≡ parts_of v =
      parts_of-relative q root
      ∙ (ap relative_parts path
          ∙ (relative_parts-posix_of (relative_parts v) (AllParts-relative_parts v)
              ∙ sym (parts_of-relative v found.1))) in
    (
      root,
      ap (has_char 92) path
          ∙ posix_of-without (relative_parts v) (relative_parts-AllWithout v found.2),
      parts,
      rw parts found.3,
      rw parts (no_dots (parts_of v) found.3),
    )
