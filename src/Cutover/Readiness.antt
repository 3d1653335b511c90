-- ===== src/Cutover/Readiness.antt =====
-- When an evaluation says that the pool is ready.
use engineering_worker_pool.Base.{
  ◌≡◌, refl, ◌∙◌, Bool, true, false, not, ◌&&◌, List, [], ◌∷◌, ◌++◌, none, some, Text, arith, codes,
  find, Option-cases, inl, inr,
}
use engineering_worker_pool.Store.Admission.{sort_texts, insert_sorted}
use engineering_worker_pool.Cutover.{
  Value, Field, Policy, get, has_key, is_text_value, str_or_empty, is_filled, is_bad_commit,
  is_empty, block_if, missing_identity, identity_blockers, is_identical, field_blockers,
  evidence_blockers, decide, evaluate, exit_status,
}

-- What the policy asks of the evidence, read off without the blockers.
unfoldable pub are_filled : List Text → List Field → Bool
are_filled [] evidence = true
are_filled (k ∷ ks) evidence = is_filled (get k evidence) && are_filled ks evidence

abbrev pub has_identity : Policy → List Field → Bool
has_identity policy evidence =
    are_filled policy.identity_fields evidence
    && not (is_bad_commit (get (codes "reqsys_sha") evidence))
    && not (is_bad_commit (get (codes "worker_pool_sha") evidence))
    && is_text_value (get (codes "contract_version") evidence)
        (str_or_empty policy.expected_contract_version)

insert_sorted-is_empty : (k : Text) (ks : List Text) → is_empty (insert_sorted k ks) ≡ false
unfolding insert_sorted
insert_sorted-is_empty k [] = refl
insert_sorted-is_empty k (l ∷ ls) = ground arith

is_empty-sort_texts : (ks : List Text) → is_empty (sort_texts ks) ≡ is_empty ks
unfolding sort_texts
is_empty-sort_texts [] = refl
is_empty-sort_texts (k ∷ ks) = insert_sorted-is_empty k (sort_texts ks)

is_empty-append : (xs ys : List Text) → is_empty (xs ++ ys) ≡ (is_empty xs && is_empty ys)
is_empty-append [] ys = refl
is_empty-append (x ∷ xs) ys = refl

is_empty-block_if : (b : Bool) (t : Text) → is_empty (block_if b t) ≡ not b
is_empty-block_if true t = refl
is_empty-block_if false t = refl

is_empty-missing_identity :
    (ks : List Text) (evidence : List Field)
    → is_empty (missing_identity ks evidence) ≡ are_filled ks evidence
unfolding missing_identity are_filled
is_empty-missing_identity [] evidence = refl
is_empty-missing_identity (k ∷ ks) evidence =
    rw
      (
        is_empty-append
            (block_if (not (is_filled (get k evidence))) (codes "identity_missing:" ++ k))
            (missing_identity ks evidence),
        is_empty-missing_identity ks evidence,
        is_empty-block_if (not (is_filled (get k evidence))) (codes "identity_missing:" ++ k),
      )
      (ground arith)

module _ (is_same_object : Value → Value → Bool) where
  abbrev pub is_met : Field → List Field → Bool
  is_met expected evidence = elim (find (has_key expected.key) evidence) [
    | none ↦ false
    | some found ↦ is_identical is_same_object found.value expected.value
  ]

  unfoldable pub are_met : List Field → List Field → Bool
  are_met [] evidence = true
  are_met (f ∷ fs) evidence = is_met f evidence && are_met fs evidence

  is_empty-field_blockers :
      (f : Field) (evidence : List Field)
      → is_empty (field_blockers is_same_object f evidence) ≡ is_met f evidence
  is_empty-field_blockers f evidence = ground arith

  is_empty-evidence_blockers :
      (fs evidence : List Field)
      → is_empty (evidence_blockers is_same_object fs evidence) ≡ are_met fs evidence
  unfolding evidence_blockers are_met
  is_empty-evidence_blockers [] evidence = refl
  is_empty-evidence_blockers (f ∷ fs) evidence =
      rw
        (
          is_empty-append (field_blockers is_same_object f evidence)
              (evidence_blockers is_same_object fs evidence),
          is_empty-evidence_blockers fs evidence,
          is_empty-field_blockers f evidence,
        )
        refl

is_empty-identity_blockers :
    (policy : Policy) (evidence : List Field)
    → is_empty (identity_blockers policy evidence) ≡ has_identity policy evidence
unfolding identity_blockers
is_empty-identity_blockers policy evidence =
    rw
      (
        is_empty-append (missing_identity policy.identity_fields evidence) _,
        is_empty-missing_identity policy.identity_fields evidence,
      )
      (ground arith)

-- The report says ready exactly where every identity field is filled, the two commits are well formed
-- where they are given, the contract is the expected one, and every required evidence is there with
-- the value asked for.
pub is_ready-decide :
    (is_same_object : Value → Value → Bool) (policy : Policy) (required evidence : List Field)
    → (decide is_same_object policy required evidence).is_ready
      ≡ (has_identity policy evidence && are_met is_same_object required evidence)
unfolding decide
is_ready-decide is_same_object policy required evidence =
    is_empty-sort_texts
      (identity_blockers policy evidence ++ evidence_blockers is_same_object required evidence)
    ∙ (is_empty-append (identity_blockers policy evidence)
          (evidence_blockers is_same_object required evidence)
        ∙ rw
            (
              is_empty-identity_blockers policy evidence,
              is_empty-evidence_blockers is_same_object required evidence,
            )
            refl)

-- The process ends with 0 only where the policy is of the known version and fails closed, it asks for
-- some evidence, and the evidence is as the policy asks.
pub exit_status-ready :
    (is_same_object : Value → Value → Bool) (policy : Policy) (evidence : List Field)
    → exit_status (evaluate is_same_object policy evidence) ≡ 0
    → (is_text_value policy.schema_version (codes "1.0.0") ≡ true)
      × (is_text_value policy.decision_mode (codes "fail_closed") ≡ true)
      × ((required : List Field) × (policy.required_evidence ≡ some required)
          × (is_empty required ≡ false)
          × (has_identity policy evidence && are_met is_same_object required evidence ≡ true))
unfolding evaluate
exit_status-ready is_same_object policy evidence h = elim (Option-cases policy.required_evidence) [
  | inl n ↦ absurd (ground (arith, h, n))
  | inr ([], n) ↦ absurd (ground (arith, h, n))
  | inr (f ∷ fs, n) ↦ (
    ground (arith, h, n),
    ground (arith, h, n),
    (
      f ∷ fs,
      n,
      refl,
      ground (arith, h, n, is_ready-decide is_same_object policy (f ∷ fs) evidence),
    ),
  )
]
