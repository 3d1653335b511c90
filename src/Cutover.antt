-- ===== src/Cutover.antt =====
-- scripts/evaluate_cutover_readiness.py: whether the evidence lets the old pool be removed. A JSON
-- object is a list of keys and values, the keys distinct; `is_same_object` stands for `is` on values
-- that are neither null nor a Boolean.
use engineering_worker_pool.Base.{
  ℕ, ◌≡◌, refl, ◌↔◌, Bool, true, false, not, ◌&&◌, ◌||◌, List, [], ◌∷◌, ◌++◌, Option, none, some,
  Text, arith, codes, same, nonempty, strip, lower, find, is_some, is_none, iff, if◌then◌else◌,
  Bool-cases, inl, inr,
}
use engineering_worker_pool.Store.Sanitize.{is_sha40}
use engineering_worker_pool.Store.Admission.{sort_texts, insert_sorted}
pub mod Readiness

-- A JSON value; of one that is neither null, a Boolean nor a text, its truth and its `str`.
pub data Value : Type 0 where
  null : Value
  boolean : Bool → Value
  text : Text → Value
  compound : Bool → Text → Value

pub record Field : Type 0 where
  pub key : Text
  pub value : Value

abbrev pub has_key : Text → Field → Bool
has_key k f = same f.key k

-- `evidence.get(key)`
abbrev pub get : Text → List Field → Value
get k fs = elim (find (has_key k) fs) [ none ↦ null | some f ↦ f.value ]

abbrev pub is_text_value : Value → Text → Bool
is_text_value (text a) t = same a t
is_text_value _ t = false

-- `str(value or "")`
abbrev pub str_or_empty : Value → Text
str_or_empty null = []
str_or_empty (boolean true) = codes "True"
str_or_empty (boolean false) = []
str_or_empty (text t) = t
str_or_empty (compound true t) = t
str_or_empty (compound false t) = []

-- `isinstance(value, str) and value.strip()`
abbrev pub is_filled : Value → Bool
is_filled (text t) = nonempty (strip t)
is_filled _ = false

-- The policy; `required_evidence` is none where it is not an object.
pub record Policy : Type 0 where
  pub schema_version : Value
  pub decision_mode : Value
  pub policy_name : Value
  pub required_evidence : Option (List Field)
  pub identity_fields : List Text
  pub expected_contract_version : Value
  pub available_while_legacy_present : Value
  pub allowed_fallback_scope : Value

pub data PolicyError : Type 0 where
  unsupported_policy_schema policy_must_fail_closed required_evidence_missing : PolicyError

pub record Report : Type 0 where
  pub policy_name : Value
  pub is_ready : Bool
  pub blockers : List Text
  pub legacy_removal_allowed : Bool
  pub rollback_available : Bool
  pub rollback_scope : Value
  pub reqsys_sha : Value
  pub worker_pool_sha : Value
  pub contract_version : Value
  pub correlation_id : Value

pub data Evaluation : Type 0 where
  refused : PolicyError → Evaluation
  evaluated : Report → Evaluation

abbrev pub is_true : Value → Bool
is_true (boolean b) = b
is_true _ = false

-- `if b: blockers.append(t)`
abbrev pub block_if : Bool → Text → List Text
block_if true t = t ∷ []
block_if false t = []

abbrev pub is_empty {ℓ} : {A : Type ℓ} → List A → Bool
is_empty [] = true
is_empty (x ∷ xs) = false

unfoldable pub missing_identity : List Text → List Field → List Text
missing_identity [] evidence = []
missing_identity (k ∷ ks) evidence =
    block_if (not (is_filled (get k evidence))) (codes "identity_missing:" ++ k)
    ++ missing_identity ks evidence

-- A commit that is given is well formed.
abbrev pub is_bad_commit : Value → Bool
is_bad_commit v =
    let clean = lower (strip (str_or_empty v)) in nonempty clean && not (is_sha40 clean)

-- `_identity_blockers`
unfoldable pub identity_blockers : Policy → List Field → List Text
unfolding missing_identity
identity_blockers policy evidence =
    missing_identity policy.identity_fields evidence
    ++ (block_if (is_bad_commit (get (codes "reqsys_sha") evidence))
          (codes "identity_invalid:reqsys_sha")
        ++ (block_if (is_bad_commit (get (codes "worker_pool_sha") evidence))
              (codes "identity_invalid:worker_pool_sha")
            ++ block_if
                (not (
                  is_text_value (get (codes "contract_version") evidence)
                    (str_or_empty policy.expected_contract_version)))
                (codes "contract_version_mismatch")))

module _ (is_same_object : Value → Value → Bool) where
  -- `a is b`
  unfoldable pub is_identical : Value → Value → Bool
  is_identical null null = true
  is_identical (boolean a) (boolean b) = iff a b
  is_identical a b = is_same_object a b

  abbrev pub field_blockers : Field → List Field → List Text
  field_blockers expected evidence = elim (find (has_key expected.key) evidence) [
    | none ↦ (codes "evidence_missing:" ++ expected.key) ∷ []
    | some found ↦
        block_if (not (is_identical found.value expected.value))
          (codes "evidence_mismatch:" ++ expected.key)
  ]

  unfoldable pub evidence_blockers : List Field → List Field → List Text
  unfolding is_identical
  evidence_blockers [] evidence = []
  evidence_blockers (f ∷ fs) evidence = field_blockers f evidence ++ evidence_blockers fs evidence

  unfoldable pub decide : Policy → List Field → List Field → Report
  unfolding identity_blockers evidence_blockers sort_texts
  decide policy required evidence =
      let blockers =
        sort_texts (identity_blockers policy evidence ++ evidence_blockers required evidence) in
      let is_ready = is_empty blockers in
      record {
        policy_name = policy.policy_name;
        is_ready = is_ready;
        blockers = blockers;
        legacy_removal_allowed = is_ready;
        rollback_available =
            is_true policy.available_while_legacy_present
            && is_true (get (codes "legacy_reqsys_present") evidence);
        rollback_scope = policy.allowed_fallback_scope;
        reqsys_sha = get (codes "reqsys_sha") evidence;
        worker_pool_sha = get (codes "worker_pool_sha") evidence;
        contract_version = get (codes "contract_version") evidence;
        correlation_id = get (codes "correlation_id") evidence;
      }

  -- `evaluate`
  unfoldable pub evaluate : Policy → List Field → Evaluation
  unfolding decide
  evaluate policy evidence =
      if not (is_text_value policy.schema_version (codes "1.0.0"))
      then refused unsupported_policy_schema
      else if not (is_text_value policy.decision_mode (codes "fail_closed"))
      then refused policy_must_fail_closed
      else elim policy.required_evidence [
        | none ↦ refused required_evidence_missing
        | some [] ↦ refused required_evidence_missing
        | some (f ∷ fs) ↦ evaluated (decide policy (f ∷ fs) evidence)
      ]

-- What `main` makes of an evaluation: the process ends with 0 only where the status is ready.
abbrev pub exit_status : Evaluation → ℕ
exit_status (refused e) = 2
exit_status (evaluated r) = if r.is_ready then 0 else 2
