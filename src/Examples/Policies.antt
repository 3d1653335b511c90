-- ===== src/Examples/Policies.antt =====
-- A policy with one identity field and one required evidence, and evidence that meets it.
use engineering_worker_pool.Base.{
  ◌≡◌, refl, ◌&&◌, Bool, true, false, List, [], ◌∷◌, some, codes, find, text_discrete, strip,
  lstrip, lower, is_space,
}
use engineering_worker_pool.Store.Admission.{sort_texts, insert_sorted}
use engineering_worker_pool.Cutover.{
  Value, null, boolean, text, Field, Policy, decide, evaluate, is_empty, missing_identity,
  identity_blockers, evidence_blockers, is_identical, is_text_value,
}
use engineering_worker_pool.Cutover.Readiness.{
  has_identity, are_met, is_ready-decide, exit_status-ready,
}

abbrev never : Value → Value → Bool
never a b = false

abbrev required : List Field
required = record { key = codes "backup"; value = boolean true } ∷ []

abbrev evidence : List Field
evidence =
    record { key = codes "backup"; value = boolean true }
    ∷ record { key = codes "owner"; value = text (codes "o") }
    ∷ record { key = codes "contract_version"; value = text (codes "v1") }
    ∷ []

abbrev policy : Policy
policy = record {
  schema_version = text (codes "1.0.0");
  decision_mode = text (codes "fail_closed");
  policy_name = null;
  required_evidence = some required;
  identity_fields = codes "owner" ∷ [];
  expected_contract_version = text (codes "v1");
  available_while_legacy_present = boolean true;
  allowed_fallback_scope = null;
}

is_ready-decide_example :
    (decide never policy required evidence).is_ready
    ≡ (has_identity policy evidence && are_met never required evidence)
is_ready-decide_example = is_ready-decide never policy required evidence

exit_status-ready_example :
    (is_text_value policy.schema_version (codes "1.0.0") ≡ true)
    × (is_text_value policy.decision_mode (codes "fail_closed") ≡ true)
    × ((asked : List Field) × (policy.required_evidence ≡ some asked)
        × (is_empty asked ≡ false)
        × (has_identity policy evidence && are_met never asked evidence ≡ true))
unfolding evaluate decide identity_blockers missing_identity evidence_blockers is_identical
    sort_texts insert_sorted find text_discrete strip lstrip lower is_space
exit_status-ready_example = exit_status-ready never policy evidence refl
