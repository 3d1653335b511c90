-- ===== src/Executor/Work.antt =====
-- app/native_one_shot.py: `run` from the lease on: the work of a builder and of a validator, and what
-- a failure of it is reported as.
use engineering_worker_pool.Base.{
  ℕ, Bool, true, false, not, ◌&&◌, ◌||◌, List, [], ◌++◌, Option, none, some, Text, codes, same,
  is_text, is_some, length, nonempty, ◌==◌, if◌then◌else◌,
}
use engineering_worker_pool.Store.Schema.{Role, builder, validator}
use engineering_worker_pool.Store.Sanitize.{is_sha40, is_sha256}
use engineering_worker_pool.Executor.Run.{
  Run, returns, raises, ◌>>=◌, ◌>>◌, need, need_some, read, ask, ask_quietly, has_answered, attempt,
  Code, Failure, other, executor_blocked, Artifact, Entry, without, publishing, unsure, settled,
  starts, builds, validates, materializes, publishes, verifies, records, submits, completes, fails,
  blocks, artifact_result_sha, artifact_result_paths, artifact_result_commands,
  artifact_result_evidence, adapter_result_sha, adapter_result_paths, adapter_result_commands,
  adapter_result_evidence, builder_produced_sha_drift, builder_workspace_dirty,
  builder_diff_mismatch, required_command_missing, artifact_effect_identity_drift,
  artifact_publish_ambiguous, validation_sha_missing, validator_workspace_sha_drift,
  validator_artifact_checkpoint_missing, validator_sha_drift, adapter_failed,
  command_not_allowlisted, durable_artifact_invalid, fenced_resume_checkpoint_unsupported,
}
use engineering_worker_pool.Executor.Manifest.{
  Manifest, Descriptor, safe_paths, is_sorted_set, same_texts, is_subset, is_same_set, commands_for,
  parse_artifact,
}
use engineering_worker_pool.Executor.Recovery.{
  CheckpointInfo, artifact_from_checkpoint, awaits_submission,
}
use engineering_worker_pool.Executor.Calls.{TaskInfo, AdapterResult, Fence, Setup, Replies}

-- `_validate_recovered_result`
unfoldable pub validate_recovered_result : AdapterResult → Descriptor → Run (Unit {0})
unfolding safe_paths is_sorted_set commands_for
validate_recovered_result x d = do
  need (is_sha40 x.produced_sha) artifact_result_sha
  paths ← safe_paths x.changed_paths
  need (not (same_texts paths []) && is_sorted_set paths && is_subset paths d.allowed_paths)
      artifact_result_paths
  expected ← commands_for d builder
  need (length x.invoked_commands == length expected && is_same_set x.invoked_commands expected)
      artifact_result_commands
  need (is_sha256 x.evidence_sha256) artifact_result_evidence

-- `_validate_result`
unfoldable pub validate_result : AdapterResult → Descriptor → List Text → Role → Run (Unit {0})
unfolding safe_paths is_sorted_set commands_for same_texts
validate_result x d invoked role = do
  need (is_sha40 x.produced_sha) adapter_result_sha
  paths ← safe_paths x.changed_paths
  need (not (same_texts paths []) && is_sorted_set paths && is_subset paths d.allowed_paths)
      adapter_result_paths
  allowed ← commands_for d role
  need (same_texts x.invoked_commands invoked && is_subset x.invoked_commands allowed)
      adapter_result_commands
  need (is_sha256 x.evidence_sha256) adapter_result_evidence

abbrev pub role_name : Role → Text
role_name builder = codes "builder"
role_name validator = codes "validator"

-- `_checkpoint_id`
abbrev pub checkpoint_id_of : Setup → Text → Role → Text → Text
checkpoint_id_of s attempt role stage =
    codes "native-"
    ++ (role_name role
        ++ (codes "-" ++ (stage ++ (codes "-" ++ s.checkpoint_suffix attempt role stage))))

-- `_artifact_effect_id`
abbrev pub artifact_effect_id : Setup → Text → Text → Text
artifact_effect_id s task produced = codes "native-artifact-" ++ s.artifact_suffix task produced

-- What the builder has in hand: by a new build, or from the artifact of an earlier attempt.
pub record Built : Type 0 where
  pub result : AdapterResult
  pub artifact : Option Artifact

unfoldable pub produce : Replies → Descriptor → Option CheckpointInfo → Run Built
unfolding validate_result validate_recovered_result artifact_from_checkpoint
produce r d none = do
  x ← ask builds r.build
  validate_result x d r.invoked builder
  returns (record { result = x; artifact = none })
produce r d (some k) = do
  need (awaits_submission k) fenced_resume_checkpoint_unsupported
  a ← artifact_from_checkpoint k
  x ← ask (materializes a) r.materialize
  validate_recovered_result x d
  returns (record { result = x; artifact = some a })

-- The tree holds what the result says, and nothing else.
unfoldable pub check_built :
    Replies → Manifest → Descriptor → Option CheckpointInfo → AdapterResult → Run (Unit {0})
unfolding same_texts
check_built r m d latest x = do
  head ← read r.after.head
  need (same head x.produced_sha) builder_produced_sha_drift
  status ← read r.after.status
  need (not (nonempty status)) builder_workspace_dirty
  changed ← read (r.after.changed_paths m.base_sha x.produced_sha)
  need (same_texts changed x.changed_paths) builder_diff_mismatch
  need (is_some latest || is_same_set r.invoked d.builder_commands) required_command_missing

abbrev pub pending_entry : Setup → Fence → Text → Entry
pending_entry s f effect = record {
  checkpoint_id = checkpoint_id_of s f.attempt_id builder (codes "artifact-pending");
  sequence = 1;
  stage = codes "artifact_publish";
  next_action = codes "publish_artifact";
  artifact = none;
  effect = publishing effect;
}

abbrev pub unknown_entry : Setup → Fence → Text → Entry
unknown_entry s f effect = record {
  checkpoint_id = checkpoint_id_of s f.attempt_id builder (codes "artifact-unknown");
  sequence = 2;
  stage = codes "artifact_publish";
  next_action = codes "reconcile_artifact";
  artifact = none;
  effect = unsure effect;
}

abbrev pub result_entry : Setup → Fence → Text → Artifact → ℕ → Entry
result_entry s f effect a n = record {
  checkpoint_id = checkpoint_id_of s f.attempt_id builder (codes "result");
  sequence = n;
  stage = codes "builder_result";
  next_action = codes "submit_validation";
  artifact = some a;
  effect = settled effect;
}

abbrev pub validator_entry : Setup → Fence → Artifact → Entry
validator_entry s f a = record {
  checkpoint_id = checkpoint_id_of s f.attempt_id validator (codes "result");
  sequence = 1;
  stage = codes "validator_result";
  next_action = codes "complete";
  artifact = some a;
  effect = without;
}

-- Publication and readback, as far as the `except` around them.
unfoldable pub publish_artifact : Replies → Run Artifact
unfolding parse_artifact
publish_artifact r = do
  raw ← ask publishes r.publish
  p ← need_some raw durable_artifact_invalid
  a ← parse_artifact (some p.artifact_kind) (some p.artifact_ref) (some p.artifact_sha256)
  ask (verifies a) r.verify
  returns a

-- Publication may already have happened: the effect is unknown, and the task is blocked.
unfoldable pub give_up_publication : Setup → Replies → Fence → Text → Failure → Run Artifact
give_up_publication s r f effect e = do
  ask_quietly (records (unknown_entry s f effect)) r.record_unknown
  ask_quietly (blocks artifact_publish_ambiguous) r.block_ambiguous
  raises (executor_blocked artifact_publish_ambiguous)

unfoldable pub new_artifact : Setup → Replies → Fence → Text → Run Artifact
unfolding attempt publish_artifact give_up_publication
new_artifact s r f effect = do
  ask (records (pending_entry s f effect)) r.record_pending
  attempt (publish_artifact r) (give_up_publication s r f effect)

unfoldable pub known_artifact : Replies → Artifact → Run Artifact
known_artifact r a = do ask (verifies a) r.verify; returns a

unfoldable pub check_effect : Option CheckpointInfo → Text → Run (Unit {0})
check_effect none effect = returns tt
check_effect (some k) effect = need (is_text k.effect_id effect) artifact_effect_identity_drift

unfoldable pub secure_artifact :
    Setup → Replies → Fence → Text → Option CheckpointInfo → Option Artifact → Run Artifact
unfolding new_artifact known_artifact check_effect
secure_artifact s r f effect latest artifact = do
  check_effect latest effect
  elim artifact [ none ↦ new_artifact s r f effect | some a ↦ known_artifact r a ]

abbrev pub result_sequence : Option CheckpointInfo → ℕ
result_sequence none = 2
result_sequence (some _) = 1

-- What follows the build, under a fence and without one.
unfoldable pub record_built :
    Setup
    → Replies
    → Manifest
    → Option Fence
    → Option CheckpointInfo
    → Built
    → Run (Option Artifact)
unfolding secure_artifact
record_built s r m none latest b = returns b.artifact
record_built s r m (some f) latest b = do
  let effect = artifact_effect_id s m.task_id b.result.produced_sha
  a ← secure_artifact s r f effect latest b.artifact
  ask (records (result_entry s f effect a (result_sequence latest))) r.record_result
  returns (some a)

unfoldable pub build_work :
    Setup → Replies → Manifest → Descriptor → Option Fence → Option CheckpointInfo → Run Built
unfolding produce check_built record_built
build_work s r m d fence latest = do
  ask starts r.start
  b ← produce r d latest
  check_built r m d latest b.result
  a ← record_built s r m fence latest b
  ask (submits b.result.produced_sha) r.submit
  returns (record { result = b.result; artifact = a })

-- The artifact that a fenced validator checks against the builder's.
unfoldable pub validator_artifact :
    Replies → Option Fence → Option CheckpointInfo → Run (Option Artifact)
unfolding artifact_from_checkpoint
validator_artifact r none latest = returns none
validator_artifact r (some f) none = raises (executor_blocked validator_artifact_checkpoint_missing)
validator_artifact r (some f) (some k) = do
  need (awaits_submission k) validator_artifact_checkpoint_missing
  a ← artifact_from_checkpoint k
  ask (verifies a) r.verify
  returns (some a)

unfoldable pub check_validated :
    Replies → Descriptor → Text → AdapterResult → Text → Text → Run (Unit {0})
unfolding validate_result
check_validated r d produced x before_head before_status = do
  validate_result x d r.invoked validator
  need (same x.produced_sha produced) validator_sha_drift
  head ← read r.after.head
  need (same head before_head && same before_head produced) validator_sha_drift
  status ← read r.after.status
  need (same status before_status && not (nonempty before_status)) validator_sha_drift
  need (is_same_set r.invoked d.validator_commands) required_command_missing

unfoldable pub record_validated : Setup → Replies → Option Fence → Option Artifact → Run (Unit {0})
record_validated s r none a = returns tt
record_validated s r (some f) none = raises other
record_validated s r (some f) (some a) = ask (records (validator_entry s f a)) r.record_result

unfoldable pub validate_work :
    Setup
    → Replies
    → Manifest
    → Descriptor
    → Option Fence
    → Option CheckpointInfo
    → TaskInfo
    → Run Built
unfolding validator_artifact check_validated record_validated
validate_work s r m d fence latest t = do
  produced ← need_some t.produced_sha validation_sha_missing
  need (is_sha40 produced) validation_sha_missing
  need (same m.workspace_sha produced) validator_workspace_sha_drift
  a ← validator_artifact r fence latest
  before_head ← read r.entry.head
  before_status ← read r.entry.status
  x ← ask validates r.validate
  check_validated r d produced x before_head before_status
  record_validated s r fence a
  ask completes r.complete
  returns (record { result = x; artifact = a })

-- The codes that a failure may be reported under.
abbrev pub is_reported : Code → Bool
is_reported adapter_result_sha = true
is_reported adapter_result_paths = true
is_reported adapter_result_commands = true
is_reported adapter_result_evidence = true
is_reported builder_produced_sha_drift = true
is_reported builder_workspace_dirty = true
is_reported builder_diff_mismatch = true
is_reported required_command_missing = true
is_reported validation_sha_missing = true
is_reported validator_workspace_sha_drift = true
is_reported validator_sha_drift = true
is_reported command_not_allowlisted = true
is_reported artifact_publish_ambiguous = true
is_reported _ = false

abbrev pub is_ambiguous : Failure → Bool
is_ambiguous (executor_blocked artifact_publish_ambiguous) = true
is_ambiguous _ = false

abbrev pub reported_code : Failure → Code
reported_code other = adapter_failed
reported_code (executor_blocked c) = if is_reported c then c else adapter_failed

-- What the run raises once the failure is reported, or was refused.
abbrev pub raised_after : Bool → Failure → Failure
raised_after takes other = executor_blocked adapter_failed
raised_after takes (executor_blocked c) =
    if is_reported c || not takes then executor_blocked c else executor_blocked adapter_failed

-- The `except` around the work: an ambiguous publication is blocked already, and never failed.
unfoldable pub report_failure : Replies → Failure → Run Built
report_failure r e =
    if is_ambiguous e
    then raises e
    else (ask_quietly (fails (reported_code e)) r.fail
        >> raises (raised_after (has_answered r.fail) e))

unfoldable pub work :
    Setup
    → Replies
    → Manifest
    → Descriptor
    → Role
    → Option Fence
    → Option CheckpointInfo
    → TaskInfo
    → Run Built
unfolding attempt build_work validate_work report_failure
work s r m d builder fence latest t = attempt (build_work s r m d fence latest) (report_failure r)
work s r m d validator fence latest t =
    attempt (validate_work s r m d fence latest t) (report_failure r)
