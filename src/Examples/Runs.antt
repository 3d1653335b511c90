-- ===== src/Examples/Runs.antt =====
-- A fenced run of a builder that hands its work in, and the replay of the receipt of another.
use engineering_worker_pool.Base.{
  ◌≡◌, refl, true, false, [], ◌∷◌, Option, none, some, Text, codes, seconds, any, text_discrete,
  starts_with, find,
}
use engineering_worker_pool.Store.Schema.{builder, validator}
use engineering_worker_pool.Executor.Run.{
  answered, raised, other, log, outcome, mutates, Artifact, executor_blocked, workspace_dirty,
  acquires_lock, done, releases_lock, ◌>>=◌, attempt, finally,
}
use engineering_worker_pool.Executor.Manifest.{
  Descriptor, Manifest, is_name, is_correlation, is_session, segments_from, drop_empty, parts_of,
  join_parts, as_posix, root_of, relative_parts, posix_of, safe_path, safe_paths, validate_boundary,
  same_texts, is_sorted_set, check_commands, normalized, commands_for, put_hash, normalize_hashes,
  is_repository, parse_manifest, parse_artifact, exact_role,
}
use engineering_worker_pool.Executor.Calls.{
  Flag, flag, missing, TaskInfo, LeaseInfo, AdapterResult, Workspace, Receipt, no_receipt,
  receipt_file, Digests, Setup, Replies, check_files, validate_before_claim, validate_replay,
  lease_fence,
}
use engineering_worker_pool.Executor.OneShot.{
  run, Prepared, prepare, check_distinct, check_local, look_up, check_attested, claim_exact,
  check_lease, safe_context, recover_latest, check_claimed, execute, resume, locked_run,
}
use engineering_worker_pool.Executor.Protocol.{unclaimed, accepts}
use engineering_worker_pool.Executor.Order.{
  claims_first, settled_all, hands_in, is_numbered, is_cautious, is_backed,
}
use engineering_worker_pool.Executor.Claiming.{is_fenced, effects_of}
use engineering_worker_pool.Executor.Refusals.{check_local-refused}
use engineering_worker_pool.Executor.Refinement.{
  accepts-run, claims_first-run, is_numbered-run, is_cautious-run, is_backed-run, mutates-run,
  hands_in-run,
}
use engineering_worker_pool.Executor.Recovery.{
  artifact_from_checkpoint, check_artifact, validate_checkpoint_shape, validate_effects,
  check_latest_effect, check_latest, match_latest, recovery_context, check_not_applied,
  check_confirmed, validate_recovery_effects,
}
use engineering_worker_pool.Executor.Work.{
  validate_recovered_result, validate_result, produce, check_built, publish_artifact,
  give_up_publication, new_artifact, known_artifact, check_effect, secure_artifact, record_built,
  build_work, validator_artifact, check_validated, record_validated, validate_work, report_failure,
  work,
}
use engineering_worker_pool.Executor.Receipts.{
  checked_fence, receipt_fence, confirm_fence, confirm_receipt, replay,
}
use engineering_worker_pool.Store.Admission.{sort_texts, insert_sorted}
use engineering_worker_pool.Store.Sanitize.{is_task_id, is_safe_id}
use engineering_worker_pool.Examples.{task_name}

abbrev base_sha : Text
base_sha = codes "00000000000000000000000000000000000000aa"

abbrev new_sha : Text
new_sha = codes "00000000000000000000000000000000000000bb"

abbrev digest : Text
digest = codes "00000000000000000000000000000000000000000000000000000000000000dd"

abbrev worker : Text
worker = codes "worker-1"

abbrev role : Text
role = codes "builder"

abbrev path : Text
path = codes "a/b.py"

abbrev command : Text
command = codes "unit_tests"

abbrev descriptor : Descriptor
descriptor = record {
  adapter_id = codes "adapter";
  allowed_paths = path ∷ [];
  builder_commands = command ∷ [];
  validator_commands = command ∷ [];
  roles = builder ∷ validator ∷ [];
}

abbrev digests : Digests
digests = record {
  manifest_sha256 = λ m. digest;
  contract_sha256 = λ d. digest;
  workspace_id = digest;
  checkpoint_suffix = λ a r s. codes "0123";
  artifact_suffix = λ t s. s;
}

abbrev setup : Setup
setup = record {
  boundary = record {
    session_id = codes "session";
    correlation_id = codes "correlation-1";
    expected_head = base_sha;
    state_validated = true;
    gateway_verified = true;
  };
  adapter = λ a. some (record { descriptor = descriptor; commands = command ∷ [] });
  fenced_adapter_ids = codes "adapter" ∷ [];
  has_transport = true;
  has_fenced_api = true;
  has_claim_api = true;
  has_preflight = true;
  digests = digests;
}

abbrev manifest : Manifest
manifest = record {
  schema_version = 1;
  task_id = task_name;
  repository = codes "owner/name";
  base_sha = base_sha;
  workspace_sha = base_sha;
  adapter_id = codes "adapter";
  adapter_contract_sha256 = digest;
  before_sha256 = record { path = path; digest = digest } ∷ [];
}

abbrev task_of : Flag → Text → Option Text → TaskInfo
task_of fencing state produced = record {
  task_id = some task_name;
  repository = some (codes "owner/name");
  base_sha = some base_sha;
  produced_sha = produced;
  state = some state;
  leased_by = some worker;
  lease_generation = some 1;
  attempt_id = some (codes "attempt-1");
  fencing = fencing;
}

abbrev lease : LeaseInfo
lease = record {
  task_id = some task_name;
  worker_id = some worker;
  role = some role;
  lease_token = some (codes "0123456789abcdef");
  lease_expires_at = some (seconds 60);
  lease_generation = some 1;
  attempt_id = some (codes "attempt-1");
}

abbrev tree_at : Text → Workspace
tree_at head = record {
  is_root = true;
  remote = answered [];
  status = answered [];
  head = answered head;
  file = λ p. answered (record { is_plain = true; is_inside = true; digest = digest });
  changed_paths = λ a b. answered (path ∷ []);
}

abbrev artifact : Artifact
artifact = record {
  artifact_kind = codes "git.bundle";
  artifact_ref = codes "s3:bundle";
  artifact_sha256 = digest;
}

abbrev result : AdapterResult
result = record {
  produced_sha = new_sha;
  changed_paths = path ∷ [];
  invoked_commands = command ∷ [];
  evidence_sha256 = digest;
}

abbrev replies : Replies
replies = record {
  locked = true;
  receipt = no_receipt;
  builder_receipt = none;
  before = tree_at base_sha;
  task = answered (task_of (flag true) (codes "queued") none);
  checkpoint = answered none;
  verify_replay = answered tt;
  preflight = answered tt;
  claim = answered (record {
    claimed = true;
    task = task_of (flag true) (codes "leased") none;
    lease = lease;
    recovery_context = some (record { latest_checkpoint = none; effects = [] });
  });
  now = seconds 1;
  start = answered tt;
  materialize = raised other;
  build = answered result;
  validate = raised other;
  invoked = command ∷ [];
  entry = tree_at base_sha;
  after = tree_at new_sha;
  record_pending = answered tt;
  publish = answered (some artifact);
  verify = answered tt;
  record_result = answered tt;
  submit = answered tt;
  complete = answered tt;
  record_unknown = answered tt;
  block_ambiguous = answered tt;
  block_unsafe = answered tt;
  fail_drift = answered tt;
  fail = answered tt;
  write_receipt = answered tt;
}

-- The receipt of an earlier run without a fence, and the pool that agrees with it.
abbrev earlier : Receipt
earlier = record {
  schema_version = 1;
  result = codes "NATIVE_ONE_SHOT_BUILT";
  task_id = task_name;
  role = role;
  worker_id = worker;
  manifest_sha256 = digest;
  adapter_contract_sha256 = digest;
  produced_sha = new_sha;
  evidence_sha256 = digest;
  changed_paths = path ∷ [];
  invoked_commands = command ∷ [];
  session_id = codes "session";
  correlation_id = codes "correlation-1";
  gateway_verified = true;
  workspace_id = digest;
  replayed = false;
  fence = none;
}

abbrev again : Replies
again = record replies {
  receipt = receipt_file (answered earlier);
  before = tree_at new_sha;
  task = answered (task_of missing (codes "validating") (some new_sha));
}

accepts-run_example :
    accepts
      (is_fenced replies)
      (effects_of setup manifest.task_id)
      unclaimed
      (log (run setup replies manifest role worker))
    ≡ true
accepts-run_example = accepts-run setup replies manifest role worker

claims_first-run_example : claims_first false (log (run setup replies manifest role worker)) ≡ true
claims_first-run_example = claims_first-run setup replies manifest role worker

is_numbered-run_example : is_numbered 1 (log (run setup replies manifest role worker)) ≡ true
is_numbered-run_example = is_numbered-run setup replies manifest role worker

is_cautious-run_example :
    is_cautious settled_all (log (run setup replies manifest role worker)) ≡ true
is_cautious-run_example = is_cautious-run setup replies manifest role worker

is_backed-run_example :
    is_backed (effects_of setup manifest.task_id) [] (log (run setup replies manifest role worker))
    ≡ true
is_backed-run_example = is_backed-run setup replies manifest role worker refl

-- The receipt of the new run.
abbrev handed : Receipt
handed = record earlier {
  schema_version = 2;
  fence = some (record {
    fencing_required = true;
    lease_generation = 1;
    attempt_id = codes "attempt-1";
    artifact = artifact;
  });
}

hands_in-run_answers : outcome (run setup replies manifest role worker) ≡ answered handed
unfolding ◌>>=◌ attempt finally log outcome is_name is_correlation is_session segments_from
    drop_empty parts_of join_parts as_posix root_of relative_parts posix_of safe_path safe_paths
    validate_boundary same_texts is_sorted_set check_commands normalized commands_for put_hash
    normalize_hashes is_repository parse_manifest parse_artifact exact_role artifact_from_checkpoint
    check_artifact validate_checkpoint_shape validate_effects check_latest_effect check_latest
    match_latest recovery_context check_not_applied check_confirmed validate_recovery_effects
    check_files validate_before_claim validate_replay lease_fence validate_recovered_result
    validate_result produce check_built publish_artifact give_up_publication new_artifact
    known_artifact check_effect secure_artifact record_built build_work validator_artifact
    check_validated record_validated validate_work report_failure work checked_fence receipt_fence
    confirm_fence confirm_receipt replay prepare check_distinct check_local look_up check_attested
    claim_exact check_lease safe_context recover_latest check_claimed execute resume locked_run run
    text_discrete starts_with any find is_task_id is_safe_id sort_texts insert_sorted
hands_in-run_answers = refl

hands_in-run_example : any hands_in (log (run setup replies manifest role worker)) ≡ true
hands_in-run_example =
    hands_in-run setup replies manifest role worker handed hands_in-run_answers refl

mutates-run_answers :
    outcome (run setup again manifest role worker) ≡ answered (record earlier { replayed = true })
unfolding ◌>>=◌ attempt finally log outcome is_name is_correlation is_session segments_from
    drop_empty parts_of join_parts as_posix root_of relative_parts posix_of safe_path safe_paths
    validate_boundary same_texts is_sorted_set check_commands normalized commands_for put_hash
    normalize_hashes is_repository parse_manifest parse_artifact exact_role artifact_from_checkpoint
    check_artifact validate_checkpoint_shape validate_effects check_latest_effect check_latest
    match_latest recovery_context check_not_applied check_confirmed validate_recovery_effects
    check_files validate_before_claim validate_replay lease_fence validate_recovered_result
    validate_result produce check_built publish_artifact give_up_publication new_artifact
    known_artifact check_effect secure_artifact record_built build_work validator_artifact
    check_validated record_validated validate_work report_failure work checked_fence receipt_fence
    confirm_fence confirm_receipt replay prepare check_distinct check_local look_up check_attested
    claim_exact check_lease safe_context recover_latest check_claimed execute resume locked_run run
    text_discrete starts_with any find is_task_id is_safe_id sort_texts insert_sorted
mutates-run_answers = refl

mutates-run_example : any mutates (log (run setup again manifest role worker)) ≡ false
mutates-run_example =
    mutates-run setup again manifest role worker (record earlier { replayed = true })
      mutates-run_answers refl

-- The tree of a run that is not clean.
abbrev dirty : Replies
dirty = record replies { before = record (tree_at base_sha) { status = answered (codes "M") } }

abbrev prepared : Prepared
prepared = record {
  role = builder;
  manifest = manifest;
  adapter = record { descriptor = descriptor; commands = command ∷ [] };
}

check_local-refused_example :
    (log (run setup dirty manifest role worker) ≡ done acquires_lock ∷ done releases_lock ∷ [])
    × (outcome (run setup dirty manifest role worker) ≡ raised (executor_blocked workspace_dirty))
unfolding ◌>>=◌ attempt finally log outcome is_name is_correlation is_session segments_from
    drop_empty parts_of join_parts as_posix root_of relative_parts posix_of safe_path safe_paths
    validate_boundary same_texts is_sorted_set check_commands normalized commands_for put_hash
    normalize_hashes is_repository parse_manifest parse_artifact exact_role artifact_from_checkpoint
    check_artifact validate_checkpoint_shape validate_effects check_latest_effect check_latest
    match_latest recovery_context check_not_applied check_confirmed validate_recovery_effects
    check_files validate_before_claim validate_replay lease_fence validate_recovered_result
    validate_result produce check_built publish_artifact give_up_publication new_artifact
    known_artifact check_effect secure_artifact record_built build_work validator_artifact
    check_validated record_validated validate_work report_failure work checked_fence receipt_fence
    confirm_fence confirm_receipt replay prepare check_distinct check_local look_up check_attested
    claim_exact check_lease safe_context recover_latest check_claimed execute resume locked_run run
    text_discrete starts_with any find is_task_id is_safe_id sort_texts insert_sorted
check_local-refused_example =
    check_local-refused setup dirty manifest role worker prepared (executor_blocked workspace_dirty)
      refl refl refl refl
