-- ===== src/Executor/OneShot.antt =====
-- app/native_one_shot.py: `NativeOneShotExecutor.run` as a whole.
use engineering_worker_pool.Base.{
  Bool, true, false, not, ◌&&◌, ◌||◌, Option, none, some, Text, Time, codes, same, is_text, iff,
  leb, ltb, length, if◌then◌else◌,
}
use engineering_worker_pool.Store.Schema.{Role, builder, validator}
use engineering_worker_pool.Executor.Run.{
  Run, returns, raises, does, done, ◌>>=◌, ◌>>◌, need, need_some, read, ask, ask_quietly, attempt,
  finally, executor_blocked, acquires_lock, releases_lock, reads_receipt, writes_receipt, gets_task,
  preflights, claims, fails, blocks, worker_id_invalid, boundary_manifest_drift,
  builder_workspace_not_base, adapter_unavailable, adapter_contract_mismatch,
  adapter_role_unsupported, executor_busy, validator_workspace_not_distinct, local_command_registry,
  task_identity_drift, fenced_adapter_not_attested, durable_artifact_transport_required,
  fenced_worker_api_unsupported, durable_artifact_transport_invalid,
  durable_artifact_preflight_failed, claim_unavailable, lease_invalid, claimed_task_fencing_drift,
  claimed_task_drift, receipt_invalid, unsafe_recovery_context,
}
use engineering_worker_pool.Executor.Manifest.{
  Manifest, is_name, validate_boundary, parse_manifest, normalized, has_role, has_text, is_same_set,
  command_keys, exact_role,
}
use engineering_worker_pool.Executor.Recovery.{
  CheckpointInfo, recovery_context, validate_recovery_effects,
}
use engineering_worker_pool.Executor.Calls.{
  TaskInfo, LeaseInfo, Claim, Receipt, ReceiptFile, no_receipt, bad_receipt, receipt_file, Fence,
  Adapter, Setup, Replies, validate_before_claim, fencing_required, lease_fence,
}
use engineering_worker_pool.Executor.Work.{work, role_name}
use engineering_worker_pool.Executor.Receipts.{replay, receipt_of}

-- What is settled before the lock.
pub record Prepared : Type 0 where
  pub role : Role
  pub manifest : Manifest
  pub adapter : Adapter

abbrev pub is_validator : Role → Bool
is_validator builder = false
is_validator validator = true

unfoldable pub prepare : Setup → Manifest → Text → Text → Run Prepared
unfolding exact_role is_name validate_boundary parse_manifest normalized
prepare s raw role worker = do
  parsed ← exact_role role
  need (is_name worker) worker_id_invalid
  validate_boundary s.boundary
  m ← parse_manifest raw
  need (same m.workspace_sha s.boundary.expected_head) boundary_manifest_drift
  need (is_validator parsed || same m.workspace_sha m.base_sha) builder_workspace_not_base
  a ← need_some (s.adapter m.adapter_id) adapter_unavailable
  need (same a.descriptor.adapter_id m.adapter_id) adapter_contract_mismatch
  normalized a.descriptor
  need (same (s.contract_sha256 a.descriptor) m.adapter_contract_sha256) adapter_contract_mismatch
  need (has_role a.descriptor parsed) adapter_role_unsupported
  returns (record { role = parsed; manifest = m; adapter = a })

-- The validator must not share the working tree of the builder.
unfoldable pub check_distinct : Setup → Replies → Role → Run (Unit {0})
check_distinct s r builder = returns tt
check_distinct s r validator = elim r.builder_receipt [
  | none ↦ returns tt
  | some content ↦ do
    prior ← read content
    need (not (is_text prior s.workspace_id)) validator_workspace_not_distinct
]

-- The checks of the local tree, where there is no receipt; then the context of the adapter.
unfoldable pub check_local : Setup → Replies → Prepared → Run (Unit {0})
unfolding validate_before_claim check_distinct
check_local s r p = do
  validate_before_claim r.before p.manifest p.adapter.descriptor
  check_distinct s r p.role
  need (has_role p.adapter.descriptor p.role) adapter_role_unsupported
  need (is_same_set p.adapter.commands (command_keys p.adapter.descriptor)) local_command_registry

abbrev pub has_receipt : ReceiptFile → Bool
has_receipt no_receipt = false
has_receipt bad_receipt = true
has_receipt (receipt_file p) = true

unfoldable pub look_up : Setup → Replies → Prepared → Run TaskInfo
look_up s r p = do
  t ← ask gets_task r.task
  need
      (is_text t.task_id p.manifest.task_id
        && is_text t.repository p.manifest.repository
        && is_text t.base_sha p.manifest.base_sha)
      task_identity_drift
  returns t

-- A fenced task needs an attested adapter, a transport and the interface for fences.
unfoldable pub check_attested : Setup → Prepared → Bool → Run (Unit {0})
check_attested s p false = returns tt
check_attested s p true = do
  need (has_text s.fenced_adapter_ids p.manifest.adapter_id) fenced_adapter_not_attested
  need s.has_transport durable_artifact_transport_required
  need s.has_fenced_api fenced_worker_api_unsupported

-- The claim, after the preflight of the transport where the task is fenced.
unfoldable pub claim_exact : Setup → Replies → Bool → Run Claim
claim_exact s r false = ask claims r.claim
claim_exact s r true = do
  need s.has_claim_api fenced_worker_api_unsupported
  need s.has_preflight durable_artifact_transport_invalid
  attempt (ask preflights r.preflight)
      (λ e. raises (executor_blocked durable_artifact_preflight_failed))
  ask claims r.claim

abbrev pub is_in_future : Option Time → Time → Bool
is_in_future none now = false
is_in_future (some at) now = ltb now at

abbrev pub is_token : Option Text → Bool
is_token none = false
is_token (some s) = leb 16 (length s) && leb (length s) 128

abbrev pub is_good_lease : Replies → Prepared → Text → LeaseInfo → Bool
is_good_lease r p worker l =
    is_token l.lease_token
    && is_text l.task_id p.manifest.task_id
    && is_text l.worker_id worker
    && is_text l.role (role_name p.role)
    && is_in_future l.lease_expires_at r.now

unfoldable pub check_lease : Replies → Prepared → Text → Bool → Claim → Run (Option Fence)
unfolding lease_fence
check_lease r p worker fenced c = do
  need c.claimed claim_unavailable
  need (is_good_lease r p worker c.lease) lease_invalid
  again ← fencing_required c.task.fencing
  need (iff again fenced) claimed_task_fencing_drift
  lease_fence fenced c.lease c.task

unfoldable pub safe_context : Prepared → Fence → Claim → Run (Option CheckpointInfo)
unfolding recovery_context validate_recovery_effects
safe_context p f c = do
  k ← recovery_context c.recovery_context p.manifest.task_id f.generation
  validate_recovery_effects k.latest_checkpoint k.effects
  returns k.latest_checkpoint

-- What a fenced claim hands over; where it is not safe, the task is blocked.
unfoldable pub recover_latest :
    Replies → Prepared → Option Fence → Claim → Run (Option CheckpointInfo)
unfolding attempt safe_context
recover_latest r p none c = returns none
recover_latest r p (some f) c =
    attempt (safe_context p f c)
      (λ e. ask_quietly (blocks unsafe_recovery_context) r.block_unsafe >> raises e)

abbrev pub claimed_state : Role → Text
claimed_state builder = codes "leased"
claimed_state validator = codes "validating"

-- A claimed task that is not the one looked up is failed.
unfoldable pub check_claimed : Replies → Prepared → Text → TaskInfo → Run (Unit {0})
check_claimed r p worker t =
    if is_text t.task_id p.manifest.task_id
      && is_text t.repository p.manifest.repository
      && is_text t.base_sha p.manifest.base_sha
      && is_text t.state (claimed_state p.role)
      && is_text t.leased_by worker
    then returns tt
    else (ask_quietly (fails claimed_task_drift) r.fail_drift
        >> raises (executor_blocked claimed_task_drift))

-- A run without a receipt, from the claim on.
unfoldable pub execute : Setup → Replies → Manifest → Prepared → Text → Bool → Run Receipt
unfolding claim_exact check_lease recover_latest check_claimed work
execute s r raw p worker fenced = do
  c ← claim_exact s r fenced
  fence ← check_lease r p worker fenced c
  latest ← recover_latest r p fence c
  check_claimed r p worker c.task
  b ← work s r p.manifest p.adapter.descriptor p.role fence latest c.task
  let receipt = receipt_of s raw p.adapter.descriptor p.role worker fence b
  ask writes_receipt r.write_receipt
  returns receipt

-- A run with a receipt.
unfoldable pub resume : Setup → Replies → Manifest → Prepared → Text → Bool → TaskInfo → Run Receipt
unfolding replay
resume s r raw p worker fenced t = elim r.receipt [
  | no_receipt ↦ raises (executor_blocked receipt_invalid)
  | bad_receipt ↦ raises (executor_blocked receipt_invalid)
  | receipt_file content ↦ do
    previous ← ask reads_receipt content
    replay s r raw p.adapter.descriptor p.role worker fenced t previous
]

-- What runs under the lock.
unfoldable pub locked_run : Setup → Replies → Manifest → Prepared → Text → Run Receipt
unfolding check_local look_up check_attested execute resume
locked_run s r raw p worker = do
  if has_receipt r.receipt then returns tt else check_local s r p
  t ← look_up s r p
  fenced ← fencing_required t.fencing
  check_attested s p fenced
  if has_receipt r.receipt
      then resume s r raw p worker fenced t
      else execute s r raw p worker fenced

-- `run`
unfoldable pub run : Setup → Replies → Manifest → Text → Text → Run Receipt
unfolding prepare locked_run finally
run s r raw role worker = do
  p ← prepare s raw role worker
  need r.locked executor_busy
  does (done acquires_lock) (finally (locked_run s r raw p worker) releases_lock)
