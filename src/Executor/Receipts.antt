-- ===== src/Executor/Receipts.antt =====
-- app/native_one_shot.py: `run` where a receipt is there already, and the receipt of a new run.
use engineering_worker_pool.Base.{
  ℕ, Bool, true, false, not, ◌&&◌, ◌||◌, List, [], ◌∷◌, Option, none, some, Text, codes, same,
  is_text, is_some, iff, leb, length, ◌==◌,
}
use engineering_worker_pool.Store.Schema.{Role, builder, validator}
use engineering_worker_pool.Store.Sanitize.{is_sha40, is_sha256}
use engineering_worker_pool.Executor.Run.{
  Run, returns, ◌>>=◌, ◌>>◌, need, need_some, read, ask, Artifact, gets_checkpoint, verifies,
  receipt_mismatch, receipt_produced_sha, receipt_canonical_state, receipt_lease_stale,
  receipt_checkpoint_missing, receipt_checkpoint_drift,
}
use engineering_worker_pool.Executor.Manifest.{
  Manifest, Descriptor, parse_artifact, is_subset, is_same_set, same_texts, has_text, role_commands,
}
use engineering_worker_pool.Executor.Recovery.{
  CheckpointInfo, validate_checkpoint_shape, same_number,
}
use engineering_worker_pool.Executor.Calls.{
  TaskInfo, Receipt, FenceReceipt, Fence, Setup, Replies, validate_replay,
}
use engineering_worker_pool.Executor.Work.{Built, role_name, artifact_effect_id}

abbrev pub result_name : Role → Text
result_name builder = codes "NATIVE_ONE_SHOT_BUILT"
result_name validator = codes "NATIVE_ONE_SHOT_VALIDATED"

abbrev pub schema_of : Bool → ℕ
schema_of true = 2
schema_of false = 1

-- `len(paths) == len(set(paths))`
abbrev pub is_distinct : List Text → Bool
is_distinct [] = true
is_distinct (t ∷ ts) = not (has_text ts t) && is_distinct ts

-- The receipt is one of this run, by its own fields.
abbrev pub is_receipt_of : Setup → Manifest → Descriptor → Role → Text → Bool → Receipt → Bool
is_receipt_of s m d role worker fenced p =
    iff (is_some p.fence) fenced
    && p.schema_version == schema_of fenced
    && same p.manifest_sha256 (s.manifest_sha256 m)
    && same p.task_id m.task_id
    && same p.role (role_name role)
    && same p.worker_id worker
    && same p.adapter_contract_sha256 (s.contract_sha256 d)
    && same p.result (result_name role)
    && same p.workspace_id s.workspace_id
    && same p.session_id s.boundary.session_id
    && same p.correlation_id s.boundary.correlation_id
    && p.gateway_verified
    && not p.replayed
    && is_sha256 p.evidence_sha256
    && is_subset p.changed_paths d.allowed_paths
    && is_distinct p.changed_paths
    && is_same_set p.invoked_commands (role_commands d role)
    && length p.invoked_commands == length (role_commands d role)

-- The states of the task in which a receipt of the role holds.
abbrev pub is_expected_state : Role → Option Text → Bool
is_expected_state builder s = is_text s (codes "validating") || is_text s (codes "completed")
is_expected_state validator s = is_text s (codes "completed")

abbrev pub expected_stage : Role → Text
expected_stage builder = codes "builder_result"
expected_stage validator = codes "validator_result"

abbrev pub expected_next : Role → Text
expected_next builder = codes "submit_validation"
expected_next validator = codes "complete"

abbrev pub expects_effect : Setup → Manifest → Role → Receipt → Artifact → CheckpointInfo → Bool
expects_effect s m builder p a k =
    is_text k.effect_state (codes "confirmed")
    && is_text k.effect_id (artifact_effect_id s m.task_id p.produced_sha)
    && is_text k.effect_result_ref a.artifact_ref
expects_effect s m validator p a k = is_text k.effect_state (codes "none")

-- The latest checkpoint is the one that the run of the receipt recorded.
abbrev pub is_checkpoint_of :
    Setup → Manifest → Role → Receipt → FenceReceipt → Artifact → CheckpointInfo → Bool
is_checkpoint_of s m role p f a k =
    same_number k.lease_generation (some f.lease_generation)
    && is_text k.attempt_id f.attempt_id
    && is_text k.stage (expected_stage role)
    && is_text k.next_action (expected_next role)
    && is_text k.artifact_kind a.artifact_kind
    && is_text k.artifact_ref a.artifact_ref
    && is_text k.artifact_sha256 a.artifact_sha256
    && expects_effect s m role p a k

-- The lease of the receipt is that of the task, and its artifact is well formed.
unfoldable pub checked_fence : TaskInfo → FenceReceipt → Run (Option Artifact)
unfolding parse_artifact
checked_fence t f = do
  need
      (f.fencing_required
        && leb 1 f.lease_generation
        && same_number t.lease_generation (some f.lease_generation))
      receipt_lease_stale
  a ←
      parse_artifact (some f.artifact.artifact_kind) (some f.artifact.artifact_ref)
        (some f.artifact.artifact_sha256)
  returns (some a)

unfoldable pub receipt_fence : TaskInfo → Receipt → Run (Option Artifact)
unfolding checked_fence
receipt_fence t p = elim p.fence [ none ↦ returns none | some f ↦ checked_fence t f ]

unfoldable pub confirm_fence :
    Setup → Replies → Manifest → Role → Receipt → FenceReceipt → Artifact → Run (Unit {0})
unfolding validate_checkpoint_shape
confirm_fence s r m role p f a = do
  found ← ask gets_checkpoint r.checkpoint
  k ← need_some found receipt_checkpoint_missing
  validate_checkpoint_shape k m.task_id
  need (is_checkpoint_of s m role p f a k) receipt_checkpoint_drift
  ask (verifies a) r.verify_replay

unfoldable pub confirm_receipt :
    Setup → Replies → Manifest → Role → Receipt → Option Artifact → Run (Unit {0})
unfolding confirm_fence
confirm_receipt s r m role p none = returns tt
confirm_receipt s r m role p (some a) = elim p.fence [
  | none ↦ returns tt
  | some f ↦ confirm_fence s r m role p f a
]

-- A receipt authorises its replay only where the pool and the tree still agree with it.
unfoldable pub replay :
    Setup → Replies → Manifest → Descriptor → Role → Text → Bool → TaskInfo → Receipt → Run Receipt
unfolding receipt_fence confirm_receipt validate_replay same_texts
replay s r m d role worker fenced t p = do
  need (is_receipt_of s m d role worker fenced p) receipt_mismatch
  need (is_sha40 p.produced_sha) receipt_produced_sha
  need (is_expected_state role t.state && is_text t.produced_sha p.produced_sha)
      receipt_canonical_state
  a ← receipt_fence t p
  validate_replay r.before p.produced_sha
  changed ← read (r.before.changed_paths m.base_sha p.produced_sha)
  need (same_texts p.changed_paths changed) receipt_mismatch
  confirm_receipt s r m role p a
  returns (record p { replayed = true })

-- The fence of a new receipt.
abbrev pub fence_receipt : Option Fence → Option Artifact → Option FenceReceipt
fence_receipt none a = none
fence_receipt (some f) none = none
fence_receipt (some f) (some a) = some (record {
  fencing_required = true;
  lease_generation = f.generation;
  attempt_id = f.attempt_id;
  artifact = a;
})

abbrev pub receipt_of : Setup → Manifest → Descriptor → Role → Text → Option Fence → Built → Receipt
receipt_of s m d role worker fence b = record {
  schema_version = schema_of (is_some fence);
  result = result_name role;
  task_id = m.task_id;
  role = role_name role;
  worker_id = worker;
  manifest_sha256 = s.manifest_sha256 m;
  adapter_contract_sha256 = s.contract_sha256 d;
  produced_sha = b.result.produced_sha;
  evidence_sha256 = b.result.evidence_sha256;
  changed_paths = b.result.changed_paths;
  invoked_commands = b.result.invoked_commands;
  session_id = s.boundary.session_id;
  correlation_id = s.boundary.correlation_id;
  gateway_verified = true;
  workspace_id = s.workspace_id;
  replayed = false;
  fence = fence_receipt fence b.artifact;
}
