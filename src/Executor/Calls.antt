-- ===== src/Executor/Calls.antt =====
-- app/native_one_shot.py: what a run is given, and what the outside answers at each site of a call.
use engineering_worker_pool.Base.{
  ℕ, zero, suc, Bool, true, false, not, ◌&&◌, List, [], ◌∷◌, Option, none, some, Text, Time, same,
  nonempty,
}
use engineering_worker_pool.Store.Schema.{Role}
use engineering_worker_pool.Executor.Run.{
  Run, returns, raises, ◌>>=◌, ◌>>◌, need, need_some, read, Reply, executor_blocked, Artifact,
  task_fencing_invalid, lease_fence_invalid, workspace_root, workspace_remote_forbidden,
  workspace_dirty, workspace_head_drift, replay_head_drift, manifest_adapter_path_mismatch,
  workspace_file_invalid, workspace_path_escape, workspace_file_drift,
}
use engineering_worker_pool.Executor.Manifest.{
  Manifest, Descriptor, FileHash, Boundary, is_same_set,
}
use engineering_worker_pool.Executor.Recovery.{
  CheckpointInfo, RecoveryContext, same_number, same_field, is_fence_id, at_least,
}

-- `task.get("fencing_required", False)`
pub data Flag : Type 0 where
  missing improper : Flag
  flag : Bool → Flag
  number : ℕ → Flag

-- `_fencing_required`
abbrev pub fencing_required : Flag → Run Bool
fencing_required missing = returns false
fencing_required (flag b) = returns b
fencing_required (number zero) = returns false
fencing_required (number (suc zero)) = returns true
fencing_required (number (suc (suc n))) = raises (executor_blocked task_fencing_invalid)
fencing_required improper = raises (executor_blocked task_fencing_invalid)

-- A task as the worker interface shows it.
pub record TaskInfo : Type 0 where
  pub task_id : Option Text
  pub repository : Option Text
  pub base_sha : Option Text
  pub produced_sha : Option Text
  pub state : Option Text
  pub leased_by : Option Text
  pub lease_generation : Option ℕ
  pub attempt_id : Option Text
  pub fencing : Flag

-- A lease; the instant is that of the text of `lease_expires_at`, where it is one with a zone.
pub record LeaseInfo : Type 0 where
  pub task_id : Option Text
  pub worker_id : Option Text
  pub role : Option Text
  pub lease_token : Option Text
  pub lease_expires_at : Option Time
  pub lease_generation : Option ℕ
  pub attempt_id : Option Text

-- The answer to a claim; an absent task or lease is one without fields.
pub record Claim : Type 0 where
  pub claimed : Bool
  pub task : TaskInfo
  pub lease : LeaseInfo
  pub recovery_context : Option RecoveryContext

-- What `AdapterResult` carries.
pub record AdapterResult : Type 0 where
  pub produced_sha : Text
  pub changed_paths : List Text
  pub invoked_commands : List Text
  pub evidence_sha256 : Text

-- A file of the working tree: a regular one with a single link, within the root.
pub record File : Type 0 where
  pub is_plain : Bool
  pub is_inside : Bool
  pub digest : Text

-- What the working tree reads as at one moment.
pub record Workspace : Type 0 where
  pub is_root : Bool
  pub remote : Reply Text
  pub status : Reply Text
  pub head : Reply Text
  pub file : Text → Reply File
  pub changed_paths : Text → Text → Reply (List Text)

unfoldable pub check_files : Workspace → List FileHash → Run (Unit {0})
check_files w [] = returns tt
check_files w (f ∷ fs) = do
  v ← read (w.file f.path)
  need v.is_plain workspace_file_invalid
  need v.is_inside workspace_path_escape
  need (same v.digest f.digest) workspace_file_drift
  check_files w fs

abbrev pub paths_of : List FileHash → List Text
paths_of [] = []
paths_of (f ∷ fs) = f.path ∷ paths_of fs

-- `validate_before_claim`
unfoldable pub validate_before_claim : Workspace → Manifest → Descriptor → Run (Unit {0})
unfolding check_files
validate_before_claim w m d = do
  need w.is_root workspace_root
  remote ← read w.remote
  need (not (nonempty remote)) workspace_remote_forbidden
  status ← read w.status
  need (not (nonempty status)) workspace_dirty
  head ← read w.head
  need (same head m.workspace_sha) workspace_head_drift
  need (is_same_set (paths_of m.before_sha256) d.allowed_paths) manifest_adapter_path_mismatch
  check_files w m.before_sha256

-- `validate_replay`
unfoldable pub validate_replay : Workspace → Text → Run (Unit {0})
validate_replay w produced = do
  need w.is_root workspace_root
  remote ← read w.remote
  need (not (nonempty remote)) workspace_remote_forbidden
  status ← read w.status
  need (not (nonempty status)) workspace_dirty
  head ← read w.head
  need (same head produced) replay_head_drift

-- The generation and the attempt that a fenced run gives with each of its calls.
pub record Fence : Type 0 where
  pub generation : ℕ
  pub attempt_id : Text

-- `_lease_fence`
unfoldable pub lease_fence : Bool → LeaseInfo → TaskInfo → Run (Option Fence)
lease_fence false l t = returns none
lease_fence true l t = do
  need
      (at_least 1 l.lease_generation
        && is_fence_id l.attempt_id
        && same_number t.lease_generation l.lease_generation
        && same_field t.attempt_id l.attempt_id)
      lease_fence_invalid
  g ← need_some l.lease_generation lease_fence_invalid
  a ← need_some l.attempt_id lease_fence_invalid
  returns (some (record { generation = g; attempt_id = a }))

-- A receipt; the fence is there in schema version 2 alone.
pub record FenceReceipt : Type 0 where
  pub fencing_required : Bool
  pub lease_generation : ℕ
  pub attempt_id : Text
  pub artifact : Artifact

pub record Receipt : Type 0 where
  pub schema_version : ℕ
  pub result : Text
  pub task_id : Text
  pub role : Text
  pub worker_id : Text
  pub manifest_sha256 : Text
  pub adapter_contract_sha256 : Text
  pub produced_sha : Text
  pub evidence_sha256 : Text
  pub changed_paths : List Text
  pub invoked_commands : List Text
  pub session_id : Text
  pub correlation_id : Text
  pub gateway_verified : Bool
  pub workspace_id : Text
  pub replayed : Bool
  pub fence : Option FenceReceipt

-- What lies at the path of the receipt: nothing, a link or a folder, or a file; a file that is not
-- such a JSON object raises.
pub data ReceiptFile : Type 0 where
  no_receipt bad_receipt : ReceiptFile
  receipt_file : Reply Receipt → ReceiptFile

-- The SHA-256 digests that the code takes of the texts and JSON values that it names; that of a
-- contract covers the normalized descriptor.
pub record Digests : Type 0 where
  pub manifest_sha256 : Manifest → Text
  pub contract_sha256 : Descriptor → Text
  pub workspace_id : Text
  pub checkpoint_suffix : Text → Role → Text → Text
  pub artifact_suffix : Text → Text → Text

-- An adapter, and the keys of the commands registered for it.
pub record Adapter : Type 0 where
  pub descriptor : Descriptor
  pub commands : List Text

-- The executor, for one run.
pub record Setup : Type 0 where
  pub boundary : Boundary
  pub adapter : Text → Option Adapter
  pub fenced_adapter_ids : List Text
  pub has_transport : Bool
  pub has_fenced_api : Bool
  pub has_claim_api : Bool
  pub has_preflight : Bool
  pub digests : Digests
  pub open digests use *

-- The answers, a field for each site; `invoked` is what the adapter has called by the end.
pub record Replies : Type 0 where
  pub locked : Bool
  pub receipt : ReceiptFile
  -- the builder's receipt, as the validator sees it: its `workspace_id`
  pub builder_receipt : Option (Reply (Option Text))
  pub before : Workspace
  pub task : Reply TaskInfo
  pub checkpoint : Reply (Option CheckpointInfo)
  pub verify_replay : Reply (Unit {0})
  pub preflight : Reply (Unit {0})
  pub claim : Reply Claim
  pub now : Time
  pub start : Reply (Unit {0})
  pub materialize : Reply AdapterResult
  pub build : Reply AdapterResult
  pub validate : Reply AdapterResult
  pub invoked : List Text
  pub entry : Workspace
  pub after : Workspace
  pub record_pending : Reply (Unit {0})
  pub publish : Reply (Option Artifact)
  pub verify : Reply (Unit {0})
  pub record_result : Reply (Unit {0})
  pub submit : Reply (Unit {0})
  pub complete : Reply (Unit {0})
  -- the calls whose exception is passed over
  pub record_unknown : Reply (Unit {0})
  pub block_ambiguous : Reply (Unit {0})
  pub block_unsafe : Reply (Unit {0})
  pub fail_drift : Reply (Unit {0})
  pub fail : Reply (Unit {0})
  pub write_receipt : Reply (Unit {0})
