-- ===== src/Executor/Quiet.antt =====
-- The parts of a run that call nothing: the checks of values and readings of the tree.
use engineering_worker_pool.Base.{
  ℕ, inl, inr, find, Option-cases, Bool, true, false, List, [], ◌∷◌, Option, none, some, Text,
  arith, is_text,
}
use engineering_worker_pool.Store.Schema.{Role, builder, validator}
use engineering_worker_pool.Executor.Run.{◌>>◌, ◌>>=◌, recovery_context_invalid, Run, returns}
use engineering_worker_pool.Executor.Manifest.{
  Manifest, Descriptor, FileHash, Boundary, safe_path, safe_paths, validate_boundary,
  check_commands, normalized, commands_for, normalize_hashes, parse_manifest, parse_artifact,
  exact_role,
}
use engineering_worker_pool.Executor.Recovery.{
  CheckpointInfo, RecoveryContext, artifact_from_checkpoint, check_artifact, is_same_checkpoint,
  validate_checkpoint_shape, validate_effects, check_latest_effect, check_latest, match_latest,
  recovery_context, check_not_applied, check_confirmed, validate_recovery_effects,
}
use engineering_worker_pool.Executor.Calls.{
  Flag, fencing_required, Workspace, check_files, validate_before_claim, validate_replay, LeaseInfo,
  TaskInfo, lease_fence, AdapterResult, Replies, Setup, Claim, Fence, FenceReceipt, Receipt,
}
use engineering_worker_pool.Executor.Work.{
  validate_recovered_result, validate_result, check_built, check_validated, check_effect,
}
use engineering_worker_pool.Executor.Receipts.{checked_fence, receipt_fence}
use engineering_worker_pool.Executor.OneShot.{
  Prepared, prepare, check_distinct, check_local, check_attested, check_lease, safe_context,
}
use engineering_worker_pool.Executor.Rules.{
  IsQuiet, bind-IsQuiet, need-IsQuiet, need_some-IsQuiet, read-IsQuiet, if-IsQuiet,
}

ruleset quiet = (bind-IsQuiet, need-IsQuiet, need_some-IsQuiet, read-IsQuiet, if-IsQuiet)

safe_path-IsQuiet : (p : Text) → IsQuiet (safe_path p)
unfolding safe_path
safe_path-IsQuiet p = search quiet depth 20

safe_paths-IsQuiet : (ps : List Text) → IsQuiet (safe_paths ps)
unfolding safe_paths
safe_paths-IsQuiet [] = tt
safe_paths-IsQuiet (p ∷ ps) = search (quiet, safe_path-IsQuiet, safe_paths-IsQuiet ps) depth 20

pub validate_boundary-IsQuiet : (b : Boundary) → IsQuiet (validate_boundary b)
unfolding validate_boundary
validate_boundary-IsQuiet b = search quiet depth 20

check_commands-IsQuiet : (cs : List Text) → IsQuiet (check_commands cs)
unfolding check_commands
check_commands-IsQuiet cs = search quiet depth 20

pub normalized-IsQuiet : (d : Descriptor) → IsQuiet (normalized d)
unfolding normalized
normalized-IsQuiet d = search (quiet, safe_paths-IsQuiet) depth 20

commands_for-IsQuiet : (d : Descriptor) (role : Role) → IsQuiet (commands_for d role)
unfolding commands_for
commands_for-IsQuiet d role = search quiet depth 20

pub normalize_hashes-IsQuiet : (done fs : List FileHash) → IsQuiet (normalize_hashes done fs)
unfolding normalize_hashes
normalize_hashes-IsQuiet done [] = tt
normalize_hashes-IsQuiet done (f ∷ fs) =
    search (quiet, safe_path-IsQuiet, λ (d : List FileHash). normalize_hashes-IsQuiet d fs) depth 20

parse_manifest-IsQuiet : (m : Manifest) → IsQuiet (parse_manifest m)
unfolding parse_manifest
parse_manifest-IsQuiet m = search (quiet, normalize_hashes-IsQuiet) depth 20

pub parse_artifact-IsQuiet : (k r s : Option Text) → IsQuiet (parse_artifact k r s)
unfolding parse_artifact
parse_artifact-IsQuiet k r s = search quiet depth 20

pub exact_role-IsQuiet : (role : Text) → IsQuiet (exact_role role)
unfolding exact_role
exact_role-IsQuiet role = ground arith

pub prepare-IsQuiet :
    (s : Setup) (raw : Manifest) (role worker : Text) → IsQuiet (prepare s raw role worker)
unfolding prepare
prepare-IsQuiet s raw role worker =
    search
      (
        quiet, exact_role-IsQuiet, validate_boundary-IsQuiet, parse_manifest-IsQuiet,
        normalized-IsQuiet,
      )
      depth 20

pub artifact_from_checkpoint-IsQuiet : (k : CheckpointInfo) → IsQuiet (artifact_from_checkpoint k)
unfolding artifact_from_checkpoint
artifact_from_checkpoint-IsQuiet k =
    parse_artifact-IsQuiet k.artifact_kind k.artifact_ref k.artifact_sha256

check_artifact-IsQuiet : (k : CheckpointInfo) → IsQuiet (check_artifact k)
unfolding check_artifact
check_artifact-IsQuiet k = bind-IsQuiet _ _ (need-IsQuiet _ _) λ a. present k.artifact_kind
  where
    present :
        (o : Option Text)
        → IsQuiet (elim o as (λ x. Run (Unit {0})) [
          | none ↦ returns tt
          | some _ ↦ artifact_from_checkpoint k >> returns tt
        ])
    present none = tt
    present (some t) = bind-IsQuiet _ _ (artifact_from_checkpoint-IsQuiet k) λ a. tt

pub validate_checkpoint_shape-IsQuiet :
    (k : CheckpointInfo) (task : Text) → IsQuiet (validate_checkpoint_shape k task)
unfolding validate_checkpoint_shape
validate_checkpoint_shape-IsQuiet k task = search (quiet, check_artifact-IsQuiet) depth 20

validate_effects-IsQuiet :
    (task : Text) (g : ℕ) (seen : List Text) (ks : List CheckpointInfo)
    → IsQuiet (validate_effects task g seen ks)
unfolding validate_effects
validate_effects-IsQuiet task g seen [] = tt
validate_effects-IsQuiet task g seen (k ∷ ks) =
    search
      (
        quiet,
        validate_checkpoint_shape-IsQuiet,
        λ (more : List Text). validate_effects-IsQuiet task g more ks,
      )
      depth 20

check_latest-IsQuiet :
    (task : Text) (g : ℕ) (k : Option CheckpointInfo) → IsQuiet (check_latest task g k)
unfolding check_latest
check_latest-IsQuiet task g none = tt
check_latest-IsQuiet task g (some k) = search (quiet, validate_checkpoint_shape-IsQuiet) depth 20

check_latest_effect-IsQuiet :
    (k : CheckpointInfo) (ks : List CheckpointInfo) → IsQuiet (check_latest_effect k ks)
unfolding check_latest_effect
check_latest_effect-IsQuiet k ks = elim (Option-cases k.effect_id) [
  | inl n ↦ rw (n, check_latest_effect) tt
  | inr (e, n) ↦ elim (Option-cases (find (λ i. is_text i.effect_id e) ks)) [
    | inl f ↦ ground arith
    | inr (i, f) ↦ ground (arith, need-IsQuiet (is_same_checkpoint i k) recovery_context_invalid)
  ]
]

match_latest-IsQuiet :
    (k : Option CheckpointInfo) (ks : List CheckpointInfo) → IsQuiet (match_latest k ks)
unfolding match_latest
match_latest-IsQuiet none ks = tt
match_latest-IsQuiet (some k) ks = check_latest_effect-IsQuiet k ks

recovery_context-IsQuiet :
    (c : Option RecoveryContext) (task : Text) (g : ℕ) → IsQuiet (recovery_context c task g)
unfolding recovery_context
recovery_context-IsQuiet c task g =
    search (quiet, check_latest-IsQuiet, validate_effects-IsQuiet, match_latest-IsQuiet) depth 20

check_not_applied-IsQuiet :
    (k : Option CheckpointInfo) (i : CheckpointInfo) → IsQuiet (check_not_applied k i)
unfolding check_not_applied
check_not_applied-IsQuiet none i = tt
check_not_applied-IsQuiet (some k) i = need-IsQuiet _ _

check_confirmed-IsQuiet :
    (k : Option CheckpointInfo) (i : CheckpointInfo) → IsQuiet (check_confirmed k i)
unfolding check_confirmed
check_confirmed-IsQuiet none i = tt
check_confirmed-IsQuiet (some k) i = search (quiet, artifact_from_checkpoint-IsQuiet) depth 20

validate_recovery_effects-IsQuiet :
    (k : Option CheckpointInfo) (is : List CheckpointInfo)
    → IsQuiet (validate_recovery_effects k is)
unfolding validate_recovery_effects
validate_recovery_effects-IsQuiet k [] = tt
validate_recovery_effects-IsQuiet k (i ∷ is) =
    search
      (
        quiet,
        check_not_applied-IsQuiet,
        check_confirmed-IsQuiet,
        validate_recovery_effects-IsQuiet k is,
      )
      depth 20

pub safe_context-IsQuiet : (p : Prepared) (f : Fence) (c : Claim) → IsQuiet (safe_context p f c)
unfolding safe_context
safe_context-IsQuiet p f c =
    search (quiet, recovery_context-IsQuiet, validate_recovery_effects-IsQuiet) depth 20

pub fencing_required-IsQuiet : (f : Flag) → IsQuiet (fencing_required f)
fencing_required-IsQuiet f = ground arith

check_files-IsQuiet : (w : Workspace) (fs : List FileHash) → IsQuiet (check_files w fs)
unfolding check_files
check_files-IsQuiet w [] = tt
check_files-IsQuiet w (f ∷ fs) = search (quiet, check_files-IsQuiet w fs) depth 20

validate_before_claim-IsQuiet :
    (w : Workspace) (m : Manifest) (d : Descriptor) → IsQuiet (validate_before_claim w m d)
unfolding validate_before_claim
validate_before_claim-IsQuiet w m d = search (quiet, check_files-IsQuiet) depth 20

pub validate_replay-IsQuiet :
    (w : Workspace) (produced : Text) → IsQuiet (validate_replay w produced)
unfolding validate_replay
validate_replay-IsQuiet w produced = search quiet depth 20

check_distinct-IsQuiet : (s : Setup) (r : Replies) (role : Role) → IsQuiet (check_distinct s r role)
unfolding check_distinct ◌>>=◌
check_distinct-IsQuiet s r builder = tt
check_distinct-IsQuiet s r validator = ground arith

pub check_local-IsQuiet : (s : Setup) (r : Replies) (p : Prepared) → IsQuiet (check_local s r p)
unfolding check_local
check_local-IsQuiet s r p =
    search (quiet, validate_before_claim-IsQuiet, check_distinct-IsQuiet) depth 20

pub check_attested-IsQuiet :
    (s : Setup) (p : Prepared) (fenced : Bool) → IsQuiet (check_attested s p fenced)
unfolding check_attested
check_attested-IsQuiet s p false = tt
check_attested-IsQuiet s p true = search quiet depth 20

lease_fence-IsQuiet :
    (fenced : Bool) (l : LeaseInfo) (t : TaskInfo) → IsQuiet (lease_fence fenced l t)
unfolding lease_fence
lease_fence-IsQuiet false l t = tt
lease_fence-IsQuiet true l t = search quiet depth 20

pub check_lease-IsQuiet :
    (r : Replies) (p : Prepared) (worker : Text) (fenced : Bool) (c : Claim)
    → IsQuiet (check_lease r p worker fenced c)
unfolding check_lease
check_lease-IsQuiet r p worker fenced c =
    search (quiet, fencing_required-IsQuiet, lease_fence-IsQuiet) depth 20

pub validate_recovered_result-IsQuiet :
    (x : AdapterResult) (d : Descriptor) → IsQuiet (validate_recovered_result x d)
unfolding validate_recovered_result
validate_recovered_result-IsQuiet x d =
    search (quiet, safe_paths-IsQuiet, commands_for-IsQuiet) depth 20

pub validate_result-IsQuiet :
    (x : AdapterResult) (d : Descriptor) (invoked : List Text) (role : Role)
    → IsQuiet (validate_result x d invoked role)
unfolding validate_result
validate_result-IsQuiet x d invoked role =
    search (quiet, safe_paths-IsQuiet, commands_for-IsQuiet) depth 20

pub check_built-IsQuiet :
    (r : Replies) (m : Manifest) (d : Descriptor) (k : Option CheckpointInfo) (x : AdapterResult)
    → IsQuiet (check_built r m d k x)
unfolding check_built
check_built-IsQuiet r m d k x = search quiet depth 20

pub check_validated-IsQuiet :
    (r : Replies) (d : Descriptor) (produced : Text) (x : AdapterResult) (head status : Text)
    → IsQuiet (check_validated r d produced x head status)
unfolding check_validated
check_validated-IsQuiet r d produced x head status =
    search (quiet, validate_result-IsQuiet) depth 20

pub check_effect-IsQuiet :
    (k : Option CheckpointInfo) (effect : Text) → IsQuiet (check_effect k effect)
unfolding check_effect
check_effect-IsQuiet none effect = tt
check_effect-IsQuiet (some k) effect = need-IsQuiet _ _

checked_fence-IsQuiet : (t : TaskInfo) (f : FenceReceipt) → IsQuiet (checked_fence t f)
unfolding checked_fence
checked_fence-IsQuiet t f = search (quiet, parse_artifact-IsQuiet) depth 20

pub receipt_fence-IsQuiet : (t : TaskInfo) (p : Receipt) → IsQuiet (receipt_fence t p)
unfolding receipt_fence
receipt_fence-IsQuiet t p = elim (Option-cases p.fence) [
  | inl n ↦ rw (n, receipt_fence) tt
  | inr (f, n) ↦ rw (n, receipt_fence) (checked_fence-IsQuiet t f)
]
