-- ===== src/Executor/Run.antt =====
-- app/native_one_shot.py: the closed failure codes, what is called outside, and programs that call,
-- return or raise.
use engineering_worker_pool.Base.{ℕ, Bool, true, false, List, [], ◌∷◌, Option, none, some, Text}

-- The codes of `NativeExecutorBlocked`.
pub data Code : Type 0 where
  -- identity and manifest
  role_invalid worker_id_invalid session_invalid correlation_invalid boundary_head_invalid : Code
  governed_boundary_unproved boundary_manifest_drift builder_workspace_not_base : Code
  manifest_path manifest_path_traversal manifest_path_hidden manifest_hashes manifest_hash : Code
  manifest_version manifest_task_id manifest_repository manifest_base_sha : Code
  manifest_workspace_sha manifest_adapter manifest_adapter_contract : Code
  adapter_id adapter_paths adapter_commands adapter_roles adapter_role_commands : Code
  adapter_unavailable adapter_contract_mismatch adapter_role_unsupported : Code
  -- working tree
  executor_busy workspace_root workspace_remote_forbidden workspace_dirty replay_head_drift : Code
  workspace_head_drift manifest_adapter_path_mismatch workspace_file_invalid : Code
  workspace_path_escape workspace_file_drift validator_workspace_not_distinct : Code
  local_command_registry command_not_allowlisted : Code
  -- task and lease
  task_identity_drift task_fencing_invalid fenced_adapter_not_attested : Code
  durable_artifact_transport_required fenced_worker_api_unsupported : Code
  durable_artifact_transport_invalid durable_artifact_preflight_failed claim_unavailable : Code
  lease_invalid claimed_task_fencing_drift lease_fence_invalid recovery_context_invalid : Code
  recovery_effect_not_resumable recovery_effect_unsafe claimed_task_drift : Code
  -- receipts
  receipt_invalid receipt_mismatch receipt_produced_sha receipt_canonical_state : Code
  receipt_lease_stale receipt_checkpoint_missing receipt_checkpoint_drift receipt_exists : Code
  -- work
  durable_artifact_invalid fenced_resume_checkpoint_unsupported artifact_result_sha : Code
  artifact_result_paths artifact_result_commands artifact_result_evidence : Code
  adapter_result_sha adapter_result_paths adapter_result_commands adapter_result_evidence : Code
  builder_produced_sha_drift builder_workspace_dirty builder_diff_mismatch : Code
  required_command_missing artifact_effect_identity_drift artifact_publish_ambiguous : Code
  validation_sha_missing validator_workspace_sha_drift validator_artifact_checkpoint_missing : Code
  validator_sha_drift adapter_failed unsafe_recovery_context : Code

-- What is raised: `NativeExecutorBlocked`, or any other exception.
pub data Failure : Type 0 where
  executor_blocked : Code → Failure
  other : Failure

-- What a call outside comes back with.
pub data Reply {ℓ} (A : Type ℓ) : Type ℓ where
  answered : A → Reply A
  raised : Failure → Reply A

-- `DurableArtifact`
pub record Artifact : Type 0 where
  pub artifact_kind : Text
  pub artifact_ref : Text
  pub artifact_sha256 : Text

-- The effect that a checkpoint carries.
pub data EffectMark : Type 0 where
  without : EffectMark
  publishing unsure settled : Text → EffectMark

-- The arguments of `record_checkpoint` that differ between its sites.
pub record Entry : Type 0 where
  pub checkpoint_id : Text
  pub sequence : ℕ
  pub stage : Text
  pub next_action : Text
  pub artifact : Option Artifact
  pub effect : EffectMark

-- The calls outside; `mutates` below says which change the pool.
pub data Action : Type 0 where
  acquires_lock releases_lock reads_receipt writes_receipt checks_workspace : Action
  gets_task gets_checkpoint preflights claims starts builds validates : Action
  materializes verifies : Artifact → Action
  publishes : Action
  records : Entry → Action
  submits : Text → Action
  completes : Action
  fails : Code → Action
  blocks : Code → Action

-- A call, and whether it answered or raised.
pub data Event : Type 0 where
  done lost : Action → Event

-- A program: what it calls, in order, with what comes of each call, and how it ends.
pub data Run {ℓ} (A : Type ℓ) : Type ℓ where
  returns : A → Run A
  raises : Failure → Run A
  does : Event → Run A → Run A

infixl 5 ◌>>=◌ ◌>>◌
unfoldable pub ◌>>=◌ {ℓ κ} : {A : Type ℓ} {B : Type κ} → Run A → (A → Run B) → Run B
does x rest >>= k = does x (rest >>= k)
raises e >>= k = raises e
returns a >>= k = k a

abbrev pub ◌>>◌ {ℓ κ} : {A : Type ℓ} {B : Type κ} → Run A → Run B → Run B
m >> k = m >>= λ _. k

-- `_need(condition, code)`
abbrev pub need : Bool → Code → Run (Unit {0})
need true c = returns tt
need false c = raises (executor_blocked c)

abbrev pub need_some {ℓ} : {A : Type ℓ} → Option A → Code → Run A
need_some (some a) c = returns a
need_some none c = raises (executor_blocked c)

-- A reading of the working tree.
abbrev pub read {ℓ} : {A : Type ℓ} → Reply A → Run A
read (answered a) = returns a
read (raised e) = raises e

-- A call outside.
abbrev pub ask {ℓ} : {A : Type ℓ} → Action → Reply A → Run A
ask x (answered a) = does (done x) (returns a)
ask x (raised e) = does (lost x) (raises e)

-- `try: … except Exception: pass` around a call outside.
abbrev pub ask_quietly : Action → Reply (Unit {0}) → Run (Unit {0})
ask_quietly x (answered a) = does (done x) (returns tt)
ask_quietly x (raised e) = does (lost x) (returns tt)

abbrev pub has_answered {ℓ} : {A : Type ℓ} → Reply A → Bool
has_answered (answered a) = true
has_answered (raised e) = false

-- `try: … except Exception as exc: …`
unfoldable pub attempt {ℓ} : {A : Type ℓ} → Run A → (Failure → Run A) → Run A
attempt (returns a) handler = returns a
attempt (raises e) handler = handler e
attempt (does x rest) handler = does x (attempt rest handler)

-- `try: … finally: …` around a program, with a call that does not raise.
unfoldable pub finally {ℓ} : {A : Type ℓ} → Run A → Action → Run A
finally (returns a) x = does (done x) (returns a)
finally (raises e) x = does (done x) (raises e)
finally (does y rest) x = does y (finally rest x)

-- What a program calls, in order, and whether each call answered.
unfoldable pub log {ℓ} : {A : Type ℓ} → Run A → List Event
log (returns a) = []
log (raises e) = []
log (does x rest) = x ∷ log rest

unfoldable pub outcome {ℓ} : {A : Type ℓ} → Run A → Reply A
outcome (returns a) = answered a
outcome (raises e) = raised e
outcome (does x rest) = outcome rest

-- The calls that change the pool, where they take effect.
abbrev pub changes_pool : Action → Bool
changes_pool claims = true
changes_pool starts = true
changes_pool (records e) = true
changes_pool (submits sha) = true
changes_pool completes = true
changes_pool (fails c) = true
changes_pool (blocks c) = true
changes_pool _ = false

-- A call is made, whether it answered or raised.
abbrev pub action_of : Event → Action
action_of (done x) = x
action_of (lost x) = x

abbrev pub mutates : Event → Bool
mutates v = changes_pool (action_of v)
