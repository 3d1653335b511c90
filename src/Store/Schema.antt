-- ===== src/Store/Schema.antt =====
-- The tables of `WorkerPoolStore._init` in app/store.py, one record for a row of each, the
-- exceptions that the store raises, and its settings.
use engineering_worker_pool.Base.{ℕ, Bool, List, Option, Text, Time}

pub data TaskState : Type 0 where
  queued leased running validating blocked completed failed : TaskState

pub data Role : Type 0 where
  builder validator : Role

pub data Profile : Type 0 where
  normal estudo : Profile

-- `CHECKPOINT_EFFECT_STATES`; `nothing` is "none".
pub data EffectState : Type 0 where
  nothing pending confirmed not_applied unknown : EffectState

-- The outcomes that a reconciliation accepts.
pub data Outcome : Type 0 where
  was_confirmed was_not_applied : Outcome

-- The percentages are stored and never compared: a number in a unit of their own.
pub record Worker : Type 0 where
  pub worker_id : Text
  pub host : Text
  pub role : Role
  pub profile : Profile
  pub capacity_score : ℕ
  pub controller_version : Option Text
  pub rules_sha : Option Text
  pub gateway_ok : Bool
  pub state_validated : Bool
  pub worktree_root : Option Text
  pub registered_at : Time
  pub last_heartbeat_at : Time
  pub cpu_percent : Option ℕ
  pub memory_percent : Option ℕ
  pub correlation_id : Text

pub record Lane : Type 0 where
  pub repository : Text
  pub enabled : Bool
  pub max_in_flight : ℕ
  pub builder_claim_count : ℕ
  pub validator_claim_count : ℕ
  pub last_builder_claimed_at : Option Time
  pub last_validator_claimed_at : Option Time
  pub updated_at : Time

pub record Affinity : Type 0 where
  pub worker_id : Text
  pub repository : Text

-- The rows stand in the order of `rowid`.
pub record Task : Type 0 where
  pub task_id : Text
  pub repository : Text
  pub issue_number : ℕ
  pub request_id : Text
  pub idempotency_key : Text
  pub state : TaskState
  pub priority : ℕ
  pub branch : Text
  pub workspace_key : Text
  pub base_sha : Option Text
  pub produced_sha : Option Text
  pub builder_worker_id : Option Text
  pub validator_worker_id : Option Text
  pub leased_by : Option Text
  pub lease_token : Option Text
  pub lease_expires_at : Option Time
  pub lease_generation : ℕ
  pub attempt_id : Option Text
  pub fencing_required : Bool
  pub attempt_count : ℕ
  pub max_attempts : ℕ
  pub blocked_reason : Option Text
  pub last_error : Option Text
  pub correlation_id : Text
  pub created_at : Time
  pub updated_at : Time
  pub last_material_progress_at : Time
  pub completed_at : Option Time

pub record Quarantined : Type 0 where
  pub task_id : Text
  pub idempotency_key : Text
  pub correlation_id : Text
  pub attempt_count : ℕ
  pub reason : Text
  pub quarantined_at : Time

-- The one row of `pool_control`.
pub record Cutover : Type 0 where
  pub enabled : Bool
  pub enabled_at : Option Time
  pub enabled_by_correlation_id : Option Text

pub record Attempt : Type 0 where
  pub attempt_id : Text
  pub task_id : Text
  pub lease_generation : ℕ
  pub worker_id : Text
  pub role : Role
  pub lease_started_at : Time
  pub lease_expires_at : Time
  pub ended_at : Option Time
  pub end_reason : Option Text

-- What the digest of a checkpoint covers: `semantic` in `record_checkpoint`.
pub record CheckpointContent : Type 0 where
  pub checkpoint_id : Text
  pub sequence : ℕ
  pub stage : Text
  pub artifact_kind : Option Text
  pub artifact_ref : Option Text
  pub artifact_sha256 : Option Text
  pub next_action : Text
  pub effect_id : Option Text
  pub effect_state : EffectState
  pub effect_result_ref : Option Text

pub record Checkpoint : Type 0 where
  pub task_id : Text
  pub lease_generation : ℕ
  pub attempt_id : Text
  pub content : CheckpointContent
  pub open content use *
  pub content_digest : Text
  pub correlation_id : Text
  pub created_at : Time

-- What the digest of a reconciliation covers: `semantic` in `reconcile_effect`.
pub record ReconciliationContent : Type 0 where
  pub effect_id : Text
  pub lease_generation : ℕ
  pub outcome : Outcome
  pub readback_ref : Text

pub record Reconciliation : Type 0 where
  pub task_id : Text
  pub content : ReconciliationContent
  pub open content use *
  pub content_digest : Text
  pub correlation_id : Text
  pub created_at : Time

pub record Tables : Type 0 where
  pub workers : List Worker
  pub lanes : List Lane
  pub affinities : List Affinity
  pub tasks : List Task
  pub quarantine : List Quarantined
  pub cutover : Cutover
  pub attempts : List Attempt
  pub checkpoints : List Checkpoint
  pub reconciliations : List Reconciliation

-- What the store takes from `hashlib` and `json`: the hexadecimal SHA-256 of a text, and the
-- canonical JSON of what a digest covers.
pub record Encoding : Type 0 where
  pub sha256 : Text → Text
  pub checkpoint_json : CheckpointContent → Text
  pub reconciliation_json : ReconciliationContent → Text

-- The settings of the constructor, with both lists of SHA prefixes normalised by it.
pub record Settings : Type 0 where
  pub heartbeat_ttl_seconds : ℕ
  pub default_lease_seconds : ℕ
  pub default_max_attempts : ℕ
  pub progress_stall_seconds : ℕ
  pub expected_rules_sha : Option Text
  pub encoding : Encoding
  pub open encoding use *
