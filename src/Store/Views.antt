-- ===== src/Store/Views.antt =====
-- app/store.py: what the store shows, `fenced_cutover_status`, `list_quarantine` and `snapshot`.
-- Of the columns that a view copies from a row, the row itself stands; the rounding of the ages to
-- milliseconds is left out.
use engineering_worker_pool.Base.{
  ℕ, ◌-◌, map, Bool, not, ◌&&◌, List, [], ◌∷◌, Option, none, some, Text, Time, seconds, iso_rank,
  leb, ◌==◌, is_text, truthy, if◌then◌else◌, find, select, count, reverse, length,
}
use engineering_worker_pool.Store.Schema.{
  TaskState, queued, validating, completed, builder, validator, Worker, Lane, Task, Quarantined,
  Cutover, Tables, Settings,
}
use engineering_worker_pool.Store.Queries.{is_active, is_state, is_role, is_normal}
use engineering_worker_pool.Store.Recovery.{is_of_worker, recover, recover_stalled, is_stale}
use engineering_worker_pool.Store.Claim.{key_lt, number_key}
use engineering_worker_pool.Store.Admission.{sort_texts, repositories_of}

unfoldable pub fenced_cutover_status : Tables → Cutover
fenced_cutover_status d = d.cutover

-- `ORDER BY id DESC`
unfoldable pub list_quarantine : Tables → List Quarantined
list_quarantine d = reverse d.quarantine

-- `ORDER BY`, with equal keys in the order of the rows.
unfoldable pub insert_by {ℓ} : {A : Type ℓ} → (A → List Text) → A → List A → List A
unfolding key_lt
insert_by key x [] = x ∷ []
insert_by key x (y ∷ ys) =
    let rest = insert_by key x ys in if key_lt (key y) (key x) then y ∷ rest else x ∷ y ∷ ys

unfoldable pub order_by {ℓ} : {A : Type ℓ} → (A → List Text) → List A → List A
unfolding insert_by
order_by key [] = []
order_by key (x ∷ xs) = insert_by key x (order_by key xs)

abbrev pub task_order : Task → List Text
task_order t = number_key t.priority ∷ number_key (iso_rank t.created_at) ∷ t.task_id ∷ []

-- `SELECT * FROM tasks WHERE state<>'completed' ORDER BY priority,created_at,task_id`
unfoldable pub open_tasks : Tables → List Task
unfolding order_by
open_tasks d = order_by task_order (select (λ t. not (is_state completed t.state)) d.tasks)

abbrev pub count_state : TaskState → Tables → ℕ
count_state s d = count (λ t. is_state s t.state) d.tasks

-- `active.get(worker_id)`: the last of the rows that names the worker.
unfoldable pub active_task : Text → Tables → Option Task
unfolding open_tasks
active_task worker d =
    find (λ t. truthy t.leased_by && is_text t.leased_by worker) (reverse (open_tasks d))

-- `why_idle`
pub data Idle : Type 0 where
  offline_or_stale profile_estudo governance_not_ready at_work no_queued_work no_validation_work
        available :
      Idle

unfoldable pub why_idle : Settings → Time → Tables → Worker → Idle
unfolding active_task
why_idle c now d w =
    if is_stale c now w
    then offline_or_stale
    else if not (is_normal w.profile)
    then profile_estudo
    else if not (w.gateway_ok && w.state_validated)
    then governance_not_ready
    else elim (active_task w.worker_id d) [
      | some t ↦ at_work
      | none ↦
          if is_role w.role builder && count_state queued d == 0
          then no_queued_work
          else if is_role w.role validator && count_state validating d == 0
          then no_validation_work
          else available
    ]

pub record WorkerView : Type 0 where
  pub worker : Worker
  pub online : Bool
  pub heartbeat_age : Time
  pub task : Option Task
  pub repository_affinity : List Text
  pub idle : Idle

unfoldable pub worker_view : Settings → Time → Tables → Worker → WorkerView
unfolding active_task why_idle sort_texts
worker_view c now d w = record {
  worker = w;
  online = not (is_stale c now w);
  heartbeat_age = now - w.last_heartbeat_at;
  task = active_task w.worker_id d;
  repository_affinity =
      sort_texts (repositories_of (select (is_of_worker w.worker_id) d.affinities));
  idle = why_idle c now d w;
}

pub record LaneView : Type 0 where
  pub lane : Lane
  pub queued_tasks : ℕ
  pub active_tasks : ℕ

abbrev pub lane_view : Tables → Lane → LaneView
lane_view d r = record {
  lane = r;
  queued_tasks =
      count (λ t. is_text (some t.repository) r.repository && is_state queued t.state) d.tasks;
  active_tasks = count (λ t. is_text (some t.repository) r.repository && is_active t.state) d.tasks;
}

pub record TaskView : Type 0 where
  pub row : Task
  pub progress_age : Time
  pub progress_stalled : Bool

-- Without the lease token.
abbrev pub task_view : Settings → Time → Task → TaskView
task_view c now t = record {
  row = record t { lease_token = none };
  progress_age = now - t.last_material_progress_at;
  progress_stalled =
      is_active t.state
      && leb (seconds c.progress_stall_seconds) (now - t.last_material_progress_at);
}

pub record Snapshot : Type 0 where
  pub generated_at : Time
  pub workers : List WorkerView
  pub repositories : List LaneView
  pub queue : TaskState → ℕ
  pub quarantine_count : ℕ
  pub tasks : List TaskView

abbrev pub worker_order : Worker → List Text
worker_order w = w.host ∷ w.worker_id ∷ []

abbrev pub lane_order : Lane → List Text
lane_order r = r.repository ∷ []

-- What `snapshot` reads once both recoveries are committed.
unfoldable pub read_snapshot : Settings → Time → Tables → Snapshot
unfolding worker_view open_tasks order_by
read_snapshot c now d = record {
  generated_at = now;
  workers = map (worker_view c now d) (order_by worker_order d.workers);
  repositories = map (lane_view d) (order_by lane_order d.lanes);
  queue = λ s. count_state s d;
  quarantine_count = length d.quarantine;
  tasks = map (task_view c now) (open_tasks d);
}

-- A transaction for each recovery, and then the reading.
unfoldable pub snapshot : Settings → Time → Tables → Snapshot × Tables
unfolding recover recover_stalled read_snapshot
snapshot c now d =
    let after = recover_stalled c now (recover now d) in (read_snapshot c now after, after)
