-- ===== src/Store/Traces/Effects.antt =====
-- `record_checkpoint` moves its task; `reconcile_effect` leaves the tasks alone.
use engineering_worker_pool.Base.{
  ◌≡◌, refl, inl, inr, Bool, true, Option, none, some, Time, arith, find, update, Option-cases,
  strip,
}
use engineering_worker_pool.Store.Schema.{
  Task, Tables, Encoding, CheckpointContent, Checkpoint, Reconciliation, ReconciliationContent,
}
use engineering_worker_pool.Store.Errors.{Result, ok, err, >>=-eq-ok}
use engineering_worker_pool.Store.Queries.{is_active, has_task_id, find_task, lease}
use engineering_worker_pool.Store.Checkpoints.{
  CheckpointRequest, ReconcileRequest, mutation_of, normalize_content, insert_checkpoint,
  checkpoint_found, reconciliation_found, reconciliation_of, record_checkpoint_tx,
  record_checkpoint, progressed, settle_value, insert_reconciliation, reconcile_effect_tx,
  reconcile_effect, is_checkpoint, is_reconciliation,
}
use engineering_worker_pool.Store.Moves.{progress, Evolves, stays}
use engineering_worker_pool.Store.Traces.Workers.{lease_facts, kept-IsExclusive, moves_once}

pub insert_checkpoint-tasks :
    (e : Encoding) (q : CheckpointRequest) (k : CheckpointContent) (now : Time) (d : Tables)
    (row : Checkpoint) (created : Bool) (after : Tables)
    → insert_checkpoint e q k now d ≡ ok (row, created, after)
    → after.tasks ≡ update (has_task_id q.task_id) (progressed (strip q.correlation_id) now) d.tasks
unfolding insert_checkpoint
insert_checkpoint-tasks e q k now d row created after h = ground arith

-- What a checkpoint that is accepted went through.
pub record CheckpointRan (e : Encoding) (q : CheckpointRequest) (now : Time) (d : Tables)
    (row : Checkpoint) (created : Bool) (after : Tables) : Type 0 where
  pub content : CheckpointContent
  pub normalized : normalize_content q.correlation_id q.content ≡ ok content
  pub task : Task
  pub leased : lease (mutation_of q) is_active now d ≡ ok task
  pub fenced : task.fencing_required ≡ true
  pub written :
      checkpoint_found e q content now d
        (find (is_checkpoint q.task_id content.checkpoint_id) d.checkpoints)
      ≡ ok (row, created, after)

pub record_checkpoint_tx-CheckpointRan :
    (e : Encoding) (q : CheckpointRequest) (now : Time) (d : Tables) (row : Checkpoint)
    (created : Bool) (after : Tables)
    → record_checkpoint_tx e q now d ≡ ok (row, created, after)
    → CheckpointRan e q now d row created after
unfolding record_checkpoint_tx
record_checkpoint_tx-CheckpointRan e q now d row created after h =
    let (k, n, rest) = >>=-eq-ok (normalize_content q.correlation_id q.content) _ h in
    let (task, l, tail) = >>=-eq-ok (lease (mutation_of q) is_active now d) _ rest in
    record {
      content = k;
      normalized = n;
      task = task;
      leased = l;
      fenced = ground arith;
      written = ground arith;
    }

checkpoint_found-Evolves :
    (e : Encoding) (q : CheckpointRequest) (k : CheckpointContent) (now : Time) (d : Tables)
    (task : Task) (o : Option Checkpoint) (row : Checkpoint) (created : Bool) (after : Tables)
    → find_task q.task_id d ≡ some task
    → is_active task.state ≡ true
    → checkpoint_found e q k now d o ≡ ok (row, created, after)
    → Evolves d.tasks after.tasks
unfolding checkpoint_found
checkpoint_found-Evolves e q k now d task none row created after f a h =
    moves_once q.task_id task (progressed (strip q.correlation_id) now) d after f
      (progress (strip q.correlation_id) now a refl)
      (kept-IsExclusive task (progressed (strip q.correlation_id) now task) d.tasks refl)
      (insert_checkpoint-tasks e q k now d row created after h)
checkpoint_found-Evolves e q k now d task (some old) row created after f a h =
    let same_tables : after ≡ d = ground arith in rw same_tables stays

record_checkpoint_tx-Evolves :
    (e : Encoding) (q : CheckpointRequest) (now : Time) (d : Tables) (row : Checkpoint)
    (created : Bool) (after : Tables)
    → record_checkpoint_tx e q now d ≡ ok (row, created, after)
    → Evolves d.tasks after.tasks
record_checkpoint_tx-Evolves e q now d row created after h =
    let r = record_checkpoint_tx-CheckpointRan e q now d row created after h in
    let facts = lease_facts (mutation_of q) is_active now d r.task r.leased in
    checkpoint_found-Evolves e q r.content now d r.task
      (find (is_checkpoint q.task_id r.content.checkpoint_id) d.checkpoints) row created after
      facts.found facts.in_state r.written

-- What holds before a transaction with a value, and after it where it succeeds, holds after it.
pub settle_value_cases {ℓ κ} :
    {A : Type ℓ} (P : Tables → Type κ) (d : Tables) (r : Result (A × Bool × Tables))
    → P d
    → ((a : A) (created : Bool) (after : Tables) → r ≡ ok (a, created, after) → P after)
    → P (settle_value d r).1
settle_value_cases P d (ok (a, created, after)) b k = k a created after refl
settle_value_cases P d (err e) b k = b

pub record_checkpoint-Evolves :
    (e : Encoding) (q : CheckpointRequest) (now : Time) (d : Tables)
    → Evolves d.tasks (record_checkpoint e q now d).1.tasks
unfolding record_checkpoint
record_checkpoint-Evolves e q now d =
    settle_value_cases (λ a. Evolves d.tasks a.tasks) d (record_checkpoint_tx e q now d) stays
      (record_checkpoint_tx-Evolves e q now d)

pub insert_reconciliation-tasks :
    (e : Encoding) (q : ReconcileRequest) (k : ReconciliationContent) (t : Task) (now : Time)
    (d : Tables) (row : Reconciliation) (created : Bool) (after : Tables)
    → insert_reconciliation e q k t now d ≡ ok (row, created, after)
    → after.tasks ≡ d.tasks
unfolding insert_reconciliation
insert_reconciliation-tasks e q k t now d row created after h = ground arith

reconciliation_found-tasks :
    (e : Encoding) (q : ReconcileRequest) (k : ReconciliationContent) (t : Task) (now : Time)
    (d : Tables) (o : Option Reconciliation) (row : Reconciliation) (created : Bool)
    (after : Tables)
    → reconciliation_found e q k t now d o ≡ ok (row, created, after)
    → after.tasks ≡ d.tasks
unfolding reconciliation_found
reconciliation_found-tasks e q k t now d none row created after h =
    insert_reconciliation-tasks e q k t now d row created after h
reconciliation_found-tasks e q k t now d (some old) row created after h = ground arith

reconcile_effect_tx-tasks :
    (e : Encoding) (q : ReconcileRequest) (now : Time) (d : Tables) (row : Reconciliation)
    (created : Bool) (after : Tables)
    → reconcile_effect_tx e q now d ≡ ok (row, created, after)
    → after.tasks ≡ d.tasks
unfolding reconcile_effect_tx
reconcile_effect_tx-tasks e q now d row created after h =
    elim (Option-cases (find_task q.task_id d)) [
      | inl n ↦ ground arith
      | inr (t, f) ↦ ground (
        arith,
        reconciliation_found-tasks e q (reconciliation_of q) t now d
            (find (is_reconciliation q) d.reconciliations) row created after,
      )
    ]

pub reconcile_effect-tasks :
    (e : Encoding) (q : ReconcileRequest) (now : Time) (d : Tables)
    → (reconcile_effect e q now d).1.tasks ≡ d.tasks
unfolding reconcile_effect
reconcile_effect-tasks e q now d =
    settle_value_cases (λ a. a.tasks ≡ d.tasks) d (reconcile_effect_tx e q now d) refl
      (reconcile_effect_tx-tasks e q now d)
