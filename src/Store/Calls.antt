-- ===== src/Store/Calls.antt =====
-- The public operations of `WorkerPoolStore` that write, as one type of calls, and what a sequence
-- of calls at given instants makes of the tables. Every transaction of app/store.py takes the write
-- lock first (`BEGIN IMMEDIATE`), so threads and processes interleave as such a sequence.
use engineering_worker_pool.Base.{ℕ, Bool, List, [], ◌∷◌, Option, Text, Time, ℤ}
use engineering_worker_pool.Store.Schema.{Tables, Settings}
use engineering_worker_pool.Store.Queries.{LeaseMutation}
use engineering_worker_pool.Store.Recovery.{
  reconcile, recover_stalled_tasks, recover_expired_leases,
}
use engineering_worker_pool.Store.Lifecycle.{
  renew_lease, start_task, submit_for_validation, complete_task, fail_task, block_task,
  requeue_blocked,
}
use engineering_worker_pool.Store.Claim.{ClaimRequest, claim_task}
use engineering_worker_pool.Store.Checkpoints.{
  CheckpointRequest, ReconcileRequest, record_checkpoint, reconcile_effect,
}
use engineering_worker_pool.Store.Admission.{
  Registration, Heartbeat, TaskRequest, register_worker, configure_repository,
  replace_worker_affinities, heartbeat_worker, enable_fenced_cutover, enqueue_task,
}

pub data Call : Type 0 where
  registers : Registration → Call
  configures : Text → Bool → ℕ → Call
  replaces_affinities : Text → List Text → Call
  beats : Heartbeat → Call
  cuts_over : Text → Bool → Bool → Call
  enqueues : TaskRequest → Call
  -- with the two draws of `uuid4`
  claims : ClaimRequest → Text → Text → Call
  renews : LeaseMutation → Option ℤ → Call
  starts : LeaseMutation → Call
  submits : LeaseMutation → Text → Call
  completes : LeaseMutation → Call
  fails : LeaseMutation → Text → Call
  blocks : LeaseMutation → Text → Call
  checkpoints : CheckpointRequest → Call
  reconciles_effect : ReconcileRequest → Call
  requeues : Text → Text → Call
  recovers_leases recovers_stalled reconciles : Call

-- The tables after a call, whether it returned or raised.
unfoldable pub step : Settings → Time → Call → Tables → Tables
unfolding register_worker configure_repository replace_worker_affinities heartbeat_worker
    enable_fenced_cutover enqueue_task claim_task renew_lease start_task submit_for_validation
    complete_task fail_task block_task record_checkpoint reconcile_effect requeue_blocked
    recover_expired_leases recover_stalled_tasks reconcile
step c now (registers q) d = (register_worker q now d).1
step c now (configures r enabled n) d = (configure_repository r enabled n now d).1
step c now (replaces_affinities w rs) d = (replace_worker_affinities w rs now d).1
step c now (beats q) d = (heartbeat_worker q now d).1
step c now (cuts_over k drained exclusive) d = (enable_fenced_cutover k drained exclusive now d).1
step c now (enqueues q) d = (enqueue_task c q now d).1
step c now (claims q token attempt) d = (claim_task c q token attempt now d).1
step c now (renews m ttl) d = (renew_lease c m ttl now d).1
step c now (starts m) d = (start_task m now d).1
step c now (submits m sha) d = (submit_for_validation m sha now d).1
step c now (completes m) d = (complete_task m now d).1
step c now (fails m reason) d = (fail_task m reason now d).1
step c now (blocks m reason) d = (block_task m reason now d).1
step c now (checkpoints q) d = (record_checkpoint c.encoding q now d).1
step c now (reconciles_effect q) d = (reconcile_effect c.encoding q now d).1
step c now (requeues k correlation_id) d = (requeue_blocked k correlation_id now d).1
step c now recovers_leases d = (recover_expired_leases now d).1
step c now recovers_stalled d = (recover_stalled_tasks c now d).1
step c now reconciles d = (reconcile c now d).1

-- A history: calls with the instants at which they ran.
unfoldable pub run : Settings → List (Time × Call) → Tables → Tables
unfolding step
run c [] d = d
run c ((now, call) ∷ rest) d = run c rest (step c now call d)
