-- ===== src/Store/Traces/Calls.antt =====
-- Every history: the tasks evolve by moves and admissions alone.
use engineering_worker_pool.Base.{◌≡◌, Time, List, [], ◌∷◌}
use engineering_worker_pool.Store.Schema.{Task, Tables, Settings}
use engineering_worker_pool.Store.Recovery.{
  reconcile, recover_stalled_tasks, recover_expired_leases,
}
use engineering_worker_pool.Store.Calls.{
  Call, registers, configures, replaces_affinities, beats, cuts_over, enqueues, claims, renews,
  starts, submits, completes, fails, blocks, checkpoints, reconciles_effect, requeues,
  recovers_leases, recovers_stalled, reconciles, step, run,
}
use engineering_worker_pool.Store.Moves.{Evolves, Evolves-trans, Evolves-Distinct, Distinct, stays}
use engineering_worker_pool.Store.Traces.Workers.{
  start_task-Evolves, renew_lease-Evolves, submit-Evolves, complete_task-Evolves, fail_task-Evolves,
  block_task-Evolves, requeue_blocked-Evolves,
}
use engineering_worker_pool.Store.Traces.Watchdog.{
  recover-Evolves, recover_stalled-Evolves, recover_both-Evolves,
}
use engineering_worker_pool.Store.Traces.Claims.{claim_task-Evolves}
use engineering_worker_pool.Store.Traces.Effects.{record_checkpoint-Evolves, reconcile_effect-tasks}
use engineering_worker_pool.Store.Traces.Admission.{
  register_worker-tasks, configure_repository-tasks, replace_worker_affinities-tasks,
  heartbeat_worker-tasks, enable_fenced_cutover-tasks, enqueue_task-Evolves,
}

same_tasks : {ts us : List Task} → us ≡ ts → Evolves ts us
same_tasks h = rw h stays

pub step-Evolves :
    (c : Settings) (now : Time) (call : Call) (d : Tables)
    → Distinct d.tasks
    → Evolves d.tasks (step c now call d).tasks
unfolding step
step-Evolves c now (registers q) d u = same_tasks (register_worker-tasks q now d)
step-Evolves c now (configures r enabled n) d u =
    same_tasks (configure_repository-tasks r enabled n now d)
step-Evolves c now (replaces_affinities w rs) d u =
    same_tasks (replace_worker_affinities-tasks w rs now d)
step-Evolves c now (beats q) d u = same_tasks (heartbeat_worker-tasks q now d)
step-Evolves c now (cuts_over k drained exclusive) d u =
    same_tasks (enable_fenced_cutover-tasks k drained exclusive now d)
step-Evolves c now (enqueues q) d u = enqueue_task-Evolves c q now d
step-Evolves c now (claims q token attempt) d u = claim_task-Evolves c q token attempt now d u
step-Evolves c now (renews m ttl) d u = renew_lease-Evolves now d c m ttl
step-Evolves c now (starts m) d u = start_task-Evolves now d m
step-Evolves c now (submits m sha) d u = submit-Evolves now d m sha
step-Evolves c now (completes m) d u = complete_task-Evolves now d m
step-Evolves c now (fails m reason) d u = fail_task-Evolves now d m reason
step-Evolves c now (blocks m reason) d u = block_task-Evolves now d m reason
step-Evolves c now (checkpoints q) d u = record_checkpoint-Evolves c.encoding q now d
step-Evolves c now (reconciles_effect q) d u =
    same_tasks (reconcile_effect-tasks c.encoding q now d)
step-Evolves c now (requeues k correlation_id) d u = requeue_blocked-Evolves now d k correlation_id
step-Evolves c now recovers_leases d u = unfold recover_expired_leases in recover-Evolves now d u
step-Evolves c now recovers_stalled d u =
    unfold recover_stalled_tasks in recover_stalled-Evolves c now d u
step-Evolves c now reconciles d u = unfold reconcile in recover_both-Evolves c now d u

pub run-Evolves :
    (c : Settings) (history : List (Time × Call)) (d : Tables)
    → Distinct d.tasks
    → Evolves d.tasks (run c history d).tasks
unfolding run
run-Evolves c [] d u = stays
run-Evolves c ((now, call) ∷ rest) d u =
    let first = step-Evolves c now call d u in
    Evolves-trans first (run-Evolves c rest (step c now call d) (Evolves-Distinct first u))
