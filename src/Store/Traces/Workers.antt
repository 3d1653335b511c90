-- ===== src/Store/Traces/Workers.antt =====
-- The calls of a worker that holds a lease, `requeue_blocked`, and the calls that admit a task or
-- leave the tasks alone.
use engineering_worker_pool.Base.{
  ◌≡◌, refl, inl, inr, Bool-cases, add_seconds, strip, Bool, true, not, Option, none, some, Text,
  Time, ℤ, arith, nonempty, update, lower, List,
}
use engineering_worker_pool.Store.Schema.{
  TaskState, leased, running, validating, blocked, failed, Task, Tables, Settings,
}
use engineering_worker_pool.Store.Errors.{
  Result, ok, ◌>>◌, raise_if, or_raise, >>=-eq-ok, commit_cases, invalid_argument, task_not_found,
}
use engineering_worker_pool.Store.Sanitize.{sanitize, is_sha40}
use engineering_worker_pool.Store.Recovery.{resume_state}
use engineering_worker_pool.Store.Queries.{
  is_active, is_state, has_task_id, find_task, update_task, LeaseMutation, lease, end_attempt,
  quarantine_task,
}
use engineering_worker_pool.Store.Lifecycle.{
  renew_lease_tx, renew_lease, start_task_tx, start_task, submit_tx, submit_for_validation,
  complete_task_tx, complete_task, fail_task_tx, fail_task, block_task_tx, block_task,
  requeue_blocked_tx, requeue_blocked, renewed, started, submitted, finished, given_up, stopped,
  requeued, extend_attempt, or_default, is_exhausted, failure_reason, state_after_failure,
  quarantine_exhausted, block_reason, failed_attempt, blocked_text, validation_handoff,
  completed_reason,
}
use engineering_worker_pool.Store.Moves.{
  Move, renew, start, submit, finish, give_up, stop, requeue, IsExclusive, Evolves, stays, moves,
  MayFall,
}

-- What a lease that passes `_lease` is known to be.
pub record LeaseFacts (m : LeaseMutation) (allowed : TaskState → Bool) (d : Tables) (row : Task)
    : Type 0 where
  pub found : find_task m.task_id d ≡ some row
  pub in_state : allowed row.state ≡ true
  pub holder : row.leased_by ≡ some m.worker_id
  pub token : row.lease_token ≡ some m.lease_token

pub lease_facts :
    (m : LeaseMutation) (allowed : TaskState → Bool) (now : Time) (d : Tables) (row : Task)
    → lease m allowed now d ≡ ok row
    → LeaseFacts m allowed d row
unfolding lease
lease_facts m allowed now d row h = ground arith

-- A move that hands the task to nobody new.
pub kept-IsExclusive :
    (t u : Task) (ts : List Task) → u.leased_by ≡ t.leased_by → IsExclusive t u ts
kept-IsExclusive t u ts e w a b = absurd (ground arith)

pub freed-IsExclusive : (t u : Task) (ts : List Task) → u.leased_by ≡ none → IsExclusive t u ts
freed-IsExclusive t u ts e w a b = absurd (ground arith)

-- One update of one row.
pub moves_once :
    (k : Text) (t : Task) (f : Task → Task) (d d' : Tables)
    → find_task k d ≡ some t
    → Move t (f t)
    → IsExclusive t (f t) d.tasks
    → d'.tasks ≡ update (has_task_id k) f d.tasks
    → Evolves d.tasks d'.tasks
moves_once k t f d d' e m x h = rw h (moves k t f stays e m x)

pub end_attempt-tasks :
    (row : Task) (reason : Text) (now : Time) (d : Tables)
    → (end_attempt row reason now d).tasks ≡ d.tasks
unfolding end_attempt
end_attempt-tasks row reason now d = ground arith

extend_attempt-tasks :
    (row : Task) (at : Time) (d : Tables) → (extend_attempt row at d).tasks ≡ d.tasks
unfolding extend_attempt
extend_attempt-tasks row at d = ground arith

pub quarantine_task-tasks :
    (row : Task) (reason : Text) (now : Time) (d : Tables)
    → (quarantine_task row reason now d).tasks ≡ d.tasks
unfolding quarantine_task
quarantine_task-tasks row reason now d = refl

start_task_tx-Evolves :
    (m : LeaseMutation) (now : Time) (d after : Tables)
    → start_task_tx m now d ≡ ok after
    → Evolves d.tasks after.tasks
unfolding start_task_tx
start_task_tx-Evolves m now d after h =
    let (row, l, rest) = >>=-eq-ok (lease m (is_state leased) now d) _ h in
    let facts = lease_facts m (is_state leased) now d row l in
    moves_once m.task_id row (started m now) d after facts.found
      (start m now (ground arith) facts.holder refl)
      (kept-IsExclusive row (started m now row) d.tasks refl) (ground arith)

renew_lease_tx-Evolves :
    (c : Settings) (m : LeaseMutation) (ttl : Option ℤ) (now : Time) (d after : Tables)
    → renew_lease_tx c m ttl now d ≡ ok after
    → Evolves d.tasks after.tasks
unfolding renew_lease_tx
renew_lease_tx-Evolves c m ttl now d after h =
    let (row, l, rest) = >>=-eq-ok (lease m is_active now d) _ h in
    let facts = lease_facts m is_active now d row l in
    moves_once m.task_id row
      (renewed m (add_seconds now (or_default ttl c.default_lease_seconds)) now) d after facts.found
      (renew m (add_seconds now (or_default ttl c.default_lease_seconds)) now facts.in_state
        (ground arith) refl)
      (kept-IsExclusive row
        (renewed m (add_seconds now (or_default ttl c.default_lease_seconds)) now row) d.tasks refl)
      (ground (
        arith,
        extend_attempt-tasks row (add_seconds now (or_default ttl c.default_lease_seconds)) (
            update_task m.task_id
              (renewed m (add_seconds now (or_default ttl c.default_lease_seconds)) now) d),
      ))

-- The checks that stand above the lease.
sha_checked :
    (sha : Text) (r : Result Tables) (after : Tables)
    → (raise_if (not (is_sha40 sha)) invalid_argument >> r) ≡ ok after
    → (r ≡ ok after) × (nonempty sha ≡ true)
sha_checked sha r after h = ground arith

submit_tx-Evolves :
    (m : LeaseMutation) (sha : Text) (now : Time) (d after : Tables)
    → submit_tx m sha now d ≡ ok after
    → Evolves d.tasks after.tasks
unfolding submit_tx
submit_tx-Evolves m sha now d after h =
    let (row, l, rest) =
      >>=-eq-ok (lease m (is_state running) now d) _ (sha_checked (lower sha) _ after h).0 in
    let facts = lease_facts m (is_state running) now d row l in
    moves_once m.task_id row (submitted (lower sha) m now) d after facts.found
      (submit m (lower sha) now (ground arith) (sha_checked (lower sha) _ after h).1 refl)
      (freed-IsExclusive row (submitted (lower sha) m now row) d.tasks refl)
      (ground (arith, end_attempt-tasks row validation_handoff now d))

complete_task_tx-Evolves :
    (m : LeaseMutation) (now : Time) (d after : Tables)
    → complete_task_tx m now d ≡ ok after
    → Evolves d.tasks after.tasks
unfolding complete_task_tx
complete_task_tx-Evolves m now d after h =
    let (row, l, rest) = >>=-eq-ok (lease m (is_state validating) now d) _ h in
    let facts = lease_facts m (is_state validating) now d row l in
    moves_once m.task_id row (finished m now) d after facts.found
      (finish m now (ground arith) facts.holder (ground arith) (ground arith) refl)
      (freed-IsExclusive row (finished m now row) d.tasks refl)
      (ground (arith, end_attempt-tasks row completed_reason now d))

pub MayFall-resumed : (s : TaskState) (row : Task) → s ≡ resume_state row → MayFall s row
MayFall-resumed failed row h = tt
MayFall-resumed blocked row h = tt
MayFall-resumed _ row h = h

state_after_failure-MayFall : (row : Task) → MayFall (state_after_failure row) row
unfolding state_after_failure
state_after_failure-MayFall row = elim (Bool-cases (is_exhausted row)) [
  | inl e ↦ rw e tt
  | inr e ↦ rw e (MayFall-resumed (resume_state row) row refl)
]

quarantine_exhausted-tasks :
    (row : Task) (reason : Text) (now : Time) (d : Tables)
    → (quarantine_exhausted row reason now d).tasks ≡ d.tasks
unfolding quarantine_exhausted
quarantine_exhausted-tasks row reason now d = ground arith

reason_checked :
    (clean : Text) (r : Result Tables) (after : Tables)
    → (raise_if (not (nonempty clean)) invalid_argument >> r) ≡ ok after
    → r ≡ ok after
reason_checked clean r after h = ground arith

fail_task_tx-Evolves :
    (m : LeaseMutation) (reason : Text) (now : Time) (d after : Tables)
    → fail_task_tx m reason now d ≡ ok after
    → Evolves d.tasks after.tasks
unfolding fail_task_tx
fail_task_tx-Evolves m reason now d after h =
    let (row, l, rest) = >>=-eq-ok (lease m is_active now d) _ h in
    let facts = lease_facts m is_active now d row l in
    moves_once m.task_id row (given_up (state_after_failure row) (failure_reason reason) m now) d
      after facts.found
      (give_up (state_after_failure row) (failure_reason reason) m now facts.in_state
        (state_after_failure-MayFall row) refl)
      (freed-IsExclusive row (given_up (state_after_failure row) (failure_reason reason) m now row)
        d.tasks refl)
      (ground (
        arith,
        quarantine_exhausted-tasks row (failure_reason reason) now d,
        end_attempt-tasks row failed_attempt now
            (quarantine_exhausted row (failure_reason reason) now d),
      ))

block_task_tx-Evolves :
    (m : LeaseMutation) (reason : Text) (now : Time) (d after : Tables)
    → block_task_tx m reason now d ≡ ok after
    → Evolves d.tasks after.tasks
unfolding block_task_tx
block_task_tx-Evolves m reason now d after h =
    let (row, l, rest) =
      >>=-eq-ok (lease m is_active now d) _ (reason_checked (sanitize (strip reason)) _ after h) in
    let facts = lease_facts m is_active now d row l in
    moves_once m.task_id row (stopped (block_reason row (sanitize (strip reason)) d) m now) d after
      facts.found (stop (block_reason row (sanitize (strip reason)) d) m now facts.in_state refl)
      (freed-IsExclusive row (stopped (block_reason row (sanitize (strip reason)) d) m now row)
        d.tasks refl)
      (ground (arith, end_attempt-tasks row blocked_text now d))

requeue_blocked_tx-Evolves :
    (k correlation_id : Text) (now : Time) (d after : Tables)
    → requeue_blocked_tx k correlation_id now d ≡ ok after
    → Evolves d.tasks after.tasks
unfolding requeue_blocked_tx
requeue_blocked_tx-Evolves k correlation_id now d after h =
    let (row, l, rest) = >>=-eq-ok (or_raise (find_task k d) task_not_found) _ h in
    moves_once k row (requeued (resume_state row) correlation_id now) d after (ground arith)
      (requeue correlation_id now (ground arith) refl)
      (kept-IsExclusive row (requeued (resume_state row) correlation_id now row) d.tasks refl)
      (ground arith)

module _ (now : Time) (d : Tables) where
  pub start_task-Evolves : (m : LeaseMutation) → Evolves d.tasks (start_task m now d).1.tasks
  unfolding start_task
  start_task-Evolves m =
      commit_cases (λ e. Evolves d.tasks e.tasks) d _ _ stays (start_task_tx-Evolves m now d)

  pub renew_lease-Evolves :
      (c : Settings) (m : LeaseMutation) (ttl : Option ℤ)
      → Evolves d.tasks (renew_lease c m ttl now d).1.tasks
  unfolding renew_lease
  renew_lease-Evolves c m ttl =
      commit_cases (λ e. Evolves d.tasks e.tasks) d _ _ stays (renew_lease_tx-Evolves c m ttl now d)

  pub submit-Evolves :
      (m : LeaseMutation) (sha : Text) → Evolves d.tasks (submit_for_validation m sha now d).1.tasks
  unfolding submit_for_validation
  submit-Evolves m sha =
      commit_cases (λ e. Evolves d.tasks e.tasks) d _ _ stays (submit_tx-Evolves m sha now d)

  pub complete_task-Evolves : (m : LeaseMutation) → Evolves d.tasks (complete_task m now d).1.tasks
  unfolding complete_task
  complete_task-Evolves m =
      commit_cases (λ e. Evolves d.tasks e.tasks) d _ _ stays (complete_task_tx-Evolves m now d)

  pub fail_task-Evolves :
      (m : LeaseMutation) (reason : Text) → Evolves d.tasks (fail_task m reason now d).1.tasks
  unfolding fail_task
  fail_task-Evolves m reason =
      commit_cases (λ e. Evolves d.tasks e.tasks) d _ _ stays (fail_task_tx-Evolves m reason now d)

  pub block_task-Evolves :
      (m : LeaseMutation) (reason : Text) → Evolves d.tasks (block_task m reason now d).1.tasks
  unfolding block_task
  block_task-Evolves m reason =
      commit_cases (λ e. Evolves d.tasks e.tasks) d _ _ stays (block_task_tx-Evolves m reason now d)

  pub requeue_blocked-Evolves :
      (k correlation_id : Text) → Evolves d.tasks (requeue_blocked k correlation_id now d).1.tasks
  unfolding requeue_blocked
  requeue_blocked-Evolves k correlation_id =
      commit_cases (λ e. Evolves d.tasks e.tasks) d _ _ stays
        (requeue_blocked_tx-Evolves k correlation_id now d)
