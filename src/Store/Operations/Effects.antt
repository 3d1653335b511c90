-- ===== src/Store/Operations/Effects.antt =====
-- app/store.py: effects that are not resolved, and `fail_task`.
use engineering_worker_pool.Base.{
  ◌+◌, ◌≡◌, List, ◌++◌, Bool-cases, inl, inr, refl, true, ◌∷◌, [], Option, none, some, Text, Time,
  arith, bit, length, find-update_self, find-holds, Option-cases,
}
use engineering_worker_pool.Store.Schema.{Task, Quarantined, Tables, Settings, failed}
use engineering_worker_pool.Store.Errors.{ok}
use engineering_worker_pool.Store.Sanitize.{sanitize}
use engineering_worker_pool.Store.Queries.{
  find_task, has_task_id, is_state, has_unresolved_effect, require_resolved_effects, lease,
  LeaseMutation, quarantine_task, end_attempt,
}
use engineering_worker_pool.Store.Lifecycle.{
  submit_for_validation, submit_tx, complete_task, complete_task_tx, fail_task, fail_task_tx,
  requeue_blocked, requeue_blocked_tx, is_exhausted, state_after_failure, quarantine_exhausted,
  given_up, failure_reason,
}
use engineering_worker_pool.Store.Calls.{Call, submits, completes, fails, requeues, step}

-- The task that a call moves on.
abbrev pub advances : Call → Option Text
advances (submits m sha) = some m.task_id
advances (completes m) = some m.task_id
advances (fails m reason) = some m.task_id
advances (requeues k correlation_id) = some k
advances _ = none

-- While a fenced task has an effect that is not resolved, no call submits, completes, fails or
-- requeues it: such a call changes nothing.
pub unresolved_holds :
    (c : Settings) (now : Time) (d : Tables) (call : Call) (k : Text) (t : Task)
    → find_task k d ≡ some t
    → t.fencing_required ≡ true
    → has_unresolved_effect k d ≡ true
    → advances call ≡ some k
    → step c now call d ≡ d
unfolding step submit_for_validation submit_tx complete_task complete_task_tx fail_task fail_task_tx
    requeue_blocked requeue_blocked_tx require_resolved_effects lease
unresolved_holds c now d (submits m sha) k t f r h a =
    ground (arith, find-holds (has_task_id k) d.tasks t f)
unresolved_holds c now d (completes m) k t f r h a =
    ground (arith, find-holds (has_task_id k) d.tasks t f)
unresolved_holds c now d (fails m reason) k t f r h a =
    ground (arith, find-holds (has_task_id k) d.tasks t f)
unresolved_holds c now d (requeues j correlation_id) k t f r h a =
    ground (arith, find-holds (has_task_id k) d.tasks t f)
unresolved_holds c now d _ k t f r h a = absurd (cc)

length-append : {A : Type 0} (x : A) (xs : List A) → length (xs ++ x ∷ []) ≡ length xs + 1
length-append x [] = refl
length-append x (y ∷ ys) = ground (arith, length-append x ys)

abbrev entry : Task → Text → Time → Quarantined
entry row reason now = record {
  task_id = row.task_id;
  idempotency_key = row.idempotency_key;
  correlation_id = row.correlation_id;
  attempt_count = row.attempt_count;
  reason = sanitize reason;
  quarantined_at = now;
}

-- A call of `fail_task` that succeeded takes the task from its worker, fails it exactly if its
-- attempts are used up, and adds one row to the quarantine in that case and none in the other.
pub failure_decided :
    (m : LeaseMutation) (reason : Text) (now : Time) (d : Tables) (t : Task) (after : Tables)
    → fail_task m reason now d ≡ (ok t, after)
    → (row : Task) × (find_task m.task_id d ≡ some row)
      × (t.leased_by ≡ none)
      × (is_state failed t.state ≡ is_exhausted row)
      × (length after.quarantine ≡ length d.quarantine + bit (is_exhausted row))
unfolding fail_task fail_task_tx lease quarantine_exhausted quarantine_task end_attempt
    state_after_failure
failure_decided m reason now d t after h = elim (Option-cases (find_task m.task_id d)) [
  | inl n ↦ absurd (ground arith)
  | inr (row, f) ↦
      let there =
        find-update_self (has_task_id m.task_id)
          (given_up (state_after_failure row) (failure_reason reason) m now) d.tasks row f
          (find-holds (has_task_id m.task_id) d.tasks row f) in
      elim (Bool-cases (is_exhausted row)) [
        | inl e ↦ (
          row,
          f,
          ground arith,
          ground arith,
          ground (arith, length-append (entry row (failure_reason reason) now) d.quarantine),
        )
        | inr e ↦ (row, f, ground arith, ground arith, ground arith)
      ]
]
