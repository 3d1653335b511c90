-- ===== src/Store/Lifecycle.antt =====
-- app/store.py: what a worker does with the task that it has leased, and `requeue_blocked`.
use engineering_worker_pool.Base.{
  ℕ, zero, Bool, not, ◌&&◌, [], ◌∷◌, Option, none, some, Text, Time, ℤ, pos, add_seconds, same,
  is_text, truthy, nonempty, leb, if◌then◌else◌, any, update, codes, strip, lower,
}
use engineering_worker_pool.Store.Schema.{
  TaskState, leased, running, validating, blocked, completed, failed, builder, validator, Task,
  Tables, Settings,
}
use engineering_worker_pool.Store.Errors.{
  Result, ok, ◌>>=◌, ◌>>◌, raise_if, or_raise, commit, only_builder_starts, builder_diverges,
  independent_validator, no_produced_sha, effect_unresolved, only_blocked, task_not_found,
  invalid_argument, constraint_failed,
}
use engineering_worker_pool.Store.Sanitize.{sanitize, is_sha40}
use engineering_worker_pool.Store.Queries.{
  is_active, is_state, is_role, has_attempt_id, find_task, get_task, get_worker, update_task,
  quarantine_task, end_attempt, require_resolved_effects, LeaseMutation, lease,
}
use engineering_worker_pool.Store.Recovery.{
  effect_reconciliation_required, resume_state, is_open_fence,
}

-- `int(value or default)`
abbrev pub or_default : Option ℤ → ℕ → ℤ
or_default none n = pos n
or_default (some (pos zero)) n = pos n
or_default (some z) n = z

-- `UPDATE task_attempts SET lease_expires_at=? WHERE attempt_id=?`
unfoldable pub extend_attempt : Task → Time → Tables → Tables
extend_attempt row at d = elim row.attempt_id [
  | none ↦ d
  | some [] ↦ d
  | some (c ∷ s) ↦ record d {
    attempts = update (has_attempt_id (c ∷ s)) (λ a. record a { lease_expires_at = at }) d.attempts;
  }
]

abbrev pub renewed : LeaseMutation → Time → Time → Task → Task
renewed m at now t = record t {
  lease_expires_at = some at;
  correlation_id = m.correlation_id;
  updated_at = now;
}

unfoldable pub renew_lease_tx : Settings → LeaseMutation → Option ℤ → Time → Tables → Result Tables
unfolding lease extend_attempt
renew_lease_tx c m lease_seconds now d = do
  row ← lease m is_active now d
  let at = add_seconds now (or_default lease_seconds c.default_lease_seconds)
  ok (extend_attempt row at (update_task m.task_id (renewed m at now) d))

unfoldable pub renew_lease :
    Settings → LeaseMutation → Option ℤ → Time → Tables → Result Task × Tables
unfolding renew_lease_tx
renew_lease c m lease_seconds now d =
    commit d (renew_lease_tx c m lease_seconds now d) (get_task m.task_id)

abbrev pub started : LeaseMutation → Time → Task → Task
started m now t = record t {
  state = running;
  builder_worker_id = some m.worker_id;
  correlation_id = m.correlation_id;
  updated_at = now;
  last_material_progress_at = now;
}

unfoldable pub start_task_tx : LeaseMutation → Time → Tables → Result Tables
unfolding lease
start_task_tx m now d = do
  row ← lease m (is_state leased) now d
  w ← get_worker m.worker_id d
  raise_if (not (is_role w.role builder)) only_builder_starts
  ok (update_task m.task_id (started m now) d)

unfoldable pub start_task : LeaseMutation → Time → Tables → Result Task × Tables
unfolding start_task_tx
start_task m now d = commit d (start_task_tx m now d) (get_task m.task_id)

unfoldable pub validation_handoff : Text
validation_handoff = codes "validation_handoff"

abbrev pub submitted : Text → LeaseMutation → Time → Task → Task
submitted sha m now t = record t {
  state = validating;
  produced_sha = some sha;
  leased_by = none;
  lease_token = none;
  lease_expires_at = none;
  attempt_id = none;
  correlation_id = m.correlation_id;
  updated_at = now;
  last_material_progress_at = now;
}

unfoldable pub submit_tx : LeaseMutation → Text → Time → Tables → Result Tables
unfolding lease require_resolved_effects end_attempt
submit_tx m produced_sha now d = do
  let sha = lower produced_sha
  raise_if (not (is_sha40 sha)) invalid_argument
  row ← lease m (is_state running) now d
  raise_if (not (is_text row.builder_worker_id m.worker_id)) builder_diverges
  require_resolved_effects row d
  ok (update_task m.task_id (submitted sha m now) (end_attempt row validation_handoff now d))

unfoldable pub submit_for_validation : LeaseMutation → Text → Time → Tables → Result Task × Tables
unfolding submit_tx
submit_for_validation m produced_sha now d =
    commit d (submit_tx m produced_sha now d) (get_task m.task_id)

unfoldable pub completed_reason : Text
completed_reason = codes "completed"

abbrev pub finished : LeaseMutation → Time → Task → Task
finished m now t = record t {
  state = completed;
  leased_by = none;
  lease_token = none;
  lease_expires_at = none;
  attempt_id = none;
  correlation_id = m.correlation_id;
  updated_at = now;
  completed_at = some now;
  last_material_progress_at = now;
}

unfoldable pub complete_task_tx : LeaseMutation → Time → Tables → Result Tables
unfolding lease require_resolved_effects end_attempt
complete_task_tx m now d = do
  row ← lease m (is_state validating) now d
  w ← get_worker m.worker_id d
  raise_if (not (is_role w.role validator && not (is_text row.builder_worker_id m.worker_id)))
      independent_validator
  raise_if (not (truthy row.produced_sha)) no_produced_sha
  require_resolved_effects row d
  ok (update_task m.task_id (finished m now) (end_attempt row completed_reason now d))

unfoldable pub complete_task : LeaseMutation → Time → Tables → Result Task × Tables
unfolding complete_task_tx
complete_task m now d = commit d (complete_task_tx m now d) (get_task m.task_id)

unfoldable pub failed_attempt : Text
failed_attempt = codes "failed_attempt"

unfoldable pub worker_failure : Text
worker_failure = codes "worker_failure"

-- `sanitize(reason.strip()) or "worker_failure"`
unfoldable pub failure_reason : Text → Text
failure_reason reason =
    let clean = sanitize (strip reason) in if nonempty clean then clean else worker_failure

abbrev pub is_exhausted : Task → Bool
is_exhausted row = leb row.max_attempts row.attempt_count

abbrev pub given_up : TaskState → Text → LeaseMutation → Time → Task → Task
given_up state reason m now t = record t {
  state = state;
  leased_by = none;
  lease_token = none;
  lease_expires_at = none;
  attempt_id = none;
  last_error = some reason;
  correlation_id = m.correlation_id;
  updated_at = now;
}

-- Where the branches of `fail_task` send the row, and what they add to the quarantine.
unfoldable pub state_after_failure : Task → TaskState
state_after_failure row = if is_exhausted row then failed else resume_state row

unfoldable pub quarantine_exhausted : Task → Text → Time → Tables → Tables
unfolding quarantine_task
quarantine_exhausted row reason now d =
    if is_exhausted row then quarantine_task row reason now d else d

unfoldable pub fail_task_tx : LeaseMutation → Text → Time → Tables → Result Tables
unfolding lease require_resolved_effects end_attempt quarantine_exhausted state_after_failure
    failure_reason
fail_task_tx m reason now d = do
  row ← lease m is_active now d
  require_resolved_effects row d
  ok (
      update_task m.task_id (given_up (state_after_failure row) (failure_reason reason) m now) (
        end_attempt row failed_attempt now
          (quarantine_exhausted row (failure_reason reason) now d)))

unfoldable pub fail_task : LeaseMutation → Text → Time → Tables → Result Task × Tables
unfolding fail_task_tx
fail_task m reason now d = commit d (fail_task_tx m reason now d) (get_task m.task_id)

unfoldable pub blocked_text : Text
blocked_text = codes "blocked"

abbrev pub stopped : Text → LeaseMutation → Time → Task → Task
stopped reason m now t = record t {
  state = blocked;
  leased_by = none;
  lease_token = none;
  lease_expires_at = none;
  attempt_id = none;
  blocked_reason = some reason;
  correlation_id = m.correlation_id;
  updated_at = now;
  last_material_progress_at = now;
}

-- An open effect replaces the worker's reason.
unfoldable pub block_reason : Task → Text → Tables → Text
block_reason row clean d = if is_open_fence row d then effect_reconciliation_required else clean

unfoldable pub block_task_tx : LeaseMutation → Text → Time → Tables → Result Tables
unfolding lease end_attempt block_reason
block_task_tx m reason now d = do
  let clean = sanitize (strip reason)
  raise_if (not (nonempty clean)) invalid_argument
  row ← lease m is_active now d
  ok (
      update_task m.task_id (stopped (block_reason row clean d) m now)
        (end_attempt row blocked_text now d))

unfoldable pub block_task : LeaseMutation → Text → Time → Tables → Result Task × Tables
unfolding block_task_tx
block_task m reason now d = commit d (block_task_tx m reason now d) (get_task m.task_id)

-- The unique index `idx_workspace_active`: another active task has the workspace of `row`.
abbrev pub shares_workspace : Task → Task → Bool
shares_workspace row t =
    is_active t.state
    && same t.repository row.repository
    && same t.workspace_key row.workspace_key
    && not (same t.task_id row.task_id)

abbrev pub requeued : TaskState → Text → Time → Task → Task
requeued state correlation_id now t = record t {
  state = state;
  blocked_reason = none;
  correlation_id = correlation_id;
  updated_at = now;
  last_material_progress_at = now;
}

unfoldable pub requeue_blocked_tx : Text → Text → Time → Tables → Result Tables
requeue_blocked_tx task correlation_id now d = do
  row ← or_raise (find_task task d) task_not_found
  raise_if (not (is_state blocked row.state)) only_blocked
  raise_if (is_open_fence row d) effect_unresolved
  raise_if (is_active (resume_state row) && any (shares_workspace row) d.tasks) constraint_failed
  ok (update_task task (requeued (resume_state row) correlation_id now) d)

unfoldable pub requeue_blocked : Text → Text → Time → Tables → Result Task × Tables
unfolding requeue_blocked_tx
requeue_blocked task correlation_id now d =
    commit d (requeue_blocked_tx task correlation_id now d) (get_task task)
