-- ===== src/Work.antt =====
-- app/work.py: `WorkOrchestrator`, the facade that binds a task to its evidence and its merge.
use engineering_worker_pool.Base.{
  Bool, true, false, not, ◌&&◌, ◌||◌, List, [], ◌∷◌, ◌++◌, Option, none, some, Text, Time, same,
  is_text, nonempty, truthy, or_none, is_none, iff, if◌then◌else◌, find, any, update, take, codes,
  strip, lower,
}
use engineering_worker_pool.Store.Schema.{
  TaskState, queued, leased, running, validating, blocked, completed, failed, Task, Tables,
  Settings,
}
use engineering_worker_pool.Store.Errors.{
  Result, ok, err, ◌>>=◌, ◌>>◌, raise_if, or_raise, work_not_found, invalid_argument,
  evidence_controls, task_not_validated, validation_sha_diverges, evidence_diverges, work_diverges,
  evidence_required, head_sha_diverges, merge_diverges, block_diverges, constraint_failed,
}
use engineering_worker_pool.Store.Sanitize.{sanitize, is_sha40}
use engineering_worker_pool.Store.Queries.{get_task, is_state}
use engineering_worker_pool.Store.Admission.{TaskRequest, enqueue_task}
pub mod Runs
pub mod Deeds

pub data EvidenceState : Type 0 where
  evidence_pending evidence_verified : EvidenceState

pub data MergeState : Type 0 where
  merge_pending merge_ready merge_blocked merge_done : MergeState

-- A row of `work_runs`. `merge_policy` has the one value that the schema accepts, "governed".
pub record WorkRow : Type 0 where
  pub work_id : Text
  pub task_id : Text
  pub evidence_state : EvidenceState
  pub merge_state : MergeState
  pub validation_run_id : Option Text
  pub validation_sha : Option Text
  pub evidence_reference : Option Text
  pub independent_readback : Bool
  pub positive_control : Bool
  pub negative_control : Bool
  pub expected_head_sha : Option Text
  pub merge_commit_sha : Option Text
  pub merge_reason : Option Text
  pub correlation_id : Text
  pub created_at : Time
  pub updated_at : Time
  pub merged_at : Option Time

-- `_phase`; a blocked or failed task is shown by its own state.
pub data Phase : Type 0 where
  in_queue at_worker at_validator awaiting_evidence awaiting_merge merge_stopped merge_recorded
        task_blocked task_failed :
      Phase

abbrev pub is_verified : WorkRow → Bool
is_verified row = elim row.evidence_state [ evidence_verified ↦ true | evidence_pending ↦ false ]

-- `_phase`, where neither the merge nor the evidence decides.
abbrev pub phase_of_state : TaskState → Phase
phase_of_state queued = in_queue
phase_of_state leased = at_worker
phase_of_state running = at_worker
phase_of_state validating = at_validator
phase_of_state completed = awaiting_evidence
phase_of_state blocked = task_blocked
phase_of_state failed = task_failed

unfoldable pub phase : Task → WorkRow → Phase
phase task row = elim row.merge_state [
  | merge_done ↦ merge_recorded
  | merge_blocked ↦ merge_stopped
  | merge_ready ↦ if is_verified row then awaiting_merge else phase_of_state task.state
  | merge_pending ↦ if is_verified row then awaiting_merge else phase_of_state task.state
]

-- `_public_task`: the row without its lease token.
abbrev pub public_task : Task → Task
public_task t = record t { lease_token = none }

-- `_view`
pub record WorkView : Type 0 where
  pub phase : Phase
  pub row : WorkRow
  pub task : Task

abbrev pub has_work_id : Text → WorkRow → Bool
has_work_id k row = same row.work_id k

-- `_row`
abbrev pub work_row : Text → List WorkRow → Result WorkRow
work_row k ws = or_raise (find (has_work_id k) ws) work_not_found

unfoldable pub view : Tables → WorkRow → Result WorkView
unfolding phase
view d row = do
  task ← get_task row.task_id d
  ok (record { phase = phase task row; row = row; task = public_task task })

unfoldable pub get_work : Text → Tables → List WorkRow → Result WorkView
unfolding view
get_work k d ws = work_row k ws >>= view d

-- `_work_id`
unfoldable pub work_id_of : Task → Text
work_id_of t = codes "work-" ++ take 24 t.idempotency_key

abbrev pub new_work : Task → Text → Time → WorkRow
new_work t correlation_id now = record {
  work_id = work_id_of t;
  task_id = t.task_id;
  evidence_state = evidence_pending;
  merge_state = merge_pending;
  validation_run_id = none;
  validation_sha = none;
  evidence_reference = none;
  independent_readback = false;
  positive_control = false;
  negative_control = false;
  expected_head_sha = none;
  merge_commit_sha = none;
  merge_reason = none;
  correlation_id = correlation_id;
  created_at = now;
  updated_at = now;
  merged_at = none;
}

abbrev pub is_run_of : Text → WorkRow → Bool
is_run_of task row = same row.task_id task

-- The transaction of `create_work`; `task_id` is unique.
unfoldable pub add_work :
    Task → Text → Time → List WorkRow → Option WorkRow → Result (Bool × List WorkRow)
add_work t correlation_id now ws none = do
  raise_if (any (is_run_of t.task_id) ws) constraint_failed
  ok (true, ws ++ new_work t correlation_id now ∷ [])
add_work t correlation_id now ws (some row) = do
  raise_if (not (same row.task_id t.task_id)) work_diverges
  ok (false, ws)

abbrev pub created_view :
    Task
    → Tables
    → List WorkRow
    → Result (Bool × List WorkRow)
    → Result (WorkView × Bool) × Tables × List WorkRow
created_view t d ws (err e) = (err e, d, ws)
created_view t d ws (ok (created, after)) =
    (get_work (work_id_of t) d after >>= λ v. ok (v, created), d, after)

-- The task is committed before the row of the work is.
unfoldable pub create_work :
    Settings
    → TaskRequest
    → Text
    → Time
    → Tables
    → List WorkRow
    → Result (WorkView × Bool) × Tables × List WorkRow
unfolding add_work get_work
create_work c q merge_policy now d ws =
    if not (same merge_policy (codes "governed"))
    then (err invalid_argument, d, ws)
    else (let (result, after) = enqueue_task c q now d in
        elim result [
          | err e ↦ (err e, after, ws)
          | ok r ↦
              created_view r.0 after ws
                (add_work r.0 q.correlation_id now ws (find (has_work_id (work_id_of r.0)) ws))
        ])

pub record EvidenceRequest : Type 0 where
  pub work_id : Text
  pub validation_run_id : Text
  pub validation_sha : Text
  pub evidence_reference : Text
  pub independent_readback : Bool
  pub positive_control : Bool
  pub negative_control : Bool
  pub correlation_id : Text

-- `validation_sha.strip().lower()`, and the other names of a commit.
abbrev pub clean_sha : Text → Text
clean_sha s = lower (strip s)

-- The replay gives the evidence that is there.
abbrev pub is_same_evidence : EvidenceRequest → WorkRow → Bool
is_same_evidence q row =
    is_text row.validation_run_id (strip q.validation_run_id)
    && is_text row.validation_sha (clean_sha q.validation_sha)
    && is_text row.evidence_reference (strip q.evidence_reference)
    && iff row.independent_readback q.independent_readback
    && iff row.positive_control q.positive_control
    && iff row.negative_control q.negative_control

abbrev pub lower_of : Option Text → Text
lower_of none = []
lower_of (some s) = lower s

-- What `record_evidence` reads and checks before its transaction.
unfoldable pub check_evidence : EvidenceRequest → Tables → List WorkRow → Result WorkRow
check_evidence q d ws = do
  raise_if (not (is_sha40 (clean_sha q.validation_sha))) invalid_argument
  raise_if (not (nonempty (strip q.validation_run_id) && nonempty (strip q.evidence_reference)))
      invalid_argument
  raise_if (not (q.independent_readback && q.positive_control && q.negative_control))
      evidence_controls
  row ← work_row q.work_id ws
  task ← get_task row.task_id d
  raise_if (not (is_state completed task.state && truthy task.produced_sha)) task_not_validated
  raise_if (not (same (clean_sha q.validation_sha) (lower_of task.produced_sha)))
      validation_sha_diverges
  raise_if (is_verified row && not (is_same_evidence q row)) evidence_diverges
  ok row

abbrev pub verified : EvidenceRequest → Time → WorkRow → WorkRow
verified q now row = record row {
  evidence_state = evidence_verified;
  merge_state = merge_ready;
  validation_run_id = some (strip q.validation_run_id);
  validation_sha = some (clean_sha q.validation_sha);
  evidence_reference = some (strip q.evidence_reference);
  independent_readback = true;
  positive_control = true;
  negative_control = true;
  expected_head_sha = some (clean_sha q.validation_sha);
  correlation_id = strip q.correlation_id;
  updated_at = now;
}

-- `WHERE work_id=? AND evidence_state='pending'`
abbrev pub is_pending_work : Text → WorkRow → Bool
is_pending_work k row = has_work_id k row && not (is_verified row)

abbrev pub write_evidence : EvidenceRequest → Time → List WorkRow → List WorkRow
write_evidence q now ws = update (is_pending_work q.work_id) (verified q now) ws

unfoldable pub record_evidence :
    EvidenceRequest → Time → Tables → List WorkRow → Result WorkView × List WorkRow
unfolding check_evidence view get_work
record_evidence q now d ws = elim (check_evidence q d ws) [
  | err e ↦ (err e, ws)
  | ok row ↦
      if is_verified row
      then (view d row, ws)
      else (get_work q.work_id d (write_evidence q now ws), write_evidence q now ws)
]

pub record MergeRequest : Type 0 where
  pub work_id : Text
  pub expected_head_sha : Text
  pub merged : Bool
  pub correlation_id : Text
  pub merge_commit_sha : Option Text
  pub reason : Option Text

-- `(merge_commit_sha or "").strip().lower() or None`
abbrev pub clean_commit : Option Text → Option Text
clean_commit none = none
clean_commit (some s) = or_none (clean_sha s)

-- `sanitize((reason or "").strip()) or None`
abbrev pub clean_reason : Option Text → Option Text
clean_reason none = none
clean_reason (some s) = or_none (sanitize (strip s))

abbrev pub is_commit : Option Text → Bool
is_commit none = false
is_commit (some s) = is_sha40 s

abbrev pub has_merge_state : MergeState → WorkRow → Bool
has_merge_state merge_pending row = elim row.merge_state [ merge_pending ↦ true | _ ↦ false ]
has_merge_state merge_ready row = elim row.merge_state [ merge_ready ↦ true | _ ↦ false ]
has_merge_state merge_blocked row = elim row.merge_state [ merge_blocked ↦ true | _ ↦ false ]
has_merge_state merge_done row = elim row.merge_state [ merge_done ↦ true | _ ↦ false ]

-- `a == b` on two values that may be NULL.
abbrev pub same_option : Option Text → Option Text → Bool
same_option none none = true
same_option none (some _) = false
same_option (some a) b = is_text b a

-- A result for a row that has one already is a replay, or another one.
abbrev pub is_merge_replay : MergeRequest → WorkRow → Bool
is_merge_replay q row =
    has_merge_state merge_done row || (has_merge_state merge_blocked row && not q.merged)

-- What `record_merge_result` reads and checks before its transaction.
unfoldable pub check_merge : MergeRequest → Tables → List WorkRow → Result WorkRow
check_merge q d ws = do
  raise_if (not (is_sha40 (clean_sha q.expected_head_sha))) invalid_argument
  row ← work_row q.work_id ws
  task ← get_task row.task_id d
  raise_if (not (is_verified row) || has_merge_state merge_pending row) evidence_required
  raise_if
      (not (
        same (clean_sha q.expected_head_sha) (lower_of task.produced_sha)
        && is_text row.expected_head_sha (clean_sha q.expected_head_sha)))
      head_sha_diverges
  raise_if (q.merged && not (is_commit (clean_commit q.merge_commit_sha))) invalid_argument
  raise_if
      (not q.merged
        && not (is_none (clean_commit q.merge_commit_sha) && truthy (clean_reason q.reason)))
      invalid_argument
  raise_if
      (has_merge_state merge_done row
        && not (q.merged && same_option row.merge_commit_sha (clean_commit q.merge_commit_sha)))
      merge_diverges
  raise_if
      (has_merge_state merge_blocked row
        && not q.merged
        && not (same_option row.merge_reason (clean_reason q.reason)))
      block_diverges
  ok row

abbrev pub decided : MergeRequest → Time → WorkRow → WorkRow
decided q now row = record row {
  merge_state = if q.merged then merge_done else merge_blocked;
  merge_commit_sha = clean_commit q.merge_commit_sha;
  merge_reason = clean_reason q.reason;
  correlation_id = strip q.correlation_id;
  updated_at = now;
  merged_at = if q.merged then some now else none;
}

abbrev pub write_merge : MergeRequest → Time → List WorkRow → List WorkRow
write_merge q now ws = update (has_work_id q.work_id) (decided q now) ws

unfoldable pub record_merge_result :
    MergeRequest → Time → Tables → List WorkRow → Result WorkView × List WorkRow
unfolding check_merge view get_work
record_merge_result q now d ws = elim (check_merge q d ws) [
  | err e ↦ (err e, ws)
  | ok row ↦
      if is_merge_replay q row
      then (view d row, ws)
      else (get_work q.work_id d (write_merge q now ws), write_merge q now ws)
]
