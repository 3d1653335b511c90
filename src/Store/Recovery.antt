-- ===== src/Store/Recovery.antt =====
-- app/store.py: `_recover`, `_worker_is_alternative`, `_recover_stalled`, `reconcile` and the two
-- public calls around them. The rows are taken in the order of the table.
use engineering_worker_pool.Base.{
  ℕ, ◌+◌, ◌-◌, Bool, true, false, not, ◌&&◌, ◌||◌, List, [], ◌∷◌, Option, none, some, Text, Time,
  seconds, iso_le, same, is_text, truthy, ltb, leb, if◌then◌else◌, select, any, length, codes,
}
use engineering_worker_pool.Store.Schema.{
  TaskState, queued, validating, blocked, failed, builder, validator, Worker, Affinity, Task,
  Tables, Settings,
}
use engineering_worker_pool.Store.Queries.{
  is_active, is_role, is_normal, update_task, holds_active, quarantine_task, end_attempt,
  has_unresolved_effect,
}

unfoldable pub effect_reconciliation_required : Text
effect_reconciliation_required = codes "effect_reconciliation_required"

unfoldable pub lease_expired_max_attempts : Text
lease_expired_max_attempts = codes "lease_expired_max_attempts"

unfoldable pub lease_expired_recovered : Text
lease_expired_recovered = codes "lease_expired_recovered"

unfoldable pub progress_timeout_max_attempts : Text
progress_timeout_max_attempts = codes "material_progress_timeout_max_attempts"

unfoldable pub progress_timeout_rerouted : Text
progress_timeout_rerouted = codes "material_progress_timeout_rerouted"

unfoldable pub progress_timeout_no_alternative : Text
progress_timeout_no_alternative = codes "material_progress_timeout_no_alternative"

-- "validating" if row["produced_sha"] else "queued"
abbrev pub resume_state : Task → TaskState
resume_state row = if truthy row.produced_sha then validating else queued

-- What the watchdog decides about a row.
pub record Verdict : Type 0 where
  pub state : TaskState
  pub blocked_reason : Option Text
  pub last_error : Text
  pub to_quarantine : Bool

abbrev pub needs_reconciliation : Verdict
needs_reconciliation = record {
  state = blocked;
  blocked_reason = some effect_reconciliation_required;
  last_error = effect_reconciliation_required;
  to_quarantine = false;
}

abbrev pub exhausted : Text → Verdict
exhausted reason = record {
  state = failed;
  blocked_reason = none;
  last_error = reason;
  to_quarantine = true;
}

abbrev pub resumed : Task → Text → Verdict
resumed row reason = record {
  state = resume_state row;
  blocked_reason = none;
  last_error = reason;
  to_quarantine = false;
}

abbrev pub is_open_fence : Task → Tables → Bool
is_open_fence row d = row.fencing_required && has_unresolved_effect row.task_id d

-- The branches of the loop in `_recover`.
unfoldable pub expired_verdict : Tables → Task → Verdict
expired_verdict d row =
    if is_open_fence row d
    then needs_reconciliation
    else if leb row.max_attempts row.attempt_count
    then exhausted lease_expired_max_attempts
    else resumed row lease_expired_recovered

-- `UPDATE tasks SET state=?, leased_by=NULL, …` of both loops.
abbrev pub released : Verdict → Time → Task → Task
released v now t = record t {
  state = v.state;
  leased_by = none;
  lease_token = none;
  lease_expires_at = none;
  attempt_id = none;
  blocked_reason = v.blocked_reason;
  last_error = some v.last_error;
  updated_at = now;
}

-- The statements that carry a verdict out.
unfoldable pub settle : Task → Verdict → Time → Tables → Tables
unfolding end_attempt quarantine_task
settle row v now d = update_task row.task_id (released v now) (
    end_attempt row v.last_error now
      (if v.to_quarantine then quarantine_task row v.last_error now d else d))

abbrev pub is_overdue : Option Time → Time → Bool
is_overdue none now = false
is_overdue (some at) now = iso_le at now

-- `WHERE state IN (…) AND lease_expires_at IS NOT NULL AND lease_expires_at <= ?`
abbrev pub is_expired : Time → Task → Bool
is_expired now t = is_active t.state && is_overdue t.lease_expires_at now

-- `for row in rows`
unfoldable pub for_each : (Task → Tables → Tables) → List Task → Tables → Tables
for_each body [] d = d
for_each body (row ∷ rows) d = for_each body rows (body row d)

unfoldable pub recover_row : Time → Task → Tables → Tables
unfolding settle expired_verdict
recover_row now row d = settle row (expired_verdict d row) now d

-- `_recover`: the tables, and the number of rows.
unfoldable pub recover : Time → Tables → Tables
unfolding for_each recover_row
recover now d = for_each (recover_row now) (select (is_expired now) d.tasks) d

unfoldable pub recovered_count : Time → Tables → ℕ
recovered_count now d = length (select (is_expired now) d.tasks)

abbrev pub rules_diverge : Settings → Worker → Bool
rules_diverge c w = elim c.expected_rules_sha [
  | none ↦ false
  | some e ↦ not (is_text w.rules_sha e)
]

-- `(clock() - last_heartbeat).total_seconds() > heartbeat_ttl_seconds`
abbrev pub is_stale : Settings → Time → Worker → Bool
is_stale c now w = ltb (w.last_heartbeat_at + seconds c.heartbeat_ttl_seconds) now

abbrev pub is_of_worker : Text → Affinity → Bool
is_of_worker w a = same a.worker_id w

abbrev pub is_affine : Text → Text → Affinity → Bool
is_affine w repository a = same a.worker_id w && same a.repository repository

-- A worker with no affinity serves every repository, any other only those listed.
unfoldable pub serves : Text → Text → Tables → Bool
serves w repository d =
    not (any (is_of_worker w) d.affinities) || any (is_affine w repository) d.affinities

-- `_worker_is_alternative`
unfoldable pub worker_is_alternative : Settings → Time → Tables → Task → Worker → Bool
unfolding serves
worker_is_alternative c now d row w =
    not (is_text row.leased_by w.worker_id)
    && is_role w.role (if truthy row.produced_sha then validator else builder)
    && is_normal w.profile
    && w.gateway_ok
    && w.state_validated
    && not (rules_diverge c w)
    && not (is_stale c now w)
    && not (any (holds_active w.worker_id) d.tasks)
    && serves w.worker_id row.repository d

-- The branches of the loop in `_recover_stalled`.
unfoldable pub stalled_verdict : Settings → Time → Tables → Task → Verdict
unfolding worker_is_alternative
stalled_verdict c now d row =
    if is_open_fence row d
    then needs_reconciliation
    else if leb row.max_attempts row.attempt_count
    then exhausted progress_timeout_max_attempts
    else if any (worker_is_alternative c now d row) d.workers
    then resumed row progress_timeout_rerouted
    else record {
      state = blocked;
      blocked_reason = some progress_timeout_no_alternative;
      last_error = progress_timeout_no_alternative;
      to_quarantine = false;
    }

-- `last_material_progress_at <= iso(now - timedelta(seconds=progress_stall_seconds))`
abbrev pub is_stalled : Settings → Time → Task → Bool
is_stalled c now t =
    is_active t.state && iso_le t.last_material_progress_at (now - seconds c.progress_stall_seconds)

unfoldable pub stalled_row : Settings → Time → Task → Tables → Tables
unfolding settle stalled_verdict
stalled_row c now row d = settle row (stalled_verdict c now d row) now d

-- `_recover_stalled`
unfoldable pub recover_stalled : Settings → Time → Tables → Tables
unfolding for_each stalled_row
recover_stalled c now d = for_each (stalled_row c now) (select (is_stalled c now) d.tasks) d

-- The counts that `_recover_stalled` returns.
pub record StallCounts : Type 0 where
  pub rerouted_count : ℕ
  pub blocked_count : ℕ
  pub failed_count : ℕ

abbrev pub tally : Verdict → StallCounts → StallCounts
tally v n = elim v.state [
  | blocked ↦ record n { blocked_count = n.blocked_count + 1 }
  | failed ↦ record n { failed_count = n.failed_count + 1 }
  | _ ↦ record n { rerouted_count = n.rerouted_count + 1 }
]

unfoldable pub stall_counts_from : Settings → Time → List Task → Tables → StallCounts → StallCounts
unfolding stalled_row
stall_counts_from c now [] d n = n
stall_counts_from c now (row ∷ rows) d n =
    stall_counts_from c now rows (stalled_row c now row d) (tally (stalled_verdict c now d row) n)

unfoldable pub stall_counts : Settings → Time → Tables → StallCounts
unfolding stall_counts_from
stall_counts c now d =
    stall_counts_from c now (select (is_stalled c now) d.tasks) d
      (record { rerouted_count = 0; blocked_count = 0; failed_count = 0 })

-- What `reconcile` returns.
pub record Cycle : Type 0 where
  pub expired_leases_recovered : ℕ
  pub stalled : StallCounts

-- `reconcile`: both in one transaction.
unfoldable pub reconcile : Settings → Time → Tables → Cycle × Tables
unfolding recover recover_stalled recovered_count stall_counts
reconcile c now d =
    let after = recover now d in
    (
      record {
        expired_leases_recovered = recovered_count now d;
        stalled = stall_counts c now after;
      },
      recover_stalled c now after,
    )

-- `recover_stalled_tasks` and `recover_expired_leases`
unfoldable pub recover_stalled_tasks : Settings → Time → Tables → StallCounts × Tables
unfolding recover_stalled stall_counts
recover_stalled_tasks c now d = (stall_counts c now d, recover_stalled c now d)

unfoldable pub recover_expired_leases : Time → Tables → ℕ × Tables
unfolding recover recovered_count
recover_expired_leases now d = (recovered_count now d, recover now d)
