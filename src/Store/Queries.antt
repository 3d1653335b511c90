-- ===== src/Store/Queries.antt =====
-- The SQL that several operations of app/store.py share: rows by key, what is active, the lanes,
-- the attempts, the unresolved effects, and the checks that guard a transition.
use engineering_worker_pool.Base.{
  ℕ, Bool, true, false, not, ◌&&◌, ◌||◌, [], ◌∷◌, ◌++◌, Option, none, some, Text, Time, same,
  is_text, is_none, ltb, leb, ◌==◌, find, any, update, coalesce,
}
use engineering_worker_pool.Store.Schema.{
  TaskState, queued, leased, running, validating, blocked, completed, failed, Role, Profile, normal,
  EffectState, pending, unknown, Worker, Lane, Task, Attempt, Checkpoint, Reconciliation, Tables,
  builder, validator, estudo,
}
use engineering_worker_pool.Store.Errors.{
  Result, ok, ◌>>=◌, ◌>>◌, raise_if, or_raise, row_not_found, effect_unresolved, task_not_found,
  invalid_state, invalid_lease, fence_required, invalid_generation, invalid_attempt, lease_expired,
}
use engineering_worker_pool.Store.Sanitize.{sanitize}

-- `state IN ('leased','running','validating')`
abbrev pub is_active : TaskState → Bool
is_active leased = true
is_active running = true
is_active validating = true
is_active _ = false

abbrev pub is_state : TaskState → TaskState → Bool
is_state queued queued = true
is_state leased leased = true
is_state running running = true
is_state validating validating = true
is_state blocked blocked = true
is_state completed completed = true
is_state failed failed = true
is_state _ _ = false

abbrev pub is_role : Role → Role → Bool
is_role builder builder = true
is_role validator validator = true
is_role _ _ = false

abbrev pub is_normal : Profile → Bool
is_normal normal = true
is_normal estudo = false

abbrev pub has_task_id : Text → Task → Bool
has_task_id k t = same t.task_id k

abbrev pub has_worker_id : Text → Worker → Bool
has_worker_id k w = same w.worker_id k

abbrev pub has_repository : Text → Lane → Bool
has_repository k r = same r.repository k

abbrev pub has_attempt_id : Text → Attempt → Bool
has_attempt_id k a = same a.attempt_id k

-- `SELECT * … WHERE key = ?`
abbrev pub find_task : Text → Tables → Option Task
find_task k d = find (has_task_id k) d.tasks

abbrev pub find_worker : Text → Tables → Option Worker
find_worker k d = find (has_worker_id k) d.workers

abbrev pub find_lane : Text → Tables → Option Lane
find_lane k d = find (has_repository k) d.lanes

-- `_d`, after a query by key.
abbrev pub get_task : Text → Tables → Result Task
get_task k d = or_raise (find_task k d) row_not_found

abbrev pub get_worker : Text → Tables → Result Worker
get_worker k d = or_raise (find_worker k d) row_not_found

-- `UPDATE tasks SET … WHERE task_id = ?`
abbrev pub update_task : Text → (Task → Task) → Tables → Tables
update_task k f d = record d { tasks = update (has_task_id k) f d.tasks }

-- The worker holds an active task.
abbrev pub holds_active : Text → Task → Bool
holds_active w t = is_text t.leased_by w && is_active t.state

-- The tasks in flight in a repository.
abbrev pub is_in_flight : Text → Task → Bool
is_in_flight repository t = same t.repository repository && is_active t.state

-- `_ensure_repository_lane`
unfoldable pub ensure_repository_lane : Text → Time → Tables → Tables
ensure_repository_lane repository now d = elim (find_lane repository d) [
  | some _ ↦ d
  | none ↦ record d {
    lanes =
        d.lanes
        ++ record {
          repository = repository;
          enabled = true;
          max_in_flight = 1;
          builder_claim_count = 0;
          validator_claim_count = 0;
          last_builder_claimed_at = none;
          last_validator_claimed_at = none;
          updated_at = now;
        }
          ∷ [];
  }
]

-- `_quarantine`
unfoldable pub quarantine_task : Task → Text → Time → Tables → Tables
quarantine_task row reason now d = record d {
  quarantine =
      d.quarantine
      ++ record {
        task_id = row.task_id;
        idempotency_key = row.idempotency_key;
        correlation_id = row.correlation_id;
        attempt_count = row.attempt_count;
        reason = sanitize reason;
        quarantined_at = now;
      }
        ∷ [];
}

abbrev pub close_attempt : Text → Time → Attempt → Attempt
close_attempt reason now a = record a {
  ended_at = coalesce a.ended_at (some now);
  end_reason = coalesce a.end_reason (some reason);
}

-- `_end_attempt`
unfoldable pub end_attempt : Task → Text → Time → Tables → Tables
end_attempt row reason now d = elim row.attempt_id [
  | none ↦ d
  | some [] ↦ d
  | some (c ∷ s) ↦ record d {
    attempts = update (has_attempt_id (c ∷ s)) (close_attempt reason now) d.attempts;
  }
]

abbrev pub reconciles : Checkpoint → Reconciliation → Bool
reconciles c r =
    same r.task_id c.task_id
    && is_text c.effect_id r.effect_id
    && r.lease_generation == c.lease_generation

abbrev pub same_effect : Option Text → Option Text → Bool
same_effect none _ = false
same_effect (some e) o = is_text o e

-- `later` is a later checkpoint of the effect of `current`.
abbrev pub supersedes : Checkpoint → Checkpoint → Bool
supersedes current later =
    same later.task_id current.task_id
    && same_effect current.effect_id later.effect_id
    && (ltb current.lease_generation later.lease_generation
        || (later.lease_generation == current.lease_generation
            && ltb current.sequence later.sequence))

abbrev pub is_reconciled : Tables → Checkpoint → Bool
is_reconciled d c = any (reconciles c) d.reconciliations

abbrev pub is_unresolved_state : Tables → Checkpoint → EffectState → Bool
is_unresolved_state d c unknown = not (is_reconciled d c)
is_unresolved_state d c pending = not (is_reconciled d c) && not (any (supersedes c) d.checkpoints)
is_unresolved_state d c _ = false

-- A checkpoint whose effect is still open.
abbrev pub is_unresolved : Tables → Text → Checkpoint → Bool
is_unresolved d task c =
    same c.task_id task && not (is_none c.effect_id) && is_unresolved_state d c c.effect_state

-- `_has_unresolved_effect`
unfoldable pub has_unresolved_effect : Text → Tables → Bool
has_unresolved_effect task d = any (is_unresolved d task) d.checkpoints

-- `_require_resolved_effects`
unfoldable pub require_resolved_effects : Task → Tables → Result (Unit {0})
require_resolved_effects row d =
    raise_if (row.fencing_required && has_unresolved_effect row.task_id d) effect_unresolved

-- `str != str` against an argument that may be left out.
abbrev pub differs_generation : Option ℕ → ℕ → Bool
differs_generation none _ = false
differs_generation (some g) n = not (g == n)

abbrev pub differs_attempt : Option Text → Option Text → Bool
differs_attempt none _ = false
differs_attempt (some a) o = not (is_text o a)

abbrev pub has_expired : Option Time → Time → Bool
has_expired none now = true
has_expired (some at) now = leb at now

-- The arguments that a worker sends with each mutation of its task.
pub record LeaseMutation : Type 0 where
  pub task_id : Text
  pub worker_id : Text
  pub lease_token : Text
  pub correlation_id : Text
  pub lease_generation : Option ℕ
  pub attempt_id : Option Text

abbrev pub is_fenced_out : LeaseMutation → Bool
is_fenced_out m = is_none m.lease_generation || is_none m.attempt_id

-- `_lease`
unfoldable pub lease : LeaseMutation → (TaskState → Bool) → Time → Tables → Result Task
lease m allowed now d = do
  row ← or_raise (find_task m.task_id d) task_not_found
  raise_if (not (allowed row.state)) invalid_state
  raise_if (not (is_text row.leased_by m.worker_id && is_text row.lease_token m.lease_token))
      invalid_lease
  raise_if (row.fencing_required && is_fenced_out m) fence_required
  raise_if (differs_generation m.lease_generation row.lease_generation) invalid_generation
  raise_if (differs_attempt m.attempt_id row.attempt_id) invalid_attempt
  raise_if (has_expired row.lease_expires_at now) lease_expired
  ok row
