-- ===== src/Store/Claim.antt =====
-- app/store.py: `_ready` and `claim_task`, with the choice that its two queries make, and the
-- constraints of the schema that a claim could meet. The draws of `uuid4` are arguments.
use engineering_worker_pool.Base.{
  ℕ, ◌+◌, Bool, true, false, not, ◌&&◌, ◌||◌, List, [], ◌∷◌, ◌++◌, Option, none, some, Text, Time,
  ℤ, iso_rank, add_seconds, below_one, same, is_text, is_none, is_some, iff, ltb, ◌==◌,
  if◌then◌else◌, find, any, count, update, select, codes, lower, coalesce,
}
use engineering_worker_pool.Store.Schema.{
  TaskState, queued, leased, validating, Role, builder, validator, Worker, Lane, Task, Attempt,
  Tables, Settings,
}
use engineering_worker_pool.Store.Errors.{
  Result, ok, err, ◌>>=◌, ◌>>◌, raise_if, or_raise, worker_not_found, wrong_role, wrong_profile,
  not_governed, rules_sha_diverges, worker_stale, worker_busy, claimed_concurrently,
  invalid_argument, constraint_failed,
}
use engineering_worker_pool.Store.Sanitize.{is_task_id}
use engineering_worker_pool.Store.Queries.{
  is_state, is_role, is_normal, has_repository, find_worker, update_task, holds_active,
  is_in_flight,
}
use engineering_worker_pool.Store.Recovery.{
  recover, recover_stalled, rules_diverge, is_stale, serves,
}
use engineering_worker_pool.Store.Lifecycle.{or_default, shares_workspace}

-- `role.lower()`, if it is in `ROLES`.
unfoldable pub parse_role : Text → Option Role
unfolding lower
parse_role role =
    if same (lower role) (codes "builder")
    then some builder
    else if same (lower role) (codes "validator")
    then some validator
    else none

-- `_ready`
unfoldable pub ready : Settings → Text → Role → Time → Tables → Result Worker
ready c worker role now d = do
  w ← or_raise (find_worker worker d) worker_not_found
  raise_if (not (is_role w.role role)) wrong_role
  raise_if (not (is_normal w.profile)) wrong_profile
  raise_if (not (w.gateway_ok && w.state_validated)) not_governed
  raise_if (rules_diverge c w) rules_sha_diverges
  raise_if (is_stale c now w) worker_stale
  raise_if (any (holds_active worker) d.tasks) worker_busy
  ok w

pub record ClaimRequest : Type 0 where
  pub worker_id : Text
  pub role : Text
  pub correlation_id : Text
  pub lease_seconds : Option ℤ
  pub only_task_id : Option Text
  pub fencing_required : Bool

-- The text order of SQL, character by character, and that of a row of keys.
unfoldable pub text_lt : Text → Text → Bool
text_lt s [] = false
text_lt [] (c ∷ t) = true
text_lt (c ∷ s) (e ∷ t) = ltb c e || (c == e && text_lt s t)

unfoldable pub key_lt : List Text → List Text → Bool
unfolding text_lt
key_lt ks [] = false
key_lt [] (c ∷ t) = true
key_lt (k ∷ ks) (l ∷ ls) = text_lt k l || (same k l && key_lt ks ls)

-- The first row in the order of a key; of equal ones, that which stands first.
unfoldable pub first_by {ℓ} : {A : Type ℓ} → (A → List Text) → List A → Option A
unfolding key_lt
first_by key [] = none
first_by key (x ∷ xs) = elim (first_by key xs) [
  | none ↦ some x
  | some y ↦ if key_lt (key y) (key x) then some y else some x
]

-- A row of `tasks t JOIN repository_lanes r ON r.repository = t.repository`.
pub record Candidate : Type 0 where
  pub task : Task
  pub lane : Lane

unfoldable pub join_lanes : List Lane → List Task → List Candidate
join_lanes lanes [] = []
join_lanes lanes (t ∷ ts) = elim (find (has_repository t.repository) lanes) [
  | none ↦ join_lanes lanes ts
  | some r ↦ record { task = t; lane = r } ∷ join_lanes lanes ts
]

abbrev pub is_wanted : Option Text → Text → Bool
is_wanted none k = true
is_wanted (some only) k = same k only

unfoldable pub in_flight : Text → Tables → ℕ
in_flight repository d = count (is_in_flight repository) d.tasks

-- The `WHERE` clauses of the two queries.
unfoldable pub is_eligible : ClaimRequest → Role → Tables → Candidate → Bool
unfolding serves in_flight
is_eligible q builder d k =
    is_state queued k.task.state
    && iff k.task.fencing_required q.fencing_required
    && k.lane.enabled
    && serves q.worker_id k.task.repository d
    && ltb (in_flight k.task.repository d) k.lane.max_in_flight
    && is_wanted q.only_task_id k.task.task_id
is_eligible q validator d k =
    is_state validating k.task.state
    && iff k.task.fencing_required q.fencing_required
    && is_none k.task.leased_by
    && is_some k.task.produced_sha
    && not (is_text k.task.builder_worker_id q.worker_id)
    && serves q.worker_id k.task.repository d
    && is_wanted q.only_task_id k.task.task_id

abbrev pub number_key : ℕ → Text
number_key n = n ∷ []

-- `CASE WHEN at IS NULL THEN 0 ELSE 1 END, at`
abbrev pub null_first : Option Time → Text
null_first none = 0 ∷ []
null_first (some at) = 1 ∷ iso_rank at ∷ []

-- The `ORDER BY` clauses; `rowid` is the order of the rows.
abbrev pub claim_key : Role → Candidate → List Text
claim_key builder k =
    number_key k.lane.builder_claim_count
    ∷ null_first k.lane.last_builder_claimed_at
    ∷ k.lane.repository
    ∷ number_key k.task.priority
    ∷ number_key (iso_rank k.task.created_at)
    ∷ []
claim_key validator k =
    number_key k.lane.validator_claim_count
    ∷ null_first k.lane.last_validator_claimed_at
    ∷ k.lane.repository
    ∷ number_key k.task.priority
    ∷ number_key (iso_rank k.task.updated_at)
    ∷ []

unfoldable pub next_candidate : ClaimRequest → Role → Tables → Option Candidate
unfolding is_eligible first_by join_lanes
next_candidate q role d =
    first_by (claim_key role) (select (is_eligible q role d) (join_lanes d.lanes d.tasks))

abbrev pub wanted_state : Role → TaskState
wanted_state builder = queued
wanted_state validator = validating

abbrev pub next_state : Role → TaskState
next_state builder = leased
next_state validator = validating

-- `worker_id if role == "validator" else row["validator_worker_id"]`
abbrev pub claimed_validator : Role → Text → Task → Option Text
claimed_validator builder w t = t.validator_worker_id
claimed_validator validator w t = some w

-- What a claim draws and computes before it writes.
pub record Grant : Type 0 where
  pub token : Text
  pub attempt_id : Text
  pub expires : Time

abbrev pub claimed : ClaimRequest → Role → Grant → Time → Task → Task
claimed q role g now t = record t {
  state = next_state role;
  leased_by = some q.worker_id;
  lease_token = some g.token;
  lease_expires_at = some g.expires;
  attempt_count = t.attempt_count + 1;
  validator_worker_id = claimed_validator role q.worker_id t;
  lease_generation = t.lease_generation + 1;
  attempt_id = some g.attempt_id;
  correlation_id = q.correlation_id;
  updated_at = now;
  last_material_progress_at = now;
}

abbrev pub count_claim : Role → Time → Lane → Lane
count_claim builder now r = record r {
  last_builder_claimed_at = some now;
  builder_claim_count = r.builder_claim_count + 1;
  updated_at = now;
}
count_claim validator now r = record r {
  last_validator_claimed_at = some now;
  validator_claim_count = r.validator_claim_count + 1;
  updated_at = now;
}

abbrev pub new_attempt : ClaimRequest → Role → Grant → Time → Task → Attempt
new_attempt q role g now t = record {
  attempt_id = g.attempt_id;
  task_id = t.task_id;
  lease_generation = t.lease_generation + 1;
  worker_id = q.worker_id;
  role = role;
  lease_started_at = now;
  lease_expires_at = g.expires;
  ended_at = none;
  end_reason = none;
}

-- The `Lease` that the caller gets, with the row.
pub record Lease : Type 0 where
  pub task_id : Text
  pub lease_token : Text
  pub worker_id : Text
  pub role : Role
  pub lease_expires_at : Time
  pub lease_generation : ℕ
  pub attempt_id : Text

abbrev pub lease_of : ClaimRequest → Role → Grant → Task → Lease
lease_of q role g t = record {
  task_id = t.task_id;
  lease_token = g.token;
  worker_id = q.worker_id;
  role = role;
  lease_expires_at = g.expires;
  lease_generation = t.lease_generation + 1;
  attempt_id = g.attempt_id;
}

-- The primary key and the unique key of `task_attempts`.
abbrev pub is_same_attempt : Text → Task → Attempt → Bool
is_same_attempt attempt t a =
    same a.attempt_id attempt
    || (same a.task_id t.task_id && a.lease_generation == t.lease_generation + 1)

-- What the trigger `guard_fenced_claim` and the indexes stop.
unfoldable pub violates : Grant → Task → Tables → Bool
violates g t d =
    (t.fencing_required && is_text (coalesce t.attempt_id (some [])) g.attempt_id)
    || any (shares_workspace t) d.tasks
    || any (is_same_attempt g.attempt_id t) d.attempts

-- The rows that a claim writes.
abbrev pub write_claim : ClaimRequest → Role → Grant → Time → Task → Tables → Tables
write_claim q role g now t d = record d {
  tasks = (update_task t.task_id (claimed q role g now) d).tasks;
  lanes = update (has_repository t.repository) (count_claim role now) d.lanes;
  attempts = d.attempts ++ new_attempt q role g now t ∷ [];
}

-- The statements from the choice of a row to the end of the transaction.
unfoldable pub take_task :
    ClaimRequest → Role → Grant → Time → Task → Tables → Result (Option (Task × Lease) × Tables)
take_task q role g now t d = do
  raise_if (not (is_state (wanted_state role) t.state && is_none t.leased_by)) claimed_concurrently
  raise_if (violates g t d) constraint_failed
  ok (some (claimed q role g now t, lease_of q role g t), write_claim q role g now t d)

-- A claim of any task first recovers what is lost; an exact claim touches no other task.
unfoldable pub claim_base : Settings → ClaimRequest → Time → Tables → Tables
unfolding recover recover_stalled
claim_base c q now d = elim q.only_task_id [
  | none ↦ recover_stalled c now (recover now d)
  | some _ ↦ d
]

-- `if not row: return None, None`
unfoldable pub claim_found :
    ClaimRequest
    → Role
    → Grant
    → Time
    → Tables
    → Option Candidate
    → Result (Option (Task × Lease) × Tables)
claim_found q role g now d none = ok (none, d)
claim_found q role g now d (some k) = take_task q role g now k.task d

unfoldable pub claim_from :
    Settings → ClaimRequest → Role → Grant → Time → Tables → Result (Option (Task × Lease) × Tables)
claim_from c q role g now d = do
  ready c q.worker_id role now d
  claim_found q role g now d (next_candidate q role d)

abbrev pub is_bad_only : Option Text → Bool
is_bad_only none = false
is_bad_only (some k) = not (is_task_id k)

unfoldable pub claim_task_tx :
    Settings → ClaimRequest → Text → Text → Time → Tables → Result (Option (Task × Lease) × Tables)
claim_task_tx c q token attempt now d = do
  role ← or_raise (parse_role q.role) invalid_argument
  let ttl = or_default q.lease_seconds c.default_lease_seconds
  raise_if (below_one ttl) invalid_argument
  raise_if (is_bad_only q.only_task_id) invalid_argument
  let g : Grant = record { token = token; attempt_id = attempt; expires = add_seconds now ttl }
  claim_from c q role g now (claim_base c q now d)

abbrev pub settle_claim :
    Tables → Result (Option (Task × Lease) × Tables) → Result (Option (Task × Lease)) × Tables
settle_claim d (ok (found, after)) = (ok found, after)
settle_claim d (err e) = (err e, d)

unfoldable pub claim_task :
    Settings → ClaimRequest → Text → Text → Time → Tables → Result (Option (Task × Lease)) × Tables
unfolding claim_task_tx
claim_task c q token attempt now d = settle_claim d (claim_task_tx c q token attempt now d)
