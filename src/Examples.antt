-- ===== src/Examples.antt =====
-- A pool with one builder, one validator, one lane and one task, on which each theorem runs.
use engineering_worker_pool.Base.{
  ℕ, ◌≡◌, ◌≤◌, ◌<◌, ◌≢◌, ◌⊎◌, refl, Bool, true, false, List, [], ◌∷◌, Option, none, some, Text,
  Time, codes, seconds, arith, find, inl, inr, any, count, text_discrete, update, starts_with, All,
  iso_le, ◌/◌, ◌%◌, select,
}
use engineering_worker_pool.Store.Schema.{
  TaskState, queued, leased, running, validating, blocked, completed, failed, Role, builder,
  validator, normal, Worker, Lane, Task, Tables, Settings, Encoding, Cutover,
}
use engineering_worker_pool.Store.Errors.{ok, err, commit}
use engineering_worker_pool.Store.Sanitize.{is_task_id}
use engineering_worker_pool.Store.Queries.{LeaseMutation, find_task, find_lane, lease, is_active}
use engineering_worker_pool.Store.Recovery.{
  is_expired, recover, recovered_count, recover_stalled, for_each, serves,
}
use engineering_worker_pool.Store.Claim.{
  ClaimRequest, claim_task, claim_task_tx, Lease, lease_of, Grant, claimed, write_claim, claim_base,
  parse_role, ready, is_eligible, next_candidate, claim_from, claim_found, take_task, violates,
  in_flight, join_lanes, Candidate, key_lt, text_lt, claim_key, first_by,
}
use engineering_worker_pool.Store.Calls.{Call, claims, starts, recovers_leases, step, run}
use engineering_worker_pool.Store.Histories.Rows.{
  IsSound, HoldsOne, run-IsSound, run-HoldsOne, run_keeps_final,
}
use engineering_worker_pool.Store.Histories.Fencing.{Follows, run-Follows, past_is_refused}
use engineering_worker_pool.Store.Operations.Leases.{IsLeaseOf, presented_guarded}
use engineering_worker_pool.Store.Operations.Watchdog.{recover_clears, recover_keeps}
use engineering_worker_pool.Store.Operations.Claims.{
  claimed_lease_works, claim_is_least, claim_within_capacity, exact_claim_touches_one,
  claim_available,
}
pub mod Works
pub mod Pool
pub mod Runs
pub mod Policies
pub mod Paths
pub mod Reports

abbrev pub task_name : Text
task_name = codes "cwp-0123456789abcdef01234567"

abbrev encoding : Encoding
encoding = record {
  sha256 = λ s. s;
  checkpoint_json = λ c. c.checkpoint_id;
  reconciliation_json = λ r. r.effect_id;
}

abbrev pub settings : Settings
settings = record {
  heartbeat_ttl_seconds = 30;
  default_lease_seconds = 60;
  default_max_attempts = 3;
  progress_stall_seconds = 180;
  expected_rules_sha = none;
  encoding = encoding;
}

abbrev pub worker_of : Text → Role → Worker
worker_of name role = record {
  worker_id = name;
  host = codes "h";
  role = role;
  profile = normal;
  capacity_score = 100;
  controller_version = none;
  rules_sha = none;
  gateway_ok = true;
  state_validated = true;
  worktree_root = none;
  registered_at = 0;
  last_heartbeat_at = seconds 100;
  cpu_percent = none;
  memory_percent = none;
  correlation_id = codes "c";
}

abbrev lane : Lane
lane = record {
  repository = codes "o/r";
  enabled = true;
  max_in_flight = 1;
  builder_claim_count = 0;
  validator_claim_count = 0;
  last_builder_claimed_at = none;
  last_validator_claimed_at = none;
  updated_at = 0;
}

abbrev task : Task
task = record {
  task_id = task_name;
  repository = codes "o/r";
  issue_number = 1;
  request_id = codes "q";
  idempotency_key = codes "k";
  state = queued;
  priority = 100;
  branch = codes "codex/issue-1-q";
  workspace_key = codes "worker-w";
  base_sha = none;
  produced_sha = none;
  builder_worker_id = none;
  validator_worker_id = none;
  leased_by = none;
  lease_token = none;
  lease_expires_at = none;
  lease_generation = 0;
  attempt_id = none;
  fencing_required = false;
  attempt_count = 0;
  max_attempts = 3;
  blocked_reason = none;
  last_error = none;
  correlation_id = codes "c";
  created_at = 0;
  updated_at = 0;
  last_material_progress_at = 0;
  completed_at = none;
}

abbrev pub tables_of : List Task → Tables
tables_of ts = record {
  workers = worker_of (codes "b") builder ∷ worker_of (codes "v") validator ∷ [];
  lanes = lane ∷ [];
  affinities = [];
  tasks = ts;
  quarantine = [];
  cutover = record { enabled = false; enabled_at = none; enabled_by_correlation_id = none };
  attempts = [];
  checkpoints = [];
  reconciliations = [];
}

abbrev request : ClaimRequest
request = record {
  worker_id = codes "b";
  role = codes "builder";
  correlation_id = codes "c";
  lease_seconds = none;
  only_task_id = none;
  fencing_required = false;
}

abbrev pub held : Task
held = record task {
  state = leased;
  leased_by = some (codes "b");
  lease_token = some (codes "tok");
  lease_expires_at = some (seconds 160);
  lease_generation = 2;
  attempt_id = some (codes "att2");
  attempt_count = 2;
}

abbrev old_lease : LeaseMutation
old_lease = record {
  task_id = task_name;
  worker_id = codes "b";
  lease_token = codes "tok";
  correlation_id = codes "c";
  lease_generation = some 1;
  attempt_id = some (codes "att1");
}

abbrev pub now : Time
now = seconds 110

abbrev grant : Grant
grant = record { token = codes "tok"; attempt_id = codes "att"; expires = seconds 170 }

abbrev pub one_task : Tables
one_task = tables_of (task ∷ [])

abbrev claimed_tables : Tables
claimed_tables = write_claim request builder grant now task one_task

abbrev pub commit_sha : Text
commit_sha = codes "0123456789abcdef0123456789abcdef01234567"

-- A completed task.
abbrev pub done : Task
done = record task {
  state = completed;
  produced_sha = some commit_sha;
  builder_worker_id = some (codes "b");
  validator_worker_id = some (codes "v");
  completed_at = some now;
}

abbrev history : List (Time × Call)
history =
    (now, claims request (codes "tok") (codes "att"))
    ∷ (seconds 120, starts old_lease)
    ∷ (seconds 300, recovers_leases)
    ∷ []

task-IsSound : IsSound task
task-IsSound = ground arith

run-IsSound_example : All IsSound (run settings history one_task).tasks
unfolding any
run-IsSound_example = run-IsSound settings history one_task (refl, tt) (task-IsSound, tt)

run-HoldsOne_example : HoldsOne (codes "b") (run settings history one_task).tasks
unfolding count any
run-HoldsOne_example =
    run-HoldsOne settings history one_task (codes "b") (refl, tt) (task-IsSound, tt) (omega arith)

run_keeps_final_example :
    find_task (task_name) (run settings history (tables_of (done ∷ []))) ≡ some done
unfolding find any text_discrete
run_keeps_final_example =
    run_keeps_final settings history (tables_of (done ∷ [])) (task_name) done (refl, tt) refl refl

run-Follows_example :
    (u : Task) × (find_task (task_name) (run settings history one_task) ≡ some u) × Follows task u
unfolding find any text_discrete
run-Follows_example = run-Follows settings history one_task (task_name) task (refl, tt) refl

past_is_refused_example :
    step settings (seconds 111) (starts old_lease) (run settings history (tables_of (held ∷ [])))
    ≡ run settings history (tables_of (held ∷ []))
unfolding find any text_discrete
past_is_refused_example =
    past_is_refused settings history (tables_of (held ∷ [])) old_lease 1 held (starts old_lease)
      (seconds 111) (refl, tt) refl (refl, inl (omega arith)) refl

presented_guarded_example :
    (step settings now (starts old_lease) one_task ≡ one_task)
    ⊎ ((t : Task) × (find_task (task_name) one_task ≡ some t) × IsLeaseOf old_lease now t)
presented_guarded_example =
    presented_guarded settings now one_task (starts old_lease) old_lease refl

recover_clears_example :
    (count (is_expired (seconds 200)) (recover (seconds 200) (tables_of (held ∷ []))).tasks ≡ 0)
    × (recovered_count (seconds 200) (tables_of (held ∷ []))
        ≡ count (is_expired (seconds 200)) (tables_of (held ∷ [])).tasks)
unfolding any
recover_clears_example = recover_clears (seconds 200) (tables_of (held ∷ [])) (refl, tt)

recover_keeps_example :
    find_task (task_name) (recover (seconds 120) (tables_of (held ∷ []))) ≡ some held
unfolding find any text_discrete
recover_keeps_example =
    recover_keeps (seconds 120) (tables_of (held ∷ [])) (task_name) held (refl, tt) refl refl

abbrev granted_row : Task
granted_row = claimed request builder grant now task

the_claim :
    claim_task settings request (codes "tok") (codes "att") now one_task
    ≡ (ok (some (granted_row, lease_of request builder grant task)), claimed_tables)
unfolding claim_task claim_task_tx text_discrete ready find any parse_role claim_from claim_found
    claim_base recover recover_stalled take_task violates next_candidate first_by join_lanes
    is_eligible in_flight select count update for_each serves key_lt text_lt
the_claim = refl

abbrev the_lease : Lease
the_lease = lease_of request builder grant task

claimed_lease_works_example :
    lease
      (record {
        task_id = task_name;
        worker_id = codes "b";
        lease_token = codes "tok";
        correlation_id = codes "c";
        lease_generation = some 1;
        attempt_id = some (codes "att");
      })
      is_active
      (seconds 150)
      claimed_tables
    ≡ ok granted_row
unfolding any
claimed_lease_works_example =
    claimed_lease_works settings request (codes "tok") (codes "att") now one_task granted_row
      the_lease claimed_tables (refl, tt) the_claim (codes "c") is_active (seconds 150)
      (omega arith) refl

claim_is_least_example :
    (role : Role) × (k : Candidate) × (parse_role (codes "builder") ≡ some role)
    × (is_eligible request role (claim_base settings request now one_task) k ≡ true)
    × (granted_row ≡ claimed request role grant now k.task)
    × All
        (λ y. key_lt (claim_key role y) (claim_key role k) ≡ false)
        (select (is_eligible request role (claim_base settings request now one_task)) (
          join_lanes
            (claim_base settings request now one_task).lanes
            (claim_base settings request now one_task).tasks))
unfolding any
claim_is_least_example =
    claim_is_least settings request (codes "tok") (codes "att") now one_task granted_row the_lease
      claimed_tables (refl, tt) the_claim

claim_within_capacity_example :
    (r : Lane) × (find_lane (codes "o/r") claimed_tables ≡ some r)
    × (in_flight (codes "o/r") claimed_tables ≤ r.max_in_flight)
unfolding any parse_role text_discrete
claim_within_capacity_example =
    claim_within_capacity settings request (codes "tok") (codes "att") now one_task granted_row
      the_lease claimed_tables (refl, tt) the_claim refl

abbrev exact_request : ClaimRequest
exact_request = record request { only_task_id = some (task_name) }

abbrev exact_tables : Tables
exact_tables = write_claim exact_request builder grant now task one_task

the_exact_claim : claim_task settings exact_request (codes "tok") (codes "att") now one_task ≡ (
  ok (
      some
        (claimed exact_request builder grant now task, lease_of exact_request builder grant task)),
  exact_tables,
)
unfolding claim_task claim_task_tx text_discrete ready find any parse_role claim_from claim_found
    claim_base take_task violates next_candidate first_by join_lanes is_eligible in_flight select
    count update serves key_lt text_lt is_task_id starts_with
the_exact_claim = refl

exact_claim_touches_one_example :
    (task_name ≡ task_name)
    × (find_task (codes "other") exact_tables ≡ find_task (codes "other") one_task)
unfolding any
exact_claim_touches_one_example =
    exact_claim_touches_one settings exact_request (codes "tok") (codes "att") now one_task
      (claimed exact_request builder grant now task) (lease_of exact_request builder grant task)
      exact_tables (refl, tt) the_exact_claim (task_name) (codes "other") refl (λ e. absurd (cc))

claim_available_example :
    (k : Candidate) × (is_eligible request builder (claim_base settings request now one_task) k
      ≡ true)
    × ((claim_task settings request (codes "tok") (codes "att") now one_task).0
        ≡ ok (
            some (claimed request builder grant now k.task, lease_of request builder grant k.task)))
unfolding any ready find claim_base recover recover_stalled select for_each parse_role text_discrete
    violates next_candidate first_by join_lanes is_eligible in_flight count serves key_lt text_lt
claim_available_example =
    claim_available settings request (codes "tok") (codes "att") now one_task builder
      (worker_of (codes "b") builder) (refl, tt) (task-IsSound, tt) refl refl refl refl
      (λ e. absurd (cc)) (λ k e. ground arith)
