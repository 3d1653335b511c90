-- ===== src/Store/Operations/Claims.antt =====
-- app/store.py: `claim_task`, the choice of a row, its bounds and its lease.
use engineering_worker_pool.Base.{
  ◌≤◌, ◌<◌, ◌≡◌, ◌≢◌, inl, inr, refl, sym, ◌∙◌, subst, Bool, true, false, [], Option, none, some,
  Text, Time, add_seconds, arith, find, find-All, update, select, All, count-update,
  find-update_self, find-update_other, find-holds, below_one, Option-cases,
}
use engineering_worker_pool.Store.Schema.{
  TaskState, queued, Role, builder, validator, Worker, Lane, Task, Tables, Settings,
}
use engineering_worker_pool.Store.Errors.{ok, Result-cases}
use engineering_worker_pool.Store.Queries.{
  has_task_id, has_repository, find_task, find_lane, is_in_flight, lease,
}
use engineering_worker_pool.Store.Lifecycle.{or_default}
use engineering_worker_pool.Store.Claim.{
  ClaimRequest, Grant, Lease, Candidate, parse_role, ready, key_lt, claim_key, join_lanes,
  in_flight, is_eligible, next_candidate, claimed, count_claim, lease_of, violates, take_task,
  write_claim, claim_base, claim_found, claim_from, is_bad_only, wanted_state, claim_task_tx,
  claim_task,
}
use engineering_worker_pool.Store.Moves.{Distinct, Evolves-Distinct}
use engineering_worker_pool.Store.Histories.Rows.{IsSound, Evolves-IsSound}
use engineering_worker_pool.Store.Traces.Claims.{
  claim_task_tx-ClaimRan, Claims, nothing_found, takes, claim_from-Claims, IsChosen,
  next_candidate-IsChosen, take_facts, claim_base-Evolves,
}
use engineering_worker_pool.Store.Operations.Order.{first_by_least, first_by-none}

-- What a claim draws, at its instant.
abbrev pub grant_of : Settings → ClaimRequest → Text → Text → Time → Grant
grant_of c q token attempt now = record {
  token = token;
  attempt_id = attempt;
  expires = add_seconds now (or_default q.lease_seconds c.default_lease_seconds);
}

-- A claim that handed out a task: the row that was chosen, and how.
pub record IsTaken (c : Settings) (q : ClaimRequest) (g : Grant) (now : Time) (d : Tables)
    (t : Task) (l : Lease) (after : Tables) : Type 0 where
  pub role : Role
  pub parsed : parse_role q.role ≡ some role
  pub candidate : Candidate
  pub picked : next_candidate q role (claim_base c q now d) ≡ some candidate
  pub chosen : IsChosen q role (claim_base c q now d) candidate
  pub free : violates g candidate.task (claim_base c q now d) ≡ false
  pub row : t ≡ claimed q role g now candidate.task
  pub handed : l ≡ lease_of q role g candidate.task
  pub written :
      take_task q role g now candidate.task (claim_base c q now d) ≡ ok (some (t, l), after)
  pub tasks :
      after.tasks
      ≡ update
          (has_task_id candidate.task.task_id)
          (claimed q role g now)
          (claim_base c q now d).tasks

claim_task-ok :
    (c : Settings) (q : ClaimRequest) (token attempt : Text) (now : Time) (d : Tables)
    (found : Option (Task × Lease)) (after : Tables)
    → claim_task c q token attempt now d ≡ (ok found, after)
    → claim_task_tx c q token attempt now d ≡ ok (found, after)
unfolding claim_task
claim_task-ok c q token attempt now d found after h =
    elim (Result-cases (claim_task_tx c q token attempt now d)) [
      | inl ((f, a), e) ↦ ground arith
      | inr (e, k) ↦ absurd (ground arith)
    ]

Claims-IsTaken :
    (c : Settings) (q : ClaimRequest) (role : Role) (g : Grant) (now : Time) (d : Tables) (t : Task)
    (l : Lease) (after : Tables)
    → parse_role q.role ≡ some role
    → Distinct (claim_base c q now d).tasks
    → Claims c q role g now (claim_base c q now d) (some (t, l)) after
    → IsTaken c q g now d t l after
Claims-IsTaken c q role g now d t l after p u (nothing_found n f e) = absurd (cc)
Claims-IsTaken c q role g now d t l after p u (takes k n w) =
    let facts = take_facts q role g now k.task (claim_base c q now d) (some (t, l)) after w in
    record {
      role = role;
      parsed = p;
      candidate = k;
      picked = n;
      chosen = next_candidate-IsChosen q role (claim_base c q now d) k u n;
      free = facts.2;
      row = ground arith;
      handed = ground arith;
      written = w;
      tasks = facts.4;
    }

pub claim_task-IsTaken :
    (c : Settings) (q : ClaimRequest) (token attempt : Text) (now : Time) (d : Tables) (t : Task)
    (l : Lease) (after : Tables)
    → Distinct d.tasks
    → claim_task c q token attempt now d ≡ (ok (some (t, l)), after)
    → IsTaken c q (grant_of c q token attempt now) now d t l after
claim_task-IsTaken c q token attempt now d t l after u h =
    let r =
      claim_task_tx-ClaimRan c q token attempt now d (some (t, l)) after
        (claim_task-ok c q token attempt now d (some (t, l)) after h) in
    let (free, claims) =
      claim_from-Claims c q r.role (grant_of c q token attempt now) now (claim_base c q now d)
        (some (t, l)) after r.ran in
    Claims-IsTaken c q r.role (grant_of c q token attempt now) now d t l after r.parsed
      (Evolves-Distinct (claim_base-Evolves c q now d u) u) claims

lane_counted :
    (q : ClaimRequest) (g : Grant) (now : Time) (base : Tables) (k : Candidate)
    (found : Option (Task × Lease)) (after : Tables)
    → find_lane k.task.repository base ≡ some k.lane
    → take_task q builder g now k.task base ≡ ok (found, after)
    → find_lane k.task.repository after ≡ some (count_claim builder now k.lane)
lane_counted q g now base k found after f w =
    let lanes : after.lanes
        ≡ update (has_repository k.task.repository) (count_claim builder now) base.lanes =
      unfold take_task in ground arith in
    rw lanes (
      find-update_self (has_repository k.task.repository) (count_claim builder now) base.lanes
        k.lane f (find-holds (has_repository k.task.repository) base.lanes k.lane f))

exact_eligible :
    (q : ClaimRequest) (role : Role) (d : Tables) (k : Candidate) (only : Text)
    → q.only_task_id ≡ some only
    → is_eligible q role d k ≡ true
    → k.task.task_id ≡ only
unfolding is_eligible
exact_eligible q builder d k only o e = ground arith
exact_eligible q validator d k only o e = ground arith

-- The claimed task adds one to those in flight, and the query left room for one.
flight_bounded :
    (q : ClaimRequest) (g : Grant) (now : Time) (base : Tables) (k : Candidate) (after : Tables)
    → IsChosen q builder base k
    → after.tasks ≡ update (has_task_id k.task.task_id) (claimed q builder g now) base.tasks
    → in_flight k.task.repository after ≤ k.lane.max_in_flight
unfolding in_flight is_eligible
flight_bounded q g now base k after chosen w = rw w (
    ground (
      arith,
      chosen.eligible,
      count-update (is_in_flight k.task.repository) (has_task_id k.task.task_id)
          (claimed q builder g now) base.tasks k.task chosen.found,
    ))

module _ (c : Settings) (q : ClaimRequest) (token attempt : Text) (now : Time) (d : Tables)
    (t : Task) (l : Lease) (after : Tables) (u : Distinct d.tasks)
    (h : claim_task c q token attempt now d ≡ (ok (some (t, l)), after)) where
  taken : IsTaken c q (grant_of c q token attempt now) now d t l after
  taken = claim_task-IsTaken c q token attempt now d t l after u h

  stored : find_task t.task_id after ≡ some t
  stored =
      let k = taken.candidate.task in
      let f = claimed q taken.role (grant_of c q token attempt now) now in
      let base = claim_base c q now d in
      let there : find (has_task_id k.task_id) after.tasks ≡ some (f k) =
        subst (λ ts. find (has_task_id k.task_id) ts ≡ some (f k)) (sym taken.tasks)
          (find-update_self (has_task_id k.task_id) f base.tasks k taken.chosen.found
            (find-holds (has_task_id k.task_id) base.tasks k taken.chosen.found)) in
      subst (λ v. find_task v.task_id after ≡ some v) (sym taken.row) there

  -- The lease that a claim hands out is accepted by `_lease` until it runs out, in every call that
  -- takes the state of the claimed row.
  pub claimed_lease_works :
      (correlation_id : Text) (allowed : TaskState → Bool) (later : Time)
      → later < l.lease_expires_at
      → allowed t.state ≡ true
      → lease
          (record {
            task_id = l.task_id;
            worker_id = l.worker_id;
            lease_token = l.lease_token;
            correlation_id = correlation_id;
            lease_generation = some l.lease_generation;
            attempt_id = some l.attempt_id;
          })
          allowed
          later
          after
        ≡ ok t
  unfolding lease
  claimed_lease_works correlation_id allowed later early a =
      ground (arith, stored, taken.row, taken.handed)

  -- The row that a claim takes fits the query, and comes first: no other row that fits has a
  -- smaller key. For a builder the key is the claims of the lane, the last of them, the lane's name,
  -- the priority and the age of the task.
  pub claim_is_least :
      (role : Role) × (k : Candidate) × (parse_role q.role ≡ some role)
      × (is_eligible q role (claim_base c q now d) k ≡ true)
      × (t ≡ claimed q role (grant_of c q token attempt now) now k.task)
      × All
          (λ y. key_lt (claim_key role y) (claim_key role k) ≡ false)
          (select
            (is_eligible q role (claim_base c q now d))
            (join_lanes (claim_base c q now d).lanes (claim_base c q now d).tasks))
  claim_is_least = (
    taken.role,
    taken.candidate,
    taken.parsed,
    taken.chosen.eligible,
    taken.row,
    first_by_least (claim_key taken.role) _ taken.candidate (unfold next_candidate in taken.picked),
  )

  -- A builder's claim keeps its repository within the number of tasks that its lane allows.
  pub claim_within_capacity :
      parse_role q.role ≡ some builder
      → (r : Lane) × (find_lane t.repository after ≡ some r)
        × (in_flight t.repository after ≤ r.max_in_flight)
  claim_within_capacity p =
      let k = taken.candidate in
      let g = grant_of c q token attempt now in
      let base = claim_base c q now d in
      let is_builder : taken.role ≡ builder = ground (arith, taken.parsed) in
      let chosen = subst (λ r. IsChosen q r base k) is_builder taken.chosen in
      let written =
        subst (λ r. take_task q r g now k.task base ≡ ok (some (t, l), after)) is_builder
          taken.written in
      let tasks =
        subst
          (λ r. after.tasks ≡ update (has_task_id k.task.task_id) (claimed q r g now) base.tasks)
          is_builder taken.tasks in
      subst
        (λ v.
          (r : Lane) × (find_lane v.repository after ≡ some r)
          × (in_flight v.repository after ≤ r.max_in_flight))
        (sym taken.row)
        (
          count_claim builder now k.lane,
          lane_counted q g now base k (some (t, l)) after chosen.lane_found written,
          flight_bounded q g now base k after chosen tasks,
        )

  -- An exact claim hands out the task that it names, and leaves every other row as it is.
  pub exact_claim_touches_one :
      (only j : Text)
      → q.only_task_id ≡ some only
      → j ≢ only
      → (t.task_id ≡ only) × (find_task j after ≡ find_task j d)
  exact_claim_touches_one only j o n =
      let k = taken.candidate.task in
      let f = claimed q taken.role (grant_of c q token attempt now) now in
      let named =
        exact_eligible q taken.role (claim_base c q now d) taken.candidate only o
          taken.chosen.eligible in
      let unchanged : claim_base c q now d ≡ d = unfold claim_base in ground arith in
      let other : has_task_id j k ≡ false = ground arith in
      (
        ground (arith, taken.row),
        rw taken.tasks (
            find-update_other (has_task_id j) (has_task_id k.task_id) f (claim_base c q now d).tasks
              k taken.chosen.found other other
            ∙ subst (λ e. find_task j e ≡ find_task j d) (sym unchanged) refl),
      )

eligible_free :
    (q : ClaimRequest) (role : Role) (d : Tables) (k : Candidate)
    → IsSound k.task
    → is_eligible q role d k ≡ true
    → (k.task.state ≡ wanted_state role) × (k.task.leased_by ≡ none)
unfolding is_eligible
eligible_free q builder d k sound e =
    let state : k.task.state ≡ queued = ground arith in (state, sound.queued_free state)
eligible_free q validator d k sound e = ground arith

take_free :
    (q : ClaimRequest) (role : Role) (g : Grant) (now : Time) (t : Task) (d : Tables)
    → t.state ≡ wanted_state role
    → t.leased_by ≡ none
    → violates g t d ≡ false
    → take_task q role g now t d
      ≡ ok (some (claimed q role g now t, lease_of q role g t), write_claim q role g now t d)
unfolding take_task
take_free q builder g now t d s f v = ground arith
take_free q validator g now t d s f v = ground arith

available_from :
    (c : Settings) (q : ClaimRequest) (role : Role) (g : Grant) (now : Time) (d : Tables)
    (w : Worker) (k : Candidate)
    → ready c q.worker_id role now d ≡ ok w
    → next_candidate q role d ≡ some k
    → k.task.state ≡ wanted_state role
    → k.task.leased_by ≡ none
    → violates g k.task d ≡ false
    → claim_from c q role g now d
      ≡ ok (
        some (claimed q role g now k.task, lease_of q role g k.task),
        write_claim q role g now k.task d,
      )
unfolding claim_from claim_found
available_from c q role g now d w k r n s f v =
    rw (r, n, claim_found) (take_free q role g now k.task d s f v)

claim_runs :
    (c : Settings) (q : ClaimRequest) (token attempt : Text) (now : Time) (d : Tables) (role : Role)
    (k : Candidate) {after : Tables}
    → parse_role q.role ≡ some role
    → below_one (or_default q.lease_seconds c.default_lease_seconds) ≡ false
    → is_bad_only q.only_task_id ≡ false
    → claim_from c q role (grant_of c q token attempt now) now (claim_base c q now d)
      ≡ ok (
        some (
          claimed q role (grant_of c q token attempt now) now k.task,
          lease_of q role (grant_of c q token attempt now) k.task,
        ),
        after,
      )
    → (claim_task c q token attempt now d).0
      ≡ ok (
          some (
            claimed q role (grant_of c q token attempt now) now k.task,
            lease_of q role (grant_of c q token attempt now) k.task,
          ))
unfolding claim_task claim_task_tx
claim_runs c q token attempt now d role k p ttl only r = rw (p, ttl, only, r) refl

-- Where the role and the lease are valid, the worker is ready and some row fits its query, and no
-- constraint of the schema is in the way of the row that comes first, a claim hands out a task that
-- fits.
pub claim_available :
    (c : Settings) (q : ClaimRequest) (token attempt : Text) (now : Time) (d : Tables) (role : Role)
    (w : Worker)
    → Distinct d.tasks
    → All IsSound d.tasks
    → parse_role q.role ≡ some role
    → below_one (or_default q.lease_seconds c.default_lease_seconds) ≡ false
    → is_bad_only q.only_task_id ≡ false
    → ready c q.worker_id role now (claim_base c q now d) ≡ ok w
    → select
        (is_eligible q role (claim_base c q now d))
        (join_lanes (claim_base c q now d).lanes (claim_base c q now d).tasks)
      ≢ []
    → ((k : Candidate)
        → next_candidate q role (claim_base c q now d) ≡ some k
        → violates (grant_of c q token attempt now) k.task (claim_base c q now d) ≡ false)
    → (k : Candidate) × (is_eligible q role (claim_base c q now d) k ≡ true)
      × ((claim_task c q token attempt now d).0
          ≡ ok (
              some (
                claimed q role (grant_of c q token attempt now) now k.task,
                lease_of q role (grant_of c q token attempt now) k.task,
              )))
claim_available c q token attempt now d role w u sound p ttl only r some_fit clear =
    elim (Option-cases (next_candidate q role (claim_base c q now d))) [
      | inl n ↦ absurd (some_fit (first_by-none (claim_key role) _ (unfold next_candidate in n)))
      | inr (k, n) ↦
          let base = claim_base-Evolves c q now d u in
          let chosen =
            next_candidate-IsChosen q role (claim_base c q now d) k (Evolves-Distinct base u) n in
          let fits =
            eligible_free q role (claim_base c q now d) k
              (find-All IsSound (has_task_id k.task.task_id) (claim_base c q now d).tasks k.task
                (Evolves-IsSound base sound) chosen.found)
              chosen.eligible in
          (
            k,
            chosen.eligible,
            claim_runs c q token attempt now d role k p ttl only (
                available_from c q role (grant_of c q token attempt now) now (claim_base c q now d)
                  w k r n fits.0 fits.1 (clear k n)),
          )
    ]
