-- ===== src/Store/Traces/Claims.antt =====
-- `claim_task`: the row that is chosen is a row of the table that fits the query, and the claim
-- moves it.
use engineering_worker_pool.Base.{
  ◌≡◌, refl, subst, inl, inr, true, false, Option, none, some, Text, Time, arith, is_text, find,
  update, any, select, List, [], ◌∷◌, All, All-map, Option-cases, find-any, add_seconds, select-All,
  select-holds, below_one,
}
use engineering_worker_pool.Store.Schema.{
  Task, Tables, Settings, Role, Worker, builder, validator, Lane,
}
use engineering_worker_pool.Store.Errors.{Result, ok, err, or_raise, >>=-eq-ok, invalid_argument}
use engineering_worker_pool.Store.Queries.{has_task_id, has_repository, find_task, holds_active}
use engineering_worker_pool.Store.Lifecycle.{or_default}
use engineering_worker_pool.Store.Claim.{
  ClaimRequest, Grant, Lease, Candidate, parse_role, ready, claim_key, first_by, join_lanes,
  is_eligible, next_candidate, claimed, lease_of, take_task, claim_base, claim_from, claim_found,
  claim_task_tx, claim_task, wanted_state, violates,
}
use engineering_worker_pool.Store.Moves.{
  claim, MayClaim, IsExclusive, Evolves, Evolves-trans, Evolves-Distinct, Distinct, stays,
}
use engineering_worker_pool.Store.Traces.Workers.{moves_once}
use engineering_worker_pool.Store.Traces.Watchdog.{recover_both-Evolves}

pub first_by-All {ℓ κ} :
    {A : Type ℓ} (P : A → Type κ) (key : A → List Text) (xs : List A) (x : A)
    → All P xs
    → first_by key xs ≡ some x
    → P x
unfolding first_by
first_by-All P key [] x a h = absurd (cc)
first_by-All P key (y ∷ ys) x a h = elim (Option-cases (first_by key ys)) [
  | inl e ↦ ground arith
  | inr (z, e) ↦ ground (arith, first_by-All P key ys z a.1 e)
]

-- A joined row is made of a task of the table and the lane of its repository.
abbrev pub IsJoined : List Lane → List Task → Candidate → Type 0
IsJoined lanes ts k =
    (find (has_task_id k.task.task_id) ts ≡ some k.task)
    × (find (has_repository k.task.repository) lanes ≡ some k.lane)

still-IsJoined :
    (lanes : List Lane) (x : Task) (ts : List Task) (k : Candidate)
    → any (has_task_id x.task_id) ts ≡ false
    → IsJoined lanes ts k
    → IsJoined lanes (x ∷ ts) k
unfolding find
still-IsJoined lanes x ts k h p =
    (ground (arith, find-any (has_task_id k.task.task_id) (has_task_id x.task_id) ts k.task), p.1)

head-IsJoined :
    (lanes : List Lane) (x : Task) (ts : List Task) (r : Lane)
    → find (has_repository x.repository) lanes ≡ some r
    → IsJoined lanes (x ∷ ts) (record { task = x; lane = r })
head-IsJoined lanes x ts r h = (first_row x ts, h)
  where
    first_row : (y : Task) (ys : List Task) → find (has_task_id y.task_id) (y ∷ ys) ≡ some y
    first_row y ys = unfold find in ground arith

pub join_lanes-IsJoined :
    (lanes : List Lane) (ts : List Task)
    → Distinct ts
    → All (IsJoined lanes ts) (join_lanes lanes ts)
unfolding join_lanes
join_lanes-IsJoined lanes [] h = tt
join_lanes-IsJoined lanes (x ∷ ts) h =
    let rest : All (IsJoined lanes (x ∷ ts)) (join_lanes lanes ts) =
      All-map (IsJoined lanes ts) (IsJoined lanes (x ∷ ts)) (join_lanes lanes ts)
        (λ k. still-IsJoined lanes x ts k h.0) (join_lanes-IsJoined lanes ts h.1) in
    elim (Option-cases (find (has_repository x.repository) lanes)) [
      | inl e ↦ rw (e, join_lanes) rest
      | inr (r, e) ↦ rw (e, join_lanes) (head-IsJoined lanes x ts r e, rest)
    ]

-- What is known of the row that a claim takes.
pub record IsChosen (q : ClaimRequest) (role : Role) (d : Tables) (k : Candidate) : Type 0 where
  pub found : find_task k.task.task_id d ≡ some k.task
  pub lane_found : find (has_repository k.task.repository) d.lanes ≡ some k.lane
  pub eligible : is_eligible q role d k ≡ true

pub next_candidate-IsChosen :
    (q : ClaimRequest) (role : Role) (d : Tables) (k : Candidate)
    → Distinct d.tasks
    → next_candidate q role d ≡ some k
    → IsChosen q role d k
unfolding next_candidate
next_candidate-IsChosen q role d k u h =
    let rows = join_lanes d.lanes d.tasks in
    let joined : IsJoined d.lanes d.tasks k =
      first_by-All (IsJoined d.lanes d.tasks) (claim_key role) (select (is_eligible q role d) rows)
        k
        (select-All (IsJoined d.lanes d.tasks) (is_eligible q role d) rows
          (join_lanes-IsJoined d.lanes d.tasks u))
        h in
    record {
      found = joined.0;
      lane_found = joined.1;
      eligible =
          first_by-All (λ x. is_eligible q role d x ≡ true) (claim_key role)
            (select (is_eligible q role d) rows) k (select-holds (is_eligible q role d) rows) h;
    }

pub eligible-MayClaim :
    (q : ClaimRequest) (role : Role) (d : Tables) (k : Candidate)
    → is_eligible q role d k ≡ true
    → MayClaim role q k.task
unfolding is_eligible
eligible-MayClaim q builder d k h = tt
eligible-MayClaim q validator d k h = ground arith

pub ready_free :
    (c : Settings) (worker : Text) (role : Role) (now : Time) (d : Tables) (w : Worker)
    → ready c worker role now d ≡ ok w
    → any (holds_active worker) d.tasks ≡ false
unfolding ready
ready_free c worker role now d w h = ground arith

claimed-IsExclusive :
    (q : ClaimRequest) (role : Role) (g : Grant) (now : Time) (t : Task) (ts : List Task)
    → any (holds_active q.worker_id) ts ≡ false
    → IsExclusive t (claimed q role g now t) ts
claimed-IsExclusive q role g now t ts h w a b =
    subst (λ v. any (holds_active v) ts ≡ false) (same_worker w b) h
  where
    same_worker : (w : Text) → is_text (some q.worker_id) w ≡ true → q.worker_id ≡ w
    same_worker w b = ground arith

-- What `take_task` checks, and what it makes of the tables.
pub take_facts :
    (q : ClaimRequest) (role : Role) (g : Grant) (now : Time) (t : Task) (d : Tables)
    (found : Option (Task × Lease)) (after : Tables)
    → take_task q role g now t d ≡ ok (found, after)
    → (t.state ≡ wanted_state role)
      × (t.leased_by ≡ none)
      × (violates g t d ≡ false)
      × (found ≡ some (claimed q role g now t, lease_of q role g t))
      × (after.tasks ≡ update (has_task_id t.task_id) (claimed q role g now) d.tasks)
unfolding take_task
take_facts q builder g now t d found after h = ground arith
take_facts q validator g now t d found after h = ground arith

-- A claim that went through: the worker was ready, and it got nothing or the chosen row.
pub data Claims (c : Settings) (q : ClaimRequest) (role : Role) (g : Grant) (now : Time)
    (d : Tables) (found : Option (Task × Lease)) (after : Tables) : Type 0 where
  nothing_found :
      next_candidate q role d ≡ none
      → found ≡ none
      → after ≡ d
      → Claims c q role g now d found after
  takes :
      (k : Candidate)
      → next_candidate q role d ≡ some k
      → take_task q role g now k.task d ≡ ok (found, after)
      → Claims c q role g now d found after

claim_found-Claims :
    (c : Settings) (q : ClaimRequest) (role : Role) (g : Grant) (now : Time) (d : Tables)
    (o : Option Candidate) (found : Option (Task × Lease)) (after : Tables)
    → next_candidate q role d ≡ o
    → claim_found q role g now d o ≡ ok (found, after)
    → Claims c q role g now d found after
unfolding claim_found
claim_found-Claims c q role g now d none found after e h =
    nothing_found e (ground arith) (ground arith)
claim_found-Claims c q role g now d (some k) found after e h = takes k e h

pub claim_from-Claims :
    (c : Settings) (q : ClaimRequest) (role : Role) (g : Grant) (now : Time) (d : Tables)
    (found : Option (Task × Lease)) (after : Tables)
    → claim_from c q role g now d ≡ ok (found, after)
    → (any (holds_active q.worker_id) d.tasks ≡ false) × Claims c q role g now d found after
unfolding claim_from
claim_from-Claims c q role g now d found after h =
    let (w, r, rest) = >>=-eq-ok (ready c q.worker_id role now d) _ h in
    (
      ready_free c q.worker_id role now d w r,
      claim_found-Claims c q role g now d (next_candidate q role d) found after refl rest,
    )

Claims-Evolves :
    (c : Settings) (q : ClaimRequest) (role : Role) (g : Grant) (now : Time) (d : Tables)
    (found : Option (Task × Lease)) (after : Tables)
    → Distinct d.tasks
    → any (holds_active q.worker_id) d.tasks ≡ false
    → Claims c q role g now d found after
    → Evolves d.tasks after.tasks
Claims-Evolves c q role g now d found after u free (nothing_found n f e) = rw e stays
Claims-Evolves c q role g now d found after u free (takes k n t) =
    let chosen = next_candidate-IsChosen q role d k u n in
    let facts = take_facts q role g now k.task d found after t in
    moves_once k.task.task_id k.task (claimed q role g now) d after chosen.found
      (claim q role g now facts.0 facts.1 (eligible-MayClaim q role d k chosen.eligible) refl)
      (claimed-IsExclusive q role g now k.task d.tasks free) facts.4

-- The tables on which a claim is decided.
pub claim_base-Evolves :
    (c : Settings) (q : ClaimRequest) (now : Time) (d : Tables)
    → Distinct d.tasks
    → Evolves d.tasks (claim_base c q now d).tasks
unfolding claim_base
claim_base-Evolves c q now d u = elim (Option-cases q.only_task_id) [
  | inl e ↦ rw (e, claim_base) (recover_both-Evolves c now d u)
  | inr (k, e) ↦ rw (e, claim_base) stays
]

-- A claim that went through, taken apart down to the decision.
pub record ClaimRan (c : Settings) (q : ClaimRequest) (token attempt : Text) (now : Time)
    (d : Tables) (found : Option (Task × Lease)) (after : Tables) : Type 0 where
  pub role : Role
  pub parsed : parse_role q.role ≡ some role
  pub ttl_positive : below_one (or_default q.lease_seconds c.default_lease_seconds) ≡ false
  pub ran :
      claim_from c q role
        (record {
          token = token;
          attempt_id = attempt;
          expires = add_seconds now (or_default q.lease_seconds c.default_lease_seconds);
        })
        now
        (claim_base c q now d)
      ≡ ok (found, after)

pub claim_task_tx-ClaimRan :
    (c : Settings) (q : ClaimRequest) (token attempt : Text) (now : Time) (d : Tables)
    (found : Option (Task × Lease)) (after : Tables)
    → claim_task_tx c q token attempt now d ≡ ok (found, after)
    → ClaimRan c q token attempt now d found after
unfolding claim_task_tx
claim_task_tx-ClaimRan c q token attempt now d found after h =
    let (role, p, rest) = >>=-eq-ok (or_raise (parse_role q.role) invalid_argument) _ h in
    record { role = role; parsed = ground arith; ttl_positive = ground arith; ran = ground arith }

claim_task_tx-Evolves :
    (c : Settings) (q : ClaimRequest) (token attempt : Text) (now : Time) (d : Tables)
    (found : Option (Task × Lease)) (after : Tables)
    → Distinct d.tasks
    → claim_task_tx c q token attempt now d ≡ ok (found, after)
    → Evolves d.tasks after.tasks
claim_task_tx-Evolves c q token attempt now d found after u h =
    let r = claim_task_tx-ClaimRan c q token attempt now d found after h in
    let base = claim_base-Evolves c q now d u in
    let (free, claims) =
      claim_from-Claims c q r.role _ now (claim_base c q now d) found after r.ran in
    Evolves-trans base (
      Claims-Evolves c q r.role _ now (claim_base c q now d) found after (Evolves-Distinct base u)
        free claims)

pub claim_task-Evolves :
    (c : Settings) (q : ClaimRequest) (token attempt : Text) (now : Time) (d : Tables)
    → Distinct d.tasks
    → Evolves d.tasks (claim_task c q token attempt now d).1.tasks
unfolding claim_task
claim_task-Evolves c q token attempt now d u = settled (claim_task_tx c q token attempt now d) refl
  where
    settled :
        (r : Result (Option (Task × Lease) × Tables))
        → claim_task_tx c q token attempt now d ≡ r
        → Evolves d.tasks (claim_task c q token attempt now d).1.tasks
    settled (ok (found, after)) e =
        rw (e, claim_task) (claim_task_tx-Evolves c q token attempt now d found after u e)
    settled (err e) r = rw (r, claim_task) stays
