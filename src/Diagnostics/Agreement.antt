-- ===== src/Diagnostics/Agreement.antt =====
-- The report on a task beside the claim that it foresees.
use engineering_worker_pool.Base.{
  ℕ, ◌-◌, ◌+◌, ◌*◌, ◌≤◌, ◌≡◌, refl, Bool, true, false, not, ◌&&◌, ◌||◌, none, some, Time, arith,
  seconds, leb, ltb, is_text, truthy, iff, any, Option-cases, inl, inr,
}
use engineering_worker_pool.Store.Schema.{
  Role, builder, validator, queued, validating, Worker, Lane, Task, Tables, Settings,
}
use engineering_worker_pool.Store.Errors.{ok}
use engineering_worker_pool.Store.Queries.{find_worker, find_lane, is_role, is_normal, holds_active}
use engineering_worker_pool.Store.Recovery.{is_stale, rules_diverge, serves}
use engineering_worker_pool.Store.Claim.{ClaimRequest, ready, is_eligible, is_wanted, in_flight}
use engineering_worker_pool.Diagnostics.{reasons_of, diagnose, age_ms, is_required, required_role}

-- The rounding gives the nearest millisecond.
abbrev pub IsNearest : (Time → ℕ) → Type 0
IsNearest round_ms = (us : Time) → (us ≤ round_ms us * 1000 + 500) × (round_ms us * 1000 ≤ us + 500)

-- The claim of a request asks for the task, from the worker.
abbrev pub asks_for : ClaimRequest → Task → Bool
asks_for q t = iff t.fencing_required q.fencing_required && is_wanted q.only_task_id t.task_id

module _ (round_ms : Time → ℕ) where
  eligibility_ready :
      (c : Settings) (now : Time) (d : Tables) (t : Task) (w : Worker)
      → find_worker w.worker_id d ≡ some w
      → (diagnose round_ms c now d t w).eligibility_precheck ≡ true
      → is_stale c now w ≡ false
      → ready c w.worker_id w.role now d ≡ ok w
  unfolding ready reasons_of
  eligibility_ready c now d t w f e s = ground arith

  eligibility_fits :
      (c : Settings) (now : Time) (d : Tables) (t : Task) (w : Worker) (r : Lane) (q : ClaimRequest)
      → find_lane t.repository d ≡ some r
      → q.worker_id ≡ w.worker_id
      → asks_for q t ≡ true
      → (t.state ≡ validating → truthy t.produced_sha ≡ true)
      → (diagnose round_ms c now d t w).eligibility_precheck ≡ true
      → is_eligible q w.role d (record { task = t; lane = r }) ≡ true
  unfolding is_eligible reasons_of
  eligibility_fits c now d t w r q l i a v e = ground (arith, i)

  eligibility_lane :
      (c : Settings) (now : Time) (d : Tables) (t : Task) (w : Worker)
      → (diagnose round_ms c now d t w).eligibility_precheck ≡ true
      → (r : Lane) × (find_lane t.repository d ≡ some r)
  unfolding reasons_of
  eligibility_lane c now d t w e = elim (Option-cases (find_lane t.repository d)) [
    | inl n ↦ absurd (ground (arith, n, e))
    | inr (r, n) ↦ (r, n)
  ]

  ready_facts :
      (c : Settings) (now : Time) (d : Tables) (w : Worker) (role : Role)
      → find_worker w.worker_id d ≡ some w
      → ready c w.worker_id role now d ≡ ok w
      → (is_normal w.profile ≡ true)
        × (not w.gateway_ok || not w.state_validated ≡ false)
        × (rules_diverge c w ≡ false)
        × (is_stale c now w ≡ false)
        × (any (holds_active w.worker_id) d.tasks ≡ false)
  unfolding ready
  ready_facts c now d w role f h = ground arith

  on_time :
      (c : Settings) (now : Time) (w : Worker)
      → IsNearest round_ms
      → is_stale c now w ≡ false
      → ltb (c.heartbeat_ttl_seconds * 1000) (age_ms round_ms now w.last_heartbeat_at) ≡ false
  on_time c now w n h = let near = n (now - w.last_heartbeat_at) in ground (arith, near.0, near.1)

  claimable_required :
      (d : Tables) (t : Task) (w : Worker) (r : Lane) (q : ClaimRequest)
      → (t.state ≡ queued → t.leased_by ≡ none)
      → is_eligible q w.role d (record { task = t; lane = r }) ≡ true
      → is_required (required_role t) w.role ≡ true
  unfolding is_eligible
  claimable_required d t w r q v e = ground arith

  claimable_fits :
      (d : Tables) (t : Task) (w : Worker) (r : Lane) (q : ClaimRequest)
      → q.worker_id ≡ w.worker_id
      → is_eligible q w.role d (record { task = t; lane = r }) ≡ true
      → (serves w.worker_id t.repository d ≡ true)
        × (is_role w.role builder && leb r.max_in_flight (in_flight t.repository d) ≡ false)
        × (is_role w.role validator && is_text t.builder_worker_id w.worker_id ≡ false)
  unfolding is_eligible
  claimable_fits d t w r q i e = ground (arith, i)

  eligibility_on_time :
      (c : Settings) (now : Time) (d : Tables) (t : Task) (w : Worker)
      → (diagnose round_ms c now d t w).eligibility_precheck ≡ true
      → ltb (c.heartbeat_ttl_seconds * 1000) (age_ms round_ms now w.last_heartbeat_at) ≡ false
  unfolding reasons_of
  eligibility_on_time c now d t w e = ground arith

  -- Where no reason stands against a worker, it is shown as eligible.
  no_reason :
      (c : Settings) (now : Time) (d : Tables) (t : Task) (w : Worker) (r : Lane)
      → find_lane t.repository d ≡ some r
      → r.enabled ≡ true
      → ltb (c.heartbeat_ttl_seconds * 1000) (age_ms round_ms now w.last_heartbeat_at) ≡ false
      → (is_normal w.profile ≡ true)
        × (not w.gateway_ok || not w.state_validated ≡ false)
        × (rules_diverge c w ≡ false)
        × (is_stale c now w ≡ false)
        × (any (holds_active w.worker_id) d.tasks ≡ false)
      → (serves w.worker_id t.repository d ≡ true)
        × (is_role w.role builder && leb r.max_in_flight (in_flight t.repository d) ≡ false)
        × (is_role w.role validator && is_text t.builder_worker_id w.worker_id ≡ false)
      → is_required (required_role t) w.role ≡ true
      → (diagnose round_ms c now d t w).eligibility_precheck ≡ true
  unfolding reasons_of
  no_reason c now d t w r l o a b g q =
      rw (reasons_of, l, o, a, b.0, b.1, b.2, b.4, g.0, g.1, g.2, q) refl

-- A worker that the report shows as eligible, and that is not stale at the instant of a claim that asks
-- for the task in its name, meets the conditions of that claim, and the task fits its query; a task in
-- validation has a commit.
pub eligible-claimable :
    (round_ms : Time → ℕ) (c : Settings) (now : Time) (d : Tables) (t : Task) (w : Worker)
    (q : ClaimRequest)
    → find_worker w.worker_id d ≡ some w
    → q.worker_id ≡ w.worker_id
    → asks_for q t ≡ true
    → (t.state ≡ validating → truthy t.produced_sha ≡ true)
    → (diagnose round_ms c now d t w).eligibility_precheck ≡ true
    → is_stale c now w ≡ false
    → (ready c w.worker_id w.role now d ≡ ok w)
      × ((r : Lane) × (find_lane t.repository d ≡ some r)
          × (is_eligible q w.role d (record { task = t; lane = r }) ≡ true))
eligible-claimable round_ms c now d t w q f i a v e s =
    let found = eligibility_lane round_ms c now d t w e in
    (
      eligibility_ready round_ms c now d t w f e s,
      (found.0, found.1, eligibility_fits round_ms c now d t w found.0 q found.1 i a v e),
    )

-- A worker that meets the conditions of a claim, and whose query the task fits, is shown as eligible,
-- where the lane is enabled, a queued task is leased to nobody and ages are rounded to the nearest
-- millisecond.
pub claimable-eligible :
    (round_ms : Time → ℕ) (c : Settings) (now : Time) (d : Tables) (t : Task) (w : Worker)
    (r : Lane) (q : ClaimRequest)
    → IsNearest round_ms
    → find_worker w.worker_id d ≡ some w
    → find_lane t.repository d ≡ some r
    → r.enabled ≡ true
    → q.worker_id ≡ w.worker_id
    → (t.state ≡ queued → t.leased_by ≡ none)
    → ready c w.worker_id w.role now d ≡ ok w
    → is_eligible q w.role d (record { task = t; lane = r }) ≡ true
    → (diagnose round_ms c now d t w).eligibility_precheck ≡ true
claimable-eligible round_ms c now d t w r q n f l o i v y e =
    let facts = ready_facts round_ms c now d w w.role f y in
    no_reason round_ms c now d t w r l o (on_time round_ms c now w n facts.3) facts
      (claimable_fits round_ms d t w r q i e) (claimable_required round_ms d t w r q v e)

-- A worker that the report shows as eligible was heard of within the time allowed, or at most half a
-- millisecond later, where ages are rounded to the nearest millisecond.
pub eligible-recent :
    (round_ms : Time → ℕ) (c : Settings) (now : Time) (d : Tables) (t : Task) (w : Worker)
    → IsNearest round_ms
    → (diagnose round_ms c now d t w).eligibility_precheck ≡ true
    → now ≤ w.last_heartbeat_at + seconds c.heartbeat_ttl_seconds + 500
eligible-recent round_ms c now d t w n e =
    let near = n (now - w.last_heartbeat_at) in
    ground (arith, eligibility_on_time round_ms c now d t w e, near.0, near.1)
