-- ===== src/Reconciler.antt =====
-- app/reconcile.py: `ReconciliationController`, the loop that calls `WorkerPoolStore.reconcile`.
-- The event loop is not modelled: a task of it is a mark that says whether it is still running, and
-- what the loop does to the controller is a sequence of steps.
use engineering_worker_pool.Base.{
  ℕ, ◌+◌, ◌≡◌, refl, Bool, true, false, List, [], ◌∷◌, Option, none, some, Time, arith, ltb,
  Bool-cases, inl, inr,
}
use engineering_worker_pool.Store.Schema.{Tables, Settings}
use engineering_worker_pool.Store.Recovery.{Cycle, reconcile}

-- The handle of the background task: `task.done()`.
pub data Handle : Type 0 where
  pending done : Handle

pub record Controller : Type 0 where
  pub task : Option Handle
  pub running : Bool
  pub last_started_at : Option Time
  pub last_completed_at : Option Time
  pub last_result : Option Cycle
  pub consecutive_failures : ℕ
  -- "reconciliation_cycle_failed", the only code, or None
  pub has_error : Bool

abbrev pub initial : Controller
initial = record {
  task = none;
  running = false;
  last_started_at = none;
  last_completed_at = none;
  last_result = none;
  consecutive_failures = 0;
  has_error = false;
}

abbrev pub launched : Controller → Controller
launched s = record s { task = some pending; running = true }

unfoldable pub start : Controller → Controller
start s = elim s.task [ none ↦ launched s | some done ↦ launched s | some pending ↦ s ]

-- The cancelled loop runs its `finally`.
unfoldable pub stop : Controller → Controller
stop s = record s { task = none; running = false }

-- `run_once` around the result of the store, none where the store raised: every exception is caught.
unfoldable pub record_cycle : Time → Time → Option Cycle → Controller → Controller
record_cycle begun ended (some r) s = record s {
  last_started_at = some begun;
  last_completed_at = some ended;
  last_result = some r;
  consecutive_failures = 0;
  has_error = false;
}
record_cycle begun ended none s = record s {
  last_started_at = some begun;
  last_completed_at = some ended;
  consecutive_failures = s.consecutive_failures + 1;
  has_error = true;
}

-- A cycle: the readings of the clock, and whether the database raised (and rolled back).
pub record Round : Type 0 where
  pub begun : Time
  pub at : Time
  pub ended : Time
  pub raised : Bool

abbrev pub round_result : Settings → Round → Tables → Option Cycle × Tables
round_result c r d = elim r.raised [
  | true ↦ (none, d)
  | false ↦ (some (reconcile c r.at d).0, (reconcile c r.at d).1)
]

unfoldable pub run_once : Settings → Round → Controller × Tables → Controller × Tables
unfolding record_cycle reconcile
run_once c r (s, d) =
    (record_cycle r.begun r.ended (round_result c r d).0 s, (round_result c r d).1)

-- `_run`: the loop, for as many rounds as it lives.
unfoldable pub run_rounds : Settings → List Round → Controller × Tables → Controller × Tables
unfolding run_once
run_rounds c [] s = s
run_rounds c (r ∷ rs) s = run_rounds c rs (run_once c r s)

-- The failures at the end of the rounds, given those before them.
abbrev pub trailing_failures : ℕ → List Round → ℕ
trailing_failures n [] = n
trailing_failures n (r ∷ rs) = elim r.raised [
  | true ↦ trailing_failures (n + 1) rs
  | false ↦ trailing_failures 0 rs
]

-- Whatever the rounds, `consecutive_failures` is the number of rounds at the end that raised, and
-- the error code is set exactly where that number is not zero, given that it was so before.
pub run_rounds_counts :
    (c : Settings) (rounds : List Round) (s : Controller) (d : Tables)
    → s.has_error ≡ ltb 0 s.consecutive_failures
    → ((run_rounds c rounds (s, d)).0.consecutive_failures
        ≡ trailing_failures s.consecutive_failures rounds)
      × ((run_rounds c rounds (s, d)).0.has_error
          ≡ ltb 0 (run_rounds c rounds (s, d)).0.consecutive_failures)
unfolding run_rounds run_once record_cycle
run_rounds_counts c [] s d h = (refl, h)
run_rounds_counts c (r ∷ rs) s d h =
    let after = round_result c r d in
    elim (Bool-cases r.raised) [
      | inl e ↦ ground (
        arith,
        run_rounds_counts c rs (record_cycle r.begun r.ended after.0 s) after.1
            (unfold record_cycle in ground arith),
      )
      | inr e ↦ ground (
        arith,
        run_rounds_counts c rs (record_cycle r.begun r.ended after.0 s) after.1
            (unfold record_cycle in ground arith),
      )
    ]
