-- ===== src/Examples/Reports.antt =====
-- The report on the task of the small pool.
use engineering_worker_pool.Base.{
  ℕ, ◌+◌, ◌/◌, ◌≤◌, ◌≡◌, refl, true, some, Time, codes, seconds, arith, find, any, count,
  text_discrete,
}
use engineering_worker_pool.Store.Schema.{Lane, builder}
use engineering_worker_pool.Store.Errors.{ok}
use engineering_worker_pool.Store.Queries.{find_lane}
use engineering_worker_pool.Store.Claim.{ready, is_eligible, in_flight}
use engineering_worker_pool.Store.Recovery.{serves}
use engineering_worker_pool.Diagnostics.{diagnose, reasons_of}
use engineering_worker_pool.Diagnostics.Agreement.{
  IsNearest, eligible-claimable, claimable-eligible, eligible-recent,
}
use engineering_worker_pool.Examples.{settings, now, task, lane, request, one_task, worker_of}

abbrev round_ms : Time → ℕ
round_ms us = (us + 500) / 1000

round_ms-IsNearest : IsNearest round_ms
round_ms-IsNearest us = ground arith

eligible-claimable_example :
    (ready settings (codes "b") builder now one_task ≡ ok (worker_of (codes "b") builder))
    × ((r : Lane) × (find_lane (codes "o/r") one_task ≡ some r)
        × (is_eligible request builder one_task (record { task = task; lane = r }) ≡ true))
unfolding reasons_of find any text_discrete serves in_flight count
eligible-claimable_example =
    eligible-claimable round_ms settings now one_task task (worker_of (codes "b") builder) request
      refl refl refl (λ e. absurd (cc)) refl refl

claimable-eligible_example :
    (diagnose round_ms settings now one_task task
      (worker_of (codes "b") builder)).eligibility_precheck
    ≡ true
unfolding find any text_discrete serves in_flight count ready is_eligible
claimable-eligible_example =
    claimable-eligible round_ms settings now one_task task (worker_of (codes "b") builder) lane
      request round_ms-IsNearest refl refl refl refl (λ e. refl) refl refl

eligible-recent_example : now ≤ seconds 100 + seconds 30 + 500
unfolding reasons_of find any text_discrete serves in_flight count
eligible-recent_example =
    eligible-recent round_ms settings now one_task task (worker_of (codes "b") builder)
      round_ms-IsNearest refl
