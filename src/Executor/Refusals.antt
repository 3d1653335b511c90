-- ===== src/Executor/Refusals.antt =====
-- Runs that end before they reach the pool.
use engineering_worker_pool.Base.{◌≡◌, refl, true, false, [], ◌∷◌, Text}
use engineering_worker_pool.Executor.Run.{
  ◌>>=◌, log, outcome, finally, Failure, answered, raised, acquires_lock, done, releases_lock,
}
use engineering_worker_pool.Executor.Manifest.{Manifest}
use engineering_worker_pool.Executor.Calls.{Setup, Replies}
use engineering_worker_pool.Executor.OneShot.{
  Prepared, prepare, check_local, has_receipt, locked_run, run,
}
use engineering_worker_pool.Executor.Rules.{IsQuiet-raised, IsQuiet-answered}
use engineering_worker_pool.Executor.Quiet.{prepare-IsQuiet, check_local-IsQuiet}

-- A run without a receipt whose working tree or command registry is refused calls nothing but the
-- lock, which it gives back, and raises that failure.
pub check_local-refused :
    (s : Setup) (r : Replies) (raw : Manifest) (role worker : Text) (p : Prepared) (e : Failure)
    → outcome (prepare s raw role worker) ≡ answered p
    → r.locked ≡ true
    → has_receipt r.receipt ≡ false
    → outcome (check_local s r p) ≡ raised e
    → (log (run s r raw role worker) ≡ done acquires_lock ∷ done releases_lock ∷ [])
      × (outcome (run s r raw role worker) ≡ raised e)
unfolding run locked_run log outcome ◌>>=◌ finally
check_local-refused s r raw role worker p e h l n k =
    let first =
      IsQuiet-answered (prepare s raw role worker) p (prepare-IsQuiet s raw role worker) h in
    let second = IsQuiet-raised (check_local s r p) e (check_local-IsQuiet s r p) k in
    (rw (first, l, n, second, run) refl, rw (first, l, n, second, run) refl)
