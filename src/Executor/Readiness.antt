-- ===== src/Executor/Readiness.antt =====
-- What has been checked of the manifest and the working tree when a run makes its claim call.
use engineering_worker_pool.Base.{◌≡◌, true, [], Text}
use engineering_worker_pool.Executor.Run.{Run, answered}
use engineering_worker_pool.Executor.Manifest.{Manifest}
use engineering_worker_pool.Executor.Calls.{Workspace}

-- The tree is at its root, without a remote, without changes, and at a commit.
pub record IsClean (w : Workspace) (head : Text) : Type 0 where
  pub root : w.is_root ≡ true
  pub no_remote : w.remote ≡ answered []
  pub unchanged : w.status ≡ answered []
  pub at_head : w.head ≡ answered head
