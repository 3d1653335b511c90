-- ===== src/Store/Histories/Fencing.antt =====
-- app/store.py: generations and attempts of a task over a history of calls.
use engineering_worker_pool.Base.{
  ℕ, ◌<◌, ◌≡◌, ◌⊎◌, inl, inr, refl, sym, subst, Bool, true, List, Option, none, some, Text, Time, ℤ,
  arith, is_some,
}
use engineering_worker_pool.Store.Schema.{
  TaskState, leased, running, validating, Task, Tables, Settings, Encoding,
}
use engineering_worker_pool.Store.Errors.{err, Error, Result-cases}
use engineering_worker_pool.Store.Queries.{is_active, is_state, find_task, LeaseMutation, lease}
use engineering_worker_pool.Store.Checkpoints.{
  CheckpointRequest, mutation_of, record_checkpoint, record_checkpoint_tx,
}
use engineering_worker_pool.Store.Lifecycle.{
  renew_lease, renew_lease_tx, start_task, start_task_tx, submit_for_validation, submit_tx,
  complete_task, complete_task_tx, fail_task, fail_task_tx, block_task, block_task_tx,
}
use engineering_worker_pool.Store.Calls.{
  Call, renews, starts, submits, completes, fails, blocks, checkpoints, step, run,
}
use engineering_worker_pool.Store.Moves.{
  Move, claim, renew, start, submit, finish, give_up, stop, progress, requeue, release,
  Evolves-Moves, Moves, here, next, Distinct,
}
use engineering_worker_pool.Store.Traces.Calls.{run-Evolves}

-- `u` is a later state of the row `t`: a later generation, or the same one, with the same attempt
-- or none.
abbrev pub Follows : Task → Task → Type 0
Follows t u =
    (u.fencing_required ≡ t.fencing_required)
    × ((t.lease_generation < u.lease_generation)
        ⊎ ((u.lease_generation ≡ t.lease_generation)
            × ((u.attempt_id ≡ t.attempt_id) ⊎ (u.attempt_id ≡ none))))

Move-Follows : {t u : Task} → Move t u → Follows t u
Move-Follows (claim q r g now s f c e) = ground arith
Move-Follows (renew m at now a l e) = ground arith
Move-Follows (start m now s l e) = ground arith
Move-Follows (submit m sha now s n e) = ground arith
Move-Follows (finish m now s l b p e) = ground arith
Move-Follows (give_up s reason m now a f e) = ground arith
Move-Follows (stop reason m now a e) = ground arith
Move-Follows (progress k now a e) = ground arith
Move-Follows (requeue k now s e) = ground arith
Move-Follows (release v now a f e) = ground arith

Moves-Follows : {t u : Task} → Moves t u → Follows t u
Moves-Follows here = (refl, inr (refl, inl refl))
Moves-Follows (next {u} {v} ms m) = ground (arith, Moves-Follows ms, Move-Follows m)

-- Whatever happens, the row of a task stays, its generation never falls, and within one generation
-- its attempt is kept or ended, and never replaced.
pub run-Follows :
    (c : Settings) (history : List (Time × Call)) (d : Tables) (k : Text) (t : Task)
    → Distinct d.tasks
    → find_task k d ≡ some t
    → (u : Task) × (find_task k (run c history d) ≡ some u) × Follows t u
run-Follows c history d k t u h =
    let (v, found, ms) = Evolves-Moves k t (run-Evolves c history d u) h in
    (v, found, Moves-Follows ms)

-- The lease that a call of a worker presents.
abbrev pub presents : Call → Option LeaseMutation
presents (renews m ttl) = some m
presents (starts m) = some m
presents (submits m sha) = some m
presents (completes m) = some m
presents (fails m reason) = some m
presents (blocks m reason) = some m
presents (checkpoints q) = some (mutation_of q)
presents _ = none

-- No state makes `_lease` accept the presented lease.
abbrev pub IsRefused : LeaseMutation → Time → Tables → Type 0
IsRefused m now d = (allowed : TaskState → Bool) → (e : Error) × (lease m allowed now d ≡ err e)

module _ (now : Time) (d : Tables) where
  renew_refused :
      (c : Settings) (m : LeaseMutation) (ttl : Option ℤ)
      → IsRefused m now d
      → (renew_lease c m ttl now d).1 ≡ d
  unfolding renew_lease renew_lease_tx
  renew_refused c m ttl r = let (e, h) = r is_active in ground arith

  start_refused : (m : LeaseMutation) → IsRefused m now d → (start_task m now d).1 ≡ d
  unfolding start_task start_task_tx
  start_refused m r = let (e, h) = r (is_state leased) in ground arith

  submit_refused :
      (m : LeaseMutation) (sha : Text)
      → IsRefused m now d
      → (submit_for_validation m sha now d).1 ≡ d
  unfolding submit_for_validation submit_tx
  submit_refused m sha r = let (e, h) = r (is_state running) in ground arith

  complete_refused : (m : LeaseMutation) → IsRefused m now d → (complete_task m now d).1 ≡ d
  unfolding complete_task complete_task_tx
  complete_refused m r = let (e, h) = r (is_state validating) in ground arith

  fail_refused :
      (m : LeaseMutation) (reason : Text) → IsRefused m now d → (fail_task m reason now d).1 ≡ d
  unfolding fail_task fail_task_tx
  fail_refused m reason r = let (e, h) = r is_active in ground arith

  block_refused :
      (m : LeaseMutation) (reason : Text) → IsRefused m now d → (block_task m reason now d).1 ≡ d
  unfolding block_task block_task_tx
  block_refused m reason r = let (e, h) = r is_active in ground arith

  checkpoint_refused :
      (c : Encoding) (q : CheckpointRequest)
      → IsRefused (mutation_of q) now d
      → (record_checkpoint c q now d).1 ≡ d
  unfolding record_checkpoint record_checkpoint_tx
  checkpoint_refused c q r = let (e, h) = r is_active in ground arith

  same_lease : (n m : LeaseMutation) → some n ≡ some m → IsRefused m now d → IsRefused n now d
  same_lease n m p r = let e : n ≡ m = cc in subst (λ k. IsRefused k now d) (sym e) r

  -- A call whose lease is refused leaves the tables as they are.
  pub presented_refused :
      (c : Settings) (call : Call) (m : LeaseMutation)
      → presents call ≡ some m
      → IsRefused m now d
      → step c now call d ≡ d
  unfolding step
  presented_refused c (renews n ttl) m p r = renew_refused c n ttl (same_lease n m p r)
  presented_refused c (starts n) m p r = start_refused n (same_lease n m p r)
  presented_refused c (submits n sha) m p r = submit_refused n sha (same_lease n m p r)
  presented_refused c (completes n) m p r = complete_refused n (same_lease n m p r)
  presented_refused c (fails n reason) m p r = fail_refused n reason (same_lease n m p r)
  presented_refused c (blocks n reason) m p r = block_refused n reason (same_lease n m p r)
  presented_refused c (checkpoints q) m p r =
      checkpoint_refused c.encoding q (same_lease (mutation_of q) m p r)
  presented_refused c _ m p r = absurd (cc)

-- The task has been claimed again since, or the attempt has ended.
abbrev pub IsPast : LeaseMutation → ℕ → Task → Type 0
IsPast m g t =
    (m.lease_generation ≡ some g)
    × ((g < t.lease_generation)
        ⊎ ((g ≡ t.lease_generation) × (t.attempt_id ≡ none) × (is_some m.attempt_id ≡ true)))

IsPast-Follows :
    (m : LeaseMutation) (g : ℕ) (t u : Task) → IsPast m g t → Follows t u → IsPast m g u
IsPast-Follows m g t u p f = ground arith

past-IsRefused :
    (m : LeaseMutation) (g : ℕ) (now : Time) (d : Tables) (t : Task)
    → find_task m.task_id d ≡ some t
    → IsPast m g t
    → IsRefused m now d
unfolding lease
past-IsRefused m g now d t f p allowed = elim (Result-cases (lease m allowed now d)) [
  | inl (row, h) ↦ absurd (ground arith)
  | inr (e, h) ↦ (e, h)
]

-- Once the task has been claimed again, or the attempt has ended, no call that presents that
-- generation and attempt changes anything, at whatever instant and after whatever other calls.
pub past_is_refused :
    (c : Settings) (history : List (Time × Call)) (d : Tables) (m : LeaseMutation) (g : ℕ)
    (t : Task) (call : Call) (now : Time)
    → Distinct d.tasks
    → find_task m.task_id d ≡ some t
    → IsPast m g t
    → presents call ≡ some m
    → step c now call (run c history d) ≡ run c history d
past_is_refused c history d m g t call now u f p e =
    let (v, found, follows) = run-Follows c history d m.task_id t u f in
    presented_refused now (run c history d) c call m e
      (past-IsRefused m g now (run c history d) v found (IsPast-Follows m g t v p follows))
