-- ===== src/Store/Operations/Leases.antt =====
-- app/store.py: `_lease`, as the calls of a worker meet it.
use engineering_worker_pool.Base.{◌≡◌, ◌⊎◌, inl, inr, Bool, true, false, some, Time, arith}
use engineering_worker_pool.Store.Schema.{TaskState, Task, Tables, Settings}
use engineering_worker_pool.Store.Errors.{ok, err, Error, Result-cases}
use engineering_worker_pool.Store.Queries.{
  find_task, LeaseMutation, lease, has_expired, differs_generation, differs_attempt, is_fenced_out,
}
use engineering_worker_pool.Store.Calls.{Call, step}
use engineering_worker_pool.Store.Histories.Fencing.{presents, IsRefused, presented_refused}

-- The lease that a worker presents is that of the row, and has not run out.
pub record IsLeaseOf (m : LeaseMutation) (now : Time) (t : Task) : Type 0 where
  pub holder : t.leased_by ≡ some m.worker_id
  pub token : t.lease_token ≡ some m.lease_token
  pub in_time : has_expired t.lease_expires_at now ≡ false
  pub fenced : t.fencing_required ≡ true → is_fenced_out m ≡ false
  pub generation : differs_generation m.lease_generation t.lease_generation ≡ false
  pub attempt : differs_attempt m.attempt_id t.attempt_id ≡ false

lease-IsLeaseOf :
    (m : LeaseMutation) (allowed : TaskState → Bool) (now : Time) (d : Tables) (t : Task)
    → lease m allowed now d ≡ ok t
    → (find_task m.task_id d ≡ some t) × IsLeaseOf m now t
unfolding lease
lease-IsLeaseOf m allowed now d t h = ground arith

-- Where `_lease` fails in every state, it fails.
IsRefused-all :
    (m : LeaseMutation) (now : Time) (d : Tables) (e : Error)
    → lease m (λ _. true) now d ≡ err e
    → IsRefused m now d
unfolding lease
IsRefused-all m now d e h allowed = elim (Result-cases (lease m allowed now d)) [
  | inl (row, k) ↦ absurd (ground arith)
  | inr (f, k) ↦ (f, k)
]

-- A call of a worker changes nothing, unless the task it names is leased to that worker under that
-- token, the lease runs beyond the instant of the call, and the generation and the attempt that the
-- worker gives are those of the task; on a fenced task it must give both.
pub presented_guarded :
    (c : Settings) (now : Time) (d : Tables) (call : Call) (m : LeaseMutation)
    → presents call ≡ some m
    → (step c now call d ≡ d) ⊎ ((t : Task) × (find_task m.task_id d ≡ some t) × IsLeaseOf m now t)
presented_guarded c now d call m p = elim (Result-cases (lease m (λ _. true) now d)) [
  | inl (t, h) ↦ let (f, v) = lease-IsLeaseOf m (λ _. true) now d t h in inr (t, f, v)
  | inr (e, h) ↦ inl (presented_refused now d c call m p (IsRefused-all m now d e h))
]
