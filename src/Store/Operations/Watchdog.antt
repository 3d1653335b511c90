-- ===== src/Store/Operations/Watchdog.antt =====
-- app/store.py: `_recover` and `reconcile`.
use engineering_worker_pool.Base.{
  ◌+◌, ◌≡◌, inl, inr, sym, ◌∙◌, ap, true, false, List, [], ◌∷◌, some, Text, Time, arith, find,
  count, select, All, length, Bool-cases, count-update, count-select, select-holds, All-map,
  All-both, same-eq, find-update_other,
}
use engineering_worker_pool.Store.Schema.{Task, Tables}
use engineering_worker_pool.Store.Queries.{has_task_id, find_task}
use engineering_worker_pool.Store.Recovery.{
  Verdict, expired_verdict, released, settle, is_expired, for_each, recover_row, recover,
  recovered_count,
}
use engineering_worker_pool.Store.Moves.{Distinct}
use engineering_worker_pool.Store.Traces.Watchdog.{
  settle-tasks, IsPending, select-IsPending, select-Distinct, settled-IsPending,
  expired_verdict-MayFall,
}

-- One round takes one expired row away.
settle_expired :
    (now : Time) (row : Task) (v : Verdict) (d : Tables)
    → IsPending d.tasks row
    → is_expired now row ≡ true
    → count (is_expired now) (settle row v now d).tasks + 1 ≡ count (is_expired now) d.tasks
settle_expired now row v d p e = rw (settle-tasks row v now d) (
    ground
      (arith, count-update (is_expired now) (has_task_id row.task_id) (released v now) d.tasks row))

recover_loop :
    (now : Time) (rows : List Task) (d : Tables)
    → All (IsPending d.tasks) rows
    → All (λ r. is_expired now r ≡ true) rows
    → Distinct rows
    → count (is_expired now) d.tasks ≡ length rows
    → count (is_expired now) (for_each (recover_row now) rows d).tasks ≡ 0
unfolding for_each recover_row
recover_loop now [] d a x u n = n
recover_loop now (row ∷ rows) d a x u n =
    let v = expired_verdict d row in
    recover_loop now rows (settle row v now d)
      (settled-IsPending now expired_verdict expired_verdict-MayFall row d rows a.0.0 u.0 a.1) x.1
      u.1 (omega (arith, settle_expired now row v d a.0 x.0))

-- `_recover` leaves no task whose lease has run out, by the order of the stored texts, and the count
-- that it returns is that of the tasks it found.
pub recover_clears :
    (now : Time) (d : Tables)
    → Distinct d.tasks
    → (count (is_expired now) (recover now d).tasks ≡ 0)
      × (recovered_count now d ≡ count (is_expired now) d.tasks)
unfolding recover recovered_count
recover_clears now d u = (
  recover_loop now (select (is_expired now) d.tasks) d
      (select-IsPending (is_expired now) d.tasks (λ t e. ground arith) u)
      (select-holds (is_expired now) d.tasks) (select-Distinct (is_expired now) d.tasks u)
      (sym (count-select (is_expired now) d.tasks)),
  count-select (is_expired now) d.tasks,
)

keep_loop :
    (now : Time) (k : Text) (t : Task) (rows : List Task) (d : Tables)
    → find_task k d ≡ some t
    → All (IsPending d.tasks) rows
    → All (λ r. has_task_id k r ≡ false) rows
    → Distinct rows
    → find_task k (for_each (recover_row now) rows d) ≡ some t
unfolding for_each recover_row
keep_loop now k t [] d f a n u = f
keep_loop now k t (row ∷ rows) d f a n u =
    let v = expired_verdict d row in
    keep_loop now k t rows (settle row v now d)
      (rw (settle-tasks row v now d) (
        find-update_other (has_task_id k) (has_task_id row.task_id) (released v now) d.tasks row
          a.0.0 n.0 n.0
        ∙ f))
      (settled-IsPending now expired_verdict expired_verdict-MayFall row d rows a.0.0 u.0 a.1) n.1
      u.1

other_key :
    (now : Time) (k : Text) (t : Task) (ts : List Task) (r : Task)
    → find (has_task_id k) ts ≡ some t
    → is_expired now t ≡ false
    → IsPending ts r × (is_expired now r ≡ true)
    → has_task_id k r ≡ false
other_key now k t ts r f e p = elim (Bool-cases (has_task_id k r)) [
  | inl same_key ↦
      let rows : find (has_task_id r.task_id) ts ≡ find (has_task_id k) ts =
        ap (λ i. find (has_task_id i) ts) (same-eq r.task_id k same_key) in
      absurd (ground arith)
  | inr other ↦ other
]

-- `_recover` does not touch a task that is not expired.
pub recover_keeps :
    (now : Time) (d : Tables) (k : Text) (t : Task)
    → Distinct d.tasks
    → find_task k d ≡ some t
    → is_expired now t ≡ false
    → find_task k (recover now d) ≡ some t
unfolding recover
recover_keeps now d k t u f e =
    let rows = select (is_expired now) d.tasks in
    let pending = select-IsPending (is_expired now) d.tasks (λ t e. ground arith) u in
    keep_loop now k t rows d f pending
      (All-map (λ r. IsPending d.tasks r × (is_expired now r ≡ true)) (λ r. has_task_id k r ≡ false)
        rows (λ r p. other_key now k t d.tasks r f e p)
        (All-both (IsPending d.tasks) (λ r. is_expired now r ≡ true) rows pending
          (select-holds (is_expired now) d.tasks)))
      (select-Distinct (is_expired now) d.tasks u)
