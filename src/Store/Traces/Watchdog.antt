-- ===== src/Store/Traces/Watchdog.antt =====
-- `_recover` and `_recover_stalled`: each loop moves the rows that it has read, one after another.
use engineering_worker_pool.Base.{
  ◌≡◌, refl, inl, inr, Bool, true, false, some, Time, arith, find, update, any, select, List, [],
  ◌∷◌, All, All-map, Bool-cases, find-any, any-select, find-update_other, leb,
}
use engineering_worker_pool.Store.Schema.{Task, Tables, Settings}
use engineering_worker_pool.Store.Queries.{is_active, has_task_id}
use engineering_worker_pool.Store.Recovery.{
  Verdict, expired_verdict, stalled_verdict, released, settle, is_expired, is_stalled, for_each,
  recover_row, recover, stalled_row, recover_stalled, worker_is_alternative, is_open_fence,
  resume_state,
}
use engineering_worker_pool.Store.Moves.{
  release, MayFall, Evolves, Evolves-trans, Evolves-Distinct, Distinct, stays,
}
use engineering_worker_pool.Store.Traces.Workers.{moves_once, freed-IsExclusive, MayFall-resumed}

pub expired_verdict-MayFall : (d : Tables) (row : Task) → MayFall (expired_verdict d row).state row
unfolding expired_verdict
expired_verdict-MayFall d row = elim (Bool-cases (is_open_fence row d)) [
  | inl e ↦ rw e tt
  | inr e ↦ rw e (elim (Bool-cases (leb row.max_attempts row.attempt_count)) [
    | inl f ↦ rw f tt
    | inr f ↦ rw f (MayFall-resumed (resume_state row) row refl)
  ])
]

stalled_verdict-MayFall :
    (c : Settings) (now : Time) (d : Tables) (row : Task)
    → MayFall (stalled_verdict c now d row).state row
unfolding stalled_verdict
stalled_verdict-MayFall c now d row = elim (Bool-cases (is_open_fence row d)) [
  | inl e ↦ rw e tt
  | inr e ↦ rw e (elim (Bool-cases (leb row.max_attempts row.attempt_count)) [
    | inl f ↦ rw f tt
    | inr f ↦ rw f (elim (Bool-cases (any (worker_is_alternative c now d row) d.workers)) [
      | inl g ↦ rw g (MayFall-resumed (resume_state row) row refl)
      | inr g ↦ rw g tt
    ])
  ])
]

pub settle-tasks :
    (row : Task) (v : Verdict) (now : Time) (d : Tables)
    → (settle row v now d).tasks ≡ update (has_task_id row.task_id) (released v now) d.tasks
unfolding settle
settle-tasks row v now d = elim (Bool-cases v.to_quarantine) [
  | inl e ↦ ground arith
  | inr e ↦ ground arith
]

-- The rows that a loop has still to take stand in the table as they were read.
abbrev pub IsPending : List Task → Task → Type 0
IsPending ts r = (find (has_task_id r.task_id) ts ≡ some r) × (is_active r.state ≡ true)

still-IsPending :
    (x : Task) (ts : List Task) (r : Task)
    → any (has_task_id x.task_id) ts ≡ false
    → IsPending ts r
    → IsPending (x ∷ ts) r
unfolding find
still-IsPending x ts r h p =
    ground (arith, find-any (has_task_id r.task_id) (has_task_id x.task_id) ts r)

first_found : (y : Task) (ys : List Task) → find (has_task_id y.task_id) (y ∷ ys) ≡ some y
unfolding find
first_found y ys = ground arith

pub select-IsPending :
    (p : Task → Bool) (ts : List Task)
    → ((t : Task) → p t ≡ true → is_active t.state ≡ true)
    → Distinct ts
    → All (IsPending ts) (select p ts)
unfolding select
select-IsPending p [] a h = tt
select-IsPending p (x ∷ ts) a h =
    let rest : All (IsPending (x ∷ ts)) (select p ts) =
      All-map (IsPending ts) (IsPending (x ∷ ts)) (select p ts) (λ r. still-IsPending x ts r h.0)
        (select-IsPending p ts a h.1) in
    elim (Bool-cases (p x)) [ inl e ↦ rw e ((first_found x ts, a x e), rest) | inr e ↦ rw e rest ]

pub select-Distinct : (p : Task → Bool) (ts : List Task) → Distinct ts → Distinct (select p ts)
unfolding select
select-Distinct p [] h = tt
select-Distinct p (x ∷ ts) h =
    ground (arith, select-Distinct p ts, any-select (has_task_id x.task_id) p ts)

-- A loop whose body settles each row by a verdict.
module _ (now : Time) (verdict : Tables → Task → Verdict)
    (falls : (d : Tables) (row : Task) → MayFall (verdict d row).state row) where
  settles : Task → Tables → Tables
  settles row d = settle row (verdict d row) now d

  settle_keeps :
      (row : Task) (v : Verdict) (ts : List Task) (r : Task)
      → find (has_task_id row.task_id) ts ≡ some row
      → has_task_id row.task_id r ≡ false
      → find (has_task_id r.task_id) (update (has_task_id row.task_id) (released v now) ts)
        ≡ find (has_task_id r.task_id) ts
  settle_keeps row v ts r h n =
      find-update_other (has_task_id r.task_id) (has_task_id row.task_id) (released v now) ts row h
        (ground arith) (ground arith)

  pub settled-IsPending :
      (row : Task) (d : Tables) (rows : List Task)
      → find (has_task_id row.task_id) d.tasks ≡ some row
      → any (has_task_id row.task_id) rows ≡ false
      → All (IsPending d.tasks) rows
      → All (IsPending (settle row (verdict d row) now d).tasks) rows
  unfolding any
  settled-IsPending row d [] h n a = tt
  settled-IsPending row d (r ∷ rows) h n a = ground (
    arith,
    settle-tasks row (verdict d row) now d,
    settle_keeps row (verdict d row) d.tasks r h,
    settled-IsPending row d rows h,
  )

  pub for_each-Evolves :
      (rows : List Task) (d : Tables)
      → All (IsPending d.tasks) rows
      → Distinct rows
      → Evolves d.tasks (for_each (λ row e. settle row (verdict e row) now e) rows d).tasks
  unfolding for_each
  for_each-Evolves [] d a u = stays
  for_each-Evolves (row ∷ rows) d a u =
      Evolves-trans
        (moves_once row.task_id row (released (verdict d row) now) d
          (settle row (verdict d row) now d) a.0.0
          (release (verdict d row) now a.0.1 (falls d row) refl)
          (freed-IsExclusive row (released (verdict d row) now row) d.tasks refl)
          (settle-tasks row (verdict d row) now d))
        (for_each-Evolves rows (settle row (verdict d row) now d)
          (settled-IsPending row d rows a.0.0 u.0 a.1) u.1)

pub recover-Evolves :
    (now : Time) (d : Tables) → Distinct d.tasks → Evolves d.tasks (recover now d).tasks
unfolding recover recover_row
recover-Evolves now d h =
    for_each-Evolves now expired_verdict expired_verdict-MayFall (select (is_expired now) d.tasks) d
      (select-IsPending (is_expired now) d.tasks (λ t e. ground arith) h)
      (select-Distinct (is_expired now) d.tasks h)

pub recover_stalled-Evolves :
    (c : Settings) (now : Time) (d : Tables)
    → Distinct d.tasks
    → Evolves d.tasks (recover_stalled c now d).tasks
unfolding recover_stalled stalled_row
recover_stalled-Evolves c now d h =
    for_each-Evolves now (stalled_verdict c now) (stalled_verdict-MayFall c now)
      (select (is_stalled c now) d.tasks) d
      (select-IsPending (is_stalled c now) d.tasks (λ t e. ground arith) h)
      (select-Distinct (is_stalled c now) d.tasks h)

pub recover_both-Evolves :
    (c : Settings) (now : Time) (d : Tables)
    → Distinct d.tasks
    → Evolves d.tasks (recover_stalled c now (recover now d)).tasks
recover_both-Evolves c now d h =
    let a = recover-Evolves now d h in
    Evolves-trans a (recover_stalled-Evolves c now (recover now d) (Evolves-Distinct a h))
