-- ===== src/Store/Histories/Rows.antt =====
-- app/store.py: the rows of `tasks` over a history of calls.
use engineering_worker_pool.Base.{
  ◌≤◌, ◌≡◌, ◌⊎◌, inl, inr, refl, Bool, true, false, not, List, [], ◌∷◌, Option, none, some, Text,
  Time, arith, truthy, is_some, is_text, find, count, update, bit, All, count-update, count-append,
  count-eq_zero, find-All, Bool-cases,
}
use engineering_worker_pool.Store.Schema.{
  TaskState, queued, leased, running, validating, blocked, completed, failed, builder, validator,
  Task, Tables, Settings,
}
use engineering_worker_pool.Store.Queries.{has_task_id, holds_active, find_task}
use engineering_worker_pool.Store.Calls.{Call, run}
use engineering_worker_pool.Store.Moves.{
  Move, claim, renew, start, submit, finish, give_up, stop, progress, requeue, release, IsNew,
  IsExclusive, Evolves, stays, moves, admits, Evolves-All, Evolves-Moves, Moves, here, next,
  Distinct,
}
use engineering_worker_pool.Store.Traces.Calls.{run-Evolves}

-- The validator is known, and is not the builder.
abbrev pub is_independent : Option Text → Option Text → Bool
is_independent b none = false
is_independent b (some v) = not (is_text b v)

-- What every row of `tasks` satisfies.
pub record IsSound (t : Task) : Type 0 where
  pub token_held : is_some t.lease_token ≡ is_some t.leased_by
  pub expiry_held : is_some t.lease_expires_at ≡ is_some t.leased_by
  pub attempt_held : is_some t.attempt_id ≡ is_some t.leased_by
  pub queued_free : t.state ≡ queued → t.leased_by ≡ none
  pub blocked_free : t.state ≡ blocked → t.leased_by ≡ none
  pub completed_free : t.state ≡ completed → t.leased_by ≡ none
  pub failed_free : t.state ≡ failed → t.leased_by ≡ none
  pub leased_held : t.state ≡ leased → is_some t.leased_by ≡ true
  pub running_held : t.state ≡ running → is_some t.leased_by ≡ true
  pub running_builder : t.state ≡ running → t.builder_worker_id ≡ t.leased_by
  pub validating_built : t.state ≡ validating → truthy t.produced_sha ≡ true
  pub validating_validator :
      t.state ≡ validating
      → is_some t.leased_by ≡ true
      → (t.validator_worker_id ≡ t.leased_by)
        × (is_independent t.builder_worker_id t.validator_worker_id ≡ true)
  pub completed_built : t.state ≡ completed → truthy t.produced_sha ≡ true
  pub completed_independent :
      t.state ≡ completed → is_independent t.builder_worker_id t.validator_worker_id ≡ true
  pub counted : t.attempt_count ≡ t.lease_generation

Move-IsSound : (t u : Task) → Move t u → IsSound t → IsSound u
Move-IsSound t u (claim q builder g now s f c e) h = ground arith
Move-IsSound t u (claim q validator g now s f c e) h = ground arith
Move-IsSound t u (renew m at now a l e) h = ground arith
Move-IsSound t u (start m now s l e) h = ground arith
Move-IsSound t u (submit m sha now s n e) h = ground arith
Move-IsSound t u (finish m now s l b p e) h = ground arith
Move-IsSound t u (give_up s reason m now a f e) h = ground arith
Move-IsSound t u (stop reason m now a e) h = ground arith
Move-IsSound t u (progress k now a e) h = ground arith
Move-IsSound t u (requeue k now s e) h = ground arith
Move-IsSound t u (release v now a f e) h = ground arith

IsNew-IsSound : (t : Task) → IsNew t → IsSound t
IsNew-IsSound t n = ground arith

pub Evolves-IsSound : {ss ts : List Task} → Evolves ss ts → All IsSound ss → All IsSound ts
Evolves-IsSound a h = Evolves-All IsSound Move-IsSound IsNew-IsSound a h

-- After every history each row is consistent: the four lease columns are set together, a queued,
-- blocked, completed or failed task is leased to nobody, a leased or running one to somebody, and a
-- running one to its builder; a validating or completed task has a commit; whoever validates it, or
-- has validated it, is not its builder; and a lease generation stands for each claim.
pub run-IsSound :
    (c : Settings) (history : List (Time × Call)) (d : Tables)
    → Distinct d.tasks
    → All IsSound d.tasks
    → All IsSound (run c history d).tasks
run-IsSound c history d u h = Evolves-IsSound (run-Evolves c history d u) h

-- A row that is completed or failed.
abbrev pub is_final : TaskState → Bool
is_final completed = true
is_final failed = true
is_final _ = false

Move-not_final : (t u : Task) → Move t u → is_final t.state ≡ false
Move-not_final t u (claim q builder g now s f c e) = ground arith
Move-not_final t u (claim q validator g now s f c e) = ground arith
Move-not_final t u (renew m at now a l e) = ground arith
Move-not_final t u (start m now s l e) = ground arith
Move-not_final t u (submit m sha now s n e) = ground arith
Move-not_final t u (finish m now s l b p e) = ground arith
Move-not_final t u (give_up s reason m now a f e) = ground arith
Move-not_final t u (stop reason m now a e) = ground arith
Move-not_final t u (progress k now a e) = ground arith
Move-not_final t u (requeue k now s e) = ground arith
Move-not_final t u (release v now a f e) = ground arith

Moves-final : {t u : Task} → Moves t u → is_final t.state ≡ true → u ≡ t
Moves-final here f = refl
Moves-final (next {u} {v} ms m) f =
    let before = Moves-final ms f in ground (arith, Move-not_final u v m)

-- The row of a completed or failed task never changes again, in any column.
pub run_keeps_final :
    (c : Settings) (history : List (Time × Call)) (d : Tables) (k : Text) (t : Task)
    → Distinct d.tasks
    → find_task k d ≡ some t
    → is_final t.state ≡ true
    → find_task k (run c history d) ≡ some t
run_keeps_final c history d k t u h f =
    let (v, found, ms) = Evolves-Moves k t (run-Evolves c history d u) h in
    rw (← Moves-final ms f) found

-- The worker of an active task changes only by a move that hands the task to it.
Move-holds_active :
    (w : Text) (t u : Task)
    → Move t u
    → IsSound t
    → (bit (holds_active w u) ≤ bit (holds_active w t))
      ⊎ ((is_text t.leased_by w ≡ false) × (is_text u.leased_by w ≡ true))
Move-holds_active w t u (claim q builder g now s f c e) sound =
    elim (Bool-cases (is_text u.leased_by w)) [
      | inl a ↦ inr (ground arith)
      | inr a ↦ inl (ground arith)
    ]
Move-holds_active w t u (claim q validator g now s f c e) sound =
    elim (Bool-cases (is_text u.leased_by w)) [
      | inl a ↦ inr (ground arith)
      | inr a ↦ inl (ground arith)
    ]
Move-holds_active w t u (renew m at now a l e) sound = inl (ground arith)
Move-holds_active w t u (start m now s l e) sound = inl (ground arith)
Move-holds_active w t u (submit m sha now s n e) sound = inl (ground arith)
Move-holds_active w t u (finish m now s l b p e) sound = inl (ground arith)
Move-holds_active w t u (give_up s reason m now a f e) sound = inl (ground arith)
Move-holds_active w t u (stop reason m now a e) sound = inl (ground arith)
Move-holds_active w t u (progress k now a e) sound = inl (ground arith)
Move-holds_active w t u (requeue k now s e) sound = inl (ground (arith, sound.blocked_free s))
Move-holds_active w t u (release v now a f e) sound = inl (ground arith)

-- A worker holds no more active tasks than one.
abbrev pub HoldsOne : Text → List Task → Type 0
HoldsOne w ts = count (holds_active w) ts ≤ 1

move-HoldsOne :
    (w k : Text) (t : Task) (f : Task → Task) (ts : List Task)
    → find (has_task_id k) ts ≡ some t
    → Move t (f t)
    → IsExclusive t (f t) ts
    → IsSound t
    → HoldsOne w ts
    → HoldsOne w (update (has_task_id k) f ts)
move-HoldsOne w k t f ts e m x sound h = elim (Move-holds_active w t (f t) m sound) [
  | inl le ↦ omega (arith, count-update (holds_active w) (has_task_id k) f ts t e)
  | inr (before, after) ↦
      let free = count-eq_zero (holds_active w) ts (x w before after) in
      ground (arith, count-update (holds_active w) (has_task_id k) f ts t e)
]

new_holds_nothing : (w : Text) (t : Task) → IsNew t → count (holds_active w) (t ∷ []) ≡ 0
unfolding count
new_holds_nothing w t n = ground arith

Evolves-HoldsOne :
    (w : Text) {ss ts : List Task} → Evolves ss ts → All IsSound ss → HoldsOne w ss → HoldsOne w ts
Evolves-HoldsOne w stays sound h = h
Evolves-HoldsOne w (moves {ts} k t f a e m x) sound h =
    move-HoldsOne w k t f ts e m x
      (find-All IsSound (has_task_id k) ts t (Evolves-IsSound a sound) e)
      (Evolves-HoldsOne w a sound h)
Evolves-HoldsOne w (admits {ts} t a e n) sound h =
    let before = Evolves-HoldsOne w a sound h in
    let free = new_holds_nothing w t n in omega (arith, count-append (holds_active w) ts (t ∷ []))

-- After every history a worker holds one active task at most, so that the unique index on the
-- worker of an active task never stops a transaction.
pub run-HoldsOne :
    (c : Settings) (history : List (Time × Call)) (d : Tables) (w : Text)
    → Distinct d.tasks
    → All IsSound d.tasks
    → HoldsOne w d.tasks
    → HoldsOne w (run c history d).tasks
run-HoldsOne c history d w u sound h = Evolves-HoldsOne w (run-Evolves c history d u) sound h
