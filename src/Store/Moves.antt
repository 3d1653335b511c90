-- ===== src/Store/Moves.antt =====
-- The life of a task as a step relation: the moves that a row of `tasks` may make, and the tables
-- of tasks that such moves and admissions lead to.
use engineering_worker_pool.Base.{
  ◌≡◌, true, false, List, ◌∷◌, [], ◌++◌, none, some, Text, Time, truthy, arith, is_some, nonempty,
  refl, ap, ◌∙◌, ◌≢◌, subst, All, All-update, All-append, any-update_other, any-append, find-append,
  find-update_self, find-update_other, find-holds, text_discrete, is_text, find, any, update,
}
use engineering_worker_pool.Store.Schema.{
  TaskState, queued, leased, running, validating, blocked, failed, Role, builder, validator, Task,
}
use engineering_worker_pool.Store.Queries.{is_active, has_task_id, holds_active, LeaseMutation}
use engineering_worker_pool.Store.Recovery.{Verdict, resume_state, released}
use engineering_worker_pool.Store.Lifecycle.{
  renewed, started, submitted, finished, given_up, stopped, requeued,
}
use engineering_worker_pool.Store.Claim.{ClaimRequest, Grant, claimed, wanted_state}
use engineering_worker_pool.Store.Checkpoints.{progressed}

-- A validator takes only what another worker has built.
abbrev pub MayClaim : Role → ClaimRequest → Task → Type 0
MayClaim builder q t = Unit {0}
MayClaim validator q t =
    (is_some t.produced_sha ≡ true) × (is_text t.builder_worker_id q.worker_id ≡ false)

-- Where a task may go when it is taken from its worker.
abbrev pub MayFall : TaskState → Task → Type 0
MayFall failed t = Unit {0}
MayFall blocked t = Unit {0}
MayFall s t = s ≡ resume_state t

pub data Move (t u : Task) : Type 0 where
  claim :
      (q : ClaimRequest) (role : Role) (g : Grant) (now : Time)
      → t.state ≡ wanted_state role
      → t.leased_by ≡ none
      → MayClaim role q t
      → u ≡ claimed q role g now t
      → Move t u
  renew :
      (m : LeaseMutation) (at now : Time)
      → is_active t.state ≡ true
      → is_some t.leased_by ≡ true
      → u ≡ renewed m at now t
      → Move t u
  start :
      (m : LeaseMutation) (now : Time)
      → t.state ≡ leased
      → t.leased_by ≡ some m.worker_id
      → u ≡ started m now t
      → Move t u
  submit :
      (m : LeaseMutation) (sha : Text) (now : Time)
      → t.state ≡ running
      → nonempty sha ≡ true
      → u ≡ submitted sha m now t
      → Move t u
  finish :
      (m : LeaseMutation) (now : Time)
      → t.state ≡ validating
      → t.leased_by ≡ some m.worker_id
      → is_text t.builder_worker_id m.worker_id ≡ false
      → truthy t.produced_sha ≡ true
      → u ≡ finished m now t
      → Move t u
  give_up :
      (s : TaskState) (reason : Text) (m : LeaseMutation) (now : Time)
      → is_active t.state ≡ true
      → MayFall s t
      → u ≡ given_up s reason m now t
      → Move t u
  stop :
      (reason : Text) (m : LeaseMutation) (now : Time)
      → is_active t.state ≡ true
      → u ≡ stopped reason m now t
      → Move t u
  progress : (k : Text) (now : Time) → is_active t.state ≡ true → u ≡ progressed k now t → Move t u
  requeue :
      (k : Text) (now : Time) → t.state ≡ blocked → u ≡ requeued (resume_state t) k now t → Move t u
  release :
      (v : Verdict) (now : Time)
      → is_active t.state ≡ true
      → MayFall v.state t
      → u ≡ released v now t
      → Move t u

-- A row as `enqueue_task` inserts it.
pub record IsNew (t : Task) : Type 0 where
  pub state : t.state ≡ queued
  pub leased_by : t.leased_by ≡ none
  pub lease_token : t.lease_token ≡ none
  pub lease_expires_at : t.lease_expires_at ≡ none
  pub attempt_id : t.attempt_id ≡ none
  pub lease_generation : t.lease_generation ≡ 0
  pub attempt_count : t.attempt_count ≡ 0

-- A worker that `u` hands the task to held no active task.
abbrev pub IsExclusive : Task → Task → List Task → Type 0
IsExclusive t u ts =
    (w : Text)
    → is_text t.leased_by w ≡ false
    → is_text u.leased_by w ≡ true
    → any (holds_active w) ts ≡ false

-- The tables that moves of single rows and admissions of new ones lead to.
pub data Evolves (ss : List Task) : List Task → Type 0 where
  stays : Evolves ss ss
  moves :
      {ts : List Task} (k : Text) (t : Task) (f : Task → Task)
      → Evolves ss ts
      → find (has_task_id k) ts ≡ some t
      → Move t (f t)
      → IsExclusive t (f t) ts
      → Evolves ss (update (has_task_id k) f ts)
  admits :
      {ts : List Task} (t : Task)
      → Evolves ss ts
      → any (has_task_id t.task_id) ts ≡ false
      → IsNew t
      → Evolves ss (ts ++ t ∷ [])

pub Evolves-trans : {ss ts us : List Task} → Evolves ss ts → Evolves ts us → Evolves ss us
Evolves-trans a stays = a
Evolves-trans a (moves k t f b e m x) = moves k t f (Evolves-trans a b) e m x
Evolves-trans a (admits t b e n) = admits t (Evolves-trans a b) e n

-- The moves that one row goes through.
pub data Moves (t : Task) : Task → Type 0 where
  here : Moves t t
  next : {u v : Task} → Moves t u → Move u v → Moves t v

pub Move-task_id : {t u : Task} → Move t u → u.task_id ≡ t.task_id
Move-task_id (claim q r g now s f c e) = ground arith
Move-task_id (renew m at now a l e) = ground arith
Move-task_id (start m now s l e) = ground arith
Move-task_id (submit m sha now s n e) = ground arith
Move-task_id (finish m now s l b p e) = ground arith
Move-task_id (give_up s reason m now a f e) = ground arith
Move-task_id (stop reason m now a e) = ground arith
Move-task_id (progress k now a e) = ground arith
Move-task_id (requeue k now s e) = ground arith
Move-task_id (release v now a f e) = ground arith

-- No two rows have one identifier.
abbrev pub Distinct : List Task → Type 0
Distinct [] = Unit {0}
Distinct (t ∷ ts) = (any (has_task_id t.task_id) ts ≡ false) × Distinct ts

update-Distinct :
    (k : Text) (f : Task → Task) (ts : List Task) (t : Task)
    → find (has_task_id k) ts ≡ some t
    → (f t).task_id ≡ t.task_id
    → Distinct ts
    → Distinct (update (has_task_id k) f ts)
unfolding find update
update-Distinct k f [] t e i h = tt
update-Distinct k f (x ∷ ts) t e i h = ground (
  arith,
  update-Distinct k f ts t,
  any-update_other (has_task_id x.task_id) (has_task_id k) f ts t,
)

append-Distinct :
    (ts : List Task) (t : Task)
    → any (has_task_id t.task_id) ts ≡ false
    → Distinct ts
    → Distinct (ts ++ t ∷ [])
unfolding any
append-Distinct [] t e h = (refl, tt)
append-Distinct (x ∷ ts) t e h =
    ground (arith, append-Distinct ts t, any-append (has_task_id x.task_id) ts (t ∷ []))

pub Evolves-Distinct : {ss ts : List Task} → Evolves ss ts → Distinct ss → Distinct ts
Evolves-Distinct stays h = h
Evolves-Distinct (moves {ts} k t f a e m x) h =
    update-Distinct k f ts t e (Move-task_id m) (Evolves-Distinct a h)
Evolves-Distinct (admits {ts} t a e n) h = append-Distinct ts t e (Evolves-Distinct a h)

-- A predicate that moves keep and new rows satisfy holds of every row for ever.
pub Evolves-All {κ} :
    (P : Task → Type κ) {ss ts : List Task}
    → ((t u : Task) → Move t u → P t → P u)
    → ((t : Task) → IsNew t → P t)
    → Evolves ss ts
    → All P ss
    → All P ts
Evolves-All P keep new stays h = h
Evolves-All P keep new (moves {ts} k t f a e m x) h =
    All-update P (has_task_id k) f ts (Evolves-All P keep new a h)
      λ r er p. let same_row : t ≡ r = cc in keep r (f r) (subst (λ s. Move s (f s)) same_row m) p
Evolves-All P keep new (admits {ts} t a e n) h =
    All-append P ts (t ∷ []) (Evolves-All P keep new a h) (new t n, tt)

found_once :
    (j k : Text) (ts : List Task) (r u : Task)
    → j ≡ k
    → find (has_task_id j) ts ≡ some r
    → find (has_task_id k) ts ≡ some u
    → r ≡ u
found_once j k ts r u s e h = cc (ap (λ i. find (has_task_id i) ts) s)

find-update_key :
    (j k : Text) (f : Task → Task) (ts : List Task) (r : Task)
    → j ≡ k
    → find (has_task_id j) ts ≡ some r
    → (f r).task_id ≡ r.task_id
    → find (has_task_id k) (update (has_task_id j) f ts) ≡ some (f r)
find-update_key j k f ts r s e i =
    subst (λ n. find (has_task_id n) (update (has_task_id j) f ts) ≡ some (f r)) s
      (find-update_self (has_task_id j) f ts r e (ground (arith, find-holds (has_task_id j) ts r)))

not_has_key :
    (j k : Text) (ts : List Task) (r : Task)
    → j ≢ k
    → find (has_task_id j) ts ≡ some r
    → has_task_id k r ≡ false
not_has_key j k ts r n e = ground (arith, find-holds (has_task_id j) ts r)

not_has_moved_key :
    (j k : Text) (f : Task → Task) (ts : List Task) (r : Task)
    → j ≢ k
    → find (has_task_id j) ts ≡ some r
    → (f r).task_id ≡ r.task_id
    → has_task_id k (f r) ≡ false
not_has_moved_key j k f ts r n e i = ground (arith, find-holds (has_task_id j) ts r)

-- A row that is there stays there, and makes only moves.
pub Evolves-Moves :
    {ss ts : List Task} (k : Text) (t : Task)
    → Evolves ss ts
    → find (has_task_id k) ss ≡ some t
    → (u : Task) × (find (has_task_id k) ts ≡ some u) × Moves t u
Evolves-Moves k t stays h = (t, h, here)
Evolves-Moves k t (admits {ts} new a e n) h =
    let (u, hu, ms) = Evolves-Moves k t a h in
    (u, find-append (has_task_id k) ts (new ∷ []) u hu, ms)
Evolves-Moves k t (moves {ts} j r f a e m x) h =
    let (u, hu, ms) = Evolves-Moves k t a h in
    elim (text_discrete j k) [
      | yes same_key ↦ (
        f r,
        find-update_key j k f ts r same_key e (Move-task_id m),
        next ms (subst (λ s. Move s (f r)) (found_once j k ts r u same_key e hu) m),
      )
      | no other_key ↦ (
        u,
        find-update_other (has_task_id k) (has_task_id j) f ts r e
              (not_has_key j k ts r other_key e)
              (not_has_moved_key j k f ts r other_key e (Move-task_id m))
            ∙ hu,
        ms,
      )
    ]
