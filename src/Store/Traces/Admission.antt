-- ===== src/Store/Traces/Admission.antt =====
-- `enqueue_task` admits a task; the calls about workers, lanes and the cutover leave the tasks alone.
use engineering_worker_pool.Base.{
  ℕ, ◌≡◌, refl, ◌∙◌, subst, inl, inr, Bool, false, not, ◌&&◌, Option, none, some, Text, Time, arith,
  find, any, select, List, [], ◌∷◌, ◌++◌, strip,
}
use engineering_worker_pool.Store.Schema.{Task, Tables, Settings}
use engineering_worker_pool.Store.Errors.{
  Result, ok, err, ◌>>=◌, >>=-eq-ok, commit_cases, Result-cases, raise_if-eq-ok,
  cutover_not_enabled,
}
use engineering_worker_pool.Store.Queries.{has_task_id, ensure_repository_lane, get_worker}
use engineering_worker_pool.Store.Recovery.{is_of_worker}
use engineering_worker_pool.Store.Admission.{
  Registration, Heartbeat, TaskRequest, Admitted, register_worker_tx, register_worker,
  configure_repository_tx, configure_repository, validate_repository, get_repository,
  replace_affinities_tx, replace_worker_affinities, add_affinities, heartbeat_tx, heartbeat_worker,
  enable_fenced_cutover, admit, enqueue_tx, enqueue_found, enqueue_task, enqueue_result,
  validate_all, new_task, has_key, task_id_of,
}
use engineering_worker_pool.Store.Moves.{IsNew, Evolves, stays, admits}

pub ensure_repository_lane-tasks :
    (r : Text) (now : Time) (d : Tables) → (ensure_repository_lane r now d).tasks ≡ d.tasks
unfolding ensure_repository_lane
ensure_repository_lane-tasks r now d = ground arith

new_task-IsNew :
    (c : Settings) (q : TaskRequest) (a : Admitted) (now : Time) → IsNew (new_task c q a now)
new_task-IsNew c q a now = ground arith

enqueue_found-Evolves :
    (c : Settings) (q : TaskRequest) (a : Admitted) (now : Time) (d : Tables) (o : Option Task)
    (row : Task) (created : Bool) (after : Tables)
    → enqueue_found c q a now d o ≡ ok (row, created, after)
    → Evolves d.tasks after.tasks
unfolding enqueue_found
enqueue_found-Evolves c q a now d (some old) row created after h =
    let same_tables : after ≡ d = ground arith in rw same_tables stays
enqueue_found-Evolves c q a now d none row created after h =
    let fresh : any (has_task_id (task_id_of a.key)) d.tasks ≡ false = ground arith in
    let added : after.tasks ≡ d.tasks ++ new_task c q a now ∷ [] = ground arith in
    rw added (admits (new_task c q a now) stays fresh (new_task-IsNew c q a now))

enqueue_tx-Evolves :
    (c : Settings) (q : TaskRequest) (a : Admitted) (now : Time) (d : Tables) (row : Task)
    (created : Bool) (after : Tables)
    → enqueue_tx c q a now d ≡ ok (row, created, after)
    → Evolves d.tasks after.tasks
unfolding enqueue_tx
enqueue_tx-Evolves c q a now d row created after h =
    let (_, rest) =
      raise_if-eq-ok (q.fencing_required && not d.cutover.enabled) cutover_not_enabled _
        (row, created, after) h in
    subst (λ ts. Evolves ts after.tasks) (ensure_repository_lane-tasks (strip q.repository) now d)
      (enqueue_found-Evolves c q a now (ensure_repository_lane (strip q.repository) now d)
        (find (has_key a.key) d.tasks) row created after rest)

pub enqueue_result_cases {κ} :
    (P : Tables → Type κ) (d : Tables) (r : Result (Task × Bool × Tables))
    → P d
    → ((a : Task) (created : Bool) (after : Tables) → r ≡ ok (a, created, after) → P after)
    → P (enqueue_result d r).1
enqueue_result_cases P d (ok (a, created, after)) b k = k a created after refl
enqueue_result_cases P d (err e) b k = b

pub enqueue_task-Evolves :
    (c : Settings) (q : TaskRequest) (now : Time) (d : Tables)
    → Evolves d.tasks (enqueue_task c q now d).1.tasks
unfolding enqueue_task
enqueue_task-Evolves c q now d =
    enqueue_result_cases (λ a. Evolves d.tasks a.tasks) d
      (admit c q >>= λ a. enqueue_tx c q a now d) stays
      λ row created after h.
        let (a, _, rest) = >>=-eq-ok (admit c q) (λ a. enqueue_tx c q a now d) h in
        enqueue_tx-Evolves c q a now d row created after rest

-- The calls about workers and lanes do not touch the tasks.
pub register_worker-tasks :
    (q : Registration) (now : Time) (d : Tables) → (register_worker q now d).1.tasks ≡ d.tasks
unfolding register_worker
register_worker-tasks q now d =
    commit_cases (λ a. a.tasks ≡ d.tasks) d (register_worker_tx q now d) (get_worker q.worker_id)
      refl (λ after h. registered_tasks after h)
  where
    registered_tasks :
        (after : Tables) → register_worker_tx q now d ≡ ok after → after.tasks ≡ d.tasks
    registered_tasks after h = unfold register_worker_tx in ground arith

configure_repository_tx-tasks :
    (r : Text) (enabled : Bool) (n : ℕ) (now : Time) (d after : Tables)
    → configure_repository_tx r enabled n now d ≡ ok after
    → after.tasks ≡ d.tasks
unfolding configure_repository_tx
configure_repository_tx-tasks r enabled n now d after h =
    ground (arith, ensure_repository_lane-tasks r now d)

pub configure_repository-tasks :
    (r : Text) (enabled : Bool) (n : ℕ) (now : Time) (d : Tables)
    → (configure_repository r enabled n now d).1.tasks ≡ d.tasks
unfolding configure_repository
configure_repository-tasks r enabled n now d = elim (Result-cases (validate_repository r)) [
  | inl (k, e) ↦
      rw (e, configure_repository)
        (commit_cases (λ a. a.tasks ≡ d.tasks) d (configure_repository_tx k enabled n now d)
          (get_repository k) refl (configure_repository_tx-tasks k enabled n now d))
  | inr (k, e) ↦ rw (e, configure_repository) refl
]

add_affinities-tasks :
    (w : Text) (rs : List Text) (now : Time) (d : Tables)
    → (add_affinities w rs now d).tasks ≡ d.tasks
unfolding add_affinities
add_affinities-tasks w [] now d = refl
add_affinities-tasks w (r ∷ rs) now d =
    add_affinities-tasks w rs now _ ∙ ensure_repository_lane-tasks r now d

replace_affinities_tx-tasks :
    (w : Text) (rs ks : List Text) (now : Time) (d after : Tables)
    → replace_affinities_tx w rs now d ≡ ok (ks, after)
    → after.tasks ≡ d.tasks
unfolding replace_affinities_tx
replace_affinities_tx-tasks w rs ks now d after h =
    let (_, _, rest) = >>=-eq-ok (get_worker w d) _ h in
    let (normalized, _, tail) = >>=-eq-ok (validate_all rs) _ rest in
    ground (
      arith,
      add_affinities-tasks w normalized now
          (record d { affinities = select (λ a. not (is_of_worker w a)) d.affinities }),
    )

pub replace_worker_affinities-tasks :
    (w : Text) (rs : List Text) (now : Time) (d : Tables)
    → (replace_worker_affinities w rs now d).1.tasks ≡ d.tasks
unfolding replace_worker_affinities
replace_worker_affinities-tasks w rs now d =
    elim (Result-cases (replace_affinities_tx w rs now d)) [
      | inl (r, e) ↦
          rw (e, replace_worker_affinities) (replace_affinities_tx-tasks w rs r.0 now d r.1 e)
      | inr (k, e) ↦ rw (e, replace_worker_affinities) refl
    ]

heartbeat_tx-tasks :
    (q : Heartbeat) (now : Time) (d after : Tables)
    → heartbeat_tx q now d ≡ ok after
    → after.tasks ≡ d.tasks
unfolding heartbeat_tx
heartbeat_tx-tasks q now d after h = ground arith

pub heartbeat_worker-tasks :
    (q : Heartbeat) (now : Time) (d : Tables) → (heartbeat_worker q now d).1.tasks ≡ d.tasks
unfolding heartbeat_worker
heartbeat_worker-tasks q now d =
    commit_cases (λ a. a.tasks ≡ d.tasks) d (heartbeat_tx q now d) (get_worker q.worker_id) refl
      (heartbeat_tx-tasks q now d)

pub enable_fenced_cutover-tasks :
    (k : Text) (drained exclusive : Bool) (now : Time) (d : Tables)
    → (enable_fenced_cutover k drained exclusive now d).1.tasks ≡ d.tasks
unfolding enable_fenced_cutover
enable_fenced_cutover-tasks k drained exclusive now d = ground arith
