-- ===== src/Store/Operations/Replays.antt =====
-- app/store.py: a repeated call of `enqueue_task`.
use engineering_worker_pool.Base.{
  ◌≡◌, inl, inr, Bool, true, false, ◌∷◌, [], none, some, Text, Time, arith, find, find-append_none,
  same_refl, Option-cases, strip,
}
use engineering_worker_pool.Store.Schema.{Lane, Task, Tables, Settings}
use engineering_worker_pool.Store.Errors.{ok, Result-cases}
use engineering_worker_pool.Store.Queries.{ensure_repository_lane, find_lane, has_repository}
use engineering_worker_pool.Store.Admission.{
  TaskRequest, Admitted, admit, enqueue_found, enqueue_tx, enqueue_task, has_key, new_task,
}

abbrev fresh_lane : Text → Time → Lane
fresh_lane r now = record {
  repository = r;
  enabled = true;
  max_in_flight = 1;
  builder_claim_count = 0;
  validator_claim_count = 0;
  last_builder_claimed_at = none;
  last_validator_claimed_at = none;
  updated_at = now;
}

-- The lane is there afterwards, and the tasks and the cutover are as they were.
lane_ensured :
    (r : Text) (now : Time) (d : Tables)
    → (l : Lane) × (find_lane r (ensure_repository_lane r now d) ≡ some l)
      × ((ensure_repository_lane r now d).tasks ≡ d.tasks)
      × ((ensure_repository_lane r now d).cutover ≡ d.cutover)
unfolding ensure_repository_lane find
lane_ensured r now d = elim (Option-cases (find_lane r d)) [
  | inl n ↦
      let appended = find-append_none (has_repository r) d.lanes (fresh_lane r now ∷ []) n in
      (fresh_lane r now, ground (arith, same_refl r), ground arith, ground arith)
  | inr (l, f) ↦ (l, ground arith, ground arith, ground arith)
]

ensure_found :
    (r : Text) (later : Time) (d : Tables) (l : Lane)
    → find_lane r d ≡ some l
    → ensure_repository_lane r later d ≡ d
unfolding ensure_repository_lane
ensure_found r later d l f = ground arith

enqueue_tx-again :
    (c : Settings) (q : TaskRequest) (a : Admitted) (now later : Time) (d : Tables) (t : Task)
    (created : Bool) (after : Tables)
    → enqueue_tx c q a now d ≡ ok (t, created, after)
    → enqueue_tx c q a later after ≡ ok (t, false, after)
unfolding enqueue_tx enqueue_found find
enqueue_tx-again c q a now later d t created after h =
    let r = strip q.repository in
    let (l, f, ts, k) = lane_ensured r now d in
    elim (Option-cases (find (has_key a.key) d.tasks)) [
      | inl n ↦
          let there = find-append_none (has_key a.key) d.tasks (new_task c q a now ∷ []) n in
          let still : ensure_repository_lane r later after ≡ after =
            ensure_found r later after l (ground arith) in
          let row : t ≡ new_task c q a now = ground arith in
          let found : find (has_key a.key) after.tasks ≡ some t = ground (arith, same_refl a.key) in
          rw (still, found) (ground (arith, same_refl a.branch))
      | inr (row, g) ↦
          let still : ensure_repository_lane r later after ≡ after =
            ensure_found r later after l (ground arith) in
          let found : find (has_key a.key) after.tasks ≡ some t = ground arith in
          rw (still, found) (ground arith)
    ]

-- A call of `enqueue_task` that succeeded gives the same task again when it is repeated on the
-- tables it left, at whatever instant, says that it is not new, and changes no table.
pub enqueue_task-again :
    (c : Settings) (q : TaskRequest) (now later : Time) (d : Tables) (t : Task) (created : Bool)
    (after : Tables)
    → enqueue_task c q now d ≡ (ok (t, created), after)
    → enqueue_task c q later after ≡ (ok (t, false), after)
unfolding enqueue_task
enqueue_task-again c q now later d t created after h = elim (Result-cases (admit c q)) [
  | inr (e, k) ↦ absurd (ground arith)
  | inl (a, k) ↦ elim (Result-cases (enqueue_tx c q a now d)) [
    | inr (e, r) ↦ absurd (ground arith)
    | inl ((u, b, x), r) ↦ let again = enqueue_tx-again c q a now later d u b x r in ground arith
  ]
]
