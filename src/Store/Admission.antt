-- ===== src/Store/Admission.antt =====
-- app/store.py: workers, lanes, affinities, the fenced cutover and `enqueue_task`.
use engineering_worker_pool.Base.{
  ℕ, Bool, true, false, not, ◌&&◌, ◌||◌, List, [], ◌∷◌, ◌++◌, Option, none, some, Text, Time, ℤ,
  pos, negsuc, below_one, same, nonempty, or_none, iff, ltb, if◌then◌else◌, find, any, update,
  select, take, codes, strip, lower, upper, has_char, starts_with, ends_with, decimal, coalesce,
}
use engineering_worker_pool.Store.Schema.{
  queued, Role, Profile, normal, estudo, Worker, Lane, Affinity, Task, Cutover, Tables, Encoding,
  Settings,
}
use engineering_worker_pool.Store.Errors.{
  Result, ok, err, ◌>>=◌, ◌>>◌, raise_if, or_raise, commit, row_not_found, cutover_not_enabled,
  target_branch_diverges, fencing_diverges, invalid_argument, constraint_failed,
}
use engineering_worker_pool.Store.Sanitize.{is_sha40, validate_target_branch}
use engineering_worker_pool.Store.Queries.{
  has_worker_id, has_repository, has_task_id, find_lane, get_worker, ensure_repository_lane,
}
use engineering_worker_pool.Store.Recovery.{is_of_worker}
use engineering_worker_pool.Store.Lifecycle.{or_default}
use engineering_worker_pool.Store.Claim.{parse_role, text_lt}

-- `profile.upper()`, if it is in `PROFILES`.
unfoldable pub parse_profile : Text → Option Profile
unfolding upper
parse_profile profile =
    if same (upper profile) (codes "NORMAL")
    then some normal
    else if same (upper profile) (codes "ESTUDO")
    then some estudo
    else none

pub record Registration : Type 0 where
  pub worker_id : Text
  pub host : Text
  pub role : Text
  pub correlation_id : Text
  pub profile : Text
  pub capacity_score : ℕ
  pub controller_version : Option Text
  pub rules_sha : Option Text
  pub gateway_ok : Bool
  pub state_validated : Bool
  pub worktree_root : Option Text

-- `(value or "").strip().lower() or None`
unfoldable pub normalize_sha : Option Text → Option Text
normalize_sha none = none
normalize_sha (some s) = or_none (lower (strip s))

abbrev pub is_bad_sha : Option Text → Bool
is_bad_sha none = false
is_bad_sha (some s) = not (is_sha40 s)

abbrev pub registered : Registration → Role → Profile → Option Text → Time → Worker
registered q role profile sha now = record {
  worker_id = strip q.worker_id;
  host = strip q.host;
  role = role;
  profile = profile;
  capacity_score = q.capacity_score;
  controller_version = q.controller_version;
  rules_sha = sha;
  gateway_ok = q.gateway_ok;
  state_validated = q.state_validated;
  worktree_root = q.worktree_root;
  registered_at = now;
  last_heartbeat_at = now;
  cpu_percent = none;
  memory_percent = none;
  correlation_id = strip q.correlation_id;
}

-- `ON CONFLICT(worker_id) DO UPDATE`: the first registration's instant and the readings stay.
abbrev pub reregistered : Worker → Worker → Worker
reregistered new old = record new {
  registered_at = old.registered_at;
  cpu_percent = old.cpu_percent;
  memory_percent = old.memory_percent;
}

unfoldable pub upsert_worker : Worker → List Worker → List Worker
upsert_worker w ws = elim (find (has_worker_id w.worker_id) ws) [
  | none ↦ ws ++ w ∷ []
  | some _ ↦ update (has_worker_id w.worker_id) (reregistered w) ws
]

unfoldable pub register_worker_tx : Registration → Time → Tables → Result Tables
unfolding parse_role parse_profile normalize_sha upsert_worker
register_worker_tx q now d = do
  raise_if
      (not (
        nonempty (strip q.worker_id)
        && nonempty (strip q.host)
        && nonempty (strip q.correlation_id)))
      invalid_argument
  role ← or_raise (parse_role q.role) invalid_argument
  profile ← or_raise (parse_profile q.profile) invalid_argument
  let sha = normalize_sha q.rules_sha
  raise_if (is_bad_sha sha) invalid_argument
  ok (record d { workers = upsert_worker (registered q role profile sha now) d.workers })

-- The row is read back under the identifier as it was given.
unfoldable pub register_worker : Registration → Time → Tables → Result Worker × Tables
unfolding register_worker_tx
register_worker q now d = commit d (register_worker_tx q now d) (get_worker q.worker_id)

-- `_validate_repository`
unfoldable pub validate_repository : Text → Result Text
unfolding strip starts_with ends_with
validate_repository repository =
    let normalized = strip repository in
    if not (has_char b'/' normalized)
      || starts_with (codes "/") normalized
      || ends_with (codes "/") normalized
    then err invalid_argument
    else ok normalized

abbrev pub configured : Bool → ℕ → Time → Lane → Lane
configured enabled max_in_flight now r = record r {
  enabled = enabled;
  max_in_flight = max_in_flight;
  updated_at = now;
}

unfoldable pub configure_repository_tx : Text → Bool → ℕ → Time → Tables → Result Tables
unfolding ensure_repository_lane
configure_repository_tx repository enabled max_in_flight now d = do
  raise_if (ltb max_in_flight 1 || ltb 100 max_in_flight) invalid_argument
  let base = ensure_repository_lane repository now d
  ok (record base {
    lanes = update (has_repository repository) (configured enabled max_in_flight now) base.lanes;
  })

abbrev pub get_lane : Text → Tables → Result Lane
get_lane repository d = or_raise (find_lane repository d) row_not_found

unfoldable pub get_repository : Text → Tables → Result Lane
unfolding validate_repository
get_repository repository d = do normalized ← validate_repository repository; get_lane normalized d

unfoldable pub configure_repository : Text → Bool → ℕ → Time → Tables → Result Lane × Tables
unfolding configure_repository_tx get_repository validate_repository
configure_repository repository enabled max_in_flight now d =
    elim (validate_repository repository) [
      | err e ↦ (err e, d)
      | ok normalized ↦
          commit d (configure_repository_tx normalized enabled max_in_flight now d)
            (get_repository normalized)
    ]

-- `sorted({…})`
unfoldable pub insert_sorted : Text → List Text → List Text
insert_sorted k [] = k ∷ []
insert_sorted k (l ∷ ls) =
    let rest = insert_sorted k ls in
    if text_lt l k then l ∷ rest else if same l k then l ∷ ls else k ∷ l ∷ ls

unfoldable pub validate_all : List Text → Result (List Text)
unfolding validate_repository insert_sorted
validate_all [] = ok []
validate_all (r ∷ rs) = do k ← validate_repository r; ks ← validate_all rs; ok (insert_sorted k ks)

unfoldable pub add_affinities : Text → List Text → Time → Tables → Tables
unfolding ensure_repository_lane
add_affinities worker [] now d = d
add_affinities worker (r ∷ rs) now d =
    let base = ensure_repository_lane r now d in
    add_affinities worker rs now (record base {
      affinities = base.affinities ++ record { worker_id = worker; repository = r } ∷ [];
    })

unfoldable pub replace_affinities_tx :
    Text → List Text → Time → Tables → Result (List Text × Tables)
unfolding validate_all add_affinities
replace_affinities_tx worker repositories now d = do
  get_worker worker d
  normalized ← validate_all repositories
  ok (
    normalized,
    add_affinities worker normalized now
        (record d { affinities = select (λ a. not (is_of_worker worker a)) d.affinities }),
  )

unfoldable pub replace_worker_affinities :
    Text → List Text → Time → Tables → Result (List Text) × Tables
unfolding replace_affinities_tx
replace_worker_affinities worker repositories now d =
    elim (replace_affinities_tx worker repositories now d) [
      | err e ↦ (err e, d)
      | ok (normalized, after) ↦ (ok normalized, after)
    ]

abbrev pub repositories_of : List Affinity → List Text
repositories_of [] = []
repositories_of (a ∷ rest) = a.repository ∷ repositories_of rest

unfoldable pub sort_texts : List Text → List Text
unfolding insert_sorted
sort_texts [] = []
sort_texts (k ∷ ks) = insert_sorted k (sort_texts ks)

-- `ORDER BY repository`; the primary key keeps the repositories of a worker distinct.
unfoldable pub worker_affinities : Text → Tables → Result (List Text)
unfolding sort_texts
worker_affinities worker d = do
  get_worker worker d
  ok (sort_texts (repositories_of (select (is_of_worker worker) d.affinities)))

pub record Heartbeat : Type 0 where
  pub worker_id : Text
  pub correlation_id : Text
  pub profile : Option Text
  pub cpu_percent : Option ℕ
  pub memory_percent : Option ℕ
  pub gateway_ok : Option Bool
  pub state_validated : Option Bool

-- `current if value is None else value`
abbrev pub or_current : Option Bool → Bool → Bool
or_current none b = b
or_current (some a) b = a

-- `(profile or current["profile"]).upper()`, if it is in `PROFILES`.
unfoldable pub next_profile : Option Text → Profile → Option Profile
next_profile none p = some p
next_profile (some []) p = some p
next_profile (some (c ∷ s)) p = parse_profile (c ∷ s)

abbrev pub beaten : Heartbeat → Profile → Worker → Time → Worker → Worker
beaten q profile current now w = record w {
  profile = profile;
  last_heartbeat_at = now;
  cpu_percent = q.cpu_percent;
  memory_percent = q.memory_percent;
  gateway_ok = or_current q.gateway_ok current.gateway_ok;
  state_validated = or_current q.state_validated current.state_validated;
  correlation_id = q.correlation_id;
}

unfoldable pub heartbeat_tx : Heartbeat → Time → Tables → Result Tables
unfolding next_profile
heartbeat_tx q now d = do
  current ← get_worker q.worker_id d
  profile ← or_raise (next_profile q.profile current.profile) invalid_argument
  ok (record d {
    workers = update (has_worker_id q.worker_id) (beaten q profile current now) d.workers;
  })

unfoldable pub heartbeat_worker : Heartbeat → Time → Tables → Result Worker × Tables
unfolding heartbeat_tx
heartbeat_worker q now d = commit d (heartbeat_tx q now d) (get_worker q.worker_id)

abbrev pub switched_on : Text → Time → Cutover → Cutover
switched_on correlation_id now k = record {
  enabled = true;
  enabled_at = coalesce k.enabled_at (some now);
  enabled_by_correlation_id = coalesce k.enabled_by_correlation_id (some correlation_id);
}

unfoldable pub enable_fenced_cutover : Text → Bool → Bool → Time → Tables → Result Cutover × Tables
enable_fenced_cutover correlation_id drained exclusive now d =
    commit d
      (raise_if (not (nonempty (strip correlation_id))) invalid_argument
        >> raise_if (not (drained && exclusive)) invalid_argument
        >> ok (record d { cutover = switched_on (strip correlation_id) now d.cutover }))
      (λ after. ok after.cutover)

pub record TaskRequest : Type 0 where
  pub repository : Text
  pub issue_number : ℕ
  pub request_id : Text
  pub correlation_id : Text
  pub priority : ℕ
  pub base_sha : Option Text
  pub max_attempts : Option ℤ
  pub target_branch : Option Text
  pub fencing_required : Bool

abbrev pub bar : Text
bar = b'|' ∷ []

-- `identity`, from the repository, the issue and the request alone.
unfoldable pub identity : Encoding → Text → ℕ → Text → Text
identity e repository issue request =
    e.sha256 (lower (strip repository) ++ bar ++ decimal issue ++ bar ++ strip request)

-- `task_id`
unfoldable pub task_id_of : Text → Text
task_id_of key = codes "cwp-" ++ take 24 key

-- `branch`
unfoldable pub branch_of : Encoding → ℕ → Text → Text
branch_of e issue request =
    codes "codex/issue-" ++ decimal issue ++ codes "-" ++ take 10 (e.sha256 request)

-- `workspace`
unfoldable pub workspace_of : Encoding → Text → Text → Text
workspace_of e repository task = codes "worker-" ++ take 16 (e.sha256 (repository ++ bar ++ task))

abbrev pub has_key : Text → Task → Bool
has_key key t = same t.idempotency_key key

-- `base_sha.lower() if base_sha else None`
abbrev pub lower_base : Option Text → Option Text
lower_base none = none
lower_base (some []) = none
lower_base (some (c ∷ s)) = some (lower (c ∷ s))

-- `base_sha and not SHA40.fullmatch(base_sha.lower())`
abbrev pub is_bad_base : Option Text → Bool
is_bad_base base = is_bad_sha (lower_base base)

abbrev pub nat_of : ℤ → ℕ
nat_of (pos n) = n
nat_of (negsuc n) = 0

abbrev pub diverges : Option Text → Text → Task → Bool
diverges none b t = false
diverges (some _) b t = not (same t.branch b)

-- The arguments as `enqueue_task` has checked and completed them.
pub record Admitted : Type 0 where
  pub key : Text
  pub branch : Text
  pub attempts : ℕ

abbrev pub new_task : Settings → TaskRequest → Admitted → Time → Task
new_task c q a now = record {
  task_id = task_id_of a.key;
  repository = strip q.repository;
  issue_number = q.issue_number;
  request_id = strip q.request_id;
  idempotency_key = a.key;
  state = queued;
  priority = q.priority;
  branch = a.branch;
  workspace_key = workspace_of c.encoding q.repository (task_id_of a.key);
  base_sha = lower_base q.base_sha;
  produced_sha = none;
  builder_worker_id = none;
  validator_worker_id = none;
  leased_by = none;
  lease_token = none;
  lease_expires_at = none;
  lease_generation = 0;
  attempt_id = none;
  fencing_required = q.fencing_required;
  attempt_count = 0;
  max_attempts = a.attempts;
  blocked_reason = none;
  last_error = none;
  correlation_id = strip q.correlation_id;
  created_at = now;
  updated_at = now;
  last_material_progress_at = now;
  completed_at = none;
}

abbrev pub target_or_default : Settings → TaskRequest → Result Text
target_or_default c q = elim q.target_branch [
  | none ↦ ok (branch_of c.encoding q.issue_number q.request_id)
  | some b ↦ validate_target_branch b
]

-- The checks above the transaction.
unfoldable pub admit : Settings → TaskRequest → Result Admitted
unfolding identity
admit c q = do
  raise_if
      (not (
        has_char b'/' q.repository
        && ltb 0 q.issue_number
        && nonempty (strip q.request_id)
        && nonempty (strip q.correlation_id)))
      invalid_argument
  raise_if (is_bad_base q.base_sha) invalid_argument
  branch ← target_or_default c q
  let attempts = or_default q.max_attempts c.default_max_attempts
  raise_if (below_one attempts) invalid_argument
  ok (record {
    key = identity c.encoding q.repository q.issue_number q.request_id;
    branch = branch;
    attempts = nat_of attempts;
  })

-- A replay gives the row that is there; a new identity is inserted, and an identifier that
-- another identity already has meets the primary key.
unfoldable pub enqueue_found :
    Settings → TaskRequest → Admitted → Time → Tables → Option Task → Result (Task × Bool × Tables)
enqueue_found c q a now d (some row) = do
  raise_if (diverges q.target_branch a.branch row) target_branch_diverges
  raise_if (not (iff row.fencing_required q.fencing_required)) fencing_diverges
  ok (row, false, d)
enqueue_found c q a now d none = do
  raise_if (any (has_task_id (task_id_of a.key)) d.tasks) constraint_failed
  ok (new_task c q a now, true, record d { tasks = d.tasks ++ new_task c q a now ∷ [] })

-- The transaction.
unfoldable pub enqueue_tx :
    Settings → TaskRequest → Admitted → Time → Tables → Result (Task × Bool × Tables)
enqueue_tx c q a now d = do
  raise_if (q.fencing_required && not d.cutover.enabled) cutover_not_enabled
  enqueue_found c q a now (ensure_repository_lane (strip q.repository) now d)
      (find (has_key a.key) d.tasks)

abbrev pub enqueue_result : Tables → Result (Task × Bool × Tables) → Result (Task × Bool) × Tables
enqueue_result d (ok (row, created, after)) = (ok (row, created), after)
enqueue_result d (err e) = (err e, d)

unfoldable pub enqueue_task : Settings → TaskRequest → Time → Tables → Result (Task × Bool) × Tables
enqueue_task c q now d = enqueue_result d (admit c q >>= λ a. enqueue_tx c q a now d)
