-- ===== src/Store/Checkpoints.antt =====
-- app/store.py: `record_checkpoint`, `get_latest_checkpoint`, `get_recovery_context` and
-- `reconcile_effect`.
use engineering_worker_pool.Base.{
  ℕ, ◌+◌, Bool, true, false, not, ◌&&◌, ◌||◌, List, [], ◌∷◌, ◌++◌, Option, none, some, Text, Time,
  same, is_text, truthy, nonempty, is_none, is_some, iff, ltb, ◌==◌, if◌then◌else◌, find, any,
  select, strip, lower,
}
use engineering_worker_pool.Store.Schema.{
  blocked, EffectState, nothing, pending, confirmed, not_applied, unknown, Outcome, Task,
  CheckpointContent, Checkpoint, ReconciliationContent, Reconciliation, Tables, Encoding,
}
use engineering_worker_pool.Store.Errors.{
  Result, ok, err, ◌>>=◌, ◌>>◌, raise_if, or_raise, task_not_found, invalid_argument,
  checkpoint_needs_fence, checkpoint_diverges, effect_unknown, sequence_conflict,
  reconciliation_diverges, reconciliation_needs_fence, not_awaiting_reconciliation,
  effect_not_pending, generation_diverges,
}
use engineering_worker_pool.Store.Sanitize.{sanitize, is_safe_id, is_sha256}
use engineering_worker_pool.Store.Queries.{
  is_active, is_state, find_task, update_task, reconciles, is_reconciled, supersedes, LeaseMutation,
  lease,
}
use engineering_worker_pool.Store.Recovery.{effect_reconciliation_required}
use engineering_worker_pool.Store.Claim.{text_lt}

-- A worker's call of `record_checkpoint`; here the fence is not optional.
pub record CheckpointRequest : Type 0 where
  pub task_id : Text
  pub worker_id : Text
  pub lease_token : Text
  pub lease_generation : ℕ
  pub attempt_id : Text
  pub correlation_id : Text
  pub content : CheckpointContent

abbrev pub mutation_of : CheckpointRequest → LeaseMutation
mutation_of q = record {
  task_id = q.task_id;
  worker_id = q.worker_id;
  lease_token = q.lease_token;
  correlation_id = q.correlation_id;
  lease_generation = some q.lease_generation;
  attempt_id = some q.attempt_id;
}

abbrev pub is_unsafe : Option Text → Bool
is_unsafe none = false
is_unsafe (some k) = not (is_safe_id k)

abbrev pub is_nothing : EffectState → Bool
is_nothing nothing = true
is_nothing _ = false

-- `effect_state in ("confirmed", "not_applied")`
abbrev pub is_settled : EffectState → Bool
is_settled confirmed = true
is_settled not_applied = true
is_settled _ = false

-- `latest["effect_state"] in ("pending", "unknown")`
abbrev pub is_open_effect : EffectState → Bool
is_open_effect pending = true
is_open_effect unknown = true
is_open_effect _ = false

-- `sanitize(value.strip()) if value else None`
unfoldable pub clean_option : Option Text → Option Text
clean_option none = none
clean_option (some []) = none
clean_option (some (c ∷ s)) = some (sanitize (strip (c ∷ s)))

unfoldable pub clean_sha256 : Option Text → Result (Option Text)
clean_sha256 none = ok none
clean_sha256 (some s) =
    let digest = lower (strip s) in
    if is_sha256 digest then ok (some digest) else err invalid_argument

-- The checks and the normalisation above `semantic` in `record_checkpoint`.
unfoldable pub normalize_content : Text → CheckpointContent → Result CheckpointContent
unfolding clean_option clean_sha256
normalize_content correlation_id k = do
  raise_if (not (is_safe_id k.checkpoint_id)) invalid_argument
  raise_if (not (is_safe_id k.stage)) invalid_argument
  raise_if (is_unsafe k.artifact_kind) invalid_argument
  raise_if (is_unsafe k.effect_id) invalid_argument
  raise_if (not (iff (is_nothing k.effect_state) (is_none k.effect_id))) invalid_argument
  raise_if (k.sequence == 0) invalid_argument
  digest ← clean_sha256 k.artifact_sha256
  let next_action = sanitize (strip k.next_action)
  let effect_result_ref = clean_option k.effect_result_ref
  raise_if (not (nonempty next_action && nonempty (strip correlation_id))) invalid_argument
  raise_if (is_settled k.effect_state && not (truthy effect_result_ref)) invalid_argument
  raise_if (is_nothing k.effect_state && is_some effect_result_ref) invalid_argument
  ok (record k {
    stage = strip k.stage;
    artifact_ref = clean_option k.artifact_ref;
    artifact_sha256 = digest;
    next_action = next_action;
    effect_result_ref = effect_result_ref;
  })

-- `WHERE task_id=? AND checkpoint_id=?`
abbrev pub is_checkpoint : Text → Text → Checkpoint → Bool
is_checkpoint task id k = same k.task_id task && same k.checkpoint_id id

abbrev pub is_of_effect : Text → Text → Checkpoint → Bool
is_of_effect task effect k = same k.task_id task && is_text k.effect_id effect

abbrev pub is_unknown : EffectState → Bool
is_unknown unknown = true
is_unknown _ = false

-- The query `unresolved_unknown`.
abbrev pub is_open_unknown : Tables → Text → Text → Checkpoint → Bool
is_open_unknown d task effect k =
    is_of_effect task effect k && is_unknown k.effect_state && not (is_reconciled d k)

abbrev pub meets_unknown : Tables → Text → Option Text → Bool
meets_unknown d task none = false
meets_unknown d task (some effect) = any (is_open_unknown d task effect) d.checkpoints

abbrev pub is_of_generation : Text → ℕ → Checkpoint → Bool
is_of_generation task generation k = same k.task_id task && k.lease_generation == generation

-- `SELECT MAX(sequence) … or 0`
unfoldable pub last_sequence : Text → ℕ → List Checkpoint → ℕ
last_sequence task generation [] = 0
last_sequence task generation (k ∷ ks) =
    let rest = last_sequence task generation ks in
    if is_of_generation task generation k && ltb rest k.sequence then k.sequence else rest

abbrev pub new_checkpoint : Encoding → CheckpointRequest → CheckpointContent → Time → Checkpoint
new_checkpoint e q k now = record {
  task_id = q.task_id;
  lease_generation = q.lease_generation;
  attempt_id = q.attempt_id;
  content = k;
  content_digest = e.sha256 (e.checkpoint_json k);
  correlation_id = strip q.correlation_id;
  created_at = now;
}

abbrev pub progressed : Text → Time → Task → Task
progressed correlation_id now t = record t {
  last_material_progress_at = now;
  correlation_id = correlation_id;
  updated_at = now;
}

-- The statements behind a replay's check.
unfoldable pub insert_checkpoint :
    Encoding
    → CheckpointRequest
    → CheckpointContent
    → Time
    → Tables
    → Result (Checkpoint × Bool × Tables)
unfolding last_sequence
insert_checkpoint e q k now d = do
  raise_if (meets_unknown d q.task_id k.effect_id) effect_unknown
  raise_if (not (k.sequence == last_sequence q.task_id q.lease_generation d.checkpoints + 1))
      sequence_conflict
  ok (
    new_checkpoint e q k now,
    true,
    update_task q.task_id (progressed (strip q.correlation_id) now)
        (record d { checkpoints = d.checkpoints ++ new_checkpoint e q k now ∷ [] }),
  )

-- A replay must carry the same content; anything else is inserted.
unfoldable pub checkpoint_found :
    Encoding
    → CheckpointRequest
    → CheckpointContent
    → Time
    → Tables
    → Option Checkpoint
    → Result (Checkpoint × Bool × Tables)
checkpoint_found e q k now d none = insert_checkpoint e q k now d
checkpoint_found e q k now d (some old) =
    if same old.content_digest (e.sha256 (e.checkpoint_json k))
    then ok (old, false, d)
    else err checkpoint_diverges

-- The row, whether it is new, and the tables.
unfoldable pub record_checkpoint_tx :
    Encoding → CheckpointRequest → Time → Tables → Result (Checkpoint × Bool × Tables)
record_checkpoint_tx e q now d = do
  k ← normalize_content q.correlation_id q.content
  row ← lease (mutation_of q) is_active now d
  raise_if (not row.fencing_required) checkpoint_needs_fence
  checkpoint_found e q k now d (find (is_checkpoint q.task_id k.checkpoint_id) d.checkpoints)

-- A transaction that gives a value with the tables.
abbrev pub settle_value {ℓ} :
    {A : Type ℓ} → Tables → Result (A × Bool × Tables) → Result (A × Bool) × Tables
settle_value d (ok (a, created, after)) = (ok (a, created), after)
settle_value d (err e) = (err e, d)

unfoldable pub record_checkpoint :
    Encoding → CheckpointRequest → Time → Tables → Result (Checkpoint × Bool) × Tables
record_checkpoint e q now d = settle_value d (record_checkpoint_tx e q now d)

-- `ORDER BY lease_generation DESC, sequence DESC LIMIT 1`, among the rows that fit.
abbrev pub is_later : Checkpoint → Checkpoint → Bool
is_later a b =
    ltb b.lease_generation a.lease_generation
    || (a.lease_generation == b.lease_generation && ltb b.sequence a.sequence)

unfoldable pub latest : (Checkpoint → Bool) → List Checkpoint → Option Checkpoint
latest p [] = none
latest p (k ∷ ks) =
    let rest = latest p ks in
    if p k
    then elim rest [ none ↦ some k | some l ↦ if is_later l k then some l else some k ]
    else rest

-- A checkpoint beside the reconciliation that the `LEFT JOIN` finds.
pub record CheckpointView : Type 0 where
  pub checkpoint : Checkpoint
  pub reconciliation : Option Reconciliation

abbrev pub view_of : Tables → Checkpoint → CheckpointView
view_of d k = record { checkpoint = k; reconciliation = find (reconciles k) d.reconciliations }

abbrev pub is_of_task : Text → Checkpoint → Bool
is_of_task task k = same k.task_id task

unfoldable pub get_latest_checkpoint : Text → Tables → Result (Option CheckpointView)
unfolding latest
get_latest_checkpoint task d = do
  or_raise (find_task task d) task_not_found
  ok (elim (latest (is_of_task task) d.checkpoints) [ none ↦ none | some k ↦ some (view_of d k) ])

-- `ORDER BY checkpoint.effect_id`
abbrev pub effect_key : Checkpoint → Text
effect_key k = elim k.effect_id [ none ↦ [] | some e ↦ e ]

unfoldable pub insert_by_effect : Checkpoint → List Checkpoint → List Checkpoint
insert_by_effect k [] = k ∷ []
insert_by_effect k (l ∷ ls) =
    if text_lt (effect_key l) (effect_key k) then l ∷ insert_by_effect k ls else k ∷ l ∷ ls

unfoldable pub sort_by_effect : List Checkpoint → List Checkpoint
unfolding insert_by_effect
sort_by_effect [] = []
sort_by_effect (k ∷ ks) = insert_by_effect k (sort_by_effect ks)

-- The last checkpoint of each effect of the task.
abbrev pub is_last_of_effect : Tables → Text → Checkpoint → Bool
is_last_of_effect d task k =
    same k.task_id task && is_some k.effect_id && not (any (supersedes k) d.checkpoints)

abbrev pub views : Tables → List Checkpoint → List CheckpointView
views d [] = []
views d (k ∷ ks) = view_of d k ∷ views d ks

unfoldable pub get_recovery_context :
    Text → Tables → Result (Option CheckpointView × List CheckpointView)
unfolding get_latest_checkpoint sort_by_effect
get_recovery_context task d = do
  latest_checkpoint ← get_latest_checkpoint task d
  ok (latest_checkpoint, views d (sort_by_effect (select (is_last_of_effect d task) d.checkpoints)))

-- An independent reader's call of `reconcile_effect`.
pub record ReconcileRequest : Type 0 where
  pub task_id : Text
  pub effect_id : Text
  pub lease_generation : ℕ
  pub outcome : Outcome
  pub readback_ref : Text
  pub correlation_id : Text

abbrev pub is_reconciliation : ReconcileRequest → Reconciliation → Bool
is_reconciliation q r =
    same r.task_id q.task_id
    && same r.effect_id q.effect_id
    && r.lease_generation == q.lease_generation

abbrev pub new_reconciliation :
    Encoding → ReconcileRequest → ReconciliationContent → Time → Reconciliation
new_reconciliation e q k now = record {
  task_id = q.task_id;
  content = k;
  content_digest = e.sha256 (e.reconciliation_json k);
  correlation_id = strip q.correlation_id;
  created_at = now;
}

unfoldable pub insert_reconciliation :
    Encoding
    → ReconcileRequest
    → ReconciliationContent
    → Task
    → Time
    → Tables
    → Result (Reconciliation × Bool × Tables)
unfolding latest
insert_reconciliation e q k row now d = do
  raise_if (not row.fencing_required) reconciliation_needs_fence
  raise_if
      (not
        (is_state blocked row.state && is_text row.blocked_reason effect_reconciliation_required))
      not_awaiting_reconciliation
  last ← or_raise (latest (is_of_effect q.task_id q.effect_id) d.checkpoints) effect_not_pending
  raise_if (not (is_open_effect last.effect_state)) effect_not_pending
  raise_if (not (last.lease_generation == q.lease_generation)) generation_diverges
  ok (
    new_reconciliation e q k now,
    true,
    record d { reconciliations = d.reconciliations ++ new_reconciliation e q k now ∷ [] },
  )

unfoldable pub reconciliation_found :
    Encoding
    → ReconcileRequest
    → ReconciliationContent
    → Task
    → Time
    → Tables
    → Option Reconciliation
    → Result (Reconciliation × Bool × Tables)
reconciliation_found e q k row now d none = insert_reconciliation e q k row now d
reconciliation_found e q k row now d (some old) =
    if same old.content_digest (e.sha256 (e.reconciliation_json k))
    then ok (old, false, d)
    else err reconciliation_diverges

-- `semantic` in `reconcile_effect`.
abbrev pub reconciliation_of : ReconcileRequest → ReconciliationContent
reconciliation_of q = record {
  effect_id = q.effect_id;
  lease_generation = q.lease_generation;
  outcome = q.outcome;
  readback_ref = sanitize (strip q.readback_ref);
}

unfoldable pub reconcile_effect_tx :
    Encoding → ReconcileRequest → Time → Tables → Result (Reconciliation × Bool × Tables)
reconcile_effect_tx e q now d = do
  raise_if (not (is_safe_id q.effect_id)) invalid_argument
  raise_if (q.lease_generation == 0) invalid_argument
  raise_if (not (nonempty (sanitize (strip q.readback_ref)) && nonempty (strip q.correlation_id)))
      invalid_argument
  row ← or_raise (find_task q.task_id d) task_not_found
  reconciliation_found e q (reconciliation_of q) row now d
      (find (is_reconciliation q) d.reconciliations)

unfoldable pub reconcile_effect :
    Encoding → ReconcileRequest → Time → Tables → Result (Reconciliation × Bool) × Tables
reconcile_effect e q now d = settle_value d (reconcile_effect_tx e q now d)
