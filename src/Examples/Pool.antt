-- ===== src/Examples/Pool.antt =====
-- The small pool again: a repeated enqueue, an effect that is not resolved, a failure, a worker that is
-- available, and a lease that ends on a whole second.
use engineering_worker_pool.Base.{
  ◌≡◌, ◌+◌, refl, true, false, [], ◌∷◌, none, some, codes, seconds, find, update, count, select,
  any, bit, length, text_discrete, strip, lstrip, lower, is_space, ℕ, Text, ◌<◌, arith, not, iso_le,
}
use engineering_worker_pool.Store.Schema.{
  Task, Tables, Checkpoint, builder, queued, failed, pending,
}
use engineering_worker_pool.Store.Errors.{ok}
use engineering_worker_pool.Store.Queries.{
  LeaseMutation, find_task, has_unresolved_effect, lease, require_resolved_effects, end_attempt,
  is_state, ensure_repository_lane,
}
use engineering_worker_pool.Store.Sanitize.{
  sanitize, substitute, match_secret, match_secret_of, match_value, match_bearer, match_word,
  skip_while, skip_some,
}
use engineering_worker_pool.Store.Lifecycle.{
  fail_task, fail_task_tx, quarantine_exhausted, state_after_failure, failure_reason, is_exhausted,
  given_up,
}
use engineering_worker_pool.Store.Admission.{
  TaskRequest, enqueue_task, admit, enqueue_tx, enqueue_found, identity, branch_of, new_task,
  Admitted,
}
use engineering_worker_pool.Store.Calls.{step, fails}
use engineering_worker_pool.Store.Views.{why_idle, active_task, open_tasks, order_by, insert_by}
use engineering_worker_pool.Store.Operations.Replays.{enqueue_task-again}
use engineering_worker_pool.Store.Operations.Effects.{unresolved_holds, failure_decided}
use engineering_worker_pool.Store.Claim.{ready, text_lt}
use engineering_worker_pool.Store.Operations.Expiry.{iso_text, iso_le-texts}
use engineering_worker_pool.Store.Operations.Availability.{why_idle-ready}
use engineering_worker_pool.Examples.{
  settings, held, now, task_name, tables_of, one_task, worker_of,
}

abbrev held_lease : LeaseMutation
held_lease = record {
  task_id = task_name;
  worker_id = codes "b";
  lease_token = codes "tok";
  correlation_id = codes "c";
  lease_generation = some 2;
  attempt_id = some (codes "att2");
}

abbrev checkpoint : Checkpoint
checkpoint = record {
  task_id = task_name;
  lease_generation = 2;
  attempt_id = codes "att2";
  content = record {
    checkpoint_id = codes "k1";
    sequence = 1;
    stage = codes "push";
    artifact_kind = none;
    artifact_ref = none;
    artifact_sha256 = none;
    next_action = codes "open";
    effect_id = some (codes "e1");
    effect_state = pending;
    effect_result_ref = none;
  };
  content_digest = codes "k1";
  correlation_id = codes "c";
  created_at = 0;
}

abbrev fenced : Task
fenced = record held { fencing_required = true }

abbrev pending_tables : Tables
pending_tables = record (tables_of (fenced ∷ [])) { checkpoints = checkpoint ∷ [] }

unresolved_holds_example :
    step settings now (fails held_lease (codes "r")) pending_tables ≡ pending_tables
unfolding find any has_unresolved_effect text_discrete
unresolved_holds_example =
    unresolved_holds settings now pending_tables (fails held_lease (codes "r")) task_name fenced
      refl refl refl refl

why_idle-ready_example :
    ready settings (codes "b") builder now one_task ≡ ok (worker_of (codes "b") builder)
unfolding find text_discrete why_idle active_task open_tasks order_by insert_by count select
why_idle-ready_example =
    why_idle-ready settings now one_task (worker_of (codes "b") builder) refl refl refl refl

-- A text of one place for each second.
abbrev to_second : ℕ → Text
to_second n = n ∷ []

to_second_ordered : (a b : ℕ) → a < b → text_lt (to_second a) (to_second b) ≡ true
unfolding text_lt
to_second_ordered a b h = ground arith

iso_le-texts_example :
    iso_le 1000000 1000005 ≡ not (text_lt (iso_text to_second 1000005) (iso_text to_second 1000000))
iso_le-texts_example = iso_le-texts to_second (λ a b. refl) to_second_ordered 1000000 1000005

abbrev failing : Tables
failing = tables_of (held ∷ [])

abbrev failed_row : Task
failed_row = given_up queued (codes "r") held_lease now held

failing_runs :
    fail_task held_lease (codes "r") now failing ≡ (ok failed_row, tables_of (failed_row ∷ []))
unfolding fail_task fail_task_tx lease require_resolved_effects end_attempt quarantine_exhausted
    state_after_failure failure_reason sanitize substitute match_secret match_secret_of match_value
    match_bearer match_word skip_while skip_some find any update text_discrete strip lstrip is_space
failing_runs = refl

failure_decided_example :
    (row : Task) × (find_task task_name failing ≡ some row)
    × (failed_row.leased_by ≡ none)
    × (is_state failed failed_row.state ≡ is_exhausted row)
    × (length (tables_of (failed_row ∷ [])).quarantine
        ≡ length failing.quarantine + bit (is_exhausted row))
failure_decided_example =
    failure_decided held_lease (codes "r") now failing failed_row (tables_of (failed_row ∷ []))
      failing_runs

abbrev order : TaskRequest
order = record {
  repository = codes "o/r";
  issue_number = 7;
  request_id = codes "q";
  correlation_id = codes "c";
  priority = 1;
  base_sha = none;
  max_attempts = none;
  target_branch = none;
  fencing_required = false;
}

abbrev admitted : Admitted
admitted = record {
  key = identity settings.encoding (codes "o/r") 7 (codes "q");
  branch = branch_of settings.encoding 7 (codes "q");
  attempts = 3;
}

abbrev ordered : Tables
ordered = tables_of (new_task settings order admitted now ∷ [])

order_runs :
    enqueue_task settings order now (tables_of [])
    ≡ (ok (new_task settings order admitted now, true), ordered)
unfolding enqueue_task admit enqueue_tx enqueue_found ensure_repository_lane find any text_discrete
    strip lstrip is_space lower branch_of identity
order_runs = refl

enqueue_task-again_example :
    enqueue_task settings order (seconds 500) ordered
    ≡ (ok (new_task settings order admitted now, false), ordered)
enqueue_task-again_example =
    enqueue_task-again settings order now (seconds 500) (tables_of [])
      (new_task settings order admitted now) true ordered order_runs
