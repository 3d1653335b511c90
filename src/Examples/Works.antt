-- ===== src/Examples/Works.antt =====
-- A run of work on a completed task, and a controller, on which each theorem runs.
use engineering_worker_pool.Base.{
  ◌≡◌, refl, true, false, List, [], ◌∷◌, none, some, Time, codes, arith, All, find, update, ltb,
  any, text_discrete, strip, lstrip, lower, is_space,
}
use engineering_worker_pool.Store.Schema.{Task, Tables, completed}
use engineering_worker_pool.Store.Errors.{ok}
use engineering_worker_pool.Store.Queries.{find_task}
use engineering_worker_pool.Store.Calls.{recovers_leases, run}
use engineering_worker_pool.Work.{
  WorkRow, evidence_pending, merge_pending, WorkView, EvidenceRequest, MergeRequest, has_work_id,
  record_evidence, check_evidence, get_work, view, phase, verified, awaiting_merge, lower_of,
  clean_sha, public_task,
}
use engineering_worker_pool.Work.Runs.{IsGoverned}
use engineering_worker_pool.Work.Deeds.{
  Deed, proves, merges, calls, perform, perform-IsGoverned, evidence_stands,
}
use engineering_worker_pool.Reconciler.{Round, initial, run_rounds, run_rounds_counts}
use engineering_worker_pool.Examples.{settings, done, tables_of, task_name, now, commit_sha}

abbrev pending_row : WorkRow
pending_row = record {
  work_id = codes "work-k";
  task_id = task_name;
  evidence_state = evidence_pending;
  merge_state = merge_pending;
  validation_run_id = none;
  validation_sha = none;
  evidence_reference = none;
  independent_readback = false;
  positive_control = false;
  negative_control = false;
  expected_head_sha = none;
  merge_commit_sha = none;
  merge_reason = none;
  correlation_id = codes "c";
  created_at = 0;
  updated_at = 0;
  merged_at = none;
}

abbrev evidence : EvidenceRequest
evidence = record {
  work_id = codes "work-k";
  validation_run_id = codes "run";
  validation_sha = commit_sha;
  evidence_reference = codes "ref";
  independent_readback = true;
  positive_control = true;
  negative_control = true;
  correlation_id = codes "c";
}

abbrev merge : MergeRequest
merge = record {
  work_id = codes "work-k";
  expected_head_sha = commit_sha;
  merged = true;
  correlation_id = codes "c";
  merge_commit_sha = some commit_sha;
  reason = none;
}

abbrev deeds : List (Time × Deed)
deeds = (now, proves evidence) ∷ (now, merges merge) ∷ (now, calls recovers_leases) ∷ []

abbrev done_tables : Tables
done_tables = tables_of (done ∷ [])

pending_row-IsGoverned : IsGoverned pending_row
pending_row-IsGoverned = ground arith

perform-IsGoverned_example :
    All IsGoverned (perform settings deeds (done_tables, pending_row ∷ [])).1
perform-IsGoverned_example =
    perform-IsGoverned settings deeds done_tables (pending_row ∷ []) (pending_row-IsGoverned, tt)

abbrev evidence_view : WorkView
evidence_view = record {
  phase = awaiting_merge;
  row = verified evidence now pending_row;
  task = public_task done;
}

evidence_accepted :
    (record_evidence evidence now done_tables (pending_row ∷ [])).0 ≡ ok evidence_view
unfolding record_evidence check_evidence get_work view phase find update text_discrete strip lstrip
    lower is_space
evidence_accepted = refl

evidence_stands_example :
    (r : WorkRow) × (t : Task) × (find (has_work_id (codes "work-k")) (pending_row ∷ []) ≡ some r)
    × (find_task r.task_id (run settings ((now, recovers_leases) ∷ []) done_tables) ≡ some t)
    × (t.state ≡ completed)
    × (lower_of t.produced_sha ≡ clean_sha commit_sha)
unfolding any
evidence_stands_example =
    evidence_stands settings evidence now done_tables (pending_row ∷ []) evidence_view
      ((now, recovers_leases) ∷ []) (refl, tt) evidence_accepted

abbrev rounds : List Round
rounds =
    record { begun = 1; at = 2; ended = 3; raised = false }
    ∷ record { begun = 4; at = 5; ended = 6; raised = true }
    ∷ []

run_rounds_counts_example :
    ((run_rounds settings rounds (initial, done_tables)).0.consecutive_failures ≡ 1)
    × ((run_rounds settings rounds (initial, done_tables)).0.has_error
        ≡ ltb 0 (run_rounds settings rounds (initial, done_tables)).0.consecutive_failures)
run_rounds_counts_example = run_rounds_counts settings rounds initial done_tables refl
