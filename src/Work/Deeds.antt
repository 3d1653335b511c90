-- ===== src/Work/Deeds.antt =====
-- app/work.py: the calls of the orchestrator among those of the store.
use engineering_worker_pool.Base.{◌≡◌, inl, inr, List, [], ◌∷◌, some, Text, Time, arith, find, All}
use engineering_worker_pool.Store.Schema.{Task, Tables, Settings, completed}
use engineering_worker_pool.Store.Errors.{ok, Result-cases}
use engineering_worker_pool.Store.Queries.{find_task}
use engineering_worker_pool.Store.Admission.{TaskRequest}
use engineering_worker_pool.Store.Calls.{Call, step, run}
use engineering_worker_pool.Store.Moves.{Distinct}
use engineering_worker_pool.Store.Histories.Rows.{run_keeps_final}
use engineering_worker_pool.Work.{
  WorkRow, WorkView, EvidenceRequest, MergeRequest, clean_sha, create_work, has_work_id,
  check_evidence, record_evidence, record_merge_result, lower_of,
}
use engineering_worker_pool.Work.Runs.{
  IsGoverned, evidence-IsGoverned, merge-IsGoverned, create-IsGoverned, evidence_facts,
}

-- The calls of the orchestrator, and those of the store.
pub data Deed : Type 0 where
  creates : TaskRequest → Text → Deed
  proves : EvidenceRequest → Deed
  merges : MergeRequest → Deed
  calls : Call → Deed

unfoldable pub act : Settings → Time → Deed → Tables × List WorkRow → Tables × List WorkRow
act c now (creates q policy) (d, ws) = let r = create_work c q policy now d ws in (r.1, r.2)
act c now (proves q) (d, ws) = (d, (record_evidence q now d ws).1)
act c now (merges q) (d, ws) = (d, (record_merge_result q now d ws).1)
act c now (calls call) (d, ws) = (step c now call d, ws)

unfoldable pub perform :
    Settings → List (Time × Deed) → Tables × List WorkRow → Tables × List WorkRow
unfolding act
perform c [] s = s
perform c ((now, deed) ∷ rest) s = perform c rest (act c now deed s)

act-IsGoverned :
    (c : Settings) (now : Time) (deed : Deed) (d : Tables) (ws : List WorkRow)
    → All IsGoverned ws
    → All IsGoverned (act c now deed (d, ws)).1
unfolding act
act-IsGoverned c now (creates q policy) d ws h = create-IsGoverned c q policy now d ws h
act-IsGoverned c now (proves q) d ws h = evidence-IsGoverned q now d ws h
act-IsGoverned c now (merges q) d ws h = merge-IsGoverned q now d ws h
act-IsGoverned c now (calls call) d ws h = h

-- After every sequence of calls each run of work is governed: it is decided only once it is
-- verified, with all three controls, at a well-formed commit that is the expected head; a merged
-- one names a well-formed merge commit, and exactly the merged ones have an instant of the merge.
pub perform-IsGoverned :
    (c : Settings) (deeds : List (Time × Deed)) (d : Tables) (ws : List WorkRow)
    → All IsGoverned ws
    → All IsGoverned (perform c deeds (d, ws)).1
unfolding perform
perform-IsGoverned c [] d ws h = h
perform-IsGoverned c ((now, deed) ∷ rest) d ws h =
    let s = act c now deed (d, ws) in
    perform-IsGoverned c rest s.0 s.1 (act-IsGoverned c now deed d ws h)

-- Evidence is accepted only for a completed task whose commit is the validated one, and whatever
-- the workers do afterwards, the task stays completed at that commit.
pub evidence_stands :
    (c : Settings) (q : EvidenceRequest) (now : Time) (d : Tables) (ws : List WorkRow)
    (v : WorkView) (history : List (Time × Call))
    → Distinct d.tasks
    → (record_evidence q now d ws).0 ≡ ok v
    → (r : WorkRow) × (t : Task) × (find (has_work_id q.work_id) ws ≡ some r)
      × (find_task r.task_id (run c history d) ≡ some t)
      × (t.state ≡ completed)
      × (lower_of t.produced_sha ≡ clean_sha q.validation_sha)
unfolding record_evidence
evidence_stands c q now d ws v history u h = elim (Result-cases (check_evidence q d ws)) [
  | inr (e, k) ↦ absurd (ground arith)
  | inl (row, k) ↦
      let facts = evidence_facts q d ws row k in
      (
        row,
        facts.task,
        facts.there,
        run_keeps_final c history d row.task_id facts.task u facts.bound
            (ground (arith, facts.finished)),
        facts.finished,
        ground (arith, facts.agrees),
      )
]
