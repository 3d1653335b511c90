-- ===== src/Work/Runs.antt =====
-- The life of a row of `work_runs` under the calls of `WorkOrchestrator`, interleaved with those of
-- the store.
use engineering_worker_pool.Base.{
  ◌≡◌, inl, inr, subst, true, false, List, [], ◌∷◌, some, Text, Time, arith, is_some, is_text, find,
  All, All-update, All-append, find-holds, Bool-cases, Option-cases,
}
use engineering_worker_pool.Store.Schema.{Task, Tables, Settings, completed}
use engineering_worker_pool.Store.Errors.{ok, Result-cases}
use engineering_worker_pool.Store.Sanitize.{is_sha40}
use engineering_worker_pool.Store.Queries.{find_task}
use engineering_worker_pool.Store.Admission.{TaskRequest, enqueue_task}
use engineering_worker_pool.Work.{
  WorkRow, merge_pending, merge_done, is_verified, has_merge_state, is_commit, new_work, verified,
  decided, EvidenceRequest, MergeRequest, clean_sha, clean_commit, create_work, add_work,
  work_id_of, has_work_id, check_evidence, record_evidence, check_merge, record_merge_result,
  is_merge_replay, is_pending_work, lower_of,
}

-- What every row of `work_runs` satisfies.
pub record IsGoverned (r : WorkRow) : Type 0 where
  pub pending_clean : is_verified r ≡ false → r.merge_state ≡ merge_pending
  pub verified_decided : is_verified r ≡ true → has_merge_state merge_pending r ≡ false
  pub controls :
      is_verified r ≡ true
      → (r.independent_readback ≡ true) × (r.positive_control ≡ true) × (r.negative_control ≡ true)
  pub head : r.expected_head_sha ≡ r.validation_sha
  pub validated : is_verified r ≡ true → is_commit r.validation_sha ≡ true
  pub merged_commit : r.merge_state ≡ merge_done → is_commit r.merge_commit_sha ≡ true
  pub merged_once : is_some r.merged_at ≡ has_merge_state merge_done r

new_work-IsGoverned : (t : Task) (k : Text) (now : Time) → IsGoverned (new_work t k now)
new_work-IsGoverned t k now = ground arith

verified-IsGoverned :
    (q : EvidenceRequest) (now : Time) (r : WorkRow)
    → is_sha40 (clean_sha q.validation_sha) ≡ true
    → is_verified r ≡ false
    → IsGoverned r
    → IsGoverned (verified q now r)
verified-IsGoverned q now r s v h = ground arith

-- What `record_merge_result` has checked of what it writes.
abbrev pub MayDecide : MergeRequest → Type 0
MayDecide q = q.merged ≡ true → is_commit (clean_commit q.merge_commit_sha) ≡ true

decided-IsGoverned :
    (q : MergeRequest) (now : Time) (r : WorkRow)
    → MayDecide q
    → is_verified r ≡ true
    → IsGoverned r
    → IsGoverned (decided q now r)
decided-IsGoverned q now r m v h = elim (Bool-cases q.merged) [
  | inl e ↦ ground arith
  | inr e ↦ ground arith
]

-- What `check_evidence` lets through.
pub record EvidenceFacts (q : EvidenceRequest) (d : Tables) (ws : List WorkRow) (row : WorkRow)
    : Type 0 where
  pub sha : is_sha40 (clean_sha q.validation_sha) ≡ true
  pub there : find (has_work_id q.work_id) ws ≡ some row
  pub task : Task
  pub bound : find_task row.task_id d ≡ some task
  pub finished : task.state ≡ completed
  pub agrees : clean_sha q.validation_sha ≡ lower_of task.produced_sha
  pub replay :
      is_verified row ≡ true → is_text row.validation_sha (clean_sha q.validation_sha) ≡ true

pub evidence_facts :
    (q : EvidenceRequest) (d : Tables) (ws : List WorkRow) (row : WorkRow)
    → check_evidence q d ws ≡ ok row
    → EvidenceFacts q d ws row
unfolding check_evidence
evidence_facts q d ws row h = elim (Option-cases (find_task row.task_id d)) [
  | inl n ↦ absurd (ground arith)
  | inr (t, f) ↦ record {
    sha = ground arith;
    there = ground arith;
    task = t;
    bound = f;
    finished = ground arith;
    agrees = ground arith;
    replay = ground arith;
  }
]

pub record MergeFacts (q : MergeRequest) (d : Tables) (ws : List WorkRow) (row : WorkRow)
    : Type 0 where
  pub there : find (has_work_id q.work_id) ws ≡ some row
  pub proved : is_verified row ≡ true
  pub head : row.expected_head_sha ≡ some (clean_sha q.expected_head_sha)
  pub commit : MayDecide q
  pub replay : row.merge_state ≡ merge_done → q.merged ≡ true

pub merge_facts :
    (q : MergeRequest) (d : Tables) (ws : List WorkRow) (row : WorkRow)
    → check_merge q d ws ≡ ok row
    → MergeFacts q d ws row
unfolding check_merge
merge_facts q d ws row h = ground arith

pub evidence-IsGoverned :
    (q : EvidenceRequest) (now : Time) (d : Tables) (ws : List WorkRow)
    → All IsGoverned ws
    → All IsGoverned (record_evidence q now d ws).1
unfolding record_evidence
evidence-IsGoverned q now d ws h = elim (Result-cases (check_evidence q d ws)) [
  | inr (e, k) ↦ ground arith
  | inl (row, k) ↦ elim (Bool-cases (is_verified row)) [
    | inl v ↦ ground arith
    | inr v ↦
        let written =
          All-update IsGoverned (is_pending_work q.work_id) (verified q now) ws h λ r er p.
            let pending = find-holds (is_pending_work q.work_id) ws r er in
            verified-IsGoverned q now r (evidence_facts q d ws row k).sha (ground arith) p in
        ground arith
  ]
]

pub merge-IsGoverned :
    (q : MergeRequest) (now : Time) (d : Tables) (ws : List WorkRow)
    → All IsGoverned ws
    → All IsGoverned (record_merge_result q now d ws).1
unfolding record_merge_result
merge-IsGoverned q now d ws h = elim (Result-cases (check_merge q d ws)) [
  | inr (e, k) ↦ ground arith
  | inl (row, k) ↦ elim (Bool-cases (is_merge_replay q row)) [
    | inl v ↦ ground arith
    | inr v ↦
        let facts = merge_facts q d ws row k in
        let written = All-update IsGoverned (has_work_id q.work_id) (decided q now) ws h λ r er p.
          let same_row : row ≡ r = ground (arith, facts.there) in
          decided-IsGoverned q now r facts.commit
            (subst (λ x. is_verified x ≡ true) same_row facts.proved) p in
        ground arith
  ]
]

pub create-IsGoverned :
    (c : Settings) (q : TaskRequest) (policy : Text) (now : Time) (d : Tables) (ws : List WorkRow)
    → All IsGoverned ws
    → All IsGoverned (create_work c q policy now d ws).2
unfolding create_work add_work
create-IsGoverned c q policy now d ws h =
    let r = enqueue_task c q now d in
    elim (Result-cases r.0) [
      | inr (e, k) ↦ ground arith
      | inl (t, k) ↦
          let added =
            All-append IsGoverned ws (new_work t.0 q.correlation_id now ∷ []) h
              (new_work-IsGoverned t.0 q.correlation_id now, tt) in
          elim (Option-cases (find (has_work_id (work_id_of t.0)) ws)) [
            | inl n ↦ ground arith
            | inr (w, f) ↦ ground arith
          ]
    ]
