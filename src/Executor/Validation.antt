-- ===== src/Executor/Validation.antt =====
-- The work of a validator, the claim before the work, and the whole run, stage by stage.
use engineering_worker_pool.Base.{
  ◌≡◌, refl, inl, inr, Bool, true, Option, none, some, Text, arith, is_some, Bool-cases,
}
use engineering_worker_pool.Store.Schema.{Role, builder, validator}
use engineering_worker_pool.Executor.Run.{
  ◌>>=◌, Failure, Artifact, validates, verifies, records, completes,
}
use engineering_worker_pool.Executor.Manifest.{Manifest, Descriptor}
use engineering_worker_pool.Executor.Recovery.{CheckpointInfo}
use engineering_worker_pool.Executor.Calls.{TaskInfo, Fence, Setup, Replies}
use engineering_worker_pool.Executor.Work.{
  validator_artifact, record_validated, validate_work, work, report_failure, is_ambiguous,
  validator_entry,
}
use engineering_worker_pool.Executor.Run.{fails}
use engineering_worker_pool.Executor.Work.{reported_code}
use engineering_worker_pool.Executor.Protocol.{
  Stage, held, validated, recorded_check, checked, checked_valid, handed_in, given_up, next_stage,
}
use engineering_worker_pool.Executor.Rules.{
  need-IsQuiet, need_some-IsQuiet, read-IsQuiet, Ends, Ends-bind, Ends-attempt, Ends-after,
  Ends-ask, Ends-returns, Ends-raises, Ends-report, Ends-last,
}
use engineering_worker_pool.Executor.Quiet.{
  artifact_from_checkpoint-IsQuiet, check_validated-IsQuiet,
}
use engineering_worker_pool.Executor.Conformance.{
  IsReportable, same_artifact_refl, effect_of, build_work-Ends,
}

-- Where the run stands before and after the validation, by the artifact that it has read back.
abbrev validator_stage : Option Artifact → Stage
validator_stage none = held
validator_stage (some a) = checked a

abbrev valid_stage : Option Artifact → Stage
valid_stage none = validated
valid_stage (some a) = checked_valid a

-- Any failure, in any stage.
abbrev pub IsAny : Failure → Stage → Type 0
IsAny e t = Unit {0}

module _ (s : Setup) (m : Manifest) (fenced : Bool) where
  abbrev effects : Text → Text
  effects = effect_of s m fenced

  validator_artifact-Ends :
      (r : Replies) (fence : Option Fence) (latest : Option CheckpointInfo)
      → Ends fenced effects
          (validator_artifact r fence latest)
          held
          (λ a t. (t ≡ validator_stage a) × (is_some a ≡ is_some fence))
          IsReportable
  unfolding validator_artifact next_stage
  validator_artifact-Ends r none latest = Ends-returns fenced effects _ _ _ _ (refl, refl)
  validator_artifact-Ends r (some f) none = Ends-raises fenced effects _ _ _ _ λ n. refl
  validator_artifact-Ends r (some f) (some c) =
      Ends-after fenced effects _ _ held _ IsReportable (need-IsQuiet _ _) (λ e n. refl)
        λ u.
          Ends-after fenced effects _ _ held _ IsReportable (artifact_from_checkpoint-IsQuiet c)
            (λ e n. refl)
            λ a.
              Ends-ask fenced effects (verifies a) r.verify _ held (checked a) _ IsReportable refl
                (λ e n. refl) λ v. Ends-returns fenced effects _ _ _ _ (refl, refl)

  record_validated-Ends :
      (r : Replies) (fence : Option Fence) (a : Option Artifact)
      → is_some a ≡ is_some fence
      → is_some fence ≡ fenced
      → Ends fenced effects
          (record_validated s r fence a)
          (valid_stage a)
          (λ u t. next_stage fenced effects t completes ≡ some handed_in)
          IsReportable
  unfolding record_validated next_stage Ends
  record_validated-Ends r none none h f = ground arith
  record_validated-Ends r none (some a) h f = absurd (cc)
  record_validated-Ends r (some f) none h g = absurd (cc)
  record_validated-Ends r (some f) (some a) h g =
      Ends-last fenced effects (records (validator_entry s f a)) r.record_result (checked_valid a)
        recorded_check _ IsReportable (ground (arith, same_artifact_refl a)) (λ e n. refl) λ u. refl

  validate_work-Ends :
      (r : Replies) (d : Descriptor) (fence : Option Fence) (latest : Option CheckpointInfo)
      (t : TaskInfo)
      → is_some fence ≡ fenced
      → Ends fenced effects
          (validate_work s r m d fence latest t)
          held
          (λ b u. u ≡ handed_in)
          IsReportable
  unfolding validate_work next_stage
  validate_work-Ends r d fence latest t f =
      Ends-after fenced effects _ _ held _ IsReportable (need_some-IsQuiet t.produced_sha _)
        (λ e n. refl)
        λ produced.
          Ends-after fenced effects _ _ held _ IsReportable (need-IsQuiet _ _) (λ e n. refl)
            λ u.
              Ends-after fenced effects _ _ held _ IsReportable (need-IsQuiet _ _) (λ e n. refl)
                λ v.
                  Ends-bind fenced effects _ _ held
                    (λ a w. (w ≡ validator_stage a) × (is_some a ≡ is_some fence)) _ IsReportable
                    (validator_artifact-Ends r fence latest)
                    λ a w p. rw p.0 (
                      Ends-after fenced effects _ _ (validator_stage a) _ IsReportable
                        (read-IsQuiet r.entry.head) (λ e n. ground arith)
                        λ head.
                          Ends-after fenced effects _ _ (validator_stage a) _ IsReportable
                            (read-IsQuiet r.entry.status) (λ e n. ground arith)
                            λ status.
                              Ends-ask fenced effects validates r.validate _ (validator_stage a)
                                (valid_stage a) _ IsReportable (ground (arith, p.1))
                                (λ e n. ground arith)
                                λ x.
                                  Ends-after fenced effects _ _ (valid_stage a) _ IsReportable
                                    (check_validated-IsQuiet r d produced x head status)
                                    (λ e n. ground arith)
                                    λ y.
                                      Ends-bind fenced effects _ _ (valid_stage a)
                                        (λ u t.
                                          next_stage fenced effects t completes ≡ some handed_in)
                                        _ IsReportable (record_validated-Ends r fence a p.1 f)
                                        λ z w q.
                                          Ends-ask fenced effects completes r.complete _ w handed_in
                                            _ IsReportable q (λ e n. refl)
                                            λ y. Ends-returns fenced effects _ _ _ _ refl)

  report_failure-Ends :
      (r : Replies) (e : Failure) (t : Stage)
      → IsReportable e t
      → Ends fenced effects (report_failure r e) t (λ b u. u ≡ handed_in) IsAny
  unfolding report_failure next_stage Ends ◌>>=◌
  report_failure-Ends r e t h = elim (Bool-cases (is_ambiguous e)) [
    | inl a ↦ rw a tt
    | inr a ↦ rw a (
        Ends-report fenced effects (fails (reported_code e)) r.fail _ t given_up _ IsAny
          (ground (arith, h a)) refl tt)
  ]

  pub work-Ends :
      (r : Replies) (d : Descriptor) (role : Role) (fence : Option Fence)
      (latest : Option CheckpointInfo) (t : TaskInfo)
      → is_some fence ≡ fenced
      → (is_some latest ≡ true → fenced ≡ true)
      → Ends fenced effects (work s r m d role fence latest t) held (λ b u. u ≡ handed_in) IsAny
  unfolding work
  work-Ends r d builder fence latest t f l =
      Ends-attempt fenced effects _ (report_failure r) held _ IsAny IsReportable
        (build_work-Ends s m fenced r d fence latest f l) (report_failure-Ends r)
  work-Ends r d validator fence latest t f l =
      Ends-attempt fenced effects _ (report_failure r) held _ IsAny IsReportable
        (validate_work-Ends r d fence latest t f) (report_failure-Ends r)
