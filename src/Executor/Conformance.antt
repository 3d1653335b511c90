-- ===== src/Executor/Conformance.antt =====
-- The work of a builder and of a validator, stage by stage.
use engineering_worker_pool.Base.{
  ◌≡◌, refl, Bool, true, false, Option, none, some, Text, arith, same_refl, is_some,
}
use engineering_worker_pool.Store.Schema.{builder}
use engineering_worker_pool.Executor.Run.{
  returns, ◌>>◌, ask, Failure, Artifact, starts, builds, materializes, publishes, verifies, records,
  submits,
}
use engineering_worker_pool.Executor.Manifest.{Manifest, Descriptor}
use engineering_worker_pool.Executor.Recovery.{CheckpointInfo}
use engineering_worker_pool.Executor.Calls.{Fence, Setup, Replies}
use engineering_worker_pool.Executor.Work.{
  Built, produce, publish_artifact, give_up_publication, new_artifact, known_artifact,
  secure_artifact, record_built, build_work, is_ambiguous, artifact_effect_id, pending_entry,
  result_entry, result_sequence,
}
use engineering_worker_pool.Executor.Run.{blocks, artifact_publish_ambiguous}
use engineering_worker_pool.Executor.Work.{unknown_entry}
use engineering_worker_pool.Executor.Protocol.{
  Stage, held, building, built, resumed, reassured, announced, published, assured, confirmed,
  doubtful, handed_in, given_up, is_failable, next_stage, same_artifact,
}
use engineering_worker_pool.Executor.Rules.{
  need-IsQuiet, need_some-IsQuiet, Ends, Ends-bind, Ends-attempt, Ends-after, Ends-ask,
  Ends-returns, Ends-report, Ends-ask_quietly,
}
use engineering_worker_pool.Executor.Quiet.{
  parse_artifact-IsQuiet, artifact_from_checkpoint-IsQuiet, validate_result-IsQuiet,
  validate_recovered_result-IsQuiet, check_built-IsQuiet, check_effect-IsQuiet,
}

-- A failure that the run reports may be reported in the stage.
abbrev pub IsReportable : Failure → Stage → Type 0
IsReportable e s = is_ambiguous e ≡ false → is_failable s ≡ true

pub same_artifact_refl : (a : Artifact) → same_artifact a a ≡ true
same_artifact_refl a =
    ground (arith, same_refl a.artifact_kind, same_refl a.artifact_ref, same_refl a.artifact_sha256)

-- Where the artifact of a finished build stands.
abbrev pub built_stage : Option Artifact → Stage
built_stage none = built
built_stage (some a) = resumed a

-- A run of the manifest `m` in the executor `s`.
module _ (s : Setup) (m : Manifest) (fenced : Bool) where
  abbrev pub effect_of : Text → Text
  effect_of sha = artifact_effect_id s m.task_id sha

  produce-Ends :
      (r : Replies) (d : Descriptor) (latest : Option CheckpointInfo)
      → Ends fenced effect_of
          (produce r d latest)
          building
          (λ b t. (t ≡ built_stage b.artifact) × (is_some b.artifact ≡ is_some latest))
          IsReportable
  unfolding produce next_stage
  produce-Ends r d none =
      Ends-ask fenced effect_of builds r.build _ building built _ IsReportable refl (λ e n. refl)
        λ x.
          Ends-after fenced effect_of _ _ built _ IsReportable
            (validate_result-IsQuiet x d r.invoked builder) (λ e n. refl)
            λ u. Ends-returns fenced effect_of _ _ _ _ (refl, refl)
  produce-Ends r d (some c) =
      Ends-after fenced effect_of _ _ building _ IsReportable (need-IsQuiet _ _) (λ e n. refl)
        λ u.
          Ends-after fenced effect_of _ _ building _ IsReportable
            (artifact_from_checkpoint-IsQuiet c) (λ e n. refl)
            λ a.
              Ends-ask fenced effect_of (materializes a) r.materialize _ building (resumed a) _
                IsReportable refl (λ e n. refl)
                λ x.
                  Ends-after fenced effect_of _ _ (resumed a) _ IsReportable
                    (validate_recovered_result-IsQuiet x d) (λ e n. refl)
                    λ v. Ends-returns fenced effect_of _ _ _ _ (refl, refl)

  -- Where a publication stands that did not come to its end.
  abbrev IsDoubted : Text → Failure → Stage → Type 0
  IsDoubted x e t = t ≡ published x

  publish_artifact-Ends :
      (r : Replies) (x : Text)
      → Ends fenced effect_of
          (publish_artifact r)
          (announced x)
          (λ a t. t ≡ assured x a)
          (IsDoubted x)
  unfolding publish_artifact next_stage
  publish_artifact-Ends r x =
      Ends-ask fenced effect_of publishes r.publish _ (announced x) (published x) _ (IsDoubted x)
        refl (λ e. refl)
        λ raw.
          Ends-after fenced effect_of _ _ (published x) _ (IsDoubted x) (need_some-IsQuiet raw _)
            (λ e. refl)
            λ p.
              Ends-after fenced effect_of _ _ (published x) _ (IsDoubted x)
                (parse_artifact-IsQuiet (some p.artifact_kind) (some p.artifact_ref)
                  (some p.artifact_sha256))
                (λ e. refl)
                λ a.
                  Ends-ask fenced effect_of (verifies a) r.verify _ (published x) (assured x a) _
                    (IsDoubted x) refl (λ e. refl) λ u. Ends-returns fenced effect_of _ _ _ _ refl

  give_up-Ends :
      (r : Replies) (f : Fence) (x : Text) (e : Failure) (t : Stage) (Q : Artifact → Stage → Type 0)
      → IsDoubted x e t
      → Ends fenced effect_of (give_up_publication s r f x e) t Q IsReportable
  unfolding give_up_publication next_stage
  give_up-Ends r f x e t Q p = rw p (
      Ends-ask_quietly fenced effect_of (records (unknown_entry s f x)) r.record_unknown _
        (published x) doubtful Q IsReportable (ground (arith, same_refl x)) refl
        (Ends-report fenced effect_of (blocks artifact_publish_ambiguous) r.block_ambiguous _
          doubtful given_up Q IsReportable refl refl λ n. absurd (cc)))

  new_artifact-Ends :
      (r : Replies) (f : Fence) (x : Text)
      → Ends fenced effect_of (new_artifact s r f x) built (λ a t. t ≡ assured x a) IsReportable
  unfolding new_artifact next_stage
  new_artifact-Ends r f x =
      Ends-ask fenced effect_of (records (pending_entry s f x)) r.record_pending _ built
        (announced x) _ IsReportable refl (λ e n. refl)
        λ u.
          Ends-attempt fenced effect_of (publish_artifact r) (give_up_publication s r f x)
            (announced x) _ IsReportable (IsDoubted x) (publish_artifact-Ends r x)
            λ e t p. give_up-Ends r f x e t (λ a t. t ≡ assured x a) p

  -- Where an artifact stands that is in store and read back.
  abbrev secured_stage : Option Artifact → Text → Artifact → Stage
  secured_stage none x a = assured x a
  secured_stage (some b) x a = reassured a

  secure_artifact-Ends :
      (r : Replies) (f : Fence) (x : Text) (latest : Option CheckpointInfo) (b : Option Artifact)
      → Ends fenced effect_of
          (secure_artifact s r f x latest b)
          (built_stage b)
          (λ a t. t ≡ secured_stage b x a)
          IsReportable
  unfolding secure_artifact known_artifact next_stage
  secure_artifact-Ends r f x latest none =
      Ends-after fenced effect_of _ _ built _ IsReportable (check_effect-IsQuiet latest x)
        (λ e n. refl) λ u. new_artifact-Ends r f x
  secure_artifact-Ends r f x latest (some b) =
      Ends-after fenced effect_of _ _ (resumed b) _ IsReportable (check_effect-IsQuiet latest x)
        (λ e n. refl)
        λ u.
          Ends-ask fenced effect_of (verifies b) r.verify _ (resumed b) (reassured b) _ IsReportable
            (ground (arith, same_artifact_refl b)) (λ e n. refl)
            λ v. Ends-returns fenced effect_of _ _ _ _ refl

  -- The stage takes the submission of the commit.
  abbrev MaySubmit : Text → Stage → Type 0
  MaySubmit sha t = next_stage fenced effect_of t (submits sha) ≡ some handed_in

  record_result-Ends :
      (r : Replies) (f : Fence) (latest : Option CheckpointInfo) (b : Built) (a : Artifact)
      → is_some b.artifact ≡ is_some latest
      → Ends fenced effect_of
          (ask
              (records
                (result_entry s f (effect_of b.result.produced_sha) a (result_sequence latest)))
              r.record_result
            >> returns (some a))
          (secured_stage b.artifact (effect_of b.result.produced_sha) a)
          (λ c t. MaySubmit b.result.produced_sha t)
          IsReportable
  unfolding next_stage
  record_result-Ends r f latest b a h =
      let x = effect_of b.result.produced_sha in
      Ends-ask fenced effect_of _ r.record_result _
        (secured_stage b.artifact (effect_of b.result.produced_sha) a) (confirmed x) _ IsReportable
        (ground (arith, same_artifact_refl a, same_refl x)) (λ e n. ground arith)
        λ u. Ends-returns fenced effect_of _ _ _ _ (ground (arith, same_refl x))

  record_built-Ends :
      (r : Replies) (fence : Option Fence) (latest : Option CheckpointInfo) (b : Built)
      → is_some b.artifact ≡ is_some latest
      → is_some fence ≡ fenced
      → (is_some latest ≡ true → fenced ≡ true)
      → Ends fenced effect_of
          (record_built s r m fence latest b)
          (built_stage b.artifact)
          (λ a t. MaySubmit b.result.produced_sha t)
          IsReportable
  unfolding record_built next_stage
  record_built-Ends r none latest b h f l = Ends-returns fenced effect_of _ _ _ _ (ground arith)
  record_built-Ends r (some f) latest b h g l =
      Ends-bind fenced effect_of _ _ _
        (λ a t. t ≡ secured_stage b.artifact (effect_of b.result.produced_sha) a) _ IsReportable
        (secure_artifact-Ends r f (effect_of b.result.produced_sha) latest b.artifact)
        λ a t p. rw p (record_result-Ends r f latest b a h)

  pub build_work-Ends :
      (r : Replies) (d : Descriptor) (fence : Option Fence) (latest : Option CheckpointInfo)
      → is_some fence ≡ fenced
      → (is_some latest ≡ true → fenced ≡ true)
      → Ends fenced effect_of
          (build_work s r m d fence latest)
          held
          (λ b t. t ≡ handed_in)
          IsReportable
  unfolding build_work next_stage
  build_work-Ends r d fence latest f l =
      Ends-ask fenced effect_of starts r.start _ held building _ IsReportable refl (λ e n. refl)
        λ u.
          Ends-bind fenced effect_of _ _ building
            (λ b t. (t ≡ built_stage b.artifact) × (is_some b.artifact ≡ is_some latest)) _
            IsReportable (produce-Ends r d latest)
            λ b t p. rw p.0 (
              Ends-after fenced effect_of _ _ (built_stage b.artifact) _ IsReportable
                (check_built-IsQuiet r m d latest b.result) (λ e n. ground arith)
                λ v.
                  Ends-bind fenced effect_of _ _ (built_stage b.artifact)
                    (λ a t. MaySubmit b.result.produced_sha t) _ IsReportable
                    (record_built-Ends r fence latest b p.1 f l)
                    λ a w q.
                      Ends-ask fenced effect_of _ r.submit _ w handed_in _ IsReportable q
                        (λ e n. refl) λ z. Ends-returns fenced effect_of _ _ _ _ refl)
