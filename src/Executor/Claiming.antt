-- ===== src/Executor/Claiming.antt =====
-- A run without a receipt, stage by stage: the claim, its lease, what it hands over, and the work.
use engineering_worker_pool.Base.{
  suc, zero, ◌≡◌, refl, sym, subst, Bool, true, false, Option, none, some, Text, arith, is_some,
  if◌then◌else◌,
}
use engineering_worker_pool.Executor.Run.{
  returns, ◌>>=◌, ask, claimed_task_drift, fails, blocks, unsafe_recovery_context, preflights,
  claims, writes_receipt, answered, raised,
}
use engineering_worker_pool.Executor.Manifest.{Manifest}
use engineering_worker_pool.Executor.Recovery.{CheckpointInfo}
use engineering_worker_pool.Executor.Calls.{
  TaskInfo, LeaseInfo, Claim, Fence, Receipt, Setup, Replies, lease_fence, Flag, flag, number,
}
use engineering_worker_pool.Executor.Work.{work, artifact_effect_id}
use engineering_worker_pool.Executor.Receipts.{receipt_of}
use engineering_worker_pool.Executor.OneShot.{
  Prepared, claim_exact, check_lease, recover_latest, safe_context, check_claimed, execute,
}
use engineering_worker_pool.Executor.Protocol.{
  Stage, unclaimed, held, handed_in, given_up, next_stage,
}
use engineering_worker_pool.Executor.Rules.{
  need-IsQuiet, need_some-IsQuiet, Ends, Ends-bind, Ends-attempt, Ends-quiet, Ends-if, Ends-after,
  Ends-ask, Ends-returns, Ends-raises, Ends-report, Ends-last,
}
use engineering_worker_pool.Executor.Quiet.{safe_context-IsQuiet, fencing_required-IsQuiet}
use engineering_worker_pool.Executor.Validation.{IsAny, work-Ends}

-- The fence that the task of a run asks for.
abbrev pub asks_fence : Flag → Bool
asks_fence (flag b) = b
asks_fence (number (suc zero)) = true
asks_fence _ = false

abbrev pub is_fenced : Replies → Bool
is_fenced r = elim r.task [ answered t ↦ asks_fence t.fencing | raised e ↦ false ]

-- What the pool may see of a run of the task, by the effect that its artifact has.
abbrev pub effects_of : Setup → Text → Text → Text
effects_of s task sha = artifact_effect_id s task sha

-- A run that ends well has handed the work in, or changed nothing.
abbrev pub final_stage : Receipt → Stage
final_stage p = if p.replayed then unclaimed else handed_in

abbrev pub IsFinal : Receipt → Stage → Type 0
IsFinal p t = t ≡ final_stage p

module _ (s : Setup) (task : Text) (fenced : Bool) where
  abbrev effects : Text → Text
  effects = effects_of s task

  claim_exact-Ends :
      (r : Replies) → Ends fenced effects (claim_exact s r fenced) unclaimed (λ c t. t ≡ held) IsAny
  unfolding claim_exact next_stage
  claim_exact-Ends r =
      elim fenced
        as (λ b. Ends fenced effects (claim_exact s r b) unclaimed (λ c t. t ≡ held) IsAny) [
          | false ↦
              Ends-last fenced effects claims r.claim unclaimed held _ IsAny refl (λ e. tt)
                λ c. refl
          | true ↦
              Ends-after fenced effects _ _ unclaimed _ IsAny (need-IsQuiet _ _) (λ e. tt)
                λ u.
                  Ends-after fenced effects _ _ unclaimed _ IsAny (need-IsQuiet _ _) (λ e. tt)
                    λ v.
                      Ends-bind fenced effects _ _ unclaimed (λ x t. t ≡ unclaimed) _ IsAny
                        (Ends-attempt fenced effects (ask preflights r.preflight) _ unclaimed _
                          IsAny (λ e t. t ≡ unclaimed)
                          (Ends-last fenced effects preflights r.preflight unclaimed unclaimed _ _
                            refl (λ e. refl) λ c. refl)
                          λ e t p. Ends-raises fenced effects _ _ _ _ tt)
                        λ x t p. rw p (
                          Ends-last fenced effects claims r.claim unclaimed held _ IsAny refl
                            (λ e. tt) λ c. refl)
        ]

  lease_fence-Ends :
      (b : Bool) (l : LeaseInfo) (t : TaskInfo)
      → Ends fenced effects (lease_fence b l t) held (λ f u. (u ≡ held) × (is_some f ≡ b)) IsAny
  unfolding lease_fence
  lease_fence-Ends false l t = Ends-returns fenced effects _ _ _ _ (refl, refl)
  lease_fence-Ends true l t =
      Ends-after fenced effects _ _ held _ IsAny (need-IsQuiet _ _) (λ e. tt)
        λ u.
          Ends-after fenced effects _ _ held _ IsAny (need_some-IsQuiet l.lease_generation _)
            (λ e. tt)
            λ g.
              Ends-after fenced effects _ _ held _ IsAny (need_some-IsQuiet l.attempt_id _)
                (λ e. tt) λ a. Ends-returns fenced effects _ _ _ _ (refl, refl)

  check_lease-Ends :
      (r : Replies) (p : Prepared) (worker : Text) (c : Claim)
      → Ends fenced effects
          (check_lease r p worker fenced c)
          held
          (λ f u. (u ≡ held) × (is_some f ≡ fenced))
          IsAny
  unfolding check_lease
  check_lease-Ends r p worker c =
      Ends-after fenced effects _ _ held _ IsAny (need-IsQuiet _ _) (λ e. tt)
        λ u.
          Ends-after fenced effects _ _ held _ IsAny (need-IsQuiet _ _) (λ e. tt)
            λ v.
              Ends-after fenced effects _ _ held _ IsAny (fencing_required-IsQuiet c.task.fencing)
                (λ e. tt)
                λ w.
                  Ends-after fenced effects _ _ held _ IsAny (need-IsQuiet _ _) (λ e. tt)
                    λ x. lease_fence-Ends fenced c.lease c.task

  recover_latest-Ends :
      (r : Replies) (p : Prepared) (f : Option Fence) (c : Claim)
      → is_some f ≡ fenced
      → Ends fenced effects
          (recover_latest r p f c)
          held
          (λ k t. (t ≡ held) × (is_some k ≡ true → fenced ≡ true))
          IsAny
  unfolding recover_latest next_stage Ends
  recover_latest-Ends r p none c h = (refl, λ k. absurd (cc))
  recover_latest-Ends r p (some f) c h =
      Ends-attempt fenced effects (safe_context p f c) _ held _ IsAny (λ e t. t ≡ held)
        (Ends-quiet fenced effects _ held _ _ (safe_context-IsQuiet p f c) (λ k. (refl, λ n. sym h))
          λ e. refl)
        λ e t q. rw q (
          Ends-report fenced effects (blocks unsafe_recovery_context) r.block_unsafe e held given_up
            _ IsAny (ground (arith, h)) refl tt)

  check_claimed-Ends :
      (r : Replies) (p : Prepared) (worker : Text) (t : TaskInfo)
      → Ends fenced effects (check_claimed r p worker t) held (λ u w. w ≡ held) IsAny
  unfolding check_claimed next_stage
  check_claimed-Ends r p worker t =
      Ends-if fenced effects _ _ _ held _ IsAny (Ends-returns fenced effects _ _ _ _ refl) (
        Ends-report fenced effects (fails claimed_task_drift) r.fail_drift _ held given_up _ IsAny
          refl refl tt)

  claimed-Ends :
      (r : Replies) (raw : Manifest) (p : Prepared) (worker : Text)
      → p.manifest.task_id ≡ task
      → (c : Claim) (f : Option Fence) (k : Option CheckpointInfo) → is_some f ≡ fenced
      → (is_some k ≡ true → fenced ≡ true)
      → Ends fenced effects
          (check_claimed r p worker c.task >>= λ _.
            work s r p.manifest p.adapter.descriptor p.role f k c.task >>= λ b.
            let receipt = receipt_of s raw p.adapter.descriptor p.role worker f b in
            ask writes_receipt r.write_receipt >>= λ _. returns receipt)
          held
          IsFinal
          IsAny
  unfolding next_stage
  claimed-Ends r raw p worker m c f k h l =
      Ends-bind fenced effects _ _ held (λ u t. t ≡ held) _ IsAny
        (check_claimed-Ends r p worker c.task)
        λ u t q. rw q (
          Ends-bind fenced effects _ _ held (λ b t. t ≡ handed_in) _ IsAny
            (subst
              (λ x.
                Ends fenced (effects_of s x)
                  (work s r p.manifest p.adapter.descriptor p.role f k c.task) held
                  (λ b t. t ≡ handed_in) IsAny)
              m (work-Ends s p.manifest fenced r p.adapter.descriptor p.role f k c.task h l))
            λ b w v. rw v (
              Ends-ask fenced effects writes_receipt r.write_receipt _ handed_in handed_in _ IsAny
                refl (λ e. tt) λ x. Ends-returns fenced effects _ _ _ _ refl))

  pub execute-Ends :
      (r : Replies) (raw : Manifest) (p : Prepared) (worker : Text)
      → p.manifest.task_id ≡ task
      → Ends fenced effects (execute s r raw p worker fenced) unclaimed IsFinal IsAny
  unfolding execute next_stage
  execute-Ends r raw p worker m =
      Ends-bind fenced effects _ _ unclaimed (λ c t. t ≡ held) _ IsAny (claim_exact-Ends r)
        λ c t q. rw q (
          Ends-bind fenced effects _ _ held (λ f u. (u ≡ held) × (is_some f ≡ fenced)) _ IsAny
            (check_lease-Ends r p worker c)
            λ f u v. rw v.0 (
              Ends-bind fenced effects _ _ held
                (λ k t. (t ≡ held) × (is_some k ≡ true → fenced ≡ true)) _ IsAny
                (recover_latest-Ends r p f c v.1)
                λ k w x. rw x.0 (claimed-Ends r raw p worker m c f k v.1 x.1)))
