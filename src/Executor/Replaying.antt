-- ===== src/Executor/Replaying.antt =====
-- A run with a receipt, stage by stage.
use engineering_worker_pool.Base.{◌≡◌, refl, inl, inr, Bool, Option, none, some, Text, Option-cases}
use engineering_worker_pool.Store.Schema.{Role}
use engineering_worker_pool.Executor.Run.{
  Run, raises, ◌>>=◌, ask, executor_blocked, Artifact, verifies, gets_checkpoint, reads_receipt,
  receipt_invalid,
}
use engineering_worker_pool.Executor.Manifest.{Manifest, Descriptor}
use engineering_worker_pool.Executor.Calls.{
  TaskInfo, FenceReceipt, Receipt, no_receipt, bad_receipt, receipt_file, Setup, Replies,
}
use engineering_worker_pool.Executor.Receipts.{replay, confirm_receipt, confirm_fence}
use engineering_worker_pool.Executor.OneShot.{Prepared, resume}
use engineering_worker_pool.Executor.Protocol.{unclaimed, next_stage}
use engineering_worker_pool.Executor.Rules.{
  need-IsQuiet, need_some-IsQuiet, read-IsQuiet, Ends, Ends-bind, Ends-after, Ends-ask,
  Ends-returns, Ends-raises, Ends-last,
}
use engineering_worker_pool.Executor.Quiet.{
  receipt_fence-IsQuiet, validate_replay-IsQuiet, validate_checkpoint_shape-IsQuiet,
}
use engineering_worker_pool.Executor.Validation.{IsAny}
use engineering_worker_pool.Executor.Claiming.{effects_of, IsFinal}

module _ (s : Setup) (task : Text) (fenced : Bool) where
  abbrev effects : Text → Text
  effects = effects_of s task

  confirm_fence-Ends :
      (r : Replies) (m : Manifest) (role : Role) (p : Receipt) (f : FenceReceipt) (a : Artifact)
      → Ends fenced effects (confirm_fence s r m role p f a) unclaimed (λ u t. t ≡ unclaimed) IsAny
  unfolding confirm_fence next_stage
  confirm_fence-Ends r m role p f a =
      Ends-ask fenced effects gets_checkpoint r.checkpoint _ unclaimed unclaimed _ IsAny refl
        (λ e. tt)
        λ found.
          Ends-after fenced effects _ _ unclaimed _ IsAny (need_some-IsQuiet found _) (λ e. tt)
            λ k.
              Ends-after fenced effects _ _ unclaimed _ IsAny
                (validate_checkpoint_shape-IsQuiet k m.task_id) (λ e. tt)
                λ u.
                  Ends-after fenced effects _ _ unclaimed _ IsAny (need-IsQuiet _ _) (λ e. tt)
                    λ v.
                      Ends-last fenced effects (verifies a) r.verify_replay unclaimed unclaimed _
                        IsAny refl (λ e. tt) λ w. refl

  confirm_receipt-Ends :
      (r : Replies) (m : Manifest) (role : Role) (p : Receipt) (a : Option Artifact)
      → Ends fenced effects (confirm_receipt s r m role p a) unclaimed (λ u t. t ≡ unclaimed) IsAny
  unfolding confirm_receipt
  confirm_receipt-Ends r m role p none = Ends-returns fenced effects _ _ _ _ refl
  confirm_receipt-Ends r m role p (some a) = elim (Option-cases p.fence) [
    | inl n ↦ rw (n, confirm_receipt) (Ends-returns fenced effects _ _ _ _ refl)
    | inr (f, n) ↦ rw (n, confirm_receipt) (confirm_fence-Ends r m role p f a)
  ]

  replay-Ends :
      (r : Replies) (m : Manifest) (d : Descriptor) (role : Role) (worker : Text) (t : TaskInfo)
      (p : Receipt)
      → Ends fenced effects (replay s r m d role worker fenced t p) unclaimed IsFinal IsAny
  unfolding replay
  replay-Ends r m d role worker t p =
      Ends-after fenced effects _ _ unclaimed _ IsAny (need-IsQuiet _ _) (λ e. tt)
        λ u.
          Ends-after fenced effects _ _ unclaimed _ IsAny (need-IsQuiet _ _) (λ e. tt)
            λ v.
              Ends-after fenced effects _ _ unclaimed _ IsAny (need-IsQuiet _ _) (λ e. tt)
                λ w.
                  Ends-after fenced effects _ _ unclaimed _ IsAny (receipt_fence-IsQuiet t p)
                    (λ e. tt)
                    λ a.
                      Ends-after fenced effects _ _ unclaimed _ IsAny
                        (validate_replay-IsQuiet r.before p.produced_sha) (λ e. tt)
                        λ x.
                          Ends-after fenced effects _ _ unclaimed _ IsAny (read-IsQuiet _) (λ e. tt)
                            λ changed.
                              Ends-after fenced effects _ _ unclaimed _ IsAny (need-IsQuiet _ _)
                                (λ e. tt)
                                λ y.
                                  Ends-bind fenced effects _ _ unclaimed (λ u t. t ≡ unclaimed) _
                                    IsAny (confirm_receipt-Ends r m role p a)
                                    λ z b q. Ends-returns fenced effects _ _ _ _ q

  pub resume-Ends :
      (r : Replies) (raw : Manifest) (p : Prepared) (worker : Text) (t : TaskInfo)
      → Ends fenced effects (resume s r raw p worker fenced t) unclaimed IsFinal IsAny
  unfolding resume next_stage
  resume-Ends r raw p worker t =
      elim r.receipt
        as (λ f.
          Ends fenced effects
            (elim f as (λ x. Run Receipt) [
              | no_receipt ↦ raises (executor_blocked receipt_invalid)
              | bad_receipt ↦ raises (executor_blocked receipt_invalid)
              | receipt_file content ↦ ask reads_receipt content >>= λ previous.
                  replay s r raw p.adapter.descriptor p.role worker fenced t previous
            ])
            unclaimed IsFinal IsAny) [
              | no_receipt ↦ Ends-raises fenced effects _ _ _ _ tt
              | bad_receipt ↦ Ends-raises fenced effects _ _ _ _ tt
              | receipt_file content ↦
                  Ends-ask fenced effects reads_receipt content _ unclaimed unclaimed _ IsAny refl
                    (λ e. tt)
                    λ previous. replay-Ends r raw p.adapter.descriptor p.role worker t previous
            ]
