-- ===== src/Executor/Whole.antt =====
-- The whole run, stage by stage: the checks before the lock, and what is under it.
use engineering_worker_pool.Base.{suc, zero, ◌≡◌, refl, sym, ◌∙◌, subst, Bool, Text, if◌then◌else◌}
use engineering_worker_pool.Executor.Run.{returns, ◌>>=◌, acquires_lock, done, gets_task, answered}
use engineering_worker_pool.Executor.Manifest.{Manifest, parse_manifest}
use engineering_worker_pool.Executor.Calls.{
  TaskInfo, Setup, Replies, Flag, missing, improper, flag, number, fencing_required,
}
use engineering_worker_pool.Executor.OneShot.{
  Prepared, prepare, has_receipt, look_up, check_attested, execute, resume, locked_run, run,
}
use engineering_worker_pool.Executor.Protocol.{unclaimed, next_stage, next_event}
use engineering_worker_pool.Executor.Rules.{
  need-IsQuiet, need_some-IsQuiet, if-IsQuiet, Ends, Ends-bind, Ends-finally, Ends-if, Ends-after,
  Ends-ask_known, Ends-does, Ends-returns, Ends-raises,
}
use engineering_worker_pool.Executor.Quiet.{
  check_local-IsQuiet, check_attested-IsQuiet, exact_role-IsQuiet, validate_boundary-IsQuiet,
  normalized-IsQuiet, normalize_hashes-IsQuiet,
}
use engineering_worker_pool.Executor.Validation.{IsAny}
use engineering_worker_pool.Executor.Claiming.{
  asks_fence, is_fenced, effects_of, IsFinal, execute-Ends,
}
use engineering_worker_pool.Executor.Replaying.{resume-Ends}

module _ (s : Setup) (task : Text) (fenced : Bool) where
  abbrev effects : Text → Text
  effects = effects_of s task

  look_up-Ends :
      (r : Replies) (p : Prepared)
      → Ends fenced effects
          (look_up s r p)
          unclaimed
          (λ t u. (u ≡ unclaimed) × (r.task ≡ answered t))
          IsAny
  unfolding look_up next_stage
  look_up-Ends r p =
      Ends-ask_known fenced effects gets_task r.task _ unclaimed unclaimed _ IsAny refl (λ e. tt)
        λ t q.
          Ends-after fenced effects _ _ unclaimed _ IsAny (need-IsQuiet _ _) (λ e. tt)
            λ u. Ends-returns fenced effects _ _ _ _ (refl, q)

  fencing_required-Ends :
      (f : Flag)
      → Ends fenced effects
          (fencing_required f)
          unclaimed
          (λ b u. (u ≡ unclaimed) × (b ≡ asks_fence f))
          IsAny
  fencing_required-Ends missing = Ends-returns fenced effects _ _ _ _ (refl, refl)
  fencing_required-Ends improper = Ends-raises fenced effects _ _ _ _ tt
  fencing_required-Ends (flag b) = Ends-returns fenced effects _ _ _ _ (refl, refl)
  fencing_required-Ends (number zero) = Ends-returns fenced effects _ _ _ _ (refl, refl)
  fencing_required-Ends (number (suc zero)) = Ends-returns fenced effects _ _ _ _ (refl, refl)
  fencing_required-Ends (number (suc (suc n))) = Ends-raises fenced effects _ _ _ _ tt

  looked_up-Ends :
      (r : Replies) (raw : Manifest) (p : Prepared) (worker : Text) (t : TaskInfo)
      → p.manifest.task_id ≡ task
      → Ends fenced effects
          (check_attested s p fenced >>= λ _.
            if has_receipt r.receipt
            then resume s r raw p worker fenced t
            else execute s r raw p worker fenced)
          unclaimed
          IsFinal
          IsAny
  looked_up-Ends r raw p worker t m =
      Ends-after fenced effects _ _ unclaimed _ IsAny (check_attested-IsQuiet s p fenced) (λ e. tt)
        λ u.
          Ends-if fenced effects _ _ _ unclaimed _ IsAny
            (resume-Ends s task fenced r raw p worker t)
            (execute-Ends s task fenced r raw p worker m)

is_fenced-answered :
    (r : Replies) (t : TaskInfo) → r.task ≡ answered t → is_fenced r ≡ asks_fence t.fencing
is_fenced-answered r t h = rw h refl

locked_run-Ends :
    (s : Setup) (r : Replies) (raw : Manifest) (p : Prepared) (worker task : Text)
    → p.manifest.task_id ≡ task
    → Ends (is_fenced r) (effects_of s task) (locked_run s r raw p worker) unclaimed IsFinal IsAny
unfolding locked_run
locked_run-Ends s r raw p worker task m =
    let f = is_fenced r in
    let x = effects_of s task in
    Ends-after f x _ _ unclaimed _ IsAny
      (if-IsQuiet (has_receipt r.receipt) (returns tt) _ tt (check_local-IsQuiet s r p)) (λ e. tt)
      λ u.
        Ends-bind f x _ _ unclaimed (λ t w. (w ≡ unclaimed) × (r.task ≡ answered t)) _ IsAny
          (look_up-Ends s task f r p)
          λ t w q. rw q.0 (
            Ends-bind f x _ _ unclaimed (λ b u. (u ≡ unclaimed) × (b ≡ asks_fence t.fencing)) _
              IsAny (fencing_required-Ends s task f t.fencing)
              λ b v y. rw y.0 (
                subst
                  (λ c.
                    Ends c x
                      (check_attested s p b >>= λ _.
                        if has_receipt r.receipt
                        then resume s r raw p worker b t
                        else execute s r raw p worker b)
                      unclaimed IsFinal IsAny)
                  (y.1 ∙ sym (is_fenced-answered r t q.1))
                  (looked_up-Ends s task b r raw p worker t m)))

module _ (fenced : Bool) (effects : Text → Text) where
  parse_manifest-Ends :
      (raw : Manifest)
      → Ends fenced effects
          (parse_manifest raw)
          unclaimed
          (λ m t. (t ≡ unclaimed) × (m.task_id ≡ raw.task_id))
          IsAny
  unfolding parse_manifest
  parse_manifest-Ends raw =
      Ends-after fenced effects _ _ unclaimed _ IsAny (need-IsQuiet _ _) (λ e. tt)
        λ u.
          Ends-after fenced effects _ _ unclaimed _ IsAny (normalize_hashes-IsQuiet _ _) (λ e. tt)
            λ hs.
              Ends-after fenced effects _ _ unclaimed _ IsAny (need-IsQuiet _ _) (λ e. tt)
                λ u0.
                  Ends-after fenced effects _ _ unclaimed _ IsAny (need-IsQuiet _ _) (λ e. tt)
                    λ u1.
                      Ends-after fenced effects _ _ unclaimed _ IsAny (need-IsQuiet _ _) (λ e. tt)
                        λ u2.
                          Ends-after fenced effects _ _ unclaimed _ IsAny (need-IsQuiet _ _)
                            (λ e. tt)
                            λ u3.
                              Ends-after fenced effects _ _ unclaimed _ IsAny (need-IsQuiet _ _)
                                (λ e. tt)
                                λ u4.
                                  Ends-after fenced effects _ _ unclaimed _ IsAny (need-IsQuiet _ _)
                                    (λ e. tt)
                                    λ u5.
                                      Ends-after fenced effects _ _ unclaimed _ IsAny
                                        (need-IsQuiet _ _) (λ e. tt)
                                        λ u6. Ends-returns fenced effects _ _ _ _ (refl, refl)

  prepare-Ends :
      (s : Setup) (raw : Manifest) (role worker : Text)
      → Ends fenced effects
          (prepare s raw role worker)
          unclaimed
          (λ p t. (t ≡ unclaimed) × (p.manifest.task_id ≡ raw.task_id))
          IsAny
  unfolding prepare
  prepare-Ends s raw role worker =
      Ends-after fenced effects _ _ unclaimed _ IsAny (exact_role-IsQuiet role) (λ e. tt)
        λ parsed.
          Ends-after fenced effects _ _ unclaimed _ IsAny (need-IsQuiet _ _) (λ e. tt)
            λ u0.
              Ends-after fenced effects _ _ unclaimed _ IsAny (validate_boundary-IsQuiet s.boundary)
                (λ e. tt)
                λ u1.
                  Ends-bind fenced effects _ _ unclaimed
                    (λ m t. (t ≡ unclaimed) × (m.task_id ≡ raw.task_id)) _ IsAny
                    (parse_manifest-Ends raw)
                    λ m t q. rw q.0 (
                      Ends-after fenced effects _ _ unclaimed _ IsAny (need-IsQuiet _ _) (λ e. tt)
                        λ u2.
                          Ends-after fenced effects _ _ unclaimed _ IsAny (need-IsQuiet _ _)
                            (λ e. tt)
                            λ u3.
                              Ends-after fenced effects _ _ unclaimed _ IsAny
                                (need_some-IsQuiet (s.adapter m.adapter_id) _) (λ e. tt)
                                λ a.
                                  Ends-after fenced effects _ _ unclaimed _ IsAny (need-IsQuiet _ _)
                                    (λ e. tt)
                                    λ u4.
                                      Ends-after fenced effects _ _ unclaimed _ IsAny
                                        (normalized-IsQuiet a.descriptor) (λ e. tt)
                                        λ u5.
                                          Ends-after fenced effects _ _ unclaimed _ IsAny
                                            (need-IsQuiet _ _) (λ e. tt)
                                            λ u6.
                                              Ends-after fenced effects _ _ unclaimed _ IsAny
                                                (need-IsQuiet _ _) (λ e. tt)
                                                λ u7.
                                                  Ends-returns fenced effects _ _ _ _ (refl, q.1))

pub run-Ends :
    (s : Setup) (r : Replies) (raw : Manifest) (role worker : Text)
    → Ends
        (is_fenced r)
        (effects_of s raw.task_id)
        (run s r raw role worker)
        unclaimed
        IsFinal
        IsAny
unfolding run next_event next_stage
run-Ends s r raw role worker =
    let f = is_fenced r in
    let x = effects_of s raw.task_id in
    Ends-bind f x _ _ unclaimed (λ p t. (t ≡ unclaimed) × (p.manifest.task_id ≡ raw.task_id)) _
      IsAny (prepare-Ends f x s raw role worker)
      λ p t q. rw q.0 (
        Ends-after f x _ _ unclaimed _ IsAny (need-IsQuiet _ _) (λ e. tt)
          λ u. Ends-does f x (done acquires_lock) _ unclaimed unclaimed IsFinal IsAny refl (
            Ends-finally f x _ unclaimed IsFinal IsAny
              (locked_run-Ends s r raw p worker raw.task_id q.1)))
