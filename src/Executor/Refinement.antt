-- ===== src/Executor/Refinement.antt =====
-- What the pool may see of a run of the executor.
use engineering_worker_pool.Base.{◌≡◌, refl, ap, ◌∙◌, true, false, [], some, Text, any, arith}
use engineering_worker_pool.Executor.Run.{log, outcome, mutates, answered}
use engineering_worker_pool.Executor.Manifest.{Manifest}
use engineering_worker_pool.Executor.Calls.{Setup, Replies, Receipt}
use engineering_worker_pool.Executor.OneShot.{run}
use engineering_worker_pool.Executor.Protocol.{unclaimed, accepts}
use engineering_worker_pool.Executor.Rules.{Ends-accepts, Ends-outcome}
use engineering_worker_pool.Executor.Order.{
  claims_first, settled_all, hands_in, is_numbered, is_cautious, is_backed,
}
use engineering_worker_pool.Executor.Steps.{
  claims_first-accepts, is_numbered-accepts, is_cautious-accepts, is_backed-accepts,
  unclaimed-reached, handed_in-reached,
}
use engineering_worker_pool.Executor.Claiming.{is_fenced, effects_of, IsFinal}
use engineering_worker_pool.Executor.Whole.{run-Ends}
use engineering_worker_pool.Executor.Validation.{IsAny}

-- The calls of a run, in order, are calls that the protocol of the executor allows, whatever the pool,
-- the adapter, the artifact transport and the working tree answer, and whichever of the calls raise.
pub accepts-run :
    (s : Setup) (r : Replies) (raw : Manifest) (role worker : Text)
    → accepts (is_fenced r) (effects_of s raw.task_id) unclaimed (log (run s r raw role worker))
      ≡ true
accepts-run s r raw role worker =
    Ends-accepts (is_fenced r) (effects_of s raw.task_id) _ unclaimed IsFinal IsAny
      (run-Ends s r raw role worker)

-- In a run, the first call that changes the pool is the claim, and there is no second claim.
pub claims_first-run :
    (s : Setup) (r : Replies) (raw : Manifest) (role worker : Text)
    → claims_first false (log (run s r raw role worker)) ≡ true
claims_first-run s r raw role worker =
    claims_first-accepts (is_fenced r) (effects_of s raw.task_id) unclaimed _
      (accepts-run s r raw role worker)

-- The checkpoints that a run records are numbered 1, 2, …, in the order in which it records them.
pub is_numbered-run :
    (s : Setup) (r : Replies) (raw : Manifest) (role worker : Text)
    → is_numbered 1 (log (run s r raw role worker)) ≡ true
is_numbered-run s r raw role worker =
    is_numbered-accepts (is_fenced r) (effects_of s raw.task_id) unclaimed 1 _
      (accepts-run s r raw role worker) refl

-- From the call that publishes an artifact on, a run asks to submit or complete nothing before a call
-- that records a confirmed effect has answered, and asks to fail nothing before it has asked to record
-- one.
pub is_cautious-run :
    (s : Setup) (r : Replies) (raw : Manifest) (role worker : Text)
    → is_cautious settled_all (log (run s r raw role worker)) ≡ true
is_cautious-run s r raw role worker =
    is_cautious-accepts (is_fenced r) (effects_of s raw.task_id) unclaimed settled_all _
      (accepts-run s r raw role worker) refl

-- Where the task looked up asks for a fence, a run asks to submit a commit only after a call that
-- records the artifact effect of this commit as confirmed has answered, with an artifact whose
-- verification had answered.
pub is_backed-run :
    (s : Setup) (r : Replies) (raw : Manifest) (role worker : Text)
    → is_fenced r ≡ true
    → is_backed (effects_of s raw.task_id) [] (log (run s r raw role worker)) ≡ true
is_backed-run s r raw role worker h =
    is_backed-accepts (is_fenced r) (effects_of s raw.task_id) unclaimed [] _ h
      (accepts-run s r raw role worker) (λ b n. absurd (cc)) (λ y n. absurd (cc))

-- A run that returns a receipt marked as replayed has called nothing that changes the pool.
pub mutates-run :
    (s : Setup) (r : Replies) (raw : Manifest) (role worker : Text) (p : Receipt)
    → outcome (run s r raw role worker) ≡ answered p
    → p.replayed ≡ true
    → any mutates (log (run s r raw role worker)) ≡ false
mutates-run s r raw role worker p h n =
    let f = is_fenced r in
    let x = effects_of s raw.task_id in
    let found = Ends-outcome f x _ p unclaimed IsFinal IsAny (run-Ends s r raw role worker) h in
    (unclaimed-reached f x unclaimed _ (found.1 ∙ ap some (ground (arith, found.2)))).1

-- In a run that returns a receipt not marked as replayed, a call that submits or completes the work
-- has answered.
pub hands_in-run :
    (s : Setup) (r : Replies) (raw : Manifest) (role worker : Text) (p : Receipt)
    → outcome (run s r raw role worker) ≡ answered p
    → p.replayed ≡ false
    → any hands_in (log (run s r raw role worker)) ≡ true
hands_in-run s r raw role worker p h n =
    let f = is_fenced r in
    let x = effects_of s raw.task_id in
    let found = Ends-outcome f x _ p unclaimed IsFinal IsAny (run-Ends s r raw role worker) h in
    handed_in-reached f x unclaimed _ (found.1 ∙ ap some (ground (arith, found.2)))
