-- ===== src/Executor/Recovery.antt =====
-- app/native_one_shot.py: what a fenced claim hands over of earlier attempts, and whether it is safe
-- to go on from it. A key that is absent from the JSON, or of another type, is none.
use engineering_worker_pool.Base.{
  ℕ, Bool, true, false, not, ◌&&◌, ◌||◌, List, [], ◌∷◌, Option, none, some, Text, codes, is_text,
  is_none, is_some, length, leb, ltb, ◌==◌, find, if◌then◌else◌,
}
use engineering_worker_pool.Store.Sanitize.{is_safe_id}
use engineering_worker_pool.Executor.Run.{
  Run, returns, raises, ◌>>=◌, ◌>>◌, need, need_some, executor_blocked, Artifact,
  recovery_context_invalid, recovery_effect_not_resumable, recovery_effect_unsafe,
}
use engineering_worker_pool.Executor.Manifest.{parse_artifact, has_text}

-- A checkpoint as the worker interface shows it, with its reconciliation.
pub record CheckpointInfo : Type 0 where
  pub task_id : Option Text
  pub lease_generation : Option ℕ
  pub attempt_id : Option Text
  pub checkpoint_id : Option Text
  pub sequence : Option ℕ
  pub stage : Option Text
  pub next_action : Option Text
  pub artifact_kind : Option Text
  pub artifact_ref : Option Text
  pub artifact_sha256 : Option Text
  pub effect_id : Option Text
  pub effect_state : Option Text
  pub effect_result_ref : Option Text
  pub reconciliation_outcome : Option Text
  pub reconciliation_readback_ref : Option Text

pub record RecoveryContext : Type 0 where
  pub latest_checkpoint : Option CheckpointInfo
  pub effects : List CheckpointInfo

abbrev pub at_least : ℕ → Option ℕ → Bool
at_least n none = false
at_least n (some m) = leb n m

-- `type(value) is str and FENCE_ID.fullmatch(value)`
abbrev pub is_fence_id : Option Text → Bool
is_fence_id none = false
is_fence_id (some s) = is_safe_id s

-- `type(value) is str and 1 <= len(value) <= 2048`
abbrev pub is_short : Option Text → Bool
is_short none = false
is_short (some s) = leb 1 (length s) && leb (length s) 2048

abbrev pub is_one_of : List Text → Option Text → Bool
is_one_of ts none = false
is_one_of ts (some s) = has_text ts s

abbrev pub is_open_state : Option Text → Bool
is_open_state s = is_one_of (codes "pending" ∷ codes "unknown" ∷ []) s

abbrev pub is_settled_state : Option Text → Bool
is_settled_state s = is_one_of (codes "confirmed" ∷ codes "not_applied" ∷ []) s

-- The identity and the effect of `effect_state`.
abbrev pub has_effect_shape : CheckpointInfo → Bool
has_effect_shape k =
    (is_text k.effect_state (codes "none") && is_none k.effect_id && is_none k.effect_result_ref)
    || (is_fence_id k.effect_id
        && ((is_open_state k.effect_state && is_none k.effect_result_ref)
            || (is_settled_state k.effect_state && is_short k.effect_result_ref)))

abbrev pub has_identity : CheckpointInfo → Text → Bool
has_identity k task =
    is_text k.task_id task
    && at_least 1 k.lease_generation
    && is_fence_id k.attempt_id
    && is_fence_id k.checkpoint_id
    && at_least 1 k.sequence
    && is_fence_id k.stage
    && is_short k.next_action

-- `_artifact_from_checkpoint`
unfoldable pub artifact_from_checkpoint : CheckpointInfo → Run Artifact
unfolding parse_artifact
artifact_from_checkpoint k = parse_artifact k.artifact_kind k.artifact_ref k.artifact_sha256

-- All three fields of the artifact, or none of them.
unfoldable pub check_artifact : CheckpointInfo → Run (Unit {0})
unfolding artifact_from_checkpoint
check_artifact k = do
  need
      ((is_none k.artifact_kind && is_none k.artifact_ref && is_none k.artifact_sha256)
        || (is_some k.artifact_kind && is_some k.artifact_ref && is_some k.artifact_sha256))
      recovery_context_invalid
  elim k.artifact_kind [ none ↦ returns tt | some _ ↦ artifact_from_checkpoint k >> returns tt ]

-- `_validate_checkpoint_shape`
unfoldable pub validate_checkpoint_shape : CheckpointInfo → Text → Run (Unit {0})
unfolding check_artifact is_safe_id
validate_checkpoint_shape k task = do
  need (has_identity k task) recovery_context_invalid
  check_artifact k
  need (has_effect_shape k) recovery_context_invalid

abbrev pub is_before : ℕ → Option ℕ → Bool
is_before generation none = false
is_before generation (some g) = ltb g generation

-- What an effect of the context must be, besides its shape.
abbrev pub is_past_effect : ℕ → List Text → CheckpointInfo → Bool
is_past_effect generation seen k =
    elim k.effect_id [ none ↦ false | some e ↦ not (has_text seen e) ]
    && is_before generation k.lease_generation
    && (is_open_state k.effect_state || is_settled_state k.effect_state)
    && (is_none k.reconciliation_outcome || is_settled_state k.reconciliation_outcome)
    && (is_none k.reconciliation_outcome || is_open_state k.effect_state)
    && (is_none k.reconciliation_outcome || is_short k.reconciliation_readback_ref)

abbrev pub seen_effects : Option Text → List Text → List Text
seen_effects none seen = seen
seen_effects (some e) seen = e ∷ seen

unfoldable pub validate_effects : Text → ℕ → List Text → List CheckpointInfo → Run (Unit {0})
unfolding validate_checkpoint_shape
validate_effects task generation seen [] = returns tt
validate_effects task generation seen (k ∷ ks) = do
  validate_checkpoint_shape k task
  need (is_past_effect generation seen k) recovery_context_invalid
  validate_effects task generation (seen_effects k.effect_id seen) ks

-- `a == b` on two values that may be absent.
abbrev pub same_field : Option Text → Option Text → Bool
same_field none none = true
same_field none (some _) = false
same_field (some a) b = is_text b a

abbrev pub same_number : Option ℕ → Option ℕ → Bool
same_number none none = true
same_number none (some _) = false
same_number (some a) none = false
same_number (some a) (some b) = a == b

-- The fields that are `compared`.
abbrev pub is_same_checkpoint : CheckpointInfo → CheckpointInfo → Bool
is_same_checkpoint a b =
    same_field a.checkpoint_id b.checkpoint_id
    && same_number a.lease_generation b.lease_generation
    && same_field a.attempt_id b.attempt_id
    && same_number a.sequence b.sequence
    && same_field a.stage b.stage
    && same_field a.artifact_kind b.artifact_kind
    && same_field a.artifact_ref b.artifact_ref
    && same_field a.artifact_sha256 b.artifact_sha256
    && same_field a.next_action b.next_action
    && same_field a.effect_id b.effect_id
    && same_field a.effect_state b.effect_state
    && same_field a.effect_result_ref b.effect_result_ref

-- The effect of the latest checkpoint is among the effects, as it stands there.
unfoldable pub check_latest_effect : CheckpointInfo → List CheckpointInfo → Run (Unit {0})
check_latest_effect k ks = elim k.effect_id [
  | none ↦ returns tt
  | some e ↦ elim (find (λ i. is_text i.effect_id e) ks) [
    | none ↦ raises (executor_blocked recovery_context_invalid)
    | some i ↦ need (is_same_checkpoint i k) recovery_context_invalid
  ]
]

unfoldable pub check_latest : Text → ℕ → Option CheckpointInfo → Run (Unit {0})
unfolding validate_checkpoint_shape
check_latest task generation none = returns tt
check_latest task generation (some k) = do
  validate_checkpoint_shape k task
  need (is_before generation k.lease_generation) recovery_context_invalid

unfoldable pub match_latest : Option CheckpointInfo → List CheckpointInfo → Run (Unit {0})
unfolding check_latest_effect
match_latest none ks = returns tt
match_latest (some k) ks = check_latest_effect k ks

-- `_recovery_context`
unfoldable pub recovery_context : Option RecoveryContext → Text → ℕ → Run RecoveryContext
unfolding validate_effects check_latest match_latest
recovery_context raw task generation = do
  c ← need_some raw recovery_context_invalid
  need (leb (length c.effects) 64) recovery_context_invalid
  check_latest task generation c.latest_checkpoint
  validate_effects task generation [] c.effects
  match_latest c.latest_checkpoint c.effects
  returns c

-- `item.get("reconciliation_outcome") or item.get("effect_state")`
abbrev pub effective_state : CheckpointInfo → Option Text
effective_state k = elim k.reconciliation_outcome [
  | none ↦ k.effect_state
  | some [] ↦ k.effect_state
  | some (c ∷ s) ↦ some (c ∷ s)
]

-- The builder had published the result and only the submission is left.
abbrev pub awaits_submission : CheckpointInfo → Bool
awaits_submission k =
    is_text k.stage (codes "builder_result") && is_text k.next_action (codes "submit_validation")

-- An effect that was not applied must not be the latest one.
unfoldable pub check_not_applied : Option CheckpointInfo → CheckpointInfo → Run (Unit {0})
check_not_applied none i = returns tt
check_not_applied (some k) i =
    need (not (same_field i.effect_id k.effect_id)) recovery_effect_not_resumable

-- Any other effect must be the confirmed publication of the latest checkpoint.
unfoldable pub check_confirmed : Option CheckpointInfo → CheckpointInfo → Run (Unit {0})
unfolding artifact_from_checkpoint
check_confirmed none i = raises (executor_blocked recovery_effect_unsafe)
check_confirmed (some k) i = do
  need
      (is_text (effective_state i) (codes "confirmed")
        && same_field i.effect_id k.effect_id
        && is_text k.effect_state (codes "confirmed")
        && awaits_submission k)
      recovery_effect_unsafe
  artifact_from_checkpoint k
  returns tt

-- `_validate_recovery_effects`
unfoldable pub validate_recovery_effects :
    Option CheckpointInfo → List CheckpointInfo → Run (Unit {0})
unfolding check_not_applied check_confirmed
validate_recovery_effects latest [] = returns tt
validate_recovery_effects latest (i ∷ is) = do
  if is_text (effective_state i) (codes "not_applied")
      then check_not_applied latest i
      else check_confirmed latest i
  validate_recovery_effects latest is
