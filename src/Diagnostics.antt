-- ===== src/Diagnostics.antt =====
-- app/task_diagnostics.py: the report on one task, read from the tables of the store in one
-- transaction. The report holds the row of the task and of each worker where the code copies their
-- columns; `round_ms` stands for the rounding of an age in seconds to milliseconds.
use engineering_worker_pool.Base.{
  ℕ, ◌-◌, ◌*◌, Bool, true, false, not, ◌&&◌, ◌||◌, List, [], ◌∷◌, map, Option, none, some, Text,
  Time, codes, seconds, is_none, is_text, is_some, leb, ltb, ◌==◌, iff, truthy, nonempty, length,
  all_chars, is_digit, if◌then◌else◌, find, any, count,
}
use engineering_worker_pool.Store.Schema.{
  Role, builder, validator, queued, validating, Worker, Lane, Task, Tables, Settings,
}
use engineering_worker_pool.Store.Errors.{
  Result, ok, err, ◌>>=◌, ◌>>◌, raise_if, or_raise, invalid_argument, task_not_found,
}
use engineering_worker_pool.Store.Sanitize.{is_task_id}
use engineering_worker_pool.Store.Queries.{
  is_active, is_state, is_role, is_normal, find_task, find_lane, holds_active,
}
use engineering_worker_pool.Store.Recovery.{rules_diverge, serves}
use engineering_worker_pool.Store.Claim.{in_flight}
use engineering_worker_pool.Store.Views.{order_by}
pub mod Agreement

-- Why a worker would not be given the task.
pub data Reason : Type 0 where
  offline_or_stale profile_not_normal governance_not_ready rules_sha_mismatch worker_busy : Reason
  repository_affinity_mismatch lane_disabled_or_missing lane_capacity_reached : Reason
  validator_same_as_builder role_not_required_for_task_state : Reason

abbrev pub required_role : Task → Option Role
required_role t =
    if is_state queued t.state && is_none t.leased_by
    then some builder
    else if is_state validating t.state && is_none t.leased_by
    then some validator
    else none

abbrev pub is_required : Option Role → Role → Bool
is_required none role = false
is_required (some r) role = is_role role r

abbrev pub is_open_lane : Option Lane → Bool
is_open_lane none = false
is_open_lane (some r) = r.enabled

abbrev pub is_full_lane : Option Lane → ℕ → Bool
is_full_lane none active = false
is_full_lane (some r) active = leb r.max_in_flight active

-- `if b: reasons.append(x)`, before the rest of the reasons.
abbrev pub add_if {ℓ} : {A : Type ℓ} → Bool → A → List A → List A
add_if true x xs = x ∷ xs
add_if false x xs = xs

abbrev pub why_idle_of : List Reason → Option Reason
why_idle_of [] = none
why_idle_of (r ∷ rs) = some r

-- `[a-z][a-z0-9_:-]{0,127}`
unfoldable pub is_reason_code : Text → Bool
is_reason_code [] = false
is_reason_code (c ∷ s) =
    leb b'a' c
    && leb c b'z'
    && all_chars
        (λ d. (leb b'a' d && leb d b'z') || is_digit d || d == b'_' || d == b':' || d == b'-') s
    && leb (length s) 127

-- A reason that is not a code is not shown.
unfoldable pub shown_reason : Option Text → Option Text
unfolding is_reason_code
shown_reason none = none
shown_reason (some s) =
    if not (nonempty s) then none else if is_reason_code s then some s else some (codes "redacted")

abbrev pub is_expired_lease : Option Time → Time → Bool
is_expired_lease none now = false
is_expired_lease (some at) now = leb at now

pub record WorkerDiagnosis : Type 0 where
  pub worker : Worker
  pub heartbeat_age_ms : ℕ
  pub rules_sha_matches : Bool
  pub eligibility_precheck : Bool
  -- none where the worker is available
  pub why_idle : Option Reason
  pub reasons : List Reason

pub record TaskDiagnosis : Type 0 where
  pub task : Task
  pub lease_expired_observed : Bool
  pub blocked_reason : Option Text
  pub progress_age_ms : ℕ
  pub progress_stalled_observed : Bool
  pub required_role : Option Role
  pub lane : Option Lane
  pub active_count : ℕ
  pub workers : List WorkerDiagnosis
  pub precheck_eligible_workers : ℕ

abbrev pub role_text : Role → Text
role_text builder = codes "builder"
role_text validator = codes "validator"

-- `ORDER BY role,worker_id`
abbrev pub diagnosis_order : Worker → List Text
diagnosis_order w = role_text w.role ∷ w.worker_id ∷ []

module _ (round_ms : Time → ℕ) where
  -- `_age_seconds`, in milliseconds
  abbrev pub age_ms : Time → Time → ℕ
  age_ms now at = round_ms (now - at)

  unfoldable pub reasons_of : Settings → Time → Tables → Task → Worker → List Reason
  unfolding serves in_flight
  reasons_of c now d t w =
      let lane = find_lane t.repository d in
      add_if (ltb (c.heartbeat_ttl_seconds * 1000) (age_ms now w.last_heartbeat_at))
        offline_or_stale
        (add_if (not (is_normal w.profile)) profile_not_normal (
          add_if (not w.gateway_ok || not w.state_validated) governance_not_ready (
            add_if (rules_diverge c w) rules_sha_mismatch (
              add_if (any (holds_active w.worker_id) d.tasks) worker_busy (
                add_if (not (serves w.worker_id t.repository d)) repository_affinity_mismatch (
                  add_if (not (is_open_lane lane)) lane_disabled_or_missing (
                    add_if (is_role w.role builder && is_full_lane lane (in_flight t.repository d))
                      lane_capacity_reached
                      (add_if (is_role w.role validator && is_text t.builder_worker_id w.worker_id)
                        validator_same_as_builder
                        (add_if (not (is_required (required_role t) w.role))
                          role_not_required_for_task_state [])))))))))

  abbrev pub diagnose : Settings → Time → Tables → Task → Worker → WorkerDiagnosis
  diagnose c now d t w =
      let reasons = reasons_of c now d t w in
      record {
        worker = w;
        heartbeat_age_ms = age_ms now w.last_heartbeat_at;
        rules_sha_matches = not (rules_diverge c w);
        eligibility_precheck = length reasons == 0;
        why_idle = why_idle_of reasons;
        reasons = reasons;
      }

  -- `read_task_diagnostics`
  unfoldable pub read_task_diagnostics : Settings → Text → Time → Tables → Result TaskDiagnosis
  unfolding is_task_id order_by reasons_of shown_reason in_flight
  read_task_diagnostics c task_id now d = do
    raise_if (not (is_task_id task_id)) invalid_argument
    raise_if (c.heartbeat_ttl_seconds == 0 || c.progress_stall_seconds == 0) invalid_argument
    t ← or_raise (find_task task_id d) task_not_found
    let workers = map (diagnose c now d t) (order_by diagnosis_order d.workers)
    ok (record {
      task = t;
      lease_expired_observed = is_expired_lease t.lease_expires_at now;
      blocked_reason = shown_reason t.blocked_reason;
      progress_age_ms = age_ms now t.last_material_progress_at;
      progress_stalled_observed =
          is_active t.state
          && leb (c.progress_stall_seconds * 1000) (age_ms now t.last_material_progress_at);
      required_role = required_role t;
      lane = find_lane t.repository d;
      active_count = in_flight t.repository d;
      workers = workers;
      precheck_eligible_workers = count (λ v. v.eligibility_precheck) workers;
    })
