-- ===== src/Recovery.antt =====
-- src/cockpit/ops/services/recovery_policy_service.py, with the records of
-- src/cockpit/ops/models/health.py that it reads. Times are microseconds, as in Python's
-- `datetime`; the numbers of a policy are the non-negative ones of the table of defaults. A message
-- is a constructor that holds the values interpolated into the text.
mod Defaults
pub mod Verdict
pub mod Window
pub mod Backoff
mod Tests
pub use Defaults.{RecoveryPolicy}
unfoldable pub use Defaults.{default_policies, get_policy}
use cockpit_cli.Prelude.{
  Bool, List, Option, String, [], any, codes, false, if◌then◌else◌, is_empty, is_infix, keep, leb,
  length, lower, lower_char, ltb, max, min, none, some, true, ℕ, ◌&&◌, ◌*◌, ◌+◌, ◌-◌, ◌^◌, ◌∷◌,
}
use cockpit_cli.Enums.{
  ComponentKind, HealthStatus, RecoveryAttemptStatus, failed, quarantined, recovering,
}

pub record ComponentHealthState : Type 0 where
  pub component_id : String
  pub component_kind : ComponentKind
  pub display_name : String
  pub status : HealthStatus
  pub last_heartbeat_at : Option ℕ
  pub last_failure_at : Option ℕ
  pub last_recovery_at : Option ℕ
  pub next_recovery_at : Option ℕ
  pub cooldown_until : Option ℕ
  pub consecutive_failures : ℕ
  pub exhaustion_count : ℕ
  pub quarantined : Bool
  pub quarantine_reason : Option String
  pub last_incident_id : Option String

pub record RecoveryAttempt : Type 0 where
  pub id : String
  pub incident_id : String
  pub component_id : String
  pub attempt_number : ℕ
  pub status : RecoveryAttemptStatus
  pub trigger : String
  pub action : String
  pub backoff_ms : ℕ
  pub scheduled_for : Option ℕ
  pub started_at : Option ℕ
  pub finished_at : Option ℕ
  pub error_message : Option String

pub data Explanation : Type 0 where
  non_recoverable : String → Explanation
  already_quarantined repeated_in_cooldown exhausted_again : Explanation
  attempt_scheduled : ℕ → ℕ → Explanation
  entering_cooldown : ℕ → Explanation

pub record RecoveryEvaluation : Type 0 where
  pub should_schedule_attempt : Bool
  pub should_enter_cooldown : Bool
  pub should_quarantine : Bool
  pub attempt_number : ℕ
  pub backoff_seconds : ℕ
  pub cooldown_until : Option ℕ
  pub next_status : HealthStatus
  pub explanation : Explanation

-- `timedelta(seconds=n)`
abbrev pub seconds : ℕ → ℕ
seconds n = n * 1000000

-- `policies or self._default_policies()`: an empty dictionary counts as none.
pub new_service : List (ComponentKind × RecoveryPolicy) → List (ComponentKind × RecoveryPolicy)
new_service policies = if is_empty policies then default_policies else policies

-- `self._policies.get(kind, self._default_policies()[kind])`. The default is looked up first, and
-- raises `KeyError`, here `none`, where the table has no entry.
unfoldable pub policy_for :
    List (ComponentKind × RecoveryPolicy) → ComponentKind → Option RecoveryPolicy
policy_for policies kind = elim (get_policy kind default_policies) [
  | none ↦ none
  | some fallback ↦ elim (get_policy kind policies) [ none ↦ some fallback | some p ↦ some p ]
]

-- `any(marker in lower_reason for marker in policy.non_recoverable_markers)`
unfoldable pub is_non_recoverable : RecoveryPolicy → String → Bool
unfolding is_infix lower_char
is_non_recoverable policy reason =
    any (λ marker. is_infix (codes marker) (lower (codes reason))) policy.non_recoverable_markers

-- `max((attempt.attempt_number for attempt in recent_attempts), default=0)`
unfoldable pub last_attempt_number : List RecoveryAttempt → ℕ
last_attempt_number [] = 0
last_attempt_number (a ∷ rest) = max a.attempt_number (last_attempt_number rest)

-- `attempt.finished_at or attempt.started_at or attempt.scheduled_for`
unfoldable pub attempt_time : RecoveryAttempt → Option ℕ
attempt_time a = elim a.finished_at [
  | some t ↦ some t
  | none ↦ elim a.started_at [ some t ↦ some t | none ↦ a.scheduled_for ]
]

-- The test `time >= now - timedelta(seconds=max(1, window))`, with the window added on the other
-- side, so that no subtraction stops at 0.
unfoldable pub is_in_window : RecoveryPolicy → ℕ → RecoveryAttempt → Bool
unfolding attempt_time
is_in_window policy now a = elim (attempt_time a) [
  | none ↦ false
  | some t ↦ leb now (t + seconds (max 1 policy.retry_window_seconds))
]

unfoldable pub in_window : RecoveryPolicy → ℕ → List RecoveryAttempt → List RecoveryAttempt
in_window policy now = keep (is_in_window policy now)

unfoldable pub is_quarantined : Option ComponentHealthState → Bool
is_quarantined none = false
is_quarantined (some state) = state.quarantined

-- The end of a cooldown that is still running at `now`.
unfoldable pub active_cooldown : Option ComponentHealthState → ℕ → Option ℕ
active_cooldown none now = none
active_cooldown (some state) now = elim state.cooldown_until [
  | none ↦ none
  | some until ↦ if ltb now until then some until else none
]

pub known_cooldown : Option ComponentHealthState → Option ℕ
known_cooldown none = none
known_cooldown (some state) = state.cooldown_until

pub exhaustions : Option ComponentHealthState → ℕ
exhaustions none = 0
exhaustions (some state) = state.exhaustion_count

pub backoff_for : RecoveryPolicy → ℕ → ℕ
backoff_for policy attempts_used =
    min policy.max_backoff_seconds (policy.base_backoff_seconds * 2 ^ max 0 attempts_used)

-- The part of `evaluate_failure` behind its three early returns.
unfoldable pub evaluate_attempts :
    RecoveryPolicy → Option ComponentHealthState → List RecoveryAttempt → ℕ → RecoveryEvaluation
unfolding backoff_for in_window last_attempt_number exhaustions
evaluate_attempts policy state recent now =
    let attempts_used = length (in_window policy now recent) in
    let next_attempt_number = last_attempt_number recent + 1 in
    let until = now + seconds (max 1 policy.cooldown_seconds) in
    if ltb attempts_used policy.max_attempts
    then record {
      should_schedule_attempt = true;
      should_enter_cooldown = false;
      should_quarantine = false;
      attempt_number = next_attempt_number;
      backoff_seconds = max 0 (backoff_for policy attempts_used);
      cooldown_until = none;
      next_status = recovering;
      explanation = attempt_scheduled next_attempt_number (backoff_for policy attempts_used);
    }
    else if policy.quarantine_after_exhaustion && leb 1 (exhaustions state)
    then record {
      should_schedule_attempt = false;
      should_enter_cooldown = false;
      should_quarantine = true;
      attempt_number = next_attempt_number - 1;
      backoff_seconds = 0;
      cooldown_until = some until;
      next_status = quarantined;
      explanation = exhausted_again;
    }
    else record {
      should_schedule_attempt = false;
      should_enter_cooldown = true;
      should_quarantine = false;
      attempt_number = next_attempt_number - 1;
      backoff_seconds = 0;
      cooldown_until = some until;
      next_status = failed;
      explanation = entering_cooldown until;
    }

-- `evaluate_failure` for the policy found.
unfoldable pub evaluate :
    RecoveryPolicy
    → Option ComponentHealthState
    → List RecoveryAttempt
    → String
    → ℕ
    → RecoveryEvaluation
unfolding evaluate_attempts is_quarantined active_cooldown known_cooldown
evaluate policy state recent reason now =
    if is_non_recoverable policy reason
    then record {
      should_schedule_attempt = false;
      should_enter_cooldown = false;
      should_quarantine = true;
      attempt_number = last_attempt_number recent;
      backoff_seconds = 0;
      cooldown_until = none;
      next_status = quarantined;
      explanation = non_recoverable reason;
    }
    else if is_quarantined state
    then record {
      should_schedule_attempt = false;
      should_enter_cooldown = false;
      should_quarantine = true;
      attempt_number = last_attempt_number recent;
      backoff_seconds = 0;
      cooldown_until = known_cooldown state;
      next_status = quarantined;
      explanation = already_quarantined;
    }
    else elim (active_cooldown state now) [
      | some until ↦ record {
        should_schedule_attempt = false;
        should_enter_cooldown = false;
        should_quarantine = policy.quarantine_after_exhaustion;
        attempt_number = last_attempt_number recent;
        backoff_seconds = 0;
        cooldown_until = some until;
        next_status = if policy.quarantine_after_exhaustion then quarantined else failed;
        explanation = repeated_in_cooldown;
      }
      | none ↦ evaluate_attempts policy state recent now
    ]

-- `none` is the `KeyError` of `policy_for`.
pub evaluate_failure :
    List (ComponentKind × RecoveryPolicy)
    → ComponentKind
    → Option ComponentHealthState
    → List RecoveryAttempt
    → String
    → ℕ
    → Option RecoveryEvaluation
unfolding evaluate policy_for
evaluate_failure policies kind state recent reason now = elim (policy_for policies kind) [
  | none ↦ none
  | some policy ↦ some (evaluate policy state recent reason now)
]
