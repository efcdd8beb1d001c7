-- ===== src/Healing/Settle.antt =====
-- src/cockpit/ops/services/self_healing_service.py: the three ways in which `_handle_failure` goes on
-- after the evaluation, and the method as a whole.
use Prim.Native.String.{◌++◌ as str_append}
use cockpit_cli.Prelude.{
  List, Option, [], if◌then◌else◌, nat_eq, none, some, string_eq, true, ℕ, ◌*◌, ◌+◌, ◌∷◌,
}
use cockpit_cli.Enums.{
  ComponentKind, HealthStatus, IncidentStatus, RecoveryAttemptStatus, component_kind_eq,
  event_class_eq, incident_status_eq, severity_eq, target_risk_eq,
}
use cockpit_cli.Recovery.{
  ComponentHealthState, RecoveryAttempt, RecoveryEvaluation, RecoveryPolicy, evaluate, policy_for,
  seconds,
}
use cockpit_cli.Escalation.{IncidentRecord}
use cockpit_cli.Healing.Data.{
  Failure, HealthOutcome, HealthStore, completed, incident_noted, key_error, quarantine_entered,
}
use cockpit_cli.Healing.Store.{log, recent_for_component, save_attempt, save_state}
use cockpit_cli.Healing.Failures.{
  ensure_incident, ensured_incident, fail_pending, failing_state, quarantine_text,
  record_transition, recorded, set_status,
}
use cockpit_cli.Healing.Kinds.{kind_value}

-- One failure more, and no plan
unfoldable pub counted : ComponentHealthState → ComponentHealthState
counted st = record st {
  consecutive_failures = st.consecutive_failures + 1;
  next_recovery_at = none;
  cooldown_until = none;
}

unfoldable pub scheduled_state :
    ℕ → RecoveryEvaluation → IncidentRecord → ComponentHealthState → ComponentHealthState
unfolding counted
scheduled_state now e i st = record (counted st) {
  status = HealthStatus.recovering;
  next_recovery_at = some (now + seconds e.backoff_seconds);
  last_incident_id = some i.id;
}

unfoldable pub cooling_state :
    RecoveryEvaluation → IncidentRecord → ComponentHealthState → ComponentHealthState
unfolding counted
cooling_state e i st = record (counted st) {
  status = HealthStatus.failed;
  cooldown_until = e.cooldown_until;
  exhaustion_count = st.exhaustion_count + 1;
  last_incident_id = some i.id;
}

unfoldable pub quarantined_state :
    RecoveryEvaluation → IncidentRecord → ComponentHealthState → ComponentHealthState
unfolding counted quarantine_text
quarantined_state e i st = record (counted st) {
  status = HealthStatus.quarantined;
  quarantined = true;
  quarantine_reason = quarantine_text e.explanation;
  cooldown_until = e.cooldown_until;
  last_incident_id = some i.id;
}

unfoldable pub new_attempt : ℕ → Failure → RecoveryEvaluation → IncidentRecord → RecoveryAttempt
new_attempt now f e i = record {
  id = f.made.made_attempt;
  incident_id = i.id;
  component_id = f.component.component_id;
  attempt_number = e.attempt_number;
  status = RecoveryAttemptStatus.scheduled;
  trigger = "automatic";
  action = str_append "recover:" (kind_value f.component.kind);
  backoff_ms = e.backoff_seconds * 1000;
  scheduled_for = some (now + seconds e.backoff_seconds);
  started_at = none;
  finished_at = none;
  error_message = none;
}

unfoldable pub schedule_attempt :
    ℕ
    → Failure
    → RecoveryEvaluation
    → IncidentRecord
    → ComponentHealthState
    → HealthStore
    → HealthStore
unfolding log save_attempt set_status record_transition save_state scheduled_state new_attempt
schedule_attempt now f e i st s =
    let st2 = scheduled_state now e i st in
    let a = new_attempt now f e i in
    log (incident_noted i.id "recovery_scheduled" ∷ recorded f.component.component_id a ∷ []) (
      save_attempt a (
        set_status now IncidentStatus.recovering_incident i
          (record_transition st.status st2 (save_state st2 s))))

unfoldable pub enter_cooldown :
    ℕ → RecoveryEvaluation → IncidentRecord → ComponentHealthState → HealthStore → HealthStore
unfolding log set_status record_transition save_state cooling_state
enter_cooldown now e i st s =
    let st2 = cooling_state e i st in
    log (incident_noted i.id "cooldown_entered" ∷ []) (
      set_status now IncidentStatus.open_incident i
        (record_transition st.status st2 (save_state st2 s)))

unfoldable pub enter_quarantine :
    ℕ → RecoveryEvaluation → IncidentRecord → ComponentHealthState → HealthStore → HealthStore
unfolding log set_status record_transition save_state quarantined_state
enter_quarantine now e i st s =
    let st2 = quarantined_state e i st in
    log (incident_noted i.id "quarantined" ∷ quarantine_entered st2.component_id ∷ []) (
      set_status now IncidentStatus.quarantined_incident i
        (record_transition st.status st2 (save_state st2 s)))

-- The branches after the evaluation. Where none of the flags is set, nothing more is saved.
unfoldable pub settle_failure :
    ℕ
    → Failure
    → RecoveryEvaluation
    → IncidentRecord
    → ComponentHealthState
    → HealthStore
    → HealthStore
unfolding schedule_attempt enter_cooldown enter_quarantine
settle_failure now f e i st s =
    if e.should_schedule_attempt
    then schedule_attempt now f e i st s
    else if e.should_enter_cooldown
    then enter_cooldown now e i st s
    else if e.should_quarantine
    then enter_quarantine now e i st s
    else s

-- What the policy makes of the failure
unfoldable pub evaluation_of :
    RecoveryPolicy → ℕ → Failure → ComponentHealthState → HealthStore → RecoveryEvaluation
unfolding evaluate recent_for_component
evaluation_of policy now f st s =
    evaluate policy (some st) (recent_for_component policy f.component.component_id now s) f.reason
      now

unfoldable pub handle_evaluated :
    RecoveryPolicy → ℕ → Failure → ComponentHealthState → HealthStore → HealthStore
unfolding settle_failure evaluation_of ensured_incident ensure_incident
handle_evaluated policy now f st s =
    settle_failure now f (evaluation_of policy now f st s) (ensured_incident now f s) st
      (ensure_incident now f s)

unfoldable pub handle_with :
    ℕ → Failure → ComponentHealthState → HealthStore → Option RecoveryPolicy → HealthOutcome
unfolding handle_evaluated
handle_with now f st s none = key_error f.component.kind s
handle_with now f st s (some policy) = completed (handle_evaluated policy now f st s)

-- `_handle_failure`
unfoldable pub handle_failure :
    List (ComponentKind × RecoveryPolicy) → ℕ → Failure → HealthStore → HealthOutcome
unfolding handle_with fail_pending failing_state policy_for
handle_failure policies now f s =
    handle_with now f (failing_state now f s) (fail_pending now f s)
      (policy_for policies f.component.kind)
