-- ===== src/Healing/Failures.antt =====
-- src/cockpit/ops/services/self_healing_service.py: what a failure does, `_handle_failure` with the
-- methods that it calls. The clock is read once for a call.
use Prim.Native.String.{◌++◌ as str_append}
use cockpit_cli.Prelude.{
  Bool, List, Option, String, [], dec_beq, false, if◌then◌else◌, ltb, nat_eq, none, some, string_eq,
  true, ℕ, ◌==◌, ◌∷◌,
}
use cockpit_cli.Enums.{
  HealthStatus, HealthStatus-discrete, IncidentSeverity, IncidentStatus, RecoveryAttemptStatus,
  component_kind_eq, critical, event_class_eq, high, incident_status_eq, info, severity_eq,
  target_risk_eq, warning,
}
use cockpit_cli.Recovery.{
  ComponentHealthState, Explanation, RecoveryAttempt, already_quarantined, exhausted_again,
  non_recoverable, repeated_in_cooldown,
}
use cockpit_cli.Escalation.{IncidentRecord}
use cockpit_cli.Healing.Data.{
  ComponentRef, Failure, HealthEntry, HealthStore, attempt_recorded, component_health_changed,
  incident_noted, incident_status_moved, incident_was_opened, transition_recorded,
}
use cockpit_cli.Healing.Store.{
  get_open_for_component, latest_pending_for_component, log, save_attempt, save_incident,
  stored_state,
}

-- The explanations that a quarantine can have; the others hold numbers and are only noted.
unfoldable pub quarantine_text : Explanation → Option String
quarantine_text (non_recoverable reason) = some (
    str_append "Recovery blocked because '"
      (str_append reason "' is classified as non-recoverable."))
quarantine_text already_quarantined = some "Component is already quarantined."
quarantine_text repeated_in_cooldown = some "Failure repeated during cooldown window."
quarantine_text exhausted_again =
    some "Recovery attempts exhausted again after prior cooldown; component quarantined."
quarantine_text _ = none

-- `_SEVERITY_ORDER`
abbrev pub severity_order : IncidentSeverity → ℕ
severity_order info = 0
severity_order warning = 1
severity_order high = 2
severity_order critical = 3

abbrev pub same_health : HealthStatus → HealthStatus → Bool
same_health a b = dec_beq (HealthStatus-discrete a b)

abbrev pub same_incident_status : IncidentStatus → IncidentStatus → Bool
same_incident_status a b = a == b

-- `_record_transition`
unfoldable pub record_transition : HealthStatus → ComponentHealthState → HealthStore → HealthStore
unfolding log
record_transition previous st s =
    if same_health previous st.status
    then s
    else log
        (transition_recorded st.component_id previous st.status
          ∷ component_health_changed st.component_id previous st.status
          ∷ [])
        s

abbrev is_resolved_status : IncidentStatus → Bool
is_resolved_status IncidentStatus.resolved = true
is_resolved_status _ = false

-- The incident with its new status
unfoldable pub with_status : ℕ → IncidentStatus → IncidentRecord → IncidentRecord
with_status now new i = record i {
  status = new;
  updated_at = some now;
  resolved_at = if is_resolved_status new then some now else i.resolved_at;
}

-- `_set_incident_status`
unfoldable pub set_status : ℕ → IncidentStatus → IncidentRecord → HealthStore → HealthStore
unfolding save_incident with_status log
set_status now new i s =
    if same_incident_status i.status new
    then save_incident (record i { updated_at = some now }) s
    else log (incident_noted i.id "status_changed" ∷ incident_status_moved i.id i.status new ∷ [])
        (save_incident (with_status now new i) s)

-- The record that `_ensure_incident` makes where no incident of the component is open
unfoldable pub new_incident : ℕ → Failure → IncidentRecord
new_incident now f = record {
  id = f.made.made_incident;
  component_id = f.component.component_id;
  component_kind = f.component.kind;
  severity = f.severity;
  status = IncidentStatus.open_incident;
  title = str_append f.component.display_name " unhealthy";
  summary = f.reason;
  opened_at = some now;
  updated_at = some now;
  acknowledged_at = none;
  resolved_at = none;
  closed_at = none;
}

-- The incident that is open, with what the new failure changes of it
unfoldable pub seen_again : ℕ → Failure → IncidentRecord → IncidentRecord
seen_again now f i = record i {
  summary = f.reason;
  updated_at = some now;
  severity =
      if ltb (severity_order i.severity) (severity_order f.severity)
      then f.severity
      else i.severity;
}

unfoldable pub incident_for : ℕ → Failure → Option IncidentRecord → IncidentRecord
unfolding new_incident seen_again
incident_for now f none = new_incident now f
incident_for now f (some i) = seen_again now f i

unfoldable pub incident_entries : Failure → Option IncidentRecord → List HealthEntry
incident_entries f none =
    incident_noted f.made.made_incident "opened"
    ∷ incident_was_opened f.made.made_incident f.component.component_id f.severity
    ∷ []
incident_entries f (some i) = incident_noted i.id "failure_observed" ∷ []

-- `_ensure_incident`: the incident that it returns
unfoldable pub ensured_incident : ℕ → Failure → HealthStore → IncidentRecord
unfolding incident_for get_open_for_component
ensured_incident now f s = incident_for now f (get_open_for_component f.component.component_id s)

-- `_ensure_incident`: what it saves
unfoldable pub ensure_incident : ℕ → Failure → HealthStore → HealthStore
unfolding ensured_incident save_incident log incident_entries get_open_for_component
ensure_incident now f s =
    log (incident_entries f (get_open_for_component f.component.component_id s))
      (save_incident (ensured_incident now f s) s)

-- A component that is not known yet
unfoldable pub new_state : HealthStatus → ComponentRef → ComponentHealthState
new_state status c = record {
  component_id = c.component_id;
  component_kind = c.kind;
  display_name = c.display_name;
  status = status;
  last_heartbeat_at = none;
  last_failure_at = none;
  last_recovery_at = none;
  next_recovery_at = none;
  cooldown_until = none;
  consecutive_failures = 0;
  exhaustion_count = 0;
  quarantined = false;
  quarantine_reason = none;
  last_incident_id = none;
}

unfoldable pub state_or_new :
    HealthStatus → ComponentRef → Option ComponentHealthState → ComponentHealthState
unfolding new_state
state_or_new status c none = new_state status c
state_or_new status c (some st) = st

-- The state that the failure is evaluated with
unfoldable pub failing_state : ℕ → Failure → HealthStore → ComponentHealthState
unfolding state_or_new stored_state
failing_state now f s =
    record (state_or_new HealthStatus.failed f.component
      (stored_state f.component.component_id s)) { last_failure_at = some now }

-- `RecoveryAttemptRecorded`
abbrev pub recorded : String → RecoveryAttempt → HealthEntry
recorded component_id a = attempt_recorded a.id component_id a.status

unfoldable pub failed_with : ℕ → String → RecoveryAttempt → RecoveryAttempt
failed_with now reason a = record a {
  status = RecoveryAttemptStatus.failed_attempt;
  finished_at = some now;
  error_message = some reason;
}

unfoldable pub fail_attempt : ℕ → Failure → HealthStore → Option RecoveryAttempt → HealthStore
unfolding failed_with save_attempt log
fail_attempt now f s none = s
fail_attempt now f s (some a) =
    let a2 = failed_with now f.reason a in
    log (recorded f.component.component_id a2 ∷ []) (save_attempt a2 s)

-- The attempt under way counts as failed, unless the caller has seen to that.
unfoldable pub fail_pending : ℕ → Failure → HealthStore → HealthStore
unfolding fail_attempt latest_pending_for_component
fail_pending now f s =
    if f.pending_already_failed
    then s
    else fail_attempt now f s (latest_pending_for_component f.component.component_id s)
