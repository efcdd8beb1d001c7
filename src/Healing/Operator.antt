-- ===== src/Healing/Operator.antt =====
-- src/cockpit/ops/services/self_healing_service.py and src/cockpit/ops/services/incident_service.py:
-- what an operator does.
use cockpit_cli.Prelude.{
  Bool, Option, String, [], false, if◌then◌else◌, lookup, nat_eq, none, some, string_eq, true, ℕ,
  ◌∷◌,
}
use cockpit_cli.Enums.{
  HealthStatus, IncidentStatus, component_kind_eq, event_class_eq, incident_status_eq, severity_eq,
  target_risk_eq,
}
use cockpit_cli.Recovery.{ComponentHealthState}
use cockpit_cli.Escalation.{IncidentRecord}
use cockpit_cli.Healing.Data.{
  HealthOutcome, HealthStore, Managers, completed, incident_noted, incident_status_moved,
  quarantine_cleared, transition_recorded,
}
use cockpit_cli.Healing.Store.{log, save_incident, save_state, stored_state}
use cockpit_cli.Healing.Recoveries.{RecoveryPolicies, run_due_recoveries}

unfoldable pub reset_state : ComponentHealthState → ComponentHealthState
reset_state st = record st {
  quarantined = false;
  quarantine_reason = none;
  cooldown_until = none;
  next_recovery_at = none;
  exhaustion_count = 0;
  status = HealthStatus.degraded;
}

unfoldable pub reset_found : HealthStore → Option ComponentHealthState → Option HealthStore
unfolding log reset_state save_state
reset_found s none = none
reset_found s (some st) = some (
    log
      (transition_recorded st.component_id st.status HealthStatus.degraded
        ∷ quarantine_cleared st.component_id
        ∷ [])
      (save_state (reset_state st) s))

-- `reset_quarantine`; `none` is the `LookupError` of `_require_state`.
unfoldable pub reset_quarantine : String → HealthStore → Option HealthStore
unfolding reset_found stored_state
reset_quarantine component_id s = reset_found s (stored_state component_id s)

abbrev pub is_in_quarantine : HealthStatus → Bool
is_in_quarantine HealthStatus.quarantined = true
is_in_quarantine _ = false

unfoldable pub retried_state : ℕ → ComponentHealthState → ComponentHealthState
retried_state now st = record st {
  next_recovery_at = some now;
  cooldown_until = none;
  status = if is_in_quarantine st.status then st.status else HealthStatus.recovering;
}

unfoldable pub retry_found :
    RecoveryPolicies
    → Managers
    → ℕ
    → HealthStore
    → Option ComponentHealthState
    → Bool × HealthOutcome
unfolding retried_state save_state run_due_recoveries
retry_found policies m now s none = (false, completed s)
retry_found policies m now s (some st) =
    (true, run_due_recoveries policies m now (save_state (retried_state now st) s))

-- `retry_component`
unfoldable pub retry_component :
    RecoveryPolicies → Managers → ℕ → String → HealthStore → Bool × HealthOutcome
unfolding retry_found stored_state
retry_component policies m now component_id s =
    retry_found policies m now s (stored_state component_id s)

unfoldable pub acknowledged_now : ℕ → IncidentRecord → IncidentRecord
acknowledged_now now i = record i {
  status = IncidentStatus.acknowledged;
  acknowledged_at = some now;
  updated_at = some now;
}

unfoldable pub closed_now : ℕ → IncidentRecord → IncidentRecord
closed_now now i = record i {
  status = IncidentStatus.closed;
  closed_at = some now;
  updated_at = some now;
}

-- What an operator's change of an incident saves and publishes
unfoldable pub changed_by_operator :
    String → IncidentStatus → IncidentRecord → HealthStore → HealthStore
unfolding log save_incident
changed_by_operator event_type previous i s =
    log (incident_noted i.id event_type ∷ incident_status_moved i.id previous i.status ∷ [])
      (save_incident i s)

unfoldable pub acknowledge_found : ℕ → HealthStore → Option IncidentRecord → Option HealthStore
unfolding acknowledged_now changed_by_operator
acknowledge_found now s none = none
acknowledge_found now s (some i) =
    some (changed_by_operator "acknowledged" i.status (acknowledged_now now i) s)

-- `acknowledge_incident`; `none` is the `LookupError` of `_require_incident`.
unfoldable pub acknowledge_incident : ℕ → String → HealthStore → Option HealthStore
unfolding acknowledge_found lookup
acknowledge_incident now incident_id s = acknowledge_found now s (lookup incident_id s.incidents)

unfoldable pub close_found : ℕ → HealthStore → Option IncidentRecord → Option HealthStore
unfolding closed_now changed_by_operator
close_found now s none = none
close_found now s (some i) = some (changed_by_operator "closed" i.status (closed_now now i) s)

-- `close_incident`
unfoldable pub close_incident : ℕ → String → HealthStore → Option HealthStore
unfolding close_found lookup
close_incident now incident_id s = close_found now s (lookup incident_id s.incidents)
