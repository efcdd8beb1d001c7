-- ===== src/Healing/Store.antt =====
-- src/cockpit/ops/repositories/health.py: what is saved and looked up by the self-healing service. Rows
-- that a query ranks alike stand in the order in which they were stored.
use cockpit_cli.Prelude.{
  Bool, Dict, List, Option, String, false, get_elem?, insert, keep, leb, lookup, ltb, map, nat_eq,
  none, not, some, sort, string_eq, true, ℕ, ◌&&◌, ◌++◌, ◌==◌,
}
use cockpit_cli.Enums.{
  HealthStatus, IncidentStatus, RecoveryAttemptStatus, component_kind_eq, event_class_eq,
  incident_status_eq, severity_eq, target_risk_eq,
}
use cockpit_cli.Recovery.{
  ComponentHealthState, RecoveryAttempt, RecoveryPolicy, attempt_time, in_window,
}
use cockpit_cli.Escalation.{IncidentRecord}
use cockpit_cli.Healing.Data.{HealthEntry, HealthStore}

unfoldable pub log : List HealthEntry → HealthStore → HealthStore
log entries s = record s { journal = s.journal ++ entries }

-- `ComponentHealthRepository.save`
unfoldable pub save_state : ComponentHealthState → HealthStore → HealthStore
unfolding insert
save_state st s = record s { states = insert st.component_id st s.states }

-- `IncidentRepository.save`
unfoldable pub save_incident : IncidentRecord → HealthStore → HealthStore
unfolding insert
save_incident i s = record s { incidents = insert i.id i s.incidents }

-- `RecoveryAttemptRepository.save`
unfoldable pub save_attempt : RecoveryAttempt → HealthStore → HealthStore
unfolding insert
save_attempt a s = record s { attempts = insert a.id a s.attempts }

unfoldable pub stored_state : String → HealthStore → Option ComponentHealthState
unfolding lookup
stored_state id s = lookup id s.states

abbrev pub or_zero : Option ℕ → ℕ
or_zero none = 0
or_zero (some t) = t

abbrev pub stored_rows {ℓ} : {A : Type ℓ} → Dict String A → List A
stored_rows d = map (λ (key, row). row) d

-- `status IN (OPEN, ACKNOWLEDGED, RECOVERING, QUARANTINED)`
abbrev pub is_open : IncidentStatus → Bool
is_open IncidentStatus.resolved = false
is_open IncidentStatus.closed = false
is_open _ = true

abbrev pub is_open_of : String → IncidentRecord → Bool
is_open_of component_id i = i.component_id == component_id && is_open i.status

-- `IncidentRepository.get_open_for_component`
unfoldable pub get_open_for_component : String → HealthStore → Option IncidentRecord
unfolding sort
get_open_for_component component_id s =
    get_elem?
      (sort (λ a b. ltb (or_zero b.opened_at) (or_zero a.opened_at))
        (keep (is_open_of component_id) (stored_rows s.incidents)))
      0

-- `status IN (SCHEDULED, RUNNING)`
abbrev pub is_attempt_pending : RecoveryAttemptStatus → Bool
is_attempt_pending RecoveryAttemptStatus.scheduled = true
is_attempt_pending RecoveryAttemptStatus.running = true
is_attempt_pending _ = false

abbrev pub is_pending_of : String → RecoveryAttempt → Bool
is_pending_of component_id a = a.component_id == component_id && is_attempt_pending a.status

-- `RecoveryAttemptRepository.latest_pending_for_component`
unfoldable pub latest_pending_for_component : String → HealthStore → Option RecoveryAttempt
unfolding sort
latest_pending_for_component component_id s =
    get_elem?
      (sort (λ a b. ltb (or_zero b.scheduled_for) (or_zero a.scheduled_for))
        (keep (is_pending_of component_id) (stored_rows s.attempts)))
      0

abbrev pub is_attempt_of : String → RecoveryAttempt → Bool
is_attempt_of component_id a = a.component_id == component_id

-- `RecoveryAttemptRepository.recent_for_component`: the window that it asks for is the one that
-- `evaluate_failure` counts in.
unfoldable pub recent_for_component :
    RecoveryPolicy → String → ℕ → HealthStore → List RecoveryAttempt
unfolding sort in_window
recent_for_component policy component_id now s =
    sort (λ a b. ltb (or_zero (attempt_time b)) (or_zero (attempt_time a)))
      (in_window policy now (keep (is_attempt_of component_id) (stored_rows s.attempts)))

abbrev pub is_recovering : HealthStatus → Bool
is_recovering HealthStatus.recovering = true
is_recovering _ = false

abbrev pub is_reached : ℕ → Option ℕ → Bool
is_reached now none = false
is_reached now (some t) = leb t now

abbrev pub is_recovery_due : ℕ → ComponentHealthState → Bool
is_recovery_due now st =
    is_recovering st.status && is_reached now st.next_recovery_at && not st.quarantined

-- `ComponentHealthRepository.list_due_recoveries`
unfoldable pub list_due_recoveries : ℕ → HealthStore → List ComponentHealthState
unfolding sort
list_due_recoveries now s =
    sort (λ a b. ltb (or_zero a.next_recovery_at) (or_zero b.next_recovery_at))
      (keep (is_recovery_due now) (stored_rows s.states))
