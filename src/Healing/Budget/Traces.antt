-- ===== src/Healing/Budget/Traces.antt =====
-- src/cockpit/ops/services/self_healing_service.py: the steps that a component's tables take, in any
-- order, and the budget of attempts along them.
use cockpit_cli.Prelude.{
  Bool, HoldsOf, Option, String, lookup, lookup-insert_self, nat_eq, none, refl, some, string_eq, ℕ,
  ◌≡◌, ◌≤◌,
}
use cockpit_cli.Enums.{
  component_kind_eq, event_class_eq, incident_status_eq, severity_eq, target_risk_eq,
}
use cockpit_cli.Recovery.{ComponentHealthState, RecoveryAttempt, RecoveryPolicy}
use cockpit_cli.Escalation.{IncidentRecord, start}
use cockpit_cli.Healing.Data.{HealthStore, MadeIds, Managers, RuntimeEvent, TaskSnapshot, left_by}
use cockpit_cli.Healing.Store.{
  latest_pending_for_component, log, save_attempt, save_incident, save_state, stored_state,
}
use cockpit_cli.Healing.Reports.{
  failure_of, observe_task_snapshot, observe_tunnel_snapshot, on_event,
}
use cockpit_cli.Healing.Recoveries.{
  RecoveryPolicies, run_pending, run_recovery, running_at, start_attempt,
}
use cockpit_cli.Healing.Operator.{
  acknowledge_found, acknowledge_incident, changed_by_operator, close_found, close_incident,
  reset_found, reset_quarantine, retried_state,
}
use cockpit_cli.Healing.Calls.{store_or_same}
use cockpit_cli.Healing.Budget.{IsWithinBudget, IsWithinBudget-later}
use cockpit_cli.Healing.Budget.Failures.{Within}
use cockpit_cli.Healing.Budget.Reports.{
  IsKnown, observe_task_snapshot-Within, observe_tunnel_snapshot-Within, on_event-Within,
}
use cockpit_cli.Healing.Budget.Runs.{IsProperRun, recover-Within}
use cockpit_cli.Healing.Budget.Saves.{start-IsWithinBudget}
use cockpit_cli.Healing.Budget.Queries.{IsPendingIn, latest_pending-HoldsOf, pending_of-parts}

-- A step at a moment: an event, a snapshot, the recovery of one component, which is what
-- `run_due_recoveries` repeats, and what an operator does. A retry is its save and the recoveries.
pub data HealthStep (policies : RecoveryPolicies) (c : String) (policy : RecoveryPolicy) (now : ℕ)
    : HealthStore → HealthStore → Type 0 where
  event_step :
      (made : MadeIds) (event : RuntimeEvent) (s : HealthStore)
      → HoldsOf (IsKnown policies c policy) (failure_of made event)
      → HealthStep policies c policy now s (left_by (on_event policies now made event s))
  task_step :
      (t : TaskSnapshot) (s : HealthStore)
      → HealthStep policies c policy now s (observe_task_snapshot now t s)
  tunnel_step :
      (profile_id : String) (alive : Bool) (s : HealthStore)
      → HealthStep policies c policy now s (observe_tunnel_snapshot now profile_id alive s)
  recovery_step :
      (m : Managers) (st : ComponentHealthState) (s : HealthStore)
      → HoldsOf
          (λ a. IsProperRun policies c policy m st a.id)
          (latest_pending_for_component st.component_id s)
      → HealthStep policies c policy now s (left_by (run_recovery policies m now st s))
  retry_step :
      (st : ComponentHealthState) (s : HealthStore)
      → stored_state st.component_id s ≡ some st
      → HealthStep policies c policy now s (save_state (retried_state now st) s)
  reset_step :
      (id : String) (s : HealthStore)
      → HealthStep policies c policy now s (store_or_same s (reset_quarantine id s))
  acknowledge_step :
      (id : String) (s : HealthStore)
      → HealthStep policies c policy now s (store_or_same s (acknowledge_incident now id s))
  close_step :
      (id : String) (s : HealthStore)
      → HealthStep policies c policy now s (store_or_same s (close_incident now id s))

-- Steps one after another, while time passes
pub data HealthTrace (policies : RecoveryPolicies) (c : String) (policy : RecoveryPolicy)
    (start : ℕ) (first : HealthStore) : ℕ → HealthStore → Type 0 where
  at_start : HealthTrace policies c policy start first start first
  then_step :
      {now later : ℕ} {s s2 : HealthStore}
      → HealthTrace policies c policy start first now s
      → now ≤ later
      → HealthStep policies c policy later s s2
      → HealthTrace policies c policy start first later s2

module _ (policies : RecoveryPolicies) (c : String) (policy : RecoveryPolicy) (now : ℕ) where
  run_pending-Within :
      (m : Managers) (st : ComponentHealthState) (s : HealthStore) (o : Option RecoveryAttempt)
      → HoldsOf (IsPendingIn st.component_id s.attempts) o
      → HoldsOf (λ a. IsProperRun policies c policy m st a.id) o
      → Within c policy now s
      → Within c policy now (left_by (run_pending policies m now st s o))
  unfolding run_pending start_attempt running_at log save_attempt
  run_pending-Within m st s none found proper h = h
  run_pending-Within m st s (some a) (stored, p) proper h =
      let (own, waits) = pending_of-parts st.component_id a p in
      recover-Within c policy now policies m st (running_at now a)
        (start_attempt now st.component_id a s)
        (lookup-insert_self a.id (running_at now a) s.attempts)
        ((string_eq.beq_holds a.component_id st.component_id).0 own) refl
        (start-IsWithinBudget c policy now a (running_at now a) s.attempts stored waits refl refl h)
        st.component_kind refl proper

  attempts-reset_found :
      (s : HealthStore) (o : Option ComponentHealthState)
      → (store_or_same s (reset_found s o)).attempts ≡ s.attempts
  unfolding reset_found log save_state
  attempts-reset_found s none = refl
  attempts-reset_found s (some st) = refl

  attempts-acknowledge_found :
      (s : HealthStore) (o : Option IncidentRecord)
      → (store_or_same s (acknowledge_found now s o)).attempts ≡ s.attempts
  unfolding acknowledge_found changed_by_operator log save_incident
  attempts-acknowledge_found s none = refl
  attempts-acknowledge_found s (some i) = refl

  attempts-close_found :
      (s : HealthStore) (o : Option IncidentRecord)
      → (store_or_same s (close_found now s o)).attempts ≡ s.attempts
  unfolding close_found changed_by_operator log save_incident
  attempts-close_found s none = refl
  attempts-close_found s (some i) = refl

  step-Within :
      {s s2 : HealthStore}
      → HealthStep policies c policy now s s2
      → Within c policy now s
      → Within c policy now s2
  unfolding run_recovery save_state reset_quarantine acknowledge_incident close_incident
  step-Within (event_step made event s known) h =
      on_event-Within c policy now policies made event s known h
  step-Within (task_step t s) h = observe_task_snapshot-Within c policy now t s h
  step-Within (tunnel_step profile_id alive s) h =
      observe_tunnel_snapshot-Within c policy now profile_id alive s h
  step-Within (recovery_step m st s proper) h =
      run_pending-Within m st s (latest_pending_for_component st.component_id s)
        (latest_pending-HoldsOf st.component_id s h.table) proper h
  step-Within (retry_step st s found) h = h
  step-Within (reset_step id s) h = rw (attempts-reset_found s (stored_state id s)) h
  step-Within (acknowledge_step id s) h =
      rw (attempts-acknowledge_found s (lookup id s.incidents)) h
  step-Within (close_step id s) h = rw (attempts-close_found s (lookup id s.incidents)) h

-- A component never has more than one attempt that is pending, and that one together with those over and
-- still in the retry window is never more than its policy allows: along any steps, whatever the
-- restarts do, if failures of the component come with kinds of that policy and `make_id` gives no id of
-- the attempt that is being run.
pub trace-IsWithinBudget :
    (policies : RecoveryPolicies) (c : String) (policy : RecoveryPolicy) (start : ℕ)
    (first : HealthStore)
    → IsWithinBudget c policy start first.attempts
    → {now : ℕ} {s : HealthStore} → HealthTrace policies c policy start first now s
    → IsWithinBudget c policy now s.attempts
trace-IsWithinBudget policies c policy start first h at_start = h
trace-IsWithinBudget policies c policy start first h
      (then_step {now} {later} {s} {s2} before le step) =
    step-Within policies c policy later step (
      IsWithinBudget-later c policy now later s.attempts le
        (trace-IsWithinBudget policies c policy start first h before))
