-- ===== src/Healing/Sound/Calls.antt =====
-- src/cockpit/ops/services/self_healing_service.py and src/cockpit/ops/services/incident_service.py: the
-- states stay sound under every call.
use cockpit_cli.Prelude.{
  HoldsOf, List, Option, [], arith, lookup, nat_eq, none, refl, some, string_eq, ℕ, ◌∷◌,
}
use cockpit_cli.Enums.{
  component_kind_eq, event_class_eq, incident_status_eq, severity_eq, target_risk_eq,
}
use cockpit_cli.Recovery.{ComponentHealthState}
use cockpit_cli.Escalation.{IncidentRecord}
use cockpit_cli.Healing.Data.{HealthStore, Managers}
use cockpit_cli.Healing.Store.{log, save_incident, save_state, stored_state}
use cockpit_cli.Healing.Recoveries.{RecoveryPolicies}
use cockpit_cli.Healing.Operator.{
  acknowledge_found, acknowledge_incident, changed_by_operator, close_found, close_incident,
  reset_found, reset_quarantine, reset_state, retried_state, retry_component, retry_found,
}
use cockpit_cli.Healing.Calls.{
  HealthCall, apply_call, component_retried, event_published, incident_acknowledged,
  incident_closed, quarantine_reset, recoveries_run, run_calls, store_or_same, task_observed,
  tunnel_observed,
}
use cockpit_cli.Healing.Sound.{AllSoundStates, IsSoundState, save_state-AllSound}
use cockpit_cli.Healing.Sound.Reports.{
  observe_task_snapshot-AllSound, observe_tunnel_snapshot-AllSound, on_event-AllSound,
  stored_state-HoldsOf,
}
use cockpit_cli.Healing.Sound.Runs.{LeavesSound, run_due_recoveries-LeavesSound}

module _ (policies : RecoveryPolicies) (m : Managers) (now : ℕ) where
  retried_state-IsSound :
      (st : ComponentHealthState) → IsSoundState st → IsSoundState (retried_state now st)
  unfolding retried_state
  retried_state-IsSound st h = record {
    flagged = h.flagged;
    well = λ e. ground arith;
    cooling = λ e. ground arith;
    planned = λ e. refl;
    isolated = λ e. ground (arith, h.isolated);
  }

  retry_found-LeavesSound :
      (s : HealthStore) (o : Option ComponentHealthState)
      → HoldsOf IsSoundState o
      → AllSoundStates s
      → LeavesSound ((retry_found policies m now s o).1)
  unfolding retry_found
  retry_found-LeavesSound s none h hs = hs
  retry_found-LeavesSound s (some st) h hs =
      run_due_recoveries-LeavesSound policies m now (save_state (retried_state now st) s)
        (save_state-AllSound (retried_state now st) s (retried_state-IsSound st h) hs)

reset_state-IsSound : (st : ComponentHealthState) → IsSoundState (reset_state st)
unfolding reset_state
reset_state-IsSound st = record {
  flagged = refl;
  well = λ e. absurd (cc e);
  cooling = λ e. absurd (cc e);
  planned = λ e. absurd (cc e);
  isolated = λ e. absurd (cc e);
}

reset_found-AllSound :
    (s : HealthStore) (o : Option ComponentHealthState)
    → AllSoundStates s
    → AllSoundStates (store_or_same s (reset_found s o))
unfolding reset_found log
reset_found-AllSound s none hs = hs
reset_found-AllSound s (some st) hs =
    save_state-AllSound (reset_state st) s (reset_state-IsSound st) hs

acknowledge_found-AllSound :
    (now : ℕ) (s : HealthStore) (o : Option IncidentRecord)
    → AllSoundStates s
    → AllSoundStates (store_or_same s (acknowledge_found now s o))
unfolding acknowledge_found changed_by_operator log save_incident
acknowledge_found-AllSound now s none hs = hs
acknowledge_found-AllSound now s (some i) hs = hs

close_found-AllSound :
    (now : ℕ) (s : HealthStore) (o : Option IncidentRecord)
    → AllSoundStates s
    → AllSoundStates (store_or_same s (close_found now s o))
unfolding close_found changed_by_operator log save_incident
close_found-AllSound now s none hs = hs
close_found-AllSound now s (some i) hs = hs

apply_call-AllSound :
    (policies : RecoveryPolicies) (m : Managers) (now : ℕ) (call : HealthCall) (s : HealthStore)
    → AllSoundStates s
    → AllSoundStates (apply_call policies m now call s)
unfolding apply_call reset_quarantine retry_component acknowledge_incident close_incident
apply_call-AllSound policies m now (event_published made event) s hs =
    on_event-AllSound policies now made event s hs
apply_call-AllSound policies m now (task_observed t) s hs =
    observe_task_snapshot-AllSound now t s hs
apply_call-AllSound policies m now (tunnel_observed profile_id alive) s hs =
    observe_tunnel_snapshot-AllSound now profile_id alive s hs
apply_call-AllSound policies m now recoveries_run s hs =
    run_due_recoveries-LeavesSound policies m now s hs
apply_call-AllSound policies m now (quarantine_reset id) s hs =
    reset_found-AllSound s (stored_state id s) hs
apply_call-AllSound policies m now (component_retried id) s hs =
    retry_found-LeavesSound policies m now s (stored_state id s) (stored_state-HoldsOf id s hs) hs
apply_call-AllSound policies m now (incident_acknowledged id) s hs =
    acknowledge_found-AllSound now s (lookup id s.incidents) hs
apply_call-AllSound policies m now (incident_closed id) s hs =
    close_found-AllSound now s (lookup id s.incidents) hs

-- From sound states, every sequence of calls leads to sound states, whatever the managers do and also
-- where a call raises: a healthy component has no plan, no failure and no quarantine, one that has
-- failed is in a cooldown, one that recovers has a time for it, and one with the status quarantined has
-- the flag, which always comes with a reason.
pub run_calls-AllSound :
    (policies : RecoveryPolicies) (calls : List (ℕ × Managers × HealthCall)) (s : HealthStore)
    → AllSoundStates s
    → AllSoundStates (run_calls policies calls s)
unfolding run_calls
run_calls-AllSound policies [] s hs = hs
run_calls-AllSound policies ((now, m, call) ∷ rest) s hs =
    run_calls-AllSound policies rest (apply_call policies m now call s)
      (apply_call-AllSound policies m now call s hs)
