-- ===== src/Healing/Sound/Reports.antt =====
-- src/cockpit/ops/services/self_healing_service.py: healthy reports, events and recoveries leave sound
-- states.
use Prim.Native.String.{◌++◌ as str_append}
use cockpit_cli.Prelude.{
  Bool, Bool-cases, HoldsOf, Option, String, inl, inr, lookup-HoldsOf, nat_eq, none, not, refl,
  some, string_eq, strip, ℕ, ◌==◌, ◌||◌, ◌∙◌, ◌≡◌,
}
use cockpit_cli.Enums.{
  HealthStatus, IncidentStatus, component_kind_eq, event_class_eq, incident_status_eq, severity_eq,
  target_risk_eq,
}
use cockpit_cli.Recovery.{ComponentHealthState, RecoveryAttempt}
use cockpit_cli.Escalation.{IncidentRecord}
use cockpit_cli.Healing.Data.{
  ComponentRef, Failure, HealthStore, MadeIds, RuntimeEvent, TaskSnapshot, component_watch_observed,
  left_by, pty_started, terminal_exited,
}
use cockpit_cli.Healing.Store.{
  get_open_for_component, latest_pending_for_component, log, save_attempt, save_state, stored_state,
}
use cockpit_cli.Healing.Failures.{record_transition, state_or_new}
use cockpit_cli.Healing.Reports.{
  exited_state, expected_exit, failure_of, healthy_state, heartbeat_of, mark_component_healthy,
  observe_task_snapshot, observe_tunnel_snapshot, on_event, on_failure, on_other, pty_ref,
  report_healthy, resolve_incident, succeed_attempt, task_ref, tunnel_ref, watch_ref,
}
use cockpit_cli.Healing.Recoveries.{RecoveryPolicies}
use cockpit_cli.Healing.Sound.{
  AllSoundStates, IsSoundState, healthy_state-IsSound, save_state-AllSound,
  states-record_transition, states-set_status,
}
use cockpit_cli.Healing.Sound.Failures.{handle_failure-AllSound, same-AllSound}

pub states-resolve_incident :
    (now : ℕ) (s : HealthStore) (o : Option IncidentRecord)
    → (resolve_incident now s o).states ≡ s.states
unfolding resolve_incident
states-resolve_incident now s none = refl
states-resolve_incident now s (some i) = states-set_status now IncidentStatus.resolved i s

pub states-succeed_attempt :
    (now : ℕ) (id : String) (s : HealthStore) (o : Option RecoveryAttempt)
    → (succeed_attempt now id s o).states ≡ s.states
unfolding succeed_attempt log save_attempt
states-succeed_attempt now id s none = refl
states-succeed_attempt now id s (some a) = refl

pub mark_component_healthy-AllSound :
    (now heartbeat_at : ℕ) (st : ComponentHealthState) (s : HealthStore)
    → AllSoundStates s
    → AllSoundStates (mark_component_healthy now heartbeat_at st s)
unfolding mark_component_healthy
mark_component_healthy-AllSound now heartbeat_at st s hs =
    let h = healthy_state heartbeat_at st in
    let s2 = record_transition st.status h (save_state h s) in
    let s3 = resolve_incident now s2 (get_open_for_component st.component_id s2) in
    same-AllSound (save_state h s) (mark_component_healthy now heartbeat_at st s)
      (states-succeed_attempt now st.component_id s3
          (latest_pending_for_component st.component_id s3)
        ∙ (states-resolve_incident now s2 (get_open_for_component st.component_id s2)
            ∙ states-record_transition st.status h (save_state h s)))
      (save_state-AllSound h s (healthy_state-IsSound heartbeat_at st) hs)

pub report_healthy-AllSound :
    (now heartbeat_at : ℕ) (c : ComponentRef) (s : HealthStore)
    → AllSoundStates s
    → AllSoundStates (report_healthy now heartbeat_at c s)
unfolding report_healthy
report_healthy-AllSound now heartbeat_at c s hs =
    mark_component_healthy-AllSound now heartbeat_at
      (state_or_new HealthStatus.healthy c (stored_state c.component_id s)) s hs

pub observe_task_snapshot-AllSound :
    (now : ℕ) (t : TaskSnapshot) (s : HealthStore)
    → AllSoundStates s
    → AllSoundStates (observe_task_snapshot now t s)
unfolding observe_task_snapshot
observe_task_snapshot-AllSound now t s hs = elim (Bool-cases (t.stale || not t.alive)) [
  | inl e ↦ rw e hs
  | inr e ↦ rw e (report_healthy-AllSound now (heartbeat_of t) (task_ref t.name t.metadata) s hs)
]

pub observe_tunnel_snapshot-AllSound :
    (now : ℕ) (profile_id : String) (alive : Bool) (s : HealthStore)
    → AllSoundStates s
    → AllSoundStates (observe_tunnel_snapshot now profile_id alive s)
unfolding observe_tunnel_snapshot
observe_tunnel_snapshot-AllSound now profile_id alive s hs =
    elim (Bool-cases (strip profile_id == "" || not alive)) [
      | inl e ↦ rw e hs
      | inr e ↦ rw e (report_healthy-AllSound now now (tunnel_ref (strip profile_id)) s hs)
    ]

exited_state-IsSound :
    (st : ComponentHealthState) → IsSoundState st → IsSoundState (exited_state st)
unfolding exited_state
exited_state-IsSound st h = record {
  flagged = h.flagged;
  well = λ e. absurd (cc e);
  cooling = λ e. absurd (cc e);
  planned = λ e. absurd (cc e);
  isolated = λ e. absurd (cc e);
}

expected_exit-AllSound :
    (s : HealthStore) (o : Option ComponentHealthState)
    → HoldsOf IsSoundState o
    → AllSoundStates s
    → AllSoundStates (expected_exit s o)
unfolding expected_exit
expected_exit-AllSound s none h hs = hs
expected_exit-AllSound s (some st) h hs =
    save_state-AllSound (exited_state st) s (exited_state-IsSound st h) hs

pub stored_state-HoldsOf :
    (id : String) (s : HealthStore) → AllSoundStates s → HoldsOf IsSoundState (stored_state id s)
unfolding stored_state
stored_state-HoldsOf id s hs = lookup-HoldsOf IsSoundState id s.states hs

on_other-AllSound :
    (now : ℕ) (event : RuntimeEvent) (s : HealthStore)
    → AllSoundStates s
    → AllSoundStates (on_other now event s)
unfolding on_other
on_other-AllSound now (pty_started panel_id) s hs =
    report_healthy-AllSound now now (pty_ref panel_id) s hs
on_other-AllSound now (terminal_exited panel_id expected exit_code) s hs =
    expected_exit-AllSound s (stored_state (str_append "pty:" panel_id) s)
      (stored_state-HoldsOf (str_append "pty:" panel_id) s hs) hs
on_other-AllSound now (component_watch_observed id kind is_success summary name) s hs =
    report_healthy-AllSound now now (watch_ref id kind name) s hs
on_other-AllSound now _ s hs = hs

on_failure-AllSound :
    (policies : RecoveryPolicies) (now : ℕ) (event : RuntimeEvent) (s : HealthStore)
    (f : Option Failure)
    → AllSoundStates s
    → AllSoundStates (left_by (on_failure policies now event s f))
unfolding on_failure
on_failure-AllSound policies now event s none hs = on_other-AllSound now event s hs
on_failure-AllSound policies now event s (some f) hs = handle_failure-AllSound policies now f s hs

pub on_event-AllSound :
    (policies : RecoveryPolicies) (now : ℕ) (made : MadeIds) (event : RuntimeEvent)
    (s : HealthStore)
    → AllSoundStates s
    → AllSoundStates (left_by (on_event policies now made event s))
unfolding on_event
on_event-AllSound policies now made event s hs =
    on_failure-AllSound policies now event s (failure_of made event) hs
