-- ===== src/Healing/Recoveries.antt =====
-- src/cockpit/ops/services/self_healing_service.py: the recoveries that are due, and what each of the
-- managers' results leads to.
use cockpit_cli.Prelude.{
  List, Option, String, [], if◌then◌else◌, nat_eq, none, some, string_eq, true, ℕ, ◌∷◌,
}
use cockpit_cli.Enums.{
  ComponentKind, IncidentSeverity, RecoveryAttemptStatus, background_task, component_kind_eq,
  datasource_watch, docker_container_watch, event_class_eq, high, incident_status_eq, plugin_host,
  pty_session, severity_eq, ssh_tunnel, target_risk_eq, warning, web_admin,
}
use cockpit_cli.Recovery.{ComponentHealthState, RecoveryAttempt, RecoveryPolicy}
use cockpit_cli.Healing.Data.{
  Failure, HealthOutcome, HealthStore, HostRestart, MadeIds, Managers, RuntimeEvent, SessionRestart,
  TaskRestart, TaskSnapshot, TunnelRestart, WatchProbe, completed, host_raised, host_restarted,
  host_unavailable, key_error, probed, restart_raised, session_raised, session_restarted,
  task_raised, task_restarted, tunnel_raised, tunnel_up, watch_unavailable,
}
use cockpit_cli.Healing.Store.{latest_pending_for_component, list_due_recoveries, log, save_attempt}
use cockpit_cli.Healing.Failures.{failed_with, recorded}
use cockpit_cli.Healing.Settle.{handle_failure}
use cockpit_cli.Healing.Reports.{
  mark_component_healthy, observe_task_snapshot, observe_tunnel_snapshot, on_event, succeed_attempt,
  succeeded_at,
}

abbrev pub RecoveryPolicies : Type 0
RecoveryPolicies = List (ComponentKind × RecoveryPolicy)

-- An exception ends what follows.
abbrev pub then_store : HealthOutcome → (HealthStore → HealthOutcome) → HealthOutcome
then_store (completed s) next = next s
then_store (key_error kind s) next = key_error kind s
then_store (restart_raised error s) next = restart_raised error s

-- Events that are published one after another
unfoldable pub on_events :
    RecoveryPolicies → ℕ → List (MadeIds × RuntimeEvent) → HealthStore → HealthOutcome
unfolding on_event
on_events policies now [] s = completed s
on_events policies now ((made, event) ∷ rest) s =
    then_store (on_event policies now made event s) (on_events policies now rest)

unfoldable pub running_at : ℕ → RecoveryAttempt → RecoveryAttempt
running_at now a = record a { status = RecoveryAttemptStatus.running; started_at = some now }

unfoldable pub start_attempt : ℕ → String → RecoveryAttempt → HealthStore → HealthStore
unfolding running_at save_attempt log
start_attempt now component_id a s =
    log (recorded component_id (running_at now a) ∷ []) (save_attempt (running_at now a) s)

-- The failure of a recovery, whose attempt has been saved as failed
unfoldable pub run_failure :
    Managers → ComponentHealthState → ComponentKind → IncidentSeverity → String → Failure
run_failure m st kind severity reason = record {
  component = record {
    component_id = st.component_id;
    kind = kind;
    display_name = st.display_name;
  };
  reason = reason;
  severity = severity;
  pending_already_failed = true;
  made = m.make_ids st.component_id;
}

unfoldable pub fail_run :
    RecoveryPolicies → ℕ → Failure → RecoveryAttempt → HealthStore → HealthOutcome
unfolding failed_with save_attempt handle_failure
fail_run policies now f a s =
    handle_failure policies now f (save_attempt (failed_with now f.reason a) s)

-- `_run_pty_recovery`
unfoldable pub run_pty_recovery :
    RecoveryPolicies
    → ℕ
    → ComponentHealthState
    → RecoveryAttempt
    → SessionRestart
    → HealthStore
    → HealthOutcome
unfolding on_events succeed_attempt
run_pty_recovery policies now st a (session_raised events error) s =
    then_store (on_events policies now events s) λ s2. restart_raised error s2
run_pty_recovery policies now st a (session_restarted events has_session) s =
    then_store (on_events policies now events s)
      λ s2. completed (if has_session then succeed_attempt now st.component_id s2 (some a) else s2)

-- `_run_tunnel_recovery`
unfoldable pub run_tunnel_recovery :
    RecoveryPolicies
    → Managers
    → ℕ
    → ComponentHealthState
    → RecoveryAttempt
    → TunnelRestart
    → HealthStore
    → HealthOutcome
unfolding fail_run run_failure observe_tunnel_snapshot save_attempt succeeded_at
run_tunnel_recovery policies m now st a (tunnel_raised error) s =
    fail_run policies now (run_failure m st ssh_tunnel high error) a s
run_tunnel_recovery policies m now st a (tunnel_up profile_id) s =
    completed (observe_tunnel_snapshot now profile_id true (save_attempt (succeeded_at now a) s))

abbrev pub task_severity : ComponentKind → IncidentSeverity
task_severity web_admin = high
task_severity _ = warning

unfoldable pub observe_restarted : ℕ → Option TaskSnapshot → HealthStore → HealthStore
unfolding observe_task_snapshot
observe_restarted now none s = s
observe_restarted now (some t) s = observe_task_snapshot now t s

-- `_run_task_recovery`
unfoldable pub run_task_recovery :
    RecoveryPolicies
    → Managers
    → ℕ
    → ComponentHealthState
    → RecoveryAttempt
    → TaskRestart
    → HealthStore
    → HealthOutcome
unfolding fail_run run_failure observe_restarted save_attempt succeeded_at
run_task_recovery policies m now st a (task_raised error) s =
    fail_run policies now
      (run_failure m st st.component_kind (task_severity st.component_kind) error) a s
run_task_recovery policies m now st a (task_restarted t) s =
    completed (observe_restarted now t (save_attempt (succeeded_at now a) s))

-- `_run_plugin_host_recovery`
unfoldable pub run_plugin_host_recovery :
    RecoveryPolicies
    → Managers
    → ℕ
    → ComponentHealthState
    → RecoveryAttempt
    → HostRestart
    → HealthStore
    → HealthOutcome
unfolding fail_run run_failure mark_component_healthy save_attempt succeeded_at failed_with
run_plugin_host_recovery policies m now st a host_unavailable s =
    completed (save_attempt (failed_with now "Plugin host recovery is unavailable." a) s)
run_plugin_host_recovery policies m now st a (host_raised error) s =
    fail_run policies now (run_failure m st plugin_host high error) a s
run_plugin_host_recovery policies m now st a host_restarted s =
    completed (mark_component_healthy now now st (save_attempt (succeeded_at now a) s))

-- What is saved of an attempt whose probe has raised or not
abbrev pub probe_result : ℕ → RecoveryAttempt → Option String → RecoveryAttempt
probe_result now a none = succeeded_at now a
probe_result now a (some error) = failed_with now error a

-- An exception of a handler reaches the probe, and is caught with those of the probe.
unfoldable pub finish_probe :
    Managers → ℕ → RecoveryAttempt → Option String → HealthOutcome → HealthStore
unfolding save_attempt succeeded_at failed_with
finish_probe m now a error (completed s) = save_attempt (probe_result now a error) s
finish_probe m now a error (key_error kind s) =
    save_attempt (failed_with now (m.key_error_text kind) a) s
finish_probe m now a error (restart_raised text s) = save_attempt (failed_with now text a) s

-- `_run_watch_recovery`
unfoldable pub run_watch_recovery :
    RecoveryPolicies → Managers → ℕ → RecoveryAttempt → WatchProbe → HealthStore → HealthOutcome
unfolding finish_probe on_events save_attempt failed_with
run_watch_recovery policies m now a watch_unavailable s =
    completed (save_attempt (failed_with now "Watch recovery is unavailable." a) s)
run_watch_recovery policies m now a (probed events error) s =
    completed (finish_probe m now a error (on_events policies now events s))

-- The recovery for a kind of component: the other kinds have none.
unfoldable pub recover :
    RecoveryPolicies
    → Managers
    → ℕ
    → ComponentHealthState
    → RecoveryAttempt
    → ComponentKind
    → HealthStore
    → HealthOutcome
unfolding run_pty_recovery run_tunnel_recovery run_task_recovery run_plugin_host_recovery
    run_watch_recovery
recover policies m now st a pty_session s =
    run_pty_recovery policies now st a (m.restart_session st) s
recover policies m now st a ssh_tunnel s =
    run_tunnel_recovery policies m now st a (m.reconnect_tunnel st) s
recover policies m now st a background_task s =
    run_task_recovery policies m now st a (m.restart_task st) s
recover policies m now st a web_admin s =
    run_task_recovery policies m now st a (m.restart_task st) s
recover policies m now st a plugin_host s =
    run_plugin_host_recovery policies m now st a (m.restart_host st) s
recover policies m now st a datasource_watch s =
    run_watch_recovery policies m now a (m.probe_watch st) s
recover policies m now st a docker_container_watch s =
    run_watch_recovery policies m now a (m.probe_watch st) s
recover policies m now st a _ s = completed s

-- The body of the loop, for the attempt that is pending
unfoldable pub run_pending :
    RecoveryPolicies
    → Managers
    → ℕ
    → ComponentHealthState
    → HealthStore
    → Option RecoveryAttempt
    → HealthOutcome
unfolding start_attempt running_at recover
run_pending policies m now st s none = completed s
run_pending policies m now st s (some a) =
    recover policies m now st (running_at now a) st.component_kind
      (start_attempt now st.component_id a s)

unfoldable pub run_recovery :
    RecoveryPolicies → Managers → ℕ → ComponentHealthState → HealthStore → HealthOutcome
unfolding run_pending latest_pending_for_component
run_recovery policies m now st s =
    run_pending policies m now st s (latest_pending_for_component st.component_id s)

unfoldable pub run_recoveries :
    RecoveryPolicies → Managers → ℕ → List ComponentHealthState → HealthStore → HealthOutcome
unfolding run_recovery
run_recoveries policies m now [] s = completed s
run_recoveries policies m now (st ∷ rest) s =
    then_store (run_recovery policies m now st s) (run_recoveries policies m now rest)

-- `run_due_recoveries`
unfoldable pub run_due_recoveries : RecoveryPolicies → Managers → ℕ → HealthStore → HealthOutcome
unfolding run_recoveries list_due_recoveries
run_due_recoveries policies m now s = run_recoveries policies m now (list_due_recoveries now s) s
