-- ===== src/Healing/Reports.antt =====
-- src/cockpit/ops/services/self_healing_service.py: what a healthy report does, and the handlers of the
-- events, each with its guards.
use Prim.Native.String.{◌++◌ as str_append}
use cockpit_cli.Prelude.{
  Bool, List, Option, String, [], false, if◌then◌else◌, nat_eq, none, not, some, string_eq, strip,
  ℕ, ◌==◌, ◌||◌, ◌∷◌,
}
use cockpit_cli.Enums.{
  ComponentKind, HealthStatus, IncidentSeverity, IncidentStatus, RecoveryAttemptStatus,
  background_task, component_kind_eq, critical, event_class_eq, high, incident_status_eq,
  plugin_host, pty_session, severity_eq, ssh_tunnel, target_risk_eq, warning,
}
use cockpit_cli.Recovery.{ComponentHealthState, RecoveryAttempt, RecoveryPolicy}
use cockpit_cli.Escalation.{IncidentRecord}
use cockpit_cli.Healing.Data.{
  ComponentRef, Failure, HealthOutcome, HealthStore, MadeIds, RuntimeEvent, TaskMetadata,
  TaskSnapshot, completed, component_watch_observed, pty_started, pty_startup_failed,
  task_exited_unexpectedly, task_heartbeat_missed, terminal_exited, tunnel_failure_detected,
}
use cockpit_cli.Healing.Store.{
  get_open_for_component, latest_pending_for_component, log, save_attempt, save_state, stored_state,
}
use cockpit_cli.Healing.Kinds.{component_kind_from_metadata}
use cockpit_cli.Healing.Failures.{record_transition, recorded, set_status, state_or_new}
use cockpit_cli.Healing.Settle.{handle_failure}

-- The state of a component that reports healthy. The number of exhaustions stays.
unfoldable pub healthy_state : ℕ → ComponentHealthState → ComponentHealthState
healthy_state heartbeat_at st = record st {
  status = HealthStatus.healthy;
  quarantined = false;
  quarantine_reason = none;
  consecutive_failures = 0;
  cooldown_until = none;
  next_recovery_at = none;
  last_heartbeat_at = some heartbeat_at;
  last_recovery_at = some heartbeat_at;
}

unfoldable pub resolve_incident : ℕ → HealthStore → Option IncidentRecord → HealthStore
unfolding set_status
resolve_incident now s none = s
resolve_incident now s (some i) = set_status now IncidentStatus.resolved i s

unfoldable pub succeeded_at : ℕ → RecoveryAttempt → RecoveryAttempt
succeeded_at now a = record a { status = RecoveryAttemptStatus.succeeded; finished_at = some now }

unfoldable pub succeed_attempt : ℕ → String → HealthStore → Option RecoveryAttempt → HealthStore
unfolding succeeded_at save_attempt log
succeed_attempt now component_id s none = s
succeed_attempt now component_id s (some a) =
    let a2 = succeeded_at now a in log (recorded component_id a2 ∷ []) (save_attempt a2 s)

-- `_mark_component_healthy`
unfoldable pub mark_component_healthy : ℕ → ℕ → ComponentHealthState → HealthStore → HealthStore
unfolding healthy_state save_state record_transition resolve_incident succeed_attempt
mark_component_healthy now heartbeat_at st s =
    let s2 =
      record_transition st.status (healthy_state heartbeat_at st)
        (save_state (healthy_state heartbeat_at st) s) in
    let s3 = resolve_incident now s2 (get_open_for_component st.component_id s2) in
    succeed_attempt now st.component_id s3 (latest_pending_for_component st.component_id s3)

-- A healthy report of a component that may be new
unfoldable pub report_healthy : ℕ → ℕ → ComponentRef → HealthStore → HealthStore
unfolding mark_component_healthy state_or_new stored_state
report_healthy now heartbeat_at c s =
    mark_component_healthy now heartbeat_at
      (state_or_new HealthStatus.healthy c (stored_state c.component_id s)) s

abbrev pub text_or : Option String → String → String
text_or none default = default
text_or (some t) default = t

-- `t or default`
abbrev pub filled_or : Option String → String → String
filled_or none default = default
filled_or (some t) default = if t == "" then default else t

unfoldable pub task_ref : String → TaskMetadata → ComponentRef
unfolding component_kind_from_metadata
task_ref task_name m = record {
  component_id = text_or m.component_id (str_append "task:" task_name);
  kind = component_kind_from_metadata m.component_kind background_task;
  display_name = text_or m.display_name task_name;
}

abbrev pub heartbeat_of : TaskSnapshot → ℕ
heartbeat_of t = elim t.last_heartbeat_at [ none ↦ t.started_at | some h ↦ h ]

-- `observe_task_snapshot`
unfoldable pub observe_task_snapshot : ℕ → TaskSnapshot → HealthStore → HealthStore
unfolding report_healthy task_ref
observe_task_snapshot now t s =
    if t.stale || not t.alive
    then s
    else report_healthy now (heartbeat_of t) (task_ref t.name t.metadata) s

unfoldable pub tunnel_ref : String → ComponentRef
tunnel_ref profile_id = record {
  component_id = str_append "ssh-tunnel:" profile_id;
  kind = ssh_tunnel;
  display_name = str_append "SSH tunnel " profile_id;
}

-- `observe_tunnel_snapshot`
unfoldable pub observe_tunnel_snapshot : ℕ → String → Bool → HealthStore → HealthStore
unfolding report_healthy tunnel_ref strip
observe_tunnel_snapshot now profile_id alive s =
    let id = strip profile_id in
    if id == "" || not alive then s else report_healthy now now (tunnel_ref id) s

unfoldable pub pty_ref : String → ComponentRef
pty_ref panel_id = record {
  component_id = str_append "pty:" panel_id;
  kind = pty_session;
  display_name = str_append "PTY " panel_id;
}

abbrev pub observed_failure : ComponentRef → String → IncidentSeverity → MadeIds → Failure
observed_failure c reason severity made = record {
  component = c;
  reason = reason;
  severity = severity;
  pending_already_failed = false;
  made = made;
}

unfoldable pub exited_state : ComponentHealthState → ComponentHealthState
exited_state st = record st { status = HealthStatus.degraded; next_recovery_at = none }

unfoldable pub expected_exit : HealthStore → Option ComponentHealthState → HealthStore
unfolding exited_state save_state
expected_exit s none = s
expected_exit s (some st) = save_state (exited_state st) s

abbrev pub watch_severity : ComponentKind → IncidentSeverity
watch_severity plugin_host = critical
watch_severity _ = high

abbrev pub watch_ref : String → ComponentKind → Option String → ComponentRef
watch_ref component_id kind display_name = record {
  component_id = component_id;
  kind = kind;
  display_name = text_or display_name component_id;
}

-- What an event makes of the component it is about: a failure, if it is one.
unfoldable pub failure_of : MadeIds → RuntimeEvent → Option Failure
unfolding pty_ref tunnel_ref task_ref
failure_of made (pty_startup_failed panel_id reason) =
    some (observed_failure (pty_ref panel_id) reason high made)
failure_of made (terminal_exited panel_id false exit_code) = some (
    observed_failure (pty_ref panel_id) (str_append "terminal exited with code " exit_code) warning
      made)
failure_of made (task_heartbeat_missed task_name age m) = some (
    observed_failure (task_ref task_name m)
      (str_append "heartbeat stale after " (str_append age "s")) warning made)
failure_of made (task_exited_unexpectedly task_name error m) = some (
    observed_failure (task_ref task_name m)
      (filled_or error (str_append "task '" (str_append task_name "' exited unexpectedly"))) high
      made)
failure_of made (tunnel_failure_detected profile_id reason) =
    some (observed_failure (tunnel_ref profile_id) reason high made)
failure_of made (component_watch_observed id kind false summary name) =
    some (observed_failure (watch_ref id kind name) summary (watch_severity kind) made)
failure_of made _ = none

-- The events that are not failures
unfoldable pub on_other : ℕ → RuntimeEvent → HealthStore → HealthStore
unfolding report_healthy expected_exit stored_state pty_ref
on_other now (pty_started panel_id) s = report_healthy now now (pty_ref panel_id) s
on_other now (terminal_exited panel_id expected exit_code) s =
    expected_exit s (stored_state (str_append "pty:" panel_id) s)
on_other now (component_watch_observed id kind is_success summary name) s =
    report_healthy now now (watch_ref id kind name) s
on_other now _ s = s

unfoldable pub on_failure :
    List (ComponentKind × RecoveryPolicy)
    → ℕ
    → RuntimeEvent
    → HealthStore
    → Option Failure
    → HealthOutcome
unfolding on_other handle_failure
on_failure policies now event s none = completed (on_other now event s)
on_failure policies now event s (some f) = handle_failure policies now f s

-- The handler that the bus calls for an event
unfoldable pub on_event :
    List (ComponentKind × RecoveryPolicy) → ℕ → MadeIds → RuntimeEvent → HealthStore → HealthOutcome
unfolding on_failure failure_of
on_event policies now made event s = on_failure policies now event s (failure_of made event)
