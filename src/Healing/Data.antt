-- ===== src/Healing/Data.antt =====
-- src/cockpit/ops/events/health.py, src/cockpit/core/events/runtime.py, and the state that
-- src/cockpit/ops/services/self_healing_service.py works on. Payloads, targets and the texts of the
-- timelines are left out.
use cockpit_cli.Prelude.{Bool, Dict, List, Option, String, nat_eq, string_eq, ℕ}
use cockpit_cli.Enums.{
  ComponentKind, HealthStatus, IncidentSeverity, IncidentStatus, RecoveryAttemptStatus,
  component_kind_eq, event_class_eq, incident_status_eq, severity_eq, target_risk_eq,
}
use cockpit_cli.Recovery.{ComponentHealthState, RecoveryAttempt}
use cockpit_cli.Escalation.{IncidentRecord}

pub record ComponentRef : Type 0 where
  pub component_id : String
  pub kind : ComponentKind
  pub display_name : String

-- What the bus publishes, and what is only added to: the history of the components' states and the
-- timelines of the incidents, with the type of the entry.
pub data HealthEntry : Type 0 where
  transition_recorded : String → HealthStatus → HealthStatus → HealthEntry
  component_health_changed : String → HealthStatus → HealthStatus → HealthEntry
  quarantine_entered quarantine_cleared : String → HealthEntry
  incident_noted : String → String → HealthEntry
  incident_was_opened : String → String → IncidentSeverity → HealthEntry
  incident_status_moved : String → IncidentStatus → IncidentStatus → HealthEntry
  attempt_recorded : String → String → RecoveryAttemptStatus → HealthEntry

pub record HealthStore : Type 0 where
  pub states : Dict String ComponentHealthState
  pub incidents : Dict String IncidentRecord
  pub attempts : Dict String RecoveryAttempt
  pub journal : List HealthEntry

-- The two values that `make_id` gives while one failure is handled.
pub record MadeIds : Type 0 where
  pub made_incident : String
  pub made_attempt : String

-- The arguments of `_handle_failure`
pub record Failure : Type 0 where
  pub component : ComponentRef
  pub reason : String
  pub severity : IncidentSeverity
  pub pending_already_failed : Bool
  pub made : MadeIds

-- What is left by a call: `KeyError` is raised for a kind that has no default policy, and the restart of a
-- session may raise as well, which nothing catches.
pub data HealthOutcome : Type 0 where
  completed : HealthStore → HealthOutcome
  key_error : ComponentKind → HealthStore → HealthOutcome
  restart_raised : String → HealthStore → HealthOutcome

abbrev pub left_by : HealthOutcome → HealthStore
left_by (completed s) = s
left_by (key_error kind s) = s
left_by (restart_raised error s) = s

-- The entries of a task's metadata that are read, each where it is a text.
pub record TaskMetadata : Type 0 where
  pub component_id : Option String
  pub component_kind : Option String
  pub display_name : Option String

pub record TaskSnapshot : Type 0 where
  pub name : String
  pub alive : Bool
  pub stale : Bool
  pub started_at : ℕ
  pub last_heartbeat_at : Option ℕ
  pub metadata : TaskMetadata

-- The events that the service subscribes to. Numbers in messages come as they are printed.
pub data RuntimeEvent : Type 0 where
  pty_started : String → RuntimeEvent
  pty_startup_failed : String → String → RuntimeEvent
  terminal_exited : String → Bool → String → RuntimeEvent
  task_heartbeat_missed : String → String → TaskMetadata → RuntimeEvent
  task_exited_unexpectedly : String → Option String → TaskMetadata → RuntimeEvent
  tunnel_failure_detected : String → String → RuntimeEvent
  component_watch_observed : String → ComponentKind → Bool → String → Option String → RuntimeEvent

-- What comes of restarting a component, by the kind of it. The managers find what to restart in the
-- state and its payload.
-- A session is there or not after the events, or an exception comes after them.
pub data SessionRestart : Type 0 where
  session_restarted : List (MadeIds × RuntimeEvent) → Bool → SessionRestart
  session_raised : List (MadeIds × RuntimeEvent) → String → SessionRestart

pub data TunnelRestart : Type 0 where
  tunnel_raised tunnel_up : String → TunnelRestart

pub data TaskRestart : Type 0 where
  task_raised : String → TaskRestart
  task_restarted : Option TaskSnapshot → TaskRestart

pub data HostRestart : Type 0 where
  host_unavailable host_restarted : HostRestart
  host_raised : String → HostRestart

-- The events that a probe publishes, and what it raises
pub data WatchProbe : Type 0 where
  watch_unavailable : WatchProbe
  probed : List (MadeIds × RuntimeEvent) → Option String → WatchProbe

-- The managers of the runtime, as far as a recovery calls them: `restart_session` publishes events and
-- then gives a session or not, or raises. `make_ids` is what `make_id` gives for the failure of a component's recovery.
pub record Managers : Type 0 where
  pub restart_session : ComponentHealthState → SessionRestart
  pub reconnect_tunnel : ComponentHealthState → TunnelRestart
  pub restart_task : ComponentHealthState → TaskRestart
  pub restart_host : ComponentHealthState → HostRestart
  pub probe_watch : ComponentHealthState → WatchProbe
  pub make_ids : String → MadeIds
  pub key_error_text : ComponentKind → String
