-- ===== src/Enums.antt =====
-- src/cockpit/core/enums.py: the enumerations that the modelled services read, a constructor for
-- each member, with decidable equality and the test that Python's `==` and `in` make.
use cockpit_cli.Prelude.{Eq, discrete_eq, nat_eq, string_eq}

pub data TargetRiskLevel : Type 0 where
  dev stage prod : TargetRiskLevel

pub data ComponentKind : Type 0 where
  pty_session ssh_tunnel background_task docker_runtime datasource http_request : ComponentKind
  plugin_host web_admin datasource_watch docker_container_watch : ComponentKind
  response_run remediation_run case_file : ComponentKind

pub data HealthStatus : Type 0 where
  healthy degraded recovering failed quarantined : HealthStatus

pub data IncidentSeverity : Type 0 where
  info warning high critical : IncidentSeverity

pub data IncidentStatus : Type 0 where
  open_incident acknowledged recovering_incident resolved : IncidentStatus
  quarantined_incident closed : IncidentStatus

pub data RecoveryAttemptStatus : Type 0 where
  scheduled running succeeded failed_attempt skipped quarantined_attempt : RecoveryAttemptStatus

pub data GuardActionKind : Type 0 where
  docker_restart docker_stop docker_remove : GuardActionKind
  db_query db_mutation db_destructive : GuardActionKind
  http_read http_mutation http_destructive : GuardActionKind
  shell_read shell_mutation shell_destructive : GuardActionKind

pub data GuardDecisionOutcome : Type 0 where
  allow require_confirmation require_elevated_mode block : GuardDecisionOutcome

unfoldable pub TargetRiskLevel-discrete : Discrete TargetRiskLevel
TargetRiskLevel-discrete = hlevel

unfoldable pub ComponentKind-discrete : Discrete ComponentKind
ComponentKind-discrete = hlevel

unfoldable pub HealthStatus-discrete : Discrete HealthStatus
HealthStatus-discrete = hlevel

unfoldable pub IncidentStatus-discrete : Discrete IncidentStatus
IncidentStatus-discrete = hlevel

instance abbrev pub target_risk_eq : Eq TargetRiskLevel
target_risk_eq = discrete_eq TargetRiskLevel-discrete

instance abbrev pub component_kind_eq : Eq ComponentKind
component_kind_eq = discrete_eq ComponentKind-discrete

pub data ApprovalRequestStatus : Type 0 where
  pending approved rejected expired cancelled : ApprovalRequestStatus

pub data ApprovalDecisionKind : Type 0 where
  approve reject : ApprovalDecisionKind

pub data NotificationEventClass : Type 0 where
  incident_opened_class incident_status_changed_class : NotificationEventClass
  component_quarantined_class component_recovered_class : NotificationEventClass
  component_degraded_class delivery_failure_class : NotificationEventClass
  engagement_paged_class engagement_reminder_class : NotificationEventClass
  engagement_escalated_class engagement_handoff_class : NotificationEventClass
  engagement_exhausted_class approval_requested_class : NotificationEventClass
  response_blocked_class response_completed_class : NotificationEventClass

unfoldable pub NotificationEventClass-discrete : Discrete NotificationEventClass
NotificationEventClass-discrete = hlevel

unfoldable pub IncidentSeverity-discrete : Discrete IncidentSeverity
IncidentSeverity-discrete = hlevel

instance abbrev pub event_class_eq : Eq NotificationEventClass
event_class_eq = discrete_eq NotificationEventClass-discrete

instance abbrev pub severity_eq : Eq IncidentSeverity
severity_eq = discrete_eq IncidentSeverity-discrete

instance abbrev pub incident_status_eq : Eq IncidentStatus
incident_status_eq = discrete_eq IncidentStatus-discrete
