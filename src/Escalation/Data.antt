-- ===== src/Escalation/Data.antt =====
-- src/cockpit/ops/models/escalation.py, src/cockpit/ops/events/escalation.py, and the state that
-- src/cockpit/ops/services/escalation_service.py works on. Times are microseconds. The free text of
-- messages and the payloads are left out.
use cockpit_cli.Prelude.{Bool, Dict, List, Option, String, nat_eq, string_eq, ℕ}
use cockpit_cli.Prelude.Int.{ℤ}
use cockpit_cli.Enums.{
  ComponentKind, IncidentSeverity, IncidentStatus, NotificationEventClass, TargetRiskLevel,
  component_kind_eq, event_class_eq, incident_status_eq, severity_eq, target_risk_eq,
}
use cockpit_cli.OnCall.{EscalationTargetKind, subject_kind_eq}

pub data EngagementStatus : Type 0 where
  active acknowledged_engagement blocked : EngagementStatus
  exhausted resolved_engagement closed_engagement : EngagementStatus

pub data EngagementDeliveryPurpose : Type 0 where
  page reminder repage handoff : EngagementDeliveryPurpose

pub data NotificationStatus : Type 0 where
  queued suppressed delivering delivered failed_notification : NotificationStatus

pub record EscalationPolicy : Type 0 where
  pub id : String
  pub name : String
  pub enabled : Bool
  pub default_ack_timeout_seconds : ℤ
  pub default_repeat_page_seconds : ℤ
  pub max_repeat_pages : ℤ
  pub terminal_behavior : String
  pub created_at : Option ℕ
  pub updated_at : Option ℕ

-- A step index is a natural number.
pub record EscalationStep : Type 0 where
  pub id : String
  pub policy_id : String
  pub step_index : ℕ
  pub target_kind : EscalationTargetKind
  pub target_ref : String
  pub ack_timeout_seconds : Option ℤ
  pub repeat_page_seconds : Option ℤ
  pub max_repeat_pages : Option ℤ
  pub reminder_enabled : Bool
  pub stop_on_ack : Bool
  pub created_at : Option ℕ
  pub updated_at : Option ℕ

pub record IncidentEngagement : Type 0 where
  pub id : String
  pub incident_id : String
  pub incident_component_id : String
  pub team_id : Option String
  pub policy_id : Option String
  pub status : EngagementStatus
  pub current_step_index : ℕ
  pub current_target_kind : Option EscalationTargetKind
  pub current_target_ref : Option String
  pub resolved_person_id : Option String
  pub acknowledged_by : Option String
  pub acknowledged_at : Option ℕ
  pub handoff_count : ℕ
  pub repeat_page_count : ℕ
  pub next_action_at : Option ℕ
  pub ack_deadline_at : Option ℕ
  pub last_page_at : Option ℕ
  pub is_exhausted : Bool
  pub created_at : ℕ
  pub updated_at : ℕ
  pub closed_at : Option ℕ

-- `IncidentRecord`, without the workspace, the session and the payload
pub record IncidentRecord : Type 0 where
  pub id : String
  pub component_id : String
  pub component_kind : ComponentKind
  pub severity : IncidentSeverity
  pub status : IncidentStatus
  pub title : String
  pub summary : String
  pub opened_at : Option ℕ
  pub updated_at : Option ℕ
  pub acknowledged_at : Option ℕ
  pub resolved_at : Option ℕ
  pub closed_at : Option ℕ

-- The parts of the text `dedupe_key`
pub record DedupeKey : Type 0 where
  pub engagement_id : String
  pub purpose : EngagementDeliveryPurpose
  pub step_index : ℕ
  pub sequence : ℕ

pub record NotificationCandidate : Type 0 where
  pub event_class : NotificationEventClass
  pub severity : IncidentSeverity
  pub risk_level : TargetRiskLevel
  pub title : String
  pub summary : String
  pub dedupe_key : DedupeKey
  pub incident_id : String
  pub component_id : String
  pub component_kind : ComponentKind
  pub incident_status : IncidentStatus
  pub forced_channel_ids : List String

pub record Notification : Type 0 where
  pub id : String
  pub status : NotificationStatus

-- What comes of `NotificationService.send`
pub data Sent : Type 0 where
  send_raised no_notification : Sent
  sent : Notification → Sent

pub data Event : Type 0 where
  engagement_created : String → String → String → String → Event
  engagement_status_changed : String → String → Option EngagementStatus → EngagementStatus → Event
  engagement_acknowledged : String → String → String → Event
  engagement_handed_off : String → String → String → String → Event
  engagement_escalated_to : String → String → ℕ → String → Event
  engagement_exhausted : String → String → Event
  page_sent : String → String → String → EngagementDeliveryPurpose → ℕ → String → Event
  incident_status_changed : String → IncidentStatus → IncidentStatus → Event

pub record EngagementDeliveryLink : Type 0 where
  pub engagement_id : String
  pub notification_id : String
  pub purpose : EngagementDeliveryPurpose
  pub step_index : ℕ
  pub created_at : ℕ

-- What is only added to: the timelines of engagements and of incidents with the type of the entry, the
-- links, the record of operations, and what the event bus publishes.
pub data Entry : Type 0 where
  timeline : String → String → String → Entry
  incident_timeline : String → String → Entry
  linked : EngagementDeliveryLink → Entry
  operation : String → String → Bool → String → Entry
  published : Event → Entry

pub record Store : Type 0 where
  pub incidents : Dict String IncidentRecord
  pub engagements : Dict String IncidentEngagement
  pub journal : List Entry

pub data Error : Type 0 where
  not_open : EngagementStatus → Error
  no_engagement no_incident no_such_policy no_steps : String → Error
  without_policy : String → Error
  no_step : ℕ → String → Error
  empty_rotation page_failed : Error

-- The engagement that a call returns, or what it raises, with the state it leaves.
pub data Outcome : Type 0 where
  returned : IncidentEngagement → Store → Outcome
  raised : Error → Store → Outcome

abbrev pub store_of : Outcome → Store
store_of (returned e s) = s
store_of (raised error s) = s
