-- ===== src/Escalation/Pages.antt =====
-- src/cockpit/ops/services/escalation_service.py: a page, from the candidate to what is noted of it.
use Prim.Native.String.{◌++◌ as append}
use cockpit_cli.Prelude.{
  Bool, List, String, [], false, if◌then◌else◌, ltb, nat_eq, not, some, string_eq, true, ℕ, ◌∷◌,
}
use cockpit_cli.Enums.{
  NotificationEventClass, component_kind_eq, dev, engagement_escalated_class,
  engagement_handoff_class, engagement_paged_class, engagement_reminder_class, event_class_eq,
  incident_status_eq, severity_eq, target_risk_eq,
}
use cockpit_cli.OnCall.{ResolvedEscalationRecipient, subject_kind_eq}
use cockpit_cli.Escalation.Data.{
  EngagementDeliveryPurpose, Entry, IncidentEngagement, IncidentRecord, Notification,
  NotificationCandidate, NotificationStatus, Outcome, Sent, Store, failed_notification, handoff,
  linked, no_notification, operation, page, page_failed, page_sent, published, raised, reminder,
  repage, returned, send_raised, sent, timeline,
}
use cockpit_cli.Escalation.Effects.{Services, note, save}

-- `_notification_event_class_for`
unfoldable pub event_class_for : EngagementDeliveryPurpose → ℕ → NotificationEventClass
event_class_for handoff step_index = engagement_handoff_class
event_class_for reminder step_index = engagement_reminder_class
event_class_for repage step_index = engagement_reminder_class
event_class_for page step_index =
    if ltb 0 step_index then engagement_escalated_class else engagement_paged_class

-- `_title_for_page`
unfoldable pub title_for_page : String → EngagementDeliveryPurpose → String
title_for_page title handoff = append "Handoff: " title
title_for_page title reminder = append "Reminder: " title
title_for_page title repage = append "Re-page: " title
title_for_page title page = append "Page: " title

-- The count that tells pages of one purpose and step apart
unfoldable pub sequence_of : IncidentEngagement → EngagementDeliveryPurpose → ℕ
sequence_of e handoff = e.handoff_count
sequence_of e _ = e.repeat_page_count

unfoldable pub candidate_for :
    IncidentEngagement
    → IncidentRecord
    → ResolvedEscalationRecipient
    → EngagementDeliveryPurpose
    → NotificationCandidate
unfolding event_class_for title_for_page sequence_of
candidate_for e incident r purpose = record {
  event_class = event_class_for purpose e.current_step_index;
  severity = incident.severity;
  risk_level = dev;
  title = title_for_page incident.title purpose;
  summary = incident.summary;
  dedupe_key = record {
    engagement_id = e.id;
    purpose = purpose;
    step_index = e.current_step_index;
    sequence = sequence_of e purpose;
  };
  incident_id = incident.id;
  component_id = incident.component_id;
  component_kind = incident.component_kind;
  incident_status = incident.status;
  forced_channel_ids = r.channel_ids;
}

abbrev is_failed : NotificationStatus → Bool
is_failed failed_notification = true
is_failed _ = false

-- The entries for a page that was sent.
unfoldable pub page_entries :
    ℕ
    → IncidentEngagement
    → IncidentRecord
    → ResolvedEscalationRecipient
    → EngagementDeliveryPurpose
    → Notification
    → List Entry
page_entries now e incident r purpose n =
    linked (record {
      engagement_id = e.id;
      notification_id = n.id;
      purpose = purpose;
      step_index = e.current_step_index;
      created_at = now;
    })
    ∷ timeline e.id incident.id "paged"
    ∷ operation e.id incident.id (not (is_failed n.status)) "dispatched"
    ∷ published (page_sent e.id incident.id n.id purpose e.current_step_index r.target_ref)
    ∷ []

abbrev pub with_page : ℕ → IncidentEngagement → IncidentEngagement
with_page now e = record e { last_page_at = some now; updated_at = now }

-- `_page_engagement` after `send`; when that raises, nothing more happens.
unfoldable pub finish_page :
    ℕ
    → IncidentEngagement
    → IncidentRecord
    → ResolvedEscalationRecipient
    → EngagementDeliveryPurpose
    → Store
    → Sent
    → Outcome
unfolding page_entries save note
finish_page now e incident r purpose s send_raised = raised page_failed s
finish_page now e incident r purpose s no_notification =
    returned (with_page now e) (save (with_page now e) s)
finish_page now e incident r purpose s (sent n) =
    let e2 = with_page now e in
    returned e2 (note (page_entries now e2 incident r purpose n) (save e2 s))

-- `_page_engagement`
unfoldable pub page_engagement :
    Services
    → ℕ
    → IncidentEngagement
    → IncidentRecord
    → ResolvedEscalationRecipient
    → EngagementDeliveryPurpose
    → Store
    → Outcome
unfolding candidate_for finish_page
page_engagement svc now e incident r purpose s =
    finish_page now e incident r purpose s (svc.send (candidate_for e incident r purpose))
