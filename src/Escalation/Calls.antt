-- ===== src/Escalation/Calls.antt =====
-- src/cockpit/ops/services/escalation_service.py: what an operator does with an engagement.
use cockpit_cli.Prelude.{
  Option, String, [], if◌then◌else◌, lookup, nat_eq, none, not, some, string_eq, suc, true, ℕ, ◌∷◌,
}
use cockpit_cli.Enums.{
  IncidentStatus, component_kind_eq, event_class_eq, incident_status_eq, severity_eq,
  target_risk_eq,
}
use cockpit_cli.OnCall.{
  EscalationTargetKind, ResolvedEscalationRecipient, is_resolved, subject_kind_eq,
}
use cockpit_cli.Escalation.Data.{
  EscalationPolicy, EscalationStep, IncidentEngagement, IncidentRecord, Outcome, Store,
  acknowledged_engagement, active, blocked, empty_rotation, engagement_acknowledged,
  engagement_handed_off, handoff, no_engagement, not_open, operation, published, raised, repage,
  returned, timeline,
}
use cockpit_cli.Escalation.Policy.{ack_deadline_for, next_repeat_at}
use cockpit_cli.Escalation.Pages.{page_engagement}
use cockpit_cli.Escalation.Effects.{
  Required, Services, block_engagement, current_recipient, have, is_over, missing, note,
  require_incident, require_step, save, status_change, with_person,
}
use cockpit_cli.Escalation.Incidents.{set_incident_status}

-- `_require_engagement`, and the test of its status that the three calls share
unfoldable pub open_found :
    String → Store → (IncidentEngagement → Outcome) → Option IncidentEngagement → Outcome
open_found id s f none = raised (no_engagement id) s
open_found id s f (some e) = if is_over e.status then raised (not_open e.status) s else f e

unfoldable pub with_open : String → Store → (IncidentEngagement → Outcome) → Outcome
unfolding lookup open_found
with_open id s f = open_found id s f (lookup id s.engagements)

unfoldable pub acknowledged_by_actor : ℕ → String → IncidentEngagement → IncidentEngagement
acknowledged_by_actor now actor e = record e {
  status = acknowledged_engagement;
  acknowledged_by = some actor;
  acknowledged_at = some now;
  next_action_at = none;
  updated_at = now;
}

unfoldable pub acknowledge : ℕ → String → IncidentEngagement → Store → Outcome
unfolding acknowledged_by_actor set_incident_status save note
acknowledge now actor e s =
    let e2 = acknowledged_by_actor now actor e in
    let s2 =
      note (timeline e.id e.incident_id "acknowledged" ∷ status_change e2 (some e.status) ∷ [])
        (save e2 s) in
    returned e2 (
      note
        (operation e.id e.incident_id true "engagement acknowledged"
          ∷ published (engagement_acknowledged e.id e.incident_id actor)
          ∷ [])
        (set_incident_status now e.incident_id IncidentStatus.acknowledged s2))

unfoldable pub acknowledge_engagement : ℕ → String → String → Store → Outcome
unfolding with_open acknowledge
acknowledge_engagement now id actor s = with_open id s (λ e. acknowledge now actor e s)

-- The new target, in the step that the engagement is in.
unfoldable pub handed_to :
    ℕ
    → EscalationPolicy
    → EscalationStep
    → EscalationTargetKind
    → String
    → ResolvedEscalationRecipient
    → IncidentEngagement
    → IncidentEngagement
unfolding ack_deadline_for next_repeat_at
handed_to now policy step kind ref r e = record e {
  current_target_kind = some kind;
  current_target_ref = some ref;
  resolved_person_id = r.person_id;
  handoff_count = suc e.handoff_count;
  repeat_page_count = 0;
  acknowledged_by = none;
  acknowledged_at = none;
  ack_deadline_at = some (ack_deadline_for policy step now);
  status = if is_resolved r.outcome then active else blocked;
  next_action_at = if is_resolved r.outcome then some (next_repeat_at policy step now) else none;
  updated_at = now;
}

-- `handoff_engagement`, from the recipient on
unfoldable pub hand_over :
    Services
    → ℕ
    → String
    → EscalationTargetKind
    → String
    → IncidentRecord
    → EscalationPolicy
    → EscalationStep
    → IncidentEngagement
    → Store
    → Option ResolvedEscalationRecipient
    → Outcome
unfolding handed_to save note page_engagement
hand_over svc now actor kind ref incident policy step e s none = raised empty_rotation s
hand_over svc now actor kind ref incident policy step e s (some r) =
    let e2 = handed_to now policy step kind ref r e in
    let s2 =
      note
        (timeline e.id e.incident_id "handed_off"
          ∷ status_change e2 (some e.status)
          ∷ operation e.id e.incident_id (is_resolved r.outcome) "engagement handoff"
          ∷ published (engagement_handed_off e.id e.incident_id actor ref)
          ∷ [])
        (save e2 s) in
    if is_resolved r.outcome
    then page_engagement svc now e2 incident r handoff s2
    else returned e2 s2

unfoldable pub hand_to :
    Services
    → ℕ
    → String
    → EscalationTargetKind
    → String
    → IncidentRecord
    → IncidentEngagement
    → Store
    → Required (EscalationPolicy × EscalationStep)
    → Outcome
unfolding hand_over
hand_to svc now actor kind ref incident e s (missing error) = raised error s
hand_to svc now actor kind ref incident e s (have (policy, step)) =
    hand_over svc now actor kind ref incident policy step e s (svc.resolve_target kind ref now)

unfoldable pub incident_then :
    Store → (IncidentRecord → Outcome) → Required IncidentRecord → Outcome
incident_then s f (missing error) = raised error s
incident_then s f (have incident) = f incident

unfoldable pub with_incident : IncidentEngagement → Store → (IncidentRecord → Outcome) → Outcome
unfolding require_incident incident_then
with_incident e s f = incident_then s f (require_incident s e.incident_id)

unfoldable pub handoff_engagement :
    Services → ℕ → String → String → EscalationTargetKind → String → Store → Outcome
unfolding with_open with_incident require_step hand_to
handoff_engagement svc now id actor kind ref s = with_open id s (λ e.
    with_incident e s
      (λ incident. hand_to svc now actor kind ref incident e s (require_step svc e)))

-- `repage_engagement`, from the recipient on
unfoldable pub page_anew :
    Services
    → ℕ
    → IncidentEngagement
    → Store
    → IncidentRecord
    → Option ResolvedEscalationRecipient
    → Outcome
unfolding with_person block_engagement save page_engagement
page_anew svc now e s incident none = raised empty_rotation s
page_anew svc now e s incident (some r) =
    if not (is_resolved r.outcome)
    then block_engagement now (with_person e r) s
    else let e2 = record (with_person e r) { status = active; updated_at = now } in
      page_engagement svc now e2 incident r repage (save e2 s)

unfoldable pub repage_engagement : Services → ℕ → String → Store → Outcome
unfolding with_open with_incident current_recipient page_anew
repage_engagement svc now id s = with_open id s (λ e.
    with_incident e s (λ incident. page_anew svc now e s incident (current_recipient svc e now)))
