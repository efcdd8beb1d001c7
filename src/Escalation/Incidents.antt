-- ===== src/Escalation/Incidents.antt =====
-- src/cockpit/ops/services/escalation_service.py: what the events of an incident do with its engagement.
use cockpit_cli.Prelude.{
  Bool, List, Option, String, [], dec_beq, false, get_elem?, if◌then◌else◌, insert, keep, lookup,
  ltb, map, nat_eq, none, not, some, sort, string_eq, ℕ, ◌&&◌, ◌==◌, ◌∷◌,
}
use cockpit_cli.Enums.{
  IncidentStatus, IncidentStatus-discrete, component_kind_eq, event_class_eq, incident_status_eq,
  severity_eq, target_risk_eq,
}
use cockpit_cli.OnCall.{
  OwnershipResolution, ResolvedEscalationRecipient, is_resolved, subject_kind_eq,
}
use cockpit_cli.Escalation.Data.{
  EngagementStatus, Entry, EscalationPolicy, EscalationStep, IncidentEngagement, IncidentRecord,
  Outcome, Store, blocked, closed_engagement, empty_rotation, engagement_created,
  incident_status_changed, incident_timeline, no_steps, page, published, raised,
  resolved_engagement, returned, timeline,
}
use cockpit_cli.Escalation.Policy.{first_step, get_policy, list_for_policy}
use cockpit_cli.Escalation.Pages.{page_engagement}
use cockpit_cli.Escalation.Effects.{Services, is_over, note, save, status_change}
use cockpit_cli.Escalation.Due.{at_step}

-- `status IN (ACTIVE, ACKNOWLEDGED, BLOCKED)`, of the incident
abbrev pub is_open_for : String → IncidentEngagement → Bool
is_open_for incident_id e = e.incident_id == incident_id && not (is_over e.status)

-- `find_active_for_incident`: the latest one
unfoldable pub find_active_for_incident : String → Store → Option IncidentEngagement
unfolding sort
find_active_for_incident incident_id s =
    get_elem?
      (sort (λ a b. ltb b.created_at a.created_at)
        (keep (is_open_for incident_id) (map (λ (key, e). e) s.engagements)))
      0

abbrev pub same_status : IncidentStatus → IncidentStatus → Bool
same_status a b = dec_beq (IncidentStatus-discrete a b)

unfoldable pub closed_with : ℕ → EngagementStatus → IncidentEngagement → IncidentEngagement
closed_with now status e = record e {
  status = status;
  next_action_at = none;
  closed_at = some now;
  updated_at = now;
}

unfoldable pub close_engagement : ℕ → EngagementStatus → Store → Option IncidentEngagement → Store
unfolding closed_with save note
close_engagement now status s none = s
close_engagement now status s (some e) =
    let e2 = closed_with now status e in
    note
      (timeline e.id e.incident_id (elim status [ closed_engagement ↦ "closed" | _ ↦ "resolved" ])
        ∷ status_change e2 (some e.status)
        ∷ [])
      (save e2 s)

-- `_on_incident_status_changed`
unfoldable pub on_incident_status_changed : ℕ → String → IncidentStatus → Store → Store
unfolding find_active_for_incident close_engagement
on_incident_status_changed now incident_id IncidentStatus.resolved s =
    close_engagement now resolved_engagement s (find_active_for_incident incident_id s)
on_incident_status_changed now incident_id IncidentStatus.closed s =
    close_engagement now closed_engagement s (find_active_for_incident incident_id s)
on_incident_status_changed now incident_id _ s = s

-- `value` where the test holds, and otherwise what was there
abbrev stamp : Bool → ℕ → Option ℕ → Option ℕ
stamp now_too now at = if now_too then some now else at

-- What is written of an incident whose status changes.
unfoldable pub incident_with : ℕ → IncidentStatus → IncidentRecord → Store → Store
unfolding insert note
incident_with now new incident s =
    note
      (incident_timeline incident.id "status_changed"
        ∷ published (incident_status_changed incident.id incident.status new)
        ∷ [])
      (record s {
        incidents =
            insert incident.id
              (record incident {
                status = new;
                updated_at = some now;
                acknowledged_at =
                    stamp (same_status new IncidentStatus.acknowledged) now
                      incident.acknowledged_at;
                resolved_at =
                    stamp (same_status new IncidentStatus.resolved) now incident.resolved_at;
                closed_at = stamp (same_status new IncidentStatus.closed) now incident.closed_at;
              })
              s.incidents;
      })

unfoldable pub change_incident : ℕ → String → IncidentStatus → Store → Option IncidentRecord → Store
unfolding incident_with on_incident_status_changed
change_incident now incident_id new s none = s
change_incident now incident_id new s (some incident) =
    if same_status incident.status new
    then s
    else on_incident_status_changed now incident_id new (incident_with now new incident s)

-- `_set_incident_status`; the event it publishes reaches `_on_incident_status_changed`.
unfoldable pub set_incident_status : ℕ → String → IncidentStatus → Store → Store
unfolding lookup change_incident
set_incident_status now incident_id new s =
    change_incident now incident_id new s (lookup incident_id s.incidents)

abbrev pub text_or_empty : Option String → String
text_or_empty none = ""
text_or_empty (some t) = t

-- The engagement as it is first made.
unfoldable pub new_engagement :
    ℕ → String → IncidentRecord → OwnershipResolution → IncidentEngagement
new_engagement now id incident owner = record {
  id = id;
  incident_id = incident.id;
  incident_component_id = incident.component_id;
  team_id = owner.team_id;
  policy_id = owner.escalation_policy_id;
  status = blocked;
  current_step_index = 0;
  current_target_kind = none;
  current_target_ref = none;
  resolved_person_id = none;
  acknowledged_by = none;
  acknowledged_at = none;
  handoff_count = 0;
  repeat_page_count = 0;
  next_action_at = none;
  ack_deadline_at = none;
  last_page_at = none;
  is_exhausted = false;
  created_at = now;
  updated_at = now;
  closed_at = none;
}

abbrev creation : IncidentEngagement → String → Entry
creation e policy =
    published (engagement_created e.id e.incident_id (text_or_empty e.team_id) policy)

-- `_create_engagement_for_incident`, once there is a policy that is enabled
unfoldable pub start_with :
    Services
    → ℕ
    → IncidentEngagement
    → IncidentRecord
    → EscalationPolicy
    → EscalationStep
    → Store
    → Option ResolvedEscalationRecipient
    → Outcome
unfolding at_step save note page_engagement
start_with svc now e incident policy step s none = raised empty_rotation s
start_with svc now e incident policy step s (some r) =
    let e2 = at_step now policy step r e in
    let s2 =
      note (timeline e.id incident.id "created" ∷ creation e policy.id ∷ status_change e2 none ∷ [])
        (save e2 s) in
    if is_resolved r.outcome
    then page_engagement svc now e2 incident r page s2
    else returned e2 (note (timeline e.id incident.id "blocked" ∷ []) s2)

unfoldable pub start :
    Services
    → ℕ
    → IncidentEngagement
    → IncidentRecord
    → EscalationPolicy
    → Store
    → Option EscalationStep
    → Outcome
unfolding start_with
start svc now e incident policy s none = raised (no_steps policy.id) s
start svc now e incident policy s (some step) =
    start_with svc now e incident policy step s
      (svc.resolve_target step.target_kind step.target_ref now)

-- Its two ends without one
unfoldable pub start_blocked : IncidentEngagement → List Entry → Store → Outcome
unfolding save note
start_blocked e more s = returned e (
    note (timeline e.id e.incident_id "blocked" ∷ creation e (text_or_empty e.policy_id) ∷ more)
      (save e s))

unfoldable pub start_policy :
    Services → ℕ → IncidentEngagement → IncidentRecord → Store → Option EscalationPolicy → Outcome
unfolding start start_blocked first_step list_for_policy
start_policy svc now e incident s none = start_blocked e [] s
start_policy svc now e incident s (some policy) =
    if policy.enabled
    then start svc now e incident policy s (first_step (list_for_policy svc.policies policy.id))
    else start_blocked e [] s

-- `_create_engagement_for_incident`
unfoldable pub create_engagement : Services → ℕ → String → IncidentRecord → Store → Outcome
unfolding new_engagement get_policy start_policy start_blocked
create_engagement svc now id incident s =
    let owner = svc.resolve_owner incident.component_kind incident.component_id in
    let e = new_engagement now id incident owner in
    if not (is_resolved owner.outcome)
    then start_blocked e (status_change e none ∷ []) s
    else start_policy svc now e incident s
        (get_policy svc.policies (text_or_empty owner.escalation_policy_id))

unfoldable pub open_for :
    Services → ℕ → String → Store → IncidentRecord → Option IncidentEngagement → Option Outcome
unfolding create_engagement
open_for svc now id s incident (some e) = none
open_for svc now id s incident none = some (create_engagement svc now id incident s)

unfoldable pub incident_opened :
    Services → ℕ → String → Store → Option IncidentRecord → Option Outcome
unfolding find_active_for_incident open_for
incident_opened svc now id s none = none
incident_opened svc now id s (some incident) =
    open_for svc now id s incident (find_active_for_incident incident.id s)

-- `_on_incident_opened`; `none` if it makes no engagement.
unfoldable pub on_incident_opened : Services → ℕ → String → String → Store → Option Outcome
unfolding lookup incident_opened
on_incident_opened svc now id incident_id s =
    incident_opened svc now id s (lookup incident_id s.incidents)
