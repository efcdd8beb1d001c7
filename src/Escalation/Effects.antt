-- ===== src/Escalation/Effects.antt =====
-- src/cockpit/ops/services/escalation_service.py: what its operations share. One operation reads the
-- clock once. The handlers of other services that an event reaches are not part of the state.
use cockpit_cli.Prelude.{
  Bool, List, Option, String, [], false, if◌then◌else◌, insert, is_some, lookup, nat_eq, none, some,
  string_eq, true, ℕ, ◌&&◌, ◌++◌, ◌==◌, ◌∷◌,
}
use cockpit_cli.Enums.{
  ComponentKind, component_kind_eq, event_class_eq, incident_status_eq, severity_eq, target_risk_eq,
}
use cockpit_cli.OnCall.{
  EscalationTargetKind, OwnershipResolution, ResolvedEscalationRecipient, blocked_by, is_given,
  no_target, subject_kind_eq, to_channel,
}
use cockpit_cli.Escalation.Data.{
  EngagementStatus, Entry, Error, EscalationPolicy, EscalationStep, IncidentEngagement,
  IncidentRecord, NotificationCandidate, Outcome, Sent, Store, active, blocked, closed_engagement,
  engagement_exhausted, engagement_status_changed, exhausted, no_incident, no_step, no_such_policy,
  published, resolved_engagement, returned, timeline, without_policy,
}
use cockpit_cli.Escalation.Policy.{Policies, get_policy, list_for_policy, step_at}

-- The services that an engagement needs: the tables of policies, whom a component belongs to, whom a
-- target reaches (`none` for a `RuntimeError`), and the dispatch of notifications.
pub record Services : Type 0 where
  pub policies : Policies
  pub resolve_owner : ComponentKind → String → OwnershipResolution
  pub resolve_target : EscalationTargetKind → String → ℕ → Option ResolvedEscalationRecipient
  pub send : NotificationCandidate → Sent

abbrev pub is_active : EngagementStatus → Bool
is_active active = true
is_active _ = false

-- `status in {RESOLVED, CLOSED, EXHAUSTED}`
abbrev pub is_over : EngagementStatus → Bool
is_over resolved_engagement = true
is_over closed_engagement = true
is_over exhausted = true
is_over _ = false

-- `IncidentEngagementRepository.save`
unfoldable pub save : IncidentEngagement → Store → Store
unfolding insert
save e s = record s { engagements = insert e.id e s.engagements }

unfoldable pub note : List Entry → Store → Store
note entries s = record s { journal = s.journal ++ entries }

-- `_publish_status_change`
abbrev pub status_change : IncidentEngagement → Option EngagementStatus → Entry
status_change e previous =
    published (engagement_status_changed e.id e.incident_id previous e.status)

abbrev nobody : ResolvedEscalationRecipient
nobody = record {
  outcome = blocked_by;
  target_kind = to_channel;
  target_ref = "";
  person_id = none;
  channel_ids = [];
  explanation = no_target;
}

unfoldable pub target_recipient :
    Services → ℕ → Option EscalationTargetKind → Option String → Option ResolvedEscalationRecipient
target_recipient svc at none ref = some nobody
target_recipient svc at (some kind) none = some nobody
target_recipient svc at (some kind) (some ref) =
    if ref == "" then some nobody else svc.resolve_target kind ref at

-- `_resolve_current_recipient`, without its write of `resolved_person_id`
unfoldable pub current_recipient :
    Services → IncidentEngagement → ℕ → Option ResolvedEscalationRecipient
unfolding target_recipient
current_recipient svc e at = target_recipient svc at e.current_target_kind e.current_target_ref

-- Its write: there is none where the engagement has no target.
unfoldable pub with_person : IncidentEngagement → ResolvedEscalationRecipient → IncidentEngagement
with_person e r = record e {
  resolved_person_id =
      if is_some e.current_target_kind && is_given e.current_target_ref
      then r.person_id
      else e.resolved_person_id;
}

abbrev pub as_blocked : ℕ → IncidentEngagement → IncidentEngagement
as_blocked now e = record e { status = blocked; next_action_at = none; updated_at = now }

-- The change of status to `blocked`, and what is noted of it.
unfoldable pub block_engagement : ℕ → IncidentEngagement → Store → Outcome
unfolding save note
block_engagement now e s =
    let e2 = as_blocked now e in
    returned e2 (
      note (timeline e.id e.incident_id "blocked" ∷ status_change e2 (some e.status) ∷ [])
        (save e2 s))

abbrev pub as_exhausted : ℕ → IncidentEngagement → IncidentEngagement
as_exhausted now e = record e {
  status = exhausted;
  is_exhausted = true;
  next_action_at = none;
  updated_at = now;
}

-- `_mark_exhausted`
unfoldable pub mark_exhausted : ℕ → IncidentEngagement → Store → Outcome
unfolding save note
mark_exhausted now e s =
    let e2 = as_exhausted now e in
    returned e2 (
      note
        (timeline e.id e.incident_id "exhausted"
          ∷ status_change e2 (some e.status)
          ∷ published (engagement_exhausted e.id e.incident_id)
          ∷ [])
        (save e2 s))

-- `_require_incident`, and `_require_policy` with `_require_step`
pub data Required {ℓ} (A : Type ℓ) : Type ℓ where
  have : A → Required A
  missing : Error → Required A

unfoldable pub incident_found : String → Option IncidentRecord → Required IncidentRecord
incident_found id none = missing (no_incident id)
incident_found id (some incident) = have incident

unfoldable pub require_incident : Store → String → Required IncidentRecord
unfolding lookup incident_found
require_incident s id = incident_found id (lookup id s.incidents)

unfoldable pub step_found :
    ℕ
    → String
    → EscalationPolicy
    → Option EscalationStep
    → Required (EscalationPolicy × EscalationStep)
step_found index id policy none = missing (no_step index id)
step_found index id policy (some step) = have (policy, step)

unfoldable pub policy_found :
    Services
    → IncidentEngagement
    → String
    → Option EscalationPolicy
    → Required (EscalationPolicy × EscalationStep)
unfolding list_for_policy step_at step_found
policy_found svc e id none = missing (no_such_policy id)
policy_found svc e id (some policy) =
    step_found e.current_step_index id policy
      (step_at (list_for_policy svc.policies id) e.current_step_index)

unfoldable pub policy_named :
    Services → IncidentEngagement → Option String → Required (EscalationPolicy × EscalationStep)
unfolding get_policy policy_found
policy_named svc e none = missing (without_policy e.id)
policy_named svc e (some id) =
    if id == ""
    then missing (without_policy e.id)
    else policy_found svc e id (get_policy svc.policies id)

unfoldable pub require_step :
    Services → IncidentEngagement → Required (EscalationPolicy × EscalationStep)
unfolding policy_named
require_step svc e = policy_named svc e e.policy_id
