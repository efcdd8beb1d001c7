-- ===== src/Escalation/Due.antt =====
-- src/cockpit/ops/services/escalation_service.py: the actions that are due, and what they do.
use cockpit_cli.Prelude.{
  Bool, List, Option, [], false, if◌then◌else◌, keep, leb, ltb, map, nat_eq, none, not, some, sort,
  string_eq, suc, true, ℕ, ◌&&◌, ◌==◌, ◌∷◌,
}
use cockpit_cli.Prelude.Int.{leb_ℤ, pos}
use cockpit_cli.OnCall.{ResolvedEscalationRecipient, is_resolved, subject_kind_eq}
use cockpit_cli.Escalation.Data.{
  EngagementDeliveryPurpose, Error, EscalationPolicy, EscalationStep, IncidentEngagement,
  IncidentRecord, Outcome, Store, acknowledged_engagement, active, blocked, empty_rotation,
  engagement_escalated_to, page, published, raised, reminder, repage, returned, store_of, timeline,
}
use cockpit_cli.Escalation.Policy.{
  ack_deadline_for, list_for_policy, max_repeats, next_repeat_at, next_step,
}
use cockpit_cli.Escalation.Pages.{page_engagement}
use cockpit_cli.Escalation.Effects.{
  Required, Services, block_engagement, current_recipient, have, is_active, mark_exhausted, missing,
  note, require_incident, require_step, save, status_change, with_person,
}

-- What the engagement becomes when a step takes over, and the recipient is the one given.
unfoldable pub at_step :
    ℕ
    → EscalationPolicy
    → EscalationStep
    → ResolvedEscalationRecipient
    → IncidentEngagement
    → IncidentEngagement
unfolding ack_deadline_for next_repeat_at
at_step now policy step r e = record e {
  current_step_index = step.step_index;
  current_target_kind = some step.target_kind;
  current_target_ref = some step.target_ref;
  resolved_person_id = r.person_id;
  repeat_page_count = 0;
  ack_deadline_at = some (ack_deadline_for policy step now);
  updated_at = now;
  status = if is_resolved r.outcome then active else blocked;
  next_action_at = if is_resolved r.outcome then some (next_repeat_at policy step now) else none;
}

-- The branch in which the time to acknowledge is over and there is a next step, from the recipient on.
unfoldable pub escalate_to :
    Services
    → ℕ
    → IncidentEngagement
    → IncidentRecord
    → EscalationPolicy
    → EscalationStep
    → Store
    → Option ResolvedEscalationRecipient
    → Outcome
unfolding at_step save note page_engagement
escalate_to svc now e incident policy step s none = raised empty_rotation s
escalate_to svc now e incident policy step s (some r) =
    let e2 = at_step now policy step r e in
    let s2 =
      note
        (timeline e.id e.incident_id "escalated"
          ∷ status_change e2 (some e.status)
          ∷ published (engagement_escalated_to e.id e.incident_id step.step_index step.target_ref)
          ∷ [])
        (save e2 s) in
    if is_resolved r.outcome then page_engagement svc now e2 incident r page s2 else returned e2 s2

-- `escalate_to` for the next step, or the end of the policy
unfoldable pub escalate :
    Services
    → ℕ
    → IncidentEngagement
    → IncidentRecord
    → EscalationPolicy
    → Store
    → Option EscalationStep
    → Outcome
unfolding mark_exhausted escalate_to
escalate svc now e incident policy s none = mark_exhausted now e s
escalate svc now e incident policy s (some step) =
    escalate_to svc now e incident policy step s
      (svc.resolve_target step.target_kind step.target_ref now)

-- `if engagement.ack_deadline_at and next_repeat_at >= engagement.ack_deadline_at`
unfoldable pub next_page_at : Option ℕ → ℕ → ℕ
next_page_at none repeat_at = repeat_at
next_page_at (some deadline) repeat_at = if leb deadline repeat_at then deadline else repeat_at

-- What the engagement becomes when it is paged once more.
unfoldable pub page_again :
    ℕ → EscalationPolicy → EscalationStep → IncidentEngagement → IncidentEngagement
unfolding next_page_at next_repeat_at
page_again now policy step e = record e {
  repeat_page_count = suc e.repeat_page_count;
  updated_at = now;
  next_action_at = some (next_page_at e.ack_deadline_at (next_repeat_at policy step now));
}

unfoldable pub repeat_purpose : EscalationStep → ℕ → EngagementDeliveryPurpose
repeat_purpose step repeats = if step.reminder_enabled && repeats == 1 then reminder else repage

-- There are no pages left.
unfoldable pub wait_for_deadline : ℕ → IncidentEngagement → Store → Outcome
unfolding save
wait_for_deadline now e s =
    let e2 = record e { next_action_at = e.ack_deadline_at; updated_at = now } in
    returned e2 (save e2 s)

-- There are pages left; from the recipient on.
unfoldable pub page_once_more :
    Services
    → ℕ
    → IncidentEngagement
    → IncidentRecord
    → EscalationPolicy
    → EscalationStep
    → Store
    → Option ResolvedEscalationRecipient
    → Outcome
unfolding save with_person block_engagement page_again repeat_purpose page_engagement
page_once_more svc now e incident policy step s none = raised empty_rotation s
page_once_more svc now e incident policy step s (some r) =
    if not (is_resolved r.outcome)
    then block_engagement now (with_person e r) s
    else let e2 = page_again now policy step (with_person e r) in
      page_engagement svc now e2 incident r (repeat_purpose step e2.repeat_page_count) (save e2 s)

unfoldable pub page_or_wait :
    Services
    → ℕ
    → IncidentEngagement
    → IncidentRecord
    → EscalationPolicy
    → EscalationStep
    → Store
    → Outcome
unfolding max_repeats wait_for_deadline current_recipient page_once_more
page_or_wait svc now e incident policy step s =
    if leb_ℤ (max_repeats policy step) (pos e.repeat_page_count)
    then wait_for_deadline now e s
    else page_once_more svc now e incident policy step s (current_recipient svc e now)

-- `ack_deadline_at and effective_now >= ack_deadline_at`
abbrev pub is_past : Option ℕ → ℕ → Bool
is_past none now = false
is_past (some deadline) now = leb deadline now

-- `_run_due_action`, once the incident, the policy and the step are there.
unfoldable pub act :
    Services
    → ℕ
    → IncidentEngagement
    → IncidentRecord
    → EscalationPolicy
    → EscalationStep
    → Store
    → Outcome
unfolding next_step list_for_policy escalate page_or_wait
act svc now e incident policy step s =
    if is_past e.ack_deadline_at now
    then escalate svc now e incident policy s
        (next_step (list_for_policy svc.policies policy.id) e.current_step_index)
    else page_or_wait svc now e incident policy step s

unfoldable pub act_on_step :
    Services
    → ℕ
    → IncidentEngagement
    → IncidentRecord
    → Required (EscalationPolicy × EscalationStep)
    → Store
    → Outcome
unfolding act
act_on_step svc now e incident (missing error) s = raised error s
act_on_step svc now e incident (have (policy, step)) s = act svc now e incident policy step s

unfoldable pub act_on_incident :
    Services → ℕ → IncidentEngagement → Store → Required IncidentRecord → Outcome
unfolding require_step act_on_step
act_on_incident svc now e s (missing error) = raised error s
act_on_incident svc now e s (have incident) =
    if not (is_active e.status)
    then returned e s
    else act_on_step svc now e incident (require_step svc e) s

-- `_run_due_action`
unfoldable pub run_due_action : Services → ℕ → IncidentEngagement → Store → Outcome
unfolding require_incident act_on_incident
run_due_action svc now e s = act_on_incident svc now e s (require_incident s e.incident_id)

-- `status IN (ACTIVE, ACKNOWLEDGED) AND next_action_at IS NOT NULL AND next_action_at <= now`
abbrev pub is_due : ℕ → IncidentEngagement → Bool
is_due now e = elim e.next_action_at [
  | none ↦ false
  | some at ↦
      leb at now && elim e.status [ active ↦ true | acknowledged_engagement ↦ true | _ ↦ false ]
]

abbrev at_or_zero : Option ℕ → ℕ
at_or_zero none = 0
at_or_zero (some at) = at

-- `list_due_actions`
unfoldable pub list_due_actions : ℕ → Store → List IncidentEngagement
unfolding sort
list_due_actions now s =
    sort (λ a b. ltb (at_or_zero a.next_action_at) (at_or_zero b.next_action_at))
      (keep (is_due now) (map (λ (key, e). e) s.engagements))

-- What an action raises ends the loop.
abbrev pub unless_raised : Outcome → Option Error × Store → Option Error × Store
unless_raised (returned e s) rest = rest
unless_raised (raised error s) rest = (some error, s)

-- The loop of `run_due_actions`: what it raises, and the state that it leaves.
unfoldable pub run_all : Services → ℕ → List IncidentEngagement → Store → Option Error × Store
unfolding run_due_action
run_all svc now [] s = (none, s)
run_all svc now (e ∷ es) s =
    let o = run_due_action svc now e s in unless_raised o (run_all svc now es (store_of o))

unfoldable pub run_due_actions : Services → ℕ → Store → Option Error × Store
unfolding list_due_actions run_all
run_due_actions svc now s = run_all svc now (list_due_actions now s) s
