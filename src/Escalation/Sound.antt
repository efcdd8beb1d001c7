-- ===== src/Escalation/Sound.antt =====
-- src/cockpit/ops/services/escalation_service.py: what always holds of the engagements that are stored.
use cockpit_cli.Prelude.{
  AllValues, Bool, Bool-cases, String, false, inl, inr, is_some, nat_eq, not, refl, string_eq, sym,
  true, ℕ, ◌∙◌, ◌≡◌,
}
use cockpit_cli.Enums.{component_kind_eq, target_risk_eq}
use cockpit_cli.OnCall.{
  EscalationTargetKind, ResolvedEscalationRecipient, is_resolved, subject_kind_eq,
}
use cockpit_cli.Escalation.{
  EngagementStatus, EscalationPolicy, EscalationStep, IncidentEngagement, Store,
  acknowledged_by_actor, acknowledged_engagement, active, as_blocked, at_step, blocked,
  closed_engagement, closed_with, exhausted, handed_to, is_active, is_over, resolved_engagement,
  with_person,
}

abbrev pub implies : Bool → Bool → Bool
implies true b = b
implies false b = true

abbrev pub is_spent : EngagementStatus → Bool
is_spent exhausted = true
is_spent _ = false

abbrev pub is_closed : EngagementStatus → Bool
is_closed resolved_engagement = true
is_closed closed_engagement = true
is_closed _ = false

-- The flag and the time of closing go with the status; only an active engagement has a next action;
-- and one that is active has a deadline, as has one with a target.
abbrev pub IsSound : IncidentEngagement → Type 0
IsSound e =
    (e.is_exhausted ≡ is_spent e.status)
    × (is_some e.closed_at ≡ is_closed e.status)
    × (implies (is_some e.next_action_at) (is_active e.status) ≡ true)
    × (implies (is_active e.status) (is_some e.ack_deadline_at) ≡ true)
    × (implies (is_some e.current_target_kind) (is_some e.ack_deadline_at) ≡ true)

abbrev pub AllSound : Store → Type 0
AllSound s = AllValues IsSound s.engagements

-- What a sound engagement has that is not over.
abbrev pub IsOpen : IncidentEngagement → Type 0
IsOpen e =
    (e.is_exhausted ≡ false)
    × (is_some e.closed_at ≡ false)
    × (implies (is_some e.current_target_kind) (is_some e.ack_deadline_at) ≡ true)

open_flags :
    (status : EngagementStatus)
    → is_over status ≡ false
    → (is_spent status ≡ false) × (is_closed status ≡ false)
open_flags active h = (refl, refl)
open_flags acknowledged_engagement h = (refl, refl)
open_flags blocked h = (refl, refl)
open_flags exhausted h = absurd (cc h)
open_flags resolved_engagement h = absurd (cc h)
open_flags closed_engagement h = absurd (cc h)

pub IsSound-IsOpen : (e : IncidentEngagement) → IsSound e → is_over e.status ≡ false → IsOpen e
IsSound-IsOpen e (a, b, c, d, f) h =
    let (spent, shut) = open_flags e.status h in (a ∙ spent, b ∙ shut, f)

pub not-false : (b : Bool) → not b ≡ false → b ≡ true
not-false true h = refl
not-false false h = sym h

pub implies_holds : (a b : Bool) → a ≡ true → implies a b ≡ true → b ≡ true
implies_holds true b h k = k
implies_holds false b h k = absurd (cc h)

pub implies-true : (b : Bool) → implies b true ≡ true
implies-true true = refl
implies-true false = refl

-- How the operations change an engagement that is not over.
module _ (now : ℕ) (e : IncidentEngagement) (h : IsOpen e) where
  pub as_blocked-IsSound :
      (r : ResolvedEscalationRecipient) → IsSound (as_blocked now (with_person e r))
  unfolding with_person
  as_blocked-IsSound r = (h.0, h.1, refl, refl, h.2)

  pub at_step-IsSound :
      (policy : EscalationPolicy) (step : EscalationStep) (r : ResolvedEscalationRecipient)
      → IsSound (at_step now policy step r e)
  unfolding at_step
  at_step-IsSound policy step r = elim (Bool-cases (is_resolved r.outcome)) [
    | inl e1 ↦ rw e1 (h.0, h.1, refl, refl, refl)
    | inr e1 ↦ rw e1 (h.0, h.1, refl, refl, refl)
  ]

  pub handed_to-IsSound :
      (policy : EscalationPolicy) (step : EscalationStep) (kind : EscalationTargetKind)
      (ref : String) (r : ResolvedEscalationRecipient)
      → IsSound (handed_to now policy step kind ref r e)
  unfolding handed_to
  handed_to-IsSound policy step kind ref r = elim (Bool-cases (is_resolved r.outcome)) [
    | inl e1 ↦ rw e1 (h.0, h.1, refl, refl, refl)
    | inr e1 ↦ rw e1 (h.0, h.1, refl, refl, refl)
  ]

  pub acknowledged_by_actor-IsSound : (actor : String) → IsSound (acknowledged_by_actor now actor e)
  unfolding acknowledged_by_actor
  acknowledged_by_actor-IsSound actor = (h.0, h.1, refl, refl, h.2)

  pub closed_with-IsSound :
      (status : EngagementStatus) → is_closed status ≡ true → IsSound (closed_with now status e)
  unfolding closed_with
  closed_with-IsSound resolved_engagement k = (h.0, refl, refl, refl, h.2)
  closed_with-IsSound closed_engagement k = (h.0, refl, refl, refl, h.2)
  closed_with-IsSound active k = absurd (cc k)
  closed_with-IsSound acknowledged_engagement k = absurd (cc k)
  closed_with-IsSound blocked k = absurd (cc k)
  closed_with-IsSound exhausted k = absurd (cc k)

pub is_active-is_over :
    (status : EngagementStatus) → is_active status ≡ true → is_over status ≡ false
is_active-is_over active h = refl
is_active-is_over acknowledged_engagement h = absurd (cc h)
is_active-is_over blocked h = absurd (cc h)
is_active-is_over exhausted h = absurd (cc h)
is_active-is_over resolved_engagement h = absurd (cc h)
is_active-is_over closed_engagement h = absurd (cc h)
