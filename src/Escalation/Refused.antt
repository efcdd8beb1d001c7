-- ===== src/Escalation/Refused.antt =====
-- src/cockpit/ops/services/escalation_service.py: calls that come too late.
use cockpit_cli.Prelude.{
  Bool-cases, String, inl, inr, lookup, nat_eq, none, refl, some, string_eq, true, ℕ, ◌≡◌, ◌⊎◌,
}
use cockpit_cli.OnCall.{EscalationTargetKind, subject_kind_eq}
use cockpit_cli.Escalation.{
  EngagementStatus, IncidentEngagement, Outcome, Services, Store, acknowledge,
  acknowledge_engagement, acknowledged_by_actor, acknowledged_engagement, active, blocked,
  closed_engagement, exhausted, handoff_engagement, is_over, not_open, open_found, raised,
  repage_engagement, resolved_engagement, returned, with_open,
}

-- An engagement that is over is resolved, closed or exhausted.
abbrev pub IsTooLate : EngagementStatus → Type 0
IsTooLate status =
    (status ≡ resolved_engagement) ⊎ (status ≡ closed_engagement) ⊎ (status ≡ exhausted)

too_late : (status : EngagementStatus) → IsTooLate status → is_over status ≡ true
too_late status (inl e) = rw e refl
too_late status (inr (inl e)) = rw e refl
too_late status (inr (inr e)) = rw e refl

over_late : (status : EngagementStatus) → is_over status ≡ true → IsTooLate status
over_late resolved_engagement h = inl refl
over_late closed_engagement h = inr (inl refl)
over_late exhausted h = inr (inr refl)
over_late active h = absurd (cc h)
over_late acknowledged_engagement h = absurd (cc h)
over_late blocked h = absurd (cc h)

-- The call returns the engagement, acknowledged by the actor now and without a next action.
abbrev pub IsAcknowledged : ℕ → String → IncidentEngagement → Outcome → Type 0
IsAcknowledged now actor e (raised error s) = ⊥
IsAcknowledged now actor e (returned e2 s) =
    (e2.id ≡ e.id)
    × (e2.status ≡ acknowledged_engagement)
    × (e2.acknowledged_by ≡ some actor)
    × (e2.acknowledged_at ≡ some now)
    × (e2.next_action_at ≡ none)

open_found_over :
    (id : String) (s : Store) (f : IncidentEngagement → Outcome) (e : IncidentEngagement)
    → lookup id s.engagements ≡ some e
    → is_over e.status ≡ true
    → with_open id s f ≡ raised (not_open e.status) s
unfolding with_open open_found
open_found_over id s f e h over = rw h (rw over refl)

acknowledge-IsAcknowledged :
    (now : ℕ) (actor : String) (e : IncidentEngagement) (s : Store)
    → IsAcknowledged now actor e (acknowledge now actor e s)
unfolding acknowledge acknowledged_by_actor
acknowledge-IsAcknowledged now actor e s = (refl, refl, refl, refl, refl)

-- Of a stored engagement either holds: it is resolved, closed or exhausted, and to acknowledge it, to
-- hand it off and to page it anew all raise and change nothing; or it is none of these, and to acknowledge it
-- returns it as acknowledged by the actor now, without a next action.
pub calls-over :
    (svc : Services) (now : ℕ) (id actor : String) (kind : EscalationTargetKind) (ref : String)
    (s : Store) (e : IncidentEngagement)
    → lookup id s.engagements ≡ some e
    → IsTooLate e.status
        × (acknowledge_engagement now id actor s ≡ raised (not_open e.status) s)
        × (handoff_engagement svc now id actor kind ref s ≡ raised (not_open e.status) s)
        × (repage_engagement svc now id s ≡ raised (not_open e.status) s)
      ⊎ (¬ IsTooLate e.status) × IsAcknowledged now actor e (acknowledge_engagement now id actor s)
unfolding acknowledge_engagement handoff_engagement repage_engagement with_open open_found
calls-over svc now id actor kind ref s e h = elim (Bool-cases (is_over e.status)) [
  | inl over ↦ inl (
    over_late e.status over,
    open_found_over id s _ e h over,
    open_found_over id s _ e h over,
    open_found_over id s _ e h over,
  )
  | inr still ↦ inr (
    λ late. absurd (cc (too_late e.status late, still)),
    rw (h, still) (acknowledge-IsAcknowledged now actor e s),
  )
]
