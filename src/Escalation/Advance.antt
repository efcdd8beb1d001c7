-- ===== src/Escalation/Advance.antt =====
-- src/cockpit/ops/services/escalation_service.py: a due action brings an engagement nearer to its end.
use cockpit_cli.Prelude.{
  Bool, Bool-cases, List, Option, arith, false, inl, inr, leb, nat_eq, none, not, refl, some,
  string_eq, suc, true, ℕ, ◌&&◌, ◌+◌, ◌<◌, ◌≡◌, ◌≤◌,
}
use cockpit_cli.Prelude.Int.{leb_ℤ, negsuc, pos, pos_part, ℤ}
use cockpit_cli.OnCall.{ResolvedEscalationRecipient, is_resolved, subject_kind_eq}
use cockpit_cli.Escalation.{
  EscalationPolicy, EscalationStep, IncidentEngagement, IncidentRecord, Services, Store,
  ack_deadline_for, act, as_blocked, at_step, block_engagement, current_recipient, escalate,
  escalate_to, is_active, is_due, is_past, list_for_policy, mark_exhausted, max_repeats,
  next_page_at, next_repeat_at, next_step, note, page, page_again, page_once_more, page_or_wait,
  repeat_purpose, save, step_at, wait_for_deadline, with_person,
}
use cockpit_cli.Escalation.Rank.{is_early, later, next_step-ComesLater, pages_left, rank}
use cockpit_cli.Escalation.Stored.{Leaves, if-Leaves, page_engagement-Leaves, save-IsStored}

-- The same engagement, with fewer actions before it.
abbrev pub IsAdvanced :
    EscalationPolicy → List EscalationStep → IncidentEngagement → IncidentEngagement → Type 0
IsAdvanced policy steps e0 e =
    (e.id ≡ e0.id) × (e.policy_id ≡ e0.policy_id) × (rank policy steps e < rank policy steps e0)

is_early_self : (at : Option ℕ) → is_early at at ≡ 0
is_early_self none = refl
is_early_self (some at) = ground arith

is_early_le : (at deadline : Option ℕ) → is_early at deadline ≤ 1
is_early_le none deadline = omega arith
is_early_le (some at) none = omega arith
is_early_le (some at) (some deadline) = ground arith

is_early_of_due :
    (now : ℕ) (at deadline : Option ℕ) (b : Bool)
    → elim at [ none ↦ false | some n ↦ leb n now && b ] ≡ true
    → is_past deadline now ≡ false
    → is_early at deadline ≡ 1
is_early_of_due now none deadline b due early = absurd (grind arith)
is_early_of_due now (some at) none b due early = refl
is_early_of_due now (some at) (some deadline) b due early = ground arith

more_room : (m : ℤ) (count : ℕ) → leb_ℤ m (pos count) ≡ false → count < pos_part m
more_room (pos n) count h = ground arith
more_room (negsuc n) count h = ground arith

module _ (policy : EscalationPolicy) (steps : List EscalationStep) (now : ℕ)
    (e : IncidentEngagement) (running : is_active e.status ≡ true) where
  active_rank :
      rank policy steps e
      ≡ suc (
          later policy steps e.current_step_index
          + (pages_left policy (step_at steps e.current_step_index) e.repeat_page_count
              + is_early e.next_action_at e.ack_deadline_at))
  unfolding rank
  active_rank = rw running refl

  -- An engagement that is active no longer has no actions.
  stopped-IsAdvanced :
      (e2 : IncidentEngagement)
      → e2.id ≡ e.id
      → e2.policy_id ≡ e.policy_id
      → is_active e2.status ≡ false
      → IsAdvanced policy steps e e2
  unfolding rank
  stopped-IsAdvanced e2 same policy_same over =
      (same, policy_same, rw over (rw running (omega arith)))

  at_step-IsAdvanced :
      (step : EscalationStep) (r : ResolvedEscalationRecipient)
      → next_step steps e.current_step_index ≡ some step
      → IsAdvanced policy steps e (at_step now policy step r e)
  unfolding at_step rank
  at_step-IsAdvanced step r h =
      let (lt, found, low) = next_step-ComesLater policy steps e.current_step_index step h in
      (
        refl,
        refl,
        rw running (elim (Bool-cases (is_resolved r.outcome)) [
          | inl e1 ↦ rw e1 (
              rw found (
                omega (
                  arith,
                  low,
                  is_early_le (some (next_repeat_at policy step now))
                      (some (ack_deadline_for policy step now)),
                )))
          | inr e1 ↦ rw e1 (omega arith)
        ]),
      )

  wait-IsAdvanced :
      is_due now e ≡ true
      → is_past e.ack_deadline_at now ≡ false
      → IsAdvanced policy steps e
          (record e { next_action_at = e.ack_deadline_at; updated_at = now })
  unfolding rank
  wait-IsAdvanced due early = (
    refl,
    refl,
    rw running (
        rw (is_early_self e.ack_deadline_at)
          (rw (is_early_of_due now e.next_action_at e.ack_deadline_at _ due early) (omega arith))),
  )

  page_again-IsAdvanced :
      (step : EscalationStep) (r : ResolvedEscalationRecipient)
      → is_due now e ≡ true
      → is_past e.ack_deadline_at now ≡ false
      → step_at steps e.current_step_index ≡ some step
      → leb_ℤ (max_repeats policy step) (pos e.repeat_page_count) ≡ false
      → IsAdvanced policy steps e (page_again now policy step (with_person e r))
  unfolding page_again with_person rank
  page_again-IsAdvanced step r due early found more = (
    refl,
    refl,
    rw running (
        rw found (
          rw (is_early_of_due now e.next_action_at e.ack_deadline_at _ due early) (
            omega (
              arith,
              more_room (max_repeats policy step) e.repeat_page_count more,
              is_early_le (some (next_page_at e.ack_deadline_at (next_repeat_at policy step now)))
                  e.ack_deadline_at,
            )))),
  )

-- What a due action of an active engagement comes to, once its policy is there.
module _ (svc : Services) (policy : EscalationPolicy) (steps : List EscalationStep) (now : ℕ)
    (e : IncidentEngagement) (incident : IncidentRecord) (s : Store)
    (running : is_active e.status ≡ true) where
  escalate_to-Leaves :
      (step : EscalationStep) (o : Option ResolvedEscalationRecipient)
      → next_step steps e.current_step_index ≡ some step
      → Leaves (IsAdvanced policy steps e) e.id (escalate_to svc now e incident policy step s o)
  unfolding escalate_to note rank
  escalate_to-Leaves step none h = tt
  escalate_to-Leaves step (some r) h =
      let advanced = at_step-IsAdvanced policy steps now e running step r h in
      let stored =
        save-IsStored (IsAdvanced policy steps e) (at_step now policy step r e) s advanced in
      if-Leaves (IsAdvanced policy steps e) e.id (is_resolved r.outcome) _ _
        (λ _.
          page_engagement-Leaves (IsAdvanced policy steps e) svc now (at_step now policy step r e)
            incident r page _ advanced stored)
        (λ _. stored)

  escalate-Leaves :
      (o : Option EscalationStep)
      → next_step steps e.current_step_index ≡ o
      → Leaves (IsAdvanced policy steps e) e.id (escalate svc now e incident policy s o)
  unfolding escalate mark_exhausted note
  escalate-Leaves none h =
      save-IsStored (IsAdvanced policy steps e) _ s
        (stopped-IsAdvanced policy steps now e running _ refl refl refl)
  escalate-Leaves (some step) h =
      escalate_to-Leaves step (svc.resolve_target step.target_kind step.target_ref now) h

  page_once_more-Leaves :
      (step : EscalationStep) (o : Option ResolvedEscalationRecipient)
      → is_due now e ≡ true
      → is_past e.ack_deadline_at now ≡ false
      → step_at steps e.current_step_index ≡ some step
      → leb_ℤ (max_repeats policy step) (pos e.repeat_page_count) ≡ false
      → Leaves (IsAdvanced policy steps e) e.id (page_once_more svc now e incident policy step s o)
  unfolding page_once_more block_engagement note with_person rank
  page_once_more-Leaves step none due early found more = tt
  page_once_more-Leaves step (some r) due early found more =
      let advanced = page_again-IsAdvanced policy steps now e running step r due early found more in
      if-Leaves (IsAdvanced policy steps e) e.id (not (is_resolved r.outcome)) _ _
        (λ _. save-IsStored (IsAdvanced policy steps e) (as_blocked now (with_person e r)) s (
          stopped-IsAdvanced policy steps now e running (as_blocked now (with_person e r)) refl refl
            refl))
        (λ _.
          page_engagement-Leaves (IsAdvanced policy steps e) svc now
            (page_again now policy step (with_person e r)) incident r
            (repeat_purpose step (suc e.repeat_page_count))
            (save (page_again now policy step (with_person e r)) s) advanced
            (save-IsStored (IsAdvanced policy steps e)
              (page_again now policy step (with_person e r)) s advanced))

  -- An action that is due stores the engagement with fewer actions before it.
  pub act-Leaves :
      (step : EscalationStep)
      → list_for_policy svc.policies policy.id ≡ steps
      → is_due now e ≡ true
      → step_at steps e.current_step_index ≡ some step
      → Leaves (IsAdvanced policy steps e) e.id (act svc now e incident policy step s)
  unfolding act page_or_wait wait_for_deadline
  act-Leaves step own due found =
      if-Leaves (IsAdvanced policy steps e) e.id (is_past e.ack_deadline_at now) _ _
        (λ _.
          escalate-Leaves (next_step (list_for_policy svc.policies policy.id) e.current_step_index)
            (rw own refl))
        (λ early.
          if-Leaves (IsAdvanced policy steps e) e.id
            (leb_ℤ (max_repeats policy step) (pos e.repeat_page_count)) _ _
            (λ _.
              save-IsStored (IsAdvanced policy steps e) _ s
                (wait-IsAdvanced policy steps now e running due early))
            (λ more. page_once_more-Leaves step (current_recipient svc e now) due early found more))
