-- ===== src/Escalation/SoundDue.antt =====
-- src/cockpit/ops/services/escalation_service.py: the due actions keep the stored engagements sound.
use cockpit_cli.Prelude.{
  All, All-keep, All-sort, All-values, Bool, List, Option, [], false, if◌then◌else◌,
  insert-AllValues, is_some, map, nat_eq, none, not, refl, some, string_eq, true, ℕ, ◌∷◌, ◌≡◌,
}
use cockpit_cli.Prelude.Int.{leb_ℤ, pos}
use cockpit_cli.Enums.{component_kind_eq, target_risk_eq}
use cockpit_cli.OnCall.{ResolvedEscalationRecipient, is_resolved, subject_kind_eq}
use cockpit_cli.Escalation.{
  EngagementDeliveryPurpose, Error, EscalationPolicy, EscalationStep, IncidentEngagement,
  IncidentRecord, Outcome, Required, Sent, Services, Store, act, act_on_incident, act_on_step,
  as_blocked, as_exhausted, at_step, block_engagement, current_recipient, escalate, escalate_to,
  finish_page, have, is_active, is_due, is_over, is_past, list_due_actions, mark_exhausted,
  max_repeats, missing, no_notification, note, page, page_again, page_engagement, page_once_more,
  page_or_wait, raised, repeat_purpose, require_incident, require_step, returned, run_all,
  run_due_action, run_due_actions, save, send_raised, sent, store_of, unless_raised,
  wait_for_deadline, with_page, with_person,
}
use cockpit_cli.Escalation.Sound.{
  AllSound, IsOpen, IsSound, IsSound-IsOpen, as_blocked-IsSound, at_step-IsSound, implies-true,
  is_active-is_over, not-false,
}

module _ (svc : Services) (now : ℕ) where
  pub save-AllSound :
      (e : IncidentEngagement) (s : Store) → IsSound e → AllSound s → AllSound (save e s)
  unfolding save
  save-AllSound e s h hs = insert-AllValues IsSound e.id e s.engagements h hs

  finish_page-AllSound :
      (e : IncidentEngagement) (incident : IncidentRecord) (r : ResolvedEscalationRecipient)
      (purpose : EngagementDeliveryPurpose) (s : Store) (o : Sent)
      → IsSound e
      → AllSound s
      → AllSound (store_of (finish_page now e incident r purpose s o))
  unfolding finish_page note
  finish_page-AllSound e incident r purpose s send_raised h hs = hs
  finish_page-AllSound e incident r purpose s no_notification h hs =
      save-AllSound (with_page now e) s h hs
  finish_page-AllSound e incident r purpose s (sent n) h hs = save-AllSound (with_page now e) s h hs

  -- The engagement is saved, and then paged.
  pub page_engagement-AllSound :
      (e : IncidentEngagement) (incident : IncidentRecord) (r : ResolvedEscalationRecipient)
      (purpose : EngagementDeliveryPurpose) (s : Store)
      → IsSound e
      → AllSound s
      → AllSound (store_of (page_engagement svc now e incident r purpose s))
  unfolding page_engagement
  page_engagement-AllSound e incident r purpose s h hs =
      finish_page-AllSound e incident r purpose s _ h hs

  pub if-AllSound :
      (b : Bool) (o o2 : Outcome)
      → (b ≡ true → AllSound (store_of o))
      → (b ≡ false → AllSound (store_of o2))
      → AllSound (store_of (if b then o else o2))
  if-AllSound true o o2 f g = f refl
  if-AllSound false o o2 f g = g refl

  pub block_engagement-AllSound :
      (e : IncidentEngagement) (r : ResolvedEscalationRecipient) (s : Store)
      → IsOpen e
      → AllSound s
      → AllSound (store_of (block_engagement now (with_person e r) s))
  unfolding block_engagement note
  block_engagement-AllSound e r s h hs =
      save-AllSound (as_blocked now (with_person e r)) s (as_blocked-IsSound now e h r) hs

  active_open : (e : IncidentEngagement) → is_active e.status ≡ true → is_over e.status ≡ false
  active_open e h = is_active-is_over e.status h

  escalate_to-AllSound :
      (e : IncidentEngagement) (incident : IncidentRecord) (policy : EscalationPolicy)
      (step : EscalationStep) (s : Store) (o : Option ResolvedEscalationRecipient)
      → IsOpen e
      → AllSound s
      → AllSound (store_of (escalate_to svc now e incident policy step s o))
  unfolding escalate_to note
  escalate_to-AllSound e incident policy step s none h hs = hs
  escalate_to-AllSound e incident policy step s (some r) h hs =
      let sound = at_step-IsSound now e h policy step r in
      let stored = save-AllSound (at_step now policy step r e) s sound hs in
      if-AllSound (is_resolved r.outcome) _ _
        (λ _. page_engagement-AllSound (at_step now policy step r e) incident r page _ sound stored)
        (λ _. stored)

  escalate-AllSound :
      (e : IncidentEngagement) (incident : IncidentRecord) (policy : EscalationPolicy) (s : Store)
      (o : Option EscalationStep)
      → IsOpen e
      → AllSound s
      → AllSound (store_of (escalate svc now e incident policy s o))
  unfolding escalate mark_exhausted note
  escalate-AllSound e incident policy s none h hs =
      save-AllSound (as_exhausted now e) s (refl, h.1, refl, refl, h.2) hs
  escalate-AllSound e incident policy s (some step) h hs =
      escalate_to-AllSound e incident policy step s _ h hs

  page_once_more-AllSound :
      (e : IncidentEngagement) (incident : IncidentRecord) (policy : EscalationPolicy)
      (step : EscalationStep) (s : Store) (o : Option ResolvedEscalationRecipient)
      → IsSound e
      → is_active e.status ≡ true
      → AllSound s
      → AllSound (store_of (page_once_more svc now e incident policy step s o))
  unfolding page_once_more page_again with_person
  page_once_more-AllSound e incident policy step s none h k hs = hs
  page_once_more-AllSound e incident policy step s (some r) h k hs =
      let again = page_again now policy step (with_person e r) in
      let sound : IsSound again = (h.0, h.1, k, h.3, h.4) in
      if-AllSound (not (is_resolved r.outcome)) _ _
        (λ _. block_engagement-AllSound e r s (IsSound-IsOpen e h (active_open e k)) hs)
        (λ _.
          page_engagement-AllSound again incident r (repeat_purpose step again.repeat_page_count)
            (save again s) sound (save-AllSound again s sound hs))

  act-AllSound :
      (e : IncidentEngagement) (incident : IncidentRecord) (policy : EscalationPolicy)
      (step : EscalationStep) (s : Store)
      → IsSound e
      → is_active e.status ≡ true
      → AllSound s
      → AllSound (store_of (act svc now e incident policy step s))
  unfolding act page_or_wait wait_for_deadline
  act-AllSound e incident policy step s h k hs =
      if-AllSound (is_past e.ack_deadline_at now) _ _
        (λ _. escalate-AllSound e incident policy s _ (IsSound-IsOpen e h (active_open e k)) hs)
        (λ _.
          if-AllSound (leb_ℤ (max_repeats policy step) (pos e.repeat_page_count)) _ _
            (λ _.
              save-AllSound (record e { next_action_at = e.ack_deadline_at; updated_at = now }) s
                (h.0, h.1, rw k (implies-true (is_some e.ack_deadline_at)), h.3, h.4) hs)
            (λ _.
              page_once_more-AllSound e incident policy step s (current_recipient svc e now) h k
                hs))

  act_on_step-AllSound :
      (e : IncidentEngagement) (incident : IncidentRecord) (s : Store)
      (q : Required (EscalationPolicy × EscalationStep))
      → IsSound e
      → is_active e.status ≡ true
      → AllSound s
      → AllSound (store_of (act_on_step svc now e incident q s))
  unfolding act_on_step
  act_on_step-AllSound e incident s (missing error) h k hs = hs
  act_on_step-AllSound e incident s (have (policy, step)) h k hs =
      act-AllSound e incident policy step s h k hs

  act_on_incident-AllSound :
      (e : IncidentEngagement) (s : Store) (q : Required IncidentRecord)
      → IsSound e
      → AllSound s
      → AllSound (store_of (act_on_incident svc now e s q))
  unfolding act_on_incident
  act_on_incident-AllSound e s (missing error) h hs = hs
  act_on_incident-AllSound e s (have incident) h hs =
      if-AllSound (not (is_active e.status)) _ _ (λ _. hs)
        (λ k.
          act_on_step-AllSound e incident s (require_step svc e) h
            (not-false (is_active e.status) k) hs)

  unless_raised-AllSound :
      (o : Outcome) (rest : Option Error × Store)
      → AllSound (store_of o)
      → AllSound rest.1
      → AllSound (unless_raised o rest).1
  unless_raised-AllSound (returned e s) rest h k = k
  unless_raised-AllSound (raised error s) rest h k = h

  run_all-AllSound :
      (es : List IncidentEngagement) (s : Store)
      → All IsSound es
      → AllSound s
      → AllSound (run_all svc now es s).1
  unfolding run_all run_due_action
  run_all-AllSound [] s h hs = hs
  run_all-AllSound (e ∷ es) s (h, hes) hs =
      let kept = act_on_incident-AllSound e s (require_incident s e.incident_id) h hs in
      unless_raised-AllSound (run_due_action svc now e s) _ kept
        (run_all-AllSound es (store_of (run_due_action svc now e s)) hes kept)

  pub run_due_actions-AllSound : (s : Store) → AllSound s → AllSound (run_due_actions svc now s).1
  unfolding run_due_actions list_due_actions
  run_due_actions-AllSound s hs =
      run_all-AllSound (list_due_actions now s) s
        (All-sort IsSound _ _ (
          All-keep IsSound (is_due now) (map (λ (key, e). e) s.engagements)
            (All-values IsSound s.engagements hs)))
        hs
