-- ===== src/Escalation/SoundCalls.antt =====
-- src/cockpit/ops/services/escalation_service.py: every operation keeps the stored engagements sound.
use cockpit_cli.Prelude.{
  HoldsOf, List, Option, String, [], is_some, lookup, lookup-HoldsOf, nat_eq, none, not, refl, some,
  string_eq, ℕ, ◌∷◌,
}
use cockpit_cli.Enums.{IncidentStatus, component_kind_eq, target_risk_eq}
use cockpit_cli.OnCall.{
  EscalationTargetKind, ResolvedEscalationRecipient, is_resolved, reach, subject_kind_eq,
}
use cockpit_cli.Escalation.{
  Call, Entry, EscalationPolicy, EscalationStep, IncidentEngagement, IncidentRecord, Outcome,
  Required, Services, Store, acknowledge, acknowledge_call, acknowledge_engagement,
  acknowledged_by_actor, active, apply, at_step, create_engagement, current_recipient, due_call,
  hand_over, hand_to, handed_to, handoff, handoff_call, handoff_engagement, have, incident_opened,
  incident_then, is_over, missing, new_engagement, note, on_incident_opened, open_for, open_found,
  opened_call, page, page_anew, repage, repage_call, repage_engagement, require_incident,
  require_step, run, save, set_incident_status, start, start_blocked, start_policy, start_with,
  status_call, status_change, store_of, store_or, with_incident, with_open, with_person,
}
use cockpit_cli.Escalation.Sound.{
  AllSound, IsOpen, IsSound, IsSound-IsOpen, acknowledged_by_actor-IsSound, at_step-IsSound,
  handed_to-IsSound, implies_holds, implies-true, not-false,
}
use cockpit_cli.Escalation.SoundDue.{
  block_engagement-AllSound, if-AllSound, page_engagement-AllSound, run_due_actions-AllSound,
  save-AllSound,
}
use cockpit_cli.Escalation.SoundEnd.{
  IsSoundOpen, IsTargeted, change_incident-AllSound, on_incident_status_changed-AllSound,
  target_recipient-HoldsOf,
}

module _ (svc : Services) (now : ℕ) where
  open_found-AllSound :
      (id : String) (s : Store) (f : IncidentEngagement → Outcome) (o : Option IncidentEngagement)
      → ((e : IncidentEngagement) → IsSoundOpen e → AllSound (store_of (f e)))
      → HoldsOf IsSound o
      → AllSound s
      → AllSound (store_of (open_found id s f o))
  unfolding open_found
  open_found-AllSound id s f none g h hs = hs
  open_found-AllSound id s f (some e) g h hs =
      if-AllSound svc now (is_over e.status) _ _ (λ _. hs) (λ k. g e (h, k))

  incident_then-AllSound :
      (s : Store) (f : IncidentRecord → Outcome) (q : Required IncidentRecord)
      → ((incident : IncidentRecord) → AllSound (store_of (f incident)))
      → AllSound s
      → AllSound (store_of (incident_then s f q))
  unfolding incident_then
  incident_then-AllSound s f (missing error) g hs = hs
  incident_then-AllSound s f (have incident) g hs = g incident

  acknowledge-AllSound :
      (actor : String) (s : Store) (e : IncidentEngagement)
      → IsSoundOpen e
      → AllSound s
      → AllSound (store_of (acknowledge now actor e s))
  unfolding acknowledge note set_incident_status
  acknowledge-AllSound actor s e (h, live) hs =
      change_incident-AllSound svc now e.incident_id IncidentStatus.acknowledged _ _ (
        save-AllSound svc now (acknowledged_by_actor now actor e) s
          (acknowledged_by_actor-IsSound now e (IsSound-IsOpen e h live) actor) hs)

  hand_over-AllSound :
      (actor : String) (kind : EscalationTargetKind) (ref : String) (incident : IncidentRecord)
      (policy : EscalationPolicy) (step : EscalationStep) (e : IncidentEngagement) (s : Store)
      (o : Option ResolvedEscalationRecipient)
      → IsSoundOpen e
      → AllSound s
      → AllSound (store_of (hand_over svc now actor kind ref incident policy step e s o))
  unfolding hand_over note
  hand_over-AllSound actor kind ref incident policy step e s none h hs = hs
  hand_over-AllSound actor kind ref incident policy step e s (some r) (h, live) hs =
      let e2 = handed_to now policy step kind ref r e in
      let sound = handed_to-IsSound now e (IsSound-IsOpen e h live) policy step kind ref r in
      let stored = save-AllSound svc now e2 s sound hs in
      if-AllSound svc now (is_resolved r.outcome) _ _
        (λ _. page_engagement-AllSound svc now e2 incident r handoff _ sound stored) (λ _. stored)

  hand_to-AllSound :
      (actor : String) (kind : EscalationTargetKind) (ref : String) (incident : IncidentRecord)
      (e : IncidentEngagement) (s : Store) (q : Required (EscalationPolicy × EscalationStep))
      → IsSoundOpen e
      → AllSound s
      → AllSound (store_of (hand_to svc now actor kind ref incident e s q))
  unfolding hand_to
  hand_to-AllSound actor kind ref incident e s (missing error) h hs = hs
  hand_to-AllSound actor kind ref incident e s (have (policy, step)) h hs =
      hand_over-AllSound actor kind ref incident policy step e s _ h hs

  page_anew-AllSound :
      (e : IncidentEngagement) (s : Store) (incident : IncidentRecord)
      (o : Option ResolvedEscalationRecipient)
      → IsSoundOpen e
      → HoldsOf (IsTargeted e.current_target_kind) o
      → AllSound s
      → AllSound (store_of (page_anew svc now e s incident o))
  unfolding page_anew with_person
  page_anew-AllSound e s incident none h k hs = hs
  page_anew-AllSound e s incident (some r) (h, live) k hs =
      let (flag, shut, reach) = IsSound-IsOpen e h live in
      if-AllSound svc now (not (is_resolved r.outcome)) _ _
        (λ _. block_engagement-AllSound svc now e r s (flag, shut, reach) hs)
        (λ n.
          let e2 = record (with_person e r) { status = active; updated_at = now } in
          let targeted =
            implies_holds (is_resolved r.outcome) (is_some e.current_target_kind)
              (not-false (is_resolved r.outcome) n) k in
          let sound : IsSound e2 = (
            flag,
            shut,
            implies-true (is_some e.next_action_at),
            implies_holds (is_some e.current_target_kind) (is_some e.ack_deadline_at) targeted
                reach,
            reach,
          ) in
          page_engagement-AllSound svc now e2 incident r repage (save e2 s) sound
            (save-AllSound svc now e2 s sound hs))

  start_with-AllSound :
      (e : IncidentEngagement) (incident : IncidentRecord) (policy : EscalationPolicy)
      (step : EscalationStep) (s : Store) (o : Option ResolvedEscalationRecipient)
      → IsOpen e
      → AllSound s
      → AllSound (store_of (start_with svc now e incident policy step s o))
  unfolding start_with note
  start_with-AllSound e incident policy step s none h hs = hs
  start_with-AllSound e incident policy step s (some r) h hs =
      let e2 = at_step now policy step r e in
      let sound = at_step-IsSound now e h policy step r in
      let stored = save-AllSound svc now e2 s sound hs in
      if-AllSound svc now (is_resolved r.outcome) _ _
        (λ _. page_engagement-AllSound svc now e2 incident r page _ sound stored) (λ _. stored)

  start-AllSound :
      (e : IncidentEngagement) (incident : IncidentRecord) (policy : EscalationPolicy) (s : Store)
      (o : Option EscalationStep)
      → IsOpen e
      → AllSound s
      → AllSound (store_of (start svc now e incident policy s o))
  unfolding start
  start-AllSound e incident policy s none h hs = hs
  start-AllSound e incident policy s (some step) h hs =
      start_with-AllSound e incident policy step s _ h hs

  start_blocked-AllSound :
      (e : IncidentEngagement) (more : List Entry) (s : Store)
      → IsSound e
      → AllSound s
      → AllSound (store_of (start_blocked e more s))
  unfolding start_blocked note
  start_blocked-AllSound e more s h hs = save-AllSound svc now e s h hs

  start_policy-AllSound :
      (e : IncidentEngagement) (incident : IncidentRecord) (s : Store) (o : Option EscalationPolicy)
      → IsSound e
      → IsOpen e
      → AllSound s
      → AllSound (store_of (start_policy svc now e incident s o))
  unfolding start_policy
  start_policy-AllSound e incident s none h live hs = start_blocked-AllSound e [] s h hs
  start_policy-AllSound e incident s (some policy) h live hs =
      if-AllSound svc now policy.enabled _ _ (λ _. start-AllSound e incident policy s _ live hs)
        (λ _. start_blocked-AllSound e [] s h hs)

  create_engagement-AllSound :
      (id : String) (incident : IncidentRecord) (s : Store)
      → AllSound s
      → AllSound (store_of (create_engagement svc now id incident s))
  unfolding create_engagement new_engagement
  create_engagement-AllSound id incident s hs =
      let owner = svc.resolve_owner incident.component_kind incident.component_id in
      let e = new_engagement now id incident owner in
      if-AllSound svc now (not (is_resolved owner.outcome)) _ _
        (λ _.
          start_blocked-AllSound e (status_change e none ∷ []) s (refl, refl, refl, refl, refl) hs)
        (λ _.
          start_policy-AllSound e incident s _ (refl, refl, refl, refl, refl) (refl, refl, refl) hs)

  open_for-AllSound :
      (id : String) (s : Store) (incident : IncidentRecord) (o : Option IncidentEngagement)
      → AllSound s
      → AllSound (store_or s (open_for svc now id s incident o))
  unfolding open_for
  open_for-AllSound id s incident none hs = create_engagement-AllSound id incident s hs
  open_for-AllSound id s incident (some e) hs = hs

  incident_opened-AllSound :
      (id : String) (s : Store) (o : Option IncidentRecord)
      → AllSound s
      → AllSound (store_or s (incident_opened svc now id s o))
  unfolding incident_opened
  incident_opened-AllSound id s none hs = hs
  incident_opened-AllSound id s (some incident) hs = open_for-AllSound id s incident _ hs

  apply-AllSound : (call : Call) (s : Store) → AllSound s → AllSound (apply svc now call s)
  unfolding apply acknowledge_engagement handoff_engagement repage_engagement on_incident_opened
      with_open with_incident current_recipient
  apply-AllSound (acknowledge_call id actor) s hs =
      open_found-AllSound id s _ _ (λ e h. acknowledge-AllSound actor s e h hs)
        (lookup-HoldsOf IsSound id s.engagements hs) hs
  apply-AllSound (handoff_call id actor kind ref) s hs =
      open_found-AllSound id s _ _
        (λ e h.
          incident_then-AllSound s
            (λ incident. hand_to svc now actor kind ref incident e s (require_step svc e))
            (require_incident s e.incident_id)
            (λ incident. hand_to-AllSound actor kind ref incident e s (require_step svc e) h hs) hs)
        (lookup-HoldsOf IsSound id s.engagements hs) hs
  apply-AllSound (repage_call id) s hs =
      open_found-AllSound id s _ _
        (λ e h.
          incident_then-AllSound s
            (λ incident. page_anew svc now e s incident (current_recipient svc e now))
            (require_incident s e.incident_id)
            (λ incident.
              page_anew-AllSound e s incident (current_recipient svc e now) h
                (target_recipient-HoldsOf svc now e.current_target_kind e.current_target_ref) hs)
            hs)
        (lookup-HoldsOf IsSound id s.engagements hs) hs
  apply-AllSound due_call s hs = run_due_actions-AllSound svc now s hs
  apply-AllSound (opened_call id incident_id) s hs =
      incident_opened-AllSound id s (lookup incident_id s.incidents) hs
  apply-AllSound (status_call incident_id new) s hs =
      on_incident_status_changed-AllSound svc now incident_id new s hs

-- Whatever is called, one call after another, with whatever services at whatever times, and also where
-- a call raises: every stored engagement has the flag `exhausted` and a time of closing exactly if its
-- status says so; only an active one has a next action, so that none that is acknowledged is ever due;
-- and an active one has a deadline. The engagements stored at first are such, for example none.
pub run-AllSound :
    (calls : List (Services × ℕ × Call)) (s : Store) → AllSound s → AllSound (run calls s)
unfolding run
run-AllSound [] s hs = hs
run-AllSound ((svc, now, call) ∷ calls) s hs =
    run-AllSound calls (apply svc now call s) (apply-AllSound svc now call s hs)
