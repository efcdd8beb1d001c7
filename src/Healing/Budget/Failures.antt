-- ===== src/Healing/Budget/Failures.antt =====
-- src/cockpit/ops/services/self_healing_service.py: a failure keeps to the budget of attempts.
use mathlib.Core.Option.{some-injective}
use cockpit_cli.Prelude.{
  Bool-cases, HoldsOf, List, Option, String, ap, arith, inl, inr, length, nat_eq, none, refl, some,
  string_eq, sym, true, ℕ, ◌<◌, ◌∙◌, ◌≡◌,
}
use cockpit_cli.Enums.{
  ComponentKind, IncidentStatus, component_kind_eq, event_class_eq, incident_status_eq, severity_eq,
  target_risk_eq,
}
use cockpit_cli.Recovery.{
  ComponentHealthState, RecoveryAttempt, RecoveryEvaluation, RecoveryPolicy, in_window, policy_for,
}
use cockpit_cli.Recovery.Verdict.{evaluate-schedules}
use cockpit_cli.Escalation.{IncidentRecord}
use cockpit_cli.Healing.Data.{Failure, HealthStore, left_by}
use cockpit_cli.Healing.Store.{
  is_attempt_of, is_pending_of, latest_pending_for_component, log, recent_for_component,
  save_attempt, save_incident,
}
use cockpit_cli.Healing.Failures.{
  ensure_incident, ensured_incident, fail_attempt, fail_pending, failed_with, failing_state,
}
use cockpit_cli.Healing.Settle.{
  cooling_state, enter_cooldown, enter_quarantine, evaluation_of, handle_evaluated, handle_failure,
  handle_with, new_attempt, quarantined_state, schedule_attempt, scheduled_state, settle_failure,
}
use cockpit_cli.Healing.Attempts.{count_of}
use cockpit_cli.Healing.Budget.Saves.{finish-IsWithinBudget, finish-none, schedule-IsWithinBudget}
use cockpit_cli.Healing.Budget.Queries.{
  IsPendingIn, attempts-saved, latest_pending-HoldsOf, latest_pending-none, pending_of-parts,
  spent-recent,
}
use cockpit_cli.Healing.Budget.{IsWithinBudget, is_spent}

module _ (c : String) (policy : RecoveryPolicy) (now : ℕ) where
  abbrev pub Within : HealthStore → Type 0
  Within s = IsWithinBudget c policy now s.attempts

  pub same-Within : (s s2 : HealthStore) → s2.attempts ≡ s.attempts → Within s → Within s2
  same-Within s s2 e h = rw e h

  -- No attempt is pending, if the component is this one.
  abbrev pub IsFreeFor : String → HealthStore → Type 0
  IsFreeFor id s = id ≡ c → count_of (is_pending_of c) s.attempts ≡ 0

  fail_attempt-Within :
      (f : Failure) (s : HealthStore) (o : Option RecoveryAttempt)
      → HoldsOf (IsPendingIn f.component.component_id s.attempts) o
      → (o ≡ none → count_of (is_pending_of f.component.component_id) s.attempts ≡ 0)
      → Within s
      → Within (fail_attempt now f s o)
        × IsFreeFor f.component.component_id (fail_attempt now f s o)
  unfolding fail_attempt failed_with log save_attempt
  fail_attempt-Within f s none found free h =
      (h, λ e. ap (λ id. count_of (is_pending_of id) s.attempts) (sym e) ∙ free refl)
  fail_attempt-Within f s (some a) (stored, p) free h =
      let (own, waits) = pending_of-parts f.component.component_id a p in
      (
        finish-IsWithinBudget c policy now a (failed_with now f.reason a) s.attempts stored waits
            refl refl h,
        λ e.
            finish-none c policy now a (failed_with now f.reason a) s.attempts stored waits refl
              refl (ap (λ id. is_attempt_of id a) (sym e) ∙ own) h,
      )

  fail_pending-Within :
      (f : Failure) (s : HealthStore)
      → (f.pending_already_failed ≡ true → IsFreeFor f.component.component_id s)
      → Within s
      → Within (fail_pending now f s) × IsFreeFor f.component.component_id (fail_pending now f s)
  unfolding fail_pending
  fail_pending-Within f s ready h = elim (Bool-cases f.pending_already_failed) [
    | inl e ↦ rw e (h, ready e)
    | inr e ↦ rw e (
        fail_attempt-Within f s (latest_pending_for_component f.component.component_id s)
          (latest_pending-HoldsOf f.component.component_id s h.table)
          (latest_pending-none f.component.component_id s) h)
  ]

  schedule_attempt-Within :
      (f : Failure) (e : RecoveryEvaluation) (i : IncidentRecord) (st : ComponentHealthState)
      (s : HealthStore)
      → IsFreeFor f.component.component_id s
      → (f.component.component_id ≡ c
          → count_of (is_spent c policy now) s.attempts < policy.max_attempts)
      → Within s
      → Within (schedule_attempt now f e i st s)
  unfolding schedule_attempt new_attempt log save_attempt
  schedule_attempt-Within f e i st s free left h =
      let a = new_attempt now f e i in
      rw
        (attempts-saved st.status now IncidentStatus.recovering_incident i
          (scheduled_state now e i st) s)
        (schedule-IsWithinBudget c policy now a s.attempts refl h (λ own.
          let same = (string_eq.beq_holds f.component.component_id c).0 own in
          (free same, left same)))

  settle_failure-Within :
      (f : Failure) (e : RecoveryEvaluation) (i : IncidentRecord) (st : ComponentHealthState)
      (s : HealthStore)
      → IsFreeFor f.component.component_id s
      → (e.should_schedule_attempt ≡ true
          → f.component.component_id ≡ c
          → count_of (is_spent c policy now) s.attempts < policy.max_attempts)
      → Within s
      → Within (settle_failure now f e i st s)
  unfolding settle_failure enter_cooldown enter_quarantine log
  settle_failure-Within f e i st s free left h = elim (Bool-cases e.should_schedule_attempt) [
    | inl p ↦ rw p (schedule_attempt-Within f e i st s free (left p) h)
    | inr p ↦ rw p (elim (Bool-cases e.should_enter_cooldown) [
      | inl q ↦ rw q (
          rw (attempts-saved st.status now IncidentStatus.open_incident i (cooling_state e i st) s)
            h)
      | inr q ↦ rw q (elim (Bool-cases e.should_quarantine) [
        | inl r ↦ rw r (
            rw
              (attempts-saved st.status now IncidentStatus.quarantined_incident i
                (quarantined_state e i st) s)
              h)
        | inr r ↦ rw r h
      ])
    ])
  ]

  attempts_left :
      (p : RecoveryPolicy) (id : String) (s : HealthStore)
      → p ≡ policy
      → id ≡ c
      → length (in_window p now (recent_for_component p id now s)) < p.max_attempts
      → count_of (is_spent c policy now) s.attempts < policy.max_attempts
  attempts_left p id s same own =
      rw (same, own) λ left. omega (arith, left, spent-recent policy c now s)

  handle_evaluated-Within :
      (p : RecoveryPolicy) (f : Failure) (st : ComponentHealthState) (s : HealthStore)
      → (f.component.component_id ≡ c → p ≡ policy)
      → IsFreeFor f.component.component_id s
      → Within s
      → Within (handle_evaluated p now f st s)
  unfolding handle_evaluated evaluation_of ensure_incident log save_incident
  handle_evaluated-Within p f st s same free h =
      settle_failure-Within f (evaluation_of p now f st s) (ensured_incident now f s) st
        (ensure_incident now f s) free
        (λ schedules own.
          let id = f.component.component_id in
          attempts_left p id s (same own) own
            ((evaluate-schedules p (some st) (recent_for_component p id now s) f.reason now).0
              schedules).attempts_left)
        h

  handle_with-Within :
      (f : Failure) (st : ComponentHealthState) (s : HealthStore) (o : Option RecoveryPolicy)
      → (f.component.component_id ≡ c → o ≡ some policy)
      → IsFreeFor f.component.component_id s
      → Within s
      → Within (left_by (handle_with now f st s o))
  unfolding handle_with
  handle_with-Within f st s none same free h = h
  handle_with-Within f st s (some p) same free h =
      handle_evaluated-Within p f st s (λ e. some-injective p policy (same e)) free h

  -- A failure for which the attempt under way has been failed, by its caller or by the method itself,
  -- schedules no more attempts than the policy of its component allows.
  pub handle_failure-Within :
      (policies : List (ComponentKind × RecoveryPolicy)) (f : Failure) (s : HealthStore)
      → (f.component.component_id ≡ c → policy_for policies f.component.kind ≡ some policy)
      → (f.pending_already_failed ≡ true → IsFreeFor f.component.component_id s)
      → Within s
      → Within (left_by (handle_failure policies now f s))
  unfolding handle_failure
  handle_failure-Within policies f s same ready h =
      let (within, free) = fail_pending-Within f s ready h in
      handle_with-Within f (failing_state now f s) (fail_pending now f s)
        (policy_for policies f.component.kind) same free within
