-- ===== src/Healing/Budget/Tracking.antt =====
-- src/cockpit/ops/services/self_healing_service.py: what the events that a restart publishes leave of the
-- attempt under way, whose row is saved once more after them.
use mathlib.Core.Option.{some-injective}
use cockpit_cli.Prelude.{
  Bool-cases, Dict, HoldsOf-weaken, Option, String, ap, arith, beq_differs, false, inl, inr, insert,
  lookup, lookup-insert_ne, lookup-insert_self, nat_eq, none, some, string_eq, sym, true, ℕ, ◌==◌,
  ◌∙◌, ◌≡◌, ◌≢◌, ◌⊎◌,
}
use cockpit_cli.Enums.{
  IncidentStatus, component_kind_eq, event_class_eq, incident_status_eq, severity_eq,
  target_risk_eq,
}
use cockpit_cli.Recovery.{
  ComponentHealthState, RecoveryAttempt, RecoveryEvaluation, RecoveryPolicy, attempt_time,
  is_in_window, policy_for,
}
use cockpit_cli.Escalation.{IncidentRecord}
use cockpit_cli.Healing.Data.{Failure, HealthStore, MadeIds, RuntimeEvent, left_by}
use cockpit_cli.Healing.Store.{is_attempt_pending, log, save_attempt, save_incident}
use cockpit_cli.Healing.Failures.{ensure_incident, ensured_incident, fail_pending, failing_state}
use cockpit_cli.Healing.Settle.{
  cooling_state, enter_cooldown, enter_quarantine, evaluation_of, handle_evaluated, handle_failure,
  handle_with, new_attempt, quarantined_state, schedule_attempt, scheduled_state, settle_failure,
}
use cockpit_cli.Healing.Reports.{failure_of, on_event}
use cockpit_cli.Healing.Recoveries.{RecoveryPolicies}
use cockpit_cli.Healing.Attempts.{IsTable, insert-IsTable}
use cockpit_cli.Healing.Budget.Ends.{
  IsKeptByEnds, fail_pending-kept, failure_of-HoldsOf, on_event-kept,
}
use cockpit_cli.Healing.Budget.Queries.{attempts-saved}

-- The row is one of the same component, which is pending or counts in the window of this moment.
abbrev pub IsTraceOf : RecoveryPolicy → ℕ → String → RecoveryAttempt → Type 0
IsTraceOf policy now component_id x =
    (x.component_id ≡ component_id)
    × ((is_attempt_pending x.status ≡ true) ⊎ (is_in_window policy now x ≡ true))

abbrev pub IsTracked : RecoveryPolicy → ℕ → String → String → Dict String RecoveryAttempt → Type 0
IsTracked policy now id component_id d =
    (x : RecoveryAttempt) × (lookup id d ≡ some x) × IsTraceOf policy now component_id x

finished-in_window :
    (policy : RecoveryPolicy) (now : ℕ) (a : RecoveryAttempt)
    → a.finished_at ≡ some now
    → is_in_window policy now a ≡ true
unfolding is_in_window attempt_time
finished-in_window policy now a e = ground arith

module _ (policy : RecoveryPolicy) (now : ℕ) (id component_id : String) where
  abbrev pub Tracks : HealthStore → Type 0
  Tracks s = IsTracked policy now id component_id s.attempts

  replace-IsTracked :
      (a a2 : RecoveryAttempt) (d : Dict String RecoveryAttempt)
      → lookup a2.id d ≡ some a
      → a2.component_id ≡ a.component_id
      → a2.finished_at ≡ some now
      → IsTracked policy now id component_id d
      → IsTracked policy now id component_id (insert a2.id a2 d)
  replace-IsTracked a a2 d stored same over (x, found, (own, state)) =
      elim (Bool-cases (id == a2.id)) [
        | inl e ↦
            let p = (string_eq.beq_holds id a2.id).0 e in
            let x-eq-a = some-injective x a (sym found ∙ (ap (λ k. lookup k d) p ∙ stored)) in
            (
              a2,
              ap (λ k. lookup k (insert a2.id a2 d)) p ∙ lookup-insert_self a2.id a2 d,
              (
                same ∙ (ap (λ b. b.component_id) (sym x-eq-a) ∙ own),
                inr (finished-in_window policy now a2 over),
              ),
            )
        | inr e ↦ (x, lookup-insert_ne id a2.id a2 d (beq_differs id a2.id e) ∙ found, (own, state))
      ]

  insert-IsTracked :
      (a : RecoveryAttempt) (d : Dict String RecoveryAttempt)
      → id ≢ a.id
      → IsTracked policy now id component_id d
      → IsTracked policy now id component_id (insert a.id a d)
  insert-IsTracked a d n (x, found, trace) = (x, lookup-insert_ne id a.id a d n ∙ found, trace)

  -- The attempts are a table, and the attempt under way is tracked.
  abbrev IsTrackedTable : Dict String RecoveryAttempt → Type 0
  IsTrackedTable d = IsTable d × IsTracked policy now id component_id d

  IsTrackedTable-IsKeptByEnds : IsKeptByEnds now IsTrackedTable
  IsTrackedTable-IsKeptByEnds = record {
    table = λ d h. h.0;
    ended = λ a a2 d stored waits same over done h.
        (insert-IsTable a2 d h.0, replace-IsTracked a a2 d stored same done h.1);
  }

  settle_failure-Tracks :
      (f : Failure) (e : RecoveryEvaluation) (i : IncidentRecord) (st : ComponentHealthState)
      (s : HealthStore)
      → id ≢ f.made.made_attempt
      → IsTrackedTable s.attempts
      → IsTrackedTable (settle_failure now f e i st s).attempts
  unfolding settle_failure schedule_attempt new_attempt enter_cooldown enter_quarantine log
      save_attempt
  settle_failure-Tracks f e i st s n h = elim (Bool-cases e.should_schedule_attempt) [
    | inl p ↦ rw p (
        rw
          (attempts-saved st.status now IncidentStatus.recovering_incident i
            (scheduled_state now e i st) s)
          (
            insert-IsTable (new_attempt now f e i) s.attempts h.0,
            insert-IsTracked (new_attempt now f e i) s.attempts n h.1,
          ))
    | inr p ↦ rw p (elim (Bool-cases e.should_enter_cooldown) [
      | inl q ↦ rw q (
          rw (attempts-saved st.status now IncidentStatus.open_incident i (cooling_state e i st) s)
            h)
      | inr q ↦ rw q (elim (Bool-cases e.should_quarantine) [
        | inl r ↦ rw r (
            rw
              (attempts-saved st.status now IncidentStatus.quarantined_incident i
                (quarantined_state e i st) s)
              h)
        | inr r ↦ rw r h
      ])
    ])
  ]

  handle_with-Tracks :
      (f : Failure) (st : ComponentHealthState) (s : HealthStore) (o : Option RecoveryPolicy)
      → id ≢ f.made.made_attempt
      → IsTrackedTable s.attempts
      → IsTrackedTable (left_by (handle_with now f st s o)).attempts
  unfolding handle_with handle_evaluated ensure_incident log save_incident
  handle_with-Tracks f st s none n h = h
  handle_with-Tracks f st s (some p) n h =
      settle_failure-Tracks f (evaluation_of p now f st s) (ensured_incident now f s) st
        (ensure_incident now f s) n h

  handle_failure-Tracks :
      (policies : RecoveryPolicies) (f : Failure) (s : HealthStore)
      → id ≢ f.made.made_attempt
      → IsTrackedTable s.attempts
      → IsTrackedTable (left_by (handle_failure policies now f s)).attempts
  unfolding handle_failure
  handle_failure-Tracks policies f s n h =
      handle_with-Tracks f (failing_state now f s) (fail_pending now f s)
        (policy_for policies f.component.kind) n
        (fail_pending-kept now IsTrackedTable IsTrackedTable-IsKeptByEnds f s h)

  pub on_event-Tracks :
      (policies : RecoveryPolicies) (made : MadeIds) (event : RuntimeEvent) (s : HealthStore)
      → id ≢ made.made_attempt
      → IsTrackedTable s.attempts
      → IsTrackedTable (left_by (on_event policies now made event s)).attempts
  on_event-Tracks policies made event s n =
      on_event-kept now IsTrackedTable IsTrackedTable-IsKeptByEnds policies
        (λ f. id ≢ f.made.made_attempt) (handle_failure-Tracks policies) made event s
        (HoldsOf-weaken (λ f. (f.made ≡ made) × (f.pending_already_failed ≡ false))
          (λ f. id ≢ f.made.made_attempt) (failure_of made event)
          (λ f r e. n (e ∙ ap (λ ids. ids.made_attempt) r.0)) (failure_of-HoldsOf made event))
