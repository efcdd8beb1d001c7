-- ===== src/Healing/Refines/Failures.antt =====
-- src/cockpit/ops/services/self_healing_service.py: failures, healthy reports and events move a component as
-- its specification has it.
use mathlib.Core.Path.{transport}
use cockpit_cli.Prelude.{
  Bool-cases, HoldsOf, Option, String, ap, false, inl, inr, lookup, nat_eq, none, refl, some,
  string_eq, sym, true, ℕ, ◌∙◌, ◌≡◌, ◌≢◌,
}
use cockpit_cli.Enums.{
  HealthStatus, IncidentStatus, component_kind_eq, event_class_eq, incident_status_eq, severity_eq,
  target_risk_eq,
}
use cockpit_cli.Recovery.{
  ComponentHealthState, RecoveryEvaluation, RecoveryPolicy, is_quarantined, policy_for,
}
use cockpit_cli.Recovery.Verdict.{evaluate-schedules}
use cockpit_cli.Escalation.{IncidentRecord}
use cockpit_cli.Healing.Data.{Failure, HealthStore, left_by}
use cockpit_cli.Healing.Store.{
  log, recent_for_component, save_attempt, save_incident, save_state, stored_state,
}
use cockpit_cli.Healing.Failures.{
  ensure_incident, ensured_incident, fail_pending, failing_state, new_state, record_transition,
  set_status, state_or_new,
}
use cockpit_cli.Healing.Settle.{
  cooling_state, counted, enter_cooldown, enter_quarantine, evaluation_of, handle_evaluated,
  handle_failure, handle_with, quarantined_state, schedule_attempt, scheduled_state, settle_failure,
}
use cockpit_cli.Healing.Recoveries.{RecoveryPolicies}
use cockpit_cli.Healing.Sound.{evaluate-cooling, states-record_transition, states-set_status}
use cockpit_cli.Healing.Sound.Failures.{states-fail_pending}
use cockpit_cli.Healing.Mode.{
  Cause, Moves, fail_cooling, fail_isolated, fail_planned, fail_unsaved, fails, isolated,
}
use cockpit_cli.Healing.Refines.{
  Follows, IsKeyed, mode_found, mode_of, same-Follows, save_state-Follows, state_mode,
  state_mode-free, stay-Follows, stored_state-own,
}

module _ (c : String) where
  -- A state is saved, and then whatever leaves the states alone.
  saved-Follows :
      (cause : Cause) (previous : HealthStatus) (now : ℕ) (new : IncidentStatus)
      (i : IncidentRecord) (st : ComponentHealthState) (s s3 : HealthStore)
      → s3.states ≡ (set_status now new i (record_transition previous st (save_state st s))).states
      → (st.component_id ≡ c → Moves cause (mode_of c s) (state_mode st))
      → IsKeyed s
      → Follows c st.component_id cause s s3
  saved-Follows cause previous now new i st s s3 e moves h =
      same-Follows c st.component_id cause s (save_state st s) s3
        (e
          ∙ (states-set_status now new i (record_transition previous st (save_state st s))
              ∙ states-record_transition previous st (save_state st s)))
        (save_state-Follows c cause st s moves h)

  -- Whatever leaves the states alone, and then a move
  pub before-Follows :
      (id : String) (cause : Cause) (s s2 s3 : HealthStore)
      → s2.states ≡ s.states
      → Follows c id cause s2 s3
      → Follows c id cause s s3
  unfolding stored_state
  before-Follows id cause s s2 s3 e f = record {
    keyed = f.keyed;
    moved = record {
      own = λ p. rw (sym e) (f.moved.own p);
      other = λ n. f.moved.other n ∙ ap (λ d. mode_found (lookup c d)) e;
    };
  }

  mode-same : (s s2 : HealthStore) → s2.states ≡ s.states → mode_of c s2 ≡ mode_of c s
  unfolding stored_state
  mode-same s s2 e = ap (λ d. mode_found (lookup c d)) e

  module _ (now : ℕ) where
    module _ (f : Failure) (e : RecoveryEvaluation) (i : IncidentRecord) (st : ComponentHealthState)
        (s : HealthStore) (h : IsKeyed s) where
      schedule_attempt-Follows :
          st.quarantined ≡ false
          → (st.component_id ≡ c → mode_of c s ≢ isolated)
          → Follows c st.component_id fails s (schedule_attempt now f e i st s)
      unfolding schedule_attempt scheduled_state counted log save_attempt
      schedule_attempt-Follows free apart =
          saved-Follows fails st.status now IncidentStatus.recovering_incident i
            (scheduled_state now e i st) s (schedule_attempt now f e i st s) refl
            (λ own. rw free (fail_planned (mode_of c s) (apart own))) h

      enter_cooldown-Follows :
          st.quarantined ≡ false
          → (st.component_id ≡ c → mode_of c s ≢ isolated)
          → Follows c st.component_id fails s (enter_cooldown now e i st s)
      unfolding enter_cooldown cooling_state counted log
      enter_cooldown-Follows free apart =
          saved-Follows fails st.status now IncidentStatus.open_incident i (cooling_state e i st) s
            (enter_cooldown now e i st s) refl
            (λ own. rw free (fail_cooling (mode_of c s) (apart own))) h

      enter_quarantine-Follows : Follows c st.component_id fails s (enter_quarantine now e i st s)
      unfolding enter_quarantine quarantined_state counted log
      enter_quarantine-Follows =
          saved-Follows fails st.status now IncidentStatus.quarantined_incident i
            (quarantined_state e i st) s (enter_quarantine now e i st s) refl
            (λ own. fail_isolated (mode_of c s)) h

      settle_failure-Follows :
          (e.should_schedule_attempt ≡ true → st.quarantined ≡ false)
          → (e.should_enter_cooldown ≡ true → st.quarantined ≡ false)
          → (st.component_id ≡ c → st.quarantined ≡ false → mode_of c s ≢ isolated)
          → Follows c st.component_id fails s (settle_failure now f e i st s)
      unfolding settle_failure
      settle_failure-Follows plans cools free = elim (Bool-cases e.should_schedule_attempt) [
        | inl p ↦ rw p (schedule_attempt-Follows (plans p) (λ own. free own (plans p)))
        | inr p ↦ rw p (elim (Bool-cases e.should_enter_cooldown) [
          | inl q ↦ rw q (enter_cooldown-Follows (cools q) (λ own. free own (cools q)))
          | inr q ↦ rw q (elim (Bool-cases e.should_quarantine) [
            | inl r ↦ rw r enter_quarantine-Follows
            | inr r ↦
                rw r (stay-Follows c st.component_id fails s (λ own. fail_unsaved (mode_of c s)) h)
          ])
        ])
      ]

    handle_with-Follows :
        (f : Failure) (st : ComponentHealthState) (s : HealthStore) (o : Option RecoveryPolicy)
        → (st.component_id ≡ c → st.quarantined ≡ false → mode_of c s ≢ isolated)
        → IsKeyed s
        → Follows c st.component_id fails s (left_by (handle_with now f st s o))
    unfolding handle_with handle_evaluated ensure_incident evaluation_of log save_incident
        stored_state is_quarantined
    handle_with-Follows f st s none free h =
        stay-Follows c st.component_id fails s (λ own. fail_unsaved (mode_of c s)) h
    handle_with-Follows f st s (some p) free h =
        let recent = recent_for_component p f.component.component_id now s in
        before-Follows st.component_id fails s (ensure_incident now f s)
          (left_by (handle_with now f st s (some p))) refl
          (settle_failure-Follows f (evaluation_of p now f st s) (ensured_incident now f s) st
            (ensure_incident now f s) h
            (λ e. ((evaluate-schedules p (some st) recent f.reason now).0 e).free)
            (λ e. (evaluate-cooling p st recent f.reason now e).0) free)

    failing_state-own :
        (f : Failure) (o : Option ComponentHealthState)
        → HoldsOf (λ st. st.component_id ≡ f.component.component_id) o
        → (state_or_new HealthStatus.failed f.component o).component_id ≡ f.component.component_id
    unfolding state_or_new new_state
    failing_state-own f none h = refl
    failing_state-own f (some st) h = h

    failing_state-free :
        (f : Failure) (o : Option ComponentHealthState)
        → (state_or_new HealthStatus.failed f.component o).quarantined ≡ false
        → mode_found o ≢ isolated
    unfolding state_or_new
    failing_state-free f none free = λ e. cc e
    failing_state-free f (some st) free = state_mode-free st free

    pub handle_failure-Follows :
        (policies : RecoveryPolicies) (f : Failure) (s : HealthStore)
        → IsKeyed s
        → Follows c f.component.component_id fails s (left_by (handle_failure policies now f s))
    unfolding handle_failure failing_state
    handle_failure-Follows policies f s h =
        let id = f.component.component_id in
        let s1 = fail_pending now f s in
        let same = states-fail_pending now f s in
        let own = failing_state-own f (stored_state id s) (stored_state-own id s h) in
        let w = failing_state now f s in
        let moved : Follows c w.component_id fails s1 (left_by (handle_failure policies now f s)) =
          handle_with-Follows f w s1 (policy_for policies f.component.kind)
            (λ e free q.
              failing_state-free f (stored_state id s) free
                (ap (λ k. mode_of k s) (sym own ∙ e) ∙ (sym (mode-same s s1 same) ∙ q)))
            (rw same h) in
        before-Follows id fails s s1 (left_by (handle_failure policies now f s)) same (
          transport (λ i. Follows c (own i) fails s1 (left_by (handle_failure policies now f s)))
            moved)
