-- ===== src/Healing/Refines/Noticed.antt =====
-- src/cockpit/ops/services/self_healing_service.py: a failure is noticed. After it, the component is
-- neither up nor unknown.
use mathlib.Core.Path.{transport}
use cockpit_cli.Prelude.{
  Bool-cases, HoldsOf, HoldsOf_some, List, Option, String, ap, arith, false, inl, inr, insert,
  lookup, lookup-insert_self, nat_eq, none, refl, some, string_eq, sym, true, ℕ, ◌∙◌, ◌≡◌, ◌≢◌,
}
use cockpit_cli.Enums.{
  HealthStatus, IncidentStatus, component_kind_eq, event_class_eq, incident_status_eq, severity_eq,
  target_risk_eq,
}
use cockpit_cli.Recovery.{
  ComponentHealthState, RecoveryAttempt, RecoveryEvaluation, RecoveryPolicy, active_cooldown,
  evaluate, evaluate_attempts, policy_for,
}
use cockpit_cli.Escalation.{IncidentRecord}
use cockpit_cli.Healing.Data.{
  ComponentRef, Failure, HealthStore, MadeIds, RuntimeEvent, component_watch_observed, left_by,
  pty_started, pty_startup_failed, task_exited_unexpectedly, task_heartbeat_missed, terminal_exited,
  tunnel_failure_detected,
}
use cockpit_cli.Healing.Store.{
  log, recent_for_component, save_attempt, save_incident, save_state, stored_state,
}
use cockpit_cli.Healing.Failures.{
  ensure_incident, ensured_incident, fail_pending, failing_state, new_state, record_transition,
  set_status, state_or_new,
}
use cockpit_cli.Healing.Settle.{
  cooling_state, counted, enter_cooldown, enter_quarantine, evaluation_of, handle_evaluated,
  handle_failure, handle_with, quarantined_state, schedule_attempt, scheduled_state, settle_failure,
}
use cockpit_cli.Healing.Recoveries.{RecoveryPolicies}
use cockpit_cli.Healing.Reports.{failure_of, on_event, on_failure}
use cockpit_cli.Healing.Sound.{
  AllSoundStates, IsSoundState, states-record_transition, states-set_status,
}
use cockpit_cli.Healing.Sound.Failures.{states-fail_pending}
use cockpit_cli.Healing.Sound.Reports.{stored_state-HoldsOf}
use cockpit_cli.Healing.Budget.Reports.{IsKnown}
use cockpit_cli.Healing.Mode.{IsDown, fails}
use cockpit_cli.Healing.Refines.{
  IsKeyed, mode_found, mode_of, state_mode, state_or_new-own, status_mode, stored_state-own,
}
use cockpit_cli.Healing.Refines.Reports.{cause_of, subject_of}

status_mode-IsDown :
    (status : HealthStatus) → status ≢ HealthStatus.healthy → IsDown (status_mode status)
status_mode-IsDown HealthStatus.healthy n = absurd (n refl)
status_mode-IsDown HealthStatus.degraded n = (λ e. cc e, λ e. cc e)
status_mode-IsDown HealthStatus.recovering n = (λ e. cc e, λ e. cc e)
status_mode-IsDown HealthStatus.failed n = (λ e. cc e, λ e. cc e)
status_mode-IsDown HealthStatus.quarantined n = (λ e. cc e, λ e. cc e)

-- A component that is not healthy is down.
state_mode-IsDown :
    (st : ComponentHealthState) → st.status ≢ HealthStatus.healthy → IsDown (state_mode st)
state_mode-IsDown st n = elim (Bool-cases st.quarantined) [
  | inl q ↦ rw q (λ e. cc e, λ e. cc e)
  | inr q ↦ rw q (status_mode-IsDown st.status n)
]

-- A failure that changes nothing comes in a cooldown.
evaluate-cold :
    (policy : RecoveryPolicy) (st : ComponentHealthState) (recent : List RecoveryAttempt)
    (reason : String) (now : ℕ)
    → let e = evaluate policy (some st) recent reason now in
      e.should_schedule_attempt ≡ false
      → e.should_enter_cooldown ≡ false
      → e.should_quarantine ≡ false
      → st.cooldown_until ≢ none
unfolding evaluate evaluate_attempts active_cooldown
evaluate-cold policy st recent reason now p q r n = ground arith

module _ (now : ℕ) (f : Failure) (id : String) where
  saved-IsDown :
      (previous : HealthStatus) (new : IncidentStatus) (i : IncidentRecord)
      (st : ComponentHealthState) (s s3 : HealthStore)
      → s3.states ≡ (set_status now new i (record_transition previous st (save_state st s))).states
      → st.component_id ≡ id
      → st.status ≢ HealthStatus.healthy
      → IsDown (mode_of id s3)
  unfolding stored_state save_state
  saved-IsDown previous new i st s s3 e own sick =
      let same =
        ap (λ d. mode_found (lookup id d))
          (e
            ∙ (states-set_status now new i (record_transition previous st (save_state st s))
                ∙ states-record_transition previous st (save_state st s)))
        ∙ (ap (λ k. mode_found (lookup k (insert st.component_id st s.states))) (sym own)
            ∙ ap mode_found (lookup-insert_self st.component_id st s.states)) in
      rw same (state_mode-IsDown st sick)

  settle_failure-IsDown :
      (e : RecoveryEvaluation) (i : IncidentRecord) (st : ComponentHealthState) (s : HealthStore)
      → st.component_id ≡ id
      → (e.should_schedule_attempt ≡ false
          → e.should_enter_cooldown ≡ false
          → e.should_quarantine ≡ false
          → IsDown (mode_of id s))
      → IsDown (mode_of id (settle_failure now f e i st s))
  unfolding settle_failure schedule_attempt scheduled_state enter_cooldown cooling_state
      enter_quarantine quarantined_state counted log save_attempt
  settle_failure-IsDown e i st s own unsaved = elim (Bool-cases e.should_schedule_attempt) [
    | inl p ↦ rw p (
        saved-IsDown st.status IncidentStatus.recovering_incident i (scheduled_state now e i st) s
          (schedule_attempt now f e i st s) refl own (λ x. cc x))
    | inr p ↦ rw p (elim (Bool-cases e.should_enter_cooldown) [
      | inl q ↦ rw q (
          saved-IsDown st.status IncidentStatus.open_incident i (cooling_state e i st) s
            (enter_cooldown now e i st s) refl own (λ x. cc x))
      | inr q ↦ rw q (elim (Bool-cases e.should_quarantine) [
        | inl r ↦ rw r (
            saved-IsDown st.status IncidentStatus.quarantined_incident i (quarantined_state e i st)
              s (enter_quarantine now e i st s) refl own (λ x. cc x))
        | inr r ↦ rw r (unsaved p q r)
      ])
    ])
  ]

-- A component in a cooldown is down.
cold-IsDown :
    (now : ℕ) (r : ComponentRef) (o : Option ComponentHealthState)
    → HoldsOf IsSoundState o
    → (state_or_new HealthStatus.failed r o).cooldown_until ≢ none
    → IsDown (mode_found o)
unfolding state_or_new new_state
cold-IsDown now r none h n = absurd (n refl)
cold-IsDown now r (some st) h n =
    state_mode-IsDown st (λ e. let (_, _, warm, _) = h.well e in n warm)

-- A failure whose kind has a policy leaves its component neither up nor unknown.
pub handle_failure-IsDown :
    (policies : RecoveryPolicies) (policy : RecoveryPolicy) (now : ℕ) (f : Failure)
    (s : HealthStore)
    → policy_for policies f.component.kind ≡ some policy
    → IsKeyed s
    → AllSoundStates s
    → IsDown (mode_of f.component.component_id (left_by (handle_failure policies now f s)))
unfolding handle_failure handle_with handle_evaluated ensure_incident evaluation_of log
    save_incident failing_state stored_state
handle_failure-IsDown policies policy now f s known h hs =
    let id = f.component.component_id in
    let st = failing_state now f s in
    let s1 = fail_pending now f s in
    let own =
      state_or_new-own HealthStatus.failed f.component (stored_state id s)
        (stored_state-own id s h) in
    let same = ap (λ d. mode_found (lookup id d)) (states-fail_pending now f s) in
    let down = cold-IsDown now f.component (stored_state id s) (stored_state-HoldsOf id s hs) in
    let settled =
      settle_failure-IsDown now f id (evaluation_of policy now f st s1) (ensured_incident now f s1)
        st (ensure_incident now f s1) own
        (λ p q r.
          transport (λ i. IsDown (sym same i))
            (down (
              evaluate-cold policy st (recent_for_component policy id now s1) f.reason now p q
                r))) in
    transport (λ i. IsDown (mode_of id (left_by (handle_with now f st s1 (sym known i))))) settled

failure_of-subject :
    (made : MadeIds) (event : RuntimeEvent)
    → cause_of event ≡ fails
    → (f : Failure) × (failure_of made event ≡ some f)
      × (f.component.component_id ≡ subject_of event)
unfolding failure_of
failure_of-subject made (pty_started panel_id) e = absurd (cc e)
failure_of-subject made (terminal_exited panel_id true exit_code) e = absurd (cc e)
failure_of-subject made (component_watch_observed id kind true summary name) e = absurd (cc e)
failure_of-subject made (pty_startup_failed panel_id reason) e = (_, refl, refl)
failure_of-subject made (terminal_exited panel_id false exit_code) e = (_, refl, refl)
failure_of-subject made (task_heartbeat_missed task_name age m) e = (_, refl, refl)
failure_of-subject made (task_exited_unexpectedly task_name error m) e = (_, refl, refl)
failure_of-subject made (tunnel_failure_detected profile_id reason) e = (_, refl, refl)
failure_of-subject made (component_watch_observed id kind false summary name) e = (_, refl, refl)

-- An event that is a failure of the component, with a policy for it, leaves it neither up nor unknown.
pub on_event-IsDown :
    (c : String) (policies : RecoveryPolicies) (policy : RecoveryPolicy) (now : ℕ) (made : MadeIds)
    (event : RuntimeEvent) (s : HealthStore)
    → HoldsOf (IsKnown policies c policy) (failure_of made event)
    → IsKeyed s
    → AllSoundStates s
    → cause_of event ≡ fails
    → subject_of event ≡ c
    → IsDown (mode_of c (left_by (on_event policies now made event s)))
unfolding on_event on_failure
on_event-IsDown c policies policy now made event s known h hs e about =
    let (f, found, own) = failure_of-subject made event e in
    let is_c = own ∙ about in
    let policy_known =
      HoldsOf_some (IsKnown policies c policy) (failure_of made event) f found known in
    transport
      (λ i. IsDown (mode_of (is_c i) (left_by (on_failure policies now event s (sym found i)))))
      (handle_failure-IsDown policies policy now f s (policy_known is_c) h hs)
