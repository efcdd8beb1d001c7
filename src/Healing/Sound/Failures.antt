-- ===== src/Healing/Sound/Failures.antt =====
-- src/cockpit/ops/services/self_healing_service.py: failures, healthy reports and events leave sound
-- states.
use cockpit_cli.Prelude.{
  Bool-cases, HoldsOf, List, Option, false, inl, inr, is_some, lookup, lookup-HoldsOf, nat_eq, none,
  refl, some, string_eq, true, ℕ, ◌∙◌, ◌≡◌,
}
use cockpit_cli.Enums.{
  ComponentKind, HealthStatus, IncidentStatus, component_kind_eq, event_class_eq,
  incident_status_eq, severity_eq, target_risk_eq,
}
use cockpit_cli.Recovery.{
  ComponentHealthState, RecoveryAttempt, RecoveryEvaluation, RecoveryPolicy, policy_for,
}
use cockpit_cli.Escalation.{IncidentRecord}
use cockpit_cli.Healing.Data.{ComponentRef, Failure, HealthStore, left_by}
use cockpit_cli.Healing.Store.{
  latest_pending_for_component, log, recent_for_component, save_attempt, save_incident, save_state,
  stored_state,
}
use cockpit_cli.Healing.Failures.{
  ensure_incident, ensured_incident, fail_attempt, fail_pending, failing_state, new_state,
  quarantine_text, record_transition, set_status, state_or_new,
}
use cockpit_cli.Healing.Settle.{
  cooling_state, enter_cooldown, enter_quarantine, evaluation_of, handle_evaluated, handle_failure,
  handle_with, quarantined_state, schedule_attempt, scheduled_state, settle_failure,
}
use cockpit_cli.Healing.Sound.{
  AllSoundStates, IsFlagged, IsSoundState, cooling_state-IsSound, evaluate-cooling,
  evaluate-explained, quarantined_state-IsSound, save_state-AllSound, scheduled_state-IsSound,
  states-record_transition, states-set_status,
}

pub same-AllSound :
    (s s2 : HealthStore) → s2.states ≡ s.states → AllSoundStates s → AllSoundStates s2
same-AllSound s s2 e h = rw e h

-- Everything after the state is saved leaves the states alone.
pub saved-AllSound :
    (previous : HealthStatus) (now : ℕ) (new : IncidentStatus) (i : IncidentRecord)
    (st : ComponentHealthState) (s : HealthStore)
    → IsSoundState st
    → AllSoundStates s
    → AllSoundStates (set_status now new i (record_transition previous st (save_state st s)))
saved-AllSound previous now new i st s h hs =
    same-AllSound (save_state st s)
      (set_status now new i (record_transition previous st (save_state st s)))
      (states-set_status now new i (record_transition previous st (save_state st s))
        ∙ states-record_transition previous st (save_state st s))
      (save_state-AllSound st s h hs)

module _ (now : ℕ) (f : Failure) (i : IncidentRecord) (st : ComponentHealthState) (s : HealthStore)
    (flagged : IsFlagged st) (sound : AllSoundStates s) where
  schedule_attempt-AllSound :
      (e : RecoveryEvaluation) → AllSoundStates (schedule_attempt now f e i st s)
  unfolding schedule_attempt log save_attempt
  schedule_attempt-AllSound e =
      saved-AllSound st.status now IncidentStatus.recovering_incident i (scheduled_state now e i st)
        s (scheduled_state-IsSound now e i st flagged) sound

  enter_cooldown-AllSound :
      (e : RecoveryEvaluation)
      → (st.quarantined ≡ false) × (is_some e.cooldown_until ≡ true)
      → AllSoundStates (enter_cooldown now e i st s)
  unfolding enter_cooldown log
  enter_cooldown-AllSound e (free, c) =
      saved-AllSound st.status now IncidentStatus.open_incident i (cooling_state e i st) s
        (cooling_state-IsSound e i st flagged free c) sound

  enter_quarantine-AllSound :
      (e : RecoveryEvaluation)
      → is_some (quarantine_text e.explanation) ≡ true
      → AllSoundStates (enter_quarantine now e i st s)
  unfolding enter_quarantine log
  enter_quarantine-AllSound e c =
      saved-AllSound st.status now IncidentStatus.quarantined_incident i (quarantined_state e i st)
        s (quarantined_state-IsSound e i st c) sound

  settle_failure-AllSound :
      (e : RecoveryEvaluation)
      → (e.should_enter_cooldown ≡ true
          → (st.quarantined ≡ false) × (is_some e.cooldown_until ≡ true))
      → (e.should_quarantine ≡ true → is_some (quarantine_text e.explanation) ≡ true)
      → AllSoundStates (settle_failure now f e i st s)
  unfolding settle_failure
  settle_failure-AllSound e cools isolates = elim (Bool-cases e.should_schedule_attempt) [
    | inl p ↦ rw p (schedule_attempt-AllSound e)
    | inr p ↦ rw p (elim (Bool-cases e.should_enter_cooldown) [
      | inl q ↦ rw q (enter_cooldown-AllSound e (cools q))
      | inr q ↦ rw q (elim (Bool-cases e.should_quarantine) [
        | inl r ↦ rw r (enter_quarantine-AllSound e (isolates r))
        | inr r ↦ rw r sound
      ])
    ])
  ]

states-ensure_incident :
    (now : ℕ) (f : Failure) (s : HealthStore) → (ensure_incident now f s).states ≡ s.states
unfolding ensure_incident log save_incident
states-ensure_incident now f s = refl

states-fail_attempt :
    (now : ℕ) (f : Failure) (s : HealthStore) (o : Option RecoveryAttempt)
    → (fail_attempt now f s o).states ≡ s.states
unfolding fail_attempt log save_attempt
states-fail_attempt now f s none = refl
states-fail_attempt now f s (some a) = refl

pub states-fail_pending :
    (now : ℕ) (f : Failure) (s : HealthStore) → (fail_pending now f s).states ≡ s.states
unfolding fail_pending
states-fail_pending now f s = elim (Bool-cases f.pending_already_failed) [
  | inl e ↦ rw e refl
  | inr e ↦
      rw e (states-fail_attempt now f s (latest_pending_for_component f.component.component_id s))
]

state_or_new-IsFlagged :
    (status : HealthStatus) (c : ComponentRef) (o : Option ComponentHealthState)
    → HoldsOf IsSoundState o
    → IsFlagged (state_or_new status c o)
unfolding state_or_new new_state
state_or_new-IsFlagged status c none h = refl
state_or_new-IsFlagged status c (some st) h = h.flagged

failing_state-IsFlagged :
    (now : ℕ) (f : Failure) (s : HealthStore) → AllSoundStates s → IsFlagged (failing_state now f s)
unfolding failing_state stored_state
failing_state-IsFlagged now f s hs =
    state_or_new-IsFlagged HealthStatus.failed f.component
      (lookup f.component.component_id s.states)
      (lookup-HoldsOf IsSoundState f.component.component_id s.states hs)

handle_evaluated-AllSound :
    (policy : RecoveryPolicy) (now : ℕ) (f : Failure) (st : ComponentHealthState) (s : HealthStore)
    → IsFlagged st
    → AllSoundStates s
    → AllSoundStates (handle_evaluated policy now f st s)
unfolding handle_evaluated evaluation_of
handle_evaluated-AllSound policy now f st s h hs =
    let recent = recent_for_component policy f.component.component_id now s in
    settle_failure-AllSound now f (ensured_incident now f s) st (ensure_incident now f s) h
      (same-AllSound s (ensure_incident now f s) (states-ensure_incident now f s) hs)
      (evaluation_of policy now f st s) (evaluate-cooling policy st recent f.reason now)
      (evaluate-explained policy (some st) recent f.reason now)

handle_with-AllSound :
    (now : ℕ) (f : Failure) (st : ComponentHealthState) (s : HealthStore)
    (policy : Option RecoveryPolicy)
    → IsFlagged st
    → AllSoundStates s
    → AllSoundStates (left_by (handle_with now f st s policy))
unfolding handle_with
handle_with-AllSound now f st s none h hs = hs
handle_with-AllSound now f st s (some policy) h hs =
    handle_evaluated-AllSound policy now f st s h hs

pub handle_failure-AllSound :
    (policies : List (ComponentKind × RecoveryPolicy)) (now : ℕ) (f : Failure) (s : HealthStore)
    → AllSoundStates s
    → AllSoundStates (left_by (handle_failure policies now f s))
unfolding handle_failure
handle_failure-AllSound policies now f s hs =
    handle_with-AllSound now f (failing_state now f s) (fail_pending now f s)
      (policy_for policies f.component.kind) (failing_state-IsFlagged now f s hs)
      (same-AllSound s (fail_pending now f s) (states-fail_pending now f s) hs)
