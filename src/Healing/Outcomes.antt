-- ===== src/Healing/Outcomes.antt =====
-- src/cockpit/ops/services/self_healing_service.py: what is left of a failure.
use cockpit_cli.Prelude.{
  Bool-cases, List, Option, Option-cases, ap, false, inl, inr, is_some, lookup, lookup-insert_self,
  nat_eq, none, refl, some, string_eq, true, ℕ, ◌+◌, ◌∙◌, ◌≡◌,
}
use cockpit_cli.Enums.{
  ComponentKind, ComponentKind-discrete, HealthStatus, IncidentStatus, RecoveryAttemptStatus,
  component_kind_eq, event_class_eq, incident_status_eq, severity_eq, target_risk_eq,
}
use cockpit_cli.Recovery.{
  ComponentHealthState, RecoveryAttempt, RecoveryPolicy, active_cooldown, default_policies,
  evaluate, get_policy, is_non_recoverable, is_quarantined, last_attempt_number, policy_for,
  seconds,
}
use cockpit_cli.Recovery.Verdict.{HasNoDefault, IsRetryable, evaluate-schedules}
use cockpit_cli.Recovery.Backoff.{evaluate-number}
use cockpit_cli.Escalation.{IncidentRecord}
use cockpit_cli.Healing.Data.{Failure, HealthStore, key_error, left_by}
use cockpit_cli.Healing.Store.{
  latest_pending_for_component, log, recent_for_component, save_attempt, save_incident, save_state,
  stored_state,
}
use cockpit_cli.Healing.Failures.{
  ensure_incident, ensured_incident, fail_attempt, fail_pending, failing_state, record_transition,
  set_status,
}
use cockpit_cli.Healing.Settle.{
  counted, evaluation_of, handle_evaluated, handle_failure, handle_with, new_attempt,
  schedule_attempt, scheduled_state, settle_failure,
}
use cockpit_cli.Healing.Recoveries.{RecoveryPolicies}
use cockpit_cli.Healing.Sound.{states-record_transition, states-set_status}
use cockpit_cli.Healing.Sound.Failures.{states-fail_pending}

incidents-fail_pending :
    (now : ℕ) (f : Failure) (s : HealthStore) → (fail_pending now f s).incidents ≡ s.incidents
unfolding fail_pending fail_attempt log save_attempt
incidents-fail_pending now f s = elim (Bool-cases f.pending_already_failed) [
  | inl e ↦ rw e refl
  | inr e ↦ rw e (go (latest_pending_for_component f.component.component_id s))
]
  where
    go : (o : Option RecoveryAttempt) → (fail_attempt now f s o).incidents ≡ s.incidents
    go none = refl
    go (some a) = refl

policy_for-none :
    (policies : RecoveryPolicies) (kind : ComponentKind)
    → HasNoDefault kind
    → policy_for policies kind ≡ none
unfolding policy_for get_policy default_policies ComponentKind-discrete
policy_for-none policies kind (inl e) = rw e refl
policy_for-none policies kind (inr (inl e)) = rw e refl
policy_for-none policies kind (inr (inr e)) = rw e refl

-- The failure of a response run, a remediation run or a case file raises `KeyError`: the attempt under
-- way has been failed, and neither a state nor an incident of the failure is stored.
pub handle_failure_raises :
    (policies : RecoveryPolicies) (now : ℕ) (f : Failure) (s : HealthStore)
    → HasNoDefault f.component.kind
    → (handle_failure policies now f s ≡ key_error f.component.kind (fail_pending now f s))
      × ((fail_pending now f s).states ≡ s.states)
      × ((fail_pending now f s).incidents ≡ s.incidents)
unfolding handle_failure handle_with
handle_failure_raises policies now f s h = (
  rw (policy_for-none policies f.component.kind h) refl,
  states-fail_pending now f s,
  incidents-fail_pending now f s,
)

lookup-saved :
    (previous : HealthStatus) (now : ℕ) (new : IncidentStatus) (i : IncidentRecord)
    (st : ComponentHealthState) (s : HealthStore)
    → lookup st.component_id
        (set_status now new i (record_transition previous st (save_state st s))).states
      ≡ some st
unfolding save_state
lookup-saved previous now new i st s =
    ap (λ d. lookup st.component_id d)
      (states-set_status now new i (record_transition previous st (save_state st s))
        ∙ states-record_transition previous st (save_state st s))
    ∙ lookup-insert_self st.component_id st s.states

-- The tables on which a failure is evaluated
abbrev pub recent_at : RecoveryPolicy → ℕ → Failure → HealthStore → List RecoveryAttempt
recent_at policy now f s =
    recent_for_component policy f.component.component_id now (fail_pending now f s)

-- A failure that is retryable is answered by a plan: the component is stored as recovering, with the time
-- at which the backoff ends, one failure more and no cooldown; and the attempt is stored as scheduled for
-- that time, with the number that follows the recent ones.
pub handle_failure_plans :
    (policies : RecoveryPolicies) (policy : RecoveryPolicy) (now : ℕ) (f : Failure)
    (s : HealthStore)
    → policy_for policies f.component.kind ≡ some policy
    → IsRetryable policy (some (failing_state now f s)) (recent_at policy now f s) f.reason now
    → let s2 = left_by (handle_failure policies now f s) in
      let st = failing_state now f s in
      let e = evaluate policy (some st) (recent_at policy now f s) f.reason now in
      (st2 : ComponentHealthState) × (a : RecoveryAttempt) × (stored_state st.component_id s2
        ≡ some st2)
      × (lookup f.made.made_attempt s2.attempts ≡ some a)
      × (st2.status ≡ HealthStatus.recovering)
      × (st2.next_recovery_at ≡ some (now + seconds e.backoff_seconds))
      × (st2.consecutive_failures ≡ st.consecutive_failures + 1)
      × (st2.cooldown_until ≡ none)
      × (a.component_id ≡ f.component.component_id)
      × (a.status ≡ RecoveryAttemptStatus.scheduled)
      × (a.scheduled_for ≡ st2.next_recovery_at)
      × (a.attempt_number ≡ last_attempt_number (recent_at policy now f s) + 1)
unfolding handle_failure handle_with handle_evaluated evaluation_of settle_failure schedule_attempt
    stored_state scheduled_state new_attempt counted log save_attempt
handle_failure_plans policies policy now f s found r =
    let st = failing_state now f s in
    let s1 = fail_pending now f s in
    let e = evaluate policy (some st) (recent_at policy now f s) f.reason now in
    let i = ensured_incident now f s1 in
    let s3 = ensure_incident now f s1 in
    let planned =
      (evaluate-schedules policy (some st) (recent_at policy now f s) f.reason now).1 r in
    (
      scheduled_state now e i st,
      new_attempt now f e i,
      rw (found, planned)
          (lookup-saved st.status now IncidentStatus.recovering_incident i
            (scheduled_state now e i st) s3),
      rw (found, planned)
          (lookup-insert_self f.made.made_attempt (new_attempt now f e i)
            (set_status now IncidentStatus.recovering_incident i (
              record_transition st.status (scheduled_state now e i st)
                (save_state (scheduled_state now e i st) s3))).attempts),
      refl,
      refl,
      refl,
      refl,
      refl,
      refl,
      refl,
      (evaluate-number policy (some st) (recent_at policy now f s) f.reason now).0 planned,
    )

uncold : (o : Option ℕ) → is_some o ≡ true → o ≡ none → ⊥
uncold none h e = cc h
uncold (some t) h e = cc e

-- A failure in a cooldown that is running, under a policy that does not quarantine, is not counted: if its
-- reason is not marked and the component is not in quarantine, no state is saved.
pub handle_failure_uncounted :
    (policies : RecoveryPolicies) (policy : RecoveryPolicy) (now : ℕ) (f : Failure)
    (s : HealthStore)
    → policy_for policies f.component.kind ≡ some policy
    → policy.quarantine_after_exhaustion ≡ false
    → is_non_recoverable policy f.reason ≡ false
    → is_quarantined (some (failing_state now f s)) ≡ false
    → is_some (active_cooldown (some (failing_state now f s)) now) ≡ true
    → (left_by (handle_failure policies now f s)).states ≡ s.states
unfolding handle_failure handle_with handle_evaluated evaluation_of settle_failure evaluate
    ensure_incident log save_incident
handle_failure_uncounted policies policy now f s found never fine free cold =
    rw (found, fine, free)
      (elim (Option-cases (active_cooldown (some (failing_state now f s)) now)) [
        | inl e ↦ absurd (uncold (active_cooldown (some (failing_state now f s)) now) cold e)
        | inr (until, e) ↦ rw (e, never) (states-fail_pending now f s)
      ])
