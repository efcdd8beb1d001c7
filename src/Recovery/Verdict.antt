-- ===== src/Recovery/Verdict.antt =====
-- src/cockpit/ops/services/recovery_policy_service.py: what each evaluation decides, and which
-- kinds of component have a policy at all.
use cockpit_cli.Prelude.{
  List, Option, Option-cases, String, arith, false, inl, inr, length, none, refl, true, ℕ, ◌&&◌,
  ◌<◌, ◌↔◌, ◌≡◌, ◌≢◌, ◌≤◌, ◌⊎◌,
}
use cockpit_cli.Enums.{
  ComponentKind, ComponentKind-discrete, case_file, failed, pty_session, quarantined, recovering,
  remediation_run, response_run,
}
use cockpit_cli.Recovery.{
  ComponentHealthState, RecoveryAttempt, RecoveryPolicy, active_cooldown, default_policies,
  evaluate, evaluate_attempts, evaluate_failure, exhaustions, get_policy, in_window,
  is_non_recoverable, is_quarantined, policy_for,
}

-- A failure that nothing forbids to retry: no marker of the policy in the reason, no quarantine, no
-- cooldown still running, and an attempt left in the retry window.
pub record IsRetryable (policy : RecoveryPolicy) (state : Option ComponentHealthState)
    (recent : List RecoveryAttempt) (reason : String) (now : ℕ) : Type 0 where
  pub recoverable : is_non_recoverable policy reason ≡ false
  pub free : is_quarantined state ≡ false
  pub warm : active_cooldown state now ≡ none
  pub attempts_left : length (in_window policy now recent) < policy.max_attempts

-- An attempt is scheduled exactly when the failure is retryable: its reason is not marked as
-- non-recoverable, the component is not quarantined, no cooldown is running, and fewer attempts than
-- the policy allows stand in the retry window.
pub evaluate-schedules :
    (policy : RecoveryPolicy) (state : Option ComponentHealthState) (recent : List RecoveryAttempt)
    (reason : String) (now : ℕ)
    → ((evaluate policy state recent reason now).should_schedule_attempt ≡ true)
      ↔ IsRetryable policy state recent reason now
unfolding evaluate evaluate_attempts
evaluate-schedules policy state recent reason now = (λ h. ground arith, λ r. ground arith)

-- A failure is quarantined exactly in four cases: the reason is marked as non-recoverable, the
-- component is quarantined already, a cooldown is running, or its attempts are used up after an
-- earlier exhaustion; the last two only under a policy that quarantines after exhaustion.
pub evaluate-quarantines :
    (policy : RecoveryPolicy) (state : Option ComponentHealthState) (recent : List RecoveryAttempt)
    (reason : String) (now : ℕ)
    → ((evaluate policy state recent reason now).should_quarantine ≡ true)
      ↔ (is_non_recoverable policy reason ≡ true)
        ⊎ (is_quarantined state ≡ true)
        ⊎ ((policy.quarantine_after_exhaustion ≡ true)
            × ((active_cooldown state now ≢ none)
                ⊎ ((policy.max_attempts ≤ length (in_window policy now recent))
                    × (1 ≤ exhaustions state))))
unfolding evaluate evaluate_attempts
evaluate-quarantines policy state recent reason now = (λ h. ground arith, λ r. ground arith)

-- The flags and the status agree: an attempt is scheduled exactly with status recovering, the
-- component is quarantined exactly with status quarantined, a cooldown comes with status failed,
-- and no two of the three flags are set.
pub evaluate-next_status :
    (policy : RecoveryPolicy) (state : Option ComponentHealthState) (recent : List RecoveryAttempt)
    (reason : String) (now : ℕ)
    → let e = evaluate policy state recent reason now in
      ((e.should_schedule_attempt ≡ true) ↔ (e.next_status ≡ recovering))
      × ((e.should_quarantine ≡ true) ↔ (e.next_status ≡ quarantined))
      × (e.should_enter_cooldown ≡ true → e.next_status ≡ failed)
      × ((e.should_schedule_attempt && e.should_quarantine) ≡ false)
      × ((e.should_schedule_attempt && e.should_enter_cooldown) ≡ false)
      × ((e.should_quarantine && e.should_enter_cooldown) ≡ false)
unfolding evaluate evaluate_attempts
evaluate-next_status policy state recent reason now = (
  (λ h. ground arith, λ h. ground arith),
  (λ h. ground arith, λ h. ground arith),
  λ h. ground arith,
  ground arith,
  ground arith,
  ground arith,
)

-- The kinds for which the table of defaults has no row.
abbrev pub HasNoDefault : ComponentKind → Type 0
HasNoDefault kind = (kind ≡ response_run) ⊎ (kind ≡ remediation_run) ⊎ (kind ≡ case_file)

get_policy-default_policies :
    (kind : ComponentKind) → (get_policy kind default_policies ≡ none) ↔ HasNoDefault kind
unfolding get_policy default_policies ComponentKind-discrete
get_policy-default_policies pty_session = (λ h. cc, λ h. ground arith)
get_policy-default_policies response_run = (λ h. ground arith, λ h. refl)
get_policy-default_policies remediation_run = (λ h. ground arith, λ h. refl)
get_policy-default_policies case_file = (λ h. ground arith, λ h. refl)
get_policy-default_policies _ = (λ h. cc, λ h. ground arith)

-- The evaluation raises `KeyError` exactly for response runs, remediation runs and case files,
-- whatever policies the service was built with, also where those name a policy for the kind.
pub evaluate_failure-eq-none :
    (policies : List (ComponentKind × RecoveryPolicy)) (kind : ComponentKind)
    (state : Option ComponentHealthState) (recent : List RecoveryAttempt) (reason : String)
    (now : ℕ)
    → (evaluate_failure policies kind state recent reason now ≡ none) ↔ HasNoDefault kind
unfolding evaluate_failure policy_for
evaluate_failure-eq-none policies kind state recent reason now =
    let (to, from) = get_policy-default_policies kind in
    (
      λ h. elim (Option-cases (get_policy kind default_policies)) [
        | inl e ↦ to e
        | inr (p, e) ↦ absurd (ground arith)
      ],
      λ h. ground (arith, from h),
    )
