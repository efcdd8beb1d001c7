-- ===== src/Recovery/Window.antt =====
-- src/cockpit/ops/services/recovery_policy_service.py: the sliding window of recent attempts.
use cockpit_cli.Prelude.{
  All, List, Option, String, [], arith, false, length, min, none, refl, some, true, ℕ, ◌<◌, ◌∷◌,
  ◌≡◌, ◌≤◌,
}
use cockpit_cli.Recovery.Verdict.{evaluate-schedules}
use cockpit_cli.Recovery.Backoff.{backoff_for-doubles}
use cockpit_cli.Recovery.{
  ComponentHealthState, RecoveryAttempt, RecoveryPolicy, active_cooldown, attempt_time, evaluate,
  evaluate_attempts, in_window, is_in_window, is_non_recoverable, is_quarantined,
}

pub is_in_window_antitone :
    (policy : RecoveryPolicy) (now later : ℕ) (a : RecoveryAttempt)
    → now ≤ later
    → is_in_window policy later a ≡ true
    → is_in_window policy now a ≡ true
unfolding is_in_window attempt_time
is_in_window_antitone policy now later a le h = ground arith

-- As time passes, no attempt enters the window.
pub in_window_antitone :
    (policy : RecoveryPolicy) (now later : ℕ) (recent : List RecoveryAttempt)
    → now ≤ later
    → length (in_window policy later recent) ≤ length (in_window policy now recent)
unfolding in_window
in_window_antitone policy now later [] le = omega arith
in_window_antitone policy now later (a ∷ rest) le = ground (
  arith,
  is_in_window_antitone policy now later a le,
  in_window_antitone policy now later rest le,
)

-- Every attempt is older than the retry window at `now`, or has no time at all.
abbrev pub IsPast : RecoveryPolicy → ℕ → RecoveryAttempt → Type 0
IsPast policy now a = is_in_window policy now a ≡ false

in_window_past :
    (policy : RecoveryPolicy) (now : ℕ) (recent : List RecoveryAttempt)
    → All (IsPast policy now) recent
    → in_window policy now recent ≡ []
unfolding in_window
in_window_past policy now [] h = refl
in_window_past policy now (a ∷ rest) (old, more) =
    ground (arith, in_window_past policy now rest more)

-- Once every recent attempt has left the retry window, a failure that is not marked, not in
-- quarantine and not in a cooldown is retried, with the first backoff again.
pub evaluate_past_window :
    (policy : RecoveryPolicy) (state : Option ComponentHealthState) (recent : List RecoveryAttempt)
    (reason : String) (now : ℕ)
    → is_non_recoverable policy reason ≡ false
    → is_quarantined state ≡ false
    → active_cooldown state now ≡ none
    → 0 < policy.max_attempts
    → All (IsPast policy now) recent
    → let e = evaluate policy state recent reason now in
      (e.should_schedule_attempt ≡ true)
      × (e.backoff_seconds ≡ min policy.max_backoff_seconds policy.base_backoff_seconds)
unfolding evaluate evaluate_attempts
evaluate_past_window policy state recent reason now fine free warm some_attempts old =
    ground (arith, in_window_past policy now recent old, (backoff_for-doubles policy 0).0)

active_cooldown_over :
    (state : Option ComponentHealthState) (now later : ℕ)
    → now ≤ later
    → active_cooldown state now ≡ none
    → active_cooldown state later ≡ none
unfolding active_cooldown
active_cooldown_over none now later le h = refl
active_cooldown_over (some s) now later le h = ground arith

-- A failure that is retryable stays so while nothing but the clock moves.
pub retryable_later :
    (policy : RecoveryPolicy) (state : Option ComponentHealthState) (recent : List RecoveryAttempt)
    (reason : String) (now later : ℕ)
    → now ≤ later
    → (evaluate policy state recent reason now).should_schedule_attempt ≡ true
    → (evaluate policy state recent reason later).should_schedule_attempt ≡ true
retryable_later policy state recent reason now later le h =
    let r = (evaluate-schedules policy state recent reason now).0 h in
    (evaluate-schedules policy state recent reason later).1 (record {
      recoverable = r.recoverable;
      free = r.free;
      warm = active_cooldown_over state now later le r.warm;
      attempts_left = omega (arith, r.attempts_left, in_window_antitone policy now later recent le);
    })
