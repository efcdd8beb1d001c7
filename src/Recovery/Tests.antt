-- ===== src/Recovery/Tests.antt =====
-- Runs of the recovery policy on concrete failures, and the theorems at these inputs.
use cockpit_cli.Prelude.{
  List, [], length, nat_eq, none, refl, some, string_eq, true, ℕ, ◌*◌, ◌+◌, ◌-◌, ◌↔◌, ◌∷◌, ◌≡◌, ◌≢◌,
  ◌≤◌, ◌⊎◌,
}
use cockpit_cli.Enums.{
  ComponentKind-discrete, component_kind_eq, event_class_eq, failed_attempt, incident_status_eq,
  severity_eq, ssh_tunnel, target_risk_eq,
}
use cockpit_cli.Recovery.{
  RecoveryAttempt, RecoveryPolicy, active_cooldown, attempt_scheduled, default_policies, evaluate,
  exhaustions, get_policy, in_window, is_in_window, is_non_recoverable, is_quarantined, new_service,
  non_recoverable, policy_for, seconds,
}
use cockpit_cli.Recovery.Verdict.{IsRetryable, evaluate-quarantines, evaluate-schedules}

abbrev minute : ℕ
minute = 60

abbrev ssh_policy : RecoveryPolicy
ssh_policy = record {
  component_kind = ssh_tunnel;
  max_attempts = 4;
  retry_window_seconds = 300;
  base_backoff_seconds = 2;
  max_backoff_seconds = 16;
  cooldown_seconds = 120;
  quarantine_after_exhaustion = true;
  non_recoverable_markers = "permission denied" ∷ "host key verification failed" ∷ [];
}

abbrev attempt_at : ℕ → ℕ → RecoveryAttempt
attempt_at n time = record {
  id = "rat";
  incident_id = "inc";
  component_id = "ssh:prod";
  attempt_number = n;
  status = failed_attempt;
  trigger = "auto";
  action = "reconnect";
  backoff_ms = 2000;
  scheduled_for = some time;
  started_at = some time;
  finished_at = some (time + seconds 1);
  error_message = none;
}

-- One attempt ten minutes ago and two in the last minute.
abbrev history : List RecoveryAttempt
history =
    attempt_at 3 (seconds (20 * minute))
    ∷ attempt_at 2 (seconds (20 * minute) - seconds 30)
    ∷ attempt_at 1 (seconds (10 * minute))
    ∷ []

abbrev noon : ℕ
noon = seconds (20 * minute) + seconds 5

evaluate_third :
    (evaluate ssh_policy none history "Connection refused" noon).explanation ≡ attempt_scheduled 4 8
unfolding evaluate is_non_recoverable is_in_window
evaluate_third = refl

evaluate_denied :
    (evaluate ssh_policy none history "Permission Denied (publickey)" noon).explanation
    ≡ non_recoverable "Permission Denied (publickey)"
unfolding evaluate is_non_recoverable is_in_window
evaluate_denied = refl

defaults_ssh : policy_for (new_service []) ssh_tunnel ≡ some ssh_policy
unfolding policy_for new_service get_policy default_policies ComponentKind-discrete
defaults_ssh = refl

evaluate-schedules_example :
    ((evaluate ssh_policy none history "Connection refused" noon).should_schedule_attempt ≡ true)
    ↔ IsRetryable ssh_policy none history "Connection refused" noon
evaluate-schedules_example = evaluate-schedules ssh_policy none history "Connection refused" noon

evaluate-quarantines_example :
    ((evaluate ssh_policy none history "permission denied" noon).should_quarantine ≡ true)
    ↔ (is_non_recoverable ssh_policy "permission denied" ≡ true)
      ⊎ (is_quarantined none ≡ true)
      ⊎ ((ssh_policy.quarantine_after_exhaustion ≡ true)
          × ((active_cooldown none noon ≢ none)
              ⊎ ((ssh_policy.max_attempts ≤ length (in_window ssh_policy noon history))
                  × (1 ≤ exhaustions none))))
evaluate-quarantines_example = evaluate-quarantines ssh_policy none history "permission denied" noon
