-- ===== src/Healing/Tests.antt =====
-- Runs of the self-healing service on concrete failures, and the theorems at these inputs.
use cockpit_cli.Prelude.{
  HoldsOf, List, [], arith, false, inr, is_infix, is_prefix, lookup, lower_char, nat_eq, none,
  place, refl, some, sort, string_eq, strip, true, ℕ, ◌+◌, ◌∷◌, ◌≡◌,
}
use cockpit_cli.Enums.{
  ComponentKind-discrete, HealthStatus, RecoveryAttemptStatus, case_file, component_kind_eq,
  docker_runtime, event_class_eq, incident_status_eq, pty_session, severity_eq, ssh_tunnel,
  target_risk_eq, warning,
}
use cockpit_cli.Recovery.{
  ComponentHealthState, RecoveryAttempt, RecoveryPolicy, active_cooldown, attempt_time,
  default_policies, evaluate, get_policy, in_window, is_in_window, is_non_recoverable,
  is_quarantined, last_attempt_number, policy_for, seconds,
}
use cockpit_cli.Recovery.Verdict.{IsRetryable}
use cockpit_cli.Healing.Data.{
  Failure, HealthStore, MadeIds, Managers, RuntimeEvent, host_unavailable, key_error, left_by,
  pty_started, session_restarted, task_raised, terminal_exited, tunnel_raised, tunnel_up,
  watch_unavailable,
}
use cockpit_cli.Healing.Store.{latest_pending_for_component, recent_for_component, stored_state}
use cockpit_cli.Healing.Failures.{
  fail_attempt, fail_pending, failing_state, new_state, state_or_new,
}
use cockpit_cli.Healing.Settle.{handle_failure}
use cockpit_cli.Healing.Reports.{failure_of, on_event, pty_ref, report_healthy, tunnel_ref}
use cockpit_cli.Healing.Calls.{
  HealthCall, component_retried, event_published, recoveries_run, run_calls,
}
use cockpit_cli.Healing.Sound.{AllSoundStates, IsSoundState}
use cockpit_cli.Healing.Sound.Calls.{run_calls-AllSound}
use cockpit_cli.Healing.Budget.Reports.{IsKnown}
use cockpit_cli.Healing.Budget.{IsWithinBudget}
use cockpit_cli.Healing.Budget.Traces.{
  HealthStep, HealthTrace, at_start, event_step, then_step, trace-IsWithinBudget,
}
use cockpit_cli.Healing.Mode.{isolated}
use cockpit_cli.Healing.Refines.{mode_of}
use cockpit_cli.Healing.Refines.Steps.{step-isolated}
use cockpit_cli.Healing.Recoveries.{run_recovery}
use cockpit_cli.Healing.Heals.{IsHealed, IsSettled, report_healthy_settles, run_recovery-IsHealed}
use cockpit_cli.Healing.Outcomes.{
  handle_failure_plans, handle_failure_raises, handle_failure_uncounted, recent_at,
}

abbrev empty_store : HealthStore
empty_store = record { states = []; incidents = []; attempts = []; journal = [] }

abbrev ids : MadeIds
ids = record { made_incident = "inc-1"; made_attempt = "rcv-1" }

abbrev later_ids : MadeIds
later_ids = record { made_incident = "inc-2"; made_attempt = "rcv-2" }

abbrev crash : RuntimeEvent
crash = terminal_exited "work" false "1"

abbrev noon : ℕ
noon = seconds 43200

-- The restart of a session starts it; everything else fails.
abbrev managers : Managers
managers = record {
  restart_session = λ st. session_restarted ((later_ids, pty_started "work") ∷ []) true;
  reconnect_tunnel = λ st. tunnel_raised "refused";
  restart_task = λ st. task_raised "not running";
  restart_host = λ st. host_unavailable;
  probe_watch = λ st. watch_unavailable;
  make_ids = λ id. later_ids;
  key_error_text = λ kind. "";
}

abbrev day : List (ℕ × Managers × HealthCall)
day =
    (noon, managers, event_published ids crash)
    ∷ (noon + seconds 1, managers, recoveries_run)
    ∷ (noon + seconds 2, managers, event_published later_ids (terminal_exited "work" true "0"))
    ∷ (noon + seconds 3, managers, component_retried "pty:work")
    ∷ []

run_calls-AllSound_example : AllSoundStates (run_calls [] day empty_store)
run_calls-AllSound_example = run_calls-AllSound [] day empty_store tt

abbrev pty_policy : RecoveryPolicy
pty_policy = record {
  component_kind = pty_session;
  max_attempts = 3;
  retry_window_seconds = 300;
  base_backoff_seconds = 1;
  max_backoff_seconds = 8;
  cooldown_seconds = 60;
  quarantine_after_exhaustion = true;
  non_recoverable_markers = "permission denied" ∷ "no such file" ∷ "not found" ∷ [];
}

abbrev after_crash : HealthStore
after_crash = left_by (on_event [] noon ids crash empty_store)

IsKnown-crash : HoldsOf (IsKnown [] "pty:work" pty_policy) (failure_of ids crash)
unfolding failure_of pty_ref policy_for get_policy default_policies ComponentKind-discrete
IsKnown-crash = λ _. refl

abbrev crash_step : HealthStep [] "pty:work" pty_policy noon empty_store after_crash
crash_step = event_step ids crash empty_store IsKnown-crash

empty-IsWithinBudget : IsWithinBudget "pty:work" pty_policy noon []
empty-IsWithinBudget = record { table = tt; alone = omega arith; within = omega arith }

-- The terminal exits, and a minute later it is up again.
abbrev after_start : HealthStore
after_start = left_by (on_event [] (noon + seconds 60) later_ids (pty_started "work") after_crash)

IsKnown-start :
    HoldsOf (IsKnown [] "pty:work" pty_policy) (failure_of later_ids (pty_started "work"))
unfolding failure_of
IsKnown-start = tt

crash_trace : HealthTrace [] "pty:work" pty_policy noon empty_store (noon + seconds 60) after_start
crash_trace =
    then_step (then_step at_start (omega arith) crash_step) (omega arith)
      (event_step later_ids (pty_started "work") after_crash IsKnown-start)

trace-IsWithinBudget_example :
    IsWithinBudget "pty:work" pty_policy (noon + seconds 60) after_start.attempts
trace-IsWithinBudget_example =
    trace-IsWithinBudget [] "pty:work" pty_policy noon empty_store empty-IsWithinBudget crash_trace

abbrev broken : ComponentHealthState
broken = record {
  component_id = "pty:work";
  component_kind = pty_session;
  display_name = "PTY work";
  status = HealthStatus.quarantined;
  last_heartbeat_at = none;
  last_failure_at = some noon;
  last_recovery_at = none;
  next_recovery_at = none;
  cooldown_until = none;
  consecutive_failures = 4;
  exhaustion_count = 1;
  quarantined = true;
  quarantine_reason = some "Component is already quarantined.";
  last_incident_id = some "inc-1";
}

abbrev broken_store : HealthStore
broken_store = record {
  states = ("pty:work", broken) ∷ [];
  incidents = [];
  attempts = [];
  journal = [];
}

broken-IsSound : IsSoundState broken
broken-IsSound = record {
  flagged = refl;
  well = λ e. absurd (cc e);
  cooling = λ e. absurd (cc e);
  planned = λ e. absurd (cc e);
  isolated = λ e. refl;
}

broken-mode : mode_of "pty:work" broken_store ≡ isolated
unfolding stored_state lookup
broken-mode = refl

abbrev crash_again :
    HealthStep [] "pty:work" pty_policy noon broken_store
      (left_by (on_event [] noon ids crash broken_store))
crash_again = event_step ids crash broken_store IsKnown-crash

step-isolated_example :
    mode_of "pty:work" (left_by (on_event [] noon ids crash broken_store)) ≡ isolated
step-isolated_example =
    step-isolated crash_again (refl, tt) (broken-IsSound, tt) refl refl broken-mode

abbrev crash_failure : Failure
crash_failure = record {
  component = record { component_id = "pty:work"; kind = pty_session; display_name = "PTY work" };
  reason = "terminal exited with code 1";
  severity = warning;
  pending_already_failed = false;
  made = ids;
}

known_policy : policy_for [] pty_session ≡ some pty_policy
unfolding policy_for get_policy default_policies ComponentKind-discrete
known_policy = refl

crash-IsRetryable :
    IsRetryable pty_policy
      (some (failing_state noon crash_failure empty_store))
      (recent_at pty_policy noon crash_failure empty_store)
      "terminal exited with code 1"
      noon
unfolding is_non_recoverable is_infix is_prefix lower_char is_quarantined active_cooldown in_window
    recent_for_component failing_state state_or_new new_state stored_state lookup fail_pending
    fail_attempt latest_pending_for_component sort
crash-IsRetryable = record {
  recoverable = refl;
  free = refl;
  warm = refl;
  attempts_left = omega arith;
}

handle_failure_plans_example :
    let s2 = left_by (handle_failure [] noon crash_failure empty_store) in
    let st = failing_state noon crash_failure empty_store in
    let recent = recent_at pty_policy noon crash_failure empty_store in
    let e = evaluate pty_policy (some st) recent "terminal exited with code 1" noon in
    (st2 : ComponentHealthState) × (a : RecoveryAttempt) × (stored_state st.component_id s2
      ≡ some st2)
    × (lookup "rcv-1" s2.attempts ≡ some a)
    × (st2.status ≡ HealthStatus.recovering)
    × (st2.next_recovery_at ≡ some (noon + seconds e.backoff_seconds))
    × (st2.consecutive_failures ≡ st.consecutive_failures + 1)
    × (st2.cooldown_until ≡ none)
    × (a.component_id ≡ "pty:work")
    × (a.status ≡ RecoveryAttemptStatus.scheduled)
    × (a.scheduled_for ≡ st2.next_recovery_at)
    × (a.attempt_number ≡ last_attempt_number recent + 1)
handle_failure_plans_example =
    handle_failure_plans [] pty_policy noon crash_failure empty_store known_policy crash-IsRetryable

abbrev lost_case : Failure
lost_case = record crash_failure {
  component = record { component_id = "case:1"; kind = case_file; display_name = "Case 1" };
}

handle_failure_raises_example :
    (handle_failure [] noon lost_case broken_store
      ≡ key_error case_file (fail_pending noon lost_case broken_store))
    × ((fail_pending noon lost_case broken_store).states ≡ broken_store.states)
    × ((fail_pending noon lost_case broken_store).incidents ≡ broken_store.incidents)
handle_failure_raises_example =
    handle_failure_raises [] noon lost_case broken_store (inr (inr refl))

abbrev docker_policy : RecoveryPolicy
docker_policy = record {
  component_kind = docker_runtime;
  max_attempts = 1;
  retry_window_seconds = 300;
  base_backoff_seconds = 1;
  max_backoff_seconds = 1;
  cooldown_seconds = 60;
  quarantine_after_exhaustion = false;
  non_recoverable_markers = [];
}

abbrev cold : ComponentHealthState
cold = record broken {
  component_id = "docker";
  component_kind = docker_runtime;
  status = HealthStatus.failed;
  cooldown_until = some (noon + seconds 30);
  quarantined = false;
  quarantine_reason = none;
}

abbrev cold_store : HealthStore
cold_store = record broken_store { states = ("docker", cold) ∷ [] }

abbrev docker_failure : Failure
docker_failure = record crash_failure {
  component = record { component_id = "docker"; kind = docker_runtime; display_name = "Docker" };
  reason = "daemon is down";
}

known_docker : policy_for [] docker_runtime ≡ some docker_policy
unfolding policy_for get_policy default_policies ComponentKind-discrete
known_docker = refl

handle_failure_uncounted_example :
    (left_by (handle_failure [] noon docker_failure cold_store)).states ≡ cold_store.states
unfolding is_non_recoverable is_quarantined active_cooldown failing_state state_or_new stored_state
    lookup
handle_failure_uncounted_example =
    handle_failure_uncounted [] docker_policy noon docker_failure cold_store known_docker refl refl
      refl refl

-- A tunnel whose recovery is due, and a manager that reconnects it
abbrev tunnel : ComponentHealthState
tunnel = record cold {
  component_id = "ssh-tunnel:db";
  component_kind = ssh_tunnel;
  status = HealthStatus.recovering;
  next_recovery_at = some noon;
  cooldown_until = none;
}

abbrev reconnect : RecoveryAttempt
reconnect = record {
  id = "rcv-1";
  incident_id = "inc-1";
  component_id = "ssh-tunnel:db";
  attempt_number = 1;
  status = RecoveryAttemptStatus.scheduled;
  trigger = "automatic";
  action = "recover:ssh_tunnel";
  backoff_ms = 2000;
  scheduled_for = some noon;
  started_at = none;
  finished_at = none;
  error_message = none;
}

abbrev tunnel_store : HealthStore
tunnel_store = record empty_store {
  states = ("ssh-tunnel:db", tunnel) ∷ [];
  attempts = ("rcv-1", reconnect) ∷ [];
}

abbrev reconnecting : Managers
reconnecting = record managers { reconnect_tunnel = λ st. tunnel_up " db" }

tunnel-IsWithinBudget :
    IsWithinBudget (tunnel_ref "db").component_id pty_policy noon tunnel_store.attempts
unfolding lookup tunnel_ref is_in_window attempt_time
tunnel-IsWithinBudget = record {
  table = (refl, refl, tt);
  alone = omega arith;
  within = omega arith;
}

run_recovery-IsHealed_example :
    IsHealed "ssh-tunnel:db" (left_by (run_recovery [] reconnecting noon tunnel tunnel_store))
unfolding latest_pending_for_component sort place tunnel_ref strip
run_recovery-IsHealed_example =
    run_recovery-IsHealed [] pty_policy reconnecting noon tunnel reconnect " db" tunnel_store
      (refl, tt) tunnel-IsWithinBudget refl refl refl refl refl

-- The tunnel with failures behind it and in quarantine, and an attempt that still waits
abbrev broken_tunnel : ComponentHealthState
broken_tunnel = record tunnel {
  status = HealthStatus.quarantined;
  quarantined = true;
  quarantine_reason = some "Component is already quarantined.";
  consecutive_failures = 4;
  exhaustion_count = 2;
}

abbrev broken_tunnel_store : HealthStore
broken_tunnel_store = record tunnel_store { states = ("ssh-tunnel:db", broken_tunnel) ∷ [] }

report_healthy_settles_example :
    IsSettled "ssh-tunnel:db" 7 2 (report_healthy noon 7 (tunnel_ref "db") broken_tunnel_store)
unfolding tunnel_ref lookup stored_state
report_healthy_settles_example =
    report_healthy_settles pty_policy noon 7 (tunnel_ref "db") broken_tunnel_store (refl, tt)
      tunnel-IsWithinBudget
