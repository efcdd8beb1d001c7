-- ===== src/Healing/Runs.antt =====
-- src/cockpit/ops/services/self_healing_service.py: what holds between the tables before and after a recovery,
-- if it holds so for the calls that a recovery is made of.
use cockpit_cli.Prelude.{
  Bool, List, Option, String, [], false, if◌then◌else◌, nat_eq, none, refl, some, string_eq, true,
  ℕ, ◌∷◌, ◌≡◌,
}
use cockpit_cli.Enums.{
  ComponentKind, background_task, component_kind_eq, datasource_watch, docker_container_watch,
  event_class_eq, high, incident_status_eq, plugin_host, pty_session, severity_eq, ssh_tunnel,
  target_risk_eq, web_admin,
}
use cockpit_cli.Recovery.{ComponentHealthState, RecoveryAttempt}
use cockpit_cli.Healing.Data.{
  Failure, HealthOutcome, HealthStore, HostRestart, MadeIds, Managers, RuntimeEvent, SessionRestart,
  TaskRestart, TaskSnapshot, TunnelRestart, WatchProbe, completed, host_raised, host_restarted,
  host_unavailable, key_error, left_by, probed, restart_raised, session_raised, session_restarted,
  task_raised, task_restarted, tunnel_raised, tunnel_up, watch_unavailable,
}
use cockpit_cli.Healing.Store.{latest_pending_for_component, list_due_recoveries, log, save_attempt}
use cockpit_cli.Healing.Failures.{failed_with}
use cockpit_cli.Healing.Settle.{handle_failure}
use cockpit_cli.Healing.Reports.{
  mark_component_healthy, observe_task_snapshot, observe_tunnel_snapshot, on_event, succeed_attempt,
  succeeded_at,
}
use cockpit_cli.Healing.Recoveries.{
  RecoveryPolicies, fail_run, finish_probe, observe_restarted, on_events, probe_result, recover,
  run_due_recoveries, run_failure, run_pending, run_plugin_host_recovery, run_pty_recovery,
  run_recoveries, run_recovery, run_task_recovery, run_tunnel_recovery, run_watch_recovery,
  running_at, start_attempt, task_severity, then_store,
}

-- A relation between tables that every call of a recovery keeps to, also a save of an attempt, which
-- leaves the states alone.
pub record IsKeptBy (policies : RecoveryPolicies) (now : ℕ) (R : HealthStore → HealthStore → Type 0)
    : Type 0 where
  pub follows : (s s2 s3 : HealthStore) → R s s2 → R s2 s3 → R s s3
  pub same_states : (s s2 : HealthStore) → s2.states ≡ s.states → R s s2
  pub event :
      (made : MadeIds) (e : RuntimeEvent) (s : HealthStore)
      → R s (left_by (on_event policies now made e s))
  pub failed_again :
      (f : Failure) (s : HealthStore) → R s (left_by (handle_failure policies now f s))
  pub healthy_again :
      (heartbeat_at : ℕ) (st : ComponentHealthState) (s : HealthStore)
      → R s (mark_component_healthy now heartbeat_at st s)
  pub task : (t : TaskSnapshot) (s : HealthStore) → R s (observe_task_snapshot now t s)
  pub tunnel :
      (profile_id : String) (alive : Bool) (s : HealthStore)
      → R s (observe_tunnel_snapshot now profile_id alive s)

module _ (policies : RecoveryPolicies) (now : ℕ) (R : HealthStore → HealthStore → Type 0)
    (kept : IsKeptBy policies now R) where
  open kept use {follows, same_states, event, failed_again, healthy_again, task, tunnel}

  then_store-kept :
      (s : HealthStore) (o : HealthOutcome) (next : HealthStore → HealthOutcome)
      → R s (left_by o)
      → ((s2 : HealthStore) → R s2 (left_by (next s2)))
      → R s (left_by (then_store o next))
  then_store-kept s (completed s2) next r go = follows s s2 (left_by (next s2)) r (go s2)
  then_store-kept s (key_error kind s2) next r go = r
  then_store-kept s (restart_raised error s2) next r go = r

  on_events-kept :
      (events : List (MadeIds × RuntimeEvent)) (s : HealthStore)
      → R s (left_by (on_events policies now events s))
  unfolding on_events
  on_events-kept [] s = same_states s s refl
  on_events-kept ((made, e) ∷ rest) s =
      then_store-kept s (on_event policies now made e s) (on_events policies now rest)
        (event made e s) (on_events-kept rest)

  save_attempt-kept : (a : RecoveryAttempt) (s : HealthStore) → R s (save_attempt a s)
  unfolding save_attempt
  save_attempt-kept a s = same_states s (save_attempt a s) refl

  fail_run-kept :
      (f : Failure) (a : RecoveryAttempt) (s : HealthStore)
      → R s (left_by (fail_run policies now f a s))
  unfolding fail_run
  fail_run-kept f a s =
      let s2 = save_attempt (failed_with now f.reason a) s in
      follows s s2 (left_by (handle_failure policies now f s2))
        (save_attempt-kept (failed_with now f.reason a) s) (failed_again f s2)

  module _ (m : Managers) (st : ComponentHealthState) (a : RecoveryAttempt) (s : HealthStore) where
    if-succeed-kept :
        (b : Bool) (s2 : HealthStore)
        → R s2 (if b then succeed_attempt now st.component_id s2 (some a) else s2)
    unfolding succeed_attempt log save_attempt
    if-succeed-kept true s2 = same_states s2 (succeed_attempt now st.component_id s2 (some a)) refl
    if-succeed-kept false s2 = same_states s2 s2 refl

    pty-kept : (r : SessionRestart) → R s (left_by (run_pty_recovery policies now st a r s))
    unfolding run_pty_recovery
    pty-kept (session_raised events error) =
        then_store-kept s (on_events policies now events s) (λ s2. restart_raised error s2)
          (on_events-kept events s) (λ s2. same_states s2 s2 refl)
    pty-kept (session_restarted events has_session) =
        then_store-kept s (on_events policies now events s)
          (λ s2.
            completed (if has_session then succeed_attempt now st.component_id s2 (some a) else s2))
          (on_events-kept events s) (if-succeed-kept has_session)

    -- The attempt is saved as succeeded, and then the component is looked at.
    succeeded-kept : (s3 : HealthStore) → R (save_attempt (succeeded_at now a) s) s3 → R s s3
    succeeded-kept s3 =
        follows s (save_attempt (succeeded_at now a) s) s3
          (save_attempt-kept (succeeded_at now a) s)

    tunnel-kept : (r : TunnelRestart) → R s (left_by (run_tunnel_recovery policies m now st a r s))
    unfolding run_tunnel_recovery
    tunnel-kept (tunnel_raised error) = fail_run-kept (run_failure m st ssh_tunnel high error) a s
    tunnel-kept (tunnel_up profile_id) =
        let s2 = save_attempt (succeeded_at now a) s in
        succeeded-kept (observe_tunnel_snapshot now profile_id true s2) (tunnel profile_id true s2)

    observe_restarted-kept :
        (t : Option TaskSnapshot) (s2 : HealthStore) → R s2 (observe_restarted now t s2)
    unfolding observe_restarted
    observe_restarted-kept none s2 = same_states s2 s2 refl
    observe_restarted-kept (some t) s2 = task t s2

    task-kept : (r : TaskRestart) → R s (left_by (run_task_recovery policies m now st a r s))
    unfolding run_task_recovery
    task-kept (task_raised error) =
        fail_run-kept (run_failure m st st.component_kind (task_severity st.component_kind) error) a
          s
    task-kept (task_restarted t) =
        let s2 = save_attempt (succeeded_at now a) s in
        succeeded-kept (observe_restarted now t s2) (observe_restarted-kept t s2)

    host-kept : (r : HostRestart) → R s (left_by (run_plugin_host_recovery policies m now st a r s))
    unfolding run_plugin_host_recovery
    host-kept host_unavailable =
        save_attempt-kept (failed_with now "Plugin host recovery is unavailable." a) s
    host-kept (host_raised error) = fail_run-kept (run_failure m st plugin_host high error) a s
    host-kept host_restarted =
        let s2 = save_attempt (succeeded_at now a) s in
        succeeded-kept (mark_component_healthy now now st s2) (healthy_again now st s2)

    finish_probe-kept :
        (error : Option String) (o : HealthOutcome)
        → R s (left_by o)
        → R s (finish_probe m now a error o)
    unfolding finish_probe
    finish_probe-kept error (completed s2) r =
        follows s s2 (save_attempt (probe_result now a error) s2) r
          (save_attempt-kept (probe_result now a error) s2)
    finish_probe-kept error (key_error kind s2) r =
        let a2 = failed_with now (m.key_error_text kind) a in
        follows s s2 (save_attempt a2 s2) r (save_attempt-kept a2 s2)
    finish_probe-kept error (restart_raised text s2) r =
        let a2 = failed_with now text a in
        follows s s2 (save_attempt a2 s2) r (save_attempt-kept a2 s2)

    watch-kept : (r : WatchProbe) → R s (left_by (run_watch_recovery policies m now a r s))
    unfolding run_watch_recovery
    watch-kept watch_unavailable =
        save_attempt-kept (failed_with now "Watch recovery is unavailable." a) s
    watch-kept (probed events error) =
        finish_probe-kept error (on_events policies now events s) (on_events-kept events s)

    recover-kept : (kind : ComponentKind) → R s (left_by (recover policies m now st a kind s))
    unfolding recover
    recover-kept pty_session = pty-kept (m.restart_session st)
    recover-kept ssh_tunnel = tunnel-kept (m.reconnect_tunnel st)
    recover-kept background_task = task-kept (m.restart_task st)
    recover-kept web_admin = task-kept (m.restart_task st)
    recover-kept plugin_host = host-kept (m.restart_host st)
    recover-kept datasource_watch = watch-kept (m.probe_watch st)
    recover-kept docker_container_watch = watch-kept (m.probe_watch st)
    recover-kept _ = same_states s s refl

  module _ (m : Managers) where
    run_pending-kept :
        (st : ComponentHealthState) (s : HealthStore) (o : Option RecoveryAttempt)
        → R s (left_by (run_pending policies m now st s o))
    unfolding run_pending start_attempt log save_attempt
    run_pending-kept st s none = same_states s s refl
    run_pending-kept st s (some a) =
        let s2 = start_attempt now st.component_id a s in
        follows s s2 (left_by (recover policies m now st (running_at now a) st.component_kind s2))
          (same_states s s2 refl) (recover-kept m st (running_at now a) s2 st.component_kind)

    pub run_recovery-kept :
        (st : ComponentHealthState) (s : HealthStore)
        → R s (left_by (run_recovery policies m now st s))
    unfolding run_recovery
    run_recovery-kept st s = run_pending-kept st s (latest_pending_for_component st.component_id s)

    run_recoveries-kept :
        (due : List ComponentHealthState) (s : HealthStore)
        → R s (left_by (run_recoveries policies m now due s))
    unfolding run_recoveries
    run_recoveries-kept [] s = same_states s s refl
    run_recoveries-kept (st ∷ rest) s =
        then_store-kept s (run_recovery policies m now st s) (run_recoveries policies m now rest)
          (run_recovery-kept st s) (run_recoveries-kept rest)

    pub run_due_recoveries-kept :
        (s : HealthStore) → R s (left_by (run_due_recoveries policies m now s))
    unfolding run_due_recoveries
    run_due_recoveries-kept s = run_recoveries-kept (list_due_recoveries now s) s
