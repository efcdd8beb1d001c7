-- ===== src/Healing/Budget/Runs.antt =====
-- src/cockpit/ops/services/self_healing_service.py: a recovery, with whatever its manager does, keeps to
-- the budget of attempts.
use cockpit_cli.Prelude.{
  All, Bool, Bool-cases, HoldsOf, List, Option, String, [], ap, beq_refl, false, if◌then◌else◌, inl,
  inr, lookup, nat_eq, none, refl, some, string_eq, sym, true, ℕ, ◌∙◌, ◌∷◌, ◌≡◌, ◌≢◌,
}
use cockpit_cli.Enums.{
  ComponentKind, background_task, component_kind_eq, datasource_watch, docker_container_watch,
  event_class_eq, high, incident_status_eq, plugin_host, pty_session, severity_eq, ssh_tunnel,
  target_risk_eq, web_admin,
}
use cockpit_cli.Recovery.{ComponentHealthState, RecoveryAttempt, RecoveryPolicy, policy_for}
use cockpit_cli.Healing.Data.{
  Failure, HealthOutcome, HealthStore, HostRestart, MadeIds, Managers, RuntimeEvent, SessionRestart,
  TaskRestart, TaskSnapshot, TunnelRestart, WatchProbe, completed, host_raised, host_restarted,
  host_unavailable, key_error, left_by, probed, restart_raised, session_raised, session_restarted,
  task_raised, task_restarted, tunnel_raised, tunnel_up, watch_unavailable,
}
use cockpit_cli.Healing.Store.{is_attempt_pending, log, save_attempt}
use cockpit_cli.Healing.Failures.{failed_with}
use cockpit_cli.Healing.Reports.{failure_of, on_event, succeed_attempt, succeeded_at}
use cockpit_cli.Healing.Recoveries.{
  RecoveryPolicies, fail_run, finish_probe, observe_restarted, on_events, recover, run_failure,
  run_plugin_host_recovery, run_pty_recovery, run_task_recovery, run_tunnel_recovery,
  run_watch_recovery, task_severity, then_store,
}
use cockpit_cli.Healing.Budget.Failures.{Within, handle_failure-Within}
use cockpit_cli.Healing.Budget.Reports.{
  IsKnown, mark_component_healthy-Within, observe_task_snapshot-Within,
  observe_tunnel_snapshot-Within, on_event-Within,
}
use cockpit_cli.Healing.Budget.Tracking.{Tracks, on_event-Tracks}
use cockpit_cli.Healing.Budget.Saves.{finish-IsWithinBudget, finish-none, overwrite-IsWithinBudget}

-- What a recovery of `a` may count on of an event: `make_id` gives no id of an attempt that is stored,
-- and a failure of the component comes with a kind that has its policy.
abbrev pub IsProper :
    RecoveryPolicies → String → RecoveryPolicy → String → MadeIds × RuntimeEvent → Type 0
IsProper policies c policy id (made, event) =
    (id ≢ made.made_attempt) × HoldsOf (IsKnown policies c policy) (failure_of made event)

abbrev pub probe_events : WatchProbe → List (MadeIds × RuntimeEvent)
probe_events watch_unavailable = []
probe_events (probed events error) = events

abbrev pub session_events : SessionRestart → List (MadeIds × RuntimeEvent)
session_events (session_restarted events has_session) = events
session_events (session_raised events error) = events

-- The same of the managers, for the recovery of a component: its own kind has the policy too.
pub record IsProperRun (policies : RecoveryPolicies) (c : String) (policy : RecoveryPolicy)
    (m : Managers) (st : ComponentHealthState) (id : String) : Type 0 where
  pub own_kind : st.component_id ≡ c → policy_for policies st.component_kind ≡ some policy
  pub events_proper : All (IsProper policies c policy id) (session_events (m.restart_session st))
  pub watch_events : All (IsProper policies c policy id) (probe_events (m.probe_watch st))

module _ (c : String) (policy : RecoveryPolicy) (now : ℕ) (policies : RecoveryPolicies) where
  -- The attempt under way is saved as over, after what the events made of it.
  overwrite-Within :
      (a2 : RecoveryAttempt) (s : HealthStore)
      → is_attempt_pending a2.status ≡ false
      → Tracks policy now a2.id a2.component_id s
      → Within c policy now s
      → Within c policy now (save_attempt a2 s)
  unfolding save_attempt
  overwrite-Within a2 s over (x, found, (own, state)) h =
      elim (Bool-cases (is_attempt_pending x.status)) [
        | inl e ↦ finish-IsWithinBudget c policy now x a2 s.attempts found e (sym own) over h
        | inr e ↦
            overwrite-IsWithinBudget c policy now x a2 s.attempts found e
              (elim state [ inl p ↦ absurd (cc (e, p)) | inr w ↦ w ]) (sym own) over h
      ]

  abbrev IsInHand : RecoveryAttempt → HealthStore → Type 0
  IsInHand a s = Within c policy now s × Tracks policy now a.id a.component_id s

  then_store-Within :
      (P : HealthStore → Type 0) (o : HealthOutcome) (next : HealthStore → HealthOutcome)
      → P (left_by o)
      → ((s : HealthStore) → P s → Within c policy now s)
      → ((s : HealthStore) → P s → Within c policy now (left_by (next s)))
      → Within c policy now (left_by (then_store o next))
  then_store-Within P (completed s) next h out go = go s h
  then_store-Within P (key_error kind s) next h out go = out s h
  then_store-Within P (restart_raised error s) next h out go = out s h

  then_store-IsInHand :
      (a : RecoveryAttempt) (o : HealthOutcome) (next : HealthStore → HealthOutcome)
      → IsInHand a (left_by o)
      → ((s : HealthStore) → IsInHand a s → IsInHand a (left_by (next s)))
      → IsInHand a (left_by (then_store o next))
  then_store-IsInHand a (completed s) next h go = go s h
  then_store-IsInHand a (key_error kind s) next h go = h
  then_store-IsInHand a (restart_raised error s) next h go = h

  on_events-IsInHand :
      (a : RecoveryAttempt) (events : List (MadeIds × RuntimeEvent)) (s : HealthStore)
      → All (IsProper policies c policy a.id) events
      → IsInHand a s
      → IsInHand a (left_by (on_events policies now events s))
  unfolding on_events
  on_events-IsInHand a [] s k h = h
  on_events-IsInHand a ((made, event) ∷ rest) s ((new, known), ks) (h, t) =
      then_store-IsInHand a (on_event policies now made event s) (on_events policies now rest)
        (
          on_event-Within c policy now policies made event s known h,
          (on_event-Tracks policy now a.id a.component_id policies made event s new (h.table, t)).1,
        )
        (λ s2. on_events-IsInHand a rest s2 ks)

  module _ (m : Managers) (st : ComponentHealthState) (a : RecoveryAttempt) (s : HealthStore)
      (stored : lookup a.id s.attempts ≡ some a) (own : a.component_id ≡ st.component_id)
      (waits : is_attempt_pending a.status ≡ true) (h : Within c policy now s) where
    in_hand : IsInHand a s
    in_hand = (h, (a, stored, (refl, inl waits)))

    saved-Within :
        (a2 : RecoveryAttempt)
        → a2.id ≡ a.id
        → a2.component_id ≡ a.component_id
        → is_attempt_pending a2.status ≡ false
        → Within c policy now (save_attempt a2 s)
    unfolding save_attempt
    saved-Within a2 e same over =
        finish-IsWithinBudget c policy now a a2 s.attempts
          (ap (λ k. lookup k s.attempts) e ∙ stored) waits same over h

    fail_run-Within :
        (f : Failure)
        → f.component.component_id ≡ st.component_id
        → (f.component.component_id ≡ c → policy_for policies f.component.kind ≡ some policy)
        → Within c policy now (left_by (fail_run policies now f a s))
    unfolding fail_run failed_with save_attempt
    fail_run-Within f same known =
        handle_failure-Within c policy now policies f (save_attempt (failed_with now f.reason a) s)
          known
          (λ _. λ e.
            finish-none c policy now a (failed_with now f.reason a) s.attempts stored waits refl
              refl (rw (own ∙ (sym same ∙ e)) (beq_refl c)) h)
          (saved-Within (failed_with now f.reason a) refl refl refl)

    succeed-Within :
        (b : Bool) (s2 : HealthStore)
        → IsInHand a s2
        → Within c policy now (if b then succeed_attempt now st.component_id s2 (some a) else s2)
    unfolding succeed_attempt succeeded_at log
    succeed-Within true s2 (h2, t2) = overwrite-Within (succeeded_at now a) s2 refl t2 h2
    succeed-Within false s2 (h2, t2) = h2

    pty-Within :
        (r : SessionRestart)
        → All (IsProper policies c policy a.id) (session_events r)
        → Within c policy now (left_by (run_pty_recovery policies now st a r s))
    unfolding run_pty_recovery
    pty-Within (session_raised events error) k =
        then_store-Within (IsInHand a) (on_events policies now events s)
          (λ s2. restart_raised error s2) (on_events-IsInHand a events s k in_hand) (λ s2 hs. hs.0)
          (λ s2 hs. hs.0)
    pty-Within (session_restarted events has_session) k =
        then_store-Within (IsInHand a) (on_events policies now events s)
          (λ s2.
            completed (if has_session then succeed_attempt now st.component_id s2 (some a) else s2))
          (on_events-IsInHand a events s k in_hand) (λ s2 hs. hs.0) (succeed-Within has_session)

    tunnel-Within :
        (r : TunnelRestart)
        → (st.component_id ≡ c → policy_for policies ssh_tunnel ≡ some policy)
        → Within c policy now (left_by (run_tunnel_recovery policies m now st a r s))
    unfolding run_tunnel_recovery run_failure succeeded_at
    tunnel-Within (tunnel_raised error) known =
        fail_run-Within (run_failure m st ssh_tunnel high error) refl known
    tunnel-Within (tunnel_up profile_id) known =
        observe_tunnel_snapshot-Within c policy now profile_id true
          (save_attempt (succeeded_at now a) s) (saved-Within (succeeded_at now a) refl refl refl)

    observe_restarted-Within :
        (t : Option TaskSnapshot) (s2 : HealthStore)
        → Within c policy now s2
        → Within c policy now (observe_restarted now t s2)
    unfolding observe_restarted
    observe_restarted-Within none s2 h2 = h2
    observe_restarted-Within (some t) s2 h2 = observe_task_snapshot-Within c policy now t s2 h2

    task-Within :
        (r : TaskRestart)
        → (st.component_id ≡ c → policy_for policies st.component_kind ≡ some policy)
        → Within c policy now (left_by (run_task_recovery policies m now st a r s))
    unfolding run_task_recovery run_failure succeeded_at
    task-Within (task_raised error) known =
        fail_run-Within (run_failure m st st.component_kind (task_severity st.component_kind) error)
          refl known
    task-Within (task_restarted t) known =
        observe_restarted-Within t (save_attempt (succeeded_at now a) s)
          (saved-Within (succeeded_at now a) refl refl refl)

    host-Within :
        (r : HostRestart)
        → (st.component_id ≡ c → policy_for policies plugin_host ≡ some policy)
        → Within c policy now (left_by (run_plugin_host_recovery policies m now st a r s))
    unfolding run_plugin_host_recovery run_failure succeeded_at failed_with
    host-Within host_unavailable known =
        saved-Within (failed_with now "Plugin host recovery is unavailable." a) refl refl refl
    host-Within (host_raised error) known =
        fail_run-Within (run_failure m st plugin_host high error) refl known
    host-Within host_restarted known =
        mark_component_healthy-Within c policy now now st (save_attempt (succeeded_at now a) s)
          (saved-Within (succeeded_at now a) refl refl refl)

    finish_probe-Within :
        (error : Option String) (o : HealthOutcome)
        → IsInHand a (left_by o)
        → Within c policy now (finish_probe m now a error o)
    unfolding finish_probe succeeded_at failed_with
    finish_probe-Within none (completed s2) (h2, t2) =
        overwrite-Within (succeeded_at now a) s2 refl t2 h2
    finish_probe-Within (some text) (completed s2) (h2, t2) =
        overwrite-Within (failed_with now text a) s2 refl t2 h2
    finish_probe-Within error (key_error kind s2) (h2, t2) =
        overwrite-Within (failed_with now (m.key_error_text kind) a) s2 refl t2 h2
    finish_probe-Within error (restart_raised text s2) (h2, t2) =
        overwrite-Within (failed_with now text a) s2 refl t2 h2

    watch-Within :
        (r : WatchProbe)
        → All (IsProper policies c policy a.id) (probe_events r)
        → Within c policy now (left_by (run_watch_recovery policies m now a r s))
    unfolding run_watch_recovery failed_with
    watch-Within watch_unavailable k =
        saved-Within (failed_with now "Watch recovery is unavailable." a) refl refl refl
    watch-Within (probed events error) k =
        finish_probe-Within error (on_events policies now events s)
          (on_events-IsInHand a events s k in_hand)

    pub recover-Within :
        (kind : ComponentKind)
        → st.component_kind ≡ kind
        → IsProperRun policies c policy m st a.id
        → Within c policy now (left_by (recover policies m now st a kind s))
    unfolding recover
    recover-Within pty_session e r = pty-Within (m.restart_session st) r.events_proper
    recover-Within ssh_tunnel e r = tunnel-Within (m.reconnect_tunnel st) (rw (sym e) r.own_kind)
    recover-Within background_task e r = task-Within (m.restart_task st) r.own_kind
    recover-Within web_admin e r = task-Within (m.restart_task st) r.own_kind
    recover-Within plugin_host e r = host-Within (m.restart_host st) (rw (sym e) r.own_kind)
    recover-Within datasource_watch e r = watch-Within (m.probe_watch st) r.watch_events
    recover-Within docker_container_watch e r = watch-Within (m.probe_watch st) r.watch_events
    recover-Within _ e r = h
