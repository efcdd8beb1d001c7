-- ===== src/Healing/Budget/Ends.antt =====
-- src/cockpit/ops/services/self_healing_service.py: what holds of the attempts, if it survives that an attempt
-- under way ends, holds after healthy reports and events.
use Prim.Native.String.{◌++◌ as str_append}
use cockpit_cli.Prelude.{
  Bool, Bool-cases, Dict, HoldsOf, Option, String, false, inl, inr, insert, lookup, nat_eq, none,
  not, refl, some, string_eq, strip, true, ℕ, ◌==◌, ◌||◌, ◌∙◌, ◌≡◌,
}
use cockpit_cli.Enums.{
  HealthStatus, IncidentStatus, component_kind_eq, event_class_eq, incident_status_eq, severity_eq,
  target_risk_eq,
}
use cockpit_cli.Recovery.{ComponentHealthState, RecoveryAttempt}
use cockpit_cli.Escalation.{IncidentRecord}
use cockpit_cli.Healing.Data.{
  ComponentRef, Failure, HealthStore, MadeIds, RuntimeEvent, TaskSnapshot, component_watch_observed,
  left_by, pty_started, pty_startup_failed, task_exited_unexpectedly, task_heartbeat_missed,
  terminal_exited, tunnel_failure_detected,
}
use cockpit_cli.Healing.Budget.Queries.{
  IsPendingIn, attempts-record_transition, attempts-set_status, latest_pending-HoldsOf,
  pending_of-parts,
}
use cockpit_cli.Healing.Store.{
  get_open_for_component, is_attempt_pending, latest_pending_for_component, log, save_attempt,
  save_state, stored_state,
}
use cockpit_cli.Healing.Failures.{
  fail_attempt, fail_pending, failed_with, record_transition, state_or_new,
}
use cockpit_cli.Healing.Settle.{handle_failure}
use cockpit_cli.Healing.Reports.{
  expected_exit, failure_of, healthy_state, heartbeat_of, mark_component_healthy,
  observe_task_snapshot, observe_tunnel_snapshot, on_event, on_failure, on_other, pty_ref,
  report_healthy, resolve_incident, succeed_attempt, succeeded_at, task_ref, tunnel_ref, watch_ref,
}
use cockpit_cli.Healing.Recoveries.{RecoveryPolicies}
use cockpit_cli.Healing.Attempts.{IsTable}

-- The attempts are a table, and what holds of them survives that an attempt under way ends now.
pub record IsKeptByEnds (now : ℕ) (P : Dict String RecoveryAttempt → Type 0) : Type 0 where
  pub table : (d : Dict String RecoveryAttempt) → P d → IsTable d
  pub ended :
      (a a2 : RecoveryAttempt) (d : Dict String RecoveryAttempt)
      → lookup a2.id d ≡ some a
      → is_attempt_pending a.status ≡ true
      → a2.component_id ≡ a.component_id
      → is_attempt_pending a2.status ≡ false
      → a2.finished_at ≡ some now
      → P d
      → P (insert a2.id a2 d)

attempts-resolve_incident :
    (now : ℕ) (s : HealthStore) (o : Option IncidentRecord)
    → (resolve_incident now s o).attempts ≡ s.attempts
unfolding resolve_incident
attempts-resolve_incident now s none = refl
attempts-resolve_incident now s (some i) = attempts-set_status now IncidentStatus.resolved i s

-- The tables of a healthy report, up to its last part
abbrev pub reported : ℕ → ℕ → ComponentHealthState → HealthStore → HealthStore
reported now heartbeat_at st s =
    let s2 =
      record_transition st.status (healthy_state heartbeat_at st)
        (save_state (healthy_state heartbeat_at st) s) in
    resolve_incident now s2 (get_open_for_component st.component_id s2)

pub attempts-reported :
    (now heartbeat_at : ℕ) (st : ComponentHealthState) (s : HealthStore)
    → (reported now heartbeat_at st s).attempts ≡ s.attempts
unfolding save_state
attempts-reported now heartbeat_at st s =
    let h = healthy_state heartbeat_at st in
    let s2 = record_transition st.status h (save_state h s) in
    attempts-resolve_incident now s2 (get_open_for_component st.component_id s2)
    ∙ attempts-record_transition st.status h (save_state h s)

-- The failure that an event is made into has the event's ids, and its attempt has not been failed before.
pub failure_of-HoldsOf :
    (made : MadeIds) (event : RuntimeEvent)
    → HoldsOf (λ f. (f.made ≡ made) × (f.pending_already_failed ≡ false)) (failure_of made event)
unfolding failure_of
failure_of-HoldsOf made (pty_started panel_id) = tt
failure_of-HoldsOf made (pty_startup_failed panel_id reason) = (refl, refl)
failure_of-HoldsOf made (terminal_exited panel_id true exit_code) = tt
failure_of-HoldsOf made (terminal_exited panel_id false exit_code) = (refl, refl)
failure_of-HoldsOf made (task_heartbeat_missed task_name age m) = (refl, refl)
failure_of-HoldsOf made (task_exited_unexpectedly task_name error m) = (refl, refl)
failure_of-HoldsOf made (tunnel_failure_detected profile_id reason) = (refl, refl)
failure_of-HoldsOf made (component_watch_observed id kind true summary name) = tt
failure_of-HoldsOf made (component_watch_observed id kind false summary name) = (refl, refl)

module _ (now : ℕ) (P : Dict String RecoveryAttempt → Type 0) (kept : IsKeptByEnds now P) where
  open kept use {table, ended}

  same-kept : (s s2 : HealthStore) → s2.attempts ≡ s.attempts → P s.attempts → P s2.attempts
  same-kept s s2 e h = rw e h

  fail_attempt-kept :
      (f : Failure) (s : HealthStore) (o : Option RecoveryAttempt)
      → HoldsOf (IsPendingIn f.component.component_id s.attempts) o
      → P s.attempts
      → P (fail_attempt now f s o).attempts
  unfolding fail_attempt failed_with log save_attempt
  fail_attempt-kept f s none found h = h
  fail_attempt-kept f s (some a) (stored, p) h =
      ended a (failed_with now f.reason a) s.attempts stored
        (pending_of-parts f.component.component_id a p).1 refl refl refl h

  pub fail_pending-kept :
      (f : Failure) (s : HealthStore) → P s.attempts → P (fail_pending now f s).attempts
  unfolding fail_pending
  fail_pending-kept f s h = elim (Bool-cases f.pending_already_failed) [
    | inl e ↦ rw e h
    | inr e ↦ rw e (
        fail_attempt-kept f s (latest_pending_for_component f.component.component_id s)
          (latest_pending-HoldsOf f.component.component_id s (table s.attempts h)) h)
  ]

  succeed_attempt-kept :
      (id : String) (s : HealthStore) (o : Option RecoveryAttempt)
      → HoldsOf (IsPendingIn id s.attempts) o
      → P s.attempts
      → P (succeed_attempt now id s o).attempts
  unfolding succeed_attempt succeeded_at log save_attempt
  succeed_attempt-kept id s none found h = h
  succeed_attempt-kept id s (some a) (stored, p) h =
      ended a (succeeded_at now a) s.attempts stored (pending_of-parts id a p).1 refl refl refl h

  pub mark_component_healthy-kept :
      (heartbeat_at : ℕ) (st : ComponentHealthState) (s : HealthStore)
      → P s.attempts
      → P (mark_component_healthy now heartbeat_at st s).attempts
  unfolding mark_component_healthy
  mark_component_healthy-kept heartbeat_at st s h =
      let s3 = reported now heartbeat_at st s in
      let h3 = same-kept s s3 (attempts-reported now heartbeat_at st s) h in
      succeed_attempt-kept st.component_id s3 (latest_pending_for_component st.component_id s3)
        (latest_pending-HoldsOf st.component_id s3 (table s3.attempts h3)) h3

  pub report_healthy-kept :
      (heartbeat_at : ℕ) (r : ComponentRef) (s : HealthStore)
      → P s.attempts
      → P (report_healthy now heartbeat_at r s).attempts
  unfolding report_healthy
  report_healthy-kept heartbeat_at r s h =
      mark_component_healthy-kept heartbeat_at
        (state_or_new HealthStatus.healthy r (stored_state r.component_id s)) s h

  pub observe_task_snapshot-kept :
      (t : TaskSnapshot) (s : HealthStore)
      → P s.attempts
      → P (observe_task_snapshot now t s).attempts
  unfolding observe_task_snapshot
  observe_task_snapshot-kept t s h = elim (Bool-cases (t.stale || not t.alive)) [
    | inl e ↦ rw e h
    | inr e ↦ rw e (report_healthy-kept (heartbeat_of t) (task_ref t.name t.metadata) s h)
  ]

  pub observe_tunnel_snapshot-kept :
      (profile_id : String) (alive : Bool) (s : HealthStore)
      → P s.attempts
      → P (observe_tunnel_snapshot now profile_id alive s).attempts
  unfolding observe_tunnel_snapshot
  observe_tunnel_snapshot-kept profile_id alive s h =
      elim (Bool-cases (strip profile_id == "" || not alive)) [
        | inl e ↦ rw e h
        | inr e ↦ rw e (report_healthy-kept now (tunnel_ref (strip profile_id)) s h)
      ]

  expected_exit-kept :
      (s : HealthStore) (o : Option ComponentHealthState)
      → P s.attempts
      → P (expected_exit s o).attempts
  unfolding expected_exit save_state
  expected_exit-kept s none h = h
  expected_exit-kept s (some st) h = h

  on_other-kept :
      (event : RuntimeEvent) (s : HealthStore) → P s.attempts → P (on_other now event s).attempts
  unfolding on_other
  on_other-kept (pty_started panel_id) s h = report_healthy-kept now (pty_ref panel_id) s h
  on_other-kept (terminal_exited panel_id expected exit_code) s h =
      expected_exit-kept s (stored_state (str_append "pty:" panel_id) s) h
  on_other-kept (component_watch_observed id kind is_success summary name) s h =
      report_healthy-kept now (watch_ref id kind name) s h
  on_other-kept _ s h = h

  -- The same of an event, if its failure keeps to it.
  module _ (policies : RecoveryPolicies) (Q : Failure → Type 0)
      (fails_well : (f : Failure) (s : HealthStore)
        → Q f
        → P s.attempts
        → P (left_by (handle_failure policies now f s)).attempts) where
    on_failure-kept :
        (event : RuntimeEvent) (s : HealthStore) (f : Option Failure)
        → HoldsOf Q f
        → P s.attempts
        → P (left_by (on_failure policies now event s f)).attempts
    unfolding on_failure
    on_failure-kept event s none q h = on_other-kept event s h
    on_failure-kept event s (some f) q h = fails_well f s q h

    pub on_event-kept :
        (made : MadeIds) (event : RuntimeEvent) (s : HealthStore)
        → HoldsOf Q (failure_of made event)
        → P s.attempts
        → P (left_by (on_event policies now made event s)).attempts
    unfolding on_event
    on_event-kept made event s q h = on_failure-kept event s (failure_of made event) q h
