-- ===== src/Healing/Refines/Reports.antt =====
-- src/cockpit/ops/services/self_healing_service.py: healthy reports, events and recoveries move a component
-- as its specification has it.
use Prim.Native.String.{◌++◌ as str_append}
use mathlib.Core.Path.{transport}
use cockpit_cli.Prelude.{
  Bool, Bool-cases, HoldsOf, Option, String, ap, false, inl, inr, nat_eq, none, not, refl, some,
  string_eq, strip, sym, true, ℕ, ◌&&◌, ◌==◌, ◌∙◌, ◌≡◌,
}
use cockpit_cli.Enums.{
  HealthStatus, component_kind_eq, event_class_eq, high, incident_status_eq, severity_eq,
  target_risk_eq, warning,
}
use cockpit_cli.Recovery.{ComponentHealthState}
use cockpit_cli.Healing.Data.{
  ComponentRef, HealthStore, MadeIds, RuntimeEvent, TaskSnapshot, component_watch_observed, left_by,
  pty_started, pty_startup_failed, task_exited_unexpectedly, task_heartbeat_missed, terminal_exited,
  tunnel_failure_detected,
}
use cockpit_cli.Healing.Store.{
  get_open_for_component, latest_pending_for_component, save_state, stored_state,
}
use cockpit_cli.Healing.Failures.{record_transition, state_or_new}
use cockpit_cli.Healing.Reports.{
  exited_state, expected_exit, failure_of, filled_or, healthy_state, heartbeat_of,
  mark_component_healthy, observe_task_snapshot, observe_tunnel_snapshot, observed_failure,
  on_event, on_failure, on_other, pty_ref, report_healthy, resolve_incident, task_ref, tunnel_ref,
  watch_ref, watch_severity,
}
use cockpit_cli.Healing.Recoveries.{RecoveryPolicies}
use cockpit_cli.Healing.Sound.{states-record_transition}
use cockpit_cli.Healing.Sound.Reports.{states-resolve_incident, states-succeed_attempt}
use cockpit_cli.Healing.Mode.{
  Cause, Concerns, Mode, Moves, exit_isolated, exit_resting, exit_unknown, exits_as_expected, fails,
  is_reset, is_retried, reports_healthy, turn_healthy,
}
use cockpit_cli.Healing.Refines.{
  Follows, IsKeyed, mode_found, mode_of, same-Follows, save_state-Follows, state_mode,
  state_mode-free, state_or_new-own, stay-Follows, stored_state-own,
}
use cockpit_cli.Healing.Refines.Failures.{handle_failure-Follows}

-- What an event is to the component that it is about
abbrev pub cause_of : RuntimeEvent → Cause
cause_of (pty_started panel_id) = reports_healthy
cause_of (terminal_exited panel_id true exit_code) = exits_as_expected
cause_of (component_watch_observed id kind true summary name) = reports_healthy
cause_of _ = fails

-- What a recovery can bring about
abbrev pub is_unattended : Cause → Bool
is_unattended is_reset = false
is_unattended is_retried = false
is_unattended _ = true

pub cause_of-unattended : (event : RuntimeEvent) → is_unattended (cause_of event) ≡ true
cause_of-unattended (pty_started panel_id) = refl
cause_of-unattended (pty_startup_failed panel_id reason) = refl
cause_of-unattended (terminal_exited panel_id true exit_code) = refl
cause_of-unattended (terminal_exited panel_id false exit_code) = refl
cause_of-unattended (task_heartbeat_missed task_name age m) = refl
cause_of-unattended (task_exited_unexpectedly task_name error m) = refl
cause_of-unattended (tunnel_failure_detected profile_id reason) = refl
cause_of-unattended (component_watch_observed id kind true summary name) = refl
cause_of-unattended (component_watch_observed id kind false summary name) = refl

-- The component that an event is about
abbrev pub subject_of : RuntimeEvent → String
subject_of (pty_started panel_id) = (pty_ref panel_id).component_id
subject_of (pty_startup_failed panel_id reason) = (pty_ref panel_id).component_id
subject_of (terminal_exited panel_id expected exit_code) = (pty_ref panel_id).component_id
subject_of (task_heartbeat_missed task_name age m) = (task_ref task_name m).component_id
subject_of (task_exited_unexpectedly task_name error m) = (task_ref task_name m).component_id
subject_of (tunnel_failure_detected profile_id reason) = (tunnel_ref profile_id).component_id
subject_of (component_watch_observed id kind well summary name) = id

-- A snapshot that is sound is a healthy report, and any other does nothing.
abbrev pub MovesIf : String → String → Bool → Mode → Mode → Type 0
MovesIf c id true m n = Concerns c id reports_healthy m n
MovesIf c id false m n = n ≡ m

abbrev pub IsSeen : String → String → Bool → HealthStore → HealthStore → Type 0
IsSeen c id sound s s2 = IsKeyed s2 × MovesIf c id sound (mode_of c s) (mode_of c s2)

module _ (c : String) (now : ℕ) where
  pub mark_component_healthy-Follows :
      (heartbeat_at : ℕ) (st : ComponentHealthState) (s : HealthStore)
      → IsKeyed s
      → Follows c st.component_id reports_healthy s (mark_component_healthy now heartbeat_at st s)
  unfolding mark_component_healthy healthy_state
  mark_component_healthy-Follows heartbeat_at st s h =
      let w = healthy_state heartbeat_at st in
      let s2 = record_transition st.status w (save_state w s) in
      let s3 = resolve_incident now s2 (get_open_for_component st.component_id s2) in
      same-Follows c st.component_id reports_healthy s (save_state w s)
        (mark_component_healthy now heartbeat_at st s)
        (states-succeed_attempt now st.component_id s3
            (latest_pending_for_component st.component_id s3)
          ∙ (states-resolve_incident now s2 (get_open_for_component st.component_id s2)
              ∙ states-record_transition st.status w (save_state w s)))
        (save_state-Follows c reports_healthy w s (λ _. turn_healthy (mode_of c s)) h)

  pub report_healthy-Follows :
      (heartbeat_at : ℕ) (r : ComponentRef) (s : HealthStore)
      → IsKeyed s
      → Follows c r.component_id reports_healthy s (report_healthy now heartbeat_at r s)
  unfolding report_healthy
  report_healthy-Follows heartbeat_at r s h =
      let st = state_or_new HealthStatus.healthy r (stored_state r.component_id s) in
      let own =
        state_or_new-own HealthStatus.healthy r (stored_state r.component_id s)
          (stored_state-own r.component_id s h) in
      transport
        (λ i. Follows c (own i) reports_healthy s (mark_component_healthy now heartbeat_at st s))
        (mark_component_healthy-Follows heartbeat_at st s h)

  pub observe_task_snapshot-Seen :
      (t : TaskSnapshot) (s : HealthStore)
      → IsKeyed s
      → IsSeen c
          (task_ref t.name t.metadata).component_id
          (not t.stale && t.alive)
          s
          (observe_task_snapshot now t s)
  unfolding observe_task_snapshot
  observe_task_snapshot-Seen t s h = elim (Bool-cases t.stale) [
    | inl e ↦ rw e (h, refl)
    | inr e ↦ rw e (elim (Bool-cases t.alive) [
      | inl a ↦ rw a (
          let f = report_healthy-Follows (heartbeat_of t) (task_ref t.name t.metadata) s h in
          (f.keyed, f.moved))
      | inr a ↦ rw a (h, refl)
    ])
  ]

  pub observe_tunnel_snapshot-Seen :
      (profile_id : String) (alive : Bool) (s : HealthStore)
      → IsKeyed s
      → IsSeen c
          (tunnel_ref (strip profile_id)).component_id
          (not (strip profile_id == "") && alive)
          s
          (observe_tunnel_snapshot now profile_id alive s)
  unfolding observe_tunnel_snapshot
  observe_tunnel_snapshot-Seen profile_id alive s h = elim (Bool-cases (strip profile_id == "")) [
    | inl e ↦ rw e (h, refl)
    | inr e ↦ rw e (elim (Bool-cases alive) [
      | inl a ↦ rw a (
          let f = report_healthy-Follows now (tunnel_ref (strip profile_id)) s h in
          (f.keyed, f.moved))
      | inr a ↦ rw a (h, refl)
    ])
  ]

  exit-Moves :
      (m : Mode) (st : ComponentHealthState)
      → m ≡ state_mode st
      → Moves exits_as_expected m (state_mode (exited_state st))
  unfolding exited_state
  exit-Moves m st e = elim (Bool-cases st.quarantined) [
    | inl q ↦ rw (e, q) exit_isolated
    | inr q ↦ rw q (exit_resting m (λ p. state_mode-free st q (sym e ∙ p)))
  ]

  expected_exit-Follows :
      (id : String) (s : HealthStore) (o : Option ComponentHealthState)
      → stored_state id s ≡ o
      → HoldsOf (λ st. st.component_id ≡ id) o
      → IsKeyed s
      → Follows c id exits_as_expected s (expected_exit s o)
  unfolding expected_exit
  expected_exit-Follows id s none found own h =
      stay-Follows c id exits_as_expected s
        (λ e. rw (ap (λ k. mode_of k s) (sym e) ∙ ap mode_found found) exit_unknown) h
  expected_exit-Follows id s (some st) found own h =
      transport (λ i. Follows c (own i) exits_as_expected s (save_state (exited_state st) s))
        (save_state-Follows c exits_as_expected (exited_state st) s
          (λ e.
            exit-Moves (mode_of c s) st (ap (λ k. mode_of k s) (sym e ∙ own) ∙ ap mode_found found))
          h)

  pub on_event-Follows :
      (policies : RecoveryPolicies) (made : MadeIds) (event : RuntimeEvent) (s : HealthStore)
      → IsKeyed s
      → Follows c
          (subject_of event)
          (cause_of event)
          s
          (left_by (on_event policies now made event s))
  unfolding on_event on_failure failure_of on_other
  on_event-Follows policies made (pty_started panel_id) s h =
      report_healthy-Follows now (pty_ref panel_id) s h
  on_event-Follows policies made (terminal_exited panel_id true exit_code) s h =
      let id = str_append "pty:" panel_id in
      expected_exit-Follows id s (stored_state id s) refl (stored_state-own id s h) h
  on_event-Follows policies made (component_watch_observed id kind true summary name) s h =
      report_healthy-Follows now (watch_ref id kind name) s h
  on_event-Follows policies made (pty_startup_failed panel_id reason) s h =
      handle_failure-Follows c now policies (observed_failure (pty_ref panel_id) reason high made) s
        h
  on_event-Follows policies made (terminal_exited panel_id false exit_code) s h =
      handle_failure-Follows c now policies
        (observed_failure (pty_ref panel_id) (str_append "terminal exited with code " exit_code)
          warning made)
        s h
  on_event-Follows policies made (task_heartbeat_missed task_name age m) s h =
      handle_failure-Follows c now policies
        (observed_failure (task_ref task_name m)
          (str_append "heartbeat stale after " (str_append age "s")) warning made)
        s h
  on_event-Follows policies made (task_exited_unexpectedly task_name error m) s h =
      handle_failure-Follows c now policies
        (observed_failure (task_ref task_name m)
          (filled_or error (str_append "task '" (str_append task_name "' exited unexpectedly")))
          high made)
        s h
  on_event-Follows policies made (tunnel_failure_detected profile_id reason) s h =
      handle_failure-Follows c now policies
        (observed_failure (tunnel_ref profile_id) reason high made) s h
  on_event-Follows policies made (component_watch_observed id kind false summary name) s h =
      handle_failure-Follows c now policies
        (observed_failure (watch_ref id kind name) summary (watch_severity kind) made) s h
