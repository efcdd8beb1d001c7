-- ===== src/Healing/Budget/Queries.antt =====
-- src/cockpit/ops/repositories/health.py: what the queries for attempts find, and which saves leave the attempts
-- alone.
use cockpit_cli.Prelude.{
  All-kept, Dict, HoldsOf, String, ap, arith, keep, keep-All, length, length-keep-sort, ltb, nat_eq,
  none, string_eq, true, ℕ, ◌∙◌, ◌≡◌, ◌≤◌,
}
use cockpit_cli.Enums.{
  HealthStatus, IncidentStatus, component_kind_eq, event_class_eq, incident_status_eq, severity_eq,
  target_risk_eq,
}
use cockpit_cli.Recovery.{
  ComponentHealthState, RecoveryAttempt, RecoveryPolicy, attempt_time, in_window, is_in_window,
}
use cockpit_cli.Escalation.{IncidentRecord}
use cockpit_cli.Healing.Data.{HealthStore}
use cockpit_cli.Healing.Store.{
  is_attempt_of, is_attempt_pending, is_pending_of, latest_pending_for_component, log, or_zero,
  recent_for_component, save_incident, save_state, stored_rows,
}
use cockpit_cli.Healing.Failures.{record_transition, set_status}
use cockpit_cli.Healing.Attempts.{IsStoredIn, IsTable, count_of, found-IsStoredIn, found_none}
use cockpit_cli.Healing.Budget.{is_spent, length-keep-keep_mono}

pub attempts-record_transition :
    (previous : HealthStatus) (st : ComponentHealthState) (s : HealthStore)
    → (record_transition previous st s).attempts ≡ s.attempts
unfolding record_transition log
attempts-record_transition previous st s = ground arith

pub attempts-set_status :
    (now : ℕ) (new : IncidentStatus) (i : IncidentRecord) (s : HealthStore)
    → (set_status now new i s).attempts ≡ s.attempts
unfolding set_status log save_incident
attempts-set_status now new i s = ground arith

-- A state and an incident are saved; the attempts are as before.
pub attempts-saved :
    (previous : HealthStatus) (now : ℕ) (new : IncidentStatus) (i : IncidentRecord)
    (st : ComponentHealthState) (s : HealthStore)
    → (set_status now new i (record_transition previous st (save_state st s))).attempts ≡ s.attempts
unfolding save_state
attempts-saved previous now new i st s =
    attempts-set_status now new i (record_transition previous st (save_state st s))
    ∙ attempts-record_transition previous st (save_state st s)

pub pending_of-parts :
    (c : String) (a : RecoveryAttempt)
    → is_pending_of c a ≡ true
    → (is_attempt_of c a ≡ true) × (is_attempt_pending a.status ≡ true)
pending_of-parts c a h = (ground arith, ground arith)

-- What a query for the pending attempt finds
abbrev pub IsPendingIn : String → Dict String RecoveryAttempt → RecoveryAttempt → Type 0
IsPendingIn c d a = IsStoredIn d a × (is_pending_of c a ≡ true)

pub latest_pending-HoldsOf :
    (c : String) (s : HealthStore)
    → IsTable s.attempts
    → HoldsOf (IsPendingIn c s.attempts) (latest_pending_for_component c s)
unfolding latest_pending_for_component
latest_pending-HoldsOf c s t =
    found-IsStoredIn (is_pending_of c)
      (λ a b. ltb (or_zero b.scheduled_for) (or_zero a.scheduled_for)) s.attempts t

pub latest_pending-none :
    (c : String) (s : HealthStore)
    → latest_pending_for_component c s ≡ none
    → count_of (is_pending_of c) s.attempts ≡ 0
unfolding latest_pending_for_component
latest_pending-none c s e =
    found_none (is_pending_of c) (λ a b. ltb (or_zero b.scheduled_for) (or_zero a.scheduled_for))
      s.attempts e

-- How many attempts count for the policy at the evaluation
pub spent-recent :
    (policy : RecoveryPolicy) (c : String) (now : ℕ) (s : HealthStore)
    → count_of (is_spent c policy now) s.attempts
      ≤ length (in_window policy now (recent_for_component policy c now s))
unfolding in_window recent_for_component
spent-recent policy c now s =
    let own = keep (is_attempt_of c) (stored_rows s.attempts) in
    let before = λ (a : RecoveryAttempt) (b : RecoveryAttempt).
      ltb (or_zero (attempt_time b)) (or_zero (attempt_time a)) in
    omega (
      arith,
      length-keep-sort (is_in_window policy now) before (keep (is_in_window policy now) own),
      ap length (
          keep-All (is_in_window policy now) (keep (is_in_window policy now) own)
            (All-kept (is_in_window policy now) own)),
      length-keep-keep_mono (is_spent c policy now) (is_in_window policy now) (is_attempt_of c)
          (stored_rows s.attempts) (λ a h. (ground arith, ground arith)),
    )
