-- ===== src/Healing/Sound.antt =====
-- src/cockpit/ops/services/self_healing_service.py: what holds of every stored state of a component, and
-- that failures and healthy reports keep it.
pub mod Failures
pub mod Reports
pub mod Runs
pub mod Calls
use cockpit_cli.Prelude.{
  AllValues, List, Option, String, arith, false, insert-AllValues, is_some, nat_eq, none, refl,
  some, string_eq, sym, true, ℕ, ◌≡◌,
}
use cockpit_cli.Enums.{
  HealthStatus, IncidentStatus, component_kind_eq, event_class_eq, incident_status_eq, severity_eq,
  target_risk_eq,
}
use cockpit_cli.Recovery.{
  ComponentHealthState, RecoveryAttempt, RecoveryEvaluation, RecoveryPolicy, evaluate,
  evaluate_attempts, is_quarantined,
}
use cockpit_cli.Escalation.{IncidentRecord}
use cockpit_cli.Healing.Data.{HealthStore}
use cockpit_cli.Healing.Store.{log, save_incident, save_state}
use cockpit_cli.Healing.Failures.{quarantine_text, record_transition, set_status}
use cockpit_cli.Healing.Settle.{cooling_state, counted, quarantined_state, scheduled_state}
use cockpit_cli.Healing.Reports.{healthy_state}

-- The flag and the reason of a quarantine go together.
abbrev pub IsFlagged : ComponentHealthState → Type 0
IsFlagged st = st.quarantined ≡ is_some st.quarantine_reason

-- A healthy component has no plan, no failure and no quarantine; one that has failed is in a cooldown
-- and not in quarantine; one that recovers has a time for it; and the status quarantined has the flag.
pub record IsSoundState (st : ComponentHealthState) : Type 0 where
  pub flagged : IsFlagged st
  pub well :
      st.status ≡ HealthStatus.healthy
      → (st.quarantined ≡ false)
        × (st.next_recovery_at ≡ none)
        × (st.cooldown_until ≡ none)
        × (st.consecutive_failures ≡ 0)
  pub cooling :
      st.status ≡ HealthStatus.failed
      → (st.quarantined ≡ false) × (is_some st.cooldown_until ≡ true)
  pub planned : st.status ≡ HealthStatus.recovering → is_some st.next_recovery_at ≡ true
  pub isolated : st.status ≡ HealthStatus.quarantined → st.quarantined ≡ true

abbrev pub AllSoundStates : HealthStore → Type 0
AllSoundStates s = AllValues IsSoundState s.states

pub states-record_transition :
    (previous : HealthStatus) (st : ComponentHealthState) (s : HealthStore)
    → (record_transition previous st s).states ≡ s.states
unfolding record_transition log
states-record_transition previous st s = ground arith

pub states-set_status :
    (now : ℕ) (new : IncidentStatus) (i : IncidentRecord) (s : HealthStore)
    → (set_status now new i s).states ≡ s.states
unfolding set_status log save_incident
states-set_status now new i s = ground arith

pub save_state-AllSound :
    (st : ComponentHealthState) (s : HealthStore)
    → IsSoundState st
    → AllSoundStates s
    → AllSoundStates (save_state st s)
unfolding save_state
save_state-AllSound st s h hs = insert-AllValues IsSoundState st.component_id st s.states h hs

pub scheduled_state-IsSound :
    (now : ℕ) (e : RecoveryEvaluation) (i : IncidentRecord) (st : ComponentHealthState)
    → IsFlagged st
    → IsSoundState (scheduled_state now e i st)
unfolding scheduled_state counted
scheduled_state-IsSound now e i st h = record {
  flagged = h;
  well = λ e. absurd (cc e);
  cooling = λ e. absurd (cc e);
  planned = λ e. refl;
  isolated = λ e. absurd (cc e);
}

pub cooling_state-IsSound :
    (e : RecoveryEvaluation) (i : IncidentRecord) (st : ComponentHealthState)
    → IsFlagged st
    → st.quarantined ≡ false
    → is_some e.cooldown_until ≡ true
    → IsSoundState (cooling_state e i st)
unfolding cooling_state counted
cooling_state-IsSound e i st h free c = record {
  flagged = h;
  well = λ e. absurd (cc e);
  cooling = λ e. (free, c);
  planned = λ e. absurd (cc e);
  isolated = λ e. absurd (cc e);
}

pub quarantined_state-IsSound :
    (e : RecoveryEvaluation) (i : IncidentRecord) (st : ComponentHealthState)
    → is_some (quarantine_text e.explanation) ≡ true
    → IsSoundState (quarantined_state e i st)
unfolding quarantined_state counted
quarantined_state-IsSound e i st h = record {
  flagged = sym h;
  well = λ e. absurd (cc e);
  cooling = λ e. absurd (cc e);
  planned = λ e. absurd (cc e);
  isolated = λ e. refl;
}

pub healthy_state-IsSound :
    (heartbeat_at : ℕ) (st : ComponentHealthState) → IsSoundState (healthy_state heartbeat_at st)
unfolding healthy_state
healthy_state-IsSound heartbeat_at st = record {
  flagged = refl;
  well = λ e. (refl, refl, refl, refl);
  cooling = λ e. absurd (cc e);
  planned = λ e. absurd (cc e);
  isolated = λ e. absurd (cc e);
}

-- What an evaluation says of the component, by what it decides
pub evaluate-cooling :
    (policy : RecoveryPolicy) (st : ComponentHealthState) (recent : List RecoveryAttempt)
    (reason : String) (now : ℕ)
    → let e = evaluate policy (some st) recent reason now in
      e.should_enter_cooldown ≡ true → (st.quarantined ≡ false) × (is_some e.cooldown_until ≡ true)
unfolding evaluate evaluate_attempts is_quarantined
evaluate-cooling policy st recent reason now h = (ground arith, ground arith)

pub evaluate-explained :
    (policy : RecoveryPolicy) (state : Option ComponentHealthState) (recent : List RecoveryAttempt)
    (reason : String) (now : ℕ)
    → let e = evaluate policy state recent reason now in
      e.should_quarantine ≡ true → is_some (quarantine_text e.explanation) ≡ true
unfolding evaluate evaluate_attempts quarantine_text
evaluate-explained policy state recent reason now h = ground arith
