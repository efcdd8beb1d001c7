-- ===== src/Healing/Refines/Steps.antt =====
-- src/cockpit/ops/services/self_healing_service.py and src/cockpit/ops/services/incident_service.py: every step
-- moves a component as its specification has it.
use cockpit_cli.Prelude.{
  All, Bool, HoldsOf_some, List, String, false, lookup, nat_eq, not, refl, string_eq, strip, true,
  ℕ, ◌&&◌, ◌==◌, ◌∙◌, ◌≡◌,
}
use cockpit_cli.Enums.{
  component_kind_eq, event_class_eq, incident_status_eq, severity_eq, target_risk_eq,
}
use cockpit_cli.Recovery.{RecoveryPolicy}
use cockpit_cli.Healing.Data.{HealthStore}
use cockpit_cli.Healing.Store.{stored_state}
use cockpit_cli.Healing.Reports.{task_ref, tunnel_ref}
use cockpit_cli.Healing.Recoveries.{RecoveryPolicies}
use cockpit_cli.Healing.Operator.{
  acknowledge_found, acknowledge_incident, close_found, close_incident, reset_quarantine,
}
use cockpit_cli.Healing.Calls.{store_or_same}
use cockpit_cli.Healing.Sound.{AllSoundStates, IsSoundState}
use cockpit_cli.Healing.Sound.Reports.{stored_state-HoldsOf}
use cockpit_cli.Healing.Budget.Traces.{
  HealthStep, acknowledge_step, close_step, event_step, recovery_step, reset_step, retry_step,
  task_step, tunnel_step,
}
use cockpit_cli.Healing.Mode.{
  Cause, Mode, Runs, Touches, Touches-isolated, exits_as_expected, fails, is_reset, is_retried,
  is_same_cause, is_same_cause_refl, isolated, lets_out, reports_healthy, touches,
}
use cockpit_cli.Healing.Refines.{IsKeyed, mode_of, stored_state-own}
use cockpit_cli.Healing.Refines.Reports.{
  MovesIf, cause_of, is_unattended, observe_task_snapshot-Seen, observe_tunnel_snapshot-Seen,
  on_event-Follows, subject_of,
}
use cockpit_cli.Healing.Refines.Operators.{
  acknowledge_found-same, close_found-same, reset_found-Follows, retry-Follows, same_states,
}
use cockpit_cli.Healing.Refines.Noticed.{on_event-IsDown}
use cockpit_cli.Healing.Refines.Restarts.{run_recovery-MovesAlone}

-- The causes that a step may come with
abbrev pub may_cause :
    {policies : RecoveryPolicies} {c : String} {policy : RecoveryPolicy} {now : ℕ}
    {s s2 : HealthStore}
    → HealthStep policies c policy now s s2
    → Cause
    → Bool
may_cause (event_step made event s known) x = is_same_cause (cause_of event) x
may_cause (task_step t s) x = is_same_cause reports_healthy x
may_cause (tunnel_step profile_id alive s) x = is_same_cause reports_healthy x
may_cause (recovery_step m st s proper) x = is_unattended x
may_cause (retry_step st s found) x = is_same_cause is_retried x
may_cause (reset_step id s) x = is_same_cause is_reset x
may_cause (acknowledge_step id s) x = false
may_cause (close_step id s) x = false

-- A snapshot that is sound is a healthy report, and any other moves nothing.
abbrev pub TouchesIf : String → String → Bool → Mode → Mode → Type 0
TouchesIf c id true m n = Touches c id reports_healthy m n
TouchesIf c id false m n = n ≡ m

touches_if :
    (c id : String) (sound : Bool) (m n : Mode) → MovesIf c id sound m n → TouchesIf c id sound m n
touches_if c id true m n moved = touches c id reports_healthy m n moved (λ same e. absurd (cc e))
touches_if c id false m n same = same

-- What a step does to the mode of the component `c`. An event, a sound snapshot, a retry and a reset
-- each have one cause and concern one component; a recovery may bring about several failures, healthy
-- reports and expected exits; an incident that is acknowledged or closed moves nothing.
abbrev pub StepMoves :
    {policies : RecoveryPolicies} {c : String} {policy : RecoveryPolicy} {now : ℕ}
    {s s2 : HealthStore}
    → HealthStep policies c policy now s s2
    → Mode
    → Mode
    → Type 0
StepMoves {policies} {c} (event_step made event s known) m n =
    Touches c (subject_of event) (cause_of event) m n
StepMoves {policies} {c} (task_step t s) m n =
    TouchesIf c (task_ref t.name t.metadata).component_id (not t.stale && t.alive) m n
StepMoves {policies} {c} (tunnel_step profile_id alive s) m n =
    TouchesIf c (tunnel_ref (strip profile_id)).component_id (not (strip profile_id == "") && alive)
      m n
StepMoves (recovery_step m st s proper) m1 n =
    (causes : List Cause) × All (λ x. is_unattended x ≡ true) causes × Runs causes m1 n
StepMoves {policies} {c} (retry_step st s found) m n = Touches c st.component_id is_retried m n
StepMoves {policies} {c} (reset_step id s) m n = Touches c id is_reset m n
StepMoves (acknowledge_step id s) m n = n ≡ m
StepMoves (close_step id s) m n = n ≡ m

pub step-refines :
    {policies : RecoveryPolicies} {c : String} {policy : RecoveryPolicy} {now : ℕ}
    {s s2 : HealthStore} (step : HealthStep policies c policy now s s2)
    → IsKeyed s
    → AllSoundStates s
    → IsKeyed s2 × StepMoves step (mode_of c s) (mode_of c s2)
unfolding reset_quarantine acknowledge_incident close_incident
step-refines {policies} {c} {policy} {now} (event_step made event s known) h hs =
    let f = on_event-Follows c now policies made event s h in
    (
      f.keyed,
      touches c (subject_of event) (cause_of event) _ _ f.moved
          (λ about e. on_event-IsDown c policies policy now made event s known h hs e about),
    )
step-refines {policies} {c} {policy} {now} (task_step t s) h hs =
    let (keyed, moved) = observe_task_snapshot-Seen c now t s h in
    (
      keyed,
      touches_if c (task_ref t.name t.metadata).component_id (not t.stale && t.alive) _ _ moved,
    )
step-refines {policies} {c} {policy} {now} (tunnel_step profile_id alive s) h hs =
    let (keyed, moved) = observe_tunnel_snapshot-Seen c now profile_id alive s h in
    (
      keyed,
      touches_if c (tunnel_ref (strip profile_id)).component_id
          (not (strip profile_id == "") && alive) _ _ moved,
    )
step-refines {policies} {c} {policy} {now} (recovery_step m st s proper) h hs =
    let l = run_recovery-MovesAlone c policies now m st s h in
    (l.keyed, (l.causes, l.allowed, l.runs))
step-refines {policies} {c} {policy} {now} (retry_step st s found) h hs =
    let sound =
      HoldsOf_some IsSoundState (stored_state st.component_id s) st found
        (stored_state-HoldsOf st.component_id s hs) in
    let f = retry-Follows c now st s found sound h in
    (f.keyed, touches c st.component_id is_retried _ _ f.moved (λ same e. absurd (cc e)))
step-refines {policies} {c} {policy} {now} (reset_step id s) h hs =
    let f = reset_found-Follows c id s (stored_state id s) refl (stored_state-own id s h) h in
    (f.keyed, touches c id is_reset _ _ f.moved (λ same e. absurd (cc e)))
step-refines {policies} {c} {policy} {now} (acknowledge_step id s) h hs =
    same_states c s (store_or_same s (acknowledge_found now s (lookup id s.incidents)))
      (acknowledge_found-same now s (lookup id s.incidents)) h
step-refines {policies} {c} {policy} {now} (close_step id s) h hs =
    same_states c s (store_or_same s (close_found now s (lookup id s.incidents)))
      (close_found-same now s (lookup id s.incidents)) h

keeps_in :
    (ok : Cause → Bool) (x : Cause)
    → ok reports_healthy ≡ false
    → ok is_reset ≡ false
    → ok x ≡ true
    → lets_out x ≡ false
keeps_in ok reports_healthy h r e = absurd (cc (h, e))
keeps_in ok is_reset h r e = absurd (cc (r, e))
keeps_in ok fails h r e = refl
keeps_in ok exits_as_expected h r e = refl
keeps_in ok is_retried h r e = refl

StepMoves-isolated :
    {policies : RecoveryPolicies} {c : String} {policy : RecoveryPolicy} {now : ℕ}
    {s s2 : HealthStore} (step : HealthStep policies c policy now s s2) {m n : Mode}
    → StepMoves step m n
    → may_cause step reports_healthy ≡ false
    → may_cause step is_reset ≡ false
    → m ≡ isolated
    → n ≡ isolated
StepMoves-isolated {policies} {c} (event_step made event s known) {m} {n} f no_report no_reset e =
    Touches-isolated c (subject_of event) (cause_of event) m n f e (
      keeps_in (is_same_cause (cause_of event)) (cause_of event) no_report no_reset
        (is_same_cause_refl (cause_of event)))
StepMoves-isolated {policies} {c} (task_step t s) f no_report no_reset e = absurd (cc no_report)
StepMoves-isolated {policies} {c} (tunnel_step profile_id alive s) f no_report no_reset e =
    absurd (cc no_report)
StepMoves-isolated {policies} {c} (recovery_step m st s proper) f no_report no_reset e =
    absurd (cc no_report)
StepMoves-isolated {policies} {c} (retry_step st s found) {m} {n} f no_report no_reset e =
    Touches-isolated c st.component_id is_retried m n f e refl
StepMoves-isolated {policies} {c} (reset_step id s) f no_report no_reset e = absurd (cc no_reset)
StepMoves-isolated (acknowledge_step id s) same no_report no_reset e = same ∙ e
StepMoves-isolated (close_step id s) same no_report no_reset e = same ∙ e

-- A component in quarantine stays in quarantine at a step that comes with no healthy report and no
-- reset: neither a failure nor an expected exit nor a retry takes it out.
pub step-isolated :
    {policies : RecoveryPolicies} {c : String} {policy : RecoveryPolicy} {now : ℕ}
    {s s2 : HealthStore} (step : HealthStep policies c policy now s s2)
    → IsKeyed s
    → AllSoundStates s
    → may_cause step reports_healthy ≡ false
    → may_cause step is_reset ≡ false
    → mode_of c s ≡ isolated
    → mode_of c s2 ≡ isolated
step-isolated step h hs no_report no_reset e =
    StepMoves-isolated step (step-refines step h hs).1 no_report no_reset e
