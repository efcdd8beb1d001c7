-- ===== src/Healing/Heals.antt =====
-- src/cockpit/ops/services/self_healing_service.py: what a healthy report leaves, and a tunnel that is reconnected
-- is healthy again.
use mathlib.Core.Path.{transport}
use cockpit_cli.Prelude.{
  Dict, HoldsOf, HoldsOf_some, Option, String, ap, false, insert, lookup, lookup-insert_self,
  nat_eq, none, refl, some, string_eq, strip, sym, true, ℕ, ◌==◌, ◌∙◌, ◌≡◌,
}
use cockpit_cli.Enums.{
  HealthStatus, component_kind_eq, event_class_eq, incident_status_eq, severity_eq, ssh_tunnel,
  target_risk_eq,
}
use cockpit_cli.Recovery.{ComponentHealthState, RecoveryAttempt, RecoveryPolicy}
use cockpit_cli.Healing.Data.{ComponentRef, HealthStore, Managers, left_by, tunnel_up}
use cockpit_cli.Healing.Store.{
  get_open_for_component, is_attempt_of, is_attempt_pending, is_pending_of,
  latest_pending_for_component, log, save_attempt, save_state, stored_state,
}
use cockpit_cli.Healing.Failures.{new_state, record_transition, state_or_new}
use cockpit_cli.Healing.Reports.{
  healthy_state, mark_component_healthy, observe_tunnel_snapshot, report_healthy, succeed_attempt,
  succeeded_at, tunnel_ref,
}
use cockpit_cli.Healing.Recoveries.{
  RecoveryPolicies, recover, run_pending, run_recovery, run_tunnel_recovery, running_at,
  start_attempt,
}
use cockpit_cli.Healing.Attempts.{count_of}
use cockpit_cli.Healing.Budget.{IsWithinBudget}
use cockpit_cli.Healing.Budget.Saves.{finish-IsWithinBudget, finish-none, start-IsWithinBudget}
use cockpit_cli.Healing.Budget.Queries.{
  IsPendingIn, latest_pending-HoldsOf, latest_pending-none, pending_of-parts,
}
use cockpit_cli.Healing.Budget.Failures.{same-Within}
use cockpit_cli.Healing.Budget.Ends.{attempts-reported, reported}
use cockpit_cli.Healing.Sound.{states-record_transition}
use cockpit_cli.Healing.Sound.Reports.{states-resolve_incident, states-succeed_attempt}
use cockpit_cli.Healing.Refines.{IsKeyed, state_or_new-own, stored_state-own}

lookup-reported :
    (now heartbeat_at : ℕ) (id : String) (st : ComponentHealthState) (s : HealthStore)
    → st.component_id ≡ id
    → lookup id (reported now heartbeat_at st s).states ≡ some (healthy_state heartbeat_at st)
unfolding save_state healthy_state
lookup-reported now heartbeat_at id st s own =
    let w = healthy_state heartbeat_at st in
    let s2 = record_transition st.status w (save_state w s) in
    ap (λ k. lookup k (reported now heartbeat_at st s).states) (sym own)
    ∙ (ap (λ d. lookup st.component_id d)
          (states-resolve_incident now s2 (get_open_for_component st.component_id s2)
            ∙ states-record_transition st.status w (save_state w s))
        ∙ lookup-insert_self st.component_id w s.states)

succeed_attempt-none :
    (policy : RecoveryPolicy) (now : ℕ) (c id : String) (s : HealthStore)
    → id ≡ c
    → (o : Option RecoveryAttempt) → HoldsOf (IsPendingIn id s.attempts) o
    → (o ≡ none → count_of (is_pending_of id) s.attempts ≡ 0)
    → IsWithinBudget c policy now s.attempts
    → count_of (is_pending_of c) (succeed_attempt now id s o).attempts ≡ 0
unfolding succeed_attempt succeeded_at log save_attempt
succeed_attempt-none policy now c id s e none found nothing h =
    ap (λ k. count_of (is_pending_of k) s.attempts) (sym e) ∙ nothing refl
succeed_attempt-none policy now c id s e (some a) (stored, p) nothing h =
    let (own, waits) = pending_of-parts id a p in
    finish-none c policy now a (succeeded_at now a) s.attempts stored waits refl refl
      (ap (λ k. is_attempt_of k a) (sym e) ∙ own) h

abbrev pub exhaustions_of : Option ComponentHealthState → ℕ
exhaustions_of none = 0
exhaustions_of (some st) = st.exhaustion_count

-- The component is stored as healthy, with the heartbeat, out of quarantine, without failures, plan and
-- cooldown, with that many exhaustions, and none of its attempts is pending.
pub record IsSettled (c : String) (heartbeat_at exhaustions : ℕ) (s : HealthStore) : Type 0 where
  pub state : ComponentHealthState
  pub stored : stored_state c s ≡ some state
  pub well : state.status ≡ HealthStatus.healthy
  pub seen : state.last_heartbeat_at ≡ some heartbeat_at
  pub free : state.quarantined ≡ false
  pub without_reason : state.quarantine_reason ≡ none
  pub without_failure : state.consecutive_failures ≡ 0
  pub without_plan : state.next_recovery_at ≡ none
  pub without_cooldown : state.cooldown_until ≡ none
  pub as_exhausted : state.exhaustion_count ≡ exhaustions
  pub settled : count_of (is_pending_of c) s.attempts ≡ 0

state_or_new-exhaustions :
    (status : HealthStatus) (r : ComponentRef) (o : Option ComponentHealthState)
    → (state_or_new status r o).exhaustion_count ≡ exhaustions_of o
unfolding state_or_new new_state
state_or_new-exhaustions status r none = refl
state_or_new-exhaustions status r (some st) = refl

-- After a healthy report the component is stored as healthy, with the time of the heartbeat, out of
-- quarantine and without a reason for it, without failures, plan and cooldown; its number of
-- exhaustions stays, and none of its attempts is pending, if it had one at most.
pub report_healthy_settles :
    (policy : RecoveryPolicy) (now heartbeat_at : ℕ) (r : ComponentRef) (s : HealthStore)
    → IsKeyed s
    → IsWithinBudget r.component_id policy now s.attempts
    → IsSettled r.component_id heartbeat_at
        (exhaustions_of (stored_state r.component_id s))
        (report_healthy now heartbeat_at r s)
unfolding report_healthy mark_component_healthy stored_state healthy_state
report_healthy_settles policy now heartbeat_at r s keyed h =
    let st = state_or_new HealthStatus.healthy r (stored_state r.component_id s) in
    let own =
      state_or_new-own HealthStatus.healthy r (stored_state r.component_id s)
        (stored_state-own r.component_id s keyed) in
    let s3 = reported now heartbeat_at st s in
    let h3 =
      same-Within r.component_id policy now s s3 (attempts-reported now heartbeat_at st s) h in
    record {
      state = healthy_state heartbeat_at st;
      stored =
          ap (λ d. lookup r.component_id d)
            (states-succeed_attempt now st.component_id s3
              (latest_pending_for_component st.component_id s3))
          ∙ lookup-reported now heartbeat_at r.component_id st s own;
      well = refl;
      seen = refl;
      free = refl;
      without_reason = refl;
      without_failure = refl;
      without_plan = refl;
      without_cooldown = refl;
      as_exhausted =
          state_or_new-exhaustions HealthStatus.healthy r (stored_state r.component_id s);
      settled =
          succeed_attempt-none policy now r.component_id st.component_id s3 own
            (latest_pending_for_component st.component_id s3)
            (latest_pending-HoldsOf st.component_id s3 h3.table)
            (latest_pending-none st.component_id s3) h3;
    }

-- The component is stored as healthy, and none of its attempts is pending.
pub record IsHealed (c : String) (s : HealthStore) : Type 0 where
  pub state : ComponentHealthState
  pub stored : stored_state c s ≡ some state
  pub well : state.status ≡ HealthStatus.healthy
  pub settled : count_of (is_pending_of c) s.attempts ≡ 0

abbrev pub ended : ℕ → RecoveryAttempt → RecoveryAttempt
ended now a = succeeded_at now (running_at now a)

ended-IsWithinBudget :
    (c : String) (policy : RecoveryPolicy) (now : ℕ) (a : RecoveryAttempt)
    (d : Dict String RecoveryAttempt)
    → lookup a.id d ≡ some a
    → is_attempt_pending a.status ≡ true
    → IsWithinBudget c policy now d
    → IsWithinBudget c policy now (insert a.id (ended now a) (insert a.id (running_at now a) d))
unfolding succeeded_at running_at
ended-IsWithinBudget c policy now a d stored waits h =
    finish-IsWithinBudget c policy now (running_at now a) (ended now a)
      (insert a.id (running_at now a) d) (lookup-insert_self a.id (running_at now a) d) refl refl
      refl (start-IsWithinBudget c policy now a (running_at now a) d stored waits refl refl h)

report_healthy-IsHealed :
    (policy : RecoveryPolicy) (now heartbeat_at : ℕ) (r : ComponentRef) (s : HealthStore)
    → IsKeyed s
    → IsWithinBudget r.component_id policy now s.attempts
    → IsHealed r.component_id (report_healthy now heartbeat_at r s)
report_healthy-IsHealed policy now heartbeat_at r s keyed h =
    let x = report_healthy_settles policy now heartbeat_at r s keyed h in
    record { state = x.state; stored = x.stored; well = x.well; settled = x.settled }

observed :
    (now : ℕ) (profile_id : String) (s : HealthStore)
    → (strip profile_id == "") ≡ false
    → observe_tunnel_snapshot now profile_id true s
      ≡ report_healthy now now (tunnel_ref (strip profile_id)) s
unfolding observe_tunnel_snapshot
observed now profile_id s named = rw named refl

-- The recovery of a tunnel that has an attempt pending heals it, if the manager reconnects the tunnel:
-- the component is stored as healthy and has no attempt pending. Its attempts are within the budget
-- before, states are stored under their ids, and the component is named after the profile id, stripped of
-- the spaces around it and not blank.
pub run_recovery-IsHealed :
    (policies : RecoveryPolicies) (policy : RecoveryPolicy) (m : Managers) (now : ℕ)
    (st : ComponentHealthState) (a : RecoveryAttempt) (profile_id : String) (s : HealthStore)
    → IsKeyed s
    → IsWithinBudget (tunnel_ref (strip profile_id)).component_id policy now s.attempts
    → st.component_kind ≡ ssh_tunnel
    → st.component_id ≡ (tunnel_ref (strip profile_id)).component_id
    → (strip profile_id == "") ≡ false
    → latest_pending_for_component st.component_id s ≡ some a
    → m.reconnect_tunnel st ≡ tunnel_up profile_id
    → IsHealed st.component_id (left_by (run_recovery policies m now st s))
unfolding run_recovery run_pending recover run_tunnel_recovery start_attempt save_attempt log
    succeeded_at running_at
run_recovery-IsHealed policies policy m now st a profile_id s keyed h kind own named found up =
    let c = (tunnel_ref (strip profile_id)).component_id in
    let (stored, p) =
      HoldsOf_some (IsPendingIn st.component_id s.attempts)
        (latest_pending_for_component st.component_id s) a found
        (latest_pending-HoldsOf st.component_id s h.table) in
    let s2 = save_attempt (ended now a) (start_attempt now st.component_id a s) in
    let healed = report_healthy-IsHealed policy now now (tunnel_ref (strip profile_id)) s2 keyed (
      ended-IsWithinBudget c policy now a s.attempts stored (pending_of-parts st.component_id a p).1
        h) in
    let s1 = start_attempt now st.component_id a s in
    let r = running_at now a in
    let runs : left_by (run_recovery policies m now st s)
        ≡ observe_tunnel_snapshot now profile_id true s2 =
      ap (λ o. left_by (run_pending policies m now st s o)) found
      ∙ (ap (λ k. left_by (recover policies m now st r k s1)) kind
          ∙ ap (λ t. left_by (run_tunnel_recovery policies m now st r t s1)) up) in
    transport (λ i. IsHealed (sym own i) (sym (runs ∙ observed now profile_id s2 named) i)) healed
