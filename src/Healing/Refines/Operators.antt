-- ===== src/Healing/Refines/Operators.antt =====
-- src/cockpit/ops/services/self_healing_service.py and src/cockpit/ops/services/incident_service.py: what an
-- operator does moves a component as its specification has it.
use mathlib.Core.Path.{transport}
use cockpit_cli.Prelude.{
  Bool-cases, HoldsOf, Option, String, ap, false, inl, inr, lookup, nat_eq, none, refl, some,
  string_eq, sym, ℕ, ◌∙◌, ◌≡◌, ◌≢◌,
}
use cockpit_cli.Enums.{
  HealthStatus, component_kind_eq, event_class_eq, incident_status_eq, severity_eq, target_risk_eq,
}
use cockpit_cli.Recovery.{ComponentHealthState}
use cockpit_cli.Escalation.{IncidentRecord}
use cockpit_cli.Healing.Data.{HealthStore}
use cockpit_cli.Healing.Store.{log, save_incident, save_state, stored_state}
use cockpit_cli.Healing.Operator.{
  acknowledge_found, changed_by_operator, close_found, is_in_quarantine, reset_found, reset_state,
  retried_state,
}
use cockpit_cli.Healing.Calls.{store_or_same}
use cockpit_cli.Healing.Sound.{IsSoundState}
use cockpit_cli.Healing.Mode.{
  Moves, is_reset, is_retried, isolated, reset_resting, reset_unknown, resting, retry_isolated,
  retry_planned, unknown,
}
use cockpit_cli.Healing.Refines.{
  Follows, IsKeyed, mode_found, mode_of, same-Follows, save_state-Follows, state_mode, status_mode,
  status_mode-free, stay-Follows,
}

status_mode-known : (status : HealthStatus) → status_mode status ≢ unknown
status_mode-known HealthStatus.healthy e = cc e
status_mode-known HealthStatus.degraded e = cc e
status_mode-known HealthStatus.recovering e = cc e
status_mode-known HealthStatus.failed e = cc e
status_mode-known HealthStatus.quarantined e = cc e

not_in_quarantine :
    (status : HealthStatus) → status ≢ HealthStatus.quarantined → is_in_quarantine status ≡ false
not_in_quarantine HealthStatus.quarantined n = absurd (n refl)
not_in_quarantine HealthStatus.healthy n = refl
not_in_quarantine HealthStatus.degraded n = refl
not_in_quarantine HealthStatus.recovering n = refl
not_in_quarantine HealthStatus.failed n = refl

module _ (now : ℕ) (s : HealthStore) where
  pub acknowledge_found-same :
      (o : Option IncidentRecord) → (store_or_same s (acknowledge_found now s o)).states ≡ s.states
  unfolding acknowledge_found changed_by_operator log save_incident
  acknowledge_found-same none = refl
  acknowledge_found-same (some i) = refl

  pub close_found-same :
      (o : Option IncidentRecord) → (store_or_same s (close_found now s o)).states ≡ s.states
  unfolding close_found changed_by_operator log save_incident
  close_found-same none = refl
  close_found-same (some i) = refl

module _ (c : String) where
  pub same_states :
      (s s2 : HealthStore)
      → s2.states ≡ s.states
      → IsKeyed s
      → IsKeyed s2 × (mode_of c s2 ≡ mode_of c s)
  unfolding stored_state
  same_states s s2 e h = (rw e h, ap (λ d. mode_found (lookup c d)) e)

  reset-Moves : (st : ComponentHealthState) → Moves is_reset (state_mode st) resting
  reset-Moves st = elim (Bool-cases st.quarantined) [
    | inl q ↦ rw q (reset_resting isolated (λ e. cc e))
    | inr q ↦ rw q (reset_resting (status_mode st.status) (status_mode-known st.status))
  ]

  pub reset_found-Follows :
      (id : String) (s : HealthStore) (o : Option ComponentHealthState)
      → stored_state id s ≡ o
      → HoldsOf (λ st. st.component_id ≡ id) o
      → IsKeyed s
      → Follows c id is_reset s (store_or_same s (reset_found s o))
  unfolding reset_found reset_state log
  reset_found-Follows id s none found own h =
      stay-Follows c id is_reset s
        (λ e. rw (ap (λ k. mode_of k s) (sym e) ∙ ap mode_found found) reset_unknown) h
  reset_found-Follows id s (some st) found own h =
      let s2 = store_or_same s (reset_found s (some st)) in
      let moved : Follows c st.component_id is_reset s s2 =
        same-Follows c st.component_id is_reset s (save_state (reset_state st) s) s2 refl (
          save_state-Follows c is_reset (reset_state st) s
            (λ e. rw (ap (λ k. mode_of k s) (sym e ∙ own) ∙ ap mode_found found) (reset-Moves st))
            h) in
      transport (λ i. Follows c (own i) is_reset s s2) moved

  retry-Moves :
      (now : ℕ) (st : ComponentHealthState)
      → IsSoundState st
      → Moves is_retried (state_mode st) (state_mode (retried_state now st))
  unfolding retried_state
  retry-Moves now st h = elim (Bool-cases st.quarantined) [
    | inl q ↦ rw q retry_isolated
    | inr q ↦ rw q (
        rw (not_in_quarantine st.status (λ e. cc (h.isolated e, q)))
          (retry_planned (status_mode st.status) (status_mode-free st.status)))
  ]

  pub retry-Follows :
      (now : ℕ) (st : ComponentHealthState) (s : HealthStore)
      → stored_state st.component_id s ≡ some st
      → IsSoundState st
      → IsKeyed s
      → Follows c st.component_id is_retried s (save_state (retried_state now st) s)
  unfolding retried_state
  retry-Follows now st s found sound h =
      save_state-Follows c is_retried (retried_state now st) s
        (λ e. rw (ap (λ k. mode_of k s) (sym e) ∙ ap mode_found found) (retry-Moves now st sound)) h
