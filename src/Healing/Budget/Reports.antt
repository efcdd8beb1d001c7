-- ===== src/Healing/Budget/Reports.antt =====
-- src/cockpit/ops/services/self_healing_service.py: healthy reports and events keep to the budget of
-- attempts.
use cockpit_cli.Prelude.{
  Bool, HoldsOf, HoldsOf-both, String, false, nat_eq, some, string_eq, ℕ, ◌≡◌,
}
use cockpit_cli.Enums.{
  component_kind_eq, event_class_eq, incident_status_eq, severity_eq, target_risk_eq,
}
use cockpit_cli.Recovery.{ComponentHealthState, RecoveryPolicy, policy_for}
use cockpit_cli.Healing.Data.{Failure, HealthStore, MadeIds, RuntimeEvent, TaskSnapshot, left_by}
use cockpit_cli.Healing.Reports.{
  failure_of, mark_component_healthy, observe_task_snapshot, observe_tunnel_snapshot, on_event,
}
use cockpit_cli.Healing.Recoveries.{RecoveryPolicies}
use cockpit_cli.Healing.Budget.{IsWithinBudget}
use cockpit_cli.Healing.Budget.Failures.{Within, handle_failure-Within}
use cockpit_cli.Healing.Budget.Ends.{
  IsKeptByEnds, failure_of-HoldsOf, mark_component_healthy-kept, observe_task_snapshot-kept,
  observe_tunnel_snapshot-kept, on_event-kept,
}
use cockpit_cli.Healing.Budget.Saves.{finish-IsWithinBudget}

-- Failures of the component are failures of a kind that has this policy.
abbrev pub IsKnown : RecoveryPolicies → String → RecoveryPolicy → Failure → Type 0
IsKnown policies c policy f =
    f.component.component_id ≡ c → policy_for policies f.component.kind ≡ some policy

module _ (c : String) (policy : RecoveryPolicy) (now : ℕ) where
  IsWithinBudget-IsKeptByEnds : IsKeptByEnds now (IsWithinBudget c policy now)
  IsWithinBudget-IsKeptByEnds = record {
    table = λ d h. h.table;
    ended = λ a a2 d stored waits same over done h.
        finish-IsWithinBudget c policy now a a2 d stored waits same over h;
  }

  pub mark_component_healthy-Within :
      (heartbeat_at : ℕ) (st : ComponentHealthState) (s : HealthStore)
      → Within c policy now s
      → Within c policy now (mark_component_healthy now heartbeat_at st s)
  mark_component_healthy-Within =
      mark_component_healthy-kept now (IsWithinBudget c policy now) IsWithinBudget-IsKeptByEnds

  pub observe_task_snapshot-Within :
      (t : TaskSnapshot) (s : HealthStore)
      → Within c policy now s
      → Within c policy now (observe_task_snapshot now t s)
  observe_task_snapshot-Within =
      observe_task_snapshot-kept now (IsWithinBudget c policy now) IsWithinBudget-IsKeptByEnds

  pub observe_tunnel_snapshot-Within :
      (profile_id : String) (alive : Bool) (s : HealthStore)
      → Within c policy now s
      → Within c policy now (observe_tunnel_snapshot now profile_id alive s)
  observe_tunnel_snapshot-Within =
      observe_tunnel_snapshot-kept now (IsWithinBudget c policy now) IsWithinBudget-IsKeptByEnds

  pub on_event-Within :
      (policies : RecoveryPolicies) (made : MadeIds) (event : RuntimeEvent) (s : HealthStore)
      → HoldsOf (IsKnown policies c policy) (failure_of made event)
      → Within c policy now s
      → Within c policy now (left_by (on_event policies now made event s))
  on_event-Within policies made event s known =
      on_event-kept now (IsWithinBudget c policy now) IsWithinBudget-IsKeptByEnds policies
        (λ f. IsKnown policies c policy f × (f.pending_already_failed ≡ false))
        (λ f s (k, first).
          handle_failure-Within c policy now policies f s k (λ e. absurd (cc (e, first))))
        made event s
        (HoldsOf-both (IsKnown policies c policy)
          (λ f. (f.made ≡ made) × (f.pending_already_failed ≡ false))
          (λ f. IsKnown policies c policy f × (f.pending_already_failed ≡ false))
          (failure_of made event) (λ f k r. (k, r.1)) known (failure_of-HoldsOf made event))
