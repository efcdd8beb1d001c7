-- ===== src/Healing/Calls.antt =====
-- src/cockpit/ops/services/self_healing_service.py and src/cockpit/ops/services/incident_service.py:
-- the calls that reach the tables, in any order.
use cockpit_cli.Prelude.{Bool, List, Option, String, [], nat_eq, none, some, string_eq, ℕ, ◌∷◌}
use cockpit_cli.Healing.Data.{HealthStore, MadeIds, Managers, RuntimeEvent, TaskSnapshot, left_by}
use cockpit_cli.Healing.Reports.{observe_task_snapshot, observe_tunnel_snapshot, on_event}
use cockpit_cli.Healing.Recoveries.{RecoveryPolicies, run_due_recoveries}
use cockpit_cli.Healing.Operator.{
  acknowledge_incident, close_incident, reset_quarantine, retry_component,
}

pub data HealthCall : Type 0 where
  event_published : MadeIds → RuntimeEvent → HealthCall
  task_observed : TaskSnapshot → HealthCall
  tunnel_observed : String → Bool → HealthCall
  recoveries_run : HealthCall
  quarantine_reset component_retried : String → HealthCall
  incident_acknowledged incident_closed : String → HealthCall

-- A call that raises before it changes anything
abbrev pub store_or_same : HealthStore → Option HealthStore → HealthStore
store_or_same s none = s
store_or_same s (some s2) = s2

-- The tables after a call at the time `now`, also where it raises
unfoldable pub apply_call : RecoveryPolicies → Managers → ℕ → HealthCall → HealthStore → HealthStore
unfolding on_event observe_task_snapshot observe_tunnel_snapshot run_due_recoveries reset_quarantine
    retry_component acknowledge_incident close_incident
apply_call policies m now (event_published made event) s =
    left_by (on_event policies now made event s)
apply_call policies m now (task_observed t) s = observe_task_snapshot now t s
apply_call policies m now (tunnel_observed profile_id alive) s =
    observe_tunnel_snapshot now profile_id alive s
apply_call policies m now recoveries_run s = left_by (run_due_recoveries policies m now s)
apply_call policies m now (quarantine_reset id) s = store_or_same s (reset_quarantine id s)
apply_call policies m now (component_retried id) s =
    left_by ((retry_component policies m now id s).1)
apply_call policies m now (incident_acknowledged id) s =
    store_or_same s (acknowledge_incident now id s)
apply_call policies m now (incident_closed id) s = store_or_same s (close_incident now id s)

-- Calls one after another, each at its time and with what the managers do then
unfoldable pub run_calls :
    RecoveryPolicies → List (ℕ × Managers × HealthCall) → HealthStore → HealthStore
unfolding apply_call
run_calls policies [] s = s
run_calls policies ((now, m, call) ∷ rest) s =
    run_calls policies rest (apply_call policies m now call s)
