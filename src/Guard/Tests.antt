-- ===== src/Guard/Tests.antt =====
-- Runs of the guard policy on concrete actions, and the theorems at these inputs.
use cockpit_cli.Prelude.{
  [], codes, false, nat_eq, none, refl, some, string_eq, true, ◌↔◌, ◌∷◌, ◌≡◌, ◌⊎◌,
}
use cockpit_cli.Enums.{
  allow, block, component_kind_eq, datasource, db_destructive, docker_remove, event_class_eq,
  http_read, incident_status_eq, prod, severity_eq, stage, target_risk_eq,
}
use cockpit_cli.Guard.{
  GuardContext, evaluate_context, http_method, is_blocked_method, method_blocked,
  needs_confirmation,
}
use cockpit_cli.Guard.Table.{
  IsForbidden, NeedsElevation, effect, evaluate_context-allows, evaluate_context-blocks, reads,
}

abbrev drop_table : GuardContext
drop_table = record {
  command_id = "cmd_1";
  action_kind = db_destructive;
  component_kind = datasource;
  target_risk = stage;
  workspace_id = none;
  session_id = some "s1";
  workspace_name = some "shop";
  target_ref = some "stage-db";
  confirmed = false;
  elevated_mode = false;
  dry_run_requested = false;
  subject_ref = some "orders";
  description = some "drop orders";
  metadata = [];
}

abbrev remove_container : GuardContext
remove_container = record drop_table {
  action_kind = docker_remove;
  target_risk = prod;
  elevated_mode = true;
  description = none;
}

abbrev trace_request : GuardContext
trace_request = record drop_table { action_kind = http_read; metadata = ("method", "trace") ∷ [] }

removes : (evaluate_context remove_container).explanation ≡ needs_confirmation "docker operation"
unfolding evaluate_context
removes = refl

traces : (evaluate_context trace_request).explanation ≡ method_blocked (codes "TRACE")
unfolding evaluate_context http_method is_blocked_method
traces = refl

evaluate_context-blocks_example :
    ((evaluate_context trace_request).outcome ≡ block) ↔ IsForbidden trace_request
evaluate_context-blocks_example = evaluate_context-blocks trace_request

evaluate_context-allows_example : ((evaluate_context remove_container).outcome ≡ allow) ↔ (
    ¬ IsForbidden remove_container
    × (NeedsElevation remove_container → remove_container.elevated_mode ≡ true)
    × ((effect remove_container.action_kind ≡ reads) ⊎ (remove_container.confirmed ≡ true)))
evaluate_context-allows_example = evaluate_context-allows remove_container
