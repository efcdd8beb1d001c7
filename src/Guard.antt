-- ===== src/Guard.antt =====
-- src/cockpit/ops/services/guard_policy_service.py, with the records of
-- src/cockpit/ops/models/policy.py. The metadata is kept with the text that `str` gives for each
-- value, which is all that the service reads of it. A message is a constructor over its subject.
pub mod Table
pub mod Privilege
mod Tests
use cockpit_cli.Prelude.{
  Bool, List, Option, String, [], codes, false, if◌then◌else◌, nat_eq, none, not, same_text, some,
  string_eq, true, upper, upper_char, ℕ, ◌&&◌, ◌++◌, ◌==◌, ◌||◌, ◌∷◌,
}
use cockpit_cli.Enums.{
  ComponentKind, GuardActionKind, GuardDecisionOutcome, TargetRiskLevel, allow, block,
  component_kind_eq, db_destructive, db_mutation, db_query, dev, docker_remove, docker_restart,
  docker_stop, http_destructive, http_mutation, http_read, prod, require_confirmation,
  require_elevated_mode, shell_destructive, shell_mutation, shell_read,
}

pub record GuardContext : Type 0 where
  pub command_id : String
  pub action_kind : GuardActionKind
  pub component_kind : ComponentKind
  pub target_risk : TargetRiskLevel
  pub workspace_id : Option String
  pub session_id : Option String
  pub workspace_name : Option String
  pub target_ref : Option String
  pub confirmed : Bool
  pub elevated_mode : Bool
  pub dry_run_requested : Bool
  pub subject_ref : Option String
  pub description : Option String
  pub metadata : List (String × String)

pub data Explanation : Type 0 where
  no_rule : Explanation
  needs_elevation_prod needs_elevation_non_dev needs_confirmation : String → Explanation
  blocked_on_prod read_only allowed_after_checks : String → Explanation
  method_blocked : List ℕ → Explanation

pub record GuardDecision : Type 0 where
  pub command_id : String
  pub action_kind : GuardActionKind
  pub component_kind : ComponentKind
  pub target_risk : TargetRiskLevel
  pub outcome : GuardDecisionOutcome
  pub explanation : Explanation
  pub requires_confirmation : Bool
  pub requires_elevated_mode : Bool
  pub requires_dry_run : Bool
  pub audit_required : Bool
  -- `f"Confirm {description}."`, by the description
  pub confirmation_message : Option String
  pub metadata : List (String × String)

abbrev pub is_confirmation : GuardDecisionOutcome → Bool
is_confirmation require_confirmation = true
is_confirmation _ = false

abbrev pub is_elevation : GuardDecisionOutcome → Bool
is_elevation require_elevated_mode = true
is_elevation _ = false

abbrev pub is_prod : TargetRiskLevel → Bool
is_prod prod = true
is_prod _ = false

-- `target_risk in {STAGE, PROD}`
abbrev pub is_non_dev : TargetRiskLevel → Bool
is_non_dev dev = false
is_non_dev _ = true

-- `_decision`; the arguments are in the order of its keywords.
pub decision :
    GuardContext → GuardDecisionOutcome → Explanation → Option String → Bool → GuardDecision
decision context outcome explanation message audit = record {
  command_id = context.command_id;
  action_kind = context.action_kind;
  component_kind = context.component_kind;
  target_risk = context.target_risk;
  outcome = outcome;
  explanation = explanation;
  requires_confirmation = is_confirmation outcome;
  requires_elevated_mode = is_elevation outcome;
  requires_dry_run = false;
  audit_required = audit;
  confirmation_message = message;
  metadata = context.metadata;
}

-- `context.description or fallback`
abbrev pub describe : Option String → String → String
describe none fallback = fallback
describe (some text) fallback = if text == "" then fallback else text

abbrev is_docker_remove : GuardActionKind → Bool
is_docker_remove docker_remove = true
is_docker_remove _ = false

pub evaluate_docker : GuardContext → GuardDecision
unfolding decision
evaluate_docker context =
    let description = describe context.description "docker operation" in
    if is_docker_remove context.action_kind
      && is_prod context.target_risk
      && not context.elevated_mode
    then decision context require_elevated_mode (needs_elevation_prod description) none true
    else if not context.confirmed
    then decision context require_confirmation (needs_confirmation description) (some description)
        true
    else decision (record context { confirmed = true }) allow (allowed_after_checks description)
        none true

abbrev is_read : GuardActionKind → Bool
is_read db_query = true
is_read http_read = true
is_read shell_read = true
is_read _ = false

abbrev is_destructive : GuardActionKind → Bool
is_destructive db_destructive = true
is_destructive shell_destructive = true
is_destructive _ = false

-- The branches that `_evaluate_shell` and `_evaluate_db` write out twice, alike but for the words.
guard_local : GuardContext → String → GuardDecision
unfolding decision
guard_local context description =
    if is_read context.action_kind
    then decision context allow (read_only description) none false
    else if is_destructive context.action_kind && is_prod context.target_risk
    then decision context block (blocked_on_prod description) none true
    else if is_non_dev context.target_risk && not context.elevated_mode
    then decision context require_elevated_mode (needs_elevation_non_dev description) none true
    else if not context.confirmed
    then decision context require_confirmation (needs_confirmation description) (some description)
        true
    else decision (record context { confirmed = true }) allow (allowed_after_checks description)
        none true

pub evaluate_shell : GuardContext → GuardDecision
unfolding guard_local
evaluate_shell context = guard_local context (describe context.description "shell command")

pub evaluate_db : GuardContext → GuardDecision
unfolding guard_local
evaluate_db context = guard_local context (describe context.description "database operation")

-- `metadata.get("method", "")`
pub get_text : String → List (String × String) → String
get_text key [] = ""
get_text key ((k, v) ∷ rest) = let later = get_text key rest in if k == key then v else later

-- `method in _HTTP_BLOCKED_METHODS`
pub is_blocked_method : List ℕ → Bool
unfolding same_text
is_blocked_method method = same_text method (codes "CONNECT") || same_text method (codes "TRACE")

-- `str(context.metadata.get("method", "")).upper()`
pub http_method : GuardContext → List ℕ
unfolding get_text upper_char
http_method context = upper (codes (get_text "method" context.metadata))

pub evaluate_http : GuardContext → GuardDecision
unfolding decision
evaluate_http context =
    let description = describe context.description "HTTP request" in
    if is_blocked_method (http_method context)
    then decision context block (method_blocked (http_method context)) none true
    else if is_read context.action_kind
    then decision context allow (read_only description) none false
    else if is_prod context.target_risk && not context.elevated_mode
    then decision context require_elevated_mode (needs_elevation_prod description) none true
    else if not context.confirmed
    then decision context require_confirmation (needs_confirmation description) (some description)
        true
    else decision (record context { confirmed = true }) allow (allowed_after_checks description)
        none true

abbrev is_docker : GuardActionKind → Bool
is_docker docker_restart = true
is_docker docker_stop = true
is_docker docker_remove = true
is_docker _ = false

abbrev is_db : GuardActionKind → Bool
is_db db_query = true
is_db db_mutation = true
is_db db_destructive = true
is_db _ = false

abbrev is_http : GuardActionKind → Bool
is_http http_read = true
is_http http_mutation = true
is_http http_destructive = true
is_http _ = false

abbrev is_shell : GuardActionKind → Bool
is_shell shell_read = true
is_shell shell_mutation = true
is_shell shell_destructive = true
is_shell _ = false

-- `_evaluate`. The last branch builds its decision with no confirmation and without the metadata.
pub evaluate_context : GuardContext → GuardDecision
unfolding evaluate_docker evaluate_db evaluate_http evaluate_shell
evaluate_context context =
    if is_docker context.action_kind
    then evaluate_docker context
    else if is_db context.action_kind
    then evaluate_db context
    else if is_http context.action_kind
    then evaluate_http context
    else if is_shell context.action_kind
    then evaluate_shell context
    else record (decision context allow no_rule none true) { metadata = [] }

-- `evaluate`: the repository, here the list of what it has recorded, gets the decision.
pub evaluate : GuardContext → List GuardDecision → GuardDecision × List GuardDecision
evaluate context recorded =
    let verdict = evaluate_context context in (verdict, recorded ++ (verdict ∷ []))
