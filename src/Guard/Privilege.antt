-- ===== src/Guard/Privilege.antt =====
-- src/cockpit/ops/services/guard_policy_service.py: what confirmation and elevated mode buy, and
-- what a decision records.
use cockpit_cli.Prelude.{Bool, arith, false, none, true, ℕ, ◌↔◌, ◌≡◌, ◌≢◌, ◌≤◌}
use cockpit_cli.Enums.{
  GuardDecisionOutcome, TargetRiskLevel, allow, block, prod, require_confirmation,
  require_elevated_mode, stage,
}
use cockpit_cli.Guard.{GuardContext, evaluate_context, http_method, is_blocked_method, no_rule}
use cockpit_cli.Guard.Table.{
  Effect, Family, database, destroys, docker, effect, family, http, reads, shell,
}

-- How far an outcome is from letting the action run.
abbrev pub severity : GuardDecisionOutcome → ℕ
severity allow = 0
severity require_confirmation = 1
severity require_elevated_mode = 2
severity block = 3

-- The outcome, by all that it depends on.
abbrev outcome_of : Family → Effect → TargetRiskLevel → Bool → Bool → Bool → GuardDecisionOutcome
outcome_of docker destroys prod false _ _ = require_elevated_mode
outcome_of http _ _ _ _ true = block
outcome_of database reads _ _ _ _ = allow
outcome_of http reads _ _ _ _ = allow
outcome_of shell reads _ _ _ _ = allow
outcome_of database destroys prod _ _ _ = block
outcome_of shell destroys prod _ _ _ = block
outcome_of database _ stage false _ _ = require_elevated_mode
outcome_of database _ prod false _ _ = require_elevated_mode
outcome_of shell _ stage false _ _ = require_elevated_mode
outcome_of shell _ prod false _ _ = require_elevated_mode
outcome_of http _ prod false _ _ = require_elevated_mode
outcome_of _ _ _ _ true _ = allow
outcome_of _ _ _ _ false _ = require_confirmation

abbrev outcome_at : GuardContext → Bool → Bool → GuardDecisionOutcome
outcome_at c elevated confirmed =
    outcome_of (family c.action_kind) (effect c.action_kind) c.target_risk elevated confirmed
      (is_blocked_method (http_method c))

outcome-evaluate_context :
    (c : GuardContext) → (evaluate_context c).outcome ≡ outcome_at c c.elevated_mode c.confirmed
unfolding evaluate_context
outcome-evaluate_context c = ground arith

outcome_of_mono :
    (f : Family) (e : Effect) (r : TargetRiskLevel) (elevated confirmed blocked : Bool)
    → (severity (outcome_of f e r elevated true blocked)
        ≤ severity (outcome_of f e r elevated confirmed blocked))
      × (severity (outcome_of f e r true confirmed blocked)
          ≤ severity (outcome_of f e r elevated confirmed blocked))
outcome_of_mono f e r elevated confirmed blocked = (ground arith, ground arith)

-- Confirming an action or switching elevated mode on never makes the outcome more severe.
pub evaluate_context_mono :
    (c : GuardContext)
    → (severity (evaluate_context (record c { confirmed = true })).outcome
        ≤ severity (evaluate_context c).outcome)
      × (severity (evaluate_context (record c { elevated_mode = true })).outcome
          ≤ severity (evaluate_context c).outcome)
unfolding http_method
evaluate_context_mono c =
    rw
      (
        outcome-evaluate_context c,
        outcome-evaluate_context (record c { confirmed = true }),
        outcome-evaluate_context (record c { elevated_mode = true }),
      )
      (outcome_of_mono (family c.action_kind) (effect c.action_kind) c.target_risk c.elevated_mode
        c.confirmed (is_blocked_method (http_method c)))

-- What an operator does about an outcome: confirm, or switch elevated mode on.
abbrev pub comply : GuardDecisionOutcome → GuardContext → GuardContext
comply require_confirmation c = record c { confirmed = true }
comply require_elevated_mode c = record c { elevated_mode = true }
comply _ c = c

abbrev pub retry : GuardContext → GuardContext
retry c = comply (evaluate_context c).outcome c

-- No action is locked out: unless the service blocks it, an operator who does what each answer asks
-- for is allowed at the third try at the latest.
pub retry_allows :
    (c : GuardContext)
    → (evaluate_context c).outcome ≢ block
    → (evaluate_context (retry (retry c))).outcome ≡ allow
unfolding http_method
retry_allows c free = ground (
  arith,
  outcome-evaluate_context c,
  outcome-evaluate_context (record c { confirmed = true }),
  outcome-evaluate_context (record c { elevated_mode = true }),
  outcome-evaluate_context (record c { elevated_mode = true; confirmed = true }),
)

-- Every decision repeats the command, the action, the component and the risk of its context, asks
-- for what its outcome says, carries a message for the operator exactly when it asks for
-- confirmation, and goes without an audit exactly when it lets an action through that only reads.
pub evaluate_context_echo :
    (c : GuardContext)
    → let d = evaluate_context c in
      (d.command_id ≡ c.command_id)
      × (d.action_kind ≡ c.action_kind)
      × (d.component_kind ≡ c.component_kind)
      × (d.target_risk ≡ c.target_risk)
      × ((d.requires_confirmation ≡ true) ↔ (d.outcome ≡ require_confirmation))
      × ((d.requires_elevated_mode ≡ true) ↔ (d.outcome ≡ require_elevated_mode))
      × ((d.confirmation_message ≢ none) ↔ (d.outcome ≡ require_confirmation))
      × ((d.audit_required ≡ false) ↔ ((d.outcome ≡ allow) × (effect c.action_kind ≡ reads)))
      × (d.metadata ≡ c.metadata)
      × (d.explanation ≢ no_rule)
unfolding evaluate_context
evaluate_context_echo c = (
  ground arith,
  ground arith,
  ground arith,
  ground arith,
  (λ h. ground arith, λ h. ground arith),
  (λ h. ground arith, λ h. ground arith),
  (λ h. ground arith, λ h. ground arith),
  (λ h. ground arith, λ h. ground arith),
  ground arith,
  ground arith,
)
