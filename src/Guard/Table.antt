-- ===== src/Guard/Table.antt =====
-- src/cockpit/ops/services/guard_policy_service.py: the policy as one table, and that the service
-- implements it.
use cockpit_cli.Prelude.{arith, false, true, ◌↔◌, ◌≡◌, ◌≢◌, ◌⊎◌}
use cockpit_cli.Enums.{
  GuardActionKind, allow, block, db_destructive, db_mutation, db_query, dev, docker_remove,
  docker_restart, docker_stop, http_destructive, http_mutation, http_read, prod,
  require_confirmation, require_elevated_mode, shell_destructive, shell_read,
}
use cockpit_cli.Guard.{GuardContext, evaluate_context, http_method, is_blocked_method}

-- How far an action reaches: it reads, it changes what can be restored, or it destroys.
pub data Effect : Type 0 where
  reads changes destroys : Effect

abbrev pub effect : GuardActionKind → Effect
effect db_query = reads
effect http_read = reads
effect shell_read = reads
effect docker_remove = destroys
effect db_destructive = destroys
effect http_destructive = destroys
effect shell_destructive = destroys
effect _ = changes

pub data Family : Type 0 where
  docker database http shell : Family

abbrev pub family : GuardActionKind → Family
family docker_restart = docker
family docker_stop = docker
family docker_remove = docker
family db_query = database
family db_mutation = database
family db_destructive = database
family http_read = http
family http_mutation = http
family http_destructive = http
family _ = shell

-- An action that is refused whatever the operator does: destruction of data or by shell on a
-- production target, or a blocked HTTP method.
abbrev pub IsForbidden : GuardContext → Type 0
IsForbidden c =
    ((c.target_risk ≡ prod)
      × (effect c.action_kind ≡ destroys)
      × ((family c.action_kind ≡ database) ⊎ (family c.action_kind ≡ shell)))
    ⊎ ((family c.action_kind ≡ http) × (is_blocked_method (http_method c) ≡ true))

-- An action that wants elevated mode: a change by shell or of data on a target other than dev, an
-- HTTP change on a production target, or the removal of a container there.
abbrev pub NeedsElevation : GuardContext → Type 0
NeedsElevation c =
    ((effect c.action_kind ≢ reads)
      × (c.target_risk ≢ dev)
      × ((family c.action_kind ≡ database) ⊎ (family c.action_kind ≡ shell)))
    ⊎ ((effect c.action_kind ≢ reads) × (c.target_risk ≡ prod) × (family c.action_kind ≡ http))
    ⊎ ((c.action_kind ≡ docker_remove) × (c.target_risk ≡ prod))

-- The service blocks exactly what is forbidden: the destruction of data or by shell on a production
-- target, and an HTTP request with a blocked method.
pub evaluate_context-blocks :
    (c : GuardContext) → ((evaluate_context c).outcome ≡ block) ↔ IsForbidden c
unfolding evaluate_context
evaluate_context-blocks c = (λ h. ground arith, λ h. ground arith)

-- Elevated mode is asked for exactly where it is needed, is off, and the action is not forbidden.
pub evaluate_context-elevation :
    (c : GuardContext)
    → ((evaluate_context c).outcome ≡ require_elevated_mode)
      ↔ (¬ IsForbidden c × NeedsElevation c × (c.elevated_mode ≡ false))
unfolding evaluate_context
evaluate_context-elevation c = (λ h. ground arith, λ h. ground arith)

-- Confirmation is asked for exactly where the action changes something, is neither forbidden nor in
-- want of an elevated mode that is off, and has not been confirmed.
pub evaluate_context-confirmation :
    (c : GuardContext)
    → ((evaluate_context c).outcome ≡ require_confirmation) ↔ (
        ¬ IsForbidden c
        × (NeedsElevation c → c.elevated_mode ≡ true)
        × (effect c.action_kind ≢ reads)
        × (c.confirmed ≡ false))
unfolding evaluate_context
evaluate_context-confirmation c = (λ h. ground arith, λ h. ground arith)

-- An action is allowed exactly when it is not forbidden, has the elevated mode that it needs, and
-- only reads or has been confirmed.
pub evaluate_context-allows :
    (c : GuardContext)
    → ((evaluate_context c).outcome ≡ allow) ↔ (
        ¬ IsForbidden c
        × (NeedsElevation c → c.elevated_mode ≡ true)
        × ((effect c.action_kind ≡ reads) ⊎ (c.confirmed ≡ true)))
unfolding evaluate_context
evaluate_context-allows c = (λ h. ground arith, λ h. ground arith)
