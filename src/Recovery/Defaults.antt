-- ===== src/Recovery/Defaults.antt =====
-- src/cockpit/ops/services/recovery_policy_service.py: the table of default policies, as a
-- dictionary keyed by the component kind.
use cockpit_cli.Prelude.{
  ℕ, String, Bool, true, false, Option, none, some, List, [], ◌∷◌, ◌==◌, if◌then◌else◌,
}
use cockpit_cli.Enums.{
  ComponentKind, pty_session, ssh_tunnel, background_task, docker_runtime, datasource, http_request,
  plugin_host, web_admin, datasource_watch, docker_container_watch, component_kind_eq,
}

pub record RecoveryPolicy : Type 0 where
  pub component_kind : ComponentKind
  pub max_attempts : ℕ
  pub retry_window_seconds : ℕ
  pub base_backoff_seconds : ℕ
  pub max_backoff_seconds : ℕ
  pub cooldown_seconds : ℕ
  pub quarantine_after_exhaustion : Bool
  pub non_recoverable_markers : List String

-- One row of the table, under its key.
abbrev row : ComponentKind → ℕ → ℕ → ℕ → ℕ → ℕ → Bool → List String → ComponentKind × RecoveryPolicy
row kind attempts window base top cooldown quarantine markers = (
  kind,
  record {
    component_kind = kind;
    max_attempts = attempts;
    retry_window_seconds = window;
    base_backoff_seconds = base;
    max_backoff_seconds = top;
    cooldown_seconds = cooldown;
    quarantine_after_exhaustion = quarantine;
    non_recoverable_markers = markers;
  },
)

unfoldable pub default_policies : List (ComponentKind × RecoveryPolicy)
default_policies =
    row pty_session 3 300 1 8 60 true ("permission denied" ∷ "no such file" ∷ "not found" ∷ [])
    ∷ row ssh_tunnel 4 300 2 16 120 true ("permission denied" ∷ "host key verification failed" ∷ [])
    ∷ row background_task 2 180 1 4 60 true []
    ∷ row docker_runtime 1 300 1 1 60 false []
    ∷ row datasource 1 300 1 1 60 false []
    ∷ row http_request 1 300 1 1 60 false []
    ∷ row plugin_host 3 300 2 20 120 true
        ("permission denied" ∷ "integrity_failed" ∷ "incompatible" ∷ [])
    ∷ row web_admin 3 300 1 8 90 true ("address already in use" ∷ [])
    ∷ row datasource_watch 2 300 5 30 180 true []
    ∷ row docker_container_watch 2 300 5 30 180 true []
    ∷ []

-- `policies.get(kind)`
unfoldable pub get_policy :
    ComponentKind → List (ComponentKind × RecoveryPolicy) → Option RecoveryPolicy
get_policy kind [] = none
get_policy kind ((k, p) ∷ rest) =
    let later = get_policy kind rest in if k == kind then some p else later
