-- ===== src/Healing/Kinds.antt =====
-- src/cockpit/core/enums.py: the values of the component kinds, and how they are read from a task's
-- metadata in src/cockpit/ops/services/self_healing_service.py.
use cockpit_cli.Prelude.{
  List, Option, String, [], if◌then◌else◌, nat_eq, none, some, string_eq, ◌==◌, ◌∷◌,
}
use cockpit_cli.Enums.{
  ComponentKind, background_task, case_file, component_kind_eq, datasource, datasource_watch,
  docker_container_watch, docker_runtime, event_class_eq, http_request, incident_status_eq,
  plugin_host, pty_session, remediation_run, response_run, severity_eq, ssh_tunnel, target_risk_eq,
  web_admin,
}

-- `kind.value`
unfoldable pub kind_value : ComponentKind → String
kind_value pty_session = "pty_session"
kind_value ssh_tunnel = "ssh_tunnel"
kind_value background_task = "background_task"
kind_value docker_runtime = "docker_runtime"
kind_value datasource = "datasource"
kind_value http_request = "http_request"
kind_value plugin_host = "plugin_host"
kind_value web_admin = "web_admin"
kind_value datasource_watch = "datasource_watch"
kind_value docker_container_watch = "docker_container_watch"
kind_value response_run = "response_run"
kind_value remediation_run = "remediation_run"
kind_value case_file = "case_file"

-- The members of the enumeration, in order
abbrev pub kinds : List ComponentKind
kinds =
    pty_session ∷ ssh_tunnel ∷ background_task ∷ docker_runtime ∷ datasource ∷ http_request
    ∷ plugin_host ∷ web_admin ∷ datasource_watch ∷ docker_container_watch ∷ response_run
    ∷ remediation_run ∷ case_file ∷ []

unfoldable pub find_kind : String → List ComponentKind → Option ComponentKind
unfolding kind_value
find_kind value [] = none
find_kind value (k ∷ rest) =
    let later = find_kind value rest in if kind_value k == value then some k else later

-- `ComponentKind(raw_value)`, and the default where there is no text or no such member
unfoldable pub component_kind_from_metadata : Option String → ComponentKind → ComponentKind
unfolding find_kind
component_kind_from_metadata none default = default
component_kind_from_metadata (some value) default = elim (find_kind value kinds) [
  | none ↦ default
  | some k ↦ k
]
