-- ===== src/Escalation/Run.antt =====
-- src/cockpit/ops/services/escalation_service.py: the operations, one after another.
use cockpit_cli.Prelude.{List, Option, String, [], nat_eq, none, some, string_eq, ℕ, ◌∷◌}
use cockpit_cli.Enums.{IncidentStatus, component_kind_eq, target_risk_eq}
use cockpit_cli.OnCall.{EscalationTargetKind, subject_kind_eq}
use cockpit_cli.Escalation.Data.{Outcome, Store, store_of}
use cockpit_cli.Escalation.Effects.{Services}
use cockpit_cli.Escalation.Due.{run_due_actions}
use cockpit_cli.Escalation.Incidents.{on_incident_opened, on_incident_status_changed}
use cockpit_cli.Escalation.Calls.{acknowledge_engagement, handoff_engagement, repage_engagement}

-- A call of an operator, the timer, or an event of an incident; a new engagement gets the id given.
pub data Call : Type 0 where
  acknowledge_call : String → String → Call
  handoff_call : String → String → EscalationTargetKind → String → Call
  repage_call : String → Call
  due_call : Call
  opened_call : String → String → Call
  status_call : String → IncidentStatus → Call

abbrev pub store_or : Store → Option Outcome → Store
store_or s none = s
store_or s (some o) = store_of o

-- The state after a call, whether it returns or raises.
unfoldable pub apply : Services → ℕ → Call → Store → Store
unfolding acknowledge_engagement handoff_engagement repage_engagement run_due_actions
    on_incident_opened on_incident_status_changed
apply svc now (acknowledge_call id actor) s = store_of (acknowledge_engagement now id actor s)
apply svc now (handoff_call id actor kind ref) s =
    store_of (handoff_engagement svc now id actor kind ref s)
apply svc now (repage_call id) s = store_of (repage_engagement svc now id s)
apply svc now due_call s = (run_due_actions svc now s).1
apply svc now (opened_call id incident_id) s =
    store_or s (on_incident_opened svc now id incident_id s)
apply svc now (status_call incident_id new) s = on_incident_status_changed now incident_id new s

-- Calls one after another, each with the services and the time as they are then.
unfoldable pub run : List (Services × ℕ × Call) → Store → Store
unfolding apply
run [] s = s
run ((svc, now, call) ∷ calls) s = run calls (apply svc now call s)
