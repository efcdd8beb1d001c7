-- ===== src/Approval/Table.antt =====
-- src/cockpit/ops/repositories/response.py: the tables `approval_requests` and
-- `approval_decisions`, with the records of src/cockpit/ops/models/response.py.
use cockpit_cli.Prelude.{
  Bool, Dict, List, Option, String, [], false, if◌then◌else◌, insert, keep, lookup, ltb, map,
  nat_eq, none, some, string_eq, true, ℕ, ◌&&◌, ◌==◌, ◌∷◌,
}
use cockpit_cli.Enums.{ApprovalDecisionKind, ApprovalRequestStatus, component_kind_eq, pending}

-- The `payload` dictionary of a request. A new request has `{"incident_id": …}`. What is written to
-- the table is not this dictionary, but the whole request as one, with this under the key
-- "payload"; and that is what a read returns.
pub data Payload : Type 0 where
  payload : String → Payload
  contract_of : Payload → Payload

-- `payload.get("incident_id", "")`: a serialized request has no such key.
abbrev pub incident_of : Payload → String
incident_of (payload incident) = incident
incident_of (contract_of _) = ""

pub record ApprovalRequest : Type 0 where
  pub id : String
  pub response_run_id : String
  pub step_run_id : String
  pub status : ApprovalRequestStatus
  pub requested_by : Option String
  pub required_approver_count : ℕ
  pub required_roles : List String
  pub allow_self_approval : Bool
  pub reason : Option String
  pub expires_at : Option ℕ
  pub created_at : Option ℕ
  pub resolved_at : Option ℕ
  pub payload : Payload

-- Without the payload, which the service leaves empty.
pub record ApprovalDecision : Type 0 where
  pub id : String
  pub approval_request_id : String
  pub approver_ref : String
  pub decision : ApprovalDecisionKind
  pub comment : Option String
  pub created_at : Option ℕ

-- What is published: the fields that the services compute. `approval_requested` has the request, the
-- incident and the number of approvers; `approval_resolved` the request, the incident and the status.
pub data Event : Type 0 where
  approval_requested : String → String → ℕ → Event
  approval_resolved : String → String → ApprovalRequestStatus → Event

-- The tables, and what has gone out: the events on the bus, and the requests notified of, if there is
-- a notification service.
pub record Store : Type 0 where
  pub requests : Dict String ApprovalRequest
  pub decisions : List ApprovalDecision
  pub events : List Event
  pub has_notifier : Bool
  pub notified : List String

-- `request.to_dict()`, as the `payload_json` that a read decodes.
unfoldable pub contract : ApprovalRequest → Payload
contract r = contract_of r.payload

abbrev or_now : Option ℕ → ℕ → Option ℕ
or_now none now = some now
or_now (some t) now = some t

-- `ON CONFLICT(id) DO UPDATE` writes the status, the time of resolution and the payload.
abbrev merge : Option ApprovalRequest → ApprovalRequest → ℕ → ApprovalRequest
merge none r now = record r {
  created_at = or_now r.created_at now;
  payload = contract_of r.payload;
}
merge (some old) r now = record old {
  status = r.status;
  resolved_at = r.resolved_at;
  payload = contract_of r.payload;
}

unfoldable pub save_request : ApprovalRequest → ℕ → Store → Store
unfolding contract
save_request r now s = record s {
  requests = insert r.id (merge (lookup r.id s.requests) r now) s.requests;
}

-- In the order of insertion, which is that of creation while the clock does not go back.
unfoldable pub list_for_request : String → Store → List ApprovalDecision
list_for_request request_id s = keep (λ d. d.approval_request_id == request_id) s.decisions

abbrev is_pending : ApprovalRequestStatus → Bool
is_pending pending = true
is_pending _ = false

abbrev is_over : Option ℕ → ℕ → Bool
is_over none now = false
is_over (some t) now = ltb t now

unfoldable pub list_expired : ℕ → Store → List ApprovalRequest
list_expired now s =
    keep (λ r. is_pending r.status && is_over r.expires_at now) (map (λ row. row.1) s.requests)

-- The first row that the query finds.
first_active : String → Dict String ApprovalRequest → Option ApprovalRequest
first_active step [] = none
first_active step ((_, r) ∷ rows) =
    let rest = first_active step rows in
    if r.step_run_id == step && is_pending r.status then some r else rest

unfoldable pub get_active_for_step : String → Store → Option ApprovalRequest
unfolding first_active
get_active_for_step step s = first_active step s.requests
