-- ===== src/Approval/Lost.antt =====
-- src/cockpit/ops/services/approval_service.py with src/cockpit/ops/repositories/response.py: what
-- the events say of the incident.
use cockpit_cli.Prelude.{
  Option, String, [], ap, arith, lookup, lookup-insert_self, nat_eq, none, string_eq, ℕ, ◌++◌, ◌∷◌,
  ◌≡◌, ◌≢◌,
}
use cockpit_cli.Enums.{ApprovalDecisionKind, component_kind_eq, pending}
use cockpit_cli.Approval.{
  ApprovalRequest, Gate, Store, approval_requested, approval_resolved, contract, decide,
  ensure_request, get_active_for_step, ok, required_count,
}
use cockpit_cli.Approval.Ballot.{decide-eq-ok, settle_outcome}
use cockpit_cli.Approval.Lifecycle.{ensure_request_new, new_row}

-- A request that is opened for an incident and then settled by a decision: the event that announces
-- it names the incident, and the event that resolves it has the empty text in its place, whatever
-- the incident is, since the table gives back another payload than the one that was saved.
pub decide_loses_incident :
    (gate : Gate) (id approver : String) (kind : ApprovalDecisionKind) (comment : Option String)
    (decision_id : String) (now later : ℕ) (s : Store) {out : ApprovalRequest × Store}
    → get_active_for_step gate.step_run_id s ≡ none
    → lookup id s.requests ≡ none
    → decide id approver kind comment decision_id later (ensure_request gate id now s).1 ≡ ok out
    → out.0.status ≢ pending
    → out.1.events
      ≡ (s.events
          ++ (approval_requested id gate.incident_id (required_count gate.required_approver_count)
              ∷ []))
        ++ (approval_resolved id "" out.0.status ∷ [])
unfolding contract
decide_loses_incident gate id approver kind comment decision_id now later s {out} idle new h
      settled =
    let (made, rows, same, sent) = ensure_request_new gate id now s idle new in
    let opened = (ensure_request gate id now s).1 in
    let (r, e, eq) = (decide-eq-ok id approver kind comment decision_id later opened out).0 h in
    let row = lookup-insert_self id (new_row gate id now) s.requests in
    let is_row : r ≡ new_row gate id now = cc (row, e.found, ap (λ d. lookup id d) rows) in
    let (_, _, _, _, events) =
      settle_outcome r approver kind comment decision_id later opened e.still_pending in
    ground (arith, events, is_row, eq, sent, made)
