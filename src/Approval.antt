-- ===== src/Approval.antt =====
-- src/cockpit/ops/services/approval_service.py, over the tables that
-- src/cockpit/ops/repositories/response.py keeps. The store is explicit; a new identifier
-- (`make_id`) and the time (`utc_now`) are arguments. An operation that raises writes nothing before
-- it does, so an error carries no store.
mod Table
pub mod Ballot
pub mod Sound
pub mod Lifecycle
pub mod Lost
mod Tests
use cockpit_cli.Prelude.{
  Bool, List, Option, String, [], any, contains, false, if◌then◌else◌, leb, length, lookup, map,
  max, nat_eq, none, not, some, string_eq, true, ℕ, ◌&&◌, ◌*◌, ◌++◌, ◌+◌, ◌==◌, ◌∷◌,
}
use cockpit_cli.Enums.{
  ApprovalDecisionKind, ApprovalRequestStatus, approve, approved, component_kind_eq, expired,
  pending, reject, rejected,
}
unfoldable pub use Table.{
  save_request, list_for_request, list_expired, get_active_for_step, contract,
}
pub use Table.{
  Payload, ApprovalRequest, ApprovalDecision, Event, approval_requested, approval_resolved, Store,
  payload, contract_of, incident_of,
}

pub data Error : Type 0 where
  not_found not_pending self_approval already_decided : Error

pub data Result (A : Type 0) : Type 0 where
  ok : A → Result A
  err : Error → Result A

-- `max(1, int(count or 1))`
abbrev pub required_count : ℕ → ℕ
required_count count = max 1 (if count == 0 then 1 else count)

-- `utc_now() + timedelta(seconds=expires_after)`, in microseconds
abbrev pub expiry : Option ℕ → ℕ → Option ℕ
expiry none now = none
expiry (some after) now = some (now + after * 1000000)

-- The arguments of `ensure_request`, with what it reads of the run and of the step.
pub record Gate : Type 0 where
  pub response_run_id : String
  pub incident_id : String
  pub step_run_id : String
  pub requested_by : String
  pub required_approver_count : ℕ
  pub required_roles : List String
  pub allow_self_approval : Bool
  pub expires_after_seconds : Option ℕ
  pub reason : String

abbrev pub new_request : Gate → String → ℕ → ApprovalRequest
new_request gate id now = record {
  id = id;
  response_run_id = gate.response_run_id;
  step_run_id = gate.step_run_id;
  status = pending;
  requested_by = some gate.requested_by;
  required_approver_count = required_count gate.required_approver_count;
  required_roles = gate.required_roles;
  allow_self_approval = gate.allow_self_approval;
  reason = some gate.reason;
  expires_at = expiry gate.expires_after_seconds now;
  created_at = some now;
  resolved_at = none;
  payload = payload gate.incident_id;
}

-- The notification is recorded by the request that it is about.
pub ensure_request : Gate → String → ℕ → Store → ApprovalRequest × Store
unfolding save_request
ensure_request gate id now s = elim (get_active_for_step gate.step_run_id s) [
  | some existing ↦ (existing, s)
  | none ↦
      let r = new_request gate id now in
      let s' = save_request r now s in
      (
        r,
        record s' {
          events =
              s'.events ++ (approval_requested id gate.incident_id r.required_approver_count ∷ []);
          notified = if s'.has_notifier then s'.notified ++ (id ∷ []) else s'.notified;
        },
      )
]

abbrev pub is_reject : ApprovalDecision → Bool
is_reject d = elim d.decision [ approve ↦ false | reject ↦ true ]

-- `approver_ref in existing`
pub has_decided : String → List ApprovalDecision → Bool
has_decided approver ds = any (λ d. d.approver_ref == approver) ds

-- `{item.approver_ref for item in decisions if item.decision is APPROVE}`, in order of first mention
pub unique_approvers : List ApprovalDecision → List String
unique_approvers [] = []
unique_approvers (d ∷ ds) =
    let rest = unique_approvers ds in
    if is_reject d
    then rest
    else if contains d.approver_ref rest
    then rest
    else d.approver_ref ∷ rest

-- The status after a decision, and whether the decision has settled the request.
pub tally : ApprovalRequest → List ApprovalDecision → ApprovalRequestStatus × Bool
unfolding unique_approvers
tally r ds =
    if any is_reject ds
    then (rejected, true)
    else if leb r.required_approver_count (length (unique_approvers ds))
    then (approved, true)
    else (r.status, false)

abbrev pub is_pending : ApprovalRequestStatus → Bool
is_pending pending = true
is_pending _ = false

abbrev pub is_requester : ApprovalRequest → String → Bool
is_requester r approver = elim r.requested_by [ none ↦ false | some by ↦ by == approver ]

abbrev pub new_decision :
    String → String → ApprovalDecisionKind → Option String → String → ℕ → ApprovalDecision
new_decision request_id approver kind comment id now = record {
  id = id;
  approval_request_id = request_id;
  approver_ref = approver;
  decision = kind;
  comment = comment;
  created_at = some now;
}

-- The part of `decide` behind its guards: the decision is saved, the request counted and saved. As
-- the request was pending, its status has changed exactly if the count has settled it.
pub settle :
    ApprovalRequest
    → String
    → ApprovalDecisionKind
    → Option String
    → String
    → ℕ
    → Store
    → ApprovalRequest × Store
unfolding save_request list_for_request tally
settle r approver kind comment id now s =
    let d = new_decision r.id approver kind comment id now in
    let voted = record s { decisions = s.decisions ++ (d ∷ []) } in
    let (status, settled) = tally r (list_for_request r.id voted) in
    let r' = record r {
      status = status;
      resolved_at = if settled then some now else r.resolved_at;
    } in
    let saved = save_request r' now voted in
    (
      r',
      if settled
          then record saved {
            events = saved.events ++ (approval_resolved r.id (incident_of r.payload) status ∷ []);
          }
          else saved,
    )

pub decide :
    String
    → String
    → ApprovalDecisionKind
    → Option String
    → String
    → ℕ
    → Store
    → Result (ApprovalRequest × Store)
unfolding settle has_decided
decide request_id approver kind comment id now s = elim (lookup request_id s.requests) [
  | none ↦ err not_found
  | some r ↦
      if not (is_pending r.status)
      then err not_pending
      else if not r.allow_self_approval && is_requester r approver
      then err self_approval
      else if has_decided approver (list_for_request request_id s)
      then err already_decided
      else ok (settle r approver kind comment id now s)
]

abbrev pub is_expired : ApprovalRequestStatus → Bool
is_expired expired = true
is_expired _ = false

abbrev pub mark_expired : ℕ → ApprovalRequest → ApprovalRequest
mark_expired now r = record r { status = expired; resolved_at = some now }

-- One round of the loop of `expire_pending`.
pub expire_one : ℕ → ApprovalRequest → Store → Store
unfolding save_request
expire_one now r s =
    let s' = save_request (mark_expired now r) now s in
    if is_expired r.status then s' else record s' {
      events = s'.events ++ (approval_resolved r.id (incident_of r.payload) expired ∷ []);
    }

pub expire_all : ℕ → List ApprovalRequest → Store → Store
unfolding expire_one
expire_all now [] s = s
expire_all now (r ∷ rs) s = expire_all now rs (expire_one now r s)

-- `expire_pending`, at the time that is given
pub expire_pending : ℕ → Store → List ApprovalRequest × Store
unfolding expire_all list_expired
expire_pending now s =
    let due = list_expired now s in (map (mark_expired now) due, expire_all now due s)
