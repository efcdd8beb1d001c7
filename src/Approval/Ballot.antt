-- ===== src/Approval/Ballot.antt =====
-- src/cockpit/ops/services/approval_service.py: who may decide a request, and what a decision makes
-- of it.
use mathlib.Core.List.{append-nil}
use cockpit_cli.Prelude.{
  Option, Option-cases, String, [], any, arith, beq_false, beq_refl, false, if◌then◌else◌, inl, inr,
  keep, keep-append, length, lookup, nat_eq, some, string_eq, true, ℕ, ◌++◌, ◌<◌, ◌==◌, ◌↔◌, ◌∙◌,
  ◌∷◌, ◌≡◌, ◌≢◌, ◌≤◌, ◌⊎◌,
}
use cockpit_cli.Enums.{ApprovalDecisionKind, approved, component_kind_eq, pending, rejected}
use cockpit_cli.Approval.{
  ApprovalRequest, Store, approval_resolved, decide, has_decided, incident_of, is_pending,
  is_reject, is_requester, list_for_request, new_decision, ok, settle, unique_approvers,
}

-- A decision that `decide` accepts: the request `r` is there and pending, the approver has not
-- decided it before, and is not who asked for it unless the request permits that.
pub record IsEligible (request_id approver : String) (s : Store) (r : ApprovalRequest)
    : Type 0 where
  pub found : lookup request_id s.requests ≡ some r
  pub still_pending : r.status ≡ pending
  pub not_own : (r.allow_self_approval ≡ true) ⊎ (is_requester r approver ≡ false)
  pub first_time : has_decided approver (list_for_request request_id s) ≡ false

pub decide-eq-ok :
    (request_id approver : String) (kind : ApprovalDecisionKind) (comment : Option String)
    (id : String) (now : ℕ) (s : Store) (out : ApprovalRequest × Store)
    → (decide request_id approver kind comment id now s ≡ ok out) ↔ (
        (r : ApprovalRequest) × IsEligible request_id approver s r
        × (out ≡ settle r approver kind comment id now s))
unfolding decide
decide-eq-ok request_id approver kind comment id now s out = (to, λ (r, e, eq). ground arith)
  where
    to :
        decide request_id approver kind comment id now s ≡ ok out
        → (r : ApprovalRequest) × IsEligible request_id approver s r
          × (out ≡ settle r approver kind comment id now s)
    to h = elim (Option-cases (lookup request_id s.requests)) [
      | inl e ↦ absurd (ground arith)
      | inr (r, e) ↦ (r, ground arith, ground arith)
    ]

pub list_for_request-new :
    (request_id approver : String) (kind : ApprovalDecisionKind) (comment : Option String)
    (id : String) (now : ℕ) (s : Store)
    → let d = new_decision request_id approver kind comment id now in
      keep (λ x. x.approval_request_id == request_id) (s.decisions ++ (d ∷ []))
      ≡ list_for_request request_id s ++ (d ∷ [])
unfolding list_for_request
list_for_request-new request_id approver kind comment id now s =
    keep-append (λ x. x.approval_request_id == request_id) s.decisions
      (new_decision request_id approver kind comment id now ∷ [])
    ∙ rw (beq_refl request_id)

pub decisions-settle :
    (r : ApprovalRequest) (approver : String) (kind : ApprovalDecisionKind)
    (comment : Option String) (id : String) (now : ℕ) (s : Store)
    → (settle r approver kind comment id now s).1.decisions
      ≡ s.decisions ++ (new_decision r.id approver kind comment id now ∷ [])
unfolding settle
decisions-settle r approver kind comment id now s = ground arith

-- Saving a decision adds it to those of its request, and changes those of no other.
pub list_for_request-settle :
    (r : ApprovalRequest) (approver : String) (kind : ApprovalDecisionKind)
    (comment : Option String) (id : String) (now : ℕ) (s : Store)
    → list_for_request r.id (settle r approver kind comment id now s).1
      ≡ list_for_request r.id s ++ (new_decision r.id approver kind comment id now ∷ [])
unfolding list_for_request
list_for_request-settle r approver kind comment id now s =
    rw (decisions-settle r approver kind comment id now s)
      (list_for_request-new r.id approver kind comment id now s)

pub list_for_request-settle_ne :
    (other : String) (r : ApprovalRequest) (approver : String) (kind : ApprovalDecisionKind)
    (comment : Option String) (id : String) (now : ℕ) (s : Store)
    → r.id ≢ other
    → list_for_request other (settle r approver kind comment id now s).1 ≡ list_for_request other s
unfolding list_for_request
list_for_request-settle_ne other r approver kind comment id now s n =
    rw (decisions-settle r approver kind comment id now s) (
      keep-append (λ x. x.approval_request_id == other) s.decisions
        (new_decision r.id approver kind comment id now ∷ [])
      ∙ rw (beq_false r.id other n) (append-nil (list_for_request other s)))

-- The outcome of a decision on a pending request: one rejection settles it as rejected, otherwise
-- enough different approvers settle it as approved, otherwise it stays pending. The decision is
-- stored last among those of the request, and an event goes out exactly if the request is settled.
pub settle_outcome :
    (r : ApprovalRequest) (approver : String) (kind : ApprovalDecisionKind)
    (comment : Option String) (id : String) (now : ℕ) (s : Store)
    → r.status ≡ pending
    → let (r', s') = settle r approver kind comment id now s in
      let ds = list_for_request r.id s ++ (new_decision r.id approver kind comment id now ∷ []) in
      (list_for_request r.id s' ≡ ds)
      × ((r'.status ≡ rejected) ↔ (any is_reject ds ≡ true))
      × ((r'.status ≡ approved) ↔ (
          (any is_reject ds ≡ false) × (r.required_approver_count ≤ length (unique_approvers ds))))
      × ((r'.status ≡ pending) ↔ (
          (any is_reject ds ≡ false) × (length (unique_approvers ds) < r.required_approver_count)))
      × (s'.events ≡ (
          if is_pending r'.status
          then s.events
          else s.events ++ (approval_resolved r.id (incident_of r.payload) r'.status ∷ [])))
unfolding settle
settle_outcome r approver kind comment id now s p =
    let new = list_for_request-new r.id approver kind comment id now s in
    (
      list_for_request-settle r approver kind comment id now s,
      (λ h. ground (arith, new), λ h. ground (arith, new)),
      (λ h. ground (arith, new), λ h. ground (arith, new)),
      (λ h. ground (arith, new), λ h. ground (arith, new)),
      ground (arith, new),
    )
