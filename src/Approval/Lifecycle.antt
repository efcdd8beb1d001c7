-- ===== src/Approval/Lifecycle.antt =====
-- src/cockpit/ops/services/approval_service.py: opening and expiring requests keep the invariant of
-- the stored requests.
use cockpit_cli.Prelude.{
  All, All-keep, All-weaken, Dict, List, Option-cases, String, [], ap, arith, beq_false, beq_refl,
  inl, inr, insert, is_some, is_some-lookup-insert, keep_none, lookup, lookup-insert_ne,
  lookup-insert_self, map, nat_eq, none, refl, some, string_eq, true, ℕ, ◌++◌, ◌==◌, ◌∙◌, ◌∷◌, ◌≡◌,
  ◌≢◌, ◌≤◌, ◌⊎◌,
}
use cockpit_cli.Enums.{
  component_kind_eq, event_class_eq, incident_status_eq, pending, severity_eq, target_risk_eq,
}
use cockpit_cli.Approval.{
  ApprovalDecision, ApprovalRequest, Gate, Store, approval_requested, contract, ensure_request,
  expire_all, expire_one, expire_pending, get_active_for_step, list_expired, list_for_request,
  mark_expired, new_request, unique_approvers,
}
use cockpit_cli.Approval.Sound.{
  IsAnchored, IsFair, IsSound, Keyed, insert-Fair, insert-IsAnchored, insert-Keyed, lookup-Keyed,
  rewritten,
}

-- The decisions of a request that is not in the table: there are none.
no_decisions :
    (id : String) (s : Store)
    → lookup id s.requests ≡ none
    → All (IsAnchored s.requests) s.decisions
    → list_for_request id s ≡ []
unfolding list_for_request
no_decisions id s new anchored =
    keep_none (λ d. d.approval_request_id == id) s.decisions
      (All-weaken s.decisions (λ d h. beq_false d.approval_request_id id (λ e. differ d e h))
        anchored)
  where
    differ : (d : ApprovalDecision) → d.approval_request_id ≡ id → IsAnchored s.requests d → ⊥
    differ d e h = cc (ap (λ k. is_some (lookup k s.requests)) e, h, new)

-- The row of a new request.
abbrev pub new_row : Gate → String → ℕ → ApprovalRequest
new_row gate id now = record (new_request gate id now) {
  payload = contract (new_request gate id now);
}

new_row-IsFair : (gate : Gate) (id : String) (now : ℕ) → IsFair [] (new_row gate id now)
unfolding unique_approvers contract
new_row-IsFair gate id now = record {
  some_needed = ground arith;
  if_pending = λ h. ground arith;
  if_approved = λ h. ground arith;
  if_rejected = λ h. ground arith;
  independent = λ h. tt;
  once = tt;
}

-- The request has the identifier and the step run, is pending, and wants at least one approver.
pub record IsPendingRequest (gate : Gate) (id : String) (r : ApprovalRequest) : Type 0 where
  pub named : r.id ≡ id
  pub for_step : r.step_run_id ≡ gate.step_run_id
  pub waits : r.status ≡ pending
  pub wanted : 1 ≤ r.required_approver_count

-- A pending request is stored under the identifier; no other row and no decision changes.
pub record Stores (gate : Gate) (id : String) (s s' : Store) : Type 0 where
  pub row : ApprovalRequest
  pub stored : lookup id s'.requests ≡ some row
  pub well : IsPendingRequest gate id row
  pub others : (j : String) → j ≢ id → lookup j s'.requests ≡ lookup j s.requests
  pub decided : s'.decisions ≡ s.decisions

new_request-IsPendingRequest :
    (gate : Gate) (id : String) (now : ℕ) → IsPendingRequest gate id (new_request gate id now)
new_request-IsPendingRequest gate id now = record {
  named = refl;
  for_step = refl;
  waits = refl;
  wanted = ground arith;
}

new_row-IsPendingRequest :
    (gate : Gate) (id : String) (now : ℕ) → IsPendingRequest gate id (new_row gate id now)
new_row-IsPendingRequest gate id now = record {
  named = refl;
  for_step = refl;
  waits = refl;
  wanted = ground arith;
}

pub ensure_request_new :
    (gate : Gate) (id : String) (now : ℕ) (s : Store)
    → get_active_for_step gate.step_run_id s ≡ none
    → lookup id s.requests ≡ none
    → let (r, s') = ensure_request gate id now s in
      (r ≡ new_request gate id now)
      × (s'.requests ≡ insert id (new_row gate id now) s.requests)
      × (s'.decisions ≡ s.decisions)
      × (s'.events
          ≡ s.events ++ (approval_requested id gate.incident_id r.required_approver_count ∷ []))
unfolding ensure_request
ensure_request_new gate id now s none_active new =
    (ground arith, ground arith, ground arith, ground arith)

insert_new-IsSound :
    (gate : Gate) (id : String) (now : ℕ) (s s' : Store)
    → IsSound s
    → lookup id s.requests ≡ none
    → s'.requests ≡ insert id (new_row gate id now) s.requests
    → s'.decisions ≡ s.decisions
    → IsSound s'
unfolding list_for_request
insert_new-IsSound gate id now s s' sound new rows same =
    let row = new_row gate id now in
    record {
      keyed = rw rows (insert-Keyed id row s.requests refl sound.keyed);
      fair = rw rows (
          insert-Fair id row s.requests (λ i. list_for_request i s) (λ i. list_for_request i s')
            (λ i ne. rw same)
            (rw same (rw (no_decisions id s new sound.anchored) (new_row-IsFair gate id now)))
            sound.fair);
      anchored = rw (same, rows) (insert-IsAnchored id row s.requests s.decisions sound.anchored);
    }

-- `ensure_request`, with an identifier that is not in the table, keeps the invariant. It returns the
-- pending request of the step if there is one, and then changes nothing. Otherwise the request that it
-- returns has the identifier and the step run, is pending and wants at least one approver; a row with
-- these values is added under the identifier, no other row and no decision changes, and one event
-- announces it.
pub ensure_request-IsSound :
    (gate : Gate) (id : String) (now : ℕ) (s : Store)
    → IsSound s
    → lookup id s.requests ≡ none
    → let (r, s') = ensure_request gate id now s in
      IsSound s'
      × ((get_active_for_step gate.step_run_id s ≡ some r) × (s' ≡ s)
          ⊎ (get_active_for_step gate.step_run_id s ≡ none)
            × IsPendingRequest gate id r
            × Stores gate id s s'
            × (s'.events
                ≡ s.events
                  ++ (approval_requested id gate.incident_id r.required_approver_count ∷ [])))
unfolding ensure_request
ensure_request-IsSound gate id now s sound new =
    elim (Option-cases (get_active_for_step gate.step_run_id s)) [
      | inl e ↦
          let (r, rows, same, sent) = ensure_request_new gate id now s e new in
          (
            insert_new-IsSound gate id now s (ensure_request gate id now s).1 sound new rows same,
            inr (
              e,
              rw r (new_request-IsPendingRequest gate id now),
              record {
                row = new_row gate id now;
                stored =
                    ap (λ d. lookup id d) rows
                    ∙ lookup-insert_self id (new_row gate id now) s.requests;
                well = new_row-IsPendingRequest gate id now;
                others = λ j ne.
                    ap (λ d. lookup j d) rows
                    ∙ lookup-insert_ne j id (new_row gate id now) s.requests ne;
                decided = same;
              },
              sent,
            ),
          )
      | inr (r, e) ↦ rw (e, ensure_request) (sound, inl (refl, refl))
    ]

expire_one_row :
    (now : ℕ) (r old : ApprovalRequest) (s : Store)
    → lookup r.id s.requests ≡ some old
    → ((expire_one now r s).requests ≡ insert r.id (rewritten old (mark_expired now r)) s.requests)
      × ((expire_one now r s).decisions ≡ s.decisions)
unfolding expire_one
expire_one_row now r old s found = (ground arith, ground arith)

expired-IsFair :
    (own : List ApprovalDecision) (old r : ApprovalRequest) (now : ℕ)
    → IsFair own old
    → IsFair own (rewritten old (mark_expired now r))
expired-IsFair own old r now f = record {
  some_needed = f.some_needed;
  if_pending = λ h. cc;
  if_approved = λ h. cc;
  if_rejected = λ h. cc;
  independent = f.independent;
  once = f.once;
}

abbrev IsRow : Store → ApprovalRequest → Type 0
IsRow s r = is_some (lookup r.id s.requests) ≡ true

expire_one-IsSound :
    (now : ℕ) (r : ApprovalRequest) (s : Store)
    → IsSound s
    → IsRow s r
    → IsSound (expire_one now r s)
      × ((rs : List ApprovalRequest) → All (IsRow s) rs → All (IsRow (expire_one now r s)) rs)
unfolding list_for_request
expire_one-IsSound now r s sound there = elim (Option-cases (lookup r.id s.requests)) [
  | inl e ↦ absurd (ground arith)
  | inr (old, e) ↦
      let s' = expire_one now r s in
      let row = rewritten old (mark_expired now r) in
      let (rows, same) = expire_one_row now r old s e in
      let key = lookup-Keyed r.id old s.requests sound.keyed e in
      (
        record {
          keyed = rw rows (insert-Keyed r.id row s.requests key sound.keyed);
          fair = rw rows (
              insert-Fair r.id row s.requests (λ i. list_for_request i s)
                (λ i. list_for_request i s') (λ i ne. rw same)
                (rw same
                  (expired-IsFair (list_for_request r.id s) old r now (sound.fair r.id old e)))
                sound.fair);
          anchored =
              rw (same, rows) (insert-IsAnchored r.id row s.requests s.decisions sound.anchored);
        },
        λ rs h. All-weaken rs (λ x p. rw rows (is_some-lookup-insert x.id r.id row s.requests p)) h,
      )
]

expire_all-IsSound :
    (now : ℕ) (rs : List ApprovalRequest) (s : Store)
    → IsSound s
    → All (IsRow s) rs
    → IsSound (expire_all now rs s)
unfolding expire_all
expire_all-IsSound now [] s sound there = sound
expire_all-IsSound now (r ∷ rs) s sound (here, there) =
    let (sound', kept) = expire_one-IsSound now r s sound here in
    expire_all-IsSound now rs (expire_one now r s) sound' (kept rs there)

lookup-head_rest :
    (k j : String) (w : ApprovalRequest) (d : Dict String ApprovalRequest)
    → is_some (lookup k d) ≡ true
    → is_some (lookup k ((j, w) ∷ d)) ≡ true
unfolding lookup
lookup-head_rest k j w d h = ground arith

rows_found :
    (d : Dict String ApprovalRequest)
    → Keyed d
    → All (λ (r : ApprovalRequest). is_some (lookup r.id d) ≡ true) (map (λ row. row.1) d)
unfolding lookup
rows_found [] h = tt
rows_found ((j, w) ∷ d) (here, there) = (
  ground (arith, beq_refl j, here),
  All-weaken (map (λ row. row.1) d) (λ r h. lookup-head_rest r.id j w d h) (rows_found d there),
)

-- `expire_pending`, at any time, keeps the stored requests sound, in the sense of the invariant that
-- `decide` keeps.
pub expire_pending-IsSound : (now : ℕ) (s : Store) → IsSound s → IsSound (expire_pending now s).1
unfolding expire_pending list_expired
expire_pending-IsSound now s sound =
    expire_all-IsSound now (list_expired now s) s sound
      (All-keep (IsRow s) _ (map (λ row. row.1) s.requests) (rows_found s.requests sound.keyed))
