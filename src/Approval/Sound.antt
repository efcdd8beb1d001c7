-- ===== src/Approval/Sound.antt =====
-- src/cockpit/ops/services/approval_service.py: the invariant of the stored requests, and that every
-- operation keeps it.
use cockpit_cli.Prelude.{
  All, All-append, All-weaken, Bool-cases, Dict, List, Option, String, [], any, ap, arith, eq_iff,
  false, inl, inr, insert, is_some, is_some-lookup-insert, length, lookup, lookup-insert_ne,
  lookup-insert_self, nat_eq, refl, some, string_eq, sym, true, ℕ, ◌++◌, ◌<◌, ◌==◌, ◌∙◌, ◌∷◌, ◌≡◌,
  ◌≢◌, ◌≤◌,
}
use cockpit_cli.Enums.{ApprovalDecisionKind, approved, component_kind_eq, pending, rejected}
use cockpit_cli.Approval.{
  ApprovalDecision, ApprovalRequest, Store, contract, decide, has_decided, is_reject, is_requester,
  list_for_request, new_decision, ok, settle, unique_approvers,
}
use cockpit_cli.Approval.Ballot.{
  IsEligible, decide-eq-ok, decisions-settle, list_for_request-settle_ne, settle_outcome,
}

-- No approver has decided twice.
abbrev pub IsOnce : List ApprovalDecision → Type 0
IsOnce [] = Unit
IsOnce (d ∷ ds) = (has_decided d.approver_ref ds ≡ false) × IsOnce ds

-- A request `r` with the decisions `own`. It is approved only with enough different approvers and no
-- rejection, rejected only with a rejection, and pending only while neither is the case. Who asked
-- has not decided, unless the request permits that, and nobody has decided twice.
pub record IsFair (own : List ApprovalDecision) (r : ApprovalRequest) : Type 0 where
  pub some_needed : 1 ≤ r.required_approver_count
  pub if_pending :
      r.status ≡ pending
      → (any is_reject own ≡ false) × (length (unique_approvers own) < r.required_approver_count)
  pub if_approved :
      r.status ≡ approved
      → (any is_reject own ≡ false) × (r.required_approver_count ≤ length (unique_approvers own))
  pub if_rejected : r.status ≡ rejected → any is_reject own ≡ true
  pub independent :
      r.allow_self_approval ≡ false → All (λ d. is_requester r d.approver_ref ≡ false) own
  pub once : IsOnce own

-- The request that a decision is about is in the table.
abbrev pub IsAnchored : Dict String ApprovalRequest → ApprovalDecision → Type 0
IsAnchored d x = is_some (lookup x.approval_request_id d) ≡ true

pub record IsSound (s : Store) : Type 0 where
  pub keyed : All (λ row. row.1.id ≡ row.0) s.requests
  pub fair :
      (id : String) (r : ApprovalRequest)
      → lookup id s.requests ≡ some r
      → IsFair (list_for_request id s) r
  pub anchored : All (IsAnchored s.requests) s.decisions

-- A request and its table row after a save, in a table that has the row `old`.
abbrev pub rewritten : ApprovalRequest → ApprovalRequest → ApprovalRequest
rewritten old r = record old {
  status = r.status;
  resolved_at = r.resolved_at;
  payload = contract r;
}

requests-settle :
    (r : ApprovalRequest) (approver : String) (kind : ApprovalDecisionKind)
    (comment : Option String) (id : String) (now : ℕ) (s : Store)
    → lookup r.id s.requests ≡ some r
    → let (r', s') = settle r approver kind comment id now s in
      s'.requests ≡ insert r.id (rewritten r r') s.requests
unfolding settle
requests-settle r approver kind comment id now s h = ground arith

has_decided-snoc :
    (a : String) (ds : List ApprovalDecision) (d : ApprovalDecision)
    → has_decided a ds ≡ false
    → (d.approver_ref == a) ≡ false
    → has_decided a (ds ++ (d ∷ [])) ≡ false
unfolding has_decided
has_decided-snoc a [] d h n = rw n
has_decided-snoc a (x ∷ ds) d h n = ground (arith, has_decided-snoc a ds d)

IsOnce-snoc :
    (ds : List ApprovalDecision) (d : ApprovalDecision)
    → IsOnce ds
    → has_decided d.approver_ref ds ≡ false
    → IsOnce (ds ++ (d ∷ []))
unfolding has_decided
IsOnce-snoc [] d h n = (refl, tt)
IsOnce-snoc (x ∷ ds) d (new, more) n = (
  has_decided-snoc x.approver_ref ds d new
      (ground (arith, eq_iff d.approver_ref x.approver_ref, eq_iff x.approver_ref d.approver_ref)),
  IsOnce-snoc ds d more (ground arith),
)

-- What the fairness of a request before a decision gives after it.
settle-IsFair :
    (r : ApprovalRequest) (approver : String) (kind : ApprovalDecisionKind)
    (comment : Option String) (id : String) (now : ℕ) (s : Store)
    → IsEligible r.id approver s r
    → IsFair (list_for_request r.id s) r
    → let (r', s') = settle r approver kind comment id now s in
      IsFair (list_for_request r.id s') (rewritten r r')
settle-IsFair r approver kind comment id now s e f =
    let (own, rejects, approves, waits, _) =
      settle_outcome r approver kind comment id now s e.still_pending in
    let d = new_decision r.id approver kind comment id now in
    rw own (record {
      some_needed = f.some_needed;
      if_pending = waits.0;
      if_approved = approves.0;
      if_rejected = rejects.0;
      independent = λ strict.
          All-append (λ d. is_requester r d.approver_ref ≡ false) (list_for_request r.id s) (d ∷ [])
            (f.independent strict) (ground arith, tt);
      once = IsOnce-snoc (list_for_request r.id s) d f.once e.first_time;
    })

abbrev pub Keyed : Dict String ApprovalRequest → Type 0
Keyed = All (λ row. row.1.id ≡ row.0)

pub insert-Keyed :
    (k : String) (v : ApprovalRequest) (d : Dict String ApprovalRequest)
    → v.id ≡ k
    → Keyed d
    → Keyed (insert k v d)
unfolding insert
insert-Keyed k v [] e h = (e, tt)
insert-Keyed k v ((j, w) ∷ d) e (here, there) = elim (Bool-cases (k == j)) [
  | inl same ↦ rw same (e ∙ (string_eq.beq_holds k j).0 same, there)
  | inr other ↦ rw other (here, insert-Keyed k v d e there)
]

pub lookup-Keyed :
    (k : String) (v : ApprovalRequest) (d : Dict String ApprovalRequest)
    → Keyed d
    → lookup k d ≡ some v
    → v.id ≡ k
unfolding lookup
lookup-Keyed k v [] h e = absurd (ground arith)
lookup-Keyed k v ((j, w) ∷ d) (here, there) e = elim (Bool-cases (k == j)) [
  | inl same ↦ cc (here, (string_eq.beq_holds k j).0 same, rw same at e)
  | inr other ↦ lookup-Keyed k v d there (rw other at e)
]

-- Every row found in a table is fair, with the decisions that `own` gives for its key.
abbrev pub Fair : Dict String ApprovalRequest → (String → List ApprovalDecision) → Type 0
Fair d own = (i : String) (r : ApprovalRequest) → lookup i d ≡ some r → IsFair (own i) r

pub insert-Fair :
    (k : String) (v : ApprovalRequest) (d : Dict String ApprovalRequest)
    (own own' : String → List ApprovalDecision)
    → ((i : String) → k ≢ i → own' i ≡ own i)
    → IsFair (own' k) v
    → Fair d own
    → Fair (insert k v d) own'
insert-Fair k v d own own' same new old i r h = elim (Bool-cases (k == i)) [
  | inl p ↦ self ((string_eq.beq_holds k i).0 p)
  | inr n ↦
      let ne : k ≢ i = λ p. differ p n in
      rw (same i ne) (old i r (sym (lookup-insert_ne i k v d (λ p. ne (sym p))) ∙ h))
]
  where
    differ : k ≡ i → (k == i) ≡ false → ⊥
    differ p n = cc ((string_eq.beq_holds k i).1 p)

    self : k ≡ i → IsFair (own' i) r
    self p = let e : v ≡ r = cc (lookup-insert_self k v d, h, p) in rw (← p, ← e) new

pub insert-IsAnchored :
    (k : String) (v : ApprovalRequest) (d : Dict String ApprovalRequest)
    (xs : List ApprovalDecision)
    → All (IsAnchored d) xs
    → All (IsAnchored (insert k v d)) xs
insert-IsAnchored k v d xs = All-weaken xs (λ x. is_some-lookup-insert x.approval_request_id k v d)

settle-IsSound :
    (r : ApprovalRequest) (approver : String) (kind : ApprovalDecisionKind)
    (comment : Option String) (id : String) (now : ℕ) (s : Store)
    → IsSound s
    → IsEligible r.id approver s r
    → IsSound (settle r approver kind comment id now s).1
settle-IsSound r approver kind comment id now s sound e =
    let (r', s') = settle r approver kind comment id now s in
    let row = rewritten r r' in
    let same = requests-settle r approver kind comment id now s e.found in
    record {
      keyed = rw same (insert-Keyed r.id row s.requests refl sound.keyed);
      fair = rw same (
          insert-Fair r.id row s.requests (λ i. list_for_request i s) (λ i. list_for_request i s')
            (λ i ne. list_for_request-settle_ne i r approver kind comment id now s ne)
            (settle-IsFair r approver kind comment id now s e (sound.fair r.id r e.found))
            sound.fair);
      anchored =
          rw (decisions-settle r approver kind comment id now s, same)
            (All-append (IsAnchored (insert r.id row s.requests)) s.decisions
              (new_decision r.id approver kind comment id now ∷ [])
              (insert-IsAnchored r.id row s.requests s.decisions sound.anchored)
              (ap is_some (lookup-insert_self r.id row s.requests), tt));
    }

-- A decision that `decide` accepts keeps the stored requests sound: one is approved only with enough
-- different approvers and no rejection, rejected only with a rejection, and pending only while neither
-- is the case; nobody has decided a request twice, nor decided their own unless it permits that.
pub decide-IsSound :
    (request_id approver : String) (kind : ApprovalDecisionKind) (comment : Option String)
    (id : String) (now : ℕ) (s : Store) {out : ApprovalRequest × Store}
    → IsSound s
    → decide request_id approver kind comment id now s ≡ ok out
    → IsSound out.1
decide-IsSound request_id approver kind comment id now s {out} sound h =
    let (r, e, eq) = (decide-eq-ok request_id approver kind comment id now s out).0 h in
    let key = lookup-Keyed request_id r s.requests sound.keyed e.found in
    rw eq (settle-IsSound r approver kind comment id now s sound (rw key e))
