-- ===== src/Approval/Tests.antt =====
-- A request that wants two approvers, from its opening to its end, and the theorems on it.
use mathlib.Core.Option
use cockpit_cli.Prelude.{
  String, [], any, arith, false, if◌then◌else◌, insert, length, lookup, nat_eq, none, refl, some,
  string_eq, true, ◌++◌, ◌<◌, ◌↔◌, ◌∷◌, ◌≡◌, ◌≤◌, ◌⊎◌,
}
use cockpit_cli.Enums.{
  ApprovalDecisionKind, approve, approved, component_kind_eq, event_class_eq, expired,
  incident_status_eq, pending, reject, rejected, severity_eq, target_risk_eq,
}
use cockpit_cli.Approval.{
  ApprovalRequest, Gate, Result, Store, already_decided, approval_requested, approval_resolved,
  decide, ensure_request, err, expire_pending, get_active_for_step, incident_of, is_pending,
  is_reject, list_for_request, new_decision, ok, self_approval, settle, unique_approvers,
}
use cockpit_cli.Approval.Ballot.{settle_outcome}
use cockpit_cli.Approval.Sound.{IsSound, decide-IsSound}
use cockpit_cli.Approval.Lifecycle.{
  IsPendingRequest, Stores, ensure_request-IsSound, expire_pending-IsSound, new_row,
}
use cockpit_cli.Approval.Lost.{decide_loses_incident}

abbrev gate : Gate
gate = record {
  response_run_id = "rrn_1";
  incident_id = "inc_7";
  step_run_id = "stp_1";
  requested_by = "ana";
  required_approver_count = 2;
  required_roles = "lead" ∷ [];
  allow_self_approval = false;
  expires_after_seconds = some 600;
  reason = "restart the primary";
}

abbrev empty : Store
empty = record { requests = []; decisions = []; events = []; has_notifier = true; notified = [] }

abbrev opened : Store
opened = (ensure_request gate "apr_1" 1000 empty).1

-- The store behind a decision; one that raises is left as it was.
abbrev after : Result (ApprovalRequest × Store) → Store → Store
after (ok out) s = out.1
after (err _) s = s

abbrev vote : String → ApprovalDecisionKind → String → Store → Store
vote who kind id s = after (decide "apr_1" who kind none id 2000 s) s

abbrev approved_store : Store
approved_store = vote "cem" approve "apd_2" (vote "bob" approve "apd_1" opened)

approved_by_two :
    Option.map (λ r. r.status) (lookup "apr_1" approved_store.requests) ≡ some approved
unfolding ensure_request decide lookup insert get_active_for_step
approved_by_two = refl

refused_self : decide "apr_1" "ana" approve none "apd_1" 2000 opened ≡ err self_approval
unfolding ensure_request decide lookup insert get_active_for_step
refused_self = refl

refused_twice :
    decide "apr_1" "bob" reject none "apd_2" 2000 (vote "bob" approve "apd_1" opened)
    ≡ err already_decided
unfolding ensure_request decide lookup insert get_active_for_step
refused_twice = refl

late :
    (expire_pending 700000000 opened).1.events
    ≡ opened.events ++ (approval_resolved "apr_1" "" expired ∷ [])
unfolding ensure_request expire_pending lookup insert get_active_for_step
late = refl

empty-IsSound : IsSound empty
unfolding lookup
empty-IsSound = record { keyed = tt; fair = λ id r h. absurd (ground arith); anchored = tt }

ensure_request-IsSound_example :
    let (r, s') = ensure_request gate "apr_1" 1000 empty in
    IsSound s'
    × ((get_active_for_step "stp_1" empty ≡ some r) × (s' ≡ empty)
        ⊎ (get_active_for_step "stp_1" empty ≡ none)
          × IsPendingRequest gate "apr_1" r
          × Stores gate "apr_1" empty s'
          × (s'.events ≡ approval_requested "apr_1" "inc_7" r.required_approver_count ∷ []))
unfolding lookup
ensure_request-IsSound_example = ensure_request-IsSound gate "apr_1" 1000 empty empty-IsSound refl

opened-IsSound : IsSound opened
unfolding lookup
opened-IsSound = (ensure_request-IsSound gate "apr_1" 1000 empty empty-IsSound refl).0

decide-IsSound_example : IsSound (vote "bob" approve "apd_1" opened)
unfolding ensure_request decide lookup insert get_active_for_step
decide-IsSound_example =
    decide-IsSound "apr_1" "bob" approve none "apd_1" 2000 opened opened-IsSound refl

expire_pending-IsSound_example : IsSound (expire_pending 700000000 opened).1
expire_pending-IsSound_example = expire_pending-IsSound 700000000 opened opened-IsSound

abbrev out : ApprovalRequest × Store
out = settle (new_row gate "apr_1" 1000) "bob" reject none "apd_1" 2000 opened

settle_outcome_example :
    let r = new_row gate "apr_1" 1000 in
    let (r', s') = settle r "bob" reject none "apd_1" 2000 opened in
    let ds =
      list_for_request "apr_1" opened
      ++ (new_decision "apr_1" "bob" reject none "apd_1" 2000 ∷ []) in
    (list_for_request "apr_1" s' ≡ ds)
    × ((r'.status ≡ rejected) ↔ (any is_reject ds ≡ true))
    × ((r'.status ≡ approved) ↔ ((any is_reject ds ≡ false) × (2 ≤ length (unique_approvers ds))))
    × ((r'.status ≡ pending) ↔ ((any is_reject ds ≡ false) × (length (unique_approvers ds) < 2)))
    × (s'.events ≡ (
        if is_pending r'.status
        then opened.events
        else opened.events ++ (approval_resolved "apr_1" (incident_of r.payload) r'.status ∷ [])))
settle_outcome_example =
    settle_outcome (new_row gate "apr_1" 1000) "bob" reject none "apd_1" 2000 opened refl

decide_loses_incident_example :
    (vote "bob" reject "apd_1" opened).events
    ≡ approval_requested "apr_1" "inc_7" 2 ∷ approval_resolved "apr_1" "" rejected ∷ []
unfolding ensure_request decide lookup insert get_active_for_step
decide_loses_incident_example =
    decide_loses_incident gate "apr_1" "bob" reject none "apd_1" 1000 2000 empty refl refl refl
      (λ e. cc)
