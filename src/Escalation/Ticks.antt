-- ===== src/Escalation/Ticks.antt =====
-- src/cockpit/ops/services/escalation_service.py: the actions that an engagement has one after another.
use cockpit_cli.Prelude.{
  Bool, Option, String, ap, arith, false, if◌then◌else◌, lookup, nat_eq, none, not, refl, some,
  string_eq, suc, sym, true, ℕ, ◌<◌, ◌==◌, ◌∙◌, ◌≡◌, ◌≤◌,
}
use cockpit_cli.OnCall.{subject_kind_eq}
use cockpit_cli.Escalation.{
  Error, EscalationPolicy, EscalationStep, IncidentEngagement, IncidentRecord, Outcome, Policies,
  Required, Services, Store, act, act_on_incident, act_on_step, get_policy, have, incident_found,
  is_active, is_due, list_for_policy, missing, page_failed, policy_found, policy_named, raised,
  require_incident, require_step, returned, run_due_action, step_at, step_found, store_of,
  without_policy,
}
use cockpit_cli.Escalation.Rank.{rank}
use cockpit_cli.Escalation.Stored.{IsStored, Leaves}
use cockpit_cli.Escalation.Advance.{IsAdvanced, act-Leaves}

abbrev is_page_failure : Error → Bool
is_page_failure page_failed = true
is_page_failure _ = false

-- The action got as far as what it stores: it was not stopped by a row that is missing.
abbrev pub took_effect : Outcome → Bool
took_effect (returned e s) = true
took_effect (raised error s) = is_page_failure error

unfoldable left_found : Services → IncidentEngagement → String → Option EscalationPolicy → ℕ
left_found svc e id none = 0
left_found svc e id (some policy) = rank policy (list_for_policy svc.policies id) e

unfoldable left_named : Services → IncidentEngagement → Option String → ℕ
unfolding left_found
left_named svc e none = 0
left_named svc e (some id) = left_found svc e id (get_policy svc.policies id)

-- A bound on the actions that an engagement may still have
unfoldable pub actions_left : Services → IncidentEngagement → ℕ
unfolding left_named
actions_left svc e = left_named svc e e.policy_id

-- A policy is stored under its own id.
abbrev pub IsKeyed : Policies → Type 0
IsKeyed p =
    (id : String) (policy : EscalationPolicy) → get_policy p id ≡ some policy → policy.id ≡ id

-- `n` actions of the engagement `id`, each of them when it was due, and whatever time passed between.
pub data Ticks (svc : Services) (id : String) : ℕ → Store → Store → Type 0 where
  no_tick : (s : Store) → Ticks svc id 0 s s
  tick :
      (n now : ℕ) (e : IncidentEngagement) (s s2 : Store)
      → e.id ≡ id
      → lookup id s.engagements ≡ some e
      → is_active e.status ≡ true
      → is_due now e ≡ true
      → took_effect (run_due_action svc now e s) ≡ true
      → Ticks svc id n (store_of (run_due_action svc now e s)) s2
      → Ticks svc id (suc n) s s2

-- The same engagement, with fewer actions left.
abbrev HasFewer : Services → IncidentEngagement → IncidentEngagement → Type 0
HasFewer svc e e2 = (e2.id ≡ e.id) × (actions_left svc e2 < actions_left svc e)

-- What `require_step` finds is what the tables hold.
abbrev IsRequired :
    Services → IncidentEngagement → Required (EscalationPolicy × EscalationStep) → Type 0
IsRequired svc e (missing error) = is_page_failure error ≡ false
IsRequired svc e (have (policy, step)) =
    (id : String) × (e.policy_id ≡ some id)
    × (get_policy svc.policies id ≡ some policy)
    × (step_at (list_for_policy svc.policies id) e.current_step_index ≡ some step)

module _ (svc : Services) (e : IncidentEngagement) where
  step_found-IsRequired :
      (id : String) (policy : EscalationPolicy) (o : Option EscalationStep)
      → e.policy_id ≡ some id
      → get_policy svc.policies id ≡ some policy
      → step_at (list_for_policy svc.policies id) e.current_step_index ≡ o
      → IsRequired svc e (step_found e.current_step_index id policy o)
  unfolding step_found
  step_found-IsRequired id policy none h k l = refl
  step_found-IsRequired id policy (some step) h k l = (id, h, k, l)

  policy_found-IsRequired :
      (id : String) (o : Option EscalationPolicy)
      → e.policy_id ≡ some id
      → get_policy svc.policies id ≡ o
      → IsRequired svc e (policy_found svc e id o)
  unfolding policy_found
  policy_found-IsRequired id none h k = refl
  policy_found-IsRequired id (some policy) h k = step_found-IsRequired id policy _ h k refl

  if-IsRequired :
      (b : Bool) (q : Required (EscalationPolicy × EscalationStep))
      → IsRequired svc e q
      → IsRequired svc e (if b then missing (without_policy e.id) else q)
  if-IsRequired true q h = refl
  if-IsRequired false q h = h

  policy_named-IsRequired :
      (o : Option String) → e.policy_id ≡ o → IsRequired svc e (policy_named svc e o)
  unfolding policy_named
  policy_named-IsRequired none h = refl
  policy_named-IsRequired (some id) h =
      if-IsRequired (id == "") _ (policy_found-IsRequired id (get_policy svc.policies id) h refl)

Leaves-IsStored :
    (P : IncidentEngagement → Type 0) (id : String) (o : Outcome)
    → took_effect o ≡ true
    → Leaves P id o
    → IsStored P id (store_of o)
Leaves-IsStored P id (returned e s) h k = k
Leaves-IsStored P id (raised page_failed s) h k = k
Leaves-IsStored P id (raised error s) h k = absurd (cc h)

module _ (svc : Services) (keyed : IsKeyed svc.policies) (now : ℕ) (e : IncidentEngagement)
    (running : is_active e.status ≡ true) (due : is_due now e ≡ true) (s : Store) where
  actions_left_lem :
      (e2 : IncidentEngagement) (id : String) (policy : EscalationPolicy)
      → e2.policy_id ≡ some id
      → get_policy svc.policies id ≡ some policy
      → actions_left svc e2 ≡ rank policy (list_for_policy svc.policies id) e2
  unfolding actions_left left_named left_found
  actions_left_lem e2 id policy h k = ap (left_named svc e2) h ∙ ap (left_found svc e2 id) k

  act_on_step-HasFewer :
      (incident : IncidentRecord) (q : Required (EscalationPolicy × EscalationStep))
      → IsRequired svc e q
      → took_effect (act_on_step svc now e incident q s) ≡ true
      → IsStored (HasFewer svc e) e.id (store_of (act_on_step svc now e incident q s))
  unfolding act_on_step
  act_on_step-HasFewer incident (missing error) h t = absurd (cc (h, t))
  act_on_step-HasFewer incident (have (policy, step)) (id, h, k, l) t =
      let steps = list_for_policy svc.policies id in
      let (e2, stored, (same, same_policy, fewer)) =
        Leaves-IsStored (IsAdvanced policy steps e) e.id (act svc now e incident policy step s) t (
          act-Leaves svc policy steps now e incident s running step (rw (keyed id policy k) refl)
            due l) in
      (
        e2,
        stored,
        (
          same,
          rw (actions_left_lem e2 id policy (same_policy ∙ h) k)
              (rw (actions_left_lem e id policy h k) fewer),
        ),
      )

  if_not-HasFewer :
      (o : Outcome)
      → (took_effect o ≡ true → IsStored (HasFewer svc e) e.id (store_of o))
      → took_effect (if not (is_active e.status) then returned e s else o) ≡ true
      → IsStored
          (HasFewer svc e)
          e.id
          (store_of (if not (is_active e.status) then returned e s else o))
  if_not-HasFewer o f = rw running f

  act_on_incident-HasFewer :
      (id : String) (o : Option IncidentRecord)
      → took_effect (act_on_incident svc now e s (incident_found id o)) ≡ true
      → IsStored
          (HasFewer svc e)
          e.id
          (store_of (act_on_incident svc now e s (incident_found id o)))
  unfolding act_on_incident incident_found require_step
  act_on_incident-HasFewer id none t = absurd (cc t)
  act_on_incident-HasFewer id (some incident) t =
      if_not-HasFewer (act_on_step svc now e incident (require_step svc e) s)
        (act_on_step-HasFewer incident (require_step svc e)
          (policy_named-IsRequired svc e e.policy_id refl))
        t

  -- A due action that takes effect stores the engagement with fewer actions left.
  pub run_due_action-HasFewer :
      took_effect (run_due_action svc now e s) ≡ true
      → IsStored (HasFewer svc e) e.id (store_of (run_due_action svc now e s))
  unfolding run_due_action require_incident
  run_due_action-HasFewer =
      act_on_incident-HasFewer e.incident_id (lookup e.incident_id s.incidents)

Ticks-bounded :
    (svc : Services) (id : String) {n : ℕ} {s s2 : Store} (e : IncidentEngagement)
    → IsKeyed svc.policies
    → Ticks svc id n s s2
    → lookup id s.engagements ≡ some e
    → n ≤ actions_left svc e
Ticks-bounded svc id e keyed (no_tick s) h = omega arith
Ticks-bounded svc id e keyed (tick n now e1 s s2 same stored running due took rest) h =
    let (e2, stored2, (same2, fewer)) =
      run_due_action-HasFewer svc keyed now e1 running due s took in
    let bound = Ticks-bounded svc id e2 keyed rest (rw (sym same) stored2) in
    let first : e1 ≡ e = cc (stored, h) in rw (sym first) (omega (arith, fewer, bound))

-- Escalation ends. However the resolution of the targets and the dispatch of the notifications turn out,
-- and however late each action is run, an engagement has no more due actions than `actions_left`: the
-- pages, the wait and the escalation of each step from the current one on. The policy stays the same
-- meanwhile, nobody hands the engagement off or has it paged anew, and only actions that no missing row stops count.
pub run_due_action-Ticks :
    (svc : Services) (id : String) (n : ℕ) (s s2 : Store) (e : IncidentEngagement)
    → IsKeyed svc.policies
    → lookup id s.engagements ≡ some e
    → Ticks svc id n s s2
    → n ≤ actions_left svc e
run_due_action-Ticks svc id n s s2 e keyed h t = Ticks-bounded svc id e keyed t h
