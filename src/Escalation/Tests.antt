-- ===== src/Escalation/Tests.antt =====
-- An escalation on a small policy, with targets that are resolved by the on-call service, and the
-- theorems at concrete arguments.
use cockpit_cli.Prelude.{
  All, Bool, List, String, [], ap, arith, false, if◌then◌else◌, lookup, map, nat_eq, none, place,
  refl, some, sort, string_eq, sym, true, ℕ, ◌==◌, ◌∙◌, ◌∷◌, ◌≡◌, ◌≤◌, ◌⊎◌,
}
use cockpit_cli.Prelude.Int.{pos}
use cockpit_cli.Enums.{
  IncidentStatus, component_kind_eq, event_class_eq, high, http_request, incident_status_eq,
  severity_eq, target_risk_eq,
}
use cockpit_cli.OnCall.{
  Directory, OperatorTeam, OwnershipBinding, resolve_ownership, resolve_recipient, subject_kind_eq,
  to_channel,
}
use cockpit_cli.Escalation.{
  EngagementStatus, EscalationPolicy, EscalationStep, IncidentEngagement, IncidentRecord, Outcome,
  Policies, Services, Store, acknowledge_call, acknowledge_engagement, act, act_on_incident,
  act_on_step, active, attribute_error, delete_for_policy, delete_policy, due_call, escalate,
  escalate_to, exhausted, finish_page, first_step, get_policy, handoff_engagement, index_before,
  list_for_policy, next_step, not_open, opened_call, page_engagement, persist_policy,
  persisted_step, queued, raised, repage_call, repage_engagement, run, run_due_action, save_policy,
  saved, sent, step_at, store_of, tables_of, validate_policy, validate_steps,
}
use cockpit_cli.Escalation.Sound.{AllSound}
use cockpit_cli.Escalation.SoundCalls.{run-AllSound}
use cockpit_cli.Escalation.Saving.{save_policy-detail, stored_policy}
use cockpit_cli.Escalation.Ticks.{
  IsKeyed, actions_left, no_tick, run_due_action-Ticks, tick, took_effect,
}
use cockpit_cli.Escalation.Validated.{IsUsable, count_at, next_step-validated, validate_policy-none}
use cockpit_cli.Escalation.Deleted.{delete_policy-steps}
use cockpit_cli.Escalation.Refused.{IsAcknowledged, IsTooLate, calls-over}

abbrev step : String → ℕ → String → EscalationStep
step id index ref = record {
  id = id;
  policy_id = "p1";
  step_index = index;
  target_kind = to_channel;
  target_ref = ref;
  ack_timeout_seconds = none;
  repeat_page_seconds = none;
  max_repeat_pages = some (pos index);
  reminder_enabled = true;
  stop_on_ack = true;
  created_at = none;
  updated_at = none;
}

abbrev policy : EscalationPolicy
policy = record {
  id = "p1";
  name = "default";
  enabled = true;
  default_ack_timeout_seconds = pos 900;
  default_repeat_page_seconds = pos 300;
  max_repeat_pages = pos 2;
  terminal_behavior = "exhaust";
  created_at = none;
  updated_at = none;
}

-- The second step is given first.
abbrev steps : List EscalationStep
steps = step "s2" 1 "second" ∷ step "s1" 0 "first" ∷ []

abbrev tables : Policies
tables = record {
  policies = ("p1", policy) ∷ [];
  steps = ("s2", step "s2" 1 "second") ∷ ("s1", step "s1" 0 "first") ∷ [];
}

tables_keyed :
    (id : String) (found : EscalationPolicy) (b : Bool)
    → (id == "p1") ≡ b
    → (if b then some policy else none) ≡ some found
    → found.id ≡ id
tables_keyed id found true e h =
    let same : policy ≡ found = cc h in
    ap (λ x. x.id) (sym same) ∙ sym ((string_eq.beq_holds id "p1").0 e)
tables_keyed id found false e h = absurd (cc h)

tables-IsKeyed : IsKeyed tables
unfolding get_policy lookup
tables-IsKeyed id found h = tables_keyed id found (id == "p1") refl h

abbrev team : OperatorTeam
team = record {
  id = "t1";
  name = "core";
  enabled = true;
  description = none;
  default_escalation_policy_id = some "p1";
}

abbrev binding : OwnershipBinding
binding = record {
  id = "b1";
  name = "all";
  team_id = "t1";
  enabled = true;
  component_kind = none;
  component_id = none;
  subject_kind = none;
  subject_ref = none;
  risk_level = none;
  escalation_policy_id = none;
}

abbrev directory : Directory
directory = record {
  people = [];
  teams = ("t1", team) ∷ [];
  bindings = binding ∷ [];
  schedules = [];
  rotations = [];
  overrides = [];
  zones = record { is_known = λ name. false; weekday = λ zone t. 0; minute_of_day = λ zone t. 0 };
}

abbrev services : Services
services = record {
  policies = tables;
  resolve_owner = λ kind id. resolve_ownership directory (record {
    component_kind = kind;
    component_id = id;
    subject_kind = none;
    subject_ref = none;
    risk_level = none;
  });
  resolve_target = resolve_recipient directory;
  send = λ candidate. sent (record { id = "n1"; status = queued });
}

abbrev incident : IncidentRecord
incident = record {
  id = "i1";
  component_id = "c1";
  component_kind = http_request;
  severity = high;
  status = IncidentStatus.open_incident;
  title = "down";
  summary = "It is down.";
  opened_at = none;
  updated_at = none;
  acknowledged_at = none;
  resolved_at = none;
  closed_at = none;
}

abbrev opened : Store
opened = record { incidents = ("i1", incident) ∷ []; engagements = []; journal = [] }

run-AllSound_example : AllSound (
    run
      ((services, 1000, opened_call "e1" "i1")
        ∷ (services, 2000, acknowledge_call "e1" "ann")
        ∷ (services, 3000, repage_call "e1")
        ∷ (services, 900002000, due_call)
        ∷ [])
      opened)
run-AllSound_example =
    run-AllSound
      ((services, 1000, opened_call "e1" "i1")
        ∷ (services, 2000, acknowledge_call "e1" "ann")
        ∷ (services, 3000, repage_call "e1")
        ∷ (services, 900002000, due_call)
        ∷ [])
      opened tt

-- An engagement in the first step, whose deadline is over.
abbrev engagement : EngagementStatus → IncidentEngagement
engagement status = record {
  id = "e1";
  incident_id = "i1";
  incident_component_id = "c1";
  team_id = some "t1";
  policy_id = some "p1";
  status = status;
  current_step_index = 0;
  current_target_kind = some to_channel;
  current_target_ref = some "first";
  resolved_person_id = none;
  acknowledged_by = none;
  acknowledged_at = none;
  handoff_count = 0;
  repeat_page_count = 0;
  next_action_at = some 900;
  ack_deadline_at = some 900;
  last_page_at = none;
  is_exhausted = false;
  created_at = 0;
  updated_at = 0;
  closed_at = none;
}

abbrev with_engagement : EngagementStatus → Store
with_engagement status = record opened { engagements = ("e1", engagement status) ∷ [] }

valid : validate_policy policy steps ≡ none
unfolding validate_policy validate_steps sort place
valid = refl

validate_policy-none_example : (count_at 1 steps ≡ 1) × All IsUsable (sort index_before steps)
validate_policy-none_example = validate_policy-none policy steps 1 valid (omega arith)

save_policy-detail_example :
    save_policy tables 5 policy steps
    ≡ saved
        (record {
          policy = stored_policy tables 5 policy;
          steps = sort index_before (map (persisted_step 5 "p1") steps);
        })
        (persist_policy tables 5 policy steps)
unfolding delete_for_policy lookup
save_policy-detail_example =
    save_policy-detail tables 5 policy steps valid (refl, (refl, tt)) (refl, (refl, tt))

next_step-validated_example :
    next_step (sort index_before steps) 0 ≡ step_at (sort index_before steps) 1
next_step-validated_example = next_step-validated policy steps 0 valid

delete_policy-steps_example :
    let left = tables_of (delete_policy tables "p1") in
    (delete_policy tables "p1" ≡ attribute_error left)
    × (get_policy left "p1" ≡ get_policy tables "p1")
    × (first_step (list_for_policy left "p1") ≡ none)
    × (list_for_policy left "p2" ≡ list_for_policy tables "p2")
delete_policy-steps_example = delete_policy-steps tables "p1" "p2" refl

calls-over_example :
    IsTooLate exhausted
      × (acknowledge_engagement 5 "e1" "ann" (with_engagement exhausted)
          ≡ raised (not_open exhausted) (with_engagement exhausted))
      × (handoff_engagement services 5 "e1" "ann" to_channel "third" (with_engagement exhausted)
          ≡ raised (not_open exhausted) (with_engagement exhausted))
      × (repage_engagement services 5 "e1" (with_engagement exhausted)
          ≡ raised (not_open exhausted) (with_engagement exhausted))
    ⊎ (¬ IsTooLate exhausted)
      × IsAcknowledged 5 "ann"
          (engagement exhausted)
          (acknowledge_engagement 5 "e1" "ann" (with_engagement exhausted))
unfolding lookup
calls-over_example =
    calls-over services 5 "e1" "ann" to_channel "third" (with_engagement exhausted)
      (engagement exhausted) refl

abbrev first_tick : Outcome
first_tick = run_due_action services 1000 (engagement active) (with_engagement active)

took : took_effect first_tick ≡ true
unfolding run_due_action act_on_incident act_on_step act escalate escalate_to page_engagement
    finish_page resolve_recipient
took = refl

run_due_action-Ticks_example : 1 ≤ actions_left services (engagement active)
unfolding lookup
run_due_action-Ticks_example =
    run_due_action-Ticks services "e1" 1 (with_engagement active) (store_of first_tick)
      (engagement active) tables-IsKeyed refl
      (tick 0 1000 (engagement active) (with_engagement active) (store_of first_tick) refl refl refl
        refl took (no_tick (store_of first_tick)))
