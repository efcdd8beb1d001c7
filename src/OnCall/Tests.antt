-- ===== src/OnCall/Tests.antt =====
-- Resolutions on small directories, and the theorems at concrete arguments.
use cockpit_cli.Prelude.{
  List, Option, String, [], arith, get_elem?, is_some, length, lookup, nat_eq, none, not, place,
  refl, some, sort, string_eq, top_by, true, ℕ, ◌%◌, ◌*◌, ◌+◌, ◌/◌, ◌==◌, ◌∷◌, ◌≡◌, ◌≢◌,
}
use cockpit_cli.Prelude.Int.{pos}
use cockpit_cli.Enums.{
  ComponentKind, ComponentKind-discrete, component_kind_eq, event_class_eq, http_request,
  incident_status_eq, severity_eq, target_risk_eq,
}
use cockpit_cli.OnCall.{
  Directory, OperatorTeam, OwnershipBinding, RotationRule, Subject, Zones, binding_matches,
  binding_specificity, covers, day_list, entry_minutes, has_day, int_of, interval_seconds,
  is_digits, matches, own_by, own_by_top, parse_time, resolve_ownership, resolve_rotation_person,
  split_colon, subject_kind_eq, text, top_bindings, weekly_window, weeks,
}
use cockpit_cli.OnCall.Ownership.{IsDecidedBy, resolve_ownership_unique}
use cockpit_cli.OnCall.Rotation.{resolve_rotation_turn, turn}
use cockpit_cli.OnCall.Shifts.{AllDays, covers_handover}

-- A zone that is UTC, from a Monday on.
abbrev utc : Zones
utc = record {
  is_known = λ name. name == "UTC";
  weekday = λ zone t. t / 86400000000 % 7;
  minute_of_day = λ zone t. t / 60000000 % 1440;
}

abbrev binding : String → Option ComponentKind → Option String → OwnershipBinding
binding id kind component = record {
  id = id;
  name = "owners";
  team_id = "t1";
  enabled = true;
  component_kind = kind;
  component_id = component;
  subject_kind = none;
  subject_ref = none;
  risk_level = none;
  escalation_policy_id = some "p1";
}

abbrev team : OperatorTeam
team = record {
  id = "t1";
  name = "core";
  enabled = true;
  description = none;
  default_escalation_policy_id = none;
}

-- One binding for all components of a kind, and one for a component.
abbrev directory : Directory
directory = record {
  people = [];
  teams = ("t1", team) ∷ [];
  bindings = binding "kind" (some http_request) none ∷ binding "one" none (some "c1") ∷ [];
  schedules = [];
  rotations = [];
  overrides = [];
  zones = utc;
}

abbrev subject : Subject
subject = record {
  component_kind = http_request;
  component_id = "c1";
  subject_kind = none;
  subject_ref = none;
  risk_level = none;
}

owner : (resolve_ownership directory subject).binding_id ≡ some "one"
unfolding resolve_ownership matches top_bindings own_by_top own_by binding_matches
    binding_specificity sort place top_by lookup ComponentKind-discrete
owner = refl

resolve_ownership_unique_example :
    (b : OwnershipBinding) × IsDecidedBy directory.bindings subject "one" b
resolve_ownership_unique_example = resolve_ownership_unique directory subject "one" owner

abbrev rotation : RotationRule
rotation = record {
  id = "r1";
  schedule_id = "s1";
  name = "weekly";
  participant_ids = "ann" ∷ "bob" ∷ [];
  enabled = true;
  anchor_at = some 1000;
  interval_kind = weeks;
  interval_count = pos 1;
}

resolve_rotation_turn_example :
    (resolve_rotation_person rotation (1000 + 3 * turn rotation + 5)
      ≡ get_elem? rotation.participant_ids (3 % length rotation.participant_ids))
    × (is_some (resolve_rotation_person rotation (1000 + 3 * turn rotation + 5)) ≡ true)
unfolding interval_seconds
resolve_rotation_turn_example =
    resolve_rotation_turn rotation 1000 3 5 refl (omega arith) (omega arith)

abbrev week : List (Option ℕ)
week = some 0 ∷ some 1 ∷ some 2 ∷ some 3 ∷ some 4 ∷ some 5 ∷ some 6 ∷ []

week-AllDays : AllDays week
unfolding has_day
week-AllDays day h = ground arith

start_differs : entry_minutes "00:00" (text "08:00") ≢ entry_minutes "00:00" (text "20:00")
unfolding entry_minutes parse_time split_colon is_digits int_of
start_differs h = absurd (omega arith)

covers_handover_example :
    covers utc "UTC" (weekly_window (day_list week) (text "08:00") (text "20:00")) 7000000000
    ≡ not
        (covers utc "UTC" (weekly_window (day_list week) (text "20:00") (text "08:00")) 7000000000)
covers_handover_example =
    covers_handover utc "UTC" "08:00" "20:00" week 7000000000 week-AllDays (λ zone t. omega arith)
      start_differs
