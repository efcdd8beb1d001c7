-- ===== src/Notify/Tests.antt =====
-- A route and a suppression on small tables, and the theorems at concrete arguments.
use cockpit_cli.Prelude.{
  [], any, contains, false, insert, is_empty, is_some, lookup, nat_eq, none, refl, some, string_eq,
  true, ◌↔◌, ◌∷◌, ◌≡◌,
}
use cockpit_cli.Enums.{
  component_kind_eq, dev, engagement_paged_class, event_class_eq, high, incident_status_eq,
  severity_eq, target_risk_eq,
}
use cockpit_cli.Notify.{
  Candidate, NotificationSuppressionRule, Tables, default_channel_id, ensure_defaults, evaluate,
  matches_rule, matching_rules, resolve,
}
use cockpit_cli.Notify.Routes.{resolve-channels}
use cockpit_cli.Notify.Silenced.{AnySilences, evaluate-suppresses}

abbrev empty_tables : Tables
empty_tables = record { channels = []; rules = [] }

abbrev candidate : Candidate
candidate = record {
  event_class = engagement_paged_class;
  severity = high;
  risk_level = dev;
  component_kind = none;
  incident_status = none;
}

default_matches : is_empty (matching_rules candidate (ensure_defaults 5 empty_tables)) ≡ false
unfolding matching_rules matches_rule ensure_defaults lookup insert
default_matches = refl

resolve-channels_example :
    contains default_channel_id (resolve 5 empty_tables candidate).channel_ids
    ≡ any
        (λ rule. contains default_channel_id rule.channel_ids)
        (matching_rules candidate (ensure_defaults 5 empty_tables))
resolve-channels_example =
    resolve-channels 5 empty_tables candidate default_channel_id default_matches

abbrev night : NotificationSuppressionRule
night = record {
  id = "q1";
  name = "night";
  enabled = true;
  reason = "";
  starts_at = some 10;
  ends_at = some 20;
  event_classes = [];
  component_kinds = [];
  severities = high ∷ [];
  risk_levels = [];
  updated_at = 0;
}

evaluate-suppresses_example :
    (is_some (evaluate 15 (night ∷ []) candidate) ≡ true) ↔ AnySilences 15 candidate (night ∷ [])
evaluate-suppresses_example = evaluate-suppresses 15 (night ∷ []) candidate
