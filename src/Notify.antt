-- ===== src/Notify.antt =====
-- src/cockpit/notifications/services/policy_service.py and suppression_service.py: where a notification
-- goes, and which ones are held back. Times are microseconds.
pub mod Routes
pub mod Silenced
mod Tests
use Prim.Native.String.{compare}
use Prim.Native.Nat.{Ordering}
use cockpit_cli.Prelude.{
  Bool, Dict, Eq, List, Option, String, [], contains, false, if◌then◌else◌, insert, is_empty,
  is_some, keep, leb, lookup, ltb, map, nat_eq, none, not, some, sort, string_eq, true, ℕ, ◌&&◌,
  ◌++◌, ◌==◌, ◌||◌, ◌∷◌,
}
use cockpit_cli.Prelude.Int.{ltb_ℤ, pos, ℤ}
use cockpit_cli.Enums.{
  ComponentKind, ComponentKind-discrete, IncidentSeverity, IncidentSeverity-discrete,
  IncidentStatus, NotificationEventClass, NotificationEventClass-discrete, TargetRiskLevel,
  component_kind_eq, dev, event_class_eq, incident_status_eq, severity_eq, target_risk_eq,
}

pub data NotificationChannelKind : Type 0 where
  internal webhook slack ntfy : NotificationChannelKind

-- Without what only the delivery reads: target, secrets, timeout, attempts and backoff
pub record NotificationChannel : Type 0 where
  pub id : String
  pub name : String
  pub kind : NotificationChannelKind
  pub enabled : Bool
  pub risk_level : TargetRiskLevel

pub record NotificationRule : Type 0 where
  pub id : String
  pub name : String
  pub enabled : Bool
  pub event_classes : List NotificationEventClass
  pub component_kinds : List ComponentKind
  pub severities : List IncidentSeverity
  pub risk_levels : List TargetRiskLevel
  pub incident_statuses : List IncidentStatus
  pub channel_ids : List String
  pub delivery_priority : ℤ
  pub dedupe_window_seconds : ℤ
  pub updated_at : Option ℕ

pub record NotificationSuppressionRule : Type 0 where
  pub id : String
  pub name : String
  pub enabled : Bool
  pub reason : String
  pub starts_at : Option ℕ
  pub ends_at : Option ℕ
  pub event_classes : List NotificationEventClass
  pub component_kinds : List ComponentKind
  pub severities : List IncidentSeverity
  pub risk_levels : List TargetRiskLevel
  pub updated_at : ℕ

-- What the rules read of a candidate
pub record Candidate : Type 0 where
  pub event_class : NotificationEventClass
  pub severity : IncidentSeverity
  pub risk_level : TargetRiskLevel
  pub component_kind : Option ComponentKind
  pub incident_status : Option IncidentStatus

pub record NotificationRoutingDecision : Type 0 where
  pub channel_ids : List String
  pub dedupe_window_seconds : ℤ

pub record Tables : Type 0 where
  pub channels : Dict String NotificationChannel
  pub rules : Dict String NotificationRule

abbrev pub default_channel_id : String
default_channel_id = "internal-default"

abbrev pub default_rule_id : String
default_rule_id = "internal-default-rule"

abbrev pub default_channel : NotificationChannel
default_channel = record {
  id = default_channel_id;
  name = "Internal";
  kind = internal;
  enabled = true;
  risk_level = dev;
}

abbrev pub default_rule : ℕ → NotificationRule
default_rule now = record {
  id = default_rule_id;
  name = "Default Internal Route";
  enabled = true;
  event_classes = [];
  component_kinds = [];
  severities = [];
  risk_levels = [];
  incident_statuses = [];
  channel_ids = default_channel_id ∷ [];
  delivery_priority = pos 100;
  dedupe_window_seconds = pos 300;
  updated_at = some now;
}

-- `if repository.get(id) is None: repository.save(...)`
abbrev ensure : {A : Type 0} → String → A → Dict String A → Dict String A
ensure id row d = if is_some (lookup id d) then d else insert id row d

-- `ensure_defaults`
pub ensure_defaults : ℕ → Tables → Tables
unfolding lookup insert
ensure_defaults now t = record {
  channels = ensure default_channel_id default_channel t.channels;
  rules = ensure default_rule_id (default_rule now) t.rules;
}

module _ {A : Type 0} ⦃e : Eq A⦄ where
  -- `not values or value in values`
  abbrev pub admits : List A → A → Bool
  admits values value = is_empty values || contains value values

  -- the same, where nothing is asked of a value that is absent
  abbrev pub admits_any : List A → Option A → Bool
  admits_any values none = true
  admits_any values (some value) = admits values value

-- `_matches_rule`
pub matches_rule : Candidate → NotificationRule → Bool
unfolding NotificationEventClass-discrete ComponentKind-discrete IncidentSeverity-discrete
matches_rule c rule =
    admits rule.event_classes c.event_class
    && admits_any rule.component_kinds c.component_kind
    && admits rule.severities c.severity
    && admits rule.risk_levels c.risk_level
    && admits_any rule.incident_statuses c.incident_status

abbrev is_less : Ordering → Bool
is_less Ordering.lt = true
is_less _ = false

-- `ORDER BY name ASC, id ASC`
pub channel_before : NotificationChannel → NotificationChannel → Bool
channel_before a b =
    is_less (compare a.name b.name) || (a.name == b.name && is_less (compare a.id b.id))

abbrev is_internal : NotificationChannelKind → Bool
is_internal internal = true
is_internal _ = false

pub internal_channels : Tables → List String
unfolding channel_before
internal_channels t =
    map (λ channel. channel.id)
      (sort channel_before (
        keep (λ channel. channel.enabled && is_internal channel.kind)
          (map (λ (key, channel). channel) t.channels)))

abbrev or_current : ℕ → Option ℕ → ℕ
or_current now none = now
or_current now (some at) = at

-- The order of the keys `(delivery_priority, updated_at or utc_now())`
pub rule_before : ℕ → NotificationRule → NotificationRule → Bool
rule_before now a b =
    ltb_ℤ a.delivery_priority b.delivery_priority
    || (not (ltb_ℤ b.delivery_priority a.delivery_priority)
        && ltb (or_current now a.updated_at) (or_current now b.updated_at))

-- `if channel_id not in channel_ids: channel_ids.append(channel_id)`
abbrev pub append_new : List String → List String → List String
append_new ids [] = ids
append_new ids (id ∷ more) = append_new (if contains id ids then ids else ids ++ id ∷ []) more

-- The loop over the ordered rules
pub collect : List String → List NotificationRule → List String
collect ids [] = ids
collect ids (rule ∷ rules) = collect (append_new ids rule.channel_ids) rules

pub widest_window : ℤ → List NotificationRule → ℤ
widest_window window [] = window
widest_window window (rule ∷ rules) =
    widest_window
      (if ltb_ℤ window rule.dedupe_window_seconds then rule.dedupe_window_seconds else window) rules

pub matching_rules : Candidate → Tables → List NotificationRule
unfolding matches_rule
matching_rules c t =
    keep (λ rule. rule.enabled && matches_rule c rule) (map (λ (key, rule). rule) t.rules)

abbrev or_default_channel : List String → List String
or_default_channel [] = default_channel_id ∷ []
or_default_channel (id ∷ ids) = id ∷ ids

-- The decision on the rules that match
pub decide_route : ℕ → Tables → List NotificationRule → NotificationRoutingDecision
unfolding internal_channels rule_before collect widest_window
decide_route now t [] = record {
  channel_ids = or_default_channel (internal_channels t);
  dedupe_window_seconds = pos 300;
}
decide_route now t (rule ∷ rules) =
    let ordered = sort (rule_before now) (rule ∷ rules) in
    record {
      channel_ids = collect [] ordered;
      dedupe_window_seconds = widest_window (pos 300) ordered;
    }

-- `resolve`, which reads the tables after `ensure_defaults`
pub resolve : ℕ → Tables → Candidate → NotificationRoutingDecision
unfolding ensure_defaults matching_rules decide_route
resolve now t c =
    let tables = ensure_defaults now t in decide_route now tables (matching_rules c tables)

-- `_matches` of the suppression service
pub matches_suppression : Candidate → NotificationSuppressionRule → Bool
matches_suppression c rule =
    admits rule.event_classes c.event_class
    && admits_any rule.component_kinds c.component_kind
    && admits rule.severities c.severity
    && admits rule.risk_levels c.risk_level

-- The conditions of `list_active`
pub is_in_force : ℕ → NotificationSuppressionRule → Bool
is_in_force now rule =
    rule.enabled
    && elim rule.starts_at [ none ↦ true | some at ↦ leb at now ]
    && elim rule.ends_at [ none ↦ true | some at ↦ leb now at ]

pub list_active : ℕ → List NotificationSuppressionRule → List NotificationSuppressionRule
unfolding is_in_force
list_active now rules =
    sort
      (λ a b.
        ltb b.updated_at a.updated_at
        || (a.updated_at == b.updated_at && is_less (compare b.id a.id)))
      (keep (is_in_force now) rules)

-- The loop of `evaluate`: the rule that suppresses the candidate
pub first_match : Candidate → List NotificationSuppressionRule → Option NotificationSuppressionRule
first_match c [] = none
first_match c (rule ∷ rules) =
    let rest = first_match c rules in if matches_suppression c rule then some rule else rest

pub evaluate : ℕ → List NotificationSuppressionRule → Candidate → Option NotificationSuppressionRule
unfolding list_active first_match
evaluate now rules c = first_match c (list_active now rules)
