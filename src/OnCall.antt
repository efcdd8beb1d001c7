-- ===== src/OnCall.antt =====
-- src/cockpit/ops/services/oncall_resolution_service.py: who owns a component, who is on call, and
-- whom an escalation step reaches. The tables are lists, in the order in which the queries of
-- src/cockpit/ops/repositories/oncall.py give their rows.
mod Data
mod Coverage
pub mod Shifts
pub mod Rotation
pub mod Ownership
mod Tests
unfoldable pub use Data.*
unfoldable pub use Coverage.*
use Prim.Native.String.{compare}
use Prim.Native.Nat.{Ordering}
use cockpit_cli.Prelude.{
  Bool, Dict, Eq, List, Option, String, [], false, if◌then◌else◌, is_empty, is_some, keep, leb,
  lookup, ltb, map, nat_eq, none, not, some, sort, string_eq, top_by, true, ℕ, ◌&&◌, ◌+◌, ◌==◌,
  ◌||◌, ◌∷◌,
}
use cockpit_cli.Prelude.Int.{ltb_ℤ}
use cockpit_cli.Enums.{ComponentKind, TargetRiskLevel, component_kind_eq, target_risk_eq}

pub record Directory : Type 0 where
  pub people : Dict String OperatorPerson
  pub teams : Dict String OperatorTeam
  pub bindings : List OwnershipBinding
  pub schedules : List OnCallSchedule
  pub rotations : List RotationRule
  pub overrides : List ScheduleOverride
  pub zones : Zones

-- What ownership is asked for.
pub record Subject : Type 0 where
  pub component_kind : ComponentKind
  pub component_id : String
  pub subject_kind : Option OwnershipSubjectKind
  pub subject_ref : Option String
  pub risk_level : Option TargetRiskLevel

module _ {A : Type 0} ⦃e : Eq A⦄ where
  -- `bound is not None and bound is not value`, negated
  abbrev pub agrees : Option A → A → Bool
  agrees none value = true
  agrees (some bound) value = bound == value

  -- the same, where the value may be `None`
  abbrev pub agrees_with : Option A → Option A → Bool
  agrees_with none value = true
  agrees_with (some bound) none = false
  agrees_with (some bound) (some value) = bound == value

-- `_binding_matches`
pub binding_matches : Subject → OwnershipBinding → Bool
binding_matches s b =
    agrees b.component_kind s.component_kind
    && agrees b.component_id s.component_id
    && agrees_with b.subject_kind s.subject_kind
    && agrees_with b.subject_ref s.subject_ref
    && agrees_with b.risk_level s.risk_level

-- A text counts as absent when it is empty.
abbrev pub is_given : Option String → Bool
is_given none = false
is_given (some t) = not (t == "")

abbrev points : Bool → ℕ → ℕ
points given n = if given then n else 0

-- `_binding_specificity`
pub binding_specificity : OwnershipBinding → ℕ
binding_specificity b =
    points (is_given b.component_id) 100
    + points (is_given b.subject_ref) 80
    + points (is_some b.component_kind) 40
    + points (is_some b.subject_kind) 20
    + points (is_some b.risk_level) 10

-- The matching bindings, the most specific first.
pub matches : Subject → List OwnershipBinding → List OwnershipBinding
unfolding binding_matches binding_specificity
matches s bindings =
    sort (λ a b. ltb (binding_specificity b) (binding_specificity a))
      (keep (λ b. b.enabled && binding_matches s b) bindings)

-- `[binding for score, binding in matches if score == top_score]`
pub top_bindings : List OwnershipBinding → List OwnershipBinding
unfolding binding_specificity top_by
top_bindings = top_by binding_specificity

abbrev unowned : ResolutionOutcome → Reason → OwnershipResolution
unowned outcome reason = record {
  outcome = outcome;
  team_id = none;
  escalation_policy_id = none;
  binding_id = none;
  explanation = reason;
}

-- `first or second`, of texts
abbrev pub or_else : Option String → Option String → Option String
or_else first second = if is_given first then first else second

-- The part of `resolve_ownership` for the binding that has been chosen.
pub own_by : Directory → OwnershipBinding → OwnershipResolution
own_by d b = elim (lookup b.team_id d.teams) [
  | none ↦ record (unowned blocked_by (team_unavailable b.team_id)) { binding_id = some b.id }
  | some team ↦
      if not team.enabled
      then record (unowned blocked_by (team_unavailable b.team_id)) { binding_id = some b.id }
      else let policy = or_else b.escalation_policy_id team.default_escalation_policy_id in
        if not (is_given policy)
        then record (unowned blocked_by (no_policy team.name)) {
          team_id = some team.id;
          binding_id = some b.id;
        }
        else record {
          outcome = resolved_to;
          team_id = some team.id;
          escalation_policy_id = policy;
          binding_id = some b.id;
          explanation = via_binding b.name;
        }
]

-- The part of `resolve_ownership` after `top_matches`.
pub own_by_top : Directory → Subject → List OwnershipBinding → OwnershipResolution
unfolding own_by
own_by_top d s [] = unowned unassigned (no_binding s.component_id)
own_by_top d s (b ∷ []) = own_by d b
own_by_top d s (b ∷ c ∷ bs) = unowned blocked_by (many_bindings s.component_id)

pub resolve_ownership : Directory → Subject → OwnershipResolution
unfolding matches top_bindings own_by_top
resolve_ownership d s = own_by_top d s (top_bindings (matches s d.bindings))

-- `list_active_for_schedule`: by falling priority, then by falling time of creation.
pub override_before : ScheduleOverride → ScheduleOverride → Bool
override_before a b =
    ltb b.priority a.priority || (b.priority == a.priority && ltb b.created_at a.created_at)

pub list_active_for_schedule : String → ℕ → List ScheduleOverride → List ScheduleOverride
unfolding override_before
list_active_for_schedule schedule_id at overrides = sort override_before (
    keep (λ o. o.schedule_id == schedule_id && o.enabled && leb o.starts_at at && leb at o.ends_at)
      overrides)

-- `override.replaced_person_id is None or override.replaced_person_id == base_person_id`
abbrev pub replaces : String → ScheduleOverride → Bool
replaces base o = elim o.replaced_person_id [ none ↦ true | some person ↦ person == base ]

pub active_overrides : Directory → String → String → ℕ → List ScheduleOverride
unfolding list_active_for_schedule
active_overrides d schedule_id base at =
    keep (replaces base) (list_active_for_schedule schedule_id at d.overrides)

-- The overrides of the highest priority; the first one has it.
pub top_overrides : List ScheduleOverride → List ScheduleOverride
unfolding top_by
top_overrides = top_by (λ o. o.priority)

abbrev off_call :
    ResolutionOutcome
    → String
    → Option String
    → Option String
    → Option String
    → Reason
    → OnCallResolution
off_call outcome team schedule rotation override_id reason = record {
  outcome = outcome;
  team_id = team;
  schedule_id = schedule;
  rotation_id = rotation;
  person_id = none;
  override_id = override_id;
  explanation = reason;
}

-- The end of `resolve_oncall`, with the person that is to be on call.
pub oncall_person : Directory → String → String → String → String → Option String → OnCallResolution
oncall_person d team schedule rotation person_id override_id = elim (lookup person_id d.people) [
  | none ↦
      off_call blocked_by team (some schedule) (some rotation) override_id
        (operator_unavailable person_id)
  | some person ↦
      if not person.enabled
      then off_call blocked_by team (some schedule) (some rotation) override_id
          (operator_unavailable person_id)
      else record {
        outcome = resolved_to;
        team_id = team;
        schedule_id = some schedule;
        rotation_id = some rotation;
        person_id = some person.id;
        override_id = override_id;
        explanation = operator_resolved person.handle;
      }
]

-- The overrides of the rotation, whose turn it is that of `base`.
pub oncall_override :
    Directory → OperatorTeam → OnCallSchedule → RotationRule → String → ℕ → OnCallResolution
unfolding active_overrides top_overrides oncall_person
oncall_override d team schedule rotation base at =
    elim (top_overrides (active_overrides d schedule.id base at)) [
      | [] ↦ oncall_person d team.id schedule.id rotation.id base none
      | o ∷ [] ↦ oncall_person d team.id schedule.id rotation.id o.replacement_person_id (some o.id)
      | o ∷ p ∷ os ↦
          off_call blocked_by team.id (some schedule.id) (some rotation.id) none
            (conflicting_overrides schedule.name)
    ]

-- `none` is the `RuntimeError` of a rotation without participants.
pub oncall_rotation : Directory → OperatorTeam → OnCallSchedule → ℕ → Option OnCallResolution
unfolding oncall_override resolve_rotation_person
oncall_rotation d team schedule at =
    elim (keep (λ r. r.schedule_id == schedule.id && r.enabled) d.rotations) [
      | [] ↦
          some
            (off_call blocked_by team.id (some schedule.id) none none (no_rotation schedule.name))
      | rotation ∷ [] ↦ elim (resolve_rotation_person rotation at) [
        | none ↦ none
        | some base ↦ some (oncall_override d team schedule rotation base at)
      ]
      | r ∷ q ∷ rs ↦
          some (
            off_call blocked_by team.id (some schedule.id) none none (many_rotations schedule.name))
    ]

pub resolve_oncall : Directory → String → ℕ → Option OnCallResolution
unfolding oncall_rotation schedule_matches
resolve_oncall d team_id at = elim (lookup team_id d.teams) [
  | none ↦ some (off_call blocked_by team_id none none none (team_unavailable team_id))
  | some team ↦
      if not team.enabled
      then some (off_call blocked_by team_id none none none (team_unavailable team_id))
      else elim (keep (λ s. s.team_id == team.id && s.enabled && schedule_matches d.zones s at)
          d.schedules) [
            | [] ↦ some (off_call unassigned team.id none none none (no_schedule team.name))
            | schedule ∷ [] ↦ oncall_rotation d team schedule at
            | s ∷ t ∷ ss ↦
                some (off_call blocked_by team.id none none none (many_schedules team.name))
          ]
]

abbrev is_less : Ordering → Bool
is_less Ordering.lt = true
is_less _ = false

-- The order of the keys `(item.priority, item.channel_id)`
pub contact_before : OperatorContactTarget → OperatorContactTarget → Bool
contact_before a b =
    ltb_ℤ a.priority b.priority
    || (not (ltb_ℤ b.priority a.priority) && is_less (compare a.channel_id b.channel_id))

abbrev pub is_usable : OperatorContactTarget → Bool
is_usable t = t.enabled && not (t.channel_id == "")

-- `_channel_ids_for_person`
pub channel_ids_for_person : OperatorPerson → List String
unfolding contact_before
channel_ids_for_person person =
    map (λ t. t.channel_id) (sort contact_before (keep is_usable person.contact_targets))

abbrev recipient :
    ResolutionOutcome
    → EscalationTargetKind
    → String
    → Option String
    → List String
    → Reason
    → ResolvedEscalationRecipient
recipient outcome kind ref person channels reason = record {
  outcome = outcome;
  target_kind = kind;
  target_ref = ref;
  person_id = person;
  channel_ids = channels;
  explanation = reason;
}

-- The end that the branches for a person and for a team share: the person found, if there is one, and
-- the id and the explanation to give in the other case.
pub reach :
    EscalationTargetKind
    → String
    → Option String
    → String
    → Reason
    → Option OperatorPerson
    → ResolvedEscalationRecipient
unfolding channel_ids_for_person
reach kind ref missing name reason none =
    recipient blocked_by kind ref missing [] (operator_unavailable name)
reach kind ref missing name reason (some person) =
    if not person.enabled
    then recipient blocked_by kind ref missing [] (operator_unavailable name)
    else if is_empty (channel_ids_for_person person)
    then recipient blocked_by kind ref (some person.id) [] (no_contact person.handle)
    else recipient resolved_to kind ref (some person.id) (channel_ids_for_person person)
        (elim kind [ to_person ↦ paging_operator person.handle | _ ↦ reason ])

abbrev pub is_resolved : ResolutionOutcome → Bool
is_resolved resolved_to = true
is_resolved _ = false

-- What `resolve_recipient` does with the person on call.
pub reach_team : Directory → String → OnCallResolution → ResolvedEscalationRecipient
unfolding reach
reach_team d ref r =
    if not (is_resolved r.outcome) || not (is_given r.person_id)
    then recipient r.outcome to_team ref none [] r.explanation
    else elim r.person_id [
      | none ↦ recipient r.outcome to_team ref none [] r.explanation
      | some id ↦ reach to_team ref (some id) id r.explanation (lookup id d.people)
    ]

unfoldable pub resolve_recipient :
    Directory → EscalationTargetKind → String → ℕ → Option ResolvedEscalationRecipient
unfolding reach reach_team resolve_oncall
resolve_recipient d to_channel ref at =
    some (recipient resolved_to to_channel ref none (ref ∷ []) (fixed_channel ref))
resolve_recipient d to_person ref at =
    some (reach to_person ref none ref (paging_operator ref) (lookup ref d.people))
resolve_recipient d to_team ref at = elim (resolve_oncall d ref at) [
  | none ↦ none
  | some r ↦ some (reach_team d ref r)
]
