-- ===== src/OnCall/Data.antt =====
-- src/cockpit/ops/models/oncall.py, and the results of
-- src/cockpit/ops/services/oncall_resolution_service.py. Times are microseconds.
use cockpit_cli.Prelude.{Bool, Eq, List, Option, String, discrete_eq, nat_eq, string_eq, ℕ}
use cockpit_cli.Prelude.Int.{ℤ}
use cockpit_cli.Enums.{ComponentKind, TargetRiskLevel, component_kind_eq}

pub data OwnershipSubjectKind : Type 0 where
  component_subject datasource_subject container_subject : OwnershipSubjectKind
  http_subject watch_subject : OwnershipSubjectKind

pub data RotationIntervalKind : Type 0 where
  hours days weeks : RotationIntervalKind

pub data ResolutionOutcome : Type 0 where
  resolved_to unassigned blocked_by : ResolutionOutcome

pub data EscalationTargetKind : Type 0 where
  to_person to_team to_channel : EscalationTargetKind

unfoldable pub OwnershipSubjectKind-discrete : Discrete OwnershipSubjectKind
OwnershipSubjectKind-discrete = hlevel

instance abbrev pub subject_kind_eq : Eq OwnershipSubjectKind
subject_kind_eq = discrete_eq OwnershipSubjectKind-discrete

pub record OperatorContactTarget : Type 0 where
  pub channel_id : String
  pub label : String
  pub enabled : Bool
  pub priority : ℤ

pub record OperatorPerson : Type 0 where
  pub id : String
  pub display_name : String
  pub handle : String
  pub enabled : Bool
  pub timezone : String
  pub contact_targets : List OperatorContactTarget

pub record OperatorTeam : Type 0 where
  pub id : String
  pub name : String
  pub enabled : Bool
  pub description : Option String
  pub default_escalation_policy_id : Option String

pub record OwnershipBinding : Type 0 where
  pub id : String
  pub name : String
  pub team_id : String
  pub enabled : Bool
  pub component_kind : Option ComponentKind
  pub component_id : Option String
  pub subject_kind : Option OwnershipSubjectKind
  pub subject_ref : Option String
  pub risk_level : Option TargetRiskLevel
  pub escalation_policy_id : Option String

-- An entry of `schedule_config` under "start_time" or "end_time": it may be absent, or no text.
pub data TimeEntry : Type 0 where
  absent not_text : TimeEntry
  text : String → TimeEntry

-- The entry under "days": a list, in which what is no integer from 0 on is `none`, or something else.
-- An absent entry counts as the empty list.
pub data DaysEntry : Type 0 where
  not_list : DaysEntry
  day_list : List (Option ℕ) → DaysEntry

-- `coverage_kind`, with the `schedule_config` that only a weekly window reads
pub data Coverage : Type 0 where
  always : Coverage
  weekly_window : DaysEntry → TimeEntry → TimeEntry → Coverage

pub record OnCallSchedule : Type 0 where
  pub id : String
  pub team_id : String
  pub name : String
  pub timezone : String
  pub enabled : Bool
  pub coverage : Coverage

pub record RotationRule : Type 0 where
  pub id : String
  pub schedule_id : String
  pub name : String
  pub participant_ids : List String
  pub enabled : Bool
  pub anchor_at : Option ℕ
  pub interval_kind : RotationIntervalKind
  pub interval_count : ℤ

-- A priority is a natural number here.
pub record ScheduleOverride : Type 0 where
  pub id : String
  pub schedule_id : String
  pub replacement_person_id : String
  pub starts_at : ℕ
  pub ends_at : ℕ
  pub replaced_person_id : Option String
  pub priority : ℕ
  pub enabled : Bool
  pub created_at : ℕ

-- Why a resolution ends as it does, with the text that its message interpolates.
pub data Reason : Type 0 where
  no_binding many_bindings team_unavailable no_policy : String → Reason
  via_binding no_schedule many_schedules : String → Reason
  no_rotation many_rotations conflicting_overrides : String → Reason
  operator_unavailable operator_resolved : String → Reason
  fixed_channel no_contact paging_operator : String → Reason
  no_target : Reason

pub record OwnershipResolution : Type 0 where
  pub outcome : ResolutionOutcome
  pub team_id : Option String
  pub escalation_policy_id : Option String
  pub binding_id : Option String
  pub explanation : Reason

pub record OnCallResolution : Type 0 where
  pub outcome : ResolutionOutcome
  pub team_id : String
  pub schedule_id : Option String
  pub rotation_id : Option String
  pub person_id : Option String
  pub override_id : Option String
  pub explanation : Reason

pub record ResolvedEscalationRecipient : Type 0 where
  pub outcome : ResolutionOutcome
  pub target_kind : EscalationTargetKind
  pub target_ref : String
  pub person_id : Option String
  pub channel_ids : List String
  pub explanation : Reason
