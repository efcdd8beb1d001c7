-- ===== src/OnCall/Coverage.antt =====
-- src/cockpit/ops/services/oncall_resolution_service.py: when a schedule covers a moment, and whose
-- turn a rotation has. The time zones are a parameter, as far as the code asks them.
use cockpit_cli.Prelude.{
  Bool, List, Option, String, [], codes, false, get_elem?, if◌then◌else◌, leb, length, ltb, max,
  min, nat_eq, none, not, some, string_eq, true, ℕ, ◌%◌, ◌&&◌, ◌*◌, ◌+◌, ◌-◌, ◌/◌, ◌==◌, ◌||◌, ◌∷◌,
}
use cockpit_cli.Prelude.Int.{pos_part, ℤ}
use cockpit_cli.OnCall.Data.{
  Coverage, OnCallSchedule, RotationIntervalKind, RotationRule, TimeEntry, absent, always, day_list,
  days, hours, not_list, not_text, subject_kind_eq, text, weekly_window, weeks,
}

-- `ZoneInfo(name)` succeeds for a known name; then a moment has a weekday, from 0 for Monday, and a
-- minute of the day there.
pub record Zones : Type 0 where
  pub is_known : String → Bool
  pub weekday : String → ℕ → ℕ
  pub minute_of_day : String → ℕ → ℕ

-- `_zoneinfo_for`
unfoldable pub zone_for : Zones → String → String
zone_for zones name = if zones.is_known name then name else "UTC"

abbrev is_digit : ℕ → Bool
is_digit c = leb b'0' c && leb c b'9'

-- `str.isdigit`, on ASCII
unfoldable pub is_digits : List ℕ → Bool
is_digits [] = false
is_digits (c ∷ []) = is_digit c
is_digits (c ∷ d ∷ t) = is_digit c && is_digits (d ∷ t)

-- `int`, on digits
unfoldable pub int_of : ℕ → List ℕ → ℕ
int_of acc [] = acc
int_of acc (c ∷ t) = int_of (acc * 10 + (c - b'0')) t

-- `raw_value.split(":", 1)`, if there is a colon
unfoldable pub split_colon : List ℕ → Option (List ℕ × List ℕ)
split_colon [] = none
split_colon (c ∷ t) =
    let rest = split_colon t in
    if c == b':'
    then some ([], t)
    else elim rest [ none ↦ none | some (left, right) ↦ some (c ∷ left, right) ]

-- `_parse_time`, as an hour and a minute
unfoldable pub parse_time : List ℕ → ℕ × ℕ
unfolding split_colon is_digits int_of
parse_time raw = elim (split_colon raw) [
  | none ↦ (0, 0)
  | some (hour, minute) ↦
      if not (is_digits hour) || not (is_digits minute)
      then (0, 0)
      else (min (int_of 0 hour) 23, min (int_of 0 minute) 59)
]

-- `_parse_time(config.get(key, fallback))`, in minutes of the day
unfoldable pub entry_minutes : String → TimeEntry → ℕ
unfolding parse_time
entry_minutes fallback absent = let (h, m) = parse_time (codes fallback) in h * 60 + m
entry_minutes fallback not_text = 0
entry_minutes fallback (text raw) = let (h, m) = parse_time (codes raw) in h * 60 + m

-- `weekday in days`
unfoldable pub has_day : ℕ → List (Option ℕ) → Bool
has_day day [] = false
has_day day (none ∷ ds) = has_day day ds
has_day day (some d ∷ ds) = day == d || has_day day ds

-- The test of a weekly window, from `start` to `stop` in minutes of the day.
unfoldable pub in_weekly_window : List (Option ℕ) → ℕ → ℕ → ℕ → ℕ → Bool
unfolding has_day
in_weekly_window ds start stop weekday minute =
    if ltb start stop
    then has_day weekday ds && (leb start minute && ltb minute stop)
    else (has_day weekday ds && leb start minute)
      || (has_day ((weekday + 6) % 7) ds && ltb minute stop)

-- `_schedule_matches`
unfoldable pub covers : Zones → String → Coverage → ℕ → Bool
unfolding zone_for entry_minutes in_weekly_window
covers zones timezone always at = true
covers zones timezone (weekly_window not_list start stop) at = false
covers zones timezone (weekly_window (day_list ds) start stop) at =
    let zone = zone_for zones timezone in
    in_weekly_window ds (entry_minutes "00:00" start) (entry_minutes "23:59" stop)
      (zones.weekday zone at) (zones.minute_of_day zone at)

unfoldable pub schedule_matches : Zones → OnCallSchedule → ℕ → Bool
unfolding covers
schedule_matches zones schedule at = covers zones schedule.timezone schedule.coverage at

-- `_interval_seconds`
unfoldable pub interval_seconds : RotationIntervalKind → ℤ → ℕ
interval_seconds hours count = max 1 (pos_part count) * 60 * 60
interval_seconds weeks count = max 1 (pos_part count) * 7 * 24 * 60 * 60
interval_seconds days count = max 1 (pos_part count) * 24 * 60 * 60

abbrev pub microseconds : ℕ → ℕ
microseconds n = n * 1000000

-- `step_index`; before the anchor no time has elapsed.
unfoldable pub rotation_step : RotationRule → ℕ → ℕ
unfolding interval_seconds
rotation_step rotation at = elim rotation.anchor_at [
  | none ↦ 0
  | some anchor ↦
      (at - anchor) / microseconds (interval_seconds rotation.interval_kind rotation.interval_count)
]

-- `_resolve_rotation_person`; `none` is the `RuntimeError` of a rotation without participants.
unfoldable pub resolve_rotation_person : RotationRule → ℕ → Option String
unfolding rotation_step
resolve_rotation_person rotation at =
    let n = length rotation.participant_ids in
    if n == 0 then none else get_elem? rotation.participant_ids (rotation_step rotation at % n)
