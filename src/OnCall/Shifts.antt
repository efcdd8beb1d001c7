-- ===== src/OnCall/Shifts.antt =====
-- src/cockpit/ops/services/oncall_resolution_service.py: weekly windows that follow one another.
use cockpit_cli.Prelude.{
  List, Option, String, arith, nat_eq, not, string_eq, true, ℕ, ◌%◌, ◌+◌, ◌<◌, ◌≡◌, ◌≢◌,
}
use cockpit_cli.OnCall.{
  Zones, covers, day_list, entry_minutes, has_day, in_weekly_window, subject_kind_eq, text,
  weekly_window, zone_for,
}

-- Every day of the week is listed.
abbrev pub AllDays : List (Option ℕ) → Type 0
AllDays ds = (day : ℕ) → day < 7 → has_day day ds ≡ true

in_weekly_window-not :
    (ds : List (Option ℕ)) (start stop weekday minute : ℕ)
    → has_day weekday ds ≡ true
    → has_day ((weekday + 6) % 7) ds ≡ true
    → start ≢ stop
    → in_weekly_window ds start stop weekday minute
      ≡ not (in_weekly_window ds stop start weekday minute)
unfolding in_weekly_window
in_weekly_window-not ds start stop weekday minute h h' n = ground arith

-- Two shifts that hand over to one another, on every day of the week and in the same time zone, leave
-- no gap and do not overlap: at every moment exactly one of the two windows is open, also where one of
-- them runs past midnight. The two times are different ones.
pub covers_handover :
    (zones : Zones) (timezone start stop : String) (ds : List (Option ℕ)) (at : ℕ)
    → AllDays ds
    → ((zone : String) (t : ℕ) → zones.weekday zone t < 7)
    → entry_minutes "00:00" (text start) ≢ entry_minutes "00:00" (text stop)
    → covers zones timezone (weekly_window (day_list ds) (text start) (text stop)) at
      ≡ not (covers zones timezone (weekly_window (day_list ds) (text stop) (text start)) at)
unfolding covers entry_minutes
covers_handover zones timezone start stop ds at all week n =
    let day = zones.weekday (zone_for zones timezone) at in
    in_weekly_window-not ds (entry_minutes "00:00" (text start)) (entry_minutes "00:00" (text stop))
      day (zones.minute_of_day (zone_for zones timezone) at)
      (all day (week (zone_for zones timezone) at)) (all ((day + 6) % 7) (omega arith)) n
