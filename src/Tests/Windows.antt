-- ===== src/Tests/Windows.antt =====
-- Maintenance windows at concrete instants.
use looksee.Prelude.{
  ◌≡◌, ◌↔◌, refl, inl, inr, false, String, true, none, some, List, [], ◌∷◌, arith,
}
use looksee.Prelude.Text.{codes}
use looksee.Maintenance.{
  Zones, Window, Target, GroupChecks, window_is_active, start_minute, parse_int, try_days,
  weekly_is_active,
}
use looksee.Maintenance.Weekly.{OccursNow, IsWeekly, clock_of, window_is_active-weekly}
use looksee.Maintenance.Cache.{
  Store, Reach, here, next, begins, ends, save, invalidates, waited, read_entry, at_start, write,
  invalidate_maintenance_cache, begin_fill, end_fill, is_in_maintenance, current_answer,
  is_in_maintenance-current,
}

-- Sunday 01:30, whatever the instant and the zone.
abbrev night : Zones
night = record {
  is_valid = λ z. true;
  server = "UTC";
  wall_clock = λ now z. record { weekday = 0; minute_of_day = 90 };
}

-- Saturdays 23:00 for three hours.
abbrev saturdays : Window
saturdays = record {
  enabled = true;
  starts_at = none;
  ends_at = none;
  days_of_week = some (6 ∷ []);
  start_time = some (codes "23:00");
  duration_minutes = some 180;
  time_zone = none;
  scope = "group";
  target_ids = "g1" ∷ [];
}

saturdays-IsWeekly : IsWeekly night saturdays (6 ∷ []) 1380 180
unfolding start_minute parse_int
saturdays-IsWeekly = record {
  on = refl;
  recurring = inl refl;
  some_day = 6;
  other_days = [];
  same_days = refl;
  on_days = refl;
  first_unit = b'2';
  other_units = codes "3:00";
  at_time = refl;
  read_as = refl;
  minutes = 179;
  same_length = refl;
  lasts = refl;
}

still_on : window_is_active night saturdays 0 ≡ true
unfolding window_is_active weekly_is_active try_days start_minute parse_int
still_on = refl

window_is_active-weekly_example :
    (window_is_active night saturdays 0 ≡ true)
    ↔ OccursNow (6 ∷ []) (clock_of night saturdays 0) 1380 180
window_is_active-weekly_example =
    window_is_active-weekly night saturdays 0 1380 180 (6 ∷ []) saturdays-IsWeekly (omega arith)

-- Sundays 02:00 for seven days.
abbrev always : Window
always = record saturdays {
  days_of_week = some (0 ∷ []);
  start_time = some (codes "02:00");
  duration_minutes = some 10080;
}

always-IsWeekly : IsWeekly night always (0 ∷ []) 120 10080
unfolding start_minute parse_int
always-IsWeekly = record {
  on = refl;
  recurring = inl refl;
  some_day = 0;
  other_days = [];
  same_days = refl;
  on_days = refl;
  first_unit = b'0';
  other_units = codes "2:00";
  at_time = refl;
  read_as = refl;
  minutes = 10079;
  same_length = refl;
  lasts = refl;
}

abbrev members : List String → GroupChecks
members ids g = "c1" ∷ []

abbrev target : Target
target = record { id = "c1"; site_id = "s"; endpoint_id = none; probe_endpoint_id = none }

abbrev waiting : Store
waiting = begin_fill night members 5 (at_start [])

abbrev looked_up : Store
looked_up = end_fill night members 0 waiting

abbrev saved : Store
saved = invalidate_maintenance_cache (write (saturdays ∷ []) looked_up)

-- A lookup, then a window that is saved, then the reads of the next lookup.
abbrev second_read : Store
second_read = begin_fill night members 6 saved

reached : Reach night members false (at_start []) second_read
unfolding begin_fill end_fill
reached =
    next
      (next
        (next (next (next here (begins 5 (at_start []))) (ends 0 waiting))
          (save (saturdays ∷ []) looked_up (inr refl)))
        (invalidates (write (saturdays ∷ []) looked_up)))
      (begins 6 saved)

is_in_maintenance-current_example :
    is_in_maintenance night members (read_entry night members 6 (saturdays ∷ [])) target 7
    ≡ current_answer night members second_read.table target 7
unfolding begin_fill end_fill
is_in_maintenance-current_example =
    is_in_maintenance-current night members [] second_read
      (read_entry night members 6 (saturdays ∷ [])) target 7 reached refl
      (waited 0 (read_entry night members 6 (saturdays ∷ [])) refl)
