-- ===== src/Maintenance.antt =====
-- engine/src/services/maintenance.ts: when a maintenance window is in effect, which checks it
-- covers, and the cached list of windows. Instants are milliseconds. The time zone database
-- (`Intl`, through engine/src/lib/timeZone.ts) is the parameter `Zones`, the group membership of
-- engine/src/services/groups.ts the parameter `group_checks`.
pub mod Weekly
pub mod Cache
pub mod ListView
use looksee.Prelude.{
  ℕ, zero, suc, ◌+◌, ◌-◌, ◌*◌, ◌%◌, ◌<◌, String, Bool, true, false, not, ◌&&◌, ◌||◌, Option, none,
  some, List, [], ◌∷◌, ◌==◌, ◌===◌, ltb, leb, any, includes, or_else, if◌then◌else◌,
}
use looksee.Prelude.Text.{Text, is_digit}
use looksee.Prelude.Int.{ℤ, pos, ◌+ℤ◌, ◌-ℤ◌, ◌*ℤ◌, leb_ℤ, ltb_ℤ}

pub record WallClock : Type 0 where
  pub weekday : ℕ
  pub minute_of_day : ℕ

pub record Zones : Type 0 where
  pub is_valid : String → Bool
  pub server : String
  pub wall_clock : ℕ → String → WallClock

-- One row of `maintenance_windows`.
pub record Window : Type 0 where
  pub enabled : Bool
  pub starts_at : Option ℕ
  pub ends_at : Option ℕ
  pub days_of_week : Option (List ℕ)
  pub start_time : Option Text
  pub duration_minutes : Option ℕ
  pub time_zone : Option String
  pub scope : String
  pub target_ids : List String

-- `parseInt(n, 10)`: blanks, a sign, then digits; `none` is NaN. Only the ASCII blanks are skipped.
abbrev is_blank : ℕ → Bool
is_blank c = c == b' ' || leb 9 c && leb c 13

digits_value : ℕ → Text → ℕ
digits_value acc [] = acc
digits_value acc (c ∷ s) =
    let rest = digits_value (acc * 10 + (c - b'0')) s in if is_digit c then rest else acc

unsigned : Text → Option ℕ
unsigned [] = none
unsigned (c ∷ s) = if is_digit c then some (digits_value 0 (c ∷ s)) else none

abbrev negated : Option ℕ → Option ℤ
negated none = none
negated (some n) = some (pos 0 -ℤ pos n)

abbrev positive : Option ℕ → Option ℤ
positive none = none
positive (some n) = some (pos n)

unfoldable pub parse_int : Text → Option ℤ
unfolding unsigned digits_value
parse_int [] = none
parse_int (c ∷ s) =
    let rest = parse_int s in
    if is_blank c
    then rest
    else if c == b'-'
    then negated (unsigned s)
    else if c == b'+'
    then positive (unsigned s)
    else positive (unsigned (c ∷ s))

-- `startTime.split(":")`: the first part and the second, if there is a colon.
abbrev before_colon : Text → Text
before_colon [] = []
before_colon (c ∷ s) = let rest = before_colon s in if c == b':' then [] else c ∷ rest

abbrev after_colon : Text → Option Text
after_colon [] = none
after_colon (c ∷ s) = let rest = after_colon s in if c == b':' then some s else rest

-- `h * 60 + m`, unless one of the two is not a finite number.
abbrev start_minute_of : Option ℤ → Option ℤ → Option ℤ
start_minute_of (some h) (some m) = some (h *ℤ pos 60 +ℤ m)
start_minute_of _ _ = none

abbrev parse_second : Option Text → Option ℤ
parse_second none = none
parse_second (some s) = parse_int (before_colon s)

unfoldable pub start_minute : Text → Option ℤ
start_minute t = start_minute_of (parse_int (before_colon t)) (parse_second (after_colon t))

abbrev pub includes_day : List ℕ → ℕ → Bool
includes_day days d = any (λ x. x == d) days

-- The loop `for (daysAgo …; daysAgo < 7; …)` with `left` rounds to go.
unfoldable pub try_days : ℕ → ℕ → List ℕ → WallClock → ℤ → ℕ → Bool
try_days zero days_ago days clock start duration = false
try_days (suc left) days_ago days clock start duration =
    let later = try_days left (days_ago + 1) days clock start duration in
    let start_day = (clock.weekday + 7 - days_ago) % 7 in
    let elapsed = pos (clock.minute_of_day + days_ago * 1440) -ℤ start in
    if not (includes_day days start_day)
    then later
    else if leb_ℤ (pos 0) elapsed && ltb_ℤ elapsed (pos duration)
    then true
    else later

module _ (zones : Zones) where
  abbrev pub zone_of : Option String → String
  zone_of none = zones.server
  zone_of (some tz) = if zones.is_valid tz then tz else zones.server

  -- `!w.daysOfWeek?.length || !w.startTime || !w.durationMinutes`, then the start time's parts.
  unfoldable pub weekly_is_active :
      Option (List ℕ) → Option Text → Option ℕ → Option String → ℕ → Bool
  weekly_is_active (some (d ∷ days)) (some (c ∷ s)) (some (suc minutes)) tz now =
      elim (start_minute (c ∷ s)) [
        | none ↦ false
        | some start ↦
            try_days 7 0 (d ∷ days) (zones.wall_clock now (zone_of tz)) start (suc minutes)
      ]
  weekly_is_active _ _ _ tz now = false

  -- `if (w.startsAt && w.endsAt)` chooses between a one-off and a weekly window.
  abbrev timing : Window → Option ℕ → Option ℕ → ℕ → Bool
  timing w (some a) (some b) now = leb a now && ltb now b
  timing w _ _ now = weekly_is_active w.days_of_week w.start_time w.duration_minutes w.time_zone now

  unfoldable pub window_is_active : Window → ℕ → Bool
  window_is_active w now = if not w.enabled then false else timing w w.starts_at w.ends_at now

pub record Target : Type 0 where
  pub id : String
  pub site_id : String
  pub endpoint_id : Option String
  pub probe_endpoint_id : Option String

abbrev pub includes_some : List String → Option String → Bool
includes_some ids none = false
includes_some ids (some a) = includes ids a

-- Each group's check IDs.
abbrev pub GroupChecks : Type 0
GroupChecks = String → List String

unfoldable pub window_applies_to : Window → Target → GroupChecks → Bool
window_applies_to w target group_checks =
    let ids = w.target_ids in
    if w.scope === "all"
    then true
    else if w.scope === "site"
    then includes ids target.site_id
    else if w.scope === "endpoint"
    then includes_some ids target.endpoint_id || includes_some ids target.probe_endpoint_id
    else if w.scope === "group"
    then any (λ g. includes (group_checks g) target.id) ids
    else if w.scope === "check"
    then includes ids target.id
    else false
