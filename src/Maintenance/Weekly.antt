-- ===== src/Maintenance/Weekly.antt =====
-- Weekly maintenance windows (engine/src/services/maintenance.ts) against their meaning.
use looksee.Prelude.{
  ℕ, zero, suc, ◌+◌, ◌-◌, ◌*◌, ◌%◌, ◌≤◌, ◌<◌, ◌≡◌, ◌↔◌, ◌⊎◌, inl, inr, refl, sym, ap, ◌∙◌, Bool,
  true, false, ◌&&◌, ◌||◌, Option, none, some, List, [], ◌∷◌, arith, Bool-cases, leb, ltb,
}
use native.Mathlib.Decide.{ℕ_discrete}
use looksee.Prelude.Int.{pos, leb_ℤ, ltb_ℤ, ◌-ℤ◌}
use looksee.Prelude.Text.{Text}
use looksee.Maintenance.{
  WallClock, Zones, Window, includes_day, try_days, weekly_is_active, zone_of, start_minute,
  window_is_active, timing,
}

module _ (days : List ℕ) (clock : WallClock) (start duration : ℕ) where
  -- Now lies in the occurrence that began `k` days ago; `day` is that day of the week.
  pub record Within (k day : ℕ) : Type 0 where
    pub chosen : includes_day days day ≡ true
    pub begun : start ≤ clock.minute_of_day + k * 1440
    pub not_over : clock.minute_of_day + k * 1440 < start + duration

  -- The occurrence that began `k` days ago, for any `k`: the day of the week `k` days ago is
  -- `weekday - k`, that is `weekday + 6 * k`, modulo 7.
  abbrev pub OccursNow : Type 0
  OccursNow = (k : ℕ) × Within k ((clock.weekday + 6 * k) % 7)

  one_day :
      (k : ℕ)
      → (leb_ℤ (pos 0) (pos (clock.minute_of_day + k * 1440) -ℤ pos start)
          && ltb_ℤ (pos (clock.minute_of_day + k * 1440) -ℤ pos start) (pos duration))
        ≡ (leb start (clock.minute_of_day + k * 1440)
            && ltb (clock.minute_of_day + k * 1440) (start + duration))
  one_day k = ground arith

  -- The test of one round.
  covers : ℕ → Bool
  covers k =
      includes_day days ((clock.weekday + 7 - k) % 7)
      && (leb start (clock.minute_of_day + k * 1440)
          && ltb (clock.minute_of_day + k * 1440) (start + duration))

  try_days-suc :
      (left k : ℕ)
      → try_days (suc left) k days clock (pos start) duration
        ≡ (covers k || try_days left (k + 1) days clock (pos start) duration)
  unfolding try_days covers
  try_days-suc left k = rw (one_day k) (ground arith)

  covers-Within : (k : ℕ) → covers k ≡ true → Within k ((clock.weekday + 7 - k) % 7)
  unfolding covers
  covers-Within k h = record {
    chosen = ground arith;
    begun = ground arith;
    not_over = ground arith;
  }

  Within-covers : (k : ℕ) → Within k ((clock.weekday + 7 - k) % 7) → covers k ≡ true
  unfolding covers
  Within-covers k w = ground (arith, w.chosen, w.begun, w.not_over)

  try_days_sound :
      (left days_ago : ℕ)
      → try_days left days_ago days clock (pos start) duration ≡ true
      → (k : ℕ) × (k < left + days_ago) × Within k ((clock.weekday + 7 - k) % 7)
  unfolding try_days
  try_days_sound zero days_ago h = absurd (cc)
  try_days_sound (suc left) days_ago h = elim (Bool-cases (covers days_ago)) [
    | inl now ↦ (days_ago, omega arith, covers-Within days_ago now)
    | inr not_now ↦
        let (k, small, w) =
          try_days_sound left (days_ago + 1)
            (let e = sym (try_days-suc left days_ago) ∙ h in rw not_now at e) in
        (k, omega arith, w)
  ]

  try_days_complete :
      (left days_ago k : ℕ)
      → days_ago ≤ k
      → k < left + days_ago
      → covers k ≡ true
      → try_days left days_ago days clock (pos start) duration ≡ true
  try_days_complete zero days_ago k lo hi h = absurd (omega arith)
  try_days_complete (suc left) days_ago k lo hi h =
      rw (try_days-suc left days_ago) (elim (ℕ_discrete days_ago k) [
        | yes e ↦ rw (e, h)
        | no ne ↦
            ground (arith, try_days_complete left (days_ago + 1) k (omega arith) (omega arith) h)
      ])

  same_day : (k : ℕ) → k < 7 → (clock.weekday + 7 - k) % 7 ≡ (clock.weekday + 6 * k) % 7
  same_day k h = omega arith

  -- Where the window ends within seven days of the midnight before it starts, the seven rounds miss
  -- no occurrence.
  try_days_iff :
      start + duration ≤ 10080 → (try_days 7 0 days clock (pos start) duration ≡ true) ↔ OccursNow
  try_days_iff fits = (
    λ h. let (k, small, w) = try_days_sound 7 0 h in (k, rw (← same_day k (omega arith)) w),
    λ (k, w).
        let small : k < 7 = omega (arith, w.not_over) in
        try_days_complete 7 0 k (omega arith) (omega arith)
          (Within-covers k (rw (same_day k small) w)),
  )

module _ (zones : Zones) where
  -- A window with these settings is weekly, and its loop is reached.
  pub record IsWeekly (w : Window) (days : List ℕ) (start duration : ℕ) : Type 0 where
    pub on : w.enabled ≡ true
    pub recurring : (w.starts_at ≡ none) ⊎ (w.ends_at ≡ none)
    pub some_day : ℕ
    pub other_days : List ℕ
    pub same_days : days ≡ some_day ∷ other_days
    pub on_days : w.days_of_week ≡ some (some_day ∷ other_days)
    pub first_unit : ℕ
    pub other_units : Text
    pub at_time : w.start_time ≡ some (first_unit ∷ other_units)
    pub read_as : start_minute (first_unit ∷ other_units) ≡ some (pos start)
    pub minutes : ℕ
    pub same_length : duration ≡ suc minutes
    pub lasts : w.duration_minutes ≡ some (suc minutes)

  abbrev pub clock_of : Window → ℕ → WallClock
  clock_of w now = zones.wall_clock now (zone_of zones w.time_zone)

  timing-weekly :
      (w : Window) (now : ℕ) (a b : Option ℕ)
      → (a ≡ none) ⊎ (b ≡ none)
      → timing zones w a b now
        ≡ weekly_is_active zones w.days_of_week w.start_time w.duration_minutes w.time_zone now
  timing-weekly w now none none h = refl
  timing-weekly w now none (some b) h = refl
  timing-weekly w now (some a) none h = refl
  timing-weekly w now (some a) (some b) h = absurd (ground arith)

  weekly_loop :
      (w : Window) (now start : ℕ) {days : List ℕ} {duration : ℕ}
      (i : IsWeekly w days start duration)
      → weekly_is_active zones w.days_of_week w.start_time w.duration_minutes w.time_zone now
        ≡ try_days 7 0 days (clock_of w now) (pos start) (suc i.minutes)
  unfolding weekly_is_active
  weekly_loop w now start i =
      rw (i.on_days, i.at_time, i.lasts, i.same_days, weekly_is_active, i.read_as)

  active-try_days :
      (w : Window) (now start duration : ℕ) (days : List ℕ)
      → IsWeekly w days start duration
      → window_is_active zones w now ≡ try_days 7 0 days (clock_of w now) (pos start) duration
  unfolding window_is_active
  active-try_days w now start duration days i = rw i.on (
      timing-weekly w now w.starts_at w.ends_at i.recurring
      ∙ weekly_loop w now start i
      ∙ ap (λ n. try_days 7 0 days (clock_of w now) (pos start) n) (sym i.same_length))

  -- An enabled weekly window is in effect exactly when one of its occurrences, however many days
  -- ago it began, has begun and is not over on the wall clock of the window's zone: for a start
  -- time that is read as `start` minutes after midnight and a length that ends within seven days of
  -- it.
  pub window_is_active-weekly :
      (w : Window) (now start duration : ℕ) (days : List ℕ)
      → IsWeekly w days start duration
      → start + duration ≤ 10080
      → (window_is_active zones w now ≡ true) ↔ OccursNow days (clock_of w now) start duration
  window_is_active-weekly w now start duration days i fits =
      rw (active-try_days w now start duration days i)
        (try_days_iff days (clock_of w now) start duration fits)

  only_today :
      (weekday k : ℕ)
      → weekday < 7
      → k < 7
      → includes_day (weekday ∷ []) ((weekday + 7 - k) % 7) ≡ true
      → k ≡ 0
  only_today weekday k h hk t = ground arith

  same_weekday :
      (weekday : ℕ) → weekday < 7 → includes_day (weekday ∷ []) ((weekday + 6 * 7) % 7) ≡ true
  same_weekday weekday h = ground arith

  -- A weekly window of more than six days on one day of the week: on that day, before the start
  -- time, it is reported as not in effect although last week's occurrence is not over.
  pub window_is_active_missed :
      (w : Window) (now start duration : ℕ)
      → IsWeekly w ((clock_of w now).weekday ∷ []) start duration
      → (clock_of w now).weekday < 7
      → (clock_of w now).minute_of_day < start
      → (clock_of w now).minute_of_day + 10080 < start + duration
      → start ≤ 10080
      → (window_is_active zones w now ≡ false)
        × OccursNow ((clock_of w now).weekday ∷ []) (clock_of w now) start duration
  window_is_active_missed w now start duration i day before lasting begun = (
    elim (Bool-cases (window_is_active zones w now)) [
      | inr off ↦ off
      | inl on ↦
          let clock = clock_of w now in
          let (k, small, o) =
            try_days_sound (clock.weekday ∷ []) clock start duration 7 0
              (sym (active-try_days w now start duration (clock.weekday ∷ []) i) ∙ on) in
          let zero_days : k ≡ 0 = only_today clock.weekday k day (omega arith) o.chosen in
          absurd (omega (arith, o.begun))
    ],
    (7, last_week),
  )
    where
      clock : WallClock
      clock = clock_of w now

      last_week : Within (clock.weekday ∷ []) clock start duration 7 ((clock.weekday + 6 * 7) % 7)
      last_week = record {
        chosen = same_weekday clock.weekday day;
        begun = omega arith;
        not_over = omega arith;
      }
