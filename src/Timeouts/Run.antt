-- ===== src/Timeouts/Run.antt =====
-- How a run of timeouts is judged (engine/src/services/timeouts.ts).
use looksee.Prelude.{
  ℕ, zero, suc, ◌+◌, ◌-◌, ◌≤◌, ◌<◌, ◌≡◌, ◌≢◌, refl, true, Option, some, List, [], ◌∷◌, ltb, leb,
  take, length, All, if◌then◌else◌, arith,
}
use looksee.Prelude.Text.{Text}
use looksee.Thresholds.{up, down, warn}
use looksee.Timeouts.{
  is_timeout_message, Floored, not_finite, negative, at, timeouts_before_down, ResultInput,
  JudgedCheck, earlier_timeout, count_earlier, down_message, warn_message, softens, judge_timeout,
}

-- The setting lies between 1 and 20 whatever was stored.
timeouts_before_down_bounds :
    (raw : Floored) → (1 ≤ timeouts_before_down raw) × (timeouts_before_down raw ≤ 20)
unfolding timeouts_before_down
timeouts_before_down_bounds not_finite = omega arith
timeouts_before_down_bounds negative = omega arith
timeouts_before_down_bounds (at n) = omega arith

-- The number of timeouts stored in a row, the newest first.
unfoldable pub streak : List ResultInput → ℕ
streak [] = 0
streak (r ∷ rs) = if earlier_timeout r then suc (streak rs) else 0

-- The loop's count reaches the limit exactly when the streak does.
count_earlier-streak :
    (k limit earlier : ℕ) (h : List ResultInput)
    → suc k + earlier + 1 ≡ limit
    → leb limit (count_earlier limit earlier (take (suc k) h) + 1) ≡ leb (suc k) (streak h)
unfolding count_earlier streak
count_earlier-streak k limit earlier [] e = ground arith
count_earlier-streak zero limit earlier (r ∷ h) e = ground arith
count_earlier-streak (suc k) limit earlier (r ∷ h) e =
    ground (arith, count_earlier-streak k limit (earlier + 1) h)

warn_message-timeout :
    (n limit : ℕ) (m : Option Text) → is_timeout_message (some (warn_message n limit m)) ≡ true
unfolding is_timeout_message
warn_message-timeout n limit m = refl

down_message-timeout :
    (limit : ℕ) (m : Option Text) → is_timeout_message (some (down_message limit m)) ≡ true
unfolding is_timeout_message
down_message-timeout limit m = refl

-- The stored results that the rule reads, the newest first.
abbrev pub recent : JudgedCheck → List ResultInput → List ResultInput
recent check h = take (timeouts_before_down check.setting - 1) h

softens-down :
    (check : JudgedCheck) (input : ResultInput) → softens check input ≡ true → input.status ≡ down
unfolding softens
softens-down check input h = ground arith

softens-timeout :
    (check : JudgedCheck) (input : ResultInput)
    → softens check input ≡ true
    → earlier_timeout input ≡ true
unfolding softens earlier_timeout
softens-timeout check input h = ground arith

-- `count_earlier-streak` from an empty count, for any limit above 1.
count-streak :
    (limit : ℕ) (h : List ResultInput)
    → 1 < limit
    → leb limit (count_earlier limit 0 (take (limit - 1) h) + 1) ≡ leb limit (streak h + 1)
count-streak limit h p =
    let e : limit - 1 ≡ suc (limit - 2) = omega arith in
    rw e (ground (arith, count_earlier-streak (limit - 2) limit 0 h (omega arith)))

module _ (check : JudgedCheck) where
  -- A softened timeout is down exactly when it completes a run of `timeoutsBeforeDown` timeouts,
  -- and warn before that.
  judge_timeout-streak :
      (input : ResultInput) (h : List ResultInput)
      → softens check input ≡ true
      → (judge_timeout check input (recent check h)).status
        ≡ (if leb (timeouts_before_down check.setting) (streak h + 1) then down else warn)
  unfolding judge_timeout
  judge_timeout-streak input h s =
      let limit = timeouts_before_down check.setting in
      ground (
        arith,
        softens-down check input s,
        count-streak limit h,
        timeouts_before_down_bounds check.setting,
      )

  -- What `recordCheckResult` stores for a reported result.
  abbrev pub store : ResultInput → List ResultInput → List ResultInput
  store input h = judge_timeout check input (recent check h) ∷ h

  -- Results reported one after another, the first one first.
  abbrev pub store_all : List ResultInput → List ResultInput → List ResultInput
  store_all [] h = h
  store_all (input ∷ later) h = store_all later (store input h)

  judged-timeout :
      (input : ResultInput) (older : List ResultInput)
      → softens check input ≡ true
      → earlier_timeout (judge_timeout check input older) ≡ true
  unfolding judge_timeout earlier_timeout
  judged-timeout input older s = ground (
    arith,
    softens-timeout check input s,
    down_message-timeout (timeouts_before_down check.setting) input.message,
    warn_message-timeout (count_earlier (timeouts_before_down check.setting) 0 older + 1)
        (timeouts_before_down check.setting) input.message,
  )

  streak-store :
      (input : ResultInput) (h : List ResultInput)
      → softens check input ≡ true
      → streak (store input h) ≡ streak h + 1
  unfolding streak
  streak-store input h s = ground (arith, judged-timeout input (recent check h) s)

  streak-store_all :
      (inputs : List ResultInput) (h : List ResultInput)
      → All (λ input. softens check input ≡ true) inputs
      → streak (store_all inputs h) ≡ length inputs + streak h
  streak-store_all [] h s = omega arith
  streak-store_all (input ∷ later) h (s, rest) =
      omega (arith, streak-store_all later (store input h) rest, streak-store input h s)

  -- After a result that was no timeout (or at the start), timeouts reported one after another are
  -- stored as warn until the run is `timeoutsBeforeDown` long, and as down from then on: the
  -- rewording of the stored message never breaks the run.
  pub store_all-run :
      (inputs : List ResultInput) (last : ResultInput) (h : List ResultInput)
      → streak h ≡ 0
      → All (λ input. softens check input ≡ true) inputs
      → softens check last ≡ true
      → (judge_timeout check last (recent check (store_all inputs h))).status
        ≡ (if ltb (length inputs + 1) (timeouts_before_down check.setting) then warn else down)
  store_all-run inputs last h fresh s t =
      ground (arith, judge_timeout-streak last (store_all inputs h) t, streak-store_all inputs h s)

-- Judging never turns a down result into an up one.
pub judge_timeout-ne-up :
    (check : JudgedCheck) (input : ResultInput) (older : List ResultInput)
    → input.status ≡ down
    → (judge_timeout check input older).status ≢ up
unfolding judge_timeout
judge_timeout-ne-up check input older d = ground arith
