-- ===== src/Tests/Statuses.antt =====
-- Thresholds and timeouts on concrete results.
use looksee.Prelude.{
  ℕ, ◌*◌, ◌/◌, ◌≡◌, refl, true, false, none, some, [], ◌∷◌, ltb, leb, if◌then◌else◌,
}
use looksee.Prelude.Text.{codes, show}
use looksee.Thresholds.{
  up, warn, down, rank, worst, Numbers, Config, num, MeasuredResult, apply_thresholds, get,
  number_of, apply_value, apply_latency, evaluate_value, has_thresholds, read_value_thresholds,
  with_notes, round,
}
use looksee.Thresholds.Verdicts.{verdict_of_value, verdict_of_latency, apply_thresholds-worst}
use looksee.Timeouts.{
  not_finite, timeouts_before_down, ResultInput, JudgedCheck, judge_timeout, softens,
  is_timeout_message, count_earlier, earlier_timeout,
}
use looksee.Timeouts.Run.{streak, recent, store_all, store_all-run}

-- Whole numbers that are never negative, with the digits of a text as its value.
abbrev whole_numbers : Numbers
whole_numbers = record {
  Number = ℕ;
  lt = ltb;
  le = leb;
  is_finite = λ n. true;
  of_text = λ s. 0;
  of_bool = λ b. if b then 1 else 0;
  abs = λ n. n;
  math_round = λ n. n;
  times = λ a b. a * b;
  over = λ a b. a / b;
  hundred = 100;
  show = show;
}

abbrev battery : Config whole_numbers
battery = ("warnBelow", num 50) ∷ ("criticalBelow", num 20) ∷ ("latencyWarnMs", num 500) ∷ []

abbrev reading : MeasuredResult whole_numbers
reading = record { status = up; latency_ms = some 800; message = none; value = some 12 }

low_battery :
    apply_thresholds whole_numbers reading battery (codes "%")
    ≡ record reading { status = down; message = some (codes "12% is below critical threshold 20%") }
unfolding apply_thresholds apply_value apply_latency evaluate_value has_thresholds get number_of
    read_value_thresholds with_notes round rank show
low_battery = refl

apply_thresholds-worst_example :
    ((apply_thresholds whole_numbers reading battery (codes "%")).status
      ≡ worst
          (worst reading.status (verdict_of_value whole_numbers reading battery))
          (verdict_of_latency whole_numbers reading battery))
    × ((apply_thresholds whole_numbers reading battery (codes "%")).value ≡ reading.value)
    × ((apply_thresholds whole_numbers reading battery (codes "%")).latency_ms ≡ reading.latency_ms)
apply_thresholds-worst_example = apply_thresholds-worst whole_numbers reading battery (codes "%")

-- A warning that the thresholds leave alone.
abbrev warning : MeasuredResult whole_numbers
warning = record {
  status = warn;
  latency_ms = some 800;
  message = some (codes "slow disk");
  value = some 30;
}

warning-kept : (apply_thresholds whole_numbers warning battery (codes "%")).status ≡ warn
unfolding apply_thresholds apply_value apply_latency evaluate_value has_thresholds get number_of
    read_value_thresholds rank
warning-kept = refl

abbrev ping : JudgedCheck
ping = record { type = "ping"; setting = not_finite }

abbrev no_reply : ResultInput
no_reply = record { status = down; message = some (codes "No reply from nas") }

wordings :
    (is_timeout_message (some (codes "read udp: i/o timeout")) ≡ true)
    × (is_timeout_message (some (codes "RequestTimedOutError")) ≡ true)
    × (is_timeout_message (some (codes "connect ETIMEDOUT")) ≡ true)
    × (is_timeout_message (some (codes "No UDP reply from 10.0.0.5")) ≡ true)
    × (is_timeout_message (some (codes "connect ECONNREFUSED")) ≡ false)
    × (is_timeout_message (some (codes "casino reply")) ≡ false)
unfolding is_timeout_message
wordings = (refl, refl, refl, refl, refl, refl)

third_timeout : judge_timeout ping no_reply (no_reply ∷ no_reply ∷ []) ≡ record {
  status = down;
  message = some (codes "No response 3 times in a row — No reply from nas");
}
unfolding judge_timeout timeouts_before_down is_timeout_message count_earlier show
third_timeout = refl

ping-softens : softens ping no_reply ≡ true
unfolding softens is_timeout_message
ping-softens = refl

fresh : streak (record { status = up; message = none } ∷ []) ≡ 0
unfolding streak earlier_timeout
fresh = refl

store_all-run_example :
    (judge_timeout ping no_reply (
      recent ping (
        store_all ping
          (no_reply ∷ no_reply ∷ [])
          (record { status = up; message = none } ∷ [])))).status
    ≡ (if ltb 3 (timeouts_before_down not_finite) then warn else down)
store_all-run_example =
    store_all-run ping (no_reply ∷ no_reply ∷ []) no_reply
      (record { status = up; message = none } ∷ []) fresh (ping-softens, (ping-softens, tt))
      ping-softens
