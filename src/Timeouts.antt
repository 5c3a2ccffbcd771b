-- ===== src/Timeouts.antt =====
-- engine/src/services/timeouts.ts: when a timeout is only a warning. Messages are lists of code
-- units; `check.config` is read at the one key that the module uses.
mod Pattern
pub mod Run
use Pattern.{matches_timeout}
use looksee.Prelude.{
  ℕ, String, Bool, true, false, not, ◌&&◌, ◌||◌, Option, none, some, List, [], ◌∷◌, ◌++◌, ◌-◌, ◌+◌,
  min, max, ltb, leb, includes, if◌then◌else◌,
}
use looksee.Prelude.Text.{Text, codes, show}
use looksee.Thresholds.{Status, up, down, warn, unknown}

-- Boolean(message && TIMEOUT_PATTERN.test(message))
unfoldable pub is_timeout_message : Option Text → Bool
unfolding matches_timeout
is_timeout_message none = false
is_timeout_message (some []) = false
is_timeout_message (some (c ∷ s)) = matches_timeout (c ∷ s)

abbrev exempt_types : List String
exempt_types =
    "agent_script" ∷ "agent_log" ∷ "agent_eventlog" ∷ "agent_journal" ∷ "trap_match"
    ∷ "syslog_match" ∷ "push_value" ∷ "heartbeat" ∷ "agent_heartbeat" ∷ "calculated" ∷ "anomaly"
    ∷ []

abbrev default_timeouts_before_down : ℕ
default_timeouts_before_down = 3

abbrev max_timeouts_before_down : ℕ
max_timeouts_before_down = 20

-- `Math.floor(Number(raw))` of the setting: not finite (or blank, or missing), below zero, or a
-- natural number.
pub data Floored : Type 0 where
  not_finite negative : Floored
  at : ℕ → Floored

unfoldable pub timeouts_before_down : Floored → ℕ
timeouts_before_down not_finite = default_timeouts_before_down
timeouts_before_down negative = min max_timeouts_before_down 1
timeouts_before_down (at n) = min max_timeouts_before_down (max 1 n)

-- The fields of a result that the engine stores and judges.
pub record ResultInput : Type 0 where
  pub status : Status
  pub message : Option Text

pub record JudgedCheck : Type 0 where
  pub type : String
  pub setting : Floored

-- `(r.status !== "warn" && r.status !== "down") || !isTimeoutMessage(r.message)` negated
unfoldable pub earlier_timeout : ResultInput → Bool
earlier_timeout r = elim r.status [
  | warn ↦ is_timeout_message r.message
  | down ↦ is_timeout_message r.message
  | _ ↦ false
]

-- The counting loop: `earlier` timeouts so far, stopping at `limit - 1`.
unfoldable pub count_earlier : ℕ → ℕ → List ResultInput → ℕ
unfolding earlier_timeout
count_earlier limit earlier [] = earlier
count_earlier limit earlier (r ∷ recent) =
    let rest = count_earlier limit (earlier + 1) recent in
    if not (earlier_timeout r)
    then earlier
    else if leb (limit - 1) (earlier + 1)
    then earlier + 1
    else rest

-- `${input.message}`
abbrev message_text : Option Text → Text
message_text none = codes "undefined"
message_text (some m) = m

abbrev down_message : ℕ → Option Text → Text
down_message limit m =
    codes "No response " ++ (show limit ++ (codes " times in a row — " ++ message_text m))

abbrev warn_message : ℕ → ℕ → Option Text → Text
warn_message in_a_row limit m =
    codes "Timeout "
    ++ (show in_a_row
        ++ (codes " of " ++ (show limit ++ (codes " before down — " ++ message_text m))))

-- A result that the rule may soften: down, of a type that is not exempt, with a timeout's wording.
unfoldable pub softens : JudgedCheck → ResultInput → Bool
softens check input = elim input.status [
  | down ↦ not (includes exempt_types check.type) && is_timeout_message input.message
  | _ ↦ false
]

unfoldable pub judge_timeout : JudgedCheck → ResultInput → List ResultInput → ResultInput
unfolding softens
judge_timeout check input recent =
    let limit = timeouts_before_down check.setting in
    let in_a_row = count_earlier limit 0 recent + 1 in
    if not (softens check input)
    then input
    else if leb limit 1
    then input
    else if leb limit in_a_row
    then record { status = down; message = some (down_message limit input.message) }
    else record { status = warn; message = some (warn_message in_a_row limit input.message) }
