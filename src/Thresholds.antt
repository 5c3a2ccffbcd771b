-- ===== src/Thresholds.antt =====
-- engine/src/services/thresholds.ts: statuses and their badness, warn/critical thresholds on a
-- check's value and response time.
-- A JavaScript number is an abstract type with the operations that the source uses (`Numbers`), so
-- that nothing rests on how floating point rounds; `details` and the other fields that the source
-- copies through are left out of `MeasuredResult`.
pub mod Order
pub mod Verdicts
use looksee.Prelude.{
  ℕ, String, Bool, true, false, not, ◌&&◌, ◌||◌, Option, none, some, List, [], ◌∷◌, ◌++◌, ltb, leb,
  ◌===◌, if◌then◌else◌,
}
use looksee.Prelude.Text.{Text, codes}

pub data Status : Type 0 where
  up down warn unknown : Status

unfoldable pub rank : Status → ℕ
rank up = 0
rank unknown = 1
rank warn = 2
rank down = 3

unfoldable pub worst : Status → Status → Status
unfolding rank
worst a b = if leb (rank b) (rank a) then a else b

abbrev pub is_down : Status → Bool
is_down down = true
is_down _ = false

-- JavaScript's numbers: `a > b` is `lt b a`, `show` is template interpolation.
pub record Numbers : Type 1 where
  pub Number : Type 0
  pub lt : Number → Number → Bool
  pub le : Number → Number → Bool
  pub is_finite : Number → Bool
  pub of_text : Text → Number
  pub of_bool : Bool → Number
  pub abs : Number → Number
  pub math_round : Number → Number
  pub times : Number → Number → Number
  pub over : Number → Number → Number
  pub hundred : Number
  pub show : Number → Text

module _ (N : Numbers) where
  -- A setting as it is stored. `other` is an object or an array, with what `Number()` makes of it.
  pub data Setting : Type 0 where
    undefined null : Setting
    bool : Bool → Setting
    num : N.Number → Setting
    str : Text → Setting
    other : N.Number → Setting

  -- Record<string, unknown>
  abbrev pub Config : Type 0
  Config = List (String × Setting)

  abbrev finite_or_none : N.Number → Option N.Number
  finite_or_none n = if N.is_finite n then some n else none

  -- `num` of the source: blank, missing and non-numeric settings are undefined.
  unfoldable pub number_of : Setting → Option N.Number
  number_of undefined = none
  number_of null = none
  number_of (bool b) = finite_or_none (N.of_bool b)
  number_of (num n) = finite_or_none n
  number_of (str []) = none
  number_of (str (c ∷ s)) = finite_or_none (N.of_text (c ∷ s))
  number_of (other n) = finite_or_none n

  unfoldable pub get : Config → String → Setting
  get [] k = undefined
  get ((j, v) ∷ c) k = if j === k then v else get c k

  pub record ValueThresholds : Type 0 where
    pub warn_below : Option N.Number
    pub critical_below : Option N.Number
    pub warn_above : Option N.Number
    pub critical_above : Option N.Number

  unfoldable pub read_value_thresholds : Config → ValueThresholds
  read_value_thresholds c = record {
    warn_below = number_of (get c "warnBelow");
    critical_below = number_of (get c "criticalBelow");
    warn_above = number_of (get c "warnAbove");
    critical_above = number_of (get c "criticalAbove");
  }

  abbrev is_set : Option N.Number → Bool
  is_set none = false
  is_set (some n) = true

  unfoldable pub has_thresholds : ValueThresholds → Bool
  has_thresholds t =
      is_set t.warn_below
      || is_set t.critical_below
      || is_set t.warn_above
      || is_set t.critical_above

  unfoldable pub round : N.Number → N.Number
  round n =
      if N.le N.hundred (N.abs n)
      then N.math_round n
      else N.over (N.math_round (N.times n N.hundred)) N.hundred

  -- `t.xBelow != null && value < t.xBelow`, and the same above.
  abbrev pub below : N.Number → Option N.Number → Bool
  below v none = false
  below v (some t) = N.lt v t

  abbrev pub above : N.Number → Option N.Number → Bool
  above v none = false
  above v (some t) = N.lt t v

  -- `${t}`, used only where `t` is not null.
  abbrev show_some : Option N.Number → Text
  show_some none = codes "undefined"
  show_some (some t) = N.show t

  pub record Verdict : Type 0 where
    pub status : Status
    pub message : Option Text

  abbrev breach : N.Number → Text → String → Option N.Number → Text
  breach value unit what t = N.show (round value) ++ (unit ++ (codes what ++ (show_some t ++ unit)))

  unfoldable pub evaluate_value : N.Number → ValueThresholds → Text → Verdict
  evaluate_value value t unit =
      if below value t.critical_below
      then record {
        status = down;
        message = some (breach value unit " is below critical threshold " t.critical_below);
      }
      else if above value t.critical_above
      then record {
        status = down;
        message = some (breach value unit " is above critical threshold " t.critical_above);
      }
      else if below value t.warn_below
      then record {
        status = warn;
        message = some (breach value unit " is below warn threshold " t.warn_below);
      }
      else if above value t.warn_above
      then record {
        status = warn;
        message = some (breach value unit " is above warn threshold " t.warn_above);
      }
      else record { status = up; message = none }

  pub record MeasuredResult : Type 0 where
    pub status : Status
    pub latency_ms : Option N.Number
    pub message : Option Text
    pub value : Option N.Number

  -- The status and the notes so far.
  pub record Judged : Type 0 where
    pub status : Status
    pub notes : List Text

  abbrev push_note : List Text → Option Text → List Text
  push_note notes none = notes
  push_note notes (some m) = notes ++ m ∷ []

  -- First step of `applyThresholds`: the value thresholds.
  unfoldable pub apply_value : Judged → Option N.Number → ValueThresholds → Text → Judged
  apply_value j none t unit = j
  apply_value j (some value) t unit =
      if has_thresholds t && not (is_down j.status)
      then (let v = evaluate_value value t unit in
          if ltb (rank j.status) (rank v.status)
          then record { status = v.status; notes = push_note j.notes v.message }
          else j)
      else j

  abbrev latency_note : N.Number → String → Option N.Number → Text
  latency_note ms what t =
      codes "Response took " ++ (N.show ms ++ (codes what ++ (show_some t ++ codes "ms)")))

  -- Second step: the response-time thresholds.
  unfoldable pub apply_latency :
      Judged → Option N.Number → Option N.Number → Option N.Number → Judged
  apply_latency j none lat_warn lat_crit = j
  apply_latency j (some ms) lat_warn lat_crit =
      if is_down j.status
      then j
      else if above ms lat_crit
      then record {
        status = down;
        notes = j.notes ++ latency_note ms "ms (critical over " lat_crit ∷ [];
      }
      else if above ms lat_warn && ltb (rank j.status) (rank warn)
      then record {
        status = warn;
        notes = j.notes ++ latency_note ms "ms (warn over " lat_warn ∷ [];
      }
      else j

  -- Array.join
  abbrev join : Text → List Text → Text
  join sep [] = []
  join sep (s ∷ []) = s
  join sep (s ∷ t ∷ rest) = s ++ (sep ++ join sep (t ∷ rest))

  abbrev non_empty : Option Text → List Text
  non_empty none = []
  non_empty (some []) = []
  non_empty (some (c ∷ s)) = (c ∷ s) ∷ []

  -- `if (notes.length) message = [notes.join("; "), message].filter(Boolean).join(" — ")`
  unfoldable pub with_notes : List Text → Option Text → Option Text
  with_notes [] message = message
  with_notes (n ∷ notes) message =
      some
        (join (codes " — ") (non_empty (some (join (codes "; ") (n ∷ notes))) ++ non_empty message))

  unfoldable pub apply_thresholds : MeasuredResult → Config → Text → MeasuredResult
  apply_thresholds result config unit =
      let start : Judged = record { status = result.status; notes = [] } in
      let valued = apply_value start result.value (read_value_thresholds config) unit in
      let final =
        apply_latency valued result.latency_ms (number_of (get config "latencyWarnMs"))
          (number_of (get config "latencyCriticalMs")) in
      record result { status = final.status; message = with_notes final.notes result.message }
