-- ===== src/Calculated.antt =====
-- engine/src/services/calculated.ts: checks whose value is worked out from other checks, with
-- `isUuid` of engine/src/lib/ids.ts and `expressionNames` of
-- engine/src/services/probes/expression.ts. Messages are kept by what they say; instants are whole
-- numbers, and no instant is 0. The minutes of the setting are any number that `Number` makes of
-- it, NaN too; their product with 60 000 is not rounded as a double is.
pub mod Fresh
use looksee.Prelude.{
  ℕ, suc, ◌+◌, ◌*◌, ◌/◌, ◌⊎◌, inl, inr, Bool, true, false, not, ◌&&◌, ◌||◌, Option, none, some,
  List, [], ◌∷◌, ◌++◌, map, keep, find, any, length, leb, ltb, ◌==◌, or_else, if◌then◌else◌,
}
use looksee.Prelude.Text.{Text, codes, same, trim, is_digit}
use looksee.Prelude.Same.{unique_onto}
use looksee.Exclude.Items.{is_filled}
use looksee.Thresholds.{Status, up, warn}
use looksee.Expression.{
  Arithmetic, Mistake, Outcome, ok, mistake, out_of_fuel, Token, num, name, op, Vars,
}
use looksee.Expression.Tokens.{tokenize, evaluate_expression}

abbrev is_hex : ℕ → Bool
is_hex c = is_digit c || leb b'a' c && leb c b'f' || leb b'A' c && leb c b'F'

-- The loop from the unit with number `i`.
abbrev is_uuid_from : ℕ → Text → Bool
is_uuid_from i [] = true
is_uuid_from i (c ∷ s) =
    (if i == 8 || i == 13 || i == 18 || i == 23 then c == b'-' else is_hex c)
    && is_uuid_from (suc i) s

unfoldable pub is_uuid : Text → Bool
is_uuid s = length s == 36 && is_uuid_from 0 s

-- A variable, and the ID of the check that it stands for.
pub record Wanted : Type 0 where
  pub var_name : Text
  pub id : Text

-- `Number(config.maxAgeMinutes)`: a numerator over a denominator, which is one more than the number
-- given, 0 or above or below 0; or Infinity or NaN, with neither of which an instant compares as
-- too old. Minus Infinity is left out.
pub data Minutes : Type 0 where
  ratio : ℕ → ℕ → Minutes
  below_zero : ℕ → ℕ → Minutes
  no_bound : Minutes

-- `maxAge` in milliseconds, as far as it decides on whole instants: rounded down if it is 0 or
-- above; if it is below 0, how far, rounded up.
pub data Age : Type 0 where
  within : ℕ → Age
  ahead : ℕ → Age
  endless : Age

pub record CalcConfig : Type 0 where
  pub expression : Text
  pub var_a : Text
  pub var_b : Text
  pub var_c : Text
  pub var_d : Text
  pub max_age_minutes : Option Minutes

abbrev pub calc_variables : CalcConfig → List Wanted
calc_variables c =
    record { var_name = codes "a"; id = c.var_a }
    ∷ record { var_name = codes "b"; id = c.var_b }
    ∷ record { var_name = codes "c"; id = c.var_c }
    ∷ record { var_name = codes "d"; id = c.var_d }
    ∷ []

abbrev in_milliseconds : Minutes → Age
in_milliseconds (ratio n d) = within (n * 60000 / suc d)
in_milliseconds (below_zero n d) = ahead ((n * 60000 + d) / suc d)
in_milliseconds no_bound = endless

abbrev pub max_age : CalcConfig → Age
max_age c = in_milliseconds (or_else c.max_age_minutes (ratio 15 0))

abbrev pub is_unset : Text → Wanted → Bool
is_unset own_id w = not (is_uuid w.id) || same w.id own_id

abbrev pub names_of_unset : List Wanted → List Text
names_of_unset ws = map (λ (w : Wanted). w.var_name) ws

-- `!row.at || Date.now() - row.at.getTime() > maxAge`
abbrev pub is_stale : Age → ℕ → Option ℕ → Bool
is_stale age now none = true
is_stale (within ms) now (some at) = ltb (at + ms) now
is_stale (ahead ms) now (some at) = ltb at (now + ms)
is_stale endless now (some at) = false

module _ (N : Arithmetic) where
  abbrev is_called : List (Token N) → Bool
  is_called (op c ∷ ts) = c == b'('
  is_called ts = false

  abbrev names : List (Token N) → List Text
  names [] = []
  names (name t ∷ ts) = let rest = names ts in if is_called ts then rest else t ∷ rest
  names (num x ∷ ts) = names ts
  names (op c ∷ ts) = names ts

  abbrev names_of : Outcome (List (Token N)) → List Text
  names_of (ok ts) = unique_onto [] (names ts)
  names_of (mistake m) = []
  names_of out_of_fuel = []

  unfoldable pub expression_names : Text → List Text
  unfolding unique_onto
  expression_names text = names_of (tokenize N (length text) text)

  pub record InputRow : Type 0 where
    pub id : Text
    pub called : Text
    pub value : Option N.Number
    pub at : Option ℕ

  pub data CalcResult : Type 0 where
    no_expression : CalcResult
    choose_checks : List Text → CalcResult
    no_such_check : Text → CalcResult
    no_value_yet : Text → Text → CalcResult
    not_reported : Text → Text → Age → CalcResult
    worked_out : Vars N → N.Number → CalcResult
    failed : Mistake → CalcResult
    no_end : CalcResult

  abbrev pub result_status : CalcResult → Status
  result_status (worked_out vars v) = up
  result_status (no_value_yet row var_name) = Status.unknown
  result_status (not_reported row var_name age) = Status.unknown
  result_status _ = warn

  pub data Inputs : Type 0 where
    read : Vars N → Inputs
    stopped : CalcResult → Inputs

  -- The value of an input, or why there is none.
  abbrev pub value_of : Age → ℕ → Text → InputRow → Option N.Number → CalcResult ⊎ N.Number
  value_of age now var_name row none = inl (no_value_yet row.called var_name)
  value_of age now var_name row (some v) =
      if is_stale age now row.at then inl (not_reported row.called var_name age) else inr v

  abbrev pub input_of : Age → ℕ → Text → Option InputRow → CalcResult ⊎ N.Number
  input_of age now var_name none = inl (no_such_check var_name)
  input_of age now var_name (some row) = value_of age now var_name row row.value

  abbrev pub row_of : List InputRow → Text → Option InputRow
  row_of rows id = find (λ r. same r.id id) rows

  -- The loop over the variables.
  unfoldable pub read_inputs : List InputRow → Age → ℕ → Vars N → List Wanted → Inputs
  read_inputs rows age now vars [] = read vars
  read_inputs rows age now vars (w ∷ ws) = elim (input_of age now w.var_name (row_of rows w.id)) [
    | inl r ↦ stopped r
    | inr v ↦ read_inputs rows age now (vars ++ (w.var_name, v) ∷ []) ws
  ]

  abbrev pub result_of : Vars N → Outcome N.Number → CalcResult
  result_of vars (ok v) = worked_out vars v
  result_of vars (mistake m) = failed m
  result_of vars out_of_fuel = no_end

  abbrev pub after_inputs : Text → Inputs → CalcResult
  after_inputs expression (stopped r) = r
  after_inputs expression (read vars) = result_of vars (evaluate_expression N vars expression)

  abbrev pub wanted : CalcConfig → List Wanted
  wanted c =
      keep (λ (w : Wanted). any (same w.var_name) (expression_names (trim c.expression)))
        (calc_variables c)

  -- The rows of the checks that are used.
  abbrev pub rows_of : CalcConfig → List InputRow → List InputRow
  rows_of c checks =
      let ids = map (λ (w : Wanted). w.id) (wanted c) in
      keep (λ (r : InputRow). any (same r.id) ids) checks

  abbrev pub with_missing : CalcConfig → List InputRow → ℕ → List Wanted → CalcResult
  with_missing c checks now (w ∷ ws) = choose_checks (names_of_unset (w ∷ ws))
  with_missing c checks now [] =
      after_inputs (trim c.expression)
        (read_inputs (rows_of c checks) (max_age c) now [] (wanted c))

  -- `own_id` is the ID of the check itself, `checks` the table of checks.
  unfoldable pub probe_calculated : CalcConfig → Text → List InputRow → ℕ → CalcResult
  unfolding expression_names is_uuid read_inputs
  probe_calculated c own_id checks now =
      let probed = with_missing c checks now (keep (is_unset own_id) (wanted c)) in
      if is_filled (trim c.expression) then probed else no_expression
