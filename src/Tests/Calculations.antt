-- ===== src/Tests/Calculations.antt =====
-- A calculated check over the checks of two sensors.
use looksee.Prelude.{◌≡◌, refl, Option, none, some, List, [], ◌∷◌}
use looksee.Prelude.Text.{Text, codes}
use looksee.Prelude.Same.{unique_onto}
use looksee.Expression.{
  functions, product, call, lookup, variable, parse, finished, evaluate_tokens,
}
use looksee.Expression.Tokens.{span, exponent, number_text, tokenize, evaluate_expression}
use looksee.Tests.Formulas.{whole_numbers}
use looksee.Calculated.{
  CalcConfig, Minutes, ratio, no_bound, within, InputRow, choose_checks, not_reported, worked_out,
  is_uuid, expression_names, read_inputs, probe_calculated,
}
use looksee.Calculated.Fresh.{Stands, probe_calculated-Stands}

abbrev first_id : Text
first_id = codes "3f2b8c1e-0a4d-4c5e-9f00-123456789abc"

abbrev second_id : Text
second_id = codes "3f2b8c1e-0a4d-4c5e-9f00-123456789abd"

abbrev own_id : Text
own_id = codes "3f2b8c1e-0a4d-4c5e-9f00-123456789abe"

abbrev with_age : Option Minutes → Text → CalcConfig
with_age age written = record {
  expression = written;
  var_a = first_id;
  var_b = second_id;
  var_c = own_id;
  var_d = [];
  max_age_minutes = age;
}

abbrev config : Text → CalcConfig
config written = with_age none written

abbrev sensors : List (InputRow whole_numbers)
sensors =
    record { id = second_id; called = codes "outside"; value = some 7; at = some 1000000 }
    ∷ record { id = first_id; called = codes "inside"; value = some 21; at = some 1500000 }
    ∷ []

-- The definitions that the tests open.
calculator : Unit {0}
unfolding functions product call lookup variable parse finished evaluate_tokens span exponent
    number_text tokenize evaluate_expression unique_onto is_uuid expression_names read_inputs
    probe_calculated
calculator = tt

warmer :
    probe_calculated whole_numbers (config (codes "a - b")) own_id sensors 1800000
    ≡ worked_out ((codes "a", 21) ∷ (codes "b", 7) ∷ []) 14
unfolding calculator
warmer = refl

too_old :
    probe_calculated whole_numbers (config (codes "a - b")) own_id sensors 1900001
    ≡ not_reported (codes "outside") (codes "b") (within 900000)
unfolding calculator
too_old = refl

-- Half a minute.
too_old_by_fraction :
    probe_calculated whole_numbers (with_age (some (ratio 1 1)) (codes "a")) own_id sensors 1530001
    ≡ not_reported (codes "inside") (codes "a") (within 30000)
unfolding calculator
too_old_by_fraction = refl

-- A setting that is no number.
never_too_old :
    probe_calculated whole_numbers (with_age (some no_bound) (codes "a")) own_id sensors 1900000000
    ≡ worked_out ((codes "a", 21) ∷ []) 21
unfolding calculator
never_too_old = refl

of_itself :
    probe_calculated whole_numbers (config (codes "c + d")) own_id sensors 1800000
    ≡ choose_checks (codes "c" ∷ codes "d" ∷ [])
unfolding calculator
of_itself = refl

probe_calculated-Stands_example :
    Stands whole_numbers
      (config (codes "a - b"))
      sensors
      1800000
      (probe_calculated whole_numbers (config (codes "a - b")) own_id sensors 1800000)
probe_calculated-Stands_example =
    probe_calculated-Stands whole_numbers (config (codes "a - b")) own_id sensors 1800000
