-- ===== src/Tests/Formulas.antt =====
-- The calculator on small formulas, with natural numbers.
use looksee.Prelude.{
  ℕ, ◌+◌, ◌-◌, ◌*◌, ◌/◌, ◌%◌, ◌^◌, min, max, true, List, [], ◌∷◌, ◌==◌, ◌≡◌, ◌≢◌, refl, replicate,
  ◌++◌,
}
use looksee.Prelude.Text.{Text, codes}
use looksee.Expression.{
  Arithmetic, ok, mistake, out_of_fuel, too_deep, division_by_zero, expected, unknown_name, Vars,
  functions, product, call, lookup, variable, parse, finished, evaluate_tokens,
}
use looksee.Expression.Tokens.{span, exponent, number_text, tokenize, evaluate_expression}
use looksee.Expression.Whole.{evaluate_expression-ends}

-- The definitions that the tests open.
calculator : Unit {0}
unfolding functions product call lookup variable parse finished evaluate_tokens span exponent
    number_text tokenize evaluate_expression
calculator = tt

abbrev digits : ℕ → Text → ℕ
digits acc [] = acc
digits acc (c ∷ s) = digits (acc * 10 + (c - b'0')) s

abbrev least : List ℕ → ℕ
least [] = 0
least (x ∷ []) = x
least (x ∷ y ∷ xs) = min x (least (y ∷ xs))

abbrev greatest : List ℕ → ℕ
greatest [] = 0
greatest (x ∷ xs) = max x (greatest xs)

abbrev pub whole_numbers : Arithmetic
whole_numbers = record {
  Number = ℕ;
  of_text = λ t. digits 0 t;
  is_finite = λ x. true;
  is_zero = λ x. x == 0;
  plus = λ x y. x + y;
  minus = λ x y. x - y;
  times = λ x y. x * y;
  over = λ x y. x / y;
  remainder = λ x y. x % y;
  to_the = λ x y. x ^ y;
  negated = λ x. 0;
  minimum = λ xs. least xs;
  maximum = λ xs. greatest xs;
  abs = λ x. x;
  round = λ x. x;
  round_to = λ x d. x;
  floor = λ x. x;
  ceil = λ x. x;
  sqrt = λ x. x;
  log10 = λ x. x;
}

abbrev vars : Vars whole_numbers
vars = (codes "value", 42) ∷ (codes "b", 4) ∷ []

precedence : evaluate_expression whole_numbers vars (codes "2 + 3 * 2 ^ 2 - b") ≡ ok 10
unfolding calculator
precedence = refl

functions_called : evaluate_expression whole_numbers vars (codes "max(value, 7) / min(2,3)") ≡ ok 21
unfolding calculator
functions_called = refl

zero_divisor :
    evaluate_expression whole_numbers vars (codes "value / (b - 4)") ≡ mistake division_by_zero
unfolding calculator
zero_divisor = refl

unclosed : evaluate_expression whole_numbers vars (codes "(1 + 2") ≡ mistake (expected b')')
unfolding calculator
unclosed = refl

unknown :
    evaluate_expression whole_numbers vars (codes "1 + c") ≡ mistake (unknown_name (codes "c"))
unfolding calculator
unknown = refl

-- Each bracket counts twice, for the expression in it and for the operand that it is.
nested : evaluate_expression whole_numbers vars (replicate 15 b'(' ++ codes "1") ≡ mistake too_deep
unfolding calculator
nested = refl

evaluate_expression-ends_example :
    evaluate_expression whole_numbers vars (codes "max(value, 7)") ≢ out_of_fuel
evaluate_expression-ends_example =
    evaluate_expression-ends whole_numbers vars (codes "max(value, 7)")
