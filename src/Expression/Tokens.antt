-- ===== src/Expression/Tokens.antt =====
-- The tokens of an expression, and the whole of `evaluateExpression`
-- (engine/src/services/probes/expression.ts).
use looksee.Prelude.{
  ℕ, zero, suc, Bool, false, not, ◌&&◌, ◌||◌, List, [], ◌∷◌, ◌++◌, ◌==◌, ltb, length, any,
  if◌then◌else◌,
}
use looksee.Prelude.Text.{Text, is_digit, is_word}
use looksee.Expression.{
  Arithmetic, too_long, not_a_number, unexpected_unit, Outcome, ok, mistake, out_of_fuel, ◌>>=◌,
  max_length, Token, num, name, op, Vars, evaluate_tokens,
}

-- The longest start of a text whose units pass a test, and the rest.
unfoldable pub span : (ℕ → Bool) → Text → Text × Text
span p [] = ([], [])
span p (c ∷ s) = let (taken, rest) = span p s in if p c then (c ∷ taken, rest) else ([], c ∷ s)

abbrev pub in_number : ℕ → Bool
in_number c = is_digit c || c == b'.'

abbrev pub is_sign : ℕ → Bool
is_sign c = c == b'+' || c == b'-'

abbrev pub starts_name : ℕ → Bool
starts_name c = is_word c && not (is_digit c)

abbrev pub digit_next : Text → Bool
digit_next [] = false
digit_next (d ∷ s) = is_digit d

abbrev pub is_operator : ℕ → Bool
is_operator c =
    any (λ v. v == c) (b'+' ∷ b'-' ∷ b'*' ∷ b'/' ∷ b'%' ∷ b'^' ∷ b'(' ∷ b')' ∷ b',' ∷ [])

-- The optional exponent, with its letter and its sign, and the rest.
unfoldable pub exponent : Text → Text × Text
exponent [] = ([], [])
exponent (e ∷ []) = ([], e ∷ [])
exponent (e ∷ d ∷ s) =
    if not ((e == b'e' || e == b'E') && (is_digit d || is_sign d))
    then ([], e ∷ d ∷ s)
    else if is_sign d
    then (e ∷ d ∷ (span is_digit s).0, (span is_digit s).1)
    else (e ∷ (span is_digit (d ∷ s)).0, (span is_digit (d ∷ s)).1)

-- The text of a number, and the rest.
unfoldable pub number_text : Text → Text × Text
number_text s =
    let (digits, rest) = span in_number s in (digits ++ (exponent rest).0, (exponent rest).1)

module _ (N : Arithmetic) where
  abbrev pub push : Token N → List (Token N) → Outcome (List (Token N))
  push t ts = ok (t ∷ ts)

  unfoldable pub tokenize : ℕ → Text → Outcome (List (Token N))
  tokenize fuel [] = ok []
  tokenize zero (c ∷ s) = out_of_fuel
  tokenize (suc fuel) (c ∷ s) =
      let skip = tokenize fuel s in
      let value = N.of_text (number_text (c ∷ s)).0 in
      let later = tokenize fuel (number_text (c ∷ s)).1 >>= push (num value) in
      let number =
        if N.is_finite value then later else mistake (not_a_number (number_text (c ∷ s)).0) in
      let named = tokenize fuel (span is_word s).1 >>= push (name (c ∷ (span is_word s).0)) in
      let operator = tokenize fuel s >>= push (op c) in
      if c == b' ' || c == 9
      then skip
      else if is_digit c || c == b'.' && digit_next s
      then number
      else if starts_name c
      then named
      else if is_operator c
      then operator
      else mistake (unexpected_unit c)

  unfoldable pub evaluate_expression : Vars N → Text → Outcome N.Number
  evaluate_expression vars text =
      if ltb max_length (length text)
      then mistake too_long
      else tokenize (length text) text >>= λ ts. evaluate_tokens N vars ts
