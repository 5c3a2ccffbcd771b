-- ===== src/Expression.antt =====
-- The calculator for check values (engine/src/services/probes/expression.ts): its tokens, and the
-- parser that works out an expression as it reads it. JavaScript's numbers and `Math` are the
-- parameter Arithmetic.
pub mod Ends
pub mod Tokens
pub mod Whole
use looksee.Prelude.{
  ℕ, zero, suc, ◌+◌, ◌*◌, Bool, true, false, not, ◌&&◌, ◌||◌, Option, none, some, List, [], ◌∷◌,
  ◌++◌, ◌==◌, leb, ltb, length, any, String, find, if◌then◌else◌,
}
use looksee.Prelude.Text.{Text, codes, same}

pub record Arithmetic : Type 1 where
  pub Number : Type 0
  pub of_text : Text → Number
  pub is_finite : Number → Bool
  pub is_zero : Number → Bool
  pub plus : Number → Number → Number
  pub minus : Number → Number → Number
  pub times : Number → Number → Number
  pub over : Number → Number → Number
  pub remainder : Number → Number → Number
  pub to_the : Number → Number → Number
  pub negated : Number → Number
  pub minimum : List Number → Number
  pub maximum : List Number → Number
  pub abs : Number → Number
  pub round : Number → Number
  pub round_to : Number → Number → Number
  pub floor : Number → Number
  pub ceil : Number → Number
  pub sqrt : Number → Number
  pub log10 : Number → Number

-- The messages of the errors, by what they say.
pub data Mistake : Type 0 where
  too_long empty too_deep ends_early division_by_zero not_finite : Mistake
  not_a_number unknown_function unknown_name wrong_arguments : Text → Mistake
  unexpected_unit expected unexpected_operator : ℕ → Mistake
  after_end : Mistake

-- `throw`, or a result; and the fuel that a proof shows never to run out.
pub data Outcome {ℓ} (A : Type ℓ) : Type ℓ where
  ok : A → Outcome A
  mistake : Mistake → Outcome A
  out_of_fuel : Outcome A

infixl 5 ◌>>=◌
abbrev pub ◌>>=◌ {ℓ κ} : {A : Type ℓ} {B : Type κ} → Outcome A → (A → Outcome B) → Outcome B
ok a >>= f = f a
mistake m >>= f = mistake m
out_of_fuel >>= f = out_of_fuel

abbrev pub max_length : ℕ
max_length = 500

abbrev pub max_depth : ℕ
max_depth = 30

module _ (N : Arithmetic) where
  pub data Token : Type 0 where
    num : N.Number → Token
    name : Text → Token
    op : ℕ → Token

  abbrev pub Vars : Type 0
  Vars = List (Text × N.Number)

  -- FUNCTIONS: how many arguments each takes, and what it does with them.
  pub record Function : Type 0 where
    pub called : Text
    pub least : ℕ
    pub most : ℕ
    pub apply : List N.Number → N.Number

  -- With a number of arguments that `call` refuses, these are never used.
  abbrev one : (N.Number → N.Number) → List N.Number → N.Number
  one f (x ∷ []) = f x
  one f xs = N.minimum xs

  abbrev rounding : List N.Number → N.Number
  rounding (x ∷ d ∷ []) = N.round_to x d
  rounding (x ∷ []) = N.round x
  rounding xs = N.minimum xs

  abbrev unary_function : String → (N.Number → N.Number) → Function
  unary_function t f = record { called = codes t; least = 1; most = 1; apply = one f }

  unfoldable pub functions : List Function
  functions =
      record { called = codes "min"; least = 1; most = 20; apply = N.minimum }
      ∷ record { called = codes "max"; least = 1; most = 20; apply = N.maximum }
      ∷ unary_function "abs" N.abs
      ∷ record { called = codes "round"; least = 1; most = 2; apply = rounding }
      ∷ unary_function "floor" N.floor
      ∷ unary_function "ceil" N.ceil
      ∷ unary_function "sqrt" N.sqrt
      ∷ unary_function "log10" N.log10
      ∷ []

  -- What is parsed: the functions of the source, and its loops with what they have worked out.
  pub data Rule : Type 0 where
    expression term unary power primary : Rule
    more_terms more_factors : N.Number → Rule
    arguments : Function → List N.Number → Rule

  abbrev pub Parsed : Type 0
  Parsed = Outcome (N.Number × List Token)

  -- `isOp(v)`, with the tokens behind the operator
  abbrev pub after_op : ℕ → List Token → Option (List Token)
  after_op v (op c ∷ ts) = if c == v then some ts else none
  after_op v ts = none

  -- `isOp` of one of several, with the operator
  abbrev pub one_of : List ℕ → List Token → Option (ℕ × List Token)
  one_of vs (op c ∷ ts) = if any (λ v. v == c) vs then some (c, ts) else none
  one_of vs ts = none

  -- `expect(v)`
  abbrev pub expect : ℕ → N.Number → List Token → Parsed
  expect v x ts = elim (after_op v ts) [ none ↦ mistake (expected v) | some rest ↦ ok (x, rest) ]

  -- `+` or `-`
  abbrev pub sum : ℕ → N.Number → N.Number → N.Number
  sum c v r = if c == b'+' then N.plus v r else N.minus v r

  -- `*`, `/` or `%`, where a divisor is not 0
  unfoldable pub product : ℕ → N.Number → N.Number → Outcome N.Number
  product c v r =
      if (c == b'/' || c == b'%') && N.is_zero r
      then mistake division_by_zero
      else ok (if c == b'*' then N.times v r else if c == b'/' then N.over v r else N.remainder v r)

  -- The call of a function on its arguments.
  unfoldable pub call : Function → List N.Number → List Token → Parsed
  call f args ts =
      if ltb (length args) f.least || ltb f.most (length args)
      then mistake (wrong_arguments f.called)
      else ok (f.apply args, ts)

  unfoldable pub lookup : Vars → Text → Option N.Number
  lookup [] t = none
  lookup ((u, x) ∷ vars) t = let rest = lookup vars t in if same u t then some x else rest

  unfoldable pub variable : Vars → Text → List Token → Parsed
  variable vars t ts = elim (lookup vars t) [
    | none ↦ mistake (unknown_name t)
    | some x ↦ ok (x, ts)
  ]

  abbrev pub find_function : Text → Option Function
  find_function t = find (λ f. same f.called t) functions

  unfoldable pub parse : ℕ → Rule → Vars → (depth : ℕ) → List Token → Parsed
  parse zero rule vars depth ts = out_of_fuel
  -- expression := term (("+" | "-") term)*, inside `nest`
  parse (suc fuel) expression vars depth ts =
      let body = parse fuel term vars (depth + 1) ts >>= λ (v, rest).
      parse fuel (more_terms v) vars (depth + 1) rest in
      if ltb max_depth (depth + 1) then mistake too_deep else body
  parse (suc fuel) (more_terms v) vars depth ts = elim (one_of (b'+' ∷ b'-' ∷ []) ts) [
    | none ↦ ok (v, ts)
    | some (c, rest) ↦ parse fuel term vars depth rest >>= λ (r, left).
        parse fuel (more_terms (sum c v r)) vars depth left
  ]
  -- term := unary (("*" | "/" | "%") unary)*
  parse (suc fuel) term vars depth ts =
      parse fuel unary vars depth ts >>= λ (v, rest). parse fuel (more_factors v) vars depth rest
  parse (suc fuel) (more_factors v) vars depth ts = elim (one_of (b'*' ∷ b'/' ∷ b'%' ∷ []) ts) [
    | none ↦ ok (v, ts)
    | some (c, rest) ↦ parse fuel unary vars depth rest >>= λ (r, left).
        product c v r >>= λ w. parse fuel (more_factors w) vars depth left
  ]
  -- unary := ("-" | "+") unary | power, inside `nest`
  parse (suc fuel) unary vars depth ts =
      let body : Parsed = elim (one_of (b'-' ∷ b'+' ∷ []) ts) [
        | none ↦ parse fuel power vars (depth + 1) ts
        | some (c, rest) ↦ parse fuel unary vars (depth + 1) rest >>= λ (v, left).
            ok (if c == b'-' then N.negated v else v, left)
      ] in
      if ltb max_depth (depth + 1) then mistake too_deep else body
  -- power := primary ("^" unary)?
  parse (suc fuel) power vars depth ts = parse fuel primary vars depth ts >>= λ (base, rest).
      elim (after_op b'^' rest) [
        | none ↦ ok (base, rest)
        | some more ↦ parse fuel unary vars depth more >>= λ (e, left). ok (N.to_the base e, left)
      ]
  -- primary := number | name | name "(" args ")" | "(" expression ")"
  parse (suc fuel) primary vars depth [] = mistake ends_early
  parse (suc fuel) primary vars depth (num x ∷ ts) = ok (x, ts)
  parse (suc fuel) primary vars depth (name t ∷ ts) = elim (after_op b'(' ts) [
    | none ↦ variable vars t ts
    | some more ↦ elim (find_function t) [
      | none ↦ mistake (unknown_function t)
      | some f ↦ elim (after_op b')' more) [
        | some rest ↦ call f [] rest
        | none ↦ parse fuel (arguments f []) vars depth more
      ]
    ]
  ]
  parse (suc fuel) primary vars depth (op c ∷ ts) =
      let inside = parse fuel expression vars depth ts >>= λ (v, rest). expect b')' v rest in
      if c == b'(' then inside else mistake (unexpected_operator c)
  -- The next argument, and what follows it.
  parse (suc fuel) (arguments f args) vars depth ts =
      parse fuel expression vars depth ts >>= λ (v, rest). elim (after_op b',' rest) [
        | some more ↦ parse fuel (arguments f (args ++ (v ∷ []))) vars depth more
        | none ↦ expect b')' v rest >>= λ (w, left). call f (args ++ (v ∷ [])) left
      ]

  -- The tests behind the parser.
  unfoldable pub finished : N.Number → List Token → Outcome N.Number
  finished v [] = if N.is_finite v then ok v else mistake not_finite
  finished v (u ∷ us) = mistake after_end

  -- `evaluateExpression` behind the tokenizer.
  unfoldable pub evaluate_tokens : Vars → List Token → Outcome N.Number
  evaluate_tokens vars [] = mistake empty
  evaluate_tokens vars (t ∷ ts) =
      parse (8 * length (t ∷ ts) + 8) expression vars 0 (t ∷ ts) >>= λ (v, rest). finished v rest
