-- ===== src/Expression/Ends.antt =====
-- The recursion of the parser of engine/src/services/probes/expression.ts.
use looksee.Prelude.{
  ℕ, zero, suc, ◌+◌, ◌*◌, ◌≤◌, ◌<◌, Bool, true, false, Option, none, some, List, [], ◌∷◌, ◌==◌, ltb,
  length, any, if◌then◌else◌, ◌≡◌, ◌≢◌, refl, ap, inl, inr, arith, Bool-cases,
}
use looksee.Prelude.Text.{Text}
use looksee.Expression.{
  Arithmetic, Mistake, too_deep, Outcome, ok, mistake, out_of_fuel, ◌>>=◌, max_depth, Token, num,
  name, op, Vars, Function, Rule, expression, term, unary, power, primary, more_terms, more_factors,
  arguments, Parsed, after_op, one_of, expect, product, call, variable, lookup, find_function,
  parse, finished, evaluate_tokens,
}

module _ (N : Arithmetic) where
  -- An answer that leaves fewer than `n` tokens, or a mistake.
  abbrev Within : ℕ → Parsed N → Type 0
  Within n (ok (v, rest)) = suc (length rest) ≤ n
  Within n (mistake m) = Unit
  Within n out_of_fuel = ⊥

  bind-Within :
      (n m : ℕ) (o : Parsed N) (k : N.Number × List (Token N) → Parsed N)
      → Within n o
      → ((v : N.Number) (rest : List (Token N)) → suc (length rest) ≤ n → Within m (k (v, rest)))
      → Within m (o >>= k)
  bind-Within n m (ok (v, rest)) k w f = f v rest w
  bind-Within n m (mistake e) k w f = tt
  bind-Within n m out_of_fuel k w f = absurd w

  -- How much fuel a rule takes beside eight times the tokens, and how many tokens it may leave.
  abbrev rank : Rule N → ℕ
  rank (more_terms v) = 7
  rank (more_factors v) = 7
  rank (arguments f args) = 6
  rank expression = 5
  rank term = 4
  rank unary = 3
  rank power = 2
  rank primary = 1

  abbrev leaves : Rule N → ℕ → ℕ
  leaves (more_terms v) n = suc n
  leaves (more_factors v) n = suc n
  leaves _ n = n

  case-Within {ℓ} :
      {A : Type ℓ} (n : ℕ) (o : Option A) (a : Parsed N) (f : A → Parsed N)
      → (o ≡ none → Within n a)
      → ((x : A) → o ≡ some x → Within n (f x))
      → Within n (elim o [ none ↦ a | some x ↦ f x ])
  case-Within n none a f p q = p refl
  case-Within n (some x) a f p q = q x refl

  abbrev left : Option (List (Token N)) → ℕ
  left none = 0
  left (some ts) = length ts

  abbrev left_pair : Option (ℕ × List (Token N)) → ℕ
  left_pair none = 0
  left_pair (some (c, ts)) = length ts

  length-after_op :
      (c : ℕ) (ts rest : List (Token N))
      → after_op N c ts ≡ some rest
      → suc (length rest) ≤ length ts
  length-after_op c [] rest h = absurd (cc)
  length-after_op c (num x ∷ ts) rest h = absurd (cc)
  length-after_op c (name x ∷ ts) rest h = absurd (cc)
  length-after_op c (op d ∷ ts) rest h = elim (Bool-cases (d == c)) [
    | inl same ↦ omega (arith, ap left (rw same at h))
    | inr other ↦ absurd (ground (arith, rw other at h))
  ]

  length-one_of :
      (vs : List ℕ) (ts : List (Token N)) (c : ℕ) (rest : List (Token N))
      → one_of N vs ts ≡ some (c, rest)
      → suc (length rest) ≤ length ts
  length-one_of vs [] c rest h = absurd (cc)
  length-one_of vs (num x ∷ ts) c rest h = absurd (cc)
  length-one_of vs (name x ∷ ts) c rest h = absurd (cc)
  length-one_of vs (op d ∷ ts) c rest h = elim (Bool-cases (any (λ v. v == d) vs)) [
    | inl same ↦ omega (arith, ap left_pair (rw same at h))
    | inr other ↦ absurd (ground (arith, rw other at h))
  ]

  expect-Within :
      (n c : ℕ) (v : N.Number) (ts : List (Token N)) → length ts ≤ n → Within n (expect N c v ts)
  expect-Within n c v ts h =
      case-Within n (after_op N c ts) _ _ (λ e. tt)
        (λ rest e. omega (arith, length-after_op c ts rest e))

  call-Within :
      (n : ℕ) (f : Function N) (args : List N.Number) (ts : List (Token N))
      → suc (length ts) ≤ n
      → Within n (call N f args ts)
  unfolding call
  call-Within n f args ts h = ground arith

  variable-Within :
      (n : ℕ) (vars : Vars N) (t : Text) (ts : List (Token N))
      → suc (length ts) ≤ n
      → Within n (variable N vars t ts)
  unfolding variable
  variable-Within n vars t ts h = case-Within n (lookup N vars t) _ _ (λ e. tt) (λ x e. h)

  guarded-Within :
      (n : ℕ) (b : Bool) (m : Mistake) (o : Parsed N)
      → Within n o
      → Within n (if b then mistake m else o)
  guarded-Within n true m o w = tt
  guarded-Within n false m o w = w

  or_mistake-Within :
      (n : ℕ) (b : Bool) (m : Mistake) (o : Parsed N)
      → Within n o
      → Within n (if b then o else mistake m)
  or_mistake-Within n true m o w = w
  or_mistake-Within n false m o w = tt

  raise : (m n : ℕ) (o : Parsed N) → m ≤ n → Within m o → Within n o
  raise m n (ok (v, rest)) h w = omega arith
  raise m n (mistake e) h w = tt
  raise m n out_of_fuel h w = w

  chosen-Within :
      (n : ℕ) (b : Bool) (m : Mistake) (x : N.Number) (k : N.Number → Parsed N)
      → ((w : N.Number) → Within n (k w))
      → Within n ((if b then mistake m else ok x) >>= k)
  chosen-Within n true m x k f = tt
  chosen-Within n false m x k f = f x

  product-Within :
      (n c : ℕ) (v r : N.Number) (k : N.Number → Parsed N)
      → ((w : N.Number) → Within n (k w))
      → Within n (product N c v r >>= k)
  unfolding product
  product-Within n c v r k f = chosen-Within n _ _ _ k f

  -- With its fuel, a rule gives an answer that leaves what it may, or a mistake.
  parse-Within :
      (fuel : ℕ) (rule : Rule N) (vars : Vars N) (depth : ℕ) (ts : List (Token N))
      → 8 * length ts + rank rule < fuel
      → Within (leaves rule (length ts)) (parse N fuel rule vars depth ts)
  unfolding parse
  parse-Within zero rule vars depth ts h = absurd (omega arith)
  parse-Within (suc fuel) expression vars depth ts h =
      guarded-Within (length ts) (ltb max_depth (depth + 1)) too_deep _ (
        bind-Within (length ts) (length ts) _ _
          (parse-Within fuel term vars (depth + 1) ts (omega arith))
          (λ v rest s.
            raise (suc (length rest)) (length ts) _ s
              (parse-Within fuel (more_terms v) vars (depth + 1) rest (omega arith))))
  parse-Within (suc fuel) (more_terms v) vars depth ts h =
      case-Within (suc (length ts)) (one_of N (b'+' ∷ b'-' ∷ []) ts) _ _ (λ e. omega arith)
        (λ (c, rest) e.
          let less = length-one_of (b'+' ∷ b'-' ∷ []) ts c rest e in
          bind-Within (length rest) (suc (length ts)) _ _
            (parse-Within fuel term vars depth rest (omega (arith, less)))
            (λ r left s.
              raise (suc (length left)) (suc (length ts)) _ (omega (arith, less))
                (parse-Within fuel (more_terms _) vars depth left (omega (arith, less)))))
  parse-Within (suc fuel) term vars depth ts h =
      bind-Within (length ts) (length ts) _ _ (parse-Within fuel unary vars depth ts (omega arith))
        (λ v rest s.
          raise (suc (length rest)) (length ts) _ s
            (parse-Within fuel (more_factors v) vars depth rest (omega arith)))
  parse-Within (suc fuel) (more_factors v) vars depth ts h =
      case-Within (suc (length ts)) (one_of N (b'*' ∷ b'/' ∷ b'%' ∷ []) ts) _ _ (λ e. omega arith)
        (λ (c, rest) e.
          let less = length-one_of (b'*' ∷ b'/' ∷ b'%' ∷ []) ts c rest e in
          bind-Within (length rest) (suc (length ts)) _ _
            (parse-Within fuel unary vars depth rest (omega (arith, less)))
            (λ r left s. product-Within (suc (length ts)) c v r _ (λ w.
              raise (suc (length left)) (suc (length ts)) _ (omega (arith, less))
                (parse-Within fuel (more_factors w) vars depth left (omega (arith, less))))))
  parse-Within (suc fuel) unary vars depth ts h =
      guarded-Within (length ts) (ltb max_depth (depth + 1)) too_deep _ (
        case-Within (length ts) (one_of N (b'-' ∷ b'+' ∷ []) ts) _ _
          (λ e. parse-Within fuel power vars (depth + 1) ts (omega arith))
          (λ (c, rest) e.
            let less = length-one_of (b'-' ∷ b'+' ∷ []) ts c rest e in
            bind-Within (length rest) (length ts) _ _
              (parse-Within fuel unary vars (depth + 1) rest (omega (arith, less)))
              (λ v left s. omega (arith, less))))
  parse-Within (suc fuel) power vars depth ts h =
      bind-Within (length ts) (length ts) _ _
        (parse-Within fuel primary vars depth ts (omega arith))
        (λ base rest s.
          case-Within (length ts) (after_op N b'^' rest) _ _ (λ e. s)
            (λ more e.
              let less = length-after_op b'^' rest more e in
              bind-Within (length more) (length ts) _ _
                (parse-Within fuel unary vars depth more (omega (arith, less)))
                (λ x left r. omega (arith, less))))
  parse-Within (suc fuel) primary vars depth [] h = tt
  parse-Within (suc fuel) primary vars depth (num x ∷ ts) h = omega arith
  parse-Within (suc fuel) primary vars depth (name t ∷ ts) h =
      case-Within (suc (length ts)) (after_op N b'(' ts) _ _
        (λ e. variable-Within (suc (length ts)) vars t ts (omega arith))
        (λ more e.
          let less = length-after_op b'(' ts more e in
          case-Within (suc (length ts)) (find_function N t) _ _ (λ e'. tt)
            (λ f e'.
              case-Within (suc (length ts)) (after_op N b')' more) _ _
                (λ d.
                  raise (length more) (suc (length ts)) _ (omega (arith, less))
                    (parse-Within fuel (arguments f []) vars depth more (omega (arith, less))))
                (λ rest d.
                  call-Within (suc (length ts)) f [] rest
                    (omega (arith, less, length-after_op b')' more rest d)))))
  parse-Within (suc fuel) primary vars depth (op c ∷ ts) h =
      or_mistake-Within (suc (length ts)) (c == b'(') _ _ (
        bind-Within (length ts) (suc (length ts)) _ _
          (parse-Within fuel expression vars depth ts (omega arith))
          (λ v rest s. expect-Within (suc (length ts)) b')' v rest (omega arith)))
  parse-Within (suc fuel) (arguments f args) vars depth ts h =
      bind-Within (length ts) (length ts) _ _
        (parse-Within fuel expression vars depth ts (omega arith))
        (λ v rest s.
          case-Within (length ts) (after_op N b',' rest) _ _
            (λ e.
              bind-Within (length rest) (length ts) _ _
                (expect-Within (length rest) b')' v rest (omega arith))
                (λ w left r. call-Within (length ts) f _ left (omega arith)))
            (λ more e.
              let less = length-after_op b',' rest more e in
              raise (length more) (length ts) _ (omega (arith, less))
                (parse-Within fuel (arguments f _) vars depth more (omega (arith, less)))))

  finished-ends : (v : N.Number) (rest : List (Token N)) → finished N v rest ≢ out_of_fuel
  unfolding finished
  finished-ends v [] = λ h. ground arith
  finished-ends v (u ∷ us) = λ h. cc

  bind-ends :
      (n : ℕ) (o : Parsed N) (k : N.Number × List (Token N) → Outcome N.Number)
      → Within n o
      → ((v : N.Number) (rest : List (Token N)) → k (v, rest) ≢ out_of_fuel)
      → (o >>= k) ≢ out_of_fuel
  bind-ends n (ok (v, rest)) k w f = f v rest
  bind-ends n (mistake e) k w f = λ h. cc
  bind-ends n out_of_fuel k w f = absurd w

  -- Working out the tokens of an expression ends: with eight units of fuel for a token, whatever
  -- they are, it gives a number or the mistake in the expression.
  pub evaluate_tokens-ends :
      (vars : Vars N) (ts : List (Token N)) → evaluate_tokens N vars ts ≢ out_of_fuel
  unfolding evaluate_tokens
  evaluate_tokens-ends vars [] = λ h. cc
  evaluate_tokens-ends vars (t ∷ ts) =
      bind-ends (suc (length ts)) _ _
        (parse-Within (8 * length (t ∷ ts) + 8) expression vars 0 (t ∷ ts) (omega arith))
        (λ v rest. finished-ends v rest)
