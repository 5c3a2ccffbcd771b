-- ===== src/Expression/Whole.antt =====
-- `tokenize` and `evaluateExpression` of engine/src/services/probes/expression.ts on every text.
use looksee.Prelude.{
  ℕ, zero, suc, ◌≤◌, Bool, true, false, not, ◌&&◌, ◌||◌, List, [], ◌∷◌, ◌==◌, length, if◌then◌else◌,
  ◌≡◌, ◌≢◌, refl, inl, inr, arith, Bool-cases,
}
use looksee.Prelude.Text.{Text, is_digit, is_word}
use looksee.Expression.{
  Arithmetic, Mistake, too_long, Outcome, ok, mistake, out_of_fuel, ◌>>=◌, Token, num, op, Vars,
  evaluate_tokens,
}
use looksee.Expression.Ends.{evaluate_tokens-ends}
use looksee.Expression.Tokens.{
  span, in_number, is_sign, starts_name, digit_next, is_operator, exponent, number_text, push,
  tokenize, evaluate_expression,
}

length-span_le : (p : ℕ → Bool) (s : Text) → length (span p s).1 ≤ length s
unfolding span
length-span_le p [] = omega arith
length-span_le p (c ∷ s) = elim (Bool-cases (p c)) [
  | inl taken ↦ rw taken (omega (arith, length-span_le p s))
  | inr other ↦ rw other (omega arith)
]

length-exponent_le : (s : Text) → length (exponent s).1 ≤ length s
unfolding exponent
length-exponent_le [] = omega arith
length-exponent_le (e ∷ []) = omega arith
length-exponent_le (e ∷ d ∷ s) =
    elim (Bool-cases (not ((e == b'e' || e == b'E') && (is_digit d || is_sign d)))) [
      | inl without ↦ rw without (omega arith)
      | inr with_one ↦ elim (Bool-cases (is_sign d)) [
        | inl sign ↦ rw (with_one, sign) (omega (arith, length-span_le is_digit s))
        | inr digits ↦ rw (with_one, digits) (omega (arith, length-span_le is_digit (d ∷ s)))
      ]
    ]

length-number_text_le :
    (c : ℕ) (s : Text) → in_number c ≡ true → length (number_text (c ∷ s)).1 ≤ length s
unfolding number_text span
length-number_text_le c s h =
    rw h (omega (arith, length-exponent_le (span in_number s).1, length-span_le in_number s))

first_in_number :
    (c : ℕ) (s : Text) → is_digit c || c == b'.' && digit_next s ≡ true → in_number c ≡ true
first_in_number c s h = ground arith

module _ (N : Arithmetic) where
  push-ends :
      (t : Token N) (o : Outcome (List (Token N)))
      → o ≢ out_of_fuel
      → (o >>= push N t) ≢ out_of_fuel
  push-ends t (ok ts) h = λ e. cc
  push-ends t (mistake m) h = λ e. cc
  push-ends t out_of_fuel h = λ e. h refl

  choice-ends {ℓ} :
      {A : Type ℓ} (b : Bool) (x y : Outcome A)
      → (b ≡ true → x ≢ out_of_fuel)
      → y ≢ out_of_fuel
      → (if b then x else y) ≢ out_of_fuel
  choice-ends true x y f g = f refl
  choice-ends false x y f g = g

  mistake-ends {ℓ} : {A : Type ℓ} (m : Mistake) → ◌≢◌ {A = Outcome A} (mistake m) out_of_fuel
  mistake-ends m = λ e. cc

  tokenize-ends : (fuel : ℕ) (s : Text) → length s ≤ fuel → tokenize N fuel s ≢ out_of_fuel
  unfolding tokenize
  tokenize-ends fuel [] h = λ e. cc
  tokenize-ends zero (c ∷ s) h = absurd (omega arith)
  tokenize-ends (suc fuel) (c ∷ s) h =
      let value = N.of_text (number_text (c ∷ s)).0 in
      choice-ends _ _ _ (λ e. tokenize-ends fuel s (omega arith))
        (choice-ends (is_digit c || c == b'.' && digit_next s) _ _
          (λ e.
            choice-ends (N.is_finite value) _ _
              (λ e'. push-ends (num value) _ (
                tokenize-ends fuel (number_text (c ∷ s)).1
                  (omega (arith, length-number_text_le c s (first_in_number c s e)))))
              (mistake-ends _))
          (choice-ends (starts_name c) _ _
            (λ e.
              push-ends _ _
                (tokenize-ends fuel (span is_word s).1 (omega (arith, length-span_le is_word s))))
            (choice-ends (is_operator c) _ _
              (λ e. push-ends (op c) _ (tokenize-ends fuel s (omega arith))) (mistake-ends _))))

  after_tokens :
      (o : Outcome (List (Token N))) (vars : Vars N)
      → o ≢ out_of_fuel
      → (o >>= λ ts. evaluate_tokens N vars ts) ≢ out_of_fuel
  after_tokens (ok ts) vars h = evaluate_tokens-ends N vars ts
  after_tokens (mistake m) vars h = λ e. cc
  after_tokens out_of_fuel vars h = λ e. h refl

  -- Whatever is typed as an expression, and whatever its variables are, it ends: it has a value or
  -- is refused with a mistake.
  pub evaluate_expression-ends :
      (vars : Vars N) (text : Text) → evaluate_expression N vars text ≢ out_of_fuel
  unfolding evaluate_expression
  evaluate_expression-ends vars text =
      choice-ends _ _ _ (λ e. mistake-ends too_long)
        (after_tokens (tokenize N (length text) text) vars
          (tokenize-ends (length text) text (omega arith)))
