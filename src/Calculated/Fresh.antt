-- ===== src/Calculated/Fresh.antt =====
-- `probeCalculated` of engine/src/services/calculated.ts: what a result says of the inputs.
use looksee.Prelude.{
  ℕ, ◌+◌, ◌≤◌, ◌≡◌, ◌≢◌, ◌⊎◌, inl, inr, refl, sym, ap, ◌∙◌, Bool, true, false, Option, none, some,
  List, [], ◌∷◌, ◌++◌, keep, arith, Bool-cases, Option-cases,
}
use mathlib.Core.Path.{subst}
use mathlib.Core.List.{append-nil, append_assoc}
use looksee.Prelude.Text.{Text, trim}
use looksee.Exclude.Items.{is_filled}
use looksee.Thresholds.{up}
use looksee.Expression.{Arithmetic, Outcome, ok, mistake, out_of_fuel, Vars}
use looksee.Expression.Tokens.{evaluate_expression}
use looksee.Expression.Whole.{evaluate_expression-ends}
use looksee.Calculated.{
  Wanted, Age, within, ahead, endless, CalcConfig, max_age, is_unset, InputRow, CalcResult,
  no_expression, choose_checks, no_such_check, no_value_yet, not_reported, worked_out, failed,
  no_end, result_status, Inputs, read, stopped, is_stale, value_of, input_of, row_of, read_inputs,
  result_of, after_inputs, wanted, rows_of, with_missing, probe_calculated,
}

module _ (N : Arithmetic) where
  -- What was reported at an instant is not too old: no more than the age has passed since. A
  -- negative age asks for an instant so far ahead, and one that is no bound for nothing.
  abbrev pub InTime : Age → ℕ → ℕ → Type 0
  InTime (within ms) now at = now ≤ at + ms
  InTime (ahead ms) now at = now + ms ≤ at
  InTime endless now at = Unit

  is_stale-InTime :
      (age : Age) (now at : ℕ) → is_stale age now (some at) ≡ false → InTime age now at
  is_stale-InTime (within ms) now at h = ground arith
  is_stale-InTime (ahead ms) now at h = ground arith
  is_stale-InTime endless now at h = tt

  -- The check of a variable has this value, and has reported it within the age.
  abbrev pub FreshValue : List (InputRow N) → Age → ℕ → Wanted → N.Number → Type 0
  FreshValue rows age now w v =
      (row : InputRow N) × (at : ℕ) × (row_of N rows w.id ≡ some row)
      × (row.value ≡ some v)
      × (row.at ≡ some at)
      × InTime age now at

  -- Each variable has the value that its check had last, in their order.
  abbrev pub ReadFrom : List (InputRow N) → Age → ℕ → List Wanted → Vars N → Type 0
  ReadFrom rows age now [] [] = Unit
  ReadFrom rows age now (w ∷ ws) ((n, v) ∷ vs) =
      (n ≡ w.var_name) × FreshValue rows age now w v × ReadFrom rows age now ws vs
  ReadFrom rows age now [] (x ∷ vs) = ⊥
  ReadFrom rows age now (w ∷ ws) [] = ⊥

  -- The results that an input can stop the calculation with.
  abbrev is_stop : CalcResult N → Bool
  is_stop (no_such_check n) = true
  is_stop (no_value_yet row n) = true
  is_stop (not_reported row n age) = true
  is_stop _ = false

  abbrev Input : List (InputRow N) → Age → ℕ → Wanted → CalcResult N ⊎ N.Number → Type 0
  Input rows age now w (inl r) = is_stop r ≡ true
  Input rows age now w (inr v) = FreshValue rows age now w v

  value_of-Input :
      (rows : List (InputRow N)) (age : Age) (now : ℕ) (w : Wanted) (row : InputRow N)
      (o : Option N.Number)
      → row_of N rows w.id ≡ some row
      → row.value ≡ o
      → Input rows age now w (value_of N age now w.var_name row o)
  value_of-Input rows age now w row none e d = refl
  value_of-Input rows age now w row (some v) e d = elim (Option-cases row.at) [
    | inl never ↦
        let stale : is_stale age now row.at ≡ true = ap (is_stale age now) never in rw stale refl
    | inr (at, known) ↦ elim (Bool-cases (is_stale age now row.at)) [
      | inl stale ↦ rw stale refl
      | inr fresh ↦
          let young : is_stale age now (some at) ≡ false =
            sym (ap (is_stale age now) known) ∙ fresh in
          rw fresh (row, at, e, d, known, is_stale-InTime age now at young)
    ]
  ]

  input_of-Input :
      (rows : List (InputRow N)) (age : Age) (now : ℕ) (w : Wanted) (o : Option (InputRow N))
      → row_of N rows w.id ≡ o
      → Input rows age now w (input_of N age now w.var_name o)
  input_of-Input rows age now w none e = refl
  input_of-Input rows age now w (some row) e = value_of-Input rows age now w row row.value e refl

  -- What the loop over the variables ends with.
  abbrev InputsFrom : List (InputRow N) → Age → ℕ → Vars N → List Wanted → Inputs N → Type 0
  InputsFrom rows age now vars ws (stopped r) = is_stop r ≡ true
  InputsFrom rows age now vars ws (read all) =
      (vs : Vars N) × (all ≡ vars ++ vs) × ReadFrom rows age now ws vs

  abbrev after_input :
      List (InputRow N)
      → Age
      → ℕ
      → Vars N
      → Wanted
      → List Wanted
      → CalcResult N ⊎ N.Number
      → Inputs N
  after_input rows age now vars w ws (inl r) = stopped r
  after_input rows age now vars w ws (inr v) =
      read_inputs N rows age now (vars ++ (w.var_name, v) ∷ []) ws

  -- An input that is read comes in front of those that are read behind it.
  InputsFrom-read :
      (rows : List (InputRow N)) (age : Age) (now : ℕ) (vars : Vars N) (w : Wanted)
      (ws : List Wanted) (v : N.Number)
      → (i : Inputs N) → FreshValue rows age now w v
      → InputsFrom rows age now (vars ++ (w.var_name, v) ∷ []) ws i
      → InputsFrom rows age now vars (w ∷ ws) i
  InputsFrom-read rows age now vars w ws v (stopped r) fresh h = h
  InputsFrom-read rows age now vars w ws v (read all) fresh (vs, e, from) =
      ((w.var_name, v) ∷ vs, e ∙ append_assoc vars ((w.var_name, v) ∷ []) vs, (refl, fresh, from))

  after_input-InputsFrom :
      (rows : List (InputRow N)) (age : Age) (now : ℕ) (vars : Vars N) (w : Wanted)
      (ws : List Wanted)
      → (i : CalcResult N ⊎ N.Number)
      → ((v : N.Number)
          → InputsFrom rows age now
              (vars ++ (w.var_name, v) ∷ [])
              ws
              (read_inputs N rows age now (vars ++ (w.var_name, v) ∷ []) ws))
      → Input rows age now w i
      → InputsFrom rows age now vars (w ∷ ws) (after_input rows age now vars w ws i)
  after_input-InputsFrom rows age now vars w ws (inl r) later h = h
  after_input-InputsFrom rows age now vars w ws (inr v) later h =
      InputsFrom-read rows age now vars w ws v
        (read_inputs N rows age now (vars ++ (w.var_name, v) ∷ []) ws) h (later v)

  read_inputs-InputsFrom :
      (rows : List (InputRow N)) (age : Age) (now : ℕ) (vars : Vars N) (ws : List Wanted)
      → InputsFrom rows age now vars ws (read_inputs N rows age now vars ws)
  unfolding read_inputs
  read_inputs-InputsFrom rows age now vars [] = ([], sym (append-nil vars), tt)
  read_inputs-InputsFrom rows age now vars (w ∷ ws) =
      after_input-InputsFrom rows age now vars w ws
        (input_of N age now w.var_name (row_of N rows w.id))
        (λ v. read_inputs-InputsFrom rows age now (vars ++ (w.var_name, v) ∷ []) ws)
        (input_of-Input rows age now w (row_of N rows w.id) refl)

  -- What a result stands for: a value comes from all inputs that the expression names, each with
  -- its last value, reported in time; a refused calculation had them all, too; no other result is
  -- up.
  abbrev pub Stands : CalcConfig → List (InputRow N) → ℕ → CalcResult N → Type 0
  Stands c checks now (worked_out vars v) =
      ReadFrom (rows_of N c checks) (max_age c) now (wanted N c) vars
      × (evaluate_expression N vars (trim c.expression) ≡ ok v)
  Stands c checks now (failed m) =
      (vars : Vars N) × ReadFrom (rows_of N c checks) (max_age c) now (wanted N c) vars
      × (evaluate_expression N vars (trim c.expression) ≡ mistake m)
  Stands c checks now no_end = ⊥
  Stands c checks now r = result_status N r ≢ up

  is_stop-Stands :
      (c : CalcConfig) (checks : List (InputRow N)) (now : ℕ) (r : CalcResult N)
      → is_stop r ≡ true
      → Stands c checks now r
  is_stop-Stands c checks now no_expression h = cc
  is_stop-Stands c checks now (choose_checks ns) h = cc
  is_stop-Stands c checks now (no_such_check n) h = λ e. cc
  is_stop-Stands c checks now (no_value_yet row n) h = λ e. cc
  is_stop-Stands c checks now (not_reported row n age) h = λ e. cc
  is_stop-Stands c checks now (worked_out vars v) h = cc
  is_stop-Stands c checks now (failed m) h = cc
  is_stop-Stands c checks now no_end h = cc

  result_of-Stands :
      (c : CalcConfig) (checks : List (InputRow N)) (now : ℕ) (vars : Vars N) (o : Outcome N.Number)
      → ReadFrom (rows_of N c checks) (max_age c) now (wanted N c) vars
      → evaluate_expression N vars (trim c.expression) ≡ o
      → Stands c checks now (result_of N vars o)
  result_of-Stands c checks now vars (ok v) from e = (from, e)
  result_of-Stands c checks now vars (mistake m) from e = (vars, from, e)
  result_of-Stands c checks now vars out_of_fuel from e =
      evaluate_expression-ends N vars (trim c.expression) e

  after_inputs-Stands :
      (c : CalcConfig) (checks : List (InputRow N)) (now : ℕ) (i : Inputs N)
      → InputsFrom (rows_of N c checks) (max_age c) now [] (wanted N c) i
      → Stands c checks now (after_inputs N (trim c.expression) i)
  after_inputs-Stands c checks now (stopped r) h = is_stop-Stands c checks now r h
  after_inputs-Stands c checks now (read all) (vs, e, from) =
      result_of-Stands c checks now all (evaluate_expression N all (trim c.expression))
        (subst (ReadFrom (rows_of N c checks) (max_age c) now (wanted N c)) (sym e) from) refl

  with_missing-Stands :
      (c : CalcConfig) (checks : List (InputRow N)) (now : ℕ) (missing : List Wanted)
      → Stands c checks now (with_missing N c checks now missing)
  with_missing-Stands c checks now [] =
      after_inputs-Stands c checks now
        (read_inputs N (rows_of N c checks) (max_age c) now [] (wanted N c))
        (read_inputs-InputsFrom (rows_of N c checks) (max_age c) now [] (wanted N c))
  with_missing-Stands c checks now (w ∷ ws) = λ e. cc

  -- A calculated check always comes to a result, and its value is never worked out from old or
  -- missing inputs: where it is up, the value is that of the expression with every variable that it
  -- names at the last value of its check, which was reported within the age of the settings,
  -- whatever number that is, unless it is NaN or Infinity, which bound nothing. A calculation that
  -- is refused with a mistake had such inputs, too, and no other result is up.
  pub probe_calculated-Stands :
      (c : CalcConfig) (own_id : Text) (checks : List (InputRow N)) (now : ℕ)
      → Stands c checks now (probe_calculated N c own_id checks now)
  unfolding probe_calculated
  probe_calculated-Stands c own_id checks now = elim (Bool-cases (is_filled (trim c.expression))) [
    | inl filled ↦
        rw filled (with_missing-Stands c checks now (keep (is_unset own_id) (wanted N c)))
    | inr empty ↦ rw empty (λ e. cc)
  ]
