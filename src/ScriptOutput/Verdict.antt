-- ===== src/ScriptOutput/Verdict.antt =====
-- The status that `evaluateScriptOutput` of engine/src/services/scriptOutput.ts ends with.
use looksee.Prelude.{
  ◌≡◌, ◌≢◌, refl, sym, ap, ◌∙◌, inl, inr, Bool, true, false, not, ◌&&◌, ◌||◌, Option, none, some,
  List, [], ◌∷◌, ◌++◌, or_else, if◌then◌else◌, arith, Bool-cases, Option-cases,
}
use looksee.Prelude.Int.{ℤ}
use looksee.Prelude.Text.{Text}
use looksee.Exclude.Items.{is_filled}
use looksee.Thresholds.{Status, up, down, warn, unknown, worst, rank}
use looksee.ScriptOutput.{
  ScriptConfig, ScriptResult, has_mode, expecting, alerting, is_there, unix_lines, exit_problem,
  exit_problems, fail_status, mode_problem, Stage, judged, as_expected, judge_problems,
  judge_expected, hits, is_status, combine, judge_alerts, judge_output, after_expected,
  evaluate_script_output,
}

is_status_eq : (a b : Status) → is_status a b ≡ true → a ≡ b
is_status_eq up up h = refl
is_status_eq up down h = cc
is_status_eq up warn h = cc
is_status_eq up unknown h = cc
is_status_eq down up h = cc
is_status_eq down down h = refl
is_status_eq down warn h = cc
is_status_eq down unknown h = cc
is_status_eq warn up h = cc
is_status_eq warn down h = cc
is_status_eq warn warn h = refl
is_status_eq warn unknown h = cc
is_status_eq unknown up h = cc
is_status_eq unknown down h = cc
is_status_eq unknown warn h = cc
is_status_eq unknown unknown h = refl

worst-up : (a : Status) → worst a up ≡ a
unfolding worst rank
worst-up up = refl
worst-up down = refl
worst-up warn = refl
worst-up unknown = refl

abbrev pub status_if : Option ScriptResult → Option Status
status_if none = none
status_if (some s) = some s.status

module _ (compile : Text → Bool → Option (Text → Bool)) (lower : Text → Text) where
  -- What each setting makes of the output, told without the steps: the expected output...
  abbrev pub expected_status : ScriptConfig → ScriptResult → Text → ℤ → Status
  expected_status c r out code =
      if not (expecting c)
      then r.status
      else if exit_problem c.expect_exit_code code
          || has_mode c && not (or_else (as_expected compile lower c out) true)
      then fail_status c
      else up

  abbrev pub is_hit : ScriptConfig → Text → Text → Bool
  is_hit c out pattern_text =
      is_filled pattern_text && or_else (hits compile lower c out pattern_text) false

  -- ...and the alert patterns.
  abbrev pub alert_status : ScriptConfig → Text → Status
  alert_status c out =
      if is_hit c out c.down_if_matches
      then down
      else if is_hit c out c.warn_if_matches
      then warn
      else up

  -- The patterns that are used are regular expressions, if they are to be.
  abbrev pub Compiles : ScriptConfig → Text → Type 0
  Compiles c out =
      (has_mode c ≡ true → as_expected compile lower c out ≢ none)
      × (is_filled c.down_if_matches ≡ true → hits compile lower c out c.down_if_matches ≢ none)
      × (is_filled c.warn_if_matches ≡ true → hits compile lower c out c.warn_if_matches ≢ none)

  combine-worst :
      (c : ScriptConfig) (r : ScriptResult) (out pattern_text : Text) (s : Status)
      → (combine compile lower c r out pattern_text s).status ≡ worst r.status s
  unfolding combine
  combine-worst c r out p s =
      elim (Bool-cases (is_status (worst r.status s) r.status && not (is_status r.status up))) [
        | inl same ↦ rw same (sym (is_status_eq (worst r.status s) r.status (ground arith)))
        | inr other ↦ rw other refl
      ]

  -- One round of the loop over the patterns.
  judge_one :
      (c : ScriptConfig) (r first : ScriptResult) (out p : Text) (s : Status)
      (later : List (Text × Status))
      → (is_filled p ≡ true → hits compile lower c out p ≢ none)
      → (judge_alerts compile lower c r first out ((p, s) ∷ later)).status ≡ (
          if is_hit c out p
          then worst first.status s
          else (judge_alerts compile lower c r first out later).status)
  unfolding judge_alerts
  judge_one c r first out p s later compiles = elim (Bool-cases (is_filled p)) [
    | inr unset ↦ rw unset refl
    | inl set ↦ elim (Option-cases (hits compile lower c out p)) [
      | inl bad ↦ absurd (compiles set bad)
      | inr (true, e) ↦ rw (set, e) (combine-worst c first out p s)
      | inr (false, e) ↦ rw (set, e) refl
    ]
  ]

  judge_alerts-worst :
      (c : ScriptConfig) (r first : ScriptResult) (out : Text)
      → (is_filled c.down_if_matches ≡ true → hits compile lower c out c.down_if_matches ≢ none)
      → (is_filled c.warn_if_matches ≡ true → hits compile lower c out c.warn_if_matches ≢ none)
      → (judge_alerts compile lower c r first out
          ((c.down_if_matches, down) ∷ (c.warn_if_matches, warn) ∷ [])).status
        ≡ worst first.status (alert_status c out)
  unfolding judge_alerts
  judge_alerts-worst c r first out down_ok warn_ok =
      judge_one c r first out c.down_if_matches down ((c.warn_if_matches, warn) ∷ []) down_ok
      ∙ elim (Bool-cases (is_hit c out c.down_if_matches)) [
        | inl hit ↦ rw hit refl
        | inr miss ↦ rw miss (
            judge_one c r first out c.warn_if_matches warn [] warn_ok
            ∙ elim (Bool-cases (is_hit c out c.warn_if_matches)) [
              | inl hit ↦ rw hit refl
              | inr none_hit ↦ rw none_hit (sym (worst-up first.status))
            ])
      ]

  abbrev is_some : List Text → Bool
  is_some [] = false
  is_some (p ∷ ps) = true

  judge_problems_status :
      (c : ScriptConfig) (r : ScriptResult) (out : Text) (ps : List Text)
      → (s : ScriptResult) × (judge_problems compile lower c r out ps ≡ judged s)
        × (s.status ≡ (if is_some ps then fail_status c else up))
  unfolding judge_problems
  judge_problems_status c r out [] = (_, refl, refl)
  judge_problems_status c r out (p ∷ ps) = (_, refl, refl)

  is_some-exit_problems :
      (n : Option (Option ℤ)) (code : ℤ) → is_some (exit_problems n code) ≡ exit_problem n code
  is_some-exit_problems none code = refl
  is_some-exit_problems (some none) code = refl
  is_some-exit_problems (some (some n)) code =
      elim (Bool-cases (exit_problem (some (some n)) code)) [
        | inl b ↦ rw b refl
        | inr b ↦ rw b refl
      ]

  is_some-append : (ps : List Text) (p : Text) → is_some (ps ++ p ∷ []) ≡ true
  is_some-append [] p = refl
  is_some-append (q ∷ ps) p = refl

  judge_expected_status :
      (c : ScriptConfig) (r : ScriptResult) (out : Text) (code : ℤ)
      → (has_mode c ≡ true → as_expected compile lower c out ≢ none)
      → (s : ScriptResult) × (judge_expected compile lower c r out code ≡ judged s)
        × (s.status ≡ (
            if exit_problem c.expect_exit_code code
              || has_mode c && not (or_else (as_expected compile lower c out) true)
            then fail_status c
            else up))
  unfolding judge_expected
  judge_expected_status c r out code compiles =
      let exits = exit_problems c.expect_exit_code code in
      let count = is_some-exit_problems c.expect_exit_code code in
      elim (Bool-cases (has_mode c)) [
        | inr off ↦
            let (s, e, status) = judge_problems_status c r out exits in
            (s, rw off e, status ∙ rw (count, off) (ground arith))
        | inl on ↦ elim (Option-cases (as_expected compile lower c out)) [
          | inl bad ↦ absurd (compiles on bad)
          | inr (true, e) ↦
              let (s, d, status) = judge_problems_status c r out exits in
              (s, rw (on, e) d, status ∙ rw (count, on, e) (ground arith))
          | inr (false, e) ↦
              let (s, d, status) = judge_problems_status c r out (exits ++ mode_problem c ∷ []) in
              (
                s,
                rw (on, e) d,
                status ∙ rw (is_some-append exits (mode_problem c), on, e) (ground arith),
              )
        ]
      ]

  -- Step 1, whether or not anything is expected.
  first_status :
      (c : ScriptConfig) (r : ScriptResult) (out : Text) (code : ℤ)
      → (has_mode c ≡ true → as_expected compile lower c out ≢ none)
      → (s : ScriptResult) × ((if expecting c
            then judge_expected compile lower c r out code
            else judged r)
          ≡ judged s)
        × (s.status ≡ expected_status c r out code)
  first_status c r out code compiles = elim (Bool-cases (expecting c)) [
    | inl on ↦ rw on (judge_expected_status c r out code compiles)
    | inr off ↦ (r, rw off refl, rw off refl)
  ]

  -- Step 2, whether or not there are patterns.
  second_status :
      (c : ScriptConfig) (r s : ScriptResult) (out : Text)
      → (is_filled c.down_if_matches ≡ true → hits compile lower c out c.down_if_matches ≢ none)
      → (is_filled c.warn_if_matches ≡ true → hits compile lower c out c.warn_if_matches ≢ none)
      → (after_expected compile lower c r out (judged s)).status
        ≡ worst s.status (alert_status c out)
  second_status c r s out down_ok warn_ok = elim (Bool-cases (alerting c)) [
    | inl on ↦ rw on (judge_alerts-worst c r s out down_ok warn_ok)
    | inr off ↦
        let no_down : is_filled c.down_if_matches ≡ false = ground arith in
        let no_warn : is_filled c.warn_if_matches ≡ false = ground arith in
        rw (no_down, no_warn) (sym (worst-up s.status))
  ]

  -- A result with an output and an exit code, from an agent of today.
  abbrev pub HasOutput : ScriptResult → Text → ℤ → Type 0
  HasOutput r output code = (r.output ≡ some output) × (r.exit_code ≡ some code)

  -- A result with an output and an exit code is judged exactly if one of the two settings is used;
  -- it is left to the agent (null) if neither is. Its status is then the worse of what the two make
  -- of the output: the expected output (up if it and the exit code are as they should be, else the
  -- chosen status; the agent's status where nothing is expected) and the alert patterns (down or
  -- warn if one is found, down first). The patterns that are used are to be regular expressions.
  pub evaluate_script_output-worst :
      (c : ScriptConfig) (r : ScriptResult) (output : Text) (code : ℤ)
      → HasOutput r output code
      → Compiles c (unix_lines output)
      → status_if (evaluate_script_output compile lower c r) ≡ (
          if expecting c || alerting c
          then some (
              worst
                (expected_status c r (unix_lines output) code)
                (alert_status c (unix_lines output)))
          else none)
  unfolding evaluate_script_output
  evaluate_script_output-worst c r output code (has, exit) (expect_ok, down_ok, warn_ok) =
      let out = unix_lines output in
      let (s, e, status) = first_status c r out code expect_ok in
      let judged_status : (judge_output compile lower c r r.output r.exit_code).status
          ≡ worst (expected_status c r out code) (alert_status c out) =
        ap (λ o. (judge_output compile lower c r o r.exit_code).status) has
        ∙ ap (λ o. (judge_output compile lower c r (some output) o).status) exit
        ∙ ap (λ (st : Stage). (after_expected compile lower c r out st).status) e
        ∙ second_status c r s out down_ok warn_ok
        ∙ ap (λ (x : Status). worst x (alert_status c out)) status in
      elim (Bool-cases (expecting c || alerting c)) [
        | inl used ↦ rw used (ap (λ (x : Status). some x) judged_status)
        | inr unused ↦ rw unused refl
      ]

  -- An alert pattern that is no regular expression takes over the result: a script whose exit code
  -- is wrong, for which the check is down by the expected output alone, is reported as a warning.
  pub evaluate_script_output_invalid :
      (c : ScriptConfig) (r : ScriptResult) (output : Text) (code : ℤ)
      → HasOutput r output code
      → (has_mode c ≡ true → as_expected compile lower c (unix_lines output) ≢ none)
      → is_filled c.down_if_matches ≡ true
      → hits compile lower c (unix_lines output) c.down_if_matches ≡ none
      → exit_problem c.expect_exit_code code ≡ true
      → fail_status c ≡ down
      → (expected_status c r (unix_lines output) code ≡ down)
        × (s : ScriptResult) × (evaluate_script_output compile lower c r ≡ some s)
        × (s.status ≡ warn)
  unfolding evaluate_script_output judge_alerts
  evaluate_script_output_invalid c r output code (has, exit) expect_ok filled bad wrong fails =
      let out = unix_lines output in
      let (s, e, status) = first_status c r out code expect_ok in
      let set : expecting c ≡ true = wrong_set c.expect_exit_code code (has_mode c) wrong in
      let alert : alerting c ≡ true = ground arith in
      let used : (expecting c || alerting c) ≡ true = rw set refl in
      (
        rw (set, wrong) fails,
        judge_output compile lower c r r.output r.exit_code,
        ap (λ b. if b then some (judge_output compile lower c r r.output r.exit_code) else none)
            used,
        ap (λ o. (judge_output compile lower c r o r.exit_code).status) has
            ∙ ap (λ o. (judge_output compile lower c r (some output) o).status) exit
            ∙ ap (λ (st : Stage). (after_expected compile lower c r out st).status) e
            ∙ rw (alert, filled, bad) refl,
      )
    where
      wrong_set :
          (n : Option (Option ℤ)) (code : ℤ) (mode : Bool)
          → exit_problem n code ≡ true
          → (mode || is_there n) ≡ true
      wrong_set none code mode h = cc
      wrong_set (some n) code true h = refl
      wrong_set (some n) code false h = refl
