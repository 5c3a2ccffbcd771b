-- ===== src/ScriptOutput.antt =====
-- engine/src/services/scriptOutput.ts: judging the output of a custom script. `compile` is
-- `compileUserRegex` of engine/src/lib/userRegex.ts over RE2, which throws (`none`) on what is no
-- regular expression; `lower` is `toLowerCase`. Fields of a result that are only copied are left
-- out.
pub mod Verdict
use looksee.Prelude.{
  ℕ, ◌+◌, Bool, true, false, not, ◌&&◌, ◌||◌, Option, none, some, List, [], ◌∷◌, ◌++◌, ◌==◌, take,
  find, or_else, if◌then◌else◌,
}
use looksee.Prelude.Int.{ℤ, pos, negsuc}
use looksee.Prelude.Text.{Text, codes, same, trim, show}
use looksee.Exclude.{contains}
use looksee.Exclude.Items.{split_at, is_line_end, is_filled}
use looksee.Thresholds.{Status, up, down, warn, worst}

-- The settings, as `String` and the ticked boxes give them. An exit code is `none` where it is not
-- set, and then `none` where it is no number (fractions are left out).
pub record ScriptConfig : Type 0 where
  pub expect_mode : Text
  pub expect_text : Text
  pub expect_exit_code : Option (Option ℤ)
  pub expect_ignore_case : Bool
  pub expect_severity : Text
  pub warn_if_matches : Text
  pub down_if_matches : Text
  pub alert_match_mode : Text
  pub alert_ignore_case : Bool

pub record ScriptResult : Type 0 where
  pub status : Status
  pub message : Option Text
  pub output : Option Text
  pub exit_code : Option ℤ

abbrev pub is_word : Text → Text → Bool
is_word s word = same s word

-- `mode && mode !== "none"`
abbrev pub has_mode : ScriptConfig → Bool
has_mode c = is_filled c.expect_mode && not (is_word c.expect_mode (codes "none"))

abbrev pub is_there : Option (Option ℤ) → Bool
is_there none = false
is_there (some n) = true

abbrev pub expecting : ScriptConfig → Bool
expecting c = has_mode c || is_there c.expect_exit_code

abbrev pub alerting : ScriptConfig → Bool
alerting c = is_filled c.warn_if_matches || is_filled c.down_if_matches

-- `.replace(/\r\n/g, "\n")`
abbrev is_line_end_next : Text → Bool
is_line_end_next [] = false
is_line_end_next (c ∷ s) = c == b'\n'

unfoldable pub unix_lines : Text → Text
unix_lines [] = []
unix_lines (c ∷ s) =
    let rest = unix_lines s in if c == b'\r' && is_line_end_next s then rest else c ∷ rest

abbrev first_line : Text → Text
first_line out = or_else (find (λ l. is_filled (trim l)) (split_at is_line_end out)) []

unfoldable pub got : Text → Text
got out = if is_filled (first_line out) then codes " — got: " ++ take 200 (first_line out) else []

unfoldable pub show_code : ℤ → Text
show_code (pos n) = show n
show_code (negsuc n) = b'-' ∷ show (n + 1)

abbrev show_wanted : Option ℤ → Text
show_wanted none = codes "NaN"
show_wanted (some n) = show_code n

abbrev pub quoted : Text → Text → Text
quoted text what = what ++ codes " \"" ++ text ++ codes "\""

abbrev is_exit : ℤ → ℤ → Bool
is_exit (pos a) (pos b) = a == b
is_exit (negsuc a) (negsuc b) = a == b
is_exit _ _ = false

-- `wantExit != null && details.exitCode !== wantExit`
abbrev pub exit_problem : Option (Option ℤ) → ℤ → Bool
exit_problem none code = false
exit_problem (some none) code = true
exit_problem (some (some n)) code = not (is_exit code n)

abbrev pub exit_problems : Option (Option ℤ) → ℤ → List Text
exit_problems none code = []
exit_problems (some n) code =
    if exit_problem (some n) code
    then (codes "exited " ++ show_code code ++ codes ", expected " ++ show_wanted n) ∷ []
    else []

abbrev join : List Text → Text
join [] = []
join (p ∷ []) = p
join (p ∷ q ∷ ps) = p ++ codes "; " ++ join (q ∷ ps)

abbrev pub fail_status : ScriptConfig → Status
fail_status c = if is_word c.expect_severity (codes "warn") then warn else down

-- What a step gives: a final result, or one for the next step.
pub data Stage : Type 0 where
  stopped : ScriptResult → Stage
  judged : ScriptResult → Stage

abbrev pub invalid : ScriptResult → Text → Text → Stage
invalid r what text = stopped (record r { status = warn; message = some (what ++ text) })

abbrev pub is_status : Status → Status → Bool
is_status up up = true
is_status down down = true
is_status warn warn = true
is_status Status.unknown Status.unknown = true
is_status _ _ = false

abbrev pub mode_problem : ScriptConfig → Text
mode_problem c =
    if is_word c.expect_mode (codes "not_contains")
    then quoted c.expect_text (codes "output contains")
    else if is_word c.expect_mode (codes "equals")
    then quoted c.expect_text (codes "output isn't")
    else if is_word c.expect_mode (codes "regex")
    then quoted c.expect_text (codes "output doesn't match")
    else quoted c.expect_text (codes "output doesn't contain")

abbrev filled_or : Text → Text → Text
filled_or [] other = other
filled_or (u ∷ m) other = u ∷ m

-- `result.message || firstLine || "Output matched"`
abbrev message_or : Text → Option Text → Text
message_or first none = filled_or first (codes "Output matched")
message_or first (some m) = filled_or m (filled_or first (codes "Output matched"))

module _ (compile : Text → Bool → Option (Text → Bool)) (lower : Text → Text) where
  -- Whether the output is as expected; `none` where the pattern is no regular expression.
  unfoldable pub as_expected : ScriptConfig → Text → Option Bool
  unfolding contains
  as_expected c out =
      let caseless = c.expect_ignore_case in
      let hay = if caseless then lower out else out in
      let needle = if caseless then lower c.expect_text else c.expect_text in
      if is_word c.expect_mode (codes "contains")
      then some (contains needle hay)
      else if is_word c.expect_mode (codes "not_contains")
      then some (not (contains needle hay))
      else if is_word c.expect_mode (codes "equals")
      then some (same (trim hay) (trim needle))
      else if is_word c.expect_mode (codes "regex")
      then elim (compile c.expect_text caseless) [ none ↦ none | some test ↦ some (test out) ]
      else some true

  unfoldable pub judge_problems : ScriptConfig → ScriptResult → Text → List Text → Stage
  unfolding got
  judge_problems c r out [] =
      judged (record r { status = up; message = some (message_or (first_line out) r.message) })
  judge_problems c r out (p ∷ ps) =
      judged (record r { status = fail_status c; message = some (join (p ∷ ps) ++ got out) })

  -- Step 1, the expected output.
  unfoldable pub judge_expected : ScriptConfig → ScriptResult → Text → ℤ → Stage
  unfolding as_expected judge_problems
  judge_expected c r out code =
      let exits = exit_problems c.expect_exit_code code in
      let verdict : Stage = elim (as_expected c out) [
        | none ↦ invalid r (codes "Invalid expected-output regex: ") c.expect_text
        | some true ↦ judge_problems c r out exits
        | some false ↦ judge_problems c r out (exits ++ mode_problem c ∷ [])
      ] in
      if has_mode c then verdict else judge_problems c r out exits

  abbrev pub is_regex : ScriptConfig → Bool
  is_regex c = is_word c.alert_match_mode (codes "regex")

  unfoldable pub hits : ScriptConfig → Text → Text → Option Bool
  unfolding contains
  hits c out pattern_text =
      if is_regex c
      then elim (compile pattern_text c.alert_ignore_case) [
        | none ↦ none
        | some test ↦ some (test out)
      ]
      else some (
          if c.alert_ignore_case
          then contains (lower pattern_text) (lower out)
          else contains pattern_text out)

  -- The result of a pattern that is hit.
  unfoldable pub combine : ScriptConfig → ScriptResult → Text → Text → Status → ScriptResult
  unfolding worst got
  combine c r out pattern_text status =
      let combined = worst r.status status in
      let what = if is_regex c then codes "output matches" else codes "output contains" in
      if is_status combined r.status && not (is_status r.status up)
      then r
      else record r { status = combined; message = some (quoted pattern_text what ++ got out) }

  -- Step 2, the loop over the patterns that are set.
  unfoldable pub judge_alerts :
      ScriptConfig → ScriptResult → ScriptResult → Text → List (Text × Status) → ScriptResult
  unfolding hits combine
  judge_alerts c r first out [] = first
  judge_alerts c r first out ((pattern_text, status) ∷ patterns) =
      let later = judge_alerts c r first out patterns in
      let verdict : ScriptResult = elim (hits c out pattern_text) [
        | none ↦ record r {
          status = warn;
          message = some (codes "Invalid alert pattern regex: " ++ pattern_text);
        }
        | some true ↦ combine c first out pattern_text status
        | some false ↦ later
      ] in
      if is_filled pattern_text then verdict else later

  abbrev pub after_expected : ScriptConfig → ScriptResult → Text → Stage → ScriptResult
  after_expected c r out (stopped s) = s
  after_expected c r out (judged s) =
      if alerting c
      then judge_alerts c r s out ((c.down_if_matches, down) ∷ (c.warn_if_matches, warn) ∷ [])
      else s

  abbrev needs_agent : ScriptResult → ScriptResult
  needs_agent r = record r {
    status = warn;
    message =
        some (codes "Matching a script's output needs agent 4.0.0+ — update this endpoint's agent");
  }

  abbrev pub judge_output : ScriptConfig → ScriptResult → Option Text → Option ℤ → ScriptResult
  judge_output c r (some output) (some code) =
      let out = unix_lines output in
      after_expected c r out (if expecting c then judge_expected c r out code else judged r)
  judge_output c r _ _ = needs_agent r

  unfoldable pub evaluate_script_output : ScriptConfig → ScriptResult → Option ScriptResult
  unfolding judge_expected judge_alerts unix_lines
  evaluate_script_output c r =
      if expecting c || alerting c then some (judge_output c r r.output r.exit_code) else none
