-- ===== src/Tests/Scripts.antt =====
-- A custom script's output judged on concrete settings.
use looksee.Prelude.{
  ◌≡◌, refl, true, false, Bool, Option, none, some, [], ◌∷◌, map, ◌==◌, if◌then◌else◌,
}
use looksee.Prelude.Int.{pos}
use looksee.Prelude.Text.{Text, codes, lower_unit}
use looksee.Exclude.{contains}
use looksee.Thresholds.{Status, up, down, warn, worst, rank}
use looksee.ScriptOutput.{
  ScriptConfig, ScriptResult, unix_lines, got, as_expected, judge_problems, judge_expected, hits,
  combine, judge_alerts, evaluate_script_output,
}
use looksee.ScriptOutput.Verdict.{
  expected_status, alert_status, status_if, Compiles, evaluate_script_output-worst,
  evaluate_script_output_invalid,
}

-- Patterns without operators; "(" is none.
abbrev compile : Text → Bool → Option (Text → Bool)
compile [] caseless = some (contains [])
compile (c ∷ p) caseless = if c == b'(' then none else some (contains (c ∷ p))

abbrev lower : Text → Text
lower = map lower_unit

abbrev config : Text → ScriptConfig
config warn_text = record {
  expect_mode = codes "contains";
  expect_text = codes "OK";
  expect_exit_code = some (some (pos 0));
  expect_ignore_case = true;
  expect_severity = codes "down";
  warn_if_matches = warn_text;
  down_if_matches = [];
  alert_match_mode = codes "contains";
  alert_ignore_case = false;
}

abbrev reported : ScriptResult
reported = record {
  status = up;
  message = none;
  output = some (codes "ok\r\nDEGRADED");
  exit_code = some (pos 0);
}

abbrev status_of : Option ScriptResult → Option Status
status_of none = none
status_of (some r) = some r.status

degraded :
    status_of (evaluate_script_output compile lower (config (codes "DEGRADED")) reported)
    ≡ some warn
unfolding evaluate_script_output judge_expected as_expected judge_problems judge_alerts hits combine
    unix_lines got contains worst rank
degraded = refl

both_judged :
    (expected_status compile lower
        (config (codes "DEGRADED"))
        reported
        (codes "ok\nDEGRADED")
        (pos 0)
      ≡ up)
unfolding as_expected contains
both_judged = refl

config_Compiles :
    Compiles compile lower (config (codes "DEGRADED")) (unix_lines (codes "ok\r\nDEGRADED"))
unfolding as_expected hits
config_Compiles = (λ h e. cc, λ h e. cc, λ h e. cc)

evaluate_script_output-worst_example :
    status_if (evaluate_script_output compile lower (config (codes "DEGRADED")) reported)
    ≡ some (
        worst
          (expected_status compile lower
            (config (codes "DEGRADED"))
            reported
            (unix_lines (codes "ok\r\nDEGRADED"))
            (pos 0))
          (alert_status compile lower
            (config (codes "DEGRADED"))
            (unix_lines (codes "ok\r\nDEGRADED"))))
evaluate_script_output-worst_example =
    evaluate_script_output-worst compile lower (config (codes "DEGRADED")) reported
      (codes "ok\r\nDEGRADED") (pos 0) (refl, refl) config_Compiles

-- The exit code is 2, and the alert pattern is no regular expression.
abbrev broken : ScriptConfig
broken = record (config []) { down_if_matches = codes "(oops"; alert_match_mode = codes "regex" }

abbrev failed : ScriptResult
failed = record reported { exit_code = some (pos 2) }

oops : hits compile lower broken (unix_lines (codes "ok\r\nDEGRADED")) (codes "(oops") ≡ none
unfolding hits
oops = refl

evaluate_script_output_invalid_example :
    (expected_status compile lower broken failed (unix_lines (codes "ok\r\nDEGRADED")) (pos 2)
      ≡ down)
    × (s : ScriptResult) × (evaluate_script_output compile lower broken failed ≡ some s)
    × (s.status ≡ warn)
unfolding as_expected
evaluate_script_output_invalid_example =
    evaluate_script_output_invalid compile lower broken failed (codes "ok\r\nDEGRADED") (pos 2)
      (refl, refl) (λ h e. cc) refl oops refl refl
