-- ===== src/Alerting/Record.antt =====
-- Recording a result: flap detection, the check's row, followers that recover together, and the
-- alert rules (`recordCheckResult`, `resolveCheck`, `resolveFollowers` of
-- engine/src/services/alerting.ts). The clock stands still during one call; address sightings
-- (engine/src/services/addresses.ts) and log lines are left out. `in_maintenance` is
-- `isInMaintenance` of engine/src/services/maintenance.ts at the call's instant.
use looksee.Prelude.{
  ℕ, zero, suc, ◌+◌, ◌-◌, String, Bool, true, false, Option, none, some, List, [], ◌∷◌, ◌++◌, ◌===◌,
  ltb, leb, take, keep, map, if◌then◌else◌,
}
use looksee.Prelude.Text.{Text, codes}
use looksee.Thresholds.{Status, up, down, warn, unknown}
use looksee.Timeouts.{ResultInput, JudgedCheck, judge_timeout, timeouts_before_down}
use looksee.Alerting.Tables.{Check, CheckResult, ResolvedBy, check, Db, find_check, update_check}
use looksee.Alerting.Incidents.{evaluate_alert_rules}

abbrev pub flap_window : ℕ
flap_window = 21

abbrev pub flap_start : ℕ
flap_start = 7

abbrev pub flap_stop : ℕ
flap_stop = 3

abbrev pub same_status : Status → Status → Bool
same_status up up = true
same_status down down = true
same_status warn warn = true
same_status unknown unknown = true
same_status _ _ = false

-- How often neighbouring results differ.
unfoldable pub changes : List Status → ℕ
changes [] = 0
changes (s ∷ []) = 0
changes (s ∷ t ∷ rest) = (if same_status s t then 0 else 1) + changes (t ∷ rest)

unfoldable pub flaps : Bool → ℕ → Bool
flaps was n = if was then ltb flap_stop n else leb flap_start n

-- SELECT … WHERE check_id = … ORDER BY checked_at DESC LIMIT …
unfoldable pub latest_results : String → ℕ → Db → List CheckResult
latest_results id limit db = take limit (keep (λ r. r.check_id === id) db.results)

abbrev pub as_input : CheckResult → ResultInput
as_input r = record { status = r.status; message = r.message }

abbrev pub judged_check : Check → JudgedCheck
judged_check c = record { type = c.type; setting = c.timeout_setting }

unfoldable pub judged_input : Check → ResultInput → Db → ResultInput
judged_input c reported db = elim reported.status [
  | down ↦
      judge_timeout (judged_check c) reported
        (map as_input (latest_results c.id (timeouts_before_down c.timeout_setting - 1) db))
  | _ ↦ reported
]

unfoldable pub insert_result : String → ResultInput → Bool → ℕ → Db → Db
insert_result id input silent now db = record db {
  results =
      record {
        check_id = id;
        status = input.status;
        message = input.message;
        in_maintenance = silent;
        checked_at = now;
      }
      ∷ db.results;
}

unfoldable pub is_flapping : Check → Db → Bool
is_flapping c db =
    flaps c.flapping (changes (map (λ r. r.status) (latest_results c.id flap_window db)))

abbrev changed_at : Check → Status → ℕ → Option ℕ
changed_at c s now = elim c.last_status [
  | none ↦ some now
  | some t ↦ if same_status t s then c.last_status_change_at else some now
]

-- The new values of the check's row, `lastStatusChangeAt` worked out from the row read at the
-- start.
abbrev pub set_row : Check → ResultInput → Bool → ℕ → Check → Check
set_row old input flapping now c = record c {
  last_status = some input.status;
  last_message = input.message;
  last_checked_at = some now;
  last_status_change_at = changed_at old input.status now;
  flapping = flapping;
}

unfoldable pub update_row : Check → ResultInput → Bool → ℕ → Db → Db
update_row c input flapping now db = record db {
  checks = update_check c.id (set_row c input flapping now) db.checks;
}

abbrev pub is_failing : Option Status → Bool
is_failing none = false
is_failing (some down) = true
is_failing (some warn) = true
is_failing (some s) = false

-- `input.status === "up" && check.lastStatus && check.lastStatus !== "up"`
abbrev pub recovers : Option Status → Status → Bool
recovers none s = false
recovers (some up) s = false
recovers (some t) s = same_status up s

abbrev pub follows : String → Check → Bool
follows id c = elim c.recover_with [ none ↦ false | some r ↦ r === id ]

abbrev set_resolved : ResolvedBy → ℕ → Check → Check
set_resolved by now c = record c { resolved_at = some now; resolved_by = some by }

unfoldable pub mark_resolved : String → ResolvedBy → ℕ → Db → Db
mark_resolved id by now db = record db { checks = update_check id (set_resolved by now) db.checks }

abbrev pub up_with : Text → ResultInput
up_with message = record { status = up; message = some (take 1000 message) }

-- `resolveCheck`, given what records a result.
unfoldable pub resolve_with :
    (String → ResultInput → ℕ → Db → Option Db) → String → Text → ResolvedBy → ℕ → Db → Option Db
resolve_with record_result id message by now db = elim (find_check id db.checks) [
  | none ↦ some db
  | some c ↦ record_result id (up_with message) now (mark_resolved id by now db)
]

abbrev pub recovered_together : Text → Text
recovered_together name = codes "Recovered together with \"" ++ (name ++ codes "\"")

-- The loop of `resolveFollowers` over the checks that were failing when it began.
unfoldable pub resolve_each :
    (String → ResultInput → ℕ → Db → Option Db) → Check → ℕ → List Check → Db → Option Db
resolve_each record_result leader now [] db = some db
resolve_each record_result leader now (f ∷ fs) db =
    let resolved = resolve_with record_result f.id (recovered_together leader.name) check now db in
    if follows leader.id f
    then elim resolved [ none ↦ none | some db' ↦ resolve_each record_result leader now fs db' ]
    else resolve_each record_result leader now fs db

unfoldable pub resolve_followers :
    (String → ResultInput → ℕ → Db → Option Db) → Check → ℕ → Db → Option Db
resolve_followers record_result leader now db =
    resolve_each record_result leader now (keep (λ c. is_failing c.last_status) db.checks) db

module _ (in_maintenance : Check → ℕ → Bool) where
  -- What a result does to the tables before the followers are looked at.
  unfoldable pub store_result : Check → ResultInput → ℕ → Db → Db
  store_result c input now db =
      let inserted = insert_result c.id input (in_maintenance c now) now db in
      update_row c input (is_flapping c inserted) now inserted

  -- The alert rules see the row as it was read at the start, with the new flapping flag.
  unfoldable pub judge_rules : Check → ResultInput → ℕ → Bool → Db → Db
  judge_rules c input now flapping db =
      if in_maintenance c now
      then db
      else evaluate_alert_rules (record c { flapping = flapping }) input now db

  unfoldable pub record_found :
      (String → ResultInput → ℕ → Db → Option Db) → Check → ResultInput → ℕ → Db → Option Db
  record_found record_result c reported now db =
      let input = judged_input c reported db in
      let flapping = is_flapping c (insert_result c.id input (in_maintenance c now) now db) in
      let stored = store_result c input now db in
      let after = resolve_followers record_result c now stored in
      elim (if recovers c.last_status input.status then after else some stored) [
        | none ↦ none
        | some db' ↦ some (judge_rules c input now flapping db')
      ]

  -- With fuel for the followers of followers; `none` means that it ran out.
  unfoldable pub record_check_result : ℕ → String → ResultInput → ℕ → Db → Option Db
  record_check_result zero id reported now db = none
  record_check_result (suc fuel) id reported now db = elim (find_check id db.checks) [
    | none ↦ some db
    | some c ↦ record_found (record_check_result fuel) c reported now db
  ]

  unfoldable pub resolve_check : ℕ → String → Text → ResolvedBy → ℕ → Db → Option Db
  resolve_check fuel = resolve_with (record_check_result fuel)
