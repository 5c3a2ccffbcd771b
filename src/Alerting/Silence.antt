-- ===== src/Alerting/Silence.antt =====
-- What holds alerts back: maintenance and flapping (engine/src/services/alerting.ts).
use looksee.Prelude.{
  ℕ, suc, ◌-◌, ◌≤◌, ◌≡◌, refl, ap, inl, inr, String, Bool, true, false, some, List, [], ◌∷◌, ◌===◌,
  map, length, All, arith, Bool-cases,
}
use looksee.Thresholds.{Status}
use looksee.Timeouts.{ResultInput}
use looksee.Alerting.Tables.{Check, CheckResult, AlertRule, Db, find_check, update_check}
use looksee.Alerting.Incidents.{all_failing}
use looksee.Alerting.Record.{
  changes, flaps, latest_results, judged_input, insert_result, is_flapping, set_row, update_row,
  recovers, store_result, judge_rules, record_found, record_check_result,
}

-- All statuses of the list are `s`.
abbrev pub Steady : Status → List CheckResult → Type 0
Steady s = All (λ r. r.status ≡ s)

changes-Steady :
    (s : Status) (rs : List CheckResult) → Steady s rs → changes (map (λ r. r.status) rs) ≡ 0
unfolding changes
changes-Steady s [] h = refl
changes-Steady s (r ∷ []) h = refl
changes-Steady s (r ∷ q ∷ rs) (p, (p', h)) = ground (arith, changes-Steady s (q ∷ rs) (p', h))

changes-le : (ss : List Status) → changes ss ≤ length ss - 1
unfolding changes
changes-le [] = omega arith
changes-le (s ∷ []) = omega arith
changes-le (s ∷ t ∷ ss) = ground (arith, changes-le (t ∷ ss))

-- A check whose last 21 results all have the same status is not flapping, whatever it was.
pub is_flapping_settled :
    (c : Check) (db : Db) (s : Status)
    → Steady s (latest_results c.id 21 db)
    → is_flapping c db ≡ false
unfolding is_flapping flaps
is_flapping_settled c db s h = ground (arith, changes-Steady s (latest_results c.id 21 db) h)

all_failing-maintenance :
    (id : String) (rule : AlertRule) (r : CheckResult) (results : List CheckResult)
    → r.in_maintenance ≡ true
    → all_failing id rule (r ∷ results) ≡ all_failing id rule results
unfolding all_failing
all_failing-maintenance id rule r results m = elim (Bool-cases (r.check_id === id)) [
  | inl own ↦ rw (m, own)
  | inr other ↦ rw other
]

-- The row of a result that is taken in maintenance.
abbrev pub silent_result : String → ResultInput → ℕ → CheckResult
silent_result id input now = record {
  check_id = id;
  status = input.status;
  message = input.message;
  in_maintenance = true;
  checked_at = now;
}

module _ (in_maintenance : Check → ℕ → Bool) where
  -- A result taken in maintenance that recovers nothing is stored in front of the others, as judged
  -- and marked as taken in maintenance, and the row of its check is written; but no incident opens
  -- or closes, nothing is sent, and no rule's run of failures is longer or shorter for it.
  pub record_check_result-maintenance :
      (fuel : ℕ) (id : String) (c : Check) (r : ResultInput) (now : ℕ) (db : Db)
      → find_check id db.checks ≡ some c
      → in_maintenance c now ≡ true
      → recovers c.last_status (judged_input c r db).status ≡ false
      → (db' : Db) × (record_check_result in_maintenance (suc fuel) id r now db ≡ some db')
        × (db'.results ≡ silent_result c.id (judged_input c r db) now ∷ db.results)
        × (db'.checks
            ≡ update_check c.id (set_row c (judged_input c r db) (is_flapping c db') now) db.checks)
        × (db'.events ≡ db.events)
        × (db'.outbox ≡ db.outbox)
        × ((other : String) (rule : AlertRule)
            → all_failing other rule db'.results ≡ all_failing other rule db.results)
  unfolding record_check_result record_found
  record_check_result-maintenance fuel id c r now db found m still =
      let input = judged_input c r db in
      let stored = store_result in_maintenance c input now db in
      (
        stored,
        rw (found, record_check_result)
            (rw (still, record_found) (ap some (unfold judge_rules in rw m))),
        unfold store_result update_row insert_result in rw m refl,
        unfold store_result update_row insert_result is_flapping latest_results in refl,
        unfold store_result update_row insert_result in refl,
        unfold store_result update_row insert_result in refl,
        λ other rule.
            unfold store_result update_row insert_result in
            all_failing-maintenance other rule _ db.results m,
      )
