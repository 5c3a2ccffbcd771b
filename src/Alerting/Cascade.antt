-- ===== src/Alerting/Cascade.antt =====
-- The recursion of `recordCheckResult`, `resolveCheck` and `resolveFollowers` of
-- engine/src/services/alerting.ts.
use looksee.Prelude.{
  ℕ, zero, suc, ◌≤◌, ◌<◌, ◌≡◌, refl, sym, ap, ◌∙◌, inl, inr, String, Bool, true, false, Option,
  none, some, List, [], ◌∷◌, ◌===◌, map, ◌-◌, if◌then◌else◌, arith, eq_iff, Bool-cases,
  Option-cases,
}
use mathlib.Core.Path.{subst}
use looksee.Prelude.Text.{Text}
use looksee.Thresholds.{Status, up}
use looksee.Timeouts.{ResultInput, timeouts_before_down}
use looksee.Timeouts.Run.{judge_timeout-ne-up}
use looksee.Alerting.Tables.{Check, AlertRule, ResolvedBy, check, Db, find_check, update_check}
use looksee.Alerting.Incidents.{
  notify, open_incident, close_incident, evaluate_rule, evaluate_rules, evaluate_alert_rules,
}
use looksee.Alerting.Record.{
  judged_input, insert_result, is_flapping, update_row, recovers, follows, mark_resolved, up_with,
  resolve_with, resolve_each, resolve_followers, store_result, judge_rules, record_found,
  record_check_result, recovered_together, judged_check, as_input, latest_results,
}

abbrev pub non_up : Option Status → Bool
non_up none = false
non_up (some up) = false
non_up (some s) = true

-- How many checks last reported something other than up.
unfoldable pub troubled : List Check → ℕ
troubled [] = 0
troubled (c ∷ cs) = let rest = troubled cs in if non_up c.last_status then suc rest else rest

troubled-update_le :
    (id : String) (f : Check → Check) (cs : List Check)
    → ((c : Check) → non_up (f c).last_status ≡ true → non_up c.last_status ≡ true)
    → troubled (update_check id f cs) ≤ troubled cs
unfolding troubled update_check
troubled-update_le id f [] h = omega arith
troubled-update_le id f (c ∷ cs) h = ground (arith, troubled-update_le id f cs h, h c)

-- Setting the row that was found to up takes it from the count.
troubled-update_lt :
    (id : String) (f : Check → Check) (cs : List Check) (c : Check)
    → ((c : Check) → non_up (f c).last_status ≡ false)
    → find_check id cs ≡ some c
    → non_up c.last_status ≡ true
    → troubled (update_check id f cs) < troubled cs
unfolding troubled update_check
troubled-update_lt id f [] c h e t = absurd (cc)
troubled-update_lt id f (x ∷ cs) c h e t = elim (Bool-cases (x.id === id)) [
  | inl m ↦ ground (arith, troubled-update_le id f cs (λ c e. absurd (ground (arith, h c))), h x)
  | inr m ↦ ground (arith, troubled-update_lt id f cs c h (ground arith) t)
]

checks-evaluate_rule :
    (c : Check) (latest : ResultInput) (blocked : Bool) (now : ℕ) (rule : AlertRule) (db : Db)
    → (evaluate_rule c latest blocked now rule db).checks ≡ db.checks
unfolding evaluate_rule notify open_incident close_incident
checks-evaluate_rule c latest blocked now rule db = ground arith

checks-evaluate_rules :
    (c : Check) (latest : ResultInput) (blocked : Bool) (now : ℕ) (rules : List AlertRule) (db : Db)
    → (evaluate_rules c latest blocked now rules db).checks ≡ db.checks
unfolding evaluate_rules
checks-evaluate_rules c latest blocked now [] db = refl
checks-evaluate_rules c latest blocked now (rule ∷ rules) db =
    checks-evaluate_rules c latest blocked now rules (evaluate_rule c latest blocked now rule db)
    ∙ checks-evaluate_rule c latest blocked now rule db

checks-mark_resolved :
    (id : String) (by : ResolvedBy) (now : ℕ) (db : Db)
    → troubled (mark_resolved id by now db).checks ≤ troubled db.checks
unfolding mark_resolved
checks-mark_resolved id by now db = troubled-update_le id _ db.checks (λ c h. h)

-- Recording is total below some number of troubled checks, and an up result adds none.
record Ends (limit : ℕ) (record_result : String → ResultInput → ℕ → Db → Option Db) : Type 0 where
  at :
      (id : String) (r : ResultInput) (now : ℕ) (db : Db)
      → r.status ≡ up
      → troubled db.checks < limit
      → (db' : Db) × (record_result id r now db ≡ some db')
        × (troubled db'.checks ≤ troubled db.checks)

module _ (limit : ℕ) (record_result : String → ResultInput → ℕ → Db → Option Db)
    (ends : Ends limit record_result) where
  resolve_with-Ends :
      (id : String) (message : Text) (by : ResolvedBy) (now : ℕ) (db : Db)
      → troubled db.checks < limit
      → (db' : Db) × (resolve_with record_result id message by now db ≡ some db')
        × (troubled db'.checks ≤ troubled db.checks)
  unfolding resolve_with
  resolve_with-Ends id message by now db h = elim (Option-cases (find_check id db.checks)) [
    | inl missing ↦ (db, rw (missing, resolve_with), omega arith)
    | inr (c, found) ↦
        let less = checks-mark_resolved id by now db in
        let (db', e, le) =
          ends.at id (up_with message) now (mark_resolved id by now db) refl (omega arith) in
        (db', rw (found, resolve_with) e, omega arith)
  ]

  resolve_each-Ends :
      (leader : Check) (now : ℕ) (fs : List Check) (db : Db)
      → troubled db.checks < limit
      → (db' : Db) × (resolve_each record_result leader now fs db ≡ some db')
        × (troubled db'.checks ≤ troubled db.checks)
  unfolding resolve_each
  resolve_each-Ends leader now [] db h = (db, refl, omega arith)
  resolve_each-Ends leader now (f ∷ fs) db h = elim (Bool-cases (follows leader.id f)) [
    | inl t ↦
        let (db1, e1, le1) =
          resolve_with-Ends f.id (recovered_together leader.name) check now db h in
        let (db2, e2, le2) = resolve_each-Ends leader now fs db1 (omega arith) in
        (db2, rw (t, e1) e2, omega arith)
    | inr t ↦
        let (db2, e2, le2) = resolve_each-Ends leader now fs db h in (db2, rw t e2, omega arith)
  ]

  resolve_followers-Ends :
      (leader : Check) (now : ℕ) (db : Db)
      → troubled db.checks < limit
      → (db' : Db) × (resolve_followers record_result leader now db ≡ some db')
        × (troubled db'.checks ≤ troubled db.checks)
  unfolding resolve_followers
  resolve_followers-Ends leader now db h = resolve_each-Ends leader now _ db h

module _ (in_maintenance : Check → ℕ → Bool) where
  checks-judge_rules :
      (c : Check) (input : ResultInput) (now : ℕ) (flapping : Bool) (db : Db)
      → (judge_rules in_maintenance c input now flapping db).checks ≡ db.checks
  unfolding judge_rules evaluate_alert_rules
  checks-judge_rules c input now flapping db = elim (Bool-cases (in_maintenance c now)) [
    | inl m ↦ rw m
    | inr m ↦ rw m (checks-evaluate_rules _ input _ now _ db)
  ]

  store_result-le :
      (c : Check) (input : ResultInput) (now : ℕ) (db : Db)
      → input.status ≡ up
      → troubled (store_result in_maintenance c input now db).checks ≤ troubled db.checks
  unfolding store_result update_row insert_result
  store_result-le c input now db u =
      troubled-update_le c.id _ db.checks (λ d h. absurd (ground arith))

  store_result-lt :
      (c : Check) (input : ResultInput) (now : ℕ) (db : Db)
      → input.status ≡ up
      → find_check c.id db.checks ≡ some c
      → non_up c.last_status ≡ true
      → troubled (store_result in_maintenance c input now db).checks < troubled db.checks
  unfolding store_result update_row insert_result
  store_result-lt c input now db u found t =
      troubled-update_lt c.id _ db.checks c (λ d. ground arith) found t

-- Only an up result as reported can be a recovery.
judged_input-recovers :
    (c : Check) (r : ResultInput) (db : Db) (s : Option Status)
    → recovers s (judged_input c r db).status ≡ true
    → (r.status ≡ up) × (non_up s ≡ true)
unfolding judged_input
judged_input-recovers c r db s h = ground (
  arith,
  judge_timeout-ne-up (judged_check c) r
      (map as_input (latest_results c.id (timeouts_before_down c.timeout_setting - 1) db)),
)

judged_input-up : (c : Check) (r : ResultInput) (db : Db) → r.status ≡ up → judged_input c r db ≡ r
unfolding judged_input
judged_input-up c r db u = ground arith

find-id : (id : String) (cs : List Check) (c : Check) → find_check id cs ≡ some c → c.id ≡ id
find-id id [] c h = absurd (cc)
find-id id (x ∷ cs) c h = elim (Bool-cases (x.id === id)) [
  | inl m ↦ ground (arith, eq_iff x.id id)
  | inr m ↦ find-id id cs c (ground arith)
]

module _ (in_maintenance : Check → ℕ → Bool) where
  record_found-Ends :
      (limit : ℕ) (record_result : String → ResultInput → ℕ → Db → Option Db)
      → Ends limit record_result
      → (c : Check) (r : ResultInput) (now : ℕ) (db : Db) → find_check c.id db.checks ≡ some c
      → troubled db.checks < suc limit
      → (db' : Db) × (record_found in_maintenance record_result c r now db ≡ some db')
        × (r.status ≡ up → troubled db'.checks ≤ troubled db.checks)
  unfolding record_found
  record_found-Ends limit record_result ends c r now db found h =
      let input = judged_input c r db in
      let flapping = is_flapping c (insert_result c.id input (in_maintenance c now) now db) in
      let stored = store_result in_maintenance c input now db in
      elim (Bool-cases (recovers c.last_status input.status)) [
        | inl t ↦
            let (u, trouble) = judged_input-recovers c r db c.last_status t in
            let input_up : input.status ≡ up = ap (λ i. i.status) (judged_input-up c r db u) ∙ u in
            let less = store_result-lt in_maintenance c input now db input_up found trouble in
            let (db1, e, le) =
              resolve_followers-Ends limit record_result ends c now stored (omega arith) in
            let same = ap troubled (checks-judge_rules in_maintenance c input now flapping db1) in
            (
              judge_rules in_maintenance c input now flapping db1,
              rw (t, record_found) (rw (e, record_found)),
              λ _. omega arith,
            )
        | inr t ↦ (
          judge_rules in_maintenance c input now flapping stored,
          rw (t, record_found),
          λ u.
              let input_up : input.status ≡ up =
                ap (λ i. i.status) (judged_input-up c r db u) ∙ u in
              omega (
                arith,
                store_result-le in_maintenance c input now db input_up,
                ap troubled (checks-judge_rules in_maintenance c input now flapping stored),
              ),
        )
      ]

  record-step :
      (fuel : ℕ)
      → Ends fuel (record_check_result in_maintenance fuel)
      → (id : String) (r : ResultInput) (now : ℕ) (db : Db) → troubled db.checks < suc fuel
      → (db' : Db) × (record_check_result in_maintenance (suc fuel) id r now db ≡ some db')
        × (r.status ≡ up → troubled db'.checks ≤ troubled db.checks)
  unfolding record_check_result
  record-step fuel ends id r now db h = elim (Option-cases (find_check id db.checks)) [
    | inl missing ↦ (db, rw (missing, record_check_result), λ _. omega arith)
    | inr (c, found) ↦
        let own : find_check c.id db.checks ≡ some c =
          subst (λ i. find_check i db.checks ≡ some c) (sym (find-id id db.checks c found)) found in
        let (db', e, le) =
          record_found-Ends fuel (record_check_result in_maintenance fuel) ends c r now db own h in
        (db', rw (found, record_check_result) e, le)
  ]

  record_check_result-Ends : (fuel : ℕ) → Ends fuel (record_check_result in_maintenance fuel)
  record_check_result-Ends zero = record { at = λ id r now db u h. absurd (omega arith) }
  record_check_result-Ends (suc fuel) = record {
    at = λ id r now db u h.
        let (db', e, le) = record-step fuel (record_check_result-Ends fuel) id r now db h in
        (db', e, le u);
  }

  -- Recording a result ends, with one more round of fuel than there are checks that last reported
  -- something other than up: however the checks follow one another, in cycles too, a recovery that
  -- recovers its followers, and they theirs, comes to an end.
  pub record_check_result_ends :
      (fuel : ℕ) (id : String) (r : ResultInput) (now : ℕ) (db : Db)
      → troubled db.checks < fuel
      → (db' : Db) × (record_check_result in_maintenance fuel id r now db ≡ some db')
  record_check_result_ends zero id r now db h = absurd (omega arith)
  record_check_result_ends (suc fuel) id r now db h =
      let (db', e, le) = record-step fuel (record_check_result-Ends fuel) id r now db h in (db', e)
