-- ===== src/Alerting/OneOpen.antt =====
-- `recordCheckResult` of engine/src/services/alerting.ts and the table of incidents.
use looksee.Prelude.{
  ℕ, zero, suc, ◌≡◌, refl, inl, inr, String, Bool, Option, some, List, [], ◌∷◌, arith, Bool-cases,
  Option-cases,
}
use mathlib.Core.Path.{subst}
use looksee.Prelude.Text.{Text}
use looksee.Timeouts.{ResultInput}
use looksee.Alerting.Tables.{Check, ResolvedBy, check, Db, find_check}
use looksee.Alerting.Record.{
  judged_input, insert_result, is_flapping, update_row, recovers, follows, mark_resolved, up_with,
  recovered_together, resolve_with, resolve_each, resolve_followers, store_result, judge_rules,
  record_found, record_check_result,
}
use looksee.Alerting.Transitions.{WellFormed, WellFormed-evaluate_alert_rules}

-- The invariant reads only the events.
WellFormed-events : (a b : Db) → a.events ≡ b.events → WellFormed b → WellFormed a
WellFormed-events a b e w = record {
  numbered = rw e w.numbered;
  one_open = λ r. rw e (w.one_open r);
}

-- What records a result keeps the invariant whenever it returns.
abbrev Keeps : (String → ResultInput → ℕ → Db → Option Db) → Type 0
Keeps record_result =
    (id : String) (r : ResultInput) (now : ℕ) (db db' : Db)
    → record_result id r now db ≡ some db'
    → WellFormed db
    → WellFormed db'

module _ (record_result : String → ResultInput → ℕ → Db → Option Db)
    (keeps : Keeps record_result) where
  resolve_with-WellFormed :
      (id : String) (message : Text) (by : ResolvedBy) (now : ℕ) (db db' : Db)
      → resolve_with record_result id message by now db ≡ some db'
      → WellFormed db
      → WellFormed db'
  unfolding resolve_with mark_resolved
  resolve_with-WellFormed id message by now db db' e w =
      elim (Option-cases (find_check id db.checks)) [
        | inl missing ↦ let same : db ≡ db' = ground arith in subst WellFormed same w
        | inr (c, found) ↦
            keeps id (up_with message) now (mark_resolved id by now db) db' (ground arith)
              (WellFormed-events (mark_resolved id by now db) db refl w)
      ]

  resolve_each-WellFormed :
      (leader : Check) (now : ℕ) (fs : List Check) (db db' : Db)
      → resolve_each record_result leader now fs db ≡ some db'
      → WellFormed db
      → WellFormed db'
  unfolding resolve_each
  resolve_each-WellFormed leader now [] db db' e w =
      let same : db ≡ db' = ground arith in subst WellFormed same w
  resolve_each-WellFormed leader now (f ∷ fs) db db' e w = elim (Bool-cases (follows leader.id f)) [
    | inl t ↦
        elim (Option-cases
          (resolve_with record_result f.id (recovered_together leader.name) check now db)) [
            | inl gone ↦ absurd (ground arith)
            | inr (db1, first) ↦ resolve_each-WellFormed leader now fs db1 db' (ground arith) (
                resolve_with-WellFormed f.id (recovered_together leader.name) check now db db1 first
                  w)
          ]
    | inr t ↦ resolve_each-WellFormed leader now fs db db' (ground arith) w
  ]

  resolve_followers-WellFormed :
      (leader : Check) (now : ℕ) (db db' : Db)
      → resolve_followers record_result leader now db ≡ some db'
      → WellFormed db
      → WellFormed db'
  unfolding resolve_followers
  resolve_followers-WellFormed leader now db db' e w =
      resolve_each-WellFormed leader now _ db db' e w

module _ (in_maintenance : Check → ℕ → Bool) where
  judge_rules-WellFormed :
      (c : Check) (input : ResultInput) (now : ℕ) (flapping : Bool) (db : Db)
      → WellFormed db
      → WellFormed (judge_rules in_maintenance c input now flapping db)
  unfolding judge_rules
  judge_rules-WellFormed c input now flapping db w = elim (Bool-cases (in_maintenance c now)) [
    | inl m ↦ rw m w
    | inr m ↦ rw m (WellFormed-evaluate_alert_rules _ input now db w)
  ]

  store_result-events :
      (c : Check) (input : ResultInput) (now : ℕ) (db : Db)
      → (store_result in_maintenance c input now db).events ≡ db.events
  unfolding store_result update_row insert_result
  store_result-events c input now db = refl

  record_found-WellFormed :
      (record_result : String → ResultInput → ℕ → Db → Option Db)
      → Keeps record_result
      → (c : Check) (r : ResultInput) (now : ℕ) (db db' : Db)
      → record_found in_maintenance record_result c r now db ≡ some db'
      → WellFormed db
      → WellFormed db'
  unfolding record_found
  record_found-WellFormed record_result keeps c r now db db' e w =
      let input = judged_input c r db in
      let flapping = is_flapping c (insert_result c.id input (in_maintenance c now) now db) in
      let stored = store_result in_maintenance c input now db in
      let stored_ok : WellFormed stored =
        WellFormed-events stored db (store_result-events c input now db) w in
      elim (Bool-cases (recovers c.last_status input.status)) [
        | inl t ↦ elim (Option-cases (resolve_followers record_result c now stored)) [
          | inl gone ↦ absurd (ground arith)
          | inr (m, em) ↦
              let m_ok =
                resolve_followers-WellFormed record_result keeps c now stored m em stored_ok in
              let same : judge_rules in_maintenance c input now flapping m ≡ db' = ground arith in
              subst WellFormed same (judge_rules-WellFormed c input now flapping m m_ok)
        ]
        | inr t ↦
            let same : judge_rules in_maintenance c input now flapping stored ≡ db' =
              ground arith in
            subst WellFormed same (judge_rules-WellFormed c input now flapping stored stored_ok)
      ]

  -- Recording a result of any check keeps at most one incident of each rule open, whatever the
  -- result, and however many followers it recovers.
  pub record_check_result-WellFormed :
      (fuel : ℕ) (id : String) (r : ResultInput) (now : ℕ) (db db' : Db)
      → record_check_result in_maintenance fuel id r now db ≡ some db'
      → WellFormed db
      → WellFormed db'
  unfolding record_check_result
  record_check_result-WellFormed zero id r now db db' e w = absurd (cc)
  record_check_result-WellFormed (suc fuel) id r now db db' e w =
      elim (Option-cases (find_check id db.checks)) [
        | inl missing ↦ let same : db ≡ db' = ground arith in subst WellFormed same w
        | inr (c, found) ↦
            record_found-WellFormed (record_check_result in_maintenance fuel)
              (λ i s n d d'. record_check_result-WellFormed fuel i s n d d') c r now db db'
              (ground arith) w
      ]
