-- ===== src/Scheduler/Taken.antt =====
-- The list that `takeCollectorChecks` of engine/src/services/scheduler.ts returns, and the alerts.
use looksee.Prelude.{
  ℕ, suc, String, Bool, ◌&&◌, Option, none, some, List, [], ◌∷◌, keep, includes, ◌≡◌, refl, sym, ap,
  ◌∙◌, inl, inr, Bool-cases, Option-cases,
}
use mathlib.Core.Path.{subst}
use looksee.Prelude.Text.{Text}
use looksee.Thresholds.{unknown}
use looksee.Timeouts.{ResultInput}
use looksee.Alerting.Tables.{Check, Db, is_null, find_check}
use looksee.CheckTypes.{collector_check_types}
use looksee.Alerting.Record.{insert_result, update_row, store_result, record_check_result}
use looksee.Scheduler.Due.{
  Site, Fleet, Endpoint, handed_to, collector_sites, collector_of, collector_endpoint,
  report_silent, take_each, take_collector_checks, offline, is_silent, last_seen, mark_run,
}
use looksee.Scheduler.Collectors.{Counts, record_check_result-unknown}

pub record Quiet (db after : Db) : Type 0 where
  pub same_rules : after.rules ≡ db.rules
  pub same_events : after.events ≡ db.events
  pub same_outbox : after.outbox ≡ db.outbox

Quiet-refl : (db : Db) → Quiet db db
Quiet-refl db = record { same_rules = refl; same_events = refl; same_outbox = refl }

Quiet-trans : {a b c : Db} → Quiet a b → Quiet b c → Quiet a c
Quiet-trans p q = record {
  same_rules = q.same_rules ∙ p.same_rules;
  same_events = q.same_events ∙ p.same_events;
  same_outbox = q.same_outbox ∙ p.same_outbox;
}

-- The checks that no collector runs.
abbrev pub engine_runs : Fleet → List Check → List Check
engine_runs fleet due = keep (λ c. is_null (handed_to fleet c)) due

no_collectors : (fleet : Fleet) (c : Check) → collector_sites fleet ≡ [] → handed_to fleet c ≡ none
unfolding handed_to
no_collectors fleet c e =
    let none_here : collector_of fleet c.site_id ≡ none = rw (e, collector_of) refl in
    elim (Bool-cases (includes collector_check_types c.type && is_null c.probe_endpoint_id)) [
      | inl t ↦ rw t none_here
      | inr t ↦ rw t refl
    ]

engine_runs-all :
    (fleet : Fleet) (due : List Check) → collector_sites fleet ≡ [] → engine_runs fleet due ≡ due
engine_runs-all fleet [] e = refl
engine_runs-all fleet (c ∷ cs) e =
    rw (no_collectors fleet c e) (ap (λ xs. c ∷ xs) (engine_runs-all fleet cs e))

module _ (in_maintenance : Check → ℕ → Bool) (iso : ℕ → Text) where
  -- What a report of an unknown result amounts to: it ends, and the alerts are as they were.
  record_unknown-Quiet :
      (fuel : ℕ) (id : String) (r : ResultInput) (now : ℕ) (db : Db)
      → r.status ≡ unknown
      → Counts db.rules
      → (after : Db) × (record_check_result in_maintenance (suc fuel) id r now db ≡ some after)
        × Quiet db after
  unfolding record_check_result
  record_unknown-Quiet fuel id r now db s counts = elim (Option-cases (find_check id db.checks)) [
    | inl missing ↦ (db, rw (missing, record_check_result) refl, Quiet-refl db)
    | inr (c, found) ↦ (
      store_result in_maintenance c r now db,
      record_check_result-unknown in_maintenance fuel id c r now db found s counts,
      unfold store_result update_row insert_result in
          record { same_rules = refl; same_events = refl; same_outbox = refl },
    )
  ]

  report_silent-Quiet :
      (fuel : ℕ) (e : Option Endpoint) (c : Check) (now : ℕ) (db : Db)
      → Counts db.rules
      → (after : Db) × (report_silent in_maintenance iso (suc fuel) e c now db ≡ some after)
        × Quiet db after
  unfolding report_silent mark_run
  report_silent-Quiet fuel e c now db counts =
      elim (Bool-cases (is_silent (last_seen e) c.interval_seconds now)) [
        | inr heard ↦ (db, rw (heard, report_silent) refl, Quiet-refl db)
        | inl silent ↦
            let (after, ends, quiet) =
              record_unknown-Quiet fuel c.id (offline in_maintenance iso e) now
                (mark_run c.id now db) refl counts in
            (
              after,
              rw (silent, report_silent) ends,
              record {
                same_rules = quiet.same_rules;
                same_events = quiet.same_events;
                same_outbox = quiet.same_outbox;
              },
            )
      ]

  take_each-rest :
      (fuel : ℕ) (fleet : Fleet) (now : ℕ) (due : List Check) (db : Db)
      → Counts db.rules
      → (after : Db) × (take_each in_maintenance iso (suc fuel) fleet now due db
          ≡ some (engine_runs fleet due, after))
        × Quiet db after
  unfolding take_each
  take_each-rest fuel fleet now [] db counts = (db, refl, Quiet-refl db)
  take_each-rest fuel fleet now (c ∷ cs) db counts = elim (Option-cases (handed_to fleet c)) [
    | inl own ↦
        let (after, ends, quiet) = take_each-rest fuel fleet now cs db counts in
        (after, rw (own, ends, take_each) refl, quiet)
    | inr (id, handed) ↦
        let (between, told, first) =
          report_silent-Quiet fuel (collector_endpoint fleet id) c now db counts in
        let (after, ends, quiet) =
          take_each-rest fuel fleet now cs between (subst Counts (sym first.same_rules) counts) in
        (after, rw (handed, told, take_each) ends, Quiet-trans first quiet)
  ]

  -- Handing checks to site collectors ends; the engine is left with the checks that no collector
  -- runs, in their order; and no incident opens or closes and nothing is sent, though collectors
  -- that are silent make their checks unknown: where every rule asks for at least one failure.
  pub take_collector_checks-rest :
      (fuel : ℕ) (fleet : Fleet) (now : ℕ) (due : List Check) (db : Db)
      → Counts db.rules
      → (after : Db) × (take_collector_checks in_maintenance iso (suc fuel) fleet now due db
          ≡ some (engine_runs fleet due, after))
        × Quiet db after
  unfolding take_collector_checks
  take_collector_checks-rest fuel fleet now due db counts = go (collector_sites fleet) refl
    where
      go :
          (sites : List Site)
          → collector_sites fleet ≡ sites
          → (after : Db) × (take_collector_checks in_maintenance iso (suc fuel) fleet now due db
              ≡ some (engine_runs fleet due, after))
            × Quiet db after
      go [] e =
          (db, rw (e, take_collector_checks) (rw (engine_runs-all fleet due e) refl), Quiet-refl db)
      go (s ∷ ss) e =
          let (after, ends, quiet) = take_each-rest fuel fleet now due db counts in
          (after, rw (e, take_collector_checks) ends, quiet)
