-- ===== src/Scheduler/Collectors.antt =====
-- The report of a silent collector (`takeCollectorChecks` of engine/src/services/scheduler.ts) and
-- the alert rules.
use looksee.Prelude.{
  ℕ, zero, suc, ◌≤◌, String, Bool, false, ◌&&◌, Option, some, List, [], ◌∷◌, leb, length, every,
  keep, take, ◌≡◌, refl, sym, ap, ◌∙◌, inl, inr, arith, Bool-cases, Option-cases, All, eq_iff,
}
use mathlib.Core.Path.{subst}
use looksee.Thresholds.{Status, unknown}
use looksee.Timeouts.{ResultInput}
use looksee.Alerting.Tables.{Check, CheckResult, AlertRule, TriggerOn, Db, find_check}
use looksee.Alerting.Incidents.{
  all_failing, failing, evaluate_rule, evaluate_rules, evaluate_alert_rules, open_event,
}
use looksee.Alerting.Record.{
  judged_input, insert_result, is_flapping, update_row, recovers, store_result, judge_rules,
  record_found, record_check_result,
}

-- Every rule asks for at least one failure.
abbrev pub Counts : List AlertRule → Type 0
Counts rules = All (λ r. 1 ≤ r.consecutive_failures) rules

first_unknown :
    (n : ℕ) (r : CheckResult) (rs : List CheckResult) (t : TriggerOn)
    → r.status ≡ unknown
    → 1 ≤ n
    → leb n (length (take n (r ∷ rs))) && every (λ u. failing u.status t) (take n (r ∷ rs)) ≡ false
first_unknown zero r rs t s h = absurd (omega arith)
first_unknown (suc n) r rs t s h =
    let no : failing r.status t ≡ false = unfold failing in rw s refl in ground (arith, no)

-- The newest result is unknown, and was not taken in maintenance.
unknown_newest :
    (id : String) (rule : AlertRule) (r : CheckResult) (results : List CheckResult)
    → r.status ≡ unknown
    → r.check_id ≡ id
    → r.in_maintenance ≡ false
    → 1 ≤ rule.consecutive_failures
    → all_failing id rule (r ∷ results) ≡ false
unfolding all_failing
unknown_newest id rule r results s e m n =
    simp ((eq_iff r.check_id id).1 e, m)
      (first_unknown rule.consecutive_failures r _ rule.trigger_on s n)

unknown_rule :
    (c : Check) (latest : ResultInput) (blocked : Bool) (now : ℕ) (rule : AlertRule) (db : Db)
    → latest.status ≡ unknown
    → all_failing c.id rule db.results ≡ false
    → evaluate_rule c latest blocked now rule db ≡ db
unfolding evaluate_rule
unknown_rule c latest blocked now rule db s f = elim (Option-cases (open_event rule.id db.events)) [
  | inl closed ↦ rw (closed, f, evaluate_rule) refl
  | inr (e, opened) ↦ rw (opened, s, evaluate_rule) refl
]

unknown_rules :
    (c : Check) (latest : ResultInput) (blocked : Bool) (now : ℕ) (rules : List AlertRule) (db : Db)
    → latest.status ≡ unknown
    → All (λ rule. all_failing c.id rule db.results ≡ false) rules
    → evaluate_rules c latest blocked now rules db ≡ db
unfolding evaluate_rules
unknown_rules c latest blocked now [] db s h = refl
unknown_rules c latest blocked now (rule ∷ rules) db s (h, hs) =
    ap (evaluate_rules c latest blocked now rules) (unknown_rule c latest blocked now rule db s h)
    ∙ unknown_rules c latest blocked now rules db s hs

none_fails :
    (id : String) (r : CheckResult) (results : List CheckResult) (p : AlertRule → Bool)
    (rules : List AlertRule)
    → r.status ≡ unknown
    → r.check_id ≡ id
    → r.in_maintenance ≡ false
    → Counts rules
    → All (λ rule. all_failing id rule (r ∷ results) ≡ false) (keep p rules)
none_fails id r results p [] s e m c = tt
none_fails id r results p (rule ∷ rules) s e m (c, cs) = elim (Bool-cases (p rule)) [
  | inl kept ↦
      rw kept (unknown_newest id rule r results s e m c, none_fails id r results p rules s e m cs)
  | inr left ↦ rw left (none_fails id r results p rules s e m cs)
]

module _ (in_maintenance : Check → ℕ → Bool) where
  unknown_alerts :
      (c : Check) (r : ResultInput) (now : ℕ) (flapping : Bool) (db : Db)
      → r.status ≡ unknown
      → Counts db.rules
      → judge_rules in_maintenance c r now flapping (store_result in_maintenance c r now db)
        ≡ store_result in_maintenance c r now db
  unfolding judge_rules evaluate_alert_rules
  unknown_alerts c r now flapping db s counts = elim (Bool-cases (in_maintenance c now)) [
    | inl silent ↦ rw silent refl
    | inr heard ↦ rw heard (
        unfold store_result update_row insert_result in
        unknown_rules (record c { flapping = flapping }) r _ now _ _ s
          (none_fails c.id _ db.results _ db.rules s refl heard counts))
  ]

  judged_unknown :
      (c : Check) (r : ResultInput) (db : Db) → r.status ≡ unknown → judged_input c r db ≡ r
  unfolding judged_input
  judged_unknown c r db s = rw s refl

  recovers-unknown : (o : Option Status) → recovers o unknown ≡ false
  recovers-unknown o = ground arith

  -- An unknown result of a check is stored, and that is all it does: no incident opens or closes
  -- and nothing is sent, where every rule asks for at least one failure.
  pub record_check_result-unknown :
      (fuel : ℕ) (id : String) (c : Check) (r : ResultInput) (now : ℕ) (db : Db)
      → find_check id db.checks ≡ some c
      → r.status ≡ unknown
      → Counts db.rules
      → record_check_result in_maintenance (suc fuel) id r now db
        ≡ some (store_result in_maintenance c r now db)
  unfolding record_check_result record_found
  record_check_result-unknown fuel id c r now db found s counts =
      let judged = judged_unknown c r db s in
      let still : recovers c.last_status (judged_input c r db).status ≡ false =
        ap (recovers c.last_status) (ap (λ i. i.status) judged ∙ s)
        ∙ recovers-unknown c.last_status in
      rw (found, record_check_result)
        (rw (still, record_found)
          (subst
            (λ i.
              some (
                judge_rules in_maintenance c i now
                  (is_flapping c (insert_result c.id i (in_maintenance c now) now db))
                  (store_result in_maintenance c i now db))
              ≡ some (store_result in_maintenance c r now db))
            (sym judged) (ap some (unknown_alerts c r now _ db s counts))))
