-- ===== src/Alerting/Transitions.antt =====
-- The life of an incident (engine/src/services/alerting.ts, `evaluateAlertRules`).
use looksee.Prelude.{
  ℕ, ◌+◌, ◌≤◌, ◌≡◌, refl, sym, ap, inl, inr, String, Bool, true, false, not, ◌&&◌, none, some, List,
  [], ◌∷◌, ◌===◌, if◌then◌else◌, arith, eq_iff, Bool-cases, Option-cases,
}
use mathlib.Core.Path.{subst}
use looksee.Thresholds.{Status}
use looksee.Timeouts.{ResultInput}
use looksee.Alerting.Tables.{
  Check, AlertRule, AlertEvent, Occasion, triggered, resolved, Db, is_null,
}
use looksee.Alerting.Incidents.{
  open_event, open_incident, close_incident, notify, all_failing, severity_of, recovered,
  evaluate_rule, evaluate_rules, evaluate_alert_rules,
}
use looksee.Alerting.Events.{
  open_count, Numbered, close, open_count-close, Numbered-update, open_event-count,
}

-- At most one incident of each rule is open, and events are told apart by their IDs.
pub record WellFormed (db : Db) : Type 0 where
  pub numbered : Numbered db.events
  pub one_open : (rule : String) → open_count rule db.events ≤ 1

abbrev pub is_open : String → Db → Bool
is_open rule db = not (is_null (open_event rule db.events))

module _ (rule : String) (occasion : Occasion) (status : Status) (a b : Bool) (db : Db) where
  events-notify : (notify rule occasion status a b db).events ≡ db.events
  unfolding notify
  events-notify = refl

  results-notify : (notify rule occasion status a b db).results ≡ db.results
  unfolding notify
  results-notify = refl

  WellFormed-notify : WellFormed db → WellFormed (notify rule occasion status a b db)
  WellFormed-notify w = record {
    numbered = subst Numbered (sym events-notify) w.numbered;
    one_open = λ r. rw events-notify (w.one_open r);
  }

open_count-open :
    (rule other : String) (now : ℕ) (severity : Status) (db : Db)
    → open_count other (open_incident rule now severity db).events
      ≡ open_count other db.events + (if rule === other then 1 else 0)
unfolding open_incident open_count
open_count-open rule other now severity db = ground (arith, eq_iff rule other)

WellFormed-open :
    (rule : String) (now : ℕ) (severity : Status) (db : Db)
    → open_count rule db.events ≡ 0
    → WellFormed db
    → WellFormed (open_incident rule now severity db)
WellFormed-open rule now severity db none_open w = record {
  numbered = unfold open_incident in (refl, w.numbered);
  one_open = λ other. ground (
    arith,
    open_count-open rule other now severity db,
    w.one_open other,
    eq_iff rule other,
    none_open,
  );
}

close_incident-count :
    (rule other : String) (e : AlertEvent) (now : ℕ) (db : Db)
    → WellFormed db
    → open_event rule db.events ≡ some e
    → open_count other db.events
      ≡ open_count other (close_incident e.id now db).events + (if rule === other then 1 else 0)
unfolding close_incident
close_incident-count rule other e now db w h =
    open_count-close rule other db.events e now w.numbered h

WellFormed-close :
    (rule : String) (e : AlertEvent) (now : ℕ) (db : Db)
    → open_event rule db.events ≡ some e
    → WellFormed db
    → WellFormed (close_incident e.id now db)
WellFormed-close rule e now db h w = record {
  numbered =
      unfold close_incident in Numbered-update e.id (close now) db.events (λ e. refl) w.numbered;
  one_open =
      λ other. ground (arith, close_incident-count rule other e now db w h, w.one_open other);
}

count_of_none :
    (rule : String) (db : Db) → open_event rule db.events ≡ none → open_count rule db.events ≡ 0
count_of_none rule db h = ground (arith, open_event-count rule db.events)

count_of_some :
    (rule : String) (e : AlertEvent) (db : Db)
    → open_event rule db.events ≡ some e
    → WellFormed db
    → open_count rule db.events ≡ 1
count_of_some rule e db h w = ground (arith, open_event-count rule db.events, w.one_open rule)

-- The number of open incidents of a rule as its openness.
open_count-is_open :
    (rule : String) (db : Db)
    → WellFormed db
    → open_count rule db.events ≡ (if is_open rule db then 1 else 0)
open_count-is_open rule db w = ground (arith, open_event-count rule db.events, w.one_open rule)

module _ (check : Check) (latest : ResultInput) (blocked : Bool) (now : ℕ) (rule : AlertRule)
    (db : Db) where
  -- The rule says that an incident is to be opened now.
  abbrev pub triggers : Bool
  triggers = all_failing check.id rule db.results && not blocked && not check.flapping

  -- The three things that evaluating a rule can do.
  data Effect : Db → Type 0 where
    opens :
        open_event rule.id db.events ≡ none
        → triggers ≡ true
        → Effect (
            notify rule.id triggered
              (severity_of latest.status)
              false
              false
              (open_incident rule.id now (severity_of latest.status) db))
    closes :
        (e : AlertEvent)
        → open_event rule.id db.events ≡ some e
        → recovered latest.status rule.trigger_on ≡ true
        → Effect (
            notify rule.id resolved latest.status
              (not (is_null e.escalated_at))
              false
              (close_incident e.id now db))
    waits :
        (if is_open rule.id db then not (recovered latest.status rule.trigger_on) else not triggers)
          ≡ true
        → Effect db

  evaluate_rule-Effect : Effect (evaluate_rule check latest blocked now rule db)
  unfolding evaluate_rule
  evaluate_rule-Effect = elim (Option-cases (open_event rule.id db.events)) [
    | inl closed ↦ elim (Bool-cases triggers) [
      | inl t ↦ subst Effect (sym (when_closed closed t)) (opens closed t)
      | inr t ↦ subst Effect (sym (when_quiet closed t)) (waits (rw (closed, t)))
    ]
    | inr (e, opened) ↦ elim (Bool-cases (recovered latest.status rule.trigger_on)) [
      | inl r ↦ subst Effect (sym (when_over e opened r)) (closes e opened r)
      | inr r ↦ subst Effect (sym (when_open e opened r)) (waits (rw (opened, r)))
    ]
  ]
    where
      when_closed :
          open_event rule.id db.events ≡ none
          → triggers ≡ true
          → evaluate_rule check latest blocked now rule db
            ≡ notify rule.id triggered
                (severity_of latest.status)
                false
                false
                (open_incident rule.id now (severity_of latest.status) db)
      when_closed c t = rw (c, evaluate_rule, t)

      when_quiet :
          open_event rule.id db.events ≡ none
          → triggers ≡ false
          → evaluate_rule check latest blocked now rule db ≡ db
      when_quiet c t = rw (c, evaluate_rule, t)

      when_over :
          (e : AlertEvent)
          → open_event rule.id db.events ≡ some e
          → recovered latest.status rule.trigger_on ≡ true
          → evaluate_rule check latest blocked now rule db
            ≡ notify rule.id resolved latest.status
                (not (is_null e.escalated_at))
                false
                (close_incident e.id now db)
      when_over e o r = rw (o, evaluate_rule, r)

      when_open :
          (e : AlertEvent)
          → open_event rule.id db.events ≡ some e
          → recovered latest.status rule.trigger_on ≡ false
          → evaluate_rule check latest blocked now rule db ≡ db
      when_open e o r = rw (o, evaluate_rule, r)

  -- How many incidents of any rule are open after one rule was evaluated.
  abbrev OpenCountAfter : Db → String → Type 0
  OpenCountAfter db' other = open_count other db'.events ≡ (
      if rule.id === other
      then (if is_open rule.id db
          then if recovered latest.status rule.trigger_on then 0 else 1
          else if triggers
          then 1
          else 0)
      else open_count other db.events)

  same_count :
      (other : String) → rule.id ≡ other → open_count rule.id db.events ≡ open_count other db.events
  same_count other e = ap (λ r. open_count r db.events) e

  Effect-open_count :
      {db' : Db} (other : String) → WellFormed db → Effect db' → OpenCountAfter db' other
  Effect-open_count other w (opens c t) =
      rw (events-notify, open_count-open, c, t)
        (ground (arith, eq_iff rule.id other, count_of_none rule.id db c, same_count other))
  Effect-open_count other w (closes e o r) =
      rw (events-notify, o, r)
        (ground (
          arith,
          eq_iff rule.id other,
          count_of_some rule.id e db o w,
          close_incident-count rule.id other e now db w o,
          same_count other,
        ))
  Effect-open_count other w (waits h) =
      ground (arith, eq_iff rule.id other, open_count-is_open rule.id db w, same_count other)

  Effect-WellFormed : {db' : Db} → WellFormed db → Effect db' → WellFormed db'
  Effect-WellFormed w (opens c t) =
      WellFormed-notify _ _ _ _ _ _
        (WellFormed-open rule.id now _ db (count_of_none rule.id db c) w)
  Effect-WellFormed w (closes e o r) =
      WellFormed-notify _ _ _ _ _ _ (WellFormed-close rule.id e now db o w)
  Effect-WellFormed w (waits h) = w

  WellFormed-evaluate_rule :
      WellFormed db → WellFormed (evaluate_rule check latest blocked now rule db)
  WellFormed-evaluate_rule w = Effect-WellFormed w evaluate_rule-Effect

  -- Evaluating a rule leaves an incident of it open exactly when one was open and the latest result
  -- is no recovery, or none was open, the rule's last results all fail, no check that this one
  -- depends on is down, and the check is not flapping; no other rule's incidents change.
  pub is_open-evaluate_rule :
      (other : String)
      → WellFormed db
      → is_open other (evaluate_rule check latest blocked now rule db) ≡ (
          if rule.id === other
          then (if is_open rule.id db
              then not (recovered latest.status rule.trigger_on)
              else triggers)
          else is_open other db)
  is_open-evaluate_rule other w =
      let after = evaluate_rule check latest blocked now rule db in
      ground (
        arith,
        Effect-open_count other w evaluate_rule-Effect,
        open_count-is_open other after (WellFormed-evaluate_rule w),
        open_count-is_open other db w,
      )

WellFormed-evaluate_rules :
    (check : Check) (latest : ResultInput) (blocked : Bool) (now : ℕ) (rules : List AlertRule)
    (db : Db)
    → WellFormed db
    → WellFormed (evaluate_rules check latest blocked now rules db)
unfolding evaluate_rules
WellFormed-evaluate_rules check latest blocked now [] db w = w
WellFormed-evaluate_rules check latest blocked now (rule ∷ rules) db w =
    WellFormed-evaluate_rules check latest blocked now rules
      (evaluate_rule check latest blocked now rule db)
      (WellFormed-evaluate_rule check latest blocked now rule db w)

pub WellFormed-evaluate_alert_rules :
    (check : Check) (latest : ResultInput) (now : ℕ) (db : Db)
    → WellFormed db
    → WellFormed (evaluate_alert_rules check latest now db)
unfolding evaluate_alert_rules
WellFormed-evaluate_alert_rules check latest now db w =
    WellFormed-evaluate_rules check latest _ now _ db w
