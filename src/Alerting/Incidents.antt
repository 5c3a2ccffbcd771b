-- ===== src/Alerting/Incidents.antt =====
-- Opening and closing incidents and sending notifications: `notify`, `parentDown`, `failing` and
-- `evaluateAlertRules` of engine/src/services/alerting.ts.
use looksee.Prelude.{
  ℕ, String, Bool, true, false, not, ◌&&◌, ◌||◌, Option, none, some, List, [], ◌∷◌, ◌===◌, leb,
  length, take, keep, every, find, map, includes, if◌then◌else◌,
}
use looksee.Thresholds.{Status, down, warn, unknown}
use looksee.Timeouts.{ResultInput}
use looksee.Alerting.Tables.{
  Check, CheckResult, TriggerOn, on_down, on_warn, AlertRule, AlertEvent, ChannelLink, Channel,
  Occasion, triggered, resolved, Sent, Db, is_null, update_event,
}

-- `escalationOnly ? l.escalation : !l.escalation || includeEscalation`
unfoldable pub chosen : Bool → Bool → ChannelLink → Bool
chosen include_escalation escalation_only l =
    if escalation_only then l.escalation else not l.escalation || include_escalation

abbrev pub is_enabled_channel : Option Channel → Bool
is_enabled_channel none = false
is_enabled_channel (some c) = c.enabled

-- The loop over the chosen links. A delivery that fails is logged and the loop goes on, so that
-- each enabled channel gets one attempt.
unfoldable pub deliver_all :
    List ChannelLink → List Channel → String → Occasion → Status → List Sent → List Sent
deliver_all [] channels rule occasion status outbox = outbox
deliver_all (l ∷ ls) channels rule occasion status outbox =
    let sent : Sent = record {
      channel_id = l.channel_id;
      rule_id = rule;
      occasion = occasion;
      status = status;
    } in
    deliver_all ls channels rule occasion status (
      if is_enabled_channel (find (λ c. c.id === l.channel_id) channels)
      then sent ∷ outbox
      else outbox)

unfoldable pub notify : String → Occasion → Status → Bool → Bool → Db → Db
notify rule occasion status include_escalation escalation_only db =
    let links = keep (λ l. l.rule_id === rule) db.links in
    record db {
      outbox =
          deliver_all (keep (chosen include_escalation escalation_only) links) db.channels rule
            occasion status db.outbox;
    }

abbrev pub is_down_check : Check → Bool
is_down_check c = elim c.last_status [ none ↦ false | some s ↦ elim s [ down ↦ true | _ ↦ false ] ]

-- Is a check that this one depends on down? (The source returns its name, for the log.)
unfoldable pub parent_down : String → Db → Bool
parent_down id db =
    let deps = map (λ d. d.depends_on) (keep (λ d. d.check_id === id) db.dependencies) in
    not (is_null (find is_down_check (keep (λ c. includes deps c.id) db.checks)))

unfoldable pub failing : Status → TriggerOn → Bool
failing down t = true
failing warn on_warn = true
failing warn on_down = false
failing _ t = false

-- The check's latest results outside maintenance, as many as the rule asks for.
abbrev pub recent_results : String → AlertRule → List CheckResult → List CheckResult
recent_results check_id rule results =
    take rule.consecutive_failures
      (keep (λ r. r.check_id === check_id && not r.in_maintenance) results)

unfoldable pub all_failing : String → AlertRule → List CheckResult → Bool
all_failing check_id rule results =
    let recent = recent_results check_id rule results in
    leb rule.consecutive_failures (length recent)
    && every (λ r. failing r.status rule.trigger_on) recent

abbrev pub is_open_for : String → AlertEvent → Bool
is_open_for rule e = e.rule_id === rule && is_null e.resolved_at

unfoldable pub open_event : String → List AlertEvent → Option AlertEvent
open_event rule events = find (is_open_for rule) events

abbrev pub severity_of : Status → Status
severity_of warn = warn
severity_of _ = down

unfoldable pub open_incident : String → ℕ → Status → Db → Db
open_incident rule now severity db = record db {
  events =
      record {
        id = length db.events;
        rule_id = rule;
        triggered_at = now;
        resolved_at = none;
        severity = severity;
        last_notified_at = some now;
        escalated_at = none;
      }
      ∷ db.events;
}

unfoldable pub close_incident : ℕ → ℕ → Db → Db
close_incident id now db = record db {
  events = update_event id (λ e. record e { resolved_at = some now }) db.events;
}

abbrev pub recovered : Status → TriggerOn → Bool
recovered unknown t = false
recovered s t = not (failing s t)

-- One round of the loop in `evaluateAlertRules`.
unfoldable pub evaluate_rule : Check → ResultInput → Bool → ℕ → AlertRule → Db → Db
evaluate_rule check latest blocked now rule db = elim (open_event rule.id db.events) [
  | none ↦
      if all_failing check.id rule db.results && not blocked && not check.flapping
      then notify rule.id triggered (severity_of latest.status) false false
          (open_incident rule.id now (severity_of latest.status) db)
      else db
  | some e ↦
      if recovered latest.status rule.trigger_on
      then notify rule.id resolved latest.status (not (is_null e.escalated_at)) false
          (close_incident e.id now db)
      else db
]

unfoldable pub evaluate_rules : Check → ResultInput → Bool → ℕ → List AlertRule → Db → Db
evaluate_rules check latest blocked now [] db = db
evaluate_rules check latest blocked now (rule ∷ rules) db =
    evaluate_rules check latest blocked now rules (evaluate_rule check latest blocked now rule db)

unfoldable pub evaluate_alert_rules : Check → ResultInput → ℕ → Db → Db
evaluate_alert_rules check latest now db =
    evaluate_rules check latest (parent_down check.id db) now
      (keep (λ r. r.check_id === check.id && r.enabled) db.rules) db
