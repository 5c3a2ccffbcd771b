-- ===== src/Tests/Alerts.antt =====
-- Incidents of two checks, the second recovering together with the first.
use looksee.Prelude.{
  keep, ◌++◌, ℕ, ◌<◌, ◌≡◌, refl, String, Bool, true, false, not, Option, none, some, List, [], ◌∷◌,
  ◌===◌, map, arith, if◌then◌else◌,
}
use looksee.Prelude.Text.{codes}
use looksee.Thresholds.{Status, up, down}
use looksee.Timeouts.{ResultInput, not_finite, judge_timeout, is_timeout_message}
use looksee.Alerting.Tables.{
  Check, CheckResult, AlertRule, on_down, Sent, triggered, escalated, Db, update_check,
  update_event,
}
use looksee.Alerting.Incidents.{
  recovered, all_failing, failing, open_event, notify, deliver_all, chosen, parent_down,
  evaluate_rule, evaluate_rules, evaluate_alert_rules, open_incident, close_incident,
}
use looksee.Alerting.Events.{open_count}
use looksee.Alerting.Transitions.{WellFormed, is_open, triggers, is_open-evaluate_rule}
use looksee.Alerting.Record.{
  latest_results, changes, judged_input, set_row, is_flapping, flaps, recovers, record_check_result,
  record_found, store_result, insert_result, update_row, judge_rules, resolve_followers,
  resolve_each, resolve_with, mark_resolved,
}
use looksee.Alerting.Cascade.{troubled, record_check_result_ends}
use looksee.Alerting.OneOpen.{record_check_result-WellFormed}
use looksee.Alerting.Timer.{
  process_open_alerts, process_each, process_event, tick_event, escalates, reminds,
}
use looksee.Alerting.TimerLaws.{EscalatedAt}
use looksee.Alerting.TimerRun.{after_run, is_open_event, sent_each, process_open_alerts-acts}
use looksee.Alerting.Silence.{silent_result, Steady, record_check_result-maintenance}

alerting : Unit {0}
unfolding record_check_result record_found judged_input insert_result is_flapping latest_results
    changes flaps store_result update_row update_check judge_rules evaluate_alert_rules
    evaluate_rules evaluate_rule all_failing failing open_event notify deliver_all chosen
    parent_down open_incident close_incident update_event resolve_followers resolve_each
    resolve_with mark_resolved
alerting = tt

abbrev pub never : Check → ℕ → Bool
never c now = false

abbrev always : Check → ℕ → Bool
always c now = true

abbrev pub router : Check
router = record {
  id = "c1";
  site_id = "s1";
  name = codes "router";
  type = "tcp";
  interval_seconds = 60;
  enabled = true;
  last_run_at = none;
  retry_interval_seconds = some 20;
  probe_endpoint_id = none;
  auto_recover = none;
  timeout_setting = not_finite;
  recover_with = none;
  last_status = some down;
  last_message = none;
  last_checked_at = none;
  last_status_change_at = none;
  flapping = false;
  resolved_at = none;
  resolved_by = none;
}

abbrev nas : Check
nas = record router { id = "c2"; name = codes "nas"; recover_with = some "c1" }

abbrev rule : AlertRule
rule = record {
  id = "r1";
  check_id = "c1";
  consecutive_failures = 2;
  trigger_on = on_down;
  renotify_minutes = none;
  escalate_after_minutes = some 10;
  enabled = true;
}

abbrev refused : CheckResult
refused = record {
  check_id = "c1";
  status = down;
  message = some (codes "connect ECONNREFUSED");
  in_maintenance = false;
  checked_at = 0;
}

abbrev pub network : Db
network = record {
  checks = router ∷ nas ∷ [];
  results = refused ∷ [];
  rules = rule ∷ [];
  events = [];
  links =
      record { rule_id = "r1"; channel_id = "mail"; escalation = false }
      ∷ record { rule_id = "r1"; channel_id = "sms"; escalation = true }
      ∷ [];
  channels = record { id = "mail"; enabled = true } ∷ record { id = "sms"; enabled = true } ∷ [];
  dependencies = [];
  outbox = [];
}

abbrev failure : ResultInput
failure = record { status = down; message = some (codes "connect ECONNREFUSED") }

abbrev success : ResultInput
success = record { status = up; message = none }

abbrev broken : Option Db
broken = record_check_result never 3 "c1" failure 1000 network

abbrev statuses : Option Db → List (Option Status)
statuses none = []
statuses (some db) = map (λ c. c.last_status) db.checks

abbrev messages : Option Db → List Sent
messages none = []
messages (some db) = db.outbox

second_failure :
    messages broken
    ≡ record { channel_id = "mail"; rule_id = "r1"; occasion = triggered; status = down } ∷ []
unfolding alerting judge_timeout is_timeout_message
second_failure = refl

together : statuses (record_check_result never 3 "c1" success 1000 network) ≡ some up ∷ some up ∷ []
unfolding alerting
together = refl

in_order : WellFormed network
unfolding open_count
in_order = record { numbered = tt; one_open = λ r. omega arith }

-- The tables after the second failure.
abbrev alerted : Db
alerted = record network {
  checks = record router { last_message = failure.message; last_checked_at = some 1000 } ∷ nas ∷ [];
  results = record refused { checked_at = 1000 } ∷ refused ∷ [];
  events =
      record {
        id = 0;
        rule_id = "r1";
        triggered_at = 1000;
        resolved_at = none;
        severity = down;
        last_notified_at = some 1000;
        escalated_at = none;
      }
      ∷ [];
  outbox = record { channel_id = "mail"; rule_id = "r1"; occasion = triggered; status = down } ∷ [];
}

broken-alerted : broken ≡ some alerted
unfolding alerting judge_timeout is_timeout_message
broken-alerted = refl

is_open-evaluate_rule_example : is_open "r1" (evaluate_rule router failure false 5 rule network) ≡ (
    if "r1" === "r1"
    then (if is_open "r1" network
        then not (recovered down on_down)
        else triggers router failure false 5 rule network)
    else is_open "r1" network)
is_open-evaluate_rule_example =
    is_open-evaluate_rule router failure false 5 rule network "r1" in_order

record_check_result-WellFormed_example : WellFormed alerted
record_check_result-WellFormed_example =
    record_check_result-WellFormed never 3 "c1" failure 1000 network alerted broken-alerted in_order

two_troubled : troubled network.checks < 3
unfolding troubled
two_troubled = omega arith

record_check_result_ends_example :
    (db' : Db) × (record_check_result never 3 "c1" success 1000 network ≡ some db')
record_check_result_ends_example =
    record_check_result_ends never 3 "c1" success 1000 network two_troubled

alerted-WellFormed : WellFormed alerted
unfolding open_count
alerted-WellFormed = record { numbered = (refl, tt); one_open = λ r. ground arith }

process_open_alerts-acts_example : process_open_alerts never 700000 alerted ≡ record alerted {
  events = map (after_run never alerted 700000) alerted.events;
  outbox = sent_each never alerted 700000 (keep is_open_event alerted.events) ++ alerted.outbox;
}
process_open_alerts-acts_example = process_open_alerts-acts never 700000 alerted (refl, tt)

abbrev after_tick : Db
after_tick = process_open_alerts never 700000 alerted

timer : Unit {0}
unfolding process_open_alerts process_each process_event tick_event escalates reminds update_event
    notify deliver_all chosen
timer = tt

escalation-goes_to_sms :
    after_tick.outbox
    ≡ record { channel_id = "sms"; rule_id = "r1"; occasion = escalated; status = down }
      ∷ alerted.outbox
unfolding timer
escalation-goes_to_sms = refl

once : EscalatedAt 0 700000 after_tick.events
unfolding timer
once = (λ e. refl, tt)

abbrev noisy : Check
noisy = record router { flapping = true }

steady : Steady down (latest_results "c1" 21 network)
unfolding latest_results
steady = (refl, tt)

no_recovery : recovers (some down) (judged_input router failure network).status ≡ false
unfolding alerting judge_timeout is_timeout_message
no_recovery = refl

record_check_result-maintenance_example :
    (db' : Db) × (record_check_result always 1 "c1" failure 1000 network ≡ some db')
    × (db'.results
        ≡ silent_result router.id (judged_input router failure network) 1000 ∷ network.results)
    × (db'.checks
        ≡ update_check router.id
            (set_row router (judged_input router failure network) (is_flapping router db') 1000)
            network.checks)
    × (db'.events ≡ network.events)
    × (db'.outbox ≡ network.outbox)
    × ((other : String) (rule : AlertRule)
        → all_failing other rule db'.results ≡ all_failing other rule network.results)
record_check_result-maintenance_example =
    record_check_result-maintenance always 0 "c1" router failure 1000 network refl refl no_recovery
