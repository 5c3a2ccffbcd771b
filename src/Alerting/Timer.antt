-- ===== src/Alerting/Timer.antt =====
-- Reminders and escalation: `processOpenAlerts` of engine/src/services/alerting.ts, run once a
-- minute. The clock stands still during one run.
use looksee.Prelude.{
  ℕ, ◌-◌, ◌*◌, Bool, true, false, not, ◌&&◌, Option, none, some, List, [], ◌∷◌, ◌===◌, leb, keep,
  find, or_else, if◌then◌else◌,
}
use looksee.Alerting.Tables.{
  Check, AlertRule, AlertEvent, Db, escalated, reminder, is_null, find_check, update_event,
}
use looksee.Alerting.Incidents.{notify}

-- A setting of minutes that is set, not zero, and over since `since`.
abbrev pub minutes_over : Option ℕ → ℕ → ℕ → Bool
minutes_over none since now = false
minutes_over (some m) since now = leb 1 m && leb (m * 60000) (now - since)

abbrev pub set_escalated : ℕ → AlertEvent → AlertEvent
set_escalated now e = record e { escalated_at = some now }

abbrev pub set_notified : ℕ → AlertEvent → AlertEvent
set_notified now e = record e { last_notified_at = some now }

-- When the event counts as notified last.
abbrev pub last_notified : AlertEvent → ℕ
last_notified e = or_else e.last_notified_at e.triggered_at

unfoldable pub escalates : AlertRule → AlertEvent → ℕ → Bool
escalates rule e now =
    is_null e.escalated_at && minutes_over rule.escalate_after_minutes e.triggered_at now

unfoldable pub reminds : AlertRule → AlertEvent → ℕ → Bool
reminds rule e now = minutes_over rule.renotify_minutes (last_notified e) now

-- One open incident whose rule and check are there and whose check is not in maintenance.
unfoldable pub tick_event : AlertRule → Check → AlertEvent → ℕ → Db → Db
tick_event rule c e now db =
    let status = or_else c.last_status e.severity in
    if escalates rule e now
    then notify rule.id escalated status true true
        (record db { events = update_event e.id (set_escalated now) db.events })
    else if reminds rule e now
    then notify rule.id reminder status (not (is_null e.escalated_at)) false
        (record db { events = update_event e.id (set_notified now) db.events })
    else db

module _ (in_maintenance : Check → ℕ → Bool) where
  unfoldable pub process_event : AlertEvent → ℕ → Db → Db
  process_event e now db = elim (find (λ r. r.id === e.rule_id) db.rules) [
    | none ↦ db
    | some rule ↦ if not rule.enabled then db else elim (find_check rule.check_id db.checks) [
      | none ↦ db
      | some c ↦ if in_maintenance c now then db else tick_event rule c e now db
    ]
  ]

  unfoldable pub process_each : List AlertEvent → ℕ → Db → Db
  process_each [] now db = db
  process_each (e ∷ es) now db = process_each es now (process_event e now db)

  -- The loop runs over the incidents that were open when it began.
  unfoldable pub process_open_alerts : ℕ → Db → Db
  process_open_alerts now db = process_each (keep (λ e. is_null e.resolved_at) db.events) now db
