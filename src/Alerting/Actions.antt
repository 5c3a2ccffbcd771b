-- ===== src/Alerting/Actions.antt =====
-- `processOpenAlerts` of engine/src/services/alerting.ts told for one incident: what a run does
-- about it.
use looksee.Prelude.{
  ℕ, ◌+◌, ◌*◌, ◌≡◌, refl, sym, ap, ◌∙◌, inl, inr, String, Bool, false, not, ◌&&◌, ◌||◌, Option,
  none, some, List, [], ◌∷◌, ◌++◌, ◌==◌, ◌===◌, leb, ltb, keep, find, or_else, if◌then◌else◌, arith,
  Bool-cases, Option-cases,
}
use mathlib.Core.List.{append_assoc}
use looksee.Thresholds.{Status}
use looksee.Alerting.Tables.{
  Check, AlertRule, AlertEvent, ChannelLink, Channel, Occasion, escalated, reminder, Sent, Db,
  is_null, find_check, update_event,
}
use looksee.Alerting.Incidents.{chosen, is_enabled_channel, deliver_all, notify}
use looksee.Alerting.Timer.{
  minutes_over, set_escalated, set_notified, escalates, reminds, tick_event, process_event,
}

-- What a run does about an incident: nothing, or a message of the rule with this status, which is
-- the escalation, or a reminder of an incident that has escalated or not.
pub data Action : Type 0 where
  leave : Action
  escalate : String → Status → Action
  remind : String → Status → Bool → Action

-- Whether a number of minutes that is set, and not 0, is over since an instant.
abbrev pub is_over : Option ℕ → ℕ → ℕ → Bool
is_over none since now = false
is_over (some m) since now = ltb 0 m && leb (since + m * 60000) now

-- The escalation, once for an incident, goes before a reminder.
abbrev pub timed : AlertRule → Status → AlertEvent → ℕ → Action
timed rule status e now =
    if is_null e.escalated_at && is_over rule.escalate_after_minutes e.triggered_at now
    then escalate rule.id status
    else if is_over rule.renotify_minutes (or_else e.last_notified_at e.triggered_at) now
    then remind rule.id status (not (is_null e.escalated_at))
    else leave

abbrev pub written : ℕ → Action → AlertEvent → AlertEvent
written now leave e = e
written now (escalate rule status) e = record e { escalated_at = some now }
written now (remind rule status was) e = record e { last_notified_at = some now }

-- The messages to the enabled channels of some links, the newest first.
abbrev pub messages : List Channel → String → Occasion → Status → List ChannelLink → List Sent
messages channels rule occasion status [] = []
messages channels rule occasion status (l ∷ ls) =
    messages channels rule occasion status ls
    ++ (if is_enabled_channel (find (λ c. c.id === l.channel_id) channels)
        then record {
          channel_id = l.channel_id;
          rule_id = rule;
          occasion = occasion;
          status = status;
        }
          ∷ []
        else [])

abbrev pub links_of : Db → String → List ChannelLink
links_of db rule = keep (λ l. l.rule_id === rule) db.links

-- The escalation goes to the links that are marked for it, a reminder to the others, and to the
-- marked ones too once the incident has escalated.
abbrev pub sent_for : Db → Action → List Sent
sent_for db leave = []
sent_for db (escalate rule status) =
    messages db.channels rule escalated status (keep (λ l. l.escalation) (links_of db rule))
sent_for db (remind rule status was) =
    messages db.channels rule reminder status
      (keep (λ l. not l.escalation || was) (links_of db rule))

deliver_all-messages :
    (ls : List ChannelLink) (channels : List Channel) (rule : String) (occasion : Occasion)
    (status : Status) (outbox : List Sent)
    → deliver_all ls channels rule occasion status outbox
      ≡ messages channels rule occasion status ls ++ outbox
unfolding deliver_all
deliver_all-messages [] channels rule occasion status outbox = refl
deliver_all-messages (l ∷ ls) channels rule occasion status outbox =
    elim (Bool-cases (is_enabled_channel (find (λ c. c.id === l.channel_id) channels))) [
      | inl on ↦ rw on (
          deliver_all-messages ls channels rule occasion status (_ ∷ outbox)
          ∙ sym (append_assoc (messages channels rule occasion status ls) (_ ∷ []) outbox))
      | inr off ↦ rw off (
          deliver_all-messages ls channels rule occasion status outbox
          ∙ sym (append_assoc (messages channels rule occasion status ls) [] outbox))
    ]

update_event-leave : (id : ℕ) (es : List AlertEvent) → update_event id (λ e. e) es ≡ es
unfolding update_event
update_event-leave id [] = refl
update_event-leave id (e ∷ es) = elim (Bool-cases (e.id == id)) [
  | inl m ↦ rw m (ap (λ r. e ∷ r) (update_event-leave id es))
  | inr m ↦ rw m (ap (λ r. e ∷ r) (update_event-leave id es))
]

-- The tables with these events and messages.
abbrev pub with : Db → List AlertEvent → List Sent → Db
with db es outbox = record db { events = es; outbox = outbox }

-- The tables after an action.
abbrev pub acted : Db → ℕ → AlertEvent → Action → List AlertEvent → List Sent → Db
acted db now e a es outbox =
    with db (update_event e.id (written now a) es) (sent_for db a ++ outbox)

acted-leave :
    (db : Db) (now : ℕ) (e : AlertEvent) (es : List AlertEvent) (outbox : List Sent)
    → with db es outbox ≡ acted db now e leave es outbox
acted-leave db now e es outbox = ap (λ xs. with db xs outbox) (sym (update_event-leave e.id es))

minutes_over-is_over :
    (o : Option ℕ) (since now : ℕ) → minutes_over o since now ≡ is_over o since now
minutes_over-is_over none since now = refl
minutes_over-is_over (some m) since now = ground arith

tick_event-acted :
    (db : Db) (rule : AlertRule) (c : Check) (e : AlertEvent) (now : ℕ) (es : List AlertEvent)
    (outbox : List Sent)
    → tick_event rule c e now (with db es outbox)
      ≡ acted db now e (timed rule (or_else c.last_status e.severity) e now) es outbox
unfolding tick_event notify chosen escalates reminds
tick_event-acted db rule c e now es outbox =
    let status = or_else c.last_status e.severity in
    let over = minutes_over-is_over rule.escalate_after_minutes e.triggered_at now in
    let again =
      minutes_over-is_over rule.renotify_minutes (or_else e.last_notified_at e.triggered_at) now in
    let due = is_null e.escalated_at && is_over rule.escalate_after_minutes e.triggered_at now in
    rw (over, again)
      (elim (Bool-cases due) [
        | inl x ↦ rw x (
            ap (with db (update_event e.id (set_escalated now) es)) (
              deliver_all-messages (keep (λ l. l.escalation) (links_of db rule.id)) db.channels
                rule.id escalated status outbox))
        | inr x ↦
            elim (Bool-cases
              (is_over rule.renotify_minutes (or_else e.last_notified_at e.triggered_at) now)) [
                | inl y ↦
                    rw (x, y)
                      (ap (with db (update_event e.id (set_notified now) es)) (
                        deliver_all-messages
                          (keep (λ l. not l.escalation || not (is_null e.escalated_at))
                            (links_of db rule.id))
                          db.channels rule.id reminder status outbox))
                | inr y ↦ rw (x, y) (acted-leave db now e es outbox)
              ]
      ])

module _ (in_maintenance : Check → ℕ → Bool) where
  -- Of a rule that is there and enabled, and whose check is there and not in maintenance.
  abbrev of_check : AlertRule → AlertEvent → ℕ → Option Check → Action
  of_check rule e now none = leave
  of_check rule e now (some c) =
      if rule.enabled && not (in_maintenance c now)
      then timed rule (or_else c.last_status e.severity) e now
      else leave

  abbrev of_rule : Db → AlertEvent → ℕ → Option AlertRule → Action
  of_rule db e now none = leave
  of_rule db e now (some rule) = of_check rule e now (find_check rule.check_id db.checks)

  abbrev pub action : Db → ℕ → AlertEvent → Action
  action db now e = of_rule db e now (find (λ r. r.id === e.rule_id) db.rules)

  pub process_event-acted :
      (db : Db) (e : AlertEvent) (now : ℕ) (es : List AlertEvent) (outbox : List Sent)
      → process_event in_maintenance e now (with db es outbox)
        ≡ acted db now e (action db now e) es outbox
  unfolding process_event
  process_event-acted db e now es outbox =
      elim (Option-cases (find (λ r. r.id === e.rule_id) db.rules)) [
        | inl gone ↦ rw (gone, process_event) (acted-leave db now e es outbox)
        | inr (rule, found) ↦ elim (Option-cases (find_check rule.check_id db.checks)) [
          | inl lost ↦ elim (Bool-cases rule.enabled) [
            | inl on ↦
                rw (found, process_event, on)
                  (rw (lost, process_event) (acted-leave db now e es outbox))
            | inr off ↦ rw (found, process_event, off) (rw lost (acted-leave db now e es outbox))
          ]
          | inr (c, known) ↦ elim (Bool-cases rule.enabled) [
            | inr off ↦ rw (found, process_event, off) (rw known (acted-leave db now e es outbox))
            | inl on ↦ elim (Bool-cases (in_maintenance c now)) [
              | inl m ↦
                  rw (found, process_event, on)
                    (rw (known, process_event, m) (acted-leave db now e es outbox))
              | inr m ↦
                  rw (found, process_event, on)
                    (rw (known, process_event, m) (tick_event-acted db rule c e now es outbox))
            ]
          ]
        ]
      ]
