-- ===== src/Alerting/TimerLaws.antt =====
-- `processOpenAlerts` of engine/src/services/alerting.ts and the table of incidents.
use looksee.Prelude.{
  ℕ, ◌≡◌, refl, ◌∙◌, inl, inr, String, Bool, false, none, some, List, [], ◌∷◌, ◌==◌, ◌===◌, find,
  keep, All, arith, Bool-cases, Option-cases,
}
use looksee.Alerting.Tables.{Check, AlertRule, AlertEvent, Db, is_null, find_check, update_event}
use looksee.Alerting.Incidents.{notify}
use looksee.Alerting.Events.{open_count, open_count-update, Numbered, Numbered-update}
use looksee.Alerting.Transitions.{WellFormed}
use looksee.Alerting.Timer.{
  set_escalated, set_notified, escalates, reminds, tick_event, process_event, process_each,
  process_open_alerts,
}

-- What a round can do to the events: nothing, or set one of the two instants of an incident that
-- has not escalated, or of any incident.
data Touched (e : AlertEvent) (now : ℕ) (events : List AlertEvent) : List AlertEvent → Type 0 where
  same : Touched e now events events
  escalation :
      e.escalated_at ≡ none → Touched e now events (update_event e.id (set_escalated now) events)
  notice : Touched e now events (update_event e.id (set_notified now) events)

tick_event-Touched :
    (rule : AlertRule) (c : Check) (e : AlertEvent) (now : ℕ) (db : Db)
    → Touched e now db.events (tick_event rule c e now db).events
unfolding tick_event notify
tick_event-Touched rule c e now db = elim (Bool-cases (escalates rule e now)) [
  | inl x ↦ rw x (escalation (unfold escalates in ground arith))
  | inr x ↦ elim (Bool-cases (reminds rule e now)) [
    | inl y ↦ rw (x, y) notice
    | inr y ↦ rw (x, y) same
  ]
]

module _ (in_maintenance : Check → ℕ → Bool) where
  process_event-Touched :
      (e : AlertEvent) (now : ℕ) (db : Db)
      → Touched e now db.events (process_event in_maintenance e now db).events
  unfolding process_event
  process_event-Touched e now db = elim (Option-cases (find (λ r. r.id === e.rule_id) db.rules)) [
    | inl gone ↦ rw (gone, process_event) same
    | inr (rule, found) ↦ elim (Bool-cases rule.enabled) [
      | inr off ↦ rw (found, process_event, off) same
      | inl on ↦ elim (Option-cases (find_check rule.check_id db.checks)) [
        | inl lost ↦ rw (found, process_event, on) (rw (lost, process_event) same)
        | inr (c, known) ↦ elim (Bool-cases (in_maintenance c now)) [
          | inl m ↦ rw (found, process_event, on) (rw (known, process_event, m) same)
          | inr m ↦
              rw (found, process_event, on)
                (rw (known, process_event, m) (tick_event-Touched rule c e now db))
        ]
      ]
    ]
  ]

Touched-open_count :
    {e : AlertEvent} {now : ℕ} {es es' : List AlertEvent} (rule : String)
    → Touched e now es es'
    → open_count rule es' ≡ open_count rule es
Touched-open_count rule same = refl
Touched-open_count {e} {now} {es} rule (escalation p) =
    open_count-update rule e.id (set_escalated now) es (λ e. refl)
Touched-open_count {e} {now} {es} rule notice =
    open_count-update rule e.id (set_notified now) es (λ e. refl)

Touched-Numbered :
    {e : AlertEvent} {now : ℕ} {es es' : List AlertEvent}
    → Touched e now es es'
    → Numbered es
    → Numbered es'
Touched-Numbered same n = n
Touched-Numbered {e} {now} {es} (escalation p) n =
    Numbered-update e.id (set_escalated now) es (λ e. refl) n
Touched-Numbered {e} {now} {es} notice n = Numbered-update e.id (set_notified now) es (λ e. refl) n

-- The events numbered `id` escalated at `t`.
abbrev pub EscalatedAt : ℕ → ℕ → List AlertEvent → Type 0
EscalatedAt id t = All (λ e. e.id ≡ id → e.escalated_at ≡ some t)

EscalatedAt-other :
    (id t now other : ℕ) (es : List AlertEvent)
    → (other == id) ≡ false
    → EscalatedAt id t es
    → EscalatedAt id t (update_event other (set_escalated now) es)
unfolding update_event
EscalatedAt-other id t now other [] ne h = tt
EscalatedAt-other id t now other (e ∷ es) ne (p, h) = elim (Bool-cases (e.id == other)) [
  | inl m ↦ rw m ((λ q. absurd (ground arith)), EscalatedAt-other id t now other es ne h)
  | inr m ↦ rw m (p, EscalatedAt-other id t now other es ne h)
]

EscalatedAt-notified :
    (id t now other : ℕ) (es : List AlertEvent)
    → EscalatedAt id t es
    → EscalatedAt id t (update_event other (set_notified now) es)
unfolding update_event
EscalatedAt-notified id t now other [] h = tt
EscalatedAt-notified id t now other (e ∷ es) (p, h) = elim (Bool-cases (e.id == other)) [
  | inl m ↦ rw m (p, EscalatedAt-notified id t now other es h)
  | inr m ↦ rw m (p, EscalatedAt-notified id t now other es h)
]

Touched-EscalatedAt :
    {e : AlertEvent} {now : ℕ} {es es' : List AlertEvent} (id t : ℕ)
    → (e.id ≡ id → e.escalated_at ≡ some t)
    → Touched e now es es'
    → EscalatedAt id t es
    → EscalatedAt id t es'
Touched-EscalatedAt id t once same h = h
Touched-EscalatedAt {e} {now} {es} id t once (escalation p) h = elim (Bool-cases (e.id == id)) [
  | inl m ↦ absurd (ground (arith, once))
  | inr m ↦ EscalatedAt-other id t now e.id es m h
]
Touched-EscalatedAt {e} {now} {es} id t once notice h = EscalatedAt-notified id t now e.id es h

All-keep {ℓ} :
    {A : Type ℓ} (P : A → Type 0) (test : A → Bool) (xs : List A) → All P xs → All P (keep test xs)
All-keep P test [] h = tt
All-keep P test (x ∷ xs) (p, h) = elim (Bool-cases (test x)) [
  | inl t ↦ rw t (p, All-keep P test xs h)
  | inr t ↦ rw t (All-keep P test xs h)
]

module _ (in_maintenance : Check → ℕ → Bool) where
  process_each-open_count :
      (rule : String) (es : List AlertEvent) (now : ℕ) (db : Db)
      → open_count rule (process_each in_maintenance es now db).events ≡ open_count rule db.events
  unfolding process_each
  process_each-open_count rule [] now db = refl
  process_each-open_count rule (e ∷ es) now db =
      process_each-open_count rule es now (process_event in_maintenance e now db)
      ∙ Touched-open_count rule (process_event-Touched in_maintenance e now db)

  process_each-Numbered :
      (es : List AlertEvent) (now : ℕ) (db : Db)
      → Numbered db.events
      → Numbered (process_each in_maintenance es now db).events
  unfolding process_each
  process_each-Numbered [] now db n = n
  process_each-Numbered (e ∷ es) now db n =
      process_each-Numbered es now (process_event in_maintenance e now db)
        (Touched-Numbered (process_event-Touched in_maintenance e now db) n)

  process_each-EscalatedAt :
      (id t : ℕ) (es : List AlertEvent) (now : ℕ) (db : Db)
      → EscalatedAt id t es
      → EscalatedAt id t db.events
      → EscalatedAt id t (process_each in_maintenance es now db).events
  unfolding process_each
  process_each-EscalatedAt id t [] now db o h = h
  process_each-EscalatedAt id t (e ∷ es) now db (p, o) h =
      process_each-EscalatedAt id t es now (process_event in_maintenance e now db) o
        (Touched-EscalatedAt id t p (process_event-Touched in_maintenance e now db) h)

  -- A run of the timer opens and closes no incident of any rule, and keeps the tables in order.
  pub process_open_alerts-open_count :
      (rule : String) (now : ℕ) (db : Db)
      → WellFormed db
      → (open_count rule (process_open_alerts in_maintenance now db).events
          ≡ open_count rule db.events)
        × WellFormed (process_open_alerts in_maintenance now db)
  unfolding process_open_alerts
  process_open_alerts-open_count rule now db w =
      let open_ones = keep (λ e. is_null e.resolved_at) db.events in
      (
        process_each-open_count rule open_ones now db,
        record {
          numbered = process_each-Numbered open_ones now db w.numbered;
          one_open = λ r. rw (process_each-open_count r open_ones now db) (w.one_open r);
        },
      )

  -- An incident escalates once: the instant at which it did is never set again.
  pub process_open_alerts-EscalatedAt :
      (id t now : ℕ) (db : Db)
      → EscalatedAt id t db.events
      → EscalatedAt id t (process_open_alerts in_maintenance now db).events
  unfolding process_open_alerts
  process_open_alerts-EscalatedAt id t now db h =
      process_each-EscalatedAt id t (keep (λ e. is_null e.resolved_at) db.events) now db
        (All-keep _ (λ e. is_null e.resolved_at) db.events h) h
