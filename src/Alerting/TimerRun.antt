-- ===== src/Alerting/TimerRun.antt =====
-- `processOpenAlerts` of engine/src/services/alerting.ts told for each incident by itself: what a
-- run writes and what it sends.
use looksee.Prelude.{
  ℕ, ◌<◌, ◌≡◌, refl, sym, ap, ◌∙◌, inl, inr, Bool, true, false, List, [], ◌∷◌, ◌++◌, ◌==◌, keep,
  map, length, if◌then◌else◌, All, arith, Bool-cases,
}
use mathlib.Core.List.{append_assoc}
use looksee.Alerting.Tables.{Check, AlertEvent, Sent, Db, is_null, update_event}
use looksee.Alerting.Events.{Numbered}
use looksee.Alerting.Timer.{process_each, process_open_alerts}
use looksee.Alerting.Actions.{
  Action, leave, escalate, remind, written, sent_for, with, action, process_event-acted,
}

update_event-map :
    (id : ℕ) (f : AlertEvent → AlertEvent) (es : List AlertEvent)
    → update_event id f es ≡ map (λ (x : AlertEvent). if x.id == id then f x else x) es
unfolding update_event
update_event-map id f [] = refl
update_event-map id f (e ∷ es) = elim (Bool-cases (e.id == id)) [
  | inl m ↦ rw m (ap (λ r. f e ∷ r) (update_event-map id f es))
  | inr m ↦ rw m (ap (λ r. e ∷ r) (update_event-map id f es))
]

map-same : (es : List AlertEvent) → map (λ (e : AlertEvent). e) es ≡ es
map-same [] = refl
map-same (e ∷ es) = ap (λ r. e ∷ r) (map-same es)

map-twice :
    (f g : AlertEvent → AlertEvent) (es : List AlertEvent)
    → map g (map f es) ≡ map (λ (e : AlertEvent). g (f e)) es
map-twice f g [] = refl
map-twice f g (e ∷ es) = ap (λ r. g (f e) ∷ r) (map-twice f g es)

map-eq :
    (f g : AlertEvent → AlertEvent) (es : List AlertEvent)
    → All (λ (e : AlertEvent). f e ≡ g e) es
    → map f es ≡ map g es
map-eq f g [] h = refl
map-eq f g (e ∷ es) (p, h) =
    ap (λ (x : AlertEvent). x ∷ map f es) p ∙ ap (λ r. g e ∷ r) (map-eq f g es h)

written_id : (now : ℕ) (a : Action) (e : AlertEvent) → (written now a e).id ≡ e.id
written_id now leave e = refl
written_id now (escalate rule status) e = refl
written_id now (remind rule status was) e = refl

Numbered-below :
    (es : List AlertEvent) → Numbered es → All (λ (e : AlertEvent). e.id < length es) es
Numbered-below [] n = tt
Numbered-below (e ∷ es) (same, n) = (omega (arith, same), raise es (Numbered-below es n))
  where
    raise :
        (xs : List AlertEvent)
        → All (λ (e : AlertEvent). e.id < length es) xs
        → All (λ (e : AlertEvent). e.id < length (e ∷ es)) xs
    raise [] h = tt
    raise (x ∷ xs) (p, h) = (omega arith, raise xs h)

abbrev pub is_open_event : AlertEvent → Bool
is_open_event e = is_null e.resolved_at

module _ (in_maintenance : Check → ℕ → Bool) where
  abbrev pub acting : Db → ℕ → AlertEvent → AlertEvent → AlertEvent
  acting db now e x = if x.id == e.id then written now (action in_maintenance db now e) x else x

  -- What the loop over some incidents makes of a row.
  abbrev after_each : Db → ℕ → List AlertEvent → AlertEvent → AlertEvent
  after_each db now [] x = x
  after_each db now (e ∷ es) x = after_each db now es (acting db now e x)

  -- What it sends, the newest first.
  abbrev pub sent_each : Db → ℕ → List AlertEvent → List Sent
  sent_each db now [] = []
  sent_each db now (e ∷ es) = sent_each db now es ++ sent_for db (action in_maintenance db now e)

  process_each-with :
      (db : Db) (now : ℕ) (es rows : List AlertEvent) (outbox : List Sent)
      → process_each in_maintenance es now (with db rows outbox)
        ≡ with db (map (after_each db now es) rows) (sent_each db now es ++ outbox)
  unfolding process_each
  process_each-with db now [] rows outbox = ap (λ xs. with db xs outbox) (sym (map-same rows))
  process_each-with db now (e ∷ es) rows outbox =
      ap (process_each in_maintenance es now)
        (process_event-acted in_maintenance db e now rows outbox)
      ∙ process_each-with db now es
          (update_event e.id (written now (action in_maintenance db now e)) rows)
          (sent_for db (action in_maintenance db now e) ++ outbox)
      ∙ ap
          (λ xs.
            with db (map (after_each db now es) xs)
              (sent_each db now es ++ (sent_for db (action in_maintenance db now e) ++ outbox)))
          (update_event-map e.id (written now (action in_maintenance db now e)) rows)
      ∙ ap
          (λ xs.
            with db xs
              (sent_each db now es ++ (sent_for db (action in_maintenance db now e) ++ outbox)))
          (map-twice (acting db now e) (after_each db now es) rows)
      ∙ ap (with db (map (after_each db now (e ∷ es)) rows)) (
          sym (
            append_assoc (sent_each db now es) (sent_for db (action in_maintenance db now e))
              outbox))

  -- What a run makes of a row of the table: an incident that is open is acted upon.
  abbrev pub after_run : Db → ℕ → AlertEvent → AlertEvent
  after_run db now e = if is_open_event e then written now (action in_maintenance db now e) e else e

  acting-other :
      (db : Db) (now : ℕ) (e x : AlertEvent) → (x.id == e.id) ≡ false → acting db now e x ≡ x
  acting-other db now e x apart = rw apart refl

  acting-own :
      (db : Db) (now : ℕ) (e x : AlertEvent)
      → (x.id == e.id) ≡ true
      → acting db now e x ≡ written now (action in_maintenance db now e) x
  acting-own db now e x own = rw own refl

  after_each-below :
      (db : Db) (now n : ℕ) (es : List AlertEvent) (x : AlertEvent)
      → All (λ (e : AlertEvent). e.id < n) es
      → x.id ≡ n
      → after_each db now (keep is_open_event es) x ≡ x
  after_each-below db now n [] x h e = refl
  after_each-below db now n (y ∷ es) x (hy, h) e =
      let apart : (x.id == y.id) ≡ false = ground arith in
      elim (Bool-cases (is_open_event y)) [
        | inl o ↦ rw o (
            ap (after_each db now (keep is_open_event es)) (acting-other db now y x apart)
            ∙ after_each-below db now n es x h e)
        | inr o ↦ rw o (after_each-below db now n es x h e)
      ]

  -- The newest incident is acted upon without those below it.
  after_each-head :
      (db : Db) (now n : ℕ) (e : AlertEvent) (es : List AlertEvent)
      → All (λ (e : AlertEvent). e.id < n) es
      → e.id ≡ n
      → after_each db now (keep is_open_event (e ∷ es)) e ≡ after_run db now e
  after_each-head db now n e es h same = elim (Bool-cases (is_open_event e)) [
    | inl o ↦
        let own : (e.id == e.id) ≡ true = ground arith in
        rw o (
          ap (after_each db now (keep is_open_event es)) (acting-own db now e e own)
          ∙ after_each-below db now n es (written now (action in_maintenance db now e) e) h
              (written_id now (action in_maintenance db now e) e ∙ same))
    | inr o ↦ rw o (after_each-below db now n es e h same)
  ]

  after_each-tail :
      (db : Db) (now n : ℕ) (e : AlertEvent) (es rows : List AlertEvent)
      → e.id ≡ n
      → All (λ (x : AlertEvent). x.id < n) rows
      → All
          (λ (x : AlertEvent). after_each db now (keep is_open_event es) x ≡ after_run db now x)
          rows
      → All
          (λ (x : AlertEvent).
            after_each db now (keep is_open_event (e ∷ es)) x ≡ after_run db now x)
          rows
  after_each-tail db now n e es [] same h k = tt
  after_each-tail db now n e es (x ∷ rows) same (hx, h) (kx, k) =
      let apart : (x.id == e.id) ≡ false = ground arith in
      (
        elim (Bool-cases (is_open_event e)) [
          | inl o ↦
              rw o (
                ap (after_each db now (keep is_open_event es)) (acting-other db now e x apart) ∙ kx)
          | inr o ↦ rw o kx
        ],
        after_each-tail db now n e es rows same h k,
      )

  after_each-after_run :
      (db : Db) (now : ℕ) (es : List AlertEvent)
      → Numbered es
      → All
          (λ (x : AlertEvent). after_each db now (keep is_open_event es) x ≡ after_run db now x)
          es
  after_each-after_run db now [] n = tt
  after_each-after_run db now (e ∷ es) (same, n) = (
    after_each-head db now (length es) e es (Numbered-below es n) same,
    after_each-tail db now (length es) e es es same (Numbered-below es n)
        (after_each-after_run db now es n),
  )

  -- A run of the timer acts upon each open incident by itself, as its rule, its check and its own
  -- instants say when the run begins. An incident is left alone if its rule is gone or disabled, or
  -- its check gone or in maintenance. Else it escalates if it has not yet and the rule's minutes
  -- for that are over since it began; if not that, a reminder is due when the rule's minutes are
  -- over since the last message. The one sets the instant of the escalation, the other that of the
  -- last message, and both send to the enabled channels of the links that are meant. Nothing else
  -- is written, no closed incident is touched, and nothing else is sent. The incidents are numbered
  -- by their rows.
  pub process_open_alerts-acts :
      (now : ℕ) (db : Db)
      → Numbered db.events
      → process_open_alerts in_maintenance now db ≡ record db {
        events = map (after_run db now) db.events;
        outbox = sent_each db now (keep is_open_event db.events) ++ db.outbox;
      }
  unfolding process_open_alerts
  process_open_alerts-acts now db numbered =
      process_each-with db now (keep is_open_event db.events) db.events db.outbox
      ∙ ap (λ xs. with db xs (sent_each db now (keep is_open_event db.events) ++ db.outbox))
          (map-eq (after_each db now (keep is_open_event db.events)) (after_run db now) db.events
            (after_each-after_run db now db.events numbered))
