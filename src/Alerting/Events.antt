-- ===== src/Alerting/Events.antt =====
-- The table of alert events: how many incidents of a rule are open, and what updates do to them.
use looksee.Prelude.{
  ℕ, suc, ◌+◌, ◌≤◌, ◌<◌, ◌≡◌, refl, inl, inr, String, true, some, List, [], ◌∷◌, ◌==◌, ◌===◌,
  length, if◌then◌else◌, arith, eq_iff, Bool-cases,
}
use mathlib.Core.Path.{subst}
use looksee.Alerting.Tables.{AlertEvent, is_null, update_event}
use looksee.Alerting.Incidents.{is_open_for, open_event}

unfoldable pub open_count : String → List AlertEvent → ℕ
open_count rule [] = 0
open_count rule (e ∷ es) =
    let rest = open_count rule es in if is_open_for rule e then suc rest else rest

-- Each event is numbered by the rows below it.
abbrev pub Numbered : List AlertEvent → Type 0
Numbered [] = Unit
Numbered (e ∷ es) = (e.id ≡ length es) × Numbered es

abbrev pub close : ℕ → AlertEvent → AlertEvent
close now e = record e { resolved_at = some now }

update_missing :
    (id : ℕ) (f : AlertEvent → AlertEvent) (es : List AlertEvent)
    → Numbered es
    → length es ≤ id
    → update_event id f es ≡ es
unfolding update_event
update_missing id f [] n h = refl
update_missing id f (e ∷ es) n h = ground (arith, update_missing id f es n.1)

find-id :
    (rule : String) (es : List AlertEvent) (e : AlertEvent)
    → Numbered es
    → open_event rule es ≡ some e
    → e.id < length es
unfolding open_event
find-id rule [] e n h = absurd (cc)
find-id rule (x ∷ es) e n h = elim (Bool-cases (is_open_for rule x)) [
  | inl o ↦ ground arith
  | inr o ↦ ground (arith, find-id rule es e n.1)
]

update_head :
    (f : AlertEvent → AlertEvent) (e : AlertEvent) (es : List AlertEvent)
    → Numbered (e ∷ es)
    → update_event e.id f (e ∷ es) ≡ f e ∷ es
unfolding update_event
update_head f e es n = ground (arith, update_missing e.id f es n.1)

close_head :
    (rule other : String) (x : AlertEvent) (es : List AlertEvent) (now : ℕ)
    → Numbered (x ∷ es)
    → is_open_for rule x ≡ true
    → open_count other (x ∷ es)
      ≡ open_count other (update_event x.id (close now) (x ∷ es))
        + (if rule === other then 1 else 0)
unfolding open_count
close_head rule other x es now n o =
    rw (update_head (close now) x es n)
      (ground (arith, eq_iff rule other, eq_iff x.rule_id rule, eq_iff x.rule_id other))

-- Closing the open incident of a rule takes one from that rule's count and none from another's.
pub open_count-close :
    (rule other : String) (es : List AlertEvent) (e : AlertEvent) (now : ℕ)
    → Numbered es
    → open_event rule es ≡ some e
    → open_count other es
      ≡ open_count other (update_event e.id (close now) es) + (if rule === other then 1 else 0)
unfolding open_event open_count update_event
open_count-close rule other [] e now n h = absurd (cc)
open_count-close rule other (x ∷ es) e now n h = elim (Bool-cases (is_open_for rule x)) [
  | inl o ↦
      let same : x ≡ e = ground arith in
      subst
        (λ (y : AlertEvent).
          open_count other (x ∷ es)
          ≡ open_count other (update_event y.id (close now) (x ∷ es))
            + (if rule === other then 1 else 0))
        same (close_head rule other x es now n o)
  | inr o ↦
      let found : open_event rule es ≡ some e = ground arith in
      let below = find-id rule es e n.1 found in
      ground (arith, open_count-close rule other es e now n.1 found, below)
]

length-update_event :
    (id : ℕ) (f : AlertEvent → AlertEvent) (es : List AlertEvent)
    → length (update_event id f es) ≡ length es
unfolding update_event
length-update_event id f [] = refl
length-update_event id f (e ∷ es) = ground (arith, length-update_event id f es)

pub Numbered-update :
    (id : ℕ) (f : AlertEvent → AlertEvent) (es : List AlertEvent)
    → ((e : AlertEvent) → (f e).id ≡ e.id)
    → Numbered es
    → Numbered (update_event id f es)
unfolding update_event
Numbered-update id f [] same n = tt
Numbered-update id f (e ∷ es) same n =
    ground (arith, length-update_event id f es, Numbered-update id f es same n.1, same e)

-- An update that keeps the rule, and whether the incident is open, keeps every count.
pub open_count-update :
    (rule : String) (id : ℕ) (f : AlertEvent → AlertEvent) (es : List AlertEvent)
    → ((e : AlertEvent) → is_open_for rule (f e) ≡ is_open_for rule e)
    → open_count rule (update_event id f es) ≡ open_count rule es
unfolding open_count update_event
open_count-update rule id f [] same = refl
open_count-update rule id f (e ∷ es) same =
    ground (arith, open_count-update rule id f es same, same e)

pub open_event-count :
    (rule : String) (es : List AlertEvent)
    → is_null (open_event rule es) ≡ (open_count rule es == 0)
unfolding open_event open_count
open_event-count rule [] = refl
open_event-count rule (e ∷ es) = ground (arith, open_event-count rule es)
