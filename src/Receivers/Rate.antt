-- ===== src/Receivers/Rate.antt =====
-- `underRateLimit` of engine/src/services/receivers/core.ts: "capped per source per second". A call
-- is a source with the second in which it is made.
use looksee.Prelude.{
  ℕ, ◌+◌, ◌-◌, ◌≤◌, ◌<◌, String, Bool, true, false, ◌&&◌, Option, none, some, List, [], ◌∷◌, ◌===◌,
  ◌==◌, leb, min, if◌then◌else◌, ◌≡◌, refl, ◌⊎◌, inl, inr, arith, Bool-cases, eq_iff, ap, sym,
}
use mathlib.Core.Path.{subst}

pub record Slot : Type 0 where
  pub second : ℕ
  pub count : ℕ

-- The map `rate`.
abbrev pub Rates : Type 0
Rates = String → Option Slot

abbrev max_events_per_source_per_sec : ℕ
max_events_per_source_per_sec = 50

abbrev set_slot : String → Slot → Rates → Rates
set_slot source r rates u = if source === u then some r else rates u

-- `!r || r.second !== second` decides whether the count starts again.
unfoldable pub next_slot : Option Slot → ℕ → Slot
next_slot none now = record { second = now; count = 1 }
next_slot (some r) now =
    if r.second == now
    then record { second = now; count = r.count + 1 }
    else record { second = now; count = 1 }

-- The answer, which is `true` for a count that starts again too.
abbrev allowed : Slot → Bool
allowed r = leb r.count max_events_per_source_per_sec

unfoldable pub under_rate_limit : String → ℕ → Rates → Bool × Rates
under_rate_limit source now rates =
    let r = next_slot (rates source) now in (allowed r, set_slot source r rates)

pub record Call : Type 0 where
  pub source : String
  pub second : ℕ

abbrev is_from : String → ℕ → Call → Bool
is_from source second c = c.source === source && c.second == second

-- The events of a source in a second: those offered, and those let through.
unfoldable pub offered : String → ℕ → List Call → ℕ
offered source second [] = 0
offered source second (c ∷ cs) =
    (if is_from source second c then 1 else 0) + offered source second cs

unfoldable pub accepted : String → ℕ → List Call → Rates → ℕ
accepted source second [] rates = 0
accepted source second (c ∷ cs) rates =
    let (answer, rates') = under_rate_limit c.source c.second rates in
    (if is_from source second c && answer then 1 else 0) + accepted source second cs rates'

-- The clock does not go back: `t` is the second of the last call.
abbrev pub Ordered : ℕ → List Call → Type 0
Ordered t [] = Unit
Ordered t (c ∷ cs) = (t ≤ c.second) × Ordered c.second cs

-- The source's last call lies in `t` or before.
abbrev NotAfter : ℕ → Option Slot → Type 0
NotAfter t none = Unit
NotAfter t (some r) = r.second ≤ t

-- How many events of the second were counted already.
abbrev used : ℕ → Option Slot → ℕ
used second none = 0
used second (some r) = if r.second == second then r.count else 0

offered-past :
    (source : String) (second t : ℕ) (cs : List Call)
    → Ordered t cs
    → second < t
    → offered source second cs ≡ 0
unfolding offered
offered-past source second t [] o h = refl
offered-past source second t (c ∷ cs) (o, os) h =
    let rest = offered-past source second c.second cs os (omega arith) in
    elim (Bool-cases (c.second == second)) [
      | inl same ↦ absurd (ground arith)
      | inr other ↦ ground (arith, rest)
    ]

past_or :
    (source : String) (second t : ℕ) (cs : List Call)
    → Ordered t cs
    → (t ≤ second) ⊎ (offered source second cs ≡ 0)
past_or source second t cs o = elim (Bool-cases (leb t second)) [
  | inl early ↦ inl (ground arith)
  | inr late ↦ inr (offered-past source second t cs o (ground arith))
]

-- One call of the source, the later ones being `more`.
one_call :
    (second now more : ℕ) (o : Option Slot)
    → NotAfter now o
    → (now ≤ second) ⊎ (more ≡ 0)
    → (if now == second && allowed (next_slot o now) then 1 else 0)
        + min more (max_events_per_source_per_sec - used second (some (next_slot o now)))
      ≡ min
          ((if now == second then 1 else 0) + more)
          (max_events_per_source_per_sec - used second o)
unfolding next_slot
one_call second now more none h past = ground arith
one_call second now more (some r) h past = ground arith

later_NotAfter : (t u : ℕ) (o : Option Slot) → t ≤ u → NotAfter t o → NotAfter u o
later_NotAfter t u none h n = tt
later_NotAfter t u (some r) h n = omega arith

next_slot-second : (o : Option Slot) (now : ℕ) → (next_slot o now).second ≡ now
unfolding next_slot
next_slot-second none now = refl
next_slot-second (some r) now = ground arith

own_slot :
    (source other : String) (now : ℕ) (rates : Rates)
    → (other === source) ≡ true
    → ((under_rate_limit other now rates).1 source ≡ some (next_slot (rates source) now))
      × ((under_rate_limit other now rates).0 ≡ allowed (next_slot (rates source) now))
unfolding under_rate_limit
own_slot source other now rates same =
    let here : rates other ≡ rates source = ap rates ((eq_iff other source).0 same) in
    (rw same (ap (λ o. some (next_slot o now)) here), ap (λ o. allowed (next_slot o now)) here)

other_slot :
    (source other : String) (now : ℕ) (rates : Rates)
    → (other === source) ≡ false
    → (under_rate_limit other now rates).1 source ≡ rates source
unfolding under_rate_limit
other_slot source other now rates differs = rw differs refl

accepted-min :
    (source : String) (second t : ℕ) (cs : List Call) (rates : Rates)
    → Ordered t cs
    → NotAfter t (rates source)
    → accepted source second cs rates
      ≡ min (offered source second cs) (max_events_per_source_per_sec - used second (rates source))
unfolding accepted offered
accepted-min source second t [] rates o h = omega arith
accepted-min source second t (c ∷ cs) rates (o, os) h =
    let rates' = (under_rate_limit c.source c.second rates).1 in
    elim (Bool-cases (c.source === source)) [
      | inl same ↦
          let (slot, answer) = own_slot source c.source c.second rates same in
          let rest = accepted-min source second c.second cs rates' os (
            subst (NotAfter c.second) (sym slot) (
              subst (λ n. n ≤ c.second) (sym (next_slot-second (rates source) c.second))
                (omega arith))) in
          let past = past_or source second c.second cs os in
          rw (same, answer, rest, slot)
            (one_call second c.second (offered source second cs) (rates source)
              (later_NotAfter t c.second (rates source) o h) past)
      | inr other ↦
          let slot = other_slot source c.source c.second rates other in
          let rest =
            accepted-min source second c.second cs rates' os (
              subst (NotAfter c.second) (sym slot)
                (later_NotAfter t c.second (rates source) o h)) in
          rw (other, rest, slot) (omega arith)
    ]

-- While the clock does not go back, exactly the first 50 events of a source in a second are let
-- through, however many it sends and whatever other sources send in between.
pub accepted-offered :
    (source : String) (second : ℕ) (cs : List Call)
    → Ordered 0 cs
    → accepted source second cs (λ u. none) ≡ min (offered source second cs) 50
accepted-offered source second cs o = accepted-min source second 0 cs (λ u. none) o tt
