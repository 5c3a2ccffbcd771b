-- ===== src/Security/Gate/Noted.antt =====
-- `noteBlocked` of engine/src/middleware/securityGate.ts: how often a refusal is recorded.
use looksee.Prelude.{
  ℕ, ◌+◌, ◌-◌, ◌≤◌, ◌≡◌, refl, ap, ◌∙◌, inl, inr, String, true, false, not, Option, none, some,
  List, [], ◌∷◌, ◌===◌, ltb, length, keep, or_else, if◌then◌else◌, arith, Bool-cases, eq_iff,
}
use mathlib.Core.Path.{subst}
use looksee.Security.Gate.{blocked_note_every_ms, Noted, get, put, is_old, forget_old, note_refusal}

-- A refused request: its address and instant.
pub record Refusal : Type 0 where
  pub ip : String
  pub now : ℕ

-- The instants at which a refusal of an address is recorded.
unfoldable pub recorded : String → List Refusal → Noted → List ℕ
recorded ip [] noted = []
recorded ip (r ∷ rs) noted =
    let (told, noted') = note_refusal r.ip r.now noted in
    let later = recorded ip rs noted' in
    if told then (if r.ip === ip then r.now ∷ later else later) else later

-- The clock does not go back behind `t`.
abbrev pub InOrder : ℕ → List Refusal → Type 0
InOrder t [] = Unit
InOrder t (r ∷ rs) = (t ≤ r.now) × InOrder r.now rs

-- A minute lies between each two.
abbrev pub Spaced : List ℕ → Type 0
Spaced [] = Unit
Spaced (a ∷ []) = Unit
Spaced (a ∷ b ∷ ns) = (a + 60000 ≤ b) × Spaced (b ∷ ns)

abbrev SpacedFrom : Option ℕ → List ℕ → Type 0
SpacedFrom last [] = Unit
SpacedFrom none (n ∷ ns) = SpacedFrom (some n) ns
SpacedFrom (some t) (n ∷ ns) = (t + 60000 ≤ n) × SpacedFrom (some n) ns

get-put :
    (ip k : String) (now : ℕ) (noted : Noted)
    → get k (put ip now noted) ≡ (if ip === k then some now else get k noted)
unfolding get put
get-put ip k now [] = refl
get-put ip k now ((j, t) ∷ noted) =
    ground (arith, eq_iff j ip, eq_iff j k, eq_iff ip k, get-put ip k now noted)

abbrev pub DistinctAddresses : Noted → Type 0
DistinctAddresses [] = Unit
DistinctAddresses ((k, t) ∷ noted) = (get k noted ≡ none) × DistinctAddresses noted

put-DistinctAddresses :
    (ip : String) (now : ℕ) (noted : Noted)
    → DistinctAddresses noted
    → DistinctAddresses (put ip now noted)
unfolding put get
put-DistinctAddresses ip now [] h = (refl, tt)
put-DistinctAddresses ip now ((k, t) ∷ noted) (new, h) = elim (Bool-cases (k === ip)) [
  | inl own ↦ rw own (new, h)
  | inr other ↦ rw other (
    ground (arith, get-put ip k now noted, eq_iff ip k, eq_iff k ip),
    put-DistinctAddresses ip now noted h,
  )
]

-- What the removal of old entries leaves of one.
abbrev still : ℕ → Option ℕ → Option ℕ
still now none = none
still now (some t) = if ltb blocked_note_every_ms (now - t) then none else some t

get-keep :
    (k : String) (now : ℕ) (noted : Noted)
    → DistinctAddresses noted
    → get k (keep (λ e. not (is_old now e)) noted) ≡ still now (get k noted)
unfolding get
get-keep k now [] h = refl
get-keep k now ((j, t) ∷ noted) (new, h) = elim (Bool-cases (j === k)) [
  | inr other ↦ elim (Bool-cases (is_old now (j, t))) [
    | inl old ↦ rw (old, other) (get-keep k now noted h)
    | inr young ↦ rw (young, other) (get-keep k now noted h)
  ]
  | inl own ↦ elim (Bool-cases (is_old now (j, t))) [
    | inl old ↦ rw (own, old) (get-keep k now noted h ∙ ap (still now) (unknown own))
    | inr young ↦ rw (own, young) (rw own refl)
  ]
]
  where
    unknown : j === k ≡ true → get k noted ≡ none
    unknown own = subst (λ x. get x noted ≡ none) ((eq_iff j k).0 own) new

keep-DistinctAddresses :
    (now : ℕ) (noted : Noted)
    → DistinctAddresses noted
    → DistinctAddresses (keep (λ e. not (is_old now e)) noted)
unfolding get
keep-DistinctAddresses now [] h = tt
keep-DistinctAddresses now ((k, t) ∷ noted) (new, h) = elim (Bool-cases (is_old now (k, t))) [
  | inl old ↦ rw old (keep-DistinctAddresses now noted h)
  | inr young ↦
      rw young (get-keep k now noted h ∙ ap (still now) new, keep-DistinctAddresses now noted h)
]

-- What is known of an address whose last recorded refusal is `last`: that, or it is a minute old.
abbrev Knows : ℕ → Option ℕ → Option ℕ → Type 0
Knows now none seen = Unit
Knows now (some t) none = t + 60000 ≤ now
Knows now (some t) (some s) = s ≡ t

forget-Knows :
    (now : ℕ) (last : Option ℕ) (k : String) (noted : Noted)
    → DistinctAddresses noted
    → Knows now last (get k noted)
    → Knows now last (get k (forget_old now noted)) × DistinctAddresses (forget_old now noted)
unfolding forget_old
forget-Knows now last k noted d h = elim (Bool-cases (ltb 10000 (length noted))) [
  | inr few ↦ rw few (h, d)
  | inl many ↦ rw many (
    rw (get-keep k now noted d) (still-Knows last (get k noted) h),
    keep-DistinctAddresses now noted d,
  )
]
  where
    still-Knows : (last seen : Option ℕ) → Knows now last seen → Knows now last (still now seen)
    still-Knows none seen h = tt
    still-Knows (some t) none h = h
    still-Knows (some t) (some s) h = ground arith

Knows-own :
    (a ip : String) (now : ℕ) (noted : Noted)
    → a === ip ≡ true
    → Knows now (some now) (get ip (put a now noted))
Knows-own a ip now noted own = rw (get-put a ip now noted) (rw own refl)

Knows-other :
    (a ip : String) (now : ℕ) (noted : Noted) (last : Option ℕ)
    → a === ip ≡ false
    → Knows now last (get ip noted)
    → Knows now last (get ip (put a now noted))
Knows-other a ip now noted last other k = rw (get-put a ip now noted) (rw other k)

-- Time goes on.
Knows-later :
    (now later : ℕ) (last seen : Option ℕ)
    → now ≤ later
    → Knows now last seen
    → Knows later last seen
Knows-later now later none seen h k = tt
Knows-later now later (some t) none h k = omega arith
Knows-later now later (some t) (some s) h k = k

-- A refusal that is recorded comes a minute after the last one, or is the first.
SpacedFrom-next :
    (now : ℕ) (last seen : Option ℕ) (later : List ℕ)
    → Knows now last seen
    → ltb (now - or_else seen 0) blocked_note_every_ms ≡ false
    → SpacedFrom (some now) later
    → SpacedFrom last (now ∷ later)
SpacedFrom-next now none seen later k new h = h
SpacedFrom-next now (some t) none later k new h = (k, h)
SpacedFrom-next now (some t) (some s) later k new h = (ground arith, h)

recorded-SpacedFrom :
    (ip : String) (t : ℕ) (rs : List Refusal) (noted : Noted) (last : Option ℕ)
    → InOrder t rs
    → DistinctAddresses noted
    → Knows t last (get ip noted)
    → SpacedFrom last (recorded ip rs noted)
unfolding recorded note_refusal
recorded-SpacedFrom ip t [] noted last order d k = tt
recorded-SpacedFrom ip t (r ∷ rs) noted last (le, order) d k =
    let known = Knows-later t r.now last (get ip noted) le k in
    elim (Bool-cases (ltb (r.now - or_else (get r.ip noted) 0) blocked_note_every_ms)) [
      | inl silent ↦ rw silent (recorded-SpacedFrom ip r.now rs noted last order d known)
      | inr told ↦
          let noted' = put r.ip r.now noted in
          let d' = put-DistinctAddresses r.ip r.now noted d in
          rw told (elim (Bool-cases (r.ip === ip)) [
            | inl own ↦
                let (k', d'') =
                  forget-Knows r.now (some r.now) ip noted' d'
                    (Knows-own r.ip ip r.now noted own) in
                rw own (
                  SpacedFrom-next r.now last (get ip noted)
                    (recorded ip rs (forget_old r.now noted')) known
                    (subst
                      (λ (x : String).
                        ltb (r.now - or_else (get x noted) 0) blocked_note_every_ms ≡ false)
                      ((eq_iff r.ip ip).0 own) told)
                    (recorded-SpacedFrom ip r.now rs (forget_old r.now noted') (some r.now) order
                      d'' k'))
            | inr other ↦
                let (k', d'') =
                  forget-Knows r.now last ip noted' d'
                    (Knows-other r.ip ip r.now noted last other known) in
                rw other
                  (recorded-SpacedFrom ip r.now rs (forget_old r.now noted') last order d'' k')
          ])
    ]

Spaced-from : (ns : List ℕ) (last : Option ℕ) → SpacedFrom last ns → Spaced ns
Spaced-from [] last h = tt
Spaced-from (a ∷ []) last h = tt
Spaced-from (a ∷ b ∷ ns) none (le, h) = (le, Spaced-from (b ∷ ns) (some a) (le, h))
Spaced-from (a ∷ b ∷ ns) (some t) (first, (le, h)) = (le, Spaced-from (b ∷ ns) (some a) (le, h))

-- However often blocked addresses ask, and from however many of them, a refusal of one address is
-- recorded at most once a minute, while the clock does not go back: that old entries are forgotten
-- lets no second one in. The map starts with at most one entry for each address.
pub recorded-Spaced :
    (ip : String) (t : ℕ) (rs : List Refusal) (noted : Noted)
    → InOrder t rs
    → DistinctAddresses noted
    → Spaced (recorded ip rs noted)
recorded-Spaced ip t rs noted order d =
    Spaced-from (recorded ip rs noted) none (recorded-SpacedFrom ip t rs noted none order d tt)
