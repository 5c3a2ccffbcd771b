-- ===== src/Security/Own.antt =====
-- `evaluateRules` of engine/src/services/security.ts and the admin's own addresses.
use looksee.Prelude.{
  ℕ, zero, suc, String, Bool, true, ◌&&◌, ◌||◌, ◌===◌, Option, none, some, List, [], ◌∷◌, keep,
  includes, ◌≡◌, refl, ◌∙◌, inl, inr, arith, Bool-cases,
}
use looksee.Security.{
  SecurityRule, State, is_blocked, is_own_address, fires, mark_fired, note, insert_event, spared,
  respond, evaluate_one, evaluate_each, record_security_event,
}

module _ (matches : List String → String → Bool) (ip : String) where
  -- The address is the admin's own, before and after, and the blocks are the same.
  record Safe (s t : State) : Type 0 where
    still_own : is_own_address matches ip t ≡ true
    same_blocks : t.blocks ≡ s.blocks

  abbrev Recorder : Type 0
  Recorder = String → Option String → ℕ → State → Option State

  Safe-refl : (s : State) → is_own_address matches ip s ≡ true → Safe s s
  Safe-refl s own = record { still_own = own; same_blocks = refl }

  own_spared :
      (kind : String) (now : ℕ) (s : State)
      → is_own_address matches ip s ≡ true
      → spared matches kind ip now s ≡ true
  unfolding spared
  own_spared kind now s own = ground arith

  or_true : (a b : Bool) → b ≡ true → a || b ≡ true
  or_true a b h = ground arith

  respond-Safe :
      (f : Recorder) (rule : SecurityRule) (kind : String) (minutes : Option ℕ) (now : ℕ)
      (s : State)
      → is_own_address matches ip s ≡ true
      → (t : State) × (respond matches f rule kind (some ip) minutes now s ≡ some t) × Safe s t
  unfolding respond is_blocked is_own_address
  respond-Safe f rule kind none now s own = (s, refl, Safe-refl s own)
  respond-Safe f rule kind (some zero) now s own = (s, refl, Safe-refl s own)
  respond-Safe f rule kind (some (suc m)) now s own =
      let (blocked, t) = is_blocked matches ip now s in
      elim (Bool-cases (ip === "")) [
        | inl empty ↦ (s, rw empty refl, Safe-refl s own)
        | inr filled ↦ (
          t,
          rw (filled, or_true blocked (spared matches kind ip now t) (own_spared kind now t own))
              refl,
          record { still_own = own; same_blocks = refl },
        )
      ]

  note_keeps :
      (rule : SecurityRule) (t : State)
      → (is_own_address matches ip (note matches rule t) ≡ is_own_address matches ip t)
        × ((note matches rule t).blocks ≡ t.blocks)
  unfolding note is_own_address
  note_keeps rule t = elim (Bool-cases rule.notify) [
    | inl told ↦ rw told (refl, refl)
    | inr silent ↦ rw silent (refl, refl)
  ]

  evaluate_one-Safe :
      (f : Recorder) (kind : String) (now : ℕ) (rule : SecurityRule) (s : State)
      → is_own_address matches ip s ≡ true
      → (t : State) × (evaluate_one matches f kind (some ip) now rule s ≡ some t) × Safe s t
  unfolding evaluate_one mark_fired is_own_address
  evaluate_one-Safe f kind now rule s own = elim (Bool-cases (fires matches rule (some ip) now s)) [
    | inr quiet ↦ (s, rw (quiet, evaluate_one) refl, Safe-refl s own)
    | inl firing ↦
        let (t, e, safe) =
          respond-Safe f rule kind rule.block_minutes now (mark_fired matches rule (some ip) now s)
            own in
        (
          note matches rule t,
          rw (firing, e, evaluate_one) refl,
          record {
            still_own = (note_keeps rule t).0 ∙ safe.still_own;
            same_blocks = (note_keeps rule t).1 ∙ safe.same_blocks;
          },
        )
  ]

  evaluate_each-Safe :
      (f : Recorder) (kind : String) (now : ℕ) (rules : List SecurityRule) (s : State)
      → is_own_address matches ip s ≡ true
      → (t : State) × (evaluate_each matches f kind (some ip) now rules s ≡ some t) × Safe s t
  unfolding evaluate_each
  evaluate_each-Safe f kind now [] s own = (s, refl, Safe-refl s own)
  evaluate_each-Safe f kind now (rule ∷ rules) s own =
      let (u, e, first) = evaluate_one-Safe f kind now rule s own in
      let (t, d, rest) = evaluate_each-Safe f kind now rules u first.still_own in
      (
        t,
        rw (e, evaluate_each) d,
        record { still_own = rest.still_own; same_blocks = rest.same_blocks ∙ first.same_blocks },
      )

  -- Whatever event is recorded of an address that is on the allowlist or that a user has signed in
  -- from, and however often it was: recording ends, the rules block nothing, and the address stays
  -- the admin's own.
  pub record_security_event-own :
      (fuel : ℕ) (kind : String) (detail : Option String) (now : ℕ) (s : State)
      → is_own_address matches ip s ≡ true
      → (t : State) × (record_security_event matches (suc fuel) kind (some ip) detail now s
          ≡ some t)
        × (t.blocks ≡ s.blocks)
        × (is_own_address matches ip t ≡ true)
  unfolding record_security_event insert_event is_own_address
  record_security_event-own fuel kind detail now s own =
      let (t, e, safe) =
        evaluate_each-Safe (λ k a u v. record_security_event matches fuel k a none u v) kind now
          (keep (λ r. r.enabled && includes r.kinds kind) s.rules)
          (insert_event matches kind (some ip) detail now s) own in
      (t, e, safe.same_blocks, safe.still_own)
