-- ===== src/Security/Ends.antt =====
-- The recursion of `recordSecurityEvent`, `evaluateRules` and `blockIp` of
-- engine/src/services/security.ts.
use looksee.Prelude.{
  ℕ, zero, suc, ◌+◌, ◌*◌, String, Bool, true, ◌&&◌, ◌||◌, Option, none, some, List, [], ◌∷◌, ◌===◌,
  keep, ltb, includes, ◌≡◌, refl, inl, inr, arith, Bool-cases, eq_iff,
}
use looksee.Security.{
  SecurityRule, State, read_blocks, BlockCache, cached, is_blocked, fires, mark_fired, note,
  insert_event, insert_block, spared, respond, evaluate_one, evaluate_each, record_security_event,
}

module _ (matches : List String → String → Bool) (ip : String)
    (found : (entries : List String) → includes entries ip ≡ true → matches entries ip ≡ true) where
  -- The address is blocked, and the cache, if it is used, knows it.
  abbrev BarredIn : ℕ → Option BlockCache → List String → Type 0
  BarredIn now cache entries =
      (includes entries ip ≡ true) × (includes (cached now cache entries).entries ip ≡ true)

  abbrev Barred : ℕ → State → Type 0
  Barred now s = BarredIn now s.block_cache (read_blocks now s)

  abbrev Recorder : Type 0
  Recorder = String → Option String → ℕ → State → Option State

  barred_again :
      (now : ℕ) (c : BlockCache) (entries : List String)
      → includes entries ip ≡ true
      → includes c.entries ip ≡ true
      → includes (cached now (some c) entries).entries ip ≡ true
  barred_again now c entries h k = ground arith

  respond-Barred :
      (f : Recorder) (rule : SecurityRule) (kind : String) (minutes : Option ℕ) (now : ℕ)
      (s : State)
      → Barred now s
      → (t : State) × (respond matches f rule kind (some ip) minutes now s ≡ some t) × Barred now t
  unfolding respond is_blocked
  respond-Barred f rule kind none now s b = (s, refl, b)
  respond-Barred f rule kind (some zero) now s b = (s, refl, b)
  respond-Barred f rule kind (some (suc m)) now s (b, c) =
      let entry = cached now s.block_cache (read_blocks now s) in
      elim (Bool-cases (ip === "")) [
        | inl empty ↦ (s, rw empty refl, (b, c))
        | inr filled ↦ (
          (is_blocked matches ip now s).1,
          rw (filled, found entry.entries c) refl,
          (b, barred_again now entry (read_blocks now s) b c),
        )
      ]

  note-Barred :
      (rule : SecurityRule) (now : ℕ) (t : State) → Barred now t → Barred now (note matches rule t)
  unfolding note
  note-Barred rule now t b = elim (Bool-cases rule.notify) [
    | inl told ↦ rw told b
    | inr silent ↦ rw silent b
  ]

  evaluate_one-Barred :
      (f : Recorder) (kind : String) (now : ℕ) (rule : SecurityRule) (s : State)
      → Barred now s
      → (t : State) × (evaluate_one matches f kind (some ip) now rule s ≡ some t) × Barred now t
  unfolding evaluate_one mark_fired
  evaluate_one-Barred f kind now rule s b = elim (Bool-cases (fires matches rule (some ip) now s)) [
    | inr quiet ↦ (s, rw (quiet, evaluate_one) refl, b)
    | inl firing ↦
        let (t, e, c) =
          respond-Barred f rule kind rule.block_minutes now
            (mark_fired matches rule (some ip) now s) b in
        (note matches rule t, rw (firing, e, evaluate_one) refl, note-Barred rule now t c)
  ]

  evaluate_each-Barred :
      (f : Recorder) (kind : String) (now : ℕ) (rules : List SecurityRule) (s : State)
      → Barred now s
      → (t : State) × (evaluate_each matches f kind (some ip) now rules s ≡ some t)
  unfolding evaluate_each
  evaluate_each-Barred f kind now [] s b = (s, refl)
  evaluate_each-Barred f kind now (rule ∷ rules) s b =
      let (u, e, c) = evaluate_one-Barred f kind now rule s b in
      let (t, d) = evaluate_each-Barred f kind now rules u c in (t, rw (e, evaluate_each) d)

  record-Barred :
      (fuel : ℕ) (kind : String) (detail : Option String) (now : ℕ) (s : State)
      → Barred now s
      → (t : State) × (record_security_event matches (suc fuel) kind (some ip) detail now s
          ≡ some t)
  unfolding record_security_event insert_event
  record-Barred fuel kind detail now s b =
      evaluate_each-Barred (λ k a u v. record_security_event matches fuel k a none u v) kind now
        (keep (λ r. r.enabled && includes r.kinds kind) s.rules)
        (insert_event matches kind (some ip) detail now s) b

  insert_block-Barred : (m now : ℕ) (s : State) → Barred now (insert_block matches ip (suc m) now s)
  unfolding insert_block
  insert_block-Barred m now s =
      let ahead : ltb now (now + suc m * 60000) ≡ true = ground arith in
      let own : (ip === ip) ≡ true = (eq_iff ip ip).1 refl in
      let here : includes (read_blocks now (insert_block matches ip (suc m) now s)) ip ≡ true =
        unfold insert_block in rw (ahead, own) refl in
      (here, here)

  respond_ends :
      (fuel : ℕ) (rule : SecurityRule) (kind : String) (minutes : Option ℕ) (now : ℕ) (s : State)
      → (t : State) × (respond matches
            (λ k a u v. record_security_event matches (suc fuel) k a none u v)
            rule
            kind
            (some ip)
            minutes
            now
            s
          ≡ some t)
  unfolding respond
  respond_ends fuel rule kind none now s = (s, refl)
  respond_ends fuel rule kind (some zero) now s = (s, refl)
  respond_ends fuel rule kind (some (suc m)) now s =
      let (blocked, u) = is_blocked matches ip now s in
      elim (Bool-cases (ip === "")) [
        | inl empty ↦ (s, rw empty refl)
        | inr filled ↦ elim (Bool-cases (blocked || spared matches kind ip now u)) [
          | inl stays ↦ (u, rw (filled, stays) refl)
          | inr blocks ↦
              let (t, e) =
                record-Barred fuel "ip_blocked" none now (insert_block matches ip (suc m) now u)
                  (insert_block-Barred m now u) in
              (t, rw (filled, blocks) e)
        ]
      ]

  evaluate_each_ends :
      (fuel : ℕ) (kind : String) (now : ℕ) (rules : List SecurityRule) (s : State)
      → (t : State) × (evaluate_each matches
            (λ k a u v. record_security_event matches (suc fuel) k a none u v)
            kind
            (some ip)
            now
            rules
            s
          ≡ some t)
  unfolding evaluate_each evaluate_one
  evaluate_each_ends fuel kind now [] s = (s, refl)
  evaluate_each_ends fuel kind now (rule ∷ rules) s =
      elim (Bool-cases (fires matches rule (some ip) now s)) [
        | inr quiet ↦
            let (t, e) = evaluate_each_ends fuel kind now rules s in
            (t, rw (quiet, evaluate_each, evaluate_one) e)
        | inl firing ↦
            let (u, d) =
              respond_ends fuel rule kind rule.block_minutes now
                (mark_fired matches rule (some ip) now s) in
            let (t, e) = evaluate_each_ends fuel kind now rules (note matches rule u) in
            (t, rw (firing, d, evaluate_each, evaluate_one) e)
      ]

  -- Recording an event of an address ends within two levels: the event of a block finds the address
  -- blocked, and blocks it no more. `found` is what the list of blocks is for: an address that is
  -- an entry is in the list.
  pub record_security_event-ends :
      (fuel : ℕ) (kind : String) (detail : Option String) (now : ℕ) (s : State)
      → (t : State) × (record_security_event matches (suc (suc fuel)) kind (some ip) detail now s
          ≡ some t)
  unfolding record_security_event
  record_security_event-ends fuel kind detail now s =
      evaluate_each_ends fuel kind now (keep (λ r. r.enabled && includes r.kinds kind) s.rules)
        (insert_event matches kind (some ip) detail now s)
