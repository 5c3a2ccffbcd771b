-- ===== src/Security/Gate/Answers.antt =====
-- `securityGate` of engine/src/middleware/securityGate.ts: its answer to every request.
use looksee.Prelude.{
  ℕ, suc, ◌≡◌, refl, inl, inr, String, Bool, true, not, ◌&&◌, none, some, List, if◌then◌else◌,
  includes, Bool-cases,
}
use looksee.Prelude.Text.{same}
use looksee.Security.{is_blocked}
use looksee.Security.Ends.{record_security_event-ends}
use looksee.Security.Gate.{
  always_open, Request, GateState, Answer, passed, refused_blocked, refused_not_allowed,
  allowlist_covers, is_machine_route, note_refusal, note_blocked, security_gate,
}

module _ (matches : List String → String → Bool) where
  -- The answer that a request is due.
  abbrev pub due : Request → ℕ → GateState → Answer
  due req now g =
      if same req.path always_open
      then passed
      else if (is_blocked matches req.ip now g.security).0
      then refused_blocked
      else if allowlist_covers req g && not (matches g.security.allowlist req.ip)
      then refused_not_allowed
      else passed

  note_blocked_ends :
      (req : Request) (levels now : ℕ) (g : GateState)
      → ((entries : List String) → includes entries req.ip ≡ true → matches entries req.ip ≡ true)
      → (g' : GateState) × (note_blocked matches (suc (suc levels)) req now g ≡ some g')
  unfolding note_blocked
  note_blocked_ends req levels now g found =
      let (told, noted) = note_refusal req.ip now g.noted in
      let detail = some (
        if is_machine_route req.path
        then "agent/collector/install request"
        else "dashboard/API request") in
      let (s, e) =
        record_security_event-ends matches req.ip found levels "blocked_request" detail now
          g.security in
      elim (Bool-cases ((note_refusal req.ip now g.noted).0)) [
        | inl yes_told ↦ (
          record g { security = s; noted = (note_refusal req.ip now g.noted).1 },
          rw (yes_told, e) refl,
        )
        | inr silent ↦ (g, rw silent refl)
      ]

  -- Every request gets the answer that it is due, whatever the rules make of the events that a
  -- refusal records: the path of the health check always passes, a blocked address is refused
  -- everything else, and of the other addresses those that are not on the allowlist are refused
  -- what it covers. `found` says that an address that is an entry of a list is in the list.
  pub security_gate-due :
      (req : Request) (levels now : ℕ) (g : GateState)
      → ((entries : List String) → includes entries req.ip ≡ true → matches entries req.ip ≡ true)
      → (g' : GateState) × (security_gate matches (suc (suc levels)) req now g
          ≡ some (due req now g, g'))
  unfolding security_gate is_blocked
  security_gate-due req levels now g found =
      let s = (is_blocked matches req.ip now g.security).1 in
      let seen = record g { security = s } in
      let (t, e) =
        record_security_event-ends matches req.ip found levels "allowlist_denied" none now s in
      let (u, d) = note_blocked_ends req levels now seen found in
      elim (Bool-cases (same req.path always_open)) [
        | inl health ↦ (g, rw health refl)
        | inr other ↦ elim (Bool-cases ((is_blocked matches req.ip now g.security).0)) [
          | inl blocked ↦ (u, rw (other, blocked, d) refl)
          | inr free ↦
              elim (Bool-cases
                (allowlist_covers req g && not (matches g.security.allowlist req.ip))) [
                  | inl denied ↦ (record seen { security = t }, rw (other, free, denied, e) refl)
                  | inr allowed ↦ (seen, rw (other, free, allowed) refl)
                ]
        ]
      ]
