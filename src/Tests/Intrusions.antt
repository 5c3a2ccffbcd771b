-- ===== src/Tests/Intrusions.antt =====
-- Security rules, blocks and lockouts on a guessed password.
use looksee.Prelude.{
  String, Bool, true, not, ◌&&◌, Option, none, some, List, [], ◌∷◌, ◌≡◌, refl, map, leb, includes,
}
use looksee.Security.{
  SecurityEvent, SecurityRule, State, is_blocked, is_own_address, is_agent_address, fires,
  mark_fired, note, insert_event, insert_block, spared, respond, evaluate_one, evaluate_each,
  record_security_event, is_known, failures_from, failures_for, locked_out,
}
use looksee.Security.Own.{record_security_event-own}
use looksee.Security.Lockout.{with_events, locked_out-elsewhere}

-- The definitions that the tests open.
guarding : Unit {0}
unfolding is_blocked is_own_address is_agent_address fires mark_fired note insert_event insert_block
    spared respond evaluate_one evaluate_each record_security_event is_known failures_from
    failures_for locked_out
guarding = tt

abbrev listed : List String → String → Bool
listed entries ip = includes entries ip

abbrev guessing : SecurityRule
guessing = record {
  id = "r1";
  kinds = "login_failed" ∷ "totp_failed" ∷ [];
  threshold = 2;
  window_minutes = 10;
  per_ip = true;
  notify = true;
  block_minutes = some 60;
  cooldown_minutes = 60;
  last_fired_at = none;
  enabled = true;
}

abbrev failed : String → SecurityEvent
failed ip = record {
  kind = "login_failed";
  ip = some ip;
  detail = some "account a@b.c";
  created_at = 3600000;
}

abbrev guarded : State
guarded = record {
  events = failed "203.0.113.5" ∷ failed "192.0.2.1" ∷ [];
  rules = guessing ∷ [];
  blocks = [];
  allowlist = [];
  trusted = record { user = "u1"; ip = "192.0.2.1" } ∷ [];
  agents = [];
  users = record { id = "u1"; email = "a@b.c" } ∷ [];
  lockout_threshold = 3;
  lockout_minutes = 15;
  block_cache = none;
  last_fired = λ id key. none;
  notified = [];
}

abbrev blocked_ips : Option State → List String
blocked_ips none = []
blocked_ips (some s) = map (λ b. b.ip) s.blocks

guesser_blocked :
    blocked_ips
      (record_security_event listed 2 "login_failed" (some "203.0.113.5") none 3601000 guarded)
    ≡ "203.0.113.5" ∷ []
unfolding guarding
guesser_blocked = refl

admin_not_blocked :
    blocked_ips
      (record_security_event listed 2 "login_failed" (some "192.0.2.1") none 3601000 guarded)
    ≡ []
unfolding guarding
admin_not_blocked = refl

-- An empty address is none.
nothing_blocked :
    blocked_ips (
      record_security_event listed 2 "login_failed"
        (some "")
        none
        3601000
        (record guarded { events = failed "" ∷ failed "" ∷ [] }))
    ≡ []
unfolding guarding
nothing_blocked = refl

record_security_event-own_example :
    (t : State) × (record_security_event listed 1 "login_failed"
        (some "192.0.2.1")
        none
        3601000
        guarded
      ≡ some t)
    × (t.blocks ≡ guarded.blocks)
    × (is_own_address listed "192.0.2.1" t ≡ true)
record_security_event-own_example =
    record_security_event-own listed "192.0.2.1" 0 "login_failed" none 3601000 guarded
      (unfold is_own_address in refl)

abbrev attack : List SecurityEvent
attack = failed "203.0.113.5" ∷ failed "203.0.113.5" ∷ failed "203.0.113.5" ∷ []

stranger_locked_out :
    locked_out listed "198.51.100.7" "a@b.c" 3601000 (with_events attack guarded) ≡ true
unfolding guarding
stranger_locked_out = refl

locked_out-elsewhere_example :
    (locked_out listed "192.0.2.1" "a@b.c" 3601000 (with_events attack guarded)
      ≡ locked_out listed "192.0.2.1" "a@b.c" 3601000 guarded)
    × (locked_out listed "192.0.2.1" "a@b.c" 3601000 guarded
        ≡ not (leb 3 0) && leb 3 (failures_from listed "192.0.2.1" 3601000 guarded))
locked_out-elsewhere_example =
    locked_out-elsewhere listed "192.0.2.1" "a@b.c" 3601000 guarded attack (unfold is_known in refl)
      (refl, (refl, (refl, tt)))
