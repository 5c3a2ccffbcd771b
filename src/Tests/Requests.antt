-- ===== src/Tests/Requests.antt =====
-- The request gate on concrete requests.
use looksee.Prelude.{
  String, Bool, true, false, Option, none, some, List, [], ◌∷◌, ◌≡◌, refl, includes, map, arith,
}
use looksee.Prelude.Text.{codes, lower_unit}
use looksee.Exclude.{contains}
use looksee.Security.{is_blocked, evaluate_each, insert_event, record_security_event}
use looksee.Security.Gate.{
  Request, GateState, Answer, refused_blocked, is_machine_route, forget_old, note_refusal,
  note_blocked, security_gate, looks_like_scan,
}
use looksee.Security.Gate.Noted.{recorded, Spaced, recorded-Spaced}
use looksee.Security.Gate.Answers.{due, security_gate-due}

abbrev listed : List String → String → Bool
listed entries ip = includes entries ip

abbrev blocking : GateState
blocking = record {
  security = record {
    events = [];
    rules = [];
    blocks = record { ip = "203.0.113.5"; until = none } ∷ [];
    allowlist = [];
    trusted = [];
    agents = [];
    users = [];
    lockout_threshold = 3;
    lockout_minutes = 15;
    block_cache = none;
    last_fired = λ id key. none;
    notified = [];
  };
  settings = record { allowlist_enabled = false; allowlist_agents = false; detect_scans = true };
  noted = [];
}

abbrev asks : String → String → Request
asks path ip = record { path = codes path; original_url = codes path; ip = ip }

abbrev answer_of : Option (Answer × GateState) → Option Answer
answer_of none = none
answer_of (some (a, g)) = some a

refused :
    answer_of (security_gate listed 2 (asks "/api/checks" "203.0.113.5") 3600000 blocking)
    ≡ some refused_blocked
unfolding security_gate note_blocked note_refusal forget_old is_blocked record_security_event
    evaluate_each insert_event is_machine_route
refused = refl

machine :
    (is_machine_route (codes "/api/agent/report") ≡ true)
    × (is_machine_route (codes "/api/agents") ≡ false)
unfolding is_machine_route
machine = (refl, refl)

scans : looks_like_scan listed (map lower_unit) (codes "/WP-Login.php?x=1") ≡ true
unfolding looks_like_scan contains
scans = refl

recorded_twice :
    recorded "203.0.113.5"
      (record { ip = "203.0.113.5"; now = 3600000 }
        ∷ record { ip = "203.0.113.5"; now = 3615000 }
        ∷ record { ip = "203.0.113.5"; now = 3660000 }
        ∷ [])
      []
    ≡ 3600000 ∷ 3660000 ∷ []
unfolding recorded note_refusal forget_old
recorded_twice = refl

recorded-Spaced_example : Spaced (
    recorded "203.0.113.5"
      (record { ip = "203.0.113.5"; now = 3600000 }
        ∷ record { ip = "203.0.113.5"; now = 3615000 }
        ∷ record { ip = "203.0.113.5"; now = 3660000 }
        ∷ [])
      [])
recorded-Spaced_example =
    recorded-Spaced "203.0.113.5" 0
      (record { ip = "203.0.113.5"; now = 3600000 }
        ∷ record { ip = "203.0.113.5"; now = 3615000 }
        ∷ record { ip = "203.0.113.5"; now = 3660000 }
        ∷ [])
      [] (omega arith) tt

security_gate-due_example :
    (g' : GateState) × (security_gate listed 2 (asks "/api/checks" "203.0.113.5") 3600000 blocking
      ≡ some (due listed (asks "/api/checks" "203.0.113.5") 3600000 blocking, g'))
security_gate-due_example =
    security_gate-due listed (asks "/api/checks" "203.0.113.5") 0 3600000 blocking (λ entries h. h)
