-- ===== src/Security/Gate.antt =====
-- engine/src/middleware/securityGate.ts, and `looksLikeScan` of engine/src/services/security.ts.
-- The settings are read afresh, and so is the list that `allowCache` keeps. Headers are left out.
pub mod Noted
pub mod Answers
use looksee.Prelude.{
  ℕ, ◌-◌, String, Bool, true, false, not, ◌&&◌, ◌||◌, Option, none, some, List, [], ◌∷◌, ◌++◌,
  ◌===◌, leb, ltb, length, keep, any, or_else, if◌then◌else◌, ◌>>=◌,
}
use looksee.Prelude.Text.{Text, codes, same}
use looksee.Exclude.{starts, contains}
use looksee.Groups.Rules.{ends}
use looksee.Security.{State, is_blocked, record_security_event}

abbrev pub machine_prefixes : List Text
machine_prefixes =
    codes "/api/agent"
    ∷ codes "/api/collector"
    ∷ codes "/api/hb"
    ∷ codes "/api/public"
    ∷ codes "/install"
    ∷ []

unfoldable pub is_machine_route : Text → Bool
is_machine_route p = any (λ pre. same p pre || starts (pre ++ codes "/") p) machine_prefixes

abbrev pub always_open : Text
always_open = codes "/api/health"

abbrev pub blocked_note_every_ms : ℕ
blocked_note_every_ms = 60000

-- The map `blockedNoted`, as its entries.
abbrev pub Noted : Type 0
Noted = List (String × ℕ)

pub get : String → Noted → Option ℕ
get ip [] = none
get ip ((k, t) ∷ noted) = if k === ip then some t else get ip noted

pub put : String → ℕ → Noted → Noted
put ip now [] = (ip, now) ∷ []
put ip now ((k, t) ∷ noted) = if k === ip then (k, now) ∷ noted else (k, t) ∷ put ip now noted

-- `now - t > BLOCKED_NOTE_EVERY_MS`
abbrev pub is_old : ℕ → String × ℕ → Bool
is_old now (k, t) = ltb blocked_note_every_ms (now - t)

unfoldable pub forget_old : ℕ → Noted → Noted
forget_old now noted =
    if ltb 10000 (length noted) then keep (λ e. not (is_old now e)) noted else noted

-- Whether a refusal is recorded, and the map behind it.
unfoldable pub note_refusal : String → ℕ → Noted → Bool × Noted
unfolding get put forget_old
note_refusal ip now noted =
    if ltb (now - or_else (get ip noted) 0) blocked_note_every_ms
    then (false, noted)
    else (true, forget_old now (put ip now noted))

pub record Request : Type 0 where
  pub path : Text
  pub original_url : Text
  pub ip : String

pub record GateSettings : Type 0 where
  pub allowlist_enabled : Bool
  pub allowlist_agents : Bool
  pub detect_scans : Bool

pub record GateState : Type 0 where
  pub security : State
  pub settings : GateSettings
  pub noted : Noted

pub data Answer : Type 0 where
  passed : Answer
  refused_blocked : Answer
  refused_not_allowed : Answer

-- Whether the allowlist covers a request.
abbrev pub allowlist_covers : Request → GateState → Bool
allowlist_covers req g =
    g.settings.allowlist_enabled
    && not (leb (length g.security.allowlist) 0)
    && (g.settings.allowlist_agents || not (is_machine_route req.path))

module _ (matches : List String → String → Bool) where
  -- With the levels of recording that an event takes.
  abbrev record_event : ℕ → String → Option String → String → ℕ → State → Option State
  record_event levels kind detail ip now s =
      record_security_event matches levels kind (some ip) detail now s

  unfoldable pub note_blocked : ℕ → Request → ℕ → GateState → Option GateState
  unfolding note_refusal is_machine_route
  note_blocked levels req now g =
      let (recorded, noted) = note_refusal req.ip now g.noted in
      let detail = some (
        if is_machine_route req.path
        then "agent/collector/install request"
        else "dashboard/API request") in
      let event = record_event levels "blocked_request" detail req.ip now g.security in
      if recorded then (event >>= λ s. some (record g { security = s; noted = noted })) else some g

  unfoldable pub security_gate : ℕ → Request → ℕ → GateState → Option (Answer × GateState)
  unfolding note_blocked is_machine_route
  security_gate levels req now g =
      let (blocked, s) = is_blocked matches req.ip now g.security in
      let seen = record g { security = s } in
      let denied = record_event levels "allowlist_denied" none req.ip now s in
      if same req.path always_open
      then some (passed, g)
      else if blocked
      then (note_blocked levels req now seen >>= λ g'. some (refused_blocked, g'))
      else if allowlist_covers req seen && not (matches s.allowlist req.ip)
      then (denied >>= λ s'. some (refused_not_allowed, record seen { security = s' }))
      else some (passed, seen)

  abbrev scan_contains : List Text
  scan_contains =
      codes "/.env"
      ∷ codes "/.git"
      ∷ codes "/wp-login"
      ∷ codes "/wp-admin"
      ∷ codes "/wp-content"
      ∷ codes "/wp-includes"
      ∷ codes "xmlrpc.php"
      ∷ codes "/phpmyadmin"
      ∷ codes "/pma/"
      ∷ codes "/cgi-bin"
      ∷ codes "/actuator"
      ∷ codes "/server-status"
      ∷ codes "/vendor/phpunit"
      ∷ codes "/boaform"
      ∷ codes "/hnap1"
      ∷ codes "/.aws"
      ∷ codes "/admin.php"
      ∷ codes "/shell"
      ∷ codes "/.ds_store"
      ∷ codes "../"
      ∷ codes "%2e%2e"
      ∷ codes "/etc/passwd"
      ∷ codes "/owa/"
      ∷ codes "/remote/fgt_lang"
      ∷ codes "/geoserver"
      ∷ codes "/solr/"
      ∷ codes "/console/"
      ∷ codes "/manager/html"
      ∷ []

  abbrev scan_ends : List Text
  scan_ends = codes "/config.json" ∷ codes ".php" ∷ codes ".asp" ∷ codes ".aspx" ∷ codes ".jsp" ∷ []

  unfoldable pub looks_like_scan : (Text → Text) → Text → Bool
  looks_like_scan lower url =
      let u = lower url in any (λ s. contains s u) scan_contains || any (λ s. ends s u) scan_ends

  -- What reached no route is answered by 404; the probe of a scanner is recorded.
  unfoldable pub not_found_handler : ℕ → (Text → Text) → Request → ℕ → GateState → Option GateState
  unfolding looks_like_scan
  not_found_handler levels lower req now g =
      let event = record_event levels "scan_probe" none req.ip now g.security in
      let recorded = (event >>= λ s. some (record g { security = s })) in
      if g.settings.detect_scans && looks_like_scan lower req.original_url then recorded else some g
