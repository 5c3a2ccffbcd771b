-- ===== src/Security.antt =====
-- Security events, the rules that answer them, lockouts and blocks of addresses
-- (engine/src/services/security.ts). Instants are milliseconds, and the newest row of a table is
-- first. The settings are read afresh; the texts of notifications and log lines are left out, and
-- so is the `catch` of a database that fails.
pub mod Ends
pub mod Own
pub mod Lockout
pub mod Gate
use looksee.Prelude.{
  ℕ, zero, suc, ◌+◌, ◌-◌, ◌*◌, String, Bool, true, false, not, ◌&&◌, ◌||◌, Option, none, some, List,
  [], ◌∷◌, ◌===◌, leb, ltb, length, keep, map, any, includes, or_else, if◌then◌else◌,
}
use Prim.Native.String.{◌++◌ as text_append}

pub record SecurityEvent : Type 0 where
  pub kind : String
  pub ip : Option String
  pub detail : Option String
  pub created_at : ℕ

pub record SecurityRule : Type 0 where
  pub id : String
  pub kinds : List String
  pub threshold : ℕ
  pub window_minutes : ℕ
  pub per_ip : Bool
  pub notify : Bool
  pub block_minutes : Option ℕ
  pub cooldown_minutes : ℕ
  pub last_fired_at : Option ℕ
  pub enabled : Bool

pub record IpBlock : Type 0 where
  pub ip : String
  pub until : Option ℕ

pub record TrustedIp : Type 0 where
  pub user : String
  pub ip : String

pub record AgentAddress : Type 0 where
  pub last_agent_ip : String
  pub last_seen_at : ℕ

pub record User : Type 0 where
  pub id : String
  pub email : String

pub record BlockCache : Type 0 where
  pub at : ℕ
  pub entries : List String

-- The tables, and the module's `blockCache` and `lastFired`, whose key is a rule and an address or
-- `*`.
pub record State : Type 0 where
  pub events : List SecurityEvent
  pub rules : List SecurityRule
  pub blocks : List IpBlock
  pub allowlist : List String
  pub trusted : List TrustedIp
  pub agents : List AgentAddress
  pub users : List User
  pub lockout_threshold : ℕ
  pub lockout_minutes : ℕ
  pub block_cache : Option BlockCache
  pub last_fired : String → Option String → Option ℕ
  pub notified : List String

abbrev pub is_ip : Option String → String → Bool
is_ip none ip = false
is_ip (some a) ip = a === ip

-- `until IS NULL OR until > now`
abbrev in_force : ℕ → IpBlock → Bool
in_force now b = elim b.until [ none ↦ true | some t ↦ ltb now t ]

abbrev pub read_blocks : ℕ → State → List String
read_blocks now s = map (λ b. b.ip) (keep (in_force now) s.blocks)

abbrev pub cached : ℕ → Option BlockCache → List String → BlockCache
cached now none entries = record { at = now; entries = entries }
cached now (some c) entries =
    if ltb 10000 (now - c.at) then record { at = now; entries = entries } else c

-- `matches entries ip` is `listHas(buildList(entries), ip)` of engine/src/lib/ipMatch.ts.
module _ (matches : List String → String → Bool) where
  unfoldable pub is_blocked : String → ℕ → State → Bool × State
  is_blocked ip now s =
      let c = cached now s.block_cache (read_blocks now s) in
      (matches c.entries ip, record s { block_cache = some c })

  unfoldable pub is_own_address : String → State → Bool
  is_own_address ip s =
      not (leb (length s.allowlist) 0) && matches s.allowlist ip || any (λ t. t.ip === ip) s.trusted

  -- A working agent checked in from the address in the last 24 hours.
  unfoldable pub is_agent_address : String → ℕ → State → Bool
  is_agent_address ip now s =
      any (λ a. a.last_agent_ip === ip && leb now (a.last_seen_at + 86400000)) s.agents

  abbrev counts_for : SecurityRule → Option String → ℕ → SecurityEvent → Bool
  counts_for rule ip now e =
      includes rule.kinds e.kind
      && leb now (e.created_at + rule.window_minutes * 60000)
      && (not rule.per_ip || elim ip [ none ↦ false | some a ↦ is_ip e.ip a ])

  abbrev matching_events : SecurityRule → Option String → ℕ → State → ℕ
  matching_events rule ip now s = length (keep (counts_for rule ip now) s.events)

  abbrev fired_key : SecurityRule → Option String → Option String
  fired_key rule ip = if rule.per_ip then ip else none

  -- When the rule last fired, for the address if it is a rule per address.
  abbrev last_time : SecurityRule → Option String → State → ℕ
  last_time rule ip s =
      or_else (s.last_fired rule.id (fired_key rule ip))
        (if rule.per_ip then 0 else or_else rule.last_fired_at 0)

  -- The tests of the loop up to the cooldown.
  -- `!ip`: an empty text is no address either.
  abbrev pub is_no_address : Option String → Bool
  is_no_address none = true
  is_no_address (some a) = a === ""

  unfoldable pub fires : SecurityRule → Option String → ℕ → State → Bool
  fires rule ip now s =
      not (rule.per_ip && is_no_address ip)
      && leb rule.threshold (matching_events rule ip now s)
      && not (
          ltb 0 rule.cooldown_minutes
          && ltb (now - last_time rule ip s) (rule.cooldown_minutes * 60000))

  abbrev same_address : Option String → Option String → Bool
  same_address none none = true
  same_address (some a) (some b) = a === b
  same_address _ _ = false

  abbrev fire_rule : String → ℕ → SecurityRule → SecurityRule
  fire_rule id now r = if r.id === id then record r { last_fired_at = some now } else r

  unfoldable pub mark_fired : SecurityRule → Option String → ℕ → State → State
  mark_fired rule ip now s = record s {
    rules = map (fire_rule rule.id now) s.rules;
    last_fired = λ id key.
        if id === rule.id && same_address key (fired_key rule ip)
        then some now
        else s.last_fired id key;
  }

  unfoldable pub note : SecurityRule → State → State
  note rule s = if rule.notify then record s { notified = rule.id ∷ s.notified } else s

  unfoldable pub insert_event : String → Option String → Option String → ℕ → State → State
  insert_event kind ip detail now s = record s {
    events = record { kind = kind; ip = ip; detail = detail; created_at = now } ∷ s.events;
  }

  -- `blockIp` up to the event that it records.
  unfoldable pub insert_block : String → ℕ → ℕ → State → State
  insert_block ip minutes now s = record s {
    blocks = record { ip = ip; until = some (now + minutes * 60000) } ∷ s.blocks;
    block_cache = none;
  }

  -- Whether an address that a rule would block is spared.
  unfoldable pub spared : String → String → ℕ → State → Bool
  spared kind ip now s =
      is_own_address ip s || kind === "bad_agent_key" && is_agent_address ip now s

  -- The blocking of an address by a rule that fires, given what records an event.
  unfoldable pub respond :
      (String → Option String → ℕ → State → Option State)
      → SecurityRule
      → String
      → Option String
      → Option ℕ
      → ℕ
      → State
      → Option State
  respond record_event rule kind (some ip) (some (suc minutes)) now s =
      let (blocked, s') = is_blocked ip now s in
      if ip === ""
      then some s
      else if blocked || spared kind ip now s'
      then some s'
      else record_event "ip_blocked" (some ip) now (insert_block ip (suc minutes) now s')
  respond record_event rule kind _ _ now s = some s

  -- One round of the loop of `evaluateRules`.
  unfoldable pub evaluate_one :
      (String → Option String → ℕ → State → Option State)
      → String
      → Option String
      → ℕ
      → SecurityRule
      → State
      → Option State
  evaluate_one record_event kind ip now rule s = elim (fires rule ip now s) [
    | false ↦ some s
    | true ↦
        elim (respond record_event rule kind ip rule.block_minutes now (mark_fired rule ip now s)) [
          | none ↦ none
          | some s' ↦ some (note rule s')
        ]
  ]

  unfoldable pub evaluate_each :
      (String → Option String → ℕ → State → Option State)
      → String
      → Option String
      → ℕ
      → List SecurityRule
      → State
      → Option State
  evaluate_each record_event kind ip now [] s = some s
  evaluate_each record_event kind ip now (rule ∷ rules) s =
      elim (evaluate_one record_event kind ip now rule s) [
        | none ↦ none
        | some s' ↦ evaluate_each record_event kind ip now rules s'
      ]

  -- With fuel for the events that blocks record; `none` means that it ran out.
  unfoldable pub record_security_event :
      ℕ → String → Option String → Option String → ℕ → State → Option State
  record_security_event zero kind ip detail now s = none
  record_security_event (suc fuel) kind ip detail now s =
      evaluate_each (λ k a t u. record_security_event fuel k a none t u) kind ip now
        (keep (λ r. r.enabled && includes r.kinds kind) s.rules) (insert_event kind ip detail now s)

  abbrev failed_kinds : List String
  failed_kinds = "login_failed" ∷ "totp_failed" ∷ []

  abbrev pub recent_failure : ℕ → State → SecurityEvent → Bool
  recent_failure now s e =
      includes failed_kinds e.kind && leb now (e.created_at + s.lockout_minutes * 60000)

  unfoldable pub failures_from : String → ℕ → State → ℕ
  failures_from ip now s = length (keep (λ e. recent_failure now s e && is_ip e.ip ip) s.events)

  -- `account ${email}` is the detail of a failed sign-in.
  abbrev account_of : String → String
  account_of email = text_append "account " email

  unfoldable pub failures_for : String → ℕ → State → ℕ
  failures_for email now s =
      length (keep (λ e. recent_failure now s e && is_ip e.detail (account_of email)) s.events)

  -- The user with this email has signed in from this address.
  unfoldable pub is_known : String → String → State → Bool
  is_known ip email s = elim (keep (λ u. u.email === email) s.users) [
    | [] ↦ false
    | u ∷ us ↦ any (λ t. t.user === u.id && t.ip === ip) s.trusted
  ]

  unfoldable pub locked_out : String → String → ℕ → State → Bool
  locked_out ip email now s =
      if leb s.lockout_threshold 0
      then false
      else if leb s.lockout_threshold (failures_from ip now s)
      then true
      else if ltb (failures_for email now s) s.lockout_threshold
      then false
      else not (is_known ip email s)
