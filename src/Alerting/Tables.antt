-- ===== src/Alerting/Tables.antt =====
-- The rows that engine/src/services/alerting.ts and engine/src/services/scheduler.ts read and write
-- (engine/src/db/schema.ts), with the columns that decide anything there. Instants are
-- milliseconds, tables of results, events and sent notifications have their newest row first, and
-- an event's ID is its number in the table.
use looksee.Prelude.{
  ℕ, String, Bool, true, false, Option, none, some, List, [], ◌∷◌, ◌==◌, ◌===◌, find, if◌then◌else◌,
}
use looksee.Prelude.Text.{Text}
use looksee.Thresholds.{Status}
use looksee.Timeouts.{Floored}

-- How a check was resolved without a result of its own.
pub data ResolvedBy : Type 0 where
  manual check push auto : ResolvedBy

-- `config.autoRecoverMinutes` where it is a positive number: its digits, and in milliseconds, up.
pub record AutoRecover : Type 0 where
  pub minutes : Text
  pub ms : ℕ

-- `state` is read only for what `resolveCheck` writes there; of `config` only `timeoutsBeforeDown`,
-- `recoverWithCheckId` and `autoRecoverMinutes` are read.
pub record Check : Type 0 where
  pub id : String
  pub site_id : String
  pub name : Text
  pub type : String
  pub interval_seconds : ℕ
  pub enabled : Bool
  pub last_run_at : Option ℕ
  pub retry_interval_seconds : Option ℕ
  pub probe_endpoint_id : Option String
  pub auto_recover : Option AutoRecover
  pub timeout_setting : Floored
  pub recover_with : Option String
  pub last_status : Option Status
  pub last_message : Option Text
  pub last_checked_at : Option ℕ
  pub last_status_change_at : Option ℕ
  pub flapping : Bool
  pub resolved_at : Option ℕ
  pub resolved_by : Option ResolvedBy

pub record CheckResult : Type 0 where
  pub check_id : String
  pub status : Status
  pub message : Option Text
  pub in_maintenance : Bool
  pub checked_at : ℕ

pub data TriggerOn : Type 0 where
  on_down on_warn : TriggerOn

pub record AlertRule : Type 0 where
  pub id : String
  pub check_id : String
  pub consecutive_failures : ℕ
  pub trigger_on : TriggerOn
  pub renotify_minutes : Option ℕ
  pub escalate_after_minutes : Option ℕ
  pub enabled : Bool

pub record AlertEvent : Type 0 where
  pub id : ℕ
  pub rule_id : String
  pub triggered_at : ℕ
  pub resolved_at : Option ℕ
  pub severity : Status
  pub last_notified_at : Option ℕ
  pub escalated_at : Option ℕ

pub record ChannelLink : Type 0 where
  pub rule_id : String
  pub channel_id : String
  pub escalation : Bool

pub record Channel : Type 0 where
  pub id : String
  pub enabled : Bool

pub record Dependency : Type 0 where
  pub check_id : String
  pub depends_on : String

-- What a notification is about.
pub data Occasion : Type 0 where
  triggered resolved escalated reminder : Occasion

-- One attempt to deliver a message through a channel.
pub record Sent : Type 0 where
  pub channel_id : String
  pub rule_id : String
  pub occasion : Occasion
  pub status : Status

pub record Db : Type 0 where
  pub checks : List Check
  pub results : List CheckResult
  pub rules : List AlertRule
  pub events : List AlertEvent
  pub links : List ChannelLink
  pub channels : List Channel
  pub dependencies : List Dependency
  pub outbox : List Sent

abbrev pub is_null {ℓ} : {A : Type ℓ} → Option A → Bool
is_null none = true
is_null (some a) = false

abbrev pub find_check : String → List Check → Option Check
find_check id checks = find (λ c. c.id === id) checks

-- UPDATE checks SET … WHERE id = …
unfoldable pub update_check : String → (Check → Check) → List Check → List Check
update_check id f [] = []
update_check id f (c ∷ cs) =
    let rest = update_check id f cs in if c.id === id then f c ∷ rest else c ∷ rest

-- UPDATE alert_events SET … WHERE id = …
unfoldable pub update_event : ℕ → (AlertEvent → AlertEvent) → List AlertEvent → List AlertEvent
update_event id f [] = []
update_event id f (e ∷ es) =
    let rest = update_event id f es in if e.id == id then f e ∷ rest else e ∷ rest
