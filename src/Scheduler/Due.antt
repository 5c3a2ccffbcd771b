-- ===== src/Scheduler/Due.antt =====
-- The checks that a tick finds due, those of site collectors taken out, and pushed values that
-- recover on their own (engine/src/services/scheduler.ts). Instants are milliseconds. The
-- conditions that the source writes in SQL are Boolean tests.
use looksee.Prelude.{
  ℕ, ◌+◌, ◌-◌, ◌*◌, String, Bool, true, false, not, ◌&&◌, Option, none, some, List, [], ◌∷◌, ◌++◌,
  ◌===◌, leb, ltb, max, find, keep, includes, or_else, if◌then◌else◌,
}
use looksee.Prelude.Text.{Text, codes}
use looksee.Thresholds.{up, unknown}
use looksee.Timeouts.{ResultInput}
use looksee.CheckTypes.{engine_check_types, collector_check_types}
use looksee.Alerting.Tables.{Check, auto, AutoRecover, Db, is_null, update_check}
use looksee.Alerting.Record.{is_failing, record_check_result, resolve_check}

-- While a check is not up and has a retry interval, that interval decides.
unfoldable pub effective_interval : Check → ℕ
effective_interval c = elim c.last_status [
  | none ↦ c.interval_seconds
  | some up ↦ c.interval_seconds
  | some s ↦ or_else c.retry_interval_seconds c.interval_seconds
]

-- `last_run_at IS NULL OR last_run_at < now() - …`
abbrev pub has_waited : Option ℕ → ℕ → ℕ → Bool
has_waited none interval now = true
has_waited (some t) interval now = ltb (t + interval * 1000) now

unfoldable pub is_due : ℕ → Check → Bool
is_due now c =
    c.enabled
    && is_null c.probe_endpoint_id
    && includes engine_check_types c.type
    && has_waited c.last_run_at (effective_interval c) now

abbrev pub due_checks : ℕ → Db → List Check
due_checks now db = keep (is_due now) db.checks

pub record Site : Type 0 where
  pub id : String
  pub collector_endpoint_id : Option String

pub record Endpoint : Type 0 where
  pub id : String
  pub name : Text
  pub collector_last_seen_at : Option ℕ

pub record Fleet : Type 0 where
  pub sites : List Site
  pub endpoints : List Endpoint

abbrev pub collector_grace_seconds : ℕ
collector_grace_seconds = 180

abbrev pub collector_sites : Fleet → List Site
collector_sites fleet = keep (λ s. not (is_null s.collector_endpoint_id)) fleet.sites

-- `collectorBySite.get(siteId)`
abbrev pub collector_of : Fleet → String → Option String
collector_of fleet site = elim (find (λ s. s.id === site) (collector_sites fleet)) [
  | none ↦ none
  | some s ↦ s.collector_endpoint_id
]

-- The collector that runs a check, if one does.
unfoldable pub handed_to : Fleet → Check → Option String
handed_to fleet c =
    if includes collector_check_types c.type && is_null c.probe_endpoint_id
    then collector_of fleet c.site_id
    else none

abbrev pub collector_endpoint : Fleet → String → Option Endpoint
collector_endpoint fleet id = find (λ e. e.id === id) fleet.endpoints

abbrev pub last_seen : Option Endpoint → Option ℕ
last_seen none = none
last_seen (some e) = e.collector_last_seen_at

-- `silentFor > Math.max(COLLECTOR_GRACE_SECONDS, c.intervalSeconds * 3)`
unfoldable pub is_silent : Option ℕ → ℕ → ℕ → Bool
is_silent none interval now = true
is_silent (some t) interval now = ltb (max collector_grace_seconds (interval * 3) * 1000) (now - t)

abbrev pub collector_name : Option Endpoint → Text
collector_name none = codes "the collector host"
collector_name (some e) = e.name

abbrev set_last_run : ℕ → Check → Check
set_last_run now c = record c { last_run_at = some now }

-- `runOneCheck` and the reports of silent collectors write `lastRunAt` first.
unfoldable pub mark_run : String → ℕ → Db → Db
mark_run id now db = record db { checks = update_check id (set_last_run now) db.checks }

pub record Outcome : Type 0 where
  pub result : ResultInput
  pub skip : Bool

-- `iso` is Date.toISOString.
module _ (in_maintenance : Check → ℕ → Bool) (iso : ℕ → Text) where
  abbrev pub offline_message : Text → Option ℕ → Text
  offline_message name none =
      codes "Waiting for the site collector on "
      ++ (name ++ codes " to start — its agent needs to be 3.2.0 or newer (see the Endpoints page)")
  offline_message name (some t) =
      codes "Site collector on " ++ (name ++ (codes " is offline since " ++ iso t))

  abbrev pub offline : Option Endpoint → ResultInput
  offline e = record {
    status = unknown;
    message = some (offline_message (collector_name e) (last_seen e));
  }

  unfoldable pub report_silent : ℕ → Option Endpoint → Check → ℕ → Db → Option Db
  report_silent fuel e c now db = elim (is_silent (last_seen e) c.interval_seconds now) [
    | false ↦ some db
    | true ↦ record_check_result in_maintenance fuel c.id (offline e) now (mark_run c.id now db)
  ]

  -- The loop of `takeCollectorChecks`: the checks that are left to the engine, and the tables.
  unfoldable pub take_each : ℕ → Fleet → ℕ → List Check → Db → Option (List Check × Db)
  take_each fuel fleet now [] db = some ([], db)
  take_each fuel fleet now (c ∷ cs) db = elim (handed_to fleet c) [
    | none ↦ elim (take_each fuel fleet now cs db) [
      | none ↦ none
      | some (engine_runs, db') ↦ some (c ∷ engine_runs, db')
    ]
    | some id ↦ elim (report_silent fuel (collector_endpoint fleet id) c now db) [
      | none ↦ none
      | some db' ↦ take_each fuel fleet now cs db'
    ]
  ]

  unfoldable pub take_collector_checks : ℕ → Fleet → ℕ → List Check → Db → Option (List Check × Db)
  take_collector_checks fuel fleet now due db = elim (collector_sites fleet) [
    | [] ↦ some (due, db)
    | s ∷ ss ↦ take_each fuel fleet now due db
  ]

  -- What `runOneCheck` does with the outcome of the probe.
  unfoldable pub report : ℕ → String → Outcome → ℕ → Db → Option Db
  report fuel id outcome now db =
      if outcome.skip
      then some db
      else record_check_result in_maintenance fuel id outcome.result now db

  abbrev pub auto_message : Text → Text
  auto_message minutes =
      codes "Auto-recovered: no new failure pushed for " ++ (minutes ++ codes " min")

  abbrev pub is_stale : Check → Bool
  is_stale c =
      c.enabled
      && c.type === "push_value"
      && is_failing c.last_status
      && not (is_null c.auto_recover)

  -- One round of the loop of `autoRecoverPushed`.
  unfoldable pub recover_one : ℕ → ℕ → Option AutoRecover → Option ℕ → Check → Db → Option Db
  recover_one fuel now (some a) (some t) c db = elim (leb a.ms (now - t)) [
    | false ↦ some db
    | true ↦ resolve_check in_maintenance fuel c.id (auto_message a.minutes) auto now db
  ]
  recover_one fuel now _ _ c db = some db

  unfoldable pub recover_each : ℕ → ℕ → List Check → Db → Option Db
  recover_each fuel now [] db = some db
  recover_each fuel now (c ∷ cs) db =
      elim (recover_one fuel now c.auto_recover c.last_checked_at c db) [
        | none ↦ none
        | some db' ↦ recover_each fuel now cs db'
      ]

  unfoldable pub auto_recover_pushed : ℕ → ℕ → Db → Option Db
  auto_recover_pushed fuel now db = recover_each fuel now (keep is_stale db.checks) db
