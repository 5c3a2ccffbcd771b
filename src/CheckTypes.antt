-- ===== src/CheckTypes.antt =====
-- The registry of check types and who runs each (engine/src/db/checkTypes.ts), and the comparison
-- of agent versions.
pub mod Versions
use looksee.Prelude.{
  ℕ, String, Bool, true, false, not, ◌&&◌, ◌||◌, Option, none, some, List, [], ◌∷◌, ◌===◌, ◌==◌,
  leb, ltb, find, keep, map, includes, or_else, if◌then◌else◌,
}
use looksee.Prelude.Text.{Text, codes}

pub data Executor : Type 0 where
  engine agent report : Executor

pub record CheckTypeMeta : Type 0 where
  pub type : String
  pub executor : Executor
  pub endpoint_required : Bool
  pub remote_probe : Bool
  pub other_agent : Bool
  pub min_agent_version : Option String
  pub local : Bool

abbrev plain : String → Executor → CheckTypeMeta
plain type executor = record {
  type = type;
  executor = executor;
  endpoint_required = false;
  remote_probe = false;
  other_agent = false;
  min_agent_version = none;
  local = false;
}

abbrev by_engine : String → CheckTypeMeta
by_engine t = plain t engine

abbrev remote : String → CheckTypeMeta
remote t = record (by_engine t) { remote_probe = true }

abbrev local : String → CheckTypeMeta
local t = record (by_engine t) { local = true }

abbrev local_required : String → CheckTypeMeta
local_required t = record (local t) { endpoint_required = true }

abbrev by_agent : String → CheckTypeMeta
by_agent t = record (plain t agent) { endpoint_required = true }

abbrev by_report : String → CheckTypeMeta
by_report t = record (plain t report) { endpoint_required = true }

abbrev since : String → CheckTypeMeta → CheckTypeMeta
since v m = record m { min_agent_version = some v }

abbrev pub check_type_meta : List CheckTypeMeta
check_type_meta =
    remote "ping"
    ∷ remote "tcp"
    ∷ remote "http"
    ∷ remote "dns"
    ∷ remote "ssl_cert"
    ∷ by_engine "snmp"
    ∷ by_engine "udp"
    ∷ by_engine "protocol"
    ∷ by_engine "email_roundtrip"
    ∷ by_engine "database"
    ∷ by_engine "traceroute"
    ∷ by_engine "browser"
    ∷ by_engine "ntp"
    ∷ by_engine "dhcp"
    ∷ by_engine "grpc"
    ∷ by_engine "mqtt"
    ∷ by_engine "websocket"
    ∷ by_engine "docker_registry"
    ∷ by_engine "arp_presence"
    ∷ by_engine "domain_expiry"
    ∷ by_engine "public_ip"
    ∷ by_engine "snmp_interfaces"
    ∷ by_engine "dns_zone"
    ∷ local "trap_match"
    ∷ local "syslog_match"
    ∷ by_engine "bmc"
    ∷ by_engine "proxmox"
    ∷ by_engine "vmware"
    ∷ by_engine "prometheus"
    ∷ by_engine "webserver_status"
    ∷ by_engine "app_integration"
    ∷ local "anomaly"
    ∷ local "heartbeat"
    ∷ local "push_value"
    ∷ local_required "agent_heartbeat"
    ∷ local_required "disk_forecast"
    ∷ local "ip_change"
    ∷ local "calculated"
    ∷ local_required "host_vulnerable"
    ∷ by_agent "agent_service"
    ∷ by_agent "agent_process"
    ∷ since "3.0.0" (by_agent "agent_file")
    ∷ since "3.0.0" (by_agent "agent_log")
    ∷ since "3.0.0" (by_agent "agent_eventlog")
    ∷ since "3.0.0" (by_agent "agent_journal")
    ∷ since "3.0.0" (record (by_agent "agent_script") { other_agent = true })
    ∷ since "3.0.0" (by_agent "agent_scheduled_task")
    ∷ since "3.0.0" (by_agent "agent_services_overview")
    ∷ since "3.0.0" (by_agent "agent_docker")
    ∷ since "3.0.0" (by_agent "agent_hyperv")
    ∷ since "3.0.0" (by_agent "agent_perfcounter")
    ∷ since "3.0.0" (by_agent "agent_vpn")
    ∷ since "3.0.0" (by_agent "agent_ups")
    ∷ since "3.0.0" (by_agent "agent_backup")
    ∷ since "5.2.0" (by_agent "agent_users")
    ∷ since "5.2.0" (by_agent "agent_disk_tree")
    ∷ by_report "host_cpu"
    ∷ by_report "host_memory"
    ∷ by_report "host_disk"
    ∷ since "3.0.0" (by_report "host_metric")
    ∷ since "3.0.0" (by_report "host_reboot")
    ∷ since "3.0.0" (by_report "host_change")
    ∷ since "5.0.0" (by_report "host_packages")
    ∷ since "5.0.0" (by_report "host_software")
    ∷ []

abbrev pub types_where : (CheckTypeMeta → Bool) → List String
types_where p = map (λ m. m.type) (keep p check_type_meta)

abbrev pub run_by_engine : CheckTypeMeta → Bool
run_by_engine m = elim m.executor [ engine ↦ true | _ ↦ false ]

abbrev run_by_agent : CheckTypeMeta → Bool
run_by_agent m = elim m.executor [ agent ↦ true | _ ↦ false ]

abbrev pub run_by_collector : CheckTypeMeta → Bool
run_by_collector m = run_by_engine m && not m.local

unfoldable pub engine_check_types : List String
engine_check_types = types_where run_by_engine

unfoldable pub collector_check_types : List String
collector_check_types = types_where run_by_collector

unfoldable pub min_agent_version_for : String → Option String
min_agent_version_for t = elim (find (λ m. m.type === t) check_type_meta) [
  | none ↦ none
  | some m ↦ m.min_agent_version
]
