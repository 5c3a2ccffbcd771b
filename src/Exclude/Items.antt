-- ===== src/Exclude/Items.antt =====
-- `EXCLUSION_KINDS`, `kindsForType` and `excludeItems` of engine/src/services/probes/exclude.ts.
pub mod AsText
use looksee.Prelude.{
  ℕ, zero, suc, String, Bool, true, false, not, ◌||◌, Option, none, some, List, [], ◌∷◌, ◌++◌, ◌==◌,
  ◌===◌, map, keep, find, take, includes, if◌then◌else◌,
}
use looksee.Prelude.Text.{Text, trim}

pub record Kind : Type 0 where
  pub id : String
  -- `match === "name"`
  pub by_name : Bool
  pub types : List String

abbrev kind : String → Bool → List String → Kind
kind id by_name types = record { id = id; by_name = by_name; types = types }

abbrev pub exclusion_kinds : List Kind
exclusion_kinds =
    kind "messages" false
      ("trap_match" ∷ "syslog_match" ∷ "agent_log" ∷ "agent_journal" ∷ "agent_eventlog" ∷ [])
    ∷ kind "event_ids" true ("agent_eventlog" ∷ [])
    ∷ kind "mounts" true ("host_metric" ∷ [])
    ∷ kind "interfaces" true ("host_metric" ∷ "snmp_interfaces" ∷ [])
    ∷ kind "devices" true ("host_metric" ∷ [])
    ∷ kind "sensors" true ("host_metric" ∷ [])
    ∷ kind "services" true ("agent_services_overview" ∷ [])
    ∷ kind "containers" true ("agent_docker" ∷ [])
    ∷ kind "vms" true ("agent_hyperv" ∷ [])
    ∷ kind "packages" true ("host_packages" ∷ "host_software" ∷ "host_vulnerable" ∷ [])
    ∷ kind "users" true ("agent_users" ∷ [])
    ∷ kind "snmp_values" true ("snmp" ∷ [])
    ∷ []

-- METRIC_INSTANCE_KINDS
abbrev pub metric_instance_kind : String → Option String
metric_instance_kind i =
    if i === "mount"
    then some "mounts"
    else if i === "interface"
    then some "interfaces"
    else if i === "device"
    then some "devices"
    else if i === "sensor" || i === "fan"
    then some "sensors"
    else none

abbrev one_kind : Option String → List String
one_kind none = []
one_kind (some k) = k ∷ []

abbrev instance_kind : Option String → Option String
instance_kind none = none
instance_kind (some i) = metric_instance_kind i

unfoldable pub kinds_for_type : String → Option String → List String
kinds_for_type type_id instance_of =
    if type_id === "host_metric"
    then one_kind (instance_kind instance_of)
    else map (λ k. k.id) (keep (λ k. includes k.types type_id) exclusion_kinds)

-- `config.exclude` as stored: a list (each item as `String` writes it), a text, or anything else.
pub data Setting : Type 0 where
  listed : List Text → Setting
  written : Text → Setting
  other : Setting

abbrev pub is_comma_or_line : ℕ → Bool
is_comma_or_line c = c == b'\r' || c == b'\n' || c == b','

abbrev pub is_line_end : ℕ → Bool
is_line_end c = c == b'\n'

-- A unit in front of the first of some pieces.
abbrev pub onto_first : ℕ → List Text → List Text
onto_first c [] = (c ∷ []) ∷ []
onto_first c (p ∷ ps) = (c ∷ p) ∷ ps

-- `split` at each separator. A run of separators leaves empty pieces, and a `\r` in front of a `\n`
-- stays at the end of a piece; trimming and dropping the empty pieces takes both away.
abbrev pub split_at : (ℕ → Bool) → Text → List Text
split_at sep [] = [] ∷ []
split_at sep (c ∷ s) = let rest = split_at sep s in if sep c then [] ∷ rest else onto_first c rest

abbrev pub parts : Setting → Bool → List Text
parts (listed items) split_commas = items
parts (written s) split_commas = split_at (if split_commas then is_comma_or_line else is_line_end) s
parts other split_commas = []

abbrev pub is_filled : Text → Bool
is_filled [] = false
is_filled (c ∷ s) = true

unfoldable pub exclude_items : Setting → Bool → List Text
exclude_items value split_commas = take 1000 (keep is_filled (map trim (parts value split_commas)))
