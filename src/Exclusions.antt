-- ===== src/Exclusions.antt =====
-- engine/src/services/exclusions.ts: the items that a check ignores. `members` is
-- `checkIdsForGroups` of engine/src/services/groups.ts; `lower` is `toLowerCase`.
pub mod Sources
use looksee.Prelude.{
  ℕ, ◌-◌, String, Bool, true, false, not, ◌&&◌, ◌||◌, Option, none, some, List, [], ◌∷◌, ◌++◌,
  ◌===◌, ltb, map, keep, any, find, includes, or_else, if◌then◌else◌,
}
use looksee.Prelude.Text.{Text, same}
use looksee.Prelude.Sets.{set_of}
use looksee.Maintenance.{GroupChecks}
use looksee.Exclude.Items.{
  Kind, exclusion_kinds, kinds_for_type, Setting, listed, written, exclude_items,
}
use looksee.Exclude.Items.AsText.{lines}

-- A row of `exclusion_lists`.
pub record ExclusionList : Type 0 where
  pub id : String
  pub name : Text
  pub kind : String
  pub items : List Text
  pub apply_to_all : Bool
  pub group_ids : List String
  pub enabled : Bool

pub data Source : Type 0 where
  of_check : Source
  of_list : String → Text → Source

pub record ExclusionItem : Type 0 where
  pub value : Text
  pub kind : String
  pub source : Source

-- The settings of a check that are read here.
pub record Config : Type 0 where
  pub metric : Option String
  pub exclude : Setting

pub record CheckLike : Type 0 where
  pub id : String
  pub type_id : String
  pub config : Config

pub record CacheEntry : Type 0 where
  pub at : ℕ
  pub lists : List ExclusionList
  pub group_checks : GroupChecks

-- The table and the module's `cache` variable.
pub record Store : Type 0 where
  pub table : List ExclusionList
  pub cache : Option CacheEntry

abbrev pub cache_ms : ℕ
cache_ms = 15000

abbrev pub invalidate_exclusion_cache : Store → Store
invalidate_exclusion_cache s = record s { cache = none }

unfoldable pub limited_groups : List ExclusionList → List String
limited_groups [] = []
limited_groups (l ∷ ls) =
    let rest = limited_groups ls in if l.apply_to_all then rest else l.group_ids ++ rest

-- `METRIC_BY_KEY.get(key)?.instance` of engine/src/services/endpointMetrics.ts
abbrev pub metrics_by_mount : List String
metrics_by_mount =
    "disk.used_percent" ∷ "disk.free_gb" ∷ "disk.inodes_percent" ∷ "disk.read_only" ∷ "disk.mounted"
    ∷ []

abbrev pub metrics_by_device : List String
metrics_by_device =
    "smart.healthy" ∷ "smart.reallocated" ∷ "smart.pending" ∷ "smart.wear_percent" ∷ "smart.temp"
    ∷ "diskio.read_mbps" ∷ "diskio.write_mbps" ∷ "diskio.iops" ∷ "diskio.await_ms"
    ∷ "diskio.busy_percent" ∷ []

abbrev pub metrics_by_interface : List String
metrics_by_interface =
    "net.rx_mbps" ∷ "net.tx_mbps" ∷ "net.errors_per_sec" ∷ "net.drops_per_sec" ∷ "net.up"
    ∷ "net.speed_mbps" ∷ []

unfoldable pub metric_instance : String → Option String
metric_instance key =
    if key === "temp.max"
    then some "sensor"
    else if key === "fan.rpm"
    then some "fan"
    else if key === "raid.healthy"
    then some "array"
    else if key === "port.listening"
    then some "port"
    else if includes metrics_by_mount key
    then some "mount"
    else if includes metrics_by_device key
    then some "device"
    else if includes metrics_by_interface key
    then some "interface"
    else none

unfoldable pub kinds_of : CheckLike → List String
unfolding kinds_for_type metric_instance
kinds_of c =
    kinds_for_type c.type_id
      (if c.type_id === "host_metric" then metric_instance (or_else c.config.metric "") else none)

abbrev is_by_name : Option Kind → Bool
is_by_name none = false
is_by_name (some k) = k.by_name

abbrev pub own_items : CheckLike → String → List Text
own_items c kind =
    exclude_items c.config.exclude (is_by_name (find (λ k. k.id === kind) exclusion_kinds))

abbrev pub item_of : String → Source → Text → ExclusionItem
item_of kind source value = record { value = value; kind = kind; source = source }

-- `applyToAll || groupIds.some((g) => groupChecks.get(g)?.has(check.id))`
abbrev pub covers : GroupChecks → String → ExclusionList → Bool
covers groups check l = l.apply_to_all || any (λ g. includes (groups g) check) l.group_ids

unfoldable pub from_lists :
    List String → GroupChecks → String → List ExclusionList → List ExclusionItem
from_lists kinds groups check [] = []
from_lists kinds groups check (l ∷ ls) =
    let rest = from_lists kinds groups check ls in
    if includes kinds l.kind && covers groups check l
    then map (item_of l.kind (of_list l.id l.name)) l.items ++ rest
    else rest

module _ (lower : Text → Text) where
  -- Repeats are removed, as texts that are seen.
  unfoldable pub first_ones : List Text → List ExclusionItem → List ExclusionItem
  first_ones seen [] = []
  first_ones seen (i ∷ items) =
      let later = first_ones seen items in
      let added = i ∷ first_ones (lower i.value ∷ seen) items in
      if any (λ k. same k (lower i.value)) seen then later else added

  unfoldable pub exclusions_for : CheckLike → CacheEntry → List ExclusionItem
  unfolding first_ones from_lists kinds_of exclude_items
  exclusions_for c entry = elim (kinds_of c) [
    | [] ↦ []
    | kind ∷ kinds ↦ first_ones [] (
        map (item_of kind of_check) (own_items c kind)
        ++ from_lists (kind ∷ kinds) entry.group_checks c.id entry.lists)
  ]

  abbrev with_items : Config → List Text → Bool → Config
  with_items config [] as_text = config
  with_items config (i ∷ items) as_text = record config {
    exclude = if as_text then written (lines (i ∷ items)) else listed (i ∷ items);
  }

  -- The lookup of a check's settings with the items put in.
  unfoldable pub with_exclusions : CheckLike → CacheEntry → Bool → Config
  unfolding exclusions_for
  with_exclusions c entry as_text = elim (kinds_of c) [
    | [] ↦ c.config
    | kind ∷ kinds ↦ with_items c.config (map (λ i. i.value) (exclusions_for c entry)) as_text
  ]

module _ (members : List String → GroupChecks) where
  abbrev pub read_entry : ℕ → List ExclusionList → CacheEntry
  read_entry now table =
      let lists = keep (λ l. l.enabled) table in
      record { at = now; lists = lists; group_checks = members (set_of (limited_groups lists)) }

  abbrev pub is_stale : Option CacheEntry → ℕ → Bool
  is_stale none now = true
  is_stale (some c) now = ltb cache_ms (now - c.at)

  abbrev entry_or : Option CacheEntry → CacheEntry → CacheEntry
  entry_or none c = c
  entry_or (some c) d = c

  -- The lists that a lookup uses, and the state that it leaves, for a lookup that no other step
  -- comes into.
  unfoldable pub enabled_lists : ℕ → Store → CacheEntry × Store
  unfolding limited_groups set_of
  enabled_lists now s =
      let fresh = read_entry now s.table in
      if is_stale s.cache now
      then (fresh, record s { cache = some fresh })
      else (entry_or s.cache fresh, s)
