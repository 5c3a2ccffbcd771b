-- ===== src/Groups/Inventory.antt =====
-- `worseStatus` and `loadUniverse` of engine/src/services/groups.ts: the snapshot of the inventory.
-- The rows have the columns that the source selects and the filters or the tree read.
pub mod Worst
use looksee.Prelude.{
  ℕ, String, Bool, true, false, not, Option, none, some, List, [], ◌∷◌, ◌===◌, ltb, if◌then◌else◌,
  find, or_else,
}
use looksee.Prelude.Text.{Text}

-- STATUS_RANK, and 1 for any other word
abbrev pub status_rank : String → ℕ
status_rank s =
    if s === "up"
    then 0
    else if s === "unknown"
    then 1
    else if s === "warn"
    then 2
    else if s === "down"
    then 3
    else 1

-- What JavaScript takes for true: a text that is there and not empty.
abbrev pub is_set : Option String → Bool
is_set none = false
is_set (some s) = not (s === "")

unfoldable pub worse_status : Option String → Option String → Option String
worse_status none b = b
worse_status (some a) none = if a === "" then none else some a
worse_status (some a) (some b) =
    if a === ""
    then some b
    else if b === ""
    then some a
    else if ltb (status_rank a) (status_rank b)
    then some b
    else some a

pub record LocationRow : Type 0 where
  pub id : String
  pub name : Text
  pub description : Option Text

pub record SiteRow : Type 0 where
  pub id : String
  pub name : Text
  pub description : Option Text
  pub location_id : Option String
  pub collector_endpoint_id : Option String

pub record EndpointRow : Type 0 where
  pub id : String
  pub name : Text
  pub site_id : String
  pub hostname : Option Text
  pub os : Option Text
  pub tags : List Text
  pub agent_api_key : Option String
  pub agent_version : Option Text

pub record CheckRow : Type 0 where
  pub id : String
  pub name : Text
  pub type_id : Text
  pub site_id : String
  pub endpoint_id : Option String
  pub tags : List Text
  pub last_status : Option String
  pub enabled : Bool

-- The maps `siteStatus` and `endpointStatus`.
abbrev pub Statuses : Type 0
Statuses = String → Option String

pub record Universe : Type 0 where
  pub locations : List LocationRow
  pub sites : List SiteRow
  pub endpoints : List EndpointRow
  pub checks : List CheckRow
  pub site_status : Statuses
  pub endpoint_status : Statuses

-- The lookup maps; ids are primary keys.
abbrev pub location_by_id : Universe → String → Option LocationRow
location_by_id u id = find (λ l. l.id === id) u.locations

abbrev pub site_by_id : Universe → String → Option SiteRow
site_by_id u id = find (λ s. s.id === id) u.sites

abbrev pub endpoint_by_id : Universe → String → Option EndpointRow
endpoint_by_id u id = find (λ e. e.id === id) u.endpoints

abbrev pub worsen : String → Option String → Statuses → Statuses
worsen key status statuses k =
    if key === k then worse_status (statuses key) (some (or_else status "unknown")) else statuses k

abbrev pub worsen_if : Option String → Option String → Statuses → Statuses
worsen_if none status statuses = statuses
worsen_if (some key) status statuses = if key === "" then statuses else worsen key status statuses

-- The loop over the checks, for one of the two maps. Disabled checks do not count.
unfoldable pub update_each : (CheckRow → Statuses → Statuses) → List CheckRow → Statuses → Statuses
unfolding worse_status
update_each update [] statuses = statuses
update_each update (c ∷ cs) statuses =
    update_each update cs (if c.enabled then update c statuses else statuses)

abbrev pub update_site : CheckRow → Statuses → Statuses
update_site c statuses = worsen c.site_id c.last_status statuses

abbrev pub update_endpoint : CheckRow → Statuses → Statuses
update_endpoint c statuses = worsen_if c.endpoint_id c.last_status statuses

unfoldable pub load_universe :
    List LocationRow → List SiteRow → List EndpointRow → List CheckRow → Universe
unfolding update_each
load_universe locations sites endpoints checks = record {
  locations = locations;
  sites = sites;
  endpoints = endpoints;
  checks = checks;
  site_status = update_each update_site checks (λ k. none);
  endpoint_status = update_each update_endpoint checks (λ k. none);
}
