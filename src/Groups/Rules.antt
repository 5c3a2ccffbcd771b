-- ===== src/Groups/Rules.antt =====
-- `fieldValues`, `opMatches` and `matchesRules` of engine/src/services/groups.ts. Lower-casing is a
-- parameter.
pub mod Negation
use looksee.Prelude.{
  ℕ, String, Bool, true, false, not, ◌&&◌, ◌||◌, Option, none, some, List, [], ◌∷◌, ◌===◌, ltb, any,
  every, map, if◌then◌else◌, or_else,
}
use looksee.Prelude.Text.{Text, codes, same}
use looksee.Exclude.{starts, contains}
use looksee.Groups.Inventory.{
  LocationRow, SiteRow, EndpointRow, CheckRow, Universe, is_set, location_by_id, site_by_id,
  endpoint_by_id,
}

pub data MemberType : Type 0 where
  location site endpoint check : MemberType

-- An object with its kind.
pub data Member : Type 0 where
  of_location : LocationRow → Member
  of_site : SiteRow → Member
  of_endpoint : EndpointRow → Member
  of_check : CheckRow → Member

abbrev pub yes_no : Bool → Text
yes_no b = if b then codes "yes" else codes "no"

abbrev pub location_name : Universe → Option String → Text
location_name u none = []
location_name u (some id) = if id === "" then [] else name_of (location_by_id u id)
  where
    name_of : Option LocationRow → Text
    name_of none = []
    name_of (some l) = l.name

abbrev pub site_name : Option SiteRow → Text
site_name none = []
site_name (some s) = s.name

abbrev pub site_location : Universe → Option SiteRow → Text
site_location u none = []
site_location u (some s) = location_name u s.location_id

abbrev pub endpoint_name : Universe → Option String → Text
endpoint_name u none = []
endpoint_name u (some id) = if id === "" then [] else name_of (endpoint_by_id u id)
  where
    name_of : Option EndpointRow → Text
    name_of none = []
    name_of (some e) = e.name

-- `tags.length ? tags : [""]`
abbrev pub tag_values : List Text → List Text
tag_values [] = [] ∷ []
tag_values (t ∷ ts) = t ∷ ts

abbrev one : Text → List Text
one t = t ∷ []

abbrev pub status_text : Option String → Text
status_text s = codes (or_else s "unknown")

unfoldable pub field_values : Member → String → Universe → List Text
field_values (of_location l) field u = one (
    if field === "name"
    then l.name
    else if field === "description"
    then or_else l.description []
    else [])
field_values (of_site s) field u =
    if field === "name"
    then one s.name
    else if field === "description"
    then one (or_else s.description [])
    else if field === "location"
    then one (location_name u s.location_id)
    else if field === "collector"
    then one (yes_no (is_set s.collector_endpoint_id))
    else if field === "status"
    then one (status_text (u.site_status s.id))
    else one []
field_values (of_endpoint e) field u =
    let site = site_by_id u e.site_id in
    if field === "name"
    then one e.name
    else if field === "hostname"
    then one (or_else e.hostname [])
    else if field === "os"
    then one (or_else e.os [])
    else if field === "tag"
    then tag_values e.tags
    else if field === "site"
    then one (site_name site)
    else if field === "location"
    then one (site_location u site)
    else if field === "agent"
    then one (yes_no (is_set e.agent_api_key))
    else if field === "agentVersion"
    then one (or_else e.agent_version [])
    else if field === "status"
    then one (status_text (u.endpoint_status e.id))
    else one []
field_values (of_check c) field u =
    let site = site_by_id u c.site_id in
    if field === "name"
    then one c.name
    else if field === "type"
    then one c.type_id
    else if field === "tag"
    then tag_values c.tags
    else if field === "status"
    then one (status_text c.last_status)
    else if field === "enabled"
    then one (yes_no c.enabled)
    else if field === "endpoint"
    then one (endpoint_name u c.endpoint_id)
    else if field === "site"
    then one (site_name site)
    else if field === "location"
    then one (site_location u site)
    else one []

-- `endsWith`
abbrev pub ends : Text → Text → Bool
ends w [] = same w []
ends w (c ∷ s) = same w (c ∷ s) || ends w s

pub record Condition : Type 0 where
  pub field : String
  pub op : String
  pub value : Text

-- `match` is "any" or "all".
pub record GroupRules : Type 0 where
  pub match_any : Bool
  pub conditions : List Condition

abbrev pub is_negative : String → Bool
is_negative op = op === "is_not" || op === "not_contains"

module _ (lower : Text → Text) where
  unfoldable pub op_matches : String → Text → Text → Bool
  unfolding contains
  op_matches op actual wanted =
      let a = lower actual in
      let w = lower wanted in
      if op === "is" || op === "is_not"
      then same a w
      else if op === "contains" || op === "not_contains"
      then contains w a
      else if op === "starts_with"
      then starts w a
      else if op === "ends_with"
      then ends w a
      else false

  -- One condition, as the function that is mapped over the conditions judges it.
  unfoldable pub condition_holds : Member → Universe → Condition → Bool
  condition_holds obj u c =
      let hit = any (λ v. op_matches c.op v c.value) (field_values obj c.field u) in
      if is_negative c.op then not hit else hit

  unfoldable pub matches_rules : Member → GroupRules → Universe → Bool
  unfolding condition_holds
  matches_rules obj rules u = elim rules.conditions [
    | [] ↦ false
    | c ∷ cs ↦
        if rules.match_any
        then any (condition_holds obj u) (c ∷ cs)
        else every (condition_holds obj u) (c ∷ cs)
  ]
