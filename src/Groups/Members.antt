-- ===== src/Groups/Members.antt =====
-- `resolveGroup`, `expandToChecks`, `expandToEndpoints` and `checkIdsForGroups` of
-- engine/src/services/groups.ts. The table of memberships is a list, passed on by the calls that
-- tidy it.
pub mod Covered
pub mod Tidy
use looksee.Prelude.{
  String, Bool, true, false, not, ◌&&◌, ◌||◌, Option, none, some, List, [], ◌∷◌, ◌++◌, ◌===◌, map,
  keep, any, includes, if◌then◌else◌,
}
use looksee.Prelude.Text.{Text}
use looksee.Prelude.Sets.{add_where, set_of}
use looksee.Groups.Inventory.{LocationRow, SiteRow, EndpointRow, CheckRow, Universe}
use looksee.Groups.Rules.{
  MemberType, location, site, endpoint, check, Member, of_location, of_site, of_endpoint, of_check,
  GroupRules, matches_rules,
}
use looksee.Groups.Saving.{member_type}

pub record Group : Type 0 where
  pub id : String
  pub kind : String
  pub target : MemberType
  pub rules : GroupRules

pub record Membership : Type 0 where
  pub id : String
  pub group_id : String
  pub member_type : String
  pub member_id : String

pub record Resolved : Type 0 where
  pub locations : List String
  pub sites : List String
  pub endpoints : List String
  pub checks : List String

abbrev pub nobody : Resolved
nobody = record { locations = []; sites = []; endpoints = []; checks = [] }

abbrev pub list_for : Resolved → MemberType → List String
list_for out location = out.locations
list_for out site = out.sites
list_for out endpoint = out.endpoints
list_for out check = out.checks

-- `listFor(out, t).push(id)`
abbrev pub push : MemberType → String → Resolved → Resolved
push location id out = record out { locations = out.locations ++ id ∷ [] }
push site id out = record out { sites = out.sites ++ id ∷ [] }
push endpoint id out = record out { endpoints = out.endpoints ++ id ∷ [] }
push check id out = record out { checks = out.checks ++ id ∷ [] }

-- The ids of the objects of a kind that exist.
abbrev pub ids_of : Universe → MemberType → List String
ids_of u location = map (λ x. x.id) u.locations
ids_of u site = map (λ x. x.id) u.sites
ids_of u endpoint = map (λ x. x.id) u.endpoints
ids_of u check = map (λ x. x.id) u.checks

-- `own(exists, t)?.has(m.memberId)`
abbrev pub exists_as : Universe → Option MemberType → String → Bool
exists_as u none id = false
exists_as u (some t) id = includes (ids_of u t) id

abbrev pub still_there : Universe → Membership → Bool
still_there u m = exists_as u (member_type m.member_type) m.member_id

abbrev pub push_as : Option MemberType → String → Resolved → Resolved
push_as none id out = out
push_as (some t) id out = push t id out

-- The loop over the memberships of a group.
unfoldable pub sort_members : Universe → List Membership → Resolved → Resolved × List String
sort_members u [] out = (out, [])
sort_members u (m ∷ ms) out =
    let kept = sort_members u ms (push_as (member_type m.member_type) m.member_id out) in
    let (r, gone) = sort_members u ms out in if still_there u m then kept else (r, m.id ∷ gone)

abbrev pub of_group : Group → List Membership → List Membership
of_group g table = keep (λ m. m.group_id === g.id) table

abbrev pub without : List String → List Membership → List Membership
without gone table = keep (λ m. not (includes gone m.id)) table

-- `for (const s of u.sites) if (s.locationId && locs.has(s.locationId)) siteSet.add(s.id)`
abbrev pub is_in : List String → Option String → Bool
is_in ids none = false
is_in ids (some id) = not (id === "") && includes ids id

unfoldable pub site_set : Resolved → Universe → List String
unfolding add_where set_of
site_set r u =
    let locs = set_of r.locations in
    add_where (λ s. is_in locs s.location_id) (λ s. s.id) u.sites (set_of r.sites)

unfoldable pub expand_to_checks : Resolved → Universe → List String
unfolding add_where site_set set_of
expand_to_checks r u =
    let sites = site_set r u in
    let eps = set_of r.endpoints in
    add_where (λ c. includes sites c.site_id || is_in eps c.endpoint_id) (λ c. c.id) u.checks
      (set_of r.checks)

unfoldable pub expand_to_endpoints : Resolved → Universe → List String
unfolding add_where site_set set_of
expand_to_endpoints r u =
    let sites = site_set r u in
    add_where (λ e. includes sites e.site_id) (λ e. e.id) u.endpoints (set_of r.endpoints)

module _ (lower : Text → Text) where
  -- The ids of the objects of the target's kind that the rules match.
  unfoldable pub matching : MemberType → GroupRules → Universe → List String
  unfolding matches_rules
  matching location rules u =
      map (λ x. x.id) (keep (λ x. matches_rules lower (of_location x) rules u) u.locations)
  matching site rules u =
      map (λ x. x.id) (keep (λ x. matches_rules lower (of_site x) rules u) u.sites)
  matching endpoint rules u =
      map (λ x. x.id) (keep (λ x. matches_rules lower (of_endpoint x) rules u) u.endpoints)
  matching check rules u =
      map (λ x. x.id) (keep (λ x. matches_rules lower (of_check x) rules u) u.checks)

  abbrev push_all : MemberType → List String → Resolved
  push_all location ids = record nobody { locations = ids }
  push_all site ids = record nobody { sites = ids }
  push_all endpoint ids = record nobody { endpoints = ids }
  push_all check ids = record nobody { checks = ids }

  unfoldable pub resolve_group : Group → Universe → List Membership → Resolved × List Membership
  unfolding matching sort_members
  resolve_group g u table =
      let (out, gone) = sort_members u (of_group g table) nobody in
      if g.kind === "filter"
      then (push_all g.target (matching g.target g.rules u), table)
      else (out, without gone table)

  abbrev each_group :
      Universe → List Group → List Membership → List (String × List String) × List Membership
  each_group u [] table = ([], table)
  each_group u (g ∷ gs) table =
      let (r, table') = resolve_group g u table in
      let (later, last) = each_group u gs table' in
      ((g.id, set_of (expand_to_checks r u)) ∷ later, last)

  -- The map from group ids to sets of check ids, as its entries.
  unfoldable pub check_ids_for_groups :
      List String
      → List Group
      → Universe
      → List Membership
      → List (String × List String) × List Membership
  unfolding resolve_group expand_to_checks set_of
  check_ids_for_groups [] groups u table = ([], table)
  check_ids_for_groups (i ∷ ids) groups u table =
      each_group u (keep (λ g. includes (i ∷ ids) g.id) groups) table
