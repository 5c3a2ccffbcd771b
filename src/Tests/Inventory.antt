-- ===== src/Tests/Inventory.antt =====
-- Groups, and the exclusions that apply through them, on a small inventory.
use looksee.Prelude.{
  ◌≡◌, refl, true, false, not, ◌&&◌, ◌||◌, Option, none, some, String, List, [], ◌∷◌, ◌===◌, map,
  any, includes,
}
use looksee.Prelude.Text.{Text, codes, lower_unit}
use looksee.Prelude.Sets.{Distinct, add, add_all, add_where, set_of}
use looksee.Groups.Inventory.{
  SiteRow, EndpointRow, CheckRow, Universe, load_universe, update_each, worse_status,
}
use looksee.Groups.Rules.{
  site, endpoint, of_endpoint, Condition, GroupRules, field_values, op_matches, condition_holds,
  matches_rules,
}
use looksee.Groups.Rules.Negation.{negate, matches_rules-negate}
use looksee.Groups.Saving.{valid, clean_conditions, validate_rules}
use looksee.Groups.Saving.Valid.{as_sent}
use looksee.Groups.Members.{
  Group, Membership, Resolved, site_set, expand_to_checks, sort_members, resolve_group,
}
use looksee.Groups.Members.Covered.{covers_check, expand_to_checks-covers}

-- Lower-casing of ASCII.
abbrev lower : Text → Text
lower = map lower_unit

abbrev hall : SiteRow
hall = record {
  id = "s1";
  name = codes "Hall";
  description = none;
  location_id = some "l1";
  collector_endpoint_id = none;
}

abbrev web : EndpointRow
web = record {
  id = "e1";
  name = codes "web";
  site_id = "s2";
  hostname = none;
  os = some (codes "Linux");
  tags = codes "prod" ∷ codes "edge" ∷ [];
  agent_api_key = none;
  agent_version = none;
}

abbrev check_at : String → String → Option String → Option String → CheckRow
check_at id s e status = record {
  id = id;
  name = codes "ping";
  type_id = codes "ping";
  site_id = s;
  endpoint_id = e;
  tags = [];
  last_status = status;
  enabled = true;
}

abbrev checks : List CheckRow
checks =
    check_at "c1" "s1" none (some "up")
    ∷ check_at "c2" "s2" (some "e1") (some "down")
    ∷ check_at "c3" "s2" none none
    ∷ []

abbrev universe : Universe
universe =
    load_universe (record { id = "l1"; name = codes "Berlin"; description = none } ∷ []) (hall ∷ [])
      (web ∷ []) checks

statuses : (universe.site_status "s2" ≡ some "down") × (universe.endpoint_status "e9" ≡ none)
unfolding load_universe update_each worse_status
statuses = (refl, refl)

abbrev no_prod : List Condition
no_prod = record { field = "tag"; op = "is_not"; value = codes "PROD" } ∷ []

abbrev with_prod : List Condition
with_prod = map negate no_prod

prod :
    matches_rules lower
      (of_endpoint web)
      (record { match_any = true; conditions = with_prod })
      universe
    ≡ true
unfolding matches_rules condition_holds field_values op_matches
prod = refl

matches_rules-negate_example :
    matches_rules lower
      (of_endpoint web)
      (record { match_any = true; conditions = with_prod })
      universe
    ≡ not (
        matches_rules lower
          (of_endpoint web)
          (record { match_any = false; conditions = no_prod })
          universe)
matches_rules-negate_example =
    matches_rules-negate lower (of_endpoint web) universe true no_prod (λ e. cc) (refl, tt)

abbrev rules : GroupRules
rules = record { match_any = true; conditions = no_prod }

passes : validate_rules "endpoint" (as_sent rules) ≡ valid (endpoint, rules)
unfolding validate_rules clean_conditions
passes = refl

abbrev in_berlin : Resolved
in_berlin = record { locations = "l1" ∷ []; sites = []; endpoints = "e1" ∷ []; checks = "c1" ∷ [] }

expanded : expand_to_checks in_berlin universe ≡ "c1" ∷ "c2" ∷ []
unfolding expand_to_checks site_set add_where add add_all set_of load_universe
expanded = refl

expand_to_checks-covers_example :
    (includes (expand_to_checks in_berlin universe) "c2"
      ≡ includes in_berlin.checks "c2"
        || any (λ c. covers_check in_berlin universe c && c.id === "c2") universe.checks)
    × Distinct (expand_to_checks in_berlin universe)
expand_to_checks-covers_example = expand_to_checks-covers in_berlin universe "c2"

abbrev listed_group : Group
listed_group = record { id = "g"; kind = "manual"; target = site; rules = rules }

abbrev member : String → String → String → Membership
member id type_name member_id = record {
  id = id;
  group_id = "g";
  member_type = type_name;
  member_id = member_id;
}

-- The site s7 is gone.
abbrev memberships : List Membership
memberships = member "m1" "site" "s7" ∷ member "m2" "site" "s1" ∷ member "m3" "endpoint" "e1" ∷ []

tidied :
    (resolve_group lower listed_group universe memberships).1
    ≡ member "m2" "site" "s1" ∷ member "m3" "endpoint" "e1" ∷ []
unfolding resolve_group sort_members load_universe
tidied = refl
