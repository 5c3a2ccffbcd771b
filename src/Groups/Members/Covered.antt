-- ===== src/Groups/Members/Covered.antt =====
-- `expandToChecks` and `expandToEndpoints` of engine/src/services/groups.ts: what a group covers.
use looksee.Prelude.{
  ◌≡◌, refl, ap, ◌∙◌, String, Bool, ◌&&◌, ◌||◌, not, Option, none, some, List, ◌===◌, any, includes,
  arith,
}
use mathlib.Core.Path.{fun_ext}
use looksee.Prelude.Sets.{
  Distinct, set_of, includes-set_of, includes-add_where, Distinct-add_where, Distinct-set_of,
}
use looksee.Groups.Inventory.{SiteRow, CheckRow, Universe}
use looksee.Groups.Members.{Resolved, is_in, site_set, expand_to_checks}

-- A site is covered as a member, or through its location.
abbrev pub covers_site : Resolved → Universe → String → Bool
covers_site r u id =
    includes r.sites id || any (λ s. is_in r.locations s.location_id && s.id === id) u.sites

-- A check is covered through its site or its endpoint.
abbrev pub covers_check : Resolved → Universe → CheckRow → Bool
covers_check r u c = covers_site r u c.site_id || is_in r.endpoints c.endpoint_id

is_in-set_of : (ids : List String) (o : Option String) → is_in (set_of ids) o ≡ is_in ids o
is_in-set_of ids none = refl
is_in-set_of ids (some id) = ap (λ b. not (id === "") && b) (includes-set_of ids id)

site_set-covers :
    (r : Resolved) (u : Universe) (k : String) → includes (site_set r u) k ≡ covers_site r u k
unfolding site_set
site_set-covers r u k =
    includes-add_where (λ s. is_in (set_of r.locations) s.location_id) (λ s. s.id) u.sites
      (set_of r.sites) k
    ∙ ap (λ b. b || any (λ s. is_in (set_of r.locations) s.location_id && s.id === k) u.sites)
        (includes-set_of r.sites k)
    ∙ ap (λ (f : SiteRow → Bool). includes r.sites k || any f u.sites)
        (fun_ext (λ s. ap (λ b. b && s.id === k) (is_in-set_of r.locations s.location_id)))

-- The checks of a group are those that are members, those whose site is a member or lies at a
-- member location, and those whose endpoint is a member; no other check is, and none is listed
-- twice.
pub expand_to_checks-covers :
    (r : Resolved) (u : Universe) (id : String)
    → (includes (expand_to_checks r u) id
        ≡ includes r.checks id || any (λ c. covers_check r u c && c.id === id) u.checks)
      × Distinct (expand_to_checks r u)
unfolding expand_to_checks
expand_to_checks-covers r u id =
    let covered = λ (c : CheckRow).
      includes (site_set r u) c.site_id || is_in (set_of r.endpoints) c.endpoint_id in
    (
      includes-add_where covered (λ c. c.id) u.checks (set_of r.checks) id
          ∙ ap (λ b. b || any (λ c. covered c && c.id === id) u.checks)
              (includes-set_of r.checks id)
          ∙ ap (λ (f : CheckRow → Bool). includes r.checks id || any f u.checks)
              (fun_ext (λ c.
                ground
                  (arith, site_set-covers r u c.site_id, is_in-set_of r.endpoints c.endpoint_id))),
      Distinct-add_where covered (λ c. c.id) u.checks (set_of r.checks) (Distinct-set_of r.checks),
    )
