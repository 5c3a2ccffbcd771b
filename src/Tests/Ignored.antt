-- ===== src/Tests/Ignored.antt =====
-- Excluded items on concrete settings and lists.
use looksee.Prelude.{
  String, ◌≡◌, refl, true, false, ◌&&◌, ◌||◌, none, some, List, [], ◌∷◌, map, any, arith,
}
use looksee.Prelude.Text.{Text, codes, lower_unit}
use looksee.Prelude.Sets.{add, add_all, set_of}
use looksee.Exclude.{name_excluded, text_excluded, includes_unit}
use looksee.Exclude.Items.{written, exclude_items, kinds_for_type}
use looksee.Maintenance.{GroupChecks}
use looksee.Exclusions.{
  ExclusionList, CheckLike, CacheEntry, Config, item_of, of_check, own_items, kinds_of,
  metric_instance, from_lists, first_ones, exclusions_for, with_exclusions, limited_groups,
  enabled_lists,
}
use looksee.Exclusions.Sources.{MapsWildcards, applies, exclusions_for-excluded}

-- Lower-casing of ASCII.
abbrev lower : Text → Text
lower = map lower_unit

lower-includes :
    (p : Text)
    → (includes_unit (lower p) b'*' ≡ includes_unit p b'*')
      × (includes_unit (lower p) b'?' ≡ includes_unit p b'?')
lower-includes [] = (refl, refl)
lower-includes (c ∷ p) = ground (arith, lower-includes p)

lower-MapsWildcards : MapsWildcards lower
lower-MapsWildcards p = ground (arith, lower-includes p)

abbrev typed : Text
typed = codes " /snap/*, /boot/efi\r\n\r\n/tmp "

three : exclude_items (written typed) true ≡ codes "/snap/*" ∷ codes "/boot/efi" ∷ codes "/tmp" ∷ []
unfolding exclude_items
three = refl

abbrev disk_check : CheckLike
disk_check = record {
  id = "c1";
  type_id = "host_metric";
  config = record { metric = some "disk.used_percent"; exclude = written (codes "/Snap/*") };
}

abbrev mounts : List ExclusionList
mounts =
    record {
      id = "x1";
      name = codes "Common";
      kind = "mounts";
      items = codes "/snap/*" ∷ codes "/boot" ∷ [];
      apply_to_all = false;
      group_ids = "g1" ∷ [];
      enabled = true;
    }
    ∷ []

abbrev entry : CacheEntry
entry = record { at = 0; lists = mounts; group_checks = λ g. "c1" ∷ [] }

abbrev store : looksee.Exclusions.Store
store = record { table = mounts; cache = none }

read_lists : (enabled_lists (λ gs g. gs) 7 store).0.group_checks "any" ≡ "g1" ∷ []
unfolding enabled_lists limited_groups set_of add_all add
read_lists = refl

sent :
    with_exclusions lower disk_check entry true
    ≡ record disk_check.config { exclude = written (codes "/Snap/*\n/boot") }
unfolding with_exclusions exclusions_for first_ones from_lists kinds_of kinds_for_type
    metric_instance exclude_items
sent = refl

mount_kind : kinds_of disk_check ≡ "mounts" ∷ []
unfolding kinds_of kinds_for_type metric_instance
mount_kind = refl

-- A list that is switched off has an item that would mean the name.
abbrev with_off : looksee.Exclusions.Store
with_off = record {
  table =
      record {
        id = "x2";
        name = codes "Off";
        kind = "mounts";
        items = codes "/var" ∷ [];
        apply_to_all = true;
        group_ids = [];
        enabled = false;
      }
      ∷ mounts;
  cache = none;
}

abbrev checks_of : List String → GroupChecks
checks_of gs g = "c1" ∷ []

exclusions_for-excluded_example :
    (name_excluded lower (some (codes "/var")) (
        map (λ i. i.value) (exclusions_for lower disk_check (enabled_lists checks_of 7 with_off).0))
      ≡ name_excluded lower (some (codes "/var")) (own_items disk_check "mounts")
        || any
            (λ l.
              l.enabled
              && (applies ("mounts" ∷ []) (enabled_lists checks_of 7 with_off).0.group_checks "c1" l
                  && name_excluded lower (some (codes "/var")) l.items))
            with_off.table)
    × (text_excluded lower (some (codes "/var")) (
          map
            (λ i. i.value)
            (exclusions_for lower disk_check (enabled_lists checks_of 7 with_off).0))
        ≡ text_excluded lower (some (codes "/var")) (own_items disk_check "mounts")
          || any
              (λ l.
                l.enabled
                && (applies
                      ("mounts" ∷ [])
                      (enabled_lists checks_of 7 with_off).0.group_checks
                      "c1"
                      l
                    && text_excluded lower (some (codes "/var")) l.items))
              with_off.table)
exclusions_for-excluded_example =
    exclusions_for-excluded lower checks_of (codes "/var") disk_check with_off 7 "mounts" []
      lower-MapsWildcards mount_kind refl
