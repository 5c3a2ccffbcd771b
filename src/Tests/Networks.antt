-- ===== src/Tests/Networks.antt =====
-- Address ranges of sites, with addresses told apart by their text.
use looksee.Prelude.{
  ℕ, ◌≡◌, refl, Bool, true, false, ◌&&◌, Option, none, some, List, [], ◌∷◌, map, take, any, ◌/◌,
  ◌==◌, if◌then◌else◌,
}
use looksee.Prelude.Text.{Text, codes, same, lower_unit}
use looksee.Prelude.Same.{unique_onto}
use looksee.Exclude.Items.{split_at}
use looksee.SiteNetworks.{
  SiteRanges, Family, v4, v6, ParsedRange, written, ranges, not_a_range, parse_range, filled_ranges,
  clean_ranges, plain_address, try_networks, try_sites, site_for_address,
}
use looksee.SiteNetworks.Longest.{IsSiteOf, matches_of, site_for_address-IsSiteOf}
use looksee.SiteNetworks.Saved.{Answers, clean_ranges-Answers}

abbrev lower : Text → Text
lower = map lower_unit

abbrev ip_version : Text → Option Family
ip_version s =
    if any (λ c. c == b':') s then some v6 else if any (λ c. c == b'.') s then some v4 else none

abbrev is_dot : ℕ → Bool
is_dot c = c == b'.'

abbrev same_texts : List Text → List Text → Bool
same_texts [] [] = true
same_texts (s ∷ ss) (t ∷ ts) = same s t && same_texts ss ts
same_texts _ _ = false

-- Whole octets only.
abbrev holds : ParsedRange → Text → Bool
holds r a =
    same_texts (take (r.prefix / 8) (split_at is_dot r.address))
      (take (r.prefix / 8) (split_at is_dot a))

abbrev sites : List SiteRanges
sites =
    record { id = "north"; networks = codes "10.20.0.0/16" ∷ [] }
    ∷ record { id = "lab"; networks = codes "fd00:1::/64" ∷ codes "10.20.7.0/24" ∷ [] }
    ∷ record { id = "south"; networks = codes "10.20.7.0/24" ∷ codes "10.30.0.0/16" ∷ [] }
    ∷ []

in_lab : site_for_address ip_version holds lower (codes "10.20.7.9 ") sites ≡ some "lab"
unfolding site_for_address try_sites try_networks parse_range plain_address
in_lab = refl

unknown_site : site_for_address ip_version holds lower (codes "192.0.2.1") sites ≡ none
unfolding site_for_address try_sites try_networks parse_range plain_address
unknown_site = refl

two_kept :
    clean_ranges ip_version (written (codes "10.0.0.0/8, 10.1.0.5\n10.0.0.0/8"))
    ≡ ranges (codes "10.0.0.0/8" ∷ codes "10.1.0.5" ∷ [])
unfolding clean_ranges parse_range filled_ranges unique_onto
two_kept = refl

too_long :
    clean_ranges ip_version (written (codes "10.0.0.0/33")) ≡ not_a_range (codes "10.0.0.0/33")
unfolding clean_ranges parse_range filled_ranges unique_onto
too_long = refl

site_for_address-IsSiteOf_example :
    IsSiteOf (site_for_address ip_version holds lower (codes "10.20.7.9 ") sites) (
      matches_of ip_version holds
        (ip_version (plain_address ip_version lower (codes "10.20.7.9 ")))
        (plain_address ip_version lower (codes "10.20.7.9 "))
        sites)
site_for_address-IsSiteOf_example =
    site_for_address-IsSiteOf ip_version holds lower (codes "10.20.7.9 ") sites

clean_ranges-Answers_example :
    Answers ip_version
      (written (codes "10.0.0.0/8, 10.1.0.5"))
      (clean_ranges ip_version (written (codes "10.0.0.0/8, 10.1.0.5")))
clean_ranges-Answers_example =
    clean_ranges-Answers ip_version (written (codes "10.0.0.0/8, 10.1.0.5"))
