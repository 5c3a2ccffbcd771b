-- ===== src/SiteNetworks.antt =====
-- engine/src/services/siteNetworks.ts: address ranges of sites. `ip_version` is `net.isIP`, and
-- `holds` is what a `net.BlockList` with one range says of an address.
pub mod Longest
pub mod Saved
use looksee.Prelude.{
  ℕ, zero, suc, ◌+◌, ◌*◌, ◌-◌, Bool, true, false, not, ◌&&◌, ◌||◌, Option, none, some, List, [],
  ◌∷◌, ◌++◌, String, map, keep, find, any, every, take, length, leb, ltb, ◌==◌, if◌then◌else◌,
}
use looksee.Prelude.Text.{Text, codes, same, trim, is_digit, is_space}
use looksee.Prelude.Same.{unique_onto}
use looksee.Exclude.{starts}
use looksee.Exclude.Items.{split_at, is_filled}

pub record SiteRanges : Type 0 where
  pub id : String
  pub networks : List Text

pub data Family : Type 0 where
  v4 : Family
  v6 : Family

pub record ParsedRange : Type 0 where
  pub family : Family
  pub address : Text
  pub prefix : ℕ

abbrev pub max_prefix : Family → ℕ
max_prefix v4 = 32
max_prefix v6 = 128

abbrev pub same_family : Family → Family → Bool
same_family v4 v4 = true
same_family v6 v6 = true
same_family _ _ = false

-- `Number` of digits, onto the value of those before
abbrev number_onto : ℕ → Text → ℕ
number_onto n [] = n
number_onto n (c ∷ s) = number_onto (n * 10 + (c - b'0')) s

-- /^\d{1,3}$/
abbrev is_short_number : Text → Bool
is_short_number s = every is_digit s && leb 1 (length s) && leb (length s) 3

abbrev is_slash : ℕ → Bool
is_slash c = c == b'/'

abbrev range_of : Family → Text → ℕ → Option ParsedRange
range_of family address prefix =
    if ltb (max_prefix family) prefix
    then none
    else some (record { family = family; address = address; prefix = prefix })

-- A range without "/n" is one address.
abbrev with_bits : Family → Text → Option Text → Option ParsedRange
with_bits family address none = range_of family address (max_prefix family)
with_bits family address (some bits) =
    if is_short_number bits then range_of family address (number_onto 0 bits) else none

-- The ranges that a form or a body sends: a list or a text.
pub data Sent : Type 0 where
  listed : List Text → Sent
  written : Text → Sent

pub data Cleaned : Type 0 where
  ranges : List Text → Cleaned
  too_many : Cleaned
  not_a_range : Text → Cleaned

abbrev is_separator : ℕ → Bool
is_separator c = is_space c || c == b','

-- A run of separators leaves empty pieces, which are dropped below.
abbrev pub raw_ranges : Sent → List Text
raw_ranges (listed items) = items
raw_ranges (written s) = split_at is_separator s

unfoldable pub filled_ranges : Sent → List Text
unfolding unique_onto
filled_ranges value = unique_onto [] (keep is_filled (map trim (raw_ranges value)))

abbrev pub is_unparsed : Option ParsedRange → Bool
is_unparsed none = true
is_unparsed (some range) = false

abbrev pub with_bad : List Text → Option Text → Cleaned
with_bad rs none = ranges rs
with_bad rs (some bad) = not_a_range bad

-- The longest match so far: a site and the length of its prefix.
abbrev pub Best : Type 0
Best = Option (String × ℕ)

abbrev pub cannot_beat : Best → ℕ → Bool
cannot_beat none prefix = false
cannot_beat (some (id, longest)) prefix = leb prefix longest

abbrev pub id_of : Best → Option String
id_of none = none
id_of (some (id, prefix)) = some id

module _ (ip_version : Text → Option Family) where
  abbrev with_family : Option Family → Text → Option Text → Option ParsedRange
  with_family none address bits = none
  with_family (some family) address bits = with_bits family address bits

  abbrev parse_parts : List Text → Option ParsedRange
  parse_parts [] = none
  parse_parts (address ∷ []) =
      if is_filled address then with_family (ip_version address) address none else none
  parse_parts (address ∷ bits ∷ []) =
      if is_filled address then with_family (ip_version address) address (some bits) else none
  parse_parts (address ∷ bits ∷ extra ∷ more) = none

  unfoldable pub parse_range : Text → Option ParsedRange
  parse_range text = parse_parts (split_at is_slash (trim text))

  abbrev pub is_no_range : Text → Bool
  is_no_range text = is_unparsed (parse_range text)

  unfoldable pub clean_ranges : Sent → Cleaned
  unfolding parse_range filled_ranges
  clean_ranges value =
      let rs = filled_ranges value in
      let checked = with_bad rs (find is_no_range rs) in
      if ltb 100 (length rs) then too_many else checked

  abbrev is_ipv4 : Text → Bool
  is_ipv4 s = elim (ip_version s) [ some v4 ↦ true | _ ↦ false ]

  -- `s.slice(n)`
  abbrev slice_from : ℕ → Text → Text
  slice_from zero s = s
  slice_from (suc n) [] = []
  slice_from (suc n) (c ∷ s) = slice_from n s

  unfoldable pub plain_address : (Text → Text) → Text → Text
  plain_address lower ip =
      let trimmed = trim ip in
      let rest = slice_from 7 trimmed in
      if starts (codes "::ffff:") (lower trimmed) && is_ipv4 rest then rest else trimmed

  module _ (holds : ParsedRange → Text → Bool) where
    abbrev try_parsed : Family → Text → String → Best → Option ParsedRange → Best
    try_parsed family address id best none = best
    try_parsed family address id best (some range) =
        if not (same_family range.family family) || cannot_beat best range.prefix
        then best
        else if holds range address
        then some (id, range.prefix)
        else best

    abbrev pub try_range : Family → Text → String → Best → Text → Best
    try_range family address id best text = try_parsed family address id best (parse_range text)

    unfoldable pub try_networks : Family → Text → String → Best → List Text → Best
    unfolding parse_range
    try_networks family address id best [] = best
    try_networks family address id best (text ∷ texts) =
        try_networks family address id (try_range family address id best text) texts

    unfoldable pub try_sites : Family → Text → Best → List SiteRanges → Best
    unfolding try_networks
    try_sites family address best [] = best
    try_sites family address best (site ∷ sites) =
        try_sites family address (try_networks family address site.id best site.networks) sites

    abbrev pub site_of : Option Family → Text → List SiteRanges → Option String
    site_of none address sites = none
    site_of (some family) address sites = id_of (try_sites family address none sites)

    unfoldable pub site_for_address : (Text → Text) → Text → List SiteRanges → Option String
    unfolding plain_address try_sites
    site_for_address lower ip sites =
        let address = plain_address lower ip in site_of (ip_version address) address sites
