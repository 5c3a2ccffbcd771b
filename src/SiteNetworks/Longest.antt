-- ===== src/SiteNetworks/Longest.antt =====
-- `siteForAddress` of engine/src/services/siteNetworks.ts: the most specific range decides.
use looksee.Prelude.{
  ℕ, ◌≤◌, ◌<◌, ◌≡◌, inl, inr, refl, sym, ap, ◌∙◌, Bool, ◌&&◌, Option, none, some, List, [], ◌∷◌,
  ◌++◌, String, All, All-append, leb, if◌then◌else◌, arith, Bool-cases,
}
use mathlib.Core.Path.{subst}
use mathlib.Core.List.{append-nil, append_assoc}
use looksee.Prelude.Text.{Text}
use looksee.SiteNetworks.{
  SiteRanges, Family, ParsedRange, same_family, Best, cannot_beat, parse_range, try_parsed,
  try_range, try_networks, try_sites, id_of, site_of, plain_address, site_for_address,
}

abbrev pub Match : Type 0
Match = String × ℕ

-- The best of some matches, tried one after another.
abbrev better : Best → Option Match → Best
better best none = best
better best (some (id, prefix)) = if cannot_beat best prefix then best else some (id, prefix)

unfoldable best_of : Best → List Match → Best
best_of best [] = best
best_of best (m ∷ ms) = best_of (better best (some m)) ms

-- The first of the longest matches.
abbrev pub IsFirstLongest : Match → List Match → Type 0
IsFirstLongest m ms =
    (before : List Match) × (after : List Match) × (ms ≡ before ++ m ∷ after)
    × All (λ (x : Match). x.1 < m.1) before
    × All (λ (x : Match). x.1 ≤ m.1) after

IsFirstLongest-snoc :
    (m : Match) (ms : List Match)
    → All (λ (x : Match). x.1 < m.1) ms
    → IsFirstLongest m (ms ++ m ∷ [])
IsFirstLongest-snoc m ms below = (ms, [], refl, below, tt)

IsFirstLongest-append :
    (m : Match) (ms : List Match) (x : Match)
    → IsFirstLongest m ms
    → x.1 ≤ m.1
    → IsFirstLongest m (ms ++ x ∷ [])
IsFirstLongest-append m ms x (before, after, e, below, upto) h = (
  before,
  after ++ x ∷ [],
  ap (λ r. r ++ x ∷ []) e ∙ append_assoc before (m ∷ after) (x ∷ []),
  below,
  All-append (λ (x : Match). x.1 ≤ m.1) after (x ∷ []) upto (h, tt),
)

All-upto :
    (a b : ℕ) (ms : List Match)
    → a < b
    → All (λ (x : Match). x.1 ≤ a) ms
    → All (λ (x : Match). x.1 < b) ms
All-upto a b [] h all = tt
All-upto a b (x ∷ ms) h (hx, all) = (omega arith, All-upto a b ms h all)

All-less :
    (a b : ℕ) (ms : List Match)
    → a < b
    → All (λ (x : Match). x.1 < a) ms
    → All (λ (x : Match). x.1 < b) ms
All-less a b [] h all = tt
All-less a b (x ∷ ms) h (hx, all) = (omega arith, All-less a b ms h all)

-- All matches are below one that is longer than the longest.
IsFirstLongest-below :
    (m : Match) (ms : List Match) (b : ℕ)
    → IsFirstLongest m ms
    → m.1 < b
    → All (λ (x : Match). x.1 < b) ms
IsFirstLongest-below m ms b (before, after, e, below, upto) h =
    subst (λ ms. All (λ (x : Match). x.1 < b) ms) (sym e)
      (All-append (λ (x : Match). x.1 < b) before (m ∷ after) (All-less m.1 b before h below)
        (h, All-upto m.1 b after h upto))

-- Matches tried behind those that are seen leave the first of the longest of all.
best_of_longest :
    (m : Match) (seen ms : List Match)
    → IsFirstLongest m seen
    → (n : Match) × (best_of (some m) ms ≡ some n) × IsFirstLongest n (seen ++ ms)
unfolding best_of
best_of_longest m seen [] h = (m, refl, subst (IsFirstLongest m) (sym (append-nil seen)) h)
best_of_longest m seen (x ∷ ms) h = elim (Bool-cases (leb x.1 m.1)) [
  | inl stays ↦
      let (n, e, longest) =
        best_of_longest m (seen ++ x ∷ []) ms (IsFirstLongest-append m seen x h (ground arith)) in
      (n, rw stays e, subst (IsFirstLongest n) (append_assoc seen (x ∷ []) ms) longest)
  | inr beaten ↦
      let (n, e, longest) =
        best_of_longest x (seen ++ x ∷ []) ms
          (IsFirstLongest-snoc x seen (IsFirstLongest-below m seen x.1 h (ground arith))) in
      (n, rw beaten e, subst (IsFirstLongest n) (append_assoc seen (x ∷ []) ms) longest)
]

best_of-append :
    (best : Best) (xs ys : List Match) → best_of best (xs ++ ys) ≡ best_of (best_of best xs) ys
unfolding best_of
best_of-append best [] ys = refl
best_of-append best (x ∷ xs) ys = best_of-append (better best (some x)) xs ys

-- What the ranges that hold an address say of its site: none if there is none, else the site of the
-- first of the longest.
abbrev pub IsSiteOf : Option String → List Match → Type 0
IsSiteOf none ms = ms ≡ []
IsSiteOf (some id) ms = (m : Match) × (m.0 ≡ id) × IsFirstLongest m ms

best_of-IsSiteOf : (ms : List Match) → IsSiteOf (id_of (best_of none ms)) ms
unfolding best_of
best_of-IsSiteOf [] = refl
best_of-IsSiteOf (m ∷ ms) =
    let (n, e, longest) = best_of_longest m (m ∷ []) ms ([], [], refl, tt, tt) in
    rw e (n, refl, longest)

module _ (ip_version : Text → Option Family) (holds : ParsedRange → Text → Bool) where
  abbrev match_of : Family → Text → String → Option ParsedRange → List Match
  match_of family address id none = []
  match_of family address id (some range) =
      if same_family range.family family && holds range address then (id, range.prefix) ∷ [] else []

  abbrev pub matches_in : Family → Text → String → List Text → List Match
  matches_in family address id [] = []
  matches_in family address id (text ∷ texts) =
      match_of family address id (parse_range ip_version text) ++ matches_in family address id texts

  -- The ranges that hold an address, in the order of the sites: each as its site and its length.
  abbrev pub matches : Family → Text → List SiteRanges → List Match
  matches family address [] = []
  matches family address (site ∷ sites) =
      matches_in family address site.id site.networks ++ matches family address sites

  try_parsed-best_of :
      (family : Family) (address : Text) (id : String) (best : Best) (o : Option ParsedRange)
      → try_parsed ip_version holds family address id best o
        ≡ best_of best (match_of family address id o)
  unfolding best_of
  try_parsed-best_of family address id best none = refl
  try_parsed-best_of family address id best (some range) =
      elim (Bool-cases (same_family range.family family)) [
        | inr other ↦ rw other refl
        | inl same ↦ elim (Bool-cases (holds range address)) [
          | inr outside ↦ rw (same, outside) (ground arith)
          | inl inside ↦ rw (same, inside) (ground arith)
        ]
      ]

  try_networks-best_of :
      (family : Family) (address : Text) (id : String) (best : Best) (texts : List Text)
      → try_networks ip_version holds family address id best texts
        ≡ best_of best (matches_in family address id texts)
  unfolding try_networks best_of
  try_networks-best_of family address id best [] = refl
  try_networks-best_of family address id best (text ∷ texts) =
      try_networks-best_of family address id
        (try_range ip_version holds family address id best text) texts
      ∙ ap (λ b. best_of b (matches_in family address id texts))
          (try_parsed-best_of family address id best (parse_range ip_version text))
      ∙ sym (
          best_of-append best (match_of family address id (parse_range ip_version text))
            (matches_in family address id texts))

  try_sites-best_of :
      (family : Family) (address : Text) (best : Best) (sites : List SiteRanges)
      → try_sites ip_version holds family address best sites
        ≡ best_of best (matches family address sites)
  unfolding try_sites best_of
  try_sites-best_of family address best [] = refl
  try_sites-best_of family address best (site ∷ sites) =
      try_sites-best_of family address
        (try_networks ip_version holds family address site.id best site.networks) sites
      ∙ ap (λ b. best_of b (matches family address sites))
          (try_networks-best_of family address site.id best site.networks)
      ∙ sym (
          best_of-append best (matches_in family address site.id site.networks)
            (matches family address sites))

  -- What is no address is in no range.
  abbrev pub matches_of : Option Family → Text → List SiteRanges → List Match
  matches_of none address sites = []
  matches_of (some family) address sites = matches family address sites

  site_of-IsSiteOf :
      (o : Option Family) (address : Text) (sites : List SiteRanges)
      → IsSiteOf (site_of ip_version holds o address sites) (matches_of o address sites)
  site_of-IsSiteOf none address sites = refl
  site_of-IsSiteOf (some family) address sites =
      subst (λ o. IsSiteOf o (matches family address sites))
        (sym (ap id_of (try_sites-best_of family address none sites)))
        (best_of-IsSiteOf (matches family address sites))

  -- An address belongs to the site with the longest range that holds it, and of several equally
  -- long ones to the first; it belongs to none exactly if no range of its family holds it. The
  -- address is the sender's with a mapped IPv4 address taken out of its IPv6 form; what is no
  -- address belongs to no site.
  pub site_for_address-IsSiteOf :
      (lower : Text → Text) (ip : Text) (sites : List SiteRanges)
      → IsSiteOf (site_for_address ip_version holds lower ip sites) (
          matches_of
            (ip_version (plain_address ip_version lower ip))
            (plain_address ip_version lower ip)
            sites)
  unfolding site_for_address
  site_for_address-IsSiteOf lower ip sites =
      site_of-IsSiteOf (ip_version (plain_address ip_version lower ip))
        (plain_address ip_version lower ip) sites
