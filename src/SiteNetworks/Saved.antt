-- ===== src/SiteNetworks/Saved.antt =====
-- `cleanRanges` of engine/src/services/siteNetworks.ts: what is saved for a site.
use looksee.Prelude.{
  ◌≤◌, ◌<◌, ◌≡◌, inl, inr, refl, sym, ap, ◌∙◌, Bool, true, false, Option, none, some, List, [], ◌∷◌,
  map, keep, find, any, length, ltb, All, arith, Bool-cases, Option-cases,
}
use mathlib.Core.Path.{subst}
use looksee.Prelude.Text.{Text, same, trim}
use looksee.Prelude.Same.{same_self, unique_onto, any-unique_onto}
use looksee.Exclude.Items.{is_filled}
use looksee.SiteNetworks.{
  Family, ParsedRange, Sent, Cleaned, ranges, too_many, not_a_range, raw_ranges, filled_ranges,
  parse_range, is_unparsed, is_no_range, with_bad, clean_ranges,
}

-- No text is there twice.
abbrev pub DistinctTexts : List Text → Type 0
DistinctTexts [] = Unit
DistinctTexts (t ∷ ts) = (any (same t) ts ≡ false) × DistinctTexts ts

unique_onto-DistinctTexts : (seen ts : List Text) → DistinctTexts (unique_onto seen ts)
unfolding unique_onto
unique_onto-DistinctTexts seen [] = tt
unique_onto-DistinctTexts seen (t ∷ ts) = elim (Bool-cases (any (same t) seen)) [
  | inl old ↦ rw old (unique_onto-DistinctTexts seen ts)
  | inr new ↦ rw new (
    any-unique_onto (t ∷ seen) ts t ∙ rw (same_self t) (ground arith),
    unique_onto-DistinctTexts (t ∷ seen) ts,
  )
]

find-none {ℓ} :
    {A : Type ℓ} (p : A → Bool) (xs : List A) → find p xs ≡ none → All (λ x. p x ≡ false) xs
find-none p [] h = tt
find-none p (x ∷ xs) h = elim (Bool-cases (p x)) [
  | inl b ↦ let no : some x ≡ none = rw b at h in cc
  | inr b ↦ (b, find-none p xs (rw b at h))
]

find-some :
    (p : Text → Bool) (xs : List Text) (x : Text)
    → find p xs ≡ some x
    → (any (same x) xs ≡ true) × (p x ≡ true)
find-some p [] x h = cc
find-some p (y ∷ ys) x h = elim (Bool-cases (p y)) [
  | inl b ↦
      let e : some y ≡ some x = rw b at h in
      let same_text : y ≡ x = cc in
      (rw (sym same_text, same_self y) refl, subst (λ z. p z ≡ true) same_text b)
  | inr b ↦ let (there, holds) = find-some p ys x (rw b at h) in (ground arith, holds)
]

module _ (ip_version : Text → Option Family) where
  abbrev pub IsRange : Text → Type 0
  IsRange t = (r : ParsedRange) × (parse_range ip_version t ≡ some r)

  is_range : (t : Text) → is_no_range ip_version t ≡ false → IsRange t
  is_range t h = elim (Option-cases (parse_range ip_version t)) [
    | inl e ↦ let contradiction : true ≡ false = ap is_unparsed (sym e) ∙ h in cc
    | inr (r, e) ↦ (r, e)
  ]

  is_range_none : (t : Text) → is_no_range ip_version t ≡ true → parse_range ip_version t ≡ none
  is_range_none t h = elim (Option-cases (parse_range ip_version t)) [
    | inl e ↦ e
    | inr (r, e) ↦ let contradiction : false ≡ true = ap is_unparsed (sym e) ∙ h in cc
  ]

  All-ranges : (ts : List Text) → All (λ t. is_no_range ip_version t ≡ false) ts → All IsRange ts
  All-ranges [] h = tt
  All-ranges (t ∷ ts) (ht, h) = (is_range t ht, All-ranges ts h)

  -- The texts that are sent, trimmed, less the empty ones.
  abbrev pub sent_texts : Sent → List Text
  sent_texts value = keep is_filled (map trim (raw_ranges value))

  -- What an answer says of what was sent.
  abbrev pub Answers : Sent → Cleaned → Type 0
  Answers value (ranges rs) = All IsRange rs × DistinctTexts rs × (length rs ≤ 100)
  Answers value too_many = 100 < length (filled_ranges value)
  Answers value (not_a_range bad) =
      (any (same bad) (sent_texts value) ≡ true) × (parse_range ip_version bad ≡ none)

  with_bad-Answers :
      (value : Sent) (o : Option Text)
      → length (filled_ranges value) ≤ 100
      → find (is_no_range ip_version) (filled_ranges value) ≡ o
      → Answers value (with_bad (filled_ranges value) o)
  unfolding filled_ranges
  with_bad-Answers value none short e = (
    All-ranges (filled_ranges value) (find-none (is_no_range ip_version) (filled_ranges value) e),
    unique_onto-DistinctTexts [] (sent_texts value),
    short,
  )
  with_bad-Answers value (some bad) short e =
      let (there, refused) = find-some (is_no_range ip_version) (filled_ranges value) bad e in
      (ground (arith, any-unique_onto [] (sent_texts value) bad), is_range_none bad refused)

  -- The ranges that are accepted for a site are at most 100, all different, and each is read again
  -- as a range; otherwise there were more than 100 different ones, or the text that is named was
  -- sent and is no range.
  pub clean_ranges-Answers : (value : Sent) → Answers value (clean_ranges ip_version value)
  unfolding clean_ranges
  clean_ranges-Answers value = elim (Bool-cases (ltb 100 (length (filled_ranges value)))) [
    | inl many ↦ rw many (ground arith)
    | inr few ↦ rw few (
        with_bad-Answers value (find (is_no_range ip_version) (filled_ranges value)) (ground arith)
          refl)
  ]
