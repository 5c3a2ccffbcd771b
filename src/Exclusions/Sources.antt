-- ===== src/Exclusions/Sources.antt =====
-- `exclusionsFor` of engine/src/services/exclusions.ts: whose items a check ignores, and what
-- leaving out the repeats does.
use looksee.Prelude.{
  true, ℕ, keep, ◌≡◌, refl, sym, ap, ◌∙◌, inl, inr, String, Bool, false, not, ◌&&◌, ◌||◌, none,
  some, List, [], ◌∷◌, ◌++◌, map, any, find, includes, if◌then◌else◌, arith, Bool-cases,
}
use looksee.Prelude.Text.{Text, same}
use looksee.Prelude.Same.{same_self, same_eq}
use looksee.Prelude.Sets.{any-append}
use looksee.Maintenance.{GroupChecks}
use looksee.Exclude.{
  contains, has_wildcard, glob_match, pattern_matches, name_excluded, text_excluded,
}
use looksee.Exclusions.{
  ExclusionList, ExclusionItem, CheckLike, CacheEntry, Store, read_entry, is_stale, enabled_lists,
  kinds_of, own_items, item_of, of_check, of_list, covers, from_lists, first_ones, exclusions_for,
}

abbrev seen_text : Text → List Text → Bool
seen_text t seen = any (λ k. same k t) seen

-- The lists that a check with these kinds takes items from.
abbrev pub applies : List String → GroupChecks → String → ExclusionList → Bool
applies kinds groups check l = includes kinds l.kind && covers groups check l

none_ignored :
    (f : ExclusionList → Bool) (ls : List ExclusionList) → any (λ l. f l && false) ls ≡ false
none_ignored f [] = refl
none_ignored f (l ∷ ls) = ground (arith, none_ignored f ls)

any-enabled :
    (p : ExclusionList → Bool) (ls : List ExclusionList)
    → any p (keep (λ l. l.enabled) ls) ≡ any (λ l. l.enabled && p l) ls
any-enabled p [] = refl
any-enabled p (l ∷ ls) = elim (Bool-cases l.enabled) [
  | inl on ↦ simp on (ap (λ b. p l || b) (any-enabled p ls))
  | inr off ↦ simp off (any-enabled p ls)
]

any-listed :
    (p : ExclusionList → Bool) (ls table : List ExclusionList)
    → ls ≡ keep (λ l. l.enabled) table
    → any p ls ≡ any (λ l. l.enabled && p l) table
any-listed p ls table e = ap (any p) e ∙ any-enabled p table

module _ (lower : Text → Text) where
  -- Lower-casing neither brings in a wildcard nor takes one away.
  abbrev pub MapsWildcards : Type 0
  MapsWildcards = (p : Text) → has_wildcard (lower p) ≡ has_wildcard p

  -- A test of texts that does not tell upper from lower case.
  abbrev CaseBlind : (Text → Bool) → Type 0
  CaseBlind p = (a b : Text) → lower a ≡ lower b → p a ≡ p b

  pattern_matches-CaseBlind : (name : Text) → MapsWildcards → CaseBlind (pattern_matches lower name)
  unfolding glob_match
  pattern_matches-CaseBlind name maps a b e =
      let wild : has_wildcard a ≡ has_wildcard b =
        sym (maps a) ∙ ap (λ t. has_wildcard t) e ∙ maps b in
      ground (arith)

  -- Items whose lower-case text is `k` may be left out where the test fails on one of them.
  any-but :
      (p : Text → Bool) (a : Text) (seen : List Text) (items : List ExclusionItem)
      → CaseBlind p
      → p a ≡ false
      → any (λ i. not (seen_text (lower i.value) (lower a ∷ seen)) && p i.value) items
        ≡ any (λ i. not (seen_text (lower i.value) seen) && p i.value) items
  any-but p a seen [] blind h = refl
  any-but p a seen (i ∷ items) blind h = elim (Bool-cases (same (lower a) (lower i.value))) [
    | inl e ↦
        let out : p i.value ≡ false =
          sym (blind a i.value (same_eq (lower a) (lower i.value) e)) ∙ h in
        ground (arith, any-but p a seen items blind h)
    | inr d ↦ ground (arith, any-but p a seen items blind h)
  ]

  any-first_ones :
      (p : Text → Bool) (seen : List Text) (items : List ExclusionItem)
      → CaseBlind p
      → any (λ i. p i.value) (first_ones lower seen items)
        ≡ any (λ i. not (seen_text (lower i.value) seen) && p i.value) items
  unfolding first_ones
  any-first_ones p seen [] blind = refl
  any-first_ones p seen (i ∷ items) blind = elim (Bool-cases (seen_text (lower i.value) seen)) [
    | inl old ↦ rw old (any-first_ones p seen items blind)
    | inr new ↦ rw new (elim (Bool-cases (p i.value)) [
      | inl hit ↦ rw hit refl
      | inr miss ↦ rw miss (
          any-first_ones p (lower i.value ∷ seen) items blind
          ∙ any-but p i.value seen items blind miss)
    ])
  ]

  any_values :
      (p : Text → Bool) (items : List ExclusionItem)
      → any p (map (λ i. i.value) items) ≡ any (λ i. p i.value) items
  any_values p [] = refl
  any_values p (i ∷ items) = ap (λ b. p i.value || b) (any_values p items)

  any_items :
      (p : Text → Bool) (make : Text → ExclusionItem) (vs : List Text)
      → ((v : Text) → (make v).value ≡ v)
      → any (λ i. p i.value) (map make vs) ≡ any p vs
  any_items p make [] h = refl
  any_items p make (v ∷ vs) h = rw (h v) (ap (λ b. p v || b) (any_items p make vs h))

  any-from_lists :
      (p : Text → Bool) (kinds : List String) (groups : GroupChecks) (check : String)
      (ls : List ExclusionList)
      → any (λ i. p i.value) (from_lists kinds groups check ls)
        ≡ any (λ l. applies kinds groups check l && any p l.items) ls
  unfolding from_lists
  any-from_lists p kinds groups check [] = refl
  any-from_lists p kinds groups check (l ∷ ls) = elim (Bool-cases (applies kinds groups check l)) [
    | inr out ↦ rw out (any-from_lists p kinds groups check ls)
    | inl used ↦ rw used (
        any-append (λ i. p i.value) (map (item_of l.kind (of_list l.id l.name)) l.items)
          (from_lists kinds groups check ls)
        ∙ ground (
          arith,
          any_items p (item_of l.kind (of_list l.id l.name)) l.items (λ v. refl),
          any-from_lists p kinds groups check ls,
        ))
  ]

  any-exclusions_for :
      (p : Text → Bool) (c : CheckLike) (entry : CacheEntry) (kind : String) (kinds : List String)
      → CaseBlind p
      → kinds_of c ≡ kind ∷ kinds
      → any p (map (λ i. i.value) (exclusions_for lower c entry))
        ≡ any p (own_items c kind)
          || any
              (λ l. applies (kind ∷ kinds) entry.group_checks c.id l && any p l.items)
              entry.lists
  unfolding exclusions_for
  any-exclusions_for p c entry kind kinds blind e =
      let own = map (item_of kind of_check) (own_items c kind) in
      let lists = from_lists (kind ∷ kinds) entry.group_checks c.id entry.lists in
      rw (e, exclusions_for)
        (any_values p (first_ones lower [] (own ++ lists))
          ∙ any-first_ones p [] (own ++ lists) blind
          ∙ any-append (λ i. p i.value) own lists
          ∙ ground (
            arith,
            any_items p (item_of kind of_check) (own_items c kind) (λ v. refl),
            any-from_lists p (kind ∷ kinds) entry.group_checks c.id entry.lists,
          ))

  -- What a check ignores by the lists of an entry of the cache. That repeats are left out, ignoring
  -- case, makes no difference.
  exclusions_for-entry :
      (name : Text) (c : CheckLike) (entry : CacheEntry) (kind : String) (kinds : List String)
      → MapsWildcards
      → kinds_of c ≡ kind ∷ kinds
      → let values : List Text = map (λ i. i.value) (exclusions_for lower c entry) in
        (name_excluded lower (some name) values
          ≡ name_excluded lower (some name) (own_items c kind)
            || any
                (λ l.
                  applies (kind ∷ kinds) entry.group_checks c.id l
                  && name_excluded lower (some name) l.items)
                entry.lists)
        × (text_excluded lower (some name) values
            ≡ text_excluded lower (some name) (own_items c kind)
              || any
                  (λ l.
                    applies (kind ∷ kinds) entry.group_checks c.id l
                    && text_excluded lower (some name) l.items)
                  entry.lists)
  unfolding name_excluded text_excluded
  exclusions_for-entry [] c entry kind kinds maps e =
      (sym (none_ignored _ entry.lists), sym (none_ignored _ entry.lists))
  exclusions_for-entry (u ∷ s) c entry kind kinds maps e = (
    any-exclusions_for (pattern_matches lower (u ∷ s)) c entry kind kinds
        (pattern_matches-CaseBlind (u ∷ s) maps) e,
    any-exclusions_for (λ i. contains (lower i) (lower (u ∷ s))) c entry kind kinds
        (λ a b h. ap (λ t. contains t (lower (u ∷ s))) h) e,
  )

  module _ (members : List String → GroupChecks) where
    -- The lists that a lookup reads: those of the table that are enabled.
    enabled_lists-fresh :
        (s : Store) (now : ℕ)
        → is_stale members s.cache now ≡ true
        → (enabled_lists members now s).0 ≡ read_entry members now s.table
    unfolding enabled_lists
    enabled_lists-fresh s now stale = rw stale refl

    -- When the cache is missing or too old, so that the table is read: a check that uses exclusions
    -- ignores a name exactly if one of its own items means it, or an item of a list of the table
    -- that is enabled, whose kind the check uses and which applies to all checks or to one of the
    -- check's groups; and so for a text. That repeats are left out, ignoring case, makes no
    -- difference, where lower-casing keeps wildcards and brings in none.
    pub exclusions_for-excluded :
        (name : Text) (c : CheckLike) (s : Store) (now : ℕ) (kind : String) (kinds : List String)
        → MapsWildcards
        → kinds_of c ≡ kind ∷ kinds
        → is_stale members s.cache now ≡ true
        → let entry : CacheEntry = (enabled_lists members now s).0 in
          let values : List Text = map (λ i. i.value) (exclusions_for lower c entry) in
          (name_excluded lower (some name) values
            ≡ name_excluded lower (some name) (own_items c kind)
              || any
                  (λ l.
                    l.enabled
                    && (applies (kind ∷ kinds) entry.group_checks c.id l
                        && name_excluded lower (some name) l.items))
                  s.table)
          × (text_excluded lower (some name) values
              ≡ text_excluded lower (some name) (own_items c kind)
                || any
                    (λ l.
                      l.enabled
                      && (applies (kind ∷ kinds) entry.group_checks c.id l
                          && text_excluded lower (some name) l.items))
                    s.table)
    exclusions_for-excluded name c s now kind kinds maps e stale =
        let entry = (enabled_lists members now s).0 in
        let (by_name, by_text) = exclusions_for-entry name c entry kind kinds maps e in
        let lists : entry.lists ≡ keep (λ l. l.enabled) s.table =
          ap (λ (x : CacheEntry). x.lists) (enabled_lists-fresh s now stale) in
        (
          by_name
              ∙ ap (λ b. name_excluded lower (some name) (own_items c kind) || b)
                  (any-listed
                    (λ l.
                      applies (kind ∷ kinds) entry.group_checks c.id l
                      && name_excluded lower (some name) l.items)
                    entry.lists s.table lists),
          by_text
              ∙ ap (λ b. text_excluded lower (some name) (own_items c kind) || b)
                  (any-listed
                    (λ l.
                      applies (kind ∷ kinds) entry.group_checks c.id l
                      && text_excluded lower (some name) l.items)
                    entry.lists s.table lists),
        )

  abbrev pub under : Text → ExclusionItem → Bool
  under k i = same (lower i.value) k

  find-first_ones :
      (k : Text) (seen : List Text) (items : List ExclusionItem)
      → find (under k) (first_ones lower seen items)
        ≡ (if seen_text k seen then none else find (under k) items)
  unfolding first_ones
  find-first_ones k seen [] = ground arith
  find-first_ones k seen (i ∷ items) = elim (Bool-cases (same (lower i.value) k)) [
    | inl own ↦
        let same_key : seen_text (lower i.value) seen ≡ seen_text k seen =
          ap (λ t. seen_text t seen) (same_eq (lower i.value) k own) in
        elim (Bool-cases (seen_text k seen)) [
          | inl old ↦ rw (same_key, old) (find-first_ones k seen items ∙ rw old refl)
          | inr new ↦ rw (same_key, new, own) refl
        ]
    | inr other ↦ elim (Bool-cases (seen_text (lower i.value) seen)) [
      | inl old ↦ rw (old, other) (find-first_ones k seen items)
      | inr new ↦ rw (new, other) (find-first_ones k (lower i.value ∷ seen) items ∙ rw other refl)
    ]
  ]

  -- No two items have the same lower-case text.
  abbrev pub DistinctItems : List ExclusionItem → Type 0
  DistinctItems [] = Unit
  DistinctItems (i ∷ items) = (find (under (lower i.value)) items ≡ none) × DistinctItems items

  DistinctItems-first_ones :
      (seen : List Text) (items : List ExclusionItem) → DistinctItems (first_ones lower seen items)
  unfolding first_ones
  DistinctItems-first_ones seen [] = tt
  DistinctItems-first_ones seen (i ∷ items) = elim (Bool-cases (seen_text (lower i.value) seen)) [
    | inl old ↦ rw old (DistinctItems-first_ones seen items)
    | inr new ↦ rw new (
      find-first_ones (lower i.value) (lower i.value ∷ seen) items
          ∙ rw (same_self (lower i.value)) refl,
      DistinctItems-first_ones (lower i.value ∷ seen) items,
    )
  ]

  -- Each text that is excluded is listed once, ignoring case, and under its first source: the
  -- check's own setting if that has it, else the first list that applies.
  pub exclusions_for-first :
      (k : Text) (c : CheckLike) (entry : CacheEntry) (kind : String) (kinds : List String)
      → kinds_of c ≡ kind ∷ kinds
      → (find (under k) (exclusions_for lower c entry)
          ≡ find (under k) (
              map (item_of kind of_check) (own_items c kind)
              ++ from_lists (kind ∷ kinds) entry.group_checks c.id entry.lists))
        × DistinctItems (exclusions_for lower c entry)
  unfolding exclusions_for
  exclusions_for-first k c entry kind kinds e =
      let items =
        map (item_of kind of_check) (own_items c kind)
        ++ from_lists (kind ∷ kinds) entry.group_checks c.id entry.lists in
      rw (e, exclusions_for) (find-first_ones k [] items, DistinctItems-first_ones [] items)
