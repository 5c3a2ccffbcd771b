-- ===== src/Exclude/Names.antt =====
-- Which names engine/src/services/probes/exclude.ts excludes.
use looksee.Prelude.{
  ℕ, suc, ◌+◌, ◌*◌, length, ◌≡◌, refl, sym, ap, ◌∙◌, true, false, none, some, List, [], ◌∷◌, any,
  or_else, arith, inl, inr, Bool-cases,
}
use looksee.Prelude.Text.{Text, same}
use looksee.Exclude.{
  glob, rounds, glob_match, has_wildcard, pattern_matches, name_excluded, glob_loop,
}
use looksee.Exclude.Glob.{any_end, glob_spec, StarFree, glob-spec}

-- A pattern with no wildcard means itself.
spec-same : (p n : Text) → has_wildcard p ≡ false → glob_spec p n ≡ same p n
unfolding glob_spec
spec-same [] [] h = refl
spec-same [] (d ∷ n) h = refl
spec-same (c ∷ p) [] h = ground arith
spec-same (c ∷ p) (d ∷ n) h = ground (arith, spec-same p n)

ends_empty : (n : Text) → any_end (glob_spec []) n ≡ true
unfolding glob_spec
ends_empty [] = refl
ends_empty (d ∷ n) = ends_empty n

stuck_rounds :
    (f d : ℕ) (rest : Text)
    → or_else (glob_loop (suc (suc f)) (b'*' ∷ []) (b'*' ∷ d ∷ rest) none) false ≡ false
unfolding glob_loop
stuck_rounds f d rest = refl

stuck_on_star : (d : ℕ) (rest : Text) → or_else (glob (b'*' ∷ []) (b'*' ∷ d ∷ rest)) false ≡ false
stuck_on_star d rest =
    let e : rounds (b'*' ∷ []) (b'*' ∷ d ∷ rest) ≡ suc (suc (2 * length rest + 4)) = omega arith in
    ap (λ f. or_else (glob_loop f (b'*' ∷ []) (b'*' ∷ d ∷ rest) none) false) e
    ∙ stuck_rounds (2 * length rest + 4) d rest

module _ (to_lower : Text → Text) where
  -- Without a `*` in the lower-case name, `globMatch` is the reference matcher on lower-case texts.
  glob_match-spec :
      (pattern name : Text)
      → StarFree (to_lower name)
      → glob_match to_lower pattern name ≡ glob_spec (to_lower pattern) (to_lower name)
  unfolding glob_match
  glob_match-spec pattern name plain =
      ap (λ o. or_else o false) (glob-spec (to_lower pattern) (to_lower name) plain)

  -- Lower-casing brings in no wildcard.
  abbrev pub KeepsWildcards : Type 0
  KeepsWildcards = (p : Text) → has_wildcard p ≡ false → has_wildcard (to_lower p) ≡ false

  pattern_matches-spec :
      KeepsWildcards
      → (name p : Text) → StarFree (to_lower name)
      → pattern_matches to_lower name p ≡ glob_spec (to_lower p) (to_lower name)
  pattern_matches-spec keeps name p plain = elim (Bool-cases (has_wildcard p)) [
    | inl w ↦ rw w (glob_match-spec p name plain)
    | inr w ↦ rw w (sym (spec-same (to_lower p) (to_lower name) (keeps p w)))
  ]

  -- A name is excluded exactly when, lower-cased, one of the lower-cased patterns means it, whether
  -- the pattern has wildcards or not: for names that are not empty and hold no `*`.
  pub name_excluded-spec :
      KeepsWildcards
      → (c : ℕ) (s : Text) (patterns : List Text) → StarFree (to_lower (c ∷ s))
      → name_excluded to_lower (some (c ∷ s)) patterns
        ≡ any (λ p. glob_spec (to_lower p) (to_lower (c ∷ s))) patterns
  unfolding name_excluded
  name_excluded-spec keeps c s [] plain = refl
  name_excluded-spec keeps c s (p ∷ patterns) plain =
      rw (pattern_matches-spec keeps (c ∷ s) p plain, name_excluded-spec keeps c s patterns plain)

  -- A name that begins with a `*` and goes on is not matched by the pattern `*`, which stands for
  -- any run of characters: the unit `*` of the pattern is compared with the name first.
  pub glob_match_star_name :
      (pattern name : Text) (d : ℕ) (rest : Text)
      → to_lower pattern ≡ b'*' ∷ []
      → to_lower name ≡ b'*' ∷ d ∷ rest
      → (glob_match to_lower pattern name ≡ false)
        × (glob_spec (to_lower pattern) (to_lower name) ≡ true)
  unfolding glob_match glob_spec
  glob_match_star_name pattern name d rest hp hn =
      rw (hp, hn) (stuck_on_star d rest, ends_empty (b'*' ∷ d ∷ rest))
