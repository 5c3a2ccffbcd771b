-- ===== src/Tests/Names.antt =====
-- Exclusion patterns on concrete names.
use looksee.Prelude.{◌≡◌, refl, true, false, some, [], ◌∷◌, map, any, arith}
use looksee.Prelude.Text.{Text, codes, lower_unit}
use looksee.Exclude.{
  glob, glob_match, includes_unit, name_excluded, text_excluded, glob_loop, only_stars,
}
use looksee.Exclude.Glob.{glob_spec, StarFree, glob-spec}
use looksee.Exclude.Names.{KeepsWildcards, name_excluded-spec}

-- Lower-casing of ASCII.
abbrev lower : Text → Text
lower = map lower_unit

lower-includes :
    (p : Text)
    → (includes_unit (lower p) b'*' ≡ includes_unit p b'*')
      × (includes_unit (lower p) b'?' ≡ includes_unit p b'?')
lower-includes [] = (refl, refl)
lower-includes (c ∷ p) = ground (arith, lower-includes p)

lower-KeepsWildcards : KeepsWildcards lower
lower-KeepsWildcards p h = ground (arith, lower-includes p)

matches :
    (glob_match lower (codes "/snap/*") (codes "/SNAP/core/123") ≡ true)
    × (glob_match lower (codes "*a*b?c") (codes "xaxbab1c") ≡ true)
    × (glob_match lower (codes "eth?") (codes "eth") ≡ false)
unfolding glob_match glob_loop only_stars
matches = (refl, refl, refl)

scanner :
    text_excluded lower (some (codes "auth failure from Scanner-01")) (codes "scanner" ∷ []) ≡ true
unfolding text_excluded
scanner = refl

veth : StarFree (codes "veth3a2f")
veth = grind arith

glob-spec_example :
    glob (codes "veth*") (codes "veth3a2f") ≡ some (glob_spec (codes "veth*") (codes "veth3a2f"))
glob-spec_example = glob-spec (codes "veth*") (codes "veth3a2f") veth

name_excluded-spec_example :
    name_excluded lower (some (codes "veth3a2f")) (codes "docker0" ∷ codes "veth*" ∷ [])
    ≡ any
        (λ p. glob_spec (lower p) (lower (codes "veth3a2f")))
        (codes "docker0" ∷ codes "veth*" ∷ [])
name_excluded-spec_example =
    name_excluded-spec lower lower-KeepsWildcards b'v' (codes "eth3a2f")
      (codes "docker0" ∷ codes "veth*" ∷ []) veth
