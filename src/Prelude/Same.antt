-- ===== src/Prelude/Same.antt =====
-- Equality of texts, and lists without repeated texts.
use mathlib.Core.Path.{◌≡◌, refl}
use mathlib.Core.Bool.{true, false, not, ◌&&◌}
use mathlib.Core.List.{[], ◌∷◌}
use native.Mathlib.Omega.{arith}
use mathlib.Core.Path.{sym, subst}
use mathlib.Core.Logic.{inl, inr}
use mathlib.Core.List.{List}
use looksee.Prelude.Tests.{if◌then◌else◌, Bool-cases}
use looksee.Prelude.Lists.{any}
use looksee.Prelude.Text.{Text, same}

pub same_self : (s : Text) → same s s ≡ true
same_self [] = refl
same_self (c ∷ s) = ground (arith, same_self s)

pub same_eq : (s t : Text) → same s t ≡ true → s ≡ t
same_eq [] [] h = refl
same_eq [] (c ∷ t) h = cc
same_eq (c ∷ s) [] h = cc
same_eq (c ∷ s) (d ∷ t) h = ground (arith, same_eq s t)

pub same_sym : (s t : Text) → same s t ≡ same t s
same_sym [] [] = refl
same_sym [] (d ∷ t) = refl
same_sym (c ∷ s) [] = refl
same_sym (c ∷ s) (d ∷ t) = ground (arith, same_sym s t)

pub same_trans : (s t u : Text) → same s t ≡ true → same t u ≡ same s u
same_trans [] [] u h = refl
same_trans [] (d ∷ t) u h = cc
same_trans (c ∷ s) [] u h = cc
same_trans (c ∷ s) (d ∷ t) [] h = refl
same_trans (c ∷ s) (d ∷ t) (e ∷ u) h = ground (arith, same_trans s t u)

-- `[...new Set(texts)]`, behind the texts that are in the set
unfoldable pub unique_onto : List Text → List Text → List Text
unique_onto seen [] = []
unique_onto seen (t ∷ ts) =
    let fresh = t ∷ unique_onto (t ∷ seen) ts in
    let rest = unique_onto seen ts in if any (same t) seen then rest else fresh

-- The set has what is given and was not seen before.
pub any-unique_onto :
    (seen ts : List Text) (x : Text)
    → any (same x) (unique_onto seen ts) ≡ any (same x) ts && not (any (same x) seen)
unfolding unique_onto
any-unique_onto seen [] x = refl
any-unique_onto seen (t ∷ ts) x = elim (Bool-cases (any (same t) seen)) [
  | inl old ↦ elim (Bool-cases (same x t)) [
    | inl e ↦
        let there : any (same x) seen ≡ true =
          subst (λ y. any (same y) seen ≡ true) (sym (same_eq x t e)) old in
        rw old (ground (arith, any-unique_onto seen ts x))
    | inr d ↦ rw (old, d) (any-unique_onto seen ts x)
  ]
  | inr new ↦ elim (Bool-cases (same x t)) [
    | inl e ↦
        let fresh : any (same x) seen ≡ false =
          subst (λ y. any (same y) seen ≡ false) (sym (same_eq x t e)) new in
        rw (new, e, fresh) refl
    | inr d ↦ rw (new, d) (ground (arith, any-unique_onto (t ∷ seen) ts x))
  ]
]
