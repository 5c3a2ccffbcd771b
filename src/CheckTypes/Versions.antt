-- ===== src/CheckTypes/Versions.antt =====
-- Comparing dotted versions of agents (`versionAtLeast` of engine/src/db/checkTypes.ts). A part is
-- what `parseInt` reads, and 0 where it reads nothing or 0; versions have no negative parts.
use looksee.Prelude.{
  ℕ, Bool, true, false, Option, none, some, List, [], ◌∷◌, ◌==◌, ltb, if◌then◌else◌, ◌++◌, map, ◌≡◌,
  ◌≢◌, refl, ◌⊎◌, inl, inr, arith, Bool-cases,
}
use looksee.Prelude.Text.{Text, codes, same}
use looksee.Prelude.Int.{ℤ, pos}
use looksee.Maintenance.{parse_int}

-- The loop over the parts, a missing part being 0.
unfoldable pub at_least : List ℕ → List ℕ → Bool
at_least [] [] = true
at_least [] (b ∷ bs) = let rest = at_least [] bs in if 0 == b then rest else ltb b 0
at_least (a ∷ u) [] = let rest = at_least u [] in if a == 0 then rest else ltb 0 a
at_least (a ∷ u) (b ∷ bs) = let rest = at_least u bs in if a == b then rest else ltb b a

-- `text.split(".")`, with the part so far
abbrev split_dots : Text → Text → List Text
split_dots part [] = part ∷ []
split_dots part (c ∷ s) =
    let more = split_dots (part ++ (c ∷ [])) s in
    let next = split_dots [] s in if c == b'.' then part ∷ next else more

-- `parseInt(n, 10) || 0`
abbrev number_of_part : Option ℤ → ℕ
number_of_part (some (pos n)) = n
number_of_part _ = 0

abbrev pub parts : Text → List ℕ
parts s = map (λ part. number_of_part (parse_int part)) (split_dots [] s)

unfoldable pub version_at_least : Option Text → Text → Bool
version_at_least none required = false
version_at_least (some []) required = false
version_at_least (some (c ∷ s)) required =
    if same (c ∷ s) (codes "dev") then true else at_least (parts (c ∷ s)) (parts required)

at_least_total : (a b : List ℕ) → (at_least a b ≡ true) ⊎ (at_least b a ≡ true)
unfolding at_least
at_least_total [] [] = inl refl
at_least_total [] (y ∷ b) = ground (arith, at_least_total [] b)
at_least_total (x ∷ a) [] = ground (arith, at_least_total a [])
at_least_total (x ∷ a) (y ∷ b) = ground (arith, at_least_total a b)

at_least_trans : (a b c : List ℕ) → at_least a b ≡ true → at_least b c ≡ true → at_least a c ≡ true
unfolding at_least
at_least_trans [] [] [] h k = refl
at_least_trans [] [] (z ∷ c) h k = k
at_least_trans [] (y ∷ b) [] h k = refl
at_least_trans [] (y ∷ b) (z ∷ c) h k = ground (arith, at_least_trans [] b c)
at_least_trans (x ∷ a) [] [] h k = h
at_least_trans (x ∷ a) [] (z ∷ c) h k = ground (arith, at_least_trans a [] c)
at_least_trans (x ∷ a) (y ∷ b) [] h k = ground (arith, at_least_trans a b [])
at_least_trans (x ∷ a) (y ∷ b) (z ∷ c) h k = ground (arith, at_least_trans a b c)

-- Of two releases that both name a version, one is at least the other, whatever the numbers of
-- their parts.
pub version_at_least_total :
    (a b : Text)
    → a ≢ []
    → b ≢ []
    → (version_at_least (some a) b ≡ true) ⊎ (version_at_least (some b) a ≡ true)
unfolding version_at_least
version_at_least_total [] b n m = absurd (n refl)
version_at_least_total (x ∷ a) [] n m = absurd (m refl)
version_at_least_total (x ∷ a) (y ∷ b) n m =
    ground (arith, at_least_total (parts (x ∷ a)) (parts (y ∷ b)))

else_part : (d x : Bool) → d ≡ false → (if d then true else x) ≡ true → x ≡ true
else_part true x e h = absurd (cc)
else_part false x e h = h

-- A release at least as new as a numbered one that is at least `required` is at least `required`.
pub version_at_least_trans :
    (a b required : Text)
    → same b (codes "dev") ≡ false
    → version_at_least (some a) b ≡ true
    → version_at_least (some b) required ≡ true
    → version_at_least (some a) required ≡ true
unfolding version_at_least
version_at_least_trans [] b required d h k = h
version_at_least_trans (x ∷ a) [] required d h k = absurd (cc)
version_at_least_trans (x ∷ a) (y ∷ b) required d h k =
    elim (Bool-cases (same (x ∷ a) (codes "dev"))) [
      | inl dev ↦ rw dev refl
      | inr numbered ↦ rw numbered (
          at_least_trans (parts (x ∷ a)) (parts (y ∷ b)) (parts required)
            (else_part (same (x ∷ a) (codes "dev")) _ numbered h)
            (else_part (same (y ∷ b) (codes "dev")) _ d k))
    ]
