-- ===== src/Exclude/Items/AsText.antt =====
-- `excludeItems` of engine/src/services/probes/exclude.ts on its own results, as a list and as
-- lines of text (`items.join("\n")` of engine/src/services/exclusions.ts).
use looksee.Prelude.{
  ℕ, zero, suc, ◌≤◌, ◌≡◌, refl, ap, ◌∙◌, inl, inr, Bool, true, false, List, [], ◌∷◌, ◌++◌, map,
  keep, take, length, length-take, All, arith, Bool-cases,
}
use looksee.Prelude.Text.{Text, trim}
use looksee.Prelude.Trim.{trim_twice, All-trim}
use looksee.Exclude.Items.{
  Setting, listed, written, other, is_comma_or_line, is_line_end, onto_first, split_at, parts,
  is_filled, exclude_items,
}

-- `items.join("\n")`
abbrev pub lines : List Text → Text
lines [] = []
lines (i ∷ []) = i
lines (i ∷ j ∷ items) = i ++ b'\n' ∷ lines (j ∷ items)

abbrev pub NoLineEnd : ℕ → Type 0
NoLineEnd c = is_line_end c ≡ false

-- Items in a list have no line end.
abbrev pub OnOneLine : Setting → Type 0
OnOneLine (listed items) = All (All NoLineEnd) items
OnOneLine (written s) = Unit
OnOneLine other = Unit

abbrev CleanItem : Text → Type 0
CleanItem i = (trim i ≡ i) × (is_filled i ≡ true) × All NoLineEnd i

All-onto_first :
    (c : ℕ) (ps : List Text)
    → NoLineEnd c
    → All (All NoLineEnd) ps
    → All (All NoLineEnd) (onto_first c ps)
All-onto_first c [] hc h = ((hc, tt), tt)
All-onto_first c (p ∷ ps) hc (hp, h) = ((hc, hp), h)

All-split_at :
    (sep : ℕ → Bool)
    → ((c : ℕ) → sep c ≡ false → NoLineEnd c)
    → (s : Text) → All (All NoLineEnd) (split_at sep s)
All-split_at sep ends [] = (tt, tt)
All-split_at sep ends (c ∷ s) = elim (Bool-cases (sep c)) [
  | inl at ↦ rw at (tt, All-split_at sep ends s)
  | inr plain ↦
      rw plain (All-onto_first c (split_at sep s) (ends c plain) (All-split_at sep ends s))
]

All-parts : (v : Setting) (b : Bool) → OnOneLine v → All (All NoLineEnd) (parts v b)
All-parts (listed items) b h = h
All-parts (written s) true h = All-split_at is_comma_or_line (λ c e. ground arith) s
All-parts (written s) false h = All-split_at is_line_end (λ c e. e) s
All-parts other b h = tt

clean_items :
    (ps : List Text) → All (All NoLineEnd) ps → All CleanItem (keep is_filled (map trim ps))
clean_items [] h = tt
clean_items (p ∷ ps) (hp, h) = elim (Bool-cases (is_filled (trim p))) [
  | inl filled ↦ rw filled ((trim_twice p, filled, All-trim NoLineEnd p hp), clean_items ps h)
  | inr empty ↦ rw empty (clean_items ps h)
]

All-take : (n : ℕ) (ps : List Text) → All CleanItem ps → All CleanItem (take n ps)
All-take zero ps h = tt
All-take (suc n) [] h = tt
All-take (suc n) (p ∷ ps) (hp, h) = (hp, All-take n ps h)

take_all : (n : ℕ) (ps : List Text) → length ps ≤ n → take n ps ≡ ps
take_all zero [] h = refl
take_all zero (p ∷ ps) h = absurd (omega arith)
take_all (suc n) [] h = refl
take_all (suc n) (p ∷ ps) h = ap (λ r. p ∷ r) (take_all n ps (omega arith))

-- Clean items come back from a list of them.
filtered_same : (ps : List Text) → All CleanItem ps → keep is_filled (map trim ps) ≡ ps
filtered_same [] h = refl
filtered_same (p ∷ ps) ((trimmed, filled, plain), h) =
    rw (trimmed, filled) (ap (λ r. p ∷ r) (filtered_same ps h))

split_piece :
    (i s : Text)
    → All NoLineEnd i
    → split_at is_line_end (i ++ b'\n' ∷ s) ≡ i ∷ split_at is_line_end s
split_piece [] s h = refl
split_piece (c ∷ i) s (hc, h) = rw hc (ap (λ r. onto_first c r) (split_piece i s h))

split_last : (i : Text) → All NoLineEnd i → split_at is_line_end i ≡ i ∷ []
split_last [] h = refl
split_last (c ∷ i) (hc, h) = rw hc (ap (λ r. onto_first c r) (split_last i h))

split_at-lines :
    (i : Text) (ps : List Text)
    → All CleanItem (i ∷ ps)
    → split_at is_line_end (lines (i ∷ ps)) ≡ i ∷ ps
split_at-lines i [] ((trimmed, filled, plain), h) = split_last i plain
split_at-lines i (j ∷ ps) ((trimmed, filled, plain), h) =
    split_piece i (lines (j ∷ ps)) plain ∙ ap (λ r. i ∷ r) (split_at-lines j ps h)

from_lines :
    (ps : List Text)
    → All CleanItem ps
    → keep is_filled (map trim (split_at is_line_end (lines ps))) ≡ ps
from_lines [] h = refl
from_lines (i ∷ ps) h =
    ap (λ r. keep is_filled (map trim r)) (split_at-lines i ps h) ∙ filtered_same (i ∷ ps) h

-- The items of a setting, sent as one text with an item on each line, are read from it as they
-- were, and so are they from a list of them; where an item of a list does not hold a line end
-- itself.
pub exclude_items-lines :
    (v : Setting) (split_commas : Bool)
    → OnOneLine v
    → (exclude_items (written (lines (exclude_items v split_commas))) false
        ≡ exclude_items v split_commas)
      × (exclude_items (listed (exclude_items v split_commas)) split_commas
          ≡ exclude_items v split_commas)
unfolding exclude_items
exclude_items-lines v b h =
    let all = keep is_filled (map trim (parts v b)) in
    let clean = All-take 1000 all (clean_items (parts v b) (All-parts v b h)) in
    let few : length (take 1000 all) ≤ 1000 = omega (arith, length-take 1000 all) in
    (
      ap (λ r. take 1000 r) (from_lines (take 1000 all) clean) ∙ take_all 1000 (take 1000 all) few,
      ap (λ r. take 1000 r) (filtered_same (take 1000 all) clean)
          ∙ take_all 1000 (take 1000 all) few,
    )
