-- ===== src/Prelude/Trim.antt =====
-- `trim` of a text: what is trimmed stays as it is.
use Prim.Native.Nat.{ℕ}
use mathlib.Core.Path.{◌≡◌, refl, ap, ◌∙◌}
use mathlib.Core.Logic.{inl, inr}
use mathlib.Core.List.{[], ◌∷◌}
use native.Mathlib.Omega.{arith}
use looksee.Prelude.Tests.{Bool-cases}
use looksee.Prelude.Lists.{All}
use looksee.Prelude.Text.{Text, is_space, trim_start, before_end, trim_end, trim}

before_end-trim_end :
    (c : ℕ) (s : Text) → trim_end s ≡ s → trim_end (before_end c s) ≡ before_end c s
before_end-trim_end c [] h = elim (Bool-cases (is_space c)) [
  | inl space ↦ rw space refl
  | inr other ↦ rw other (rw other refl)
]
before_end-trim_end c (d ∷ s) h = ap (λ r. before_end c r) h

trim_end_twice : (s : Text) → trim_end (trim_end s) ≡ trim_end s
trim_end_twice [] = refl
trim_end_twice (c ∷ s) = before_end-trim_end c (trim_end s) (trim_end_twice s)

trim_start_twice : (s : Text) → trim_start (trim_start s) ≡ trim_start s
trim_start_twice [] = refl
trim_start_twice (c ∷ s) = elim (Bool-cases (is_space c)) [
  | inl space ↦ rw space (trim_start_twice s)
  | inr other ↦ rw other (rw other refl)
]

tail_ends : (c : ℕ) (s r : Text) → before_end c r ≡ c ∷ s → r ≡ s
tail_ends c s [] h = elim (Bool-cases (is_space c)) [
  | inl space ↦ absurd (ground arith)
  | inr other ↦ ground arith
]
tail_ends c s (d ∷ r) h = cc

trim_end-trim_start : (s : Text) → trim_end s ≡ s → trim_end (trim_start s) ≡ trim_start s
trim_end-trim_start [] h = refl
trim_end-trim_start (c ∷ s) h = elim (Bool-cases (is_space c)) [
  | inl space ↦ rw space (trim_end-trim_start s (tail_ends c s (trim_end s) h))
  | inr other ↦ rw other h
]

pub trim_twice : (s : Text) → trim (trim s) ≡ trim s
trim_twice s =
    ap (λ r. trim_start r) (trim_end-trim_start (trim_end s) (trim_end_twice s))
    ∙ trim_start_twice (trim_end s)

module _ (P : ℕ → Type 0) where
  All-before_end : (c : ℕ) (s : Text) → P c → All P s → All P (before_end c s)
  All-before_end c [] hc h = elim (Bool-cases (is_space c)) [
    | inl space ↦ rw space tt
    | inr other ↦ rw other (hc, tt)
  ]
  All-before_end c (d ∷ s) hc h = (hc, h)

  All-trim_end : (s : Text) → All P s → All P (trim_end s)
  All-trim_end [] h = tt
  All-trim_end (c ∷ s) (hc, h) = All-before_end c (trim_end s) hc (All-trim_end s h)

  All-trim_start : (s : Text) → All P s → All P (trim_start s)
  All-trim_start [] h = tt
  All-trim_start (c ∷ s) (hc, h) = elim (Bool-cases (is_space c)) [
    | inl space ↦ rw space (All-trim_start s h)
    | inr other ↦ rw other (hc, h)
  ]

  pub All-trim : (s : Text) → All P s → All P (trim s)
  All-trim s h = All-trim_start (trim_end s) (All-trim_end s h)
