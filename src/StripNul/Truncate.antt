-- ===== src/StripNul/Truncate.antt =====
-- `truncate` of engine/src/lib/stripNul.ts.
use looksee.Prelude.{
  ℕ, zero, suc, ◌+◌, ◌-◌, ◌≤◌, ◌<◌, min, ◌≡◌, refl, ap, inl, inr, Bool, true, false, not, [], ◌∷◌,
  ◌++◌, ◌==◌, leb, length, take, length-take, every, if◌then◌else◌, arith, Bool-cases,
}
use looksee.Prelude.Text.{Text}
use looksee.StripNul.{is_high, unit_before, ends_high, clean_string, truncate}
use looksee.StripNul.Clean.{paired, Storable, clean_string-Storable}

-- A cut behind a unit that is no high half, and a cut in front of a high half.
paired-take :
    (due : Bool) (s : Text) (n : ℕ)
    → paired due s ≡ true
    → n < length s
    → ends_high (unit_before s (suc n)) ≡ false
    → paired due (take (suc n) s) ≡ true
paired-take due [] n h lt e = absurd (omega arith)
paired-take true (c ∷ s) zero h lt e = ground arith
paired-take false (c ∷ s) zero h lt e = ground arith
paired-take true (c ∷ s) (suc n) h lt e = ground (arith, paired-take false s n)
paired-take false (c ∷ s) (suc n) h lt e = ground (arith, paired-take (is_high c) s n)

paired-take_before :
    (due : Bool) (s : Text) (n : ℕ)
    → paired due s ≡ true
    → n < length s
    → ends_high (unit_before s (suc n)) ≡ true
    → paired due (take n s) ≡ true
paired-take_before due [] n h lt e = absurd (omega arith)
paired-take_before true (c ∷ s) zero h lt e = ground arith
paired-take_before false (c ∷ s) zero h lt e = refl
paired-take_before true (c ∷ s) (suc n) h lt e = ground (arith, paired-take_before false s n)
paired-take_before false (c ∷ s) (suc n) h lt e = ground (arith, paired-take_before (is_high c) s n)

every-take :
    (n : ℕ) (s : Text)
    → every (λ c. not (c == 0)) s ≡ true
    → every (λ c. not (c == 0)) (take n s) ≡ true
every-take zero s h = refl
every-take (suc n) [] h = refl
every-take (suc n) (c ∷ s) h = ground (arith, every-take n s)

take_prefix : (n : ℕ) (s : Text) → (rest : Text) × (take n s ++ rest ≡ s)
take_prefix zero s = (s, refl)
take_prefix (suc n) [] = ([], refl)
take_prefix (suc n) (c ∷ s) = let (rest, e) = take_prefix n s in (rest, ap (λ r. c ∷ r) e)

-- The units that are kept of a text that is too long.
abbrev kept : Text → ℕ → ℕ
kept s max = if ends_high (unit_before s max) then max - 1 else max

same_count : (n : ℕ) → suc n - 1 ≡ n
same_count n = omega arith

kept-paired :
    (s : Text) (max : ℕ)
    → paired false s ≡ true
    → max < length s
    → paired false (take (kept s max) s) ≡ true
kept-paired s zero h lt = refl
kept-paired s (suc n) h lt = elim (Bool-cases (ends_high (unit_before s (suc n)))) [
  | inl high ↦ rw (high, same_count n) (paired-take_before false s n h (omega arith) high)
  | inr plain ↦ rw plain (paired-take false s n h (omega arith) plain)
]

-- What truncate promises of a result `r` for the cleaned text `clean`.
abbrev pub Cut : Text → ℕ → Text → Type 0
Cut clean max r =
    Storable r
    × (length r ≤ max)
    × (min max (length clean) ≤ length r + 1)
    × ((rest : Text) × (r ++ rest ≡ clean))

append-nil : (s : Text) → s ++ [] ≡ s
append-nil [] = refl
append-nil (c ∷ s) = ap (λ r. c ∷ r) (append-nil s)

-- The result of truncate can be stored: it holds no NUL and no half of a pair. It is a beginning of
-- the cleaned text of at most `max` units, and falls short of what fits by one unit at most.
pub truncate-Cut : (s : Text) (max : ℕ) → Cut (clean_string s) max (truncate s max)
unfolding truncate
truncate-Cut s max =
    let clean = clean_string s in
    let storable = (clean_string-Storable s).0 in
    elim (Bool-cases (leb (length clean) max)) [
      | inl fits ↦ rw fits (storable, ground arith, omega arith, ([], append-nil clean))
      | inr long ↦ rw long (
        (
          every-take (kept clean max) clean (storable.0),
          kept-paired clean max (storable.1) (ground arith),
        ),
        ground (arith, length-take (kept clean max) clean),
        ground (arith, length-take (kept clean max) clean),
        take_prefix (kept clean max) clean,
      )
    ]
