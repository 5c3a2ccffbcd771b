-- ===== src/Receivers/Chunks.antt =====
-- The buffer of a TCP connection and what is appended to it
-- (engine/src/services/receivers/core.ts).
use looksee.Prelude.{
  ℕ, zero, suc, ◌≤◌, Bool, true, false, ◌&&◌, Option, none, some, [], ◌∷◌, ◌++◌, ◌==◌, leb, length,
  take, ◌≡◌, refl, ap, inl, inr, arith, Bool-cases, Option-cases, length-append,
}
use looksee.Prelude.Text.{Text, is_digit}
use looksee.Receivers.Framing.{drop, counted_from, split_line, whole, next_frame}

abbrev more_text : Text → Option (ℕ × Text) → Option (ℕ × Text)
more_text b none = none
more_text b (some (n, s)) = some (n, s ++ b)

abbrev more_rest : Text → Option (Text × Text) → Option (Text × Text)
more_rest b none = none
more_rest b (some (line, s)) = some (line, s ++ b)

counted_from-append :
    (seen : Bool) (acc : ℕ) (a b : Text) (len : ℕ) (after : Text)
    → counted_from seen acc a ≡ some (len, after)
    → counted_from seen acc (a ++ b) ≡ some (len, after ++ b)
unfolding counted_from
counted_from-append seen acc [] b len after h = absurd (cc)
counted_from-append seen acc (c ∷ a) b len after h = elim (Bool-cases (is_digit c)) [
  | inl digit ↦ rw digit (counted_from-append true _ a b len after (rw digit at h))
  | inr end ↦ elim (Bool-cases (seen && c == b' ')) [
    | inl space ↦ rw (end, space) (ap (λ o. more_text b o) (rw (end, space) at h))
    | inr other ↦ absurd (ground arith)
  ]
]

-- A newline ends the digits: a text that holds one is counted or not whatever follows.
not_counted-append :
    (seen : Bool) (acc : ℕ) (a b : Text) (line rest : Text)
    → split_line a ≡ some (line, rest)
    → counted_from seen acc a ≡ none
    → counted_from seen acc (a ++ b) ≡ none
unfolding counted_from split_line
not_counted-append seen acc [] b line rest h n = absurd (cc)
not_counted-append seen acc (c ∷ a) b line rest h n = elim (Bool-cases (is_digit c)) [
  | inr end ↦ elim (Bool-cases (seen && c == b' ')) [
    | inl space ↦ absurd (ground arith)
    | inr other ↦ rw (end, other) refl
  ]
  | inl digit ↦
      let other : (c == b'\n') ≡ false = ground arith in
      elim (Option-cases (split_line a)) [
        | inl missing ↦ absurd (ground (arith, rw (other, missing) at h))
        | inr ((l, r), found) ↦ rw digit (not_counted-append true _ a b l r found (rw digit at n))
      ]
]

split_line-append :
    (a b line rest : Text)
    → split_line a ≡ some (line, rest)
    → split_line (a ++ b) ≡ some (line, rest ++ b)
unfolding split_line
split_line-append [] b line rest h = absurd (cc)
split_line-append (c ∷ a) b line rest h = elim (Bool-cases (c == b'\n')) [
  | inl newline ↦ rw newline (ap (λ o. more_rest b o) (rw newline at h))
  | inr other ↦ elim (Option-cases (split_line a)) [
    | inl missing ↦ absurd (ground (arith, rw (other, missing) at h))
    | inr ((l, r), found) ↦
        rw (other, split_line-append a b l r found)
          (ap (λ o. more_rest b o) (rw (other, found) at h))
  ]
]

take-append : (n : ℕ) (a b : Text) → n ≤ length a → take n (a ++ b) ≡ take n a
take-append zero a b h = refl
take-append (suc n) [] b h = absurd (omega arith)
take-append (suc n) (c ∷ a) b h = ap (λ s. c ∷ s) (take-append n a b (omega arith))

drop-append : (n : ℕ) (a b : Text) → n ≤ length a → drop n (a ++ b) ≡ drop n a ++ b
drop-append zero a b h = refl
drop-append (suc n) [] b h = absurd (omega arith)
drop-append (suc n) (c ∷ a) b h = drop-append n a b (omega arith)

whole-append :
    (len : ℕ) (after b message rest : Text)
    → whole (len, after) ≡ some (message, rest)
    → whole (len, after ++ b) ≡ some (message, rest ++ b)
whole-append len after b message rest h = elim (Bool-cases (leb len (length after))) [
  | inr short ↦ absurd (ground (arith, rw short at h))
  | inl there ↦
      let there' : leb len (length (after ++ b)) ≡ true = ground (arith, length-append after b) in
      let inside : len ≤ length after = ground arith in
      rw (there', take-append len after b inside, drop-append len after b inside)
        (ap (λ o. more_rest b o) (rw there at h))
]

-- What was taken from a buffer is taken from a longer one too, and the rest grows.
pub next_frame-append :
    (a b message rest : Text)
    → next_frame a ≡ some (message, rest)
    → next_frame (a ++ b) ≡ some (message, rest ++ b)
unfolding next_frame
next_frame-append a b message rest h = elim (Option-cases (counted_from false 0 a)) [
  | inl line ↦
      let found : split_line a ≡ some (message, rest) = rw line at h in
      rw (not_counted-append false 0 a b message rest found line)
        (split_line-append a b message rest found)
  | inr ((len, after), counted) ↦
      rw (counted_from-append false 0 a b len after counted)
        (whole-append len after b message rest (rw counted at h))
]
