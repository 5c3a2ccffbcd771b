-- ===== src/Receivers/Octets.antt =====
-- Octet-counted messages in the buffer (engine/src/services/receivers/core.ts).
use looksee.Prelude.{
  ℕ, zero, suc, ◌+◌, ◌/◌, ◌%◌, ◌≤◌, ◌<◌, Bool, true, false, some, [], ◌∷◌, ◌++◌, leb, length, take,
  ◌≡◌, refl, ap, ◌∙◌, inl, inr, arith, Bool-cases, length-append,
}
use looksee.Prelude.Text.{Text, is_digit, show, digits_onto}
use looksee.Receivers.Framing.{drop, counted_from, whole, by_count_or_line, next_frame}

digit : (d : ℕ) → d ≤ 9 → is_digit (b'0' + d) ≡ true
digit d h = ground arith

digits_onto-append :
    (fuel n : ℕ) (s t : Text) → digits_onto fuel n s ++ t ≡ digits_onto fuel n (s ++ t)
unfolding digits_onto
digits_onto-append zero n s t = refl
digits_onto-append (suc fuel) n s t = elim (Bool-cases (leb n 9)) [
  | inl small ↦ rw small refl
  | inr large ↦ rw large (digits_onto-append fuel (n / 10) ((b'0' + n % 10) ∷ s) t)
]

take_whole : (m r : Text) → take (length m) (m ++ r) ≡ m
take_whole [] r = refl
take_whole (c ∷ m) r = ap (λ s. c ∷ s) (take_whole m r)

drop_whole : (m r : Text) → drop (length m) (m ++ r) ≡ r
drop_whole [] r = refl
drop_whole (c ∷ m) r = drop_whole m r

-- Reading the digits of `n` in front of a text is being at the number `n` there.
digits-counted :
    (fuel n : ℕ) (seen : Bool) (rest : Text)
    → n < fuel
    → counted_from seen 0 (digits_onto fuel n rest) ≡ counted_from true n rest
unfolding digits_onto counted_from
digits-counted zero n seen rest h = absurd (omega arith)
digits-counted (suc fuel) n seen rest h = elim (Bool-cases (leb n 9)) [
  | inl small ↦
      rw small (rw (digit n (ground arith)) (ap (λ k. counted_from true k rest) (omega arith)))
  | inr large ↦ rw large (
      digits-counted fuel (n / 10) seen ((b'0' + n % 10) ∷ rest) (ground arith)
      ∙ rw (digit (n % 10) (omega arith)) (ap (λ k. counted_from true k rest) (omega arith)))
]

show-counted : (n : ℕ) (s : Text) → counted_from false 0 (show n ++ (b' ' ∷ s)) ≡ some (n, s)
unfolding show
show-counted n s =
    ap (counted_from false 0) (digits_onto-append (suc n) n [] (b' ' ∷ s))
    ∙ digits-counted (suc n) n false (b' ' ∷ s) (omega arith)
    ∙ unfold counted_from in refl

whole_message : (m r : Text) → whole (length m, m ++ r) ≡ some (m, r)
whole_message m r =
    let there : leb (length m) (length (m ++ r)) ≡ true = ground (arith, length-append m r) in
    rw (there, take_whole m r, drop_whole m r) refl

-- A counted message, whatever it holds and whatever follows it, is taken out whole, where the count
-- is that of its units.
pub next_frame-octets :
    (message rest : Text)
    → next_frame (show (length message) ++ (b' ' ∷ (message ++ rest))) ≡ some (message, rest)
unfolding next_frame
next_frame-octets message rest =
    ap (λ o. by_count_or_line o (show (length message) ++ (b' ' ∷ (message ++ rest))))
      (show-counted (length message) (message ++ rest))
    ∙ whole_message message rest
