-- ===== src/Receivers/Rounds.antt =====
-- The rounds of the loop over the buffer of a connection (engine/src/services/receivers/core.ts).
use looksee.Prelude.{
  ℕ, zero, suc, ◌+◌, ◌≤◌, Bool, true, false, ◌&&◌, Option, none, some, [], ◌∷◌, ◌++◌, ◌==◌, leb,
  length, ◌≡◌, refl, sym, ap, ◌∙◌, inl, inr, arith, Bool-cases, Option-cases, length-append,
}
use looksee.Prelude.Text.{Text, is_digit}
use looksee.Receivers.Chunks.{next_frame-append}
use looksee.Receivers.Framing.{drop, counted_from, split_line, whole, next_frame, frames}

abbrev left_over : Option (ℕ × Text) → ℕ
left_over none = 0
left_over (some (n, s)) = length s

abbrev left_rest : Option (Text × Text) → ℕ
left_rest none = 0
left_rest (some (m, s)) = length s

length-counted :
    (seen : Bool) (acc : ℕ) (a : Text) (len : ℕ) (after : Text)
    → counted_from seen acc a ≡ some (len, after)
    → suc (length after) ≤ length a
unfolding counted_from
length-counted seen acc [] len after h = absurd (cc)
length-counted seen acc (c ∷ a) len after h = elim (Bool-cases (is_digit c)) [
  | inl digit ↦ omega (arith, length-counted true _ a len after (rw digit at h))
  | inr end ↦ elim (Bool-cases (seen && c == b' ')) [
    | inl space ↦ omega (arith, ap left_over (rw (end, space) at h))
    | inr other ↦ absurd (ground arith)
  ]
]

length-split_line :
    (a line rest : Text) → split_line a ≡ some (line, rest) → suc (length rest) ≤ length a
unfolding split_line
length-split_line [] line rest h = absurd (cc)
length-split_line (c ∷ a) line rest h = elim (Bool-cases (c == b'\n')) [
  | inl newline ↦ omega (arith, ap left_rest (rw newline at h))
  | inr other ↦ elim (Option-cases (split_line a)) [
    | inl missing ↦ absurd (ground (arith, rw (other, missing) at h))
    | inr ((l, r), found) ↦
        omega (arith, length-split_line a l r found, ap left_rest (rw (other, found) at h))
  ]
]

length-drop_le : (n : ℕ) (s : Text) → length (drop n s) ≤ length s
length-drop_le zero s = omega arith
length-drop_le (suc n) [] = omega arith
length-drop_le (suc n) (c ∷ s) = omega (arith, length-drop_le n s)

length-whole :
    (len : ℕ) (after message rest : Text)
    → whole (len, after) ≡ some (message, rest)
    → length rest ≤ length after
length-whole len after message rest h = elim (Bool-cases (leb len (length after))) [
  | inr short ↦ absurd (ground (arith, rw short at h))
  | inl there ↦ omega (arith, length-drop_le len after, ap left_rest (rw there at h))
]

-- Each round takes at least one unit out of the buffer.
pub next_frame-shorter :
    (a message rest : Text) → next_frame a ≡ some (message, rest) → suc (length rest) ≤ length a
unfolding next_frame
next_frame-shorter a message rest h = elim (Option-cases (counted_from false 0 a)) [
  | inl line ↦ length-split_line a message rest (rw line at h)
  | inr ((len, after), counted) ↦ omega (
    arith,
    length-counted false 0 a len after counted,
    length-whole len after message rest (rw counted at h),
  )
]

pub frames-none : (f : ℕ) (a : Text) → next_frame a ≡ none → frames f a ≡ ([], a)
unfolding frames
frames-none zero a h = refl
frames-none (suc f) a h = rw (h, frames) refl

pub frames-some :
    (f : ℕ) (a message rest : Text)
    → next_frame a ≡ some (message, rest)
    → frames (suc f) a ≡ (message ∷ (frames f rest).0, (frames f rest).1)
unfolding frames
frames-some f a message rest h = rw (h, frames) refl

nothing_left : (a : Text) → length a ≤ 0 → next_frame a ≡ none
unfolding next_frame counted_from split_line
nothing_left [] h = refl
nothing_left (c ∷ a) h = absurd (omega arith)

-- Fuel beyond the length of the buffer changes nothing.
pub frames-fuel : (f g : ℕ) (a : Text) → length a ≤ f → length a ≤ g → frames f a ≡ frames g a
frames-fuel zero g a hf hg =
    let e = nothing_left a hf in frames-none zero a e ∙ sym (frames-none g a e)
frames-fuel (suc f) zero a hf hg =
    let e = nothing_left a hg in frames-none (suc f) a e ∙ sym (frames-none zero a e)
frames-fuel (suc f) (suc g) a hf hg = elim (Option-cases (next_frame a)) [
  | inl e ↦ frames-none (suc f) a e ∙ sym (frames-none (suc g) a e)
  | inr ((m, r), e) ↦
      let shorter = next_frame-shorter a m r e in
      frames-some f a m r e
      ∙ ap (λ p. (m ∷ p.0, p.1))
          (frames-fuel f g r (omega (arith, shorter)) (omega (arith, shorter)))
      ∙ sym (frames-some g a m r e)
]

-- With fuel for each unit, the loop ends where nothing more can be taken.
pub frames-drained : (f : ℕ) (a : Text) → length a ≤ f → next_frame (frames f a).1 ≡ none
frames-drained zero a h = let e = nothing_left a h in rw (frames-none zero a e) e
frames-drained (suc f) a h = elim (Option-cases (next_frame a)) [
  | inl e ↦ rw (frames-none (suc f) a e) e
  | inr ((m, r), e) ↦
      rw (frames-some f a m r e) (frames-drained f r (omega (arith, next_frame-shorter a m r e)))
]

pub length-frames_le : (f : ℕ) (a : Text) → length (frames f a).1 ≤ length a
length-frames_le zero a = unfold frames in omega arith
length-frames_le (suc f) a = elim (Option-cases (next_frame a)) [
  | inl e ↦ rw (frames-none (suc f) a e) (omega arith)
  | inr ((m, r), e) ↦
      rw (frames-some f a m r e) (omega (arith, next_frame-shorter a m r e, length-frames_le f r))
]

-- Taking the messages of a longer buffer is taking those of its first part, then those of what they
-- leave and the second part.
pub frames-append :
    (f : ℕ) (a b : Text)
    → length (a ++ b) ≤ f
    → frames f (a ++ b)
      ≡ ((frames f a).0 ++ (frames f ((frames f a).1 ++ b)).0, (frames f ((frames f a).1 ++ b)).1)
frames-append zero a b h = unfold frames in refl
frames-append (suc f) a b h = elim (Option-cases (next_frame a)) [
  | inl e ↦ rw (frames-none (suc f) a e) refl
  | inr ((m, r), e) ↦
      let left = (frames f r).1 ++ b in
      let total : length a + length b ≤ suc f = omega (arith, length-append a b) in
      let small : length (r ++ b) ≤ f =
        omega (arith, length-append r b, next_frame-shorter a m r e) in
      let inside : length left ≤ f =
        omega (arith, length-append (frames f r).1 b, length-frames_le f r, length-append r b) in
      rw (frames-some f a m r e) (
        frames-some f (a ++ b) m (r ++ b) (next_frame-append a b m r e)
        ∙ ap (λ p. (m ∷ p.0, p.1)) (frames-append f r b small)
        ∙ ap (λ q. (m ∷ ((frames f r).0 ++ q.0), q.1))
            (frames-fuel f (suc f) left inside (omega arith)))
]
