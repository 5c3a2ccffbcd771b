-- ===== src/Receivers/Delivery.antt =====
-- Counted messages over TCP, from the sender's texts to the emitted ones
-- (engine/src/services/receivers/core.ts).
use looksee.Prelude.{
  ℕ, zero, suc, ◌+◌, ◌/◌, ◌%◌, ◌<◌, ◌≤◌, leb, inl, inr, Bool-cases, sym, map, All, All-append, List,
  [], ◌∷◌, ◌++◌, length, ◌≡◌, refl, ap, ◌∙◌, arith,
}
use mathlib.Core.Path.{subst}
use looksee.Prelude.Text.{Text, show, digits_onto}
use looksee.Receivers.Utf8.{IsAscii, to_string, to_string-ascii}
use looksee.Receivers.Framing.{
  counted_from, split_line, next_frame, frames, max_buffer, receive_texts, receive,
}
use looksee.Receivers.Rounds.{frames-none, frames-some, next_frame-shorter}
use looksee.Receivers.Streams.{
  concat, concat_octets, receive-receive_texts, on_text-frames, receive_texts-concat,
}
use looksee.Receivers.Octets.{next_frame-octets}

-- What a sender that counts octets puts on the wire, where messages are of octets.
unfoldable pub octet_counted : List Text → Text
octet_counted [] = []
octet_counted (m ∷ ms) = show (length m) ++ (b' ' ∷ (m ++ octet_counted ms))

All-split : (P : ℕ → Type 0) (a b : List ℕ) → All P (a ++ b) → All P a × All P b
All-split P [] b h = (tt, h)
All-split P (x ∷ a) b (p, h) = let (ha, hb) = All-split P a b h in ((p, ha), hb)

digits_onto-IsAscii : (fuel n : ℕ) (rest : Text) → IsAscii rest → IsAscii (digits_onto fuel n rest)
unfolding digits_onto
digits_onto-IsAscii zero n rest h = h
digits_onto-IsAscii (suc fuel) n rest h = elim (Bool-cases (leb n 9)) [
  | inl small ↦ rw small (ground arith, h)
  | inr large ↦
      rw large (digits_onto-IsAscii fuel (n / 10) ((b'0' + n % 10) ∷ rest) (omega arith, h))
]

octet_counted-IsAscii : (ms : List Text) → All IsAscii ms → IsAscii (octet_counted ms)
unfolding octet_counted show
octet_counted-IsAscii [] h = tt
octet_counted-IsAscii (m ∷ ms) (here, h) =
    All-append (λ b. b < 128) (show (length m)) (b' ' ∷ (m ++ octet_counted ms))
      (digits_onto-IsAscii (suc (length m)) (length m) [] tt)
      (
        omega arith,
        All-append (λ b. b < 128) m (octet_counted ms) here (octet_counted-IsAscii ms h),
      )

frames-octet_counted :
    (f : ℕ) (ms : List Text)
    → length (octet_counted ms) ≤ f
    → frames f (octet_counted ms) ≡ (ms, [])
unfolding octet_counted
frames-octet_counted f [] h = frames-none f [] (unfold next_frame counted_from split_line in refl)
frames-octet_counted zero (m ∷ ms) h = absurd (
    omega
      (arith, next_frame-shorter _ m (octet_counted ms) (next_frame-octets m (octet_counted ms))))
frames-octet_counted (suc f) (m ∷ ms) h =
    let e = next_frame-octets m (octet_counted ms) in
    let shorter = next_frame-shorter _ m (octet_counted ms) e in
    frames-some f _ m (octet_counted ms) e
    ∙ ap (λ p. (m ∷ p.0, p.1)) (frames-octet_counted f ms (omega (arith, shorter)))

receive_texts-octet_counted :
    (ms chunks : List Text)
    → concat chunks ≡ octet_counted ms
    → length (octet_counted ms) ≤ max_buffer
    → receive_texts [] chunks ≡ (ms, [])
receive_texts-octet_counted ms chunks e h =
    let size : length (concat chunks) ≤ max_buffer = rw e h in
    receive_texts-concat chunks size
    ∙ on_text-frames (length (concat chunks)) [] (concat chunks) size (omega arith)
    ∙ ap (λ s. frames (length s) s) e
    ∙ frames-octet_counted (length (octet_counted ms)) ms (omega arith)

map-to_string :
    (chunks : List (List ℕ))
    → IsAscii (concat_octets chunks)
    → concat (map to_string chunks) ≡ concat_octets chunks
map-to_string [] h = refl
map-to_string (chunk ∷ chunks) h =
    let (here, later) = All-split (λ b. b < 128) chunk (concat_octets chunks) h in
    ap (λ s. s ++ concat (map to_string chunks)) (to_string-ascii chunk here)
    ∙ ap (λ s. chunk ++ s) (map-to_string chunks later)

-- Messages of ASCII characters that a sender counts in octets and that fit the buffer are emitted
-- one by one as they were, newlines and digits in them or not, however the network cuts the octets
-- into chunks; and nothing is left over.
pub receive-octet_counted :
    (ms : List Text) (chunks : List (List ℕ))
    → All IsAscii ms
    → concat_octets chunks ≡ octet_counted ms
    → length (octet_counted ms) ≤ max_buffer
    → receive [] chunks ≡ (ms, [])
receive-octet_counted ms chunks ascii e h =
    receive-receive_texts [] chunks
    ∙ receive_texts-octet_counted ms (map to_string chunks)
        (map-to_string chunks (subst IsAscii (sym e) (octet_counted-IsAscii ms ascii)) ∙ e) h
