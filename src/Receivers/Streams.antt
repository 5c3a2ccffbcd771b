-- ===== src/Receivers/Streams.antt =====
-- A stream and the chunks that it is cut into (engine/src/services/receivers/core.ts).
use looksee.Prelude.{
  ℕ, ◌+◌, ◌≤◌, List, map, All, [], ◌∷◌, ◌++◌, length, ◌≡◌, refl, sym, ap, ◌∙◌, none, ltb, false,
  arith, length-append,
}
use looksee.Prelude.Text.{Text}
use looksee.Receivers.Utf8.{decode, to_string, EndsBetween, to_string-append}
use looksee.Receivers.Framing.{
  counted_from, split_line, next_frame, frames, max_buffer, on_text, receive_texts, on_data,
  receive,
}
use looksee.Receivers.Rounds.{
  frames-none, frames-fuel, frames-drained, length-frames_le, frames-append,
}

abbrev pub concat : List Text → Text
concat [] = []
concat (chunk ∷ chunks) = chunk ++ concat chunks

append_assoc : (a b c : Text) → (a ++ b) ++ c ≡ a ++ (b ++ c)
append_assoc [] b c = refl
append_assoc (x ∷ a) b c = ap (λ s. x ∷ s) (append_assoc a b c)

append_nil : (a : Text) → a ++ [] ≡ a
append_nil [] = refl
append_nil (x ∷ a) = ap (λ s. x ∷ s) (append_nil a)

-- The handler on a buffer and chunk that are together within the limit.
pub on_text-frames :
    (f : ℕ) (buf chunk : Text)
    → length (buf ++ chunk) ≤ max_buffer
    → length (buf ++ chunk) ≤ f
    → on_text buf chunk ≡ frames f (buf ++ chunk)
unfolding on_text
on_text-frames f buf chunk h enough =
    let a = buf ++ chunk in
    let same = frames-fuel (length a) f a (omega arith) enough in
    let fits : ltb max_buffer (length (frames (length a) a).1) ≡ false =
      ground (arith, length-frames_le (length a) a) in
    rw fits same

receive_texts-frames :
    (f : ℕ) (buf : Text) (chunks : List Text)
    → next_frame buf ≡ none
    → length (buf ++ concat chunks) ≤ max_buffer
    → length (buf ++ concat chunks) ≤ f
    → receive_texts buf chunks ≡ frames f (buf ++ concat chunks)
unfolding receive_texts
receive_texts-frames f buf [] drained h enough =
    rw (append_nil buf) (sym (frames-none f buf drained))
receive_texts-frames f buf (chunk ∷ chunks) drained h enough =
    let a = buf ++ chunk in
    let tail = concat chunks in
    let total : length buf + (length chunk + length tail) ≤ max_buffer =
      omega (arith, h, length-append buf (chunk ++ tail), length-append chunk tail) in
    let total_f : length buf + (length chunk + length tail) ≤ f =
      omega (arith, enough, length-append buf (chunk ++ tail), length-append chunk tail) in
    let size = length-append buf chunk in
    let all = length-append a tail in
    let first = on_text-frames f buf chunk (omega (arith, size)) (omega (arith, size)) in
    let left = length-append (frames f a).1 tail in
    let less = length-frames_le f a in
    let later =
      receive_texts-frames f (frames f a).1 chunks (frames-drained f a (omega (arith, size)))
        (omega (arith, size, left, less)) (omega (arith, size, left, less)) in
    ap (λ p. (p.0 ++ (receive_texts p.1 chunks).0, (receive_texts p.1 chunks).1)) first
    ∙ ap (λ q. ((frames f a).0 ++ q.0, q.1)) later
    ∙ sym (frames-append f a tail (omega (arith, size, all)))
    ∙ ap (frames f) (append_assoc buf chunk tail)

-- Texts, however the whole is cut into them.
pub receive_texts-concat :
    (chunks : List Text)
    → length (concat chunks) ≤ max_buffer
    → receive_texts [] chunks ≡ on_text [] (concat chunks)
receive_texts-concat chunks h =
    let all = concat chunks in
    receive_texts-frames (length all) [] chunks (unfold next_frame counted_from split_line in refl)
      h (omega arith)
    ∙ sym (on_text-frames (length all) [] all h (omega arith))

-- The octets of some chunks.
abbrev pub concat_octets : List (List ℕ) → List ℕ
concat_octets [] = []
concat_octets (chunk ∷ chunks) = chunk ++ concat_octets chunks

pub receive-receive_texts :
    (buf : Text) (chunks : List (List ℕ))
    → receive buf chunks ≡ receive_texts buf (map to_string chunks)
unfolding receive receive_texts on_data
receive-receive_texts buf [] = refl
receive-receive_texts buf (chunk ∷ chunks) =
    let (messages, rest) = on_text buf (to_string chunk) in
    ap (λ (r : List Text × Text). ((on_text buf (to_string chunk)).0 ++ r.0, r.1))
      (receive-receive_texts (on_text buf (to_string chunk)).1 chunks)

to_string-concat :
    (chunks : List (List ℕ))
    → All EndsBetween chunks
    → to_string (concat_octets chunks) ≡ concat (map to_string chunks)
to_string-concat [] h = unfold to_string decode in refl
to_string-concat (chunk ∷ chunks) (here, h) =
    to_string-append chunk (concat_octets chunks) here
    ∙ ap (λ s. to_string chunk ++ s) (to_string-concat chunks h)

-- A stream within the buffer's limit gives the same messages, and leaves the same text for later,
-- however it is cut into chunks between its characters.
pub receive-concat :
    (chunks : List (List ℕ))
    → All EndsBetween chunks
    → length (to_string (concat_octets chunks)) ≤ max_buffer
    → receive [] chunks ≡ on_data [] (concat_octets chunks)
unfolding on_data
receive-concat chunks cuts h =
    let whole_text = to_string-concat chunks cuts in
    receive-receive_texts [] chunks
    ∙ receive_texts-concat (map to_string chunks) (rw whole_text at h)
    ∙ ap (on_text []) (sym whole_text)
