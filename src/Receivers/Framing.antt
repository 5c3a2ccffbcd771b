-- ===== src/Receivers/Framing.antt =====
-- Syslog over TCP (engine/src/services/receivers/core.ts): the buffer of one connection, out of
-- which whole messages are taken, newline-delimited or RFC 6587 octet-counted. Chunks are octets,
-- each decoded by itself; the lengths are counted in units of the decoded texts, as the source
-- counts them.
use looksee.Prelude.{
  ℕ, zero, suc, ◌+◌, ◌-◌, ◌*◌, Bool, true, false, ◌&&◌, Option, none, some, List, [], ◌∷◌, ◌++◌,
  ◌==◌, leb, ltb, length, take, if◌then◌else◌,
}
use looksee.Prelude.Text.{Text, is_digit}
use looksee.Receivers.Utf8.{to_string}

abbrev pub drop : ℕ → Text → Text
drop zero s = s
drop (suc n) [] = []
drop (suc n) (c ∷ s) = drop n s

-- `buf.match(/^(\d+) /)`: the number, and what follows the space. `seen` says whether a digit was
-- read.
unfoldable pub counted_from : Bool → ℕ → Text → Option (ℕ × Text)
counted_from seen acc [] = none
counted_from seen acc (c ∷ s) =
    let more = counted_from true (acc * 10 + (c - b'0')) s in
    if is_digit c then more else if seen && c == b' ' then some (acc, s) else none

-- `buf.indexOf("\n")`: what stands before the first newline, and what stands behind it.
unfoldable pub split_line : Text → Option (Text × Text)
split_line [] = none
split_line (c ∷ s) =
    let more = split_line s in
    if c == b'\n'
    then some ([], s)
    else elim more [ none ↦ none | some (line, rest) ↦ some (c ∷ line, rest) ]

-- A counted message, once it is there as a whole.
abbrev pub whole : ℕ × Text → Option (Text × Text)
whole (len, after) = if leb len (length after) then some (take len after, drop len after) else none

abbrev pub by_count_or_line : Option (ℕ × Text) → Text → Option (Text × Text)
by_count_or_line none buf = split_line buf
by_count_or_line (some counted) buf = whole counted

-- One round of the loop: the message taken and the buffer left, or `none` for `break`.
unfoldable pub next_frame : Text → Option (Text × Text)
next_frame buf = by_count_or_line (counted_from false 0 buf) buf

-- The loop, with fuel: each round takes at least one unit.
unfoldable pub frames : ℕ → Text → List Text × Text
frames zero buf = ([], buf)
frames (suc fuel) buf = elim (next_frame buf) [
  | none ↦ ([], buf)
  | some (message, rest) ↦ (message ∷ (frames fuel rest).0, (frames fuel rest).1)
]

abbrev pub max_buffer : ℕ
max_buffer = 65536

-- `if (buf.length > 65536) buf = ""`
abbrev pub bounded : Text → Text
bounded buf = if ltb max_buffer (length buf) then [] else buf

-- The loop on the buffer with a decoded chunk, and the buffer afterwards.
unfoldable pub on_text : Text → Text → List Text × Text
on_text buf chunk =
    let (messages, rest) = frames (length (buf ++ chunk)) (buf ++ chunk) in (messages, bounded rest)

-- Decoded chunks, one after the other.
unfoldable pub receive_texts : Text → List Text → List Text × Text
receive_texts buf [] = ([], buf)
receive_texts buf (chunk ∷ chunks) =
    let (messages, rest) = on_text buf chunk in
    (messages ++ (receive_texts rest chunks).0, (receive_texts rest chunks).1)

-- The handler of "data", on the octets of a chunk: each chunk is decoded by itself.
unfoldable pub on_data : Text → List ℕ → List Text × Text
unfolding on_text to_string
on_data buf chunk = on_text buf (to_string chunk)

-- The chunks of a connection, one after the other.
unfoldable pub receive : Text → List (List ℕ) → List Text × Text
receive buf [] = ([], buf)
receive buf (chunk ∷ chunks) =
    let (messages, rest) = on_data buf chunk in
    (messages ++ (receive rest chunks).0, (receive rest chunks).1)
