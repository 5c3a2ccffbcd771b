-- ===== src/TwoFactor/Base32.antt =====
-- `base32Encode` and `base32Decode` of engine/src/lib/totp.ts. A byte string is a list of numbers,
-- and `value` a 32-bit pattern; `|` joins bits that do not overlap there, so it is a sum.
pub mod RoundTrip
use looksee.Prelude.{
  ℕ, zero, suc, ◌+◌, ◌-◌, ◌*◌, ◌/◌, ◌%◌, ◌^◌, Bool, ◌&&◌, ◌||◌, List, [], ◌∷◌, ◌++◌, ◌==◌, ltb, leb,
  if◌then◌else◌, keep,
}
use looksee.Prelude.Text.{Text, codes}

abbrev pub alphabet : Text
alphabet = codes "ABCDEFGHIJKLMNOPQRSTUVWXYZ234567"

-- `ALPHABET[i]` and `ALPHABET.indexOf(c)` for a unit of the alphabet
abbrev pub unit_at : Text → ℕ → ℕ
unit_at [] i = 0
unit_at (c ∷ s) zero = c
unit_at (c ∷ s) (suc i) = unit_at s i

abbrev pub index_in : Text → ℕ → ℕ
index_in [] c = 0
index_in (x ∷ s) c = if x == c then 0 else suc (index_in s c)

pub symbol : ℕ → ℕ
symbol i = unit_at alphabet i

pub index_of : ℕ → ℕ
index_of c = index_in alphabet c

-- `while (bits >= 5)`: what it writes, and the bits that are left.
pub emit : ℕ → ℕ → ℕ → Text × ℕ
emit zero bits value = ([], bits)
emit (suc fuel) bits value =
    let rest = emit fuel (bits - 5) value in
    if leb 5 bits then (symbol (value / 2 ^ (bits - 5) % 32) ∷ rest.0, rest.1) else ([], bits)

pub encode_loop : ℕ → ℕ → List ℕ → Text
encode_loop bits value [] =
    if ltb 0 bits then symbol (value * 2 ^ (5 - bits) % 2 ^ 32 % 32) ∷ [] else []
encode_loop bits value (byte ∷ bytes) =
    let wider = (value * 256 + byte) % 2 ^ 32 in
    let (chars, left) = emit (bits + 8) (bits + 8) wider in chars ++ encode_loop left wider bytes

unfoldable pub base32_encode : List ℕ → Text
unfolding encode_loop emit symbol
base32_encode bytes = encode_loop 0 0 bytes

pub decode_loop : ℕ → ℕ → Text → List ℕ
decode_loop bits value [] = []
decode_loop bits value (c ∷ s) =
    let wider = (value * 32 + index_of c) % 2 ^ 32 in
    let full = (wider / 2 ^ (bits + 5 - 8) % 256) ∷ decode_loop (bits + 5 - 8) wider s in
    let short = decode_loop (bits + 5) wider s in if leb 8 (bits + 5) then full else short

-- `[A-Z2-7]`
abbrev pub is_symbol : ℕ → Bool
is_symbol c = leb b'A' c && leb c b'Z' || leb b'2' c && leb c b'7'

module _ (upper : Text → Text) where
  unfoldable pub base32_decode : Text → List ℕ
  unfolding decode_loop index_of
  base32_decode s = decode_loop 0 0 (keep is_symbol (upper s))
