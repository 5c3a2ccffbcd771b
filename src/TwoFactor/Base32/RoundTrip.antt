-- ===== src/TwoFactor/Base32/RoundTrip.antt =====
-- What `base32Decode` makes of the text that `base32Encode` writes.
use looksee.Prelude.{
  ℕ, zero, suc, ◌+◌, ◌-◌, ◌*◌, ◌/◌, ◌%◌, ◌^◌, ◌<◌, ◌≡◌, refl, ap, ◌∙◌, inl, inr, Bool-cases, Bool,
  true, ◌&&◌, List, [], ◌∷◌, ◌==◌, arith, All, All-append, keep,
}
use looksee.Prelude.Text.{Text}
use looksee.TwoFactor.Base32.{
  symbol, index_of, emit, encode_loop, base32_encode, decode_loop, is_symbol, base32_decode,
}

abbrev pub IsByte : ℕ → Type 0
IsByte b = b < 256

-- A symbol is found again in the alphabet, and is kept by the decoder.
is_found : ℕ → Bool
is_found i = index_of (symbol i) == i && is_symbol (symbol i)

-- So are the `left` symbols from `i` on.
found_from : ℕ → ℕ → Bool
found_from zero i = true
found_from (suc left) i = is_found i && found_from left (i + 1)

found_from-is_found : (left i d : ℕ) → found_from left i ≡ true → d < left → is_found (i + d) ≡ true
unfolding found_from
found_from-is_found zero i d found few = absurd (omega arith)
found_from-is_found (suc left) i zero found few =
    ap is_found (omega arith)
    ∙ elim (Bool-cases (is_found i)) [ inl here ↦ here | inr lost ↦ absurd (ground arith) ]
found_from-is_found (suc left) i (suc d) found few =
    let next : i + suc d ≡ i + 1 + d = omega arith in
    rw next (found_from-is_found left (i + 1) d (ground arith) (omega arith))

alphabet_found : found_from 32 0 ≡ true
unfolding found_from is_found index_of symbol
alphabet_found = refl

symbol_at : (i : ℕ) → i < 32 → (index_of (symbol i) ≡ i) × (is_symbol (symbol i) ≡ true)
unfolding is_found
symbol_at i h =
    let here : is_found i ≡ true =
      ap is_found (omega arith) ∙ found_from-is_found 32 0 i alphabet_found h in
    ground arith

-- One symbol through the decoder, which has `bits` bits in hand.
short_step :
    (bits value i : ℕ) (s : Text)
    → i < 32
    → bits < 3
    → decode_loop bits value (symbol i ∷ s) ≡ decode_loop (bits + 5) ((value * 32 + i) % 2 ^ 32) s
unfolding decode_loop
short_step bits value i s h few = rw ((symbol_at i h).0) (ground arith)

full_step :
    (bits value i : ℕ) (s : Text)
    → i < 32
    → 2 < bits
    → decode_loop bits value (symbol i ∷ s)
      ≡ ((value * 32 + i) % 2 ^ 32 / 2 ^ (bits + 5 - 8) % 256)
        ∷ decode_loop (bits + 5 - 8) ((value * 32 + i) % 2 ^ 32) s
unfolding decode_loop
full_step bits value i s h many = rw ((symbol_at i h).0) (ground arith)

-- The encoder holds back the low bits of `last`, and the decoder has the bits above them.
abbrev Holds : ℕ → ℕ → ℕ → ℕ → Type 0
Holds bits v w last = (v % 2 ^ bits ≡ last % 2 ^ bits) × (w % 2 ^ (8 - bits) ≡ last / 2 ^ bits)

-- The 32-bit pattern that a loop goes on with.
abbrev byte_in : ℕ → ℕ → ℕ
byte_in v b = (v * 256 + b) % 2 ^ 32

abbrev symbol_in : ℕ → ℕ → ℕ
symbol_in w i = (w * 32 + i) % 2 ^ 32

-- The last symbol of an encoding, which pads the bits that are left.
last_symbol :
    (bits v w last : ℕ)
    → last < 256
    → Holds bits v w last
    → 0 < bits
    → bits < 5
    → decode_loop (8 - bits) w (encode_loop bits v []) ≡ last ∷ []
unfolding encode_loop decode_loop
last_symbol (suc zero) v w last hl h p q =
    rw ((symbol_at (v * 16 % 2 ^ 32 % 32) (omega arith)).0) (ground arith)
last_symbol (suc (suc zero)) v w last hl h p q =
    rw ((symbol_at (v * 8 % 2 ^ 32 % 32) (omega arith)).0) (ground arith)
last_symbol (suc (suc (suc zero))) v w last hl h p q =
    rw ((symbol_at (v * 4 % 2 ^ 32 % 32) (omega arith)).0) (ground arith)
last_symbol (suc (suc (suc (suc zero)))) v w last hl h p q =
    rw ((symbol_at (v * 2 % 2 ^ 32 % 32) (omega arith)).0) (ground arith)
last_symbol zero v w last hl h p q = absurd (omega arith)
last_symbol (suc (suc (suc (suc (suc n))))) v w last hl h p q = absurd (omega arith)

mutual
  unfolding encode_loop emit decode_loop

  held_none :
      (v w : ℕ) (bytes : List ℕ)
      → All IsByte bytes
      → decode_loop 0 w (encode_loop 0 v bytes) ≡ bytes
  held_none v w [] all = refl
  held_none v w (b ∷ bs) (hb, all) =
      let i = byte_in v b / 2 ^ 3 % 32 in
      short_step 0 w i (encode_loop 3 (byte_in v b) bs) (omega arith) (omega arith)
      ∙ held_three (byte_in v b) (symbol_in w i) b bs hb all (omega arith)

  held_three :
      (v w last : ℕ) (bytes : List ℕ)
      → last < 256
      → All IsByte bytes
      → Holds 3 v w last
      → decode_loop 5 w (encode_loop 3 v bytes) ≡ last ∷ bytes
  held_three v w last [] hl all h = last_symbol 3 v w last hl h (omega arith) (omega arith)
  held_three v w last (b ∷ bs) hl (hb, all) h =
      let i = byte_in v b / 2 ^ 6 % 32 in
      let j = byte_in v b / 2 ^ 1 % 32 in
      let rest = encode_loop 1 (byte_in v b) bs in
      full_step 5 w i (symbol j ∷ rest) (omega arith) (omega arith)
      ∙ ground (
        arith,
        short_step 2 (symbol_in w i) j rest (omega arith) (omega arith),
        held_one (byte_in v b) (symbol_in (symbol_in w i) j) b bs hb all (omega arith),
      )

  held_one :
      (v w last : ℕ) (bytes : List ℕ)
      → last < 256
      → All IsByte bytes
      → Holds 1 v w last
      → decode_loop 7 w (encode_loop 1 v bytes) ≡ last ∷ bytes
  held_one v w last [] hl all h = last_symbol 1 v w last hl h (omega arith) (omega arith)
  held_one v w last (b ∷ bs) hl (hb, all) h =
      let i = byte_in v b / 2 ^ 4 % 32 in
      full_step 7 w i (encode_loop 4 (byte_in v b) bs) (omega arith) (omega arith)
      ∙ ground (arith, held_four (byte_in v b) (symbol_in w i) b bs hb all (omega arith))

  held_four :
      (v w last : ℕ) (bytes : List ℕ)
      → last < 256
      → All IsByte bytes
      → Holds 4 v w last
      → decode_loop 4 w (encode_loop 4 v bytes) ≡ last ∷ bytes
  held_four v w last [] hl all h = last_symbol 4 v w last hl h (omega arith) (omega arith)
  held_four v w last (b ∷ bs) hl (hb, all) h =
      let i = byte_in v b / 2 ^ 7 % 32 in
      let j = byte_in v b / 2 ^ 2 % 32 in
      let rest = encode_loop 2 (byte_in v b) bs in
      full_step 4 w i (symbol j ∷ rest) (omega arith) (omega arith)
      ∙ ground (
        arith,
        short_step 1 (symbol_in w i) j rest (omega arith) (omega arith),
        held_two (byte_in v b) (symbol_in (symbol_in w i) j) b bs hb all (omega arith),
      )

  held_two :
      (v w last : ℕ) (bytes : List ℕ)
      → last < 256
      → All IsByte bytes
      → Holds 2 v w last
      → decode_loop 6 w (encode_loop 2 v bytes) ≡ last ∷ bytes
  held_two v w last [] hl all h = last_symbol 2 v w last hl h (omega arith) (omega arith)
  held_two v w last (b ∷ bs) hl (hb, all) h =
      let i = byte_in v b / 2 ^ 5 % 32 in
      let j = byte_in v b / 2 ^ 0 % 32 in
      let rest = encode_loop 0 (byte_in v b) bs in
      full_step 6 w i (symbol j ∷ rest) (omega arith) (omega arith)
      ∙ ground (
        arith,
        full_step 3 (symbol_in w i) j rest (omega arith) (omega arith),
        held_none (byte_in v b) (symbol_in (symbol_in w i) j) bs all,
      )

abbrev pub IsSymbol : ℕ → Type 0
IsSymbol c = is_symbol c ≡ true

emit-IsSymbol : (fuel bits value : ℕ) → All IsSymbol ((emit fuel bits value).0)
unfolding emit
emit-IsSymbol zero bits value = tt
emit-IsSymbol (suc fuel) bits value =
    let (_, here) = symbol_at (value / 2 ^ (bits - 5) % 32) (omega arith) in
    ground (arith, emit-IsSymbol fuel (bits - 5) value)

encode_loop-IsSymbol :
    (bits value : ℕ) (bytes : List ℕ) → All IsSymbol (encode_loop bits value bytes)
unfolding encode_loop
encode_loop-IsSymbol bits value [] =
    let (_, here) = symbol_at (value * 2 ^ (5 - bits) % 2 ^ 32 % 32) (omega arith) in ground arith
encode_loop-IsSymbol bits value (b ∷ bs) =
    All-append IsSymbol ((emit (bits + 8) (bits + 8) (byte_in value b)).0) _
      (emit-IsSymbol (bits + 8) (bits + 8) (byte_in value b))
      (encode_loop-IsSymbol ((emit (bits + 8) (bits + 8) (byte_in value b)).1) (byte_in value b) bs)

keep_symbols : (s : Text) → All IsSymbol s → keep is_symbol s ≡ s
keep_symbols [] h = refl
keep_symbols (c ∷ s) (hc, hs) = rw hc (ap (λ r. c ∷ r) (keep_symbols s hs))

-- What is relied on of `toUpperCase`: capital letters and digits stay as they are.
abbrev pub KeepsSymbols : (Text → Text) → Type 0
KeepsSymbols upper = (s : Text) → All IsSymbol s → upper s ≡ s

-- Decoding the base-32 text of a byte string gives the byte string, whatever its length, where
-- upper-casing leaves capital letters and digits alone.
pub base32_decode-base32_encode :
    (upper : Text → Text) (bytes : List ℕ)
    → KeepsSymbols upper
    → All IsByte bytes
    → base32_decode upper (base32_encode bytes) ≡ bytes
unfolding base32_decode base32_encode
base32_decode-base32_encode upper bytes keeps all =
    let symbolic = encode_loop-IsSymbol 0 0 bytes in
    rw (keeps _ symbolic) (rw (keep_symbols _ symbolic) (held_none 0 0 bytes all))
