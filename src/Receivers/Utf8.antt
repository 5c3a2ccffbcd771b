-- ===== src/Receivers/Utf8.antt =====
-- `chunk.toString("utf-8")` of engine/src/services/receivers/core.ts: the UTF-8 decoder of Node,
-- which puts U+FFFD for what is no UTF-8 and for a character that the end of the chunk cuts off.
use looksee.Prelude.{
  ℕ, zero, suc, ◌+◌, ◌-◌, ◌*◌, ◌/◌, ◌%◌, ◌<◌, ◌≡◌, refl, ap, ◌∙◌, sym, Bool, true, ◌&&◌, List, [],
  ◌∷◌, ◌++◌, All, leb, ltb, ◌==◌, if◌then◌else◌, arith,
}
use mathlib.Core.List.{append_assoc}
use looksee.Prelude.Text.{Text}

-- Between characters; or within one, with how many octets it still has, its value so far, and the
-- range of the next octet.
pub data Decoder : Type 0 where
  between : Decoder
  within : ℕ → ℕ → ℕ → ℕ → Decoder

abbrev replacement : Text
replacement = 65533 ∷ []

-- A code point as UTF-16 units.
abbrev units : ℕ → Text
units c =
    if ltb c 65536 then c ∷ [] else (55296 + (c - 65536) / 1024) ∷ (56320 + (c - 65536) % 1024) ∷ []

abbrev in_range : ℕ → ℕ → ℕ → Bool
in_range low high b = leb low b && leb b high

-- The first octet of a character.
abbrev first_octet : ℕ → Text × Decoder
first_octet b =
    if ltb b 128
    then (b ∷ [], between)
    else if in_range 194 223 b
    then ([], within 0 (b - 192) 128 191)
    else if b == 224
    then ([], within 1 0 160 191)
    else if b == 237
    then ([], within 1 13 128 159)
    else if in_range 225 239 b
    then ([], within 1 (b - 224) 128 191)
    else if b == 240
    then ([], within 2 0 144 191)
    else if in_range 241 243 b
    then ([], within 2 (b - 240) 128 191)
    else if b == 244
    then ([], within 2 4 128 143)
    else (replacement, between)

-- `more` octets follow the next one.
abbrev next_octet : ℕ → ℕ → ℕ → Text × Decoder
next_octet zero value b = (units (value * 64 + (b - 128)), between)
next_octet (suc more) value b = ([], within more (value * 64 + (b - 128)) 128 191)

abbrev after_bad : Text × Decoder → Text × Decoder
after_bad (s, d) = (replacement ++ s, d)

-- An octet that does not go on with a character ends it, and is read as a first one.
unfoldable pub octet : Decoder → ℕ → Text × Decoder
octet between b = first_octet b
octet (within more value low high) b =
    if in_range low high b then next_octet more value b else after_bad (first_octet b)

abbrev flush : Decoder → Text
flush between = []
flush (within more value low high) = replacement

unfoldable pub decode : Decoder → List ℕ → Text
unfolding octet
decode d [] = flush d
decode d (b ∷ bs) = (octet d b).0 ++ decode (octet d b).1 bs

-- The decoder at the end of some octets.
unfoldable pub state_after : Decoder → List ℕ → Decoder
unfolding octet
state_after d [] = d
state_after d (b ∷ bs) = state_after (octet d b).1 bs

unfoldable pub to_string : List ℕ → Text
unfolding decode
to_string chunk = decode between chunk

-- The octets do not end within a character.
abbrev pub EndsBetween : List ℕ → Type 0
EndsBetween bs = state_after between bs ≡ between

decode-append :
    (d : Decoder) (a b : List ℕ)
    → state_after d a ≡ between
    → decode d (a ++ b) ≡ decode d a ++ to_string b
unfolding decode state_after to_string
decode-append between [] b h = refl
decode-append (within m v l u) [] b h = cc
decode-append d (x ∷ a) b h =
    ap (λ s. (octet d x).0 ++ s) (decode-append (octet d x).1 a b h)
    ∙ sym (append_assoc (octet d x).0 (decode (octet d x).1 a) (to_string b))

-- Cut between characters, octets are decoded piece by piece.
pub to_string-append :
    (a b : List ℕ) → EndsBetween a → to_string (a ++ b) ≡ to_string a ++ to_string b
unfolding to_string
to_string-append a b h = decode-append between a b h

abbrev pub IsAscii : List ℕ → Type 0
IsAscii bs = All (λ b. b < 128) bs

octet-ascii : (b : ℕ) → b < 128 → octet between b ≡ (b ∷ [], between)
unfolding octet
octet-ascii b h = let small : ltb b 128 ≡ true = ground arith in rw small refl

pub IsAscii-EndsBetween : (bs : List ℕ) → IsAscii bs → EndsBetween bs
unfolding state_after
IsAscii-EndsBetween [] h = refl
IsAscii-EndsBetween (b ∷ bs) (hb, h) = rw (octet-ascii b hb) (IsAscii-EndsBetween bs h)

pub to_string-ascii : (bs : List ℕ) → IsAscii bs → to_string bs ≡ bs
unfolding to_string decode
to_string-ascii [] h = refl
to_string-ascii (b ∷ bs) (hb, h) = rw (octet-ascii b hb) (ap (λ s. b ∷ s) (to_string-ascii bs h))
