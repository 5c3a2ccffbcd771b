-- ===== src/Tests/Logins.antt =====
-- One-time codes on concrete inputs.
use looksee.Prelude.{
  ℕ, ◌≡◌, refl, none, some, Option, List, [], ◌∷◌, ◌++◌, map, take, replicate, length-take,
  length-append, leb, ◌&&◌, ◌-◌, if◌then◌else◌, arith,
}
use mathlib.Core.List.{reverse}
use looksee.Prelude.Text.{Text, codes, show, digits_onto}
use looksee.Prelude.Bytes.{read_u8, read_u16, read_u32}
use looksee.TwoFactor.Base32.{base32_encode, base32_decode}
use looksee.TwoFactor.Base32.RoundTrip.{KeepsSymbols, base32_decode-base32_encode}
use looksee.TwoFactor.Codes.{
  counter_bytes, pad_start, code_of_step, totp_code, try_steps, totp_step, after_step, consume_totp,
}
use looksee.TwoFactor.Window.{GivesTwenty, Answers, totp_step_complete}
use looksee.TwoFactor.Replay.{Attempt, Rises, accepted_steps, accepted_steps-Rises}

-- Upper-casing of ASCII.
abbrev upper : Text → Text
upper = map (λ c. if leb b'a' c && leb c b'z' then c - 32 else c)

upper-KeepsSymbols : KeepsSymbols upper
upper-KeepsSymbols [] h = refl
upper-KeepsSymbols (c ∷ s) (hc, hs) = ground (arith, upper-KeepsSymbols s hs)

abbrev zeros : List ℕ
zeros = replicate 20 0

-- Twenty bytes that begin with those of the message, the last one first.
abbrev digest : List ℕ → List ℕ → List ℕ
digest key message = take 20 (reverse message ++ zeros)

digest-GivesTwenty : GivesTwenty digest upper
digest-GivesTwenty key message =
    omega (arith, length-take 20 (reverse message ++ zeros), length-append (reverse message) zeros)

foobar : base32_encode (codes "foobar") ≡ codes "MZXW6YTBOI"
unfolding base32_encode
foobar = refl

spaced : base32_decode upper (codes "mzxw 6ytb-oi") ≡ codes "foobar"
unfolding base32_decode
spaced = refl

base32_decode-base32_encode_example :
    base32_decode upper (base32_encode (codes "foobar")) ≡ codes "foobar"
base32_decode-base32_encode_example =
    base32_decode-base32_encode upper (codes "foobar") upper-KeepsSymbols (omega arith)

abbrev secret : Text
secret = codes "MZXW6YTBOI"

codes_of_steps :
    (totp_code digest upper secret 1000000000 ≡ some (codes "712128"))
    × (totp_code digest upper secret 1000030000 ≡ some (codes "489344"))
unfolding totp_code code_of_step counter_bytes pad_start show digits_onto read_u8 read_u16 read_u32
codes_of_steps = (refl, refl)

-- A minute later the code is two steps old.
judged :
    (totp_step digest upper secret (codes "712 128") 1000030000 ≡ some (some 33333))
    × (totp_step digest upper secret (codes "712128") 1000060000 ≡ some none)
unfolding totp_step try_steps totp_code code_of_step counter_bytes pad_start show digits_onto
    read_u8 read_u16 read_u32
judged = (refl, refl)

totp_step_complete_example :
    (r : Option ℕ) × (totp_step digest upper secret (codes "712 128") 1000030000 ≡ some r)
    × Answers digest upper secret (codes "712128") 1000030000 (0 ∷ 1 ∷ 2 ∷ []) r
totp_step_complete_example =
    totp_step_complete digest upper secret (codes "712 128") 1000030000 digest-GivesTwenty
      (omega arith) (omega arith)

abbrev try_at : ℕ → Attempt
try_at time = record { user = "ann"; secret = secret; code = codes "712128"; time = time }

-- The same code again, and a user whose code throws.
abbrev attempts : List Attempt
attempts = try_at 1000000000 ∷ try_at 1000020000 ∷ try_at 7 ∷ []

accepted_once : accepted_steps digest upper "ann" (λ u. none) attempts ≡ 33333 ∷ []
unfolding accepted_steps consume_totp after_step totp_step try_steps totp_code code_of_step
    counter_bytes pad_start show digits_onto read_u8 read_u16 read_u32
accepted_once = refl

accepted_steps-Rises_example : Rises none (accepted_steps digest upper "ann" (λ u. none) attempts)
accepted_steps-Rises_example = accepted_steps-Rises digest upper "ann" (λ u. none) attempts
