-- ===== src/TwoFactor/Codes.antt =====
-- `totpCode`, `totpStep` and `consumeTotp` of engine/src/lib/totp.ts. The HMAC is a parameter; what
-- throws is `none`. Numbers below 0 do not occur in the model: a time before 1970 throws.
use looksee.Prelude.{
  ℕ, ◌+◌, ◌-◌, ◌*◌, ◌/◌, ◌%◌, ◌^◌, String, Bool, true, false, not, ◌&&◌, Option, none, some, List,
  [], ◌∷◌, ◌++◌, ◌==◌, ◌===◌, ltb, leb, length, replicate, keep, every, if◌then◌else◌, ◌>>=◌,
}
use looksee.Prelude.Text.{Text, is_digit, is_space, same, show}
use looksee.Prelude.Bytes.{read_u8, read_u32}
use looksee.TwoFactor.Base32.{base32_decode}

-- `writeBigUInt64BE`
unfoldable pub counter_bytes : ℕ → Option (List ℕ)
counter_bytes n =
    if ltb n (2 ^ 64)
    then some (
        (n / 2 ^ 56 % 256)
        ∷ (n / 2 ^ 48 % 256)
        ∷ (n / 2 ^ 40 % 256)
        ∷ (n / 2 ^ 32 % 256)
        ∷ (n / 2 ^ 24 % 256)
        ∷ (n / 2 ^ 16 % 256)
        ∷ (n / 2 ^ 8 % 256)
        ∷ (n % 256)
        ∷ [])
    else none

-- `padStart(width, "0")`
unfoldable pub pad_start : ℕ → Text → Text
pad_start width s = replicate (width - length s) b'0' ++ s

abbrev pub six_digits : Text → Bool
six_digits s = length s == 6 && every is_digit s

-- The map `lastUsedStep`.
abbrev pub LastUsed : Type 0
LastUsed = String → Option ℕ

-- `step <= (lastUsedStep.get(userId) ?? -1)`
abbrev pub is_used : Option ℕ → ℕ → Bool
is_used none step = false
is_used (some last) step = leb step last

abbrev pub set_used : String → ℕ → LastUsed → LastUsed
set_used user step used u = if user === u then some step else used u

module _ (hmac : List ℕ → List ℕ → List ℕ) (upper : Text → Text) where
  -- The code of the 30-second step with this number.
  unfoldable pub code_of_step : Text → ℕ → Option Text
  unfolding counter_bytes pad_start show
  code_of_step secret n = do
    counter ← counter_bytes n
    let digest = hmac (base32_decode upper secret) counter
    last ← read_u8 digest (length digest - 1)
    word ← read_u32 digest (last % 16)
    some (pad_start 6 (show (word % 2 ^ 31 % 1000000)))

  unfoldable pub totp_code : Text → ℕ → Option Text
  totp_code secret time = code_of_step secret (time / 1000 / 30)

  -- `t = time + d * 30_000` for `d` of -1, 0 and 1, here 0, 1 and 2
  abbrev moved : ℕ → ℕ → Option ℕ
  moved time d = if ltb (time + d * 30000) 30000 then none else some (time + d * 30000 - 30000)

  unfoldable pub try_steps : Text → Text → ℕ → List ℕ → Option (Option ℕ)
  try_steps secret c time [] = some none
  try_steps secret c time (d ∷ ds) =
      let later = try_steps secret c time ds in
      moved time d >>= λ t.
      totp_code secret t >>= λ code. if same code c then some (some (t / 30000)) else later

  unfoldable pub totp_step : Text → Text → ℕ → Option (Option ℕ)
  totp_step secret code time =
      let c = keep (λ u. not (is_space u)) code in
      if six_digits c then try_steps secret c time (0 ∷ 1 ∷ 2 ∷ []) else some none

  unfoldable pub after_step : String → LastUsed → Option ℕ → Bool × LastUsed
  after_step user used none = (false, used)
  after_step user used (some step) =
      if is_used (used user) step then (false, used) else (true, set_used user step used)

  unfoldable pub consume_totp : String → Text → Text → ℕ → LastUsed → Option (Bool × LastUsed)
  unfolding after_step
  consume_totp user secret code time used =
      totp_step secret code time >>= λ step. some (after_step user used step)

  unfoldable pub verify_totp : Text → Text → ℕ → Option Bool
  unfolding totp_step
  verify_totp secret code time =
      totp_step secret code time >>= λ step. elim step [ none ↦ some false | some n ↦ some true ]
