-- ===== src/TwoFactor/Window.antt =====
-- `totpCode` and `totpStep` of engine/src/lib/totp.ts: the shape of a code, and the codes that
-- count.
use looksee.Prelude.{
  ℕ, zero, suc, ◌+◌, ◌-◌, ◌*◌, ◌/◌, ◌%◌, ◌^◌, ◌≤◌, ◌<◌, ◌≡◌, ◌≢◌, refl, ap, ◌∙◌, inl, inr, true,
  false, not, Option, none, some, List, [], ◌∷◌, ◌++◌, ltb, length, replicate, keep, every, All,
  arith, Bool-cases, Option-cases, length-append,
}
use looksee.Prelude.Text.{Text, is_digit, is_space, same, show, digits_onto}
use looksee.Prelude.Same.{same_self, same_eq}
use looksee.Prelude.Bytes.{read_u8-inside, read_u32-inside}
use looksee.TwoFactor.Base32.{base32_decode}
use looksee.TwoFactor.Codes.{
  counter_bytes, pad_start, six_digits, code_of_step, totp_code, try_steps, totp_step,
}

-- The digits of `n` take at most `k` units in front of `rest`, for every `n` below `bound`.
abbrev Fits : ℕ → ℕ → Type 0
Fits k bound =
    (fuel n : ℕ) (rest : Text)
    → n < bound
    → every is_digit rest ≡ true
    → (length (digits_onto fuel n rest) ≤ k + length rest)
      × (every is_digit (digits_onto fuel n rest) ≡ true)

Fits-one : Fits 1 10
unfolding digits_onto
Fits-one zero n rest h d = (omega arith, d)
Fits-one (suc fuel) n rest h d = ground arith

Fits-more : (k bound : ℕ) → Fits k bound → Fits (suc k) (10 * bound)
unfolding digits_onto
Fits-more k bound fits zero n rest h d = (omega arith, d)
Fits-more k bound fits (suc fuel) n rest h d =
    ground (arith, fits fuel (n / 10) ((b'0' + n % 10) ∷ rest) (omega arith))

Fits-six : Fits 6 1000000
Fits-six =
    Fits-more 5 100000
      (Fits-more 4 10000 (Fits-more 3 1000 (Fits-more 2 100 (Fits-more 1 10 Fits-one))))

length-replicate : (n c : ℕ) → length (replicate n c) ≡ n
length-replicate zero c = refl
length-replicate (suc n) c = omega (arith, length-replicate n c)

every-zeros :
    (n : ℕ) (s : Text) → every is_digit s ≡ true → every is_digit (replicate n b'0' ++ s) ≡ true
every-zeros zero s h = h
every-zeros (suc n) s h = ground (arith, every-zeros n s h)

six_digits-pad_start : (n : ℕ) → n < 1000000 → six_digits (pad_start 6 (show n)) ≡ true
unfolding pad_start show
six_digits-pad_start n h =
    let (short, digits) = Fits-six (suc n) n [] h refl in
    ground (
      arith,
      length-append (replicate (6 - length (digits_onto (suc n) n [])) b'0')
          (digits_onto (suc n) n []),
      length-replicate (6 - length (digits_onto (suc n) n [])) b'0',
      every-zeros (6 - length (digits_onto (suc n) n [])) (digits_onto (suc n) n []),
    )

counter_bytes_total : (n : ℕ) → n < 2 ^ 64 → (b : List ℕ) × (counter_bytes n ≡ some b)
unfolding counter_bytes
counter_bytes_total n h = elim (Option-cases (counter_bytes n)) [
  | inl e ↦ absurd (ground arith)
  | inr found ↦ found
]

module _ (hmac : List ℕ → List ℕ → List ℕ) (upper : Text → Text) where
  -- SHA-1 gives 20 bytes.
  abbrev pub GivesTwenty : Type 0
  GivesTwenty = (key message : List ℕ) → length (hmac key message) ≡ 20

  code_of_step_total :
      (secret : Text) (n : ℕ)
      → GivesTwenty
      → n < 2 ^ 64
      → (c : Text) × (code_of_step hmac upper secret n ≡ some c) × (six_digits c ≡ true)
  unfolding code_of_step
  code_of_step_total secret n twenty h =
      let (counter, counted) = counter_bytes_total n h in
      let digest = hmac (base32_decode upper secret) counter in
      let size = twenty (base32_decode upper secret) counter in
      let (last, e) = read_u8-inside digest (length digest - 1) (omega (arith, size)) in
      let (word, d) = read_u32-inside digest (last % 16) (omega (arith, size)) in
      (
        pad_start 6 (show (word % 2 ^ 31 % 1000000)),
        rw counted (rw e (rw d refl)),
        six_digits-pad_start (word % 2 ^ 31 % 1000000) (omega arith),
      )

  -- The step that is `d - 1` steps from the time.
  abbrev pub step_near : ℕ → ℕ → ℕ
  step_near time d = time / 30000 + d - 1

  -- What an answer says of the code `c` for the steps that were tried.
  abbrev pub Answers : Text → Text → ℕ → List ℕ → Option ℕ → Type 0
  Answers secret c time ds none =
      All (λ d. code_of_step hmac upper secret (step_near time d) ≢ some c) ds
  Answers secret c time ds (some n) =
      (time / 30000 ≤ n + 1) × (n ≤ time / 30000 + 1) × (code_of_step hmac upper secret n ≡ some c)

  Answers-refused :
      (secret c code : Text) (time d : ℕ) (ds : List ℕ) (r : Option ℕ)
      → code_of_step hmac upper secret (step_near time d) ≡ some code
      → same code c ≡ false
      → Answers secret c time ds r
      → Answers secret c time (d ∷ ds) r
  Answers-refused secret c code time d ds none e other answers = (
    λ p. let equal : same code c ≡ same c c = ground arith in ground (arith, same_self c),
    answers,
  )
  Answers-refused secret c code time d ds (some n) e other answers = answers

  totp_code_moved :
      (secret : Text) (time d : ℕ)
      → 30000 ≤ time
      → totp_code hmac upper secret (time + d * 30000 - 30000)
        ≡ code_of_step hmac upper secret (step_near time d)
  unfolding totp_code
  totp_code_moved secret time d h = ap (λ n. code_of_step hmac upper secret n) (omega arith)

  try_steps_lem :
      (secret c : Text) (time : ℕ) (ds : List ℕ)
      → GivesTwenty
      → 30000 ≤ time
      → time < 30000 * 2 ^ 63
      → All (λ d. d < 3) ds
      → (r : Option ℕ) × (try_steps hmac upper secret c time ds ≡ some r)
        × Answers secret c time ds r
  unfolding try_steps
  try_steps_lem secret c time [] twenty low high small = (none, refl, tt)
  try_steps_lem secret c time (d ∷ ds) twenty low high (hd, small) =
      let (code, e, six) = code_of_step_total secret (step_near time d) twenty (omega arith) in
      let before : ltb (time + d * 30000) 30000 ≡ false = ground arith in
      let (r, later, answers) = try_steps_lem secret c time ds twenty low high small in
      rw (before, totp_code_moved secret time d low, e)
        (elim (Bool-cases (same code c)) [
          | inl same_code ↦ rw same_code (
            some ((time + d * 30000 - 30000) / 30000),
            refl,
            (
              omega arith,
              omega arith,
              ap (λ n. code_of_step hmac upper secret n) (omega arith)
                  ∙ e
                  ∙ ap some (same_eq code c same_code),
            ),
          )
          | inr other ↦
              rw other (r, later, Answers-refused secret c code time d ds r e other answers)
        ])

  -- The code as typed, without spaces.
  abbrev pub typed : Text → Text
  typed code = keep (λ u. not (is_space u)) code

  -- `totpStep` answers on every input (for times from 1970 on that the counter holds, where the
  -- HMAC gives 20 bytes): with a step, then it is that of the time or next to it, and the typed
  -- code without spaces is the code of that step; or with no step, and then it is the code of none
  -- of the three steps.
  pub totp_step_complete :
      (secret code : Text) (time : ℕ)
      → GivesTwenty
      → 30000 ≤ time
      → time < 30000 * 2 ^ 63
      → (r : Option ℕ) × (totp_step hmac upper secret code time ≡ some r)
        × Answers secret (typed code) time (0 ∷ 1 ∷ 2 ∷ []) r
  unfolding totp_step
  totp_step_complete secret code time twenty low high =
      elim (Bool-cases (six_digits (typed code))) [
        | inl six ↦
            rw six (
              try_steps_lem secret (typed code) time (0 ∷ 1 ∷ 2 ∷ []) twenty low high (omega arith))
        | inr short ↦ rw short (
          none,
          refl,
          (
            λ p. refused 0 (omega arith) short p,
            (λ p. refused 1 (omega arith) short p, (λ p. refused 2 (omega arith) short p, tt)),
          ),
        )
      ]
    where
      refused :
          (d : ℕ)
          → d < 3
          → six_digits (typed code) ≡ false
          → code_of_step hmac upper secret (step_near time d) ≢ some (typed code)
      refused d small short p =
          let (c, e, six) = code_of_step_total secret (step_near time d) twenty (omega arith) in
          ground arith
