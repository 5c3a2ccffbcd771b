-- ===== src/TwoFactor/Replay.antt =====
-- `consumeTotp` of engine/src/lib/totp.ts, called again and again.
use looksee.Prelude.{
  ℕ, ◌≡◌, ◌<◌, inl, inr, String, Bool, true, false, Option, none, some, List, [], ◌∷◌, ◌===◌,
  if◌then◌else◌, ◌>>=◌, arith, Bool-cases, eq_iff,
}
use mathlib.Core.Path.{subst}
use looksee.Prelude.Text.{Text}
use looksee.TwoFactor.Codes.{LastUsed, is_used, totp_step, after_step, consume_totp}

-- A call of `consumeTotp`.
pub record Attempt : Type 0 where
  pub user : String
  pub secret : Text
  pub code : Text
  pub time : ℕ

-- Each number is above the ones before it, the first above `last`.
abbrev pub Rises : Option ℕ → List ℕ → Type 0
Rises last [] = Unit
Rises none (n ∷ ns) = Rises (some n) ns
Rises (some last) (n ∷ ns) = (last < n) × Rises (some n) ns

abbrev step_of : Option ℕ → List ℕ → List ℕ
step_of none later = later
step_of (some n) later = n ∷ later

Rises-head :
    (last : Option ℕ) (step : ℕ) (later : List ℕ)
    → is_used last step ≡ false
    → Rises (some step) later
    → Rises last (step ∷ later)
Rises-head none step later new h = h
Rises-head (some last) step later new h = (ground arith, h)

module _ (hmac : List ℕ → List ℕ → List ℕ) (upper : Text → Text) where
  -- The map behind a call; a call that throws leaves it as it was.
  abbrev pub used_after : LastUsed → Option (Bool × LastUsed) → LastUsed
  used_after used none = used
  used_after used (some (answer, used')) = used'

  -- The step of an accepted call of `user`, in front of those of the later calls.
  abbrev noted : String → Attempt → Option (Bool × LastUsed) → List ℕ → List ℕ
  noted user a (some (true, used')) later =
      if a.user === user then step_of (used' user) later else later
  noted user a _ later = later

  unfoldable pub accepted_steps : String → LastUsed → List Attempt → List ℕ
  accepted_steps user used [] = []
  accepted_steps user used (a ∷ rest) =
      let r = consume_totp hmac upper a.user a.secret a.code a.time used in
      noted user a r (accepted_steps user (used_after used r) rest)

  -- One call: what it adds, where the steps of the later calls rise from the state behind it.
  noted-Rises :
      (user : String) (used : LastUsed) (a : Attempt) (later : List ℕ) (r : Option (Option ℕ))
      → let call : Option (Bool × LastUsed) =
          r >>= λ step. some (after_step hmac upper a.user used step) in
        Rises (used_after used call user) later → Rises (used user) (noted user a call later)
  unfolding after_step
  noted-Rises user used a later none h = h
  noted-Rises user used a later (some none) h = h
  noted-Rises user used a later (some (some step)) h =
      elim (Bool-cases (is_used (used a.user) step)) [
        | inl old ↦ rw old (rw old at h)
        | inr new ↦ rw new (elim (Bool-cases (a.user === user)) [
          | inl own ↦ rw own (
              Rises-head (used user) step later
                (subst (λ (u : String). is_used (used u) step ≡ false) ((eq_iff a.user user).0 own)
                  new)
                (rw own at (rw new at h)))
          | inr other ↦ rw other (rw other at (rw new at h))
        ])
      ]

  -- Of the steps for which a user's codes are accepted, in the order of the calls, each is later
  -- than the ones before it and than the one that was used last: no code is accepted twice,
  -- whatever the calls between, also of other users, calls that are refused and calls that throw.
  pub accepted_steps-Rises :
      (user : String) (used : LastUsed) (attempts : List Attempt)
      → Rises (used user) (accepted_steps user used attempts)
  unfolding accepted_steps consume_totp
  accepted_steps-Rises user used [] = tt
  accepted_steps-Rises user used (a ∷ rest) =
      noted-Rises user used a _ (totp_step hmac upper a.secret a.code a.time) (
        accepted_steps-Rises user
          (used_after used (consume_totp hmac upper a.user a.secret a.code a.time used)) rest)
