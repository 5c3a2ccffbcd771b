-- ===== src/Security/Lockout.antt =====
-- `lockedOut` of engine/src/services/security.ts and the account's known addresses.
use looksee.Prelude.{
  ℕ, String, Bool, true, false, not, ◌&&◌, List, [], ◌∷◌, ◌++◌, keep, leb, length, ◌≡◌, refl, sym,
  ap, ◌∙◌, arith, All,
}
use looksee.Security.{
  SecurityEvent, State, is_ip, recent_failure, failures_from, is_known, locked_out,
}

abbrev pub with_events : List SecurityEvent → State → State
with_events es s = record s { events = es ++ s.events }

module _ (matches : List String → String → Bool) where
  kept_out :
      (ip : String) (now : ℕ) (s : State) (es fs : List SecurityEvent)
      → All (λ e. is_ip e.ip ip ≡ false) es
      → keep (λ e. recent_failure matches now s e && is_ip e.ip ip) (es ++ fs)
        ≡ keep (λ e. recent_failure matches now s e && is_ip e.ip ip) fs
  kept_out ip now s [] fs a = refl
  kept_out ip now s (e ∷ es) fs (a, as_well) =
      let out : (recent_failure matches now s e && is_ip e.ip ip) ≡ false = ground arith in
      rw out (kept_out ip now s es fs as_well)

  locked_out-known :
      (ip email : String) (now : ℕ) (s : State)
      → is_known matches ip email s ≡ true
      → locked_out matches ip email now s
        ≡ not (leb s.lockout_threshold 0)
          && leb s.lockout_threshold (failures_from matches ip now s)
  unfolding locked_out
  locked_out-known ip email now s k = ground arith

  -- From an address that the account has signed in from, a sign-in is refused exactly after as many
  -- recent failures from that address as the threshold says; no failures from elsewhere, however
  -- many and for whichever account, make a difference.
  pub locked_out-elsewhere :
      (ip email : String) (now : ℕ) (s : State) (es : List SecurityEvent)
      → is_known matches ip email s ≡ true
      → All (λ e. is_ip e.ip ip ≡ false) es
      → (locked_out matches ip email now (with_events es s) ≡ locked_out matches ip email now s)
        × (locked_out matches ip email now s
            ≡ not (leb s.lockout_threshold 0)
              && leb s.lockout_threshold (failures_from matches ip now s))
  unfolding failures_from is_known
  locked_out-elsewhere ip email now s es k a =
      let before = locked_out-known ip email now s k in
      let after = locked_out-known ip email now (with_events es s) k in
      (
        after
            ∙ ap (λ l. not (leb s.lockout_threshold 0) && leb s.lockout_threshold (length l))
                (kept_out ip now s es s.events a)
            ∙ sym before,
        before,
      )
