-- ===== src/UserAccounts/Quiet.antt =====
-- `evaluateUserAccounts` of engine/src/services/userAccounts.ts: reports that list the same
-- accounts.
use looksee.Prelude.{
  ℕ, zero, suc, ◌+◌, ◌≤◌, ◌≡◌, refl, ap, ◌∙◌, Bool, false, Option, none, some, List, [], ◌∷◌, ◌++◌,
  keep, map, length, take, arith,
}
use looksee.Prelude.Text.{Text}
use looksee.Thresholds.{up}
use looksee.UserAccounts.{UserAccount, clean_users}
use looksee.UserAccounts.Changes.{UserChange, Accounts, keyed_by_name}
use looksee.UserAccounts.Keys.{diff_users_same}
use looksee.UserAccounts.Judge.{
  Config, State, AgentResult, is_listed, is_watched, changes_since, hold_ms, is_held, next_state,
  verdict, judge_users, HistoryRow, evaluate_listed, evaluate_user_accounts,
}

-- The last change that is on record was seen by this instant.
abbrev pub SeenBy : Option ℕ → ℕ → Type 0
SeenBy none now = Unit
SeenBy (some at) now = at ≤ now

take_twice {ℓ} : {A : Type ℓ} (n : ℕ) (xs : List A) → take n (take n xs) ≡ take n xs
take_twice zero xs = refl
take_twice (suc n) [] = refl
take_twice (suc n) (x ∷ xs) = ap (λ r. x ∷ r) (take_twice n xs)

is_held_over :
    (c : Config) (at : Option ℕ) (t1 t2 : ℕ)
    → SeenBy at t1
    → t1 + hold_ms c ≤ t2
    → is_held c at t2 ≡ false
is_held_over c none t1 t2 h late = refl
is_held_over c (some at) t1 t2 h late = ground arith

next_state-SeenBy :
    (c : Config) (st : State) (accounts : Accounts) (changes : List UserChange) (now : ℕ)
    → SeenBy st.changed_at now
    → SeenBy (next_state c st accounts changes now).changed_at now
unfolding next_state
next_state-SeenBy c st accounts [] now h = h
next_state-SeenBy c st accounts (d ∷ ds) now h = omega arith

next_state_users :
    (c : Config) (st : State) (accounts : Accounts) (changes : List UserChange) (now : ℕ)
    → (next_state c st accounts changes now).users ≡ some accounts
unfolding next_state
next_state_users c st accounts [] now = refl
next_state_users c st accounts (d ∷ ds) now = refl

next_state_history :
    (c : Config) (st : State) (accounts : Accounts) (changes : List UserChange) (now : ℕ)
    → take 500 (next_state c st accounts changes now).history
      ≡ (next_state c st accounts changes now).history
unfolding next_state
next_state_history c st accounts [] now = take_twice 500 st.history
next_state_history c st accounts (d ∷ ds) now = take_twice 500 (map row (d ∷ ds) ++ st.history)
  where
    row : UserChange → HistoryRow
    row x = record { when_ms = now; change = x }

-- What a report without changes is judged to be, when the last change is over.
quiet_report :
    (c : Config) (st : State) (prev : Option Accounts) (accounts : Accounts)
    (changes : List UserChange) (count now : ℕ)
    → changes ≡ []
    → is_held c st.changed_at now ≡ false
    → take 500 st.history ≡ st.history
    → ((verdict c prev (next_state c st accounts changes now) changes count now).0 ≡ up)
      × ((next_state c st accounts changes now).history ≡ st.history)
unfolding next_state verdict
quiet_report c st none accounts [] count now e over short = (refl, short)
quiet_report c st (some prev) accounts [] count now e over short = (rw over refl, short)
quiet_report c st prev accounts (d ∷ ds) count now e over short = cc

module _ (lower : Text → Text) (comes_after : Text → Text → Bool) where
  judge_users_quiet :
      (c : Config) (st : State) (listed : List UserAccount) (now : ℕ)
      → st.users ≡ some (keyed_by_name lower [] (keep (is_listed lower comes_after c) listed))
      → is_held c st.changed_at now ≡ false
      → take 500 st.history ≡ st.history
      → ((judge_users lower comes_after c st listed now).0.status ≡ up)
        × ((judge_users lower comes_after c st listed now).1.history ≡ st.history)
  unfolding judge_users
  judge_users_quiet c st listed now same_users over short =
      let users = keep (is_listed lower comes_after c) listed in
      let watched = keep (λ (x : UserChange). is_watched c x.change) in
      quiet_report c st st.users (keyed_by_name lower [] users)
        (watched (changes_since lower comes_after st.users users)) (length users) now
        (ap
            (λ o.
              keep (λ (x : UserChange). is_watched c x.change)
                (changes_since lower comes_after o users))
            same_users
          ∙ ap (keep (λ (x : UserChange). is_watched c x.change))
              (diff_users_same lower comes_after users))
        over short

  -- A check becomes up again once the hold time of the last change is over, if the agent lists the
  -- same accounts as before: whatever the first of two such reports was judged to be, the second,
  -- at least the hold time later, is up and adds nothing to the history.
  pub evaluate_user_accounts_recovers :
      (c : Config) (st : State) (r r' : AgentResult) (listed : List UserAccount) (t1 t2 : ℕ)
      → clean_users lower r.users ≡ some listed
      → clean_users lower r'.users ≡ some listed
      → SeenBy st.changed_at t1
      → t1 + hold_ms c ≤ t2
      → ((evaluate_user_accounts lower comes_after c
            (evaluate_user_accounts lower comes_after c st r t1).1
            r'
            t2).0.status
          ≡ up)
        × ((evaluate_user_accounts lower comes_after c
              (evaluate_user_accounts lower comes_after c st r t1).1
              r'
              t2).1.history
            ≡ (evaluate_user_accounts lower comes_after c st r t1).1.history)
  unfolding judge_users
  evaluate_user_accounts_recovers c st r r' listed t1 t2 reads reads' seen late =
      let users = keep (is_listed lower comes_after c) listed in
      let changes =
        keep (λ (x : UserChange). is_watched c x.change)
          (changes_since lower comes_after st.users users) in
      let accounts = keyed_by_name lower [] users in
      let st' = next_state c st accounts changes t1 in
      let quiet =
        judge_users_quiet c st' listed t2 (next_state_users c st accounts changes t1)
          (is_held_over c st'.changed_at t1 t2 (next_state-SeenBy c st accounts changes t1 seen)
            late)
          (next_state_history c st accounts changes t1) in
      rw (evaluate_listed lower comes_after c st r listed t1 reads)
        (rw (evaluate_listed lower comes_after c st' r' listed t2 reads') quiet)
