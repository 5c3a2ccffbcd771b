-- ===== src/UserAccounts/Admins.antt =====
-- `evaluateUserAccounts` of engine/src/services/userAccounts.ts: an account that gains admin
-- rights.
use looksee.Prelude.{
  ℕ, ◌≡◌, refl, sym, ap, ◌∙◌, inl, inr, Bool, true, false, ◌&&◌, ◌||◌, Option, none, some, List, [],
  ◌∷◌, ◌++◌, map, keep, any, length, arith, Bool-cases,
}
use mathlib.Core.Path.{subst}
use looksee.Prelude.Text.{Text, codes, same}
use looksee.Prelude.Same.{same_eq}
use looksee.Prelude.Sets.{any-append}
use looksee.Thresholds.{worst}
use looksee.UserAccounts.{UserAccount, clean_users}
use looksee.UserAccounts.Changes.{
  key_admin, join, field_of, has_changed, watched, describe, diffs, is_true, is_false, changed,
  Accounts, account_under, UserChange, change_of, changed_by, new_changes, removals, keyed_by_name,
  insert, sort, diff_users,
}
use looksee.UserAccounts.Judge.{
  Config, State, AgentResult, is_listed, is_watched, gains_admin, severity, admin_severity,
  now_status, changes_since, next_state, verdict, judge_users, JudgedReport, evaluate_listed,
  evaluate_user_accounts,
}

any-insert :
    (comes_after : Text → Text → Bool) (p : UserChange → Bool) (c : UserChange)
    (cs : List UserChange)
    → any p (insert comes_after c cs) ≡ p c || any p cs
unfolding insert
any-insert comes_after p c [] = refl
any-insert comes_after p c (d ∷ ds) = elim (Bool-cases (comes_after c.user d.user)) [
  | inl b ↦ rw b (ground (arith, any-insert comes_after p c ds))
  | inr b ↦ rw b refl
]

any-sort :
    (comes_after : Text → Text → Bool) (p : UserChange → Bool) (cs : List UserChange)
    → any p (sort comes_after cs) ≡ any p cs
unfolding sort
any-sort comes_after p [] = refl
any-sort comes_after p (c ∷ cs) =
    ground (arith, any-insert comes_after p c (sort comes_after cs), any-sort comes_after p cs)

any-keep {ℓ} :
    {A : Type ℓ} (p q : A → Bool) (xs : List A) → any p (keep q xs) ≡ any (λ x. q x && p x) xs
any-keep p q [] = refl
any-keep p q (x ∷ xs) = elim (Bool-cases (q x)) [
  | inl b ↦ rw b (ground (arith, any-keep p q xs))
  | inr b ↦ rw b (any-keep p q xs)
]

keep-any {ℓ} :
    {A : Type ℓ} (q : A → Bool) (xs : List A)
    → any q xs ≡ true
    → (y : A) × (ys : List A) × (keep q xs ≡ y ∷ ys)
keep-any q [] h = cc
keep-any q (x ∷ xs) h = elim (Bool-cases (q x)) [
  | inl b ↦ (x, keep q xs, rw b refl)
  | inr b ↦ let (y, ys, e) = keep-any q xs (rw b at h) in (y, ys, rw b e)
]

-- Of a test that holds for a change of an account's admin rights.
module _ (p : UserChange → Bool) (before u : UserAccount) where
  any-changed_by :
      (ds : List Text) (d : Text) (rest : List Text)
      → ((x : UserChange) → x.change ≡ changed → x.admin ≡ some true → p x ≡ true)
      → before.admin ≡ some false
      → u.admin ≡ some true
      → ds ≡ d ∷ rest
      → any p (changed_by before u ds) ≡ true
  any-changed_by [] d rest holds was is e = cc
  any-changed_by (y ∷ ys) d rest holds was is e =
      let x : UserChange = record {
        change = changed;
        user = u.name;
        detail = join (codes "; ") (y ∷ ys);
        admin = some (is_false before.admin && is_true u.admin);
      } in
      let yes_holds : p x ≡ true = holds x refl (rw (was, is) refl) in rw yes_holds refl

  any-change_of :
      ((x : UserChange) → x.change ≡ changed → x.admin ≡ some true → p x ≡ true)
      → before.admin ≡ some false
      → u.admin ≡ some true
      → any p (change_of (some before) u) ≡ true
  unfolding change_of
  any-change_of holds was is =
      let gain : has_changed (field_of before key_admin) (field_of u key_admin) ≡ true =
        rw (was, is) refl in
      let (k, ks, e) =
        keep-any (λ k. has_changed (field_of before k) (field_of u k)) watched
          (ground (arith, gain)) in
      any-changed_by (diffs before u) (describe before u k) (map (describe before u) ks) holds was
        is (ap (map (describe before u)) e)

any-new_changes :
    (p : UserChange → Bool) (prev us : Accounts) (k : Text) (u : UserAccount)
    → account_under k us ≡ some u
    → any p (change_of (account_under k prev) u) ≡ true
    → any p (new_changes prev us) ≡ true
unfolding new_changes
any-new_changes p prev [] k u found h = cc
any-new_changes p prev ((j, v) ∷ us) k u found h = elim (Bool-cases (same j k)) [
  | inl own ↦
      let e : v ≡ u = cc in
      let here : any p (change_of (account_under j prev) v) ≡ true =
        subst (λ x. any p (change_of (account_under x prev) v) ≡ true) (sym (same_eq j k own))
          (subst (λ x. any p (change_of (account_under k prev) x) ≡ true) (sym e) h) in
      any-append p (change_of (account_under j prev) v) (new_changes prev us) ∙ rw here refl
  | inr other ↦
      let later = any-new_changes p prev us k u (rw other at found) h in
      any-append p (change_of (account_under j prev) v) (new_changes prev us)
      ∙ rw later (ground arith)
]

now_status_gains :
    (c : Config) (changes : List UserChange)
    → any gains_admin changes ≡ true
    → now_status c changes ≡ worst (severity c) (admin_severity c)
unfolding now_status
now_status_gains c [] h = cc
now_status_gains c (d ∷ ds) h = rw h refl

verdict_gains :
    (c : Config) (o : Option Accounts) (prev : Accounts) (st : State) (changes : List UserChange)
    (count now : ℕ)
    → o ≡ some prev
    → any gains_admin changes ≡ true
    → (verdict c o st changes count now).0 ≡ worst (severity c) (admin_severity c)
unfolding verdict
verdict_gains c none prev st changes count now e h = cc
verdict_gains c (some old) prev st [] count now e h = cc
verdict_gains c (some old) prev st (d ∷ ds) count now e h = now_status_gains c (d ∷ ds) h

module _ (lower : Text → Text) (comes_after : Text → Text → Bool) where
  -- An account that was none of the administrators and is one now is found, whatever else the
  -- report says: the check gets the worse of two settings, the severity of a change and that of new
  -- admin rights. (So a severity of down outweighs one of warn for admin rights.) The account is to
  -- be listed and changes of accounts to be watched; the last report has the account under its
  -- name.
  pub evaluate_user_accounts_gains :
      (c : Config) (st : State) (r : AgentResult) (now : ℕ)
      → (listed : List UserAccount) (prev : Accounts) (k : Text) (before u : UserAccount)
      → clean_users lower r.users ≡ some listed
      → st.users ≡ some prev
      → account_under k (keyed_by_name lower [] (keep (is_listed lower comes_after c) listed))
        ≡ some u
      → account_under k prev ≡ some before
      → before.admin ≡ some false
      → u.admin ≡ some true
      → is_watched c changed ≡ true
      → (evaluate_user_accounts lower comes_after c st r now).0.status
        ≡ worst (severity c) (admin_severity c)
  unfolding judge_users diff_users
  evaluate_user_accounts_gains c st r now listed prev k before u reads known here there was is
        watch =
      let users = keep (is_listed lower comes_after c) listed in
      let current = keyed_by_name lower [] users in
      let wanted = λ (x : UserChange). is_watched c x.change in
      let both = λ (x : UserChange). is_watched c x.change && gains_admin x in
      let one : any both (change_of (account_under k prev) u) ≡ true =
        ap (λ o. any (λ (x : UserChange). is_watched c x.change && gains_admin x) (change_of o u))
          there
        ∙ any-change_of (λ (x : UserChange). is_watched c x.change && gains_admin x) before u
            (λ x kind gain. rw (kind, gain, watch) refl) was is in
      let all = any-new_changes both prev current k u here one in
      let found : any gains_admin (keep wanted (diff_users lower comes_after prev users)) ≡ true =
        any-keep gains_admin wanted (diff_users lower comes_after prev users)
        ∙ any-sort comes_after both (new_changes prev current ++ removals current prev)
        ∙ any-append both (new_changes prev current) (removals current prev)
        ∙ rw all refl in
      let found_here : any gains_admin
            (keep wanted (changes_since lower comes_after st.users users))
          ≡ true =
        ap
          (λ o. any gains_admin (
            keep (λ (x : UserChange). is_watched c x.change)
              (changes_since lower comes_after o users)))
          known
        ∙ found in
      ap (λ (j : JudgedReport × State). j.0.status)
        (evaluate_listed lower comes_after c st r listed now reads)
      ∙ verdict_gains c st.users prev
          (next_state c st current (keep wanted (changes_since lower comes_after st.users users))
            now)
          (keep wanted (changes_since lower comes_after st.users users)) (length users) now known
          found_here
