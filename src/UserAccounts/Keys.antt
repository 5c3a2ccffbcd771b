-- ===== src/UserAccounts/Keys.antt =====
-- The accounts by name of engine/src/services/userAccounts.ts, and a list of accounts compared with
-- itself.
use looksee.Prelude.{
  ◌≡◌, refl, sym, ap, ◌∙◌, inl, inr, Bool, true, false, Option, none, some, List, [], ◌∷◌, ◌++◌,
  map, keep, All, if◌then◌else◌, arith, Bool-cases,
}
use mathlib.Core.Path.{subst}
use looksee.Prelude.Text.{Text, same}
use looksee.Prelude.Same.{same_self, same_eq, same_sym, same_trans}
use looksee.UserAccounts.{UserAccount}
use looksee.UserAccounts.Changes.{
  Field, absent, as_flag, as_text, field_of, has_changed, watched, describe, diffs, Accounts,
  account_under, set_account, change_of, new_changes, removals, is_none, is_missing, changed_by,
  keyed_by_name, sort, diff_users,
}

account_under-set_account :
    (j : Text) (u : UserAccount) (us : Accounts) (k : Text)
    → account_under k (set_account j u us) ≡ (if same j k then some u else account_under k us)
account_under-set_account j u [] k = refl
account_under-set_account j u ((i, v) ∷ us) k = elim (Bool-cases (same i j)) [
  | inl own ↦ rw own (ground (arith, same_trans i j k own))
  | inr other ↦ elim (Bool-cases (same i k)) [
    | inl hit ↦
        let apart : same j k ≡ false = ground (arith, same_trans i k j hit, same_sym j k) in
        rw (other, hit, apart) refl
    | inr miss ↦ rw (other, miss) (account_under-set_account j u us k)
  ]
]

-- No key is there twice.
abbrev pub DistinctKeys : Accounts → Type 0
DistinctKeys [] = Unit
DistinctKeys ((k, u) ∷ us) = (account_under k us ≡ none) × DistinctKeys us

set_account-DistinctKeys :
    (j : Text) (u : UserAccount) (us : Accounts)
    → DistinctKeys us
    → DistinctKeys (set_account j u us)
set_account-DistinctKeys j u [] h = (refl, tt)
set_account-DistinctKeys j u ((i, v) ∷ us) (new, h) = elim (Bool-cases (same i j)) [
  | inl own ↦ rw own (new, h)
  | inr other ↦
      let apart : same j i ≡ false = same_sym j i ∙ other in
      rw other
        (account_under-set_account j u us i ∙ rw apart new, set_account-DistinctKeys j u us h)
]

keyed_by_name-DistinctKeys :
    (lower : Text → Text) (out : Accounts) (us : List UserAccount)
    → DistinctKeys out
    → DistinctKeys (keyed_by_name lower out us)
unfolding keyed_by_name
keyed_by_name-DistinctKeys lower out [] h = h
keyed_by_name-DistinctKeys lower out (u ∷ us) h =
    keyed_by_name-DistinctKeys lower (set_account (lower u.name) u out) us
      (set_account-DistinctKeys (lower u.name) u out h)

-- Every entry of the second list is what the first has under its key.
abbrev Found : Accounts → Accounts → Type 0
Found prev us = All (λ (e : Text × UserAccount). account_under e.0 prev ≡ some e.1) us

Found-cons :
    (j : Text) (v : UserAccount) (prev us : Accounts)
    → account_under j prev ≡ none
    → Found prev us
    → Found ((j, v) ∷ prev) us
Found-cons j v prev [] new h = tt
Found-cons j v prev ((k, u) ∷ us) new (e, h) = elim (Bool-cases (same j k)) [
  | inl own ↦
      let gone : account_under k prev ≡ none =
        subst (λ x. account_under x prev ≡ none) (same_eq j k own) new in
      let no : some u ≡ none = sym e ∙ gone in cc
  | inr other ↦ (rw other e, Found-cons j v prev us new h)
]

DistinctKeys-Found : (us : Accounts) → DistinctKeys us → Found us us
DistinctKeys-Found [] h = tt
DistinctKeys-Found ((k, u) ∷ us) (new, h) =
    (rw (same_self k) refl, Found-cons k u us us new (DistinctKeys-Found us h))

has_changed_self : (f : Field) → has_changed f f ≡ false
has_changed_self absent = refl
has_changed_self (as_flag true) = refl
has_changed_self (as_flag false) = refl
has_changed_self (as_text s) = rw (same_self s) refl

keep_none {ℓ} : {A : Type ℓ} (p : A → Bool) (xs : List A) → ((x : A) → p x ≡ false) → keep p xs ≡ []
keep_none p [] h = refl
keep_none p (x ∷ xs) h = rw (h x) (keep_none p xs h)

diffs_self : (u : UserAccount) → diffs u u ≡ []
diffs_self u = ap (map (describe u u)) (
    keep_none (λ k. has_changed (field_of u k) (field_of u k)) watched
      (λ k. has_changed_self (field_of u k)))

Found-new_changes : (prev us : Accounts) → Found prev us → new_changes prev us ≡ []
unfolding new_changes change_of
Found-new_changes prev [] h = refl
Found-new_changes prev ((k, u) ∷ us) (e, h) =
    ap (λ (o : Option UserAccount). change_of o u ++ new_changes prev us) e
    ∙ ap (λ ds. changed_by u u ds ++ new_changes prev us) (diffs_self u)
    ∙ Found-new_changes prev us h

Found-removals : (current us : Accounts) → Found current us → removals current us ≡ []
Found-removals current [] h = refl
Found-removals current ((k, u) ∷ us) (e, h) =
    let there : is_missing current k ≡ false = ap is_none e in
    rw there (Found-removals current us h)

-- The list that is stored for a report has no changes against the same report.
pub diff_users_same :
    (lower : Text → Text) (comes_after : Text → Text → Bool) (us : List UserAccount)
    → diff_users lower comes_after (keyed_by_name lower [] us) us ≡ []
unfolding diff_users sort
diff_users_same lower comes_after us =
    let current = keyed_by_name lower [] us in
    let found = DistinctKeys-Found current (keyed_by_name-DistinctKeys lower [] us tt) in
    rw (Found-new_changes current current found, Found-removals current current found) refl
