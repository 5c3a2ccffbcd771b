-- ===== src/UserAccounts/Unique.antt =====
-- `cleanUsers` of engine/src/services/userAccounts.ts: what the list that it returns is like.
use looksee.Prelude.{
  ℕ, zero, suc, ◌≤◌, ◌≡◌, refl, sym, inl, inr, Bool, true, false, not, ◌&&◌, ◌||◌, Option, none,
  some, List, [], ◌∷◌, length, take, any, length-take, if◌then◌else◌, arith, Bool-cases,
  Option-cases,
}
use looksee.Prelude.Text.{Text, codes, same}
use looksee.Prelude.Same.{same_self, same_sym, same_eq}
use looksee.Exclude.Items.{is_filled}
use looksee.StripNul.{
  JsonValue, JsonItems, JsonEntries, null, boolean, number, string, array, object, nil, cons,
}
use looksee.UserAccounts.{
  UserAccount, account, own, named, named_value, slice, clean_each, clean_users,
}

module _ (lower : Text → Text) where
  -- No account has the name of `k`, up to case.
  abbrev pub has_name : Text → List UserAccount → Bool
  has_name k us = any (λ u. same (lower u.name) k) us

  abbrev pub IsNamed : UserAccount → Type 0
  IsNamed u = (is_filled u.name ≡ true) × (length u.name ≤ 256)

  -- Every account has a name, which is the only one of its kind up to case.
  abbrev pub Keyed : List UserAccount → Type 0
  Keyed [] = Unit
  Keyed (u ∷ us) = IsNamed u × (has_name (lower u.name) us ≡ false) × Keyed us

  named_value_short :
      (o : Option JsonValue) (es : JsonEntries) (x : Text × JsonEntries)
      → named_value o es ≡ some x
      → length x.0 ≤ 256
  named_value_short none es x h = cc
  named_value_short (some null) es x h = cc
  named_value_short (some (boolean b)) es x h = cc
  named_value_short (some (number n)) es x h = cc
  named_value_short (some (string s)) es x h =
      let e : take 256 s ≡ x.0 = cc in rw (sym e) (omega (arith, length-take 256 s))
  named_value_short (some (array vs)) es x h = cc
  named_value_short (some (object o)) es x h = cc

  named_short : (r : JsonValue) (x : Text × JsonEntries) → named r ≡ some x → length x.0 ≤ 256
  named_short null x h = cc
  named_short (boolean b) x h = cc
  named_short (number n) x h = cc
  named_short (string s) x h = cc
  named_short (array vs) x h = cc
  named_short (object u) x h = named_value_short (own u (codes "name")) u x h

  abbrev is_skipped : List Text → Text → Bool
  is_skipped seen called = not (is_filled called) || any (same (lower called)) seen

  skips :
      (seen : List Text) (r : JsonValue) (raw : List JsonValue)
      → named r ≡ none
      → clean_each lower seen (r ∷ raw) ≡ clean_each lower seen raw
  unfolding clean_each
  skips seen r raw e = rw (e, clean_each) refl

  meets :
      (seen : List Text) (r : JsonValue) (raw : List JsonValue) (called : Text) (u : JsonEntries)
      → named r ≡ some (called, u)
      → clean_each lower seen (r ∷ raw) ≡ (
          if is_skipped seen called
          then clean_each lower seen raw
          else account called u ∷ clean_each lower (lower called ∷ seen) raw)
  unfolding clean_each
  meets seen r raw called u e = rw (e, clean_each) refl

  -- None of the names in `seen` is taken again.
  clean_each-has_name :
      (seen : List Text) (raw : List JsonValue) (k : Text)
      → any (same k) seen ≡ true
      → has_name k (clean_each lower seen raw) ≡ false
  unfolding clean_each
  clean_each-has_name seen [] k h = refl
  clean_each-has_name seen (r ∷ raw) k h = elim (Option-cases (named r)) [
    | inl e ↦ rw (skips seen r raw e) (clean_each-has_name seen raw k h)
    | inr ((called, u), e) ↦ elim (Bool-cases (is_skipped seen called)) [
      | inl out ↦ rw (meets seen r raw called u e, out) (clean_each-has_name seen raw k h)
      | inr kept ↦
          rw (meets seen r raw called u e, kept)
            (ground (
              arith,
              h,
              kept,
              seen_eq seen k (lower called),
              same_sym k (lower called),
              clean_each-has_name (lower called ∷ seen) raw k (ground (arith, h)),
            ))
    ]
  ]
    where
      seen_eq :
          (seen : List Text) (k called : Text)
          → (any (same k) seen && same k called && not (any (same called) seen)) ≡ false
      seen_eq seen k called = elim (Bool-cases (same k called)) [
        | inr other ↦ rw other (ground arith)
        | inl e ↦ rw (same_eq k called e) (ground arith)
      ]

  clean_each-Keyed : (seen : List Text) (raw : List JsonValue) → Keyed (clean_each lower seen raw)
  unfolding clean_each
  clean_each-Keyed seen [] = tt
  clean_each-Keyed seen (r ∷ raw) = elim (Option-cases (named r)) [
    | inl e ↦ rw (skips seen r raw e) (clean_each-Keyed seen raw)
    | inr ((called, u), e) ↦ elim (Bool-cases (is_skipped seen called)) [
      | inl out ↦ rw (meets seen r raw called u e, out) (clean_each-Keyed seen raw)
      | inr kept ↦
          rw (meets seen r raw called u e, kept)
            (
              (ground arith, named_short r (called, u) e),
              clean_each-has_name (lower called ∷ seen) raw (lower called)
                  (rw (same_self (lower called)) refl),
              clean_each-Keyed (lower called ∷ seen) raw,
            )
    ]
  ]

  length-slice : (n : ℕ) (vs : JsonItems) → length (slice n vs) ≤ n
  length-slice zero vs = omega arith
  length-slice (suc n) nil = omega arith
  length-slice (suc n) (cons v vs) = omega (arith, length-slice n vs)

  length-clean_each :
      (seen : List Text) (raw : List JsonValue) → length (clean_each lower seen raw) ≤ length raw
  unfolding clean_each
  length-clean_each seen [] = omega arith
  length-clean_each seen (r ∷ raw) = elim (Option-cases (named r)) [
    | inl e ↦ rw (skips seen r raw e) (omega (arith, length-clean_each seen raw))
    | inr ((called, u), e) ↦ elim (Bool-cases (is_skipped seen called)) [
      | inl out ↦ rw (meets seen r raw called u e, out) (omega (arith, length-clean_each seen raw))
      | inr kept ↦
          rw (meets seen r raw called u e, kept)
            (omega (arith, length-clean_each (lower called ∷ seen) raw))
    ]
  ]

  -- A list of whatever values an agent sends is cleaned to at most 5000 accounts with a name of 1
  -- to 256 units each, and no two names are the same up to case.
  pub clean_users-Keyed :
      (vs : JsonItems)
      → (us : List UserAccount) × (clean_users lower (some (array vs)) ≡ some us)
        × Keyed us
        × (length us ≤ 5000)
  unfolding clean_users
  clean_users-Keyed vs = (
    clean_each lower [] (slice 5000 vs),
    refl,
    clean_each-Keyed [] (slice 5000 vs),
    omega (arith, length-clean_each [] (slice 5000 vs), length-slice 5000 vs),
  )
