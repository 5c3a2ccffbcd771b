-- ===== src/HostChanges/Drift.antt =====
-- `evaluateChange` of engine/src/services/endpointMetrics.ts: what is reported, and for how long.
use looksee.Prelude.{
  ℕ, ◌+◌, ◌≤◌, ◌<◌, ◌≡◌, inl, inr, refl, ap, ◌∙◌, Bool, true, false, not, ◌&&◌, ◌||◌, Option, none,
  some, List, [], ◌∷◌, keep, any, ltb, if◌then◌else◌, arith, Bool-cases,
}
use mathlib.Core.Path.{subst}
use looksee.Prelude.Text.{Text, same}
use looksee.Prelude.Same.{same_self, same_eq, unique_onto, any-unique_onto}
use looksee.Thresholds.{up}
use looksee.HostChanges.{
  Config, ChangeState, hold_ms, is_recent, event_status, includes_text, is_some_text, change_text,
  is_sessions, is_same_hash, hash_of, insert_item, insertion_sort, sort_items, last_change,
  judge_change, evaluate_change,
}

-- The last change on record was seen by this instant.
abbrev pub SeenBy : Option ℕ → ℕ → Type 0
SeenBy none now = Unit
SeenBy (some at) now = at ≤ now

over :
    (c : Config) (at : Option ℕ) (t1 t2 : ℕ)
    → SeenBy at t1
    → t1 + hold_ms c ≤ t2
    → is_recent c at t2 ≡ false
over c none t1 t2 h late = refl
over c (some at) t1 t2 h late = ground arith

any-insert_item :
    (before : Text → Text → Bool) (p : Text → Bool) (x : Text) (ys : List Text)
    → any p (insert_item before x ys) ≡ p x || any p ys
unfolding insert_item
any-insert_item before p x [] = refl
any-insert_item before p x (y ∷ ys) = elim (Bool-cases (before y x)) [
  | inl b ↦ rw b (ground (arith, any-insert_item before p x ys))
  | inr b ↦ rw b refl
]

any-insertion_sort :
    (before : Text → Text → Bool) (p : Text → Bool) (xs : List Text)
    → any p (insertion_sort before xs) ≡ any p xs
unfolding insertion_sort
any-insertion_sort before p [] = refl
any-insertion_sort before p (x ∷ xs) =
    ground
      (arith, any-insert_item before p x (insertion_sort before xs), any-insertion_sort before p xs)

includes_text-sort_items :
    (before : Text → Text → Bool) (items : List Text) (x : Text)
    → includes_text (sort_items before items) x ≡ includes_text items x
unfolding sort_items
includes_text-sort_items before items x =
    any-insertion_sort before (same x) (unique_onto [] items)
    ∙ any-unique_onto [] items x
    ∙ ground arith

is_some_text-keep :
    (p : Text → Bool) (xs : List Text) (x : Text)
    → includes_text xs x ≡ true
    → p x ≡ true
    → is_some_text (keep p xs) ≡ true
is_some_text-keep p [] x h hp = cc
is_some_text-keep p (y ∷ ys) x h hp = elim (Bool-cases (p y)) [
  | inl b ↦ rw b refl
  | inr b ↦ elim (Bool-cases (same x y)) [
    | inl e ↦ let holds : p y ≡ true = subst (λ z. p z ≡ true) (same_eq x y e) hp in cc
    | inr d ↦ rw b (is_some_text-keep p ys x (rw d at h) hp)
  ]
]

SeenBy-if :
    (b : Bool) (x y : Option ℕ × Option Text) (now : ℕ)
    → SeenBy x.0 now
    → SeenBy y.0 now
    → SeenBy (if b then x else y).0 now
SeenBy-if true x y now hx hy = hx
SeenBy-if false x y now hx hy = hy

module _ (before : Text → Text → Bool) (hash : Text → Text) where
  last_change-SeenBy :
      (c : Config) (st : ChangeState) (old : Option (List Text)) (sorted : List Text) (now : ℕ)
      → SeenBy st.changed_at now
      → SeenBy (last_change before hash c st old sorted now).0 now
  unfolding last_change
  last_change-SeenBy c st none sorted now h = h
  last_change-SeenBy c st (some old) sorted now h =
      let added = keep (λ x. not (includes_text old x)) sorted in
      let removed = keep (λ x. not (includes_text sorted x)) old in
      SeenBy-if
        (not (is_same_hash st.hash (hash_of before hash sorted))
          && (not (is_sessions c) || is_some_text added))
        (some now, some (change_text added removed)) (st.changed_at, st.last_change) now
        (omega arith) h

  last_change_same :
      (c : Config) (st : ChangeState) (old sorted : List Text) (now : ℕ)
      → st.hash ≡ some (hash_of before hash sorted)
      → last_change before hash c st (some old) sorted now ≡ (st.changed_at, st.last_change)
  unfolding last_change
  last_change_same c st old sorted now h =
      let same_hash : is_same_hash st.hash (hash_of before hash sorted) ≡ true =
        ap (λ o. is_same_hash o (hash_of before hash sorted)) h
        ∙ same_self (hash_of before hash sorted) in
      rw same_hash refl

  last_change_new :
      (c : Config) (st : ChangeState) (old sorted : List Text) (now : ℕ)
      → is_same_hash st.hash (hash_of before hash sorted) ≡ false
      → is_some_text (keep (λ x. not (includes_text old x)) sorted) ≡ true
      → (last_change before hash c st (some old) sorted now).0 ≡ some now
  unfolding last_change
  last_change_new c st old sorted now differs added = elim (Bool-cases (is_sessions c)) [
    | inl s ↦ rw (differs, added, s) refl
    | inr s ↦ rw (differs, s) refl
  ]

  judge_change_status :
      (c : Config) (old : Option (List Text)) (sorted : List Text) (l : Option ℕ × Option Text)
      (now : ℕ)
      → (judge_change before hash c old sorted l now).0.status
        ≡ (if is_recent c l.0 now then event_status c else up)
  judge_change_status c old sorted (at, text) now = elim (Bool-cases (is_recent c at now)) [
    | inl b ↦ rw b refl
    | inr b ↦ rw b refl
  ]

  -- Two reports of the same items, at least the hold time apart: the second is up, and leaves the
  -- state as it is, whatever was stored before the first.
  pub evaluate_change_repeats :
      (c : Config) (st : ChangeState) (items : List Text) (t1 t2 : ℕ)
      → SeenBy st.changed_at t1
      → t1 + hold_ms c ≤ t2
      → ((evaluate_change before hash c
            (evaluate_change before hash c st (some items) t1).1
            (some items)
            t2).0.status
          ≡ up)
        × ((evaluate_change before hash c
              (evaluate_change before hash c st (some items) t1).1
              (some items)
              t2).1
            ≡ (evaluate_change before hash c st (some items) t1).1)
  unfolding evaluate_change last_change
  evaluate_change_repeats c st items t1 t2 seen late =
      let sorted = sort_items before items in
      let old = last_change before hash c st st.items sorted t1 in
      let past = over c old.0 t1 t2 (last_change-SeenBy c st st.items sorted t1 seen) late in
      let first = (evaluate_change before hash c st (some items) t1).1 in
      let same_last = last_change_same c first sorted sorted t2 refl in
      (
        ap
              (λ (l : Option ℕ × Option Text).
                (judge_change before hash c (some sorted) sorted l t2).0.status)
              same_last
            ∙ judge_change_status c (some sorted) sorted old t2
            ∙ rw past refl,
        ap
            (λ (l : Option ℕ × Option Text).
              (judge_change before hash c (some sorted) sorted l t2).1)
            same_last,
      )

  -- An item that is new in a report is not missed, where the hash of the items tells them from the
  -- last ones: the instant of the report is that of the last change, and the check gets the status
  -- of an event if the settings hold it for any time at all; with a hold time of 0 it stays up. No
  -- report comes at the instant 0.
  pub evaluate_change_detects :
      (c : Config) (st : ChangeState) (old items : List Text) (x : Text) (now : ℕ)
      → st.items ≡ some old
      → includes_text items x ≡ true
      → includes_text old x ≡ false
      → is_same_hash st.hash (hash_of before hash (sort_items before items)) ≡ false
      → 0 < now
      → ((evaluate_change before hash c st (some items) now).0.status
          ≡ (if ltb 0 (hold_ms c) then event_status c else up))
        × ((evaluate_change before hash c st (some items) now).1.changed_at ≡ some now)
  unfolding evaluate_change last_change
  evaluate_change_detects c st old items x now known here new differs late =
      let sorted = sort_items before items in
      let added : is_some_text (keep (λ x. not (includes_text old x)) sorted) ≡ true =
        is_some_text-keep (λ x. not (includes_text old x)) sorted x
          (includes_text-sort_items before items x ∙ here) (rw new refl) in
      let recent : is_recent c (some now) now ≡ ltb 0 (hold_ms c) = ground arith in
      let seen = last_change_new c st old sorted now differs added in
      let here_last : last_change before hash c st st.items sorted now
          ≡ last_change before hash c st (some old) sorted now =
        ap (λ o. last_change before hash c st o sorted now) known in
      (
        judge_change_status c st.items sorted (last_change before hash c st st.items sorted now) now
            ∙ ap
                (λ (l : Option ℕ × Option Text). if is_recent c l.0 now then event_status c else up)
                here_last
            ∙ ap (λ (o : Option ℕ). if is_recent c o now then event_status c else up) seen
            ∙ ap (λ b. if b then event_status c else up) recent,
        ap (λ (l : Option ℕ × Option Text). l.0) here_last ∙ seen,
      )
