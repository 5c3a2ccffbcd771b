-- ===== src/StripNul/Clean.antt =====
-- `cleanString` of engine/src/lib/stripNul.ts.
use looksee.Prelude.{
  ◌≡◌, ◌↔◌, refl, inl, inr, Bool, true, false, not, ◌&&◌, [], ◌∷◌, ◌==◌, every, keep, arith,
  Bool-cases,
}
use mathlib.Core.Path.{subst}
use looksee.Prelude.Text.{Text}
use looksee.StripNul.{is_high, is_low, begins_low, drop_lone, clean_string}

-- The halves of surrogate pairs stand in pairs, the flag saying that a low half is due.
abbrev pub paired : Bool → Text → Bool
paired due [] = not due
paired true (c ∷ s) = is_low c && paired false s
paired false (c ∷ s) = not (is_low c) && paired (is_high c) s

-- What PostgreSQL stores in a text column.
abbrev pub Storable : Text → Type 0
Storable s = (every (λ c. not (c == 0)) s ≡ true) × (paired false s ≡ true)

every-keep : (s : Text) → every (λ c. not (c == 0)) (keep (λ c. not (c == 0)) s) ≡ true
every-keep [] = refl
every-keep (c ∷ s) = ground (arith, every-keep s)

every-drop_lone :
    (after_high : Bool) (s : Text)
    → every (λ c. not (c == 0)) s ≡ true
    → every (λ c. not (c == 0)) (drop_lone after_high s) ≡ true
unfolding drop_lone
every-drop_lone after_high [] h = refl
every-drop_lone after_high (c ∷ s) h = ground (arith, every-drop_lone (is_high c) s)

-- Behind a high half that was kept a low half is due, and the text begins with one.
paired-drop_lone :
    (s : Text)
    → (paired false (drop_lone false s) ≡ true)
      × (begins_low s ≡ false → paired false (drop_lone true s) ≡ true)
      × (begins_low s ≡ true → paired true (drop_lone true s) ≡ true)
unfolding drop_lone
paired-drop_lone [] = (refl, λ h. refl, λ h. cc)
paired-drop_lone (c ∷ s) =
    let (whole, not_due, due) = paired-drop_lone s in
    elim (Bool-cases (is_high c)) [
      | inl high ↦ elim (Bool-cases (begins_low s)) [
        | inl low ↦ (ground (arith, due low), λ h. ground (arith, due low), λ h. ground arith)
        | inr other ↦
            (ground (arith, not_due other), λ h. ground (arith, not_due other), λ h. ground arith)
      ]
      | inr plain ↦ (ground arith, λ h. ground arith, λ h. ground arith)
    ]

begins-paired : (s : Text) → paired true s ≡ true → begins_low s ≡ true
begins-paired [] h = cc
begins-paired (c ∷ s) h = ground arith

drop_lone_same :
    (s : Text)
    → (paired false s ≡ true → drop_lone false s ≡ s)
      × (paired true s ≡ true → drop_lone true s ≡ s)
unfolding drop_lone
drop_lone_same [] = (λ h. refl, λ h. refl)
drop_lone_same (c ∷ s) =
    let (plain, due) = drop_lone_same s in
    elim (Bool-cases (is_high c)) [
      | inl high ↦
          (λ h. ground (arith, begins-paired s, due (ground arith)), λ h. absurd (ground arith))
      | inr other ↦
          (λ h. ground (arith, plain (ground arith)), λ h. ground (arith, plain (ground arith)))
    ]

keep_same : (s : Text) → every (λ c. not (c == 0)) s ≡ true → keep (λ c. not (c == 0)) s ≡ s
keep_same [] h = refl
keep_same (c ∷ s) h = ground (arith, keep_same s)

cleaned-Storable : (s : Text) → Storable (clean_string s)
unfolding clean_string
cleaned-Storable s = (
  every-drop_lone false (keep (λ c. not (c == 0)) s) (every-keep s),
  (paired-drop_lone (keep (λ c. not (c == 0)) s)).0,
)

clean_string_same : (s : Text) → Storable s → clean_string s ≡ s
unfolding clean_string
clean_string_same s h = rw (keep_same s (h.0)) ((drop_lone_same s).0 (h.1))

-- What cleanString returns holds no NUL and no half of a surrogate pair, whatever the text; and a
-- text comes back as it is exactly if it holds neither.
pub clean_string-Storable :
    (s : Text) → Storable (clean_string s) × (Storable s ↔ (clean_string s ≡ s))
clean_string-Storable s =
    (cleaned-Storable s, (clean_string_same s, λ e. subst Storable e (cleaned-Storable s)))
