-- ===== src/Maintenance/ListView.antt =====
-- The per-check answer and the list view of engine/src/services/maintenance.ts.
use looksee.Prelude.{
  ℕ, ◌≡◌, refl, sym, ap, ◌∙◌, String, Bool, true, false, ◌&&◌, List, [], ◌∷◌, ◌++◌, ◌===◌, any,
  keep, includes, arith, All, Bool-cases, inl, inr, eq_iff,
}
use mathlib.Core.Path.{subst}
use looksee.Maintenance.{Zones, Window, Target, GroupChecks, window_is_active, window_applies_to}
use looksee.Maintenance.Cache.{group_ids, enabled_rows, Store, active_maintenance, current_answer}

includes-append_left :
    (xs ys : List String) (g : String) → includes xs g ≡ true → includes (xs ++ ys) g ≡ true
includes-append_left [] ys g h = cc
includes-append_left (x ∷ xs) ys g h = ground (arith, includes-append_left xs ys g)

includes-append_right :
    (xs ys : List String) (g : String) → includes ys g ≡ true → includes (xs ++ ys) g ≡ true
includes-append_right [] ys g h = h
includes-append_right (x ∷ xs) ys g h = ground (arith, includes-append_right xs ys g)

All-implies {ℓ} :
    {A : Type ℓ} (P Q : A → Type 0) (xs : List A) → ((a : A) → P a → Q a) → All P xs → All Q xs
All-implies P Q [] f h = tt
All-implies P Q (x ∷ xs) f (p, h) = (f x p, All-implies P Q xs f h)

includes_self : (xs : List String) → All (λ g. includes xs g ≡ true) xs
includes_self [] = tt
includes_self (x ∷ xs) = (
  ground (arith, eq_iff x x),
  All-implies (λ g. includes xs g ≡ true) (λ g. includes (x ∷ xs) g ≡ true) xs
      (λ g h. ground (arith, h)) (includes_self xs),
)

-- The same element-wise test gives the same answer.
any-eq {ℓ} :
    {A : Type ℓ} (f g : A → Bool) (xs : List A) → All (λ x. f x ≡ g x) xs → any f xs ≡ any g xs
any-eq f g [] h = refl
any-eq f g (x ∷ xs) (e, h) = rw (e, any-eq f g xs h)

any-and_true {ℓ} : {A : Type ℓ} (f : A → Bool) (xs : List A) → any (λ x. f x && true) xs ≡ any f xs
any-and_true f [] = refl
any-and_true f (x ∷ xs) = ground (arith, any-and_true f xs)

-- Every group that a group window of the list names is among `ids`.
abbrev Covered : List String → Window → Type 0
Covered ids w = (w.scope === "group") ≡ true → All (λ g. includes ids g ≡ true) w.target_ids

Covered-append :
    (xs ids : List String) (ws : List Window) → All (Covered ids) ws → All (Covered (xs ++ ids)) ws
Covered-append xs ids ws h =
    All-implies (Covered ids) (Covered (xs ++ ids)) ws
      (λ w c g.
        All-implies (λ g. includes ids g ≡ true) (λ g. includes (xs ++ ids) g ≡ true) w.target_ids
          (λ g i. includes-append_right xs ids g i) (c g))
      h

group_ids-group :
    (w : Window) (ws : List Window)
    → (w.scope === "group") ≡ true
    → group_ids (w ∷ ws) ≡ w.target_ids ++ group_ids ws
unfolding group_ids
group_ids-group w ws g = rw g

group_ids-other :
    (w : Window) (ws : List Window)
    → (w.scope === "group") ≡ false
    → group_ids (w ∷ ws) ≡ group_ids ws
unfolding group_ids
group_ids-other w ws g = rw g

group_ids-Covered : (ws : List Window) → All (Covered (group_ids ws)) ws
group_ids-Covered [] = tt
group_ids-Covered (w ∷ ws) = elim (Bool-cases (w.scope === "group")) [
  | inl g ↦
      subst (λ ids. All (Covered ids) (w ∷ ws)) (sym (group_ids-group w ws g))
        (
          λ _.
              All-implies (λ g. includes w.target_ids g ≡ true)
                (λ g. includes (w.target_ids ++ group_ids ws) g ≡ true) w.target_ids
                (λ g i. includes-append_left w.target_ids (group_ids ws) g i)
                (includes_self w.target_ids),
          Covered-append w.target_ids (group_ids ws) ws (group_ids-Covered ws),
        )
  | inr g ↦
      subst (λ ids. All (Covered ids) (w ∷ ws)) (sym (group_ids-other w ws g))
        ((λ e. cc), group_ids-Covered ws)
]

module _ (zones : Zones) (members : List String → GroupChecks) (checks_of : GroupChecks)
    (law : (ids : List String) (g : String)
      → includes ids g ≡ true
      → members ids g ≡ checks_of g) where
  applies-members :
      (ids : List String) (w : Window) (target : Target)
      → Covered ids w
      → window_applies_to w target (members ids) ≡ window_applies_to w target checks_of
  unfolding window_applies_to
  applies-members ids w target c = elim (Bool-cases (w.scope === "group")) [
    | inl g ↦
        let same =
          any-eq (λ g. includes (members ids g) target.id) (λ g. includes (checks_of g) target.id)
            w.target_ids
            (All-implies (λ g. includes ids g ≡ true)
              (λ g. includes (members ids g) target.id ≡ includes (checks_of g) target.id)
              w.target_ids (λ g i. ap (λ cs. includes cs target.id) (law ids g i)) (c g)) in
        rw same
    | inr g ↦ rw g
  ]

  -- The windows of a list, seen with the checks of the groups that they name.
  any-members :
      (ids : List String) (target : Target) (test : Window → Bool) (ws : List Window)
      → All (Covered ids) ws
      → any (λ w. window_applies_to w target (members ids) && test w) ws
        ≡ any (λ w. window_applies_to w target checks_of && test w) ws
  any-members ids target test ws c =
      any-eq (λ w. window_applies_to w target (members ids) && test w)
        (λ w. window_applies_to w target checks_of && test w) ws
        (All-implies (Covered ids)
          (λ w.
            (window_applies_to w target (members ids) && test w)
            ≡ (window_applies_to w target checks_of && test w))
          ws (λ w cw. ap (λ b. b && test w) (applies-members ids w target cw)) c)

  active-enabled : (w : Window) (now : ℕ) → window_is_active zones w now ≡ true → w.enabled ≡ true
  unfolding window_is_active
  active-enabled w now h = ground arith

  same_windows :
      (target : Target) (now : ℕ) (table : List Window)
      → any
          (λ w. window_applies_to w target checks_of && window_is_active zones w now)
          (enabled_rows table)
        ≡ any
            (λ w. window_applies_to w target checks_of && true)
            (keep (λ w. window_is_active zones w now) table)
  same_windows target now [] = refl
  same_windows target now (w ∷ ws) =
      ground (arith, active-enabled w now, same_windows target now ws)

  -- The answer for one check is that of the list view: some window in effect applies to the check,
  -- where the groups' checks are looked up for all enabled windows in the one and for the windows
  -- in effect in the other. `checkIdsForGroups` is any function that answers for each group asked
  -- about.
  pub current_answer-list_view :
      (target : Target) (now : ℕ) (s : Store)
      → current_answer zones members s.table target now
        ≡ any
            (λ w. window_applies_to w target (active_maintenance zones members now s).1)
            (active_maintenance zones members now s).0
  unfolding active_maintenance
  current_answer-list_view target now s =
      let enabled = enabled_rows s.table in
      let active = keep (λ w. window_is_active zones w now) s.table in
      any-members (group_ids enabled) target (λ w. window_is_active zones w now) enabled
        (group_ids-Covered enabled)
      ∙ same_windows target now s.table
      ∙ sym (any-members (group_ids active) target (λ w. true) active (group_ids-Covered active))
      ∙ any-and_true (λ w. window_applies_to w target (members (group_ids active))) active
