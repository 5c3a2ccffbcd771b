-- ===== src/Prelude/Sets.antt =====
-- JavaScript sets of texts, in the order of insertion.
use mathlib.Core.Path.{◌≡◌, refl}
use mathlib.Core.Logic.{inl, inr}
use mathlib.Core.Bool.{Bool, false, ◌&&◌, ◌||◌}
use mathlib.Core.List.{List, [], ◌∷◌, ◌++◌}
use Prim.Native.String.{String}
use native.Mathlib.Omega.{arith}
use text.Mathlib.TextEquality.{eq_iff}
use looksee.Prelude.Tests.{if◌then◌else◌, ◌===◌, Bool-cases}
use looksee.Prelude.Lists.{any, includes}

-- `set.add(x)`
unfoldable pub add : String → List String → List String
add x s = if includes s x then s else s ++ x ∷ []

-- The texts of a list are added to a set.
unfoldable pub add_all : List String → List String → List String
add_all [] s = s
add_all (x ∷ xs) s = add_all xs (add x s)

-- `new Set(xs)`
unfoldable pub set_of : List String → List String
set_of xs = add_all xs []

-- `for (const x of xs) if (p(x)) set.add(x.id)`
unfoldable pub add_where {ℓ} :
    {A : Type ℓ} → (A → Bool) → (A → String) → List A → List String → List String
add_where p id [] s = s
add_where p id (x ∷ xs) s = add_where p id xs (if p x then add (id x) s else s)

abbrev pub Distinct : List String → Type 0
Distinct [] = Unit
Distinct (x ∷ xs) = (includes xs x ≡ false) × Distinct xs

pub any-append {ℓ} :
    {A : Type ℓ} (p : A → Bool) (xs ys : List A) → any p (xs ++ ys) ≡ any p xs || any p ys
any-append p [] ys = refl
any-append p (x ∷ xs) ys = ground (arith, any-append p xs ys)

pub includes-add :
    (x : String) (s : List String) (y : String) → includes (add x s) y ≡ includes s y || x === y
unfolding add
includes-add x s y = elim (Bool-cases (includes s x)) [
  | inl old ↦ elim (Bool-cases (x === y)) [
    | inl e ↦ ground (arith, eq_iff x y, old)
    | inr d ↦ rw (old, d) (ground arith)
  ]
  | inr new ↦ rw new (ground (arith, any-append (λ z. z === y) s (x ∷ [])))
]

Distinct-append :
    (s : List String) (x : String) → includes s x ≡ false → Distinct s → Distinct (s ++ x ∷ [])
Distinct-append [] x new h = (refl, tt)
Distinct-append (y ∷ s) x new (hy, h) = (
  ground (arith, any-append (λ z. z === y) s (x ∷ []), eq_iff x y, eq_iff y x),
  Distinct-append s x (ground arith) h,
)

pub Distinct-add : (x : String) (s : List String) → Distinct s → Distinct (add x s)
unfolding add
Distinct-add x s h = elim (Bool-cases (includes s x)) [
  | inl old ↦ rw old h
  | inr new ↦ rw new (Distinct-append s x new h)
]

pub includes-add_all :
    (xs s : List String) (y : String) → includes (add_all xs s) y ≡ includes s y || includes xs y
unfolding add_all
includes-add_all [] s y = ground arith
includes-add_all (x ∷ xs) s y = ground (arith, includes-add_all xs (add x s) y, includes-add x s y)

pub Distinct-add_all : (xs s : List String) → Distinct s → Distinct (add_all xs s)
unfolding add_all
Distinct-add_all [] s h = h
Distinct-add_all (x ∷ xs) s h = Distinct-add_all xs (add x s) (Distinct-add x s h)

pub includes-set_of : (xs : List String) (y : String) → includes (set_of xs) y ≡ includes xs y
unfolding set_of
includes-set_of xs y = includes-add_all xs [] y

pub includes-add_where {ℓ} :
    {A : Type ℓ} (p : A → Bool) (id : A → String) (xs : List A) (s : List String) (k : String)
    → includes (add_where p id xs s) k ≡ includes s k || any (λ x. p x && id x === k) xs
unfolding add_where
includes-add_where p id [] s k = ground arith
includes-add_where p id (x ∷ xs) s k = elim (Bool-cases (p x)) [
  | inl b ↦
      rw b (ground (arith, includes-add_where p id xs (add (id x) s) k, includes-add (id x) s k))
  | inr b ↦ rw b (includes-add_where p id xs s k)
]

pub Distinct-add_where {ℓ} :
    {A : Type ℓ} (p : A → Bool) (id : A → String) (xs : List A) (s : List String)
    → Distinct s
    → Distinct (add_where p id xs s)
unfolding add_where
Distinct-add_where p id [] s h = h
Distinct-add_where p id (x ∷ xs) s h = elim (Bool-cases (p x)) [
  | inl b ↦ rw b (Distinct-add_where p id xs (add (id x) s) (Distinct-add (id x) s h))
  | inr b ↦ rw b (Distinct-add_where p id xs s h)
]

pub Distinct-set_of : (xs : List String) → Distinct (set_of xs)
unfolding set_of
Distinct-set_of xs = Distinct-add_all xs [] tt
