-- ===== src/Exclude/Glob.antt =====
-- The two-pointer wildcard algorithm of engine/src/services/probes/exclude.ts against a reference
-- matcher that tries every position for every `*`.
use looksee.Prelude.{
  ℕ, zero, suc, ◌+◌, ◌*◌, ◌≤◌, ◌<◌, ◌≡◌, ◌≢◌, inl, inr, refl, sym, ap, ◌∙◌, Bool, true, false, ◌&&◌,
  ◌||◌, Option, none, some, [], ◌∷◌, ◌==◌, length, All, if◌then◌else◌, arith, Bool-cases,
}
use mathlib.Core.Path.{fun_ext}
use looksee.Prelude.Text.{Text}
use looksee.Exclude.{Star, only_stars, tail, takes, at_star, glob_loop, rounds, glob}

-- `f` holds of some end of the text, the whole text and the empty one included.
abbrev pub any_end : (Text → Bool) → Text → Bool
any_end f [] = f []
any_end f (d ∷ n) = f (d ∷ n) || any_end f n

abbrev pub one_unit : ℕ → (Text → Bool) → Text → Bool
one_unit c f [] = false
one_unit c f (d ∷ n) = (c == b'?' || c == d) && f n

-- What a pattern means: `*` is any run of units, `?` one unit, all else itself.
unfoldable pub glob_spec : Text → Text → Bool
glob_spec [] [] = true
glob_spec [] (d ∷ n) = false
glob_spec (c ∷ p) n = if c == b'*' then any_end (glob_spec p) n else one_unit c (glob_spec p) n

-- What the last `*` can still achieve from a later start.
abbrev later_start : Option Star → Bool
later_start none = false
later_start (some s) = elim s.from [ [] ↦ false | d ∷ n ↦ any_end (glob_spec s.behind) n ]

only_stars-spec : (p : Text) → only_stars p ≡ glob_spec p []
unfolding only_stars glob_spec
only_stars-spec [] = refl
only_stars-spec (c ∷ p) = ground (arith, only_stars-spec p)

any_end_twice : (f : Text → Bool) (n : Text) → any_end (any_end f) n ≡ true → any_end f n ≡ true
any_end_twice f [] h = h
any_end_twice f (d ∷ n) h = ground (arith, any_end_twice f n)

any_end-one_unit :
    (c : ℕ) (f : Text → Bool) (d : ℕ) (n : Text)
    → any_end (one_unit c f) (d ∷ n) ≡ true
    → any_end f n ≡ true
any_end-one_unit c f d [] h = ground arith
any_end-one_unit c f d (e ∷ n) h = ground (arith, any_end-one_unit c f e n)

-- No unit of the name is a `*`.
abbrev pub StarFree : Text → Type 0
StarFree n = All (λ d. d ≢ b'*') n

-- The last `*` in a loop state: `size` bounds the pattern, and `left` units of the name are left
-- where the star began. Before the first star `left` is any bound on the name.
abbrev GoodStar : ℕ → ℕ → Option Star → Type 0
GoodStar size left none = Unit
GoodStar size left (some s) = (length s.behind ≤ size) × (length s.from ≡ left) × StarFree s.from

or-false : (b : Bool) → (b || false) ≡ b
or-false true = refl
or-false false = refl

-- The loop's invariant. `promise`: what an earlier start of the last `*` could still match, the
-- rest of the pattern can match from here or later, so that an earlier `*` may be forgotten.
record Good (size left : ℕ) (p n : Text) (star : Option Star) : Type 0 where
  short : length p ≤ size
  inside : length n ≤ left
  plain : StarFree n
  good_star : GoodStar size left star
  promise : later_start star ≡ true → any_end (glob_spec p) n ≡ true

spec-star : (c : ℕ) (p : Text) → (c == b'*') ≡ true → glob_spec (c ∷ p) ≡ any_end (glob_spec p)
unfolding glob_spec
spec-star c p h = fun_ext λ n. rw h

spec-unit : (c : ℕ) (p : Text) → (c == b'*') ≡ false → glob_spec (c ∷ p) ≡ one_unit c (glob_spec p)
unfolding glob_spec
spec-unit c p h = fun_ext λ n. rw h

module _ (size left : ℕ) (c : ℕ) (p : Text) (d : ℕ) (n : Text) (star : Option Star) where
  Good-advance :
      takes (c ∷ p) d ≡ true → Good size left (c ∷ p) (d ∷ n) star → Good size left p n star
  unfolding glob_spec
  Good-advance t g = record {
    short = omega (arith, g.short);
    inside = omega (arith, g.inside);
    plain = g.plain.1;
    good_star = g.good_star;
    promise = λ h.
        let unit : (c == b'*') ≡ false = ground (arith, g.plain.0) in
        any_end-one_unit c (glob_spec p) d n
          (ap (λ f. any_end f (d ∷ n)) (sym (spec-unit c p unit)) ∙ g.promise h);
  }

  spec-advance : takes (c ∷ p) d ≡ true → d ≢ b'*' → glob_spec (c ∷ p) (d ∷ n) ≡ glob_spec p n
  unfolding glob_spec
  spec-advance t ne = ground arith

  spec-no_match :
      takes (c ∷ p) d ≡ false → at_star (c ∷ p) ≡ false → glob_spec (c ∷ p) (d ∷ n) ≡ false
  unfolding glob_spec
  spec-no_match t a = ground arith

  Good-star :
      at_star (c ∷ p) ≡ true
      → Good size left (c ∷ p) (d ∷ n) star
      → Good size (length (d ∷ n)) p (d ∷ n) (some (record { behind = p; from = d ∷ n }))
  Good-star a g = record {
    short = omega (arith, g.short);
    inside = omega arith;
    plain = g.plain;
    good_star = (omega (arith, g.short), refl, g.plain);
    promise = λ h. ground arith;
  }

  -- At a new `*` the old one is forgotten: it could achieve nothing more.
  value-star :
      at_star (c ∷ p) ≡ true
      → Good size left (c ∷ p) (d ∷ n) star
      → (glob_spec p (d ∷ n) || any_end (glob_spec p) n)
        ≡ (glob_spec (c ∷ p) (d ∷ n) || later_start star)
  value-star a g =
      let same = spec-star c p a in
      let old : later_start star ≡ true → any_end (glob_spec p) (d ∷ n) ≡ true = λ h.
        any_end_twice (glob_spec p) (d ∷ n)
          (ap (λ f. any_end f (d ∷ n)) (sym same) ∙ g.promise h) in
      elim (Bool-cases (later_start star)) [
        | inl yes_old ↦ ground (arith, ap (λ f. f (d ∷ n)) same, old yes_old)
        | inr none_old ↦ ground (arith, ap (λ f. f (d ∷ n)) same)
      ]

abbrev restart : Star → Star
restart s = record { behind = s.behind; from = tail s.from }

-- Letting the last `*` swallow one more unit keeps what it can achieve.
value-restart :
    (b f : Text)
    → 0 < length f
    → (glob_spec b (tail f) || later_start (some (restart (record { behind = b; from = f }))))
      ≡ later_start (some (record { behind = b; from = f }))
value-restart b [] h = absurd (omega arith)
value-restart b (e ∷ []) h = ground arith
value-restart b (e ∷ e' ∷ f) h = refl

promise-restart :
    (b f : Text)
    → later_start (some (restart (record { behind = b; from = f }))) ≡ true
    → any_end (glob_spec b) (tail f) ≡ true
promise-restart b [] h = cc
promise-restart b (e ∷ []) h = cc
promise-restart b (e ∷ e' ∷ f) h = ground arith

StarFree-tail : (f : Text) → StarFree f → StarFree (tail f)
StarFree-tail [] h = tt
StarFree-tail (d ∷ f) h = h.1

length-tail : (f : Text) (left : ℕ) → length f ≡ suc left → length (tail f) ≡ left
length-tail [] left h = absurd (omega arith)
length-tail (d ∷ f) left h = omega arith

Good-restart :
    (size left : ℕ) (s : Star)
    → GoodStar size (suc left) (some s)
    → Good size left s.behind (tail s.from) (some (restart s))
Good-restart size left s g =
    let shorter = length-tail s.from left g.1 in
    record {
      short = g.0;
      inside = omega (arith, shorter);
      plain = StarFree-tail s.from g.2;
      good_star = (g.0, shorter, StarFree-tail s.from g.2);
      promise = promise-restart s.behind s.from;
    }

-- What the loop must return in a state.
abbrev Decides : ℕ → Text → Text → Option Star → Type 0
Decides fuel p n star = glob_loop fuel p n star ≡ some (glob_spec p n || later_start star)

-- No unit is taken and no new `*` stands here: back to the last `*`, if there is one.
loop-restart :
    (size fuel left : ℕ) (p : Text) (d : ℕ) (n : Text) (star : Option Star)
    → takes p d ≡ false
    → at_star p ≡ false
    → glob_spec p (d ∷ n) ≡ false
    → GoodStar size (suc left) star
    → ((s : Star)
        → Good size left s.behind (tail s.from) (some (restart s))
        → Decides fuel s.behind (tail s.from) (some (restart s)))
    → Decides (suc fuel) p (d ∷ n) star
unfolding glob_loop
loop-restart size fuel left p d n none t a v g ih = rw (t, a, v)
loop-restart size fuel left p d n (some s) t a v g ih =
    rw (t, a, v)
      (ih s (Good-restart size left s g)
        ∙ ap some (value-restart s.behind s.from (omega (arith, g.1))))

star_measure :
    (size left n p fuel : ℕ)
    → suc left * suc size + suc p < suc fuel
    → suc n ≤ suc left
    → suc n * suc size + p < fuel
star_measure size left n p fuel m h = grind arith

-- The loop decides the reference matcher, and the fuel suffices.
glob_loop_lem :
    (size fuel left : ℕ) (p n : Text) (star : Option Star)
    → left * suc size + length p < fuel
    → Good size left p n star
    → Decides fuel p n star
unfolding glob_loop
glob_loop_lem size zero left p n star m g = absurd (omega arith)
glob_loop_lem size (suc fuel) left p [] star m g = ground (arith, only_stars-spec p, g.promise)
glob_loop_lem size (suc fuel) zero p (d ∷ n) star m g = absurd (omega (arith, g.inside))
glob_loop_lem size (suc fuel) (suc left) [] (d ∷ n) star m g =
    loop-restart size fuel left [] d n star refl refl (unfold glob_spec in refl) g.good_star λ s g'.
      glob_loop_lem size fuel left s.behind (tail s.from) (some (restart s))
        (grind (arith, g'.short)) g'
glob_loop_lem size (suc fuel) (suc left) (c ∷ p) (d ∷ n) star m g =
    elim (Bool-cases (takes (c ∷ p) d)) [
      | inl t ↦
          rw (t, spec-advance size (suc left) c p d n star t g.plain.0)
            (glob_loop_lem size fuel (suc left) p n star (omega arith)
              (Good-advance size (suc left) c p d n star t g))
      | inr t ↦ elim (Bool-cases (at_star (c ∷ p))) [
        | inl a ↦
            rw (t, a)
              (glob_loop_lem size fuel (length (d ∷ n)) p (d ∷ n)
                  (some (record { behind = p; from = d ∷ n }))
                  (star_measure size left (length n) (length p) fuel m g.inside)
                  (Good-star size (suc left) c p d n star a g)
                ∙ ap some (value-star size (suc left) c p d n star a g))
        | inr a ↦
            loop-restart size fuel left (c ∷ p) d n star t a
              (spec-no_match size (suc left) c p d n star t a) g.good_star
              λ s g'.
                glob_loop_lem size fuel left s.behind (tail s.from) (some (restart s))
                  (grind (arith, g'.short)) g'
      ]
    ]

-- Where the name holds no `*`, the two-pointer matcher ends within its rounds with the answer of
-- the reference matcher: a `*` is any run of units, a `?` one unit, all else itself.
pub glob-spec : (p n : Text) → StarFree n → glob p n ≡ some (glob_spec p n)
glob-spec p n plain =
    glob_loop_lem (length p) (rounds p n) (length n) p n none (grind arith) (record {
      short = omega arith;
      inside = omega arith;
      plain = plain;
      good_star = tt;
      promise = λ h. cc;
    })
    ∙ ap some (or-false (glob_spec p n))
