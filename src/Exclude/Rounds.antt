-- ===== src/Exclude/Rounds.antt =====
-- The rounds of the wildcard matcher of engine/src/services/probes/exclude.ts: "the work is at most
-- name length × pattern length".
use looksee.Prelude.{
  ℕ, zero, suc, ◌+◌, ◌*◌, ◌≤◌, ◌<◌, ◌≢◌, Option, none, some, [], ◌∷◌, length, arith, inl, inr,
  Bool-cases,
}
use looksee.Prelude.Text.{Text}
use looksee.Exclude.{Star, tail, takes, at_star, glob_loop, rounds, glob}

abbrev StarWithin : ℕ → ℕ → Option Star → Type 0
StarWithin size left none = Unit
StarWithin size left (some s) = (length s.behind ≤ size) × (length s.from ≤ left)

length-tail_le : (f : Text) (left : ℕ) → length f ≤ suc left → length (tail f) ≤ left
length-tail_le [] left h = omega arith
length-tail_le (d ∷ f) left h = omega arith

new_star_measure :
    (size left n p fuel : ℕ)
    → suc left * suc size + suc p < suc fuel
    → suc n ≤ suc left
    → suc n * suc size + p < fuel
new_star_measure size left n p fuel m h = grind arith

restart_measure :
    (size left p b fuel : ℕ)
    → suc left * suc size + p < suc fuel
    → b ≤ size
    → left * suc size + b < fuel
restart_measure size left p b fuel m h = grind arith

loop-ends :
    (size fuel left : ℕ) (p n : Text) (star : Option Star)
    → left * suc size + length p < fuel
    → length p ≤ size
    → length n ≤ left
    → StarWithin size left star
    → glob_loop fuel p n star ≢ none
unfolding glob_loop
loop-ends size zero left p n star m hp hn hs = absurd (omega arith)
loop-ends size (suc fuel) left p [] star m hp hn hs = cc
loop-ends size (suc fuel) zero p (d ∷ n) star m hp hn hs = absurd (omega arith)
loop-ends size (suc fuel) (suc left) [] (d ∷ n) none m hp hn hs = cc
loop-ends size (suc fuel) (suc left) [] (d ∷ n) (some s) m hp hn hs =
    loop-ends size fuel left s.behind (tail s.from) _
      (restart_measure size left 0 (length s.behind) fuel m hs.0) hs.0
      (length-tail_le s.from left hs.1) (hs.0, length-tail_le s.from left hs.1)
loop-ends size (suc fuel) (suc left) (c ∷ p) (d ∷ n) none m hp hn hs =
    let advanced =
      loop-ends size fuel (suc left) p n none (omega arith) (omega arith) (omega arith) tt in
    let starred =
      loop-ends size fuel (length (d ∷ n)) p (d ∷ n) (some (record { behind = p; from = d ∷ n }))
        (new_star_measure size left (length n) (length p) fuel m hn) (omega arith) (omega arith)
        (omega arith) in
    elim (Bool-cases (takes (c ∷ p) d)) [
      | inl t ↦ rw t advanced
      | inr t ↦ elim (Bool-cases (at_star (c ∷ p))) [
        | inl a ↦ rw (t, a) starred
        | inr a ↦ rw (t, a) (λ h. cc)
      ]
    ]
loop-ends size (suc fuel) (suc left) (c ∷ p) (d ∷ n) (some s) m hp hn hs =
    let advanced =
      loop-ends size fuel (suc left) p n (some s) (omega arith) (omega arith) (omega arith) hs in
    let starred =
      loop-ends size fuel (length (d ∷ n)) p (d ∷ n) (some (record { behind = p; from = d ∷ n }))
        (new_star_measure size left (length n) (length p) fuel m hn) (omega arith) (omega arith)
        (omega arith) in
    let restarted =
      loop-ends size fuel left s.behind (tail s.from)
        (some (record { behind = s.behind; from = tail s.from }))
        (restart_measure size left (suc (length p)) (length s.behind) fuel m hs.0) hs.0
        (length-tail_le s.from left hs.1) (hs.0, length-tail_le s.from left hs.1) in
    elim (Bool-cases (takes (c ∷ p) d)) [
      | inl t ↦ rw t advanced
      | inr t ↦ elim (Bool-cases (at_star (c ∷ p))) [
        | inl a ↦ rw (t, a) starred
        | inr a ↦ rw (t, a) restarted
      ]
    ]

-- Whatever the pattern and the name, the loop ends within (|name| + 1) * (|pattern| + 1) rounds.
pub glob-ends : (p n : Text) → glob p n ≢ none
glob-ends p n =
    loop-ends (length p) (rounds p n) (length n) p n none (grind arith) (omega arith) (omega arith)
      tt
