-- ===== src/Scheduler/Ticks.antt =====
-- The steps of engine/src/services/scheduler.ts with and without runs by hand.
use looksee.Prelude.{
  ℕ, suc, ◌-◌, ◌≤◌, ◌<◌, leb, String, true, false, Option, none, some, List, [], ◌∷◌, ◌===◌, length,
  max, includes, or_else, ◌≡◌, refl, sym, ◌∙◌, ap, inl, inr, arith, Bool-cases, eq_iff,
}
use mathlib.Core.Path.{subst}
use looksee.Scheduler.{
  Run, Running, at_limit, run_each, ended, add, delete, type_limit, start, nth, finish, run_ready,
  Distinct, tick, hand, done, Reach, begin, next,
}
use looksee.Scheduler.Counts.{runs_of, running_by_type-runs_of}
use looksee.Scheduler.Limits.{run_ready-limits}
use looksee.Scheduler.Once.{ids, Reach-Once}

one_less_le : (o : Option ℕ) (limit : ℕ) → or_else o 0 ≤ limit → or_else o 1 - 1 ≤ limit
one_less_le none limit h = omega arith
one_less_le (some n) limit h = omega (arith, h)

includes-delete : (id : String) (xs : List String) → includes (delete id xs) id ≡ false
includes-delete id [] = refl
includes-delete id (x ∷ xs) = elim (Bool-cases (x === id)) [
  | inl same ↦ rw same (includes-delete id xs)
  | inr other ↦ rw (other, other) (includes-delete id xs)
]

run_ready-size :
    (due : List Run) (s : Running) → length (run_ready due s).running ≤ max 25 (length s.running)
run_ready-size due s = (run_ready-limits due s "dhcp" 1 refl).1

length-ids : (rs : List Run) → length (ids rs) ≡ length rs
length-ids [] = refl
length-ids (r ∷ rs) = ap suc (length-ids rs)

length-delete_le : (id : String) (xs : List String) → length (delete id xs) ≤ length xs
length-delete_le id [] = omega arith
length-delete_le id (x ∷ xs) = ground (arith, length-delete_le id xs)

ended-at_most :
    (o : Option Run) (n : ℕ) (s : Running)
    → length s.running ≤ 25
    → length (ended o n s).running ≤ 25
ended-at_most none n s h = h
ended-at_most (some r) n s h = omega (arith, length-delete_le r.id s.running)

ended-limit :
    (t : String) (limit : ℕ) (o : Option Run) (n : ℕ) (s : Running)
    → or_else (s.running_by_type t) 0 ≤ limit
    → or_else ((ended o n s).running_by_type t) 0 ≤ limit
ended-limit t limit none n s h = h
ended-limit t limit (some r) n s h = elim (Bool-cases (r.type === t)) [
  | inl same ↦ rw same (
      one_less_le (s.running_by_type r.type) limit
        (subst (λ u. or_else (s.running_by_type u) 0 ≤ limit) (sym ((eq_iff r.type t).0 same)) h))
  | inr other ↦ rw other h
]

finish-at_most : (n : ℕ) (s : Running) → length s.running ≤ 25 → length (finish n s).running ≤ 25
unfolding finish
finish-at_most n s h = ended-at_most (nth n s.active) n s h

finish-limit :
    (t : String) (limit n : ℕ) (s : Running)
    → or_else (s.running_by_type t) 0 ≤ limit
    → or_else ((finish n s).running_by_type t) 0 ≤ limit
unfolding finish
finish-limit t limit n s h = ended-limit t limit (nth n s.active) n s h

Reach-size : {s : Running} → Reach false s → length s.running ≤ 25
Reach-size begin = omega arith
Reach-size (next r (tick due d s)) = omega (arith, run_ready-size due s, Reach-size r)
Reach-size (next r (hand e u s)) = absurd (cc)
Reach-size (next r (done n s)) = finish-at_most n s (Reach-size r)

Reach-limit :
    (t : String) (limit : ℕ)
    → type_limit t ≡ some limit
    → {s : Running} → Reach false s
    → or_else (s.running_by_type t) 0 ≤ limit
Reach-limit t limit l begin = omega arith
Reach-limit t limit l (next r (tick due d s)) =
    omega (arith, (run_ready-limits due s t limit l).0, Reach-limit t limit l r)
Reach-limit t limit l (next r (hand e u s)) = absurd (cc)
Reach-limit t limit l (next r (done n s)) = finish-limit t limit n s (Reach-limit t limit l r)

-- While no check is run by hand, no check runs twice at once, at most 25 run, and of a limited type
-- at most its limit, whatever is due on each tick and in whatever order the runs end.
pub active_limits :
    (s : Running) (t : String) (limit : ℕ)
    → Reach false s
    → type_limit t ≡ some limit
    → Distinct s.active × (length s.active ≤ 25) × (runs_of t s.active ≤ limit)
active_limits s t limit r l = (
  (Reach-Once r).distinct,
  subst (λ n. n ≤ 25) (ap length (Reach-Once r).same_ids ∙ length-ids s.active) (Reach-size r),
  subst (λ n. n ≤ limit) (running_by_type-runs_of false s t r) (Reach-limit t limit l r),
)

-- A tick does not start a check that runs. But if the check is run by hand meanwhile and the new
-- run ends, `running` has forgotten it, and a tick for which it is due, while the limits leave
-- room, starts it once more: it is then active twice, by the first run, which has not ended, and by
-- the new one.
pub finish_forgets :
    (r : Run) (s : Running) (n : ℕ)
    → nth n s.active ≡ some r
    → includes s.running r.id ≡ true
    → length (finish 0 (start r s)).running < 25
    → at_limit (type_limit r.type) ((finish 0 (start r s)).running_by_type r.type) ≡ false
    → (run_ready (r ∷ []) s ≡ s)
      × (nth 0 (run_ready (r ∷ []) (finish 0 (start r s))).active ≡ some r)
      × (nth (suc n) (run_ready (r ∷ []) (finish 0 (start r s))).active ≡ some r)
unfolding run_ready run_each finish start
finish_forgets r s n active runs room slot =
    let forgotten = includes-delete r.id (add r.id s.running) in
    let free : leb 25 (length (delete r.id (add r.id s.running))) ≡ false = ground arith in
    (rw runs refl, rw (forgotten, free, slot) refl, rw (forgotten, free, slot) active)
