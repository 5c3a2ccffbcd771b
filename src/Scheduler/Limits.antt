-- ===== src/Scheduler/Limits.antt =====
-- The limits of engine/src/services/scheduler.ts on how much runs at once: "heavy checks can't all
-- start at once".
use looksee.Prelude.{
  ℕ, suc, ◌+◌, ◌≤◌, String, false, not, Option, none, some, List, ◌===◌, length, keep, max,
  includes, or_else, ◌≡◌, ◌∙◌, ap, inl, inr, arith, Bool-cases, eq_iff,
}
use looksee.Scheduler.{Run, Running, add, type_limit, start, at_limit, run_ready}
use looksee.Scheduler.Counts.{run_each-keeps}

-- No more than `limit` runs of the type `t`, or no more than `before`.
abbrev Within : (t : String) → (limit before : ℕ) → Running → Type 0
Within t limit before s = or_else (s.running_by_type t) 0 ≤ max limit before

free_room :
    (o : Option ℕ) (limit : ℕ) (count : Option ℕ)
    → o ≡ some limit
    → at_limit o count ≡ false
    → or_else count 0 + 1 ≤ limit
free_room none limit count e f = absurd (cc)
free_room (some l) limit count e f = ground arith

start-Within :
    (t : String) (limit before : ℕ) (r : Run) (s : Running)
    → type_limit t ≡ some limit
    → at_limit (type_limit r.type) (s.running_by_type r.type) ≡ false
    → Within t limit before s
    → Within t limit before (start r s)
unfolding start
start-Within t limit before r s l free h = elim (Bool-cases (r.type === t)) [
  | inl same ↦
      let its : type_limit r.type ≡ some limit = ap type_limit ((eq_iff r.type t).0 same) ∙ l in
      rw same
        (omega (arith, free_room (type_limit r.type) limit (s.running_by_type r.type) its free))
  | inr other ↦ rw other h
]

length-start_le : (r : Run) (s : Running) → length (start r s).running ≤ suc (length s.running)
unfolding start add
length-start_le r s = ground arith

-- A tick brings no limited type over its limit, however many checks of it are due and whatever was
-- started by hand before: afterwards at most `limit` runs of the type are counted, or no more than
-- before the tick; and the set of running checks has at most 25 members, or no more than before.
pub run_ready-limits :
    (due : List Run) (s : Running) (t : String) (limit : ℕ)
    → type_limit t ≡ some limit
    → (or_else ((run_ready due s).running_by_type t) 0
        ≤ max limit (or_else (s.running_by_type t) 0))
      × (length (run_ready due s).running ≤ max 25 (length s.running))
unfolding run_ready
run_ready-limits due s t limit l =
    let ready = keep (λ r. not (includes s.running r.id)) due in
    (
      (run_each-keeps (λ rs u. Within t limit (or_else (s.running_by_type t) 0) u) (λ r rs u h. h)
          (λ r rs u h room free. start-Within t limit _ r u l free h) ready s (omega arith)).1,
      (run_each-keeps (λ rs u. length u.running ≤ max 25 (length s.running)) (λ r rs u h. h)
          (λ r rs u h room free. grind (arith, length-start_le r u)) ready s (omega arith)).1,
    )
