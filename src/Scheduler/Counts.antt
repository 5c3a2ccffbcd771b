-- ===== src/Scheduler/Counts.antt =====
-- The counters `runningByType` of engine/src/services/scheduler.ts.
use looksee.Prelude.{
  ℕ, zero, suc, ◌+◌, ◌-◌, String, Bool, true, false, Option, none, some, List, [], ◌∷◌, ◌===◌, leb,
  length, or_else, if◌then◌else◌, ◌≡◌, refl, ◌∙◌, ap, inl, inr, arith, Bool-cases, eq_iff,
}
use looksee.Scheduler.{
  Run, Running, ended, global_limit, type_limit, start, nth, drop_at, finish, at_limit, run_each,
  run_ready, Step, tick, hand, done, Reach, begin, next,
}

-- How many runs of a type there are.
unfoldable pub runs_of : String → List Run → ℕ
runs_of t [] = 0
runs_of t (r ∷ rs) = (if r.type === t then 1 else 0) + runs_of t rs

runs_of-drop_at :
    (t : String) (n : ℕ) (rs : List Run) (r : Run)
    → nth n rs ≡ some r
    → runs_of t rs ≡ (if r.type === t then 1 else 0) + runs_of t (drop_at n rs)
unfolding runs_of
runs_of-drop_at t n [] r h = absurd (cc)
runs_of-drop_at t zero (u ∷ rs) r h = ground arith
runs_of-drop_at t (suc n) (u ∷ rs) r h = ground (arith, runs_of-drop_at t n rs r h)

same_type : (a t : String) → (a === t) ≡ true → (counts : String → Option ℕ) → counts a ≡ counts t
same_type a t h counts = ap counts ((eq_iff a t).0 h)

abbrev Counted : Running → Type 0
Counted s = (t : String) → or_else (s.running_by_type t) 0 ≡ runs_of t s.active

start-Counted : (r : Run) (s : Running) → Counted s → Counted (start r s)
unfolding start runs_of
start-Counted r s h t = elim (Bool-cases (r.type === t)) [
  | inl same ↦ rw same (ground (arith, h t, h r.type, same_type r.type t same s.running_by_type))
  | inr other ↦ rw other (omega (arith, h t))
]

one_less : (o : Option ℕ) (n : ℕ) → or_else o 0 ≡ 1 + n → or_else o 1 - 1 ≡ n
one_less none n h = omega (arith, h)
one_less (some m) n h = omega (arith, h)

ended-Counted :
    (o : Option Run) (n : ℕ) (s : Running) → nth n s.active ≡ o → Counted s → Counted (ended o n s)
ended-Counted none n s e h t = h t
ended-Counted (some r) n s e h t = elim (Bool-cases (r.type === t)) [
  | inl same ↦
      let gone = runs_of-drop_at t n s.active r e in
      let one : ◌≡◌ {A = ℕ} (if r.type === t then 1 else 0) 1 = rw same refl in
      let here = ap (λ o. or_else o 0) (same_type r.type t same s.running_by_type) in
      rw same (
        one_less (s.running_by_type r.type) _
          (here ∙ h t ∙ gone ∙ ap (λ k. k + runs_of t (drop_at n s.active)) one))
  | inr other ↦
      let gone = runs_of-drop_at t n s.active r e in
      let none_gone : ◌≡◌ {A = ℕ} (if r.type === t then 1 else 0) 0 = rw other refl in
      rw other (omega (arith, h t, gone, none_gone))
]

-- What holds of the rows to come and of the counters holds after the loop, where a start below the
-- limits and a skipped row keep it.
pub run_each-keeps :
    (P : List Run → Running → Type 0)
    → ((r : Run) (rs : List Run) (s : Running) → P (r ∷ rs) s → P rs s)
    → ((r : Run) (rs : List Run) (s : Running)
        → P (r ∷ rs) s
        → leb global_limit (length s.running) ≡ false
        → at_limit (type_limit r.type) (s.running_by_type r.type) ≡ false
        → P rs (start r s))
    → (rs : List Run) (s : Running) → P rs s
    → (left : List Run) × P left (run_each rs s)
unfolding run_each
run_each-keeps P skip begun [] s h = ([], h)
run_each-keeps P skip begun (r ∷ rs) s h = elim (Bool-cases (leb global_limit (length s.running))) [
  | inl full ↦ rw full (r ∷ rs, h)
  | inr room ↦ elim (Bool-cases (at_limit (type_limit r.type) (s.running_by_type r.type))) [
    | inl busy ↦ rw (room, busy) (run_each-keeps P skip begun rs s (skip r rs s h))
    | inr free ↦
        rw (room, free) (run_each-keeps P skip begun rs (start r s) (begun r rs s h room free))
  ]
]

run_ready-Counted : (due : List Run) (s : Running) → Counted s → Counted (run_ready due s)
unfolding run_ready
run_ready-Counted due s h =
    (run_each-keeps (λ rs s. Counted s) (λ r rs s c. c) (λ r rs s c full busy. start-Counted r s c)
      _ s h).1

Step-Counted : {by_hand : Bool} {s t : Running} → Step by_hand s t → Counted s → Counted t
Step-Counted (tick due d s) h = run_ready-Counted due s h
Step-Counted (hand e r s) h = start-Counted r s h
Step-Counted (done n s) h = unfold finish in ended-Counted (nth n s.active) n s refl h

Reach-Counted : {by_hand : Bool} {s : Running} → Reach by_hand s → Counted s
Reach-Counted begin = λ t. unfold runs_of in refl
Reach-Counted (next r st) = Step-Counted st (Reach-Counted r)

-- Whatever ticks, runs by hand and ends of runs have come, in whatever order, the counter of each
-- type is the number of runs of that type that have started and not ended.
pub running_by_type-runs_of :
    (by_hand : Bool) (s : Running) (t : String)
    → Reach by_hand s
    → or_else (s.running_by_type t) 0 ≡ runs_of t s.active
running_by_type-runs_of by_hand s t r = Reach-Counted r t
