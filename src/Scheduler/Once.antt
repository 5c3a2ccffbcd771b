-- ===== src/Scheduler/Once.antt =====
-- The set `running` of engine/src/services/scheduler.ts while no check is run by hand.
use looksee.Prelude.{
  ℕ, zero, suc, String, Bool, false, not, Option, none, some, List, [], ◌∷◌, ◌===◌, keep, map,
  includes, ◌≡◌, refl, sym, ◌∙◌, ap, inl, inr, arith, Bool-cases, eq_iff, All,
}
use mathlib.Core.Path.{subst}
use looksee.Scheduler.{
  Run, Running, idle, ended, add, delete, start, nth, drop_at, finish, run_ready, Distinct, Step,
  tick, hand, done, Reach, begin, next,
}
use looksee.Scheduler.Counts.{run_each-keeps}

abbrev pub ids : List Run → List String
ids rs = map (λ r. r.id) rs

abbrev Fresh : String → List Run → Type 0
Fresh id rs = All (λ u. (id === u.id) ≡ false) rs

same_comm : (a b : String) → (a === b) ≡ (b === a)
same_comm a b = ground (arith, eq_iff a b, eq_iff b a)

Fresh-includes : (id : String) (rs : List Run) → Fresh id rs → includes (ids rs) id ≡ false
Fresh-includes id [] h = refl
Fresh-includes id (u ∷ rs) (h, hs) = rw (same_comm u.id id, h) (Fresh-includes id rs hs)

includes-Fresh : (id : String) (rs : List Run) → includes (ids rs) id ≡ false → Fresh id rs
includes-Fresh id [] h = tt
includes-Fresh id (u ∷ rs) h =
    (same_comm id u.id ∙ ground arith, includes-Fresh id rs (ground arith))

delete-Fresh : (id : String) (rs : List Run) → Fresh id rs → delete id (ids rs) ≡ ids rs
delete-Fresh id [] h = refl
delete-Fresh id (u ∷ rs) (h, hs) =
    rw (same_comm u.id id, h) (ap (λ xs. u.id ∷ xs) (delete-Fresh id rs hs))

nth-Fresh :
    (id : String) (n : ℕ) (rs : List Run) (r : Run)
    → nth n rs ≡ some r
    → Fresh id rs
    → (id === r.id) ≡ false
nth-Fresh id n [] r e h = absurd (cc)
nth-Fresh id zero (u ∷ rs) r e (h, hs) = ground arith
nth-Fresh id (suc n) (u ∷ rs) r e (h, hs) = nth-Fresh id n rs r e hs

Fresh-drop_at : (id : String) (n : ℕ) (rs : List Run) → Fresh id rs → Fresh id (drop_at n rs)
Fresh-drop_at id n [] h = tt
Fresh-drop_at id zero (u ∷ rs) (h, hs) = hs
Fresh-drop_at id (suc n) (u ∷ rs) (h, hs) = (h, Fresh-drop_at id n rs hs)

Distinct-drop_at : (n : ℕ) (rs : List Run) → Distinct rs → Distinct (drop_at n rs)
Distinct-drop_at n [] d = tt
Distinct-drop_at zero (u ∷ rs) (f, d) = d
Distinct-drop_at (suc n) (u ∷ rs) (f, d) = (Fresh-drop_at u.id n rs f, Distinct-drop_at n rs d)

delete-drop_at :
    (n : ℕ) (rs : List Run) (r : Run)
    → nth n rs ≡ some r
    → Distinct rs
    → delete r.id (ids rs) ≡ ids (drop_at n rs)
delete-drop_at n [] r e d = absurd (cc)
delete-drop_at zero (u ∷ rs) r e (f, d) =
    let same_id : u.id ≡ r.id = cc in
    subst (λ x. delete x (u.id ∷ ids rs) ≡ ids rs) same_id
      (rw ((eq_iff u.id u.id).1 refl) (delete-Fresh u.id rs f))
delete-drop_at (suc n) (u ∷ rs) r e (f, d) =
    rw (nth-Fresh u.id n rs r e f) (ap (λ xs. u.id ∷ xs) (delete-drop_at n rs r e d))

-- Every running check is in the set once, and the set holds nothing else.
pub record Once (s : Running) : Type 0 where
  pub same_ids : s.running ≡ ids s.active
  pub distinct : Distinct s.active

-- The rows to come are different, and none of them runs.
record Waiting (rs : List Run) (s : Running) : Type 0 where
  once : Once s
  different : Distinct rs
  unstarted : All (λ r. includes s.running r.id ≡ false) rs

still_unstarted :
    (r : Run) (running : List String) (rs : List Run)
    → Fresh r.id rs
    → All (λ u. includes running u.id ≡ false) rs
    → All (λ u. includes (r.id ∷ running) u.id ≡ false) rs
still_unstarted r running [] f h = tt
still_unstarted r running (u ∷ rs) (f, fs) (h, hs) = (rw f h, still_unstarted r running rs fs hs)

start-Waiting :
    (r : Run) (rs : List Run) (s : Running) → Waiting (r ∷ rs) s → Waiting rs (start r s)
unfolding start
start-Waiting r rs s w =
    let new : add r.id s.running ≡ r.id ∷ s.running = unfold add in ground (arith, w.unstarted.0) in
    record {
      once = record {
        same_ids = new ∙ ap (λ xs. r.id ∷ xs) w.once.same_ids;
        distinct = (
          includes-Fresh r.id s.active
              (ap (λ xs. includes xs r.id) (sym w.once.same_ids) ∙ w.unstarted.0),
          w.once.distinct,
        );
      };
      different = w.different.1;
      unstarted =
          subst (λ xs. All (λ u. includes xs u.id ≡ false) rs) (sym new)
            (still_unstarted r s.running rs w.different.0 w.unstarted.1);
    }

Fresh-keep : (id : String) (p : Run → Bool) (rs : List Run) → Fresh id rs → Fresh id (keep p rs)
Fresh-keep id p [] h = tt
Fresh-keep id p (u ∷ rs) (h, hs) = elim (Bool-cases (p u)) [
  | inl kept ↦ rw kept (h, Fresh-keep id p rs hs)
  | inr left ↦ rw left (Fresh-keep id p rs hs)
]

Distinct-keep : (p : Run → Bool) (rs : List Run) → Distinct rs → Distinct (keep p rs)
Distinct-keep p [] d = tt
Distinct-keep p (u ∷ rs) (f, d) = elim (Bool-cases (p u)) [
  | inl kept ↦ rw kept (Fresh-keep u.id p rs f, Distinct-keep p rs d)
  | inr left ↦ rw left (Distinct-keep p rs d)
]

kept_unstarted :
    (running : List String) (rs : List Run)
    → All (λ r. includes running r.id ≡ false) (keep (λ r. not (includes running r.id)) rs)
kept_unstarted running [] = tt
kept_unstarted running (u ∷ rs) = elim (Bool-cases (includes running u.id)) [
  | inl runs ↦ rw runs (kept_unstarted running rs)
  | inr idle ↦ rw idle (idle, kept_unstarted running rs)
]

run_ready-Once : (due : List Run) (s : Running) → Distinct due → Once s → Once (run_ready due s)
unfolding run_ready
run_ready-Once due s d o =
    let ready = keep (λ r. not (includes s.running r.id)) due in
    let (left, w) =
      run_each-keeps Waiting
        (λ r rs u w. record { once = w.once; different = w.different.1; unstarted = w.unstarted.1 })
        (λ r rs u w room free. start-Waiting r rs u w) ready s
        (record {
          once = o;
          different = Distinct-keep _ due d;
          unstarted = kept_unstarted s.running due;
        }) in
    w.once

ended-Once :
    (o : Option Run) (n : ℕ) (s : Running) → nth n s.active ≡ o → Once s → Once (ended o n s)
ended-Once none n s e once = once
ended-Once (some r) n s e once = record {
  same_ids = ap (delete r.id) once.same_ids ∙ delete-drop_at n s.active r e once.distinct;
  distinct = Distinct-drop_at n s.active once.distinct;
}

Step-Once : {s t : Running} → Step false s t → Once s → Once t
Step-Once (tick due d s) o = run_ready-Once due s d o
Step-Once (hand e r s) o = absurd (cc)
Step-Once (done n s) o = unfold finish in ended-Once (nth n s.active) n s refl o

pub Reach-Once : {s : Running} → Reach false s → Once s
Reach-Once begin = record { same_ids = refl; distinct = tt }
Reach-Once (next r st) = Step-Once st (Reach-Once r)
