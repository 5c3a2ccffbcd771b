-- ===== src/Scheduler.antt =====
-- The check scheduler (engine/src/services/scheduler.ts): which checks may start on a tick
-- (`runDueChecks`), what a run does to the counters of running checks (`runOneCheck`), and the
-- steps that these make in any order: ticks, runs started by hand (engine/src/routes/checks.ts) and
-- ends of runs. A tick's loop has no `await`, so that nothing comes between its starts.
pub mod Due
pub mod Counts
pub mod Limits
pub mod Once
pub mod Ticks
pub mod Collectors
pub mod Taken
use looksee.Prelude.{
  ℕ, zero, suc, ◌+◌, ◌-◌, String, Bool, true, false, not, ◌&&◌, Option, none, some, List, [], ◌∷◌,
  ◌===◌, leb, length, keep, includes, or_else, if◌then◌else◌, ◌≡◌, All,
}

-- A call of `runOneCheck`: the check's ID and type.
pub record Run : Type 0 where
  pub id : String
  pub type : String

-- The module's `running` set and `runningByType` map, and the calls of `runOneCheck` that have not
-- come to their `finally`, the newest first.
pub record Running : Type 0 where
  pub running : List String
  pub running_by_type : String → Option ℕ
  pub active : List Run

abbrev pub idle : Running
idle = record { running = []; running_by_type = λ t. none; active = [] }

abbrev pub global_limit : ℕ
global_limit = 25

-- TYPE_LIMITS
abbrev pub type_limit : String → Option ℕ
type_limit t =
    if t === "browser"
    then some 2
    else if t === "email_roundtrip"
    then some 3
    else if t === "traceroute"
    then some 4
    else if t === "dhcp"
    then some 1
    else none

-- `running.add(id)`
unfoldable pub add : String → List String → List String
add id ids = if includes ids id then ids else id ∷ ids

-- `running.delete(id)`
abbrev pub delete : String → List String → List String
delete id ids = keep (λ x. not (x === id)) ids

abbrev pub set_count : String → ℕ → (String → Option ℕ) → String → Option ℕ
set_count t n counts u = if t === u then some n else counts u

-- `runOneCheck` up to its first `await`
unfoldable pub start : Run → Running → Running
start r s = record {
  running = add r.id s.running;
  running_by_type = set_count r.type (or_else (s.running_by_type r.type) 0 + 1) s.running_by_type;
  active = r ∷ s.active;
}

abbrev pub nth : ℕ → List Run → Option Run
nth n [] = none
nth zero (r ∷ rs) = some r
nth (suc n) (r ∷ rs) = nth n rs

abbrev pub drop_at : ℕ → List Run → List Run
drop_at n [] = []
drop_at zero (r ∷ rs) = rs
drop_at (suc n) (r ∷ rs) = r ∷ drop_at n rs

-- The `finally` of the run that is n-th of the active ones; the difference of JavaScript could be
-- negative, and is the natural one where the count is not 0.
abbrev pub ended : Option Run → ℕ → Running → Running
ended none n s = s
ended (some r) n s = record {
  running = delete r.id s.running;
  running_by_type = set_count r.type (or_else (s.running_by_type r.type) 1 - 1) s.running_by_type;
  active = drop_at n s.active;
}

unfoldable pub finish : ℕ → Running → Running
finish n s = ended (nth n s.active) n s

-- `limit && (runningByType.get(check.type) ?? 0) >= limit`
abbrev pub at_limit : Option ℕ → Option ℕ → Bool
at_limit none count = false
at_limit (some limit) count = leb limit (or_else count 0)

-- The loop of `runDueChecks`.
unfoldable pub run_each : List Run → Running → Running
run_each [] s = s
run_each (r ∷ rs) s =
    let skipped = run_each rs s in
    let started = run_each rs (start r s) in
    if leb global_limit (length s.running)
    then s
    else if at_limit (type_limit r.type) (s.running_by_type r.type)
    then skipped
    else started

unfoldable pub run_ready : List Run → Running → Running
run_ready due s = run_each (keep (λ r. not (includes s.running r.id)) due) s

-- The IDs of rows of one query are different.
abbrev pub Distinct : List Run → Type 0
Distinct [] = Unit
Distinct (r ∷ rs) = All (λ u. (r.id === u.id) ≡ false) rs × Distinct rs

-- What happens to the module, where `by_hand` says whether checks are run by hand too.
pub data Step (by_hand : Bool) : Running → Running → Type 0 where
  tick : (due : List Run) → Distinct due → (s : Running) → Step by_hand s (run_ready due s)
  hand : by_hand ≡ true → (r : Run) (s : Running) → Step by_hand s (start r s)
  done : (n : ℕ) (s : Running) → Step by_hand s (finish n s)

pub data Reach (by_hand : Bool) : Running → Type 0 where
  begin : Reach by_hand idle
  next : {s t : Running} → Reach by_hand s → Step by_hand s t → Reach by_hand t
