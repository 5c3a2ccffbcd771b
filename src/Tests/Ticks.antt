-- ===== src/Tests/Ticks.antt =====
-- The scheduler on a few checks, and the comparison of versions.
use looksee.Prelude.{
  ℕ, String, true, false, none, some, List, [], ◌∷◌, ◌≡◌, ◌≤◌, refl, length, includes, arith,
}
use looksee.Prelude.Text.{Text, codes}
use looksee.CheckTypes.{engine_check_types, collector_check_types, min_agent_version_for}
use looksee.Maintenance.{parse_int}
use looksee.CheckTypes.Versions.{at_least, version_at_least}
use looksee.Scheduler.{
  nth, Run, Running, idle, add, start, finish, run_each, run_ready, Distinct, tick, begin, next,
}
use looksee.Scheduler.Counts.{runs_of}
use looksee.Alerting.Tables.{Db}
use looksee.Scheduler.Due.{Fleet, handed_to, take_collector_checks, is_silent}
use looksee.Scheduler.Taken.{Quiet, engine_runs, take_collector_checks-rest}
use looksee.Thresholds.{unknown}
use looksee.Timeouts.{ResultInput}
use looksee.Tests.Alerts.{network, never}
use looksee.Scheduler.Ticks.{active_limits, finish_forgets}

-- The definitions that the tests open.
scheduling : Unit {0}
unfolding run_ready run_each start finish add runs_of
scheduling = tt

versions : Unit {0}
unfolding version_at_least at_least parse_int engine_check_types collector_check_types
    min_agent_version_for
versions = tt

abbrev browser : String → Run
browser id = record { id = id; type = "browser" }

abbrev three : List Run
three = browser "b1" ∷ browser "b2" ∷ browser "b3" ∷ []

three-Distinct : Distinct three
three-Distinct = ((refl, (refl, tt)), ((refl, tt), (tt, tt)))

abbrev ticked : Running
ticked = run_ready three idle

two_run : ticked.running ≡ "b2" ∷ "b1" ∷ []
unfolding scheduling
two_run = refl

third_after_end : (run_ready three (finish 0 ticked)).running ≡ "b2" ∷ "b1" ∷ []
unfolding scheduling
third_after_end = refl

abbrev by_hand_too : Running
by_hand_too = start (browser "b3") ticked

active_limits_example :
    Distinct ticked.active × (length ticked.active ≤ 25) × (runs_of "browser" ticked.active ≤ 2)
active_limits_example =
    active_limits ticked "browser" 2 (next begin (tick three three-Distinct idle)) refl

abbrev one_runs : Running
one_runs = start (browser "b1") idle

finish_forgets_example :
    (run_ready (browser "b1" ∷ []) one_runs ≡ one_runs)
    × (nth 0 (run_ready (browser "b1" ∷ []) (finish 0 (start (browser "b1") one_runs))).active
        ≡ some (browser "b1"))
    × (nth 1 (run_ready (browser "b1" ∷ []) (finish 0 (start (browser "b1") one_runs))).active
        ≡ some (browser "b1"))
unfolding start finish add
finish_forgets_example = finish_forgets (browser "b1") one_runs 0 refl refl (omega arith) refl

ping_handed_over : includes collector_check_types "ping" ≡ true
unfolding versions
ping_handed_over = refl

heartbeat_kept : includes collector_check_types "heartbeat" ≡ false
unfolding versions
heartbeat_kept = refl

longer_is_newer : version_at_least (some (codes "5.2.0.1")) (codes "5.2") ≡ true
unfolding versions
longer_is_newer = refl

older : version_at_least (some (codes "3.9.1")) (codes "3.10.0") ≡ false
unfolding versions
older = refl

abbrev branch : Fleet
branch = record {
  sites = record { id = "s1"; collector_endpoint_id = some "e1" } ∷ [];
  endpoints = record { id = "e1"; name = codes "edge"; collector_last_seen_at = some 1000 } ∷ [];
}

abbrev iso : ℕ → Text
iso t = codes "then"

router_taken : engine_runs branch network.checks ≡ []
unfolding versions handed_to
router_taken = refl

silent_after_three_minutes : is_silent (some 1000) 60 181001 ≡ true
unfolding is_silent
silent_after_three_minutes = refl

take_collector_checks-rest_example :
    (after : Db) × (take_collector_checks never iso 1 branch 200000 network.checks network
      ≡ some (engine_runs branch network.checks, after))
    × Quiet network after
take_collector_checks-rest_example =
    take_collector_checks-rest never iso 0 branch 200000 network.checks network (omega arith, tt)

abbrev no_news : ResultInput
no_news = record { status = unknown; message = none }
