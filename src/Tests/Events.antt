-- ===== src/Tests/Events.antt =====
-- Reboots and changes of a host, over a few reports. The texts are their own hashes.
use looksee.Prelude.{
  ◌≡◌, refl, Bool, true, false, none, some, List, [], ◌∷◌, ◌==◌, ltb, if◌then◌else◌, arith,
}
use looksee.Prelude.Text.{Text, codes, show, digits_onto}
use looksee.Prelude.Same.{unique_onto}
use looksee.Thresholds.{up}
use looksee.HostChanges.{
  hold_ms, Config, RebootState, ChangeState, event_status, is_recent, evaluate_reboot, insert_item,
  insertion_sort, sort_items, last_change, evaluate_change,
}
use looksee.HostChanges.Held.{after_reports, evaluate_reboot_held}
use looksee.HostChanges.Drift.{evaluate_change_repeats, evaluate_change_detects}

abbrev config : Config
config = record { what = codes "listening_ports"; severity = none; hold_minutes = none }

abbrev hash : Text → Text
hash s = s

abbrev before : Text → Text → Bool
before [] [] = false
before [] (d ∷ t) = true
before (c ∷ s) [] = false
before (c ∷ s) (d ∷ t) = if c == d then before s t else ltb c d

abbrev running : RebootState
running = record { boot_time = some 1000; rebooted_at = none }

evaluate_reboot_held_example :
    (evaluate_reboot show config
      (after_reports show config
        (evaluate_reboot show config running (some 5000) 5100000).1
        ((none, 5130000) ∷ (some 5001, 5160000) ∷ []))
      (some 5000)
      5990000).0.status
    ≡ (if is_recent config (some 5100000) 5990000 then event_status config else up)
evaluate_reboot_held_example =
    evaluate_reboot_held show config running 1000 5000 5100000
      ((none, 5130000) ∷ (some 5001, 5160000) ∷ []) 5000 5990000 refl (omega arith)
      (omega arith, tt) (omega arith)

abbrev ports : List Text
ports = codes "tcp/443" ∷ codes "tcp/22" ∷ codes "tcp/443" ∷ []

abbrev known : ChangeState
known = record {
  hash = some (codes "tcp/22\ntcp/443");
  items = some (codes "tcp/22" ∷ codes "tcp/443" ∷ []);
  changed_at = none;
  last_change = none;
}

no_change :
    (evaluate_change before hash config known (some ports) 1000).0.message
    ≡ codes "No change (2 listening ports)"
unfolding evaluate_change last_change sort_items insertion_sort insert_item unique_onto show
    digits_onto
no_change = refl

abbrev one_more : List Text
one_more = codes "tcp/8080" ∷ ports

new_port :
    (evaluate_change before hash config known (some one_more) 1000).0.message
    ≡ codes "listening ports changed: + tcp/8080"
unfolding evaluate_change last_change sort_items insertion_sort insert_item unique_onto
new_port = refl

evaluate_change_repeats_example :
    ((evaluate_change before hash config
        (evaluate_change before hash config known (some one_more) 1000).1
        (some one_more)
        901000).0.status
      ≡ up)
    × ((evaluate_change before hash config
          (evaluate_change before hash config known (some one_more) 1000).1
          (some one_more)
          901000).1
        ≡ (evaluate_change before hash config known (some one_more) 1000).1)
evaluate_change_repeats_example =
    evaluate_change_repeats before hash config known one_more 1000 901000 tt (omega arith)

evaluate_change_detects_example :
    ((evaluate_change before hash config known (some one_more) 1000).0.status
      ≡ (if ltb 0 (hold_ms config) then event_status config else up))
    × ((evaluate_change before hash config known (some one_more) 1000).1.changed_at ≡ some 1000)
unfolding sort_items insertion_sort insert_item unique_onto
evaluate_change_detects_example =
    evaluate_change_detects before hash config known (codes "tcp/22" ∷ codes "tcp/443" ∷ [])
      one_more (codes "tcp/8080") 1000 refl refl refl refl (omega arith)
