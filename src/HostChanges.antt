-- ===== src/HostChanges.antt =====
-- `evaluateReboot` and `evaluateChange` of engine/src/services/endpointMetrics.ts: single events of
-- a host, told by a report and the state of the last one. Instants and settings are whole numbers;
-- the time of a boot is one of seconds, as text by `show_boot`. `hash` is SHA-256 and `before` the
-- order of `sort`.
pub mod Held
pub mod Drift
use looksee.Prelude.{
  ℕ, ◌+◌, ◌-◌, ◌*◌, Bool, true, false, not, ◌&&◌, ◌||◌, Option, none, some, List, [], ◌∷◌, ◌++◌,
  map, keep, any, take, length, ltb, ◌==◌, or_else, if◌then◌else◌,
}
use looksee.Prelude.Text.{Text, codes, same, show, trim}
use looksee.Prelude.Same.{unique_onto}
use looksee.Exclude.Items.{is_filled}
use looksee.Thresholds.{Status, up, down, warn}

-- The settings of both checks.
pub record Config : Type 0 where
  pub what : Text
  pub severity : Option Text
  pub hold_minutes : Option ℕ

pub record Outcome : Type 0 where
  pub status : Status
  pub message : Text

abbrev pub hold_ms : Config → ℕ
hold_ms c = or_else c.hold_minutes 15 * 60000

abbrev pub event_status : Config → Status
event_status c = if same (or_else c.severity (codes "warn")) (codes "down") then down else warn

-- `at && Date.now() - at < hold`
abbrev pub is_recent : Config → Option ℕ → ℕ → Bool
is_recent c none now = false
is_recent c (some at) now = not (at == 0) && ltb now (at + hold_ms c)

pub record RebootState : Type 0 where
  pub boot_time : Option ℕ
  pub rebooted_at : Option ℕ

-- `prev != null && boot - prev > 60`
abbrev pub has_rebooted : Option ℕ → ℕ → Bool
has_rebooted none boot = false
has_rebooted (some prev) boot = ltb (prev + 60) boot

module _ (show_boot : ℕ → Text) where
  unfoldable pub evaluate_reboot : Config → RebootState → Option ℕ → ℕ → Outcome × RebootState
  evaluate_reboot c st none now =
      (record { status = Status.unknown; message = codes "Agent didn't report a boot time" }, st)
  evaluate_reboot c st (some boot) now =
      let at = if has_rebooted st.boot_time boot then some now else st.rebooted_at in
      (
        (if is_recent c at now
            then record {
              status = event_status c;
              message = codes "Rebooted at " ++ show_boot boot ++ codes " UTC";
            }
            else record {
              status = up;
              message = codes "Up since " ++ show_boot boot ++ codes " UTC";
            }),
        record { boot_time = some boot; rebooted_at = at },
      )

-- The state of a change check; `undefined` is `none`.
pub record ChangeState : Type 0 where
  pub hash : Option Text
  pub items : Option (List Text)
  pub changed_at : Option ℕ
  pub last_change : Option Text

-- `list.includes(x)`
abbrev pub includes_text : List Text → Text → Bool
includes_text list x = any (same x) list

abbrev join : Text → List Text → Text
join sep [] = []
join sep (p ∷ []) = p
join sep (p ∷ q ∷ ps) = p ++ sep ++ join sep (q ∷ ps)

abbrev pub is_some_text : List Text → Bool
is_some_text [] = false
is_some_text (t ∷ ts) = true

-- What is new, and what is gone, as a message.
abbrev listed : Text → List Text → Text
listed sign [] = []
listed sign (t ∷ ts) = sign ++ join (codes ", ") (t ∷ ts)

abbrev pub change_text : List Text → List Text → Text
change_text added removed =
    join (codes "  ")
      (keep is_filled (listed (codes "+ ") added ∷ listed (codes "− ") removed ∷ []))

-- `what.replace(/_/g, " ")`
abbrev spaced : Text → Text
spaced what = map (λ c. if c == b'_' then b' ' else c) what

abbrev is_sessions : Config → Bool
is_sessions c = same c.what (codes "sessions")

abbrev pub is_same_hash : Option Text → Text → Bool
is_same_hash none h = false
is_same_hash (some g) h = same g h

module _ (before : Text → Text → Bool) where
  unfoldable pub insert_item : Text → List Text → List Text
  insert_item x [] = x ∷ []
  insert_item x (y ∷ ys) = if before y x then y ∷ insert_item x ys else x ∷ y ∷ ys

  unfoldable pub insertion_sort : List Text → List Text
  unfolding insert_item
  insertion_sort [] = []
  insertion_sort (x ∷ xs) = insert_item x (insertion_sort xs)

  -- `[...new Set(items)].sort()`
  unfoldable pub sort_items : List Text → List Text
  unfolding insertion_sort
  sort_items items = insertion_sort (unique_onto [] items)

module _ (before : Text → Text → Bool) (hash : Text → Text) where
  abbrev pub hash_of : List Text → Text
  hash_of sorted = hash (join (codes "\n") sorted)

  -- The time and the text of the last change, behind a report.
  unfoldable pub last_change :
      Config → ChangeState → Option (List Text) → List Text → ℕ → Option ℕ × Option Text
  last_change c st none sorted now = (st.changed_at, st.last_change)
  last_change c st (some old) sorted now =
      let added = keep (λ x. not (includes_text old x)) sorted in
      let removed = keep (λ x. not (includes_text sorted x)) old in
      if not (is_same_hash st.hash (hash_of sorted)) && (not (is_sessions c) || is_some_text added)
      then (some now, some (change_text added removed))
      else (st.changed_at, st.last_change)

  abbrev pub count_text : Config → List Text → Text
  count_text c sorted =
      codes " (" ++ show (length sorted) ++ codes " " ++ spaced c.what ++ codes ")"

  abbrev quiet_text : Option (List Text) → Text
  quiet_text none = codes "Baseline recorded"
  quiet_text (some old) = codes "No change"

  -- The result and the state, with the instant and the text of the last change.
  abbrev pub judge_change :
      Config → Option (List Text) → List Text → Option ℕ × Option Text → ℕ → Outcome × ChangeState
  judge_change c old sorted (at, text) now = (
    (if is_recent c at now
        then record {
          status = event_status c;
          message =
              spaced c.what ++ codes " changed: " ++ take 500 (or_else text (codes "undefined"));
        }
        else record { status = up; message = quiet_text old ++ count_text c sorted }),
    record {
      hash = some (hash_of sorted);
      items = some sorted;
      changed_at = at;
      last_change = text;
    },
  )

  unfoldable pub evaluate_change :
      Config → ChangeState → Option (List Text) → ℕ → Outcome × ChangeState
  unfolding last_change sort_items
  evaluate_change c st none now = (
    record {
      status = Status.unknown;
      message = codes "This host doesn't report " ++ spaced c.what;
    },
    st,
  )
  evaluate_change c st (some items) now =
      let sorted = sort_items before items in
      judge_change c st.items sorted (last_change c st st.items sorted now) now
