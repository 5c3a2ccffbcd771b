-- ===== src/UserAccounts/Judge.antt =====
-- `evaluateUserAccounts` of engine/src/services/userAccounts.ts. Instants and the minutes of the
-- setting are whole numbers; the clock does not go back behind the last change.
use looksee.Prelude.{
  ℕ, ◌+◌, ◌≡◌, ap, ◌-◌, ◌*◌, ◌/◌, Bool, true, false, not, ◌&&◌, ◌||◌, Option, none, some, List, [],
  ◌∷◌, ◌++◌, map, keep, any, take, length, ltb, ◌==◌, or_else, if◌then◌else◌,
}
use looksee.Prelude.Text.{Text, codes, same, trim, show}
use looksee.Exclude.{name_excluded}
use looksee.Exclude.Items.{Setting, split_at, is_filled, exclude_items}
use looksee.Thresholds.{Status, up, down, warn, worst}
use looksee.StripNul.{JsonValue}
use looksee.UserAccounts.{UserAccount, clean_users}
use looksee.UserAccounts.Changes.{
  UserChange, ChangeKind, added, removed, changed, Accounts, is_true, join, keyed_by_name,
  diff_users,
}

-- The settings; a text that is not set is `none`, a box is ticked or not.
pub record Config : Type 0 where
  pub watch : Option Text
  pub include_system : Bool
  pub exclude : Setting
  pub severity : Option Text
  pub admin_severity : Option Text
  pub hold_minutes : Option ℕ

pub record HistoryRow : Type 0 where
  pub when_ms : ℕ
  pub change : UserChange

-- The state of the check; `undefined` is `none`, and no history is the empty one.
pub record State : Type 0 where
  pub users : Option Accounts
  pub history : List HistoryRow
  pub changed_at : Option ℕ
  pub held_status : Option Status
  pub last_change : Option Text

-- The result of an agent: its details' list is `users`.
pub record AgentResult : Type 0 where
  pub status : Status
  pub message : Option Text
  pub users : Option JsonValue

pub record Summary : Type 0 where
  pub name : Text
  pub full_name : Option Text
  pub enabled : Option Bool
  pub admin : Option Bool
  pub locked : Option Bool
  pub last_logon : Option Text

pub record Details : Type 0 where
  pub changes : List UserChange
  pub history : List HistoryRow
  pub users : List Summary

-- The judged result: the value and the details are `none` where they are the agent's.
pub record JudgedReport : Type 0 where
  pub status : Status
  pub message : Option Text
  pub listing : Option (ℕ × Details)

abbrev pub summary : UserAccount → Summary
summary u = record {
  name = u.name;
  full_name = u.full_name;
  enabled = u.enabled;
  admin = u.admin;
  locked = u.locked;
  last_logon = u.last_logon;
}

abbrev is_comma : ℕ → Bool
is_comma c = c == b','

abbrev pub kind_text : ChangeKind → Text
kind_text added = codes "added"
kind_text removed = codes "removed"
kind_text changed = codes "changed"

abbrev pub is_watched : Config → ChangeKind → Bool
is_watched c kind =
    let kinds = or_else c.watch (codes "added,removed,changed") in
    any (same (kind_text kind)) (keep is_filled (map trim (split_at is_comma kinds)))

abbrev pub severity : Config → Status
severity c = if same (or_else c.severity (codes "warn")) (codes "down") then down else warn

abbrev pub admin_severity : Config → Status
admin_severity c =
    if same (or_else c.admin_severity (codes "down")) (codes "warn") then warn else down

abbrev pub gains_admin : UserChange → Bool
gains_admin change = is_true change.admin

-- The status for the changes of a report.
unfoldable pub now_status : Config → List UserChange → Status
unfolding worst
now_status c [] = up
now_status c (d ∷ ds) =
    if any gains_admin (d ∷ ds) then worst (severity c) (admin_severity c) else severity c

abbrev one_change : UserChange → Text
one_change d =
    kind_text d.change
    ++ codes " "
    ++ d.user
    ++ (if is_filled d.detail then codes " (" ++ d.detail ++ codes ")" else [])

unfoldable pub summary_of : List UserChange → Text
summary_of changes =
    join (codes "; ") (map one_change (take 4 changes))
    ++ (if ltb 4 (length changes) then codes "; …" else [])

abbrev pub hold_ms : Config → ℕ
hold_ms c = or_else c.hold_minutes 60 * 60000

-- `changedAt && Date.now() - changedAt < holdMs`
abbrev pub is_held : Config → Option ℕ → ℕ → Bool
is_held c none now = false
is_held c (some at) now = not (at == 0) && ltb now (at + hold_ms c)

abbrev minutes_ago : Option ℕ → ℕ → Text
minutes_ago at now = codes " (" ++ show ((now - or_else at 0 + 30000) / 60000) ++ codes " min ago)"

-- The state behind a report: a report without changes leaves the last change as it is.
unfoldable pub next_state : Config → State → Accounts → List UserChange → ℕ → State
unfolding now_status summary_of
next_state c st accounts [] now = record {
  users = some accounts;
  history = take 500 st.history;
  changed_at = st.changed_at;
  held_status = some (or_else st.held_status (severity c));
  last_change = st.last_change;
}
next_state c st accounts (d ∷ ds) now = record {
  users = some accounts;
  history = take 500 (map (λ x. record { when_ms = now; change = x }) (d ∷ ds) ++ st.history);
  changed_at = some now;
  held_status = some (now_status c (d ∷ ds));
  last_change = some (summary_of (d ∷ ds));
}

-- The status and the message, given the state behind the report.
unfoldable pub verdict : Config → Option Accounts → State → List UserChange → ℕ → ℕ → Status × Text
unfolding now_status
verdict c none st changes count now =
    (up, codes "Baseline recorded: " ++ show count ++ codes " account(s)")
verdict c (some prev) st (d ∷ ds) count now =
    (now_status c (d ∷ ds), or_else st.last_change (codes "Accounts changed"))
verdict c (some prev) st [] count now =
    if is_held c st.changed_at now
    then (
      or_else st.held_status (severity c),
      or_else st.last_change (codes "undefined") ++ minutes_ago st.changed_at now,
    )
    else (up, show count ++ codes " account(s), no changes")

module _ (lower : Text → Text) (comes_after : Text → Text → Bool) where
  abbrev pub is_listed : Config → UserAccount → Bool
  is_listed c u =
      (c.include_system || not (is_true u.system))
      && not (name_excluded lower (some u.name) (exclude_items c.exclude true))

  abbrev pub changes_since : Option Accounts → List UserAccount → List UserChange
  changes_since none users = []
  changes_since (some prev) users = diff_users lower comes_after prev users

  -- What follows where the accounts are listed.
  unfoldable pub judge_users : Config → State → List UserAccount → ℕ → JudgedReport × State
  unfolding next_state verdict keyed_by_name diff_users
  judge_users c st listed now =
      let users = keep (is_listed c) listed in
      let changes = keep (λ x. is_watched c x.change) (changes_since st.users users) in
      let next = next_state c st (keyed_by_name lower [] users) changes now in
      let (status, message) = verdict c st.users next changes (length users) now in
      (
        record {
          status = status;
          message = some message;
          listing = some (
            length users,
            record {
              changes = changes;
              history = take 200 next.history;
              users = map summary users;
            },
          );
        },
        next,
      )

  -- A list that could not be read leaves the result and the state as they are.
  abbrev pub judge_report :
      Config → State → AgentResult → ℕ → Option (List UserAccount) → JudgedReport × State
  judge_report c st r now none =
      (record { status = r.status; message = r.message; listing = none }, st)
  judge_report c st r now (some listed) = judge_users c st listed now

  unfoldable pub evaluate_user_accounts : Config → State → AgentResult → ℕ → JudgedReport × State
  unfolding judge_users clean_users
  evaluate_user_accounts c st r now = judge_report c st r now (clean_users lower r.users)

  pub evaluate_listed :
      (c : Config) (st : State) (r : AgentResult) (listed : List UserAccount) (now : ℕ)
      → clean_users lower r.users ≡ some listed
      → evaluate_user_accounts c st r now ≡ judge_users c st listed now
  unfolding evaluate_user_accounts
  evaluate_listed c st r listed now e = ap (judge_report c st r now) e
