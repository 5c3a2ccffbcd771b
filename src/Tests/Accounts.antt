-- ===== src/Tests/Accounts.antt =====
-- The local accounts of an endpoint: reports with a new administrator, and the quiet afterwards.
use looksee.Prelude.{
  ◌≤◌, ◌≡◌, refl, Bool, true, false, none, some, List, [], ◌∷◌, map, length, ◌==◌, ltb,
  if◌then◌else◌, arith,
}
use looksee.Prelude.Text.{Text, codes, lower_unit, show, digits_onto}
use looksee.Exclude.{name_excluded}
use looksee.Exclude.Items.{other, exclude_items}
use looksee.Thresholds.{up, worst, rank}
use looksee.StripNul.{
  JsonValue, JsonItems, boolean, number, string, array, object, nil, cons, end, entry,
}
use looksee.UserAccounts.{UserAccount, clean_each, clean_users}
use looksee.UserAccounts.Unique.{Keyed, clean_users-Keyed}
use looksee.UserAccounts.Changes.{keyed_by_name, change_of, new_changes, insert, sort, diff_users}
use looksee.UserAccounts.Judge.{
  Config, State, AgentResult, severity, admin_severity, now_status, summary_of, next_state, verdict,
  judge_users, evaluate_user_accounts,
}
use looksee.UserAccounts.Quiet.{evaluate_user_accounts_recovers}
use looksee.UserAccounts.Admins.{evaluate_user_accounts_gains}

abbrev lower : Text → Text
lower = map lower_unit

abbrev comes_after : Text → Text → Bool
comes_after [] t = false
comes_after (c ∷ s) [] = true
comes_after (c ∷ s) (d ∷ t) = if c == d then comes_after s t else ltb d c

abbrev user : Text → Bool → JsonValue
user called admin =
    object (entry (codes "name") (string called) (entry (codes "admin") (boolean admin) end))

-- Root is there twice, and one entry has no name.
abbrev first_list : JsonItems
first_list = cons (user (codes "root") true) (
    cons (user (codes "Eve") false)
      (cons (user (codes "ROOT") false) (cons (number (codes "7")) nil)))

abbrev second_list : JsonItems
second_list = cons (user (codes "root") true) (cons (user (codes "eve") true) nil)

abbrev config : Config
config = record {
  watch = none;
  include_system = false;
  exclude = other;
  severity = none;
  admin_severity = none;
  hold_minutes = none;
}

abbrev start : State
start = record {
  users = none;
  history = [];
  changed_at = none;
  held_status = none;
  last_change = none;
}

abbrev report : JsonItems → AgentResult
report vs = record { status = up; message = none; users = some (array vs) }

abbrev after_first : State
after_first = (evaluate_user_accounts lower comes_after config start (report first_list) 1000).1

abbrev plain : Text → Bool → UserAccount
plain called administrator = record {
  name = called;
  uid = none;
  full_name = none;
  enabled = none;
  admin = some administrator;
  system = none;
  shell = none;
  locked = none;
  password_last_set = none;
  last_logon = none;
}

abbrev first_users : List UserAccount
first_users = plain (codes "root") true ∷ plain (codes "Eve") false ∷ []

abbrev second_users : List UserAccount
second_users = plain (codes "root") true ∷ plain (codes "eve") true ∷ []

first_cleaned : clean_users lower (some (array first_list)) ≡ some first_users
unfolding clean_users clean_each
first_cleaned = refl

second_cleaned : clean_users lower (some (array second_list)) ≡ some second_users
unfolding clean_users clean_each
second_cleaned = refl

baseline :
    (evaluate_user_accounts lower comes_after config start (report first_list) 1000).0.message
    ≡ some (codes "Baseline recorded: 2 account(s)")
unfolding evaluate_user_accounts judge_users next_state verdict clean_users clean_each exclude_items
    name_excluded show digits_onto
baseline = refl

new_admin :
    (evaluate_user_accounts lower comes_after config after_first
      (report second_list)
      2000).0.message
    ≡ some (codes "changed eve (admin: no → yes)")
unfolding evaluate_user_accounts judge_users next_state verdict clean_users clean_each exclude_items
    name_excluded keyed_by_name diff_users new_changes change_of sort insert now_status summary_of
    worst rank show digits_onto
new_admin = refl

clean_users-Keyed_example :
    (us : List UserAccount) × (clean_users lower (some (array first_list)) ≡ some us)
    × Keyed lower us
    × (length us ≤ 5000)
clean_users-Keyed_example = clean_users-Keyed lower first_list

known_before : after_first.users ≡ some (keyed_by_name lower [] first_users)
unfolding evaluate_user_accounts judge_users next_state clean_users clean_each exclude_items
    name_excluded
known_before = refl

evaluate_user_accounts_gains_example :
    (evaluate_user_accounts lower comes_after config after_first (report second_list) 2000).0.status
    ≡ worst (severity config) (admin_severity config)
unfolding keyed_by_name exclude_items name_excluded
evaluate_user_accounts_gains_example =
    evaluate_user_accounts_gains lower comes_after config after_first (report second_list) 2000
      second_users (keyed_by_name lower [] first_users) (codes "eve") (plain (codes "Eve") false)
      (plain (codes "eve") true) second_cleaned known_before refl refl refl refl refl

evaluate_user_accounts_recovers_example :
    ((evaluate_user_accounts lower comes_after config
        (evaluate_user_accounts lower comes_after config after_first (report second_list) 2000).1
        (report second_list)
        3602000).0.status
      ≡ up)
    × ((evaluate_user_accounts lower comes_after config
          (evaluate_user_accounts lower comes_after config after_first (report second_list) 2000).1
          (report second_list)
          3602000).1.history
        ≡ (evaluate_user_accounts lower comes_after config after_first
            (report second_list)
            2000).1.history)
unfolding evaluate_user_accounts judge_users next_state clean_users clean_each exclude_items
    name_excluded
evaluate_user_accounts_recovers_example =
    evaluate_user_accounts_recovers lower comes_after config after_first (report second_list)
      (report second_list) second_users 2000 3602000 second_cleaned second_cleaned tt (omega arith)
