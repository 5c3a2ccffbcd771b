-- ===== src/UserAccounts/Changes.antt =====
-- `diffUsers` of engine/src/services/userAccounts.ts: two lists of accounts compared.
use looksee.Prelude.{
  Bool, true, false, not, ◌&&◌, Option, none, some, List, [], ◌∷◌, ◌++◌, map, keep, if◌then◌else◌,
}
use looksee.Prelude.Text.{Text, codes, same}
use looksee.Exclude.Items.{is_filled}
use looksee.UserAccounts.{UserAccount}

-- The fields that are compared (the constant WATCHED).
pub data WatchedKey : Type 0 where
  key_uid : WatchedKey
  key_full_name : WatchedKey
  key_enabled : WatchedKey
  key_admin : WatchedKey
  key_locked : WatchedKey
  key_shell : WatchedKey
  key_password : WatchedKey

abbrev pub watched : List WatchedKey
watched =
    key_uid ∷ key_full_name ∷ key_enabled ∷ key_admin ∷ key_locked ∷ key_shell ∷ key_password ∷ []

-- The value of a field; `absent` is `undefined`.
pub data Field : Type 0 where
  absent : Field
  as_flag : Bool → Field
  as_text : Text → Field

abbrev flag_field : Option Bool → Field
flag_field none = absent
flag_field (some b) = as_flag b

abbrev text_field : Option Text → Field
text_field none = absent
text_field (some s) = as_text s

abbrev pub field_of : UserAccount → WatchedKey → Field
field_of u key_uid = text_field u.uid
field_of u key_full_name = text_field u.full_name
field_of u key_enabled = flag_field u.enabled
field_of u key_admin = flag_field u.admin
field_of u key_locked = flag_field u.locked
field_of u key_shell = text_field u.shell
field_of u key_password = text_field u.password_last_set

abbrev pub label : WatchedKey → Text
label key_uid = codes "ID"
label key_full_name = codes "full name"
label key_enabled = codes "enabled"
label key_admin = codes "admin"
label key_locked = codes "locked"
label key_shell = codes "shell"
label key_password = codes "password set"

abbrev pub show_field : Field → Text
show_field absent = codes "—"
show_field (as_flag b) = if b then codes "yes" else codes "no"
show_field (as_text s) = if is_filled s then s else codes "—"

abbrev same_flag : Bool → Bool → Bool
same_flag true b = b
same_flag false b = not b

-- Whether both fields are known and differ.
abbrev pub has_changed : Field → Field → Bool
has_changed (as_flag a) (as_flag b) = not (same_flag a b)
has_changed (as_text s) (as_text t) = not (same s t)
has_changed (as_flag a) (as_text t) = true
has_changed (as_text s) (as_flag b) = true
has_changed _ _ = false

abbrev pub describe : UserAccount → UserAccount → WatchedKey → Text
describe before u key_password = codes "password changed"
describe before u k =
    label k
    ++ codes ": "
    ++ show_field (field_of before k)
    ++ codes " → "
    ++ show_field (field_of u k)

abbrev pub diffs : UserAccount → UserAccount → List Text
diffs before u =
    map (describe before u) (keep (λ k. has_changed (field_of before k) (field_of u k)) watched)

abbrev pub join : Text → List Text → Text
join sep [] = []
join sep (p ∷ []) = p
join sep (p ∷ q ∷ ps) = p ++ sep ++ join sep (q ∷ ps)

pub data ChangeKind : Type 0 where
  added : ChangeKind
  removed : ChangeKind
  changed : ChangeKind

pub record UserChange : Type 0 where
  pub change : ChangeKind
  pub user : Text
  pub detail : Text
  pub admin : Option Bool

-- `v === true` and `v === false` of a field that may be missing
abbrev pub is_true : Option Bool → Bool
is_true (some b) = b
is_true none = false

abbrev pub is_false : Option Bool → Bool
is_false (some b) = not b
is_false none = false

abbrev or_text : Text → Text → Text
or_text [] other = other
or_text (c ∷ s) other = c ∷ s

abbrev name_or_none : Option Text → Text
name_or_none none = []
name_or_none (some s) = s

abbrev pub added_detail : UserAccount → Text
added_detail u =
    or_text
      (join (codes ", ") (
        keep is_filled (
          (if is_true u.admin then codes "admin" else [])
          ∷ (if is_false u.enabled then codes "disabled" else [])
          ∷ name_or_none u.full_name
          ∷ [])))
      (codes "new account")

-- An object or a map from names in lower case, as its entries. (The order in which an object keeps
-- keys that look like numbers only shows where two names compare equal.)
abbrev pub Accounts : Type 0
Accounts = List (Text × UserAccount)

abbrev pub account_under : Text → Accounts → Option UserAccount
account_under k [] = none
account_under k ((j, u) ∷ us) = if same j k then some u else account_under k us

abbrev pub set_account : Text → UserAccount → Accounts → Accounts
set_account k u [] = (k, u) ∷ []
set_account k u ((j, v) ∷ us) = if same j k then (j, u) ∷ us else (j, v) ∷ set_account k u us

abbrev pub changed_by : UserAccount → UserAccount → List Text → List UserChange
changed_by before u [] = []
changed_by before u (d ∷ ds) =
    record {
      change = changed;
      user = u.name;
      detail = join (codes "; ") (d ∷ ds);
      admin = some (is_false before.admin && is_true u.admin);
    }
    ∷ []

-- What an account of the report changes, where `before` is the account of the list before it.
unfoldable pub change_of : Option UserAccount → UserAccount → List UserChange
change_of none u =
    record {
      change = added;
      user = u.name;
      detail = added_detail u;
      admin = some (is_true u.admin);
    }
    ∷ []
change_of (some before) u = changed_by before u (diffs before u)

abbrev pub removal : UserAccount → UserChange
removal u = record {
  change = removed;
  user = u.name;
  detail = if is_true u.admin then codes "was an admin" else codes "account removed";
  admin = none;
}

unfoldable pub new_changes : Accounts → Accounts → List UserChange
unfolding change_of
new_changes prev [] = []
new_changes prev ((k, u) ∷ us) = change_of (account_under k prev) u ++ new_changes prev us

abbrev pub is_none : Option UserAccount → Bool
is_none none = true
is_none (some u) = false

abbrev pub is_missing : Accounts → Text → Bool
is_missing current k = is_none (account_under k current)

abbrev pub removals : Accounts → Accounts → List UserChange
removals current [] = []
removals current ((k, u) ∷ us) =
    let rest = removals current us in if is_missing current k then removal u ∷ rest else rest

module _ (lower : Text → Text) where
  -- `Object.fromEntries` and `new Map` of the accounts by their names, onto the entries that are
  -- there
  unfoldable pub keyed_by_name : Accounts → List UserAccount → Accounts
  keyed_by_name out [] = out
  keyed_by_name out (u ∷ us) = keyed_by_name (set_account (lower u.name) u out) us

module _ (comes_after : Text → Text → Bool) where
  -- A stable sort by `localeCompare`; `comes_after a b` is `a.localeCompare(b) > 0`.
  unfoldable pub insert : UserChange → List UserChange → List UserChange
  insert c [] = c ∷ []
  insert c (d ∷ ds) = if comes_after c.user d.user then d ∷ insert c ds else c ∷ d ∷ ds

  unfoldable pub sort : List UserChange → List UserChange
  unfolding insert
  sort [] = []
  sort (c ∷ cs) = insert c (sort cs)

module _ (lower : Text → Text) (comes_after : Text → Text → Bool) where
  unfoldable pub diff_users : Accounts → List UserAccount → List UserChange
  unfolding keyed_by_name new_changes sort
  diff_users prev users =
      let current = keyed_by_name lower [] users in
      sort comes_after (new_changes prev current ++ removals current prev)
