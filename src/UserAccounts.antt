-- ===== src/UserAccounts.antt =====
-- engine/src/services/userAccounts.ts: the list of accounts that an agent reports. `lower` is
-- `toLowerCase`.
pub mod Changes
pub mod Judge
pub mod Unique
pub mod Keys
pub mod Quiet
pub mod Admins
use looksee.Prelude.{
  ℕ, zero, suc, Bool, true, false, not, ◌&&◌, ◌||◌, Option, none, some, List, [], ◌∷◌, take, any,
  if◌then◌else◌,
}
use looksee.Prelude.Text.{Text, codes, same}
use looksee.Exclude.Items.{is_filled}
use looksee.StripNul.{
  JsonValue, JsonItems, JsonEntries, null, boolean, number, string, array, object, nil, cons, end,
  entry,
}

pub record UserAccount : Type 0 where
  pub name : Text
  pub uid : Option Text
  pub full_name : Option Text
  pub enabled : Option Bool
  pub admin : Option Bool
  pub system : Option Bool
  pub shell : Option Text
  pub locked : Option Bool
  pub password_last_set : Option Text
  pub last_logon : Option Text

-- `own` of engine/src/lib/own.ts, for the properties of parsed JSON
abbrev pub own : JsonEntries → Text → Option JsonValue
own end k = none
own (entry j v es) k = if same j k then some v else own es k

-- `raw.slice(0, n)`
abbrev slice : ℕ → JsonItems → List JsonValue
slice zero vs = []
slice (suc n) nil = []
slice (suc n) (cons v vs) = v ∷ slice n vs

abbrev text_value : Option JsonValue → Option Text
text_value (some (string s)) = some (take 512 s)
text_value _ = none

abbrev flag_value : Option JsonValue → Option Bool
flag_value (some (boolean b)) = some b
flag_value _ = none

abbrev text : JsonEntries → Text → Option Text
text u k = text_value (own u k)

abbrev flag : JsonEntries → Text → Option Bool
flag u k = flag_value (own u k)

abbrev pub account : Text → JsonEntries → UserAccount
account called u = record {
  name = called;
  uid = text u (codes "uid");
  full_name = text u (codes "fullName");
  enabled = flag u (codes "enabled");
  admin = flag u (codes "admin");
  system = flag u (codes "system");
  shell = text u (codes "shell");
  locked = flag u (codes "locked");
  password_last_set = text u (codes "passwordLastSet");
  last_logon = text u (codes "lastLogon");
}

-- The name of a well-formed entry, and its properties.
abbrev named_value : Option JsonValue → JsonEntries → Option (Text × JsonEntries)
named_value (some (string s)) u = some (take 256 s, u)
named_value _ u = none

abbrev pub named : JsonValue → Option (Text × JsonEntries)
named (object u) = named_value (own u (codes "name")) u
named _ = none

module _ (lower : Text → Text) where
  -- The loop over the entries, with the set `seen` of names in lower case.
  unfoldable pub clean_each : List Text → List JsonValue → List UserAccount
  clean_each seen [] = []
  clean_each seen (r ∷ raw) = elim (named r) [
    | none ↦ clean_each seen raw
    | some (called, u) ↦
        let skipped = clean_each seen raw in
        let pushed = account called u ∷ clean_each (lower called ∷ seen) raw in
        if not (is_filled called) || any (same (lower called)) seen then skipped else pushed
  ]

  -- What is no array, or is missing, is `none`.
  unfoldable pub clean_users : Option JsonValue → Option (List UserAccount)
  unfolding clean_each
  clean_users (some (array vs)) = some (clean_each [] (slice 5000 vs))
  clean_users _ = none
