-- ===== src/StripNul/Json.antt =====
-- `stripNul` and `stripNulBody` of engine/src/lib/stripNul.ts. The order of an object's keys is
-- that of the list.
use looksee.Prelude.{Option, none, some, if◌then◌else◌}
use looksee.Prelude.Text.{Text, same}
use looksee.StripNul.{
  JsonValue, JsonItems, JsonEntries, null, boolean, number, string, array, object, nil, cons, end,
  entry, clean_string,
}

-- A property of an object is set: a key that is there keeps its place.
unfoldable pub define : Text → JsonValue → JsonEntries → JsonEntries
define k v end = entry k v end
define k v (entry j w es) = if same j k then entry k v es else entry j w (define k v es)

-- `Object.fromEntries`, behind the properties that are defined already
unfoldable pub from_entries : JsonEntries → JsonEntries → JsonEntries
unfolding define
from_entries out end = out
from_entries out (entry k v es) = from_entries (define k v out) es

unfoldable mutual
  unfolding from_entries

  pub strip_nul : JsonValue → JsonValue
  strip_nul null = null
  strip_nul (boolean b) = boolean b
  strip_nul (number n) = number n
  strip_nul (string s) = string (clean_string s)
  strip_nul (array vs) = array (strip_items vs)
  strip_nul (object es) = object (from_entries end (strip_entries es))

  pub strip_items : JsonItems → JsonItems
  strip_items nil = nil
  strip_items (cons v vs) = cons (strip_nul v) (strip_items vs)

  pub strip_entries : JsonEntries → JsonEntries
  strip_entries end = end
  strip_entries (entry k v es) = entry (clean_string k) (strip_nul v) (strip_entries es)

-- `req.body`, where `undefined` is `none`
unfoldable pub strip_nul_body : Option JsonValue → Option JsonValue
unfolding strip_nul
strip_nul_body none = none
strip_nul_body (some null) = some null
strip_nul_body (some body) = some (strip_nul body)
