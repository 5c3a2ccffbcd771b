-- ===== src/StripNul/Bodies.antt =====
-- `stripNul` of engine/src/lib/stripNul.ts on whole request bodies.
use looksee.Prelude.{◌≡◌, ◌↔◌, refl, ap, ◌∙◌, inl, inr, Bool, true, false, ◌||◌, arith, Bool-cases}
use mathlib.Core.Path.{subst}
use looksee.Prelude.Text.{Text, same}
use looksee.Prelude.Same.{same_sym, same_trans}
use looksee.StripNul.{
  JsonValue, JsonItems, JsonEntries, null, boolean, number, string, array, object, nil, cons, end,
  entry,
}
use looksee.StripNul.Clean.{Storable, clean_string-Storable}
use looksee.StripNul.Json.{define, from_entries, strip_nul, strip_items, strip_entries}

abbrev has : Text → JsonEntries → Bool
has k end = false
has k (entry j v es) = same j k || has k es

-- What PostgreSQL stores in a jsonb column: every text in it can be stored, the keys too, which
-- differ.
unfoldable mutual
  pub StorableValue : JsonValue → Type 0
  StorableValue null = Unit
  StorableValue (boolean b) = Unit
  StorableValue (number n) = Unit
  StorableValue (string s) = Storable s
  StorableValue (array vs) = StorableItems vs
  StorableValue (object es) = StorableEntries es × DistinctKeys es

  pub StorableItems : JsonItems → Type 0
  StorableItems nil = Unit
  StorableItems (cons v vs) = StorableValue v × StorableItems vs

  pub StorableEntries : JsonEntries → Type 0
  StorableEntries end = Unit
  StorableEntries (entry k v es) = Storable k × StorableValue v × StorableEntries es

  pub DistinctKeys : JsonEntries → Type 0
  DistinctKeys end = Unit
  DistinctKeys (entry k v es) = (has k es ≡ false) × DistinctKeys es

has-same : (k i : Text) (es : JsonEntries) → same i k ≡ true → has i es ≡ has k es
has-same k i end h = refl
has-same k i (entry j v es) h =
    ground (arith, has-same k i es, same_sym j i, same_sym j k, same_trans i k j)

has-define :
    (j k : Text) (v : JsonValue) (es : JsonEntries) → has j (define k v es) ≡ has j es || same k j
unfolding define
has-define j k v end = ground arith
has-define j k v (entry i w es) = elim (Bool-cases (same i k)) [
  | inl here ↦ rw here (ground (arith, same_sym i k, same_trans k i j))
  | inr later ↦ rw later (ground (arith, has-define j k v es))
]

define-StorableEntries :
    (k : Text) (v : JsonValue) (es : JsonEntries)
    → Storable k
    → StorableValue v
    → StorableEntries es
    → StorableEntries (define k v es)
unfolding define StorableValue
define-StorableEntries k v end hk hv h = (hk, hv, tt)
define-StorableEntries k v (entry i w es) hk hv (hi, hw, h) = elim (Bool-cases (same i k)) [
  | inl here ↦ rw here (hk, hv, h)
  | inr later ↦ rw later (hi, hw, define-StorableEntries k v es hk hv h)
]

define-DistinctKeys :
    (k : Text) (v : JsonValue) (es : JsonEntries) → DistinctKeys es → DistinctKeys (define k v es)
unfolding define StorableValue
define-DistinctKeys k v end h = (refl, tt)
define-DistinctKeys k v (entry i w es) (new, h) = elim (Bool-cases (same i k)) [
  | inl here ↦ rw here (ground (arith, same_sym i k, has-same k i es), h)
  | inr later ↦
      rw later (ground (arith, has-define i k v es, same_sym i k), define-DistinctKeys k v es h)
]

from_entries-Storable :
    (out es : JsonEntries)
    → StorableEntries out
    → DistinctKeys out
    → StorableEntries es
    → StorableEntries (from_entries out es) × DistinctKeys (from_entries out es)
unfolding from_entries StorableValue
from_entries-Storable out end hs hd h = (hs, hd)
from_entries-Storable out (entry k v es) hs hd (hk, hv, h) =
    from_entries-Storable (define k v out) es (define-StorableEntries k v out hk hv hs)
      (define-DistinctKeys k v out hd) h

mutual
  unfolding strip_nul StorableValue

  strip_value : (v : JsonValue) → StorableValue (strip_nul v)
  strip_value null = tt
  strip_value (boolean b) = tt
  strip_value (number n) = tt
  strip_value (string s) = (clean_string-Storable s).0
  strip_value (array vs) = strip_items_lem vs
  strip_value (object es) =
      from_entries-Storable end (strip_entries es) tt tt (strip_entries_lem es)

  strip_items_lem : (vs : JsonItems) → StorableItems (strip_items vs)
  strip_items_lem nil = tt
  strip_items_lem (cons v vs) = (strip_value v, strip_items_lem vs)

  strip_entries_lem : (es : JsonEntries) → StorableEntries (strip_entries es)
  strip_entries_lem end = tt
  strip_entries_lem (entry k v es) =
      ((clean_string-Storable k).0, strip_value v, strip_entries_lem es)

join : JsonEntries → JsonEntries → JsonEntries
join end es = es
join (entry k v out) es = entry k v (join out es)

-- No key of `es` is one of `out`.
Apart : JsonEntries → JsonEntries → Type 0
Apart out end = Unit
Apart out (entry k v es) = (has k out ≡ false) × Apart out es

define_new :
    (k : Text) (v : JsonValue) (out : JsonEntries)
    → has k out ≡ false
    → define k v out ≡ join out (entry k v end)
unfolding define join
define_new k v end h = refl
define_new k v (entry j w out) h = ground (arith, define_new k v out)

join-join :
    (out : JsonEntries) (k : Text) (v : JsonValue) (es : JsonEntries)
    → join (join out (entry k v end)) es ≡ join out (entry k v es)
unfolding join
join-join end k v es = refl
join-join (entry j w out) k v es = ap (λ r. entry j w r) (join-join out k v es)

Apart-define :
    (k : Text) (v : JsonValue) (out es : JsonEntries)
    → has k es ≡ false
    → Apart out es
    → Apart (define k v out) es
unfolding Apart
Apart-define k v out end new h = tt
Apart-define k v out (entry j w es) new (hj, h) =
    (ground (arith, has-define j k v out, same_sym j k), Apart-define k v out es (ground arith) h)

from_entries-join :
    (out es : JsonEntries) → Apart out es → DistinctKeys es → from_entries out es ≡ join out es
unfolding from_entries join Apart StorableValue
from_entries-join end end h d = refl
from_entries-join (entry k v out) end h d = ap (λ r. entry k v r) (from_entries-join out end tt tt)
from_entries-join out (entry k v es) (hk, h) (new, d) =
    from_entries-join (define k v out) es (Apart-define k v out es new h) d
    ∙ ap (λ r. join r es) (define_new k v out hk)
    ∙ join-join out k v es

Apart-end : (es : JsonEntries) → Apart end es
unfolding Apart
Apart-end end = tt
Apart-end (entry k v es) = (refl, Apart-end es)

mutual
  unfolding strip_nul StorableValue join

  value_same : (v : JsonValue) → StorableValue v → strip_nul v ≡ v
  value_same null h = refl
  value_same (boolean b) h = refl
  value_same (number n) h = refl
  value_same (string s) h = ap (λ r. string r) (((clean_string-Storable s).1).0 h)
  value_same (array vs) h = ap (λ r. array r) (items_same vs h)
  value_same (object es) (h, d) =
      ap (λ r. object (from_entries end r)) (entries_same es h)
      ∙ ap (λ r. object r) (from_entries-join end es (Apart-end es) d)

  items_same : (vs : JsonItems) → StorableItems vs → strip_items vs ≡ vs
  items_same nil h = refl
  items_same (cons v vs) (hv, h) = ground (arith, value_same v hv, items_same vs h)

  entries_same : (es : JsonEntries) → StorableEntries es → strip_entries es ≡ es
  entries_same end h = refl
  entries_same (entry k v es) (hk, hv, h) =
      ground (arith, ((clean_string-Storable k).1).0 hk, value_same v hv, entries_same es h)

-- Whatever a body holds, at any depth, stripNul makes of it one that can be stored: no text and no
-- key has a NUL or a half of a surrogate pair, and the keys of each object differ. A body comes
-- back as it is exactly if it can be stored.
pub strip_nul-StorableValue :
    (v : JsonValue) → StorableValue (strip_nul v) × (StorableValue v ↔ (strip_nul v ≡ v))
strip_nul-StorableValue v =
    (strip_value v, (value_same v, λ e. subst StorableValue e (strip_value v)))
