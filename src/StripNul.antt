-- ===== src/StripNul.antt =====
-- `cleanString`, `truncate` and `stripNul` of engine/src/lib/stripNul.ts.
pub mod Clean
pub mod Truncate
pub mod Json
pub mod Bodies
use looksee.Prelude.{
  ℕ, zero, suc, ◌-◌, Bool, true, false, not, ◌&&◌, ◌||◌, Option, none, some, List, [], ◌∷◌, ◌==◌,
  leb, length, take, keep, if◌then◌else◌,
}
use looksee.Prelude.Text.{Text}

abbrev pub is_high : ℕ → Bool
is_high c = leb 0xd800 c && leb c 0xdbff

abbrev pub is_low : ℕ → Bool
is_low c = leb 0xdc00 c && leb c 0xdfff

abbrev pub begins_low : Text → Bool
begins_low [] = false
begins_low (c ∷ s) = is_low c

-- LONE_SURROGATE at a unit, behind a high half or not, with what follows it
abbrev pub is_lone : Bool → ℕ → Text → Bool
is_lone after_high c rest = is_high c && not (begins_low rest) || is_low c && not after_high

-- `.replace(LONE_SURROGATE, "")`
unfoldable pub drop_lone : Bool → Text → Text
drop_lone after_high [] = []
drop_lone after_high (c ∷ s) =
    let rest = drop_lone (is_high c) s in if is_lone after_high c s then rest else c ∷ rest

unfoldable pub clean_string : Text → Text
clean_string s = drop_lone false (keep (λ c. not (c == 0)) s)

-- `charCodeAt(max - 1)`, which is NaN before the text and behind it
abbrev pub unit_before : Text → ℕ → Option ℕ
unit_before s zero = none
unit_before [] (suc n) = none
unit_before (c ∷ s) (suc zero) = some c
unit_before (c ∷ s) (suc (suc n)) = unit_before s (suc n)

abbrev pub ends_high : Option ℕ → Bool
ends_high none = false
ends_high (some c) = is_high c

unfoldable pub truncate : Text → ℕ → Text
unfolding clean_string drop_lone
truncate s max =
    let clean = clean_string s in
    if leb (length clean) max
    then clean
    else take (if ends_high (unit_before clean max) then max - 1 else max) clean

-- What express.json makes of a body. A number is its literal.
mutual
  pub data JsonValue : Type 0 where
    null : JsonValue
    boolean : Bool → JsonValue
    number : Text → JsonValue
    string : Text → JsonValue
    array : JsonItems → JsonValue
    object : JsonEntries → JsonValue

  pub data JsonItems : Type 0 where
    nil : JsonItems
    cons : JsonValue → JsonItems → JsonItems

  pub data JsonEntries : Type 0 where
    end : JsonEntries
    entry : Text → JsonValue → JsonEntries → JsonEntries
