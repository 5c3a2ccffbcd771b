-- ===== src/Tests/Bodies.antt =====
-- Texts and bodies that clients send, on concrete inputs.
use looksee.Prelude.{◌≡◌, ◌↔◌, refl, [], ◌∷◌, ◌++◌}
use looksee.Prelude.Text.{Text, codes}
use looksee.StripNul.{
  JsonValue, null, string, object, end, entry, drop_lone, clean_string, truncate,
}
use looksee.StripNul.Json.{define, from_entries, strip_nul}
use looksee.StripNul.Bodies.{StorableValue, strip_nul-StorableValue}

-- A padded name with a whole pair and a half of one.
abbrev padded : Text
padded = codes "Tool" ++ 0xd83d ∷ 0xde00 ∷ 0xd83d ∷ 0 ∷ 0 ∷ []

cleaned : clean_string padded ≡ codes "Tool" ++ 0xd83d ∷ 0xde00 ∷ []
unfolding clean_string drop_lone
cleaned = refl

cut_in_pair : truncate padded 5 ≡ codes "Tool"
unfolding truncate clean_string drop_lone
cut_in_pair = refl

abbrev two_keys : JsonValue
two_keys = object (entry (codes "a") null (entry (codes "a" ++ 0 ∷ []) (string padded) end))

-- Cleaning makes the keys equal, and the later value counts.
merged : strip_nul two_keys ≡ object (entry (codes "a") (string (clean_string padded)) end)
unfolding strip_nul from_entries define clean_string drop_lone
merged = refl

strip_nul-StorableValue_example :
    StorableValue (strip_nul two_keys) × (StorableValue two_keys ↔ (strip_nul two_keys ≡ two_keys))
strip_nul-StorableValue_example = strip_nul-StorableValue two_keys
