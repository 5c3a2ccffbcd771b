-- ===== src/Timeouts/Pattern.antt =====
-- TIMEOUT_PATTERN of engine/src/services/timeouts.ts, as a matcher over code units:
-- /timed ?out|\btimeout\b|ETIMEDOUT|deadline exceeded|\bno (udp )?(reply|response)\b/i
-- Without the `u` flag `i` folds no other unit onto an ASCII letter, so ASCII folding is exact.
use looksee.Prelude.{String, Bool, true, false, not, ◌&&◌, ◌||◌, [], ◌∷◌, ◌==◌}
use looksee.Prelude.Text.{Text, codes, lower_unit, is_word}

-- `\b` behind a word unit: the end of the text, or a unit that is not a word unit.
abbrev ends_word : Text → Bool
ends_word [] = true
ends_word (c ∷ s) = not (is_word c)

-- Does the (lower-case) word stand here, with `after` true of what follows?
abbrev word_then : Text → (Text → Bool) → Text → Bool
word_then [] after s = after s
word_then (w ∷ ws) after [] = false
word_then (w ∷ ws) after (c ∷ s) = w == lower_unit c && word_then ws after s

abbrev word : String → (Text → Bool) → Text → Bool
word w = word_then (codes w)

abbrev anything : Text → Bool
anything s = true

abbrev reply_or_response : Text → Bool
reply_or_response s = word "reply" ends_word s || word "response" ends_word s

-- One alternative of the pattern matches here. `boundary` says whether `\b` holds before a word
-- unit at this place.
abbrev matches_here : (boundary : Bool) → Text → Bool
matches_here boundary s =
    word "timedout" anything s
    || word "timed out" anything s
    || boundary && word "timeout" ends_word s
    || word "etimedout" anything s
    || word "deadline exceeded" anything s
    || boundary && (word "no " reply_or_response s || word "no udp " reply_or_response s)

abbrev matches_from : (boundary : Bool) → Text → Bool
matches_from boundary [] = matches_here boundary []
matches_from boundary (c ∷ s) = matches_here boundary (c ∷ s) || matches_from (not (is_word c)) s

-- TIMEOUT_PATTERN.test(message)
unfoldable pub matches_timeout : Text → Bool
matches_timeout s = matches_from true s
