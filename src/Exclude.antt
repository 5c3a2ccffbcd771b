-- ===== src/Exclude.antt =====
-- engine/src/services/probes/exclude.ts: matching an item against exclusion patterns and texts.
-- The positions `pi`, `ni`, `star + 1` and `starNi` are the rests of the pattern and of the name
-- that begin there. `to_lower` is `String.prototype.toLowerCase`.
pub mod Glob
pub mod Items
pub mod Names
pub mod Rounds
use looksee.Prelude.{
  ℕ, zero, suc, ◌+◌, ◌*◌, Bool, true, false, not, ◌&&◌, ◌||◌, Option, none, some, List, [], ◌∷◌,
  ◌==◌, length, any, or_else, if◌then◌else◌,
}
use looksee.Prelude.Text.{Text, same}

-- The last `*`: the pattern behind it, and where in the name it started.
pub record Star : Type 0 where
  pub behind : Text
  pub from : Text

-- `while (p.charAt(pi) === "*") pi++; return pi === p.length`
unfoldable pub only_stars : Text → Bool
only_stars [] = true
only_stars (c ∷ p) = let rest = only_stars p in if c == b'*' then rest else false

abbrev pub tail : Text → Text
tail [] = []
tail (c ∷ s) = s

-- `pi < p.length && (pc === "?" || pc === n.charAt(ni))`
abbrev pub takes : Text → ℕ → Bool
takes [] d = false
takes (c ∷ p) d = c == b'?' || c == d

abbrev pub at_star : Text → Bool
at_star [] = false
at_star (c ∷ p) = c == b'*'

-- The main loop with fuel; `none` means that the fuel ran out.
unfoldable pub glob_loop : ℕ → Text → Text → Option Star → Option Bool
glob_loop zero p n star = none
glob_loop (suc fuel) p [] star = some (only_stars p)
glob_loop (suc fuel) p (d ∷ n) star =
    let advance = glob_loop fuel (tail p) n star in
    let at_new_star =
      glob_loop fuel (tail p) (d ∷ n) (some (record { behind = tail p; from = d ∷ n })) in
    if takes p d then advance else if at_star p then at_new_star else elim star [
      | none ↦ some false
      | some s ↦
          glob_loop fuel s.behind (tail s.from)
            (some (record { behind = s.behind; from = tail s.from }))
    ]

-- The loop makes at most (|name| + 1) * (|pattern| + 1) rounds.
abbrev pub rounds : Text → Text → ℕ
rounds p n = suc (length n * suc (length p) + length p)

abbrev pub glob : Text → Text → Option Bool
glob p n = glob_loop (rounds p n) p n none

abbrev pub includes_unit : Text → ℕ → Bool
includes_unit s c = any (λ d. d == c) s

abbrev pub has_wildcard : Text → Bool
has_wildcard p = includes_unit p b'*' || includes_unit p b'?'

abbrev pub starts : Text → Text → Bool
starts [] s = true
starts (c ∷ p) [] = false
starts (c ∷ p) (d ∷ s) = c == d && starts p s

-- String.includes
unfoldable pub contains : Text → Text → Bool
contains item [] = starts item []
contains item (c ∷ s) = starts item (c ∷ s) || contains item s

module _ (to_lower : Text → Text) where
  unfoldable pub glob_match : Text → Text → Bool
  glob_match pattern name = or_else (glob (to_lower pattern) (to_lower name)) false

  abbrev pub pattern_matches : Text → Text → Bool
  pattern_matches name p =
      if has_wildcard p then glob_match p name else same (to_lower p) (to_lower name)

  unfoldable pub name_excluded : Option Text → List Text → Bool
  name_excluded none patterns = false
  name_excluded (some []) patterns = false
  name_excluded (some (c ∷ s)) patterns = any (pattern_matches (c ∷ s)) patterns

  unfoldable pub text_excluded : Option Text → List Text → Bool
  unfolding contains
  text_excluded none items = false
  text_excluded (some []) items = false
  text_excluded (some (c ∷ s)) items = any (λ i. contains (to_lower i) (to_lower (c ∷ s))) items
