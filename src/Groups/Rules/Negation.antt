-- ===== src/Groups/Rules/Negation.antt =====
-- `matchesRules` of engine/src/services/groups.ts: a filter and its negation.
use mathlib.Core.Path.{subst}
use looksee.Prelude.{
  ◌≡◌, ◌≢◌, refl, sym, inl, inr, String, Bool, true, false, not, ◌||◌, List, [], ◌∷◌, ◌===◌,
  if◌then◌else◌, any, every, map, All, arith, Bool-cases, eq_iff,
}
use looksee.Prelude.Text.{Text}
use looksee.Groups.Inventory.{Universe}
use looksee.Groups.Rules.{Member, Condition, op_matches, condition_holds, matches_rules}

abbrev pub negate_op : String → String
negate_op op =
    if op === "is"
    then "is_not"
    else if op === "is_not"
    then "is"
    else if op === "contains"
    then "not_contains"
    else if op === "not_contains"
    then "contains"
    else op

abbrev pub negate : Condition → Condition
negate c = record { field = c.field; op = negate_op c.op; value = c.value }

abbrev pub HasNegation : Condition → Type 0
HasNegation c =
    (c.op === "is" || c.op === "is_not" || c.op === "contains" || c.op === "not_contains") ≡ true

module _ (lower : Text → Text) (obj : Member) (u : Universe) where
  -- What the condition with the negated operator says.
  abbrev Negates : String → Text → String → Type 0
  Negates field value op =
      condition_holds lower obj u (record { field = field; op = negate_op op; value = value })
      ≡ not (condition_holds lower obj u (record { field = field; op = op; value = value }))

  not-not : (b : Bool) → b ≡ not (not b)
  not-not true = refl
  not-not false = refl

  condition_holds-negate :
      (field op : String) (value : Text)
      → (op === "is" || op === "is_not" || op === "contains" || op === "not_contains") ≡ true
      → Negates field value op
  unfolding condition_holds op_matches
  condition_holds-negate field op value h = elim (Bool-cases (op === "is")) [
    | inl e ↦ subst (Negates field value) (sym ((eq_iff op "is").0 e)) refl
    | inr is ↦ elim (Bool-cases (op === "is_not")) [
      | inl e ↦ subst (Negates field value) (sym ((eq_iff op "is_not").0 e)) (not-not _)
      | inr is_not ↦ elim (Bool-cases (op === "contains")) [
        | inl e ↦ subst (Negates field value) (sym ((eq_iff op "contains").0 e)) refl
        | inr holds ↦
            subst (Negates field value) (sym ((eq_iff op "not_contains").0 (ground arith)))
              (not-not _)
      ]
    ]
  ]

  any-negate :
      (cs : List Condition)
      → All HasNegation cs
      → any (condition_holds lower obj u) (map negate cs)
        ≡ not (every (condition_holds lower obj u) cs)
  any-negate [] h = refl
  any-negate (c ∷ cs) (hc, h) =
      ground (arith, condition_holds-negate c.field c.op c.value hc, any-negate cs h)

  every-negate :
      (cs : List Condition)
      → All HasNegation cs
      → every (condition_holds lower obj u) (map negate cs)
        ≡ not (any (condition_holds lower obj u) cs)
  every-negate [] h = refl
  every-negate (c ∷ cs) (hc, h) =
      ground (arith, condition_holds-negate c.field c.op c.value hc, every-negate cs h)

  -- A filter that asks for any of some negated conditions selects exactly the objects that the
  -- filter which asks for all of the conditions leaves out, and the other way round; for a filter
  -- with a condition, whose operators are those that have a negation (is, contains). So an object
  -- with several tags has no tag "prod" exactly if it is not one with a tag "prod".
  pub matches_rules-negate :
      (match_any : Bool) (cs : List Condition)
      → cs ≢ []
      → All HasNegation cs
      → matches_rules lower obj (record { match_any = match_any; conditions = map negate cs }) u
        ≡ not (matches_rules lower obj (record { match_any = not match_any; conditions = cs }) u)
  unfolding matches_rules
  matches_rules-negate match_any [] some_one h = absurd (some_one refl)
  matches_rules-negate true (c ∷ cs) some_one h = any-negate (c ∷ cs) h
  matches_rules-negate false (c ∷ cs) some_one h = every-negate (c ∷ cs) h
