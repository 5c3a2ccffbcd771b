-- ===== src/Groups/Saving.antt =====
-- `validateRules` of engine/src/services/groups.ts. A condition has what `String` makes of the
-- fields that the request sends, and no value where that is null.
pub mod Valid
use looksee.Prelude.{
  ℕ, String, Bool, true, false, not, ◌&&◌, ◌||◌, Option, none, some, List, [], ◌∷◌, ◌===◌, ltb,
  length, take, includes, if◌then◌else◌, or_else,
}
use looksee.Prelude.Text.{Text}
use looksee.Groups.Rules.{MemberType, location, site, endpoint, check, Condition, GroupRules}

abbrev pub filter_ops : List String
filter_ops = "is" ∷ "is_not" ∷ "contains" ∷ "not_contains" ∷ "starts_with" ∷ "ends_with" ∷ []

-- The names in FILTER_FIELDS.
abbrev pub filter_fields : MemberType → List String
filter_fields location = "name" ∷ "description" ∷ []
filter_fields site = "name" ∷ "description" ∷ "location" ∷ "collector" ∷ "status" ∷ []
filter_fields endpoint =
    "name" ∷ "hostname" ∷ "os" ∷ "tag" ∷ "site" ∷ "location" ∷ "agent" ∷ "agentVersion" ∷ "status"
    ∷ []
filter_fields check =
    "name" ∷ "type" ∷ "tag" ∷ "status" ∷ "enabled" ∷ "endpoint" ∷ "site" ∷ "location" ∷ []

-- MEMBER_TYPES
abbrev pub member_type : String → Option MemberType
member_type t =
    if t === "location"
    then some location
    else if t === "site"
    then some site
    else if t === "endpoint"
    then some endpoint
    else if t === "check"
    then some check
    else none

pub record SentCondition : Type 0 where
  pub field : String
  pub op : String
  pub value : Option Text

-- The rules of a request; `conditions` is `none` if it is no list.
pub record SentRules : Type 0 where
  pub match_any : Bool
  pub conditions : Option (List SentCondition)

pub data RuleError : Type 0 where
  bad_target no_list too_many : RuleError
  unknown_field unknown_op : String → RuleError

pub data Validated {ℓ} (A : Type ℓ) : Type ℓ where
  valid : A → Validated A
  error : RuleError → Validated A

abbrev pub clean_condition : SentCondition → Condition
clean_condition c = record { field = c.field; op = c.op; value = take 200 (or_else c.value []) }

abbrev pub then_add : Condition → Validated (List Condition) → Validated (List Condition)
then_add c (valid cs) = valid (c ∷ cs)
then_add c (error e) = error e

unfoldable pub clean_conditions : MemberType → List SentCondition → Validated (List Condition)
clean_conditions t [] = valid []
clean_conditions t (c ∷ cs) =
    let rest = then_add (clean_condition c) (clean_conditions t cs) in
    if not (includes (filter_fields t) c.field)
    then error (unknown_field c.field)
    else if not (includes filter_ops c.op)
    then error (unknown_op c.op)
    else rest

abbrev pub with_match :
    MemberType → Bool → Validated (List Condition) → Validated (MemberType × GroupRules)
with_match t match_any (valid cs) = valid (t, record { match_any = match_any; conditions = cs })
with_match t match_any (error e) = error e

abbrev pub validate_list :
    MemberType → Bool → Option (List SentCondition) → Validated (MemberType × GroupRules)
validate_list t match_any none = error no_list
validate_list t match_any (some cs) =
    if ltb 20 (length cs) then error too_many else with_match t match_any (clean_conditions t cs)

abbrev pub validate_for : Option MemberType → SentRules → Validated (MemberType × GroupRules)
validate_for none rules = error bad_target
validate_for (some t) rules = validate_list t rules.match_any rules.conditions

unfoldable pub validate_rules : String → SentRules → Validated (MemberType × GroupRules)
unfolding clean_conditions
validate_rules target rules = validate_for (member_type target) rules
