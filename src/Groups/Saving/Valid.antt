-- ===== src/Groups/Saving/Valid.antt =====
-- `validateRules` of engine/src/services/groups.ts: the rules that it lets through.
use looksee.Prelude.{
  ℕ, zero, suc, ◌≤◌, ◌≡◌, refl, ap, ◌∙◌, inl, inr, String, Bool, true, false, Option, none, some,
  List, [], ◌∷◌, ltb, length, length-take, take, includes, map, or_else, All, arith, Bool-cases,
  Option-cases,
}
use mathlib.Core.Path.{subst}
use looksee.Prelude.Text.{Text}
use looksee.Groups.Rules.{MemberType, Condition, GroupRules}
use looksee.Groups.Saving.{
  filter_ops, filter_fields, member_type, SentCondition, SentRules, Validated, valid, error,
  clean_condition, then_add, clean_conditions, with_match, validate_list, validate_rules,
}

abbrev pub SavedCondition : MemberType → Condition → Type 0
SavedCondition t c =
    (includes (filter_fields t) c.field ≡ true)
    × (includes filter_ops c.op ≡ true)
    × (length c.value ≤ 200)

abbrev pub Saved : MemberType → GroupRules → Type 0
Saved t rules = (length rules.conditions ≤ 20) × All (SavedCondition t) rules.conditions

-- Saved rules, sent as they are.
abbrev pub sent_condition : Condition → SentCondition
sent_condition c = record { field = c.field; op = c.op; value = some c.value }

abbrev pub as_sent : GroupRules → SentRules
as_sent rules = record {
  match_any = rules.match_any;
  conditions = some (map sent_condition rules.conditions);
}

then_add_valid :
    (c : Condition) (r : Validated (List Condition)) (cs : List Condition)
    → then_add c r ≡ valid cs
    → (ds : List Condition) × (r ≡ valid ds) × (cs ≡ c ∷ ds)
then_add_valid c (valid ds) cs h = (ds, refl, cc)
then_add_valid c (error e) cs h = cc

clean_conditions-Saved :
    (t : MemberType) (sent : List SentCondition) (cs : List Condition)
    → clean_conditions t sent ≡ valid cs
    → (length cs ≡ length sent) × All (SavedCondition t) cs
unfolding clean_conditions
clean_conditions-Saved t [] [] h = (refl, tt)
clean_conditions-Saved t [] (c ∷ cs) h = cc
clean_conditions-Saved t (s ∷ sent) cs h = elim (Bool-cases (includes (filter_fields t) s.field)) [
  | inr unknown ↦ absurd (ground arith)
  | inl field ↦ elim (Bool-cases (includes filter_ops s.op)) [
    | inr unknown ↦ absurd (ground arith)
    | inl op ↦
        let (ds, e, d) =
          then_add_valid (clean_condition s) (clean_conditions t sent) cs (rw (field, op) at h) in
        let (size, all) = clean_conditions-Saved t sent ds e in
        rw d (omega arith, ((field, op, omega (arith, length-take 200 (or_else s.value []))), all))
  ]
]

take_all : (n : ℕ) (s : Text) → length s ≤ n → take n s ≡ s
take_all zero [] h = refl
take_all zero (c ∷ s) h = absurd (omega arith)
take_all (suc n) [] h = refl
take_all (suc n) (c ∷ s) h = ap (λ r. c ∷ r) (take_all n s (omega arith))

length-sent : (cs : List Condition) → length (map sent_condition cs) ≡ length cs
length-sent [] = refl
length-sent (c ∷ cs) = ap (λ (n : ℕ). suc n) (length-sent cs)

clean_conditions_same :
    (t : MemberType) (cs : List Condition)
    → All (SavedCondition t) cs
    → clean_conditions t (map sent_condition cs) ≡ valid cs
unfolding clean_conditions
clean_conditions_same t [] h = refl
clean_conditions_same t (c ∷ cs) ((field, op, short), h) =
    rw (field, op, clean_conditions_same t cs h)
      (ap (λ v. valid (record { field = c.field; op = c.op; value = v } ∷ cs))
        (take_all 200 c.value short))

validate_list_same :
    (t : MemberType) (rules : GroupRules)
    → Saved t rules
    → validate_list t rules.match_any (some (map sent_condition rules.conditions))
      ≡ valid (t, rules)
validate_list_same t rules (size, all) =
    let few : ltb 20 (length (map sent_condition rules.conditions)) ≡ false =
      ground (arith, length-sent rules.conditions) in
    rw (few, clean_conditions_same t rules.conditions all) refl

with_match_valid :
    (t t' : MemberType) (b : Bool) (r : Validated (List Condition)) (rules : GroupRules)
    → with_match t b r ≡ valid (t', rules)
    → (t ≡ t') × (r ≡ valid rules.conditions)
with_match_valid t t' b (valid cs) rules h = (cc, cc)
with_match_valid t t' b (error e) rules h = cc

validate_list-Saved :
    (t t' : MemberType) (b : Bool) (sent : Option (List SentCondition)) (rules : GroupRules)
    → validate_list t b sent ≡ valid (t', rules)
    → (t ≡ t') × Saved t rules
validate_list-Saved t t' b none rules h = cc
validate_list-Saved t t' b (some sent) rules h = elim (Bool-cases (ltb 20 (length sent))) [
  | inl many ↦ absurd (ground arith)
  | inr few ↦
      let (same_type, e) = with_match_valid t t' b (clean_conditions t sent) rules (rw few at h) in
      let (size, all) = clean_conditions-Saved t sent rules.conditions e in
      (same_type, (ground arith, all))
]

-- The rules that validateRules lets through are for the kind that was asked for, with at most 20
-- conditions, each on a field of that kind and by one of the operators, with a value of at most 200
-- units; and sent again as they are, they pass unchanged.
pub validate_rules-Saved :
    (target : String) (sent : SentRules) (t : MemberType) (rules : GroupRules)
    → validate_rules target sent ≡ valid (t, rules)
    → (member_type target ≡ some t)
      × Saved t rules
      × (validate_rules target (as_sent rules) ≡ valid (t, rules))
unfolding validate_rules
validate_rules-Saved target sent t rules h = elim (Option-cases (member_type target)) [
  | inl nothing ↦ absurd (ground arith)
  | inr (k, e) ↦
      let (same_type, saved) =
        validate_list-Saved k t sent.match_any sent.conditions rules (rw e at h) in
      let saved' : Saved t rules = subst (λ x. Saved x rules) same_type saved in
      let found : member_type target ≡ some t = e ∙ ap some same_type in
      (found, saved', rw found (validate_list_same t rules saved'))
]
