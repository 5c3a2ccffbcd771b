-- ===== src/Groups/Members/Tidy.antt =====
-- `resolveGroup` of engine/src/services/groups.ts on a group with listed members.
use mathlib.Core.List.{append-nil, append_assoc}
use looksee.Prelude.{
  ◌≡◌, refl, sym, ap, ◌∙◌, inl, inr, String, Bool, true, false, not, ◌&&◌, ◌||◌, Option, none, some,
  List, [], ◌∷◌, ◌++◌, ◌===◌, map, keep, includes, if◌then◌else◌, arith, Bool-cases, eq_iff,
}
use looksee.Prelude.Text.{Text}
use looksee.Prelude.Sets.{Distinct}
use looksee.Groups.Inventory.{Universe}
use looksee.Groups.Rules.{MemberType, location, site, endpoint, check}
use looksee.Groups.Saving.{member_type}
use looksee.Groups.Members.{
  Group, Membership, Resolved, nobody, list_for, push, push_as, still_there, exists_as,
  sort_members, of_group, without, resolve_group,
}

abbrev pub is_type : MemberType → Option MemberType → Bool
is_type location (some location) = true
is_type site (some site) = true
is_type endpoint (some endpoint) = true
is_type check (some check) = true
is_type t k = false

list_for-push :
    (k t : MemberType) (id : String) (out : Resolved)
    → list_for (push k id out) t ≡ list_for out t ++ (if is_type t (some k) then id ∷ [] else [])
list_for-push location location id out = refl
list_for-push location site id out = sym (append-nil _)
list_for-push location endpoint id out = sym (append-nil _)
list_for-push location check id out = sym (append-nil _)
list_for-push site location id out = sym (append-nil _)
list_for-push site site id out = refl
list_for-push site endpoint id out = sym (append-nil _)
list_for-push site check id out = sym (append-nil _)
list_for-push endpoint location id out = sym (append-nil _)
list_for-push endpoint site id out = sym (append-nil _)
list_for-push endpoint endpoint id out = refl
list_for-push endpoint check id out = sym (append-nil _)
list_for-push check location id out = sym (append-nil _)
list_for-push check site id out = sym (append-nil _)
list_for-push check endpoint id out = sym (append-nil _)
list_for-push check check id out = refl

if_map :
    (b : Bool) (m : Membership) (ms : List Membership)
    → (if b then m.member_id ∷ map (λ m. m.member_id) ms else map (λ m. m.member_id) ms)
      ≡ map (λ m. m.member_id) (if b then m ∷ ms else ms)
if_map true m ms = refl
if_map false m ms = refl

keep-keep :
    (p q : Membership → Bool) (ms : List Membership)
    → keep q (keep p ms) ≡ keep (λ m. p m && q m) ms
keep-keep p q [] = refl
keep-keep p q (m ∷ ms) = elim (Bool-cases (p m)) [
  | inl b ↦ simp b (elim (Bool-cases (q m)) [
    | inl d ↦ simp d (ap (λ l. m ∷ l) (keep-keep p q ms))
    | inr d ↦ simp d (keep-keep p q ms)
  ])
  | inr b ↦ simp b (keep-keep p q ms)
]

-- A membership whose id is not in the list is not told from the others by it.
keep_other :
    (i : String) (q : Membership → Bool) (ids : List String) (ms : List Membership)
    → includes (map (λ m. m.id) ms) i ≡ false
    → keep (λ m. not (i === m.id || includes ids m.id)) ms ≡ keep (λ m. not (includes ids m.id)) ms
keep_other i q ids [] h = refl
keep_other i q ids (m ∷ ms) h = ground (arith, keep_other i q ids ms, eq_iff i m.id, eq_iff m.id i)

includes-ids :
    (p : Membership → Bool) (i : String) (ms : List Membership)
    → includes (map (λ m. m.id) ms) i ≡ false
    → includes (map (λ m. m.id) (keep p ms)) i ≡ false
includes-ids p i [] h = refl
includes-ids p i (m ∷ ms) h = ground (arith, includes-ids p i ms)

-- Rows that are deleted by their ids are those that were chosen, since ids differ.
without_chosen :
    (p : Membership → Bool) (ms : List Membership)
    → Distinct (map (λ m. m.id) ms)
    → without (map (λ m. m.id) (keep p ms)) ms ≡ keep (λ m. not (p m)) ms
without_chosen p [] h = refl
without_chosen p (m ∷ ms) (new, h) =
    let ids = map (λ x. x.id) (keep p ms) in
    elim (Bool-cases (p m)) [
      | inl b ↦ ground (arith, eq_iff m.id m.id, keep_other m.id p ids ms, without_chosen p ms h)
      | inr b ↦ ground (arith, includes-ids p m.id ms, without_chosen p ms h)
    ]

module _ (u : Universe) where
  -- A membership of an object of the kind that exists.
  abbrev pub counts : MemberType → Membership → Bool
  counts t m = still_there u m && is_type t (member_type m.member_type)

  abbrev ids_counted : MemberType → List Membership → List String
  ids_counted t ms = map (λ m. m.member_id) (keep (counts t) ms)

  one_more :
      (t : MemberType) (k : Option MemberType) (id : String) (out : Resolved) (ids : List String)
      → exists_as u k id ≡ true
      → list_for (push_as k id out) t ++ ids
        ≡ list_for out t ++ (if is_type t k then id ∷ ids else ids)
  one_more t none id out ids h = cc
  one_more t (some k) id out ids h = elim (Bool-cases (is_type t (some k))) [
    | inl own ↦ rw own (
        ap (λ l. l ++ ids) (list_for-push k t id out)
        ∙ rw own (append_assoc (list_for out t) (id ∷ []) ids))
    | inr other ↦ rw other (
        ap (λ l. l ++ ids) (list_for-push k t id out)
        ∙ rw other (ap (λ l. l ++ ids) (append-nil (list_for out t))))
  ]

  sort_members_lem :
      (t : MemberType) (ms : List Membership) (out : Resolved)
      → (list_for ((sort_members u ms out).0) t ≡ list_for out t ++ ids_counted t ms)
        × ((sort_members u ms out).1 ≡ map (λ m. m.id) (keep (λ m. not (still_there u m)) ms))
  unfolding sort_members
  sort_members_lem t [] out = (sym (append-nil _), refl)
  sort_members_lem t (m ∷ ms) out = elim (Bool-cases (still_there u m)) [
    | inr gone ↦
        let (lists, ids) = sort_members_lem t ms out in rw gone (lists, ap (λ l. m.id ∷ l) ids)
    | inl kept ↦
        let (lists, ids) =
          sort_members_lem t ms (push_as (member_type m.member_type) m.member_id out) in
        rw kept (
          lists
              ∙ one_more t (member_type m.member_type) m.member_id out (ids_counted t ms) kept
              ∙ ap (λ l. list_for out t ++ l)
                  (if_map (is_type t (member_type m.member_type)) m (keep (counts t) ms)),
          ids,
        )
  ]

list_for-nobody : (t : MemberType) (ids : List String) → list_for nobody t ++ ids ≡ ids
list_for-nobody location ids = refl
list_for-nobody site ids = refl
list_for-nobody endpoint ids = refl
list_for-nobody check ids = refl

-- A group with listed members holds, of each kind, exactly its members of that kind which still
-- exist, in the order of the table; and of the table exactly its memberships of objects that are
-- gone are deleted, where the ids of the rows differ.
pub resolve_group-listed :
    (lower : Text → Text) (g : Group) (u : Universe) (table : List Membership) (t : MemberType)
    → g.kind === "filter" ≡ false
    → Distinct (map (λ m. m.id) table)
    → (list_for ((resolve_group lower g u table).0) t
        ≡ map (λ m. m.member_id) (keep (λ m. m.group_id === g.id && counts u t m) table))
      × ((resolve_group lower g u table).1
          ≡ keep (λ m. not (m.group_id === g.id && not (still_there u m))) table)
unfolding resolve_group
resolve_group-listed lower g u table t listed distinct =
    let own = λ (m : Membership). m.group_id === g.id in
    let (lists, gone) = sort_members_lem u t (of_group g table) nobody in
    rw listed (
      lists
          ∙ list_for-nobody t (ids_counted u t (of_group g table))
          ∙ ap (λ l. map (λ m. m.member_id) l) (keep-keep own (counts u t) table),
      ap (λ l. without l table) gone
          ∙ ap (λ l. without (map (λ m. m.id) l) table)
              (keep-keep own (λ m. not (still_there u m)) table)
          ∙ without_chosen (λ m. own m && not (still_there u m)) table distinct,
    )
