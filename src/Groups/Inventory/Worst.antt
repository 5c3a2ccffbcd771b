-- ===== src/Groups/Inventory/Worst.antt =====
-- The statuses that `loadUniverse` of engine/src/services/groups.ts gives to sites and endpoints.
use mathlib.Core.List.{append-nil, append_assoc}
use mathlib.Core.Path.{subst}
use looksee.Prelude.{
  ℕ, ◌≤◌, ◌≡◌, refl, sym, inl, inr, String, Bool, true, false, not, ◌&&◌, Option, none, some, List,
  [], ◌∷◌, ◌++◌, ◌===◌, ltb, if◌then◌else◌, keep, map, includes, or_else, All, All-append, arith,
  Bool-cases, eq_iff,
}
use looksee.Prelude.Sets.{any-append}
use looksee.Groups.Inventory.{
  LocationRow, SiteRow, EndpointRow, CheckRow, Statuses, status_rank, worse_status, worsen,
  worsen_if, update_each, update_site, update_endpoint, load_universe,
}

-- The worst of a list of statuses, one that is not there if the list is empty.
abbrev pub IsWorst : Option String → List String → Type 0
IsWorst none statuses = statuses ≡ []
IsWorst (some w) statuses =
    (includes statuses w ≡ true)
    × (w === "" ≡ false)
    × All (λ s. status_rank s ≤ status_rank w) statuses

abbrev pub known : CheckRow → String
known c = or_else c.last_status "unknown"

-- The statuses of the enabled checks that belong to something.
abbrev pub statuses_where : (CheckRow → Bool) → List CheckRow → List String
statuses_where p checks = map known (keep (λ c. c.enabled && p c) checks)

abbrev pub of_endpoint_id : String → Option String → Bool
of_endpoint_id k none = false
of_endpoint_id k (some id) = not (id === "") && id === k

All-le :
    (a b : ℕ) (xs : List String)
    → a ≤ b
    → All (λ s. status_rank s ≤ a) xs
    → All (λ s. status_rank s ≤ b) xs
All-le a b [] le h = tt
All-le a b (x ∷ xs) le (hx, h) = (omega arith, All-le a b xs le h)

worse_status-IsWorst :
    (old : Option String) (s : String) (acc : List String)
    → s === "" ≡ false
    → IsWorst old acc
    → IsWorst (worse_status old (some s)) (acc ++ s ∷ [])
unfolding worse_status
worse_status-IsWorst none s acc new h = rw h (ground (arith, eq_iff s s), new, (omega arith, tt))
worse_status-IsWorst (some a) s acc new (there, given, all) =
    rw (given, new)
      (elim (Bool-cases (ltb (status_rank a) (status_rank s))) [
        | inl worse ↦ rw worse (
          ground (arith, any-append (λ x. x === s) acc (s ∷ []), eq_iff s s),
          new,
          All-append _ acc (s ∷ []) (All-le (status_rank a) (status_rank s) acc (ground arith) all)
              (omega arith, tt),
        )
        | inr held ↦ rw held (
          ground (arith, any-append (λ x. x === a) acc (s ∷ [])),
          given,
          All-append _ acc (s ∷ []) all (ground arith, tt),
        )
      ])

-- No check has the empty text for its status.
abbrev pub NamedStatuses : List CheckRow → Type 0
NamedStatuses checks = All (λ c. known c === "" ≡ false) checks

abbrev appended : Bool → List String → String → List String
appended own acc s = if own then acc ++ s ∷ [] else acc

worsen-IsWorst :
    (key k : String) (status : Option String) (st : Statuses) (acc : List String)
    → or_else status "unknown" === "" ≡ false
    → IsWorst (st k) acc
    → IsWorst (worsen key status st k) (appended (key === k) acc (or_else status "unknown"))
worsen-IsWorst key k status st acc name h = elim (Bool-cases (key === k)) [
  | inr other ↦ rw other h
  | inl own ↦ rw own (
      worse_status-IsWorst (st key) (or_else status "unknown") acc name
        (subst (λ x. IsWorst (st x) acc) (sym ((eq_iff key k).0 own)) h))
]

module _ (update : CheckRow → Statuses → Statuses) (p : CheckRow → Bool) (k : String) where
  -- An update worsens what belongs to `k`.
  abbrev Worsens : Type 0
  Worsens =
      (c : CheckRow) (st : Statuses) (acc : List String)
      → known c === "" ≡ false
      → IsWorst (st k) acc
      → IsWorst (update c st k) (appended (p c) acc (known c))

  update_each-IsWorst :
      (checks : List CheckRow) (st : Statuses) (acc : List String)
      → Worsens
      → NamedStatuses checks
      → IsWorst (st k) acc
      → IsWorst (update_each update checks st k) (acc ++ statuses_where p checks)
  unfolding update_each
  update_each-IsWorst [] st acc worsens named h =
      subst (λ l. IsWorst (st k) l) (sym (append-nil acc)) h
  update_each-IsWorst (c ∷ cs) st acc worsens (name, named) h = elim (Bool-cases c.enabled) [
    | inr off ↦ simp off (update_each-IsWorst cs st acc worsens named h)
    | inl on ↦ elim (Bool-cases (p c)) [
      | inr other ↦
          simp (on, other)
            (update_each-IsWorst cs (update c st) acc worsens named
              (rw other at (worsens c st acc name h)))
      | inl own ↦
          simp (on, own)
            (subst (λ l. IsWorst (update_each update cs (update c st) k) l)
              (append_assoc acc (known c ∷ []) (statuses_where p cs))
              (update_each-IsWorst cs (update c st) (acc ++ known c ∷ []) worsens named
                (rw own at (worsens c st acc name h))))
    ]
  ]

update_endpoint-IsWorst :
    (k : String) (key : Option String) (status : Option String) (st : Statuses) (acc : List String)
    → or_else status "unknown" === "" ≡ false
    → IsWorst (st k) acc
    → IsWorst
        (worsen_if key status st k)
        (appended (of_endpoint_id k key) acc (or_else status "unknown"))
update_endpoint-IsWorst k none status st acc name h = h
update_endpoint-IsWorst k (some key) status st acc name h = elim (Bool-cases (key === "")) [
  | inl empty ↦ rw empty h
  | inr given ↦ rw given (worsen-IsWorst key k status st acc name h)
]

-- In the snapshot the status of a site, and that of an endpoint, is the worst status of its enabled
-- checks (one without a status counts as unknown), and there is none exactly if it has no enabled
-- check; for checks whose statuses are not the empty text.
pub load_universe-IsWorst :
    (locations : List LocationRow) (sites : List SiteRow) (endpoints : List EndpointRow)
    (checks : List CheckRow) (k : String)
    → NamedStatuses checks
    → IsWorst
        ((load_universe locations sites endpoints checks).site_status k)
        (statuses_where (λ c. c.site_id === k) checks)
      × IsWorst
          ((load_universe locations sites endpoints checks).endpoint_status k)
          (statuses_where (λ c. of_endpoint_id k c.endpoint_id) checks)
unfolding load_universe
load_universe-IsWorst locations sites endpoints checks k named = (
  update_each-IsWorst update_site (λ c. c.site_id === k) k checks (λ k. none) []
      (λ c st acc name h. worsen-IsWorst c.site_id k c.last_status st acc name h) named refl,
  update_each-IsWorst update_endpoint (λ c. of_endpoint_id k c.endpoint_id) k checks (λ k. none) []
      (λ c st acc name h. update_endpoint-IsWorst k c.endpoint_id c.last_status st acc name h) named
      refl,
)
