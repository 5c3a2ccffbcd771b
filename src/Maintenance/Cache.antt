-- ===== src/Maintenance/Cache.antt =====
-- The cached window list of engine/src/services/maintenance.ts: `activeWindows` in the steps that
-- its awaits make of it, `isInMaintenance`, `activeMaintenance`, and the writes of
-- engine/src/routes/maintenance.ts, each of which drops the cache in a step of its own. `members`
-- is `checkIdsForGroups` of engine/src/services/groups.ts.
use looksee.Prelude.{
  ℕ, zero, suc, ◌+◌, ◌≤◌, ◌⊎◌, inl, inr, refl, All, false, ◌-◌, ◌≡◌, String, Bool, true, ◌&&◌,
  Option, none, some, List, [], ◌∷◌, ◌++◌, ◌===◌, ltb, any, keep, if◌then◌else◌, arith,
}
use mathlib.Core.Path.{subst}
use looksee.Maintenance.{Zones, Window, Target, GroupChecks, window_is_active, window_applies_to}

pub record CacheEntry : Type 0 where
  pub at : ℕ
  pub rows : List Window
  pub group_checks : GroupChecks

-- The table, the module's `cache` variable, whether a write of the table has yet to drop the cache,
-- and the calls of `activeWindows` that have read the rows and wait for the groups' checks: the
-- entry that each will assign, the newest first.
pub record Store : Type 0 where
  pub table : List Window
  pub cache : Option CacheEntry
  pub unsaid : Bool
  pub reading : List CacheEntry

abbrev pub cache_ms : ℕ
cache_ms = 15000

-- `rows.filter((w) => w.scope === "group").flatMap((w) => w.targetIds ?? [])`; that the source
-- removes repeats changes no answer.
unfoldable pub group_ids : List Window → List String
group_ids [] = []
group_ids (w ∷ ws) =
    let rest = group_ids ws in if w.scope === "group" then w.target_ids ++ rest else rest

abbrev pub enabled_rows : List Window → List Window
enabled_rows rows = keep (λ w. w.enabled) rows

abbrev pub at_start : List Window → Store
at_start table = record { table = table; cache = none; unsaid = false; reading = [] }

-- A route of engine/src/routes/maintenance.ts writes the table...
abbrev pub write : List Window → Store → Store
write table s = record s { table = table; unsaid = true }

-- ...and then calls this.
abbrev pub invalidate_maintenance_cache : Store → Store
invalidate_maintenance_cache s = record s { cache = none; unsaid = false }

abbrev pub nth : ℕ → List CacheEntry → Option CacheEntry
nth n [] = none
nth zero (c ∷ cs) = some c
nth (suc n) (c ∷ cs) = nth n cs

abbrev pub drop_at : ℕ → List CacheEntry → List CacheEntry
drop_at n [] = []
drop_at zero (c ∷ cs) = cs
drop_at (suc n) (c ∷ cs) = c ∷ drop_at n cs

-- `!cache || Date.now() - cache.at > CACHE_MS`
abbrev pub is_stale : Option CacheEntry → ℕ → Bool
is_stale none now = true
is_stale (some c) now = ltb cache_ms (now - c.at)

module _ (zones : Zones) (members : List String → GroupChecks) where
  abbrev pub read_entry : ℕ → List Window → CacheEntry
  read_entry now table =
      let rows = enabled_rows table in
      record { at = now; rows = rows; group_checks = members (group_ids rows) }

  -- `activeWindows` where it has found the cache missing or too old: the rows are read, up to the
  -- `await` of the groups.
  unfoldable pub begin_fill : ℕ → Store → Store
  begin_fill now s = record s { reading = read_entry now s.table ∷ s.reading }

  -- The end of the call: the cache is assigned, and the entry returned.
  abbrev filled : Option CacheEntry → ℕ → Store → Store
  filled none n s = s
  filled (some c) n s = record s { cache = some c; reading = drop_at n s.reading }

  unfoldable pub end_fill : ℕ → Store → Store
  end_fill n s = filled (nth n s.reading) n s

  -- What a lookup is answered from, where it does not wait: the cache in force.
  abbrev pub answer : List Window → GroupChecks → Target → ℕ → Bool
  answer rows groups target now =
      any (λ w. window_applies_to w target groups && window_is_active zones w now) rows

  -- `isInMaintenance`, behind `activeWindows`
  abbrev pub is_in_maintenance : CacheEntry → Target → ℕ → Bool
  is_in_maintenance c target now = answer c.rows c.group_checks target now

  unfoldable pub active_maintenance : ℕ → Store → List Window × GroupChecks
  active_maintenance now s =
      let windows = keep (λ w. window_is_active zones w now) s.table in
      (windows, members (group_ids windows))

  -- What a call of `activeWindows` that returns at an instant returns: the cache while it is fresh,
  -- or the entry of a call that ends its wait.
  pub data Returns (s : Store) (now : ℕ) : CacheEntry → Type 0 where
    fresh : (c : CacheEntry) → s.cache ≡ some c → is_stale s.cache now ≡ false → Returns s now c
    waited : (n : ℕ) (c : CacheEntry) → nth n s.reading ≡ some c → Returns s now c

  -- What happens to the module, in any order. A call tests the cache before its first wait, so that
  -- `begins`, which is its read of the table, asks nothing of the cache. `racing` says whether the
  -- table is written while a call waits.
  pub data Step (racing : Bool) : Store → Store → Type 0 where
    begins : (now : ℕ) (s : Store) → Step racing s (begin_fill now s)
    ends : (n : ℕ) (s : Store) → Step racing s (end_fill n s)
    save :
        (table : List Window) (s : Store)
        → racing ≡ true ⊎ s.reading ≡ []
        → Step racing s (write table s)
    invalidates : (s : Store) → Step racing s (invalidate_maintenance_cache s)

  pub data Reach (racing : Bool) (s : Store) : Store → Type 0 where
    here : Reach racing s s
    next : {t u : Store} → Reach racing s t → Step racing t u → Reach racing s u

  -- An entry holds what the table and the groups say.
  abbrev pub Current : List Window → CacheEntry → Type 0
  Current table c =
      (c.rows ≡ enabled_rows table) × (c.group_checks ≡ members (group_ids (enabled_rows table)))

  abbrev CurrentCache : List Window → Option CacheEntry → Type 0
  CurrentCache table none = Unit
  CurrentCache table (some c) = Current table c

  -- The answer that the table itself gives.
  abbrev pub current_answer : List Window → Target → ℕ → Bool
  current_answer table target now =
      answer (enabled_rows table) (members (group_ids (enabled_rows table))) target now

  record IsCurrent (s : Store) : Type 0 where
    said : s.unsaid ≡ false → CurrentCache s.table s.cache
    read : All (Current s.table) s.reading

  nth-Current :
      (table : List Window) (n : ℕ) (cs : List CacheEntry) (c : CacheEntry)
      → All (Current table) cs
      → nth n cs ≡ some c
      → Current table c
  nth-Current table n [] c h e = cc
  nth-Current table zero (x ∷ cs) c (p, h) e = let same : x ≡ c = cc in subst (Current table) same p
  nth-Current table (suc n) (x ∷ cs) c (p, h) e = nth-Current table n cs c h e

  All-drop_at :
      (table : List Window) (n : ℕ) (cs : List CacheEntry)
      → All (Current table) cs
      → All (Current table) (drop_at n cs)
  All-drop_at table n [] h = tt
  All-drop_at table zero (x ∷ cs) (p, h) = h
  All-drop_at table (suc n) (x ∷ cs) (p, h) = (p, All-drop_at table n cs h)

  filled-IsCurrent :
      (o : Option CacheEntry) (n : ℕ) (s : Store)
      → nth n s.reading ≡ o
      → IsCurrent s
      → IsCurrent (filled o n s)
  filled-IsCurrent none n s e h = h
  filled-IsCurrent (some c) n s e h = record {
    said = λ _. nth-Current s.table n s.reading c h.read e;
    read = All-drop_at s.table n s.reading h.read;
  }

  nothing_read : (table : List Window) (cs : List CacheEntry) → cs ≡ [] → All (Current table) cs
  nothing_read table [] e = tt
  nothing_read table (c ∷ cs) e = cc

  Step-IsCurrent : {s t : Store} → Step false s t → IsCurrent s → IsCurrent t
  unfolding begin_fill end_fill
  Step-IsCurrent (begins now s) h = record { said = h.said; read = ((refl, refl), h.read) }
  Step-IsCurrent (ends n s) h = filled-IsCurrent (nth n s.reading) n s refl h
  Step-IsCurrent (save table s (inl racing)) h = cc
  Step-IsCurrent (save table s (inr idle)) h = record {
    said = λ e. cc;
    read = nothing_read table s.reading idle;
  }
  Step-IsCurrent (invalidates s) h = record { said = λ _. tt; read = h.read }

  Reach-IsCurrent : {s t : Store} → Reach false s t → IsCurrent s → IsCurrent t
  Reach-IsCurrent here h = h
  Reach-IsCurrent (next r st) h = Step-IsCurrent st (Reach-IsCurrent r h)

  Returns-Current :
      (s : Store) (now : ℕ) (c : CacheEntry)
      → IsCurrent s
      → s.unsaid ≡ false
      → Returns s now c
      → Current s.table c
  Returns-Current s now _ h said (fresh c e young) = subst (CurrentCache s.table) e (h.said said)
  Returns-Current s now _ h said (waited n c e) = nth-Current s.table n s.reading c h.read e

  -- While no route writes the table as a lookup waits for its reads, and once a write has dropped
  -- the cache, a lookup answers what the table says now, from the cache or from its own reads,
  -- whatever was looked up and saved since the start and however the waits of the lookups overlap:
  -- no answer is stale while the membership of the groups stands.
  pub is_in_maintenance-current :
      (table : List Window) (s : Store) (c : CacheEntry) (target : Target) (now : ℕ)
      → Reach false (at_start table) s
      → s.unsaid ≡ false
      → Returns s now c
      → is_in_maintenance c target now ≡ current_answer s.table target now
  is_in_maintenance-current table s c target now r said returned =
      let start : IsCurrent (at_start table) = record { said = λ _. tt; read = tt } in
      let (rows, groups) = Returns-Current s now c (Reach-IsCurrent r start) said returned in
      rw (rows, groups) refl

  -- A table that is written, and a cache that is dropped, while a lookup waits: the lookup then
  -- assigns the rows that it read before, and for 15 seconds every lookup answers from them.
  pub is_in_maintenance_outdated :
      (old new : List Window) (target : Target) (read now : ℕ)
      → now ≤ read + cache_ms
      → (s : Store) × (c : CacheEntry) × Reach true (at_start old) s
        × (s.unsaid ≡ false)
        × (s.table ≡ new)
        × Returns s now c
        × (is_in_maintenance c target now ≡ current_answer old target now)
  unfolding begin_fill end_fill
  is_in_maintenance_outdated old new target read now soon =
      let reading = begin_fill read (at_start old) in
      let dropped = invalidate_maintenance_cache (write new reading) in
      (
        end_fill 0 dropped,
        read_entry read old,
        next
            (next (next (next here (begins read (at_start old))) (save new reading (inl refl)))
              (invalidates (write new reading)))
            (ends 0 dropped),
        refl,
        refl,
        fresh (read_entry read old) refl (ground arith),
        refl,
      )
