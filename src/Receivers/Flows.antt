-- ===== src/Receivers/Flows.antt =====
-- Flow records summed by conversation and drained once a minute (`FlowAggregator` of
-- engine/src/services/receivers/core.ts, `servicePort` of engine/src/services/receivers/flows.ts).
-- The sums stay below 2^53, where JavaScript's numbers are exact. A key's parts are joined by `|`
-- in the source; no part holds one.
use looksee.Prelude.{
  ℕ, ◌+◌, ◌*◌, ◌/◌, String, Bool, not, ◌&&◌, List, [], ◌∷◌, ◌++◌, ◌===◌, ◌==◌, leb, min, take, keep,
  map, includes, if◌then◌else◌,
}

pub record Flow : Type 0 where
  pub src : String
  pub dst : String
  pub protocol : ℕ
  pub src_port : ℕ
  pub dst_port : ℕ
  pub bytes : ℕ
  pub packets : ℕ

pub record Key : Type 0 where
  pub exporter : String
  pub src : String
  pub dst : String
  pub protocol : ℕ
  pub port : ℕ

-- An entry of the map `pending`.
pub record Pending : Type 0 where
  pub key : Key
  pub bytes : ℕ
  pub packets : ℕ

pub record FlowRow : Type 0 where
  pub bucket : ℕ
  pub key : Key
  pub bytes : ℕ
  pub packets : ℕ

-- The lower port of a conversation that has two.
unfoldable pub service_port : Flow → ℕ
service_port f =
    if not (f.src_port == 0) && not (f.dst_port == 0)
    then min f.src_port f.dst_port
    else if not (f.dst_port == 0)
    then f.dst_port
    else f.src_port

unfoldable pub key_of : String → Flow → Key
key_of exporter f = record {
  exporter = exporter;
  src = f.src;
  dst = f.dst;
  protocol = f.protocol;
  port = service_port f;
}

unfoldable pub same_key : Key → Key → Bool
same_key a b =
    a.exporter === b.exporter
    && a.src === b.src
    && a.dst === b.dst
    && a.protocol == b.protocol
    && a.port == b.port

-- `pending.get(key)`, and the sum or a new entry at the map's end.
unfoldable pub add_flow : Key → Flow → List Pending → List Pending
add_flow k f [] = record { key = k; bytes = f.bytes; packets = f.packets } ∷ []
add_flow k f (p ∷ ps) =
    let rest = add_flow k f ps in
    if same_key p.key k
    then record p { bytes = p.bytes + f.bytes; packets = p.packets + f.packets } ∷ ps
    else p ∷ rest

unfoldable pub add : String → List Flow → List Pending → List Pending
add exporter [] ps = ps
add exporter (f ∷ fs) ps = add exporter fs (add_flow (key_of exporter f) f ps)

abbrev pub flow_top_n : ℕ
flow_top_n = 1000

-- `list.sort((a, b) => b.bytes - a.bytes)`, which is stable.
unfoldable pub insert : Pending → List Pending → List Pending
insert p [] = p ∷ []
insert p (q ∷ qs) = let rest = insert p qs in if leb q.bytes p.bytes then p ∷ q ∷ qs else q ∷ rest

unfoldable pub sort_by_bytes : List Pending → List Pending
sort_by_bytes [] = []
sort_by_bytes (p ∷ ps) = insert p (sort_by_bytes ps)

-- The exporters in the order of their first entries, which is that of `byExporter`.
unfoldable pub exporters : List String → List Pending → List String
exporters seen [] = []
exporters seen (p ∷ ps) =
    let skipped = exporters seen ps in
    let listed = p.key.exporter ∷ exporters (p.key.exporter ∷ seen) ps in
    if includes seen p.key.exporter then skipped else listed

unfoldable pub top : List Pending → List Pending
top ps = take flow_top_n (sort_by_bytes ps)

abbrev pub of_exporter : String → List Pending → List Pending
of_exporter e ps = keep (λ p. p.key.exporter === e) ps

abbrev row : ℕ → Pending → FlowRow
row bucket p = record { bucket = bucket; key = p.key; bytes = p.bytes; packets = p.packets }

unfoldable pub drain_each : ℕ → List String → List Pending → List FlowRow
drain_each bucket [] ps = []
drain_each bucket (e ∷ es) ps = map (row bucket) (top (of_exporter e ps)) ++ drain_each bucket es ps

-- The rows of a drain and the entries left, which are none.
unfoldable pub drain : ℕ → List Pending → List FlowRow × List Pending
drain now ps = (drain_each (now / 60000 * 60000) (exporters [] ps) ps, [])
