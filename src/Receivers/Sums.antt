-- ===== src/Receivers/Sums.antt =====
-- The bytes and packets of a conversation in `FlowAggregator.add`
-- (engine/src/services/receivers/core.ts).
use looksee.Prelude.{
  ℕ, ◌+◌, String, Bool, true, ◌&&◌, List, [], ◌∷◌, ◌==◌, if◌then◌else◌, ◌≡◌, refl, ap, inl, inr,
  arith, Bool-cases, eq_iff,
}
use looksee.Receivers.Flows.{Flow, Key, Pending, key_of, same_key, add_flow, add}

-- The bytes and packets of one conversation in the map.
unfoldable pub bytes_of : Key → List Pending → ℕ
bytes_of k [] = 0
bytes_of k (p ∷ ps) = (if same_key p.key k then p.bytes else 0) + bytes_of k ps

unfoldable pub packets_of : Key → List Pending → ℕ
packets_of k [] = 0
packets_of k (p ∷ ps) = (if same_key p.key k then p.packets else 0) + packets_of k ps

-- The bytes and packets of one conversation in an exporter's records.
unfoldable pub flow_bytes : Key → String → List Flow → ℕ
flow_bytes k exporter [] = 0
flow_bytes k exporter (f ∷ fs) =
    (if same_key (key_of exporter f) k then f.bytes else 0) + flow_bytes k exporter fs

unfoldable pub flow_packets : Key → String → List Flow → ℕ
flow_packets k exporter [] = 0
flow_packets k exporter (f ∷ fs) =
    (if same_key (key_of exporter f) k then f.packets else 0) + flow_packets k exporter fs

equal_numbers : (a b : ℕ) → (a == b) ≡ true → a ≡ b
equal_numbers a b h = ground arith

both_left : (a b : Bool) → a && b ≡ true → a ≡ true
both_left a b h = ground arith

both_right : (a b : Bool) → a && b ≡ true → b ≡ true
both_right a b h = ground arith

same_key-equal : (a b : Key) → same_key a b ≡ true → a ≡ b
unfolding same_key
same_key-equal a b h =
    let e : a.exporter ≡ b.exporter = (eq_iff a.exporter b.exporter).0 (ground arith) in
    let s : a.src ≡ b.src = (eq_iff a.src b.src).0 (ground arith) in
    let d : a.dst ≡ b.dst = (eq_iff a.dst b.dst).0 (ground arith) in
    let p : a.protocol ≡ b.protocol = equal_numbers a.protocol b.protocol (ground arith) in
    let o : a.port ≡ b.port = equal_numbers a.port b.port (ground arith) in
    λ i. record { exporter = e i; src = s i; dst = d i; protocol = p i; port = o i }

add_flow-sums :
    (k : Key) (key : Key) (f : Flow) (ps : List Pending)
    → (bytes_of k (add_flow key f ps) ≡ (if same_key key k then f.bytes else 0) + bytes_of k ps)
      × (packets_of k (add_flow key f ps)
          ≡ (if same_key key k then f.packets else 0) + packets_of k ps)
unfolding add_flow bytes_of packets_of
add_flow-sums k key f [] = (refl, refl)
add_flow-sums k key f (p ∷ ps) =
    let rest = add_flow-sums k key f ps in
    elim (Bool-cases (same_key p.key key)) [
      | inl same ↦
          let alike : same_key p.key k ≡ same_key key k =
            ap (λ u. same_key u k) (same_key-equal p.key key same) in
          rw (same, alike) (ground arith, ground arith)
      | inr other ↦ rw other (omega (arith, rest.0), omega (arith, rest.1))
    ]

-- Adding an exporter's records raises the bytes and packets of each conversation by exactly what
-- the records of that conversation carry, and no other's.
pub add-sums :
    (k : Key) (exporter : String) (fs : List Flow) (ps : List Pending)
    → (bytes_of k (add exporter fs ps) ≡ flow_bytes k exporter fs + bytes_of k ps)
      × (packets_of k (add exporter fs ps) ≡ flow_packets k exporter fs + packets_of k ps)
unfolding add flow_bytes flow_packets
add-sums k exporter [] ps = (omega arith, omega arith)
add-sums k exporter (f ∷ fs) ps =
    let one = add_flow-sums k (key_of exporter f) f ps in
    let rest = add-sums k exporter fs (add_flow (key_of exporter f) f ps) in
    (omega (arith, one.0, rest.0), omega (arith, one.1, rest.1))
