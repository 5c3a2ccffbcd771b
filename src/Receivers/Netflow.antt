-- ===== src/Receivers/Netflow.antt =====
-- The parser of NetFlow v5 packets (`parseNetflowV5` of engine/src/services/receivers/flows.ts). A
-- read beyond the buffer throws, which is `none`: the listener then drops the packet.
use looksee.Prelude.{
  ℕ, zero, suc, ◌+◌, ◌-◌, ◌*◌, ◌/◌, ◌%◌, ◌≤◌, ◌<◌, String, Option, some, List, [], ◌∷◌, ◌==◌, leb,
  ltb, length, min, if◌then◌else◌, ◌>>=◌, ◌≡◌, refl, inl, inr, arith, Bool-cases,
}
use Prim.Native.String.{◌++◌ as text_append}
use looksee.Prelude.Bytes.{
  read_u8, read_u16, read_u32, read_u8-inside, read_u16-inside, read_u32-inside,
}
use looksee.Receivers.Flows.{Flow}

digit : ℕ → String
digit n =
    if n == 0
    then "0"
    else if n == 1
    then "1"
    else if n == 2
    then "2"
    else if n == 3
    then "3"
    else if n == 4
    then "4"
    else if n == 5
    then "5"
    else if n == 6
    then "6"
    else if n == 7
    then "7"
    else if n == 8
    then "8"
    else "9"

-- `${n}` of a byte
decimal : ℕ → String
decimal n =
    if leb n 9
    then digit n
    else if leb n 99
    then text_append (digit (n / 10)) (digit (n % 10))
    else text_append (digit (n / 100)) (text_append (digit (n / 10 % 10)) (digit (n % 10)))

dotted : ℕ → ℕ → ℕ → ℕ → String
unfolding decimal digit
dotted p q r s = text_append (decimal p) (
    text_append "." (
      text_append (decimal q)
        (text_append "." (text_append (decimal r) (text_append "." (decimal s))))))

unfoldable pub ipv4 : List ℕ → ℕ → Option String
unfolding dotted
ipv4 b o = do
  p ← read_u8 b o
  q ← read_u8 b (o + 1)
  r ← read_u8 b (o + 2)
  s ← read_u8 b (o + 3)
  some (dotted p q r s)

abbrev v5_flow : String → String → ℕ → ℕ → ℕ → ℕ → ℕ → ℕ → Flow
v5_flow src dst packets bytes src_port dst_port protocol sampling = record {
  src = src;
  dst = dst;
  protocol = protocol;
  src_port = src_port;
  dst_port = dst_port;
  bytes = bytes * sampling;
  packets = packets * sampling;
}

-- The record at an offset.
unfoldable pub v5_record : List ℕ → ℕ → ℕ → Option Flow
v5_record b o sampling = do
  src ← ipv4 b o
  dst ← ipv4 b (o + 4)
  packets ← read_u32 b (o + 16)
  bytes ← read_u32 b (o + 20)
  src_port ← read_u16 b (o + 32)
  dst_port ← read_u16 b (o + 34)
  protocol ← read_u8 b (o + 38)
  some (v5_flow src dst packets bytes src_port dst_port protocol sampling)

-- The loop with `left` records to go, at record `i`.
unfoldable pub v5_records : ℕ → ℕ → List ℕ → ℕ → Option (List Flow)
v5_records zero i b sampling = some []
v5_records (suc left) i b sampling =
    let later = v5_records left (i + 1) b sampling in
    let rest = (v5_record b (24 + i * 48) sampling >>= λ f. later >>= λ fs. some (f ∷ fs)) in
    if ltb (length b) (24 + i * 48 + 48) then some [] else rest

-- `x & 0x3fff || 1`
abbrev pub sampling_of : ℕ → ℕ
sampling_of x = if x % 16384 == 0 then 1 else x % 16384

unfoldable pub parse_netflow_v5 : List ℕ → Option (List Flow)
parse_netflow_v5 b = do
  count ← read_u16 b 2
  x ← read_u16 b 22
  v5_records count 0 b (sampling_of x)

ipv4-inside : (b : List ℕ) (o : ℕ) → o + 3 < length b → (s : String) × (ipv4 b o ≡ some s)
unfolding ipv4
ipv4-inside b o h =
    let (p, e) = read_u8-inside b o (omega arith) in
    let (q, d) = read_u8-inside b (o + 1) (omega arith) in
    let (r, c) = read_u8-inside b (o + 2) (omega arith) in
    let (s, a) = read_u8-inside b (o + 3) h in (dotted p q r s, rw (e, d, c, a) refl)

v5_record-inside :
    (b : List ℕ) (o sampling : ℕ)
    → o + 48 ≤ length b
    → (f : Flow) × (v5_record b o sampling ≡ some f)
unfolding v5_record
v5_record-inside b o sampling h =
    let (src, e1) = ipv4-inside b o (omega arith) in
    let (dst, e2) = ipv4-inside b (o + 4) (omega arith) in
    let (packets, e3) = read_u32-inside b (o + 16) (omega arith) in
    let (bytes, e4) = read_u32-inside b (o + 20) (omega arith) in
    let (src_port, e5) = read_u16-inside b (o + 32) (omega arith) in
    let (dst_port, e6) = read_u16-inside b (o + 34) (omega arith) in
    let (protocol, e7) = read_u8-inside b (o + 38) (omega arith) in
    (
      v5_flow src dst packets bytes src_port dst_port protocol sampling,
      rw (e1, e2, e3, e4, e5, e6, e7) refl,
    )

v5_records-inside :
    (left i : ℕ) (b : List ℕ) (sampling : ℕ)
    → 24 + i * 48 ≤ length b
    → (fs : List Flow) × (v5_records left i b sampling ≡ some fs)
      × (length fs ≡ min left ((length b - (24 + i * 48)) / 48))
unfolding v5_records
v5_records-inside zero i b sampling h = ([], refl, omega arith)
v5_records-inside (suc left) i b sampling h =
    elim (Bool-cases (ltb (length b) (24 + i * 48 + 48))) [
      | inl short ↦
          let few : length b < 24 + i * 48 + 48 = ground arith in ([], rw short refl, omega arith)
      | inr there ↦
          let enough : 24 + i * 48 + 48 ≤ length b = ground arith in
          let (f, e) = v5_record-inside b (24 + i * 48) sampling enough in
          let (fs, d, n) = v5_records-inside left (i + 1) b sampling (omega arith) in
          (f ∷ fs, rw (there, e, d) refl, omega (arith, n))
    ]

-- A packet that holds its header is parsed without a read beyond it, whatever number of records the
-- header claims: the flows are as many as it claims, or as many as the packet holds whole.
pub parse_netflow_v5-inside :
    (b : List ℕ)
    → 24 ≤ length b
    → (count : ℕ) × (fs : List Flow) × (read_u16 b 2 ≡ some count)
      × (parse_netflow_v5 b ≡ some fs)
      × (length fs ≡ min count ((length b - 24) / 48))
unfolding parse_netflow_v5
parse_netflow_v5-inside b h =
    let (count, e) = read_u16-inside b 2 (omega arith) in
    let (x, d) = read_u16-inside b 22 (omega arith) in
    let (fs, p, n) = v5_records-inside count 0 b (sampling_of x) (omega arith) in
    (count, fs, e, rw (e, d) p, n)
