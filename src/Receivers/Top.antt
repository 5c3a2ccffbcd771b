-- ===== src/Receivers/Top.antt =====
-- The conversations that `FlowAggregator.drain` keeps (engine/src/services/receivers/core.ts).
use looksee.Prelude.{
  ℕ, zero, suc, ◌+◌, ◌≤◌, List, [], ◌∷◌, take, length, if◌then◌else◌, leb, ◌≡◌, refl, inl, inr,
  arith, Bool-cases, All, length-take,
}
use looksee.Receivers.Flows.{Key, Pending, same_key, insert, sort_by_bytes, flow_top_n, top}
use looksee.Receivers.Sums.{bytes_of}

abbrev AllBelow : ℕ → List Pending → Type 0
AllBelow n ps = All (λ q. q.bytes ≤ n) ps

abbrev Descending : List Pending → Type 0
Descending [] = Unit
Descending (p ∷ ps) = AllBelow p.bytes ps × Descending ps

AllBelow-insert :
    (n : ℕ) (p : Pending) (ps : List Pending)
    → p.bytes ≤ n
    → AllBelow n ps
    → AllBelow n (insert p ps)
unfolding insert
AllBelow-insert n p [] h a = (h, tt)
AllBelow-insert n p (q ∷ ps) h (a, b) = elim (Bool-cases (leb q.bytes p.bytes)) [
  | inl first ↦ rw first (h, (a, b))
  | inr later ↦ rw later (a, AllBelow-insert n p ps h b)
]

AllBelow-raise : (m n : ℕ) (ps : List Pending) → m ≤ n → AllBelow m ps → AllBelow n ps
AllBelow-raise m n [] h a = tt
AllBelow-raise m n (q ∷ ps) h (a, b) = (omega arith, AllBelow-raise m n ps h b)

Descending-insert : (p : Pending) (ps : List Pending) → Descending ps → Descending (insert p ps)
unfolding insert
Descending-insert p [] d = (tt, tt)
Descending-insert p (q ∷ ps) (a, d) = elim (Bool-cases (leb q.bytes p.bytes)) [
  | inl first ↦
      let above : q.bytes ≤ p.bytes = ground arith in
      rw first ((above, AllBelow-raise q.bytes p.bytes ps above a), (a, d))
  | inr later ↦ rw later (AllBelow-insert q.bytes p ps (ground arith) a, Descending-insert p ps d)
]

Descending-sort_by_bytes : (ps : List Pending) → Descending (sort_by_bytes ps)
unfolding sort_by_bytes
Descending-sort_by_bytes [] = tt
Descending-sort_by_bytes (p ∷ ps) =
    Descending-insert p (sort_by_bytes ps) (Descending-sort_by_bytes ps)

bytes_of-insert :
    (k : Key) (p : Pending) (ps : List Pending)
    → bytes_of k (insert p ps) ≡ (if same_key p.key k then p.bytes else 0) + bytes_of k ps
unfolding bytes_of insert
bytes_of-insert k p [] = refl
bytes_of-insert k p (q ∷ ps) = elim (Bool-cases (leb q.bytes p.bytes)) [
  | inl first ↦ rw first refl
  | inr later ↦ rw later (omega (arith, bytes_of-insert k p ps))
]

bytes_of-sort_by_bytes :
    (k : Key) (ps : List Pending) → bytes_of k (sort_by_bytes ps) ≡ bytes_of k ps
unfolding bytes_of sort_by_bytes
bytes_of-sort_by_bytes k [] = refl
bytes_of-sort_by_bytes k (p ∷ ps) =
    omega (arith, bytes_of-insert k p (sort_by_bytes ps), bytes_of-sort_by_bytes k ps)

-- What stands behind the first `n`.
unfoldable pub behind : ℕ → List Pending → List Pending
behind zero ps = ps
behind (suc n) [] = []
behind (suc n) (p ∷ ps) = behind n ps

abbrev pub left_out : List Pending → List Pending
left_out ps = behind flow_top_n (sort_by_bytes ps)

bytes_of-take :
    (k : Key) (n : ℕ) (ps : List Pending)
    → bytes_of k (take n ps) + bytes_of k (behind n ps) ≡ bytes_of k ps
unfolding bytes_of behind
bytes_of-take k zero ps = omega arith
bytes_of-take k (suc n) [] = omega arith
bytes_of-take k (suc n) (p ∷ ps) = omega (arith, bytes_of-take k n ps)

AllBelow-behind : (m n : ℕ) (ps : List Pending) → AllBelow m ps → AllBelow m (behind n ps)
unfolding behind
AllBelow-behind m zero ps a = a
AllBelow-behind m (suc n) [] a = tt
AllBelow-behind m (suc n) (q ∷ ps) (a, b) = AllBelow-behind m n ps b

take-above :
    (n : ℕ) (ps : List Pending)
    → Descending ps
    → All (λ p. AllBelow p.bytes (behind n ps)) (take n ps)
unfolding behind
take-above zero ps d = tt
take-above (suc n) [] d = tt
take-above (suc n) (p ∷ ps) (a, d) = (AllBelow-behind p.bytes n ps a, take-above n ps d)

-- Of the conversations of an exporter at most 1000 are kept; none that is left out has more bytes
-- than one that is kept; and together they have the bytes of each conversation.
pub top-largest :
    (ps : List Pending) (k : Key)
    → (length (top ps) ≤ 1000)
      × All (λ p. All (λ q. q.bytes ≤ p.bytes) (left_out ps)) (top ps)
      × (bytes_of k (top ps) + bytes_of k (left_out ps) ≡ bytes_of k ps)
unfolding top
top-largest ps k =
    let sorted = sort_by_bytes ps in
    (
      omega (arith, length-take flow_top_n sorted),
      take-above flow_top_n sorted (Descending-sort_by_bytes ps),
      omega (arith, bytes_of-take k flow_top_n sorted, bytes_of-sort_by_bytes k ps),
    )
