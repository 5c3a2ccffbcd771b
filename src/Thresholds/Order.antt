-- ===== src/Thresholds/Order.antt =====
-- `worst` of engine/src/services/thresholds.ts as an order on statuses.
use looksee.Prelude.{◌≤◌, max, ◌≡◌, ◌↔◌, arith}
use looksee.Thresholds.{Status, rank, worst}

rank-worst : (a b : Status) → rank (worst a b) ≡ max (rank a) (rank b)
unfolding worst
rank-worst a b = ground arith

rank_injective : (a b : Status) → rank a ≡ rank b → a ≡ b
unfolding rank
rank_injective a b h = ground arith

-- The worse of two statuses is the least status that is as bad as both: another status is at least
-- as bad as it exactly when it is at least as bad as each; and the order of the two is irrelevant.
pub worst-IsJoin :
    (a b c : Status)
    → ((rank (worst a b) ≤ rank c) ↔ ((rank a ≤ rank c) × (rank b ≤ rank c)))
      × (worst a b ≡ worst b a)
worst-IsJoin a b c = (
  (λ h. omega (arith, rank-worst a b), λ h. omega (arith, rank-worst a b)),
  rank_injective _ _ (omega (arith, rank-worst a b, rank-worst b a)),
)
