-- ===== src/Prelude/Bytes.antt =====
-- Reads of a buffer, as the parsers of packets make them. A read beyond the end throws, which is
-- `none`.
use Prim.Native.Nat.{ℕ, zero, suc, ◌+◌, ◌*◌, ◌<◌}
use mathlib.Core.Path.{◌≡◌, refl}
use mathlib.Core.List.{List, [], ◌∷◌}
use mathlib.Core.Option.{Option, none, some}
use native.Mathlib.Omega.{arith}
use looksee.Prelude.Tests.{◌>>=◌}
use looksee.Prelude.Lists.{length}

-- `b.readUInt8(o)`
unfoldable pub read_u8 : List ℕ → ℕ → Option ℕ
read_u8 [] o = none
read_u8 (c ∷ b) zero = some c
read_u8 (c ∷ b) (suc o) = read_u8 b o

unfoldable pub read_u16 : List ℕ → ℕ → Option ℕ
read_u16 b o = do high ← read_u8 b o; low ← read_u8 b (o + 1); some (high * 256 + low)

unfoldable pub read_u32 : List ℕ → ℕ → Option ℕ
read_u32 b o = do high ← read_u16 b o; low ← read_u16 b (o + 2); some (high * 65536 + low)

pub read_u8-inside : (b : List ℕ) (o : ℕ) → o < length b → (c : ℕ) × (read_u8 b o ≡ some c)
unfolding read_u8
read_u8-inside [] o h = absurd (omega arith)
read_u8-inside (c ∷ b) zero h = (c, refl)
read_u8-inside (c ∷ b) (suc o) h = read_u8-inside b o (omega arith)

pub read_u16-inside : (b : List ℕ) (o : ℕ) → o + 1 < length b → (c : ℕ) × (read_u16 b o ≡ some c)
unfolding read_u16
read_u16-inside b o h =
    let (high, e) = read_u8-inside b o (omega arith) in
    let (low, d) = read_u8-inside b (o + 1) h in (high * 256 + low, rw (e, d) refl)

pub read_u32-inside : (b : List ℕ) (o : ℕ) → o + 3 < length b → (c : ℕ) × (read_u32 b o ≡ some c)
unfolding read_u32
read_u32-inside b o h =
    let (high, e) = read_u16-inside b o (omega arith) in
    let (low, d) = read_u16-inside b (o + 2) (omega arith) in (high * 65536 + low, rw (e, d) refl)
