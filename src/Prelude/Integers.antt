-- ===== src/Prelude/Integers.antt =====
-- A C `int`.
use Prim.Native.Nat.{ℕ}

-- `negative k` is -1 - k.
pub data Number : Type 0 where
  positive : ℕ → Number
  negative : ℕ → Number
