-- ===== src/Prelude/Int.antt =====
-- Signed integers over the native numbers, and their wrap-around at 64 bits.
use Prim.Native.Nat.{ℕ, ◌-◌, ◌%◌, ◌^◌}
use llmlang.Prelude.Tests.{ltb, if◌then◌else◌}

-- `negsuc n` is -(n + 1).
pub data ℤ : Type 0 where
  pos : ℕ → ℤ
  negsuc : ℕ → ℤ

-- The `i64` whose bit pattern is `n` modulo 2^64.
unfoldable pub to_i64 : ℕ → ℤ
to_i64 n = let r = n % 2 ^ 64 in if ltb r (2 ^ 63) then pos r else negsuc (2 ^ 64 - r - 1)

-- The bit pattern of an integer at 64 bits.
unfoldable pub bits64 : ℤ → ℕ
bits64 (pos n) = n % 2 ^ 64
bits64 (negsuc n) = (2 ^ 64 - 1 - n % 2 ^ 64) % 2 ^ 64
