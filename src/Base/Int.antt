-- ===== src/Base/Int.antt =====
-- Signed results of Go's `int`, read from a 64-bit pattern.
use Prim.Native.Nat.{ℕ, ◌-◌, ◌^◌, ◌%◌}
use opencode_backend.Base.Tests.{ltb, if◌then◌else◌}

-- `negsuc n` is -(n + 1).
pub data ℤ : Type 0 where
  pos : ℕ → ℤ
  negsuc : ℕ → ℤ

-- The `int` whose 64 bits are those of `n`.
unfoldable pub int64 : ℕ → ℤ
int64 n =
    let bits = n % 2 ^ 64 in if ltb bits (2 ^ 63) then pos bits else negsuc (2 ^ 64 - 1 - bits)
