-- ===== src/Prelude/Integers.antt =====
-- Signed integers over the native numbers, for `long long`.
use Prim.Native.Nat.{ℕ, suc, ◌+◌, ◌-◌}
use eya_kv.Prelude.Tests.{ltb, if◌then◌else◌}

pub data ℤ : Type 0 where
  pos negsuc : ℕ → ℤ

-- an integer plus a size
unfoldable pub add_size : ℤ → ℕ → ℤ
add_size (pos n) k = pos (n + k)
add_size (negsuc n) k = if ltb n k then pos (k - suc n) else negsuc (n - k)
