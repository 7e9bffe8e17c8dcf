-- ===== src/Base/Int.antt =====
-- Signed numbers, for the JSON-RPC error codes. `negsuc n` is -(n + 1).
use Prim.Native.Nat.{ℕ, ◌-◌}

pub data ℤ : Type 0 where
  pos : ℕ → ℤ
  negsuc : ℕ → ℤ

-- `neg n` is -n, for a positive n.
abbrev pub neg : ℕ → ℤ
neg n = negsuc (n - 1)
