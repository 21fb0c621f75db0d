-- ===== src/Base/Int.antt =====
-- `int` as it comes from a request; the sources only compare it with small constants.
use Prim.Native.Nat.{ℕ}
use odeclient_server.Base.Lists.{Bool, false, ◌==◌}

-- `negsuc n` is -(n + 1).
pub data ℤ : Type 0 where
  pos : ℕ → ℤ
  negsuc : ℕ → ℤ

-- `i == n`.
abbrev pub is : ℤ → ℕ → Bool
is (pos m) n = m == n
is (negsuc m) n = false
