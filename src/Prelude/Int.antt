-- ===== src/Prelude/Int.antt =====
-- Signed numbers over the native ones: `negsuc n` is -(n + 1).
use Prim.Native.Nat.{ℕ, suc, ◌≤◌, ◌<◌}

pub data ℤ : Type 0 where
  pos : ℕ → ℤ
  negsuc : ℕ → ℤ

-- `-m ≤ z`, and `z < n`.
abbrev pub NegLe : ℕ → ℤ → Type 0
NegLe m (pos n) = Unit
NegLe m (negsuc n) = suc n ≤ m

abbrev pub LtPos : ℤ → ℕ → Type 0
LtPos (pos n) m = n < m
LtPos (negsuc n) m = Unit
