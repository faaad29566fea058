-- ===== src/Prelude/Maps.antt =====
-- Maps from addresses and indices, with a write at one place.
use Prim.Native.Nat.{ℕ}
use mathlib.Core.Path.{◌≡◌}
use mathlib.Core.Logic.{◌≢◌}
use native.Mathlib.Omega.{arith}
use reduct.Prelude.Tests.{◌==◌, if◌then◌else◌}

module _ {ℓ} {A : Type ℓ} where
  abbrev pub update : (ℕ → A) → ℕ → A → ℕ → A
  update f i a j = if j == i then a else f j

  pub update_self : (f : ℕ → A) (i : ℕ) (a : A) → update f i a i ≡ a
  update_self f i a = ground arith

  pub update_other : (f : ℕ → A) (i : ℕ) (a : A) (j : ℕ) → j ≢ i → update f i a j ≡ f j
  update_other f i a j ne = ground arith
