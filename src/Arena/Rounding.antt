-- ===== src/Arena/Rounding.antt =====
-- Rounding up to a multiple of eight, and the capacity of a new arena.
use reduct.Prelude.{
  ℕ, zero, suc, ◌+◌, ◌-◌, ◌*◌, ◌/◌, ◌^◌, ◌≤◌, ◌<◌, ◌≡◌, ap, ◌∙◌, arith, bit_and, ltb, Bool-cases,
  inl, inr,
}
use native.Mathlib.Nat.{pow-suc}
use reduct.Prelude.Bits.{
  bit_at-bit_and, bit_at-complement, bit_at-shl, bit_at-shr, bit_at_beyond, bit_at-lt, bit_ext,
}
use reduct.Prelude.Words.{bit_at_back, low_mask, bit_at-low_mask}
use reduct.Prelude.BitTests.{not64}
use reduct.Arena.{u64, round_up, grow_capacity}

clear_low :
    (w i : ℕ)
    → w ≤ 64
    → low_mask w < 2 ^ 64
    → i < 2 ^ 64
    → bit_and i (not64 (low_mask w)) ≡ i / 2 ^ w * 2 ^ w
clear_low w i le fits small = bit_ext _ _ λ k. ground (
  arith,
  bit_at-bit_and i (not64 (low_mask w)) k,
  bit_at-complement 64 (low_mask w) k fits,
  bit_at-low_mask w k,
  bit_at-shl (i / 2 ^ w) w k,
  bit_at-shr i w (k - w),
  bit_at_back i w k,
  bit_at-lt i k,
  bit_at_beyond 64 i k small,
)

-- Rounding gives the least multiple of eight that is not below.
pub round_up_lem : (x : ℕ) → x < 2 ^ 63 → round_up x ≡ (x + 7) / 8 * 8
unfolding round_up
round_up_lem x small =
    ap (λ y. bit_and y (not64 7)) {x = u64 (x + 8 - 1)} {y = x + 7} (omega arith)
    ∙ clear_low 3 (x + 7) (omega arith) (omega arith) (omega arith)

move : (c t : ℕ) → c * 2 * t ≡ c * (t * 2)
move c t = grind arith

doubled :
    (n size capacity twice : ℕ)
    → twice ≡ capacity * 2
    → size ≤ capacity * 2 ^ suc n
    → size ≤ twice * 2 ^ n
doubled n size capacity twice e le =
    omega
      (arith, ap (λ t. capacity * t) (pow-suc 2 n), ap (λ t. t * 2 ^ n) e, move capacity (2 ^ n))

-- Sixty-four rounds of doubling are enough for every size up to 2^61.
pub grow_capacity_enough :
    (n size capacity : ℕ)
    → 1 ≤ capacity
    → capacity ≤ 2 ^ 62
    → size ≤ 2 ^ 61
    → size ≤ capacity * 2 ^ n
    → (size ≤ grow_capacity n size capacity) × (grow_capacity n size capacity ≤ 2 ^ 62)
unfolding grow_capacity
grow_capacity_enough zero size capacity pos le small enough = (omega arith, omega arith)
grow_capacity_enough (suc n) size capacity pos le small enough =
    elim (Bool-cases (ltb capacity size)) [
      | inl more ↦ rw more (
          grow_capacity_enough n size (u64 (capacity * 2)) (ground (arith, more))
            (ground (arith, more)) small
            (doubled n size capacity (u64 (capacity * 2)) (ground (arith, more)) enough))
      | inr stop ↦ rw stop (ground (arith, stop), le)
    ]
