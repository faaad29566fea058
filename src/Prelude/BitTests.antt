-- ===== src/Prelude/BitTests.antt =====
-- Single bits of a `uint64_t`: `x & (1 << b)` tests one, and `|` and `&` with a mask set and clear
-- one.
use Prim.Native.Nat.{ℕ, zero, suc, ◌-◌, ◌*◌, ◌%◌, ◌^◌, ◌≤◌, ◌<◌, bit_and, bit_or}
use mathlib.Core.Path.{◌≡◌, ap, ◌∙◌}
use mathlib.Core.Bool.{Bool, true, false, not, ◌&&◌, ◌||◌}
use native.Mathlib.Nat.{mod-eq_of_lt, pow-suc, one-le-pow, pow-le-pow_right}
use native.Mathlib.Omega.{arith}
use reduct.Prelude.Tests.{◌==◌, leb, if◌then◌else◌}
use reduct.Prelude.Bits.{
  bit_at, bit_at-lt, zero-bit_at, bit_at-bit_or, bit_at-bit_and, bit_at-shl, bit_at-mod,
  bit_at-complement, bit_at_beyond, bit_ext,
}
use reduct.Prelude.Words.{bit_at-low_mask}

-- `x << s` and `~x`.
abbrev pub shl64 : ℕ → ℕ → ℕ
shl64 x s = x * 2 ^ s % 2 ^ 64

abbrev pub not64 : ℕ → ℕ
not64 x = 2 ^ 64 - 1 - x

-- A number below two is its bit 0.
bit_at_digit_only : (v k : ℕ) → v < 2 → bit_at v k ≡ (if k == 0 then v else 0)
bit_at_digit_only v zero h = omega arith
bit_at_digit_only v (suc k) h = bit_at_beyond 1 v (suc k) h (omega arith) ∙ ground arith

pub bit_at-pow : (b k : ℕ) → bit_at (2 ^ b) k ≡ (if k == b then 1 else 0)
bit_at-pow b k =
    ap (λ t. bit_at t k) {x = 2 ^ b} {y = 1 * 2 ^ b} (omega arith)
    ∙ bit_at-shl 1 b k
    ∙ ground (arith, bit_at_digit_only 1 (k - b))

-- `x & (1 << b)` is bit `b` in its place.
pub bit_and-pow : (x b : ℕ) → bit_and x (2 ^ b) ≡ bit_at x b * 2 ^ b
bit_and-pow x b = bit_ext _ _ λ k. ground (
  arith,
  bit_at-bit_and x (2 ^ b) k,
  bit_at-pow b k,
  bit_at-shl (bit_at x b) b k,
  bit_at_digit_only (bit_at x b) (k - b) (bit_at-lt x b),
  ap (bit_at x) {x = k} {y = b},
  bit_at-lt x k,
)

-- `(x & (1 << b)) != 0`.
abbrev pub bit_test : ℕ → ℕ → Bool
bit_test x b = not (bit_and x (shl64 1 b) == 0)

pow-lt : (b n : ℕ) → b < n → 2 ^ b < 2 ^ n
pow-lt b n h = omega (
  arith,
  pow-suc 2 b,
  one-le-pow b 2 (omega arith),
  pow-le-pow_right {n = 2} (omega arith) {i = suc b} {j = n} h,
)

shl64-one : (b : ℕ) → b < 64 → shl64 1 b ≡ 2 ^ b
shl64-one b h = omega (arith, mod-eq_of_lt {n = 2 ^ b} {m = 2 ^ 64} (pow-lt b 64 h))

digit_test : (d p : ℕ) → d < 2 → 1 ≤ p → not (d * p == 0) ≡ (d == 1)
digit_test zero p h q = ground arith
digit_test (suc zero) p h q = ground arith
digit_test (suc (suc d)) p h q = absurd (omega arith)

pub bit_test-bit_at : (x b : ℕ) → b < 64 → bit_test x b ≡ (bit_at x b == 1)
bit_test-bit_at x b h =
    ap (λ t. not (bit_and x t == 0)) (shl64-one b h)
    ∙ ap (λ t. not (t == 0)) (bit_and-pow x b)
    ∙ digit_test (bit_at x b) (2 ^ b) (bit_at-lt x b) (one-le-pow b 2 (omega arith))

module _ (x j b : ℕ) (hj : j < 64) (hb : b < 64) where
  pub bit_test-set : bit_test (bit_or x (shl64 1 j)) b ≡ (b == j || bit_test x b)
  bit_test-set =
      rw (shl64-one j hj, bit_test-bit_at (bit_or x (2 ^ j)) b hb, bit_test-bit_at x b hb)
        (ground (arith, bit_at-bit_or x (2 ^ j) b, bit_at-pow j b, bit_at-lt x b))

  pub bit_test-clear : bit_test (bit_and x (not64 (shl64 1 j))) b ≡ (not (b == j) && bit_test x b)
  bit_test-clear =
      rw (shl64-one j hj, bit_test-bit_at (bit_and x (not64 (2 ^ j))) b hb, bit_test-bit_at x b hb)
        (ground (
          arith,
          bit_at-bit_and x (not64 (2 ^ j)) b,
          bit_at-complement 64 (2 ^ j) b (pow-lt j 64 hj),
          bit_at-pow j b,
          bit_at-lt x b,
        ))

  pub bit_test-from : bit_test (bit_and x (shl64 (2 ^ 64 - 1) j)) b ≡ (leb j b && bit_test x b)
  bit_test-from =
      rw (bit_test-bit_at (bit_and x (shl64 (2 ^ 64 - 1) j)) b hb, bit_test-bit_at x b hb)
        (ground (
          arith,
          bit_at-bit_and x (shl64 (2 ^ 64 - 1) j) b,
          bit_at-mod ((2 ^ 64 - 1) * 2 ^ j) 64 b,
          bit_at-shl (2 ^ 64 - 1) j b,
          bit_at-low_mask 64 (b - j),
          bit_at-lt x b,
        ))

module _ (b : ℕ) (hb : b < 64) where
  pub bit_test-zero : bit_test 0 b ≡ false
  bit_test-zero = bit_test-bit_at 0 b hb ∙ ground (arith, zero-bit_at b)

  pub bit_test-ones : bit_test (2 ^ 64 - 1) b ≡ true
  bit_test-ones = bit_test-bit_at (2 ^ 64 - 1) b hb ∙ ground (arith, bit_at-low_mask 64 b)

  pub bit_test-not64 : (x : ℕ) → x < 2 ^ 64 → bit_test (not64 x) b ≡ not (bit_test x b)
  bit_test-not64 x h =
      rw (bit_test-bit_at (not64 x) b hb, bit_test-bit_at x b hb)
        (ground (arith, bit_at-complement 64 x b h, bit_at-lt x b))
