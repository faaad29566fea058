-- ===== src/Prelude/Bits.antt =====
-- The bits of a word: `bit_at x k` is bit `k` of `x`. The native `&` and `|`, the shifts and the
-- complement of C act on it bit by bit, and a number is known by its bits.
use Prim.Native.Nat.{
  ℕ, zero, suc, ◌+◌, ◌-◌, ◌*◌, ◌/◌, ◌%◌, ◌^◌, ◌≤◌, ◌<◌, min, max, bit_and, bit_or, digits,
  bit_and-bitwise, bit_or-bitwise,
}
use mathlib.Core.Path.{◌≡◌, refl, sym, ap, ap₂, ◌∙◌, ◌≡⟨◌⟩◌, ◌∎}
use native.Mathlib.Nat.{
  le_refl, add-zero, mul-one, div-one, sub-zero, pow-suc, one-le-pow, div-div-eq-div-mul,
  div-add-mod, mod-lt, mod-eq_of_lt, add-mul-mod_self_left,
}
use native.Mathlib.Omega.{arith}
use reduct.Prelude.Tests.{ltb, if◌then◌else◌}

abbrev pub bit_at : ℕ → ℕ → ℕ
bit_at x zero = x % 2
bit_at x (suc k) = bit_at (x / 2) k

pub bit_at-lt : (x k : ℕ) → bit_at x k < 2
bit_at-lt x zero = omega arith
bit_at-lt x (suc k) = bit_at-lt (x / 2) k

pub zero-bit_at : (k : ℕ) → bit_at 0 k ≡ 0
zero-bit_at zero = refl
zero-bit_at (suc k) = zero-bit_at k

-- Bit `suc k` of twice `q` and a digit is bit `k` of `q`.
bit_at_digit : (q d k : ℕ) → d < 2 → bit_at (q * 2 + d) (suc k) ≡ bit_at q k
bit_at_digit q d k h = ap (λ t. bit_at t k) (half q d h)
  where
    half : (q d : ℕ) → d < 2 → (q * 2 + d) / 2 ≡ q
    half q d h = omega arith

or_digits :
    (n a b k : ℕ) → a ≤ n → bit_at (digits (λ y. y) max n a b) k ≡ max (bit_at a k) (bit_at b k)
or_digits zero zero b k h = omega (arith, zero-bit_at k)
or_digits zero (suc a) b k h = absurd (omega arith)
or_digits (suc n) zero b k h = omega (arith, zero-bit_at k)
or_digits (suc n) (suc a) b zero h = omega arith
or_digits (suc n) (suc a) b (suc k) h =
    bit_at_digit (digits (λ y. y) max n (suc a / 2) (b / 2)) (max (suc a % 2) (b % 2)) k
      (omega arith)
    ∙ or_digits n (suc a / 2) (b / 2) k (omega arith)

and_digits :
    (n a b k : ℕ) → a ≤ n → bit_at (digits (λ y. 0) min n a b) k ≡ min (bit_at a k) (bit_at b k)
and_digits zero zero b k h = omega (arith, zero-bit_at k)
and_digits zero (suc a) b k h = absurd (omega arith)
and_digits (suc n) zero b k h = omega (arith, zero-bit_at k)
and_digits (suc n) (suc a) b zero h = omega arith
and_digits (suc n) (suc a) b (suc k) h =
    bit_at_digit (digits (λ y. 0) min n (suc a / 2) (b / 2)) (min (suc a % 2) (b % 2)) k
      (omega arith)
    ∙ and_digits n (suc a / 2) (b / 2) k (omega arith)

pub bit_at-bit_or : (a b k : ℕ) → bit_at (bit_or a b) k ≡ max (bit_at a k) (bit_at b k)
bit_at-bit_or a b k = rw bit_or-bitwise (or_digits a a b k (le_refl a))

pub bit_at-bit_and : (a b k : ℕ) → bit_at (bit_and a b) k ≡ min (bit_at a k) (bit_at b k)
bit_at-bit_and a b k = rw bit_and-bitwise (and_digits a a b k (le_refl a))

pub bit_at-shr : (x s k : ℕ) → bit_at (x / 2 ^ s) k ≡ bit_at x (k + s)
bit_at-shr x zero k = ap₂ bit_at (div-one x) (sym (add-zero k))
bit_at-shr x (suc s) k =
    bit_at (x / 2 ^ suc s) k
    ≡⟨ ap (λ t. bit_at (x / t) k) (pow-suc 2 s) ⟩ bit_at (x / (2 ^ s * 2)) k
    ≡⟨ ap (λ t. bit_at t k) (sym (div-div-eq-div-mul x (2 ^ s) 2)) ⟩ bit_at (x / 2 ^ s) (suc k)
    ≡⟨ bit_at-shr x s (suc k) ⟩ bit_at x (suc k + s)
    ≡⟨ ap (bit_at x) {x = suc k + s} {y = k + suc s} (omega arith) ⟩ bit_at x (k + suc s) ∎

-- Shifting left by one more place doubles.
mul-pow-suc : (x s : ℕ) → x * 2 ^ suc s ≡ x * 2 ^ s * 2 + 0
mul-pow-suc x s = omega (arith, ap (λ (t : ℕ). x * t) (pow-suc 2 s))

pub bit_at-shl : (x s k : ℕ) → bit_at (x * 2 ^ s) k ≡ (if ltb k s then 0 else bit_at x (k - s))
bit_at-shl x zero k = ground (arith, mul-one x, sub-zero k)
bit_at-shl x (suc s) zero = ground (arith, mul-pow-suc x s)
bit_at-shl x (suc s) (suc k) =
    ap (λ t. bit_at t (suc k)) (mul-pow-suc x s)
    ∙ bit_at_digit (x * 2 ^ s) 0 k (omega arith)
    ∙ bit_at-shl x s k
    ∙ ground arith

-- The complement of a word of `n` bits.
pub bit_at-complement :
    (n x k : ℕ) → x < 2 ^ n → bit_at (2 ^ n - 1 - x) k ≡ (if ltb k n then 1 - bit_at x k else 0)
bit_at-complement zero x k h = ap (λ t. bit_at t k) none_left ∙ zero-bit_at k ∙ ground arith
  where
    none_left : 0 - x ≡ 0
    none_left = omega arith
bit_at-complement (suc n) x zero h = ground (arith, pow-suc 2 n, one-le-pow n 2)
bit_at-complement (suc n) x (suc k) h =
    ap (λ t. bit_at t k) half
    ∙ bit_at-complement n (x / 2) k (omega (arith, pow-suc 2 n))
    ∙ ground arith
  where
    half : (2 ^ suc n - 1 - x) / 2 ≡ 2 ^ n - 1 - x / 2
    half = omega (arith, pow-suc 2 n, one-le-pow n 2)

-- A word of `n` bits has none from bit `n` on.
pub bit_at_beyond : (n x k : ℕ) → x < 2 ^ n → n ≤ k → bit_at x k ≡ 0
bit_at_beyond zero x k h le = ap (λ t. bit_at t k) only_zero ∙ zero-bit_at k
  where
    only_zero : x ≡ 0
    only_zero = omega arith
bit_at_beyond (suc n) x zero h le = absurd (omega arith)
bit_at_beyond (suc n) x (suc k) h le =
    bit_at_beyond n (x / 2) k (omega (arith, pow-suc 2 n)) (omega arith)

mod_double : (x p : ℕ) → 0 < p → x % (p * 2) ≡ x / 2 % p * 2 + x % 2
mod_double x p h =
    ap (λ t. t % (p * 2)) parts
    ∙ add-mul-mod_self_left (x / 2 % p * 2 + x % 2) (p * 2) (x / 2 / p)
    ∙ mod-eq_of_lt fits
  where
    parts : x ≡ x / 2 % p * 2 + x % 2 + p * 2 * (x / 2 / p)
    parts = omega (arith, div-add-mod (x / 2) p)

    fits : x / 2 % p * 2 + x % 2 < p * 2
    fits = omega (arith, mod-lt (x / 2) h)

mod-pow-suc : (x n : ℕ) → x % 2 ^ suc n ≡ x / 2 % 2 ^ n * 2 + x % 2
mod-pow-suc x n =
    ap (λ (t : ℕ). x % t) (pow-suc 2 n) ∙ mod_double x (2 ^ n) (one-le-pow n 2 (omega arith))

pub bit_at-mod : (x n k : ℕ) → bit_at (x % 2 ^ n) k ≡ (if ltb k n then bit_at x k else 0)
bit_at-mod x zero k = ap (λ t. bit_at t k) none_left ∙ zero-bit_at k ∙ ground arith
  where
    none_left : x % 1 ≡ 0
    none_left = omega arith
bit_at-mod x (suc n) zero = ground (arith, mod-pow-suc x n)
bit_at-mod x (suc n) (suc k) =
    ap (λ t. bit_at t (suc k)) (mod-pow-suc x n)
    ∙ bit_at_digit (x / 2 % 2 ^ n) (x % 2) k (omega arith)
    ∙ bit_at-mod (x / 2) n k
    ∙ ground arith

bit_ext_below : (n a b : ℕ) → a ≤ n → b ≤ n → ((k : ℕ) → bit_at a k ≡ bit_at b k) → a ≡ b
bit_ext_below zero a b p q h = omega arith
bit_ext_below (suc n) a b p q h =
    omega (arith, h 0, bit_ext_below n (a / 2) (b / 2) (omega arith) (omega arith) (λ k. h (suc k)))

-- Numbers with the same bits are equal.
pub bit_ext : (a b : ℕ) → ((k : ℕ) → bit_at a k ≡ bit_at b k) → a ≡ b
bit_ext a b h = bit_ext_below (a + b) a b (omega arith) (omega arith) h
