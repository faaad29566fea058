-- ===== src/Prelude/Words.antt =====
-- The words of C as native numbers: wrap-around, shifts, complement, masks and disjoint fields.
use Prim.Native.Nat.{ℕ, zero, suc, ◌+◌, ◌-◌, ◌*◌, ◌/◌, ◌%◌, ◌^◌, ◌≤◌, ◌<◌, bit_and, bit_or}
use mathlib.Core.Bool.{false}
use mathlib.Core.Path.{◌≡◌, sym, ap, ◌∙◌}
use native.Mathlib.Nat.{pow-suc, one-le-pow, mod-lt, sub-zero, add-zero, mul-one, pow-le-pow_right}
use native.Mathlib.Omega.{arith}
use reduct.Prelude.Tests.{ltb, if◌then◌else◌}
use reduct.Prelude.Bits.{
  bit_at, bit_at-lt, zero-bit_at, bit_at-bit_or, bit_at-bit_and, bit_at-shr, bit_at-shl, bit_at-mod,
  bit_at-complement, bit_at_beyond, bit_ext,
}

-- A conversion to `uint32_t`.
abbrev pub u32 : ℕ → ℕ
u32 x = x % 2 ^ 32

-- `x << s` and `~x` on `uint32_t`, and `x >> s` on any unsigned type.
abbrev pub shl32 : ℕ → ℕ → ℕ
shl32 x s = u32 (x * 2 ^ s)

abbrev pub not32 : ℕ → ℕ
not32 x = 2 ^ 32 - 1 - x

abbrev pub shr : ℕ → ℕ → ℕ
shr x s = x / 2 ^ s

-- `1 << w` less one: `w` ones.
abbrev pub low_mask : ℕ → ℕ
low_mask w = 2 ^ w - 1

pub bit_at-low_mask : (w k : ℕ) → bit_at (low_mask w) k ≡ (if ltb k w then 1 else 0)
bit_at-low_mask w k =
    ap (λ t. bit_at t k) whole
    ∙ bit_at-complement w 0 k (one-le-pow w 2 (omega arith))
    ∙ ground (arith, zero-bit_at k)
  where
    whole : low_mask w ≡ 2 ^ w - 1 - 0
    whole = omega arith

pub bit_and-low_mask : (w x : ℕ) → bit_and x (low_mask w) ≡ x % 2 ^ w
bit_and-low_mask w x = bit_ext _ _ λ k.
    ground
      (arith, bit_at-bit_and x (low_mask w) k, bit_at-low_mask w k, bit_at-mod x w k, bit_at-lt x k)

pub bit_at-add :
    (p x y k : ℕ)
    → x < 2 ^ p
    → bit_at (x + y * 2 ^ p) k ≡ (if ltb k p then bit_at x k else bit_at y (k - p))
bit_at-add zero x y k h = ap (λ t. bit_at t k) only_y ∙ ground (arith, sub-zero k)
  where
    only_y : x + y * 1 ≡ y
    only_y = omega arith
bit_at-add (suc p) x y zero h = ground (arith, ap (λ (t : ℕ). y * t) (pow-suc 2 p))
bit_at-add (suc p) x y (suc k) h =
    ap (λ t. bit_at t k) half ∙ bit_at-add p (x / 2) y k (omega (arith, pow-suc 2 p)) ∙ ground arith
  where
    half : (x + y * 2 ^ suc p) / 2 ≡ x / 2 + y * 2 ^ p
    half = omega (arith, ap (λ (t : ℕ). y * t) (pow-suc 2 p))

pub bit_or_add : (p x y : ℕ) → x < 2 ^ p → bit_or x (y * 2 ^ p) ≡ x + y * 2 ^ p
bit_or_add p x y h = bit_ext _ _ λ k. ground (
  arith,
  bit_at-bit_or x (y * 2 ^ p) k,
  bit_at-shl y p k,
  bit_at-add p x y k h,
  bit_at_beyond p x k h,
)

pub pow-add : (p w : ℕ) → 2 ^ (p + w) ≡ 2 ^ p * 2 ^ w
pow-add p zero = ap (λ t. 2 ^ t) (add-zero p) ∙ sym (mul-one (2 ^ p))
pow-add p (suc w) =
    ap (λ t. 2 ^ t) {x = p + suc w} {y = suc (p + w)} (omega arith)
    ∙ pow-suc 2 (p + w)
    ∙ omega (arith, pow-add p w, ap (λ (t : ℕ). 2 ^ p * t) (pow-suc 2 w))

pred-mul : (a b : ℕ) → 1 ≤ a → (a - 1) * b + b ≡ a * b
pred-mul zero b h = absurd (omega arith)
pred-mul (suc a) b h = omega (arith, ap (λ (t : ℕ). t * b) (pred-suc a))
  where
    pred-suc : (a : ℕ) → suc a - 1 ≡ a
    pred-suc a = omega arith

low_mask-mul : (p w : ℕ) → low_mask w * 2 ^ p + 2 ^ p ≡ 2 ^ (p + w)
low_mask-mul p w =
    omega (arith, pow-add p w, pred-mul (2 ^ w) (2 ^ p) (one-le-pow w 2 (omega arith)))

-- Moving `k` down and up again.
pub bit_at_back : (i n k : ℕ) → ltb k n ≡ false → bit_at i (k - n + n) ≡ bit_at i k
bit_at_back i n k h = ap (bit_at i) (back n k h)
  where
    back : (n k : ℕ) → ltb k n ≡ false → k - n + n ≡ k
    back n k h = ground arith

scale : (x y m : ℕ) → x ≤ m → x * y ≤ m * y
scale x y m h = grind arith

low-lt : (p w i : ℕ) → i % 2 ^ p < 2 ^ (p + w)
low-lt p w i = omega (
  arith,
  mod-lt i (one-le-pow p 2 (omega arith)),
  pow-le-pow_right {n = 2} (omega arith) {i = p} {j = p + w} (omega arith),
)

-- Clearing the `w` bits from bit `p` on keeps what stands below and above them.
pub clear_field :
    (p w i : ℕ)
    → p + w ≤ 32
    → i < 2 ^ 32
    → bit_and i (not32 (low_mask w * 2 ^ p)) ≡ i % 2 ^ p + i / 2 ^ (p + w) * 2 ^ (p + w)
clear_field p w i h small = bit_ext _ _ λ k. ground (
  arith,
  bit_at-bit_and i (not32 (low_mask w * 2 ^ p)) k,
  bit_at-complement 32 (low_mask w * 2 ^ p) k fits,
  bit_at-shl (low_mask w) p k,
  bit_at-low_mask w (k - p),
  bit_at-add (p + w) (i % 2 ^ p) (i / 2 ^ (p + w)) k below,
  bit_at-mod i p k,
  bit_at-shr i (p + w) (k - (p + w)),
  bit_at_back i (p + w) k,
  bit_at-lt i k,
  bit_at_beyond 32 i k small,
)
  where
    below : i % 2 ^ p < 2 ^ (p + w)
    below = low-lt p w i

    fits : low_mask w * 2 ^ p < 2 ^ 32
    fits = omega (
      arith,
      low_mask-mul p w,
      pow-le-pow_right {n = 2} (omega arith) {i = p + w} {j = 32} h,
      one-le-pow p 2 (omega arith),
    )

-- Writing `v` to the `w` bits from bit `p` on keeps what stands below and above them.
pub set_field :
    (p w i v : ℕ)
    → p + w ≤ 32
    → i < 2 ^ 32
    → bit_or (bit_and i (not32 (low_mask w * 2 ^ p))) (v % 2 ^ w * 2 ^ p)
      ≡ i % 2 ^ p + v % 2 ^ w * 2 ^ p + i / 2 ^ (p + w) * 2 ^ (p + w)
set_field p w i v h small =
    ap (λ t. bit_or t (v % 2 ^ w * 2 ^ p)) (clear_field p w i h small)
    ∙ bit_ext _ _ λ k. ground (
      arith,
      bit_at-bit_or (i % 2 ^ p + i / 2 ^ (p + w) * 2 ^ (p + w)) (v % 2 ^ w * 2 ^ p) k,
      bit_at-add (p + w) (i % 2 ^ p) (i / 2 ^ (p + w)) k below,
      bit_at-add (p + w) (i % 2 ^ p + v % 2 ^ w * 2 ^ p) (i / 2 ^ (p + w)) k both,
      bit_at-add p (i % 2 ^ p) (v % 2 ^ w) k (mod-lt i (one-le-pow p 2 (omega arith))),
      bit_at-shl (v % 2 ^ w) p k,
      bit_at-mod i p k,
      bit_at-mod v w (k - p),
    )
  where
    below : i % 2 ^ p < 2 ^ (p + w)
    below = low-lt p w i

    both : i % 2 ^ p + v % 2 ^ w * 2 ^ p < 2 ^ (p + w)
    both = omega (
      arith,
      mod-lt i (one-le-pow p 2 (omega arith)),
      scale (v % 2 ^ w) (2 ^ p) (low_mask w)
          (omega (arith, mod-lt v (one-le-pow w 2 (omega arith)))),
      low_mask-mul p w,
    )
