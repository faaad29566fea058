-- ===== src/Bitmap/Update.antt =====
-- What setting and clearing bits changes.
use reduct.Prelude.{
  ℕ, zero, suc, ◌+◌, ◌*◌, ◌/◌, ◌%◌, ◌≤◌, ◌<◌, ◌≡◌, sym, ap, ap₂, ◌∙◌, Bool, false, not, ◌&&◌, ◌||◌,
  List, arith, Bool-cases, inl, inr, ltb, leb, if◌then◌else◌, ◌==◌, ==_iff, bit_and, bit_or, length,
  set, length-set, get_or-set_self, get_or-set_ne,
}
use reduct.Prelude.BitTests.{bit_test, shl64, not64, bit_test-set, bit_test-clear}
use reduct.Bitmap.{word_at, set_bit, clear_bit, test_bit, set_range}

-- Reading a bit after the word that holds bit `j` is replaced by `v`.
test_bit-set :
    (bitmap : List ℕ) (j v k : ℕ)
    → j < length bitmap * 64
    → test_bit (set bitmap (j / 64) v) k
      ≡ (if k / 64 == j / 64 then bit_test v (k % 64) else test_bit bitmap k)
unfolding test_bit
test_bit-set bitmap j v k h = elim (Bool-cases (k / 64 == j / 64)) [
  | inl same ↦
      rw (same, (==_iff _ _).0 same)
        (ap (λ w. bit_test w (k % 64)) (get_or-set_self bitmap (j / 64) v 0 (omega arith)))
  | inr other ↦
      rw other
        (ap (λ w. bit_test w (k % 64)) (get_or-set_ne bitmap (j / 64) (k / 64) v 0 (ground arith)))
]

same_bit : (k j : ℕ) → k / 64 ≡ j / 64 → (k % 64 == j % 64) ≡ (k == j)
same_bit k j h = ground arith

other_bit : (k j : ℕ) → (k / 64 == j / 64) ≡ false → (k == j) ≡ false
other_bit k j h = ground arith

module _ (bitmap : List ℕ) (j k : ℕ) (fits : j < length bitmap * 64) where
  -- Setting bit `j` of the array sets it and keeps every other bit.
  pub test_bit-set_bit : test_bit (set_bit bitmap j) k ≡ (k == j || test_bit bitmap k)
  unfolding set_bit
  test_bit-set_bit =
      test_bit-set bitmap j (bit_or (word_at bitmap (j / 64)) (shl64 1 (j % 64))) k fits
      ∙ elim (Bool-cases (k / 64 == j / 64)) [
        | inl same ↦
            let e = (==_iff (k / 64) (j / 64)).0 same in
            rw same (
              bit_test-set (word_at bitmap (j / 64)) (j % 64) (k % 64) (omega arith) (omega arith)
              ∙ ap₂ ◌||◌ (same_bit k j e)
                  (unfold test_bit in ap (λ q. bit_test (word_at bitmap q) (k % 64)) (sym e)))
        | inr other ↦ rw (other, other_bit k j other)
      ]

  -- Clearing bit `j` of the array clears it and keeps every other bit.
  pub test_bit-clear_bit : test_bit (clear_bit bitmap j) k ≡ (not (k == j) && test_bit bitmap k)
  unfolding clear_bit
  test_bit-clear_bit =
      test_bit-set bitmap j (bit_and (word_at bitmap (j / 64)) (not64 (shl64 1 (j % 64)))) k fits
      ∙ elim (Bool-cases (k / 64 == j / 64)) [
        | inl same ↦
            let e = (==_iff (k / 64) (j / 64)).0 same in
            rw same (
              bit_test-clear (word_at bitmap (j / 64)) (j % 64) (k % 64) (omega arith) (omega arith)
              ∙ ap₂ (λ b c. not b && c) (same_bit k j e)
                  (unfold test_bit in ap (λ q. bit_test (word_at bitmap q) (k % 64)) (sym e)))
        | inr other ↦ rw (other, other_bit k j other)
      ]

length-set_bit : (bitmap : List ℕ) (j : ℕ) → length (set_bit bitmap j) ≡ length bitmap
unfolding set_bit
length-set_bit bitmap j = length-set bitmap _ _

in_range_step :
    (start k count : ℕ) (b : Bool)
    → ((leb (start + 1) k && ltb k (start + 1 + count)) || (k == start || b))
      ≡ ((leb start k && ltb k (start + suc count)) || b)
in_range_step start k count b = ground arith

-- `set_range` sets the bits of its range and keeps every other bit.
pub test_bit-set_range :
    (bitmap : List ℕ) (start count k : ℕ)
    → start + count ≤ length bitmap * 64
    → test_bit (set_range bitmap start count) k
      ≡ ((leb start k && ltb k (start + count)) || test_bit bitmap k)
unfolding set_range
test_bit-set_range bitmap start zero k h = ground arith
test_bit-set_range bitmap start (suc count) k h =
    test_bit-set_range (set_bit bitmap start) (start + 1) count k
      (omega (arith, length-set_bit bitmap start))
    ∙ ap (λ b. (leb (start + 1) k && ltb k (start + 1 + count)) || b)
        (test_bit-set_bit bitmap start k (omega arith))
    ∙ in_range_step start k count (test_bit bitmap k)
