-- ===== src/Bitmap/Finds.antt =====
-- The results of the searches of bitmap.h.
use reduct.Prelude.{
  ℕ, zero, suc, ◌+◌, ◌-◌, ◌*◌, ◌/◌, ◌%◌, ◌<◌, ◌≡◌, refl, ap, ◌∙◌, Bool, false, not, List, none,
  arith, Bool-cases, inl, inr, leb, ◌==◌, ==_iff, bit_and, leb→le,
}
use reduct.Prelude.BitTests.{
  bit_test, shl64, not64, bit_test-zero, bit_test-ones, bit_test-not64, bit_test-from,
}
use reduct.Bitmap.{word_at, ones, test_bit, find_first_clear, next_set, next_clear, find_last_set}
use reduct.Bitmap.Search.{IsFirst, IsLast, IsLast-or_else, scan_down-IsLast}
use reduct.Bitmap.Scan.{
  AreWords, word_at-lt, passes-word, word-skipped, scan_words-IsFirst, scan_from-IsFirst,
}

le_of_not_leb : (a b : ℕ) → leb a b ≡ false → b < a
le_of_not_leb a b h = ground arith

module _ (bitmap : List ℕ) (size : ℕ) where
  -- `find_first_clear` finds the first clear bit of `size` words.
  pub find_first_clear-IsFirst :
      IsFirst (λ k. not (test_bit bitmap k)) 0 (size * 64) (find_first_clear bitmap size)
  unfolding find_first_clear test_bit
  find_first_clear-IsFirst =
      scan_words-IsFirst (λ w b. not (bit_test w b)) bitmap ones (λ c h. ap not (bit_test-ones c h))
        size 0 0 (size * 64) (omega arith) (omega arith)

  -- `next_set` finds the first set bit from `start` on.
  pub next_set-IsFirst :
      (start : ℕ) → IsFirst (test_bit bitmap) start (size * 64) (next_set bitmap size start)
  unfolding next_set test_bit
  next_set-IsFirst start =
      let i = start / 64 in
      let b = start % 64 in
      elim (Bool-cases (leb size i)) [
        | inl beyond ↦ rw beyond (λ k p q. absurd (omega (arith, leb→le _ _ beyond)))
        | inr inside ↦ rw inside (
            scan_from-IsFirst bit_test bitmap (bit_and (word_at bitmap i) (shl64 ones b)) i b start
              (size * 64) _ (omega arith) (omega arith) (omega (arith, le_of_not_leb size i inside))
              (λ c p q. bit_test-from (word_at bitmap i) b c (omega arith) q ∙ ground arith)
              (scan_words-IsFirst bit_test bitmap 0 bit_test-zero (size - (i + 1)) (i + 1) _ _ refl
                (omega (arith, le_of_not_leb size i inside))))
      ]

  -- `next_clear` finds the first clear bit from `start` on, in an array of 64-bit words.
  pub next_clear-IsFirst :
      AreWords bitmap
      → (start : ℕ)
      → IsFirst (λ k. not (test_bit bitmap k)) start (size * 64) (next_clear bitmap size start)
  unfolding next_clear test_bit
  next_clear-IsFirst are start =
      let i = start / 64 in
      let b = start % 64 in
      let clear : ℕ → ℕ → Bool = λ w b. not (bit_test w b) in
      elim (Bool-cases (leb size i)) [
        | inl beyond ↦ rw beyond (λ k p q. absurd (omega (arith, leb→le _ _ beyond)))
        | inr inside ↦ rw inside (
            scan_from-IsFirst clear bitmap (bit_and (not64 (word_at bitmap i)) (shl64 ones b)) i b
              start (size * 64) _ (omega arith) (omega arith)
              (omega (arith, le_of_not_leb size i inside))
              (λ c p q.
                bit_test-from (not64 (word_at bitmap i)) b c (omega arith) q
                ∙ ground (arith, bit_test-not64 c q (word_at bitmap i) (word_at-lt bitmap i are)))
              (scan_words-IsFirst clear bitmap ones (λ c h. ap not (bit_test-ones c h))
                (size - (i + 1)) (i + 1) _ _ refl (omega (arith, le_of_not_leb size i inside))))
      ]

-- `find_last_set` finds the last set bit of `size` words.
pub find_last_set-IsLast :
    (bitmap : List ℕ) (size : ℕ)
    → IsLast (test_bit bitmap) 0 (size * 64) (find_last_set bitmap size)
unfolding find_last_set test_bit
find_last_set-IsLast bitmap zero = λ k p q. absurd (omega arith)
find_last_set-IsLast bitmap (suc i) =
    let rest = find_last_set-IsLast bitmap i in
    let w = word_at bitmap i in
    elim (Bool-cases (w == 0)) [
      | inl is_zero ↦ rw is_zero (
          IsLast-or_else (test_bit bitmap) 0 (i * 64) (suc i * 64) none _ (omega arith)
            (omega arith)
            (word-skipped bit_test bitmap 0 i bit_test-zero ((==_iff w 0).0 is_zero) (i * 64)
              (suc i * 64) (omega arith) (omega arith))
            rest)
      | inr some_bit ↦ rw some_bit (
          IsLast-or_else (test_bit bitmap) 0 (i * 64) (suc i * 64) _ _ (omega arith) (omega arith)
            (scan_down-IsLast (test_bit bitmap) (bit_test w) i 64 (i * 64) (suc i * 64) refl
              (omega arith) (λ c h. passes-word bit_test bitmap i c h))
            rest)
    ]
