-- ===== src/Bitmap/Tests.antt =====
-- Tests of bitmaps.
use reduct.Prelude.{ℕ, leb, ltb, ◌&&◌, ◌||◌, ◌≡◌, refl, some, not, List, [], ◌∷◌, arith}
use reduct.Bitmap.{scan_words, scan, test_bit, set_range, next_set, next_clear}
use reduct.Bitmap.Update.{test_bit-set_range}
use reduct.Bitmap.Search.{IsFirst}
use reduct.Bitmap.Finds.{next_clear-IsFirst}

abbrev two_words : List ℕ
two_words = 0 ∷ 12 ∷ []

next_set_66 : next_set two_words 2 5 ≡ some 66
unfolding next_set scan_words scan
next_set_66 = refl

next_clear-IsFirst_example :
    IsFirst (λ k. not (test_bit two_words k)) 66 128 (next_clear two_words 2 66)
next_clear-IsFirst_example = next_clear-IsFirst two_words 2 (omega arith, (omega arith, tt)) 66

test_bit-set_range_example :
    test_bit (set_range two_words 60 10) 64 ≡ ((leb 60 64 && ltb 64 70) || test_bit two_words 64)
test_bit-set_range_example = test_bit-set_range two_words 60 10 64 (omega arith)
