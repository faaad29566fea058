-- ===== src/Bitmap.antt =====
-- include/reduct/bitmap.h: sets of indices in an array of 64-bit words, searched word by word. The
-- array is a list of words and `size` its length, as the callers pass it; `none` stands for
-- REDUCT_BITMAP_INDEX_NONE. `Search` describes a search independently of words, and `Finds` proves
-- that each of the searches of the header meets that description.
pub mod Search
pub mod Scan
pub mod Update
pub mod Finds
mod Tests
use reduct.Prelude.{
  ℕ, zero, suc, ◌+◌, ◌-◌, ◌*◌, ◌/◌, ◌%◌, ◌^◌, Bool, not, List, Option, none, some, bit_and, bit_or,
  ltb, leb, ◌==◌, if◌then◌else◌, get_or, set,
}
use reduct.Prelude.BitTests.{bit_test, shl64, not64}

abbrev pub width : ℕ
width = 64

-- `REDUCT_BITMAP_SIZE`.
abbrev pub words_for : ℕ → ℕ
words_for bits = (bits + (width - 1)) / width

abbrev pub word_at : List ℕ → ℕ → ℕ
word_at bitmap i = get_or bitmap i 0

unfoldable pub set_bit : List ℕ → ℕ → List ℕ
set_bit bitmap bit =
    set bitmap (bit / width) (bit_or (word_at bitmap (bit / width)) (shl64 1 (bit % width)))

unfoldable pub clear_bit : List ℕ → ℕ → List ℕ
clear_bit bitmap bit =
    set bitmap (bit / width)
      (bit_and (word_at bitmap (bit / width)) (not64 (shl64 1 (bit % width))))

unfoldable pub test_bit : List ℕ → ℕ → Bool
test_bit bitmap bit = bit_test (word_at bitmap (bit / width)) (bit % width)

-- The loop of `reduct_bitmap_set_range`, from `bit` on, with `count` rounds left.
unfoldable pub set_range : List ℕ → ℕ → ℕ → List ℕ
set_range bitmap bit zero = bitmap
set_range bitmap bit (suc count) = set_range (set_bit bitmap bit) (bit + 1) count

-- `for (; b < 64; b++) if (test(b)) return i * 64 + b;`, with `left` rounds left.
unfoldable pub scan : (ℕ → Bool) → ℕ → ℕ → ℕ → Option ℕ
scan test i b zero = none
scan test i b (suc left) =
    let rest = scan test i (b + 1) left in if test b then some (i * width + b) else rest

-- What a search goes on with when a word gave no result.
abbrev pub or_else : Option ℕ → Option ℕ → Option ℕ
or_else none rest = rest
or_else (some r) rest = some r

-- The loop over the words that are left: those that differ from `skip` are scanned.
unfoldable pub scan_words : (ℕ → ℕ → Bool) → ℕ → List ℕ → ℕ → ℕ → Option ℕ
scan_words test skip bitmap i zero = none
scan_words test skip bitmap i (suc left) =
    let rest = scan_words test skip bitmap (i + 1) left in
    let here = scan (test (word_at bitmap i)) i 0 width in
    if word_at bitmap i == skip then rest else or_else here rest

abbrev pub ones : ℕ
ones = 2 ^ 64 - 1

unfoldable pub find_first_clear : List ℕ → ℕ → Option ℕ
find_first_clear bitmap size = scan_words (λ w b. not (bit_test w b)) ones bitmap 0 size

unfoldable pub next_set : List ℕ → ℕ → ℕ → Option ℕ
next_set bitmap size start =
    let i = start / width in
    let b = start % width in
    let word = bit_and (word_at bitmap i) (shl64 ones b) in
    let here = scan (bit_test word) i b (width - b) in
    let rest = scan_words bit_test 0 bitmap (i + 1) (size - (i + 1)) in
    if leb size i then none else if word == 0 then rest else or_else here rest

unfoldable pub next_clear : List ℕ → ℕ → ℕ → Option ℕ
next_clear bitmap size start =
    let i = start / width in
    let b = start % width in
    let word = bit_and (not64 (word_at bitmap i)) (shl64 ones b) in
    let here = scan (bit_test word) i b (width - b) in
    let rest = scan_words (λ w b. not (bit_test w b)) ones bitmap (i + 1) (size - (i + 1)) in
    if leb size i then none else if word == 0 then rest else or_else here rest

-- `for (b = 63; b >= 0; b--) if (test(b)) return i * 64 + b;`, with bits below `b` left.
unfoldable pub scan_down : (ℕ → Bool) → ℕ → ℕ → Option ℕ
scan_down test i zero = none
scan_down test i (suc b) =
    let rest = scan_down test i b in if test b then some (i * width + b) else rest

-- The loop from the last word down, with the words below `i` left.
unfoldable pub find_last_set : List ℕ → ℕ → Option ℕ
find_last_set bitmap zero = none
find_last_set bitmap (suc i) =
    let rest = find_last_set bitmap i in
    let here = scan_down (bit_test (word_at bitmap i)) i width in
    if word_at bitmap i == 0 then rest else or_else here rest
