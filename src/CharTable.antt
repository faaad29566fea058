-- ===== src/CharTable.antt =====
-- include/reduct/char.h and src/char.c: the table of character classes, cases, escapes and digit
-- values. A place with no initialiser is all zero, and of two initialisers the table has none.
mod Cases
mod Tests
pub mod Escape
use reduct.Prelude.{ℕ, ◌+◌, ◌-◌, ◌*◌, ◌≡◌, Bool, not, List, [], ◌∷◌, ◌==◌, if◌then◌else◌, bit_and}

-- The flags of `reduct_char_flags_t`.
abbrev pub letter : ℕ
letter = 1

abbrev pub digit : ℕ
digit = 2

abbrev pub symbol : ℕ
symbol = 4

abbrev pub whitespace : ℕ
whitespace = 8

abbrev pub hex_digit : ℕ
hex_digit = 16

pub record CharInfo : Type 0 where
  pub flags : ℕ
  pub upper : ℕ
  pub lower : ℕ
  pub decode_escape : ℕ
  pub encode_escape : ℕ
  pub integer : ℕ

abbrev pub entry : ℕ → ℕ → ℕ → ℕ → ℕ → ℕ → CharInfo
entry flags upper lower decode_escape encode_escape integer = record {
  flags = flags;
  upper = upper;
  lower = lower;
  decode_escape = decode_escape;
  encode_escape = encode_escape;
  integer = integer;
}

-- The initialisers of `reductCharTable`, in the order of the source.
unfoldable pub entries : List (ℕ × CharInfo)
entries =
    (7, entry 0 7 7 0 97 0)
    ∷ (8, entry 0 8 8 0 98 0)
    ∷ (27, entry 0 27 27 0 101 0)
    ∷ (12, entry 0 12 12 0 102 0)
    ∷ (11, entry 0 11 11 0 118 0)
    ∷ (92, entry 0 92 92 92 92 0)
    ∷ (39, entry 0 39 39 39 39 0)
    ∷ (34, entry 0 34 34 34 34 0)
    ∷ (32, entry whitespace 32 32 0 0 0)
    ∷ (9, entry whitespace 9 9 0 116 0)
    ∷ (10, entry whitespace 10 10 0 110 0)
    ∷ (13, entry whitespace 13 13 0 114 0)
    ∷ (33, entry symbol 33 33 0 0 0)
    ∷ (36, entry symbol 36 36 0 0 0)
    ∷ (37, entry symbol 37 37 0 0 0)
    ∷ (38, entry symbol 38 38 0 0 0)
    ∷ (42, entry symbol 42 42 0 0 0)
    ∷ (43, entry symbol 43 43 0 0 0)
    ∷ (44, entry symbol 44 44 0 0 0)
    ∷ (45, entry symbol 45 45 0 0 0)
    ∷ (46, entry symbol 46 46 0 0 0)
    ∷ (47, entry symbol 47 47 0 0 0)
    ∷ (58, entry symbol 58 58 0 0 0)
    ∷ (59, entry symbol 59 59 0 0 0)
    ∷ (60, entry symbol 60 60 0 0 0)
    ∷ (61, entry symbol 61 61 0 0 0)
    ∷ (62, entry symbol 62 62 0 0 0)
    ∷ (63, entry symbol 63 63 63 63 0)
    ∷ (64, entry symbol 64 64 0 0 0)
    ∷ (94, entry symbol 94 94 0 0 0)
    ∷ (95, entry symbol 95 95 0 0 0)
    ∷ (96, entry symbol 96 96 0 0 0)
    ∷ (124, entry symbol 124 124 0 0 0)
    ∷ (126, entry symbol 126 126 0 0 0)
    ∷ (123, entry symbol 123 123 0 0 0)
    ∷ (125, entry symbol 125 125 0 0 0)
    ∷ (91, entry symbol 91 91 0 0 0)
    ∷ (93, entry symbol 93 93 0 0 0)
    ∷ (35, entry symbol 35 35 0 0 0)
    ∷ (48, entry (digit + hex_digit) 48 48 0 0 0)
    ∷ (49, entry (digit + hex_digit) 49 49 0 0 1)
    ∷ (50, entry (digit + hex_digit) 50 50 0 0 2)
    ∷ (51, entry (digit + hex_digit) 51 51 0 0 3)
    ∷ (52, entry (digit + hex_digit) 52 52 0 0 4)
    ∷ (53, entry (digit + hex_digit) 53 53 0 0 5)
    ∷ (54, entry (digit + hex_digit) 54 54 0 0 6)
    ∷ (55, entry (digit + hex_digit) 55 55 0 0 7)
    ∷ (56, entry (digit + hex_digit) 56 56 0 0 8)
    ∷ (57, entry (digit + hex_digit) 57 57 0 0 9)
    ∷ (65, entry (letter + hex_digit) 65 97 0 0 10)
    ∷ (66, entry (letter + hex_digit) 66 98 0 0 11)
    ∷ (67, entry (letter + hex_digit) 67 99 0 0 12)
    ∷ (68, entry (letter + hex_digit) 68 100 0 0 13)
    ∷ (69, entry (letter + hex_digit) 69 101 0 0 14)
    ∷ (70, entry (letter + hex_digit) 70 102 0 0 15)
    ∷ (71, entry letter 71 103 0 0 0)
    ∷ (72, entry letter 72 104 0 0 0)
    ∷ (73, entry letter 73 105 0 0 0)
    ∷ (74, entry letter 74 106 0 0 0)
    ∷ (75, entry letter 75 107 0 0 0)
    ∷ (76, entry letter 76 108 0 0 0)
    ∷ (77, entry letter 77 109 0 0 0)
    ∷ (78, entry letter 78 110 0 0 0)
    ∷ (79, entry letter 79 111 0 0 0)
    ∷ (80, entry letter 80 112 0 0 0)
    ∷ (81, entry letter 81 113 0 0 0)
    ∷ (82, entry letter 82 114 0 0 0)
    ∷ (83, entry letter 83 115 0 0 0)
    ∷ (84, entry letter 84 116 0 0 0)
    ∷ (85, entry letter 85 117 0 0 0)
    ∷ (86, entry letter 86 118 0 0 0)
    ∷ (87, entry letter 87 119 0 0 0)
    ∷ (88, entry letter 88 120 0 0 0)
    ∷ (89, entry letter 89 121 0 0 0)
    ∷ (90, entry letter 90 122 0 0 0)
    ∷ (97, entry (letter + hex_digit) 65 97 7 0 10)
    ∷ (98, entry (letter + hex_digit) 66 98 8 0 11)
    ∷ (99, entry (letter + hex_digit) 67 99 0 0 12)
    ∷ (100, entry (letter + hex_digit) 68 100 0 0 13)
    ∷ (101, entry (letter + hex_digit) 69 101 27 0 14)
    ∷ (102, entry (letter + hex_digit) 70 102 12 0 15)
    ∷ (103, entry letter 71 103 0 0 0)
    ∷ (104, entry letter 72 104 0 0 0)
    ∷ (105, entry letter 73 105 0 0 0)
    ∷ (106, entry letter 74 106 0 0 0)
    ∷ (107, entry letter 75 107 0 0 0)
    ∷ (108, entry letter 76 108 0 0 0)
    ∷ (109, entry letter 77 109 0 0 0)
    ∷ (110, entry letter 78 110 10 0 0)
    ∷ (111, entry letter 79 111 0 0 0)
    ∷ (112, entry letter 80 112 0 0 0)
    ∷ (113, entry letter 81 113 0 0 0)
    ∷ (114, entry letter 82 114 13 0 0)
    ∷ (115, entry letter 83 115 0 0 0)
    ∷ (116, entry letter 84 116 9 0 0)
    ∷ (117, entry letter 85 117 0 0 0)
    ∷ (118, entry letter 86 118 11 0 0)
    ∷ (119, entry letter 87 119 0 0 0)
    ∷ (120, entry letter 88 120 0 0 0)
    ∷ (121, entry letter 89 121 0 0 0)
    ∷ (122, entry letter 90 122 0 0 0)
    ∷ []

abbrev find : List (ℕ × CharInfo) → ℕ → CharInfo
find [] c = entry 0 0 0 0 0 0
find ((d, info) ∷ rest) c = if c == d then info else find rest c

-- `reductCharTable[c]`.
unfoldable pub char_info : ℕ → CharInfo
unfolding entries
char_info c = find entries c

unfoldable pub to_lower : ℕ → ℕ
unfolding char_info
to_lower c = (char_info c).lower

unfoldable pub to_upper : ℕ → ℕ
unfolding char_info
to_upper c = (char_info c).upper

-- `flags & mask` as a truth value.
unfoldable pub char_has : ℕ → ℕ → Bool
unfolding char_info
char_has mask c = not (bit_and (char_info c).flags mask == 0)

unfoldable pub is_whitespace : ℕ → Bool
unfolding char_has
is_whitespace = char_has whitespace

unfoldable pub is_letter : ℕ → Bool
unfolding char_has
is_letter = char_has letter

unfoldable pub is_digit : ℕ → Bool
unfolding char_has
is_digit = char_has digit

unfoldable pub is_symbol : ℕ → Bool
unfolding char_has
is_symbol = char_has symbol

unfoldable pub is_hex_digit : ℕ → Bool
unfolding char_has
is_hex_digit = char_has hex_digit
