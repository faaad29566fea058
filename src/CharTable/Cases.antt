-- ===== src/CharTable/Cases.antt =====
-- The classes and cases of the ASCII characters, and those of the characters with no place.
use reduct.Prelude.{
  ℕ, ◌+◌, ◌-◌, ◌<◌, ◌≡◌, refl, Bool, true, false, ◌&&◌, ◌||◌, not, leb, ◌==◌, ==_iff, if◌then◌else◌,
}
use reduct.Prelude.Tables.{every_below, every_below_sound}
use reduct.CharTable.{
  to_lower, to_upper, is_letter, is_digit, is_hex_digit, is_whitespace, char_info,
}

abbrev pub between : ℕ → ℕ → ℕ → Bool
between lo hi c = leb lo c && leb c hi

abbrev pub is_upper : ℕ → Bool
is_upper = between 65 90

abbrev pub is_lower : ℕ → Bool
is_lower = between 97 122

abbrev pub same : Bool → Bool → Bool
same true b = b
same false b = not b

-- Whether a character has a place in the table.
abbrev pub is_listed : ℕ → Bool
is_listed c = between 7 13 c || c == 27 || between 32 39 c || between 42 126 c

same_sound : (a b : Bool) → same a b ≡ true → a ≡ b
same_sound true true e = refl
same_sound true false e = cc
same_sound false true e = cc
same_sound false false e = refl

-- What a test on every byte says of one of them.
at_byte :
    (f g : ℕ → Bool) (c : ℕ) → every_below 256 (λ x. same (f x) (g x)) ≡ true → c < 256 → f c ≡ g c
at_byte f g c table lt =
    same_sound (f c) (g c) (every_below_sound 256 (λ x. same (f x) (g x)) c table lt)

at_byte_nat : (f g : ℕ → ℕ) (c : ℕ) → every_below 256 (λ x. f x == g x) ≡ true → c < 256 → f c ≡ g c
at_byte_nat f g c table lt =
    (==_iff (f c) (g c)).0 (every_below_sound 256 (λ x. f x == g x) c table lt)

-- The classes of a byte are those of its ASCII character: a letter is one of A to Z or a to z, a
-- digit one of 0 to 9, a hexadecimal digit a digit or one of A to F or a to f, and whitespace a
-- space, tab, newline or carriage return.
pub classes_lem :
    (c : ℕ)
    → c < 256
    → (is_letter c ≡ (is_upper c || is_lower c))
      × (is_digit c ≡ between 48 57 c)
      × (is_hex_digit c ≡ (between 48 57 c || between 65 70 c || between 97 102 c))
      × (is_whitespace c ≡ (c == 32 || c == 9 || c == 10 || c == 13))
unfolding every_below is_letter is_digit is_hex_digit is_whitespace
classes_lem c lt = (
  at_byte is_letter (λ x. is_upper x || is_lower x) c refl lt,
  at_byte is_digit (between 48 57) c refl lt,
  at_byte is_hex_digit (λ x. between 48 57 x || between 65 70 x || between 97 102 x) c refl lt,
  at_byte is_whitespace (λ x. x == 32 || x == 9 || x == 10 || x == 13) c refl lt,
)

-- The upper and the lower case of a byte: those of its ASCII character, but the byte zero for
-- every byte with no place in the table, which both parentheses and all bytes from 127 on are.
pub cases_lem :
    (c : ℕ)
    → c < 256
    → (to_upper c ≡ (if is_lower c then c - 32 else if is_listed c then c else 0))
      × (to_lower c ≡ (if is_upper c then c + 32 else if is_listed c then c else 0))
unfolding every_below to_upper to_lower
cases_lem c lt = (
  at_byte_nat to_upper (λ x. if is_lower x then x - 32 else if is_listed x then x else 0) c refl lt,
  at_byte_nat to_lower (λ x. if is_upper x then x + 32 else if is_listed x then x else 0) c refl lt,
)

-- The value of a hexadecimal digit is its place in its run of digits or letters.
pub integer_lem :
    (c : ℕ)
    → c < 256
    → (char_info c).integer ≡ (
        if between 48 57 c
        then c - 48
        else if between 65 70 c
        then c - 55
        else if between 97 102 c
        then c - 87
        else 0)
unfolding every_below char_info
integer_lem c lt =
    at_byte_nat (λ x. (char_info x).integer)
      (λ x.
        if between 48 57 x
        then x - 48
        else if between 65 70 x
        then x - 55
        else if between 97 102 x
        then x - 87
        else 0)
      c refl lt
