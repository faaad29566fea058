-- ===== src/Inst.antt =====
-- include/reduct/inst.h: the 32-bit instruction word, [ opcode | A | B | C ] of eight bits each, or
-- with the signed 16-bit jump offset sAx in the place of A and B. `Fields` proves that the macros
-- that build, read and change a word agree.
pub mod Fields
mod Tests
use reduct.Prelude.{
  ℕ, ◌+◌, ◌-◌, ◌*◌, ◌%◌, ◌^◌, Bool, ◌&&◌, ◌||◌, ltb, leb, ◌==◌, if◌then◌else◌, bit_and, bit_or,
}
use reduct.Prelude.Words.{u32, shl32, not32, shr}
use reduct.Prelude.Int.{ℤ, pos, negsuc}

abbrev pub width_opcode : ℕ
width_opcode = 8

abbrev pub width_a : ℕ
width_a = 8

abbrev pub width_b : ℕ
width_b = 8

abbrev pub width_c : ℕ
width_c = 8

abbrev pub width_sax : ℕ
width_sax = width_a + width_b

abbrev pub pos_opcode : ℕ
pos_opcode = 0

abbrev pub pos_a : ℕ
pos_a = pos_opcode + width_opcode

abbrev pub pos_b : ℕ
pos_b = pos_a + width_a

abbrev pub pos_c : ℕ
pos_c = pos_b + width_b

abbrev pub pos_sax : ℕ
pos_sax = pos_a

abbrev pub mask_opcode : ℕ
mask_opcode = 2 ^ width_opcode - 1

abbrev pub mask_a : ℕ
mask_a = 2 ^ width_a - 1

abbrev pub mask_b : ℕ
mask_b = 2 ^ width_b - 1

abbrev pub mask_c : ℕ
mask_c = 2 ^ width_c - 1

abbrev pub mask_sax : ℕ
mask_sax = 2 ^ width_sax - 1

-- A conversion of `int` to `uint32_t`, and of the low 16 bits of a word to `int16_t` and `int32_t`.
unfoldable pub u32_of : ℤ → ℕ
u32_of (pos n) = n % 2 ^ 32
u32_of (negsuc n) = 2 ^ 32 - 1 - n % 2 ^ 32

unfoldable pub i16_of : ℕ → ℤ
i16_of w = let v = w % 2 ^ 16 in if ltb v (2 ^ 15) then pos v else negsuc (2 ^ 16 - 1 - v)

unfoldable pub make_abc : ℕ → ℕ → ℕ → ℕ → ℕ
make_abc op a b c =
    bit_or
      (bit_or
        (bit_or (shl32 (bit_and (u32 op) mask_opcode) pos_opcode)
          (shl32 (bit_and (u32 a) mask_a) pos_a))
        (shl32 (bit_and (u32 b) mask_b) pos_b))
      (shl32 (bit_and (u32 c) mask_c) pos_c)

unfoldable pub make_saxc : ℕ → ℤ → ℕ → ℕ
unfolding u32_of
make_saxc op sax c =
    bit_or
      (bit_or (shl32 (bit_and (u32 op) mask_opcode) pos_opcode)
        (shl32 (bit_and (u32_of sax) mask_sax) pos_a))
      (shl32 (bit_and (u32 c) mask_c) pos_c)

unfoldable pub get_op : ℕ → ℕ
get_op inst = bit_and (shr inst pos_opcode) mask_opcode

unfoldable pub get_a : ℕ → ℕ
get_a inst = bit_and (shr inst pos_a) mask_a

unfoldable pub get_b : ℕ → ℕ
get_b inst = bit_and (shr inst pos_b) mask_b

unfoldable pub get_c : ℕ → ℕ
get_c inst = bit_and (shr inst pos_c) mask_c

unfoldable pub get_sax : ℕ → ℤ
unfolding i16_of
get_sax inst = i16_of (bit_and (shr inst pos_sax) mask_sax)

unfoldable pub set_op : ℕ → ℕ → ℕ
set_op inst op =
    bit_or (bit_and inst (not32 (shl32 mask_opcode pos_opcode)))
      (shl32 (bit_and op mask_opcode) pos_opcode)

unfoldable pub set_a : ℕ → ℕ → ℕ
set_a inst a = bit_or (bit_and inst (not32 (shl32 mask_a pos_a))) (shl32 (bit_and a mask_a) pos_a)

unfoldable pub set_b : ℕ → ℕ → ℕ
set_b inst b = bit_or (bit_and inst (not32 (shl32 mask_b pos_b))) (shl32 (bit_and b mask_b) pos_b)

unfoldable pub set_c : ℕ → ℕ → ℕ
set_c inst c = bit_or (bit_and inst (not32 (shl32 mask_c pos_c))) (shl32 (bit_and c mask_c) pos_c)

-- The value of `_sax` as an `int`; `&` with the unsigned mask converts it.
unfoldable pub set_sax : ℕ → ℤ → ℕ
unfolding u32_of
set_sax inst sax =
    bit_or (bit_and inst (not32 (shl32 mask_sax pos_a)))
      (shl32 (bit_and (u32_of sax) mask_sax) pos_a)
