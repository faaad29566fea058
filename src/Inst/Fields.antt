-- ===== src/Inst/Fields.antt =====
-- The words that the macros of inst.h build, read and patch.
use reduct.Prelude.{ℕ, ◌+◌, ◌*◌, ◌/◌, ◌%◌, ◌^◌, ◌<◌, ◌≡◌, sym, ap, ◌∙◌, arith, bit_and, bit_or}
use reduct.Prelude.Words.{u32, shl32, bit_and-low_mask, bit_or_add, set_field}
use reduct.Prelude.Int.{ℤ, pos, negsuc, NegLe, LtPos}
use reduct.Inst.{
  u32_of, i16_of, make_abc, make_saxc, get_op, get_a, get_b, get_c, get_sax, set_op, set_a, set_b,
  set_c, set_sax,
}

-- The word with four fields that fit.
abbrev word : ℕ → ℕ → ℕ → ℕ → ℕ
word op a b c = op + a * 2 ^ 8 + b * 2 ^ 16 + c * 2 ^ 24

mask8 : (x : ℕ) → bit_and x 255 ≡ x % 256
mask8 x = bit_and-low_mask 8 x

mask16 : (x : ℕ) → bit_and x 65535 ≡ x % 65536
mask16 x = bit_and-low_mask 16 x

-- Fields that fit, joined by `|`.
join_fields :
    (x y z w : ℕ)
    → x < 256
    → y < 256
    → z < 256
    → bit_or (bit_or (bit_or x (y * 2 ^ 8)) (z * 2 ^ 16)) (w * 2 ^ 24) ≡ word x y z w
join_fields x y z w hx hy hz =
    rw (bit_or_add 8 x y hx, bit_or_add 16 (x + y * 2 ^ 8) z (omega arith))
      (bit_or_add 24 (x + y * 2 ^ 8 + z * 2 ^ 16) w (omega arith))

field_op : (v : ℕ) → shl32 (bit_and (u32 v) 255) 0 ≡ v % 256
field_op v = omega (arith, mask8 (u32 v))

field_a : (v : ℕ) → shl32 (bit_and (u32 v) 255) 8 ≡ v % 256 * 2 ^ 8
field_a v = omega (arith, mask8 (u32 v))

field_b : (v : ℕ) → shl32 (bit_and (u32 v) 255) 16 ≡ v % 256 * 2 ^ 16
field_b v = omega (arith, mask8 (u32 v))

field_c : (v : ℕ) → shl32 (bit_and (u32 v) 255) 24 ≡ v % 256 * 2 ^ 24
field_c v = omega (arith, mask8 (u32 v))

pub make_abc-word :
    (op a b c : ℕ) → make_abc op a b c ≡ word (op % 256) (a % 256) (b % 256) (c % 256)
unfolding make_abc
make_abc-word op a b c =
    rw (field_op op, field_a a, field_b b, field_c c)
      (join_fields (op % 256) (a % 256) (b % 256) (c % 256) (omega arith) (omega arith)
        (omega arith))

-- The readers as arithmetic.
pub getters :
    (i : ℕ)
    → (get_op i ≡ i % 256)
      × (get_a i ≡ i / 2 ^ 8 % 256)
      × (get_b i ≡ i / 2 ^ 16 % 256)
      × (get_c i ≡ i / 2 ^ 24 % 256)
unfolding get_op get_a get_b get_c
getters i =
    (omega (arith, mask8 (i / 1)), mask8 (i / 2 ^ 8), mask8 (i / 2 ^ 16), mask8 (i / 2 ^ 24))

-- Reading the fields of a word that `MAKE_ABC` built gives the low eight bits of its arguments.
pub get-make_abc :
    (op a b c : ℕ)
    → (get_op (make_abc op a b c) ≡ op % 256)
      × (get_a (make_abc op a b c) ≡ a % 256)
      × (get_b (make_abc op a b c) ≡ b % 256)
      × (get_c (make_abc op a b c) ≡ c % 256)
get-make_abc op a b c = omega (arith, make_abc-word op a b c, getters (make_abc op a b c))

-- A 32-bit word is rebuilt by `MAKE_ABC` from its four fields.
pub make_abc-get : (i : ℕ) → i < 2 ^ 32 → make_abc (get_op i) (get_a i) (get_b i) (get_c i) ≡ i
make_abc-get i h = omega (arith, make_abc-word (get_op i) (get_a i) (get_b i) (get_c i), getters i)

-- A value shifted to its place.
placed :
    (v : ℕ)
    → (shl32 (bit_and v 255) 0 ≡ v % 256 * 2 ^ 0)
      × (shl32 (bit_and v 255) 8 ≡ v % 256 * 2 ^ 8)
      × (shl32 (bit_and v 255) 16 ≡ v % 256 * 2 ^ 16)
      × (shl32 (bit_and v 255) 24 ≡ v % 256 * 2 ^ 24)
placed v = omega (arith, mask8 v)

-- A word as `MAKE_ABC` builds it, from an equation with its fields in their places.
as_fields :
    (op a b c n : ℕ) → n ≡ word (op % 256) (a % 256) (b % 256) (c % 256) → n ≡ make_abc op a b c
as_fields op a b c n h = h ∙ sym (make_abc-word op a b c)

-- Writing one field of a 32-bit word keeps the three others.
pub set-make_abc :
    (i v : ℕ)
    → i < 2 ^ 32
    → (set_op i v ≡ make_abc v (get_a i) (get_b i) (get_c i))
      × (set_a i v ≡ make_abc (get_op i) v (get_b i) (get_c i))
      × (set_b i v ≡ make_abc (get_op i) (get_a i) v (get_c i))
      × (set_c i v ≡ make_abc (get_op i) (get_a i) (get_b i) v)
unfolding set_op set_a set_b set_c
set-make_abc i v h = (
  rw (placed v).0 (
      as_fields v (get_a i) (get_b i) (get_c i) _
        (omega (arith, set_field 0 8 i v (omega arith) h, getters i))),
  rw (placed v).1 (
      as_fields (get_op i) v (get_b i) (get_c i) _
        (omega (arith, set_field 8 8 i v (omega arith) h, getters i))),
  rw (placed v).2 (
      as_fields (get_op i) (get_a i) v (get_c i) _
        (omega (arith, set_field 16 8 i v (omega arith) h, getters i))),
  rw (placed v).3 (
      as_fields (get_op i) (get_a i) (get_b i) v _
        (omega (arith, set_field 24 8 i v (omega arith) h, getters i))),
)

-- A jump offset that fits 16 bits signed.
abbrev pub IsOffset : ℤ → Type 0
IsOffset z = NegLe (2 ^ 15) z × LtPos z (2 ^ 15)

i16_of-u32_of : (z : ℤ) → IsOffset z → i16_of (u32_of z % 65536) ≡ z
unfolding i16_of u32_of
i16_of-u32_of (pos n) h = ground arith
i16_of-u32_of (negsuc n) h = ground arith

sax_placed : (w : ℕ) → shl32 (bit_and w 65535) 8 ≡ w % 2 ^ 16 * 2 ^ 8
sax_placed w = omega (arith, mask16 w)

make_saxc-word :
    (op c : ℕ) (z : ℤ) → make_saxc op z c ≡ op % 256 + u32_of z % 2 ^ 16 * 2 ^ 8 + c % 256 * 2 ^ 24
unfolding make_saxc
make_saxc-word op c z =
    rw
      (
        field_op op,
        sax_placed (u32_of z),
        field_c c,
        bit_or_add 8 (op % 256) (u32_of z % 2 ^ 16) (omega arith),
      )
      (bit_or_add 24 (op % 256 + u32_of z % 2 ^ 16 * 2 ^ 8) (c % 256) (omega arith))

get_sax-arith : (i : ℕ) → get_sax i ≡ i16_of (i / 2 ^ 8 % 2 ^ 16)
unfolding get_sax
get_sax-arith i = ap i16_of (mask16 (i / 2 ^ 8))

-- A word that `MAKE_SAXC` built gives its opcode, its jump offset and its operand C back, when
-- they fit.
pub get-make_saxc :
    (op c : ℕ) (z : ℤ)
    → IsOffset z
    → (get_op (make_saxc op z c) ≡ op % 256)
      × (get_sax (make_saxc op z c) ≡ z)
      × (get_c (make_saxc op z c) ≡ c % 256)
get-make_saxc op c z h = (
  omega (arith, make_saxc-word op c z, getters (make_saxc op z c)),
  get_sax-arith (make_saxc op z c) ∙ ap i16_of offset ∙ i16_of-u32_of z h,
  omega (arith, make_saxc-word op c z, getters (make_saxc op z c)),
)
  where
    offset : make_saxc op z c / 2 ^ 8 % 2 ^ 16 ≡ u32_of z % 65536
    offset = omega (arith, make_saxc-word op c z)

-- Patching the jump offset of a 32-bit word changes nothing else, and reads back.
pub get-set_sax :
    (i : ℕ) (z : ℤ)
    → i < 2 ^ 32
    → IsOffset z
    → (get_op (set_sax i z) ≡ get_op i)
      × (get_sax (set_sax i z) ≡ z)
      × (get_c (set_sax i z) ≡ get_c i)
get-set_sax i z small h = (
  omega (arith, patched, getters (set_sax i z), getters i),
  get_sax-arith (set_sax i z) ∙ ap i16_of offset ∙ i16_of-u32_of z h,
  omega (arith, patched, getters (set_sax i z), getters i),
)
  where
    patched : set_sax i z ≡ i % 2 ^ 8 + u32_of z % 2 ^ 16 * 2 ^ 8 + i / 2 ^ 24 * 2 ^ 24
    patched =
        unfold set_sax in
        rw (sax_placed (u32_of z)) (set_field 8 16 i (u32_of z) (omega arith) small)

    offset : set_sax i z / 2 ^ 8 % 2 ^ 16 ≡ u32_of z % 65536
    offset = omega (arith, patched)
