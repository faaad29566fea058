-- ===== src/Opcode.antt =====
-- include/reduct/opcode.h and src/opcode.c: the opcodes of the bytecode, their numbers, the table
-- of their properties and the macros that map one opcode to another. An opcode in an instruction is
-- a number below 256: seven bits of a base opcode, and the mode bit that says whether operand C is
-- a constant. `Compare` says what the
-- comparisons compute, and `Branches` that the macros keep it.
pub mod Compare
pub mod Branches
mod Tests
use Prim.Native.String.{String}
use reduct.Prelude.{
  ℕ, ◌+◌, ◌-◌, ◌*◌, ◌^◌, Bool, true, false, ◌&&◌, not, Option, none, some, ltb, leb, ◌==◌,
  if◌then◌else◌, bit_and, bit_or,
}
use reduct.Prelude.Words.{not32, u32}

pub data Opcode : Type 0 where
  nop mov list closure capture jmp jmpf jmpt : Opcode
  call ret tailcall recur tailrecur eq neq lt : Opcode
  le gt ge add sub mul div modulo : Opcode
  band bor bxor bnot shl shr jeq jneq : Opcode
  jlt jle jgt jge fork join : Opcode

-- The numbers of the enumeration, from 0x10 on.
unfoldable pub code : Opcode → ℕ
code nop = 0x10
code mov = 0x11
code list = 0x12
code closure = 0x13
code capture = 0x14
code jmp = 0x15
code jmpf = 0x16
code jmpt = 0x17
code call = 0x18
code ret = 0x19
code tailcall = 0x1a
code recur = 0x1b
code tailrecur = 0x1c
code eq = 0x1d
code neq = 0x1e
code lt = 0x1f
code le = 0x20
code gt = 0x21
code ge = 0x22
code add = 0x23
code sub = 0x24
code mul = 0x25
code div = 0x26
code modulo = 0x27
code band = 0x28
code bor = 0x29
code bxor = 0x2a
code bnot = 0x2b
code shl = 0x2c
code shr = 0x2d
code jeq = 0x2e
code jneq = 0x2f
code jlt = 0x30
code jle = 0x31
code jgt = 0x32
code jge = 0x33
code fork = 0x34
code join = 0x35

pub data Layout : Type 0 where
  abc ac abc_range ab_range c sax saxc none_layout : Layout

abbrev pub flag_has_target : ℕ
flag_has_target = 2 ^ 0

abbrev pub flag_is_jump : ℕ
flag_is_jump = 2 ^ 1

abbrev pub flag_has_const : ℕ
flag_has_const = 2 ^ 2

abbrev pub flag_read_a : ℕ
flag_read_a = 2 ^ 3

abbrev pub flag_read_b : ℕ
flag_read_b = 2 ^ 4

abbrev pub flag_read_c : ℕ
flag_read_c = 2 ^ 5

abbrev pub flag_read_range : ℕ
flag_read_range = 2 ^ 6

abbrev pub flag_is_commutative : ℕ
flag_is_commutative = 2 ^ 7

abbrev pub flag_is_skip : ℕ
flag_is_skip = 2 ^ 8

abbrev pub flag_is_call : ℕ
flag_is_call = 2 ^ 9

abbrev pub flag_is_terminator : ℕ
flag_is_terminator = 2 ^ 10

abbrev pub flag_is_recur : ℕ
flag_is_recur = 2 ^ 11

abbrev pub flag_is_fork : ℕ
flag_is_fork = 2 ^ 12

infixr 40 ◌∪◌
abbrev pub ◌∪◌ : ℕ → ℕ → ℕ
f ∪ g = bit_or f g

abbrev flags_una : ℕ
flags_una = flag_has_target ∪ flag_has_const ∪ flag_read_c

abbrev flags_bin : ℕ
flags_bin = flag_has_target ∪ flag_has_const ∪ flag_read_b ∪ flag_read_c

abbrev flags_bin_com : ℕ
flags_bin_com = flags_bin ∪ flag_is_commutative

abbrev flags_skip : ℕ
flags_skip = flag_has_const ∪ flag_read_b ∪ flag_read_c ∪ flag_is_skip

pub record OpcodeInfo : Type 0 where
  pub name : Option String
  pub layout : Layout
  pub flags : ℕ

abbrev entry : String → Layout → ℕ → OpcodeInfo
entry n l f = record { name = some n; layout = l; flags = f }

-- The initialisers of `reductOpcodeTable`.
unfoldable pub info : Opcode → OpcodeInfo
info nop = entry "NOP" none_layout 0
info mov = entry "MOV" ac flags_una
info list = entry "LIST" ab_range (flag_has_target ∪ flag_read_a ∪ flag_read_range)
info closure = entry "CLOSURE" ac (flag_has_target ∪ flag_has_const ∪ flag_read_c)
info capture = entry "CAPTURE" abc_range (flag_read_a ∪ flag_read_c ∪ flag_has_const)
info jmp = entry "JMP" sax (flag_is_jump ∪ flag_is_terminator)
info jmpf = entry "JMPF" saxc (flag_is_jump ∪ flag_read_c ∪ flag_is_terminator)
info jmpt = entry "JMPT" saxc (flag_is_jump ∪ flag_read_c ∪ flag_is_terminator)
info call =
    entry "CALL" abc_range (
      flag_has_target ∪ flag_has_const ∪ flag_read_a ∪ flag_read_c ∪ flag_read_range ∪ flag_is_call)
info ret = entry "RET" c (flag_has_const ∪ flag_read_c ∪ flag_is_terminator)
info tailcall = entry "TAILCALL" abc_range (
    flag_has_const ∪ flag_read_a ∪ flag_read_c ∪ flag_read_range ∪ flag_is_call
    ∪ flag_is_terminator)
info recur =
    entry "RECUR" ab_range
      (flag_has_target ∪ flag_read_a ∪ flag_read_range ∪ flag_is_call ∪ flag_is_recur)
info tailrecur =
    entry "TAILRECUR" ab_range
      (flag_read_a ∪ flag_read_range ∪ flag_is_call ∪ flag_is_terminator ∪ flag_is_recur)
info eq = entry "EQ" abc flags_bin_com
info neq = entry "NEQ" abc flags_bin_com
info lt = entry "LT" abc flags_bin
info le = entry "LE" abc flags_bin
info gt = entry "GT" abc flags_bin
info ge = entry "GE" abc flags_bin
info add = entry "ADD" abc flags_bin_com
info sub = entry "SUB" abc flags_bin
info mul = entry "MUL" abc flags_bin_com
info div = entry "DIV" abc flags_bin
info modulo = entry "MOD" abc flags_bin
info band = entry "BAND" abc flags_bin_com
info bor = entry "BOR" abc flags_bin_com
info bxor = entry "BXOR" abc flags_bin_com
info bnot = entry "BNOT" ac flags_una
info shl = entry "SHL" abc flags_bin
info shr = entry "SHR" abc flags_bin
info jeq = entry "JEQ" abc flags_skip
info jneq = entry "JNEQ" abc flags_skip
info jlt = entry "JLT" abc flags_skip
info jle = entry "JLE" abc flags_skip
info jgt = entry "JGT" abc flags_skip
info jge = entry "JGE" abc flags_skip
info fork = entry "FORK" abc_range (
    flag_has_target ∪ flag_has_const ∪ flag_read_a ∪ flag_read_c ∪ flag_read_range ∪ flag_is_call
    ∪ flag_is_fork)
info join = entry "JOIN" ac flags_una

-- The base opcode with a given number, and whether there is one.
unfoldable pub decode : ℕ → Option Opcode
decode n =
    if n == 0x10
    then some nop
    else if n == 0x11
    then some mov
    else if n == 0x12
    then some list
    else if n == 0x13
    then some closure
    else if n == 0x14
    then some capture
    else if n == 0x15
    then some jmp
    else if n == 0x16
    then some jmpf
    else if n == 0x17
    then some jmpt
    else if n == 0x18
    then some call
    else if n == 0x19
    then some ret
    else if n == 0x1a
    then some tailcall
    else if n == 0x1b
    then some recur
    else if n == 0x1c
    then some tailrecur
    else if n == 0x1d
    then some eq
    else if n == 0x1e
    then some neq
    else if n == 0x1f
    then some lt
    else if n == 0x20
    then some le
    else if n == 0x21
    then some gt
    else if n == 0x22
    then some ge
    else if n == 0x23
    then some add
    else if n == 0x24
    then some sub
    else if n == 0x25
    then some mul
    else if n == 0x26
    then some div
    else if n == 0x27
    then some modulo
    else if n == 0x28
    then some band
    else if n == 0x29
    then some bor
    else if n == 0x2a
    then some bxor
    else if n == 0x2b
    then some bnot
    else if n == 0x2c
    then some shl
    else if n == 0x2d
    then some shr
    else if n == 0x2e
    then some jeq
    else if n == 0x2f
    then some jneq
    else if n == 0x30
    then some jlt
    else if n == 0x31
    then some jle
    else if n == 0x32
    then some jgt
    else if n == 0x33
    then some jge
    else if n == 0x34
    then some fork
    else if n == 0x35
    then some join
    else none

-- The 128 places of `reductOpcodeTable`: one with no initialiser is all zero.
unfoldable pub table : ℕ → OpcodeInfo
unfolding info decode
table n = elim (decode n) [
  | none ↦ record { name = none; layout = abc; flags = 0 }
  | some o ↦ info o
]

abbrev pub mode_const : ℕ
mode_const = 2 ^ 7

-- `REDUCT_OPCODE_BASE`.
unfoldable pub base : ℕ → ℕ
base op = bit_and op (not32 mode_const)

-- `flags & mask` as a truth value, for the opcode's place in the table.
unfoldable pub has_flag : ℕ → ℕ → Bool
unfolding table base
has_flag mask op = not (bit_and (table (base op)).flags mask == 0)

unfoldable pub has_target : ℕ → Bool
unfolding has_flag
has_target = has_flag flag_has_target

unfoldable pub is_recur : ℕ → Bool
unfolding has_flag
is_recur = has_flag flag_is_recur

unfoldable pub is_jump : ℕ → Bool
unfolding has_flag
is_jump = has_flag flag_is_jump

unfoldable pub has_const : ℕ → Bool
unfolding has_flag
has_const = has_flag flag_has_const

unfoldable pub reads_a : ℕ → Bool
unfolding has_flag
reads_a = has_flag flag_read_a

unfoldable pub reads_b : ℕ → Bool
unfolding has_flag
reads_b = has_flag flag_read_b

unfoldable pub reads_c : ℕ → Bool
unfolding has_flag
reads_c = has_flag flag_read_c

unfoldable pub reads_range : ℕ → Bool
unfolding has_flag
reads_range = has_flag flag_read_range

unfoldable pub is_commutative : ℕ → Bool
unfolding has_flag
is_commutative = has_flag flag_is_commutative

unfoldable pub is_skip : ℕ → Bool
unfolding has_flag
is_skip = has_flag flag_is_skip

unfoldable pub is_call : ℕ → Bool
unfolding has_flag
is_call = has_flag flag_is_call

unfoldable pub is_terminator : ℕ → Bool
unfolding has_flag
is_terminator = has_flag flag_is_terminator

unfoldable pub is_fork : ℕ → Bool
unfolding has_flag
is_fork = has_flag flag_is_fork

-- `IS_COMPARE`, `TO_SKIP`, `INVERT_SKIP`, `TO_RECUR` and `TO_TAIL`.
unfoldable pub is_compare : ℕ → Bool
unfolding base code
is_compare op = leb (code eq) (base op) && leb (base op) (code ge)

unfoldable pub to_skip : ℕ → ℕ
unfolding is_compare code
to_skip op = if is_compare op then op + (code jeq - code eq) else code nop

unfoldable pub invert_skip : ℕ → ℕ
unfolding base code
invert_skip op =
    let inverted =
      if base op == code jeq
      then code jneq
      else if base op == code jneq
      then code jeq
      else if base op == code jlt
      then code jge
      else if base op == code jge
      then code jlt
      else if base op == code jle
      then code jgt
      else if base op == code jgt
      then code jle
      else op in
    bit_or inverted (bit_and op mode_const)

unfoldable pub to_recur : ℕ → ℕ
unfolding is_call base code
to_recur op =
    if is_call op
    then (if base op == code tailcall then code tailrecur else code recur)
    else code nop

unfoldable pub to_tail : ℕ → ℕ
unfolding code
to_tail op =
    if op == code call
    then code tailcall
    else if op == bit_or (code call) mode_const
    then bit_or (code tailcall) mode_const
    else if op == code recur
    then code tailrecur
    else op
