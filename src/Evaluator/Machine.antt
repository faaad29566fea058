-- ===== src/Evaluator/Machine.antt =====
-- The state of the machine, its errors, and what it takes from handles and from the host.
use reduct.Prelude.{ℕ, Bool, Option, none, some, List, ltb, set, get_elem?, length, if◌then◌else◌}
use reduct.Prelude.Int.{ℤ}
use reduct.Opcode.{Opcode}

-- What a handle is, as far as the machine asks: a closure, a native function, a future or a function
-- by its address, the empty list, or something else by its type.
pub data Kind : Type 0 where
  closure native future function : ℕ → Kind
  nil : Kind
  other : ℕ → Kind

pub data Error : Type 0 where
  invalid_opcode : ℕ → Error
  -- with the count expected and the count given
  expected_at_least expected : ℕ → ℕ → Error
  cannot_call_nil : Error
  cannot_call : Kind → Error
  shift_amount : Opcode → ℤ → Error
  empty_function : Error
  -- thrown by an operation on handles, a native or a future
  raised : ℕ → Error

-- The error is a long jump in the source. A `fault` is an access outside the registers, the
-- constants, the instructions or the closures.
pub data Result (A : Type 0) : Type 0 where
  ok : A → Result A
  thrown : Error → Result A
  fault : Result A

infixl 5 ◌>>=◌
abbrev pub ◌>>=◌ : {A B : Type 0} → Result A → (A → Result B) → Result B
ok a >>= f = f a
thrown e >>= f = thrown e
fault >>= f = fault

-- `reduct_function_t`, an instruction being a 32-bit word.
pub record Function (V : Type 0) : Type 0 where
  pub insts : List ℕ
  pub constants : List V
  pub capture_count : ℕ
  pub arity : ℕ
  pub variadic : Bool
  pub register_count : ℕ

pub record Closure (V : Type 0) : Type 0 where
  pub function : Function V
  pub constants : List V

-- `reduct_eval_frame_t`. The frame's `constants` are those of its closure.
pub record Frame : Type 0 where
  pub closure : ℕ
  pub ip : ℕ
  pub base : ℕ
  pub prev_reg_count : ℕ

-- `reduct_eval_local_t`, the frames from the top down, and the closures by address. The capacity of
-- the registers is the length of `regs`.
pub record Machine (V : Type 0) : Type 0 where
  pub regs : List V
  pub reg_count : ℕ
  pub frames : List Frame
  pub frame_capacity : ℕ
  pub closures : ℕ → Closure V
  pub closure_count : ℕ

-- What handles and the host provide: `zeroed` is the handle of zero bytes, `of_constant` what a new
-- closure stores for a constant of its function, `compute` the arithmetic and bitwise macros, and
-- `native` a native function on its arguments, `argc` registers from an index on.
pub record Host (V : Type 0) : Type 0 where
  pub kind : V → Kind
  pub zeroed : V
  pub empty : V
  pub of_closure : ℕ → V
  pub of_list : List V → V
  pub of_bool : Bool → V
  pub of_constant : V → V
  pub compare : Opcode → V → V → Bool
  pub compute : Opcode → V → V → Result V
  pub as_int : V → Result ℤ
  pub complement : ℤ → V
  pub shift : Opcode → ℤ → ℤ → V
  pub functions : ℕ → Function V
  pub native : ℕ → (argc argv : ℕ) → Machine V → Result (V × Machine V)
  pub spawn : V → (argc argv : ℕ) → Machine V → V × Machine V
  pub join : ℕ → Machine V → Result (V × Machine V)

abbrev pub from_option : {A : Type 0} → Option A → Result A
from_option none = fault
from_option (some a) = ok a

module _ {V : Type 0} where
  -- `regs[i]`.
  unfoldable pub read_reg : Machine V → ℕ → Result V
  read_reg m i = from_option (get_elem? m.regs i)

  -- The closure at an address.
  unfoldable pub read_closure : Machine V → ℕ → Result (Closure V)
  read_closure m k = if ltb k m.closure_count then ok (m.closures k) else fault

  unfoldable pub write_reg : Machine V → ℕ → V → Result (Machine V)
  write_reg m i v = if ltb i (length m.regs) then ok (record m { regs = set m.regs i v }) else fault
