-- ===== src/Constants.antt =====
-- src/function.c: the instructions' capacity and the constants of a compiled function. Constant
-- slots stand behind the slots of the captures, in one range of eight bits. Running out of the
-- platform's memory is left out.
pub mod Slots
mod Tests
use reduct.Prelude.{
  ℕ, zero, suc, ◌+◌, ◌*◌, ◌^◌, Bool, true, false, ◌&&◌, ◌||◌, Option, none, some, List, [], ◌∷◌,
  ◌++◌, ltb, leb, ◌==◌, if◌then◌else◌, length,
}
use reduct.Inst.{width_c}

-- The fields of `reduct_function_t` that the operations below change.
pub record Function (Handle : Type 0) : Type 0 where
  pub constants : List Handle
  pub constant_capacity : ℕ
  pub capture_count : ℕ
  pub inst_count : ℕ
  pub inst_capacity : ℕ

-- `REDUCT_CONSTANT_MAX`.
abbrev pub constant_max : ℕ
constant_max = 2 ^ width_c

-- The errors that are thrown.
pub data Added (A : Type 0) : Type 0 where
  added : A → Added A
  too_many_captures : Added A
  too_many_constants : Added A

module _ {Handle : Type 0} where
  -- `reduct_function_init`.
  unfoldable pub function_init : Function Handle
  function_init = record {
    constants = [];
    constant_capacity = 0;
    capture_count = 0;
    inst_count = 0;
    inst_capacity = 0;
  }

  -- `reduct_function_grow`.
  unfoldable pub function_grow : Function Handle → Function Handle
  function_grow f = record f {
    inst_capacity = if f.inst_capacity == 0 then 16 else f.inst_capacity * 2;
  }

  unfoldable pub set_capture_count : Function Handle → ℕ → Added (Function Handle)
  set_capture_count f count =
      if ltb constant_max count
      then too_many_captures
      else added (record f { capture_count = count })

  abbrev pub new_capacity : Function Handle → ℕ
  new_capacity f = if f.constant_capacity == 0 then 16 else f.constant_capacity * 2

  -- `reduct_function_grow_constants`, whose result is the slot of the constant to be stored.
  unfoldable pub grow_constants : Function Handle → Added (Function Handle)
  grow_constants f =
      if leb f.constant_capacity (length f.constants)
      then (if ltb constant_max (f.capture_count + new_capacity f)
          then too_many_constants
          else added (record f { constant_capacity = new_capacity f }))
      else added f

  -- The loop over the constants; `reduct_handle_is_equal` is a parameter.
  unfoldable pub find_constant : (Handle → Handle → Bool) → List Handle → Handle → Option ℕ
  find_constant equal [] v = none
  find_constant equal (c ∷ cs) v =
      let rest = find_constant equal cs v in
      if equal c v then some 0 else elim rest [ none ↦ none | some i ↦ some (suc i) ]

  abbrev pub store_constant : Handle → Added (Function Handle) → Added (ℕ × Function Handle)
  store_constant v too_many_captures = too_many_captures
  store_constant v too_many_constants = too_many_constants
  store_constant v (added f) =
      added (f.capture_count + length f.constants, record f { constants = f.constants ++ v ∷ [] })

  -- `reduct_function_add_constant`.
  unfoldable pub add_constant :
      (Handle → Handle → Bool) → Function Handle → Handle → Added (ℕ × Function Handle)
  unfolding grow_constants find_constant
  add_constant equal f v = elim (find_constant equal f.constants v) [
    | some i ↦ added (f.capture_count + i, f)
    | none ↦ store_constant v (grow_constants f)
  ]
