-- ===== src/Opcode/Compare.antt =====
-- What the comparison opcodes compute on two numbers, from the labels `OP_COMPARE` and
-- `OP_SKIP_CMP` of src/eval.c. The comparisons of `double` are C's: a parameter, with the laws of
-- IEEE 754 that the branch opcodes rely on.
use reduct.Prelude.{ℕ, ◌≡◌, Bool, false, not, some}
use reduct.Opcode.{eq, neq, lt, le, gt, ge, jeq, jneq, jlt, jle, jgt, jge, decode, base}

-- `unordered a b`: one of the two is not a number.
pub record Doubles : Type 1 where
  pub Double : Type 0
  pub feq : Double → Double → Bool
  pub fne : Double → Double → Bool
  pub flt : Double → Double → Bool
  pub fle : Double → Double → Bool
  pub fgt : Double → Double → Bool
  pub fge : Double → Double → Bool
  pub unordered : Double → Double → Bool
  pub fne_lem : (a b : Double) → fne a b ≡ not (feq a b)
  pub fge_ordered : (a b : Double) → unordered a b ≡ false → fge a b ≡ not (flt a b)
  pub fgt_ordered : (a b : Double) → unordered a b ≡ false → fgt a b ≡ not (fle a b)

module _ (d : Doubles) where
  open d use {Double, feq, fne, flt, fle, fgt, fge}

  -- The truth value that `OP_COMPARE` stores in R(A).
  unfoldable pub compares : ℕ → Double → Double → Bool
  unfolding decode base
  compares op a b = elim (decode (base op)) [
    | some eq ↦ feq a b
    | some neq ↦ fne a b
    | some lt ↦ flt a b
    | some le ↦ fle a b
    | some gt ↦ fgt a b
    | some ge ↦ fge a b
    | _ ↦ false
  ]

  -- Whether `OP_SKIP_CMP` skips the next instruction.
  unfoldable pub skips : ℕ → Double → Double → Bool
  unfolding decode base
  skips op a b = elim (decode (base op)) [
    | some jeq ↦ feq a b
    | some jneq ↦ fne a b
    | some jlt ↦ flt a b
    | some jle ↦ fle a b
    | some jgt ↦ fgt a b
    | some jge ↦ fge a b
    | _ ↦ false
  ]
