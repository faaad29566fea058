-- ===== src/Evaluator.antt =====
-- src/eval.c: the register machine. `Machine` is its state, `Frames` its registers and frames, and
-- `Step` one instruction.
pub mod Machine
pub mod Frames
pub mod Step
pub mod Invariant
pub mod Keeps
pub mod Run
pub mod Steps
pub mod Eval
pub mod Reached
pub mod Places
pub mod Calls
pub mod Arguments
mod Tests
