-- ===== src/Evaluator/Tests.antt =====
-- A small host, the run of a function that calls another, and the argument counts.
use reduct.Prelude.{
  ℕ, zero, suc, ◌+◌, true, false, Option, none, some, List, [], ◌∷◌, ◌≡◌, refl, length, arith,
}
use reduct.Prelude.Int.{pos}
use reduct.Opcode.{mov, ret, code, decode, base, mode_const}
use reduct.Inst.{make_abc, get_op, get_a, get_b, get_c}
use reduct.Evaluator.Machine.{
  Kind, ok, fault, Function, Machine, Host, read_closure, read_reg, write_reg,
}
use reduct.Evaluator.Frames.{
  ensure_ready, ensure_regs, ensure_frames, replicate, push_frame, pop_to, reg_range, bundle_args,
}
use reduct.Evaluator.Step.{step, label, with_operand, operand, takes_const}
use reduct.Evaluator.Eval.{Ran, returned, machine_init, enter_call, call_needs, run_from, run}
use reduct.Evaluator.Invariant.{On, IsMachine}
use reduct.Evaluator.Run.{NextIs, IsHost}
use reduct.Evaluator.Steps.{step-IsMachine}
use reduct.Evaluator.Keeps.{push_frame-IsMachine}
use reduct.Evaluator.Reached.{RanIs, ensure_ready-IsMachine, run-IsMachine}
use reduct.Evaluator.Calls.{Called, enter_call_lem}
use reduct.Evaluator.Arguments.{bundle_args_lem, Finds}

data Value : Type 0 where
  number : ℕ → Value
  lambda : ℕ → Value
  values : ℕ → Value

abbrev kind_of : Value → Kind
kind_of (number n) = Kind.other n
kind_of (lambda k) = Kind.closure k
kind_of (values zero) = Kind.nil
kind_of (values (suc n)) = Kind.other 0

-- k0 is moved to r1 and returned.
abbrev answer : Function Value
answer = record {
  insts = make_abc (code mov + mode_const) 1 0 0 ∷ make_abc (code ret) 0 0 1 ∷ [];
  constants = number 42 ∷ [];
  capture_count = 0;
  arity = 0;
  variadic = false;
  register_count = 2;
}

abbrev several : Function Value
several = record answer { arity = 2; variadic = true }

abbrev host : Host Value
host = record {
  kind = kind_of;
  zeroed = number 0;
  empty = values 0;
  of_closure = lambda;
  of_list = λ vs. values (length vs);
  of_bool = λ b. number 0;
  of_constant = λ v. v;
  compare = λ op a b. false;
  compute = λ op a b. ok a;
  as_int = λ v. ok (pos 0);
  complement = λ x. number 0;
  shift = λ op x y. number 0;
  functions = λ n. answer;
  native = λ n argc argv m. ok (number n, m);
  spawn = λ v argc argv m. (v, m);
  join = λ n m. ok (number n, m);
}

host-IsHost : IsHost host
host-IsHost = record {
  native = λ n argc argv m h. h;
  spawn = λ v argc argv m h. h;
  join = λ n m h. h;
}

abbrev machine : Machine Value
machine = machine_init host true (λ k. record { function = answer; constants = number 42 ∷ [] }) 1

abbrev ready : Machine Value
ready = record machine { regs = replicate 64 (number 0); frame_capacity = 32 }

ready-IsMachine : IsMachine ready
unfolding replicate
ready-IsMachine = record {
  some_regs = omega arith;
  some_frames = omega arith;
  counted = omega arith;
  framed = omega arith;
  stacked = tt;
}

started : Machine Value
started = push_frame host ready 0 0

started-IsMachine : IsMachine started
unfolding started
started-IsMachine = push_frame-IsMachine host ready 0 0 ready-IsMachine (omega arith)

step-IsMachine_example : On NextIs (step host true 0 started)
step-IsMachine_example = step-IsMachine host true 0 host-IsHost started started-IsMachine

run-IsMachine_example : RanIs (run host true 0 10 started)
run-IsMachine_example = run-IsMachine host true host-IsHost 0 10 started started-IsMachine

machine_ready : IsMachine (ensure_ready host machine)
machine_ready = ensure_ready-IsMachine host true machine refl refl

-- A variadic closure of a fixed argument, called with three.
abbrev machine_several : Machine Value
machine_several =
    machine_init host true (λ k. record { function = several; constants = number 42 ∷ [] }) 1

abbrev three : List Value
three = number 1 ∷ number 2 ∷ number 3 ∷ []

several_ready : IsMachine (ensure_ready host machine_several)
several_ready = ensure_ready-IsMachine host true machine_several refl refl

enter_call_lem_example :
    (m' : Machine Value) × (enter_call host true machine_several 0 three ≡ ok (some m'))
    × Called host true (ensure_ready host machine_several) 0 three m'
unfolding call_needs
enter_call_lem_example =
    enter_call_lem host true machine_several 0 three several_ready (omega arith) refl
      (λ _. omega arith) (omega arith) (omega arith) (omega arith)

bundle_args_lem_example :
    (m' : Machine Value) × (bundle_args host ready several 3 0 ≡ ok (2, m'))
    × Finds host ready several 3 0 m'
unfolding replicate
bundle_args_lem_example =
    bundle_args_lem host ready several 3 0 (λ _. omega arith) (omega arith) (omega arith)
      (omega arith)

-- A run returns the constant that the function moves to a register.
result_of : Ran Value → Option Value
result_of (returned (ok (v, m))) = some v
result_of _ = none

answer_run : result_of (run host true 0 10 started) ≡ some (number 42)
unfolding result_of started run run_from push_frame ensure_regs ensure_frames pop_to replicate step
    label with_operand operand takes_const decode base read_closure read_reg write_reg get_op get_a
    get_b get_c make_abc code
answer_run = refl

-- With one argument in the last register, a function of one argument and the list of the others finds
-- no register for that list.
no_room_for_rest : bundle_args host ready several 1 63 ≡ fault
unfolding bundle_args replicate reg_range write_reg
no_room_for_rest = refl
