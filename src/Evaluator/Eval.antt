-- ===== src/Evaluator/Eval.antt =====
-- `reduct_eval` on a function, `reduct_eval_call` on a closure, and the loop of `reduct_eval_run`.
-- Building and compiling an expression that is not a function yet are other components.
use reduct.Prelude.{
  ℕ, zero, suc, ◌+◌, max, Bool, Option, none, some, List, [], ◌∷◌, length, ◌==◌, if◌then◌else◌,
}
use reduct.Prelude.Words.{u32}
use reduct.Evaluator.Machine.{
  Result, ok, thrown, fault, ◌>>=◌, expected, empty_function, Function, Closure, Machine, Host,
  read_closure, write_reg,
}
use reduct.Evaluator.Frames.{ensure_regs, push_frame, ensure_ready, bundle_args}
use reduct.Evaluator.Step.{Next, running, finished, closure_new, step}

-- The run has ended in a result, or the fuel in the machine it has come to.
pub data Ran (V : Type 0) : Type 0 where
  returned : Result (V × Machine V) → Ran V
  out_of_fuel : Machine V → Ran V

module _ {V : Type 0} (host : Host V) (should_fork : Bool) where
  -- `reduct_eval_local_init`.
  abbrev pub machine_init : (ℕ → Closure V) → ℕ → Machine V
  machine_init closures n = record {
    regs = [];
    reg_count = 0;
    frames = [];
    frame_capacity = 0;
    closures = closures;
    closure_count = n;
  }

  -- What `reduct_eval` does before the run.
  unfoldable pub enter : Machine V → Function V → Result (Machine V)
  enter m function =
      if length function.insts == 0
      then thrown empty_function
      else if function.arity == 0
      then (let (k, m') = closure_new host should_fork 0 (ensure_ready host m) function in
          ok (push_frame host m' k m'.reg_count))
      else thrown (expected 0 function.arity)

  -- `memmove(regs + target, argv, argc)`.
  unfoldable pub write_args : Machine V → ℕ → List V → Result (Machine V)
  write_args m target [] = ok m
  write_args m target (v ∷ vs) = write_reg m target v >>= λ m'. write_args m' (suc target) vs

  -- The registers that a call from the host takes: `needed`, of `argc` arguments as a `uint32_t`.
  unfoldable pub call_needs : Function V → ℕ → ℕ
  call_needs f argc = max (max (if f.variadic then f.arity else argc) argc) f.register_count

  -- The registers of the call up to `top`, its arguments, and its frame.
  unfoldable pub place_at :
      Machine V → Function V → (closure argc target top : ℕ) → List V → Result (Option (Machine V))
  place_at m f k argc target top argv = do
    let grown = ensure_regs host m top
    written ← write_args (record grown { reg_count = top }) target argv
    (n, bundled) ← bundle_args host written f argc target
    ok (some (push_frame host bundled k target))

  unfoldable pub place_call :
      Machine V → Function V → (closure : ℕ) → List V → Result (Option (Machine V))
  place_call m f k argv =
      let argc = u32 (length argv) in
      let target = u32 m.reg_count in
      place_at m f k argc target (u32 (target + call_needs f argc)) argv

  -- What `reduct_eval_call` does before the run, on a closure; `none` where the function is empty and
  -- the call returns nil.
  unfoldable pub enter_call : Machine V → (closure : ℕ) → List V → Result (Option (Machine V))
  enter_call m k argv = do
    c ← read_closure m k
    if length c.function.insts == 0
        then ok none
        else place_call (ensure_ready host m) c.function k argv

  -- The loop, until the frame count is that of the start.
  unfoldable pub run_from : (Machine V → Ran V) → Result (Next V) → Ran V
  run_from more (ok (running m)) = more m
  run_from more (ok (finished v m)) = returned (ok (v, m))
  run_from more (thrown e) = returned (thrown e)
  run_from more fault = returned fault

  unfoldable pub run : (initial fuel : ℕ) → Machine V → Ran V
  unfolding run_from
  run initial zero m = out_of_fuel m
  run initial (suc fuel) m = run_from (run initial fuel) (step host should_fork initial m)
