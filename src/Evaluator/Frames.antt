-- ===== src/Evaluator/Frames.antt =====
-- The registers and the frames: growth, calls, returns and tail calls, and the arguments of a
-- variadic function.
use reduct.Prelude.{
  ℕ, zero, suc, ◌+◌, ◌-◌, ◌*◌, ◌^◌, Option, none, some, List, [], ◌∷◌, ◌++◌, length, take, drop,
  ltb, leb, ◌==◌, if◌then◌else◌,
}
use reduct.Prelude.Words.{u32}
use reduct.Evaluator.Machine.{
  Result, ok, thrown, fault, ◌>>=◌, expected, expected_at_least, Function, Frame, Machine, Host,
  write_reg,
}

abbrev pub regs_initial : ℕ
regs_initial = 64

abbrev pub frames_initial : ℕ
frames_initial = 32

-- The loop `while (neededRegs > regCapacity) regCapacity *= 2`, on fuel.
unfoldable pub grow_regs : ℕ → ℕ → ℕ → Option ℕ
grow_regs zero needed capacity = none
grow_regs (suc fuel) needed capacity =
    let rest = grow_regs fuel needed (capacity * 2) in
    if ltb capacity needed then rest else some capacity

unfoldable pub replicate : {A : Type 0} → ℕ → A → List A
replicate zero x = []
replicate (suc n) x = x ∷ replicate n x

module _ {V : Type 0} (host : Host V) where
  -- The new registers are zeroed.
  unfoldable pub resize_regs : Machine V → Option ℕ → Machine V
  resize_regs m none = m
  resize_regs m (some capacity) = record m {
    regs = m.regs ++ replicate (capacity - length m.regs) host.zeroed;
  }

  -- A capacity of 1 or more reaches `needed` in as many rounds at most.
  unfoldable pub ensure_regs : Machine V → ℕ → Machine V
  ensure_regs m needed =
      if leb needed (length m.regs)
      then m
      else resize_regs m (grow_regs (suc needed) needed (length m.regs))

  unfoldable pub ensure_frames : Machine V → Machine V
  ensure_frames m =
      if leb m.frame_capacity (length m.frames)
      then record m { frame_capacity = m.frame_capacity * 2 }
      else m

  -- `reduct_eval_push_frame`.
  unfoldable pub push_frame : Machine V → (closure target : ℕ) → Machine V
  push_frame m k target =
      let needed = u32 (target + (m.closures k).function.register_count) in
      let m' = ensure_regs (ensure_frames m) needed in
      record m' {
        frames =
            record { closure = k; ip = 0; base = target; prev_reg_count = m.reg_count } ∷ m.frames;
        reg_count = needed;
      }

  -- `reduct_eval_pop_frame`.
  unfoldable pub pop_to : Machine V → List Frame → Result (Machine V)
  pop_to m [] = fault
  pop_to m (f ∷ fs) = ok (record m { frames = fs; reg_count = f.prev_reg_count })

  abbrev pub pop_frame : Machine V → Result (Machine V)
  pop_frame m = pop_to m m.frames

  -- `reduct_eval_tail_frame` on the frame `f` above `fs`.
  unfoldable pub tail_frame : Machine V → Frame → List Frame → (closure : ℕ) → Machine V
  tail_frame m f fs k =
      let needed = u32 (f.base + (m.closures k).function.register_count) in
      let m' = ensure_regs m needed in
      record m' { frames = record f { closure = k; ip = 0 } ∷ fs; reg_count = needed }

  -- `reduct_eval_ensure_ready`: arrays of the initial sizes where there are none.
  unfoldable pub ensure_ready : Machine V → Machine V
  ensure_ready m = record m {
    frame_capacity = if m.frame_capacity == 0 then frames_initial else m.frame_capacity;
    regs = if length m.regs == 0 then replicate regs_initial host.zeroed else m.regs;
  }

  -- The `n` registers from `i` on.
  unfoldable pub reg_range : Machine V → (i n : ℕ) → Result (List V)
  reg_range m i n = if leb (i + n) (length m.regs) then ok (take n (drop i m.regs)) else fault

  -- `reduct_eval_bundle_args`: the number of arguments that the function's registers take. The
  -- arity of a variadic function is 1 or more; `arity - 1` of 0 is the largest `uint32_t` there.
  unfoldable pub bundle_args : Machine V → Function V → (argc argv : ℕ) → Result (ℕ × Machine V)
  bundle_args m f argc argv =
      if f.variadic
      then (let fixed = u32 (f.arity + 2 ^ 32 - 1) in
          if leb fixed argc
          then (do
            rest ← reg_range m (argv + fixed) (argc - fixed)
            m' ← write_reg m (argv + fixed) (host.of_list rest)
            ok (f.arity, m'))
          else thrown (expected_at_least fixed argc))
      else if argc == f.arity
      then ok (argc, m)
      else thrown (expected f.arity argc)
