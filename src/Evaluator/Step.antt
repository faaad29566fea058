-- ===== src/Evaluator/Step.antt =====
-- `reduct_eval_run`: one function per label. The frame that runs is `f`, above `fs`; its `ip` is past
-- the instruction when a label starts, as `DISPATCH` leaves it. `REDUCT_GC_CHECK` may collect
-- garbage, which the machine does not see.
use reduct.Prelude.{
  ℕ, zero, suc, ◌+◌, ◌-◌, Bool, true, false, not, ◌&&◌, Option, none, some, List, [], ◌∷◌, ◌++◌,
  length, get_elem?, set, ltb, leb, ◌==◌, if◌then◌else◌,
}
use reduct.Prelude.Int.{ℤ, pos, negsuc}
use reduct.Opcode.{
  Opcode, nop, mov, list, closure, capture, jmp, jmpf, jmpt, call, ret, tailcall, recur, tailrecur,
  eq, neq, lt, le, gt, ge, bnot, shl, shr, jeq, jneq, jlt, jle, jgt, jge, fork, join, decode, base,
  mode_const,
}
use reduct.Inst.{get_op, get_a, get_b, get_c, get_sax}
use reduct.Evaluator.Machine.{
  Kind, Result, ok, thrown, fault, ◌>>=◌, from_option, invalid_opcode, cannot_call_nil, cannot_call,
  shift_amount, Function, Closure, Frame, Machine, Host, read_reg, read_closure, write_reg,
}
use reduct.Evaluator.Frames.{push_frame, pop_frame, tail_frame, reg_range, bundle_args, replicate}

-- The machine runs on, or the frame that `reduct_eval_run` started with has returned.
pub data Next (V : Type 0) : Type 0 where
  running : Machine V → Next V
  finished : V → Machine V → Next V

-- The opcodes that the dispatch table has with a constant operand too.
unfoldable pub takes_const : Opcode → Bool
takes_const nop = false
takes_const list = false
takes_const jmp = false
takes_const jmpf = false
takes_const jmpt = false
takes_const recur = false
takes_const tailrecur = false
takes_const _ = true

unfoldable pub move_ip : ℕ → ℤ → Option ℕ
move_ip ip (pos n) = some (ip + n)
move_ip ip (negsuc n) = if leb (suc n) ip then some (ip - suc n) else none

-- REDUCT_HANDLE_NUMBER_WIDTH.
abbrev pub number_width : ℕ
number_width = 64

-- `amount >= 0 && amount < REDUCT_HANDLE_NUMBER_WIDTH - 1`.
unfoldable pub valid_amount : ℤ → Bool
valid_amount (pos n) = ltb n (number_width - 1)
valid_amount (negsuc n) = false

-- The loop that moves the arguments of a tail call down to the base of its frame.
unfoldable pub copy_down : {V : Type 0} → Machine V → (base a i n : ℕ) → Result (Machine V)
copy_down m base a i zero = ok m
copy_down m base a i (suc n) = do
  v ← read_reg m (base + a + i)
  m' ← write_reg m (base + i) v
  copy_down m' base a (suc i) n

module _ {V : Type 0} (host : Host V) (should_fork : Bool) (initial : ℕ) where
  -- REDUCT_HANDLE_IS_TRUTHY.
  abbrev pub truthy : V → Bool
  truthy v = elim (host.kind v) [ Kind.nil ↦ false | _ ↦ true ]

  abbrev pub set_ip : Machine V → Frame → List Frame → ℕ → Machine V
  set_ip m f fs ip = record m { frames = record f { ip = ip } ∷ fs }

  -- `r[a] = v`.
  abbrev pub store : Machine V → Frame → ℕ → V → Result (Next V)
  store m f inst v = do m' ← write_reg m (f.base + get_a inst) v; ok (running m')

  -- `ip += sax`.
  abbrev pub jump : Machine V → Frame → List Frame → ℕ → Result (Next V)
  jump m f fs inst = do
    ip ← from_option (move_ip f.ip (get_sax inst))
    ok (running (set_ip m f fs ip))

  -- `label_jmpf` and `label_jmpt`.
  abbrev pub jump_if : Machine V → Frame → List Frame → ℕ → Bool → Result (Next V)
  jump_if m f fs inst when = do
    v ← read_reg m (f.base + get_c inst)
    if truthy v
        then (if when then jump m f fs inst else ok (running m))
        else (if when then ok (running m) else jump m f fs inst)

  -- `OP_SKIP_CMP`.
  abbrev pub skip : Machine V → Frame → List Frame → ℕ → V → Opcode → Result (Next V)
  skip m f fs inst c op = do
    b ← read_reg m (f.base + get_b inst)
    ok (running (if host.compare op b c then set_ip m f fs (suc f.ip) else m))

  -- `OP_COMPARE`.
  abbrev pub compare : Machine V → Frame → ℕ → V → Opcode → Result (Next V)
  compare m f inst c op = do
    b ← read_reg m (f.base + get_b inst)
    store m f inst (host.of_bool (host.compare op b c))

  -- `OP_ARITH`, `OP_BITWISE` and the labels of division and remainder.
  abbrev pub arithmetic : Machine V → Frame → ℕ → V → Opcode → Result (Next V)
  arithmetic m f inst c op = do
    b ← read_reg m (f.base + get_b inst)
    v ← host.compute op b c
    store m f inst v

  -- `OP_SHIFT`.
  abbrev pub shift_by : Machine V → Frame → ℕ → Opcode → ℤ → Result (Next V)
  shift_by m f inst op amount =
      if valid_amount amount
      then (do
        b ← read_reg m (f.base + get_b inst)
        x ← host.as_int b
        store m f inst (host.shift op x amount))
      else thrown (shift_amount op amount)

  abbrev pub shift : Machine V → Frame → ℕ → V → Opcode → Result (Next V)
  shift m f inst c op = do amount ← host.as_int c; shift_by m f inst op amount

  -- The errors of `label_call`, `label_tailcall` and `label_fork`.
  abbrev pub not_callable : {A : Type 0} → Kind → Result A
  not_callable Kind.nil = thrown cannot_call_nil
  not_callable k = thrown (cannot_call k)

  -- What follows a native or a future: `UPDATE_STATE` and `r[a] = res`.
  abbrev pub store_in : Machine V → List Frame → ℕ → V → Result (Next V)
  store_in m [] a v = fault
  store_in m (f ∷ fs) a v = write_reg m (f.base + a) v >>= λ m'. ok (running m')

  abbrev pub store_top : ℕ → V × Machine V → Result (Next V)
  store_top a (v, m) = store_in m m.frames a v

  abbrev pub call_kind : Machine V → Frame → ℕ → Kind → Result (Next V)
  call_kind m f inst (Kind.closure k) = do
    c ← read_closure m k
    (n, m') ← bundle_args host m c.function (get_b inst) (f.base + get_a inst)
    ok (running (push_frame host m' k (f.base + get_a inst)))
  call_kind m f inst (Kind.native n) =
      host.native n (get_b inst) (f.base + get_a inst) m >>= store_top (get_a inst)
  call_kind m f inst k = not_callable k

  -- `reduct_eval_pop_frame`, and the test for the frame that the run started with.
  abbrev pub return_to : Machine V → V → Result (Next V)
  return_to m v = do
    m' ← pop_frame host m
    ok (if length m'.frames == initial then finished v m' else running m')

  -- `label_ret`.
  abbrev pub return : Machine V → Frame → V → Result (Next V)
  return m f v = do m' ← write_reg m f.base v; return_to m' v

  abbrev pub return_in : Machine V → List Frame → V → Result (Next V)
  return_in m [] v = fault
  return_in m (f ∷ fs) v = return m f v

  abbrev pub return_native : V × Machine V → Result (Next V)
  return_native (v, m) = return_in m m.frames v

  -- The bundling and the move of the arguments of `label_tailcall` and `label_tailrecur`.
  abbrev pub tail_args : Machine V → Frame → ℕ → Function V → Result (Machine V)
  tail_args m f inst callee = do
    (n, m') ← bundle_args host m callee (get_b inst) (f.base + get_a inst)
    if get_a inst == 0 then ok m' else copy_down m' f.base (get_a inst) 0 n

  abbrev pub tailcall_kind : Machine V → Frame → List Frame → ℕ → Kind → Result (Next V)
  tailcall_kind m f fs inst (Kind.closure k) = do
    c ← read_closure m k
    m' ← tail_args m f inst c.function
    ok (running (tail_frame host m' f fs k))
  tailcall_kind m f fs inst (Kind.native n) =
      host.native n (get_b inst) (f.base + get_a inst) m >>= return_native
  tailcall_kind m f fs inst k = not_callable k

  abbrev pub recur_to : Machine V → Frame → ℕ → Result (Next V)
  recur_to m f inst = do
    c ← read_closure m f.closure
    (n, m') ← bundle_args host m c.function (get_b inst) (f.base + get_a inst)
    ok (running (push_frame host m' f.closure (f.base + get_a inst)))

  abbrev pub tailrecur_to : Machine V → Frame → List Frame → ℕ → Result (Next V)
  tailrecur_to m f fs inst = do
    c ← read_closure m f.closure
    m' ← tail_args m f inst c.function
    ok (running (set_ip m' f fs 0))

  -- REDUCT_HANDLE_IS_CALLABLE.
  abbrev pub is_callable : Kind → Bool
  is_callable (Kind.closure _) = true
  is_callable (Kind.native _) = true
  is_callable (Kind.function _) = true
  is_callable _ = false

  abbrev pub fork_call : Machine V → Frame → ℕ → V → Result (Next V)
  fork_call m f inst c =
      if is_callable (host.kind c)
      then store_top (get_a inst) (host.spawn c (get_b inst) (f.base + get_a inst) m)
      else not_callable (host.kind c)

  abbrev pub join_kind : Machine V → ℕ → V → Kind → Result (Next V)
  join_kind m inst c (Kind.future n) = host.join n m >>= store_top (get_a inst)
  join_kind m inst c _ = store_top (get_a inst) (c, m)

  -- `reduct_closure_new`: the captures are empty, and the constants of the function follow.
  unfoldable pub constants_of : List V → List V
  constants_of [] = []
  constants_of (v ∷ vs) = host.of_constant v ∷ constants_of vs

  unfoldable pub closure_new : Machine V → Function V → ℕ × Machine V
  closure_new m function = (
    m.closure_count,
    record m {
      closures = λ k.
          if k == m.closure_count
          then record {
            function = function;
            constants =
                replicate function.capture_count host.empty ++ constants_of function.constants;
          }
          else m.closures k;
      closure_count = suc m.closure_count;
    },
  )

  abbrev pub make_closure : Machine V → Frame → ℕ → Kind → Result (Next V)
  make_closure m f inst (Kind.function n) =
      let (k, m') = closure_new m (host.functions n) in store m' f inst (host.of_closure k)
  make_closure m f inst _ = fault

  -- `closurePtr->constants[b] = valC`.
  abbrev pub with_constant : Machine V → ℕ → ℕ → V → ℕ → Closure V
  with_constant m k b v j =
      if j == k
      then record (m.closures k) { constants = set (m.closures k).constants b v }
      else m.closures j

  unfoldable pub set_constant : Machine V → ℕ → ℕ → V → Result (Machine V)
  set_constant m k b v =
      if ltb b (length (m.closures k).constants)
      then ok (record m { closures = with_constant m k b v })
      else fault

  abbrev pub capture_in : Machine V → ℕ → V → Kind → Result (Next V)
  capture_in m b c (Kind.closure k) = do m' ← set_constant m k b c; ok (running m')
  capture_in m b c _ = fault

  -- The labels with the operand C decoded, `valC`.
  unfoldable pub with_operand : Machine V → Frame → List Frame → ℕ → Opcode → V → Result (Next V)
  with_operand m f fs inst call c = call_kind m f inst (host.kind c)
  with_operand m f fs inst tailcall c = tailcall_kind m f fs inst (host.kind c)
  with_operand m f fs inst mov c = store m f inst c
  with_operand m f fs inst ret c = return m f c
  with_operand m f fs inst eq c = compare m f inst c eq
  with_operand m f fs inst neq c = compare m f inst c neq
  with_operand m f fs inst lt c = compare m f inst c lt
  with_operand m f fs inst le c = compare m f inst c le
  with_operand m f fs inst gt c = compare m f inst c gt
  with_operand m f fs inst ge c = compare m f inst c ge
  with_operand m f fs inst jeq c = skip m f fs inst c jeq
  with_operand m f fs inst jneq c = skip m f fs inst c jneq
  with_operand m f fs inst jlt c = skip m f fs inst c jlt
  with_operand m f fs inst jle c = skip m f fs inst c jle
  with_operand m f fs inst jgt c = skip m f fs inst c jgt
  with_operand m f fs inst jge c = skip m f fs inst c jge
  with_operand m f fs inst bnot c = do x ← host.as_int c; store m f inst (host.complement x)
  with_operand m f fs inst shl c = shift m f inst c shl
  with_operand m f fs inst shr c = shift m f inst c shr
  with_operand m f fs inst fork c =
      if should_fork then fork_call m f inst c else call_kind m f inst (host.kind c)
  with_operand m f fs inst join c =
      if should_fork then join_kind m inst c (host.kind c) else store m f inst c
  with_operand m f fs inst closure c = make_closure m f inst (host.kind c)
  with_operand m f fs inst capture c = do
    a ← read_reg m (f.base + get_a inst)
    capture_in m (get_b inst) c (host.kind a)
  with_operand m f fs inst op c = arithmetic m f inst c op

  -- `DECODE_C_REG` and `DECODE_C_CONST`.
  unfoldable pub operand : Machine V → Frame → ℕ → Bool → Result V
  operand m f inst const =
      if const
      then (do k ← read_closure m f.closure; from_option (get_elem? k.constants (get_c inst)))
      else read_reg m (f.base + get_c inst)

  unfoldable pub label : Machine V → Frame → List Frame → ℕ → Opcode → Bool → Result (Next V)
  label m f fs inst nop const = ok (running m)
  label m f fs inst list const = do
    vs ← reg_range host m (f.base + get_a inst) (get_b inst)
    store m f inst (host.of_list vs)
  label m f fs inst jmp const = jump m f fs inst
  label m f fs inst jmpf const = jump_if m f fs inst false
  label m f fs inst jmpt const = jump_if m f fs inst true
  label m f fs inst recur const = recur_to m f inst
  label m f fs inst tailrecur const = tailrecur_to m f fs inst
  label m f fs inst op const = do c ← operand m f inst const; with_operand m f fs inst op c

  -- The dispatch table, with `label_invalid` for what it has no label for.
  abbrev pub dispatch : Machine V → Frame → List Frame → ℕ → Bool → Option Opcode → Result (Next V)
  dispatch m f fs inst const none = thrown (invalid_opcode (get_op inst))
  dispatch m f fs inst const (some op) =
      if const && not (takes_const op)
      then thrown (invalid_opcode (get_op inst))
      else label m f fs inst op const

  -- `DISPATCH`.
  abbrev pub step_in : Machine V → List Frame → Result (Next V)
  step_in m [] = fault
  step_in m (f ∷ fs) = do
    c ← read_closure m f.closure
    inst ← from_option (get_elem? c.function.insts f.ip)
    dispatch (set_ip m f fs (suc f.ip)) (record f { ip = suc f.ip }) fs inst
        (leb mode_const (get_op inst)) (decode (base (get_op inst)))

  unfoldable pub step : Machine V → Result (Next V)
  step m = step_in m m.frames
