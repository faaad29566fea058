-- ===== src/Evaluator/Steps.antt =====
-- Every instruction keeps the invariant of the machine, whatever the instruction.
use reduct.Prelude.{
  ℕ, suc, ◌+◌, ◌<◌, Bool, true, false, not, ◌&&◌, Option, none, some, List, [], ◌∷◌, ◌≡◌, refl, ◌∙◌,
  ap, length, get_elem?, ltb, leb, ◌==◌, Bool-cases, inl, inr, arith,
}
use reduct.Opcode.{
  Opcode, nop, mov, list, closure, capture, jmp, jmpf, jmpt, call, ret, tailcall, recur, tailrecur,
  eq, neq, lt, le, gt, ge, bnot, shl, shr, jeq, jneq, jlt, jle, jgt, jge, fork, join, decode, base,
  mode_const,
}
use reduct.Inst.{get_op, get_a, get_b}
use reduct.Evaluator.Machine.{
  Kind, ok, ◌>>=◌, from_option, Function, Closure, Frame, Machine, Host, read_reg, read_closure,
}
use reduct.Evaluator.Frames.{tail_frame, reg_range}
use reduct.Evaluator.Step
use reduct.Evaluator.Step.{Next, running, finished, copy_down, step}
use reduct.Evaluator.Invariant.{On, On-bind, IsMachine, Stacked-later, Alike}
use reduct.Evaluator.Keeps.{tail_frame-IsMachine}
use reduct.Evaluator.Run.{
  NextIs, IsHost, after_read, set_ip-IsMachine, jump-Keeps, jump_if-Keeps, skip-Keeps, store-Keeps,
  store_top-Keeps, compare-Keeps, arithmetic-Keeps, shift-Keeps, not_callable-Keeps, known,
  enter-Keeps, after_native, call_kind-Keeps, return-Keeps, return_native-Keeps, tail_args-Alike,
}

module _ {V : Type 0} (host : Host V) (should_fork : Bool) (initial : ℕ)
    (lawful : IsHost host) where
  pub closure_new-IsMachine :
      (m : Machine V) (function : Function V)
      → IsMachine m
      → IsMachine (Step.closure_new host should_fork initial m function).1
  unfolding Step.closure_new
  closure_new-IsMachine m function h = record {
    some_regs = h.some_regs;
    some_frames = h.some_frames;
    counted = h.counted;
    framed = h.framed;
    stacked =
        Stacked-later m.closures (Step.closure_new host should_fork initial m function).1.closures
          (λ k below. ground arith) (omega arith) (omega arith) m.frames m.reg_count h.stacked;
  }

  set_constant-IsMachine :
      (m : Machine V) (k b : ℕ) (v : V)
      → IsMachine m
      → On IsMachine (Step.set_constant host should_fork initial m k b v)
  unfolding Step.set_constant
  set_constant-IsMachine m k b v h = elim (Bool-cases (ltb b (length (m.closures k).constants))) [
    | inr e ↦ rw e tt
    | inl e ↦ rw e (record {
      some_regs = h.some_regs;
      some_frames = h.some_frames;
      counted = h.counted;
      framed = h.framed;
      stacked =
          Stacked-later m.closures (Step.with_constant host should_fork initial m k b v)
            (λ j below. same j) (omega arith) (omega arith) m.frames m.reg_count h.stacked;
    })
  ]
    where
      same :
          (j : ℕ)
          → (Step.with_constant host should_fork initial m k b v j).function.register_count
            ≡ (m.closures j).function.register_count
      same j = elim (Bool-cases (j == k)) [
        | inl e ↦
            rw e (ap (λ t. (m.closures t).function.register_count) {x = k} {y = j} (ground arith))
        | inr e ↦ rw e refl
      ]

  make_closure-Keeps :
      (m : Machine V)
      → IsMachine m
      → (f : Frame) (inst : ℕ) (k : Kind)
      → On NextIs (Step.make_closure host should_fork initial m f inst k)
  make_closure-Keeps m h f inst (Kind.function n) =
      store-Keeps host should_fork initial lawful
        (Step.closure_new host should_fork initial m (host.functions n)).1
        (closure_new-IsMachine m (host.functions n) h) f inst _
  make_closure-Keeps m h f inst _ = tt

  capture_in-Keeps :
      (m : Machine V)
      → IsMachine m
      → (b : ℕ) (c : V) (k : Kind) → On NextIs (Step.capture_in host should_fork initial m b c k)
  capture_in-Keeps m h b c (Kind.closure k) =
      On-bind IsMachine NextIs (Step.set_constant host should_fork initial m k b c) _
        (set_constant-IsMachine m k b c h) (λ m' h'. h')
  capture_in-Keeps m h b c _ = tt

  fork_call-Keeps :
      (m : Machine V)
      → IsMachine m
      → (f : Frame) (inst : ℕ) (c : V)
      → On NextIs (Step.fork_call host should_fork initial m f inst c)
  fork_call-Keeps m h f inst c =
      elim (Bool-cases (Step.is_callable host should_fork initial (host.kind c))) [
        | inl e ↦ rw e (
            store_top-Keeps host should_fork initial lawful (get_a inst) _
              (lawful.spawn c (get_b inst) (f.base + get_a inst) m h))
        | inr e ↦ rw e (not_callable-Keeps host should_fork initial lawful m h (host.kind c))
      ]

  join_kind-Keeps :
      (m : Machine V)
      → IsMachine m
      → (inst : ℕ) (c : V) (k : Kind)
      → On NextIs (Step.join_kind host should_fork initial m inst c k)
  join_kind-Keeps m h inst c (Kind.future n) =
      after_native host should_fork initial lawful m h (host.join n m) _ (lawful.join n m h)
        (store_top-Keeps host should_fork initial lawful (get_a inst))
  join_kind-Keeps m h inst c _ =
      store_top-Keeps host should_fork initial lawful (get_a inst) (c, m) h

  -- A step of the frame `f` above `fs`.
  module _ (m : Machine V) (f : Frame) (fs : List Frame) (h : IsMachine m)
      (e : m.frames ≡ f ∷ fs) where
    tail_to-Keeps :
        (inst : ℕ) (callee : Function V) (k : ℕ)
        → k < m.closure_count
        → On NextIs (
            Step.tail_args host should_fork initial m f inst callee >>= λ m'.
            ok (running (tail_frame host m' f fs k)))
    tail_to-Keeps inst callee k below =
        On-bind (Alike m) NextIs (Step.tail_args host should_fork initial m f inst callee) _
          (tail_args-Alike host should_fork initial lawful m h f inst callee)
          λ m' a.
            tail_frame-IsMachine host m' f fs k a.is (a.frames ∙ e) (omega (arith, a.closure_count))

    tailcall_kind-Keeps :
        (inst : ℕ) (k : Kind)
        → On NextIs (Step.tailcall_kind host should_fork initial m f fs inst k)
    tailcall_kind-Keeps inst (Kind.closure k) =
        On-bind (λ (c : Closure V). k < m.closure_count) NextIs (read_closure m k) _
          (known host should_fork initial lawful m h k)
          (λ c below. tail_to-Keeps inst c.function k below)
    tailcall_kind-Keeps inst (Kind.native n) =
        after_native host should_fork initial lawful m h
          (host.native n (get_b inst) (f.base + get_a inst) m) _
          (lawful.native n (get_b inst) (f.base + get_a inst) m h)
          (return_native-Keeps host should_fork initial lawful)
    tailcall_kind-Keeps inst Kind.nil = tt
    tailcall_kind-Keeps inst _ = tt

    recur_to-Keeps : (inst : ℕ) → On NextIs (Step.recur_to host should_fork initial m f inst)
    recur_to-Keeps inst =
        On-bind (λ (c : Closure V). f.closure < m.closure_count) NextIs (read_closure m f.closure) _
          (known host should_fork initial lawful m h f.closure)
          λ c below.
            enter-Keeps host should_fork initial lawful m h f.closure (get_b inst)
              (f.base + get_a inst) c.function below

    tailrecur_to-Keeps :
        (inst : ℕ) → On NextIs (Step.tailrecur_to host should_fork initial m f fs inst)
    tailrecur_to-Keeps inst =
        after_read host should_fork initial lawful NextIs (read_closure m f.closure) _ λ c.
          On-bind (Alike m) NextIs (Step.tail_args host should_fork initial m f inst c.function) _
            (tail_args-Alike host should_fork initial lawful m h f inst c.function)
            λ m' a. set_ip-IsMachine host should_fork initial lawful m' f fs a.is (a.frames ∙ e) 0

    with_operand-Keeps :
        (inst : ℕ) (op : Opcode) (c : V)
        → On NextIs (Step.with_operand host should_fork initial m f fs inst op c)
    unfolding Step.with_operand
    with_operand-Keeps inst call c =
        call_kind-Keeps host should_fork initial lawful m h f inst (host.kind c)
    with_operand-Keeps inst tailcall c = tailcall_kind-Keeps inst (host.kind c)
    with_operand-Keeps inst mov c = store-Keeps host should_fork initial lawful m h f inst c
    with_operand-Keeps inst ret c = return-Keeps host should_fork initial lawful m h f c
    with_operand-Keeps inst eq c = compare-Keeps host should_fork initial lawful m h f inst c eq
    with_operand-Keeps inst neq c = compare-Keeps host should_fork initial lawful m h f inst c neq
    with_operand-Keeps inst lt c = compare-Keeps host should_fork initial lawful m h f inst c lt
    with_operand-Keeps inst le c = compare-Keeps host should_fork initial lawful m h f inst c le
    with_operand-Keeps inst gt c = compare-Keeps host should_fork initial lawful m h f inst c gt
    with_operand-Keeps inst ge c = compare-Keeps host should_fork initial lawful m h f inst c ge
    with_operand-Keeps inst jeq c = skip-Keeps host should_fork initial lawful m f fs h e inst c jeq
    with_operand-Keeps inst jneq c =
        skip-Keeps host should_fork initial lawful m f fs h e inst c jneq
    with_operand-Keeps inst jlt c = skip-Keeps host should_fork initial lawful m f fs h e inst c jlt
    with_operand-Keeps inst jle c = skip-Keeps host should_fork initial lawful m f fs h e inst c jle
    with_operand-Keeps inst jgt c = skip-Keeps host should_fork initial lawful m f fs h e inst c jgt
    with_operand-Keeps inst jge c = skip-Keeps host should_fork initial lawful m f fs h e inst c jge
    with_operand-Keeps inst bnot c =
        after_read host should_fork initial lawful NextIs (host.as_int c) _
          (λ x. store-Keeps host should_fork initial lawful m h f inst (host.complement x))
    with_operand-Keeps inst shl c = shift-Keeps host should_fork initial lawful m h f inst c shl
    with_operand-Keeps inst shr c = shift-Keeps host should_fork initial lawful m h f inst c shr
    with_operand-Keeps inst fork c = elim (Bool-cases should_fork) [
      | inl forks ↦ rw forks (fork_call-Keeps m h f inst c)
      | inr waits ↦
          rw waits (call_kind-Keeps host should_fork initial lawful m h f inst (host.kind c))
    ]
    with_operand-Keeps inst join c = elim (Bool-cases should_fork) [
      | inl forks ↦ rw forks (join_kind-Keeps m h inst c (host.kind c))
      | inr waits ↦ rw waits (store-Keeps host should_fork initial lawful m h f inst c)
    ]
    with_operand-Keeps inst closure c = make_closure-Keeps m h f inst (host.kind c)
    with_operand-Keeps inst capture c =
        after_read host should_fork initial lawful NextIs (read_reg m (f.base + get_a inst)) _
          (λ a. capture_in-Keeps m h (get_b inst) c (host.kind a))
    with_operand-Keeps inst op c = arithmetic-Keeps host should_fork initial lawful m h f inst c op

    label-Keeps :
        (inst : ℕ) (op : Opcode) (const : Bool)
        → On NextIs (Step.label host should_fork initial m f fs inst op const)
    unfolding Step.label
    label-Keeps inst nop const = h
    label-Keeps inst list const =
        after_read host should_fork initial lawful NextIs
          (reg_range host m (f.base + get_a inst) (get_b inst)) _
          (λ vs. store-Keeps host should_fork initial lawful m h f inst (host.of_list vs))
    label-Keeps inst jmp const = jump-Keeps host should_fork initial lawful m f fs h e inst
    label-Keeps inst jmpf const =
        jump_if-Keeps host should_fork initial lawful m f fs h e inst false
    label-Keeps inst jmpt const = jump_if-Keeps host should_fork initial lawful m f fs h e inst true
    label-Keeps inst recur const = recur_to-Keeps inst
    label-Keeps inst tailrecur const = tailrecur_to-Keeps inst
    label-Keeps inst op const =
        after_read host should_fork initial lawful NextIs
          (Step.operand host should_fork initial m f inst const) _ (with_operand-Keeps inst op)

    dispatch-Keeps :
        (inst : ℕ) (const : Bool) (op : Option Opcode)
        → On NextIs (Step.dispatch host should_fork initial m f fs inst const op)
    dispatch-Keeps inst const none = tt
    dispatch-Keeps inst const (some op) = elim (Bool-cases (const && not (Step.takes_const op))) [
      | inl bad ↦ rw bad tt
      | inr good ↦ rw good (label-Keeps inst op const)
    ]

  -- Whatever the instruction and its operands, a step from a machine as it should be ends in such a
  -- machine, in an error, or in an access outside what there is, where natives and futures keep to
  -- this.
  pub step-IsMachine : (m : Machine V) → IsMachine m → On NextIs (step host should_fork initial m)
  unfolding step
  step-IsMachine m h = from m.frames refl
    where
      from :
          (fs : List Frame) → m.frames ≡ fs → On NextIs (Step.step_in host should_fork initial m fs)
      from [] e = tt
      from (f ∷ fs) e =
          after_read host should_fork initial lawful NextIs (read_closure m f.closure) _ λ c.
            after_read host should_fork initial lawful NextIs
              (from_option (get_elem? c.function.insts f.ip)) _
              λ inst.
                dispatch-Keeps (Step.set_ip host should_fork initial m f fs (suc f.ip))
                  (record f { ip = suc f.ip }) fs
                  (set_ip-IsMachine host should_fork initial lawful m f fs h e (suc f.ip)) refl inst
                  (leb mode_const (get_op inst)) (decode (base (get_op inst)))
