-- ===== src/Evaluator/Calls.antt =====
-- A call of a closure from the host: what the machine is before the run.
use reduct.Prelude.{
  ℕ, ◌+◌, ◌-◌, ◌^◌, ◌≤◌, ◌<◌, Bool, true, false, Option, some, List, ◌∷◌, ◌≡◌, ◌≢◌, refl, sym, ◌∙◌,
  ap, ap₂, subst, length, take, drop, get_elem?, lt→ltb, ◌==◌, ==_refl, if◌then◌else◌, Bool-cases,
  inl, inr, arith,
}
use reduct.Prelude.Words.{u32}
use reduct.Evaluator.Machine.{
  Result, ok, thrown, Error, Function, Frame, Machine, Host, read_closure,
}
use reduct.Evaluator.Frames.{ensure_regs, push_frame, ensure_ready, bundle_args}
use reduct.Evaluator.Invariant.{On, IsMachine, Stacked-more, Alike, Alike-trans}
use reduct.Evaluator.Keeps.{
  Grown, ensure_regs-Grown, Stacked-Grown, push_frame-IsMachine, Bundled, bundle_args-Alike,
}
use reduct.Evaluator.Arguments.{accepts, bundle_args-accepted, bundle_args-refused, Finds}
use reduct.Evaluator.Places.{
  get_elem?-drop, take-Stand, length-drop, ensure_regs-keeps, push_frame-keeps, Written,
  write_args-Alike, write_args-Written,
}
use reduct.Evaluator.Eval.{write_args, call_needs, place_at, place_call, enter_call}

module _ {V : Type 0} (host : Host V) (should_fork : Bool) where
  needs_lem :
      (f : Function V) (argc : ℕ)
      → (argc ≤ call_needs host should_fork f argc)
        × (f.register_count ≤ call_needs host should_fork f argc)
        × (accepts f argc ≡ true → f.arity ≤ call_needs host should_fork f argc)
  unfolding call_needs
  needs_lem f argc = (ground arith, ground arith, λ e. ground (arith, e))

  -- A call has its frame on top, the registers of the function in use, and its arguments at its
  -- base, those behind the fixed ones as a list; the registers below are as they were. Its frame
  -- gives back `needed` registers more than were in use.
  pub record Called (m : Machine V) (k : ℕ) (argv : List V) (m' : Machine V) : Type 0 where
    pub is : IsMachine m'
    pub frames :
        m'.frames
        ≡ record {
          closure = k;
          ip = 0;
          base = m.reg_count;
          prev_reg_count =
              m.reg_count + call_needs host should_fork (m.closures k).function (length argv);
        }
          ∷ m.frames
    pub in_use : m'.reg_count ≡ m.reg_count + (m.closures k).function.register_count
    pub args :
        (i : ℕ) (v : V)
        → get_elem? argv i ≡ some v
        → ((m.closures k).function.variadic ≡ true → i < (m.closures k).function.arity - 1)
        → get_elem? m'.regs (m.reg_count + i) ≡ some v
    pub rest :
        (m.closures k).function.variadic ≡ true
        → get_elem? m'.regs (m.reg_count + ((m.closures k).function.arity - 1))
          ≡ some (host.of_list (drop ((m.closures k).function.arity - 1) argv))
    pub below :
        (i : ℕ) (v : V)
        → i < m.reg_count
        → get_elem? m.regs i ≡ some v
        → get_elem? m'.regs i ≡ some v

  module _ (m : Machine V) (k : ℕ) (argv : List V) (h : IsMachine m) (known : k < m.closure_count)
      (pos : (m.closures k).function.variadic ≡ true → 1 ≤ (m.closures k).function.arity)
      (small : (m.closures k).function.arity < 2 ^ 32)
      (room : m.reg_count + call_needs host should_fork (m.closures k).function (length argv)
        < 2 ^ 32) where
    abbrev f : Function V
    f = (m.closures k).function

    abbrev needed : ℕ
    needed = call_needs host should_fork f (length argv)

    abbrev grown : Machine V
    grown = record (ensure_regs host m (m.reg_count + needed)) { reg_count = m.reg_count + needed }

    g : Grown host m (ensure_regs host m (m.reg_count + needed)) (m.reg_count + needed)
    g = ensure_regs-Grown host m (m.reg_count + needed) h.some_regs

    grown-IsMachine : IsMachine grown
    grown-IsMachine = record {
      some_regs = omega (arith, g.more, h.some_regs);
      some_frames = omega (arith, g.frame_capacity, h.some_frames);
      counted = g.reach;
      framed = omega (arith, g.frame_capacity, h.framed, ap length g.frames);
      stacked = rw g.frames (
          Stacked-more (ensure_regs host m (m.reg_count + needed)).closures _ _ m.frames m.reg_count
            (m.reg_count + needed) (omega arith)
            (Stacked-Grown host m (ensure_regs host m (m.reg_count + needed)) _ g m.frames
              m.reg_count h.stacked));
    }

    abbrev frame_at : ℕ → Frame
    frame_at count = record { closure = k; ip = 0; base = m.reg_count; prev_reg_count = count }

    abbrev fixed : ℕ
    fixed = f.arity - 1

    module _ (w b : Machine V) (written : Written host should_fork grown m.reg_count argv w)
        (a : Alike grown b) (finds : Finds host w f (length argv) m.reg_count b) where
      -- The registers but the one of the further arguments.
      other :
          (i : ℕ)
          → (f.variadic ≡ true → i ≢ m.reg_count + fixed)
          → get_elem? b.regs i ≡ get_elem? w.regs i
      other i ne =
          finds i
          ∙ elim (Bool-cases f.variadic) [ inr e ↦ rw e refl | inl e ↦ rw (e, apart (ne e)) refl ]
        where
          apart : i ≢ m.reg_count + fixed → (i == m.reg_count + fixed) ≡ false
          apart h = ground arith

      rest_args : take (length argv - fixed) (drop (m.reg_count + fixed) w.regs) ≡ drop fixed argv
      rest_args =
          ap (λ n. take n (drop (m.reg_count + fixed) w.regs)) (sym (length-drop fixed argv))
          ∙ take-Stand (drop fixed argv) w.regs (m.reg_count + fixed) λ i v e.
            subst (λ j. get_elem? w.regs j ≡ some v) {x = m.reg_count + (fixed + i)}
              {y = m.reg_count + fixed + i} (omega arith)
              (written.stand (fixed + i) v (sym (get_elem?-drop argv fixed i) ∙ e))

      -- The bundled arguments, and then the frame.
      pushed-Called : Called m k argv (push_frame host b k m.reg_count)
      unfolding push_frame
      pushed-Called = record {
        is =
            push_frame-IsMachine host b k m.reg_count a.is
              (omega (arith, known, a.closure_count, g.closure_count));
        frames = ap₂ (λ c fs. frame_at c ∷ fs) a.reg_count (a.frames ∙ g.frames);
        in_use =
            ap (λ c. u32 (m.reg_count + (c k).function.register_count)) (a.closures ∙ g.closures)
            ∙ omega (arith, room, (needs_lem f (length argv)).1);
        args = λ i v e early.
            push_frame-keeps host b k m.reg_count a.is.some_regs (m.reg_count + i) v (
              other (m.reg_count + i) (λ va same. omega (arith, early va, same))
              ∙ written.stand i v e);
        rest = λ va. push_frame-keeps host b k m.reg_count a.is.some_regs (m.reg_count + fixed) _ (
            finds (m.reg_count + fixed)
            ∙ rw (va, ==_refl (m.reg_count + fixed)) (ap (λ r. some (host.of_list r)) rest_args));
        below = λ i v lt e. push_frame-keeps host b k m.reg_count a.is.some_regs i v (
            other i (λ va same. omega (arith, lt, same))
            ∙ written.below i lt
            ∙ ensure_regs-keeps host m _ h.some_regs i v e);
      }

    placed :
        (w b : Machine V) (n : ℕ)
        → write_args host should_fork grown m.reg_count argv ≡ ok w
        → bundle_args host w f (length argv) m.reg_count ≡ ok (n, b)
        → place_at host should_fork m f k (length argv) m.reg_count (m.reg_count + needed) argv
          ≡ ok (some (push_frame host b k m.reg_count))
    unfolding place_at
    placed w b n e e' = rw (e, e') refl

    refused :
        (w : Machine V) (r : Error)
        → write_args host should_fork grown m.reg_count argv ≡ ok w
        → bundle_args host w f (length argv) m.reg_count ≡ thrown r
        → place_at host should_fork m f k (length argv) m.reg_count (m.reg_count + needed) argv
          ≡ thrown r
    unfolding place_at
    refused w r e e' = rw (e, e') refl

    -- The run of a command, by whether the count of arguments is that of the function.
    abbrev Outcome : Result (Option (Machine V)) → Type 0
    Outcome r =
        if accepts f (length argv)
        then ((m' : Machine V) × (r ≡ ok (some m')) × Called m k argv m')
        else ((e : Error) × (r ≡ thrown e))

    placed-Outcome :
        (w : Machine V)
        → Written host should_fork grown m.reg_count argv w
        → Outcome
            (place_at host should_fork m f k (length argv) m.reg_count (m.reg_count + needed) argv)
    placed-Outcome w written = elim (Bool-cases (accepts f (length argv))) [
      | inr other_count ↦
          let (r, e) =
            bundle_args-refused host w f (length argv) m.reg_count pos small other_count in
          rw other_count (r, refused w r written.done e)
      | inl fits ↦
          let (b, e, finds) =
            bundle_args-accepted host w f (length argv) m.reg_count pos small
              (omega (arith, g.reach, written.same_length, (needs_lem f (length argv)).0))
              (omega (arith, g.reach, written.same_length, (needs_lem f (length argv)).2 fits))
              fits in
          rw fits (
            push_frame host b k m.reg_count,
            placed w b f.arity written.done e,
            pushed-Called w b written
                (Alike-trans alike (
                  subst (On (Bundled host w)) e
                    (bundle_args-Alike host w f (length argv) m.reg_count alike.is)))
                finds,
          )
    ]
      where
        alike : Alike grown w
        alike =
            subst (On (Alike grown)) written.done
              (write_args-Alike host should_fork argv grown m.reg_count grown-IsMachine)

    place_at-Outcome :
        Outcome
          (place_at host should_fork m f k (length argv) m.reg_count (m.reg_count + needed) argv)
    place_at-Outcome =
        let (w, written) =
          write_args-Written host should_fork argv grown m.reg_count
            (omega (arith, g.reach, (needs_lem f (length argv)).0)) in
        placed-Outcome w written

    -- No sum of `uint32_t` wraps.
    place_call-Outcome : length argv < 2 ^ 32 → Outcome (place_call host should_fork m f k argv)
    unfolding place_call
    place_call-Outcome few =
        subst
          (λ c. Outcome (
            place_at host should_fork m f k c (u32 m.reg_count)
              (u32 (u32 m.reg_count + call_needs host should_fork f c)) argv))
          (sym argc)
          (subst
            (λ t. Outcome (place_at host should_fork m f k (length argv) t (u32 (t + needed)) argv))
            (sym target)
            (subst (λ t. Outcome (place_at host should_fork m f k (length argv) m.reg_count t argv))
              (sym top) place_at-Outcome))
      where
        argc : u32 (length argv) ≡ length argv
        argc = omega arith

        target : u32 m.reg_count ≡ m.reg_count
        target = omega arith

        top : u32 (m.reg_count + needed) ≡ m.reg_count + needed
        top = omega arith

  -- A call from the host of a known closure with code, on a machine that is as it should be once it is
  -- ready, where the registers that it takes are fewer than 2^32 with those in use, ends before the
  -- run. For the arity of the function it gives the machine with the call's frame and arguments;
  -- other counts of arguments are an error.
  pub enter_call_lem :
      (m : Machine V) (k : ℕ) (argv : List V)
      → IsMachine (ensure_ready host m)
      → k < m.closure_count
      → (length (m.closures k).function.insts == 0) ≡ false
      → ((m.closures k).function.variadic ≡ true → 1 ≤ (m.closures k).function.arity)
      → (m.closures k).function.arity < 2 ^ 32
      → m.reg_count + call_needs host should_fork (m.closures k).function (length argv) < 2 ^ 32
      → length argv < 2 ^ 32
      → (if accepts (m.closures k).function (length argv)
          then ((m' : Machine V) × (enter_call host should_fork m k argv ≡ ok (some m'))
              × Called (ensure_ready host m) k argv m')
          else ((e : Error) × (enter_call host should_fork m k argv ≡ thrown e)))
  unfolding enter_call read_closure ensure_ready
  enter_call_lem m k argv h known code pos small room few =
      rw (lt→ltb k m.closure_count known, code)
        (place_call-Outcome (ensure_ready host m) k argv h known pos small room few)
