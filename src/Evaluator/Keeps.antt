-- ===== src/Evaluator/Keeps.antt =====
-- Calls, returns and tail calls keep the invariant of the machine.
use reduct.Prelude.{
  ℕ, suc, ◌+◌, ◌-◌, ◌*◌, ◌≤◌, ◌<◌, ◌^◌, List, [], ◌∷◌, ◌++◌, ◌≡◌, refl, ap, subst, length,
  length-append, leb, ◌==◌, Bool-cases, inl, inr, ◌⊎◌, arith,
}
use reduct.Prelude.Words.{u32}
use reduct.Evaluator.Machine.{Result, ok, ◌>>=◌, Function, Frame, Machine, Host, write_reg}
use reduct.Evaluator.Frames.{
  replicate, resize_regs, ensure_regs, ensure_frames, push_frame, pop_to, tail_frame, reg_range,
  bundle_args,
}
use reduct.Evaluator.Invariant.{
  On, On-bind, On-always, IsMachine, Stacked, Stacked-later, Alike, Alike-refl, write_reg-Alike,
  length-replicate, grow_regs_lem,
}

append-nil : {A : Type 0} (xs : List A) → xs ++ [] ≡ xs
append-nil [] = refl
append-nil (x ∷ xs) = ap (λ t. x ∷ t) (append-nil xs)

module _ {V : Type 0} (host : Host V) where
  -- `ensure_regs` keeps the registers that there are and adds zeroed ones, and there are as many as
  -- needed then.
  pub ensure_regs_lem :
      (m : Machine V) (needed : ℕ)
      → 1 ≤ length m.regs
      → (n : ℕ) × (ensure_regs host m needed
          ≡ record m { regs = m.regs ++ replicate n host.zeroed })
        × (needed ≤ length m.regs + n)
        × ((n ≡ 0) ⊎ (length m.regs + n < needed * 2))
  unfolding ensure_regs resize_regs replicate
  ensure_regs_lem m needed pos = elim (Bool-cases (leb needed (length m.regs))) [
    | inl e ↦ (0, rw (e, append-nil m.regs) refl, ground arith, inl refl)
    | inr e ↦
        let (c, same, reach, more, bound) =
          grow_regs_lem needed needed (length m.regs) pos (omega arith) in
        (c - length m.regs, rw (e, same) refl, omega arith, inr (ground arith))
  ]

  -- The fields of a machine with more registers.
  pub record Grown (m m' : Machine V) (needed : ℕ) : Type 0 where
    pub more : length m.regs ≤ length m'.regs
    pub reach : needed ≤ length m'.regs
    pub frames : m'.frames ≡ m.frames
    pub frame_capacity : m'.frame_capacity ≡ m.frame_capacity
    pub closures : m'.closures ≡ m.closures
    pub closure_count : m'.closure_count ≡ m.closure_count
    pub reg_count : m'.reg_count ≡ m.reg_count

  pub ensure_regs-Grown :
      (m : Machine V) (needed : ℕ) → 1 ≤ length m.regs → Grown m (ensure_regs host m needed) needed
  ensure_regs-Grown m needed pos =
      let (n, e, reach, _) = ensure_regs_lem m needed pos in
      rw e (record {
        more = omega (arith, length-append m.regs (replicate n host.zeroed));
        reach =
            omega (
              arith,
              length-append m.regs (replicate n host.zeroed),
              length-replicate n host.zeroed,
            );
        frames = refl;
        frame_capacity = refl;
        closures = refl;
        closure_count = refl;
        reg_count = refl;
      })

  pub Stacked-Grown :
      (m m' : Machine V) (needed : ℕ)
      → Grown m m' needed
      → (fs : List Frame) (count : ℕ) → Stacked m.closures m.closure_count (length m.regs) fs count
      → Stacked m'.closures m'.closure_count (length m'.regs) fs count
  Stacked-Grown m m' needed g =
      Stacked-later m.closures m'.closures (λ k lt. rw g.closures refl)
        (omega (arith, g.closure_count)) g.more

  -- A new frame, where there is room for one.
  place_frame-IsMachine :
      (m : Machine V) (k target : ℕ)
      → IsMachine m
      → suc (length m.frames) ≤ m.frame_capacity
      → k < m.closure_count
      → let needed = u32 (target + (m.closures k).function.register_count) in
        IsMachine (record (ensure_regs host m needed) {
          frames =
              record { closure = k; ip = 0; base = target; prev_reg_count = m.reg_count }
              ∷ m.frames;
          reg_count = needed;
        })
  place_frame-IsMachine m k target h room known =
      let needed = u32 (target + (m.closures k).function.register_count) in
      let g = ensure_regs-Grown m needed h.some_regs in
      record {
        some_regs = omega (arith, g.more, h.some_regs);
        some_frames = omega (arith, g.frame_capacity, h.some_frames);
        counted = g.reach;
        framed = omega (arith, g.frame_capacity, room);
        stacked = (
          omega (arith, g.closure_count),
          (
            rw g.closures (omega arith),
            (
              omega (arith, g.more, h.counted),
              Stacked-Grown m (ensure_regs host m needed) needed g m.frames m.reg_count h.stacked,
            ),
          ),
        );
      }

  pub push_frame-IsMachine :
      (m : Machine V) (k target : ℕ)
      → IsMachine m
      → k < m.closure_count
      → IsMachine (push_frame host m k target)
  unfolding push_frame ensure_frames
  push_frame-IsMachine m k target h known =
      elim (Bool-cases (leb m.frame_capacity (length m.frames))) [
        | inr e ↦ rw e (place_frame-IsMachine m k target h (ground arith) known)
        | inl e ↦ rw e (
            place_frame-IsMachine (record m { frame_capacity = m.frame_capacity * 2 }) k target
              wider (omega (arith, h.framed, h.some_frames)) known)
      ]
    where
      wider : IsMachine (record m { frame_capacity = m.frame_capacity * 2 })
      wider = record {
        some_regs = h.some_regs;
        some_frames = omega (arith, h.some_frames);
        counted = h.counted;
        framed = omega (arith, h.framed);
        stacked = h.stacked;
      }

  pub pop_to-IsMachine :
      (m : Machine V) (fs : List Frame)
      → IsMachine m
      → length fs ≤ m.frame_capacity
      → Stacked m.closures m.closure_count (length m.regs) fs m.reg_count
      → On IsMachine (pop_to host m fs)
  unfolding pop_to
  pop_to-IsMachine m [] h le s = tt
  pop_to-IsMachine m (f ∷ fs) h le (known, (e, (p, s))) = record {
    some_regs = h.some_regs;
    some_frames = h.some_frames;
    counted = p;
    framed = omega arith;
    stacked = s;
  }

  pub tail_frame-IsMachine :
      (m : Machine V) (f : Frame) (fs : List Frame) (k : ℕ)
      → IsMachine m
      → m.frames ≡ f ∷ fs
      → k < m.closure_count
      → IsMachine (tail_frame host m f fs k)
  unfolding tail_frame
  tail_frame-IsMachine m f fs k h e known =
      let needed = u32 (f.base + (m.closures k).function.register_count) in
      let g = ensure_regs-Grown m needed h.some_regs in
      let (_, (_, (p, s))) =
        subst (λ t. Stacked m.closures m.closure_count (length m.regs) t m.reg_count) e h.stacked in
      record {
        some_regs = omega (arith, g.more, h.some_regs);
        some_frames = omega (arith, g.frame_capacity, h.some_frames);
        counted = g.reach;
        framed = omega (arith, g.frame_capacity, h.framed, ap length e);
        stacked = (
          omega (arith, g.closure_count),
          (
            rw g.closures (omega arith),
            (
              omega (arith, g.more, p),
              Stacked-Grown m (ensure_regs host m needed) needed g fs f.prev_reg_count s,
            ),
          ),
        );
      }

  abbrev pub Bundled : Machine V → ℕ × Machine V → Type 0
  Bundled m (n, m') = Alike m m'

  -- Bundling writes one register at most.
  pub bundle_args-Alike :
      (m : Machine V) (f : Function V) (argc argv : ℕ)
      → IsMachine m
      → On (Bundled m) (bundle_args host m f argc argv)
  unfolding bundle_args
  bundle_args-Alike m f argc argv h = elim (Bool-cases f.variadic) [
    | inl e ↦ elim (Bool-cases (leb (u32 (f.arity + 2 ^ 32 - 1)) argc)) [
      | inr e' ↦ rw (e, e') tt
      | inl e' ↦
          rw (e, e')
            (bundled_from (
              reg_range host m (argv + u32 (f.arity + 2 ^ 32 - 1))
                (argc - u32 (f.arity + 2 ^ 32 - 1))))
    ]
    | inr e ↦ elim (Bool-cases (argc == f.arity)) [
      | inl e' ↦ rw (e, e') (Alike-refl h)
      | inr e' ↦ rw (e, e') tt
    ]
  ]
    where
      bundled_from :
          (r : Result (List V))
          → On (Bundled m) (
              r >>= λ rest.
              write_reg m (argv + u32 (f.arity + 2 ^ 32 - 1)) (host.of_list rest) >>= λ m'.
              ok (f.arity, m'))
      bundled_from r =
          On-bind (λ v. Unit) (Bundled m) r _ (On-always _ r (λ v. tt))
            λ rest _.
              On-bind (Alike m) (Bundled m) (write_reg m _ (host.of_list rest)) _
                (write_reg-Alike m _ _ h) (λ m' a. a)
