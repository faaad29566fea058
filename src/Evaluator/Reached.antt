-- ===== src/Evaluator/Reached.antt =====
-- The invariant along runs, from the empty machine on.
use reduct.Prelude.{
  ℕ, zero, suc, ◌≤◌, Bool, true, false, [], ◌≡◌, length, ◌==◌, if◌then◌else◌, Bool-cases, ◌⊎◌, inl,
  inr, arith,
}
use reduct.Evaluator.Machine.{Result, ok, thrown, fault, Function, Machine, Host}
use reduct.Evaluator.Frames.{ensure_ready, replicate, regs_initial}
use reduct.Evaluator.Step.{Next, running, finished, closure_new, step}
use reduct.Evaluator.Invariant.{On, IsMachine, length-replicate}
use reduct.Evaluator.Keeps.{push_frame-IsMachine}
use reduct.Evaluator.Run.{NextIs, IsHost}
use reduct.Evaluator.Steps.{step-IsMachine, closure_new-IsMachine}
use reduct.Evaluator.Eval.{Ran, returned, out_of_fuel, enter, run_from, run}

abbrev pub RanIs : {V : Type 0} → Ran V → Type 0
RanIs {V} (returned r) = On (λ (r : V × Machine V). IsMachine r.1) r
RanIs (out_of_fuel m) = IsMachine m

module _ {V : Type 0} (host : Host V) (should_fork : Bool) where
  -- A machine with no frames that has used none of its registers or none at all is ready.
  pub ensure_ready-IsMachine :
      (m : Machine V) → m.frames ≡ [] → m.reg_count ≡ 0 → IsMachine (ensure_ready host m)
  unfolding ensure_ready
  ensure_ready-IsMachine m none_yet zeroed = record {
    some_regs = ready_regs (Bool-cases (length m.regs == 0));
    some_frames = ground arith;
    counted = omega (arith, zeroed);
    framed = rw none_yet (omega arith);
    stacked = rw none_yet tt;
  }
    where
      ready_regs :
          ((length m.regs == 0) ≡ true) ⊎ ((length m.regs == 0) ≡ false)
          → 1 ≤ length (if length m.regs == 0 then replicate regs_initial host.zeroed else m.regs)
      ready_regs (inl e) = rw e (omega (arith, length-replicate regs_initial host.zeroed))
      ready_regs (inr e) = rw e (ground arith)

  module _ (lawful : IsHost host) where
    -- Evaluating a function on a ready machine starts a machine as it should be, or is refused.
    pub enter-IsMachine :
        (m : Machine V) (function : Function V)
        → IsMachine (ensure_ready host m)
        → On IsMachine (enter host should_fork m function)
    unfolding enter closure_new
    enter-IsMachine m function h = elim (Bool-cases (length function.insts == 0)) [
      | inl e ↦ rw e tt
      | inr e ↦ elim (Bool-cases (function.arity == 0)) [
        | inr e' ↦ rw (e, e') tt
        | inl e' ↦
            rw (e, e')
              (push_frame-IsMachine host
                (closure_new host should_fork 0 (ensure_ready host m) function).1 _ _
                (closure_new-IsMachine host should_fork 0 lawful (ensure_ready host m) function h)
                (omega arith))
      ]
    ]

    along :
        (initial fuel : ℕ)
        → ((m : Machine V) → IsMachine m → RanIs (run host should_fork initial fuel m))
        → (r : Result (Next V)) → On NextIs r
        → RanIs (run_from host should_fork (run host should_fork initial fuel) r)
    unfolding run_from
    along initial fuel later (ok (running m')) h' = later m' h'
    along initial fuel later (ok (finished v m')) h' = h'
    along initial fuel later (thrown e) h' = tt
    along initial fuel later fault h' = tt

    -- A run keeps the invariant to its end, or to where the fuel ends.
    pub run-IsMachine :
        (initial fuel : ℕ) (m : Machine V)
        → IsMachine m
        → RanIs (run host should_fork initial fuel m)
    unfolding run
    run-IsMachine initial zero m h = h
    run-IsMachine initial (suc fuel) m h =
        along initial fuel (run-IsMachine initial fuel) (step host should_fork initial m)
          (step-IsMachine host should_fork initial lawful m h)
