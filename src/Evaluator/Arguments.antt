-- ===== src/Evaluator/Arguments.antt =====
-- Which argument counts a function accepts, and what it finds in its registers.
use reduct.Prelude.{
  ℕ, zero, suc, ◌+◌, ◌-◌, ◌≤◌, ◌<◌, ◌^◌, Bool, true, false, ◌&&◌, some, List, [], ◌∷◌, ◌≡◌, refl,
  ap, subst, length, take, drop, get_elem?, set, ltb, leb, lt→ltb, ◌==◌, ==_iff, if◌then◌else◌,
  Bool-cases, inl, inr, arith,
}
use reduct.Prelude.Words.{u32}
use reduct.Evaluator.Machine.{ok, thrown, Error, Function, Machine, Host, write_reg}
use reduct.Evaluator.Frames.{reg_range, bundle_args}

pub get_elem?-set :
    {A : Type 0} (xs : List A) (i j : ℕ) (v : A)
    → i < length xs
    → get_elem? (set xs i v) j ≡ (if j == i then some v else get_elem? xs j)
get_elem?-set [] i j v h = absurd (omega arith)
get_elem?-set (x ∷ xs) zero zero v h = refl
get_elem?-set (x ∷ xs) zero (suc j) v h = ground arith
get_elem?-set (x ∷ xs) (suc i) zero v h = ground arith
get_elem?-set (x ∷ xs) (suc i) (suc j) v h = ground (arith, get_elem?-set xs i j v)

-- The arity of a variadic function counts the list of the other arguments.
abbrev pub accepts : {V : Type 0} → Function V → ℕ → Bool
accepts f argc = if f.variadic then leb f.arity (suc argc) else argc == f.arity

fixed_count : (arity : ℕ) → 1 ≤ arity → arity < 2 ^ 32 → u32 (arity + 2 ^ 32 - 1) ≡ arity - 1
fixed_count arity pos small = omega arith

module _ {V : Type 0} (host : Host V) (m : Machine V) (f : Function V) (argc argv : ℕ) where
  -- The arguments behind the fixed ones, as a list.
  abbrev pub rest_of : V
  rest_of = host.of_list (take (argc - (f.arity - 1)) (drop (argv + (f.arity - 1)) m.regs))

  -- The registers that the function finds.
  abbrev pub Finds : Machine V → Type 0
  Finds m' =
      (i : ℕ)
      → get_elem? m'.regs i
        ≡ (if f.variadic && (i == argv + (f.arity - 1)) then some rest_of else get_elem? m.regs i)

  -- With the arguments and the function's own count of them within the registers, a call is accepted
  -- just for the arity of the function, or that less one and more for a variadic one. It finds
  -- its arguments as they are but for the last register of a variadic one, which has the list of the
  -- arguments from there on; no other register changes. Other counts are an error.
  pub bundle_args_lem :
      (f.variadic ≡ true → 1 ≤ f.arity)
      → f.arity < 2 ^ 32
      → argv + argc ≤ length m.regs
      → argv + f.arity ≤ length m.regs
      → (if accepts f argc
          then ((m' : Machine V) × (bundle_args host m f argc argv ≡ ok (f.arity, m')) × Finds m')
          else ((e : Error) × (bundle_args host m f argc argv ≡ thrown e)))
  unfolding bundle_args reg_range write_reg
  bundle_args_lem pos small given wanted = elim (Bool-cases f.variadic) [
    | inr e ↦ elim (Bool-cases (argc == f.arity)) [
      | inl e' ↦ rw (e, e') (m, ap (λ (t : ℕ). ok (t, m)) ((==_iff argc f.arity).0 e'), λ i. refl)
      | inr e' ↦ rw (e, e') (_, refl)
    ]
    | inl e ↦ elim (Bool-cases (leb f.arity (suc argc))) [
      | inl e' ↦
          rw
            (
              e,
              e',
              fixed_count f.arity (pos e) small,
              enough (pos e) e',
              inside (pos e) e',
              room (pos e),
            )
            (
              record m { regs = set m.regs (argv + (f.arity - 1)) rest_of },
              refl,
              λ i. get_elem?-set m.regs (argv + (f.arity - 1)) i rest_of (omega (arith, pos e)),
            )
      | inr e' ↦ rw (e, e', fixed_count f.arity (pos e) small, too_few (pos e) e') (_, refl)
    ]
  ]
    where
      enough : 1 ≤ f.arity → leb f.arity (suc argc) ≡ true → leb (f.arity - 1) argc ≡ true
      enough p e = ground arith

      too_few : 1 ≤ f.arity → leb f.arity (suc argc) ≡ false → leb (f.arity - 1) argc ≡ false
      too_few p e = ground arith

      inside :
          1 ≤ f.arity
          → leb f.arity (suc argc) ≡ true
          → leb (argv + (f.arity - 1) + (argc - (f.arity - 1))) (length m.regs) ≡ true
      inside p e = ground arith

      room : 1 ≤ f.arity → ltb (argv + (f.arity - 1)) (length m.regs) ≡ true
      room p = lt→ltb _ _ (omega arith)

  -- Other counts are an error whatever the registers are.
  pub bundle_args-refused :
      (f.variadic ≡ true → 1 ≤ f.arity)
      → f.arity < 2 ^ 32
      → accepts f argc ≡ false
      → (e : Error) × (bundle_args host m f argc argv ≡ thrown e)
  unfolding bundle_args
  bundle_args-refused pos small refused = elim (Bool-cases f.variadic) [
    | inr e ↦ rw (e, unequal e) (_, refl)
    | inl e ↦ rw (e, fixed_count f.arity (pos e) small, fewer e (pos e)) (_, refl)
  ]
    where
      unequal : f.variadic ≡ false → (argc == f.arity) ≡ false
      unequal e = ground (arith, e, refused)

      fewer : f.variadic ≡ true → 1 ≤ f.arity → leb (f.arity - 1) argc ≡ false
      fewer e p = ground (arith, e, refused)

  pub bundle_args-accepted :
      (f.variadic ≡ true → 1 ≤ f.arity)
      → f.arity < 2 ^ 32
      → argv + argc ≤ length m.regs
      → argv + f.arity ≤ length m.regs
      → accepts f argc ≡ true
      → (m' : Machine V) × (bundle_args host m f argc argv ≡ ok (f.arity, m')) × Finds m'
  bundle_args-accepted pos small given wanted fits =
      subst
        (λ c.
          if c
          then ((m' : Machine V) × (bundle_args host m f argc argv ≡ ok (f.arity, m')) × Finds m')
          else ((e : Error) × (bundle_args host m f argc argv ≡ thrown e)))
        fits (bundle_args_lem pos small given wanted)
