-- ===== src/Evaluator/Invariant.antt =====
-- What holds of the machine before every instruction: the registers in use are there, and the frames
-- stand on each other as calls left them.
use reduct.Prelude.{
  ℕ, zero, suc, ◌+◌, ◌*◌, ◌≤◌, ◌<◌, some, List, [], ◌∷◌, ◌≡◌, refl, ◌∙◌, ap, length, length-set,
  ltb, Bool-cases, inl, inr, ◌⊎◌, arith,
}
use reduct.Prelude.Words.{u32}
use reduct.Evaluator.Machine.{
  Result, ok, thrown, fault, ◌>>=◌, Closure, Frame, Machine, read_reg, write_reg,
}
use reduct.Evaluator.Frames.{grow_regs, replicate}
use reduct.Evaluator.Step.{copy_down}

-- What holds of a result, when it is one.
abbrev pub On : {A : Type 0} → (A → Type 0) → Result A → Type 0
On P (ok a) = P a
On P (thrown e) = Unit
On P fault = Unit

pub On-bind :
    {A B : Type 0} (P : A → Type 0) (Q : B → Type 0) (r : Result A) (k : A → Result B)
    → On P r
    → ((a : A) → P a → On Q (k a))
    → On Q (r >>= k)
On-bind P Q (ok a) k h f = f a h
On-bind P Q (thrown e) k h f = tt
On-bind P Q fault k h f = tt

pub On-map :
    {A : Type 0} (P Q : A → Type 0) (r : Result A) → On P r → ((a : A) → P a → Q a) → On Q r
On-map P Q (ok a) h f = f a h
On-map P Q (thrown e) h f = tt
On-map P Q fault h f = tt

pub On-always : {A : Type 0} (P : A → Type 0) (r : Result A) → ((a : A) → P a) → On P r
On-always P (ok a) h = h a
On-always P (thrown e) h = tt
On-always P fault h = tt

module _ {V : Type 0} where
  -- Each frame's registers are within the count that stood while it ran, and the count that its
  -- return restores is within the registers.
  abbrev pub Stacked : (ℕ → Closure V) → (closure_count capacity : ℕ) → List Frame → ℕ → Type 0
  Stacked closures n capacity [] count = Unit
  Stacked closures n capacity (f ∷ fs) count =
      (f.closure < n)
      × ((u32 (f.base + (closures f.closure).function.register_count) ≤ count)
          × ((f.prev_reg_count ≤ capacity) × Stacked closures n capacity fs f.prev_reg_count))

  pub record IsMachine (m : Machine V) : Type 0 where
    pub some_regs : 1 ≤ length m.regs
    pub some_frames : 1 ≤ m.frame_capacity
    pub counted : m.reg_count ≤ length m.regs
    pub framed : length m.frames ≤ m.frame_capacity
    pub stacked : Stacked m.closures m.closure_count (length m.regs) m.frames m.reg_count

  -- A larger count keeps the frames.
  pub Stacked-more :
      (closures : ℕ → Closure V) (n capacity : ℕ) (fs : List Frame) (count count' : ℕ)
      → count ≤ count'
      → Stacked closures n capacity fs count
      → Stacked closures n capacity fs count'
  Stacked-more c n cap [] count count' le h = tt
  Stacked-more c n cap (f ∷ fs) count count' le (k, (e, rest)) = (k, (omega arith, rest))

  -- More registers and more closures keep the frames.
  pub Stacked-later :
      (closures closures' : ℕ → Closure V) {n n' capacity capacity' : ℕ}
      → ((k : ℕ)
          → k < n
          → (closures' k).function.register_count ≡ (closures k).function.register_count)
      → n ≤ n'
      → capacity ≤ capacity'
      → (fs : List Frame) (count : ℕ) → Stacked closures n capacity fs count
      → Stacked closures' n' capacity' fs count
  Stacked-later c c' same le more [] count h = tt
  Stacked-later c c' same le more (f ∷ fs) count (k, (e, (p, rest))) = (
    omega arith,
    (
      rw (same f.closure k) e,
      (omega arith, Stacked-later c c' same le more fs f.prev_reg_count rest),
    ),
  )

  -- Only registers have changed.
  pub record Alike (m m' : Machine V) : Type 0 where
    pub is : IsMachine m'
    pub frames : m'.frames ≡ m.frames
    pub closures : m'.closures ≡ m.closures
    pub closure_count : m'.closure_count ≡ m.closure_count
    pub reg_count : m'.reg_count ≡ m.reg_count

  pub Alike-refl : {m : Machine V} → IsMachine m → Alike m m
  Alike-refl h = record {
    is = h;
    frames = refl;
    closures = refl;
    closure_count = refl;
    reg_count = refl;
  }

  pub Alike-trans : {m m₁ m₂ : Machine V} → Alike m m₁ → Alike m₁ m₂ → Alike m m₂
  Alike-trans a b = record {
    is = b.is;
    frames = b.frames ∙ a.frames;
    closures = b.closures ∙ a.closures;
    closure_count = b.closure_count ∙ a.closure_count;
    reg_count = b.reg_count ∙ a.reg_count;
  }

  pub write_reg-Alike :
      (m : Machine V) (i : ℕ) (v : V) → IsMachine m → On (Alike m) (write_reg m i v)
  unfolding write_reg
  write_reg-Alike m i v h = elim (Bool-cases (ltb i (length m.regs))) [
    | inr e ↦ rw e tt
    | inl e ↦ rw e (record {
      is = record {
        some_regs = rw (length-set m.regs i v) h.some_regs;
        some_frames = h.some_frames;
        counted = rw (length-set m.regs i v) h.counted;
        framed = h.framed;
        stacked = rw (length-set m.regs i v) h.stacked;
      };
      frames = refl;
      closures = refl;
      closure_count = refl;
      reg_count = refl;
    })
  ]

  pub copy_down-Alike :
      (base a n i : ℕ) (m : Machine V) → IsMachine m → On (Alike m) (copy_down m base a i n)
  unfolding copy_down
  copy_down-Alike base a zero i m h = Alike-refl h
  copy_down-Alike base a (suc n) i m h =
      On-bind (λ v. Unit) (Alike m) (read_reg m (base + a + i)) _ (On-always _ _ (λ v. tt))
        λ v _.
          On-bind (Alike m) (Alike m) (write_reg m (base + i) v) _
            (write_reg-Alike m (base + i) v h)
            λ m₁ s.
              On-map (Alike m₁) (Alike m) (copy_down m₁ base a (suc i) n)
                (copy_down-Alike base a n (suc i) m₁ s.is) (λ m₂. Alike-trans s)

pub length-replicate : {A : Type 0} (n : ℕ) (x : A) → length (replicate n x) ≡ n
unfolding replicate
length-replicate zero x = refl
length-replicate (suc n) x = ap suc (length-replicate n x)

-- Doubling a capacity of 1 or more reaches what is needed within `suc k` rounds, when the capacity
-- and `k` do, and does not go past twice that.
pub grow_regs_lem :
    (k needed capacity : ℕ)
    → 1 ≤ capacity
    → needed ≤ capacity + k
    → (c : ℕ) × (grow_regs (suc k) needed capacity ≡ some c)
      × (needed ≤ c)
      × (capacity ≤ c)
      × ((c ≡ capacity) ⊎ (c < needed * 2))
unfolding grow_regs
grow_regs_lem zero needed capacity pos h =
    (capacity, ground arith, ground arith, omega arith, inl refl)
grow_regs_lem (suc k) needed capacity pos h = elim (Bool-cases (ltb capacity needed)) [
  | inr e ↦ (capacity, rw e refl, ground arith, omega arith, inl refl)
  | inl e ↦
      let (c, same, reach, more, bound) =
        grow_regs_lem k needed (capacity * 2) (omega arith) (ground arith) in
      (c, rw e same, reach, omega arith, inr (ground arith))
]
