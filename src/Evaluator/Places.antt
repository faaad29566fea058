-- ===== src/Evaluator/Places.antt =====
-- Where the arguments of a call from the host stand in the registers.
use reduct.Prelude.{
  ℕ, zero, suc, ◌+◌, ◌-◌, ◌*◌, ◌≤◌, ◌<◌, Bool, some, List, [], ◌∷◌, ◌++◌, ◌≡◌, refl, ◌∙◌, ap, subst,
  length, length-set, take, drop, get_elem?, set, leb, lt→ltb, Bool-cases, inl, inr, arith,
}
use reduct.Evaluator.Machine.{ok, Machine, Host, write_reg}
use reduct.Evaluator.Frames.{replicate, ensure_regs, ensure_frames, push_frame}
use reduct.Evaluator.Invariant.{
  On, On-bind, On-map, IsMachine, Alike, Alike-refl, Alike-trans, write_reg-Alike,
}
use reduct.Evaluator.Keeps.{ensure_regs_lem}
use reduct.Evaluator.Arguments.{get_elem?-set}
use reduct.Evaluator.Eval.{write_args}

-- Elements of lists.
pub get_elem?-append :
    {A : Type 0} (xs ys : List A) (i : ℕ) (v : A)
    → get_elem? xs i ≡ some v
    → get_elem? (xs ++ ys) i ≡ some v
get_elem?-append [] ys i v e = cc
get_elem?-append (x ∷ xs) ys zero v e = e
get_elem?-append (x ∷ xs) ys (suc i) v e = get_elem?-append xs ys i v e

pub get_elem?-drop :
    {A : Type 0} (xs : List A) (n i : ℕ) → get_elem? (drop n xs) i ≡ get_elem? xs (n + i)
get_elem?-drop xs zero i = ap (get_elem? xs) {x = i} {y = zero + i} (omega arith)
get_elem?-drop [] (suc n) i = refl
get_elem?-drop (x ∷ xs) (suc n) i =
    get_elem?-drop xs n i ∙ ap (get_elem? (x ∷ xs)) {x = suc (n + i)} {y = suc n + i} (omega arith)

drop-get :
    {A : Type 0} (xs : List A) (t : ℕ) (v : A)
    → get_elem? xs t ≡ some v
    → drop t xs ≡ v ∷ drop (suc t) xs
drop-get [] t v e = cc
drop-get (x ∷ xs) zero v e = cc
drop-get (x ∷ xs) (suc t) v e = drop-get xs t v e

-- The elements of `vs` stand in `xs` from `t` on.
abbrev pub Stand : {A : Type 0} → List A → List A → ℕ → Type 0
Stand {A} vs xs t = (i : ℕ) (v : A) → get_elem? vs i ≡ some v → get_elem? xs (t + i) ≡ some v

Stand-cons :
    {A : Type 0} (v : A) (vs xs : List A) (t : ℕ)
    → get_elem? xs t ≡ some v
    → Stand vs xs (suc t)
    → Stand (v ∷ vs) xs t
Stand-cons v vs xs t first h zero w e =
    ap (get_elem? xs) {x = t + 0} {y = t} (omega arith) ∙ first ∙ e
Stand-cons v vs xs t first h (suc i) w e =
    ap (get_elem? xs) {x = t + suc i} {y = suc t + i} (omega arith) ∙ h i w e

pub take-Stand :
    {A : Type 0} (vs xs : List A) (t : ℕ) → Stand vs xs t → take (length vs) (drop t xs) ≡ vs
take-Stand [] xs t h = refl
take-Stand (v ∷ vs) xs t h =
    ap (take (suc (length vs)))
      (drop-get xs t v (subst (λ i. get_elem? xs i ≡ some v) (omega arith) (h 0 v refl)))
    ∙ ap (λ r. v ∷ r)
        (take-Stand vs xs (suc t) (λ i w e.
          subst (λ j. get_elem? xs j ≡ some w) {x = t + suc i} {y = suc t + i} (omega arith)
            (h (suc i) w e)))

pub length-drop : {A : Type 0} (n : ℕ) (xs : List A) → length (drop n xs) ≡ length xs - n
length-drop zero xs = omega arith
length-drop (suc n) [] = omega arith
length-drop (suc n) (x ∷ xs) = omega (arith, length-drop n xs)

module _ {V : Type 0} (host : Host V) where
  -- More registers keep those that there are.
  pub ensure_regs-keeps :
      (m : Machine V) (needed : ℕ)
      → 1 ≤ length m.regs
      → (i : ℕ) (v : V) → get_elem? m.regs i ≡ some v
      → get_elem? (ensure_regs host m needed).regs i ≡ some v
  ensure_regs-keeps m needed pos i v e =
      let (n, same, _, _) = ensure_regs_lem host m needed pos in
      rw same (get_elem?-append m.regs (replicate n host.zeroed) i v e)

  pub push_frame-keeps :
      (m : Machine V) (k target : ℕ)
      → 1 ≤ length m.regs
      → (i : ℕ) (v : V) → get_elem? m.regs i ≡ some v
      → get_elem? (push_frame host m k target).regs i ≡ some v
  unfolding push_frame ensure_frames
  push_frame-keeps m k target pos i v e =
      elim (Bool-cases (leb m.frame_capacity (length m.frames))) [
        | inr full ↦ rw full (ensure_regs-keeps m _ pos i v e)
        | inl full ↦
            rw full
              (ensure_regs-keeps (record m { frame_capacity = m.frame_capacity * 2 }) _ pos i v e)
      ]

module _ {V : Type 0} (host : Host V) (should_fork : Bool) where
  pub write_args-Alike :
      (vs : List V) (m : Machine V) (target : ℕ)
      → IsMachine m
      → On (Alike m) (write_args host should_fork m target vs)
  unfolding write_args
  write_args-Alike [] m target h = Alike-refl h
  write_args-Alike (v ∷ vs) m target h =
      On-bind (Alike m) (Alike m) (write_reg m target v) _ (write_reg-Alike m target v h) λ m₁ a.
        On-map (Alike m₁) (Alike m) (write_args host should_fork m₁ (suc target) vs)
          (write_args-Alike vs m₁ (suc target) a.is) (λ m₂. Alike-trans a)

  -- Arguments that the registers have room for.
  pub record Written (m : Machine V) (target : ℕ) (vs : List V) (m' : Machine V) : Type 0 where
    pub done : write_args host should_fork m target vs ≡ ok m'
    pub same_length : length m'.regs ≡ length m.regs
    pub stand : Stand vs m'.regs target
    pub below : (j : ℕ) → j < target → get_elem? m'.regs j ≡ get_elem? m.regs j

  pub write_args-Written :
      (vs : List V) (m : Machine V) (target : ℕ)
      → target + length vs ≤ length m.regs
      → (m' : Machine V) × Written m target vs m'
  unfolding write_args write_reg
  write_args-Written [] m target room =
      (m, record { done = refl; same_length = refl; stand = λ i v e. cc; below = λ j lt. refl })
  write_args-Written (v ∷ vs) m target room =
      let (m', w) =
        write_args-Written vs (record m { regs = set m.regs target v }) (suc target)
          (omega (arith, length-set m.regs target v)) in
      (
        m',
        record {
          done = rw (lt→ltb target (length m.regs) (omega arith)) w.done;
          same_length = w.same_length ∙ length-set m.regs target v;
          stand =
              Stand-cons v vs m'.regs target
                (w.below target (omega arith)
                  ∙ get_elem?-set m.regs target target v (omega arith)
                  ∙ ground arith)
                w.stand;
          below = λ j lt.
              w.below j (omega arith)
              ∙ get_elem?-set m.regs target j v (omega arith)
              ∙ ground arith;
        },
      )
