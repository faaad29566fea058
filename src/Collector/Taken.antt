-- ===== src/Collector/Taken.antt =====
-- What taking an item leaves of the lists of free items.
use reduct.Prelude.{
  ℕ, zero, suc, ◌≤◌, none, some, List, [], ◌∷◌, ◌++◌, length, Member, ◌≡◌, inl, inr, refl, sym, ap,
  ap₂, ◌∙◌, subst, arith,
}
use reduct.Collector.Item.{Address, Pointer, blank, Payloads}
use reduct.Collector.Sweep.{World, run_of, write, item_init}
use reduct.Collector.Swept.{Linked, write_self, write_other}
use reduct.Collector.New.{link_of, take_from, link_run, init_items}

abbrev pub last : Address → List Address → Address
last t [] = t
last t (x ∷ xs) = last x xs

abbrev pub IsDistinct : List Address → Type 0
IsDistinct [] = Unit
IsDistinct (p ∷ ps) = (Member p ps → ⊥) × IsDistinct ps

-- A list of free items after writes elsewhere.
pub Linked-frame :
    (pay pay' : Payloads) (p : Pointer) (qs : List Address)
    → ((q : Address) → Member q qs → pay' q ≡ pay q)
    → Linked pay p qs
    → Linked pay' p qs
Linked-frame pay pay' none [] same l = tt
Linked-frame pay pay' none (q ∷ qs) same l = l
Linked-frame pay pay' (some p) [] same l = l
Linked-frame pay pay' (some p) (q ∷ qs) same (e, (n, b, l)) =
    (e, (n, same q (inl refl) ∙ b, Linked-frame pay pay' n qs (λ r i. same r (inr i)) l))

-- What the loop finds: the items `xs` behind the first, up to the bound, and `ys` behind them.
pub record Found (n : ℕ) (pay : Payloads) (t : Address) (r : Address × ℕ) (qs : List Address)
    : Type 0 where
  pub taken : List Address
  pub rest : List Address
  pub parts : qs ≡ taken ++ rest
  pub tail_is : r.0 ≡ last t taken
  pub count_is : r.1 ≡ length taken
  pub bounded : length taken ≤ n
  pub rest_linked : Linked pay (link_of (pay (last t taken))) rest

pub take_from-Found :
    (n : ℕ) (pay : Payloads) (t : Address) (p : Pointer) (qs : List Address)
    → link_of (pay t) ≡ p
    → Linked pay p qs
    → Found n pay t (take_from n pay t p) qs
unfolding take_from
take_from-Found zero pay t p qs e l = record {
  taken = [];
  rest = qs;
  parts = refl;
  tail_is = refl;
  count_is = refl;
  bounded = omega arith;
  rest_linked = subst (λ f. Linked pay f qs) (sym e) l;
}
take_from-Found (suc n) pay t none qs e l = record {
  taken = [];
  rest = qs;
  parts = refl;
  tail_is = refl;
  count_is = refl;
  bounded = omega arith;
  rest_linked = subst (λ f. Linked pay f qs) (sym e) l;
}
take_from-Found (suc n) pay t (some q) [] e l = absurd l
take_from-Found (suc n) pay t (some q) (x ∷ qs) e (q_is, (k, b, l)) =
    let f =
      take_from-Found n pay q (link_of (pay q)) qs refl
        (subst (λ c. Linked pay c qs) (sym (ap (λ r. link_of (pay r)) q_is ∙ ap link_of b)) l) in
    record {
      taken = q ∷ f.taken;
      rest = f.rest;
      parts = ap₂ (λ r rs. r ∷ rs) (sym q_is) f.parts;
      tail_is = f.tail_is;
      count_is = ap suc f.count_is;
      bounded = omega (arith, f.bounded);
      rest_linked = f.rest_linked;
    }

pub last-member : (x : Address) (xs : List Address) → Member (last x xs) (x ∷ xs)
last-member x [] = inl refl
last-member x (y ∷ ys) = inr (last-member y ys)

-- The items taken, when the last is cut off from the rest.
pub cut-Linked :
    (pay : Payloads) (p : Pointer) (x : Address) (xs ys : List Address)
    → IsDistinct (x ∷ xs)
    → Linked pay p (x ∷ (xs ++ ys))
    → Linked (write pay (last x xs) (blank none)) p (x ∷ xs)
cut-Linked pay none x xs ys d l = absurd l
cut-Linked pay (some q) x [] ys d (e, (n, b, l)) = (e, (none, write_self pay x (blank none), tt))
cut-Linked pay (some q) x (y ∷ xs) ys (new, d) (e, (n, b, l)) = (
  e,
  (
    n,
    write_other pay (last y xs) (blank none) x
          (λ c. new (subst (λ r. Member r (y ∷ xs)) (sym c) (last-member y xs)))
        ∙ b,
    cut-Linked pay n y xs ys d l,
  ),
)

-- The links of a new block.
pub run_of-above : (a n q : ℕ) → Member q (run_of a n) → a ≤ q
unfolding run_of
run_of-above a zero q i = absurd i
run_of-above a (suc n) q (inl e) = omega (arith, e)
run_of-above a (suc n) q (inr i) = omega (arith, run_of-above (suc a) n q i)

pub run_of-next : (a n : ℕ) → Member a (run_of (suc a) n) → ⊥
run_of-next a n i = omega (arith, run_of-above (suc a) n a i)

pub run_of-IsDistinct : (a n : ℕ) → IsDistinct (run_of a n)
unfolding run_of
run_of-IsDistinct a zero = tt
run_of-IsDistinct a (suc n) = (run_of-next a n, run_of-IsDistinct (suc a) n)

pub link_run-other :
    (pay : Payloads) (a : Address) (n : ℕ) (q : Address)
    → (Member q (run_of a (suc n)) → ⊥)
    → link_run pay a n q ≡ pay q
unfolding link_run run_of
link_run-other pay a zero q new = write_other pay a (blank none) q (λ e. new (inl e))
link_run-other pay a (suc n) q new =
    link_run-other (write pay a (blank (some (suc a)))) (suc a) n q (λ i. new (inr i))
    ∙ write_other pay a (blank (some (suc a))) q (λ e. new (inl e))

pub link_run-Linked :
    (pay : Payloads) (a : Address) (n : ℕ) → Linked (link_run pay a n) (some a) (run_of a (suc n))
unfolding link_run run_of
link_run-Linked pay a zero = (refl, (none, write_self pay a (blank none), tt))
link_run-Linked pay a (suc n) = (
  refl,
  (
    some (suc a),
    link_run-other (write pay a (blank (some (suc a)))) (suc a) n a (run_of-next a (suc n))
        ∙ write_self pay a (blank (some (suc a))),
    link_run-Linked (write pay a (blank (some (suc a)))) (suc a) n,
  ),
)

-- The items of a new block.
pub init_items-other :
    (w : World) (ps : List Address) (q : Address)
    → (Member q ps → ⊥)
    → (init_items w ps).payloads q ≡ w.payloads q
unfolding init_items item_init
init_items-other w [] q new = refl
init_items-other w (p ∷ ps) q new =
    init_items-other (item_init w p) ps q (λ i. new (inr i))
    ∙ write_other w.payloads p (blank none) q (λ e. new (inl e))

pub init_items-lists :
    (w : World) (ps : List Address)
    → ((init_items w ps).free ≡ w.free) × ((init_items w ps).free_count ≡ w.free_count)
unfolding init_items item_init
init_items-lists w [] = (refl, refl)
init_items-lists w (p ∷ ps) = init_items-lists (item_init w p) ps
