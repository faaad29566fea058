-- ===== src/Graph/Walks.antt =====
-- The walks along the inputs of a node that removing one makes.
use reduct.Prelude.{
  ℕ, zero, suc, false, true, ◌+◌, ◌-◌, ◌^◌, ◌<◌, ◌≤◌, some, List, [], ◌∷◌, ◌++◌, length, Member,
  ◌≡◌, inl, inr, refl, sym, ap, ◌∙◌, subst, arith, ◌==◌, ltb,
}
use reduct.Prelude.Maps.{update, update_self, update_other}
use reduct.Graph.Heap.{Pointer, u16, User, Graph, with_user}
use reduct.Graph.Inputs.{find_prev, lower_indices}
use reduct.Graph.Uses.{Distinct, last_or, Member-append_left}
use reduct.Graph.Sides.{last, Member-last}
use reduct.Graph.InputLists.{Follows, Ports, Follows-frame, Ports-frame}

is_self : (u : ℕ) → (u == u) ≡ true
is_self u = ground arith

is_other : {c u : ℕ} → (u ≡ c → ⊥) → (c == u) ≡ false
is_other ne = ground arith

-- The search ends at the input, with the one before it.
pub find_prev-finds :
    (n : ℕ) (g : Graph) (u : ℕ) (p at : Pointer) (xs ys : List ℕ)
    → Follows g.users at (xs ++ u ∷ ys)
    → (Member u xs → ⊥)
    → length xs < n
    → find_prev n g u p at ≡ some (last_or p xs, some u)
unfolding find_prev
find_prev-finds zero g u p at xs ys c away few = absurd (omega arith)
find_prev-finds (suc n) g u p at [] ys (here, c) away few = rw (here, is_self u) refl
find_prev-finds (suc n) g u p at (x ∷ xs) ys (here, c) away few =
    rw (here, is_other (λ e. away (inl e)))
      (find_prev-finds n g u (some x) (g.users x).next xs ys c (λ i. away (inr i)) (omega arith))

-- The input before one that leaves goes on to the one behind it.
pub Follows-cut :
    (m : ℕ → User) (at : Pointer) (x : ℕ) (xs : List ℕ) (u : ℕ) (ys : List ℕ)
    → Distinct (x ∷ xs ++ u ∷ ys)
    → Follows m at (x ∷ xs ++ u ∷ ys)
    → Follows
        (update m (last x xs) (record (m (last x xs)) { next = (m u).next }))
        at
        (x ∷ xs ++ ys)
      × Follows m (m u).next ys
Follows-cut m at x [] u ys (d, ds) (here, (there, c)) = (
  (
    here,
    subst (λ p. Follows (update m x (record (m x) { next = (m u).next })) p ys)
        (sym (ap User.next (update_self m x (record (m x) { next = (m u).next }))))
        (Follows-frame m (update m x (record (m x) { next = (m u).next })) (m u).next ys
          (λ v i. ap User.next (update_other m x _ v (d v (inr i)))) c),
  ),
  c,
)
Follows-cut m at x (y ∷ xs) u ys (d, ds) (here, c) =
    let (cut, rest) = Follows-cut m (m x).next y xs u ys ds c in
    (
      (
        here,
        subst
            (λ p.
              Follows (update m (last y xs) (record (m (last y xs)) { next = (m u).next })) p
                (y ∷ xs ++ ys))
            (sym (
              ap User.next (
                update_other m (last y xs) (record (m (last y xs)) { next = (m u).next }) x
                  (λ same.
                    d (last y xs)
                      (Member-append_left (last y xs) (y ∷ xs) (u ∷ ys) (Member-last y xs))
                      (sym same)))))
            cut,
      ),
      rest,
    )

-- The inputs from the one that had the index `suc i` on move up.
pub lower_indices-lowers :
    (n : ℕ) (g : Graph) (at index i : ℕ) (p : Pointer) (ys : List ℕ)
    → Follows g.users p ys
    → Distinct ys
    → Ports g.users at (suc i) ys
    → index ≤ i
    → i + length ys < 2 ^ 8
    → length ys < n
    → (g' : Graph) × (lower_indices n g index p ≡ some g')
      × (g'.nodes ≡ g.nodes)
      × ((v : ℕ) → (Member v ys → ⊥) → g'.users v ≡ g.users v)
      × ((v : ℕ) → (g'.users v).next ≡ (g.users v).next)
      × Ports g'.users at i ys
unfolding lower_indices
lower_indices-lowers zero g at index i p ys c d q le small few = absurd (omega arith)
lower_indices-lowers (suc n) g at index i p [] c d q le small few =
    rw c (g, refl, refl, λ v _. refl, λ v. refl, tt)
lower_indices-lowers (suc n) g at index i p (y ∷ ys) (here, c) (d, ds) (number, owner, q) le small
      few =
    let moved = record (g.users y) { index = u16 ((g.users y).index + 2 ^ 16 - 1) } in
    let g1 = with_user g y moved in
    let self = update_self g.users y moved in
    let other = λ (v : ℕ) (i : Member v ys). update_other g.users y moved v (d v i) in
    let next_is : (g1.users y).next ≡ (g.users y).next = ap User.next self in
    let (g', did, nodes, same, nexts, ports) =
      lower_indices-lowers n g1 at index (suc i) (g1.users y).next ys
        (subst (λ p. Follows g1.users p ys) (sym next_is)
          (Follows-frame g.users g1.users (g.users y).next ys (λ v i. ap User.next (other v i)) c))
        ds
        (Ports-frame g.users g1.users at (suc (suc i)) ys
          (λ v i. (ap User.index (other v i), ap User.owner (other v i))) q)
        (omega arith) (omega arith) (omega arith) in
    let kept = same y (λ i. d y i refl) in
    rw (here, below number le)
      (
        g',
        did,
        nodes,
        λ v away. same v (λ i. away (inr i)) ∙ update_other g.users y moved v (λ e. away (inl e)),
        λ v. nexts v ∙ next_kept v,
        (
          ap User.index kept ∙ ap User.index self ∙ one_down number small,
          ap User.owner kept ∙ ap User.owner self ∙ owner,
          ports,
        ),
      )
  where
    below : {k : ℕ} → k ≡ suc i → index ≤ i → ltb index k ≡ true
    below e l = ground arith

    one_down : {k : ℕ} → k ≡ suc i → i + suc (length ys) < 2 ^ 8 → u16 (k + 2 ^ 16 - 1) ≡ i
    one_down e s = omega arith

    next_kept :
        (v : ℕ)
        → (update g.users y
            (record (g.users y) { index = u16 ((g.users y).index + 2 ^ 16 - 1) })
            v).next
          ≡ (g.users v).next
    next_kept v = ground arith
