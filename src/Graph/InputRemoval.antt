-- ===== src/Graph/InputRemoval.antt =====
-- An input leaves the list of its node, and those behind it move up by one index.
use reduct.Prelude.{
  ℕ, suc, ◌+◌, ◌-◌, ◌^◌, ◌<◌, none, some, List, [], ◌∷◌, ◌++◌, length, length-append, Member, ◌≡◌,
  inl, inr, refl, sym, ap, ◌∙◌, subst, arith,
}
use reduct.Prelude.Maps.{update, update_self, update_other}
use reduct.Graph.Heap.{Pointer, u8, node, User, Node, Graph, with_node}
use reduct.Graph.Edges.{edge_disconnect}
use reduct.Graph.Inputs.{
  lower_indices, skip_input, follower, cut_input, remove_from, node_remove_input, set_next_user,
}
use reduct.Graph.Uses.{Distinct, last_or, Distinct-apart, Distinct-remove, Distinct-right}
use reduct.Graph.Sides.{last, Member-last, last_or-last}
use reduct.Graph.InputLists.{Follows, Ports, IsInputs, Follows-frame, Ports-frame}
use reduct.Graph.Spares.{edge_disconnect-Spares, Spares-IsInputs}
use reduct.Graph.Walks.{find_prev-finds, Follows-cut, lower_indices-lowers}

-- The ports around one.
Ports-split :
    (m : ℕ → User) (at i : ℕ) (xs : List ℕ) (u : ℕ) (ys : List ℕ)
    → Ports m at i (xs ++ u ∷ ys)
    → Ports m at i xs
      × ((m u).index ≡ i + length xs)
      × ((m u).owner ≡ node (some at))
      × Ports m at (suc (i + length xs)) ys
Ports-split m at i [] u ys (index, owner, q) =
    (tt, index ∙ omega arith, owner, subst (λ k. Ports m at k ys) (omega arith) q)
Ports-split m at i (x ∷ xs) u ys (index, owner, q) =
    let (left, number, own, right) = Ports-split m at (suc i) xs u ys q in
    (
      (index, owner, left),
      number ∙ omega arith,
      own,
      subst (λ k. Ports m at k ys) (omega arith) right,
    )

Ports-join :
    (m : ℕ → User) (at i : ℕ) (xs ys : List ℕ)
    → Ports m at i xs
    → Ports m at (i + length xs) ys
    → Ports m at i (xs ++ ys)
Ports-join m at i [] ys p q = subst (λ k. Ports m at k ys) (omega arith) q
Ports-join m at i (x ∷ xs) ys (a, b, p) q =
    (a, b, Ports-join m at (suc i) xs ys p (subst (λ k. Ports m at k ys) (omega arith) q))

-- The end of a removal, when the list is cut and the indices behind are still old.
finish :
    (n : ℕ) (g : Graph) (at index : ℕ) (f : Pointer) (xs ys : List ℕ)
    → Follows g.users (g.nodes at).first_input (xs ++ ys)
    → Follows g.users f ys
    → Distinct (xs ++ ys)
    → Ports g.users at 0 xs
    → Ports g.users at (suc (length xs)) ys
    → (g.nodes at).input_count ≡ length (xs ++ ys)
    → index ≡ length xs
    → length (xs ++ ys) < 2 ^ 8
    → length (xs ++ ys) < n
    → (g' : Graph) × (lower_indices n g index f ≡ some g') × IsInputs g' at (xs ++ ys)
finish n g at index f xs ys list rest d left right count number small few =
    let (g', did, nodes, same, nexts, ports) =
      lower_indices-lowers n g at index (length xs) f ys rest (Distinct-right xs ys d) right
        (omega (arith, number)) (omega (arith, length-append xs ys))
        (omega (arith, length-append xs ys)) in
    (
      g',
      did,
      record {
        listed =
            subst (λ (m : ℕ → Node). Follows g'.users (m at).first_input (xs ++ ys)) (sym nodes)
              (Follows-frame g.users g'.users (g.nodes at).first_input (xs ++ ys) (λ v i. nexts v)
                list);
        distinct = d;
        ports =
            Ports-join g'.users at 0 xs ys
              (Ports-frame g.users g'.users at 0 xs
                (λ v i.
                  let e = same v (λ j. Distinct-apart v xs ys d i j) in
                  (ap User.index e, ap User.owner e))
                left)
              (subst (λ k. Ports g'.users at k ys) (omega arith) ports);
        counted = ap (λ (m : ℕ → Node). (m at).input_count) nodes ∙ count;
        few = small;
      },
    )

abbrev less_one : Graph → ℕ → Graph
less_one g at =
    with_node g at (record (g.nodes at) { input_count = u8 ((g.nodes at).input_count + 2 ^ 8 - 1) })

less_one_first :
    (g : Graph) (at : ℕ) → ((less_one g at).nodes at).first_input ≡ (g.nodes at).first_input
less_one_first g at = ground arith

less_one_count :
    (g : Graph) (at k : ℕ)
    → (g.nodes at).input_count ≡ suc k
    → suc k < 2 ^ 8
    → ((less_one g at).nodes at).input_count ≡ k
less_one_count g at k e small = ground arith

cut_keeps :
    (m : ℕ → User) (l : ℕ) (to : Pointer) (v : ℕ)
    → ((update m l (record (m l) { next = to }) v).index ≡ (m v).index)
      × ((update m l (record (m l) { next = to }) v).owner ≡ (m v).owner)
cut_keeps m l to v = (ground arith, ground arith)

cut_input-IsInputs :
    (n : ℕ) (g : Graph) (at u : ℕ) (xs ys : List ℕ)
    → IsInputs g at (xs ++ u ∷ ys)
    → length (xs ++ u ∷ ys) < n
    → (g' : Graph) × (cut_input n g at u (last_or none xs, some u) ≡ some g')
      × IsInputs g' at (xs ++ ys)
unfolding cut_input
cut_input-IsInputs n g at u [] ys is few =
    let g1 = skip_input g at none (g.users u).next in
    let g2 = less_one g1 at in
    let (_, number, _, right) = Ports-split g.users at 0 [] u ys is.ports in
    let first =
      less_one_first g1 at
      ∙ ap Node.first_input
          (update_self g.nodes at (record (g.nodes at) { first_input = (g.users u).next })) in
    let rest = is.listed.1 in
    finish n g2 at (g2.users u).index (follower g2 at none) [] ys
      (subst (λ p. Follows g.users p ys) (sym first) rest)
      (subst (λ p. Follows g.users p ys) (sym first) rest) is.distinct.1 tt right
      (less_one_count g1 at (length ys)
        (ap Node.input_count
            (update_self g.nodes at (record (g.nodes at) { first_input = (g.users u).next }))
          ∙ is.counted)
        is.few)
      number (omega (arith, is.few)) (omega arith)
cut_input-IsInputs n g at u (x ∷ xs) ys is few =
    let l = last x xs in
    let cut = record (g.users l) { next = (g.users u).next } in
    let g1 = set_next_user g l (g.users u).next in
    let g2 = less_one g1 at in
    let (left, number, _, right) = Ports-split g.users at 0 (x ∷ xs) u ys is.ports in
    let (list, rest) =
      Follows-cut g.users (g.nodes at).first_input x xs u ys is.distinct is.listed in
    let keeps = λ (v : ℕ). cut_keeps g.users l (g.users u).next v in
    let shorter = length-append (x ∷ xs) (u ∷ ys) in
    rw (last_or-last x xs) (
      finish n g2 at (g2.users u).index (follower g2 at (some l)) (x ∷ xs) ys
        (subst (λ p. Follows g1.users p (x ∷ xs ++ ys)) (sym (less_one_first g1 at)) list)
        (subst (λ p. Follows g1.users p ys) (sym (ap User.next (update_self g.users l cut)))
          (Follows-frame g.users g1.users (g.users u).next ys
            (λ v i.
              ap User.next (update_other g.users l cut v (λ e. behind l v i (Member-last x xs) e)))
            rest))
        (Distinct-remove (x ∷ xs) u ys is.distinct)
        (Ports-frame g.users g1.users at 0 (x ∷ xs) (λ v i. keeps v) left)
        (Ports-frame g.users g1.users at (suc (length (x ∷ xs))) ys (λ v i. keeps v)
          (subst (λ k. Ports g.users at k ys) (omega arith) right))
        (less_one_count g1 at (length (x ∷ xs ++ ys))
          (is.counted ∙ omega (arith, shorter, length-append (x ∷ xs) ys))
          (omega (arith, is.few, shorter, length-append (x ∷ xs) ys)))
        ((keeps u).0 ∙ number ∙ omega arith)
        (omega (arith, is.few, shorter, length-append (x ∷ xs) ys))
        (omega (arith, shorter, length-append (x ∷ xs) ys)))
  where
    behind : (l v : ℕ) → Member v ys → Member l (x ∷ xs) → v ≡ l → ⊥
    behind l v i j e =
        Distinct-apart l (x ∷ xs) (u ∷ ys) is.distinct j (inr (subst (λ w. Member w ys) e i))

-- Removing one of fewer than 256 inputs takes just it out of the list of its node, and keeps the
-- indices the places in the list.
pub node_remove_input-IsInputs :
    (n : ℕ) (g : Graph) (at u : ℕ) (xs ys : List ℕ)
    → IsInputs g at (xs ++ u ∷ ys)
    → length (xs ++ u ∷ ys) < n
    → (g' : Graph) × (node_remove_input n g (some u) ≡ some g') × IsInputs g' at (xs ++ ys)
unfolding node_remove_input remove_from
node_remove_input-IsInputs n g at u xs ys is few =
    let g1 = edge_disconnect g (g.users u).edge in
    let is1 =
      Spares-IsInputs g g1 at (xs ++ u ∷ ys) (edge_disconnect-Spares g (g.users u).edge) is in
    let found =
      find_prev-finds n g1 u none (g1.nodes at).first_input xs ys is1.listed
        (λ i. Distinct-apart u xs (u ∷ ys) is.distinct i (inl refl))
        (omega (arith, length-append xs (u ∷ ys))) in
    rw ((Ports-split g.users at 0 xs u ys is.ports).2, found)
      (cut_input-IsInputs n g1 at u xs ys is1 few)
