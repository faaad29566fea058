-- ===== src/Graph/Unlink.antt =====
-- An edge leaves the list of its origin, which keeps the others in their order.
use reduct.Prelude.{
  ℕ, ◌+◌, ◌-◌, ◌^◌, none, some, List, ◌∷◌, ◌++◌, length, length-append, Member, ◌≡◌, ◌≢◌, ◌⊎◌, inl,
  inr, refl, sym, ap, ap₂, ◌∙◌, subst, arith, Bool-cases, ◌==◌, ==_iff,
}
use reduct.Prelude.Maps.{update, update_self}
use reduct.Graph.Heap.{Pointer, u16, Edge, Origin, User, Graph, set_prev}
use reduct.Graph.Edges.{leave_prev, leave_next, count_less, unlink}
use reduct.Graph.Uses.{
  head_or, last_or, Distinct, Seg, IsGraph, Seg-append, Seg-head, Distinct-left, Distinct-right,
  Seg-split, Seg-frame, Seg-origin, Member-append_left, Member-append_right, Member-append,
  Distinct-apart, Distinct-remove,
}
use reduct.Graph.Sides.{Reordered, Reordered-trans, Left, leave_prev-Left, Right, set_prev-Right}

count_less_first :
    (g : Graph) (o k : ℕ) → ((count_less g o).origins k).first_edge ≡ (g.origins k).first_edge
unfolding count_less
count_less_first g o k = ground arith

count_less_self :
    (g : Graph) (o : ℕ)
    → ((count_less g o).origins o).edge_count ≡ u16 ((g.origins o).edge_count + 2 ^ 16 - 1)
unfolding count_less
count_less_self g o = ground arith

count_less_other :
    (g : Graph) (o k : ℕ)
    → k ≢ o
    → ((count_less g o).origins k).edge_count ≡ (g.origins k).edge_count
unfolding count_less
count_less_other g o k ne = ground arith

count_less-Reordered : (g g' : Graph) (o : ℕ) → Reordered g g' → Reordered g (count_less g' o)
unfolding count_less
count_less-Reordered g g' o r = record {
  same_origin = r.same_origin;
  same_user = r.same_user;
  same_users = r.same_users;
}

-- One less than the length of a list, with its wrap-around.
one_less :
    (xs : List ℕ) (e : ℕ) (ys : List ℕ) (c : ℕ)
    → c ≡ u16 (length (xs ++ e ∷ ys))
    → u16 (c + 2 ^ 16 - 1) ≡ u16 (length (xs ++ ys))
one_less xs e ys c h = omega (arith, length-append xs (e ∷ ys), length-append xs ys)

-- The edge `e` stands between `xs` and `ys` in the list of `o`.
module _ {g : Graph} {uses : ℕ → List ℕ} (is : IsGraph g uses) (o e : ℕ) (xs ys : List ℕ)
    (at : uses o ≡ xs ++ e ∷ ys) where
  distinct : Distinct (xs ++ e ∷ ys)
  distinct = subst (λ l. Distinct l) at (is.distinct o)

  parts :
      Seg g.edges o none (g.origins o).first_edge xs (some e)
      × Seg g.edges o (last_or none xs) (some e) (e ∷ ys) none
  parts =
      Seg-split g.edges o none (g.origins o).first_edge xs (e ∷ ys) none
        (subst (λ l. Seg g.edges o none (g.origins o).first_edge l none) at (is.listed o))

  pub unlinked_origin : (g.edges e).origin ≡ some o
  unlinked_origin = parts.1.1

  prev_is : (g.edges e).prev ≡ last_or none xs
  prev_is = parts.1.2

  pub next_is : (g.edges e).next ≡ head_or ys none
  next_is = Seg-head g.edges o (some e) (g.edges e).next ys none parts.1.3

  not_before : (k : ℕ) → Member k ys → Member k xs → ⊥
  not_before k j i = Distinct-apart k xs (e ∷ ys) distinct i (inr j)

  not_self : Member e xs → ⊥
  not_self i = Distinct-apart e xs (e ∷ ys) distinct i (inl refl)

  abbrev first_step : Graph
  first_step = leave_prev g e o (last_or none xs)

  left : Left g first_step o xs (g.edges e).next
  left = leave_prev-Left g e o xs (some e) (Distinct-left xs (e ∷ ys) distinct) parts.0

  same_self : first_step.edges e ≡ g.edges e
  same_self = left.same_edges e not_self

  abbrev second_step : Graph
  second_step = set_prev first_step (head_or ys none) (last_or none xs)

  right : Right first_step second_step o (last_or none xs) ys
  right =
      set_prev-Right first_step o (last_or none xs) (some e) ys
        (Distinct-right xs ys (Distinct-remove xs e ys distinct))
        (Seg-frame g.edges first_step.edges o (some e) (head_or ys none) ys none
          (λ k j. left.same_edges k (not_before k j))
          (subst (λ f. Seg g.edges o (some e) f ys none) next_is parts.1.3))

  steps : unlink g e o ≡ count_less second_step o
  unfolding unlink leave_next
  steps = rw prev_is (
      ap (λ (r : Edge). count_less (set_prev first_step r.next r.prev) o) same_self
      ∙ ap₂ (λ (n p : Pointer). count_less (set_prev first_step n p) o) next_is prev_is)

  -- The lists of edges, without the edge.
  abbrev pub uses_without : ℕ → List ℕ
  uses_without = update uses o (xs ++ ys)

  apart_origin : (k x : ℕ) → k ≢ o → Member x (uses k) → Member x (uses o) → ⊥
  apart_origin k x ne i j =
      let a = Seg-origin g.edges k none (g.origins k).first_edge (uses k) none x (is.listed k) i in
      let b = Seg-origin g.edges o none (g.origins o).first_edge (uses o) none x (is.listed o) j in
      ne (cc)

  in_list : (x : ℕ) → Member x xs ⊎ Member x ys → Member x (uses o)
  in_list x (inl i) = subst (λ l. Member x l) (sym at) (Member-append_left x xs (e ∷ ys) i)
  in_list x (inr j) = subst (λ l. Member x l) (sym at) (Member-append_right x xs (e ∷ ys) (inr j))

  abbrev after : Graph
  after = count_less second_step o

  same_edges : (k : ℕ) → (Member k xs → ⊥) → (Member k ys → ⊥) → second_step.edges k ≡ g.edges k
  same_edges k i j = right.same_edges k j ∙ left.same_edges k i

  own_list : Seg second_step.edges o none (second_step.origins o).first_edge (xs ++ ys) none
  own_list =
      Seg-append second_step.edges o none (second_step.origins o).first_edge xs ys none
        (Seg-frame first_step.edges second_step.edges o none (second_step.origins o).first_edge xs
          (head_or ys none) (λ k i. right.same_edges k (λ j. not_before k j i))
          (subst (λ n. Seg first_step.edges o none (second_step.origins o).first_edge xs n) next_is
            (subst
              (λ (m : ℕ → Origin). Seg first_step.edges o none (m o).first_edge xs (g.edges e).next)
              (sym right.same_origins) left.seg)))
        right.seg

  other_list : (k : ℕ) → k ≢ o → Seg second_step.edges k none (g.origins k).first_edge (uses k) none
  other_list k ne =
      Seg-frame g.edges second_step.edges k none (g.origins k).first_edge (uses k) none
        (λ x i.
          same_edges x (λ j. apart_origin k x ne i (in_list x (inl j)))
            (λ j. apart_origin k x ne i (in_list x (inr j))))
        (is.listed k)

  origin_other : (k : ℕ) → k ≢ o → second_step.origins k ≡ g.origins k
  origin_other k ne = ap (λ (m : ℕ → Origin). m k) right.same_origins ∙ left.same_origins k ne

  pub unlink-Reordered : Reordered g (unlink g e o)
  unlink-Reordered = rw steps (
      count_less-Reordered g second_step o
        (Reordered-trans g first_step second_step left.reordered right.reordered))

  listed_after :
      (k : ℕ) → Seg second_step.edges k none (after.origins k).first_edge (uses_without k) none
  listed_after k = rw (count_less_first second_step o k) (elim (Bool-cases (k == o)) [
    | inl same ↦
        subst
          (λ j.
            Seg second_step.edges j none (second_step.origins j).first_edge (uses_without j) none)
          (sym ((==_iff k o).0 same))
          (subst (λ l. Seg second_step.edges o none (second_step.origins o).first_edge l none)
            (sym (update_self uses o (xs ++ ys))) own_list)
    | inr other ↦ rw other (
        subst (λ (r : Origin). Seg second_step.edges k none r.first_edge (uses k) none)
          (sym (origin_other k (λ e. ground arith))) (other_list k (λ e. ground arith)))
  ])

  counted_after : (k : ℕ) → (after.origins k).edge_count ≡ u16 (length (uses_without k))
  counted_after k = elim (Bool-cases (k == o)) [
    | inl same ↦
        subst (λ j. (after.origins j).edge_count ≡ u16 (length (uses_without j)))
          (sym ((==_iff k o).0 same))
          (count_less_self second_step o
            ∙ ap (λ c. u16 (c + 2 ^ 16 - 1))
                (ap (λ (m : ℕ → Origin). (m o).edge_count) right.same_origins ∙ left.same_count)
            ∙ one_less xs e ys (g.origins o).edge_count
                (is.counted o ∙ ap (λ (l : List ℕ). u16 (length l)) at)
            ∙ ap (λ (l : List ℕ). u16 (length l)) (sym (update_self uses o (xs ++ ys))))
    | inr other ↦ rw other (
        count_less_other second_step o k (λ e. ground arith)
        ∙ ap Origin.edge_count (origin_other k (λ e. ground arith))
        ∙ is.counted k)
  ]

  no_twice_after : (k : ℕ) → Distinct (uses_without k)
  no_twice_after k = elim (Bool-cases (k == o)) [
    | inl same ↦ rw same (Distinct-remove xs e ys distinct)
    | inr other ↦ rw other (is.distinct k)
  ]

  -- What is in a list after was there before.
  was_used : (k x : ℕ) → Member x (uses_without k) → (j : ℕ) × Member x (uses j)
  was_used k x i = elim (Bool-cases (k == o)) [
    | inl same ↦ (o, in_list x (Member-append x xs ys (rw same at i)))
    | inr other ↦ (k, rw other at i)
  ]

  pub unlink-IsGraph : IsGraph (unlink g e o) uses_without
  unlink-IsGraph = record {
    listed = rw steps (unfold count_less in listed_after);
    distinct = no_twice_after;
    counted = rw steps counted_after;
    used = λ k x i.
        let (j, before) = was_used k x i in
        let (u, there, back) = is.used j x before in
        (
          u,
          unlink-Reordered.same_user x ∙ there,
          ap (λ (m : ℕ → User). (m u).edge) unlink-Reordered.same_users ∙ back,
        );
  }

  -- The edge is in no list any more.
  pub unlink-IsLoose : (k : ℕ) → Member e (uses_without k) → ⊥
  unlink-IsLoose k i = elim (Bool-cases (k == o)) [
    | inl same ↦ elim (Member-append e xs ys (rw same at i)) [
      | inl j ↦ not_self j
      | inr j ↦ (Distinct-right xs (e ∷ ys) distinct).0 e j refl
    ]
    | inr other ↦ apart_origin k e (λ q. ground arith) (rw other at i) e_listed
  ]
    where
      e_listed : Member e (uses o)
      e_listed = subst (λ l. Member e l) (sym at) (Member-append_right e xs (e ∷ ys) (inl refl))
