-- ===== src/Graph/Link.antt =====
-- An edge that is in no list becomes the first of an origin's list.
use reduct.Prelude.{
  ℕ, ◌+◌, none, some, List, ◌∷◌, length, Member, ◌≡◌, ◌≢◌, inl, inr, refl, sym, ap, ◌∙◌, subst,
  arith, Bool-cases, ◌==◌, ==_iff,
}
use reduct.Prelude.Maps.{update, update_self, update_other}
use reduct.Graph.Heap.{u16, Edge, Origin, User, Graph, with_edge, with_origin, set_prev}
use reduct.Graph.Edges.{link}
use reduct.Graph.Uses.{head_or, Distinct, Seg, Used, IsGraph, Seg-head, Seg-frame, Seg-origin}
use reduct.Graph.Sides.{Reordered, Right, set_prev-Right}

-- An edge in no list.
abbrev pub IsLoose : (ℕ → List ℕ) → ℕ → Type 0
IsLoose uses e = (k : ℕ) → Member e (uses k) → ⊥

module _ {g : Graph} {uses : ℕ → List ℕ} (is : IsGraph g uses) (e o : ℕ) (loose : IsLoose uses e)
    (own : (g.edges e).origin ≡ some o) where
  abbrev front : Edge
  front = record (g.edges e) { next = head_or (uses o) none; prev = none }

  abbrev opened : Graph
  opened = with_edge g e front

  abbrev placed : Graph
  placed = set_prev opened (head_or (uses o) none) (some e)

  abbrev entry : Origin
  entry = record (placed.origins o) {
    first_edge = some e;
    edge_count = u16 ((placed.origins o).edge_count + 1);
  }

  first_is : (g.origins o).first_edge ≡ head_or (uses o) none
  first_is = Seg-head g.edges o none (g.origins o).first_edge (uses o) none (is.listed o)

  steps : link g e o ≡ with_origin placed o entry
  unfolding link
  steps = rw first_is refl

  opened_list : (k : ℕ) → Seg opened.edges k none (g.origins k).first_edge (uses k) none
  opened_list k =
      Seg-frame g.edges opened.edges k none (g.origins k).first_edge (uses k) none
        (λ x i.
          update_other g.edges e front x (λ same. loose k (subst (λ y. Member y (uses k)) same i)))
        (is.listed k)

  right : Right opened placed o (some e) (uses o)
  right =
      set_prev-Right opened o (some e) none (uses o) (is.distinct o)
        (subst (λ f. Seg opened.edges o none f (uses o) none) first_is (opened_list o))

  front_is : placed.edges e ≡ front
  front_is = right.same_edges e (loose o) ∙ update_self g.edges e front

  abbrev pub uses_with : ℕ → List ℕ
  uses_with = update uses o (e ∷ uses o)

  pub link-Reordered : Reordered g (link g e o)
  link-Reordered = rw steps (record {
    same_origin = λ k. right.reordered.same_origin k ∙ ground arith;
    same_user = λ k. right.reordered.same_user k ∙ ground arith;
    same_users = right.reordered.same_users;
  })

  own_list : Seg placed.edges o none (some e) (e ∷ uses o) none
  own_list = (
    refl,
    ap Edge.origin front_is ∙ own,
    ap Edge.prev front_is,
    subst (λ f. Seg placed.edges o (some e) f (uses o) none) (sym (ap Edge.next front_is))
        right.seg,
  )

  other_list : (k : ℕ) → k ≢ o → Seg placed.edges k none (g.origins k).first_edge (uses k) none
  other_list k ne =
      Seg-frame opened.edges placed.edges k none (g.origins k).first_edge (uses k) none
        (λ x i. right.same_edges x (λ j. apart x i j)) (opened_list k)
    where
      apart : (x : ℕ) → Member x (uses k) → Member x (uses o) → ⊥
      apart x i j =
          let a =
            Seg-origin g.edges k none (g.origins k).first_edge (uses k) none x (is.listed k) i in
          let b =
            Seg-origin g.edges o none (g.origins o).first_edge (uses o) none x (is.listed o) j in
          ne (cc)

  abbrev after : Graph
  after = with_origin placed o entry

  listed_after : (k : ℕ) → Seg placed.edges k none (after.origins k).first_edge (uses_with k) none
  listed_after k = elim (Bool-cases (k == o)) [
    | inl same ↦
        subst (λ j. Seg placed.edges j none (after.origins j).first_edge (uses_with j) none)
          (sym ((==_iff k o).0 same))
          (rw (update_self placed.origins o entry, update_self uses o (e ∷ uses o)) own_list)
    | inr other ↦ rw (other, right.same_origins) (other_list k (λ e. ground arith))
  ]

  counted_after : (k : ℕ) → (after.origins k).edge_count ≡ u16 (length (uses_with k))
  counted_after k = elim (Bool-cases (k == o)) [
    | inl same ↦ rw (same, right.same_origins) (omega (arith, is.counted o))
    | inr other ↦ rw (other, right.same_origins) (is.counted k)
  ]

  no_twice_after : (k : ℕ) → Distinct (uses_with k)
  no_twice_after k = elim (Bool-cases (k == o)) [
    | inl same ↦
        rw same (λ x i here. loose o (subst (λ y. Member y (uses o)) here i), is.distinct o)
    | inr other ↦ rw other (is.distinct k)
  ]

  users_after : Used g e → (k x : ℕ) → Member x (uses_with k) → Used g x
  users_after mine k x i = elim (Bool-cases (k == o)) [
    | inl same ↦ in_own (rw same at i)
    | inr other ↦ is.used k x (rw other at i)
  ]
    where
      in_own : Member x (e ∷ uses o) → Used g x
      in_own (inl here) = subst (λ y. Used g y) (sym here) mine
      in_own (inr j) = is.used o x j

  pub link-IsGraph : Used g e → IsGraph (link g e o) uses_with
  link-IsGraph mine = record {
    listed = rw steps listed_after;
    distinct = no_twice_after;
    counted = rw steps counted_after;
    used = λ k x i.
        let (u, there, back) = users_after mine k x i in
        (
          u,
          link-Reordered.same_user x ∙ there,
          ap (λ (m : ℕ → User). (m u).edge) link-Reordered.same_users ∙ back,
        );
  }
