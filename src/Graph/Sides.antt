-- ===== src/Graph/Sides.antt =====
-- The two writes by which an edge leaves its list: before it and behind it.
use reduct.Prelude.{
  ℕ, none, some, List, [], ◌∷◌, Member, ◌≡◌, ◌≢◌, inl, inr, refl, sym, ap, ◌∙◌, subst, arith,
}
use reduct.Prelude.Maps.{update, update_self, update_other}
use reduct.Graph.Heap.{Pointer, Edge, Origin, Graph, set_prev}
use reduct.Graph.Edges.{leave_prev}
use reduct.Graph.Uses.{head_or, last_or, Distinct, Seg, Seg-frame}

abbrev pub last : ℕ → List ℕ → ℕ
last x [] = x
last x (y ∷ ys) = last y ys

pub last_or-last : (x : ℕ) (xs : List ℕ) → last_or (some x) xs ≡ some (last x xs)
last_or-last x [] = refl
last_or-last x (y ∷ ys) = last_or-last y ys

pub Member-last : (x : ℕ) (xs : List ℕ) → Member (last x xs) (x ∷ xs)
Member-last x [] = inl refl
Member-last x (y ∷ ys) = inr (Member-last y ys)

-- The last edge of a segment points elsewhere.
Seg-set_next :
    (m : ℕ → Edge) (o : ℕ) (p first : Pointer) (x : ℕ) (xs : List ℕ) (n n' : Pointer)
    → Distinct (x ∷ xs)
    → Seg m o p first (x ∷ xs) n
    → Seg (update m (last x xs) (record (m (last x xs)) { next = n' })) o p first (x ∷ xs) n'
Seg-set_next m o p first x [] n n' d (a, b, c, s) =
    let e = update_self m x (record (m x) { next = n' }) in
    (a, ap Edge.origin e ∙ b, ap Edge.prev e ∙ c, ap Edge.next e)
Seg-set_next m o p first x (y ∷ ys) n n' (d, ds) (a, b, c, s) =
    let e =
      update_other m (last y ys) (record (m (last y ys)) { next = n' }) x
        (λ same. d (last y ys) (Member-last y ys) (sym same)) in
    (
      a,
      ap Edge.origin e ∙ b,
      ap Edge.prev e ∙ c,
      subst
          (λ f.
            Seg (update m (last y ys) (record (m (last y ys)) { next = n' })) o (some x) f (y ∷ ys)
              n')
          (sym (ap Edge.next e)) (Seg-set_next m o (some x) (m x).next y ys n n' ds s),
    )

-- What changes only the order of edges.
pub record Reordered (g g' : Graph) : Type 0 where
  pub same_origin : (k : ℕ) → (g'.edges k).origin ≡ (g.edges k).origin
  pub same_user : (k : ℕ) → (g'.edges k).user ≡ (g.edges k).user
  pub same_users : g'.users ≡ g.users

pub Reordered-trans : (g g' g'' : Graph) → Reordered g g' → Reordered g' g'' → Reordered g g''
Reordered-trans g g' g'' r s = record {
  same_origin = λ k. s.same_origin k ∙ r.same_origin k;
  same_user = λ k. s.same_user k ∙ r.same_user k;
  same_users = s.same_users ∙ r.same_users;
}

pub record Left (g g' : Graph) (o : ℕ) (xs : List ℕ) (n : Pointer) : Type 0 where
  pub seg : Seg g'.edges o none (g'.origins o).first_edge xs n
  pub same_edges : (k : ℕ) → (Member k xs → ⊥) → g'.edges k ≡ g.edges k
  pub same_origins : (k : ℕ) → k ≢ o → g'.origins k ≡ g.origins k
  pub same_count : (g'.origins o).edge_count ≡ (g.origins o).edge_count
  pub reordered : Reordered g g'

pub leave_prev-Left :
    (g : Graph) (e o : ℕ) (xs : List ℕ) (n : Pointer)
    → Distinct xs
    → Seg g.edges o none (g.origins o).first_edge xs n
    → Left g (leave_prev g e o (last_or none xs)) o xs (g.edges e).next
unfolding leave_prev
leave_prev-Left g e o [] n d s = record {
  seg = ap Origin.first_edge (update_self g.origins o _);
  same_edges = λ k away. refl;
  same_origins = λ k ne. update_other g.origins o _ k ne;
  same_count = ap Origin.edge_count (update_self g.origins o _);
  reordered = record { same_origin = λ k. refl; same_user = λ k. refl; same_users = refl };
}
leave_prev-Left g e o (x ∷ xs) n d s = rw (last_or-last x xs) (record {
  seg = Seg-set_next g.edges o none (g.origins o).first_edge x xs n (g.edges e).next d s;
  same_edges = λ k away.
      update_other g.edges (last x xs) _ k
        (λ same. away (subst (λ y. Member y (x ∷ xs)) (sym same) (Member-last x xs)));
  same_origins = λ k ne. refl;
  same_count = refl;
  reordered = record {
    same_origin = λ k. ground arith;
    same_user = λ k. ground arith;
    same_users = refl;
  };
})

pub record Right (g g' : Graph) (o : ℕ) (p : Pointer) (ys : List ℕ) : Type 0 where
  pub seg : Seg g'.edges o p (head_or ys none) ys none
  pub same_edges : (k : ℕ) → (Member k ys → ⊥) → g'.edges k ≡ g.edges k
  pub same_origins : g'.origins ≡ g.origins
  pub reordered : Reordered g g'

pub set_prev-Right :
    (g : Graph) (o : ℕ) (p q : Pointer) (ys : List ℕ)
    → Distinct ys
    → Seg g.edges o q (head_or ys none) ys none
    → Right g (set_prev g (head_or ys none) p) o p ys
set_prev-Right g o p q [] d s = record {
  seg = refl;
  same_edges = λ k away. refl;
  same_origins = refl;
  reordered = record { same_origin = λ k. refl; same_user = λ k. refl; same_users = refl };
}
set_prev-Right g o p q (y ∷ ys) (d, ds) (a, b, c, s) = record {
  seg =
      let r = update_self g.edges y (record (g.edges y) { prev = p }) in
      (
        refl,
        ap Edge.origin r ∙ b,
        ap Edge.prev r,
        subst (λ f. Seg (update g.edges y (record (g.edges y) { prev = p })) o (some y) f ys none)
            (sym (ap Edge.next r))
            (Seg-frame g.edges (update g.edges y (record (g.edges y) { prev = p })) o (some y) _ ys
              none (λ k i. update_other g.edges y _ k (d k i)) s),
      );
  same_edges = λ k away. update_other g.edges y _ k (λ same. away (inl same));
  same_origins = refl;
  reordered = record {
    same_origin = λ k. ground arith;
    same_user = λ k. ground arith;
    same_users = refl;
  };
}
