-- ===== src/Graph/Redirect.antt =====
-- Edges move from one origin to another.
use reduct.Prelude.{
  ℕ, zero, suc, false, ◌<◌, Option, none, some, List, [], ◌∷◌, ◌++◌, length, Member, ◌≡◌, ◌≢◌, inl,
  inr, refl, sym, ap, ◌∙◌, subst, arith, Bool-cases, ◌==◌, ==_iff, if◌then◌else◌,
}
use mathlib.Core.Path.{fun_ext}
use reduct.Prelude.Maps.{update, update_self, update_other}
use reduct.Graph.Heap.{Edge, User, Graph, with_edge}
use reduct.Graph.Edges.{unlink, link, redirect_from, edge_redirect, redirect_all, redirect_users}
use reduct.Graph.Uses.{IsGraph, head_or, Seg-head, Seg-frame, Member-append_right}
use reduct.Graph.Unlink.{next_is, unlinked_origin, unlink-Reordered, unlink-IsGraph, unlink-IsLoose}
use reduct.Graph.Link.{IsLoose, link-IsGraph}

-- A graph that has these lists, as the result.
abbrev pub Makes : Option Graph → (ℕ → List ℕ) → Type 0
Makes r uses = (g' : Graph) × (r ≡ some g') × IsGraph g' uses

-- A loose edge is given an origin.
with_edge-IsGraph :
    (g : Graph) (uses : ℕ → List ℕ) (e : ℕ) (r : Edge)
    → IsGraph g uses
    → IsLoose uses e
    → IsGraph (with_edge g e r) uses
with_edge-IsGraph g uses e r is loose = record {
  listed = λ k.
      Seg-frame g.edges (with_edge g e r).edges k none (g.origins k).first_edge (uses k) none
        (same k) (is.listed k);
  distinct = is.distinct;
  counted = is.counted;
  used =
      λ k x i. let (u, there, back) = is.used k x i in (u, ap Edge.user (same k x i) ∙ there, back);
}
  where
    same : (k x : ℕ) → Member x (uses k) → (with_edge g e r).edges x ≡ g.edges x
    same k x i = update_other g.edges e r x (λ q. loose k (subst (λ y. Member y (uses k)) q i))

-- A redirect of an edge in the list of an origin takes it out there and puts it first in the list of
-- the other origin.
pub edge_redirect-IsGraph :
    (g : Graph) (uses : ℕ → List ℕ) (o e to : ℕ) (xs ys : List ℕ)
    → IsGraph g uses
    → uses o ≡ xs ++ e ∷ ys
    → Makes
        (edge_redirect g e to)
        (update (update uses o (xs ++ ys)) to (e ∷ update uses o (xs ++ ys) to))
unfolding edge_redirect redirect_from
edge_redirect-IsGraph g uses o e to xs ys is at =
    let re = unlink-Reordered is o e xs ys at in
    let (u, there, back) =
      is.used o e
        (subst (λ l. Member e l) (sym at) (Member-append_right e xs (e ∷ ys) (inl refl))) in
    let loose = unlink-IsLoose is o e xs ys at in
    let here = update_self (unlink g e o).edges e moved in
    rw (unlinked_origin is o e xs ys at) (
      link (with_edge (unlink g e o) e moved) e to,
      refl,
      link-IsGraph
          (with_edge-IsGraph (unlink g e o) (update uses o (xs ++ ys)) e moved
            (unlink-IsGraph is o e xs ys at) loose)
          e to loose (ap Edge.origin here)
          (
            u,
            ap Edge.user here ∙ re.same_user e ∙ there,
            ap (λ (m : ℕ → User). (m u).edge) re.same_users ∙ back,
          ),
    )
  where
    moved : Edge
    moved = record ((unlink g e o).edges e) { origin = some to }

-- The first list in reverse order, before the second.
abbrev pub reverse_onto : List ℕ → List ℕ → List ℕ
reverse_onto [] l = l
reverse_onto (x ∷ xs) l = reverse_onto xs (x ∷ l)

-- All uses of `o` go to `to`.
abbrev pub all_moved : (ℕ → List ℕ) → (o to : ℕ) → ℕ → List ℕ
all_moved uses o to = update (update uses o []) to (reverse_onto (uses o) (uses to))

all_moved_step :
    (uses : ℕ → List ℕ) (o to e : ℕ) (ys : List ℕ)
    → o ≢ to
    → uses o ≡ e ∷ ys
    → (k : ℕ)
    → all_moved (update (update uses o ys) to (e ∷ update uses o ys to)) o to k
      ≡ all_moved uses o to k
all_moved_step uses o to e ys ne at k = rw at (ground arith)

-- The list of `o` after the first edge has gone.
now :
    (uses : ℕ → List ℕ) (o to e : ℕ) (ys : List ℕ)
    → o ≢ to
    → update (update uses o ys) to (e ∷ update uses o ys to) o ≡ ys
now uses o to e ys ne = ground arith

apart_lem : {o to : ℕ} → o ≢ to → (o == to) ≡ false
apart_lem ne = ground arith

redirect_all-IsGraph :
    (n : ℕ) (g : Graph) (uses : ℕ → List ℕ) (o to : ℕ) (l : List ℕ)
    → o ≢ to
    → IsGraph g uses
    → uses o ≡ l
    → length l < n
    → Makes (redirect_all n g to (head_or l none)) (all_moved uses o to)
unfolding redirect_all
redirect_all-IsGraph zero g uses o to l ne is at few = absurd (omega arith)
redirect_all-IsGraph (suc n) g uses o to [] ne is at few =
    (g, refl, subst (λ m. IsGraph g m) (fun_ext same) is)
  where
    empty : (k : ℕ) → uses k ≡ (if k == o then [] else uses k)
    empty k = elim (Bool-cases (k == o)) [
      | inl e ↦ rw e (ap uses ((==_iff k o).0 e) ∙ at)
      | inr e ↦ rw e refl
    ]

    same : (k : ℕ) → uses k ≡ all_moved uses o to k
    same k = elim (Bool-cases (k == to)) [
      | inl e ↦ rw (e, at) (ap uses ((==_iff k to).0 e))
      | inr e ↦ rw e (empty k)
    ]
redirect_all-IsGraph (suc n) g uses o to (e ∷ ys) ne is at few =
    let (g', did, is') = edge_redirect-IsGraph g uses o e to [] ys is at in
    let (g'', done, is'') =
      redirect_all-IsGraph n g' (update (update uses o ys) to (e ∷ update uses o ys to)) o to ys ne
        is' (now uses o to e ys ne) (omega arith) in
    (
      g'',
      rw (did, next_is is o e [] ys at) done,
      subst (λ m. IsGraph g'' m) (fun_ext (all_moved_step uses o to e ys ne at)) is'',
    )

-- With a round of fuel for each edge and one more, redirecting the users of an origin to another one
-- ends, and moves all its edges before those of the other, in reverse order.
pub redirect_users-IsGraph :
    (n : ℕ) (g : Graph) (uses : ℕ → List ℕ) (o to : ℕ)
    → o ≢ to
    → IsGraph g uses
    → length (uses o) < n
    → Makes (redirect_users n g o to) (all_moved uses o to)
unfolding redirect_users
redirect_users-IsGraph n g uses o to ne is few =
    rw (apart_lem ne, Seg-head g.edges o none (g.origins o).first_edge (uses o) none (is.listed o))
      (redirect_all-IsGraph n g uses o to (uses o) ne is refl few)
