-- ===== src/Graph/Lists.antt =====
-- What the operations on edges do to the lists of edges.
use reduct.Prelude.{
  ℕ, none, some, List, [], ◌∷◌, ◌++◌, Member, ◌≡◌, ◌≢◌, inl, inr, refl, sym, ap, ◌∙◌, subst,
  Option-cases,
}
use reduct.Prelude.Maps.{update, update_self, update_other}
use reduct.Graph.Heap.{Pointer, Edge, User, Graph, with_edge, with_user}
use reduct.Graph.Edges.{unlink, link, edge_connect, drop_user, edge_disconnect, disconnect_from}
use reduct.Graph.Uses.{Used, IsGraph, Seg-frame, Member-append_right}
use reduct.Graph.Unlink.{unlinked_origin, unlink-Reordered, unlink-IsGraph, unlink-IsLoose}
use reduct.Graph.Link.{IsLoose, link-IsGraph}

-- A list with a member, around it.
pub Member-parts :
    (e : ℕ) (l : List ℕ) → Member e l → (xs : List ℕ) × (ys : List ℕ) × (l ≡ xs ++ e ∷ ys)
Member-parts e [] i = elim i [ ]
Member-parts e (x ∷ l) (inl same) = ([], l, ap (λ y. y ∷ l) (sym same))
Member-parts e (x ∷ l) (inr i) =
    let (xs, ys, p) = Member-parts e l i in (x ∷ xs, ys, ap (λ k. x ∷ k) p)

-- A write to a user that the lists do not need.
with_user-IsGraph :
    (g : Graph) (uses : ℕ → List ℕ) (u : ℕ) (r : User)
    → IsGraph g uses
    → ((k x : ℕ) → Member x (uses k) → Used (with_user g u r) x)
    → IsGraph (with_user g u r) uses
with_user-IsGraph g uses u r is used = record {
  listed = is.listed;
  distinct = is.distinct;
  counted = is.counted;
  used = used;
}

-- An edge that has another user, after a write to one.
Used-other :
    (g : Graph) (u : ℕ) (r : User) (x : ℕ)
    → Used g x
    → (g.users u).edge ≢ some x
    → Used (with_user g u r) x
Used-other g u r x (v, there, back) ne = (
  v,
  there,
  ap User.edge
        (update_other g.users u r v (λ same. ne (subst (λ w. (g.users w).edge ≡ some x) same back)))
      ∙ back,
)

drop_user_lem :
    (g : Graph) (u v : ℕ) (p : Pointer)
    → p ≡ some u
    → p ≡ some v
    → ((drop_user g (some u)).users v).edge ≡ none
unfolding drop_user
drop_user_lem g u v p eu ev =
    let same : u ≡ v = cc in rw same (ap User.edge (update_self g.users v _))

drop_user-IsGraph :
    (g : Graph) (uses : ℕ → List ℕ) (u e : ℕ)
    → IsGraph g uses
    → (g.users u).edge ≡ some e
    → IsLoose uses e
    → IsGraph (drop_user g (some u)) uses
unfolding drop_user
drop_user-IsGraph g uses u e is back loose =
    with_user-IsGraph g uses u (record (g.users u) { edge = none }) is
      (λ k x i. Used-other g u _ x (is.used k x i) (λ same. other k x i (sym back ∙ same)))
  where
    other : (k x : ℕ) → Member x (uses k) → some e ≡ some x → ⊥
    other k x i same = loose k (subst (λ y. Member y (uses k)) (cc) i)

-- With an edge in the list of its origin, a disconnect takes just that edge out of the lists, and
-- leaves its user without an edge.
pub edge_disconnect-IsGraph :
    (g : Graph) (uses : ℕ → List ℕ) (o e : ℕ) (xs ys : List ℕ)
    → IsGraph g uses
    → uses o ≡ xs ++ e ∷ ys
    → IsGraph (edge_disconnect g (some e)) (update uses o (xs ++ ys))
      × ((u : ℕ) → (g.edges e).user ≡ some u → ((edge_disconnect g (some e)).users u).edge ≡ none)
unfolding edge_disconnect disconnect_from
edge_disconnect-IsGraph g uses o e xs ys is at =
    let re = unlink-Reordered is o e xs ys at in
    let (u, there, back) =
      is.used o e
        (subst (λ l. Member e l) (sym at) (Member-append_right e xs (e ∷ ys) (inl refl))) in
    rw (unlinked_origin is o e xs ys at, re.same_user e ∙ there)
      (
        drop_user-IsGraph (unlink g e o) (update uses o (xs ++ ys)) u e
            (unlink-IsGraph is o e xs ys at)
            (ap (λ (m : ℕ → User). (m u).edge) re.same_users ∙ back)
            (unlink-IsLoose is o e xs ys at),
        λ v is_v. drop_user_lem (unlink g e o) u v _ there is_v,
      )

-- The write to the user of a new edge, before or after the edge is linked.
link-with_user :
    (g : Graph) (e o u : ℕ)
    → with_user (link g e o) u (record ((link g e o).users u) { edge = some e })
      ≡ link (with_user g u (record (g.users u) { edge = some e })) e o
unfolding link
link-with_user g e o u = elim (Option-cases (g.origins o).first_edge) [
  | inl empty ↦ rw empty
  | inr (f, there) ↦ rw there
]

-- A connect of an origin with a user that has no edge, by an edge in no list, puts that edge first in
-- the origin's list, and keeps the other lists.
pub edge_connect-IsGraph :
    (g : Graph) (uses : ℕ → List ℕ) (e o u : ℕ)
    → IsGraph g uses
    → IsLoose uses e
    → (g.users u).edge ≡ none
    → IsGraph (edge_connect g e o u) (update uses o (e ∷ uses o))
unfolding edge_connect
edge_connect-IsGraph g uses e o u is loose unused =
    rw (link-with_user made e o u) (link-IsGraph ready e o loose (ap Edge.origin here) mine)
  where
    fresh : Edge
    fresh = record { origin = some o; user = some u; next = none; prev = none }

    made : Graph
    made = with_edge g e fresh

    given : Graph
    given = with_user made u (record (g.users u) { edge = some e })

    here : given.edges e ≡ fresh
    here = update_self g.edges e fresh

    same : (k x : ℕ) → Member x (uses k) → given.edges x ≡ g.edges x
    same k x i = update_other g.edges e fresh x (λ q. loose k (subst (λ y. Member y (uses k)) q i))

    mine : Used given e
    mine = (u, ap Edge.user here, ap User.edge (update_self g.users u _))

    not_some : (x : ℕ) → none ≡ some x → ⊥
    not_some x q = cc

    keeps_used : (k x : ℕ) → Member x (uses k) → Used given x
    keeps_used k x i =
        let (v, there, back) =
          Used-other g u (record (g.users u) { edge = some e }) x (is.used k x i)
            (λ q. not_some x (sym unused ∙ q)) in
        (v, ap Edge.user (same k x i) ∙ there, back)

    ready : IsGraph given uses
    ready = record {
      listed = λ k.
          Seg-frame g.edges given.edges k none (g.origins k).first_edge (uses k) none (same k)
            (is.listed k);
      distinct = is.distinct;
      counted = is.counted;
      used = keeps_used;
    }
