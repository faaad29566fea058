-- ===== src/Graph/InputLists.antt =====
-- What the operations on inputs do to the list of inputs of a node.
use reduct.Prelude.{
  ℕ, zero, suc, false, true, ◌+◌, ◌^◌, ◌<◌, none, some, List, [], ◌∷◌, ◌++◌, length, length-append,
  Member, get_elem?, ◌≡◌, ◌⊎◌, inl, inr, refl, sym, ap, ◌∙◌, subst, arith, ◌==◌,
}
use reduct.Prelude.Maps.{update, update_self, update_other}
use reduct.Graph.Heap.{Pointer, u8, node, User, Node, Graph, with_user, with_node}
use reduct.Graph.Inputs.{
  last_input, append_input, node_add_input, find_input, node_get_input, set_next_user,
}
use reduct.Graph.Uses.{Distinct}
use reduct.Graph.Sides.{last, Member-last}

-- The inputs `us` follow each other.
abbrev pub Follows : (ℕ → User) → Pointer → List ℕ → Type 0
Follows m at [] = at ≡ none
Follows m at (u ∷ us) = (at ≡ some u) × Follows m (m u).next us

-- Their indices count up from `i`, and the node owns them.
abbrev pub Ports : (ℕ → User) → ℕ → ℕ → List ℕ → Type 0
Ports m at i [] = Unit
Ports m at i (u ∷ us) = ((m u).index ≡ i) × ((m u).owner ≡ node (some at)) × Ports m at (suc i) us

pub record IsInputs (g : Graph) (at : ℕ) (us : List ℕ) : Type 0 where
  pub listed : Follows g.users (g.nodes at).first_input us
  pub distinct : Distinct us
  pub ports : Ports g.users at 0 us
  pub counted : (g.nodes at).input_count ≡ length us
  pub few : length us < 2 ^ 8

pub Follows-frame :
    (m m' : ℕ → User) (at : Pointer) (us : List ℕ)
    → ((u : ℕ) → Member u us → (m' u).next ≡ (m u).next)
    → Follows m at us
    → Follows m' at us
Follows-frame m m' at [] same c = c
Follows-frame m m' at (u ∷ us) same (here, c) = (
  here,
  subst (λ p. Follows m' p us) (sym (same u (inl refl)))
      (Follows-frame m m' (m u).next us (λ v i. same v (inr i)) c),
)

pub Ports-frame :
    (m m' : ℕ → User) (at i : ℕ) (us : List ℕ)
    → ((u : ℕ) → Member u us → ((m' u).index ≡ (m u).index) × ((m' u).owner ≡ (m u).owner))
    → Ports m at i us
    → Ports m' at i us
Ports-frame m m' at i [] same p = tt
Ports-frame m m' at i (u ∷ us) same (a, b, p) = (
  (same u (inl refl)).0 ∙ a,
  (same u (inl refl)).1 ∙ b,
  Ports-frame m m' at (suc i) us (λ v j. same v (inr j)) p,
)

Ports-append :
    (m : ℕ → User) (at i : ℕ) (us : List ℕ) (u : ℕ)
    → Ports m at i us
    → (m u).index ≡ i + length us
    → (m u).owner ≡ node (some at)
    → Ports m at i (us ++ u ∷ [])
Ports-append m at i [] u p index owner = (index ∙ omega arith, owner, tt)
Ports-append m at i (x ∷ us) u (a, b, p) index owner =
    (a, b, Ports-append m at (suc i) us u p (index ∙ omega arith) owner)

Distinct-append : (us : List ℕ) (u : ℕ) → Distinct us → (Member u us → ⊥) → Distinct (us ++ u ∷ [])
Distinct-append [] u d fresh = (λ x i. absurd i, tt)
Distinct-append (x ∷ us) u (d, ds) fresh = (
  λ y i. elim (Member-snoc y us u i) [
    | inl j ↦ d y j
    | inr here ↦ λ same. fresh (inl (sym here ∙ same))
  ],
  Distinct-append us u ds (λ i. fresh (inr i)),
)
  where
    Member-snoc : (y : ℕ) (l : List ℕ) (u : ℕ) → Member y (l ++ u ∷ []) → Member y l ⊎ (y ≡ u)
    Member-snoc y [] u (inl e) = inr e
    Member-snoc y [] u (inr i) = elim i [ ]
    Member-snoc y (z ∷ l) u (inl e) = inl (inl e)
    Member-snoc y (z ∷ l) u (inr i) = elim (Member-snoc y l u i) [
      | inl j ↦ inl (inr j)
      | inr e ↦ inr e
    ]

-- The walk to the last input ends there.
last_input-last :
    (n : ℕ) (g : Graph) (u : ℕ) (us : List ℕ)
    → Follows g.users (g.users u).next us
    → length us < n
    → last_input n g u (g.users u).next ≡ some (last u us)
unfolding last_input
last_input-last zero g u us c few = absurd (omega arith)
last_input-last (suc n) g u [] c few = rw c refl
last_input-last (suc n) g u (v ∷ us) (here, c) few =
    rw here (last_input-last n g v us c (omega arith))

-- The last input is followed by another one.
Follows-snoc :
    (m : ℕ → User) (at : Pointer) (x : ℕ) (xs : List ℕ) (u : ℕ)
    → Distinct (x ∷ xs)
    → (Member u (x ∷ xs) → ⊥)
    → (m u).next ≡ none
    → Follows m at (x ∷ xs)
    → Follows
        (update m (last x xs) (record (m (last x xs)) { next = some u }))
        at
        (x ∷ xs ++ u ∷ [])
Follows-snoc m at x [] u d fresh end (here, c) = (
  here,
  (
    ap User.next (update_self m x (record (m x) { next = some u })),
    ap User.next (update_other m x (record (m x) { next = some u }) u (λ e. fresh (inl e))) ∙ end,
  ),
)
Follows-snoc m at x (y ∷ ys) u (d, ds) fresh end (here, c) = (
  here,
  subst
      (λ p.
        Follows (update m (last y ys) (record (m (last y ys)) { next = some u })) p
          (y ∷ ys ++ u ∷ []))
      (sym (
        ap User.next (
          update_other m (last y ys) (record (m (last y ys)) { next = some u }) x
            (λ same. d (last y ys) (Member-last y ys) (sym same)))))
      (Follows-snoc m (m x).next y ys u ds (λ i. fresh (inr i)) end c),
)

-- A node with a new input that is not yet in its list.
module _ (g : Graph) (at u : ℕ) where
  abbrev port : User
  port = record {
    owner = node (some at);
    index = (g.nodes at).input_count;
    edge = none;
    next = none;
  }

  abbrev counted_node : Node
  counted_node = record (g.nodes at) { input_count = u8 ((g.nodes at).input_count + 1) }

  abbrev made : Graph
  made = with_node (with_user g u port) at counted_node

  module _ (us : List ℕ) (is : IsInputs g at us) (fresh : Member u us → ⊥)
      (room : suc (length us) < 2 ^ 8) where
    kept : (v : ℕ) → Member v us → made.users v ≡ g.users v
    kept v i = update_other g.users u port v (λ e. fresh (subst (λ w. Member w us) e i))

    first_is : (made.nodes at).first_input ≡ (g.nodes at).first_input
    first_is = ap Node.first_input (update_self g.nodes at counted_node)

    chain : Follows made.users (made.nodes at).first_input us
    chain =
        subst (λ p. Follows made.users p us) (sym first_is)
          (Follows-frame g.users made.users (g.nodes at).first_input us
            (λ v i. ap User.next (kept v i)) is.listed)

    new_port_last : Ports made.users at 0 (us ++ u ∷ [])
    new_port_last =
        Ports-append made.users at 0 us u
          (Ports-frame g.users made.users at 0 us
            (λ v i. (ap User.index (kept v i), ap User.owner (kept v i))) is.ports)
          (ap User.index (update_self g.users u port) ∙ is.counted ∙ omega arith)
          (ap User.owner (update_self g.users u port))

    count_with : (made.nodes at).input_count ≡ length (us ++ u ∷ [])
    count_with =
        ap Node.input_count (update_self g.nodes at counted_node)
        ∙ omega (arith, is.counted, length-append us (u ∷ []))

-- Adding an input to a node with fewer than 255 puts it at the end of the list, with the next index.
pub node_add_input-IsInputs :
    (n : ℕ) (g : Graph) (at u : ℕ) (us : List ℕ)
    → IsInputs g at us
    → (Member u us → ⊥)
    → suc (length us) < 2 ^ 8
    → length us < n
    → (g' : Graph) × (node_add_input n g at u ≡ some g') × IsInputs g' at (us ++ u ∷ [])
unfolding node_add_input append_input
node_add_input-IsInputs n g at u [] is fresh room few =
    rw (first_is g at u [] is fresh room ∙ is.listed) (
      with_node (made g at u) at (record ((made g at u).nodes at) { first_input = some u }),
      refl,
      record {
        listed = (
          ap Node.first_input (
              update_self (made g at u).nodes at
                (record ((made g at u).nodes at) { first_input = some u })),
          ap User.next (update_self g.users u (port g at u)),
        );
        distinct = Distinct-append [] u tt fresh;
        ports = new_port_last g at u [] is fresh room;
        counted =
            ap Node.input_count (
              update_self (made g at u).nodes at
                (record ((made g at u).nodes at) { first_input = some u }))
            ∙ count_with g at u [] is fresh room;
        few = room;
      },
    )
node_add_input-IsInputs n g at u (x ∷ xs) is fresh room few =
    let m = made g at u in
    let c = chain g at u (x ∷ xs) is fresh room in
    let l = last x xs in
    rw (c.0, last_input-last n m x xs c.1 (omega arith))
      (
        set_next_user m l (some u),
        refl,
        record {
          listed =
              Follows-snoc m.users (m.nodes at).first_input x xs u is.distinct fresh
                (ap User.next (update_self g.users u (port g at u))) c;
          distinct = Distinct-append (x ∷ xs) u is.distinct fresh;
          ports =
              Ports-frame m.users (set_next_user m l (some u)).users at 0 (x ∷ xs ++ u ∷ [])
                (λ v i. (ground arith, ground arith)) (new_port_last g at u (x ∷ xs) is fresh room);
          counted = count_with g at u (x ∷ xs) is fresh room;
          few = omega (arith, length-append (x ∷ xs) (u ∷ []));
        },
      )

here_lem : (i : ℕ) → (i == i + 0) ≡ true
here_lem i = ground arith

later_lem : (i k : ℕ) → (i == i + suc k) ≡ false
later_lem i k = ground arith

-- An input is found by its index, and none by another number.
find_input-get :
    (n : ℕ) (g : Graph) (at i k : ℕ) (p : Pointer) (us : List ℕ)
    → Follows g.users p us
    → Ports g.users at i us
    → length us < n
    → find_input n g (i + k) p ≡ some (get_elem? us k)
unfolding find_input
find_input-get zero g at i k p us c q few = absurd (omega arith)
find_input-get (suc n) g at i k p [] c q few = rw c refl
find_input-get (suc n) g at i zero p (u ∷ us) (here, c) (index, _, q) few =
    rw (here, index, here_lem i) refl
find_input-get (suc n) g at i (suc k) p (u ∷ us) (here, c) (index, _, q) few =
    rw (here, index, later_lem i k)
      (ap (λ j. find_input n g j (g.users u).next) (omega arith)
        ∙ find_input-get n g at (suc i) k (g.users u).next us c q (omega arith))

-- In a list of inputs, looking up an index gives the input at that place, or none behind the end.
pub node_get_input-get :
    (n : ℕ) (g : Graph) (at k : ℕ) (us : List ℕ)
    → IsInputs g at us
    → length us < n
    → node_get_input n g at k ≡ some (get_elem? us k)
unfolding node_get_input
node_get_input-get n g at k us is few =
    ap (λ j. find_input n g j (g.nodes at).first_input) (omega arith)
    ∙ find_input-get n g at 0 k (g.nodes at).first_input us is.listed is.ports few
