-- ===== src/Graph/Spares.antt =====
-- Operations on edges leave the lists of inputs as they are.
use reduct.Prelude.{ℕ, none, some, List, ◌≡◌, refl, sym, ap, ◌∙◌, subst, arith}
use reduct.Graph.Heap.{Pointer, User, Node, Graph, set_prev}
use reduct.Graph.Edges.{leave_prev, unlink, drop_user, disconnect_from, edge_disconnect}
use reduct.Graph.InputLists.{Follows, IsInputs, Follows-frame, Ports-frame}

-- What operations on edges leave of the inputs.
pub record Spares (g g' : Graph) : Type 0 where
  pub same_nodes : g'.nodes ≡ g.nodes
  pub same_next : (k : ℕ) → (g'.users k).next ≡ (g.users k).next
  pub same_index : (k : ℕ) → (g'.users k).index ≡ (g.users k).index
  pub same_owner : (k : ℕ) → (g'.users k).owner ≡ (g.users k).owner

of_same : (g g' : Graph) → g'.nodes ≡ g.nodes → g'.users ≡ g.users → Spares g g'
of_same g g' n u = record {
  same_nodes = n;
  same_next = λ k. ap (λ (m : ℕ → User). (m k).next) u;
  same_index = λ k. ap (λ (m : ℕ → User). (m k).index) u;
  same_owner = λ k. ap (λ (m : ℕ → User). (m k).owner) u;
}

leave_prev_nodes : (g : Graph) (e o : ℕ) (p : Pointer) → (leave_prev g e o p).nodes ≡ g.nodes
unfolding leave_prev
leave_prev_nodes g e o none = refl
leave_prev_nodes g e o (some d) = refl

leave_prev_users : (g : Graph) (e o : ℕ) (p : Pointer) → (leave_prev g e o p).users ≡ g.users
unfolding leave_prev
leave_prev_users g e o none = refl
leave_prev_users g e o (some d) = refl

set_prev_nodes : (g : Graph) (p to : Pointer) → (set_prev g p to).nodes ≡ g.nodes
set_prev_nodes g none to = refl
set_prev_nodes g (some e) to = refl

set_prev_users : (g : Graph) (p to : Pointer) → (set_prev g p to).users ≡ g.users
set_prev_users g none to = refl
set_prev_users g (some e) to = refl

unlink-Spares : (g : Graph) (e o : ℕ) → Spares g (unlink g e o)
unfolding unlink
unlink-Spares g e o =
    let g' = leave_prev g e o (g.edges e).prev in
    of_same g (unlink g e o)
      (set_prev_nodes g' (g'.edges e).next (g'.edges e).prev
        ∙ leave_prev_nodes g e o (g.edges e).prev)
      (set_prev_users g' (g'.edges e).next (g'.edges e).prev
        ∙ leave_prev_users g e o (g.edges e).prev)

drop_user-Spares : (g g' : Graph) (p : Pointer) → Spares g g' → Spares g (drop_user g' p)
unfolding drop_user
drop_user-Spares g g' none s = s
drop_user-Spares g g' (some u) s = record {
  same_nodes = s.same_nodes;
  same_next = λ k. ground (arith, s.same_next k);
  same_index = λ k. ground (arith, s.same_index k);
  same_owner = λ k. ground (arith, s.same_owner k);
}

disconnect-Spares : (g : Graph) (e : ℕ) (p : Pointer) → Spares g (disconnect_from g e p)
unfolding disconnect_from
disconnect-Spares g e none = of_same g g refl refl
disconnect-Spares g e (some o) = drop_user-Spares g (unlink g e o) _ (unlink-Spares g e o)

pub edge_disconnect-Spares : (g : Graph) (p : Pointer) → Spares g (edge_disconnect g p)
unfolding edge_disconnect
edge_disconnect-Spares g none = of_same g g refl refl
edge_disconnect-Spares g (some e) = disconnect-Spares g e (g.edges e).origin

pub Spares-IsInputs :
    (g g' : Graph) (at : ℕ) (us : List ℕ) → Spares g g' → IsInputs g at us → IsInputs g' at us
Spares-IsInputs g g' at us s is = record {
  listed =
      subst (λ (m : ℕ → Node). Follows g'.users (m at).first_input us) (sym s.same_nodes)
        (Follows-frame g.users g'.users (g.nodes at).first_input us (λ v i. s.same_next v)
          is.listed);
  distinct = is.distinct;
  ports = Ports-frame g.users g'.users at 0 us (λ v i. (s.same_index v, s.same_owner v)) is.ports;
  counted = ap (λ (m : ℕ → Node). (m at).input_count) s.same_nodes ∙ is.counted;
  few = is.few;
}
