-- ===== src/Graph/Edges.antt =====
-- The operations on edges of src/rvsdg.c. A new edge comes with its address, as `reduct_item_new`
-- hands it out. `none` as a result is an access through the null pointer, or the end of the fuel.
use reduct.Prelude.{ℕ, zero, suc, ◌+◌, ◌-◌, ◌^◌, Option, none, some, ◌==◌, if◌then◌else◌, ◌>>=◌}
use reduct.Graph.Heap.{Pointer, u16, Graph, with_edge, with_origin, with_user, set_next, set_prev}

-- `if (edge->prev != NULL) edge->prev->next = edge->next; else edge->origin->firstEdge = edge->next;`
unfoldable pub leave_prev : Graph → ℕ → ℕ → Pointer → Graph
leave_prev g e o none = with_origin g o (record (g.origins o) { first_edge = (g.edges e).next })
leave_prev g e o (some d) = set_next g (some d) (g.edges e).next

-- `if (edge->next != NULL) edge->next->prev = edge->prev;`
unfoldable pub leave_next : Graph → ℕ → Graph
leave_next g e = set_prev g (g.edges e).next (g.edges e).prev

unfoldable pub count_less : Graph → ℕ → Graph
count_less g o =
    with_origin g o
      (record (g.origins o) { edge_count = u16 ((g.origins o).edge_count + 2 ^ 16 - 1) })

-- An edge leaves the list of its origin.
unfoldable pub unlink : Graph → ℕ → ℕ → Graph
unfolding leave_prev leave_next count_less
unlink g e o = count_less (leave_next (leave_prev g e o (g.edges e).prev) e) o

-- An edge becomes the first of an origin's list.
unfoldable pub link : Graph → ℕ → ℕ → Graph
link g e o =
    let g' = with_edge g e (record (g.edges e) { next = (g.origins o).first_edge; prev = none }) in
    let g'' = set_prev g' (g'.origins o).first_edge (some e) in
    with_origin g'' o (record (g''.origins o) {
      first_edge = some e;
      edge_count = u16 ((g''.origins o).edge_count + 1);
    })

-- `reduct_rvsdg_edge_connect`
unfoldable pub edge_connect : Graph → ℕ → ℕ → ℕ → Graph
unfolding link
edge_connect g e o u =
    let g' = with_edge g e (record { origin = some o; user = some u; next = none; prev = none }) in
    let g'' = link g' e o in with_user g'' u (record (g''.users u) { edge = some e })

unfoldable pub drop_user : Graph → Pointer → Graph
drop_user g none = g
drop_user g (some u) = with_user g u (record (g.users u) { edge = none })

unfoldable pub disconnect_from : Graph → ℕ → Pointer → Graph
unfolding unlink drop_user
disconnect_from g e none = g
disconnect_from g e (some o) = drop_user (unlink g e o) ((unlink g e o).edges e).user

-- `reduct_rvsdg_edge_disconnect`
unfoldable pub edge_disconnect : Graph → Pointer → Graph
unfolding disconnect_from
edge_disconnect g none = g
edge_disconnect g (some e) = disconnect_from g e (g.edges e).origin

unfoldable pub redirect_from : Graph → ℕ → ℕ → Pointer → Option Graph
unfolding unlink link
redirect_from g e to none = none
redirect_from g e to (some o) =
    let g' = unlink g e o in
    some (link (with_edge g' e (record (g'.edges e) { origin = some to })) e to)

-- `reduct_rvsdg_edge_redirect`
unfoldable pub edge_redirect : Graph → ℕ → ℕ → Option Graph
unfolding redirect_from
edge_redirect g e to = redirect_from g e to (g.edges e).origin

-- The loop of `reduct_rvsdg_origin_redirect_users`, with a round of fuel for each edge and the end.
unfoldable pub redirect_all : ℕ → Graph → ℕ → Pointer → Option Graph
unfolding edge_redirect
redirect_all zero g to at = none
redirect_all (suc n) g to none = some g
redirect_all (suc n) g to (some e) = do
  g' ← edge_redirect g e to
  redirect_all n g' to (g.edges e).next

-- `reduct_rvsdg_origin_redirect_users`
unfoldable pub redirect_users : ℕ → Graph → ℕ → ℕ → Option Graph
unfolding redirect_all
redirect_users n g o to = if o == to then some g else redirect_all n g to (g.origins o).first_edge
