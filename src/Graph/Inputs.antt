-- ===== src/Graph/Inputs.antt =====
-- The inputs of a node of src/rvsdg.c. A new input comes with its address. The walks along the list
-- have a round of fuel for each input and the end; `none` as a result is the end of the fuel.
use reduct.Prelude.{
  ℕ, zero, suc, ◌+◌, ◌-◌, ◌^◌, Option, none, some, ltb, ◌==◌, if◌then◌else◌, ◌>>=◌,
}
use reduct.Graph.Heap.{Pointer, u16, u8, Owner, node, region, Graph, with_user, with_node}
use reduct.Graph.Edges.{edge_disconnect}

abbrev pub set_next_user : Graph → ℕ → Pointer → Graph
set_next_user g u to = with_user g u (record (g.users u) { next = to })

-- `while (curr->next != NULL) curr = curr->next;`
unfoldable pub last_input : ℕ → Graph → ℕ → Pointer → Option ℕ
last_input zero g at next = none
last_input (suc n) g at none = some at
last_input (suc n) g at (some u) = last_input n g u (g.users u).next

unfoldable pub append_input : ℕ → Graph → ℕ → ℕ → Pointer → Option Graph
unfolding last_input
append_input n g at u none = some (with_node g at (record (g.nodes at) { first_input = some u }))
append_input n g at u (some f) = do
  l ← last_input n g f (g.users f).next
  some (set_next_user g l (some u))

-- `reduct_rvsdg_node_add_input`
unfoldable pub node_add_input : ℕ → Graph → ℕ → ℕ → Option Graph
unfolding append_input
node_add_input n g at u =
    let index = (g.nodes at).input_count in
    let g' =
      with_user g u (record { owner = node (some at); index = index; edge = none; next = none }) in
    let g'' = with_node g' at (record (g'.nodes at) { input_count = u8 (index + 1) }) in
    append_input n g'' at u (g''.nodes at).first_input

unfoldable pub find_input : ℕ → Graph → ℕ → Pointer → Option Pointer
find_input zero g index at = none
find_input (suc n) g index none = some none
find_input (suc n) g index (some u) =
    let rest = find_input n g index (g.users u).next in
    if (g.users u).index == index then some (some u) else rest

-- `reduct_rvsdg_node_get_input`
unfoldable pub node_get_input : ℕ → Graph → ℕ → ℕ → Option Pointer
unfolding find_input
node_get_input n g at index = find_input n g index (g.nodes at).first_input

-- The loop that looks for an input and the one before it.
unfoldable pub find_prev : ℕ → Graph → ℕ → Pointer → Pointer → Option (Pointer × Pointer)
find_prev zero g u prev at = none
find_prev (suc n) g u prev none = some (prev, none)
find_prev (suc n) g u prev (some c) =
    let rest = find_prev n g u (some c) (g.users c).next in
    if c == u then some (prev, some c) else rest

-- The loop that moves the indices behind a removed input down.
unfoldable pub lower_indices : ℕ → Graph → ℕ → Pointer → Option Graph
lower_indices zero g index at = none
lower_indices (suc n) g index none = some g
lower_indices (suc n) g index (some c) =
    let g' =
      if ltb index (g.users c).index
      then with_user g c (record (g.users c) { index = u16 ((g.users c).index + 2 ^ 16 - 1) })
      else g in
    lower_indices n g' index (g'.users c).next

abbrev pub skip_input : Graph → ℕ → Pointer → Pointer → Graph
skip_input g at none to = with_node g at (record (g.nodes at) { first_input = to })
skip_input g at (some d) to = set_next_user g d to

abbrev pub follower : Graph → ℕ → Pointer → Pointer
follower g at none = (g.nodes at).first_input
follower g at (some d) = (g.users d).next

unfoldable pub cut_input : ℕ → Graph → ℕ → ℕ → Pointer × Pointer → Option Graph
unfolding lower_indices
cut_input n g at u (prev, none) = some g
cut_input n g at u (prev, some c) =
    let g' = skip_input g at prev (g.users u).next in
    let g'' =
      with_node g' at
        (record (g'.nodes at) { input_count = u8 ((g'.nodes at).input_count + 2 ^ 8 - 1) }) in
    lower_indices n g'' (g''.users u).index (follower g'' at prev)

unfoldable pub remove_from : ℕ → Graph → ℕ → Owner → Option Graph
unfolding cut_input find_prev
remove_from n g u (region r) = some g
remove_from n g u (node none) = some g
remove_from n g u (node (some at)) =
    let g' = edge_disconnect g (g.users u).edge in
    find_prev n g' u none (g'.nodes at).first_input >>= cut_input n g' at u

-- `reduct_rvsdg_node_remove_input`
unfoldable pub node_remove_input : ℕ → Graph → Pointer → Option Graph
unfolding remove_from
node_remove_input n g none = some g
node_remove_input n g (some u) = remove_from n g u (g.users u).owner
