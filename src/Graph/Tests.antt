-- ===== src/Graph/Tests.antt =====
-- Two edges of one origin, 10 and then 11, to the users 20 and 21.
use reduct.Prelude.{ℕ, Option, none, some, List, [], ◌∷◌, Member, ◌≡◌, refl, arith}
use reduct.Prelude.Maps.{update}
use reduct.Graph.Heap.{node, Graph}
use reduct.Graph.Edges.{edge_connect, edge_disconnect, redirect_users}
use reduct.Graph.Uses.{IsGraph}
use reduct.Graph.Link.{IsLoose}
use reduct.Graph.Lists.{edge_connect-IsGraph, edge_disconnect-IsGraph}
use reduct.Graph.Inputs.{node_add_input, node_get_input, node_remove_input}
use reduct.Graph.InputLists.{IsInputs, node_add_input-IsInputs, node_get_input-get}
use reduct.Graph.InputRemoval.{node_remove_input-IsInputs}
use reduct.Graph.Redirect.{Makes, all_moved, redirect_users-IsGraph}

abbrev nothing : Graph
nothing = record {
  edges = λ _. record { origin = none; user = none; next = none; prev = none };
  origins =
      λ _. record { owner = node none; first_edge = none; next = none; index = 0; edge_count = 0 };
  users = λ _. record { owner = node none; index = 0; edge = none; next = none };
  nodes = λ _. record { first_input = none; input_count = 0 };
}

abbrev no_uses : ℕ → List ℕ
no_uses _ = []

nothing-IsGraph : IsGraph nothing no_uses
nothing-IsGraph = record {
  listed = λ o. refl;
  distinct = λ o. tt;
  counted = λ o. refl;
  used = λ o e i. elim i [ ];
}

abbrev one_edge : Graph
one_edge = edge_connect nothing 10 0 20

abbrev one_use : ℕ → List ℕ
one_use = update no_uses 0 (10 ∷ [])

one_edge-IsGraph : IsGraph one_edge one_use
one_edge-IsGraph = edge_connect-IsGraph nothing no_uses 10 0 20 nothing-IsGraph (λ k i. i) refl

eleven_new : IsLoose one_use 11
eleven_new k i = ground arith

unused_twenty_one : (one_edge.users 21).edge ≡ none
unfolding edge_connect
unused_twenty_one = refl

abbrev two_edges : Graph
two_edges = edge_connect one_edge 11 0 21

abbrev two_uses : ℕ → List ℕ
two_uses = update one_use 0 (11 ∷ 10 ∷ [])

edge_connect-IsGraph_example : IsGraph two_edges two_uses
edge_connect-IsGraph_example =
    edge_connect-IsGraph one_edge one_use 11 0 21 one_edge-IsGraph eleven_new unused_twenty_one

two_edges-IsGraph : IsGraph two_edges two_uses
two_edges-IsGraph =
    edge_connect-IsGraph one_edge one_use 11 0 21 one_edge-IsGraph eleven_new unused_twenty_one

edge_disconnect-IsGraph_example :
    IsGraph (edge_disconnect two_edges (some 10)) (update two_uses 0 (11 ∷ []))
    × ((u : ℕ)
        → (two_edges.edges 10).user ≡ some u
        → ((edge_disconnect two_edges (some 10)).users u).edge ≡ none)
edge_disconnect-IsGraph_example =
    edge_disconnect-IsGraph two_edges two_uses 0 10 (11 ∷ []) [] two_edges-IsGraph refl

redirect_users-IsGraph_example : Makes (redirect_users 3 two_edges 0 1) (all_moved two_uses 0 1)
redirect_users-IsGraph_example =
    redirect_users-IsGraph 3 two_edges two_uses 0 1 (λ e. cc) two_edges-IsGraph (omega arith)

count_at : Option Graph → ℕ → Option ℕ
count_at none o = none
count_at (some g) o = some (g.origins o).edge_count

moved_count : count_at (redirect_users 3 two_edges 0 1) 1 ≡ some 2
unfolding count_at redirect_users edge_connect
moved_count = refl

-- A node with the inputs 5 and 6.
abbrev two_inputs : Graph
two_inputs = record nothing {
  users =
      update
        (update nothing.users 5
          (record { owner = node (some 9); index = 0; edge = none; next = some 6 }))
        6 (record { owner = node (some 9); index = 1; edge = none; next = none });
  nodes = update nothing.nodes 9 (record { first_input = some 5; input_count = 2 });
}

two_inputs-IsInputs : IsInputs two_inputs 9 (5 ∷ 6 ∷ [])
two_inputs-IsInputs = record {
  listed = (refl, (refl, refl));
  distinct = (λ x i. ground arith, (λ x i. absurd i, tt));
  ports = (refl, refl, (refl, refl, tt));
  counted = refl;
  few = omega arith;
}

seven_new : Member {A = ℕ} 7 (5 ∷ 6 ∷ []) → ⊥
seven_new i = ground arith

node_add_input-IsInputs_example :
    (g' : Graph) × (node_add_input 3 two_inputs 9 7 ≡ some g') × IsInputs g' 9 (5 ∷ 6 ∷ 7 ∷ [])
node_add_input-IsInputs_example =
    node_add_input-IsInputs 3 two_inputs 9 7 (5 ∷ 6 ∷ []) two_inputs-IsInputs seven_new
      (omega arith) (omega arith)

node_get_input-get_example : node_get_input 3 two_inputs 9 1 ≡ some (some 6)
node_get_input-get_example =
    node_get_input-get 3 two_inputs 9 1 (5 ∷ 6 ∷ []) two_inputs-IsInputs (omega arith)

node_remove_input-IsInputs_example :
    (g' : Graph) × (node_remove_input 3 two_inputs (some 5) ≡ some g') × IsInputs g' 9 (6 ∷ [])
node_remove_input-IsInputs_example =
    node_remove_input-IsInputs 3 two_inputs 9 5 [] (6 ∷ []) two_inputs-IsInputs (omega arith)

-- The count of inputs has eight bits.
full_node : Graph
full_node = record nothing { nodes = λ _. record { first_input = none; input_count = 255 } }

count_of : Option Graph → Option ℕ
count_of none = none
count_of (some g) = some (g.nodes 9).input_count

count_wraps : count_of (node_add_input 1 full_node 9 7) ≡ some 0
unfolding count_of node_add_input full_node
count_wraps = refl
