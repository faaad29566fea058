-- ===== src/Graph/Heap.antt =====
-- The parts of the graph by address. `none` is the null pointer.
use reduct.Prelude.{ℕ, ◌%◌, ◌^◌, Option, none, some}
use reduct.Prelude.Maps.{update}

abbrev pub Pointer : Type 0
Pointer = Option ℕ

abbrev pub u16 : ℕ → ℕ
u16 n = n % 2 ^ 16

abbrev pub u8 : ℕ → ℕ
u8 n = n % 2 ^ 8

-- The node or the region that a port belongs to.
pub data Owner : Type 0 where
  node : Pointer → Owner
  region : Pointer → Owner

-- `reduct_rvsdg_edge_t`
pub record Edge : Type 0 where
  pub origin : Pointer
  pub user : Pointer
  pub next : Pointer
  pub prev : Pointer

-- `reduct_rvsdg_origin_t`, without the field that the optimiser copies nodes with.
pub record Origin : Type 0 where
  pub owner : Owner
  pub first_edge : Pointer
  pub next : Pointer
  pub index : ℕ
  pub edge_count : ℕ

-- `reduct_rvsdg_user_t`
pub record User : Type 0 where
  pub owner : Owner
  pub index : ℕ
  pub edge : Pointer
  pub next : Pointer

-- `reduct_rvsdg_node_t`, of which the list of inputs is modelled.
pub record Node : Type 0 where
  pub first_input : Pointer
  pub input_count : ℕ

pub record Graph : Type 0 where
  pub edges : ℕ → Edge
  pub origins : ℕ → Origin
  pub users : ℕ → User
  pub nodes : ℕ → Node

abbrev pub with_edge : Graph → ℕ → Edge → Graph
with_edge g e r = record g { edges = update g.edges e r }

abbrev pub with_origin : Graph → ℕ → Origin → Graph
with_origin g o r = record g { origins = update g.origins o r }

abbrev pub with_user : Graph → ℕ → User → Graph
with_user g u r = record g { users = update g.users u r }

abbrev pub with_node : Graph → ℕ → Node → Graph
with_node g n r = record g { nodes = update g.nodes n r }

-- Writes through a pointer that was tested against null.
abbrev pub set_next : Graph → Pointer → Pointer → Graph
set_next g none to = g
set_next g (some e) to = with_edge g e (record (g.edges e) { next = to })

abbrev pub set_prev : Graph → Pointer → Pointer → Graph
set_prev g none to = g
set_prev g (some e) to = with_edge g e (record (g.edges e) { prev = to })
