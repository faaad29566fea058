-- ===== src/Graph.antt =====
-- src/rvsdg.c, include/reduct/rvsdg.h: the graph of the optimising compiler. Nodes with inputs,
-- regions with arguments, and edges from origins to users.
pub mod Heap
pub mod Edges
pub mod Uses
pub mod Sides
pub mod Unlink
pub mod Link
pub mod Lists
pub mod Redirect
pub mod Inputs
pub mod InputLists
pub mod Spares
pub mod Walks
pub mod InputRemoval
pub mod Tests
