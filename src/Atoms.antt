-- ===== src/Atoms.antt =====
-- src/atom.c: the map of interned atoms, an open hash table with tombstones. `Map` has its
-- operations, `Probes` the order in which a search visits the slots, and `Finds` what it finds.
pub mod Map
pub mod Probes
pub mod Finds
pub mod Keeps
mod Tests
