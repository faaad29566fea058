-- ===== src/Arena/Tests.antt =====
-- Tests of arenas, from none at all.
use reduct.Prelude.{none, arith}
use reduct.Arena.{Arenas, arena_alloc}
use reduct.Arena.Alloc.{IsArenas, Allocates, arena_alloc-Allocates}

abbrev no_arenas : Arenas
no_arenas = record {
  all = λ k. record { next = none; prev = none; capacity = 0; count = 0; bytes = λ i. 0 };
  number = 0;
  current = none;
}

no_arenas-IsArenas : IsArenas no_arenas
no_arenas-IsArenas = record { fits = λ k lt. absurd (omega arith); exists = λ k e. cc }

arena_alloc-Allocates_example :
    Allocates no_arenas 100 (arena_alloc 100 no_arenas).0 (arena_alloc 100 no_arenas).1
arena_alloc-Allocates_example = arena_alloc-Allocates no_arenas 100 no_arenas-IsArenas (omega arith)
