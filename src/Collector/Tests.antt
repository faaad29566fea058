-- ===== src/Collector/Tests.antt =====
-- A block with three items: nil, which is an empty list, a list that nothing refers to, and an atom
-- in a register; runs of marking; and the taking of an item that is shared.
use reduct.Prelude.{
  zero, suc, ◌<◌, Bool, true, false, Option, none, some, List, [], ◌∷◌, ◌≡◌, refl, Every, arith,
}
use reduct.Collector.Item.{Address, item, immediate, Payload, blank, atom, list, Marking}
use reduct.Collector.Children.{of_handles, children_of, children}
use reduct.Collector.Mark.{set_marked, each, mark}
use reduct.Collector.Marks.{IsTidy, Reached, Marks, unmarked, mark-Marks}
use reduct.Collector.Sweep.{World, empty, run_of, items_of, flags_none, sweep, write}
use reduct.Collector.SweptBlocks.{SweptBlocks, sweep-SweptBlocks}
use reduct.Collector.New.{Local, take_global, item_new_from, item_new}
use reduct.Collector.Takes.{Takes}
use reduct.Collector.Collect.{
  Thread, thread_roots, retained_of, retained_roots, forget_free, collect,
}
use reduct.Collector.Collected.{Collects, roots, collect-Collects}

abbrev cells : Address → Payload
cells (suc zero) = list [] false none
cells (suc (suc zero)) = list (item 3 ∷ immediate 7 ∷ []) false none
cells (suc (suc (suc zero))) = atom false none none
cells _ = blank none

abbrev clean : Marking
clean q = flags_none

abbrev world : World
world = record {
  payloads = cells;
  flags = clean;
  blocks = 0 ∷ [];
  free = none;
  free_count = 0;
  block_count = 1;
  slots = λ i. empty;
  atom_count = 0;
  tombstones = 0;
  current = none ∷ [];
}

abbrev thread : Thread
thread = record { regs = immediate 1 ∷ item 3 ∷ []; frames = []; free = none; free_count = 0 }

abbrev kids : Address → Option (List Address)
kids = children cells 0

cells-IsTidy : IsTidy kids 4
unfolding children_of of_handles
cells-IsTidy zero lt = ([], refl, tt)
cells-IsTidy (suc zero) lt = ([], refl, tt)
cells-IsTidy (suc (suc zero)) lt = (3 ∷ [], refl, (omega arith, tt))
cells-IsTidy (suc (suc (suc zero))) lt = ([], refl, tt)
cells-IsTidy (suc (suc (suc (suc p)))) lt = absurd (omega arith)

roots_below : Every (λ c. c < 4) (roots 1 world (thread ∷ []))
unfolding thread_roots of_handles retained_roots retained_of items_of run_of
roots_below = (omega arith, (omega arith, tt))

collect-Collects_example :
    (w' : World) × (collect 0 5 1 world (thread ∷ [])
      ≡ some (w', record thread { free = none; free_count = 0 } ∷ []))
    × Collects (Reached kids (roots 1 world (thread ∷ []))) world w'
unfolding forget_free
collect-Collects_example =
    collect-Collects 0 5 4 1 world (thread ∷ []) cells-IsTidy (omega arith) (tt, tt) roots_below
      (λ q. refl)

unmarked_three : unmarked 4 clean ≡ 4
unfolding unmarked
unmarked_three = refl

mark-Marks_example : (m' : Marking) × (mark kids 5 clean 2 ≡ some m') × Marks kids (2 ∷ []) clean m'
mark-Marks_example =
    mark-Marks kids 4 5 cells-IsTidy clean 2 (omega arith) (omega (arith, unmarked_three))

sweep-SweptBlocks_example : SweptBlocks (0 ∷ []) world (sweep world) []
sweep-SweptBlocks_example = sweep-SweptBlocks world (tt, tt)

-- Marking the list at 2 marks the atom that it holds, and not nil.
marks_of : Option Marking → List Bool
marks_of none = []
marks_of (some m) = (m 1).marked ∷ (m 2).marked ∷ (m 3).marked ∷ []

mark_list : marks_of (mark kids 5 clean 2) ≡ false ∷ true ∷ true ∷ []
unfolding marks_of mark each set_marked children_of of_handles
mark_list = refl

-- A thread without free items, when two are shared, the one at 4 with a link to the one at 5.
abbrev two_shared : World
two_shared = record world {
  payloads = write cells 4 (blank (some 5));
  free = some 4;
  free_count = 2;
}

abbrev nothing_free : Local
nothing_free = record { free = none; free_count = 0 }

take_shared : (item_new two_shared nothing_free 200).item ≡ 4
unfolding item_new item_new_from take_global
take_shared = refl
