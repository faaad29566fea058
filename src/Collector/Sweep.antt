-- ===== src/Collector/Sweep.antt =====
-- `reduct_item_deinit` and `reduct_item_sweep`. Memory that the C library hands out (an atom's
-- schema index, the buffers of arenas, futures, functions and closures) is freed with the item and
-- is not part of the model; nor is the debug build's overwriting of freed items.
use reduct.Prelude.{
  ℕ, zero, suc, ◌+◌, ◌-◌, false, Option, none, some, List, [], ◌∷◌, if◌then◌else◌, ◌==◌,
}
use reduct.Collector.Item.{Address, Pointer, Payload, blank, atom, arena, Flags, Payloads, Marking}

-- A slot of the map of atoms: `NULL`, REDUCT_ATOM_TOMBSTONE, or an atom.
pub data Slot : Type 0 where
  empty tombstone : Slot
  alive : Address → Slot

-- What the sweep reads and writes: the items, the list of blocks by the address of each, the list
-- of free items under construction with its length, the number of blocks, the map of atoms with its
-- counts, and each thread's current arena.
pub record World : Type 0 where
  pub payloads : Payloads
  pub flags : Marking
  pub blocks : List Address
  pub free : Pointer
  pub free_count : ℕ
  pub block_count : ℕ
  pub slots : ℕ → Slot
  pub atom_count : ℕ
  pub tombstones : ℕ
  pub current : List Pointer

-- REDUCT_ITEM_BLOCK_MAX.
abbrev pub block_max : ℕ
block_max = 127

-- `&block->items[i]`: the header of a block takes one unit of 64 bytes.
unfoldable pub run_of : Address → ℕ → List Address
run_of start zero = []
run_of start (suc n) = start ∷ run_of (suc start) n

unfoldable pub items_of : Address → List Address
items_of b = run_of (suc b) block_max

-- A write to one place of a family.
unfoldable pub write {ℓ} : {A : Type ℓ} → (ℕ → A) → ℕ → A → ℕ → A
write f i a j = if j == i then a else f j

abbrev pub set_prev : Pointer → Payload → Payload
set_prev p (arena _ next) = arena p next
set_prev p x = x

abbrev pub set_next : Pointer → Payload → Payload
set_next p (arena prev _) = arena prev p
set_next p x = x

unfoldable pub at_pointer : (Payload → Payload) → Pointer → Payloads → Payloads
unfolding write
at_pointer f none pay = pay
at_pointer f (some p) pay = write pay p (f (pay p))

-- `arena->next->prev = arena->prev` and `arena->prev->next = arena->next`.
unfoldable pub unlink : Pointer → Pointer → Payloads → Payloads
unfolding at_pointer
unlink prev next pay = at_pointer (set_next next) prev (at_pointer (set_prev prev) next pay)

unfoldable pub leave_current : Address → Pointer → List Pointer → List Pointer
leave_current a next [] = []
leave_current a next (none ∷ cs) = none ∷ leave_current a next cs
leave_current a next (some c ∷ cs) = (if c == a then next else some c) ∷ leave_current a next cs

unfoldable pub drop_atom : World → Option ℕ → World
unfolding write
drop_atom w none = w
drop_atom w (some i) = record w {
  slots = write w.slots i tombstone;
  tombstones = w.tombstones + 1;
  atom_count = w.atom_count - 1;
}

-- The switch of `reduct_item_deinit`, by what the item is.
unfoldable pub release : World → Address → Payload → World
unfolding drop_atom unlink leave_current
release w p (atom _ _ index) = drop_atom w index
release w p (arena prev next) = record w {
  payloads = unlink prev next w.payloads;
  current = leave_current p next w.current;
}
release w p _ = w

abbrev pub flags_none : Flags
flags_none = record { marked = false; retained = false }

-- `reduct_item_init`.
unfoldable pub item_init : World → Address → World
unfolding write
item_init w p = record w {
  payloads = write w.payloads p (blank none);
  flags = write w.flags p flags_none;
}

unfoldable pub item_deinit : World → Address → World
unfolding release item_init
item_deinit w p = item_init (release w p (w.payloads p)) p

-- `if (item->type != REDUCT_ITEM_TYPE_NONE) reduct_item_deinit(reduct, item)`.
unfoldable pub deinit_used : World → Address → Payload → World
unfolding item_deinit
deinit_used w p (blank _) = w
deinit_used w p _ = item_deinit w p

-- `item->free = list; list = item; count++`.
unfoldable pub push_free : World → Address → World
unfolding write
push_free w p = record w {
  payloads = write w.payloads p (blank w.free);
  free = some p;
  free_count = w.free_count + 1;
}

unfoldable pub clear_marked : World → Address → World
unfolding write
clear_marked w p = record w { flags = write w.flags p (record (w.flags p) { marked = false }) }

unfoldable pub sweep_item : World → Address → World
unfolding clear_marked push_free deinit_used
sweep_item w p =
    if (w.flags p).marked then clear_marked w p else push_free (deinit_used w p (w.payloads p)) p

unfoldable pub sweep_items : World → List Address → World
unfolding sweep_item
sweep_items w [] = w
sweep_items w (p ∷ ps) = sweep_items (sweep_item w p) ps

unfoldable pub deinit_items : World → List Address → World
unfolding item_deinit
deinit_items w [] = w
deinit_items w (p ∷ ps) = deinit_items (item_deinit w p) ps

unfoldable pub count_marked : Marking → List Address → ℕ
count_marked m [] = 0
count_marked m (p ∷ ps) = (if (m p).marked then 1 else 0) + count_marked m ps

-- The loop over the blocks. The links of those that stay are rewritten to their list, which is
-- built from the end here; the others are freed when the loop is over.
unfoldable pub keep_block : Address → World → World
keep_block b w = record w { blocks = b ∷ w.blocks }

unfoldable pub release_block : World → Address → World
release_block w b =
    let freed = deinit_items w (items_of b) in record freed { block_count = freed.block_count - 1 }

unfoldable pub sweep_blocks : World → List Address → World
sweep_blocks w [] = record w { blocks = [] }
sweep_blocks w (b ∷ bs) =
    if count_marked w.flags (items_of b) == 0
    then sweep_blocks (release_block w b) bs
    else keep_block b (sweep_blocks (sweep_items w (items_of b)) bs)

unfoldable pub sweep : World → World
unfolding sweep_blocks
sweep w = sweep_blocks (record w { free = none; free_count = 0 }) w.blocks
