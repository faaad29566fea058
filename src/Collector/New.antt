-- ===== src/Collector/New.antt =====
-- `reduct_item_new` of src/item.c: a thread takes an item from its own list of free items, from the
-- list that a collection left, or from a new block, which it finds at an address `b`. The call is one
-- step: the lock makes its parts one, and no other thread touches a thread's own list. The request
-- of a collection after a new block is left out, as is the failure of `calloc`.
use reduct.Prelude.{ℕ, zero, suc, ◌+◌, ◌-◌, none, some, List, [], ◌∷◌}
use reduct.Collector.Item.{Address, Pointer, Payload, blank, Payloads}
use reduct.Collector.Sweep.{World, block_max, items_of, write, item_init}

-- `reduct_item_local_t`
pub record Local : Type 0 where
  pub free : Pointer
  pub free_count : ℕ

-- `item->free`. Only items without a type are in a list of free items.
abbrev pub link_of : Payload → Pointer
link_of (blank n) = n
link_of _ = none

-- The loop that looks for the last of the items to take, with the rounds that the bound leaves: the
-- item, and how many more than the first there are.
unfoldable pub take_from : ℕ → Payloads → Address → Pointer → Address × ℕ
take_from zero pay tail next = (tail, 0)
take_from (suc n) pay tail none = (tail, 0)
take_from (suc n) pay tail (some q) =
    let (t, more) = take_from n pay q (link_of (pay q)) in (t, suc more)

-- The items of a new block from the second on, each with a link to the next.
unfoldable pub link_run : Payloads → Address → ℕ → Payloads
unfolding write
link_run pay a zero = write pay a (blank none)
link_run pay a (suc n) = link_run (write pay a (blank (some (suc a)))) (suc a) n

unfoldable pub init_items : World → List Address → World
unfolding item_init
init_items w [] = w
init_items w (p ∷ ps) = init_items (item_init w p) ps

-- What a thread gets: the world, its own list and the item.
pub record Given : Type 0 where
  pub world : World
  pub local : Local
  pub item : Address

-- `reduct_item_pop_free_list`
unfoldable pub pop_free_list : World → Local → Address → Given
pop_free_list w l p = record {
  world = w;
  local = record { free = link_of (w.payloads p); free_count = l.free_count - 1 };
  item = p;
}

-- The items up to `tail`, `more` of them after `head`, leave the list of free items.
unfoldable pub cut_global : World → Address → Address → ℕ → Given
unfolding write
cut_global w head tail more =
    let pay = write w.payloads tail (blank none) in
    record {
      world = record w {
        payloads = pay;
        free = link_of (w.payloads tail);
        free_count = w.free_count - suc more;
      };
      local = record { free = link_of (pay head); free_count = more };
      item = head;
    }

unfoldable pub take_global : World → Address → Given
unfolding take_from cut_global
take_global w head =
    let (tail, more) = take_from (block_max - 1) w.payloads head (link_of (w.payloads head)) in
    cut_global w head tail more

-- A block at `b`, which `calloc` hands out.
unfoldable pub take_block : World → Local → Address → Given
unfolding init_items link_run
take_block w l b =
    let w' = init_items w (items_of b) in
    record {
      world = record w' {
        payloads = link_run w'.payloads (suc (suc b)) (block_max - 2);
        blocks = b ∷ w'.blocks;
        block_count = w'.block_count + 1;
      };
      local = record { free = some (suc (suc b)); free_count = l.free_count + block_max - 1 };
      item = suc b;
    }

unfoldable pub item_new_from : World → Local → Address → Pointer → Pointer → Given
unfolding pop_free_list take_global take_block
item_new_from w l b (some p) global = pop_free_list w l p
item_new_from w l b none (some head) = take_global w head
item_new_from w l b none none = take_block w l b

unfoldable pub item_new : World → Local → Address → Given
unfolding item_new_from
item_new w l b = item_new_from w l b l.free w.free
