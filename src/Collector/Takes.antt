-- ===== src/Collector/Takes.antt =====
-- What `reduct_item_new` does to the two lists of free items.
use reduct.Prelude.{ℕ, ◌<◌, List, [], ◌∷◌, ◌++◌, length, Member, ◌≡◌, ◌⊎◌, refl, ap}
use reduct.Collector.Item.{Address, Pointer, blank}
use reduct.Collector.Sweep.{World, block_max, items_of}
use reduct.Collector.Swept.{Linked}
use reduct.Collector.New.{Local, Given}
use reduct.Collector.Taken.{IsDistinct}

-- A thread's own list of free items and the shared one, with their counts, and no item twice.
pub record Lists (w : World) (l : Local) (own shared : List Address) : Type 0 where
  pub own_linked : Linked w.payloads l.free own
  pub shared_linked : Linked w.payloads w.free shared
  pub own_count : l.free_count ≡ length own
  pub shared_count : w.free_count ≡ length shared
  pub apart : IsDistinct (own ++ shared)

-- Where the item comes from: the lists, which keep the others in order, or a new block at `b` when
-- they are empty.
abbrev pub Source : List Address → Address → Address → List Address → List Address → Type 0
Source before b item own shared =
    (before ≡ item ∷ (own ++ shared)) ⊎ ((before ≡ []) × ((item ∷ (own ++ shared)) ≡ items_of b))

-- `count` is the length of the thread's own list before.
pub record Takes (count : ℕ) (w : World) (before : List Address) (b : Address) (r : Given)
    : Type 0 where
  pub own : List Address
  pub shared : List Address
  pub lists : Lists r.world r.local own shared
  pub source : Source before b r.item own shared
  pub is_blank : (n : Pointer) × (r.world.payloads r.item ≡ blank n)
  pub few : count < block_max → r.local.free_count < block_max
  pub others :
      (q : Address)
      → (Member q before → ⊥)
      → (Member q (items_of b) → ⊥)
      → r.world.payloads q ≡ w.payloads q

append_assoc : (xs ys zs : List Address) → (xs ++ ys) ++ zs ≡ xs ++ (ys ++ zs)
append_assoc [] ys zs = refl
append_assoc (x ∷ xs) ys zs = ap (λ r. x ∷ r) (append_assoc xs ys zs)
