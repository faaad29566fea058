-- ===== src/Collector/Collect.antt =====
-- `reduct_gc`: the threads mark what their registers and frames hold, and the one that takes the
-- request marks all roots and sweeps. The barriers between the phases are the order of the steps
-- here; the threads of one phase mark one after the other.
use reduct.Prelude.{ℕ, Option, none, some, List, [], ◌∷◌, ◌++◌, ◌>>=◌, if◌then◌else◌}
use reduct.Collector.Item.{Address, Pointer, Handle, Marking}
use reduct.Collector.Children.{of_handles, children}
use reduct.Collector.Mark.{each, mark}
use reduct.Collector.Sweep.{World, items_of, sweep}

-- A thread's registers below `regCount`, the closures of its frames, and its list of free items.
pub record Thread : Type 0 where
  pub regs : List Handle
  pub frames : List Address
  pub free : Pointer
  pub free_count : ℕ

unfoldable pub thread_roots : List Thread → List Address
thread_roots [] = []
thread_roots (t ∷ ts) = of_handles t.regs ++ t.frames ++ thread_roots ts

-- The items of the blocks with REDUCT_ITEM_FLAG_RETAINED. Marking does not change that flag, so it
-- can be read before the loop.
unfoldable pub retained_of : Marking → List Address → List Address
retained_of m [] = []
retained_of m (p ∷ ps) = if (m p).retained then p ∷ retained_of m ps else retained_of m ps

unfoldable pub retained_roots : Marking → List Address → List Address
retained_roots m [] = []
retained_roots m (b ∷ bs) = retained_of m (items_of b) ++ retained_roots m bs

unfoldable pub forget_free : List Thread → List Thread
forget_free [] = []
forget_free (t ∷ ts) = record t { free = none; free_count = 0 } ∷ forget_free ts

-- `width` bounds the lists of the graph that marking walks, `fuel` the depth of its recursion.
module _ (width fuel : ℕ) (nil : Address) where
  unfoldable pub mark_all : World → List Address → Marking → Option Marking
  mark_all w ps m = each (mark (children w.payloads width) fuel) m ps

  unfoldable pub mark_roots : World → List Thread → Option Marking
  mark_roots w ts = do
    m₁ ← mark_all w (thread_roots ts) w.flags
    m₂ ← mark_all w (nil ∷ []) m₁
    m₃ ← mark_all w (thread_roots ts) m₂
    mark_all w (retained_roots m₃ w.blocks) m₃

  unfoldable pub collect : World → List Thread → Option (World × List Thread)
  collect w ts = do m ← mark_roots w ts; some (sweep (record w { flags = m }), forget_free ts)
