-- ===== src/HandleList/Prepend.antt =====
-- `reduct_list_prepend`: the value and then the elements, in a new list.
use reduct.Prelude.{ℕ, ◌-◌, Bool}
use reduct.HandleList.Memory.{Heap}
use reduct.HandleList.Contents.{region}
use reduct.HandleList.Makes.{Makes}

abbrev pub head_room : Heap → ℕ → ℕ → ℕ → Bool
head_room h l = let o = h.items l in region o.buf (o.index - 1) o.index
