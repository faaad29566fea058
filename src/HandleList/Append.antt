-- ===== src/HandleList/Append.antt =====
-- `reduct_list_append`: the elements and then the value, in a new list.
use reduct.Prelude.{ℕ, ◌+◌, Bool}
use reduct.HandleList.Memory.{Heap}
use reduct.HandleList.Contents.{region}
use reduct.HandleList.Makes.{Makes}

abbrev pub tail_room : Heap → ℕ → ℕ → ℕ → Bool
tail_room h l = let o = h.items l in region o.buf (o.index + o.length) (o.index + o.length + 1)
