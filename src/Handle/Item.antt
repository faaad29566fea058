-- ===== src/Handle/Item.antt =====
-- The numbers of the types of items, `reduct_item_type_t` of include/reduct/item.h,
-- but those that `reduct_handle_get_type` does not name.
use reduct.Prelude.{ℕ}

abbrev pub none : ℕ
none = 0

abbrev pub atom : ℕ
atom = 1

abbrev pub arena : ℕ
arena = 2

abbrev pub list : ℕ
list = 3

abbrev pub function : ℕ
function = 4

abbrev pub closure : ℕ
closure = 5

abbrev pub rvsdg_node : ℕ
rvsdg_node = 6

abbrev pub rvsdg_edge : ℕ
rvsdg_edge = 7

abbrev pub future : ℕ
future = 11
