-- ===== src/Handle.antt =====
-- The tags of handles in src/handle.h, and `reduct_handle_get_type` of src/handle.c. A double is the
-- word of its bits. What an item's type is, and which atoms are numbers, is what memory holds.
mod Tests
pub mod Item
pub mod Words
use reduct.Prelude.{
  ℕ, ◌+◌, ◌-◌, ◌*◌, ◌%◌, ◌^◌, bit_and, bit_or, Bool, not, ◌&&◌, ◌||◌, leb, ◌==◌, if◌then◌else◌,
}
use reduct.Prelude.Words.{low_mask}
use reduct.Handle.Item

abbrev pub word : ℕ
word = 2 ^ 64

-- `REDUCT_HANDLE_OFFSET_NUMBER`, 0x0007000000000000
abbrev pub offset_number : ℕ
offset_number = 7 * 2 ^ 48

abbrev pub tag_item : ℕ
tag_item = 0

-- 0xFFFF000000000000 and 0x0000FFFFFFFFFFFF
abbrev pub mask_tag : ℕ
mask_tag = low_mask 16 * 2 ^ 48

abbrev pub mask_ptr : ℕ
mask_ptr = low_mask 48

unfoldable pub from_number : ℕ → ℕ
from_number u = (u + offset_number) % word

unfoldable pub to_number : ℕ → ℕ
to_number h = (h + (word - offset_number)) % word

unfoldable pub from_item : ℕ → ℕ
from_item p = bit_or tag_item (bit_and p mask_ptr)

unfoldable pub to_item : ℕ → ℕ
to_item h = bit_and h mask_ptr

unfoldable pub is_number : ℕ → Bool
is_number h = leb offset_number h

unfoldable pub is_item : ℕ → Bool
is_item h = bit_and h mask_tag == tag_item

-- `reduct_handle_type_t`
pub data HandleType : Type 0 where
  none number atom list function closure arena rvsdg_node rvsdg_edge future unknown : HandleType

-- What memory holds at the address of an item: its type, whether it is an atom that is a number
-- (`reduct_atom_is_number`), and the length of a list.
pub record Memory : Type 0 where
  pub item_type : ℕ → ℕ
  pub atom_is_number : ℕ → Bool
  pub list_length : ℕ → ℕ

-- The switch of `reduct_handle_get_type`.
unfoldable pub item_handle_type : Memory → ℕ → ℕ → HandleType
item_handle_type m p t =
    if t == Item.none
    then none
    else if t == Item.atom
    then (if m.atom_is_number p then number else atom)
    else if t == Item.list
    then list
    else if t == Item.function
    then function
    else if t == Item.closure
    then closure
    else if t == Item.arena
    then arena
    else if t == Item.rvsdg_node
    then rvsdg_node
    else if t == Item.rvsdg_edge
    then rvsdg_edge
    else if t == Item.future
    then future
    else unknown

unfoldable pub get_type : Memory → ℕ → HandleType
unfolding is_number is_item to_item item_handle_type
get_type m h =
    if is_number h
    then number
    else if not (is_item h)
    then unknown
    else item_handle_type m (to_item h) (m.item_type (to_item h))

unfoldable pub is_list : Memory → ℕ → Bool
unfolding is_item to_item
is_list m h = is_item h && (m.item_type (to_item h) == Item.list)

unfoldable pub is_truthy : Memory → ℕ → Bool
unfolding is_list to_item
is_truthy m h = not (is_list m h) || not (m.list_length (to_item h) == 0)
