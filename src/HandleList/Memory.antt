-- ===== src/HandleList/Memory.antt =====
-- The memory of lists: list items at addresses, and buffers of handles that they point into. A
-- command returns `none` where the program would read or write outside a buffer, or copy between places that overlap.
use reduct.Prelude.{
  ℕ, ◌+◌, ◌-◌, Bool, false, not, ◌&&◌, ◌||◌, Option, none, some, ltb, leb, ◌==◌, if◌then◌else◌,
}

-- `reduct_handle_t` is a 64-bit value, which lists store and never look into.
abbrev pub Handle : Type 0
Handle = ℕ

-- The flags REDUCT_LIST_FLAG_LARGE, _USED_HEAD and _USED_TAIL.
pub record Flags : Type 0 where
  pub large : Bool
  pub used_head : Bool
  pub used_tail : Bool

abbrev pub flags_none : Flags
flags_none = record { large = false; used_head = false; used_tail = false }

-- `reduct_list_t`. The pointer `handles` is the buffer `buf` at index `index`: the item's own
-- `smallHandles`, or a chunk of an arena.
pub record ListItem : Type 0 where
  pub length : ℕ
  pub capacity : ℕ
  pub offset : ℕ
  pub flags : Flags
  pub buf : ℕ
  pub index : ℕ

-- Items and buffers are numbered in the order of allocation.
pub record Heap : Type 0 where
  pub items : ℕ → ListItem
  pub item_count : ℕ
  pub sizes : ℕ → ℕ
  pub buffer_count : ℕ
  pub cells : ℕ → ℕ → Handle

abbrev pub M : Type 0 → Type 0
M A = Heap → Option (A × Heap)

abbrev pub after : {A B : Type 0} → Option (A × Heap) → (A → M B) → Option (B × Heap)
after none f = none
after (some (a, h)) f = f a h

infixl 5 ◌>>=◌ ◌>>◌
abbrev pub ◌>>=◌ : {A B : Type 0} → M A → (A → M B) → M B
◌>>=◌ m f h = after (m h) f

abbrev pub ◌>>◌ : {A B : Type 0} → M A → M B → M B
◌>>◌ m k = m >>= λ _. k

abbrev pub pure : {A : Type 0} → A → M A
pure a h = some (a, h)

abbrev pub item : ℕ → M ListItem
item l h = some (h.items l, h)

abbrev pub update {ℓ} : {A : Type ℓ} → (ℕ → A) → ℕ → A → ℕ → A
update f i v j = if j == i then v else f j

-- A fresh buffer, and a fresh item. What a fresh buffer holds is left open.
abbrev pub new_buffer : ℕ → M ℕ
new_buffer size h = some (
  h.buffer_count,
  record h { sizes = update h.sizes h.buffer_count size; buffer_count = h.buffer_count + 1 },
)

abbrev pub new_item : ListItem → M ℕ
new_item o h = some (
  h.item_count,
  record h { items = update h.items h.item_count o; item_count = h.item_count + 1 },
)

-- `p[i] = v`.
abbrev pub write_cells : (ℕ → ℕ → Handle) → ℕ → ℕ → Handle → ℕ → ℕ → Handle
write_cells c b i v b' i' = if b' == b && i' == i then v else c b' i'

unfoldable pub store : ℕ → ℕ → Handle → M (Unit {0})
store b i v h =
    if ltb i (h.sizes b) then some (tt, record h { cells = write_cells h.cells b i v }) else none

abbrev pub copy_cells : (ℕ → ℕ → Handle) → ℕ → ℕ → ℕ → ℕ → ℕ → ℕ → ℕ → Handle
copy_cells c b i src j n b' i' =
    if b' == b && (leb i i' && ltb i' (i + n)) then c src (j + (i' - i)) else c b' i'

-- `n` cells of two places do not overlap.
abbrev pub apart : (dst i src j n : ℕ) → Bool
apart dst i src j n = not (dst == src) || (leb (i + n) j || leb (j + n) i)

-- `memcpy` of `n` handles. Where the two places overlap, the C standard says nothing of what it does.
unfoldable pub memcpy : (dst i src j n : ℕ) → M (Unit {0})
memcpy dst i src j n h =
    if leb (i + n) (h.sizes dst) && leb (j + n) (h.sizes src) && apart dst i src j n
    then some (tt, record h { cells = copy_cells h.cells dst i src j n })
    else none
