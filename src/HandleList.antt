-- ===== src/HandleList.antt =====
-- include/reduct/list.h and src/list.c: immutable lists of handles whose buffers may overlap. A
-- large list is given room before and behind its elements, and a list made from it by `append`,
-- `prepend` or `concat` may claim that room by setting a flag of the older list, and share the
-- buffer. `Memory` has the items and buffers; `atomic_fetch_or` is one step of it, and the
-- commands run one after another.
pub mod Memory
pub mod Contents
pub mod New
pub mod Writes
pub mod Makes
pub mod Append
pub mod Prepend
pub mod ConcatParts
pub mod Concat
pub mod Slice
mod Tests
use reduct.Prelude.{
  ℕ, zero, suc, ◌+◌, ◌-◌, ◌*◌, ◌/◌, ◌%◌, ◌^◌, Bool, true, false, ◌&&◌, ◌||◌, not, Option, none,
  some, List, [], ◌∷◌, ltb, leb, ◌==◌, if◌then◌else◌, max,
}
use reduct.Prelude.Words.{u32}
use Memory.{
  Handle, Flags, flags_none, ListItem, Heap, M, ◌>>=◌, ◌>>◌, pure, item, update, new_buffer,
  new_item, store, memcpy,
}

abbrev pub small_max : ℕ
small_max = 4

abbrev pub large_min : ℕ
large_min = 16

abbrev pub extra_room_factor : ℕ
extra_room_factor = 2

-- A list in the `smallHandles` of its own item.
unfoldable pub new_small : ℕ → M ℕ
new_small len = do
  b ← new_buffer small_max
  new_item (record {
    length = u32 len;
    capacity = small_max;
    offset = 0;
    flags = flags_none;
    buf = b;
    index = 0;
  })

abbrev pub large_capacity : ℕ → ℕ
large_capacity len = max len large_min * extra_room_factor

abbrev pub large_headroom : ℕ → ℕ
large_headroom len = (large_capacity len - len) / (extra_room_factor * 2)

-- A list in a chunk of an arena, between headroom and tailroom.
unfoldable pub new_large : ℕ → M ℕ
new_large len = do
  b ← new_buffer (large_capacity len)
  new_item (record {
    length = u32 len;
    capacity = u32 (large_capacity len);
    offset = u32 (large_headroom len);
    flags = record flags_none { large = true };
    buf = b;
    index = large_headroom len;
  })

unfoldable pub list_new : ℕ → M ℕ
list_new len = if leb len small_max then new_small len else new_large len

-- `newList->handles[i] = v`, and a copy of all of list `o` to `newList->handles + i`. A copy of no
-- handles does nothing, with the test for an empty list or without.
abbrev pub put : ℕ → ℕ → Handle → M (Unit {0})
put l i v = do n ← item l; store n.buf (n.index + i) v

abbrev pub put_list : ℕ → ℕ → ListItem → M (Unit {0})
put_list l i o = do n ← item l; memcpy n.buf (n.index + i) o.buf o.index o.length

-- `reduct_list_new_handles`, from `count` handles of a buffer.
unfoldable pub new_handles : ℕ → ℕ → ℕ → M ℕ
new_handles count src j = do
  l ← list_new count
  n ← item l
  memcpy n.buf n.index src j count
  pure l

-- `atomic_fetch_or` of a flag; the result is the flags before.
abbrev pub claim_tail : ℕ → M Flags
claim_tail l h =
    let o = h.items l in
    some (
      o.flags,
      record h {
        items = update h.items l (record o { flags = record o.flags { used_tail = true } });
      },
    )

abbrev pub claim_head : ℕ → M Flags
claim_head l h =
    let o = h.items l in
    some (
      o.flags,
      record h {
        items = update h.items l (record o { flags = record o.flags { used_head = true } });
      },
    )

-- A new list whose elements are those of `o` and then `v`, in a buffer of its own.
unfoldable pub append_copy : ListItem → Handle → M ℕ → M ℕ
append_copy o v new = do m ← new; put_list m 0 o; put m o.length v; pure m

-- The list that shares the buffer of `o` and ends one place further, where `v` is stored.
unfoldable pub append_shared : ListItem → ℕ → Flags → Handle → M ℕ
append_shared o len old v = do
  m ← new_item (record {
    length = len;
    capacity = o.capacity;
    offset = o.offset;
    flags = record { large = true; used_head = old.used_head; used_tail = false };
    buf = o.buf;
    index = o.index;
  })
  put m o.length v
  pure m

unfoldable pub append : ℕ → Handle → M ℕ
append l v = do
  o ← item l
  let len = u32 (o.length + 1)
  let slow = append_copy o v (list_new len)
  if leb len small_max
      then append_copy o v (new_small len)
      else if o.flags.large && not o.flags.used_tail && ltb (u32 (o.offset + o.length)) o.capacity
      then (do old ← claim_tail l; if not old.used_tail then append_shared o len old v else slow)
      else slow

unfoldable pub prepend_copy : ListItem → Handle → M ℕ → M ℕ
prepend_copy o v new = do m ← new; put m 0 v; put_list m 1 o; pure m

-- The list that shares the buffer of `o` and begins one place before it, where `v` is stored.
unfoldable pub prepend_shared : ListItem → ℕ → Flags → Handle → M ℕ
prepend_shared o len old v = do
  m ← new_item (record {
    length = len;
    capacity = o.capacity;
    offset = o.offset - 1;
    flags = record { large = true; used_head = false; used_tail = old.used_tail };
    buf = o.buf;
    index = o.index - 1;
  })
  put m 0 v
  pure m

unfoldable pub prepend : ℕ → Handle → M ℕ
prepend l v = do
  o ← item l
  let len = u32 (o.length + 1)
  let slow = prepend_copy o v (list_new len)
  if o.flags.large && not o.flags.used_head && ltb 0 o.offset
      then (do old ← claim_head l; if not old.used_head then prepend_shared o len old v else slow)
      else slow

unfoldable pub concat_copy : ListItem → ListItem → M ℕ → M ℕ
concat_copy a b new = do m ← new; put_list m 0 a; put_list m a.length b; pure m

-- The list that shares the buffer of `a`, behind which `b` is copied.
unfoldable pub concat_behind : ListItem → ListItem → ℕ → Flags → M ℕ
concat_behind a b len old = do
  m ← new_item (record {
    length = len;
    capacity = a.capacity;
    offset = a.offset;
    flags = record { large = true; used_head = old.used_head; used_tail = false };
    buf = a.buf;
    index = a.index;
  })
  put_list m a.length b
  pure m

-- The list that shares the buffer of `b`, before which `a` is copied.
unfoldable pub concat_before : ListItem → ListItem → ℕ → Flags → M ℕ
concat_before a b len old = do
  m ← new_item (record {
    length = len;
    capacity = b.capacity;
    offset = b.offset - a.length;
    flags = record { large = true; used_head = false; used_tail = old.used_tail };
    buf = b.buf;
    index = b.index - a.length;
  })
  put_list m 0 a
  pure m

-- The attempt to share the headroom of `b`, which comes after that to share the tailroom of `a`.
unfoldable pub concat_second : ℕ → ListItem → ListItem → ℕ → M ℕ
concat_second lb a b len =
    let slow = concat_copy a b (list_new len) in
    (item lb >>= λ now.
    if now.flags.large && not now.flags.used_head && leb a.length b.offset
    then (do old ← claim_head lb; if not old.used_head then concat_before a b len old else slow)
    else slow)

unfoldable pub concat : ℕ → ℕ → M ℕ
concat la lb = do
  a ← item la
  b ← item lb
  let len = u32 (a.length + b.length)
  if b.length == 0
      then pure la
      else if a.length == 0
      then pure lb
      else if leb len small_max
      then concat_copy a b (new_small len)
      else if a.flags.large && not a.flags.used_tail && leb (u32 (a.offset + len)) a.capacity
      then (do
        old ← claim_tail la
        if not old.used_tail then concat_behind a b len old else concat_second lb a b len)
      else concat_second lb a b len

-- The result of `slice`: an invalid range is thrown as an error.
pub data Sliced : Type 0 where
  sliced : ℕ → Sliced
  invalid_range : (start end length : ℕ) → Sliced

-- The slice of a large list shares its buffer.
unfoldable pub slice_shared : ListItem → (start end : ℕ) → M ℕ
slice_shared o start end = new_item (record {
  length = u32 (end - start);
  capacity = o.capacity;
  offset = u32 (o.offset + u32 start);
  flags = record {
    large = true;
    used_head = if ltb 0 start then true else o.flags.used_head;
    used_tail = if ltb end o.length then true else o.flags.used_tail;
  };
  buf = o.buf;
  index = o.index + start;
})

-- The slice of a small list is copied.
unfoldable pub slice_copied : ListItem → (start end : ℕ) → M ℕ
slice_copied o start end = do
  m ← new_small (end - start)
  n ← item m
  memcpy n.buf n.index o.buf (o.index + start) (end - start)
  pure m

unfoldable pub slice : ℕ → (start end : ℕ) → M Sliced
slice l start end = do
  o ← item l
  if ltb end start || ltb o.length end
      then pure (invalid_range start end o.length)
      else if end - start == 0
      then (do m ← list_new 0; pure (sliced m))
      else if start == 0 && end == o.length
      then pure (sliced l)
      else if o.flags.large
      then (do m ← slice_shared o start end; pure (sliced m))
      else (do m ← slice_copied o start end; pure (sliced m))
