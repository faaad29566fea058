-- ===== src/HandleList/Tests.antt =====
-- Tests of lists, on a large list of six handles in a buffer of 32.
use reduct.Prelude.{ℕ, ◌<◌, ◌≤◌, ◌≡◌, refl, true, Option, none, some, List, [], ◌∷◌, ◌⊎◌, arith}
use reduct.HandleList.Memory.{Handle, flags_none, ListItem, Heap, M, ◌>>=◌, pure, store, memcpy}
use reduct.HandleList.Contents.{contents, IsHeap}
use reduct.HandleList.Makes.{Makes}
use reduct.HandleList.Concat.{Joined, concat_lem}
use reduct.HandleList.Slice.{IsSlice, slice_lem}
use reduct.HandleList.{
  append_shared, append, prepend_shared, prepend, concat, concat_behind, slice, slice_shared,
  Sliced, sliced, invalid_range,
}

abbrev six_item : ListItem
six_item = record {
  length = 6;
  capacity = 32;
  offset = 7;
  flags = record flags_none { large = true };
  buf = 0;
  index = 7;
}

-- Each cell holds its index.
abbrev six_heap : Heap
six_heap = record {
  items = λ k. six_item;
  item_count = 1;
  sizes = λ b. 32;
  buffer_count = 1;
  cells = λ b i. i;
}

six_heap-IsHeap : IsHeap six_heap
six_heap-IsHeap = record {
  each = λ k p. record {
    buf_lt = omega arith;
    within = omega arith;
    room = λ e. (refl, refl, omega arith);
    small = λ e. cc;
  };
}

concat_lem_example : Joined six_heap 0 0 (concat 0 0)
concat_lem_example =
    concat_lem six_heap 0 0 six_heap-IsHeap (omega arith) (omega arith) (omega arith) (omega arith)
      (λ large unused room. refl) (λ large unused room. refl)

slice_lem_example :
    ((6 < 1 ⊎ 6 < 6) × (slice 0 1 6 six_heap ≡ some (invalid_range 1 6 6, six_heap)))
    ⊎ ((1 ≤ 6) × (6 ≤ 6) × IsSlice six_heap six_heap-IsHeap 0 1 6 (slice 0 1 6))
slice_lem_example = slice_lem six_heap six_heap-IsHeap 0 1 6 (omega arith)

abbrev elements : ℕ → M (List Handle)
elements l h = some (contents h l, h)

abbrev result : Option (List Handle × Heap) → List Handle
result none = []
result (some (xs, h)) = xs

-- The headroom of a list is claimed twice, by the list and by the list that was appended to it:
-- the second `prepend` writes over the first element of what the first one made.
headroom_twice :
    result ((append 0 9 >>= λ m. prepend 0 1 >>= λ p. prepend m 2 >>= λ q. elements p) six_heap)
    ≡ 2 ∷ 7 ∷ 8 ∷ 9 ∷ 10 ∷ 11 ∷ 12 ∷ []
unfolding append append_shared prepend prepend_shared store
headroom_twice = refl

abbrev append_sliced : Sliced → Handle → M ℕ
append_sliced (sliced m) v = append m v
append_sliced (invalid_range start end len) v = pure 0

-- So is the tailroom, by a list and by a slice up to its end.
tailroom_twice :
    result
      ((slice 0 1 6 >>= λ s. append 0 1 >>= λ p. append_sliced s 2 >>= λ q. elements p) six_heap)
    ≡ 7 ∷ 8 ∷ 9 ∷ 10 ∷ 11 ∷ 12 ∷ 2 ∷ []
unfolding append append_shared slice slice_shared store
tailroom_twice = refl

-- The slice without the first element has the tailroom that append fills, so that concat copies the
-- other list over its own last cell.
abbrev concat_sliced : Sliced → ℕ → M ℕ
concat_sliced (sliced m) l = concat m l
concat_sliced (invalid_range start end len) l = pure 0

overlap : (slice 0 1 6 >>= λ s. append 0 1 >>= λ p. concat_sliced s p) six_heap ≡ none
unfolding append append_shared slice slice_shared store concat concat_behind memcpy
overlap = refl
