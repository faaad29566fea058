-- ===== src/HandleList/ConcatParts.antt =====
-- The three ways in which `reduct_list_concat` makes a list.
use reduct.Prelude.{ℕ, ◌+◌, ◌-◌, ◌≤◌, ◌≡◌, refl, ap, ap₂, ◌∙◌, true, false, some, ◌++◌, arith}
use reduct.HandleList.Memory.{Handle, Flags, ListItem, Heap, M, update, copy_cells, apart}
use reduct.HandleList.Contents.{
  read, read-append, read-congr, view, IsList, IsHeap, SameList, region,
}
use reduct.HandleList.New.{IsFresh, update_self}
use reduct.HandleList.Writes.{memcpy-copies, apart-fresh, read-copy_cells, read-copy_cells_after}
use reduct.HandleList.Makes.{nothing, Makes, SameList-update, filled-Makes, shared-Makes}
use reduct.HandleList.{concat_copy, concat_behind, concat_before}

module _ (h : Heap) (heap : IsHeap h) (a b : ListItem) (is_a : IsList h a) (is_b : IsList h b) where
  pub concat_copy-Makes :
      (new : M ℕ) (m : ℕ) (h₁ : Heap)
      → new h ≡ some (m, h₁)
      → IsFresh h (a.length + b.length) m h₁
      → (h' : Heap) × (concat_copy a b new h ≡ some (m, h'))
        × Makes h nothing (view h a ++ view h b) m h'
  unfolding concat_copy
  concat_copy-Makes new m h₁ made fresh = (
    record h₁ { cells = cells },
    runs,
    filled-Makes h (a.length + b.length) m h₁ fresh heap _ cells
        (λ c i lt. ground (arith, fresh.old_cells)) fill,
  )
    where
      n : ListItem
      n = h₁.items m

      copied : ℕ → ℕ → Handle
      copied = copy_cells h₁.cells n.buf (n.index + 0) a.buf a.index a.length

      cells : ℕ → ℕ → Handle
      cells = copy_cells copied n.buf (n.index + a.length) b.buf b.index b.length

      runs : concat_copy a b new h ≡ some (m, record h₁ { cells = cells })
      runs = rw (
        made,
        memcpy-copies n.buf (n.index + 0) a.buf a.index a.length h₁ (omega arith)
            (ground (arith, fresh.old_sizes a.buf))
            (apart-fresh n.buf (n.index + 0) a.buf a.index a.length
              (omega (arith, fresh.new_buf, is_a.buf_lt))),
        memcpy-copies n.buf (n.index + a.length) b.buf b.index b.length
            (record h₁ { cells = copied }) (omega arith) (ground (arith, fresh.old_sizes b.buf))
            (apart-fresh n.buf (n.index + a.length) b.buf b.index b.length
              (omega (arith, fresh.new_buf, is_b.buf_lt))),
      )

      fill : read (cells n.buf) n.index (a.length + b.length) ≡ view h a ++ view h b
      fill =
          read-copy_cells_after copied n.buf n.index b.buf b.index b.length a.length
            (n.index + a.length) refl
          ∙ ap₂ ◌++◌
              (read-copy_cells h₁.cells n.buf (n.index + 0) a.buf a.index a.length n.index
                  (omega arith)
                ∙ ap (λ c. read (c a.buf) a.index a.length) fresh.old_cells)
              (read-congr _ _ b.length b.index b.index λ k lt. ground (arith, fresh.old_cells))

  pub concat_behind-Makes :
      (l : ℕ) (old : Flags) (o' : ListItem)
      → SameList (h.items l) o'
      → a.flags.large ≡ true
      → a.offset + (a.length + b.length) ≤ a.capacity
      → apart a.buf (a.index + a.length) b.buf b.index b.length ≡ true
      → (h' : Heap) × (concat_behind a b
            (a.length + b.length)
            old
            (record h { items = update h.items l o' })
          ≡ some (h.item_count, h'))
        × Makes h
            (region a.buf (a.index + a.length) (a.index + a.length + b.length))
            (view h a ++ view h b)
            h.item_count
            h'
  unfolding concat_behind
  concat_behind-Makes l old o' same large room no_overlap = (
    h',
    runs,
    shared-Makes h (region a.buf (a.index + a.length) (a.index + a.length + b.length)) _
        (update h.items l o') n cells heap (λ k lt. SameList-update h.items l o' same k) inside
        (λ c i lt e. ground (arith, e))
        (read-copy_cells_after h.cells a.buf a.index b.buf b.index b.length a.length
          (a.index + a.length) refl),
  )
    where
      n : ListItem
      n = record {
        length = a.length + b.length;
        capacity = a.capacity;
        offset = a.offset;
        flags = record { large = true; used_head = old.used_head; used_tail = false };
        buf = a.buf;
        index = a.index;
      }

      inside : IsList h n
      inside = record {
        buf_lt = is_a.buf_lt;
        within = ground (arith, is_a.room);
        room = λ e. is_a.room large;
        small = λ e. ground arith;
      }

      cells : ℕ → ℕ → Handle
      cells = copy_cells h.cells a.buf (a.index + a.length) b.buf b.index b.length

      h₁ : Heap
      h₁ = record h {
        items = update (update h.items l o') h.item_count n;
        item_count = h.item_count + 1;
      }

      h' : Heap
      h' = record h₁ { cells = cells }

      runs :
          concat_behind a b (a.length + b.length) old (record h { items = update h.items l o' })
          ≡ some (h.item_count, h')
      runs = rw (
        update_self (update h.items l o') h.item_count n,
        memcpy-copies a.buf (a.index + a.length) b.buf b.index b.length h₁
            (omega (arith, inside.within)) is_b.within no_overlap,
      )

  pub concat_before-Makes :
      (l : ℕ) (old : Flags) (o' : ListItem)
      → SameList (h.items l) o'
      → b.flags.large ≡ true
      → a.length ≤ b.offset
      → apart b.buf (b.index - a.length) a.buf a.index a.length ≡ true
      → (h' : Heap) × (concat_before a b
            (a.length + b.length)
            old
            (record h { items = update h.items l o' })
          ≡ some (h.item_count, h'))
        × Makes h (region b.buf (b.index - a.length) b.index) (view h a ++ view h b) h.item_count h'
  unfolding concat_before
  concat_before-Makes l old o' same large room no_overlap = (
    h',
    runs,
    shared-Makes h (region b.buf (b.index - a.length) b.index) _ (update h.items l o') n cells heap
        (λ k lt. SameList-update h.items l o' same k) inside (λ c i lt e. ground (arith, e, before))
        fill,
  )
    where
      n : ListItem
      n = record {
        length = a.length + b.length;
        capacity = b.capacity;
        offset = b.offset - a.length;
        flags = record { large = true; used_head = false; used_tail = old.used_tail };
        buf = b.buf;
        index = b.index - a.length;
      }

      before : b.index - a.length + a.length ≡ b.index
      before = ground (arith, is_b.room)

      inside : IsList h n
      inside = record {
        buf_lt = is_b.buf_lt;
        within = ground (arith, is_b.within, before);
        room = λ e. ground (arith, is_b.room);
        small = λ e. ground arith;
      }

      cells : ℕ → ℕ → Handle
      cells = copy_cells h.cells b.buf (b.index - a.length + 0) a.buf a.index a.length

      h₁ : Heap
      h₁ = record h {
        items = update (update h.items l o') h.item_count n;
        item_count = h.item_count + 1;
      }

      h' : Heap
      h' = record h₁ { cells = cells }

      runs :
          concat_before a b (a.length + b.length) old (record h { items = update h.items l o' })
          ≡ some (h.item_count, h')
      runs = rw (
        update_self (update h.items l o') h.item_count n,
        memcpy-copies b.buf (b.index - a.length + 0) a.buf a.index a.length h₁
            (omega (arith, before, is_b.within)) is_a.within
            (ap (λ i. apart b.buf i a.buf a.index a.length) {x = b.index - a.length + 0}
                {y = b.index - a.length} (omega arith)
              ∙ no_overlap),
      )

      fill : read (cells b.buf) (b.index - a.length) (a.length + b.length) ≡ view h a ++ view h b
      fill =
          read-append (cells b.buf) (b.index - a.length) a.length b.length
          ∙ ap₂ ◌++◌
              (read-copy_cells h.cells b.buf (b.index - a.length + 0) a.buf a.index a.length
                (b.index - a.length) (omega arith))
              (read-congr _ _ b.length _ b.index λ k lt.
                ap (cells b.buf) {x = b.index - a.length + a.length + k} {y = b.index + k}
                  (omega (arith, before))
                ∙ kept k)
        where
          kept : (k : ℕ) → cells b.buf (b.index + k) ≡ h.cells b.buf (b.index + k)
          kept k = ground (arith, before)
