-- ===== src/HandleList/Slice.antt =====
-- `reduct_list_slice`, which shares the buffer of a large list, and `reduct_list_new_handles`.
use reduct.Prelude.{
  ℕ, zero, suc, ◌+◌, ◌-◌, ◌*◌, ◌^◌, ◌≤◌, ◌<◌, ◌≡◌, refl, sym, ap, ap₂, ◌∙◌, subst, true, false,
  ◌&&◌, ◌||◌, some, List, [], ◌∷◌, arith, ltb, ◌==◌, Bool-cases, inl, inr, if◌then◌else◌, ◌⊎◌, take,
  drop,
}
use reduct.Prelude.Words.{u32}
use reduct.HandleList.Memory.{Handle, ListItem, Heap, M, after, pure, update, copy_cells, memcpy}
use reduct.HandleList.Contents.{read, contents, IsList, IsHeap}
use reduct.HandleList.New.{IsFresh, new_small-IsFresh, list_new-IsFresh}
use reduct.HandleList.Writes.{memcpy-copies, apart-fresh, read-copy_cells}
use reduct.HandleList.Makes.{
  nothing, Makes, Gives, Makes-Gives, same-Gives, SameList-refl, filled-Makes, shared-Makes,
  if_true, if_false,
}
use reduct.HandleList.{
  new_handles, Sliced, sliced, invalid_range, slice_shared, slice_copied, slice,
}

take-read : (f : ℕ → Handle) (i n m : ℕ) → n ≤ m → take n (read f i m) ≡ read f i n
take-read f i zero m le = refl
take-read f i (suc n) zero le = absurd (omega arith)
take-read f i (suc n) (suc m) le = ap (◌∷◌ (f i)) (take-read f (i + 1) n m (omega arith))

pub slice-read :
    (f : ℕ → Handle) (s i n m : ℕ) → s + n ≤ m → take n (drop s (read f i m)) ≡ read f (i + s) n
slice-read f zero i n m le =
    take-read f i n m (omega arith) ∙ ap (λ j. read f j n) {x = i} {y = i + 0} (omega arith)
slice-read f (suc s) i n zero le = absurd (omega arith)
slice-read f (suc s) i n (suc m) le =
    slice-read f s (i + 1) n m (omega arith)
    ∙ ap (λ j. read f j n) {x = i + 1 + s} {y = i + suc s} (omega arith)

module _ (h : Heap) (heap : IsHeap h) where
  -- A fresh list that handles of a buffer are copied into.
  copied-Makes :
      (m : ℕ) (h₁ : Heap) (src j n : ℕ)
      → IsFresh h n m h₁
      → src < h.buffer_count
      → j + n ≤ h.sizes src
      → (h' : Heap) × (memcpy (h₁.items m).buf (h₁.items m).index src j n h₁ ≡ some (tt, h'))
        × Makes h nothing (read (h.cells src) j n) m h'
  copied-Makes m h₁ src j n fresh lt le = (
    record h₁ { cells = copy_cells h₁.cells o.buf o.index src j n },
    memcpy-copies o.buf o.index src j n h₁ (omega (arith, fresh.is_list.within, fresh.has_length))
        (ground (arith, fresh.old_sizes src))
        (apart-fresh o.buf o.index src j n (omega (arith, fresh.new_buf, lt))),
    filled-Makes h n m h₁ fresh heap _ (copy_cells h₁.cells o.buf o.index src j n)
        (λ c i p. ground (arith, fresh.old_cells))
        (read-copy_cells h₁.cells o.buf o.index src j n o.index refl
          ∙ ap (λ c. read (c src) j n) fresh.old_cells),
  )
    where
      o : ListItem
      o = h₁.items m

  -- A list made of handles that lie in a buffer succeeds and holds them; nothing is written to
  -- the cells that there were.
  pub new_handles_lem :
      (count src j : ℕ)
      → src < h.buffer_count
      → j + count ≤ h.sizes src
      → 2 * count < 2 ^ 32
      → (m : ℕ) × (h' : Heap) × (new_handles count src j h ≡ some (m, h'))
        × Makes h nothing (read (h.cells src) j count) m h'
  unfolding new_handles
  new_handles_lem count src j lt le fits =
      let (m, h₁, made, fresh) = list_new-IsFresh count h fits in
      let (h', runs, makes) = copied-Makes m h₁ src j count fresh lt le in
      (m, h', rw (made, runs), makes)

  -- What a slice of a valid range gives.
  abbrev pub IsSlice : ℕ → (start end : ℕ) → M Sliced → Type 0
  IsSlice l start end run =
      (m : ℕ) × (h' : Heap) × (run h ≡ some (sliced m, h'))
      × Gives h nothing (take (end - start) (drop start (contents h l))) m h'

  made :
      (l start end : ℕ) (elems : List Handle) (run : M Sliced)
      → elems ≡ take (end - start) (drop start (contents h l))
      → (m : ℕ) × (h' : Heap) × (run h ≡ some (sliced m, h')) × Makes h nothing elems m h'
      → IsSlice l start end run
  made l start end elems run e (m, h', runs, makes) = (
    m,
    h',
    runs,
    subst (λ xs. Gives h nothing xs m h') e (Makes-Gives _ _ h h' _ m (λ c i p q. refl) makes),
  )

  slice_shared-Makes :
      (o : ListItem) (start end : ℕ)
      → IsList h o
      → o.flags.large ≡ true
      → start ≤ end
      → end ≤ o.length
      → (h' : Heap) × (slice_shared o start end h ≡ some (h.item_count, h'))
        × Makes h nothing (read (h.cells o.buf) (o.index + start) (end - start)) h.item_count h'
  unfolding slice_shared
  slice_shared-Makes o start end is large le le' = (
    record h { items = update h.items h.item_count n; item_count = h.item_count + 1 },
    refl,
    shared-Makes h nothing _ h.items n h.cells heap (λ k p. SameList-refl (h.items k)) inside
        (λ c i p q. refl) (ap (read (h.cells o.buf) (o.index + start)) fits),
  )
    where
      n : ListItem
      n = record {
        length = u32 (end - start);
        capacity = o.capacity;
        offset = u32 (o.offset + u32 start);
        flags = record {
          large = true;
          used_head = if ltb 0 start then true else o.flags.used_head;
          used_tail = if ltb end o.length then true else o.flags.used_tail;
        };
        buf = o.buf;
        index = o.index + start;
      }

      fits : u32 (end - start) ≡ end - start
      fits = ground (arith, is.within, is.room)

      inside : IsList h n
      inside = record {
        buf_lt = is.buf_lt;
        within = omega (arith, fits, is.within);
        room = λ e. ((is.room large).0, ground (arith, is.room), (is.room large).2);
        small = λ e. ground arith;
      }

  slice_copied-Makes :
      (o : ListItem) (start end : ℕ)
      → IsList h o
      → o.flags.large ≡ false
      → start ≤ end
      → end ≤ o.length
      → (m : ℕ) × (h' : Heap) × (slice_copied o start end h ≡ some (m, h'))
        × Makes h nothing (read (h.cells o.buf) (o.index + start) (end - start)) m h'
  unfolding slice_copied
  slice_copied-Makes o start end is small le le' =
      let few = is.small small in
      let (m, h₁, made, fresh) = new_small-IsFresh (end - start) h (omega arith) (omega arith) in
      let (h', runs, makes) =
        copied-Makes m h₁ o.buf (o.index + start) (end - start) fresh is.buf_lt
          (omega (arith, is.within)) in
      (m, h', rw (made, runs), makes)

  -- A slice is refused, and nothing changes, if the range is invalid. Otherwise it succeeds and
  -- gives a list of the elements in the range, and no cell that there was is written.
  pub slice_lem :
      (l start end : ℕ)
      → l < h.item_count
      → ((end < start ⊎ (h.items l).length < end)
          × (slice l start end h ≡ some (invalid_range start end (h.items l).length, h)))
        ⊎ ((start ≤ end) × (end ≤ (h.items l).length) × IsSlice l start end (slice l start end))
  unfolding slice
  slice_lem l start end lt = elim (Bool-cases (ltb end start || ltb o.length end)) [
    | inl bad ↦ inl (refused bad, rw bad)
    | inr good ↦
        let le : start ≤ end = ground (arith, good) in
        let le' : end ≤ o.length = ground (arith, good) in inr (le, le', inside le le' good)
  ]
    where
      o : ListItem
      o = h.items l

      elems :
          start ≤ end
          → end ≤ o.length
          → read (h.cells o.buf) (o.index + start) (end - start)
            ≡ take (end - start) (drop start (contents h l))
      elems le le' =
          sym (slice-read (h.cells o.buf) start o.index (end - start) o.length (omega arith))

      refused : ltb end start || ltb o.length end ≡ true → (end < start) ⊎ (o.length < end)
      refused bad = elim (Bool-cases (ltb end start)) [
        | inl e ↦ inl (ground (arith, e))
        | inr e ↦ inr (ground (arith, bad, e))
      ]

      inside :
          start ≤ end
          → end ≤ o.length
          → (ltb end start || ltb o.length end) ≡ false
          → IsSlice l start end (slice l start end)
      inside le le' good = elim (Bool-cases (end - start == 0)) [
        | inl none_left ↦
            let (m, h₁, new_eq, fresh) = list_new-IsFresh 0 h (omega arith) in
            made l start end [] (slice l start end)
              (ap (read (h.cells o.buf) (o.index + start)) {x = 0} (ground (arith, none_left))
                ∙ elems le le')
              (
                m,
                h₁,
                rw (good, none_left, new_eq),
                filled-Makes h 0 m h₁ fresh heap [] h₁.cells
                    (λ c i p. ground (arith, fresh.old_cells)) refl,
              )
        | inr some_left ↦ elim (Bool-cases (start == 0 && end == o.length)) [
          | inl all ↦ (
            l,
            h,
            rw (good, some_left, all),
            same-Gives _ h l _ heap lt (
                ap₂ (read (h.cells o.buf)) {x = o.index} (ground (arith, all)) (ground (arith, all))
                ∙ elems le le'),
          )
          | inr part ↦ elim (Bool-cases o.flags.large) [
            | inl large ↦
                let (h', runs, makes) =
                  slice_shared-Makes o start end (heap.each l lt) large le le' in
                made l start end _ (slice l start end) (elems le le') (
                  h.item_count,
                  h',
                  rw (good, some_left, part)
                      (if_true _ _ _ _ large ∙ ap (λ x. after x (λ m. pure (sliced m))) runs),
                  makes,
                )
            | inr small ↦
                let (m, h', runs, makes) =
                  slice_copied-Makes o start end (heap.each l lt) small le le' in
                made l start end _ (slice l start end) (elems le le') (
                  m,
                  h',
                  rw (good, some_left, part)
                      (if_false _ _ _ _ small ∙ ap (λ x. after x (λ m. pure (sliced m))) runs),
                  makes,
                )
          ]
        ]
      ]
