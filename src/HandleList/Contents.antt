-- ===== src/HandleList/Contents.antt =====
-- What a list holds, the invariant of the items, and what a command may change.
use reduct.Prelude.{
  ℕ, zero, suc, ◌+◌, ◌^◌, ◌≤◌, ◌<◌, ◌≡◌, refl, ap, ap₂, ◌∙◌, subst, Bool, true, false, ◌&&◌, List,
  [], ◌∷◌, ◌++◌, arith, ltb, leb, ◌==◌, length,
}
use native.Mathlib.Decide.{dec_lt}
use reduct.HandleList.Memory.{Handle, ListItem, Heap}

-- `n` cells from cell `i` on.
abbrev pub read : (ℕ → Handle) → ℕ → ℕ → List Handle
read f i zero = []
read f i (suc n) = f i ∷ read f (i + 1) n

pub read-congr :
    (f g : ℕ → Handle) (n i j : ℕ)
    → ((k : ℕ) → k < n → f (i + k) ≡ g (j + k))
    → read f i n ≡ read g j n
read-congr f g zero i j h = refl
read-congr f g (suc n) i j h =
    ap₂ ◌∷◌
      (ap f {x = i} {y = i + 0} (omega arith)
        ∙ h 0 (omega arith)
        ∙ ap g {x = j + 0} {y = j} (omega arith))
      (read-congr f g n (i + 1) (j + 1) λ k p.
        ap f {x = i + 1 + k} {y = i + suc k} (omega arith)
        ∙ h (suc k) (omega arith)
        ∙ ap g {x = j + suc k} {y = j + 1 + k} (omega arith))

pub read-append : (f : ℕ → Handle) (i n m : ℕ) → read f i (n + m) ≡ read f i n ++ read f (i + n) m
read-append f i zero m = ap₂ (read f) (at_start i) (no_more m)
  where
    at_start : (i : ℕ) → i ≡ i + 0
    at_start i = omega arith

    no_more : (m : ℕ) → 0 + m ≡ m
    no_more m = omega arith
read-append f i (suc n) m =
    ap (read f i) {x = suc n + m} {y = suc (n + m)} (omega arith)
    ∙ ap (◌∷◌ (f i)) (
        read-append f (i + 1) n m
        ∙ ap (λ j. read f (i + 1) n ++ read f j m) {x = i + 1 + n} {y = i + suc n} (omega arith))

pub length-read : (f : ℕ → Handle) (i n : ℕ) → length (read f i n) ≡ n
length-read f i zero = refl
length-read f i (suc n) = ap suc (length-read f (i + 1) n)

abbrev pub view : Heap → ListItem → List Handle
view h o = read (h.cells o.buf) o.index o.length

-- The elements of the list at address `l`.
abbrev pub contents : Heap → ℕ → List Handle
contents h l = view h (h.items l)

-- A list lies in its buffer. A small list has at most four elements; a large list knows the buffer's size and its own place in it.
pub record IsList (h : Heap) (o : ListItem) : Type 0 where
  pub buf_lt : o.buf < h.buffer_count
  pub within : o.index + o.length ≤ h.sizes o.buf
  pub room :
      o.flags.large ≡ true
      → (o.capacity ≡ h.sizes o.buf) × (o.offset ≡ o.index) × (o.capacity < 2 ^ 32)
  pub small : o.flags.large ≡ false → o.length ≤ 4

pub record IsHeap (h : Heap) : Type 0 where
  pub each : (k : ℕ) → k < h.item_count → IsList h (h.items k)

-- The same list, but perhaps for the flags that claim room.
pub record SameList (o o' : ListItem) : Type 0 where
  pub length : o'.length ≡ o.length
  pub capacity : o'.capacity ≡ o.capacity
  pub offset : o'.offset ≡ o.offset
  pub large : o'.flags.large ≡ o.flags.large
  pub buf : o'.buf ≡ o.buf
  pub index : o'.index ≡ o.index

-- The cells from `lo` up to `hi` of buffer `b`.
abbrev pub region : ℕ → ℕ → ℕ → ℕ → ℕ → Bool
region b lo hi c i = c == b && (leb lo i && ltb i hi)

-- From `h` to `h'` lists and buffers are kept, and of the cells that there were, only claimed ones
-- are written.
pub record Keeps (claimed : ℕ → ℕ → Bool) (h h' : Heap) : Type 0 where
  pub items_le : h.item_count ≤ h'.item_count
  pub buffers_le : h.buffer_count ≤ h'.buffer_count
  pub same_items : (k : ℕ) → k < h.item_count → SameList (h.items k) (h'.items k)
  pub same_sizes : (c : ℕ) → c < h.buffer_count → h'.sizes c ≡ h.sizes c
  pub same_cells : (c i : ℕ) → c < h.buffer_count → claimed c i ≡ false → h'.cells c i ≡ h.cells c i

SameList-read :
    (c : ℕ → ℕ → Handle) (o o' : ListItem)
    → SameList o o'
    → read (c o'.buf) o'.index o'.length ≡ read (c o.buf) o.index o.length
SameList-read c o o' same = rw (same.buf, same.index, same.length)

-- A list that covers no claimed cell keeps its elements.
pub Keeps-contents :
    (claimed : ℕ → ℕ → Bool) (h h' : Heap) (k : ℕ)
    → Keeps claimed h h'
    → IsHeap h
    → k < h.item_count
    → ((i : ℕ)
        → (h.items k).index ≤ i
        → i < (h.items k).index + (h.items k).length
        → claimed (h.items k).buf i ≡ false)
    → contents h' k ≡ contents h k
Keeps-contents claimed h h' k keeps heap lt free =
    let o = h.items k in
    SameList-read h'.cells o (h'.items k) (keeps.same_items k lt)
    ∙ read-congr (h'.cells o.buf) (h.cells o.buf) o.length o.index o.index λ i p.
      keeps.same_cells o.buf (o.index + i) ((heap.each k lt).buf_lt)
        (free (o.index + i) (omega arith) (omega arith))

pub IsList-Keeps :
    (claimed : ℕ → ℕ → Bool) (h h' : Heap) (o o' : ListItem)
    → Keeps claimed h h'
    → SameList o o'
    → IsList h o
    → IsList h' o'
IsList-Keeps claimed h h' o o' keeps same is = record {
  buf_lt = omega arith;
  within = ground (arith, keeps.same_sizes o.buf);
  room = λ e. ground (arith, keeps.same_sizes o.buf, is.room);
  small = λ e. ground (arith, is.small);
}

-- One more list that lies in its buffer keeps the invariant.
pub IsHeap-add :
    (claimed : ℕ → ℕ → Bool) (h h' : Heap)
    → Keeps claimed h h'
    → h'.item_count ≡ h.item_count + 1
    → IsList h' (h'.items h.item_count)
    → IsHeap h
    → IsHeap h'
IsHeap-add claimed h h' keeps count is heap = record {
  each = λ k p. elim (dec_lt k h.item_count) [
    | yes old ↦
        IsList-Keeps claimed h h' (h.items k) (h'.items k) keeps (keeps.same_items k old)
          (heap.each k old)
    | no new ↦ subst (λ j. IsList h' (h'.items j)) {x = h.item_count} {y = k} (omega arith) is
  ];
}
