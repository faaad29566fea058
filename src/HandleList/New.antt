-- ===== src/HandleList/New.antt =====
-- The item and the buffer of a new list.
use reduct.Prelude.{
  ℕ, ◌+◌, ◌*◌, ◌^◌, ◌≤◌, ◌<◌, ◌≡◌, refl, sym, ap, ◌∙◌, subst, true, false, some, arith, leb,
  Bool-cases, inl, inr,
}
use reduct.Prelude.Words.{u32}
use reduct.HandleList.Memory.{flags_none, ListItem, Heap, update}
use reduct.HandleList.Contents.{IsList}
use reduct.HandleList.{new_small, new_large, list_new, large_capacity, large_headroom}

-- `h'` is `h` with list `m` added, of `len` elements, in a buffer that `h` does not have.
pub record IsFresh (h : Heap) (len : ℕ) (m : ℕ) (h' : Heap) : Type 0 where
  pub at_end : m ≡ h.item_count
  pub count : h'.item_count ≡ h.item_count + 1
  pub buffers : h'.buffer_count ≡ h.buffer_count + 1
  pub has_length : (h'.items m).length ≡ len
  pub new_buf : (h'.items m).buf ≡ h.buffer_count
  pub is_list : IsList h' (h'.items m)
  pub old_items : (k : ℕ) → k < h.item_count → h'.items k ≡ h.items k
  pub old_sizes : (c : ℕ) → c < h.buffer_count → h'.sizes c ≡ h.sizes c
  pub old_cells : h'.cells ≡ h.cells

pub update_self {ℓ} : {A : Type ℓ} → (f : ℕ → A) (i : ℕ) (v : A) → update f i v i ≡ v
update_self f i v = ground arith

pub update_ne {ℓ} :
    {A : Type ℓ} → (f : ℕ → A) (i : ℕ) (v : A) (j : ℕ) → j < i → update f i v j ≡ f j
update_ne f i v j lt = ground arith

abbrev added : Heap → ListItem → ℕ → Heap
added h o size = record h {
  items = update h.items h.item_count o;
  item_count = h.item_count + 1;
  sizes = update h.sizes h.buffer_count size;
  buffer_count = h.buffer_count + 1;
}

added-IsFresh :
    (h : Heap) (o : ListItem) (len size : ℕ)
    → o.buf ≡ h.buffer_count
    → o.length ≡ len
    → o.index + len ≤ size
    → (o.flags.large ≡ true → (o.capacity ≡ size) × (o.offset ≡ o.index) × (o.capacity < 2 ^ 32))
    → (o.flags.large ≡ false → len ≤ 4)
    → IsFresh h len h.item_count (added h o size)
added-IsFresh h o len size at_new is_len within room small = record {
  at_end = refl;
  count = refl;
  buffers = refl;
  has_length = ap ListItem.length here ∙ is_len;
  new_buf = ap ListItem.buf here ∙ at_new;
  is_list = subst (IsList (added h o size)) (sym here) (record {
    buf_lt = omega (arith, at_new);
    within = omega (arith, size_here, is_len);
    room = λ large. ((room large).0 ∙ sym size_here, (room large).1, (room large).2);
    small = λ e. omega (arith, is_len, small e);
  });
  old_items = update_ne h.items h.item_count o;
  old_sizes = update_ne h.sizes h.buffer_count size;
  old_cells = refl;
}
  where
    here : update h.items h.item_count o h.item_count ≡ o
    here = update_self h.items h.item_count o

    size_here : update h.sizes h.buffer_count size o.buf ≡ size
    size_here =
        ap (update h.sizes h.buffer_count size) at_new ∙ update_self h.sizes h.buffer_count size

module _ (len : ℕ) (h : Heap) (fits : 2 * len < 2 ^ 32) where
  pub new_small-IsFresh :
      len ≤ 4 → (m : ℕ) × (h' : Heap) × (new_small len h ≡ some (m, h')) × IsFresh h len m h'
  unfolding new_small
  new_small-IsFresh small = (
    h.item_count,
    added h o 4,
    refl,
    added-IsFresh h o len 4 refl (ground arith) (omega arith) (λ e. ground arith) (λ e. small),
  )
    where
      o : ListItem
      o = record {
        length = u32 len;
        capacity = 4;
        offset = 0;
        flags = flags_none;
        buf = h.buffer_count;
        index = 0;
      }

  pub new_large-IsFresh :
      (m : ℕ) × (h' : Heap) × (new_large len h ≡ some (m, h')) × IsFresh h len m h'
  unfolding new_large
  new_large-IsFresh = (
    h.item_count,
    added h o (large_capacity len),
    refl,
    added-IsFresh h o len (large_capacity len) refl (ground arith) (ground arith)
        (λ e. (ground arith, ground arith, ground arith)) (λ e. ground arith),
  )
    where
      o : ListItem
      o = record {
        length = u32 len;
        capacity = u32 (large_capacity len);
        offset = u32 (large_headroom len);
        flags = record flags_none { large = true };
        buf = h.buffer_count;
        index = large_headroom len;
      }

  pub list_new-IsFresh :
      (m : ℕ) × (h' : Heap) × (list_new len h ≡ some (m, h')) × IsFresh h len m h'
  unfolding list_new
  list_new-IsFresh = elim (Bool-cases (leb len 4)) [
    | inl e ↦ rw e (new_small-IsFresh (ground arith))
    | inr e ↦ rw e (new_large-IsFresh)
  ]
