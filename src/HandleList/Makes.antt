-- ===== src/HandleList/Makes.antt =====
-- What it is to make a list: in a buffer of its own, or over the buffer of another list.
use reduct.Prelude.{
  ℕ, ◌+◌, ◌<◌, ◌≡◌, refl, sym, ap, ◌∙◌, subst, Bool, true, false, List, arith, ◌==◌, Bool-cases,
  inl, inr, if◌then◌else◌, not,
}
use reduct.HandleList.Memory.{Handle, ListItem, Heap, M, update}
use reduct.HandleList.Contents.{read, contents, IsList, IsHeap, SameList, Keeps, IsHeap-add}
use reduct.HandleList.New.{IsFresh, update_self, update_ne}

abbrev pub nothing : ℕ → ℕ → Bool
nothing c i = false

-- `h'` is `h` with a list `m` made, that holds `elems`; of the cells in `h` only claimed ones
-- are written.
pub record Makes (h : Heap) (claimed : ℕ → ℕ → Bool) (elems : List Handle) (m : ℕ) (h' : Heap)
    : Type 0 where
  pub is_heap : IsHeap h'
  pub count : h'.item_count ≡ h.item_count + 1
  pub address : m ≡ h.item_count
  pub holds : contents h' m ≡ elems
  pub keeps : Keeps claimed h h'

-- As `Makes`, but the list may be one that there was.
pub record Gives (h : Heap) (claimed : ℕ → ℕ → Bool) (elems : List Handle) (m : ℕ) (h' : Heap)
    : Type 0 where
  pub is_heap : IsHeap h'
  pub address : m < h'.item_count
  pub holds : contents h' m ≡ elems
  pub keeps : Keeps claimed h h'

pub SameList-refl : (o : ListItem) → SameList o o
SameList-refl o = record {
  length = refl;
  capacity = refl;
  offset = refl;
  large = refl;
  buf = refl;
  index = refl;
}

pub same_but_tail :
    (o : ListItem) → SameList o (record o { flags = record o.flags { used_tail = true } })
same_but_tail o = record {
  length = refl;
  capacity = refl;
  offset = refl;
  large = refl;
  buf = refl;
  index = refl;
}

pub same_but_head :
    (o : ListItem) → SameList o (record o { flags = record o.flags { used_head = true } })
same_but_head o = record {
  length = refl;
  capacity = refl;
  offset = refl;
  large = refl;
  buf = refl;
  index = refl;
}

pub if_unused :
    {A : Type 0}
    → (used : Bool) (m k : M A) (h : Heap) → used ≡ false
    → (if not used then m else k) h ≡ m h
if_unused used m k h e = ap (λ b. (if not b then m else k) h) e

pub if_true :
    {A : Type 0} → (b : Bool) (m k : M A) (h : Heap) → b ≡ true → (if b then m else k) h ≡ m h
if_true b m k h e = ap (λ c. (if c then m else k) h) e

pub if_false :
    {A : Type 0} → (b : Bool) (m k : M A) (h : Heap) → b ≡ false → (if b then m else k) h ≡ k h
if_false b m k h e = ap (λ c. (if c then m else k) h) e

-- An item with a flag set is the same list.
pub SameList-update :
    (items : ℕ → ListItem) (l : ℕ) (o : ListItem)
    → SameList (items l) o
    → (k : ℕ) → SameList (items k) (update items l o k)
SameList-update items l o same k = elim (Bool-cases (k == l)) [
  | inl e ↦
      subst (SameList (items k)) (sym (ap (λ b. if b then o else items k) e))
        (subst (λ j. SameList (items j) o) {x = l} {y = k} (ground (arith, e)) same)
  | inr e ↦
      subst (SameList (items k)) (sym (ap (λ b. if b then o else items k) e))
        (SameList-refl (items k))
]

-- Claiming more is claiming less exactly.
pub Keeps-weaken :
    (claimed more : ℕ → ℕ → Bool) (h h' : Heap)
    → ((c i : ℕ) → c < h.buffer_count → more c i ≡ false → claimed c i ≡ false)
    → Keeps claimed h h'
    → Keeps more h h'
Keeps-weaken claimed more h h' sub keeps = record {
  items_le = keeps.items_le;
  buffers_le = keeps.buffers_le;
  same_items = keeps.same_items;
  same_sizes = keeps.same_sizes;
  same_cells = λ c i lt e. keeps.same_cells c i lt (sub c i lt e);
}

pub Makes-weaken :
    (claimed more : ℕ → ℕ → Bool) (h h' : Heap) (elems : List Handle) (m : ℕ)
    → ((c i : ℕ) → c < h.buffer_count → more c i ≡ false → claimed c i ≡ false)
    → Makes h claimed elems m h'
    → Makes h more elems m h'
Makes-weaken claimed more h h' elems m sub makes = record {
  is_heap = makes.is_heap;
  count = makes.count;
  address = makes.address;
  holds = makes.holds;
  keeps = Keeps-weaken claimed more h h' sub makes.keeps;
}

pub Makes-Gives :
    (claimed more : ℕ → ℕ → Bool) (h h' : Heap) (elems : List Handle) (m : ℕ)
    → ((c i : ℕ) → c < h.buffer_count → more c i ≡ false → claimed c i ≡ false)
    → Makes h claimed elems m h'
    → Gives h more elems m h'
Makes-Gives claimed more h h' elems m sub makes = record {
  is_heap = makes.is_heap;
  address = omega (arith, makes.count, makes.address);
  holds = makes.holds;
  keeps = Keeps-weaken claimed more h h' sub makes.keeps;
}

-- A list that there was, as it was.
pub same-Gives :
    (claimed : ℕ → ℕ → Bool) (h : Heap) (m : ℕ) (elems : List Handle)
    → IsHeap h
    → m < h.item_count
    → contents h m ≡ elems
    → Gives h claimed elems m h
same-Gives claimed h m elems heap lt e = record {
  is_heap = heap;
  address = lt;
  holds = e;
  keeps = record {
    items_le = omega arith;
    buffers_le = omega arith;
    same_items = λ k p. SameList-refl (h.items k);
    same_sizes = λ c p. refl;
    same_cells = λ c i p q. refl;
  };
}

module _ (h : Heap) (len : ℕ) (m : ℕ) (h₁ : Heap) (fresh : IsFresh h len m h₁)
    (heap : IsHeap h) where
  -- A fresh list whose cells are then filled.
  pub filled-Makes :
      (elems : List Handle) (cells : ℕ → ℕ → Handle)
      → ((c i : ℕ) → c < h.buffer_count → cells c i ≡ h.cells c i)
      → read (cells (h₁.items m).buf) (h₁.items m).index len ≡ elems
      → Makes h nothing elems m (record h₁ { cells = cells })
  filled-Makes elems cells old fill = record {
    is_heap = IsHeap-add nothing h h' keeps fresh.count is heap;
    count = fresh.count;
    address = fresh.at_end;
    holds = ap (read (cells (h₁.items m).buf) (h₁.items m).index) fresh.has_length ∙ fill;
    keeps = keeps;
  }
    where
      h' : Heap
      h' = record h₁ { cells = cells }

      keeps : Keeps nothing h h'
      keeps = record {
        items_le = omega (arith, fresh.count);
        buffers_le = omega (arith, fresh.buffers);
        same_items = λ k lt.
            subst (SameList (h.items k)) (sym (fresh.old_items k lt)) (SameList-refl (h.items k));
        same_sizes = fresh.old_sizes;
        same_cells = λ c i lt e. old c i lt;
      }

      is : IsList h' (h'.items h.item_count)
      is =
          subst (λ k. IsList h' (h'.items k)) fresh.at_end
            (record {
              buf_lt = fresh.is_list.buf_lt;
              within = fresh.is_list.within;
              room = fresh.is_list.room;
              small = fresh.is_list.small;
            })

-- A list over a buffer that there is.
pub shared-Makes :
    (h : Heap) (claimed : ℕ → ℕ → Bool) (elems : List Handle) (items : ℕ → ListItem) (o : ListItem)
    (cells : ℕ → ℕ → Handle)
    → IsHeap h
    → ((k : ℕ) → k < h.item_count → SameList (h.items k) (items k))
    → IsList h o
    → ((c i : ℕ) → c < h.buffer_count → claimed c i ≡ false → cells c i ≡ h.cells c i)
    → read (cells o.buf) o.index o.length ≡ elems
    → Makes h claimed elems h.item_count (record h {
      items = update items h.item_count o;
      item_count = h.item_count + 1;
      cells = cells;
    })
shared-Makes h claimed elems items o cells heap same is old fill = record {
  is_heap = IsHeap-add claimed h h' keeps refl is' heap;
  count = refl;
  address = refl;
  holds = ap (λ n. read (cells n.buf) n.index n.length) here ∙ fill;
  keeps = keeps;
}
  where
    h' : Heap
    h' = record h {
      items = update items h.item_count o;
      item_count = h.item_count + 1;
      cells = cells;
    }

    here : update items h.item_count o h.item_count ≡ o
    here = update_self items h.item_count o

    keeps : Keeps claimed h h'
    keeps = record {
      items_le = omega arith;
      buffers_le = omega arith;
      same_items = λ k lt.
          subst (SameList (h.items k)) (sym (update_ne items h.item_count o k lt)) (same k lt);
      same_sizes = λ c lt. refl;
      same_cells = old;
    }

    is' : IsList h' (h'.items h.item_count)
    is' =
        subst (IsList h') (sym here)
          (record { buf_lt = is.buf_lt; within = is.within; room = is.room; small = is.small })
