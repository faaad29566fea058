-- ===== src/HandleList/Writes.antt =====
-- Writes inside a buffer, and what the cells hold after them.
use reduct.Prelude.{ℕ, suc, ◌+◌, ◌≤◌, ◌<◌, ◌≡◌, ap, ap₂, ◌∙◌, true, some, [], ◌∷◌, ◌++◌, arith}
use reduct.HandleList.Memory.{Handle, Heap, write_cells, copy_cells, store, apart, memcpy}
use reduct.HandleList.Contents.{read, read-congr, read-append}

module _ (b i : ℕ) (v : Handle) (h : Heap) where
  pub store-writes :
      i < h.sizes b → store b i v h ≡ some (tt, record h { cells = write_cells h.cells b i v })
  unfolding store
  store-writes lt = ground arith

module _ (dst i src j n : ℕ) (h : Heap) where
  pub memcpy-copies :
      i + n ≤ h.sizes dst
      → j + n ≤ h.sizes src
      → apart dst i src j n ≡ true
      → memcpy dst i src j n h ≡ some (tt, record h { cells = copy_cells h.cells dst i src j n })
  unfolding memcpy
  memcpy-copies le le' no_overlap = ground arith

pub apart-fresh : (dst i src j n : ℕ) → src < dst → apart dst i src j n ≡ true
apart-fresh dst i src j n lt = ground arith

module _ (c : ℕ → ℕ → Handle) where
  pub read-write_cells :
      (b i n : ℕ) (v : Handle)
      → read (write_cells c b (i + n) v b) i (n + 1) ≡ read (c b) i n ++ v ∷ []
  read-write_cells b i n v =
      read-append (write_cells c b (i + n) v b) i n 1
      ∙ ap₂ ◌++◌ (read-congr _ _ n i i λ k lt. ground arith) (ap (λ w. w ∷ []) (ground arith))

  pub read-write_cells_front :
      (b i n : ℕ) (v : Handle) → read (write_cells c b i v b) i (n + 1) ≡ v ∷ read (c b) (i + 1) n
  read-write_cells_front b i n v =
      ap (read (write_cells c b i v b) i) {x = n + 1} {y = suc n} (omega arith)
      ∙ ap₂ ◌∷◌ (ground arith) (read-congr _ _ n (i + 1) (i + 1) λ k lt. ground arith)

  pub read-copy_cells :
      (dst k src j n i : ℕ) → i ≡ k → read (copy_cells c dst k src j n dst) i n ≡ read (c src) j n
  read-copy_cells dst k src j n i e = read-congr _ _ n i j λ x lt. ground arith

  pub read-copy_cells_after :
      (dst i src j n m k : ℕ)
      → i + m ≡ k
      → read (copy_cells c dst k src j n dst) i (m + n) ≡ read (c dst) i m ++ read (c src) j n
  read-copy_cells_after dst i src j n m k e =
      read-append (copy_cells c dst k src j n dst) i m n
      ∙ ap₂ ◌++◌ (read-congr _ _ m i i λ x lt. ground arith) (
          read-congr _ _ n (i + m) j λ x lt.
            ap (copy_cells c dst k src j n dst) {x = i + m + x} {y = k + x} (omega arith)
            ∙ copied x lt)
    where
      copied : (x : ℕ) → x < n → copy_cells c dst k src j n dst (k + x) ≡ c src (j + x)
      copied x lt = ground arith
