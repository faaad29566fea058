-- ===== src/Atoms/Keeps.antt =====
-- Storing and removing atoms keeps every atom where searches find it.
use reduct.Prelude.{
  ℕ, ◌<◌, ◌^◌, ◌≡◌, ◌≢◌, sym, ◌∙◌, ap, subst, inl, inr, ◌⊎◌, true, false, ◌==◌, ==_iff, Bool-cases,
  Option, none, some, arith,
}
use reduct.Collector.Sweep.{Slot, empty, tombstone, alive, write}
use reduct.Collector.Swept.{write_self, write_other}
use reduct.Atoms.Map.{Atom, Table, Key, matches, map_find, intern, leave_slot}
use reduct.Atoms.Finds.{slot_at, IsTable, OnPath, IsPlaced, HasMatch, Finds, map_find-Finds}

OnPath-kept :
    (k hash i : ℕ) (t t' : Table)
    → ((j : ℕ) → t.map j ≢ empty → t'.map j ≢ empty)
    → OnPath k t hash i
    → OnPath k t' hash i
OnPath-kept k hash i t t' full (n, (there, before)) =
    (n, (there, λ j below. full (slot_at k hash j) (before j below)))

-- A write of what is not empty.
full_write :
    (map : ℕ → Slot) (i : ℕ) (s : Slot)
    → s ≢ empty
    → (j : ℕ) → map j ≢ empty
    → write map i s j ≢ empty
full_write map i s full j before e = elim (Bool-cases (j == i)) [
  | inl same ↦ full (sym (write_self map i s) ∙ ap (write map i s) (sym ((==_iff j i).0 same)) ∙ e)
  | inr other ↦ before (sym (write_other map i s j (λ same. apart j i same other)) ∙ e)
]
  where
    apart : (j i : ℕ) → j ≡ i → (j == i) ≡ false → ⊥
    apart j i same other = ground arith

-- What a written map has alive.
alive_write :
    (map : ℕ → Slot) (i : ℕ) (s : Slot) (j q : ℕ)
    → write map i s j ≡ alive q
    → ((j ≡ i) × (s ≡ alive q)) ⊎ ((j ≢ i) × (map j ≡ alive q))
alive_write map i s j q e = elim (Bool-cases (j == i)) [
  | inl same ↦
      let here = (==_iff j i).0 same in
      inl (here, sym (write_self map i s) ∙ ap (write map i s) (sym here) ∙ e)
  | inr other ↦
      let away = λ (same : j ≡ i). apart j i same other in
      inr (away, sym (write_other map i s j away) ∙ e)
]
  where
    apart : (j i : ℕ) → j ≡ i → (j == i) ≡ false → ⊥
    apart j i same other = ground arith

module _ (k : ℕ) (t : Table) (placed : IsPlaced k t) where
  -- An atom that is nowhere in the table, stored at a slot on the path of its hash.
  pub intern-IsPlaced :
      (p i hash : ℕ)
      → OnPath k t hash i
      → ((j : ℕ) → t.map j ≢ alive p)
      → IsPlaced k (intern t p i hash)
  unfolding intern
  intern-IsPlaced p i hash path fresh j q e = elim (alive_write t.map i (alive p) j q e) [
    | inl (here, same) ↦ rw here (
        subst (λ h. OnPath k (intern t p i hash) h i) (stored q same)
          (OnPath-kept k hash i t (intern t p i hash) kept path))
    | inr (away, old) ↦
        subst (λ h. OnPath k (intern t p i hash) h j) (unchanged q old)
          (OnPath-kept k (t.atoms q).hash j t (intern t p i hash) kept (placed j q old))
  ]
    where
      kept : (l : ℕ) → t.map l ≢ empty → (intern t p i hash).map l ≢ empty
      kept = full_write t.map i (alive p) (λ e. alive_empty e)
        where
          alive_empty : alive p ≡ empty → ⊥
          alive_empty e = cc

      written : Atom
      written = record (t.atoms p) { hash = hash; index = some i }

      alive_same : (q : ℕ) → alive p ≡ alive q → p ≡ q
      alive_same q e = cc

      stored : (q : ℕ) → alive p ≡ alive q → hash ≡ (write t.atoms p written q).hash
      stored q same =
          ap (λ a. a.hash) (sym (write_self t.atoms p written))
          ∙ ap (λ r. (write t.atoms p written r).hash) (alive_same q same)

      unchanged : (q : ℕ) → t.map j ≡ alive q → (t.atoms q).hash ≡ (write t.atoms p written q).hash
      unchanged q old =
          ap (λ a. a.hash) (sym (write_other t.atoms p written q (λ e. fresh j (old ∙ ap alive e))))

  -- A slot that becomes a tombstone.
  pub leave_slot-IsPlaced : (o : Option ℕ) → IsPlaced k (leave_slot t o)
  unfolding leave_slot
  leave_slot-IsPlaced none j q e = placed j q e
  leave_slot-IsPlaced (some i) j q e = elim (alive_write t.map i tombstone j q e) [
    | inl (here, same) ↦ absurd (tombstone_alive q same)
    | inr (away, old) ↦
        OnPath-kept k (t.atoms q).hash j t (leave_slot t (some i))
          (full_write t.map i tombstone (λ e. tombstone_empty e)) (placed j q old)
  ]
    where
      tombstone_alive : (q : ℕ) → tombstone ≡ alive q → ⊥
      tombstone_alive q e = cc

      tombstone_empty : tombstone ≡ empty → ⊥
      tombstone_empty e = cc

-- An atom that is stored where the search for its key ended is found by the next search for that key,
-- while a slot is empty: the atom that it finds has the same hash, string and quotation.
pub intern-found :
    (k : ℕ) (t : Table) (key : Key) (p i slot : ℕ)
    → IsTable k t
    → IsPlaced k t
    → Finds k t key i
    → ((j : ℕ) → t.map j ≢ alive p)
    → matches key (record (t.atoms p) { hash = key.hash; index = some i }) ≡ true
    → slot < 2 ^ k
    → (intern t p i key.hash).map slot ≡ empty
    → (j : ℕ) × (map_find (intern t p i key.hash) key ≡ some j)
      × HasMatch (intern t p i key.hash) key j
unfolding intern
intern-found k t key p i slot table placed finds fresh same below gone =
    let (j, e, found) =
      map_find-Finds k (intern t p i key.hash) key
        (record { capacity = table.capacity; mask = table.mask })
        (intern-IsPlaced k t placed p i key.hash finds.path fresh) slot below gone in
    (
      j,
      e,
      found.complete i (p, (write_self t.map i (alive p), rw (write_self t.atoms p written) same)),
    )
  where
    written : Atom
    written = record (t.atoms p) { hash = key.hash; index = some i }
