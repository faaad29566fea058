-- ===== src/Atoms/Finds.antt =====
-- What a search of the map finds, in a table whose atoms stand where searches for them come by.
use reduct.Prelude.{
  ℕ, zero, suc, ◌+◌, ◌*◌, ◌/◌, ◌%◌, ◌^◌, ◌≤◌, ◌<◌, ◌≡◌, ◌≢◌, refl, sym, ◌∙◌, ap, subst, inl, inr,
  ◌⊎◌, true, false, ◌==◌, ltb, ltb→lt, ==_iff, ap₂, Bool-cases, Option, none, some, bit_and, arith,
}
use reduct.Prelude.Words.{low_mask, bit_and-low_mask}
use native.Mathlib.Nat.{add-mul-mod_self_left, div-add-mod}
use reduct.Collector.Sweep.{Slot, empty, tombstone, alive}
use reduct.Atoms.Probes.{triangular, visits}
use reduct.Atoms.Map.{Atom, Table, Key, matches, first_of, probe_slot, probe, map_find}

Slot-cases : (s : Slot) → (s ≡ empty) ⊎ ((s ≡ tombstone) ⊎ ((p : ℕ) × (s ≡ alive p)))
Slot-cases empty = inl refl
Slot-cases tombstone = inr (inl refl)
Slot-cases (alive p) = inr (inr (p, refl))

-- The slot of round `n` of a search for a hash, among 2^k.
unfoldable pub slot_at : ℕ → ℕ → ℕ → ℕ
slot_at k hash n = (hash + triangular n) % 2 ^ k

-- The next round's slot, as the loop computes it.
slot_at-suc :
    (k hash n : ℕ) → bit_and (slot_at k hash n + suc n) (low_mask k) ≡ slot_at k hash (suc n)
unfolding slot_at triangular
slot_at-suc k hash n =
    bit_and-low_mask k ((hash + triangular n) % 2 ^ k + suc n)
    ∙ sym (
        add-mul-mod_self_left ((hash + triangular n) % 2 ^ k + suc n) (2 ^ k)
          ((hash + triangular n) / 2 ^ k))
    ∙ ap (λ (t : ℕ). t % 2 ^ k)
        {x = (hash + triangular n) % 2 ^ k + suc n + 2 ^ k * ((hash + triangular n) / 2 ^ k)}
        {y = hash + (triangular n + suc n)}
        (omega (arith, div-add-mod (hash + triangular n) (2 ^ k)))

slot_at-zero : (k hash : ℕ) → bit_and hash (low_mask k) ≡ slot_at k hash 0
unfolding slot_at triangular
slot_at-zero k hash =
    bit_and-low_mask k hash ∙ ap (λ (t : ℕ). t % 2 ^ k) {x = hash} {y = hash + 0} (omega arith)

-- A table of 2^k slots.
pub record IsTable (k : ℕ) (t : Table) : Type 0 where
  pub capacity : t.capacity ≡ 2 ^ k
  pub mask : t.mask ≡ low_mask k

-- A search for the hash comes by the slot before it ends.
abbrev pub OnPath : ℕ → Table → ℕ → ℕ → Type 0
OnPath k t hash i =
    (n : ℕ) × ((slot_at k hash n ≡ i) × ((j : ℕ) → j < n → t.map (slot_at k hash j) ≢ empty))

-- Each atom of the table stands on the path of its hash.
abbrev pub IsPlaced : ℕ → Table → Type 0
IsPlaced k t = (i p : ℕ) → t.map i ≡ alive p → OnPath k t (t.atoms p).hash i

abbrev pub HasMatch : Table → Key → ℕ → Type 0
HasMatch t key i = (p : ℕ) × ((t.map i ≡ alive p) × (matches key (t.atoms p) ≡ true))

-- The slot that a search gives: it is on the path of the hash; it has an atom that matches, or none;
-- and it has one when the table has.
pub record Finds (k : ℕ) (t : Table) (key : Key) (i : ℕ) : Type 0 where
  pub path : OnPath k t key.hash i
  pub match_or_free : HasMatch t key i ⊎ ((p : ℕ) → t.map i ≢ alive p)
  pub complete : (j : ℕ) → HasMatch t key j → HasMatch t key i

matches_hash : (key : Key) (a : Atom) → matches key a ≡ true → a.hash ≡ key.hash
unfolding matches
matches_hash key a e = ground arith

module _ (k : ℕ) (t : Table) (key : Key) (table : IsTable k t) (placed : IsPlaced k t) where
  abbrev at : ℕ → Slot
  at n = t.map (slot_at k key.hash n)

  -- The rounds so far have met neither an empty slot nor a match.
  abbrev Clear : ℕ → Type 0
  Clear n = (j : ℕ) → j < n → (at j ≢ empty) × (HasMatch t key (slot_at k key.hash j) → ⊥)

  abbrev Tomb : ℕ → Option ℕ → Type 0
  Tomb n none = Unit
  Tomb n (some i) = (j : ℕ) × ((j < n) × ((slot_at k key.hash j ≡ i) × (t.map i ≡ tombstone)))

  -- With the first empty slot at round `n`, there is no match.
  no_match : (n : ℕ) → at n ≡ empty → Clear n → (j : ℕ) → HasMatch t key j → ⊥
  no_match n gone clear j (p, (here, same)) =
      let (m, (at_m, before)) =
        subst (λ h. OnPath k t h j) (matches_hash key (t.atoms p) same) (placed j p here) in
      elim (Bool-cases (ltb m n)) [
        | inl e ↦ (clear m (ltb→lt m n e)).1 (subst (HasMatch t key) (sym at_m) (p, (here, same)))
        | inr e ↦ elim (Bool-cases (ltb n m)) [
          | inl e' ↦ before n (ltb→lt n m e') gone
          | inr e' ↦
              alive_empty p
                (sym here ∙ ap t.map (sym at_m) ∙ ap at {x = m} {y = n} (ground arith) ∙ gone)
        ]
      ]
    where
      alive_empty : (p : ℕ) → alive p ≡ empty → ⊥
      alive_empty p e = cc

  -- The end of the search at an empty slot.
  ends_free :
      (n : ℕ) (tomb : Option ℕ)
      → at n ≡ empty
      → Clear n
      → Tomb n tomb
      → Finds k t key (first_of tomb (slot_at k key.hash n))
  unfolding first_of
  ends_free n none gone clear tt = record {
    path = (n, (refl, λ j below. (clear j below).0));
    match_or_free = inr (λ p e. empty_alive p (sym gone ∙ e));
    complete = λ j m. absurd (no_match n gone clear j m);
  }
    where
      empty_alive : (p : ℕ) → empty ≡ alive p → ⊥
      empty_alive p e = cc
  ends_free n (some i) gone clear (j, (below, (same, tomb))) = record {
    path = (j, (same, λ l less. (clear l (omega arith)).0));
    match_or_free = inr (λ p e. tombstone_alive p (sym tomb ∙ e));
    complete = λ j m. absurd (no_match n gone clear j m);
  }
    where
      tombstone_alive : (p : ℕ) → tombstone ≡ alive p → ⊥
      tombstone_alive p e = cc

  next_index : (n : ℕ) → bit_and (slot_at k key.hash n + suc n) t.mask ≡ slot_at k key.hash (suc n)
  next_index n = ap (bit_and (slot_at k key.hash n + suc n)) table.mask ∙ slot_at-suc k key.hash n

  Clear-suc :
      (n : ℕ) → Clear n → at n ≢ empty → (HasMatch t key (slot_at k key.hash n) → ⊥) → Clear (suc n)
  Clear-suc n clear full other j below = elim (Bool-cases (j == n)) [
    | inl e ↦ rw ((==_iff j n).0 e) (full, other)
    | inr e ↦ clear j (ground arith)
  ]

  Tomb-suc : (n : ℕ) (tomb : Option ℕ) → Tomb n tomb → Tomb (suc n) tomb
  Tomb-suc n none h = h
  Tomb-suc n (some i) (j, (below, rest)) = (j, (omega arith, rest))

  Tomb-first :
      (n : ℕ) (tomb : Option ℕ)
      → Tomb n tomb
      → at n ≡ tombstone
      → Tomb (suc n) (some (first_of tomb (slot_at k key.hash n)))
  unfolding first_of
  Tomb-first n none h e = (n, (omega arith, (refl, e)))
  Tomb-first n (some i) h e = Tomb-suc n (some i) h

  later_empty : (n e : ℕ) → n ≤ e → at e ≡ empty → at n ≢ empty → suc n ≤ e
  later_empty n e le gone full = elim (Bool-cases (n == e)) [
    | inl same ↦ absurd (full (ap at ((==_iff n e).0 same) ∙ gone))
    | inr other ↦ ground arith
  ]

  -- The search from round `n` on, with an empty slot ahead within the fuel.
  probe-Finds :
      (fuel n : ℕ) (tomb : Option ℕ)
      → Clear n
      → Tomb n tomb
      → (e : ℕ) → n ≤ e
      → e < n + fuel
      → at e ≡ empty
      → (i : ℕ) × (probe t key fuel (slot_at k key.hash n) (suc n) tomb ≡ some i) × Finds k t key i
  unfolding probe probe_slot
  probe-Finds zero n tomb clear h e le lt gone = absurd (omega arith)
  probe-Finds (suc fuel) n tomb clear h e le lt gone = elim (Slot-cases (at n)) [
    | inl s ↦ (first_of tomb (slot_at k key.hash n), rw s refl, ends_free n tomb s clear h)
    | inr (inl s) ↦
        let full = λ (x : at n ≡ empty). tombstone_empty (sym s ∙ x) in
        let (i, same, found) =
          probe-Finds fuel (suc n) (some (first_of tomb (slot_at k key.hash n)))
            (Clear-suc n clear full (λ m. tombstone_alive m.0 (sym s ∙ m.1.0)))
            (Tomb-first n tomb h s) e (later_empty n e le gone full) (omega arith) gone in
        (i, rw (s, next_index n) same, found)
    | inr (inr (p, s)) ↦ elim (Bool-cases (matches key (t.atoms p))) [
      | inl m ↦ (
        slot_at k key.hash n,
        rw (s, m) refl,
        record {
          path = (n, (refl, λ j below. (clear j below).0));
          match_or_free = inl (p, (s, m));
          complete = λ j other. (p, (s, m));
        },
      )
      | inr m ↦
          let full = λ (x : at n ≡ empty). alive_empty p (sym s ∙ x) in
          let (i, same, found) =
            probe-Finds fuel (suc n) tomb
              (Clear-suc n clear full (λ a. differs p a.0 (sym s ∙ a.1.0) m a.1.1))
              (Tomb-suc n tomb h) e (later_empty n e le gone full) (omega arith) gone in
          (i, rw (s, m, next_index n) same, found)
    ]
  ]
    where
      tombstone_empty : tombstone ≡ empty → ⊥
      tombstone_empty e = cc

      tombstone_alive : (p : ℕ) → tombstone ≡ alive p → ⊥
      tombstone_alive p e = cc

      alive_empty : (p : ℕ) → alive p ≡ empty → ⊥
      alive_empty p e = cc

      differs :
          (p q : ℕ)
          → alive p ≡ alive q
          → matches key (t.atoms p) ≡ false
          → matches key (t.atoms q) ≡ true
          → ⊥
      differs p q e f g = cc

  -- In a table of 2^k slots with one empty, whose atoms stand on the paths of their hashes, a search
  -- ends. It gives a slot on the path of the hash, which has a matching atom or none at all, and which
  -- has a matching one when the table has.
  pub map_find-Finds :
      (slot : ℕ)
      → slot < 2 ^ k
      → t.map slot ≡ empty
      → (i : ℕ) × (map_find t key ≡ some i) × Finds k t key i
  unfolding map_find slot_at
  map_find-Finds slot below gone =
      let (e, within, there) = visits k key.hash slot below in
      let (i, same, found) =
        probe-Finds (2 ^ k) 0 none (λ j lt. absurd (omega arith)) tt e (omega arith) (omega arith)
          (ap t.map (slot_at-lem e) ∙ ap t.map there ∙ gone) in
      (i, started ∙ same, found)
    where
      slot_at-lem : (e : ℕ) → slot_at k key.hash e ≡ (key.hash + triangular e) % 2 ^ k
      slot_at-lem e = refl

      started :
          probe t key t.capacity (bit_and key.hash t.mask) 1 none
          ≡ probe t key (2 ^ k) (slot_at k key.hash 0) 1 none
      started =
          ap₂ (λ (c i : ℕ). probe t key c i 1 none) table.capacity
            (ap (bit_and key.hash) table.mask ∙ slot_at-zero k key.hash)
