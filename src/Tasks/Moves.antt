-- ===== src/Tasks/Moves.antt =====
-- A step keeps the invariant where it keeps the slot that it changes, and its thread's place.
use reduct.Prelude.{
  ℕ, suc, ◌≤◌, ◌<◌, sym, ap, ◌∙◌, subst, refl, true, some, ◌≡◌, ◌≢◌, ◌⊎◌, inl, inr, arith, ◌==◌,
  ==_iff, Bool-cases,
}
use reduct.Tasks.Queue.{Queue, Pc, index_of}
use reduct.Tasks.System.{System, History}
use reduct.Tasks.Invariant.{
  Stage, free, writing, full, reading, Shape, Held, SlotIs, PcIs, owned, Inv,
}
use reduct.Tasks.Moved.{Moved, SlotIs-Moved, NotOurs, PcIs-Moved}
use reduct.Prelude.Maps.{update}

abbrev pub Owns : Shape → ℕ → Type 0
Owns z x = (g : Stage) × ((g ≡ writing) ⊎ (g ≡ reading)) × Held z g x

writer : (z : Shape) (x y : ℕ) → Held z writing x → some x ≡ some y → Owns z y
writer z x y at e = subst (λ t. Owns z t) (cc) (writing, inl refl, at)

reader : (z : Shape) (x y : ℕ) → Held z reading x → some x ≡ some y → Owns z y
reader z x y at e = subst (λ t. Owns z t) (cc) (reading, inr refl, at)

-- The slot of an owner.
pub owned-Owns :
    (q : Queue) (h : History) (z : Shape) (p : Pc) (x : ℕ)
    → PcIs q h z p
    → owned p ≡ some x
    → Owns z x
owned-Owns q h z (Pc.push_func f a x) y at e = writer z x y at.0 e
owned-Owns q h z (Pc.push_arg f a x) y at e = writer z x y at.0 e
owned-Owns q h z (Pc.push_publish f a x) y at e = writer z x y at.0 e
owned-Owns q h z (Pc.work_func x) y at e = reader z x y at.0 e
owned-Owns q h z (Pc.work_arg x f) y at e = reader z x y at.0 e
owned-Owns q h z (Pc.running x f a) y at e = reader z x y at.0 e
owned-Owns q h z (Pc.work_release x f a) y at e = reader z x y at.0 e
owned-Owns q h z p y at e = cc

module _ {n : ℕ} {s : System} {z : Shape} (inv : Inv n s z) (i : ℕ) {q' : Queue} {h' : History}
    {z' : Shape} {y : ℕ} {stage : Stage} (m : Moved s.queue s.history z q' h' z' y stage) where
  -- Thread `i` owns the slot before, or none does.
  abbrev pub Mine : Type 0
  Mine = (owned (s.pc i) ≡ some y) ⊎ (stage ≡ free) ⊎ (stage ≡ full)

  others : Mine → (j : ℕ) → j ≢ i → NotOurs m (s.pc j)
  others (inl mine) j ne x e = inl (λ same. ne (inv.unique j i y (e ∙ ap some same) mine))
  others (inr stages) j ne x e = inr stages

  -- No other thread owns the slot.
  not_theirs : Mine → (j : ℕ) → j ≢ i → owned (s.pc j) ≢ some y
  not_theirs (inl mine) j ne e = ne (inv.unique j i y e mine)
  not_theirs (inr stages) j ne e =
      let (g, kind, at) = owned-Owns s.queue s.history z (s.pc j) y (inv.places j) e in
      let here = sym (at.1) ∙ m.held.1 in ground arith

  unique-Moved :
      (p' : Pc)
      → Mine
      → ((x : ℕ) → owned p' ≡ some x → x ≡ y)
      → (j k x : ℕ) → owned (update s.pc i p' j) ≡ some x
      → owned (update s.pc i p' k) ≡ some x
      → j ≡ k
  unique-Moved p' mine after j k x ej ek = elim (Bool-cases (j == i)) [
    | inl j_is ↦ elim (Bool-cases (k == i)) [
      | inl k_is ↦ ground arith
      | inr k_not ↦ absurd (ground (arith, after x, not_theirs mine k))
    ]
    | inr j_not ↦ elim (Bool-cases (k == i)) [
      | inl k_is ↦ absurd (ground (arith, after x, not_theirs mine j))
      | inr k_not ↦ ground (arith, inv.unique j k x)
    ]
  ]

  returned-Moved :
      (y < q'.head → z'.current (index_of y) ≢ y → h'.returned y ≡ true)
      → (x : ℕ) → x < q'.head
      → z'.current (index_of x) ≢ x
      → h'.returned x ≡ true
  returned-Moved last x below other = elim (Bool-cases (x == y)) [
    | inl same ↦ ground (arith, last)
    | inr apart ↦ m.kept_returned x (
        inv.returned x (ground (arith, m.heads))
          (ground (arith, m.held, m.same_current (index_of x))))
  ]

  published-Moved :
      (h'.published y ≡ true → y < q'.head) → (x : ℕ) → h'.published x ≡ true → x < q'.head
  published-Moved last x e = ground (arith, last, m.heads, inv.published x, m.same_published x)

  ended-Moved : (h'.returned y ≡ true → y < q'.tail) → (x : ℕ) → h'.returned x ≡ true → x < q'.tail
  ended-Moved last x e = ground (arith, last, m.tails, inv.ended x, m.same_returned x)

  pub Inv-Moved :
      (p' : Pc)
      → Mine
      → q'.tail ≤ q'.head
      → SlotIs q'.head q'.tail h'
          (q'.slots (index_of y))
          (index_of y)
          (z'.current (index_of y))
          (z'.stage (index_of y))
      → PcIs q' h' z' p'
      → ((x : ℕ) → owned p' ≡ some x → x ≡ y)
      → (h'.published y ≡ true → y < q'.head)
      → (h'.returned y ≡ true → y < q'.tail)
      → (y < q'.head → z'.current (index_of y) ≢ y → h'.returned y ≡ true)
      → Inv (suc n) (record { queue = q'; pc = update s.pc i p'; history = h' }) z'
  Inv-Moved p' mine ordered slot place after published_y ended_y returned_y = record {
    counted = ground (arith, inv.counted, m.heads);
    ordered = ordered;
    slots = λ k below. elim (Bool-cases (k == index_of y)) [
      | inl same ↦ rw ((==_iff k (index_of y)).0 same) slot
      | inr other ↦ SlotIs-Moved m k (λ e. ground arith) (inv.slots k below)
    ];
    places = λ j. elim (Bool-cases (j == i)) [
      | inl same ↦ rw same place
      | inr other ↦
          rw other (PcIs-Moved m (s.pc j) (others mine j (λ e. ground arith)) (inv.places j))
    ];
    unique = unique-Moved p' mine after;
    published = published-Moved published_y;
    ended = ended-Moved ended_y;
    returned = returned-Moved returned_y;
  }

-- A step that changes only where its thread stands.
pub Inv-place :
    (n : ℕ) (s : System) (z : Shape) (i : ℕ) (p' : Pc)
    → Inv n s z
    → PcIs s.queue s.history z p'
    → ((x : ℕ) → owned p' ≡ some x → owned (s.pc i) ≡ some x)
    → Inv (suc n) (record s { pc = update s.pc i p' }) z
Inv-place n s z i p' inv place after = record {
  counted = omega (arith, inv.counted);
  ordered = inv.ordered;
  slots = inv.slots;
  places = λ j. elim (Bool-cases (j == i)) [
    | inl same ↦ rw same place
    | inr other ↦ rw other (inv.places j)
  ];
  unique =
      λ j k x ej ek. ground (arith, after x, inv.unique j k x, inv.unique i k x, inv.unique j i x);
  published = inv.published;
  ended = inv.ended;
  returned = inv.returned;
}
