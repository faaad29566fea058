-- ===== src/Collector/SweptRuns.antt =====
-- The sweep of the items of one block, kept or released.
use reduct.Prelude.{
  ℕ, zero, suc, ◌+◌, ◌≤◌, ◌<◌, true, false, List, ◌∷◌, ◌≡◌, ◌≢◌, refl, sym, ◌∙◌, ap, subst, ◌⊎◌,
  inl, inr, ◌==◌, Bool-cases, Member, arith,
}
use reduct.Collector.Item.{Address, Marking}
use reduct.Collector.Sweep.{
  World, run_of, item_deinit, sweep_item, sweep_items, deinit_items, count_marked,
}
use reduct.Collector.Swept.{
  Same, Same-refl, Same-trans, Kept, Kept-Same, Same-Kept, Linked, Linked-Same, deinit_other,
  deinit_free, sweep_item_other, sweep_item_marked, sweep_item_marked_free, sweep_item_unmarked,
}

abbrev pub Inside : Address → ℕ → Address → Type 0
Inside start n q = (start ≤ q) × (q < start + n)

abbrev pub Outside : Address → ℕ → Address → Type 0
Outside start n q = (q < start) ⊎ (start + n ≤ q)

-- `qs'` is the list of free items, `qs` with the addresses that satisfy `Freed`.
pub record FreeList (w' : World) (qs : List Address) (Freed : Address → Type 0) : Type 0 where
  pub members : List Address
  pub linked : Linked w'.payloads w'.free members
  pub only : (q : Address) → Member q members → Member q qs ⊎ Freed q
  pub before : (q : Address) → Member q qs → Member q members
  pub added : (q : Address) → Freed q → Member q members

pub record SweptRun (start : Address) (n : ℕ) (w w' : World) (qs : List Address) : Type 0 where
  pub other : (q : Address) → Outside start n q → Same w w' q
  pub kept : (q : Address) → Inside start n q → (w.flags q).marked ≡ true → Kept w w' q
  pub list : FreeList w' qs (λ q. Inside start n q × ((w.flags q).marked ≡ false))

next_Outside :
    (start q : Address) (n : ℕ) → Outside start (suc n) q → Outside (suc start) n q × (q ≢ start)
next_Outside start q n h = ground arith

first_or_later :
    (start q : Address) (n : ℕ) → Inside start (suc n) q → (q ≡ start) ⊎ Inside (suc start) n q
first_or_later start q n h = ground arith

later_Inside :
    (start q : Address) (n : ℕ) → Inside (suc start) n q → Inside start (suc n) q × (q ≢ start)
later_Inside start q n h = (ground arith, ground arith)

-- A list that a step neither extends nor touches.
pub Linked-free :
    {w w' : World} (qs : List Address)
    → w'.free ≡ w.free
    → ((q : Address) → Member q qs → Same w w' q)
    → Linked w.payloads w.free qs
    → Linked w'.payloads w'.free qs
Linked-free {w} {w'} qs e same l =
    Linked-Same {w = w} {w' = w'} w'.free qs same (subst (λ f. Linked w.payloads f qs) (sym e) l)

module _ (w : World) (start : Address) where
  -- The list after the first item.
  sweep_item-FreeList :
      (qs : List Address)
      → (Member start qs → ⊥)
      → Linked w.payloads w.free qs
      → FreeList (sweep_item w start) qs (λ q. (q ≡ start) × ((w.flags q).marked ≡ false))
  sweep_item-FreeList qs new l = elim (Bool-cases (w.flags start).marked) [
    | inl e ↦ record {
      members = qs;
      linked =
          Linked-free {w = w} {w' = sweep_item w start} qs (sweep_item_marked_free w start e)
            (λ q i. sweep_item_other w start q (apart q i)) l;
      only = λ q i. inl i;
      before = λ q i. i;
      added = λ q f. absurd (contradiction q f.0 e f.1);
    }
    | inr e ↦ record {
      members = start ∷ qs;
      linked = sweep_item_unmarked w start qs e new l;
      only = λ q i. elim i [ inl same ↦ inr (same, rw same e) | inr old ↦ inl old ];
      before = λ q i. inr i;
      added = λ q f. inl f.0;
    }
  ]
    where
      apart : (q : Address) → Member q qs → q ≢ start
      apart q i e = new (subst (λ t. Member t qs) e i)

      contradiction :
          (q : Address) → q ≡ start → (w.flags start).marked ≡ true → (w.flags q).marked ≡ false → ⊥
      contradiction q same e f = cc

-- The first item and then the others.
module _ {w w₁ w' : World} {start : Address} {n : ℕ} {qs : List Address} where
  SweptRun-next :
      ((q : Address) → q ≢ start → Same w w₁ q)
      → ((w.flags start).marked ≡ true → Kept w w₁ start)
      → (front : FreeList w₁ qs (λ q. (q ≡ start) × ((w.flags q).marked ≡ false)))
      → SweptRun (suc start) n w₁ w' front.members
      → SweptRun start (suc n) w w' qs
  SweptRun-next same kept front rest = record {
    other = λ q h.
        let (later, ne) = next_Outside start q n h in Same-trans (same q ne) (rest.other q later);
    kept = λ q h m. elim (first_or_later start q n h) [
      | inl e ↦ rw e (Kept-Same (kept (rw e at m)) (rest.other start (inl (omega arith))))
      | inr later ↦
          let (_, ne) = later_Inside start q n later in
          Same-Kept (same q ne) (rest.kept q later (flag q ne ∙ m))
    ];
    list = record {
      members = rest.list.members;
      linked = rest.list.linked;
      only = λ q i. elim (rest.list.only q i) [
        | inr f ↦
            let (inside, ne) = later_Inside start q n f.0 in inr (inside, sym (flag q ne) ∙ f.1)
        | inl j ↦ elim (front.only q j) [
          | inl old ↦ inl old
          | inr f ↦ inr (start_Inside q f.0, f.1)
        ]
      ];
      before = λ q i. rest.list.before q (front.before q i);
      added = λ q f. elim (first_or_later start q n f.0) [
        | inl e ↦ rest.list.before q (front.added q (e, f.1))
        | inr later ↦
            let (_, ne) = later_Inside start q n later in rest.list.added q (later, flag q ne ∙ f.1)
      ];
    };
  }
    where
      flag : (q : Address) → q ≢ start → (w₁.flags q).marked ≡ (w.flags q).marked
      flag q ne = ap (λ f. f.marked) (same q ne).flags

      start_Inside : (q : Address) → q ≡ start → Inside start (suc n) q
      start_Inside q e = (omega arith, omega arith)

start_within : (start : Address) (n : ℕ) → Outside start (suc n) start → ⊥
start_within start n h = ground arith

pub sweep_items_run :
    (n : ℕ) (w : World) (start : Address) (qs : List Address)
    → ((q : Address) → Member q qs → Outside start n q)
    → Linked w.payloads w.free qs
    → SweptRun start n w (sweep_items w (run_of start n)) qs
unfolding sweep_items run_of
sweep_items_run zero w start qs new l = record {
  other = λ q h. Same-refl w q;
  kept = λ q h. absurd (omega arith);
  list = record {
    members = qs;
    linked = l;
    only = λ q i. inl i;
    before = λ q i. i;
    added = λ q f. absurd (omega arith);
  };
}
sweep_items_run (suc n) w start qs new l =
    SweptRun-next (sweep_item_other w start) (sweep_item_marked w start) front
      (sweep_items_run n (sweep_item w start) (suc start) front.members later front.linked)
  where
    front : FreeList (sweep_item w start) qs (λ q. (q ≡ start) × ((w.flags q).marked ≡ false))
    front = sweep_item-FreeList w start qs (λ i. start_within start n (new start i)) l

    later : (q : Address) → Member q front.members → Outside (suc start) n q
    later q i = elim (front.only q i) [
      | inl old ↦ (next_Outside start q n (new q old)).0
      | inr f ↦ inl (omega (arith, f.0))
    ]

-- A block without a mark: its items are deinitialised, and the list stays.
pub deinit_items_other :
    (n : ℕ) (w : World) (start q : Address)
    → Outside start n q
    → Same w (deinit_items w (run_of start n)) q
unfolding deinit_items run_of
deinit_items_other zero w start q h = Same-refl w q
deinit_items_other (suc n) w start q h =
    let (later, ne) = next_Outside start q n h in
    Same-trans (deinit_other w start q ne)
      (deinit_items_other n (item_deinit w start) (suc start) q later)

pub deinit_items_free :
    (n : ℕ) (w : World) (start : Address) → (deinit_items w (run_of start n)).free ≡ w.free
unfolding deinit_items run_of
deinit_items_free zero w start = refl
deinit_items_free (suc n) w start =
    deinit_items_free n (item_deinit w start) (suc start) ∙ deinit_free w start

-- The count of marks tells the blocks with one from those without.
pub count_marked-none :
    (n : ℕ) (m : Marking) (start q : Address)
    → count_marked m (run_of start n) ≡ 0
    → Inside start n q
    → (m q).marked ≡ false
unfolding count_marked run_of
count_marked-none zero m start q e h = absurd (omega arith)
count_marked-none (suc n) m start q e h = elim (first_or_later start q n h) [
  | inl same ↦ rw same (ground arith)
  | inr later ↦ count_marked-none n m (suc start) q (ground arith) later
]

pub count_marked-some :
    (n : ℕ) (m : Marking) (start : Address)
    → (count_marked m (run_of start n) == 0) ≡ false
    → (q : Address) × Inside start n q × ((m q).marked ≡ true)
unfolding count_marked run_of
count_marked-some zero m start e = absurd (ground arith)
count_marked-some (suc n) m start e = elim (Bool-cases (m start).marked) [
  | inl marked ↦ (start, (omega arith, omega arith), marked)
  | inr other ↦
      let (q, inside, marked) = count_marked-some n m (suc start) (ground arith) in
      (q, (later_Inside start q n inside).0, marked)
]
