-- ===== src/Collector/SweptBlocks.antt =====
-- The sweep of all blocks: the blocks that stay, the items that it keeps, and the list of free
-- items that it leaves.
use reduct.Prelude.{
  suc, ◌+◌, ◌<◌, Bool, true, false, none, List, [], ◌∷◌, ◌≡◌, refl, sym, ◌∙◌, ap, subst, ◌⊎◌, inl,
  inr, ◌==◌, ==_iff, Bool-cases, Member, Every, arith,
}
use reduct.Collector.Item.{Address}
use reduct.Collector.Sweep.{
  World, block_max, items_of, sweep_items, count_marked, keep_block, release_block, sweep_blocks,
  sweep,
}
use reduct.Collector.Swept.{Same, Same-trans, Kept, Kept-Same, Same-Kept, Linked}
use reduct.Collector.SweptRuns.{
  Inside, Outside, FreeList, SweptRun, Linked-free, sweep_items_run, deinit_items_other,
  deinit_items_free, count_marked-none, count_marked-some,
}

-- The items of a block, and the addresses outside it.
abbrev pub InBlock : Address → Address → Type 0
InBlock b q = Inside (suc b) block_max q

abbrev pub OffBlock : Address → Address → Type 0
OffBlock b q = Outside (suc b) block_max q

-- No two blocks overlap.
abbrev pub IsApart : List Address → Type 0
IsApart [] = Unit
IsApart (b ∷ bs) = Every (λ c. (b + block_max < c) ⊎ (c + block_max < b)) bs × IsApart bs

abbrev pub InSome : List Address → Address → Type 0
InSome bs q = (b : Address) × Member b bs × InBlock b q

-- What the sweep of the blocks `bs` does: a block stays when it has a marked item; the items that
-- are marked stay; the items of other blocks are not touched; and the list of free items takes just
-- the unmarked items of the blocks that stay.
pub record SweptBlocks (bs : List Address) (w w' : World) (qs : List Address) : Type 0 where
  pub stays :
      (b q : Address) → Member b bs → InBlock b q → (w.flags q).marked ≡ true → Member b w'.blocks
  pub goes :
      (b : Address)
      → Member b w'.blocks
      → Member b bs × ((q : Address) × InBlock b q × ((w.flags q).marked ≡ true))
  pub kept : (q : Address) → InSome bs q → (w.flags q).marked ≡ true → Kept w w' q
  pub other : (q : Address) → Every (λ b. OffBlock b q) bs → Same w w' q
  pub list : FreeList w' qs (λ q. InSome w'.blocks q × ((w.flags q).marked ≡ false))

-- An item of one block is in none of the others.
off_others :
    (b q : Address) (bs : List Address)
    → Every (λ c. (b + block_max < c) ⊎ (c + block_max < b)) bs
    → InBlock b q
    → Every (λ c. OffBlock c q) bs
off_others b q [] h i = tt
off_others b q (c ∷ cs) (h, hs) i = (ground arith, off_others b q cs hs i)

Every-Member :
    (P : Address → Type 0) (xs : List Address) (x : Address) → Every P xs → Member x xs → P x
Every-Member P (y ∷ ys) x h m = elim m [
  | inl e ↦ subst P (sym e) h.0
  | inr later ↦ Every-Member P ys x h.1 later
]
Every-Member P [] x h m = absurd m

-- An item of another block is not in this one.
off_this :
    (b q : Address) (bs : List Address)
    → Every (λ c. (b + block_max < c) ⊎ (c + block_max < b)) bs
    → InSome bs q
    → OffBlock b q
off_this b q bs h (c, m, i) = far (Every-Member _ bs c h m) i
  where
    far : {c : Address} → (b + block_max < c) ⊎ (c + block_max < b) → InBlock c q → OffBlock b q
    far h i = ground arith

flag : {w w₁ : World} {q : Address} → Same w w₁ q → (w₁.flags q).marked ≡ (w.flags q).marked
flag s = ap (λ f. f.marked) s.flags

-- The list of blocks is not part of what is kept.
keep_block-Same :
    (b : Address) {w w' : World} {q : Address} → Same w w' q → Same w (keep_block b w') q
unfolding keep_block
keep_block-Same b s = record { payload = s.payload; flags = s.flags }

keep_block-Kept :
    (b : Address) {w w' : World} {q : Address} → Kept w w' q → Kept w (keep_block b w') q
unfolding keep_block
keep_block-Kept b k = record { payload = k.payload; cleared = k.cleared; retained = k.retained }

module _ {b : Address} {bs qs : List Address} {w w₁ w' : World} (apart : IsApart (b ∷ bs)) where
  -- A block that stays, and then the others.
  SweptBlocks-kept :
      (front : SweptRun (suc b) block_max w w₁ qs)
      → ((q : Address) × InBlock b q × ((w.flags q).marked ≡ true))
      → SweptBlocks bs w₁ w' front.list.members
      → SweptBlocks (b ∷ bs) w (keep_block b w') qs
  unfolding keep_block
  SweptBlocks-kept front has rest = record {
    stays = λ c q m i h. elim m [
      | inl e ↦ inl e
      | inr later ↦
          let same = front.other q (off_this b q bs apart.0 (c, later, i)) in
          inr (rest.stays c q later i (flag same ∙ h))
    ];
    goes = λ c m. elim m [
      | inl e ↦ (inl e, rw e has)
      | inr later ↦
          let (old, (q, i, h)) = rest.goes c later in
          let same = front.other q (off_this b q bs apart.0 (c, old, i)) in
          (inr old, (q, i, sym (flag same) ∙ h))
    ];
    kept = λ q s h. keep_block-Kept b {w' = w'} (elim s.1 [
      | inl e ↦
          let inside = subst (λ t. InBlock t q) e s.2 in
          Kept-Same (front.kept q inside h) (rest.other q (off_others b q bs apart.0 inside))
      | inr later ↦
          let same = front.other q (off_this b q bs apart.0 (s.0, later, s.2)) in
          Same-Kept same (rest.kept q (s.0, later, s.2) (flag same ∙ h))
    ]);
    other = λ q off.
        keep_block-Same b {w' = w'} (Same-trans (front.other q off.0) (rest.other q off.1));
    list = record {
      members = rest.list.members;
      linked = rest.list.linked;
      only = λ q i. elim (rest.list.only q i) [
        | inr f ↦
            let same = front.other q (off_this b q bs apart.0 (from_old q f.0)) in
            inr ((f.0.0, inr f.0.1, f.0.2), sym (flag same) ∙ f.1)
        | inl j ↦ elim (front.list.only q j) [
          | inl old ↦ inl old
          | inr f ↦ inr ((b, inl refl, f.0), f.1)
        ]
      ];
      before = λ q i. rest.list.before q (front.list.before q i);
      added = λ q f. elim f.0.1 [
        | inl e ↦ rest.list.before q (front.list.added q (subst (λ t. InBlock t q) e f.0.2, f.1))
        | inr later ↦
            let same = front.other q (off_this b q bs apart.0 (from_old q (f.0.0, later, f.0.2))) in
            rest.list.added q ((f.0.0, later, f.0.2), flag same ∙ f.1)
      ];
    };
  }
    where
      from_old : (q : Address) → InSome w'.blocks q → InSome bs q
      from_old q (c, m, i) = (c, (rest.goes c m).0, i)

  -- A block that is released.
  SweptBlocks-released :
      ((q : Address) → OffBlock b q → Same w w₁ q)
      → ((q : Address) → InBlock b q → (w.flags q).marked ≡ false)
      → SweptBlocks bs w₁ w' qs
      → SweptBlocks (b ∷ bs) w w' qs
  SweptBlocks-released front none_marked rest = record {
    stays = λ c q m i h. elim m [
      | inl e ↦ absurd (contradiction h (none_marked q (subst (λ t. InBlock t q) e i)))
      | inr later ↦
          let same = front q (off_this b q bs apart.0 (c, later, i)) in
          rest.stays c q later i (flag same ∙ h)
    ];
    goes = λ c m.
        let (old, (q, i, h)) = rest.goes c m in
        let same = front q (off_this b q bs apart.0 (c, old, i)) in
        (inr old, (q, i, sym (flag same) ∙ h));
    kept = λ q s h. elim s.1 [
      | inl e ↦ absurd (contradiction h (none_marked q (subst (λ t. InBlock t q) e s.2)))
      | inr later ↦
          let same = front q (off_this b q bs apart.0 (s.0, later, s.2)) in
          Same-Kept same (rest.kept q (s.0, later, s.2) (flag same ∙ h))
    ];
    other = λ q off. Same-trans (front q off.0) (rest.other q off.1);
    list = record {
      members = rest.list.members;
      linked = rest.list.linked;
      only = λ q i. elim (rest.list.only q i) [
        | inl old ↦ inl old
        | inr f ↦ inr (f.0, sym (flag (front q (off_released q f.0))) ∙ f.1)
      ];
      before = rest.list.before;
      added = λ q f. rest.list.added q (f.0, flag (front q (off_released q f.0)) ∙ f.1);
    };
  }
    where
      off_released : (q : Address) → InSome w'.blocks q → OffBlock b q
      off_released q (c, m, i) = off_this b q bs apart.0 (c, (rest.goes c m).0, i)

      contradiction : {x : Bool} → x ≡ true → x ≡ false → ⊥
      contradiction h e = cc

-- The loops over the items of one block.
module _ (w : World) (b : Address) where
  sweep_items-block :
      (qs : List Address)
      → ((q : Address) → Member q qs → OffBlock b q)
      → Linked w.payloads w.free qs
      → SweptRun (suc b) block_max w (sweep_items w (items_of b)) qs
  unfolding items_of
  sweep_items-block = sweep_items_run block_max w (suc b)

  count_marked-block_some :
      (count_marked w.flags (items_of b) == 0) ≡ false
      → (q : Address) × InBlock b q × ((w.flags q).marked ≡ true)
  unfolding items_of
  count_marked-block_some = count_marked-some block_max w.flags (suc b)

  count_marked-block_none :
      (count_marked w.flags (items_of b) == 0) ≡ true
      → (q : Address) → InBlock b q
      → (w.flags q).marked ≡ false
  unfolding items_of
  count_marked-block_none e q =
      count_marked-none block_max w.flags (suc b) q
        ((==_iff (count_marked w.flags (items_of b)) 0).0 e)

  release_block-other : (q : Address) → OffBlock b q → Same w (release_block w b) q
  unfolding items_of release_block
  release_block-other q off = record {
    payload = (deinit_items_other block_max w (suc b) q off).payload;
    flags = (deinit_items_other block_max w (suc b) q off).flags;
  }

  release_block_free : (release_block w b).free ≡ w.free
  unfolding items_of release_block
  release_block_free = deinit_items_free block_max w (suc b)

pub sweep_blocks-SweptBlocks :
    (bs : List Address) (w : World) (qs : List Address)
    → IsApart bs
    → ((q : Address) → Member q qs → Every (λ b. OffBlock b q) bs)
    → Linked w.payloads w.free qs
    → SweptBlocks bs w (sweep_blocks w bs) qs
unfolding sweep_blocks
sweep_blocks-SweptBlocks [] w qs apart new l = record {
  stays = λ b q m. absurd m;
  goes = λ b m. absurd m;
  kept = λ q s h. absurd s.1;
  other = λ q off. record { payload = refl; flags = refl };
  list = record {
    members = qs;
    linked = l;
    only = λ q i. inl i;
    before = λ q i. i;
    added = λ q f. absurd f.0.1;
  };
}
sweep_blocks-SweptBlocks (b ∷ bs) w qs apart new l =
    elim (Bool-cases (count_marked w.flags (items_of b) == 0)) [
      | inl e ↦ rw e (
          SweptBlocks-released apart (release_block-other w b) (count_marked-block_none w b e) (
            sweep_blocks-SweptBlocks bs (release_block w b) qs apart.1 (λ q i. (new q i).1)
              (Linked-free {w = w} {w' = release_block w b} qs (release_block_free w b)
                (λ q i. release_block-other w b q (new q i).0) l)))
      | inr e ↦ rw e (
          SweptBlocks-kept apart front (count_marked-block_some w b e) (
            sweep_blocks-SweptBlocks bs (sweep_items w (items_of b)) front.list.members apart.1
              later front.list.linked))
    ]
  where
    front : SweptRun (suc b) block_max w (sweep_items w (items_of b)) qs
    front = sweep_items-block w b qs (λ q i. (new q i).0) l

    later : (q : Address) → Member q front.list.members → Every (λ c. OffBlock c q) bs
    later q i = elim (front.list.only q i) [
      | inl old ↦ (new q old).1
      | inr f ↦ off_others b q bs apart.0 f.0
    ]

-- The sweep, which starts a new list of free items.
pub sweep-SweptBlocks : (w : World) → IsApart w.blocks → SweptBlocks w.blocks w (sweep w) []
unfolding sweep
sweep-SweptBlocks w apart = from_start (
    sweep_blocks-SweptBlocks w.blocks (record w { free = none; free_count = 0 }) [] apart
      (λ q i. absurd i) tt)
  where
    from_start :
        {w' : World}
        → SweptBlocks w.blocks (record w { free = none; free_count = 0 }) w' []
        → SweptBlocks w.blocks w w' []
    from_start s = record {
      stays = s.stays;
      goes = s.goes;
      kept = λ q i m.
          let k = s.kept q i m in
          record { payload = k.payload; cleared = k.cleared; retained = k.retained };
      other = λ q off. let k = s.other q off in record { payload = k.payload; flags = k.flags };
      list = s.list;
    }
