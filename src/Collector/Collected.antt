-- ===== src/Collector/Collected.antt =====
-- One collection: it ends, keeps what the roots reach, and lists the rest of the blocks that stay
-- as free.
use reduct.Prelude.{
  ℕ, zero, suc, ◌≤◌, ◌<◌, Bool, true, false, Option, some, List, [], ◌∷◌, ◌++◌, ◌≡◌, refl, ◌∙◌, inl,
  inr, ◌↔◌, Member, Every, arith,
}
use reduct.Collector.Item.{Address, Marking}
use reduct.Collector.Children.{children}
use reduct.Collector.Mark.{mark}
use reduct.Collector.Marks.{
  Reaches, here, via, Reached, Marks, Marks-append, unmarked, IsTidy, each-Marks, mark-Marks,
  Member-append_left, Member-append_right, Member-append_cases,
}
use reduct.Collector.Sweep.{World, items_of, sweep}
use reduct.Collector.Swept.{Kept, Linked}
use reduct.Collector.SweptBlocks.{InBlock, InSome, IsApart, sweep-SweptBlocks}
use reduct.Collector.Collect.{
  Thread, thread_roots, retained_of, retained_roots, forget_free, mark_all, mark_roots, collect,
}

unmarked-bound : (n : ℕ) (m : Marking) → unmarked n m ≤ n
unfolding unmarked
unmarked-bound zero m = omega arith
unmarked-bound (suc n) m = ground (arith, unmarked-bound n m)

-- The retained items do not change while items are marked.
retained_of_same :
    (m m' : Marking) (ps : List Address)
    → ((q : Address) → (m' q).retained ≡ (m q).retained)
    → retained_of m' ps ≡ retained_of m ps
unfolding retained_of
retained_of_same m m' [] h = refl
retained_of_same m m' (p ∷ ps) h = rw (h p, retained_of_same m m' ps h) refl

retained_roots_same :
    (m m' : Marking) (bs : List Address)
    → ((q : Address) → (m' q).retained ≡ (m q).retained)
    → retained_roots m' bs ≡ retained_roots m bs
unfolding retained_roots
retained_roots_same m m' [] h = refl
retained_roots_same m m' (b ∷ bs) h =
    rw (retained_of_same m m' (items_of b) h, retained_roots_same m m' bs h) refl

Every-append :
    (P : Address → Type 0) (xs ys : List Address) → Every P (xs ++ ys) → Every P xs × Every P ys
Every-append P [] ys h = (tt, h)
Every-append P (x ∷ xs) ys h = let (a, b) = Every-append P xs ys h.1 in ((h.0, a), b)

module _ (children : Address → Option (List Address)) where
  Marks-same :
      {ps qs : List Address} {m m' : Marking}
      → ((q : Address) → Member q ps ↔ Member q qs)
      → Marks children ps m m'
      → Marks children qs m m'
  Marks-same same a = record {
    retains = a.retains;
    keeps = a.keeps;
    targets = λ q i. a.targets q ((same q).1 i);
    reached = λ q h. elim (a.reached q h) [
      | inl before ↦ inl before
      | inr (s, i, r) ↦ inr (s, (same s).0 i, r)
    ];
    closed = a.closed;
  }

  -- From items without a mark, what is marked is what is reached.
  marked_lem :
      {ps : List Address} {m m' : Marking}
      → ((q : Address) → (m q).marked ≡ false)
      → Marks children ps m m'
      → (q : Address) → ((m' q).marked ≡ true) ↔ Reached children ps q
  marked_lem {ps} {m} {m'} clean a q = (only, λ r. along r.2 (a.targets r.0 r.1))
    where
      dirty : {x : Address} → (m x).marked ≡ true → ⊥
      dirty {x} h = impossible h (clean x)
        where
          impossible : {b : Bool} → b ≡ true → b ≡ false → ⊥
          impossible e f = cc

      only : (m' q).marked ≡ true → Reached children ps q
      only h = elim (a.reached q h) [ inl h₀ ↦ absurd (dirty h₀) | inr r ↦ r ]

      along : {s t : Address} → Reaches children s t → (m' s).marked ≡ true → (m' t).marked ≡ true
      along here h = h
      along {s} (via cs e i r) h = elim (a.closed s h) [
        | inl h₀ ↦ absurd (dirty h₀)
        | inr f ↦ along r (f cs _ e i)
      ]

-- The roots of a collection: nil, what the threads hold, and the retained items.
abbrev pub roots : Address → World → List Thread → List Address
roots nil w ts = nil ∷ (thread_roots ts ++ retained_roots w.flags w.blocks)

pub record Collects (live : Address → Type 0) (w w' : World) : Type 0 where
  pub kept : (q : Address) → live q → InSome w.blocks q → Kept w w' q × InSome w'.blocks q
  pub members : List Address
  pub linked : Linked w'.payloads w'.free members
  pub garbage : (q : Address) → InSome w'.blocks q → (live q → ⊥) → Member q members
  pub dead : (q : Address) → Member q members → (live q → ⊥) × InSome w'.blocks q
  pub blocks :
      (b : Address)
      → Member b w'.blocks
      → Member b w.blocks × ((q : Address) × InBlock b q × live q)

module _ (width fuel n : ℕ) (nil : Address) (w : World) (ts : List Thread)
    (tidy : IsTidy (children w.payloads width) n) (deep : n < fuel) where
  abbrev kids : Address → Option (List Address)
  kids = children w.payloads width

  mark_all-Marks :
      (ps : List Address) (m : Marking)
      → Every (λ c. c < n) ps
      → (m' : Marking) × (mark_all width fuel nil w ps m ≡ some m') × Marks kids ps m m'
  unfolding mark_all
  mark_all-Marks ps m below =
      each-Marks kids (mark kids fuel) n fuel (mark-Marks kids n fuel tidy) ps m below
        (omega (arith, unmarked-bound n m))

  pub mark_roots-Marks :
      Every (λ c. c < n) (roots nil w ts)
      → (m : Marking) × (mark_roots width fuel nil w ts ≡ some m)
        × Marks kids (roots nil w ts) w.flags m
  unfolding mark_roots
  mark_roots-Marks below =
      let (threads, retained) = Every-append _ (thread_roots ts) _ below.1 in
      let (m₁, e₁, a₁) = mark_all-Marks (thread_roots ts) w.flags threads in
      let (m₂, e₂, a₂) = mark_all-Marks (nil ∷ []) m₁ (below.0, tt) in
      let (m₃, e₃, a₃) = mark_all-Marks (thread_roots ts) m₂ threads in
      let same =
        retained_roots_same w.flags m₃ w.blocks (λ q. a₃.retains q ∙ a₂.retains q ∙ a₁.retains q) in
      let (m₄, e₄, a₄) = mark_all-Marks (retained_roots w.flags w.blocks) m₃ retained in
      (
        m₄,
        rw (e₁, e₂, e₃, same) e₄,
        Marks-same kids (twice (retained_roots w.flags w.blocks))
            (Marks-append kids a₁ (Marks-append kids a₂ (Marks-append kids a₃ a₄))),
      )
    where
      twice :
          (rest : List Address) (q : Address)
          → Member q (thread_roots ts ++ nil ∷ (thread_roots ts ++ rest))
            ↔ Member q (nil ∷ (thread_roots ts ++ rest))
      twice rest q = (
        λ i. elim (Member-append_cases (thread_roots ts) _ q i) [
          | inl early ↦ inr (Member-append_left (thread_roots ts) rest q early)
          | inr later ↦ later
        ],
        Member-append_right (thread_roots ts) _ q,
      )

  -- In blocks that do not overlap, whose items below `n` refer to items below `n` through lists of
  -- the graph of at most `width` members, with roots below `n`, without a mark, and with fuel above
  -- `n`, a collection ends. It keeps each item of a block that the roots reach, but for the links
  -- between arenas, without a mark and in a block that stays; the list of free items has just the
  -- items of the blocks that stay that the roots do not reach; and a block stays when the roots
  -- reach one of its items.
  pub collect-Collects :
      IsApart w.blocks
      → Every (λ c. c < n) (roots nil w ts)
      → ((q : Address) → (w.flags q).marked ≡ false)
      → (w' : World) × (collect width fuel nil w ts ≡ some (w', forget_free ts))
        × Collects (Reached kids (roots nil w ts)) w w'
  unfolding collect
  collect-Collects apart below clean =
      let (m, e, a) = mark_roots-Marks below in
      let live = marked_lem kids clean a in
      let s = sweep-SweptBlocks (record w { flags = m }) apart in
      (
        sweep (record w { flags = m }),
        rw e refl,
        record {
          kept = λ q r i.
              let k = s.kept q i ((live q).1 r) in
              (
                record {
                  payload = k.payload;
                  cleared = k.cleared;
                  retained = k.retained ∙ a.retains q;
                },
                (i.0, s.stays i.0 q i.1 i.2 ((live q).1 r), i.2),
              );
          members = s.list.members;
          linked = s.list.linked;
          garbage = λ q i unreached. s.list.added q (i, unmarked_of (live q) unreached);
          dead = λ q i. elim (s.list.only q i) [
            | inl x ↦ absurd x
            | inr f ↦ (λ r. contradiction ((live q).1 r) f.1, f.0)
          ];
          blocks = λ b i.
              let (old, (q, inside, marked)) = s.goes b i in (old, (q, inside, (live q).0 marked));
        },
      )
    where
      contradiction : {b : Bool} → b ≡ true → b ≡ false → ⊥
      contradiction h e = cc

      unmarked_of : {b : Bool} {A : Type 0} → (b ≡ true) ↔ A → (A → ⊥) → b ≡ false
      unmarked_of {b = true} same h = absurd (h (same.0 refl))
      unmarked_of {b = false} same h = refl
