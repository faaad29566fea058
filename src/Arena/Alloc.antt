-- ===== src/Arena/Alloc.antt =====
-- Where an allocated chunk stands, and what the arenas hold then.
use reduct.Prelude.{
  ℕ, ◌+◌, ◌*◌, ◌/◌, ◌%◌, ◌^◌, ◌≤◌, ◌<◌, ◌≡◌, refl, ap, ◌∙◌, sym, subst, arith, ltb, Bool-cases, inl,
  inr, ◌⊎◌, Option, none, some, ◌==◌, ==_iff, ==_refl, if◌then◌else◌,
}
use reduct.Arena.Rounding.{round_up_lem, grow_capacity_enough}
use reduct.Arena.{
  Arena, Arenas, Chunk, arena_min, u64, round_up, grow_capacity, update_at, link_next, arena_new,
  get_from, bump, arena_alloc,
}

-- No arena has given out more than it has, and the current one exists.
pub record IsArenas (s : Arenas) : Type 0 where
  pub fits :
      (k : ℕ)
      → k < s.number
      → ((s.all k).count ≤ (s.all k).capacity) × ((s.all k).capacity ≤ 2 ^ 62)
  pub exists : (k : ℕ) → s.current ≡ some k → k < s.number

-- From `s` to `s'` the bytes of all arenas are kept, and a chunk is given out that is aligned and
-- stands in its arena behind all that the arena had given out.
pub record Allocates (s : Arenas) (size : ℕ) (chunk : Chunk) (s' : Arenas) : Type 0 where
  pub is_arenas : IsArenas s'
  pub size_is : chunk.size ≡ size
  pub exists : chunk.arena < s'.number
  pub aligned : chunk.offset % 8 ≡ 0
  pub inside : chunk.offset + size ≤ (s'.all chunk.arena).capacity
  pub given_out : (s'.all chunk.arena).count ≡ chunk.offset + size
  pub behind : (chunk.arena ≡ s.number) ⊎ ((s.all chunk.arena).count ≤ chunk.offset)
  pub same_bytes : (k : ℕ) → k < s.number → (s'.all k).bytes ≡ (s.all k).bytes

-- An arena with room, in place of all arenas or with one more.
record HasRoom (s : Arenas) (size k : ℕ) (s₁ : Arenas) : Type 0 where
  is_arenas : IsArenas s₁
  exists : k < s₁.number
  room : (s₁.all k).count + 7 + size < 2 ^ 64
  enough : round_up (s₁.all k).count + size ≤ (s₁.all k).capacity
  fresh : (k ≡ s.number) ⊎ ((s.all k).count ≤ (s₁.all k).count)
  number_le : s.number ≤ s₁.number
  same_bytes : (j : ℕ) → j < s.number → (s₁.all j).bytes ≡ (s.all j).bytes

bump-Allocates :
    (s : Arenas) (size k : ℕ) (s₁ : Arenas)
    → HasRoom s size k s₁
    → Allocates s size (bump size (k, s₁)).0 (bump size (k, s₁)).1
bump-Allocates s size k s₁ has = record {
  is_arenas = record {
    fits = λ j lt. elim (Bool-cases (j == k)) [
      | inl e ↦ rw e (given, (has.is_arenas.fits k has.exists).1)
      | inr e ↦ rw e (has.is_arenas.fits j lt)
    ];
    exists = has.is_arenas.exists;
  };
  size_is = refl;
  exists = has.exists;
  aligned = ground (arith, rounded);
  inside = omega (arith, has.enough, ap Arena.capacity here);
  given_out = ap Arena.count here ∙ no_wrap;
  behind = elim has.fresh [ inl e ↦ inl e | inr le ↦ inr (omega (arith, rounded, le)) ];
  same_bytes = λ j lt. elim (Bool-cases (j == k)) [
    | inl e ↦ rw e (
        subst (λ i. a.bytes ≡ (s.all i).bytes) (sym ((==_iff j k).0 e))
          (has.same_bytes k (subst (λ i. i < s.number) ((==_iff j k).0 e) lt)))
    | inr e ↦ rw e (has.same_bytes j lt)
  ];
}
  where
    a : Arena
    a = s₁.all k

    rounded : round_up a.count ≡ (a.count + 7) / 8 * 8
    rounded = round_up_lem a.count (omega (arith, has.is_arenas.fits k has.exists))

    no_wrap : u64 (round_up a.count + size) ≡ round_up a.count + size
    no_wrap = omega (arith, rounded, has.room)

    given : u64 (round_up a.count + size) ≤ a.capacity
    given = omega (arith, no_wrap, has.enough)

    here :
        update_at s₁.all k (record a { count = u64 (round_up a.count + size) }) k
        ≡ record a { count = u64 (round_up a.count + size) }
    here = ap (λ b. if b then record a { count = u64 (round_up a.count + size) } else a) (==_refl k)

-- Linking the current arena to a new one changes its link only.
link_next-same :
    (s : Arenas) (o : Option ℕ) (j : ℕ)
    → ((link_next s o j).count ≡ (s.all j).count)
      × ((link_next s o j).capacity ≡ (s.all j).capacity)
      × ((link_next s o j).bytes ≡ (s.all j).bytes)
link_next-same s none j = (refl, refl, refl)
link_next-same s (some k) j = elim (Bool-cases (j == k)) [
  | inl e ↦
      let same = sym ((==_iff j k).0 e) in
      rw e (
        ap (λ i. (s.all i).count) same,
        ap (λ i. (s.all i).capacity) same,
        ap (λ i. (s.all i).bytes) same,
      )
  | inr e ↦ rw e (refl, refl, refl)
]

-- A new arena has room for what it was made for.
module _ (s : Arenas) (size : ℕ) (are : IsArenas s) (small : size ≤ 2 ^ 61) where
  abbrev capacity : ℕ
  capacity = grow_capacity 64 size arena_min

  abbrev added : Arena
  added = record { next = s.current; prev = none; capacity = capacity; count = 0; bytes = λ i. 0 }

  added_last : update_at (link_next s s.current) s.number added s.number ≡ added
  added_last = ap (λ b. if b then added else link_next s s.current s.number) (==_refl s.number)

  capacity_lem : (size ≤ capacity) × (capacity ≤ 2 ^ 62)
  capacity_lem =
      grow_capacity_enough 64 size arena_min (omega arith) (omega arith) small (omega arith)

  arena_new-IsArenas : IsArenas (arena_new capacity s).1
  unfolding arena_new
  arena_new-IsArenas = record {
    fits = λ j lt. elim (Bool-cases (j == s.number)) [
      | inl e ↦ rw e (omega arith, capacity_lem.1)
      | inr e ↦
          let same = link_next-same s s.current j in
          let old = are.fits j (ground (arith, e)) in
          rw e (omega (arith, same.0, same.1, old.0), omega (arith, same.1, old.1))
    ];
    exists = λ k e. ground (arith, e);
  }

  arena_new-HasRoom : HasRoom s size (arena_new capacity s).0 (arena_new capacity s).1
  unfolding arena_new
  arena_new-HasRoom = record {
    is_arenas = arena_new-IsArenas;
    exists = omega arith;
    room = omega (arith, ap Arena.count added_last);
    enough =
        subst (λ a. round_up a.count + size ≤ a.capacity) (sym added_last)
          (omega (arith, round_up_lem 0 (omega arith), capacity_lem.0));
    fresh = inl refl;
    number_le = omega arith;
    same_bytes = λ j lt. elim (Bool-cases (j == s.number)) [
      | inl e ↦ absurd (ground (arith, e))
      | inr e ↦ rw e (link_next-same s s.current j).2
    ];
  }

  get_from-HasRoom :
      (o : Option ℕ) → s.current ≡ o → HasRoom s size (get_from size s o).0 (get_from size s o).1
  unfolding get_from
  get_from-HasRoom none e = arena_new-HasRoom
  get_from-HasRoom (some k) e =
      elim (Bool-cases (ltb (s.all k).capacity (u64 (round_up (s.all k).count + size)))) [
        | inl full ↦ rw full arena_new-HasRoom
        | inr open_room ↦
            let lt = are.exists k e in
            let old = are.fits k lt in
            let rounded = round_up_lem (s.all k).count (omega (arith, old.0, old.1)) in
            rw open_room (record {
              is_arenas = are;
              exists = lt;
              room = omega (arith, old.0, old.1);
              enough = ground (arith, open_room, rounded, old.0, old.1);
              fresh = inr (omega arith);
              number_le = omega arith;
              same_bytes = λ j p. refl;
            })
      ]

-- Allocating at most 2^61 bytes, where no arena has given out more than it has, gives an aligned
-- chunk of that size inside its arena, behind all that the arena had given out or in a new arena,
-- and keeps the bytes of all arenas.
pub arena_alloc-Allocates :
    (s : Arenas) (size : ℕ)
    → IsArenas s
    → size ≤ 2 ^ 61
    → Allocates s size (arena_alloc size s).0 (arena_alloc size s).1
unfolding arena_alloc
arena_alloc-Allocates s size are small =
    bump-Allocates s size _ _ (get_from-HasRoom s size are small s.current refl)
