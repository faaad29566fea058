-- ===== src/Arena.antt =====
-- src/arena.c and include/reduct/arena.h: bump allocation in arenas, with chunks that can grow at
-- the end of their arena. Arenas are numbered in the order of allocation and hold bytes; the
-- collector, which frees arenas, is left out.
pub mod Rounding
pub mod Alloc
mod Tests
use reduct.Prelude.{
  ℕ, zero, suc, ◌+◌, ◌-◌, ◌*◌, ◌%◌, ◌^◌, Bool, true, false, ◌&&◌, ◌||◌, not, Option, none, some,
  ltb, leb, ◌==◌, if◌then◌else◌, bit_and,
}
use reduct.Prelude.BitTests.{not64}

-- `reduct_arena_t`.
pub record Arena : Type 0 where
  pub next : Option ℕ
  pub prev : Option ℕ
  pub capacity : ℕ
  pub count : ℕ
  pub bytes : ℕ → ℕ

-- All arenas, and `current` of `reduct_arena_local_t`.
pub record Arenas : Type 0 where
  pub all : ℕ → Arena
  pub number : ℕ
  pub current : Option ℕ

-- `reduct_arena_chunk_t`, whose pointer is an offset into the data of its arena.
pub record Chunk : Type 0 where
  pub arena : ℕ
  pub offset : ℕ
  pub size : ℕ

abbrev pub arena_min : ℕ
arena_min = 1024

abbrev pub arena_growth : ℕ
arena_growth = 2

abbrev pub u64 : ℕ → ℕ
u64 x = x % 2 ^ 64

-- `REDUCT_ROUND_UP(x, 8)`.
unfoldable pub round_up : ℕ → ℕ
round_up x = bit_and (u64 (x + 8 - 1)) (not64 (8 - 1))

-- The loop that doubles the capacity, at most `n` rounds of it.
unfoldable pub grow_capacity : ℕ → ℕ → ℕ → ℕ
grow_capacity zero size capacity = capacity
grow_capacity (suc n) size capacity =
    let rest = grow_capacity n size (u64 (capacity * arena_growth)) in
    if ltb capacity size then rest else capacity

-- An allocation fails if the platform has no memory left.
abbrev pub update_at : (ℕ → Arena) → ℕ → Arena → ℕ → Arena
update_at all k a j = if j == k then a else all j

abbrev pub link_next : Arenas → Option ℕ → (ℕ → Arena)
link_next s none = s.all
link_next s (some k) = update_at s.all k (record (s.all k) { prev = some s.number })

-- `reduct_arena_new` and the code behind it that makes the new arena the current one.
unfoldable pub arena_new : ℕ → Arenas → ℕ × Arenas
arena_new capacity s = (
  s.number,
  record {
    all =
        update_at (link_next s s.current) s.number (record {
          next = s.current;
          prev = none;
          capacity = capacity;
          count = 0;
          bytes = λ i. 0;
        });
    number = s.number + 1;
    current = some s.number;
  },
)

-- `reduct_arena_get`: the current arena, or a new one where it has no room.
unfoldable pub get_from : ℕ → Arenas → Option ℕ → ℕ × Arenas
unfolding round_up grow_capacity arena_new
get_from size s none = arena_new (grow_capacity 64 size arena_min) s
get_from size s (some k) =
    if ltb (s.all k).capacity (u64 (round_up (s.all k).count + size))
    then arena_new (grow_capacity 64 size arena_min) s
    else (k, s)

unfoldable pub arena_get : ℕ → Arenas → ℕ × Arenas
unfolding get_from
arena_get size s = get_from size s s.current

abbrev pub bump : ℕ → ℕ × Arenas → Chunk × Arenas
bump size (k, s) =
    let offset = round_up (s.all k).count in
    (
      record { arena = k; offset = offset; size = size },
      record s { all = update_at s.all k (record (s.all k) { count = u64 (offset + size) }) },
    )

-- `reduct_arena_alloc`.
unfoldable pub arena_alloc : ℕ → Arenas → Chunk × Arenas
unfolding arena_get
arena_alloc size s = bump size (arena_get size s)

-- `memcpy` of `n` bytes of arena `from` at `j` to arena `to` at `i`.
abbrev pub copy_bytes : Arenas → (to i from j n : ℕ) → Arenas
copy_bytes s to i from j n =
    let a = s.all to in
    record s {
      all = update_at s.all to (record a {
        bytes =
            λ x. if leb i x && ltb x (i + n) then (s.all from).bytes (j + (x - i)) else a.bytes x;
      });
    }

abbrev pub copy_chunk : Chunk → Chunk × Arenas → Chunk × Arenas
copy_chunk chunk (out, s) =
    (out, copy_bytes s out.arena out.offset chunk.arena chunk.offset chunk.size)

-- `reduct_arena_alloc_super` of a chunk that has an arena. A chunk at the end of its arena grows in
-- place where there is room; another one is copied.
unfoldable pub arena_alloc_super : ℕ → Chunk → Arenas → Chunk × Arenas
unfolding arena_alloc
arena_alloc_super size chunk s =
    let a = s.all chunk.arena in
    if chunk.offset + chunk.size == a.count && leb (u64 (a.count + size - chunk.size)) a.capacity
    then (
      record { arena = chunk.arena; offset = chunk.offset; size = size },
      record s {
        all = update_at s.all chunk.arena (record a { count = u64 (a.count + size - chunk.size) });
      },
    )
    else copy_chunk chunk (arena_alloc size s)
