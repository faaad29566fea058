-- ===== src/Atoms/Map.antt =====
-- The map of atoms and its operations. An atom is known by its address; the slots are those of the
-- collector's view of the map.
use Prim.Native.Nat.{bit_xor}
use reduct.Prelude.{
  ℕ, zero, suc, ◌+◌, ◌*◌, Bool, true, false, ◌&&◌, Option, none, some, List, [], ◌∷◌, ◌==◌,
  if◌then◌else◌, bit_and,
}
use reduct.Prelude.Words.{u32}
use reduct.Collector.Sweep.{Slot, empty, tombstone, alive, write}

-- The fields of `reduct_atom_t` that the map reads and writes; `index` is `none` for
-- REDUCT_ATOM_INDEX_NONE, and `quoted` the flag REDUCT_ATOM_FLAG_QUOTED.
pub record Atom : Type 0 where
  pub string : List ℕ
  pub hash : ℕ
  pub index : Option ℕ
  pub quoted : Bool

-- `reduct_atom_global_t`, with the atoms by address.
pub record Table : Type 0 where
  pub map : ℕ → Slot
  pub atoms : ℕ → Atom
  pub size : ℕ
  pub capacity : ℕ
  pub mask : ℕ
  pub tombstones : ℕ

abbrev pub fnv_prime : ℕ
fnv_prime = 16777619

abbrev pub fnv_offset : ℕ
fnv_offset = 2166136261

-- `reduct_hash`, from a hash on.
unfoldable pub hash_from : ℕ → List ℕ → ℕ
hash_from hash [] = hash
hash_from hash (c ∷ cs) = hash_from (u32 (bit_xor hash c * fnv_prime)) cs

unfoldable pub hash_of : List ℕ → ℕ
hash_of = hash_from fnv_offset

-- `reduct_atom_is_equal`: the lengths, and `memcmp`.
unfoldable pub is_equal : List ℕ → List ℕ → Bool
is_equal [] [] = true
is_equal [] (y ∷ ys) = false
is_equal (x ∷ xs) [] = false
is_equal (x ∷ xs) (y ∷ ys) = x == y && is_equal xs ys

abbrev pub same_flag : Bool → Bool → Bool
same_flag true b = b
same_flag false true = false
same_flag false false = true

-- What a search looks for: a hash, a string, and whether it is quoted.
pub record Key : Type 0 where
  pub hash : ℕ
  pub string : List ℕ
  pub quoted : Bool

unfoldable pub matches : Key → Atom → Bool
matches k a = a.hash == k.hash && same_flag a.quoted k.quoted && is_equal a.string k.string

unfoldable pub first_of : Option ℕ → ℕ → ℕ
first_of none i = i
first_of (some t) i = t

module _ (t : Table) where
  -- One round of the loop of `reduct_atom_map_find` at a slot, `later` being the rounds after it, and
  -- `tomb` the first tombstone that it has met.
  unfoldable pub probe_slot : Key → (Option ℕ → Option ℕ) → ℕ → Option ℕ → Slot → Option ℕ
  probe_slot k later index tomb empty = some (first_of tomb index)
  probe_slot k later index tomb tombstone = later (some (first_of tomb index))
  probe_slot k later index tomb (alive p) = if matches k (t.atoms p) then some index else later tomb

  -- `none` where the loop has not ended within the fuel.
  unfoldable pub probe : Key → (fuel index step : ℕ) → Option ℕ → Option ℕ
  unfolding probe_slot
  probe k zero index step tomb = none
  probe k (suc fuel) index step tomb =
      probe_slot k (probe k fuel (bit_and (index + step) t.mask) (suc step)) index tomb
        (t.map index)

  -- `reduct_atom_map_find`: as many rounds as there are slots.
  unfoldable pub map_find : Key → Option ℕ
  map_find k = probe k t.capacity (bit_and k.hash t.mask) 1 none

-- The writes of an atom to a slot and to its index: the end of `reduct_atom_lookup`, and
-- `reduct_atom_map_update`.
unfoldable pub intern : Table → (atom slot hash : ℕ) → Table
intern t p i hash = record t {
  map = write t.map i (alive p);
  atoms = write t.atoms p (record (t.atoms p) { hash = hash; index = some i });
}

unfoldable pub leave_slot : Table → Option ℕ → Table
leave_slot t none = t
leave_slot t (some i) = record t { map = write t.map i tombstone; tombstones = t.tombstones + 1 }

unfoldable pub map_update : Table → (atom slot hash : ℕ) → Table
map_update t p i hash = intern (leave_slot t (t.atoms p).index) p i hash
