-- ===== src/Atoms/Tests.antt =====
-- A table of four slots with one atom and a tombstone on its path, and an atom that is not in it.
use reduct.Prelude.{
  ℕ, zero, suc, ◌<◌, ◌≡◌, ◌≢◌, refl, sym, subst, ◌==◌, if◌then◌else◌, false, some, [], ◌∷◌, arith,
}
use reduct.Collector.Sweep.{Slot, empty, tombstone, alive, write}
use reduct.Atoms.Map.{
  Atom, Table, Key, matches, is_equal, first_of, probe_slot, probe, map_find, intern, leave_slot,
  map_update,
}
use reduct.Atoms.Probes.{triangular}
use reduct.Atoms.Finds.{slot_at, IsTable, OnPath, IsPlaced, HasMatch, Finds, map_find-Finds}
use reduct.Atoms.Keeps.{intern-found}

abbrev slots : ℕ → Slot
slots (suc zero) = tombstone
slots (suc (suc zero)) = alive 7
slots _ = empty

abbrev atom : Atom
atom = record { string = 97 ∷ []; hash = 5; index = some 2; quoted = false }

abbrev table : Table
table = record {
  map = slots;
  atoms = λ p. record atom { string = (if p == 8 then 98 else 97) ∷ [] };
  size = 1;
  capacity = 4;
  mask = 3;
  tombstones = 1;
}

abbrev key : Key
key = record { hash = 5; string = 97 ∷ []; quoted = false }

table-IsTable : IsTable 2 table
table-IsTable = record { capacity = refl; mask = refl }

table-IsPlaced : IsPlaced 2 table
unfolding slot_at triangular
table-IsPlaced zero p e = cc
table-IsPlaced (suc zero) p e = cc
table-IsPlaced (suc (suc zero)) p e = (1, (refl, before))
  where
    before : (j : ℕ) → j < 1 → slots (slot_at 2 5 j) ≢ empty
    before zero lt = λ e. cc
    before (suc j) lt = absurd (omega arith)
table-IsPlaced (suc (suc (suc i))) p e = cc

map_find-Finds_example : (i : ℕ) × (map_find table key ≡ some i) × Finds 2 table key i
map_find-Finds_example =
    map_find-Finds 2 table key table-IsTable table-IsPlaced 3 (omega arith) refl

-- The search passes the tombstone.
found_behind : map_find table key ≡ some 2
unfolding map_find probe probe_slot matches is_equal first_of
found_behind = refl

-- A search for another string gives the tombstone.
other_key : map_find table (record key { string = 98 ∷ [] }) ≡ some 1
unfolding map_find probe probe_slot matches is_equal first_of
other_key = refl

-- The update of an atom that stays in its slot counts a tombstone that is not there.
update_counts : (map_update (intern table 8 1 5) 8 1 6).tombstones ≡ 2
unfolding map_update leave_slot intern write
update_counts = refl

path_of_one : OnPath 2 table 5 1
unfolding slot_at triangular
path_of_one = (0, (refl, λ j lt. absurd (omega arith)))

nowhere : (j : ℕ) → slots j ≢ alive 8
nowhere zero e = cc
nowhere (suc zero) e = cc
nowhere (suc (suc zero)) e = cc
nowhere (suc (suc (suc j))) e = cc

new_key : Key
new_key = record key { string = 98 ∷ [] }

Finds-new : Finds 2 table new_key 1
unfolding new_key map_find probe probe_slot matches is_equal first_of
Finds-new =
    let (i, e, finds) =
      map_find-Finds 2 table new_key table-IsTable table-IsPlaced 3 (omega arith) refl in
    subst (Finds 2 table new_key) (injective (sym e)) finds
  where
    injective : {i : ℕ} → some i ≡ some 1 → i ≡ 1
    injective e = cc

intern-found_example :
    (j : ℕ) × (map_find (intern table 8 1 5) new_key ≡ some j)
    × HasMatch (intern table 8 1 5) new_key j
unfolding new_key matches is_equal intern write
intern-found_example =
    intern-found 2 table new_key 8 1 3 table-IsTable table-IsPlaced Finds-new nowhere refl
      (omega arith) refl
