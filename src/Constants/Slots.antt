-- ===== src/Constants/Slots.antt =====
-- The slots that are given out for constants.
use reduct.Prelude.{
  ℕ, suc, ◌+◌, ◌≤◌, ◌<◌, ◌≡◌, refl, ap, Bool, true, Option, none, some, List, [], ◌∷◌, ◌++◌, ltb,
  leb, length, get_elem?, Bool-cases, inl, inr, arith, length-append,
}
use reduct.Constants.{
  Function, constant_max, Added, added, too_many_captures, too_many_constants, new_capacity,
  grow_constants, find_constant, store_constant, add_constant,
}

module _ {Handle : Type 0} where
  -- No more constants than their capacity, and all slots below the maximum.
  pub record IsFunction (f : Function Handle) : Type 0 where
    pub count_le : length f.constants ≤ f.constant_capacity
    pub slots : (0 < f.constant_capacity) → f.capture_count + f.constant_capacity ≤ constant_max

  -- The constant in slot `i` is there and equal, and the constants that there were are kept.
  pub record Stores (equal : Handle → Handle → Bool) (f : Function Handle) (v : Handle) (slot : ℕ)
      (f' : Function Handle) : Type 0 where
    pub is_function : IsFunction f'
    pub small : slot < constant_max
    pub index : ℕ
    pub slot_is : slot ≡ f'.capture_count + index
    pub value : Handle
    pub at_index : get_elem? f'.constants index ≡ some value
    pub same : equal value v ≡ true
    pub added_back : List Handle
    pub kept : f'.constants ≡ f.constants ++ added_back

  abbrev Found : (Handle → Handle → Bool) → List Handle → Handle → Option ℕ → Type 0
  Found equal cs v none = Unit
  Found equal cs v (some i) =
      (i < length cs) × (value : Handle) × (get_elem? cs i ≡ some value) × (equal value v ≡ true)

  Found-later :
      (equal : Handle → Handle → Bool) (c : Handle) (cs : List Handle) (v : Handle) (o : Option ℕ)
      → Found equal cs v o
      → Found equal (c ∷ cs) v (elim o [ none ↦ none | some i ↦ some (suc i) ])
  Found-later equal c cs v none found = tt
  Found-later equal c cs v (some i) (lt, value, here, same) = (omega arith, value, here, same)

  find_constant-Found :
      (equal : Handle → Handle → Bool) (cs : List Handle) (v : Handle)
      → Found equal cs v (find_constant equal cs v)
  unfolding find_constant
  find_constant-Found equal [] v = tt
  find_constant-Found equal (c ∷ cs) v =
      let rest = find_constant-Found equal cs v in
      elim (Bool-cases (equal c v)) [
        | inl yes_equal ↦ rw yes_equal (omega arith, c, refl, yes_equal)
        | inr other ↦ rw other (Found-later equal c cs v (find_constant equal cs v) rest)
      ]

  get_elem?_last : (cs : List Handle) (v : Handle) → get_elem? (cs ++ v ∷ []) (length cs) ≡ some v
  get_elem?_last [] v = refl
  get_elem?_last (c ∷ cs) v = get_elem?_last cs v

  append_none : (cs : List Handle) → cs ≡ cs ++ []
  append_none [] = refl
  append_none (c ∷ cs) = ap (◌∷◌ c) (append_none cs)

  -- What adding a constant gives: a slot, or an error where the constants fill their capacity and
  -- twice that capacity does not fit behind the captures.
  abbrev pub Outcome :
      (Handle → Handle → Bool) → Function Handle → Handle → Added (ℕ × Function Handle) → Type 0
  Outcome equal f v (added (slot, f')) = Stores equal f v slot f'
  Outcome equal f v too_many_constants =
      (f.constant_capacity ≡ length f.constants) × (constant_max < f.capture_count + new_capacity f)
  Outcome equal f v too_many_captures = ⊥

  module _ (equal : Handle → Handle → Bool) (f : Function Handle) (v : Handle)
      (reflexive : equal v v ≡ true) (is : IsFunction f) where
    stored :
        (cap : ℕ)
        → length f.constants < cap
        → f.capture_count + cap ≤ constant_max
        → Outcome equal f v (store_constant v (added (record f { constant_capacity = cap })))
    stored cap lt le = record {
      is_function = record {
        count_le = omega (arith, length-append f.constants (v ∷ []));
        slots = λ p. le;
      };
      small = omega arith;
      index = length f.constants;
      slot_is = refl;
      value = v;
      at_index = get_elem?_last f.constants v;
      same = reflexive;
      added_back = v ∷ [];
      kept = refl;
    }

    grown-Outcome : Outcome equal f v (store_constant v (grow_constants f))
    unfolding grow_constants
    grown-Outcome = elim (Bool-cases (leb f.constant_capacity (length f.constants))) [
      | inl full ↦ elim (Bool-cases (ltb constant_max (f.capture_count + new_capacity f))) [
        | inl over ↦ rw (full, over) (ground (arith, full, is.count_le), ground (arith, over))
        | inr fits ↦
            rw (full, fits)
              (stored (new_capacity f) (ground (arith, is.count_le)) (ground (arith, fits)))
      ]
      | inr room ↦
          rw room
            (stored f.constant_capacity (ground (arith, room)) (ground (arith, room, is.slots)))
    ]

    added-Outcome :
        (o : Option ℕ)
        → Found equal f.constants v o
        → Outcome equal f v (elim o [
          | some i ↦ added (f.capture_count + i, f)
          | none ↦ store_constant v (grow_constants f)
        ])
    added-Outcome none found = grown-Outcome
    added-Outcome (some i) (lt, value, here, same) = record {
      is_function = is;
      small = omega (arith, is.count_le, is.slots (omega (arith, is.count_le)));
      index = i;
      slot_is = refl;
      value = value;
      at_index = here;
      same = same;
      added_back = [];
      kept = append_none f.constants;
    }

    -- Adding a constant that is equal to itself, to a function whose slots are below the maximum,
    -- gives a slot below the maximum that holds an equal constant and keeps all that there were,
    -- or an error where the constants fill their capacity and its double does not fit.
    pub add_constant-Outcome : Outcome equal f v (add_constant equal f v)
    unfolding add_constant
    add_constant-Outcome =
        added-Outcome (find_constant equal f.constants v) (find_constant-Found equal f.constants v)
