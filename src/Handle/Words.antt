-- ===== src/Handle/Words.antt =====
-- Which words are handles of what.
use reduct.Prelude.{
  ℕ, ◌+◌, ◌-◌, ◌*◌, ◌/◌, ◌^◌, ◌<◌, ◌≤◌, bit_and, bit_or, true, false, not, ◌||◌, leb, ltb,
  Bool-cases, ltb→lt, leb→le, min, max, ◌==◌, ◌≡◌, inl, inr, refl, sym, ◌∙◌, ap, arith,
}
use reduct.Prelude.Bits.{
  bit_at, bit_at-lt, bit_at-bit_or, bit_at-bit_and, bit_at-shl, bit_at-shr, bit_at_beyond, bit_ext,
  zero-bit_at,
}
use reduct.Prelude.Words.{low_mask, bit_at_back, bit_at-low_mask, bit_and-low_mask}
use reduct.Handle.{
  word, offset_number, mask_tag, from_number, to_number, from_item, to_item, is_number, is_item,
  HandleType, Memory, item_handle_type, get_type, is_list, is_truthy,
}
use reduct.Handle.Item

tag_bits : (h : ℕ) → h < word → bit_and h mask_tag ≡ h / 2 ^ 48 * 2 ^ 48
tag_bits h lt = bit_ext _ _ λ k.
    bit_at-bit_and h mask_tag k
    ∙ ap (λ t. min (bit_at h k) t) (bit_at-shl (low_mask 16) 48 k)
    ∙ elim (Bool-cases (ltb k 48)) [
      | inl low ↦ rw low (omega arith)
      | inr high ↦ rw high (
          ground (
            arith,
            bit_at-low_mask 16 (k - 48),
            bit_at-shr h 48 (k - 48),
            bit_at_back h 48 k high,
            bit_at-lt h k,
            bit_at_beyond 64 h k lt,
          ))
    ]
    ∙ sym (bit_at-shl (h / 2 ^ 48) 48 k)

bit_or_zero : (x : ℕ) → bit_or 0 x ≡ x
bit_or_zero x =
    bit_ext _ _
      λ k. bit_at-bit_or 0 x k ∙ ap (λ t. max t (bit_at x k)) (zero-bit_at k) ∙ omega arith

item_iff : (h : ℕ) → h < word → is_item h ≡ ltb h (2 ^ 48)
unfolding is_item
item_iff h lt = ground (arith, tag_bits h lt)

number_lem :
    (u : ℕ)
    → u < word - offset_number
    → (is_number (from_number u) ≡ true)
      × (is_item (from_number u) ≡ false)
      × (to_number (from_number u) ≡ u)
unfolding is_number from_number to_number
number_lem u lt = (
  ground (arith, shifted),
  item_iff (from_number u) (omega arith) ∙ ground (arith, shifted),
  omega (arith, shifted),
)
  where
    shifted : from_number u ≡ u + offset_number
    shifted = omega arith

item_lem :
    (p : ℕ)
    → p < 2 ^ 48
    → (is_number (from_item p) ≡ false)
      × (is_item (from_item p) ≡ true)
      × (to_item (from_item p) ≡ p)
unfolding is_number from_item to_item
item_lem p lt = (
  ground (arith, same),
  item_iff (from_item p) (omega (arith, same)) ∙ ground (arith, same),
  bit_and-low_mask 48 (from_item p) ∙ omega (arith, same),
)
  where
    same : from_item p ≡ p
    same = bit_or_zero (bit_and p (low_mask 48)) ∙ bit_and-low_mask 48 p ∙ omega arith

-- A handle from the bits `u` of a double, and one from an address `p`.
pub record Numbered (m : Memory) (u : ℕ) : Type 0 where
  pub number : is_number (from_number u) ≡ true
  pub no_item : is_item (from_number u) ≡ false
  pub back : to_number (from_number u) ≡ u
  pub type : get_type m (from_number u) ≡ HandleType.number
  pub truthy : is_truthy m (from_number u) ≡ true

pub record Addressed (m : Memory) (p : ℕ) : Type 0 where
  pub no_number : is_number (from_item p) ≡ false
  pub item : is_item (from_item p) ≡ true
  pub back : to_item (from_item p) ≡ p
  pub type : get_type m (from_item p) ≡ item_handle_type m p (m.item_type p)
  pub truthy :
      is_truthy m (from_item p) ≡ (not (m.item_type p == Item.list) || not (m.list_length p == 0))

get_type_number : (m : Memory) (h : ℕ) → is_number h ≡ true → get_type m h ≡ HandleType.number
unfolding get_type
get_type_number m h e = rw e refl

get_type_item :
    (m : Memory) (h p : ℕ)
    → is_number h ≡ false
    → is_item h ≡ true
    → to_item h ≡ p
    → get_type m h ≡ item_handle_type m p (m.item_type p)
unfolding get_type
get_type_item m h p e i at = rw e (rw i (rw at refl))

truthy_other : (m : Memory) (h : ℕ) → is_item h ≡ false → is_truthy m h ≡ true
unfolding is_truthy is_list
truthy_other m h i = rw i refl

truthy_item :
    (m : Memory) (h p : ℕ)
    → is_item h ≡ true
    → to_item h ≡ p
    → is_truthy m h ≡ (not (m.item_type p == Item.list) || not (m.list_length p == 0))
unfolding is_truthy is_list
truthy_item m h p i at = rw i (rw at refl)

-- The bits of a double below 0xFFF9000000000000, which all doubles are but some negative NaNs, make
-- a handle that is a number, no item, and true, and come back from it. An address below 2^48 makes a
-- handle that is an item and no number and has the type of the item, which is false just for the empty list; the address
-- comes back from it.
pub handle_lem :
    (m : Memory) (u p : ℕ) → u < word - offset_number → p < 2 ^ 48 → Numbered m u × Addressed m p
handle_lem m u p lt below =
    let (number, no_item, u_back) = number_lem u lt in
    let (no_number, item, p_back) = item_lem p below in
    (
      record {
        number = number;
        no_item = no_item;
        back = u_back;
        type = get_type_number m (from_number u) number;
        truthy = truthy_other m (from_number u) no_item;
      },
      record {
        no_number = no_number;
        item = item;
        back = p_back;
        type = get_type_item m (from_item p) p no_number item p_back;
        truthy = truthy_item m (from_item p) p item p_back;
      },
    )

-- What a word is: a number, whose double is that of the word; an item, whose address is that of the
-- word; or neither, of a type that is not known.
pub data Classified (h : ℕ) : Type 0 where
  numeric :
      is_number h ≡ true
      → is_item h ≡ false
      → to_number h < word - offset_number
      → from_number (to_number h) ≡ h
      → Classified h
  itemized :
      is_number h ≡ false
      → is_item h ≡ true
      → to_item h < 2 ^ 48
      → from_item (to_item h) ≡ h
      → Classified h
  foreign :
      is_number h ≡ false
      → is_item h ≡ false
      → ((m : Memory) → get_type m h ≡ HandleType.unknown)
      → Classified h

unshifted : (h : ℕ) → h < word → offset_number ≤ h → to_number h ≡ h - offset_number
unfolding to_number
unshifted h lt le = omega arith

shifted_back : (h : ℕ) → h < word → offset_number ≤ h → from_number (to_number h) ≡ h
unfolding from_number
shifted_back h lt le = omega (arith, unshifted h lt le)

address : (h : ℕ) → h < 2 ^ 48 → to_item h ≡ h
unfolding to_item
address h lt = bit_and-low_mask 48 h ∙ omega arith

packed : (h : ℕ) → h < 2 ^ 48 → from_item (to_item h) ≡ h
unfolding from_item
packed h lt =
    ap (λ p. bit_or 0 (bit_and p (low_mask 48))) (address h lt)
    ∙ bit_or_zero (bit_and h (low_mask 48))
    ∙ bit_and-low_mask 48 h
    ∙ omega arith

get_type_foreign :
    (m : Memory) (h : ℕ)
    → is_number h ≡ false
    → is_item h ≡ false
    → get_type m h ≡ HandleType.unknown
unfolding get_type
get_type_foreign m h e i = rw e (rw i refl)

-- Each word of 64 bits is just one of: a number, which is the word that its double makes, the double
-- being below 0xFFF9000000000000; an item, which is the word that its address below 2^48 makes; or
-- a word of unknown type, whatever memory holds.
pub handle_cases : (h : ℕ) → h < word → Classified h
unfolding is_number
handle_cases h lt = elim (Bool-cases (leb offset_number h)) [
  | inl high ↦
      let le = leb→le offset_number h high in
      numeric high (item_iff h lt ∙ ground arith) (omega (arith, unshifted h lt le))
        (shifted_back h lt le)
  | inr low ↦ elim (Bool-cases (ltb h (2 ^ 48))) [
    | inl item ↦
        let below = ltb→lt h (2 ^ 48) item in
        itemized low (item_iff h lt ∙ item) (omega (arith, address h below)) (packed h below)
    | inr other ↦
        foreign low (item_iff h lt ∙ other) (λ m. get_type_foreign m h low (item_iff h lt ∙ other))
  ]
]
