-- ===== src/Handle/Tests.antt =====
-- The handle of 1.0, one of an item, and a word that is neither.
use reduct.Prelude.{ℕ, ◌*◌, ◌^◌, ◌==◌, false, ◌≡◌, refl, if◌then◌else◌, arith}
use reduct.Handle.{
  from_item, is_number, is_item, to_item, HandleType, Memory, item_handle_type, get_type, is_truthy,
}
use reduct.Handle.Item
use reduct.Handle.Words.{Numbered, Addressed, Classified, handle_lem, handle_cases}

abbrev one_bits : ℕ
one_bits = 1023 * 2 ^ 52

-- An empty list at 64.
abbrev empty_list : Memory
empty_list = record {
  item_type = λ p. if p == 64 then Item.list else Item.none;
  atom_is_number = λ p. false;
  list_length = λ p. 0;
}

handle_lem_example : Numbered empty_list one_bits × Addressed empty_list 64
handle_lem_example = handle_lem empty_list one_bits 64 (omega arith) (omega arith)

handle_cases_example : Classified (3 * 2 ^ 48)
handle_cases_example = handle_cases (3 * 2 ^ 48) (omega arith)

list_type : get_type empty_list (from_item 64) ≡ HandleType.list
unfolding get_type from_item is_number is_item to_item item_handle_type
list_type = refl

list_false : is_truthy empty_list (from_item 64) ≡ false
unfolding is_truthy from_item is_item to_item
list_false = refl
