-- ===== src/CharTable/Escape.antt =====
-- `reduct_atom_normalize_escape` of src/atom.c: the escapes of a string, decoded in place.
pub mod Roundtrip
use reduct.Prelude.{ℕ, ◌+◌, ◌*◌, ◌==◌, if◌then◌else◌, Bool, true, false, List, [], ◌∷◌}
use reduct.CharTable.{CharInfo, char_info}

abbrev pub backslash : ℕ
backslash = 92

-- `(char)((high << 4) | low)`.
abbrev pub hex_byte : ℕ → ℕ → ℕ
hex_byte h l = (char_info h).integer * 16 + (char_info l).integer

-- The characters are read before they are written over, since no more are written than read. A
-- backslash that ends the string stands for itself, and an escape that the table does not have
-- stands for nothing.
unfoldable pub normalize_escape : List ℕ → List ℕ
normalize_escape [] = []
normalize_escape (c ∷ []) = c ∷ []
normalize_escape (c ∷ d ∷ []) = elim (c == backslash) [
  | true ↦ if (char_info d).decode_escape == 0 then [] else (char_info d).decode_escape ∷ []
  | false ↦ c ∷ normalize_escape (d ∷ [])
]
normalize_escape (c ∷ d ∷ h ∷ []) = elim (c == backslash) [
  | true ↦
      let rest = normalize_escape (h ∷ []) in
      if (char_info d).decode_escape == 0 then rest else (char_info d).decode_escape ∷ rest
  | false ↦ c ∷ normalize_escape (d ∷ h ∷ [])
]
normalize_escape (c ∷ d ∷ h ∷ l ∷ rest) = elim (c == backslash) [
  | true ↦ elim ((char_info d).decode_escape == 0) [
    | false ↦ (char_info d).decode_escape ∷ normalize_escape (h ∷ l ∷ rest)
    | true ↦ elim (d == 120) [
      | true ↦ hex_byte h l ∷ normalize_escape rest
      | false ↦ normalize_escape (h ∷ l ∷ rest)
    ]
  ]
  | false ↦ c ∷ normalize_escape (d ∷ h ∷ l ∷ rest)
]
