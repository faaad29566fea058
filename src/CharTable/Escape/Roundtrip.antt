-- ===== src/CharTable/Escape/Roundtrip.antt =====
-- Strings with their escapes written out, and `reduct_atom_normalize_escape`.
use reduct.Prelude.{
  ℕ, ◌≤◌, ◌<◌, ◌≡◌, refl, ap, ap₂, ◌∙◌, Bool, true, false, ◌&&◌, not, List, [], ◌∷◌, ◌==◌,
  if◌then◌else◌, Bool-cases, inl, inr, arith, length,
}
use reduct.Prelude.Tables.{every_below, every_below_sound}
use reduct.CharTable.{char_info}
use reduct.CharTable.Escape.{backslash, normalize_escape}

-- A string with every character escaped that the table has an escape for.
unfoldable pub escape : List ℕ → List ℕ
escape [] = []
escape (c ∷ cs) =
    let rest = escape cs in
    if (char_info c).encode_escape == 0
    then c ∷ rest
    else backslash ∷ (char_info c).encode_escape ∷ rest

-- Every member of a string is a byte.
abbrev pub AreBytes : List ℕ → Type 0
AreBytes [] = Unit
AreBytes (c ∷ cs) = (c < 256) × AreBytes cs

normalize-none : normalize_escape [] ≡ []
unfolding normalize_escape
normalize-none = refl

normalize-escaped :
    (d : ℕ) (rest : List ℕ)
    → ((char_info d).decode_escape == 0) ≡ false
    → normalize_escape (backslash ∷ d ∷ rest) ≡ (char_info d).decode_escape ∷ normalize_escape rest
unfolding normalize_escape
normalize-escaped d [] e = rw (normalize_escape, e)
normalize-escaped d (h ∷ []) e = rw (normalize_escape, e)
normalize-escaped d (h ∷ l ∷ rest) e = rw (normalize_escape, e)

normalize-plain :
    (c : ℕ) (rest : List ℕ)
    → (c == backslash) ≡ false
    → normalize_escape (c ∷ rest) ≡ c ∷ normalize_escape rest
unfolding normalize_escape
normalize-plain c [] e = refl
normalize-plain c (d ∷ []) e = rw (normalize_escape, e)
normalize-plain c (d ∷ h ∷ []) e = rw (normalize_escape, e)
normalize-plain c (d ∷ h ∷ l ∷ rest) e = rw (normalize_escape, e)

-- What the table holds of each byte: its escape decodes to it, and a backslash has one.
abbrev decodes_back : ℕ → Bool
decodes_back c =
    if (char_info c).encode_escape == 0
    then not (c == backslash)
    else (char_info (char_info c).encode_escape).decode_escape == c && not (c == 0)

decodes_back_all : every_below 256 decodes_back ≡ true
unfolding every_below char_info
decodes_back_all = refl

-- Decoding the escapes of an escaped string of bytes gives the string.
pub normalize_escape-escape : (s : List ℕ) → AreBytes s → normalize_escape (escape s) ≡ s
unfolding escape
normalize_escape-escape [] bytes = normalize-none
normalize_escape-escape (c ∷ cs) (lt, bytes) =
    let back = every_below_sound 256 decodes_back c decodes_back_all lt in
    let ih = normalize_escape-escape cs bytes in
    elim (Bool-cases ((char_info c).encode_escape == 0)) [
      | inl none_of ↦
          rw none_of (normalize-plain c (escape cs) (ground (arith, back, none_of)) ∙ ap (◌∷◌ c) ih)
      | inr has ↦ rw has (
          normalize-escaped (char_info c).encode_escape (escape cs) (ground (arith, back, has))
          ∙ ap₂ ◌∷◌ (ground (arith, back, has)) ih)
    ]

-- Decoding the escapes of a string never makes it longer, so that it can be done in place.
pub length-normalize_escape : (s : List ℕ) → length (normalize_escape s) ≤ length s
unfolding normalize_escape
length-normalize_escape [] = omega arith
length-normalize_escape (c ∷ []) = omega arith
length-normalize_escape (c ∷ d ∷ []) = ground arith
length-normalize_escape (c ∷ d ∷ h ∷ []) =
    let ih = length-normalize_escape (d ∷ h ∷ []) in ground (arith, ih)
length-normalize_escape (c ∷ d ∷ h ∷ l ∷ rest) =
    let ih₁ = length-normalize_escape (d ∷ h ∷ l ∷ rest) in
    let ih₂ = length-normalize_escape (h ∷ l ∷ rest) in
    let ih₃ = length-normalize_escape rest in ground (arith, ih₁, ih₂, ih₃)
