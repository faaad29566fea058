-- ===== src/CharTable/Tests.antt =====
-- Tests of the character table and of escapes.
use reduct.Prelude.{ℕ, ◌-◌, ◌+◌, ◌≡◌, refl, List, [], ◌∷◌, if◌then◌else◌, arith}
use reduct.CharTable.{char_info, to_lower, to_upper}
use reduct.CharTable.Cases.{is_upper, is_lower, is_listed, cases_lem}
use reduct.CharTable.Escape.{normalize_escape}
use reduct.CharTable.Escape.Roundtrip.{escape, normalize_escape-escape}

-- An opening parenthesis has no upper case.
cases_lem_example :
    (to_upper 40 ≡ (if is_lower 40 then 40 - 32 else if is_listed 40 then 40 else 0))
    × (to_lower 40 ≡ (if is_upper 40 then 40 + 32 else if is_listed 40 then 40 else 0))
cases_lem_example = cases_lem 40 (omega arith)

-- A tab, a letter and a backslash.
abbrev tab_text : List ℕ
tab_text = 9 ∷ 65 ∷ 92 ∷ []

normalize_escape-escape_example : normalize_escape (escape tab_text) ≡ tab_text
normalize_escape-escape_example =
    normalize_escape-escape tab_text (omega arith, (omega arith, (omega arith, tt)))

hex_escape : normalize_escape (92 ∷ 120 ∷ 52 ∷ 49 ∷ []) ≡ 65 ∷ []
unfolding normalize_escape char_info
hex_escape = refl
