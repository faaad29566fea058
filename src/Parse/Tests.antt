-- ===== src/Parse/Tests.antt =====
-- Tests of the parser.
use reduct.Prelude.{ℕ, ◌≡◌, refl, Bool, true, false, List, [], ◌∷◌, ◌++◌, arith}
use reduct.CharTable.Escape.Roundtrip.{escape}
use reduct.Parse.Expr.{Expr, string_of, atom, list, item, done, parsed}
use reduct.Parse.Infix.{get_precedence, operator_text, infixed, infix_transform}
use reduct.Parse.Infix.Correct.{Tree, IsTree, leaf, bin, tokens, build, infix_transform-tokens}
use reduct.Parse.Reader.{parse_expression, parse_infix}
use reduct.Parse.Reader.Laws.{parse_expression-escape, parse_infix_drops}

abbrev symbol : ℕ → Expr
symbol c = atom false (c ∷ [])

-- No atom is a number.
abbrev no_number : List ℕ → Bool
no_number text = false

-- `x - y - z * w`.
abbrev minus_tree : Tree
minus_tree =
    bin (symbol 45) 6 (bin (symbol 45) 6 (leaf (symbol 120)) (leaf (symbol 121)))
      (bin (symbol 42) 7 (leaf (symbol 122)) (leaf (symbol 119)))

minus_IsTree : IsTree minus_tree
unfolding get_precedence
minus_IsTree = (
  refl,
  omega arith,
  omega arith,
  (refl, omega arith, omega arith, refl, refl, omega arith, omega arith),
  (refl, omega arith, omega arith, refl, refl, omega arith, omega arith),
  omega arith,
  omega arith,
)

infix_transform-tokens_example :
    infix_transform (tokens minus_tree done) ≡ infixed (build minus_tree) done
infix_transform-tokens_example = infix_transform-tokens minus_tree minus_IsTree

-- `{x - y - z * w (x) y}`.
parse_infix_drops_example :
    parse_infix
      (tokens minus_tree (item (list (item (symbol 120) done)) (item (symbol 121) done)))
      (41 ∷ [])
    ≡ parsed (build minus_tree) (41 ∷ [])
unfolding get_precedence operator_text
parse_infix_drops_example =
    parse_infix_drops minus_tree minus_IsTree (list (item (symbol 120) done))
      (item (symbol 121) done) (41 ∷ []) refl

abbrev list_text : List ℕ
list_text = 40 ∷ 120 ∷ 41 ∷ []

parse_expression-escape_example :
    (parse_expression no_number 5 (34 ∷ (escape (9 ∷ 65 ∷ []) ++ 34 ∷ 41 ∷ []))
      ≡ parsed (atom true (escape (9 ∷ 65 ∷ []))) (41 ∷ []))
    × (string_of true (escape (9 ∷ 65 ∷ [])) ≡ 9 ∷ 65 ∷ [])
parse_expression-escape_example =
    parse_expression-escape no_number 4 (9 ∷ 65 ∷ []) (41 ∷ []) (omega arith, (omega arith, tt))
