-- ===== src/Parse/Reader/Laws.antt =====
-- What the descent makes of quoted text, of items behind an infix expression, and of a zero byte.
use reduct.Prelude.{
  ℕ, suc, ◌+◌, ◌-◌, ◌*◌, false, ◌≡◌, refl, ap, ◌∙◌, Bool, true, List, ◌∷◌, ◌++◌, arith, length,
}
use reduct.CharTable.{is_whitespace}
use reduct.CharTable.Escape.Roundtrip.{AreBytes, escape, normalize_escape-escape}
use reduct.Parse.Expr.{Expr, Exprs, string_of, atom, done, item, count, nil_handle, Parsed, parsed}
use reduct.Parse.Infix.{prec, prec_none, get_precedence}
use reduct.Parse.Infix.Correct.{
  Tree, tokens, build, IsTree, steps, count-tokens, climb-tokens, infix_transform-climb,
  climb_loop-ends,
}
use reduct.Parse.Scan.{char_quote, whitespace, skip_rounds, skip_one}
use reduct.Parse.Scan.Laws.{quoted_span-escape}
use reduct.Parse.Reader.{
  parse_expression, parse_quoted_atom, quoted_atom, parse_list, parse_items, parse_input,
  bind_parsed, wrap_do, parse_infix, from_infixed,
}

parse_quoted_atom-escape :
    (s rest : List ℕ)
    → AreBytes s
    → parse_quoted_atom (escape s ++ char_quote ∷ rest) ≡ parsed (atom true (escape s)) rest
unfolding parse_quoted_atom
parse_quoted_atom-escape s rest bytes =
    ap (quoted_atom (escape s ++ char_quote ∷ rest)) (quoted_span-escape s rest bytes)

-- Any string of bytes, with its escapes written out and between quotes, is parsed to the quoted
-- atom that is looked up by all that stands between the quotes, whose escapes decode to the string, and
-- the text behind the second quote is left.
pub parse_expression-escape :
    (is_number : List ℕ → Bool) (n : ℕ) (s rest : List ℕ)
    → AreBytes s
    → (parse_expression is_number (suc n) (char_quote ∷ (escape s ++ char_quote ∷ rest))
        ≡ parsed (atom true (escape s)) rest)
      × (string_of true (escape s) ≡ s)
unfolding parse_expression
parse_expression-escape is_number n s rest bytes =
    (parse_quoted_atom-escape s rest bytes, normalize_escape-escape s bytes)

-- Behind the items of a tree of operators, whatever names no operator, such as a list, ends the infix
-- expression without an error: it is what the tree stands for, and all items from there on are dropped.
pub parse_infix_drops :
    (t : Tree)
    → IsTree t
    → (other : Expr) (es : Exprs) (left : List ℕ) → get_precedence other false ≡ prec prec_none
    → parse_infix (tokens t (item other es)) left ≡ parsed (build t) left
unfolding parse_infix
parse_infix_drops t is other es left no_operator =
    let rest = item other es in
    let fuel = count-tokens t rest in
    ap (λ r. from_infixed r left)
      (infix_transform-climb (tokens t rest) (count (tokens t rest) - 1) (omega arith)
        ∙ climb-tokens t (suc (2 * count (tokens t rest)))
            (suc (2 * count (tokens t rest) - steps t)) prec_none rest is (omega arith)
            (prec_none, no_operator, omega arith) (prec_none, no_operator, omega arith)
            (omega arith) (omega arith)
        ∙ climb_loop-ends (2 * count (tokens t rest) - steps t) (build t) other es prec_none
            no_operator)

whitespace-nul : (s : List ℕ) → whitespace (0 ∷ s) ≡ 0 ∷ s
unfolding skip_rounds skip_one is_whitespace
whitespace-nul s = refl

parse_list-nul :
    (is_number : List ℕ → Bool) (n : ℕ) (s : List ℕ)
    → parse_list is_number (suc (suc n)) 0 (0 ∷ s) ≡ parsed done s
unfolding parse_list
parse_list-nul is_number n s = ap (parse_items is_number (suc n) 0) (whitespace-nul s)

-- A zero byte where an expression could start ends the program: what stands behind it is left
-- without an error, whatever it is.
parse_input-nul :
    (is_number : List ℕ → Bool) (s : List ℕ) → parse_input is_number (0 ∷ s) ≡ parsed nil_handle s
unfolding parse_input
parse_input-nul is_number s =
    ap (λ fuel. bind_parsed (parse_list is_number fuel 0 (0 ∷ s)) wrapped)
      {x = 4 * length (0 ∷ s) + 4} {y = suc (suc (4 * length s + 6))} (omega arith)
    ∙ ap (λ r. bind_parsed r wrapped) (parse_list-nul is_number (4 * length s + 6) s)
  where
    wrapped : Exprs → List ℕ → Parsed Expr
    wrapped items left = parsed (wrap_do is_number items) left
