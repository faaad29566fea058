-- ===== src/Parse/Reader.antt =====
-- The recursive descent: `reduct_parse_expression`, `reduct_parse_list`, dot chains and
-- `reduct_parse_input`. Whether an atom is a number is a parameter.
pub mod Ends
pub mod Laws
use reduct.Prelude.{
  ℕ, zero, suc, ◌+◌, ◌-◌, ◌*◌, ◌==◌, ◌&&◌, ◌||◌, not, ltb, leb, Bool, true, false, Option, none,
  some, List, [], ◌∷◌, if◌then◌else◌, length, get_or,
}
use reduct.Parse.Expr.{
  Expr, Exprs, atom, list, done, item, nil_handle, SyntaxError, unexpected_end, missing_close,
  missing_quote, unexpected_character, missing_target, Parsed, parsed, failed, out_of_fuel, lookup,
  count, push,
}
use reduct.Parse.Scan.{
  char_quote, char_open, char_close, char_dot, char_open_brace, char_close_brace, next_is, behind,
  skip_line, whitespace, Span, quoted_span, unquoted_span,
}
use reduct.Parse.Infix.{get_in, Infixed, infixed, wrong, no_fuel, infix_transform}

abbrev pub bind_parsed : {A B : Type 0} → Parsed A → (A → List ℕ → Parsed B) → Parsed B
bind_parsed (parsed value left) k = k value left
bind_parsed (failed error left) k = failed error left
bind_parsed out_of_fuel k = out_of_fuel

-- `memchr(text, c, length) != NULL`.
abbrev pub memchr : List ℕ → ℕ → Bool
memchr [] c = false
memchr (d ∷ s) c = d == c || memchr s c

abbrev cons_part : ℕ → List (List ℕ) → List (List ℕ)
cons_part c [] = (c ∷ []) ∷ []
cons_part c (part ∷ parts) = (c ∷ part) ∷ parts

-- The parts of a text between dots.
unfoldable pub split_dots : List ℕ → List (List ℕ)
split_dots [] = [] ∷ []
split_dots (c ∷ s) =
    let parts = split_dots s in if c == char_dot then [] ∷ parts else cons_part c parts

-- The first part of a chain is its target, the others are elements of the path.
pub record Chain : Type 0 where
  pub target : Option Expr
  pub path : Exprs

unfoldable pub add_part : Chain → List ℕ → Chain
add_part chain [] = chain
add_part chain (c ∷ text) = elim chain.target [
  | none ↦ record chain { target = some (lookup false (c ∷ text)) }
  | some t ↦ record chain { path = push chain.path (lookup true (c ∷ text)) }
]

unfoldable pub add_parts : Chain → List (List ℕ) → Chain
unfolding add_part
add_parts chain [] = chain
add_parts chain (part ∷ parts) = add_parts (add_part chain part) parts

abbrev pub symbol_list : Expr
symbol_list = atom false (108 ∷ 105 ∷ 115 ∷ 116 ∷ [])

abbrev pub symbol_do : Expr
symbol_do = atom false (100 ∷ 111 ∷ [])

abbrev pub path_value : Exprs → Expr
path_value done = list done
path_value (item head done) = list (item head done)
path_value (item head (item e done)) = e
path_value (item head (item e (item e' es))) = list (item head (item e (item e' es)))

-- `reduct_parse_dot_finalize`.
unfoldable pub dot_finalize : Chain → List ℕ → Parsed Expr
dot_finalize chain s = elim chain.target [
  | none ↦ failed missing_target s
  | some target ↦
      parsed (list (item (atom false get_in) (item target (item (path_value chain.path) done)))) s
]

abbrev pub ends_with_dot : List ℕ → Bool
ends_with_dot text = ltb 0 (length text) && get_or text (length text - 1) 0 == char_dot

-- `reduct_parse_quoted_atom`.
abbrev pub quoted_atom : List ℕ → Span → Parsed Expr
quoted_atom s none = failed missing_quote s
quoted_atom s (some (text, left)) = parsed (lookup true text) (behind left)

unfoldable pub parse_quoted_atom : List ℕ → Parsed Expr
unfolding quoted_span
parse_quoted_atom s = quoted_atom s (quoted_span s)

-- The list of `reduct_parse_infix`, transformed.
abbrev pub from_infixed : Infixed → List ℕ → Parsed Expr
from_infixed (infixed value rest) left = parsed value left
from_infixed (wrong error) left = failed error left
from_infixed no_fuel left = out_of_fuel

unfoldable pub parse_infix : Exprs → List ℕ → Parsed Expr
unfolding infix_transform
parse_infix items left = from_infixed (infix_transform items) left

module _ (is_number : List ℕ → Bool) where
  -- `expression` is called where the text is not at its end, `parse_list` behind the character
  -- that opens a list, and `parse_items` is its loop. `dot_chain` goes on with the expression
  -- that it was given last.
  unfoldable mutual
    unfolding add_parts dot_finalize parse_quoted_atom parse_infix unquoted_span

    pub parse_expression : ℕ → List ℕ → Parsed Expr
    parse_expression zero s = out_of_fuel
    parse_expression (suc n) [] = failed unexpected_character []
    parse_expression (suc n) (c ∷ s) = elim (c == char_open) [
      | true ↦ bind_parsed (parse_list n char_close s) (λ items left. parsed (list items) left)
      | false ↦ elim (c == char_open_brace) [
        | true ↦ bind_parsed (parse_list n char_close_brace s) parse_infix
        | false ↦ elim (c == char_quote) [
          | true ↦ parse_quoted_atom s
          | false ↦ parse_unquoted_atom n (unquoted_span (c ∷ s))
        ]
      ]
    ]

    -- `reduct_parse_unquoted_atom`, and the dot chain that an atom may start.
    pub parse_unquoted_atom : ℕ → List ℕ × List ℕ → Parsed Expr
    parse_unquoted_atom zero span = out_of_fuel
    parse_unquoted_atom (suc n) ([], left) = failed unexpected_character left
    parse_unquoted_atom (suc n) (c ∷ text, left) =
        elim (not (is_number (c ∷ text)) && memchr (c ∷ text) char_dot) [
          | true ↦
              dot_chain n (record { target = none; path = item symbol_list done })
                (lookup false (c ∷ text)) left
          | false ↦ parsed (lookup false (c ∷ text)) left
        ]

    pub dot_chain : ℕ → Chain → Expr → List ℕ → Parsed Expr
    dot_chain zero chain current s = out_of_fuel
    dot_chain (suc n) chain (list items) s =
        dot_finalize (record chain { path = push chain.path (list items) }) s
    dot_chain (suc n) chain (atom quoted text) s = elim (ends_with_dot text) [
      | true ↦ dot_next n (add_parts chain (split_dots text)) (whitespace s)
      | false ↦ dot_finalize (add_parts chain (split_dots text)) s
    ]

    pub dot_next : ℕ → Chain → List ℕ → Parsed Expr
    dot_next zero chain s = out_of_fuel
    dot_next (suc n) chain [] = dot_finalize chain []
    dot_next (suc n) chain (c ∷ s) =
        bind_parsed (parse_expression n (c ∷ s)) (λ next left. dot_chain n chain next left)

    pub parse_list : ℕ → ℕ → List ℕ → Parsed Exprs
    parse_list zero close s = out_of_fuel
    parse_list (suc n) close [] = failed unexpected_end []
    parse_list (suc n) close (c ∷ s) = parse_items n close (whitespace (c ∷ s))

    -- The loop, from behind the whitespace.
    pub parse_items : ℕ → ℕ → List ℕ → Parsed Exprs
    parse_items zero close s = out_of_fuel
    parse_items (suc n) close [] = elim (close == 0) [
      | true ↦ parsed done []
      | false ↦ failed (missing_close close) []
    ]
    parse_items (suc n) close (c ∷ s) = elim (c == close) [
      | true ↦ parsed done s
      | false ↦ bind_parsed (parse_expression n (c ∷ s)) (λ e left.
          bind_parsed (parse_items n close (whitespace left))
            (λ es left'. parsed (item e es) left'))
    ]

  abbrev pub wrap_do : Exprs → Expr
  wrap_do done = nil_handle
  wrap_do (item e es) = list (item symbol_do (item e es))

  -- `reduct_parse_input`: a first line that starts with `#!` is skipped.
  unfoldable pub parse_input : List ℕ → Parsed Expr
  unfolding parse_list skip_line
  parse_input s =
      let text = if next_is 35 s && next_is 33 (behind s) then skip_line s else s in
      bind_parsed (parse_list (4 * length text + 4) 0 text)
        (λ items left. parsed (wrap_do items) left)
