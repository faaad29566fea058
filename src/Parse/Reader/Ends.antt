-- ===== src/Parse/Reader/Ends.antt =====
-- The recursive descent on its fuel, four steps for each character.
use reduct.Prelude.{
  ℕ, zero, suc, ◌+◌, ◌*◌, ◌≤◌, ◌==◌, ◌&&◌, not, Bool, true, false, Option, none, some, List, [],
  ◌∷◌, arith, ap, length, if◌then◌else◌, length-append,
}
use reduct.Parse.Expr.{
  Expr, Exprs, atom, list, done, item, count, Parsed, parsed, failed, missing_target, out_of_fuel,
  lookup, push,
}
use reduct.Parse.Scan.{
  char_backslash, char_open, char_close, char_dot, char_quote, char_open_brace, char_close_brace,
  Span, cons_span, quoted_span, unquoted_span, whitespace, behind,
}
use reduct.Parse.Scan.Laws.{whitespace_lem, unquoted_span_lem}
use reduct.Parse.Infix.{get_in, Infixed, infixed, wrong, no_fuel, infix_transform}
use reduct.Parse.Infix.Climb.{infix_transform-Ends}
use reduct.Parse.Infix.Climb
use reduct.Parse.Reader.{
  bind_parsed, memchr, Chain, add_parts, split_dots, dot_finalize, path_value, quoted_atom,
  parse_quoted_atom, from_infixed, parse_infix, ends_with_dot, symbol_list, parse_expression,
  parse_unquoted_atom, dot_chain, dot_next, parse_list, parse_items,
}

-- A result, a value or an error, whose value leaves at most `k` characters.
abbrev pub Ends : {A : Type 0} → ℕ → Parsed A → Type 0
Ends k (parsed value left) = length left ≤ k
Ends k (failed error left) = Unit
Ends k out_of_fuel = ⊥

Ends-bind :
    {A B : Type 0}
    → (k m : ℕ) (r : Parsed A) (f : A → List ℕ → Parsed B) → Ends k r
    → ((value : A) (left : List ℕ) → length left ≤ k → Ends m (f value left))
    → Ends m (bind_parsed r f)
Ends-bind k m (parsed value left) f ends next = next value left ends
Ends-bind k m (failed error left) f ends next = tt
Ends-bind k m out_of_fuel f ends next = elim ends [ ]

Ends-le : {A : Type 0} → (k m : ℕ) (r : Parsed A) → k ≤ m → Ends k r → Ends m r
Ends-le k m (parsed value left) le ends = omega arith
Ends-le k m (failed error left) le ends = tt
Ends-le k m out_of_fuel le ends = ends

Ends-choose :
    {A : Type 0}
    → (k : ℕ) (b : Bool) (x y : Parsed A) → Ends k x
    → Ends k y
    → Ends k (elim b [ true ↦ x | false ↦ y ])
Ends-choose k true x y p q = p
Ends-choose k false x y p q = q

dot_finalize-Ends : (chain : Chain) (s : List ℕ) → Ends (length s) (dot_finalize chain s)
unfolding dot_finalize
dot_finalize-Ends chain s = go chain.target
  where
    go :
        (target : Option Expr)
        → Ends (length s) (elim target [
          | none ↦ failed missing_target s
          | some t ↦
              parsed
                (list (item (atom false get_in) (item t (item (path_value chain.path) done))))
                s
        ])
    go none = tt
    go (some t) = omega arith

-- The quote that ends a quoted span is among the characters that there were.
abbrev SpanLess : ℕ → Span → Type 0
SpanLess k none = Unit
SpanLess k (some (text, left)) = length left ≤ k

SpanLess-cons : (k : ℕ) (c : ℕ) (o : Span) → SpanLess k o → SpanLess (suc k) (cons_span c o)
SpanLess-cons k c none le = tt
SpanLess-cons k c (some (text, left)) le = omega arith

quoted_span-Less : (s : List ℕ) → SpanLess (length s) (quoted_span s)
unfolding quoted_span
quoted_span-Less [] = tt
quoted_span-Less (c ∷ []) = one (c == char_quote)
  where
    one : (b : Bool) → SpanLess 1 (if b then some ([], c ∷ []) else none)
    one true = omega arith
    one false = tt
quoted_span-Less (c ∷ d ∷ s) =
    two (c == char_backslash) (c == char_quote) (quoted_span-Less s) (quoted_span-Less (d ∷ s))
  where
    two :
        (escaped stop : Bool)
        → SpanLess (length s) (quoted_span s)
        → SpanLess (suc (length s)) (quoted_span (d ∷ s))
        → SpanLess (suc (suc (length s))) (elim escaped [
          | true ↦ cons_span c (cons_span d (quoted_span s))
          | false ↦ elim stop [
            | true ↦ some ([], c ∷ d ∷ s)
            | false ↦ cons_span c (quoted_span (d ∷ s))
          ]
        ])
    two true stop p q = SpanLess-cons _ c _ (SpanLess-cons _ d (quoted_span s) p)
    two false true p q = omega arith
    two false false p q = SpanLess-cons _ c (quoted_span (d ∷ s)) q

behind-le : (s : List ℕ) → length (behind s) ≤ length s
behind-le [] = omega arith
behind-le (c ∷ s) = omega arith

quoted_atom-Ends :
    (s : List ℕ) (o : Span) → SpanLess (length s) o → Ends (length s) (quoted_atom s o)
quoted_atom-Ends s none le = tt
quoted_atom-Ends s (some (text, left)) le = omega (arith, behind-le left)

parse_quoted_atom-Ends : (s : List ℕ) → Ends (length s) (parse_quoted_atom s)
unfolding parse_quoted_atom
parse_quoted_atom-Ends s = quoted_atom-Ends s (quoted_span s) (quoted_span-Less s)

from_infixed-Ends :
    (k : ℕ) (r : Infixed) (left : List ℕ)
    → Climb.Ends k r
    → Ends (length left) (from_infixed r left)
from_infixed-Ends k (infixed value rest) left ends = omega arith
from_infixed-Ends k (wrong error) left ends = tt
from_infixed-Ends k no_fuel left ends = elim ends [ ]

parse_infix-Ends : (items : Exprs) (left : List ℕ) → Ends (length left) (parse_infix items left)
unfolding parse_infix
parse_infix-Ends items left =
    from_infixed-Ends (count items) (infix_transform items) left (infix_transform-Ends items)

span-le : (s : List ℕ) → length (unquoted_span s).0 + length (unquoted_span s).1 ≤ length s
span-le s = omega (
  arith,
  length-append (unquoted_span s).0 (unquoted_span s).1,
  ap length (unquoted_span_lem s).0,
)

module _ (is_number : List ℕ → Bool) where
  mutual
    unfolding parse_expression

    pub parse_expression-Ends :
        (n c : ℕ) (s : List ℕ)
        → 4 * suc (length s) ≤ n
        → Ends (length s) (parse_expression is_number n (c ∷ s))
    parse_expression-Ends zero c s le = absurd (omega arith)
    parse_expression-Ends (suc n) c s le =
        Ends-choose _ (c == char_open) _ _
          (Ends-bind (length s) _ (parse_list is_number n char_close s) _
            (parse_list-Ends n char_close s (omega arith)) λ items left p. p)
          (Ends-choose _ (c == char_open_brace) _ _
            (Ends-bind (length s) _ (parse_list is_number n char_close_brace s) _
              (parse_list-Ends n char_close_brace s (omega arith))
              λ items left p. Ends-le (length left) _ _ p (parse_infix-Ends items left))
            (Ends-choose _ (c == char_quote) _ _ (parse_quoted_atom-Ends s) (
              parse_unquoted_atom-Ends n (unquoted_span (c ∷ s)).0 (unquoted_span (c ∷ s)).1
                (length s) (omega (arith, span-le (c ∷ s))) (omega arith))))

    parse_unquoted_atom-Ends :
        (n : ℕ) (text left : List ℕ) (k : ℕ)
        → length text + length left ≤ suc k
        → 4 * k + 3 ≤ n
        → Ends k (parse_unquoted_atom is_number n (text, left))
    parse_unquoted_atom-Ends zero text left k le fuel = absurd (omega arith)
    parse_unquoted_atom-Ends (suc n) [] left k le fuel = tt
    parse_unquoted_atom-Ends (suc n) (c ∷ text) left k le fuel =
        Ends-choose _ (not (is_number (c ∷ text)) && memchr (c ∷ text) char_dot) _ _
          (Ends-le (length left) _ _ (omega arith) (
            dot_chain-Ends n (record { target = none; path = item symbol_list done })
              (lookup false (c ∷ text)) left (omega arith)))
          (omega arith)

    dot_chain-Ends :
        (n : ℕ) (chain : Chain) (current : Expr) (s : List ℕ)
        → 4 * length s + 2 ≤ n
        → Ends (length s) (dot_chain is_number n chain current s)
    dot_chain-Ends zero chain current s le = absurd (omega arith)
    dot_chain-Ends (suc n) chain (list items) s le =
        dot_finalize-Ends (record chain { path = push chain.path (list items) }) s
    dot_chain-Ends (suc n) chain (atom quoted text) s le =
        Ends-choose _ (ends_with_dot text) _ _
          (Ends-le (length (whitespace s)) _ _ (whitespace_lem s).1 (
            dot_next-Ends n (add_parts chain (split_dots text)) (whitespace s)
              (omega (arith, (whitespace_lem s).1))))
          (dot_finalize-Ends (add_parts chain (split_dots text)) s)

    dot_next-Ends :
        (n : ℕ) (chain : Chain) (s : List ℕ)
        → 4 * length s + 1 ≤ n
        → Ends (length s) (dot_next is_number n chain s)
    dot_next-Ends zero chain s le = absurd (omega arith)
    dot_next-Ends (suc n) chain [] le = dot_finalize-Ends chain []
    dot_next-Ends (suc n) chain (c ∷ s) le =
        Ends-bind (length s) _ (parse_expression is_number n (c ∷ s)) _
          (parse_expression-Ends n c s (omega arith))
          λ next left p.
            Ends-le (length left) _ _ (omega arith) (dot_chain-Ends n chain next left (omega arith))

    pub parse_list-Ends :
        (n close : ℕ) (s : List ℕ)
        → 4 * length s + 2 ≤ n
        → Ends (length s) (parse_list is_number n close s)
    parse_list-Ends zero close s le = absurd (omega arith)
    parse_list-Ends (suc n) close [] le = tt
    parse_list-Ends (suc n) close (c ∷ s) le =
        Ends-le (length (whitespace (c ∷ s))) _ _ (whitespace_lem (c ∷ s)).1 (
          parse_items-Ends n close (whitespace (c ∷ s)) (omega (arith, (whitespace_lem (c ∷ s)).1)))

    parse_items-Ends :
        (n close : ℕ) (s : List ℕ)
        → 4 * length s + 1 ≤ n
        → Ends (length s) (parse_items is_number n close s)
    parse_items-Ends zero close s le = absurd (omega arith)
    parse_items-Ends (suc n) close [] le = Ends-choose _ (close == 0) _ _ (omega arith) tt
    parse_items-Ends (suc n) close (c ∷ s) le = Ends-choose _ (c == close) _ _ (omega arith) (
        Ends-bind (length s) _ (parse_expression is_number n (c ∷ s)) _
          (parse_expression-Ends n c s (omega arith))
          λ e left p.
            Ends-bind (length left) _ (parse_items is_number n close (whitespace left)) _
              (Ends-le (length (whitespace left)) _ _ (whitespace_lem left).1 (
                parse_items-Ends n close (whitespace left)
                  (omega (arith, (whitespace_lem left).1))))
              λ es left' q. omega arith)
