-- ===== src/Parse/Scan.antt =====
-- `reduct_parse_whitespace` and the loops that find the ends of atoms. The text is the characters
-- from `ctx->ptr` to the end.
pub mod Laws
use reduct.Prelude.{
  ℕ, zero, suc, ◌+◌, ◌==◌, ◌&&◌, ◌||◌, not, Bool, true, false, Option, none, some, List, [], ◌∷◌,
  if◌then◌else◌, length,
}
use reduct.CharTable.{is_whitespace}

abbrev pub char_quote : ℕ
char_quote = 34

abbrev pub char_open : ℕ
char_open = 40

abbrev pub char_close : ℕ
char_close = 41

abbrev pub char_star : ℕ
char_star = 42

abbrev pub char_dot : ℕ
char_dot = 46

abbrev pub char_slash : ℕ
char_slash = 47

abbrev pub char_backslash : ℕ
char_backslash = 92

abbrev pub char_open_brace : ℕ
char_open_brace = 123

abbrev pub char_close_brace : ℕ
char_close_brace = 125

abbrev pub char_newline : ℕ
char_newline = 10

-- To the end of the line, which is left.
unfoldable pub skip_line : List ℕ → List ℕ
skip_line [] = []
skip_line (c ∷ s) = if c == char_newline then c ∷ s else skip_line s

-- To behind the next `*/`, or to the end of the text.
unfoldable pub skip_block : List ℕ → List ℕ
skip_block [] = []
skip_block (c ∷ []) = []
skip_block (c ∷ d ∷ s) = if c == char_star && d == char_slash then s else skip_block (d ∷ s)

abbrev pub next_is : ℕ → List ℕ → Bool
next_is c [] = false
next_is c (d ∷ s) = d == c

abbrev pub behind : List ℕ → List ℕ
behind [] = []
behind (c ∷ s) = s

-- One round of the loop of `reduct_parse_whitespace`: what is left, unless the loop is at its end.
unfoldable pub skip_one : List ℕ → Option (List ℕ)
unfolding skip_line skip_block
skip_one [] = none
skip_one (c ∷ s) =
    if is_whitespace c
    then some s
    else if c == char_slash && next_is char_slash s
    then some (skip_line (c ∷ s))
    else if c == char_slash && next_is char_star s
    then some (skip_block (behind s))
    else none

abbrev pub go_on : List ℕ → Option (List ℕ) → (List ℕ → List ℕ) → List ℕ
go_on s none loop = s
go_on s (some left) loop = loop left

-- `reduct_parse_whitespace`, at most `n` rounds of its loop.
unfoldable pub skip_rounds : ℕ → List ℕ → List ℕ
skip_rounds zero s = s
skip_rounds (suc n) s = go_on s (skip_one s) (skip_rounds n)

abbrev pub whitespace : List ℕ → List ℕ
whitespace s = skip_rounds (length s) s

abbrev pub Span : Type 0
Span = Option (List ℕ × List ℕ)

abbrev pub cons_span : ℕ → Span → Span
cons_span c none = none
cons_span c (some (text, left)) = some (c ∷ text, left)

-- The characters of a quoted atom, and the text from the quote that ends it on.
unfoldable pub quoted_span : List ℕ → Span
quoted_span [] = none
quoted_span (c ∷ []) = if c == char_quote then some ([], c ∷ []) else none
quoted_span (c ∷ d ∷ s) = elim (c == char_backslash) [
  | true ↦ cons_span c (cons_span d (quoted_span s))
  | false ↦ elim (c == char_quote) [
    | true ↦ some ([], c ∷ d ∷ s)
    | false ↦ cons_span c (quoted_span (d ∷ s))
  ]
]

abbrev pub ends_atom : ℕ → Bool
ends_atom c =
    is_whitespace c
    || c == char_open
    || c == char_close
    || c == char_open_brace
    || c == char_close_brace

abbrev pub stop_span : Bool → List ℕ → ℕ → List ℕ × List ℕ → List ℕ × List ℕ
stop_span true s c (text, left) = ([], s)
stop_span false s c (text, left) = (c ∷ text, left)

-- The characters of an unquoted atom, and the text behind them.
unfoldable pub unquoted_span : List ℕ → List ℕ × List ℕ
unquoted_span [] = ([], [])
unquoted_span (c ∷ s) = stop_span (ends_atom c) (c ∷ s) c (unquoted_span s)
