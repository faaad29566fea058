-- ===== src/Parse/Scan/Laws.antt =====
-- Where the scanning loops stop.
use reduct.Prelude.{
  ℕ, zero, suc, ◌≤◌, ◌<◌, ◌≡◌, refl, ap, ◌∙◌, ◌==◌, ◌&&◌, ◌||◌, not, Bool, true, false, Option,
  none, some, List, [], ◌∷◌, ◌++◌, length, Bool-cases, inl, inr, arith,
}
use reduct.Prelude.Tables.{every_below, every_below_sound}
use reduct.CharTable.{is_whitespace, char_info}
use reduct.CharTable.Escape.Roundtrip.{AreBytes, escape}
use reduct.Parse.Scan.{
  char_quote, char_star, char_slash, char_backslash, skip_line, skip_block, next_is, behind,
  skip_one, go_on, skip_rounds, whitespace, cons_span, quoted_span, ends_atom, stop_span,
  unquoted_span,
}

-- Neither whitespace nor the beginning of a comment stands first.
abbrev pub starts_token : List ℕ → Bool
starts_token [] = true
starts_token (c ∷ s) =
    not (is_whitespace c) && not (c == char_slash && (next_is char_slash s || next_is char_star s))

skip_line-le : (s : List ℕ) → length (skip_line s) ≤ length s
unfolding skip_line
skip_line-le [] = omega arith
skip_line-le (c ∷ s) = ground (arith, skip_line-le s)

skip_block-le : (s : List ℕ) → length (skip_block s) ≤ length s
unfolding skip_block
skip_block-le [] = omega arith
skip_block-le (c ∷ []) = omega arith
skip_block-le (c ∷ d ∷ s) = ground (arith, skip_block-le (d ∷ s))

-- A line comment begins with a slash, which is no newline, so that something of it is skipped.
skip_line-slash :
    (c : ℕ) (s : List ℕ) → (c == char_slash) ≡ true → length (skip_line (c ∷ s)) ≤ length s
unfolding skip_line
skip_line-slash c s e = ground (arith, e, skip_line-le s)

behind-le : (s : List ℕ) → length (behind s) ≤ length s
behind-le [] = omega arith
behind-le (c ∷ s) = omega arith

abbrev Less : ℕ → Option (List ℕ) → Type 0
Less n none = Unit
Less n (some left) = length left < n

-- A round that goes on leaves less.
skip_one-Less : (s : List ℕ) → Less (length s) (skip_one s)
unfolding skip_one
skip_one-Less [] = tt
skip_one-Less (c ∷ s) = elim (Bool-cases (is_whitespace c)) [
  | inl ws ↦ rw ws (omega arith)
  | inr ink ↦ elim (Bool-cases (c == char_slash && next_is char_slash s)) [
    | inl line ↦ rw (ink, line) (omega (arith, skip_line-slash c s (ground (arith, line))))
    | inr else_block ↦ elim (Bool-cases (c == char_slash && next_is char_star s)) [
      | inl block ↦
          rw (ink, else_block, block) (omega (arith, skip_block-le (behind s), behind-le s))
      | inr stop ↦ rw (ink, else_block, stop) tt
    ]
  ]
]

skip_one-end : skip_one [] ≡ none
unfolding skip_one
skip_one-end = refl

skip_one-none : (s : List ℕ) → skip_one s ≡ none → starts_token s ≡ true
unfolding skip_one
skip_one-none [] e = refl
skip_one-none (c ∷ s) e = elim (Bool-cases (is_whitespace c)) [
  | inl ws ↦ absurd (some_none (rw ws at e))
  | inr ink ↦ elim (Bool-cases (c == char_slash && next_is char_slash s)) [
    | inl line ↦ absurd (some_none (rw (ink, line) at e))
    | inr else_block ↦ elim (Bool-cases (c == char_slash && next_is char_star s)) [
      | inl block ↦ absurd (some_none (rw (ink, else_block, block) at e))
      | inr stop ↦ ground (arith, ink, else_block, stop)
    ]
  ]
]
  where
    some_none : {left : List ℕ} → some left ≡ none → ⊥
    some_none e = cc

go_on-le :
    (s : List ℕ) (o : Option (List ℕ)) (loop : List ℕ → List ℕ)
    → Less (length s) o
    → ((left : List ℕ) → length (loop left) ≤ length left)
    → length (go_on s o loop) ≤ length s
go_on-le s none loop less ih = omega arith
go_on-le s (some left) loop less ih = omega (arith, ih left)

skip_rounds-le : (n : ℕ) (s : List ℕ) → length (skip_rounds n s) ≤ length s
unfolding skip_rounds
skip_rounds-le zero s = omega arith
skip_rounds-le (suc n) s =
    go_on-le s (skip_one s) (skip_rounds n) (skip_one-Less s) (λ left. skip_rounds-le n left)

go_on-token :
    (n : ℕ) (s : List ℕ) (o : Option (List ℕ)) (loop : List ℕ → List ℕ)
    → length s ≤ suc n
    → skip_one s ≡ o
    → Less (length s) o
    → ((left : List ℕ) → length left ≤ n → starts_token (loop left) ≡ true)
    → starts_token (go_on s o loop) ≡ true
go_on-token n s none loop le e less ih = skip_one-none s e
go_on-token n s (some left) loop le e less ih = ih left (omega arith)

skip_rounds-token : (n : ℕ) (s : List ℕ) → length s ≤ n → starts_token (skip_rounds n s) ≡ true
unfolding skip_rounds
skip_rounds-token zero [] le = refl
skip_rounds-token zero (c ∷ s) le = absurd (omega arith)
skip_rounds-token (suc n) s le =
    go_on-token n s (skip_one s) (skip_rounds n) le refl (skip_one-Less s)
      (λ left p. skip_rounds-token n left p)

-- Skipping whitespace stops at the end of the text or where a token starts, however many spaces,
-- line comments and block comments stand before it, and leaves no more than there was.
pub whitespace_lem :
    (s : List ℕ) → (starts_token (whitespace s) ≡ true) × (length (whitespace s) ≤ length s)
whitespace_lem s = (skip_rounds-token (length s) s (omega arith), skip_rounds-le (length s) s)

abbrev pub at_end : List ℕ → Bool
at_end [] = true
at_end (c ∷ s) = ends_atom c

-- The span up to the end of an unquoted atom, and what is left, are the text; what is left is empty
-- or starts with a character that ends an atom.
pub unquoted_span_lem :
    (s : List ℕ)
    → (s ≡ (unquoted_span s).0 ++ (unquoted_span s).1) × (at_end (unquoted_span s).1 ≡ true)
unfolding unquoted_span
unquoted_span_lem [] = (refl, refl)
unquoted_span_lem (c ∷ s) =
    let ih = unquoted_span_lem s in
    elim (Bool-cases (ends_atom c)) [
      | inl stop ↦
          (rw stop, ap (λ b. at_end (stop_span b (c ∷ s) c (unquoted_span s)).1) stop ∙ stop)
      | inr on ↦ rw on (ap (◌∷◌ c) ih.0, ih.1)
    ]

quoted_stop : (s : List ℕ) → quoted_span (char_quote ∷ s) ≡ some ([], char_quote ∷ s)
unfolding quoted_span
quoted_stop [] = refl
quoted_stop (d ∷ s) = refl

quoted_skip :
    (d : ℕ) (s : List ℕ)
    → quoted_span (char_backslash ∷ d ∷ s) ≡ cons_span char_backslash (cons_span d (quoted_span s))
unfolding quoted_span
quoted_skip d s = refl

quoted_plain :
    (c : ℕ) (s : List ℕ)
    → (c == char_backslash) ≡ false
    → (c == char_quote) ≡ false
    → quoted_span (c ∷ s) ≡ cons_span c (quoted_span s)
unfolding quoted_span
quoted_plain c [] e e' = rw (quoted_span, e')
quoted_plain c (d ∷ s) e e' = rw (quoted_span, e, e')

-- A quote and a backslash have an escape.
needs_none : ℕ → Bool
needs_none c =
    not ((char_info c).encode_escape == 0) || not (c == char_backslash) && not (c == char_quote)

needs_none_all : every_below 256 needs_none ≡ true
unfolding every_below char_info needs_none
needs_none_all = refl

-- The escaped form of any string of bytes is scanned up to the quote that is put behind it.
pub quoted_span-escape :
    (s rest : List ℕ)
    → AreBytes s
    → quoted_span (escape s ++ char_quote ∷ rest) ≡ some (escape s, char_quote ∷ rest)
unfolding escape needs_none
quoted_span-escape [] rest bytes = quoted_stop rest
quoted_span-escape (c ∷ s) rest (lt, bytes) =
    let ih = quoted_span-escape s rest bytes in
    let plain = every_below_sound 256 needs_none c needs_none_all lt in
    elim (Bool-cases ((char_info c).encode_escape == 0)) [
      | inl none_of ↦ rw none_of (
          quoted_plain c _ (ground (arith, plain, none_of)) (ground (arith, plain, none_of))
          ∙ ap (cons_span c) ih)
      | inr has ↦ rw has (
          quoted_skip _ _
          ∙ ap (λ o. cons_span char_backslash (cons_span (char_info c).encode_escape o)) ih)
    ]
