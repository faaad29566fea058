-- ===== src/Parse/Infix.antt =====
-- The operators between braces: `reduct_parse_get_precedence` and precedence climbing.
pub mod Climb
pub mod Correct
use reduct.Prelude.{
  ℕ, zero, suc, ◌+◌, ◌-◌, ◌*◌, ◌==◌, ◌&&◌, ◌||◌, not, ltb, leb, Bool, true, false, Option, none,
  some, List, [], ◌∷◌, if◌then◌else◌, length, get_or, drop,
}
use reduct.Parse.Expr.{
  Expr, Exprs, nil_handle, string_of, atom, list, done, item, count, SyntaxError,
  unexpected_operator, missing_operand,
}

-- `reduct_parse_precedence_t`.
abbrev pub prec_none : ℕ
prec_none = 0

abbrev pub prec_or : ℕ
prec_or = 1

abbrev pub prec_and : ℕ
prec_and = 2

abbrev pub prec_comparison : ℕ
prec_comparison = 3

abbrev pub prec_bitwise : ℕ
prec_bitwise = 4

abbrev pub prec_shift : ℕ
prec_shift = 5

abbrev pub prec_add_sub : ℕ
prec_add_sub = 6

abbrev pub prec_mul_div : ℕ
prec_mul_div = 7

abbrev pub prec_unary : ℕ
prec_unary = 8

abbrev pub eq_text : List ℕ → List ℕ → Bool
eq_text [] [] = true
eq_text [] (d ∷ t) = false
eq_text (c ∷ s) [] = false
eq_text (c ∷ s) (d ∷ t) = c == d && eq_text s t

-- `reduct_parse_compare_suffix`.
unfoldable pub compare_suffix : List ℕ → List ℕ → Bool
compare_suffix text suffix =
    leb (length suffix) (length text) && eq_text (drop (length text - length suffix) text) suffix

-- The text `get-in`.
abbrev pub get_in : List ℕ
get_in = 103 ∷ 101 ∷ 116 ∷ 45 ∷ 105 ∷ 110 ∷ []

abbrev pub atom_text : Expr → Option (List ℕ)
atom_text (atom quoted text) = some (string_of quoted text)
atom_text (list items) = none

abbrev pub last_item : Expr → Exprs → Expr
last_item e done = e
last_item e (item d es) = last_item d es

abbrev pub head_is_get_in : Expr → Bool
head_is_get_in (atom quoted text) = eq_text (string_of quoted text) get_in
head_is_get_in (list items) = false

abbrev pub get_in_operator : Exprs → Option (List ℕ)
get_in_operator done = none
get_in_operator (item head es) =
    if leb 2 (count es) && head_is_get_in head then atom_text (last_item head es) else none

-- `reduct_parse_get_operator_atom`, the text of the atom that names the operator.
unfoldable pub operator_text : Expr → (unary : Bool) → Option (List ℕ)
operator_text (atom quoted text) unary = some (string_of quoted text)
operator_text (list items) true = none
operator_text (list items) false = get_in_operator items

-- A precedence, or the text of an operator that is none.
pub data Precedence : Type 0 where
  prec : (level : ℕ) → Precedence
  unexpected : (text : List ℕ) → Precedence

abbrev last_char : List ℕ → ℕ
last_char text = get_or text (length text - 1) 0

-- The `switch` over the last character, whose cases break off to the error behind it.
unfoldable pub binary_precedence : List ℕ → Precedence
unfolding compare_suffix
binary_precedence text =
    let last = last_char text in
    let ends = compare_suffix text in
    if last == 114 && ends (111 ∷ 114 ∷ [])
    then prec prec_or
    else if last == 100 && ends (97 ∷ 110 ∷ 100 ∷ [])
    then prec prec_and
    else if last == 60 && ends (60 ∷ 60 ∷ [])
    then prec prec_shift
    else if last == 60 && ends (60 ∷ [])
    then prec prec_comparison
    else if last == 62 && ends (62 ∷ 62 ∷ [])
    then prec prec_shift
    else if last == 62 && ends (62 ∷ [])
    then prec prec_comparison
    else if last == 61
        && (ends (61 ∷ 61 ∷ [])
            || ends (33 ∷ 61 ∷ [])
            || ends (60 ∷ 61 ∷ [])
            || ends (62 ∷ 61 ∷ []))
    then prec prec_comparison
    else if (last == 38 || last == 124 || last == 94)
        && (ends (38 ∷ []) || ends (124 ∷ []) || ends (94 ∷ []))
    then prec prec_bitwise
    else if (last == 42 || last == 47 || last == 37)
        && (ends (42 ∷ []) || ends (47 ∷ []) || ends (37 ∷ []))
    then prec prec_mul_div
    else if (last == 43 || last == 45) && (ends (43 ∷ []) || ends (45 ∷ []))
    then prec prec_add_sub
    else unexpected text

unfoldable pub unary_precedence : List ℕ → ℕ
unfolding compare_suffix
unary_precedence text =
    let last = last_char text in
    if last == 116 && compare_suffix text (110 ∷ 111 ∷ 116 ∷ [])
      || last == 45 && compare_suffix text (45 ∷ [])
    then prec_unary
    else prec_none

abbrev pub precedence_of : Bool → Option (List ℕ) → Precedence
precedence_of unary none = prec prec_none
precedence_of unary (some text) =
    if length text == 0
    then prec prec_none
    else if unary
    then prec (unary_precedence text)
    else binary_precedence text

-- `reduct_parse_get_precedence`.
unfoldable pub get_precedence : Expr → (unary : Bool) → Precedence
unfolding operator_text binary_precedence unary_precedence
get_precedence e unary = precedence_of unary (operator_text e unary)

-- The result of a part of the transformation, with the items that are left.
pub data Infixed : Type 0 where
  infixed : (value : Expr) (left : Exprs) → Infixed
  wrong : (error : SyntaxError) → Infixed
  no_fuel : Infixed

abbrev pub bind_infixed : Infixed → (Expr → Exprs → Infixed) → Infixed
bind_infixed (infixed value left) k = k value left
bind_infixed (wrong error) k = wrong error
bind_infixed no_fuel k = no_fuel

-- An operator that is none is an error.
abbrev pub with_level : Precedence → (ℕ → Infixed) → Infixed
with_level (unexpected text) k = wrong (unexpected_operator text)
with_level (prec level) k = k level

abbrev pub unary_call : Expr → Expr → Expr
unary_call op operand = list (item op (item operand done))

abbrev pub binary_call : Expr → Expr → Expr → Expr
binary_call op left right = list (item op (item left (item right done)))

abbrev operand_missing : Option (List ℕ) → SyntaxError
operand_missing none = missing_operand []
operand_missing (some text) = missing_operand text

-- `reduct_parse_infix_transform_recursive` and its loop, where the items are those from `*pos` on.
-- `climb_loop` goes on with the loop from the operand `e`, and `climb_right` behind an operator.
unfoldable mutual
  unfolding get_precedence operator_text

  pub climb : ℕ → Exprs → ℕ → Infixed
  climb zero es min_prec = no_fuel
  climb (suc n) done min_prec = infixed nil_handle done
  climb (suc n) (item first es) min_prec = with_level (get_precedence first true) (λ level.
      elim (ltb prec_none level) [
        | true ↦
            bind_infixed (climb n es level)
              (λ operand left. climb_loop n (unary_call first operand) left min_prec)
        | false ↦ climb_loop n first es min_prec
      ])

  pub climb_loop : ℕ → Expr → Exprs → ℕ → Infixed
  climb_loop zero e es min_prec = no_fuel
  climb_loop (suc n) e done min_prec = infixed e done
  climb_loop (suc n) e (item op es) min_prec = with_level (get_precedence op false) (λ level.
      elim (level == prec_none || ltb level min_prec) [
        | true ↦ infixed e (item op es)
        | false ↦ climb_right n e op es level min_prec
      ])

  pub climb_right : ℕ → Expr → Expr → Exprs → ℕ → ℕ → Infixed
  climb_right zero e op es level min_prec = no_fuel
  climb_right (suc n) e op done level min_prec = wrong (operand_missing (operator_text op false))
  climb_right (suc n) e op (item right es) level min_prec =
      bind_infixed (climb n (item right es) (level + 1))
        (λ value left. climb_loop n (binary_call op e value) left min_prec)

-- `reduct_parse_infix_transform`: what is left behind the expression is dropped.
unfoldable pub infix_transform : Exprs → Infixed
unfolding climb
infix_transform done = infixed (list done) done
infix_transform (item e es) = climb (suc (2 * count (item e es))) (item e es) prec_none
