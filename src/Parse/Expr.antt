-- ===== src/Parse/Expr.antt =====
-- The expressions that the parser makes. An atom is what it is looked up by: which item the map of
-- atoms has for it, and the place in the text that an item keeps, are left out.
use reduct.Prelude.{ℕ, suc, Bool, List, if◌then◌else◌}
use reduct.CharTable.Escape.{normalize_escape}

-- An item is an atom or a list of items.
mutual
  pub data Expr : Type 0 where
    atom : (quoted : Bool) (text : List ℕ) → Expr
    list : (items : Exprs) → Expr

  pub data Exprs : Type 0 where
    done : Exprs
    item : (first : Expr) (rest : Exprs) → Exprs

-- `REDUCT_HANDLE_NIL`, the empty list.
abbrev pub nil_handle : Expr
nil_handle = list done

-- What `REDUCT_ERROR_SYNTAX` reports, where the parser finds it.
pub data SyntaxError : Type 0 where
  unexpected_end : SyntaxError
  missing_close : (close : ℕ) → SyntaxError
  missing_quote : SyntaxError
  unexpected_character : SyntaxError
  missing_target : SyntaxError
  unexpected_operator : (text : List ℕ) → SyntaxError
  missing_operand : (text : List ℕ) → SyntaxError

-- The result of a part of the parser, with the text that is left.
pub data Parsed (A : Type 0) : Type 0 where
  parsed : (value : A) (left : List ℕ) → Parsed A
  failed : (error : SyntaxError) (left : List ℕ) → Parsed A
  out_of_fuel : Parsed A

-- The call of `reduct_atom_lookup` with a text and with REDUCT_ATOM_LOOKUP_QUOTED or without.
abbrev pub lookup : Bool → List ℕ → Expr
lookup quoted text = atom quoted text

-- The string of the atom that is made for a text. An atom of the map that is found for the text may
-- have another one, where the text of one quoted atom is the string of another.
abbrev pub string_of : Bool → List ℕ → List ℕ
string_of quoted text = if quoted then normalize_escape text else text

abbrev pub count : Exprs → ℕ
count done = 0
count (item e es) = suc (count es)

-- `handles[count++] = e`.
abbrev pub push : Exprs → Expr → Exprs
push done e = item e done
push (item d es) e = item d (push es e)
