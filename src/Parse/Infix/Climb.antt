-- ===== src/Parse/Infix/Climb.antt =====
-- Precedence climbing on its fuel, two steps for each item.
use reduct.Prelude.{ℕ, zero, suc, ◌+◌, ◌*◌, ◌≤◌, ◌==◌, ◌||◌, ltb, Bool, true, false, arith}
use reduct.Parse.Expr.{Expr, Exprs, done, item, count}
use reduct.Parse.Infix.{
  Precedence, prec, unexpected, get_precedence, Infixed, infixed, wrong, no_fuel, bind_infixed,
  with_level, unary_call, binary_call, prec_none, climb, climb_loop, climb_right, infix_transform,
}

-- A result, an expression or an error, that leaves at most `k` items.
abbrev pub Ends : ℕ → Infixed → Type 0
Ends k (infixed value left) = count left ≤ k
Ends k (wrong error) = Unit
Ends k no_fuel = ⊥

Ends-bind :
    (k m : ℕ) (r : Infixed) (f : Expr → Exprs → Infixed)
    → Ends k r
    → ((value : Expr) (left : Exprs) → count left ≤ k → Ends m (f value left))
    → Ends m (bind_infixed r f)
Ends-bind k m (infixed value left) f ends next = next value left ends
Ends-bind k m (wrong error) f ends next = tt
Ends-bind k m no_fuel f ends next = elim ends [ ]

Ends-level :
    (k : ℕ) (p : Precedence) (f : ℕ → Infixed)
    → ((level : ℕ) → Ends k (f level))
    → Ends k (with_level p f)
Ends-level k (prec level) f ends = ends level
Ends-level k (unexpected text) f ends = tt

Ends-le : (k m : ℕ) (r : Infixed) → k ≤ m → Ends k r → Ends m r
Ends-le k m (infixed value left) le ends = omega arith
Ends-le k m (wrong error) le ends = tt
Ends-le k m no_fuel le ends = ends

Ends-choose :
    (k : ℕ) (b : Bool) (x y : Infixed)
    → Ends k x
    → Ends k y
    → Ends k (elim b [ true ↦ x | false ↦ y ])
Ends-choose k true x y p q = p
Ends-choose k false x y p q = q

mutual
  unfolding climb

  climb-Ends :
      (n : ℕ) (es : Exprs) (min_prec : ℕ)
      → 2 * count es + 1 ≤ n
      → Ends (count es) (climb n es min_prec)
  climb-Ends zero es min_prec le = absurd (omega arith)
  climb-Ends (suc n) done min_prec le = omega arith
  climb-Ends (suc n) (item first es) min_prec le =
      Ends-level _ (get_precedence first true) _ λ level.
        Ends-choose _ (ltb prec_none level) _ _
          (Ends-bind (count es) _ (climb n es level) _ (climb-Ends n es level (omega arith))
            λ operand left p.
              Ends-le (count left) _ _ (omega arith)
                (climb_loop-Ends n (unary_call first operand) left min_prec (omega arith)))
          (Ends-le (count es) _ _ (omega arith) (climb_loop-Ends n first es min_prec (omega arith)))

  climb_loop-Ends :
      (n : ℕ) (e : Expr) (es : Exprs) (min_prec : ℕ)
      → 2 * count es + 1 ≤ n
      → Ends (count es) (climb_loop n e es min_prec)
  climb_loop-Ends zero e es min_prec le = absurd (omega arith)
  climb_loop-Ends (suc n) e done min_prec le = omega arith
  climb_loop-Ends (suc n) e (item op es) min_prec le =
      Ends-level _ (get_precedence op false) _ λ level.
        Ends-choose _ (level == prec_none || ltb level min_prec) _ _ (omega arith) (
          Ends-le (count es) _ _ (omega arith)
            (climb_right-Ends n e op es level min_prec (omega arith)))

  climb_right-Ends :
      (n : ℕ) (e op : Expr) (es : Exprs) (level min_prec : ℕ)
      → 2 * count es + 2 ≤ n
      → Ends (count es) (climb_right n e op es level min_prec)
  climb_right-Ends zero e op es level min_prec le = absurd (omega arith)
  climb_right-Ends (suc n) e op done level min_prec le = tt
  climb_right-Ends (suc n) e op (item right es) level min_prec le =
      Ends-bind (count (item right es)) _ (climb n (item right es) (level + 1)) _
        (climb-Ends n (item right es) (level + 1) (omega arith))
        λ value left p.
          Ends-le (count left) _ _ (omega arith)
            (climb_loop-Ends n (binary_call op e value) left min_prec (omega arith))

-- The transformation of any items between braces ends, with an expression or an error.
pub infix_transform-Ends : (es : Exprs) → Ends (count es) (infix_transform es)
unfolding infix_transform
infix_transform-Ends done = omega arith
infix_transform-Ends (item e es) =
    climb-Ends (suc (2 * count (item e es))) (item e es) prec_none (omega arith)
