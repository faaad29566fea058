-- ===== src/Parse/Infix/Correct.antt =====
-- Precedence climbing against the trees that a grammar of levels gives.
use reduct.Prelude.{
  ℕ, suc, ◌+◌, ◌-◌, ◌*◌, ◌≤◌, ◌<◌, ◌≡◌, refl, ap, ◌∙◌, ◌==◌, ◌||◌, ltb, true, false, arith,
}
use reduct.Parse.Expr.{Expr, Exprs, done, item, count}
use reduct.Parse.Infix.{
  prec, prec_none, prec_unary, get_precedence, with_level, bind_infixed, unary_call, binary_call,
  climb, climb_loop, climb_right, Infixed, infixed, infix_transform,
}

-- An operand, a unary operator before its operand, or a binary operator of a level between its own.
pub data Tree : Type 0 where
  leaf : (e : Expr) → Tree
  un : (op : Expr) (t : Tree) → Tree
  bin : (op : Expr) (p : ℕ) (l r : Tree) → Tree

-- The items of a tree in their order, before `rest`.
abbrev pub tokens : Tree → Exprs → Exprs
tokens (leaf e) rest = item e rest
tokens (un op t) rest = item op (tokens t rest)
tokens (bin op p l r) rest = tokens l (item op (tokens r rest))

-- The nested calls that a tree stands for.
abbrev pub build : Tree → Expr
build (leaf e) = e
build (un op t) = unary_call op (build t)
build (bin op p l r) = binary_call op (build l) (build r)

-- How tightly the outermost operator binds.
abbrev pub level : Tree → ℕ
level (leaf e) = prec_unary
level (un op t) = prec_unary
level (bin op p l r) = p

-- Operators have the levels that the code gives them; the operand of a unary operator has no
-- binary operator outside, and binary operators bind to the left.
abbrev pub IsTree : Tree → Type 0
IsTree (leaf e) = get_precedence e true ≡ prec prec_none
IsTree (un op t) = (get_precedence op true ≡ prec prec_unary) × IsTree t × (prec_unary ≤ level t)
IsTree (bin op p l r) =
    (get_precedence op false ≡ prec p)
    × (1 ≤ p)
    × (p < prec_unary)
    × IsTree l
    × IsTree r
    × (p ≤ level l)
    × (p < level r)

-- Nothing follows, or an operator of a level below `k`.
abbrev pub Below : ℕ → Exprs → Type 0
Below k done = Unit
Below k (item op es) = (q : ℕ) × (get_precedence op false ≡ prec q) × (q < k)

-- The steps from the first item of a tree to the loop behind it, and the fuel that has to be left.
abbrev pub steps : Tree → ℕ
steps (leaf e) = 1
steps (un op t) = 1
steps (bin op p l r) = steps l + 2

abbrev pub need : Tree → ℕ
need (leaf e) = 0
need (un op t) = steps t + need t + 1
need (bin op p l r) = need l + steps r + need r + 1

Below-le : (k m : ℕ) (rest : Exprs) → k ≤ m → Below k rest → Below m rest
Below-le k m done le below = tt
Below-le k m (item op es) le (q, e, lt) = (q, e, omega arith)

climb_loop-stops :
    (n : ℕ) (e : Expr) (rest : Exprs) (m : ℕ)
    → Below m rest
    → climb_loop (suc n) e rest m ≡ infixed e rest
unfolding climb
climb_loop-stops n e done m below = refl
climb_loop-stops n e (item op es) m (q, is, lt) =
    ap (λ p. with_level p next) is
    ∙ ap (λ b. elim b [ true ↦ infixed e (item op es) | false ↦ climb_right n e op es q m ]) stop
  where
    next : ℕ → Infixed
    next level = elim (level == prec_none || ltb level m) [
      | true ↦ infixed e (item op es)
      | false ↦ climb_right n e op es level m
    ]

    stop : (q == prec_none || ltb q m) ≡ true
    stop = ground arith

not_low : (p m : ℕ) → 1 ≤ p → m ≤ p → (p == prec_none || ltb p m) ≡ false
not_low p m pos le = ground arith

-- What names no operator ends the loop.
pub climb_loop-ends :
    (n : ℕ) (e op : Expr) (es : Exprs) (m : ℕ)
    → get_precedence op false ≡ prec prec_none
    → climb_loop (suc n) e (item op es) m ≡ infixed e (item op es)
unfolding climb
climb_loop-ends n e op es m is = ap (λ p. with_level p next) is
  where
    next : ℕ → Infixed
    next level = elim (level == prec_none || ltb level m) [
      | true ↦ infixed e (item op es)
      | false ↦ climb_right n e op es level m
    ]

-- A binary operator of a level that is not below the least one is taken with its right operand.
climb_loop-takes :
    (n : ℕ) (e op : Expr) (p : ℕ) (es : Exprs) (m : ℕ)
    → get_precedence op false ≡ prec p
    → 1 ≤ p
    → m ≤ p
    → climb_loop (suc n) e (item op es) m ≡ climb_right n e op es p m
unfolding climb
climb_loop-takes n e op p es m is pos le =
    ap (λ p. with_level p next) is
    ∙ ap (λ b. elim b [ true ↦ infixed e (item op es) | false ↦ climb_right n e op es p m ])
        (not_low p m pos le)
  where
    next : ℕ → Infixed
    next level = elim (level == prec_none || ltb level m) [
      | true ↦ infixed e (item op es)
      | false ↦ climb_right n e op es level m
    ]

climb-leaf :
    (n : ℕ) (e : Expr) (rest : Exprs) (m : ℕ)
    → get_precedence e true ≡ prec prec_none
    → climb (suc n) (item e rest) m ≡ climb_loop n e rest m
unfolding climb
climb-leaf n e rest m is = ap (λ p. with_level p first) is
  where
    first : ℕ → Infixed
    first level = elim (ltb prec_none level) [
      | true ↦
          bind_infixed (climb n rest level)
            (λ operand left. climb_loop n (unary_call e operand) left m)
      | false ↦ climb_loop n e rest m
    ]

climb-unary :
    (n : ℕ) (op : Expr) (rest : Exprs) (m : ℕ)
    → get_precedence op true ≡ prec prec_unary
    → climb (suc n) (item op rest) m
      ≡ bind_infixed
          (climb n rest prec_unary)
          (λ operand left. climb_loop n (unary_call op operand) left m)
unfolding climb
climb-unary n e rest m is = ap (λ p. with_level p first) is
  where
    first : ℕ → Infixed
    first level = elim (ltb prec_none level) [
      | true ↦
          bind_infixed (climb n rest level)
            (λ operand left. climb_loop n (unary_call e operand) left m)
      | false ↦ climb_loop n e rest m
    ]

climb_right-item :
    (n : ℕ) (e op : Expr) (es : Exprs) (p m k : ℕ)
    → count es ≡ suc k
    → climb_right (suc n) e op es p m
      ≡ bind_infixed
          (climb n es (p + 1))
          (λ value left. climb_loop n (binary_call op e value) left m)
unfolding climb
climb_right-item n e op done p m k c = absurd (omega (arith, c))
climb_right-item n e op (item first es) p m k c = refl

pub count-tokens :
    (t : Tree) (rest : Exprs) → steps t + need t + 2 * count rest + 1 ≤ 2 * count (tokens t rest)
count-tokens (leaf e) rest = omega arith
count-tokens (un op t) rest = omega (arith, count-tokens t rest)
count-tokens (bin op p l r) rest =
    omega (arith, count-tokens l (item op (tokens r rest)), count-tokens r rest)

pub climb-tokens :
    (t : Tree) (F n m : ℕ) (rest : Exprs)
    → IsTree t
    → m ≤ level t
    → Below (suc (level t)) rest
    → Below prec_unary rest
    → F ≡ steps t + n
    → need t ≤ n
    → climb F (tokens t rest) m ≡ climb_loop n (build t) rest m
climb-tokens (leaf e) F n m rest is le below binary fuel enough =
    ap (λ k. climb k (item e rest) m) {x = F} {y = suc n} (omega arith) ∙ climb-leaf n e rest m is
climb-tokens (un op t) F n m rest (is, is_t, tight) le below binary fuel enough =
    ap (λ k. climb k (item op (tokens t rest)) m) {x = F} {y = suc n} (omega arith)
    ∙ climb-unary n op (tokens t rest) m is
    ∙ ap (λ r. bind_infixed r (λ operand left. climb_loop n (unary_call op operand) left m))
        (climb-tokens t n (suc (n - steps t - 1)) prec_unary rest is_t tight
            (Below-le _ _ rest (omega arith) binary) binary (omega arith) (omega arith)
          ∙ climb_loop-stops (n - steps t - 1) (build t) rest prec_unary binary)
climb-tokens (bin op p l r) F n m rest (is, pos, small, is_l, is_r, left_le, right_lt) le below
      binary fuel enough =
    climb-tokens l F (suc (suc n)) m (item op (tokens r rest)) is_l (omega arith)
      (p, is, omega arith) (p, is, small) (omega arith) (omega arith)
    ∙ climb_loop-takes (suc n) (build l) op p (tokens r rest) m is pos le
    ∙ climb_right-item n (build l) op (tokens r rest) p m (count (tokens r rest) - 1)
        (omega (arith, count-tokens r rest))
    ∙ ap (λ x. bind_infixed x (λ value left. climb_loop n (binary_call op (build l) value) left m))
        (climb-tokens r n (suc (n - steps r - 1)) (p + 1) rest is_r (omega arith)
            (Below-le _ _ rest (omega arith) below) binary (omega arith) (omega arith)
          ∙ climb_loop-stops (n - steps r - 1) (build r) rest (p + 1)
              (Below-le _ _ rest (omega arith) below))

pub infix_transform-climb :
    (es : Exprs) (k : ℕ)
    → count es ≡ suc k
    → infix_transform es ≡ climb (suc (2 * count es)) es prec_none
unfolding infix_transform
infix_transform-climb done k c = absurd (omega (arith, c))
infix_transform-climb (item e es) k c = refl

-- The items of a tree of unary and binary operators, whose levels say how it is bracketed, are
-- transformed to the nested calls of that tree, and no item is left.
pub infix_transform-tokens :
    (t : Tree) → IsTree t → infix_transform (tokens t done) ≡ infixed (build t) done
infix_transform-tokens t is =
    let fuel = count-tokens t done in
    infix_transform-climb (tokens t done) (count (tokens t done) - 1) (omega arith)
    ∙ climb-tokens t _ (suc (2 * count (tokens t done) - steps t)) prec_none done is (omega arith)
        tt tt (omega arith) (omega arith)
    ∙ climb_loop-stops (2 * count (tokens t done) - steps t) (build t) done prec_none tt
