-- ===== src/Prelude/Tables.antt =====
-- Facts about small ranges of numbers, by evaluation: a test on every number below a bound, and a
-- predicate on every member of a list.
use Prim.Native.Nat.{ℕ, zero, suc, ◌<◌}
use mathlib.Core.Path.{◌≡◌, subst, sym}
use mathlib.Core.Bool.{Bool, true, false, ◌&&◌, ◌||◌, not}
use mathlib.Core.List.{List, [], ◌∷◌}
use native.Mathlib.Omega.{arith}
use reduct.Prelude.Tests.{◌==◌, ==_iff, Bool-cases}
use mathlib.Core.Logic.{inl, inr}

unfoldable pub every_below : ℕ → (ℕ → Bool) → Bool
every_below zero test = true
every_below (suc n) test = test n && every_below n test

pub every_below_sound :
    (n : ℕ) (test : ℕ → Bool) (x : ℕ) → every_below n test ≡ true → x < n → test x ≡ true
unfolding every_below
every_below_sound zero test x h lt = absurd (omega arith)
every_below_sound (suc n) test x h lt = ground (arith, every_below_sound n test x)

abbrev pub elem : ℕ → List ℕ → Bool
elem x [] = false
elem x (y ∷ ys) = x == y || elem x ys

-- A pair as an operator, so that a long `All` is written without brackets.
infixr 2 ◌&◌
abbrev pub ◌&◌ : {A B : Type 0} → A → B → A × B
a & b = (a, b)

abbrev pub All : (ℕ → Type 0) → List ℕ → Type 0
All P [] = Unit
All P (x ∷ xs) = P x × All P xs

pub All-elem : (P : ℕ → Type 0) (xs : List ℕ) (x : ℕ) → All P xs → elem x xs ≡ true → P x
All-elem P [] x h m = absurd (false_true m)
  where
    false_true : false ≡ true → ⊥
    false_true e = cc
All-elem P (y ∷ ys) x h m = elim (Bool-cases (x == y)) [
  | inl same ↦ subst P (sym ((==_iff x y).0 same)) h.0
  | inr other ↦ All-elem P ys x h.1 (rw other at m)
]

-- What holds of every member of a list holds of every number below `n` that passes a test, when
-- the test passes members of the list only.
pub All_of_test :
    (n : ℕ) (test : ℕ → Bool) (xs : List ℕ) (P : ℕ → Type 0)
    → every_below n (λ x. not (test x) || elem x xs) ≡ true
    → All P xs
    → (x : ℕ) → x < n
    → test x ≡ true
    → P x
All_of_test n test xs P table h x lt passes = All-elem P xs x h (member passes)
  where
    member : test x ≡ true → elem x xs ≡ true
    member e = rw e at (every_below_sound n (λ x. not (test x) || elem x xs) x table lt)
