-- ===== src/Constants/Tests.antt =====
-- Tests of constants.
use reduct.Prelude.{ℕ, refl, ◌==◌, arith}
use reduct.Constants.{function_init, add_constant}
use reduct.Constants.Slots.{IsFunction, Outcome, add_constant-Outcome}

function_init-IsFunction : IsFunction (function_init {Handle = ℕ})
unfolding function_init
function_init-IsFunction = record { count_le = omega arith; slots = λ p. omega arith }

add_constant-Outcome_example :
    Outcome (λ a b. a == b) function_init 7 (add_constant (λ a b. a == b) function_init 7)
add_constant-Outcome_example =
    add_constant-Outcome (λ a b. a == b) function_init 7 refl function_init-IsFunction
