-- ===== src/Opcode/Branches.antt =====
-- How the emitter turns comparisons into branches: `to_skip` and `invert_skip` against what the
-- comparisons compute.
use reduct.Prelude.{
  ℕ, ◌<◌, ◌≡◌, refl, sym, ap, ◌∙◌, Bool, true, false, not, List, [], ◌∷◌, bit_and, ◌||◌,
}
use reduct.Prelude.Tables.{every_below, elem, All, ◌&◌, All_of_test}
use reduct.Opcode.{mode_const, is_compare, is_skip, to_skip, invert_skip}
use reduct.Opcode.Compare.{Doubles, compares, skips}

-- The numbers of the comparisons and of the skips, in both modes.
abbrev compare_ops : List ℕ
compare_ops = 0x1d ∷ 0x1e ∷ 0x1f ∷ 0x20 ∷ 0x21 ∷ 0x22 ∷ 0x9d ∷ 0x9e ∷ 0x9f ∷ 0xa0 ∷ 0xa1 ∷ 0xa2 ∷ []

abbrev skip_ops : List ℕ
skip_ops = 0x2e ∷ 0x2f ∷ 0x30 ∷ 0x31 ∷ 0x32 ∷ 0x33 ∷ 0xae ∷ 0xaf ∷ 0xb0 ∷ 0xb1 ∷ 0xb2 ∷ 0xb3 ∷ []

compare_table : every_below 256 (λ op. not (is_compare op) || elem op compare_ops) ≡ true
unfolding every_below is_compare
compare_table = refl

skip_table : every_below 256 (λ op. not (is_skip op) || elem op skip_ops) ≡ true
unfolding every_below is_skip
skip_table = refl

-- The mode of operand C is the high bit of the opcode.
abbrev pub SameMode : ℕ → ℕ → Type 0
SameMode op op' = bit_and op' mode_const ≡ bit_and op mode_const

-- `TO_SKIP` of a comparison is a skip with the same mode, and skips just where the comparison
-- holds, on every two numbers.
pub to_skip-compares :
    (d : Doubles) (op : ℕ)
    → op < 256
    → is_compare op ≡ true
    → (is_skip (to_skip op) ≡ true)
      × SameMode op (to_skip op)
      × ((a b : d.Double) → skips d (to_skip op) a b ≡ compares d op a b)
unfolding every_below is_skip to_skip skips compares
to_skip-compares d op = All_of_test 256 is_compare compare_ops P compare_table each op
  where
    P : ℕ → Type 0
    P op =
        (is_skip (to_skip op) ≡ true)
        × SameMode op (to_skip op)
        × ((a b : d.Double) → skips d (to_skip op) a b ≡ compares d op a b)

    each : All P compare_ops
    each =
        (refl, refl, λ a b. refl)
        & (refl, refl, λ a b. refl)
        & (refl, refl, λ a b. refl)
        & (refl, refl, λ a b. refl)
        & (refl, refl, λ a b. refl)
        & (refl, refl, λ a b. refl)
        & (refl, refl, λ a b. refl)
        & (refl, refl, λ a b. refl)
        & (refl, refl, λ a b. refl)
        & (refl, refl, λ a b. refl)
        & (refl, refl, λ a b. refl)
        & (refl, refl, λ a b. refl)
        & tt

not-not : (b : Bool) → b ≡ not (not b)
not-not true = refl
not-not false = refl

module _ (d : Doubles) where
  open d use {Double, unordered, fne_lem, fge_ordered, fgt_ordered}

  abbrev Negates : ℕ → Type 0
  Negates op =
      (a b : Double) → unordered a b ≡ false → skips d (invert_skip op) a b ≡ not (skips d op a b)

  abbrev Inverts : ℕ → Type 0
  Inverts op =
      (is_skip (invert_skip op) ≡ true)
      × SameMode op (invert_skip op)
      × (invert_skip (invert_skip op) ≡ op)
      × Negates op

  skip_ops_inverted : All Inverts skip_ops
  unfolding is_skip invert_skip skips
  skip_ops_inverted =
      (refl, refl, refl, λ a b o. fne_lem a b)
      & (refl, refl, refl, λ a b o. not-not _ ∙ ap not (sym (fne_lem a b)))
      & (refl, refl, refl, fge_ordered)
      & (refl, refl, refl, fgt_ordered)
      & (refl, refl, refl, λ a b o. not-not _ ∙ ap not (sym (fgt_ordered a b o)))
      & (refl, refl, refl, λ a b o. not-not _ ∙ ap not (sym (fge_ordered a b o)))
      & (refl, refl, refl, λ a b o. fne_lem a b)
      & (refl, refl, refl, λ a b o. not-not _ ∙ ap not (sym (fne_lem a b)))
      & (refl, refl, refl, fge_ordered)
      & (refl, refl, refl, fgt_ordered)
      & (refl, refl, refl, λ a b o. not-not _ ∙ ap not (sym (fgt_ordered a b o)))
      & (refl, refl, refl, λ a b o. not-not _ ∙ ap not (sym (fge_ordered a b o)))
      & tt

  -- `INVERT_SKIP` of a skip is a skip with the same mode, is undone by a second `INVERT_SKIP`,
  -- and skips just where the first did not, on every two numbers that are ordered.
  pub invert_skip-negates :
      (op : ℕ)
      → op < 256
      → is_skip op ≡ true
      → (is_skip (invert_skip op) ≡ true)
        × SameMode op (invert_skip op)
        × (invert_skip (invert_skip op) ≡ op)
        × ((a b : Double)
            → unordered a b ≡ false
            → skips d (invert_skip op) a b ≡ not (skips d op a b))
  invert_skip-negates = All_of_test 256 is_skip skip_ops Inverts skip_table skip_ops_inverted
