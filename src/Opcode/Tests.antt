-- ===== src/Opcode/Tests.antt =====
-- Tests of the opcode tables, and numbers that may be no number.
use reduct.Prelude.{ℕ, ◌≡◌, refl, Bool, true, false, not, Option, none, some, ltb, leb, ◌==◌, arith}
use reduct.Opcode.{decode, base, is_compare, is_skip, to_skip, invert_skip}
use reduct.Opcode.Compare.{Doubles, compares, skips}
use reduct.Opcode.Branches.{SameMode, to_skip-compares, invert_skip-negates}

-- Natural numbers, and `none` for what is no number.
abbrev both : (ℕ → ℕ → Bool) → Option ℕ → Option ℕ → Bool
both f none b = false
both f (some a) none = false
both f (some a) (some b) = f a b

abbrev no_order : Option ℕ → Option ℕ → Bool
no_order none b = true
no_order (some a) none = true
no_order (some a) (some b) = false

abbrev differ : Option ℕ → Option ℕ → Bool
differ a b = not (both (λ x y. x == y) a b)

abbrev numbers : Doubles
numbers = record {
  Double = Option ℕ;
  feq = both (λ x y. x == y);
  fne = differ;
  flt = both ltb;
  fle = both leb;
  fgt = both (λ x y. ltb y x);
  fge = both (λ x y. leb y x);
  unordered = no_order;
  fne_lem = λ a b. refl;
  fge_ordered = ge_lt;
  fgt_ordered = gt_le;
}
  where
    ge_lt : (a b : Option ℕ) → no_order a b ≡ false → both (λ x y. leb y x) a b ≡ not (both ltb a b)
    ge_lt none b o = cc
    ge_lt (some a) none o = cc
    ge_lt (some a) (some b) o = ground arith

    gt_le : (a b : Option ℕ) → no_order a b ≡ false → both (λ x y. ltb y x) a b ≡ not (both leb a b)
    gt_le none b o = cc
    gt_le (some a) none o = cc
    gt_le (some a) (some b) o = ground arith

to_skip-compares_example :
    (is_skip (to_skip 0x9f) ≡ true)
    × SameMode 0x9f (to_skip 0x9f)
    × ((a b : numbers.Double) → skips numbers (to_skip 0x9f) a b ≡ compares numbers 0x9f a b)
unfolding is_compare
to_skip-compares_example = to_skip-compares numbers 0x9f (omega arith) refl

invert_skip-negates_example :
    (is_skip (invert_skip 0x30) ≡ true)
    × SameMode 0x30 (invert_skip 0x30)
    × (invert_skip (invert_skip 0x30) ≡ 0x30)
    × ((a b : numbers.Double)
        → numbers.unordered a b ≡ false
        → skips numbers (invert_skip 0x30) a b ≡ not (skips numbers 0x30 a b))
unfolding is_skip
invert_skip-negates_example = invert_skip-negates numbers 0x30 (omega arith) refl

-- Inverting the skip on `a < b` does not negate it where one of the two is no number: neither skips.
unordered_less : skips numbers 0x30 none (some 1) ≡ false
unfolding skips decode base
unordered_less = refl

unordered_inverted : skips numbers (invert_skip 0x30) none (some 1) ≡ false
unfolding skips invert_skip decode base
unordered_inverted = refl
