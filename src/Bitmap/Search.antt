-- ===== src/Bitmap/Search.antt =====
-- What it is to search a range of indices for the first or the last that passes a test.
use reduct.Prelude.{
  ℕ, zero, suc, ◌+◌, ◌*◌, ◌≤◌, ◌<◌, ◌≡◌, refl, ap, ◌∙◌, Bool, true, false, Option, none, some,
  arith, Bool-cases, inl, inr,
}
use reduct.Bitmap.{width, scan, scan_down, or_else}

-- The result is the first index of [lo, hi) that passes, or none where no index passes.
abbrev pub IsFirst : (ℕ → Bool) → ℕ → ℕ → Option ℕ → Type 0
IsFirst P lo hi none = (k : ℕ) → lo ≤ k → k < hi → P k ≡ false
IsFirst P lo hi (some r) =
    (lo ≤ r) × (r < hi) × (P r ≡ true) × ((k : ℕ) → lo ≤ k → k < r → P k ≡ false)

-- The result is the last index below `hi` that passes, from `lo` on, or none.
abbrev pub IsLast : (ℕ → Bool) → ℕ → ℕ → Option ℕ → Type 0
IsLast P lo hi none = (k : ℕ) → lo ≤ k → k < hi → P k ≡ false
IsLast P lo hi (some r) =
    (lo ≤ r) × (r < hi) × (P r ≡ true) × ((k : ℕ) → r < k → k < hi → P k ≡ false)

-- Search the first part of a range, then the second.
pub IsFirst-or_else :
    (P : ℕ → Bool) (lo mid hi : ℕ) (o r : Option ℕ)
    → lo ≤ mid
    → mid ≤ hi
    → IsFirst P lo mid o
    → IsFirst P mid hi r
    → IsFirst P lo hi (or_else o r)
IsFirst-or_else P lo mid hi none none h g f s = λ k p q. ground (arith, f k, s k)
IsFirst-or_else P lo mid hi none (some r) h g f s =
    (omega arith, s.1, s.2, λ k p q. ground (arith, f k, s.3 k))
IsFirst-or_else P lo mid hi (some o) r h g f s = (f.0, omega arith, f.2, f.3)

pub IsLast-or_else :
    (P : ℕ → Bool) (lo mid hi : ℕ) (o r : Option ℕ)
    → lo ≤ mid
    → mid ≤ hi
    → IsLast P mid hi o
    → IsLast P lo mid r
    → IsLast P lo hi (or_else o r)
IsLast-or_else P lo mid hi none none h g f s = λ k p q. ground (arith, f k, s k)
IsLast-or_else P lo mid hi none (some r) h g f s =
    (s.0, omega arith, s.2, λ k p q. ground (arith, f k, s.3 k))
IsLast-or_else P lo mid hi (some o) r h g f s = (omega arith, f.1, f.2, f.3)

IsFirst-step :
    (P : ℕ → Bool) (lo hi : ℕ) (o : Option ℕ)
    → P lo ≡ false
    → IsFirst P (lo + 1) hi o
    → IsFirst P lo hi o
IsFirst-step P lo hi none h f = λ k p q. ground (arith, f k)
IsFirst-step P lo hi (some r) h f = (omega arith, f.1, f.2, λ k p q. ground (arith, f.3 k))

module _ (P : ℕ → Bool) (test : ℕ → Bool) (i : ℕ) where
  -- Scanning the bits of a word finds the first that passes.
  pub scan-IsFirst :
      (left b lo hi : ℕ)
      → lo ≡ i * width + b
      → hi ≡ lo + left
      → ((c : ℕ) → b ≤ c → c < b + left → P (i * width + c) ≡ test c)
      → IsFirst P lo hi (scan test i b left)
  unfolding scan
  scan-IsFirst zero b lo hi e g same = λ k p q. absurd (omega arith)
  scan-IsFirst (suc left) b lo hi e g same = elim (Bool-cases (test b)) [
    | inl hit ↦ rw (hit, ← e) (omega arith, omega arith, at ∙ hit, λ k p q. absurd (omega arith))
    | inr miss ↦ rw miss (
        IsFirst-step P lo hi _ (at ∙ miss) (
          scan-IsFirst left (b + 1) (lo + 1) hi (omega arith) (omega arith)
            λ c p q. same c (omega arith) (omega arith)))
  ]
    where
      at : P lo ≡ test b
      at = ap P e ∙ same b (omega arith) (omega arith)

  -- Scanning the bits of a word downwards finds the last that passes.
  pub scan_down-IsLast :
      (b lo hi : ℕ)
      → lo ≡ i * width
      → hi ≡ lo + b
      → ((c : ℕ) → c < b → P (i * width + c) ≡ test c)
      → IsLast P lo hi (scan_down test i b)
  unfolding scan_down
  scan_down-IsLast zero lo hi e g same = λ k p q. absurd (omega arith)
  scan_down-IsLast (suc b) lo hi e g same = elim (Bool-cases (test b)) [
    | inl hit ↦
        rw hit (omega arith, omega arith, same b (omega arith) ∙ hit, λ k p q. absurd (omega arith))
    | inr miss ↦ rw miss (
        IsLast-or_else P lo (lo + b) hi none _ (omega arith) (omega arith)
          (λ k p q. ap P {x = k} {y = i * width + b} (omega arith) ∙ same b (omega arith) ∙ miss)
          (scan_down-IsLast b lo (lo + b) e refl λ c p. same c (omega arith)))
  ]
