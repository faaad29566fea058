-- ===== src/Bitmap/Scan.antt =====
-- The loops over words that the searches share.
use reduct.Prelude.{
  ℕ, zero, suc, ◌+◌, ◌-◌, ◌*◌, ◌/◌, ◌%◌, ◌^◌, ◌≤◌, ◌<◌, ◌≡◌, refl, ap, ap₂, ◌∙◌, sym, Bool, false,
  List, [], ◌∷◌, Option, none, arith, Bool-cases, inl, inr, if◌then◌else◌, ◌==◌, ==_iff,
}
use reduct.Prelude.BitTests.{bit_test, bit_test-zero}
use reduct.Bitmap.{width, word_at, scan, scan_words, or_else}
use reduct.Bitmap.Search.{IsFirst, IsFirst-or_else, scan-IsFirst}

-- Every word is a `uint64_t`.
abbrev pub AreWords : List ℕ → Type 0
AreWords [] = Unit
AreWords (w ∷ ws) = (w < 2 ^ 64) × AreWords ws

pub word_at-lt : (ws : List ℕ) (i : ℕ) → AreWords ws → word_at ws i < 2 ^ 64
word_at-lt [] i h = omega arith
word_at-lt (w ∷ ws) zero h = h.0
word_at-lt (w ∷ ws) (suc i) h = word_at-lt ws i h.1

module _ (test : ℕ → ℕ → Bool) (bitmap : List ℕ) where
  -- Index `k` passes by the bit of the word that it falls in.
  abbrev pub passes : ℕ → Bool
  passes k = test (word_at bitmap (k / width)) (k % width)

  pub passes-word : (i c : ℕ) → c < width → passes (i * width + c) ≡ test (word_at bitmap i) c
  passes-word i c h = ap₂ (λ j b. test (word_at bitmap j) b) (quotient i c h) (remainder i c h)
    where
      quotient : (i c : ℕ) → c < width → (i * width + c) / width ≡ i
      quotient i c h = omega arith

      remainder : (i c : ℕ) → c < width → (i * width + c) % width ≡ c
      remainder i c h = omega arith

  -- No index of a word passes, if none does in the equal word `skip`.
  pub word-skipped :
      (skip i : ℕ)
      → ((c : ℕ) → c < width → test skip c ≡ false)
      → word_at bitmap i ≡ skip
      → (lo mid : ℕ) → i * width ≤ lo
      → mid ≡ (i + 1) * width
      → IsFirst passes lo mid none
  word-skipped skip i none_pass same lo mid e g = λ k p q.
      let c = k - i * width in
      ap passes {x = k} {y = i * width + c} (omega arith)
      ∙ passes-word i c (omega arith)
      ∙ ap (λ w. test w c) same
      ∙ none_pass c (omega arith)

  pub scan_words-IsFirst :
      (skip : ℕ)
      → ((c : ℕ) → c < width → test skip c ≡ false)
      → (left i lo hi : ℕ) → lo ≡ i * width
      → hi ≡ lo + left * width
      → IsFirst passes lo hi (scan_words test skip bitmap i left)
  unfolding scan_words
  scan_words-IsFirst skip none_pass zero i lo hi e g = λ k p q. absurd (omega arith)
  scan_words-IsFirst skip none_pass (suc left) i lo hi e g =
      let rest =
        scan_words-IsFirst skip none_pass left (i + 1) (lo + width) hi (omega arith)
          (omega arith) in
      let here =
        scan-IsFirst passes (test (word_at bitmap i)) i width 0 lo (lo + width) (omega arith) refl
          (λ c p q. passes-word i c q) in
      elim (Bool-cases (word_at bitmap i == skip)) [
        | inl same ↦ rw same (
            IsFirst-or_else passes lo (lo + width) hi none _ (omega arith) (omega arith)
              (word-skipped skip i none_pass ((==_iff _ _).0 same) lo (lo + width) (omega arith)
                (omega arith))
              rest)
        | inr other ↦
            rw other
              (IsFirst-or_else passes lo (lo + width) hi _ _ (omega arith) (omega arith) here rest)
      ]

  -- The search of a first word from bit `b` on, of which `m` keeps those bits that pass, and then
  -- of the rest.
  pub scan_from-IsFirst :
      (m i b lo hi : ℕ) (rest : Option ℕ)
      → lo ≡ i * width + b
      → b < width
      → (i + 1) * width ≤ hi
      → ((c : ℕ) → b ≤ c → c < width → bit_test m c ≡ test (word_at bitmap i) c)
      → IsFirst passes ((i + 1) * width) hi rest
      → IsFirst passes lo hi
          (if m == 0 then rest else or_else (scan (bit_test m) i b (width - b)) rest)
  scan_from-IsFirst m i b lo hi rest e fits within same found = elim (Bool-cases (m == 0)) [
    | inl is_zero ↦ rw is_zero (
        IsFirst-or_else passes lo ((i + 1) * width) hi none rest (omega arith) within
          (empty ((==_iff m 0).0 is_zero)) found)
    | inr some_bit ↦ rw some_bit (
        IsFirst-or_else passes lo ((i + 1) * width) hi _ rest (omega arith) within
          (scan-IsFirst passes (bit_test m) i (width - b) b lo ((i + 1) * width) e (omega arith)
            λ c p q. passes-word i c (omega arith) ∙ sym (same c p (omega arith)))
          found)
  ]
    where
      empty : m ≡ 0 → IsFirst passes lo ((i + 1) * width) none
      empty z = λ k p q.
          let c = k - i * width in
          ap passes {x = k} {y = i * width + c} (omega arith)
          ∙ passes-word i c (omega arith)
          ∙ sym (same c (omega arith) (omega arith))
          ∙ ap (λ w. bit_test w c) z
          ∙ bit_test-zero c (omega arith)
