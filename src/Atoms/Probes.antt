-- ===== src/Atoms/Probes.antt =====
-- The slots that a search visits: the n-th is the n-th triangular number behind the first, modulo a
-- power of two. Every slot is visited within as many rounds as there are slots.
use reduct.Prelude.{
  ℕ, zero, suc, ◌+◌, ◌-◌, ◌*◌, ◌%◌, ◌^◌, ◌≤◌, ◌<◌, ◌≡◌, refl, sym, ◌∙◌, ap, inl, inr, ◌⊎◌, arith,
}
use native.Mathlib.Nat.{pow-suc, one-le-pow, mod-eq_of_lt, add-mul-mod_self_left}

-- The sum of the steps 1 to n.
unfoldable pub triangular : ℕ → ℕ
triangular zero = 0
triangular (suc n) = triangular n + suc n

-- The two are equal modulo `m`.
abbrev pub Congruent : ℕ → ℕ → ℕ → Type 0
Congruent m a b = (x : ℕ) × ((y : ℕ) × (a + x * m ≡ b + y * m))

triangular_last : (p : ℕ) → triangular (suc (p * 2)) + suc p ≡ suc p * (suc p * 2)
unfolding triangular
triangular_last zero = refl
triangular_last (suc p) = omega (
  arith,
  triangular_last p,
  ap triangular {x = suc (suc p * 2)} {y = suc (suc (suc (p * 2)))} (omega arith),
)

-- The slot of a round is half the table away from that of its mirror.
triangular_mirror :
    (p i : ℕ)
    → i < p * 2
    → triangular (p * 2 - 1 - i) + p * (i * 2 + 1) ≡ triangular i + p * (p * 2)
unfolding triangular
triangular_mirror zero i h = absurd (omega arith)
triangular_mirror (suc p) zero h = omega (
  arith,
  triangular_last p,
  ap triangular {x = suc p * 2 - 1 - 0} {y = suc (p * 2)} (omega arith),
)
triangular_mirror (suc p) (suc i) h = omega (
  arith,
  triangular_mirror (suc p) i (omega arith),
  ap triangular {x = suc p * 2 - 1 - i} {y = suc (suc p * 2 - 1 - suc i)} (omega arith),
)

abbrev Parity : ℕ → Type 0
Parity x = (u : ℕ) × ((x ≡ u * 2) ⊎ (x ≡ u * 2 + 1))

parity : (x : ℕ) → Parity x
parity zero = (0, inl refl)
parity (suc x) = next (parity x)
  where
    next : {x : ℕ} → Parity x → Parity (suc x)
    next (u, inl e) = (u, inr (omega arith))
    next (u, inr e) = (suc u, inl (omega arith))

-- From a slot modulo `p` to one modulo twice that, of the same round or of its mirror.
doubled :
    (p r a b i x y : ℕ)
    → b + p * (i * 2 + 1) ≡ a + p * (p * 2)
    → a + x * p ≡ r + y * p
    → Parity x
    → Parity y
    → Congruent (p * 2) a r ⊎ Congruent (p * 2) b r
doubled p r a b i x y mirror e (u, inl ex) (v, inl ey) =
    inl (u, (v, omega (arith, ap (λ (t : ℕ). t * p) ex, ap (λ (t : ℕ). t * p) ey)))
doubled p r a b i x y mirror e (u, inr ex) (v, inr ey) =
    inl (u, (v, omega (arith, ap (λ (t : ℕ). t * p) ex, ap (λ (t : ℕ). t * p) ey)))
doubled p r a b i x y mirror e (u, inl ex) (v, inr ey) =
    inr (i + u, (v + p, omega (arith, ap (λ (t : ℕ). t * p) ex, ap (λ (t : ℕ). t * p) ey)))
doubled p r a b i x y mirror e (u, inr ex) (v, inl ey) =
    inr (i + u + 1, (v + p, omega (arith, ap (λ (t : ℕ). t * p) ex, ap (λ (t : ℕ). t * p) ey)))

-- Every number is congruent to one of the first 2^k triangular numbers, modulo 2^k.
every_slot : (k r : ℕ) → (i : ℕ) × (i < 2 ^ k) × Congruent (2 ^ k) (triangular i) r
unfolding triangular
every_slot zero r = (0, omega arith, (r, (0, omega arith)))
every_slot (suc k) r =
    let (i, below, (x, (y, e))) = every_slot k r in
    let mirror = triangular_mirror (2 ^ k) i (omega arith) in
    rw (pow-suc 2 k)
      (elim (doubled (2 ^ k) r (triangular i) (triangular (2 ^ k * 2 - 1 - i)) i x y mirror e
        (parity x) (parity y)) [
          | inl same ↦ (i, omega arith, same)
          | inr other ↦ (2 ^ k * 2 - 1 - i, omega arith, other)
        ])

remainder_lem : (m a r : ℕ) → 0 < m → r < m → Congruent m a r → a % m ≡ r
remainder_lem m a r pos small (x, (y, e)) =
    sym (add-mul-mod_self_left a m x)
    ∙ ap (λ (t : ℕ). t % m) {x = a + m * x} {y = r + m * y} (omega arith)
    ∙ add-mul-mod_self_left r m y
    ∙ mod-eq_of_lt small

grows : (a p : ℕ) → 1 ≤ p → a ≤ a * p
grows a p h = grind arith

-- From any first slot, a search of 2^k slots visits each within 2^k rounds.
pub visits :
    (k start slot : ℕ)
    → slot < 2 ^ k
    → (n : ℕ) × (n < 2 ^ k) × ((start + triangular n) % 2 ^ k ≡ slot)
visits k start slot h =
    let (n, below, (x, (y, e))) = every_slot k (slot + start * (2 ^ k) - start) in
    (
      n,
      below,
      remainder_lem (2 ^ k) (start + triangular n) slot (one-le-pow k 2 (omega arith)) h
          (x, (y + start, omega (arith, e, grows start (2 ^ k) (one-le-pow k 2 (omega arith))))),
    )
