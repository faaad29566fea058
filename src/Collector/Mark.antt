-- ===== src/Collector/Mark.antt =====
-- `reduct_item_mark`: depth first, stopping at items that are marked.
use reduct.Prelude.{
  ℕ, zero, suc, true, Option, none, some, List, [], ◌∷◌, if◌then◌else◌, ◌==◌, ◌>>=◌,
}
use reduct.Collector.Item.{Address, Marking}

-- `atomic_fetch_or(&item->flags, REDUCT_ITEM_FLAG_MARKED)`.
unfoldable pub set_marked : Marking → Address → Marking
set_marked m p q = if q == p then record (m q) { marked = true } else m q

-- What `mark` does on each address of a list, one after the other.
unfoldable pub each {ℓ} : {S A : Type ℓ} → (S → A → Option S) → S → List A → Option S
each f s [] = some s
each f s (x ∷ xs) = f s x >>= λ s'. each f s' xs

module _ (children : Address → Option (List Address)) where
  -- `none` where the depth of the recursion passes the fuel.
  unfoldable pub mark : ℕ → Marking → Address → Option Marking
  unfolding each set_marked
  mark zero m p = none
  mark (suc fuel) m p =
      if (m p).marked then some m else children p >>= each (mark fuel) (set_marked m p)
