-- ===== src/Collector/Swept.antt =====
-- What one step of the sweep does: it keeps the other items but for the links of arenas, keeps a
-- marked item and takes its mark, and puts an unmarked one on the list of free items.
use reduct.Prelude.{
  ℕ, true, false, none, some, List, [], ◌∷◌, ◌≡◌, ◌≢◌, refl, sym, ◌∙◌, ap, subst, inl, inr, ◌==◌,
  Bool-cases, Member, arith,
}
use reduct.Collector.Item.{Address, Pointer, Payload, blank, atom, arena, Payloads}
use reduct.Collector.Sweep.{
  World, write, set_prev, set_next, at_pointer, unlink, drop_atom, release, flags_none, item_init,
  item_deinit, deinit_used, push_free, clear_marked, sweep_item,
}

-- A payload without the links between arenas.
abbrev pub unlinked : Payload → Payload
unlinked (arena _ _) = arena none none
unlinked x = x

pub unlinked-blank : (x : Payload) (n : Pointer) → unlinked x ≡ blank n → x ≡ blank n
unlinked-blank (arena _ _) n e = cc
unlinked-blank _ n e = e

module _ {ℓ} {A : Type ℓ} (f : ℕ → A) (i : ℕ) (a : A) where
  pub write_self : write f i a i ≡ a
  unfolding write
  write_self = ground arith

  pub write_other : (j : ℕ) → j ≢ i → write f i a j ≡ f j
  unfolding write
  write_other j h = ground arith

unlinked-set_prev : (p : Pointer) (x : Payload) → unlinked (set_prev p x) ≡ unlinked x
unlinked-set_prev p (arena _ _) = refl
unlinked-set_prev p _ = refl

unlinked-set_next : (p : Pointer) (x : Payload) → unlinked (set_next p x) ≡ unlinked x
unlinked-set_next p (arena _ _) = refl
unlinked-set_next p _ = refl

unlinked-at_pointer :
    (f : Payload → Payload)
    → ((x : Payload) → unlinked (f x) ≡ unlinked x)
    → (p : Pointer) (pay : Payloads) (q : Address)
    → unlinked (at_pointer f p pay q) ≡ unlinked (pay q)
unfolding at_pointer write
unlinked-at_pointer f h none pay q = refl
unlinked-at_pointer f h (some p) pay q = elim (Bool-cases (q == p)) [
  | inl e ↦ rw e (h (pay p) ∙ ap (λ t. unlinked (pay t)) {x = p} {y = q} (ground arith))
  | inr e ↦ rw e refl
]

unlinked-unlink :
    (prev next : Pointer) (pay : Payloads) (q : Address)
    → unlinked (unlink prev next pay q) ≡ unlinked (pay q)
unfolding unlink
unlinked-unlink prev next pay q =
    unlinked-at_pointer (set_next next) (unlinked-set_next next) prev _ q
    ∙ unlinked-at_pointer (set_prev prev) (unlinked-set_prev prev) next pay q

-- An item that a step leaves as it is.
pub record Same (w w' : World) (q : Address) : Type 0 where
  pub payload : unlinked (w'.payloads q) ≡ unlinked (w.payloads q)
  pub flags : w'.flags q ≡ w.flags q

pub Same-refl : (w : World) (q : Address) → Same w w q
Same-refl w q = record { payload = refl; flags = refl }

pub Same-trans : {w w₁ w₂ : World} {q : Address} → Same w w₁ q → Same w₁ w₂ q → Same w w₂ q
Same-trans a b = record { payload = b.payload ∙ a.payload; flags = b.flags ∙ a.flags }

release-Same : (w : World) (p : Address) (x : Payload) (q : Address) → Same w (release w p x) q
unfolding release drop_atom
release-Same w p (atom _ _ none) q = Same-refl w q
release-Same w p (atom _ _ (some i)) q = record { payload = refl; flags = refl }
release-Same w p (arena prev next) q = record {
  payload = unlinked-unlink prev next w.payloads q;
  flags = refl;
}
release-Same w p _ q = Same-refl w q

item_init_other : (w : World) (p q : Address) → q ≢ p → Same w (item_init w p) q
unfolding item_init
item_init_other w p q h = record {
  payload = ap unlinked (write_other w.payloads p (blank none) q h);
  flags = write_other w.flags p flags_none q h;
}

pub deinit_other : (w : World) (p q : Address) → q ≢ p → Same w (item_deinit w p) q
unfolding item_deinit
deinit_other w p q h =
    Same-trans (release-Same w p (w.payloads p) q)
      (item_init_other (release w p (w.payloads p)) p q h)

deinit_used_other : (w : World) (p q : Address) (x : Payload) → q ≢ p → Same w (deinit_used w p x) q
unfolding deinit_used
deinit_used_other w p q (blank _) h = Same-refl w q
deinit_used_other w p q _ h = deinit_other w p q h

push_free_other : (w : World) (p q : Address) → q ≢ p → Same w (push_free w p) q
unfolding push_free
push_free_other w p q h = record {
  payload = ap unlinked (write_other w.payloads p (blank w.free) q h);
  flags = refl;
}

-- The list of free items, from its first pointer along the links.
abbrev pub Linked : Payloads → Pointer → List Address → Type 0
Linked pay none [] = Unit
Linked pay none (q ∷ qs) = ⊥
Linked pay (some p) [] = ⊥
Linked pay (some p) (q ∷ qs) = (p ≡ q) × ((n : Pointer) × (pay q ≡ blank n) × Linked pay n qs)

pub Linked-Same :
    {w w' : World} (p : Pointer) (qs : List Address)
    → ((q : Address) → Member q qs → Same w w' q)
    → Linked w.payloads p qs
    → Linked w'.payloads p qs
Linked-Same none [] h l = tt
Linked-Same none (q ∷ qs) h l = l
Linked-Same (some p) [] h l = l
Linked-Same (some p) (q ∷ qs) h (e, (n, b, l)) = (
  e,
  (
    n,
    unlinked-blank _ n ((h q (inl refl)).payload ∙ ap unlinked b),
    Linked-Same n qs (λ r i. h r (inr i)) l,
  ),
)

clear_marked_other : (w : World) (p q : Address) → q ≢ p → Same w (clear_marked w p) q
unfolding clear_marked
clear_marked_other w p q h = record {
  payload = refl;
  flags = write_other w.flags p (record (w.flags p) { marked = false }) q h;
}

pub sweep_item_other : (w : World) (p q : Address) → q ≢ p → Same w (sweep_item w p) q
unfolding sweep_item
sweep_item_other w p q h = elim (Bool-cases (w.flags p).marked) [
  | inl e ↦ rw e (clear_marked_other w p q h)
  | inr e ↦ rw e (
      Same-trans (deinit_used_other w p q (w.payloads p) h)
        (push_free_other (deinit_used w p (w.payloads p)) p q h))
]

-- A marked item that the sweep has met: it is as it was, without its mark.
pub record Kept (w w' : World) (q : Address) : Type 0 where
  pub payload : unlinked (w'.payloads q) ≡ unlinked (w.payloads q)
  pub cleared : (w'.flags q).marked ≡ false
  pub retained : (w'.flags q).retained ≡ (w.flags q).retained

pub Kept-Same : {w w₁ w₂ : World} {q : Address} → Kept w w₁ q → Same w₁ w₂ q → Kept w w₂ q
Kept-Same a b = record {
  payload = b.payload ∙ a.payload;
  cleared = ap (λ f. f.marked) b.flags ∙ a.cleared;
  retained = ap (λ f. f.retained) b.flags ∙ a.retained;
}

pub Same-Kept : {w w₁ w₂ : World} {q : Address} → Same w w₁ q → Kept w₁ w₂ q → Kept w w₂ q
Same-Kept a b = record {
  payload = b.payload ∙ a.payload;
  cleared = b.cleared;
  retained = b.retained ∙ ap (λ f. f.retained) a.flags;
}

pub sweep_item_marked :
    (w : World) (p : Address) → (w.flags p).marked ≡ true → Kept w (sweep_item w p) p
unfolding sweep_item clear_marked
sweep_item_marked w p e = rw e (record {
  payload = refl;
  cleared = ap (λ f. f.marked) (write_self w.flags p (record (w.flags p) { marked = false }));
  retained = ap (λ f. f.retained) (write_self w.flags p (record (w.flags p) { marked = false }));
})

pub push_free_self : (w : World) (p : Address) → (push_free w p).payloads p ≡ blank w.free
unfolding push_free
push_free_self w p = write_self w.payloads p (blank w.free)

release_free : (w : World) (p : Address) (x : Payload) → (release w p x).free ≡ w.free
unfolding release drop_atom
release_free w p (atom _ _ none) = refl
release_free w p (atom _ _ (some i)) = refl
release_free w p _ = refl

deinit_used_free : (w : World) (p : Address) (x : Payload) → (deinit_used w p x).free ≡ w.free
unfolding deinit_used item_deinit item_init
deinit_used_free w p (blank _) = refl
deinit_used_free w p (atom _ _ _) = release_free w p (w.payloads p)
deinit_used_free w p _ = release_free w p (w.payloads p)

pub deinit_free : (w : World) (p : Address) → (item_deinit w p).free ≡ w.free
unfolding item_deinit item_init
deinit_free w p = release_free w p (w.payloads p)

-- A marked item leaves the list as it is.
pub sweep_item_marked_free :
    (w : World) (p : Address) → (w.flags p).marked ≡ true → (sweep_item w p).free ≡ w.free
unfolding sweep_item clear_marked
sweep_item_marked_free w p e = rw e refl

-- An unmarked item becomes the first of the free list.
push_used-Linked :
    (w w₁ : World) (p : Address) (qs : List Address)
    → ((q : Address) → q ≢ p → Same w w₁ q)
    → w₁.free ≡ w.free
    → (Member p qs → ⊥)
    → Linked w.payloads w.free qs
    → Linked (push_free w₁ p).payloads (push_free w₁ p).free (p ∷ qs)
unfolding push_free
push_used-Linked w w₁ p qs same e new l = (
  refl,
  (
    w₁.free,
    push_free_self w₁ p,
    Linked-Same {w = w} {w' = push_free w₁ p} w₁.free qs
        (λ q i. Same-trans (same q (other q i)) (push_free_other w₁ p q (other q i)))
        (subst (λ f. Linked w.payloads f qs) (sym e) l),
  ),
)
  where
    other : (q : Address) → Member q qs → q ≢ p
    other q i e = new (subst (λ t. Member t qs) e i)

pub sweep_item_unmarked :
    (w : World) (p : Address) (qs : List Address)
    → (w.flags p).marked ≡ false
    → (Member p qs → ⊥)
    → Linked w.payloads w.free qs
    → Linked (sweep_item w p).payloads (sweep_item w p).free (p ∷ qs)
unfolding sweep_item
sweep_item_unmarked w p qs e new l = rw e (
    push_used-Linked w (deinit_used w p (w.payloads p)) p qs
      (λ q h. deinit_used_other w p q (w.payloads p) h) (deinit_used_free w p (w.payloads p)) new l)
