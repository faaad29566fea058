-- ===== src/Collector/Marks.antt =====
-- Marking from some addresses: what it marks is what they reach, over the items that were not
-- marked before, and it ends.
use reduct.Prelude.{
  ℕ, zero, suc, ◌+◌, ◌≤◌, ◌<◌, true, false, Option, some, List, [], ◌∷◌, ◌++◌, ◌≡◌, refl, ◌∙◌, ◌⊎◌,
  inl, inr, if◌then◌else◌, ◌==◌, Bool-cases, Member, Every, subst, ap, arith,
}
use reduct.Collector.Item.{Address, Marking}
use reduct.Collector.Mark.{set_marked, each, mark}

pub Member-append_left : (ps qs : List Address) (q : Address) → Member q ps → Member q (ps ++ qs)
Member-append_left [] qs q i = absurd i
Member-append_left (p ∷ ps) qs q (inl e) = inl e
Member-append_left (p ∷ ps) qs q (inr i) = inr (Member-append_left ps qs q i)

pub Member-append_right : (ps qs : List Address) (q : Address) → Member q qs → Member q (ps ++ qs)
Member-append_right [] qs q i = i
Member-append_right (p ∷ ps) qs q i = inr (Member-append_right ps qs q i)

pub Member-append_cases :
    (ps qs : List Address) (q : Address) → Member q (ps ++ qs) → Member q ps ⊎ Member q qs
Member-append_cases [] qs q i = inr i
Member-append_cases (p ∷ ps) qs q (inl e) = inl (inl e)
Member-append_cases (p ∷ ps) qs q (inr i) = elim (Member-append_cases ps qs q i) [
  | inl j ↦ inl (inr j)
  | inr j ↦ inr j
]

module _ (children : Address → Option (List Address)) where
  -- The walks along children.
  pub data Reaches : Address → Address → Type 0 where
    here : {p : Address} → Reaches p p
    via :
        {p c q : Address} (cs : List Address)
        → children p ≡ some cs
        → Member c cs
        → Reaches c q
        → Reaches p q

  abbrev pub Reached : List Address → Address → Type 0
  Reached starts q = (s : Address) × Member s starts × Reaches s q

  pub record Marks (starts : List Address) (m m' : Marking) : Type 0 where
    pub retains : (q : Address) → (m' q).retained ≡ (m q).retained
    pub keeps : (q : Address) → (m q).marked ≡ true → (m' q).marked ≡ true
    pub targets : (q : Address) → Member q starts → (m' q).marked ≡ true
    pub reached : (q : Address) → (m' q).marked ≡ true → ((m q).marked ≡ true) ⊎ Reached starts q
    pub closed :
        (q : Address)
        → (m' q).marked ≡ true
        → ((m q).marked ≡ true)
          ⊎ ((cs : List Address) (c : Address)
              → children q ≡ some cs
              → Member c cs
              → (m' c).marked ≡ true)

  Marks-nothing : (m : Marking) → Marks [] m m
  Marks-nothing m = record {
    retains = λ q. refl;
    keeps = λ q h. h;
    targets = λ q h. absurd h;
    reached = λ q h. inl h;
    closed = λ q h. inl h;
  }

  Marks-already : (m : Marking) (p : Address) → (m p).marked ≡ true → Marks (p ∷ []) m m
  Marks-already m p e = record {
    retains = λ q. refl;
    keeps = λ q h. h;
    targets = λ q h. elim h [ inl same ↦ rw same e | inr x ↦ absurd x ];
    reached = λ q h. inl h;
    closed = λ q h. inl h;
  }

  pub Marks-append :
      {ps qs : List Address} {m m₁ m₂ : Marking}
      → Marks ps m m₁
      → Marks qs m₁ m₂
      → Marks (ps ++ qs) m m₂
  Marks-append {ps} {qs} {m} {m₁} {m₂} a b = record {
    retains = λ q. b.retains q ∙ a.retains q;
    keeps = λ q h. b.keeps q (a.keeps q h);
    targets = λ q i. elim (Member-append_cases ps qs q i) [
      | inl early ↦ b.keeps q (a.targets q early)
      | inr later ↦ b.targets q later
    ];
    reached = λ q h. elim (b.reached q h) [
      | inr (s, i, r) ↦ inr (s, Member-append_right ps qs s i, r)
      | inl h₁ ↦ elim (a.reached q h₁) [
        | inl h₀ ↦ inl h₀
        | inr (s, i, r) ↦ inr (s, Member-append_left ps qs s i, r)
      ]
    ];
    closed = λ q h. elim (b.closed q h) [
      | inr f ↦ inr f
      | inl h₁ ↦ elim (a.closed q h₁) [
        | inl h₀ ↦ inl h₀
        | inr f ↦ inr λ cs c e i. b.keeps c (f cs c e i)
      ]
    ];
  }

-- The unmarked items below an address.
unfoldable pub unmarked : ℕ → Marking → ℕ
unmarked zero m = 0
unmarked (suc n) m = (if (m n).marked then 0 else 1) + unmarked n m

pub unmarked-le :
    (n : ℕ) (m m' : Marking)
    → ((q : Address) → (m q).marked ≡ true → (m' q).marked ≡ true)
    → unmarked n m' ≤ unmarked n m
unfolding unmarked
unmarked-le zero m m' h = omega arith
unmarked-le (suc n) m m' h = ground (arith, unmarked-le n m m' h, h n)

pub set_marked_keeps :
    (m : Marking) (p q : Address) → (m q).marked ≡ true → (set_marked m p q).marked ≡ true
unfolding set_marked
set_marked_keeps m p q h = ground arith

pub set_marked_self : (m : Marking) (p : Address) → (set_marked m p p).marked ≡ true
unfolding set_marked
set_marked_self m p = ground arith

pub set_marked_only :
    (m : Marking) (p q : Address)
    → (set_marked m p q).marked ≡ true
    → ((m q).marked ≡ true) ⊎ (q ≡ p)
unfolding set_marked
set_marked_only m p q h = ground arith

pub set_marked_retained :
    (m : Marking) (p q : Address) → (set_marked m p q).retained ≡ (m q).retained
unfolding set_marked
set_marked_retained m p q = ground arith

-- Marking an item leaves one fewer.
unmarked-set_marked :
    (n : ℕ) (m : Marking) (p : Address)
    → p < n
    → (m p).marked ≡ false
    → unmarked n (set_marked m p) < unmarked n m
unfolding unmarked
unmarked-set_marked zero m p lt h = absurd (omega arith)
unmarked-set_marked (suc n) m p lt h = elim (Bool-cases (n == p)) [
  | inl e ↦ ground (
    arith,
    unmarked-le n m (set_marked m p) (set_marked_keeps m p),
    set_marked_self m p,
    ap (λ (t : ℕ). (m t).marked) {x = n} {y = p},
    ap (λ (t : ℕ). (set_marked m p t).marked) {x = n} {y = p},
  )
  | inr e ↦ ground (arith, unmarked-set_marked n m p, set_marked_only m p n, set_marked_keeps m p n)
]

module _ (children : Address → Option (List Address)) where
  -- Below `n`, children are found and stand below `n`.
  abbrev pub IsTidy : ℕ → Type 0
  IsTidy n =
      (p : Address) → p < n → (cs : List Address) × (children p ≡ some cs) × Every (λ c. c < n) cs

  abbrev pub MarksFrom : (Marking → Address → Option Marking) → ℕ → ℕ → Type 0
  MarksFrom f n k =
      (m : Marking) (p : Address)
      → p < n
      → unmarked n m < k
      → (m' : Marking) × (f m p ≡ some m') × Marks children (p ∷ []) m m'

  pub each-Marks :
      (f : Marking → Address → Option Marking) (n k : ℕ)
      → MarksFrom f n k
      → (ps : List Address) (m : Marking) → Every (λ c. c < n) ps
      → unmarked n m < k
      → (m' : Marking) × (each f m ps ≡ some m') × Marks children ps m m'
  unfolding each
  each-Marks f n k h [] m below few = (m, refl, Marks-nothing children m)
  each-Marks f n k h (p ∷ ps) m below few =
      let (m₁, e₁, a) = h m p below.0 few in
      let (m₂, e₂, b) =
        each-Marks f n k h ps m₁ below.1 (omega (arith, unmarked-le n m m₁ a.keeps)) in
      (m₂, rw e₁ e₂, Marks-append children a b)

  -- What follows the setting of the mark.
  Marks-below :
      {p : Address} {cs : List Address} {m m' : Marking}
      → children p ≡ some cs
      → Marks children cs (set_marked m p) m'
      → Marks children (p ∷ []) m m'
  Marks-below {p} {cs} {m} {m'} e a = record {
    retains = λ q. a.retains q ∙ set_marked_retained m p q;
    keeps = λ q h. a.keeps q (set_marked_keeps m p q h);
    targets =
        λ q h. elim h [ inl same ↦ rw same (a.keeps p (set_marked_self m p)) | inr x ↦ absurd x ];
    reached = λ q h. elim (a.reached q h) [
      | inr (s, i, r) ↦ inr (p, inl refl, via cs e i r)
      | inl h₀ ↦ elim (set_marked_only m p q h₀) [
        | inl before ↦ inl before
        | inr same ↦ inr (p, inl refl, rw same here)
      ]
    ];
    closed = λ q h. elim (a.closed q h) [
      | inr f ↦ inr f
      | inl h₀ ↦ elim (set_marked_only m p q h₀) [
        | inl before ↦ inl before
        | inr same ↦ inr λ ds c d i. a.targets c (subst (Member c) (same_children d same) i)
      ]
    ];
  }
    where
      same_children : {q : Address} {ds : List Address} → children q ≡ some ds → q ≡ p → ds ≡ cs
      same_children d same = cc

  -- Marking ends when the fuel passes the number of unmarked items, and marks what it should.
  pub mark-Marks : (n fuel : ℕ) → IsTidy n → MarksFrom (mark children fuel) n fuel
  unfolding mark
  mark-Marks n zero tidy m p lt few = absurd (omega arith)
  mark-Marks n (suc fuel) tidy m p lt few = elim (Bool-cases (m p).marked) [
    | inl e ↦ (m, rw e refl, Marks-already children m p e)
    | inr e ↦
        let (cs, found, below) = tidy p lt in
        let (m', done, a) =
          each-Marks (mark children fuel) n fuel (mark-Marks n fuel tidy) cs (set_marked m p) below
            (omega (arith, unmarked-set_marked n m p lt e)) in
        (m', rw (e, found) done, Marks-below found a)
  ]
