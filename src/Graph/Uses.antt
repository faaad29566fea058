-- ===== src/Graph/Uses.antt =====
-- What the lists of edges of a graph hold.
use reduct.Prelude.{
  ℕ, none, some, List, [], ◌∷◌, ◌++◌, length, Member, ◌≡◌, ◌≢◌, ◌⊎◌, inl, inr, refl, sym, ap, ◌∙◌,
  subst,
}
use reduct.Graph.Heap.{Pointer, u16, Edge, Graph}

abbrev pub head_or : List ℕ → Pointer → Pointer
head_or [] n = n
head_or (e ∷ es) n = some e

abbrev pub last_or : Pointer → List ℕ → Pointer
last_or p [] = p
last_or p (e ∷ es) = last_or (some e) es

abbrev pub Distinct : List ℕ → Type 0
Distinct [] = Unit
Distinct (e ∷ es) = ((x : ℕ) → Member x es → x ≢ e) × Distinct es

-- From `first`, behind `p`, the edges `es` of an origin follow each other and end before `n`.
abbrev pub Seg : (ℕ → Edge) → ℕ → Pointer → Pointer → List ℕ → Pointer → Type 0
Seg m o p first [] n = first ≡ n
Seg m o p first (e ∷ es) n =
    (first ≡ some e) × ((m e).origin ≡ some o) × ((m e).prev ≡ p) × Seg m o (some e) (m e).next es n

-- An edge and its user point at each other.
abbrev pub Used : Graph → ℕ → Type 0
Used g e = (u : ℕ) × ((g.edges e).user ≡ some u) × ((g.users u).edge ≡ some e)

-- The graph has these lists of edges, by origin.
pub record IsGraph (g : Graph) (uses : ℕ → List ℕ) : Type 0 where
  pub listed : (o : ℕ) → Seg g.edges o none (g.origins o).first_edge (uses o) none
  pub distinct : (o : ℕ) → Distinct (uses o)
  pub counted : (o : ℕ) → (g.origins o).edge_count ≡ u16 (length (uses o))
  pub used : (o e : ℕ) → Member e (uses o) → Used g e

pub Seg-append :
    (m : ℕ → Edge) (o : ℕ) (p first : Pointer) (xs ys : List ℕ) (n : Pointer)
    → Seg m o p first xs (head_or ys n)
    → Seg m o (last_or p xs) (head_or ys n) ys n
    → Seg m o p first (xs ++ ys) n
Seg-append m o p first [] ys n s t = subst (λ f. Seg m o p f ys n) (sym s) t
Seg-append m o p first (x ∷ xs) ys n (a, b, c, s) t =
    (a, b, c, Seg-append m o (some x) (m x).next xs ys n s t)

pub Seg-split :
    (m : ℕ → Edge) (o : ℕ) (p first : Pointer) (xs ys : List ℕ) (n : Pointer)
    → Seg m o p first (xs ++ ys) n
    → Seg m o p first xs (head_or ys n) × Seg m o (last_or p xs) (head_or ys n) ys n
Seg-split m o p first [] [] n s = (s, refl)
Seg-split m o p first [] (y ∷ ys) n (a, b, c, s) = (a, (refl, b, c, s))
Seg-split m o p first (x ∷ xs) ys n (a, b, c, s) =
    let (s', t) = Seg-split m o (some x) (m x).next xs ys n s in ((a, b, c, s'), t)

-- A segment survives what spares its edges.
pub Seg-frame :
    (m m' : ℕ → Edge) (o : ℕ) (p first : Pointer) (es : List ℕ) (n : Pointer)
    → ((e : ℕ) → Member e es → m' e ≡ m e)
    → Seg m o p first es n
    → Seg m' o p first es n
Seg-frame m m' o p first [] n same s = s
Seg-frame m m' o p first (e ∷ es) n same (a, b, c, s) = (
  a,
  ap Edge.origin (same e (inl refl)) ∙ b,
  ap Edge.prev (same e (inl refl)) ∙ c,
  subst (λ f. Seg m' o (some e) f es n) (sym (ap Edge.next (same e (inl refl))))
      (Seg-frame m m' o (some e) (m e).next es n (λ x i. same x (inr i)) s),
)

pub Seg-head :
    (m : ℕ → Edge) (o : ℕ) (p first : Pointer) (es : List ℕ) (n : Pointer)
    → Seg m o p first es n
    → first ≡ head_or es n
Seg-head m o p first [] n s = s
Seg-head m o p first (e ∷ es) n s = s.0

-- The edges of a segment have its origin.
pub Seg-origin :
    (m : ℕ → Edge) (o : ℕ) (p first : Pointer) (es : List ℕ) (n : Pointer) (e : ℕ)
    → Seg m o p first es n
    → Member e es
    → (m e).origin ≡ some o
Seg-origin m o p first [] n e s i = elim i [ ]
Seg-origin m o p first (x ∷ es) n e (a, b, c, s) (inl same) = ap (λ y. (m y).origin) same ∙ b
Seg-origin m o p first (x ∷ es) n e (a, b, c, s) (inr i) =
    Seg-origin m o (some x) (m x).next es n e s i

pub Member-append_left : (x : ℕ) (xs ys : List ℕ) → Member x xs → Member x (xs ++ ys)
Member-append_left x [] ys i = elim i [ ]
Member-append_left x (y ∷ xs) ys (inl e) = inl e
Member-append_left x (y ∷ xs) ys (inr i) = inr (Member-append_left x xs ys i)

pub Member-append_right : (x : ℕ) (xs ys : List ℕ) → Member x ys → Member x (xs ++ ys)
Member-append_right x [] ys i = i
Member-append_right x (y ∷ xs) ys i = inr (Member-append_right x xs ys i)

pub Member-append : (x : ℕ) (xs ys : List ℕ) → Member x (xs ++ ys) → Member x xs ⊎ Member x ys
Member-append x [] ys i = inr i
Member-append x (y ∷ xs) ys (inl e) = inl (inl e)
Member-append x (y ∷ xs) ys (inr i) = elim (Member-append x xs ys i) [
  | inl j ↦ inl (inr j)
  | inr j ↦ inr j
]

-- Two parts of a list of distinct edges have none in common.
pub Distinct-apart : (x : ℕ) (xs ys : List ℕ) → Distinct (xs ++ ys) → Member x xs → Member x ys → ⊥
Distinct-apart x [] ys ds i j = elim i [ ]
Distinct-apart x (z ∷ xs) ys (d, ds) (inl e) j = d x (Member-append_right x xs ys j) e
Distinct-apart x (z ∷ xs) ys (d, ds) (inr i) j = Distinct-apart x xs ys ds i j

-- Without the edge in the middle.
pub Distinct-remove :
    (xs : List ℕ) (e : ℕ) (ys : List ℕ) → Distinct (xs ++ e ∷ ys) → Distinct (xs ++ ys)
Distinct-remove [] e ys (d, ds) = ds
Distinct-remove (x ∷ xs) e ys (d, ds) = (
  λ y i. d y (elim (Member-append y xs ys i) [
    | inl j ↦ Member-append_left y xs (e ∷ ys) j
    | inr j ↦ Member-append_right y xs (e ∷ ys) (inr j)
  ]),
  Distinct-remove xs e ys ds,
)

pub Distinct-left : (xs ys : List ℕ) → Distinct (xs ++ ys) → Distinct xs
Distinct-left [] ys d = tt
Distinct-left (x ∷ xs) ys (d, ds) =
    (λ y i. d y (Member-append_left y xs ys i), Distinct-left xs ys ds)

pub Distinct-right : (xs ys : List ℕ) → Distinct (xs ++ ys) → Distinct ys
Distinct-right [] ys d = d
Distinct-right (x ∷ xs) ys (d, ds) = Distinct-right xs ys ds
