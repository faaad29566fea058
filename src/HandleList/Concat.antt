-- ===== src/HandleList/Concat.antt =====
-- `reduct_list_concat`: the elements of one list and then those of another.
use reduct.Prelude.{
  ℕ, ◌+◌, ◌-◌, ◌*◌, ◌^◌, ◌≤◌, ◌<◌, ◌≡◌, refl, sym, ap, ◌∙◌, Bool, true, false, ◌&&◌, ◌||◌, not,
  some, List, [], ◌∷◌, ◌++◌, arith, leb, ◌==◌, Bool-cases, inl, inr,
}
use reduct.Prelude.Words.{u32}
use reduct.HandleList.Memory.{ListItem, Heap, M, apart}
use reduct.HandleList.Contents.{read, contents, IsHeap, region}
use reduct.HandleList.New.{IsFresh, new_small-IsFresh, list_new-IsFresh}
use reduct.HandleList.Makes.{
  Gives, Makes-Gives, same-Gives, same_but_head, same_but_tail, if_unused,
}
use reduct.HandleList.ConcatParts.{concat_copy-Makes, concat_behind-Makes, concat_before-Makes}
use reduct.HandleList.{concat_copy, concat_second, concat, new_small, list_new}

-- The cells behind the first list and before the second that the other one fits in.
abbrev pub either_room : Heap → ℕ → ℕ → ℕ → ℕ → Bool
either_room h la lb c i =
    let a = h.items la in
    let b = h.items lb in
    region a.buf (a.index + a.length) (a.index + a.length + b.length) c i
    || region b.buf (b.index - a.length) b.index c i

-- Where the second list is copied behind the first, the cells there are not its own; where the first
-- is copied before the second, likewise.
abbrev pub ApartBehind : ListItem → ListItem → Type 0
ApartBehind a b =
    a.flags.large ≡ true
    → a.flags.used_tail ≡ false
    → a.offset + (a.length + b.length) ≤ a.capacity
    → apart a.buf (a.index + a.length) b.buf b.index b.length ≡ true

abbrev pub ApartBefore : ListItem → ListItem → Type 0
ApartBefore a b =
    b.flags.large ≡ true
    → b.flags.used_head ≡ false
    → a.length ≤ b.offset
    → apart b.buf (b.index - a.length) a.buf a.index a.length ≡ true

-- Running the command succeeds and gives the concatenation of the two lists.
abbrev pub Joined : Heap → ℕ → ℕ → (M ℕ) → Type 0
Joined h la lb run =
    (m : ℕ) × (h' : Heap) × (run h ≡ some (m, h'))
    × Gives h (either_room h la lb) (contents h la ++ contents h lb) m h'

module _ (h : Heap) (la lb : ℕ) (heap : IsHeap h) (lt_a : la < h.item_count)
    (lt_b : lb < h.item_count)
    (fits : 2 * ((h.items la).length + (h.items lb).length) < 2 ^ 32) where
  copied :
      (new : M ℕ)
      → (m : ℕ) × (h₁ : Heap) × (new h ≡ some (m, h₁))
        × IsFresh h ((h.items la).length + (h.items lb).length) m h₁
      → Joined h la lb (concat_copy (h.items la) (h.items lb) new)
  copied new (m, h₁, made, fresh) =
      let (h', runs, makes) =
        concat_copy-Makes h heap (h.items la) (h.items lb) (heap.each la lt_a) (heap.each lb lt_b)
          new m h₁ made fresh in
      (m, h', runs, Makes-Gives _ _ h h' _ m (λ c i lt e. refl) makes)

  second-Joined :
      ApartBefore (h.items la) (h.items lb)
      → Joined h la lb
          (concat_second lb (h.items la) (h.items lb) ((h.items la).length + (h.items lb).length))
  unfolding concat_second
  second-Joined before =
      elim (Bool-cases (b.flags.large && not b.flags.used_head && leb a.length b.offset)) [
        | inl share ↦
            let (large, unused, room) = open_head share in
            let (h', runs, makes) =
              concat_before-Makes h heap a b (heap.each la lt_a) (heap.each lb lt_b) lb b.flags
                (record b { flags = record b.flags { used_head = true } }) (same_but_head b) large
                room (before large unused room) in
            (
              h.item_count,
              h',
              rw share (if_unused _ _ _ _ unused ∙ runs),
              Makes-Gives _ _ h h' _ _ (λ c i lt e. ground (arith, e)) makes,
            )
        | inr full ↦ rw full (
            copied (list_new (a.length + b.length)) (list_new-IsFresh (a.length + b.length) h fits))
      ]
    where
      a : ListItem
      a = h.items la

      b : ListItem
      b = h.items lb

      open_head :
          b.flags.large && not b.flags.used_head && leb a.length b.offset ≡ true
          → (b.flags.large ≡ true) × (b.flags.used_head ≡ false) × (a.length ≤ b.offset)
      open_head e = (ground (arith, e), ground (arith, e), ground (arith, e))

no_elems : (f : ℕ → ℕ) (i n : ℕ) → n ≡ 0 → read f i n ≡ []
no_elems f i n e = ap (read f i) e

append_none : {A : Type 0} → (xs : List A) → xs ++ [] ≡ xs
append_none [] = refl
append_none (x ∷ xs) = ap (◌∷◌ x) (append_none xs)

-- Concatenating two lists, whose lengths and offset the word of the length holds, succeeds where no
-- list is copied over its own cells. It gives a list of the elements of the first and then those of
-- the second, and of the cells that there were it writes at most those behind the first list or
-- before the second one.
pub concat_lem :
    (h : Heap) (la lb : ℕ)
    → IsHeap h
    → la < h.item_count
    → lb < h.item_count
    → 2 * ((h.items la).length + (h.items lb).length) < 2 ^ 32
    → (h.items la).offset + ((h.items la).length + (h.items lb).length) < 2 ^ 32
    → ApartBehind (h.items la) (h.items lb)
    → ApartBefore (h.items la) (h.items lb)
    → Joined h la lb (concat la lb)
unfolding concat
concat_lem h la lb heap lt_a lt_b fits no_wrap behind before = elim (Bool-cases (b.length == 0)) [
  | inl none_b ↦ (
    la,
    h,
    rw none_b,
    same-Gives _ h la _ heap lt_a (
        sym (
          ap (λ xs. contents h la ++ xs) (no_elems _ _ b.length (ground (arith, none_b)))
          ∙ append_none (contents h la))),
  )
  | inr some_b ↦ elim (Bool-cases (a.length == 0)) [
    | inl none_a ↦ (
      lb,
      h,
      rw (some_b, none_a),
      same-Gives _ h lb _ heap lt_b
          (sym (ap (λ xs. xs ++ contents h lb) (no_elems _ _ a.length (ground (arith, none_a))))),
    )
    | inr some_a ↦ both some_b some_a
  ]
]
  where
    a : ListItem
    a = h.items la

    b : ListItem
    b = h.items lb

    fits_u32 : u32 (a.length + b.length) ≡ a.length + b.length
    fits_u32 = omega arith

    open_tail :
        a.flags.large
            && not a.flags.used_tail
            && leb (u32 (a.offset + (a.length + b.length))) a.capacity
          ≡ true
        → (a.flags.large ≡ true)
          × (a.flags.used_tail ≡ false)
          × (a.offset + (a.length + b.length) ≤ a.capacity)
    open_tail e = (ground (arith, e), ground (arith, e), ground (arith, e))

    both : (b.length == 0) ≡ false → (a.length == 0) ≡ false → Joined h la lb (concat la lb)
    both some_b some_a = elim (Bool-cases (leb (a.length + b.length) 4)) [
      | inl small ↦
          rw (some_b, some_a, fits_u32, small)
            (copied h la lb heap lt_a lt_b fits (new_small (a.length + b.length))
              (new_small-IsFresh (a.length + b.length) h fits (ground (arith, small))))
      | inr big ↦
          elim (Bool-cases (
            a.flags.large
            && not a.flags.used_tail
            && leb (u32 (a.offset + (a.length + b.length))) a.capacity)) [
              | inl share ↦
                  let (large, unused, room) = open_tail share in
                  let (h', runs, makes) =
                    concat_behind-Makes h heap a b (heap.each la lt_a) (heap.each lb lt_b) la
                      a.flags (record a { flags = record a.flags { used_tail = true } })
                      (same_but_tail a) large room (behind large unused room) in
                  (
                    h.item_count,
                    h',
                    rw (some_b, some_a, fits_u32, big, share) (if_unused _ _ _ _ unused ∙ runs),
                    Makes-Gives _ _ h h' _ _ (λ c i lt e. ground (arith, e)) makes,
                  )
              | inr full ↦
                  rw (some_b, some_a, fits_u32, big, full)
                    (second-Joined h la lb heap lt_a lt_b fits before)
            ]
    ]
