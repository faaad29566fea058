-- ===== src/Tasks/Advance.antt =====
-- Every step of every thread keeps the invariant, as long as the counters do not wrap.
use reduct.Prelude.{
  ℕ, suc, ◌+◌, ◌^◌, ◌≤◌, ◌<◌, sym, ap, ◌∙◌, subst, refl, Bool, true, false, not, ◌&&◌, some, ◌≡◌,
  inl, inr, arith, ◌==◌, Bool-cases,
}
use reduct.Tasks.Queue.{
  Slot, queue_init, Pc, queue_max, index_of, slot_of, u16, difference, negative, advance, with_slot,
}
use reduct.Tasks.System.{System, note, Step, turn, create, try_work, start, Reach, here, later}
use reduct.Tasks.Invariant.{Stage, free, writing, full, reading, Shape, Held, PcIs, owned, Inv}
use reduct.Tasks.Moves.{Inv-place}
use reduct.Tasks.Steps.{
  slot_at, held_slot, free_at, full_at, reshape, write-Inv, push_claim-Inv, pop_claim-Inv,
  return-Inv,
}
use reduct.Prelude.Maps.{update_self, update}

-- The system after a step of thread `i`, which stands at `p`.
abbrev stepped : System → ℕ → Bool → Pc → System
stepped s i weak p = record {
  queue = (advance weak s.queue p).0;
  pc = update s.pc i (advance weak s.queue p).1;
  history = note p (advance weak s.queue p).1 s.history;
}

abbrev Kept : ℕ → System → Type 0
Kept n s = (z : Shape) × Inv n s z

module _ {n : ℕ} {s : System} {z : Shape} (inv : Inv n s z) (i : ℕ) (weak : Bool) where
  -- The thread does not write and does not own a slot after.
  stay :
      (p' : Pc)
      → PcIs s.queue s.history z p'
      → ((x : ℕ) → owned p' ≡ some x → owned (s.pc i) ≡ some x)
      → Kept (suc n) (record s { pc = update s.pc i p' })
  stay p' is after = (z, Inv-place n s z i p' inv is after)

  open_at_head :
      (x : ℕ)
      → (difference (slot_of s.queue x).generation x == 0) ≡ true
      → x ≡ s.queue.head
      → Held z free x
  open_at_head x e there =
      subst (λ y. (difference (slot_of s.queue y).generation y == 0) ≡ true → Held z free y)
        (sym there) (free_at inv _ _ (slot_at inv s.queue.head)) e

  ready_at_tail :
      (x : ℕ)
      → (difference (slot_of s.queue x).generation (x + 1) == 0) ≡ true
      → x ≡ s.queue.tail
      → Held z full x
  ready_at_tail x e there =
      subst (λ y. (difference (slot_of s.queue y).generation (y + 1) == 0) ≡ true → Held z full y)
        (sym there) (full_at inv _ _ (slot_at inv s.queue.tail)) e

  push_check-Inv :
      (f a x : ℕ) → x ≤ s.queue.head → Kept (suc n) (stepped s i weak (Pc.push_check f a x))
  unfolding advance note
  push_check-Inv f a x le = elim (Bool-cases (difference (slot_of s.queue x).generation x == 0)) [
    | inl e ↦ rw e (stay (Pc.push_claim f a x) (le, open_at_head x e) (λ k q. cc))
    | inr e ↦ rw e (elim (Bool-cases (negative (difference (slot_of s.queue x).generation x))) [
      | inl less ↦ rw less (stay Pc.refused tt (λ k q. cc))
      | inr more ↦ rw more (stay (Pc.push_head f a) tt (λ k q. cc))
    ])
  ]

  pop_check-Inv : (x : ℕ) → x ≤ s.queue.tail → Kept (suc n) (stepped s i weak (Pc.pop_check x))
  unfolding advance note
  pop_check-Inv x le = elim (Bool-cases (difference (slot_of s.queue x).generation (x + 1) == 0)) [
    | inl e ↦ rw e (stay (Pc.pop_claim x) (le, ready_at_tail x e) (λ k q. cc))
    | inr e ↦
        rw e (elim (Bool-cases (negative (difference (slot_of s.queue x).generation (x + 1)))) [
          | inl less ↦ rw less (stay Pc.found_none tt (λ k q. cc))
          | inr more ↦ rw more (stay Pc.pop_tail tt (λ k q. cc))
        ])
  ]

  push_claim_step :
      (f a x : ℕ)
      → suc n < 2 ^ 64
      → (x ≡ s.queue.head → Held z free x)
      → Kept (suc n) (stepped s i weak (Pc.push_claim f a x))
  unfolding advance note
  push_claim_step f a x few is = elim (Bool-cases ((s.queue.head == x) && not weak)) [
    | inl e ↦
        let there : x ≡ s.queue.head = ground arith in
        rw e (
          rw there (
            reshape inv s.queue.head s.queue.head writing,
            push_claim-Inv inv i f a few (subst (λ y. Held z free y) there (is there)),
          ))
    | inr e ↦ rw e (stay (Pc.push_head f a) tt (λ k q. cc))
  ]

  pop_claim_step :
      (x : ℕ)
      → suc n < 2 ^ 64
      → (x ≡ s.queue.tail → Held z full x)
      → Kept (suc n) (stepped s i weak (Pc.pop_claim x))
  unfolding advance note
  pop_claim_step x few is = elim (Bool-cases ((s.queue.tail == x) && not weak)) [
    | inl e ↦
        let there : x ≡ s.queue.tail = ground arith in
        rw e (
          rw there (
            reshape inv s.queue.tail s.queue.tail reading,
            pop_claim-Inv inv i few (subst (λ y. Held z full y) there (is there)),
          ))
    | inr e ↦ rw e (stay Pc.pop_tail tt (λ k q. cc))
  ]

  -- A push writes a field of its slot.
  field-Inv :
      (x : ℕ) (t : Slot) (p' : Pc)
      → owned (s.pc i) ≡ some x
      → Held z writing x
      → t.generation ≡ (slot_of s.queue x).generation
      → PcIs (with_slot s.queue x t) s.history (reshape inv x x writing) p'
      → owned p' ≡ some x
      → Kept
          (suc n)
          (record { queue = with_slot s.queue x t; pc = update s.pc i p'; history = s.history })
  field-Inv x t p' mine at same is after =
      let slot = held_slot inv writing x at in
      (
        reshape inv x x writing,
        write-Inv inv i x writing at (inl refl) mine t x writing s.history.published p'
            (λ k ne. refl) (λ k e. e)
            (record {
              here = slot.here;
              ahead = slot.ahead;
              behind = slot.behind;
              numbered = same ∙ slot.numbered;
              at_stage = slot.at_stage;
            })
            is (λ k e. ground arith) (slot.at_stage.1) (λ ne. absurd (ne refl)),
      )

  rewritten : (x : ℕ) (g : Stage) → Held (reshape inv x x g) g x
  rewritten x g = (update_self z.current (index_of x) x, update_self z.stage (index_of x) g)

  publish-Inv :
      (f a x : ℕ)
      → owned (s.pc i) ≡ some x
      → Held z writing x
      → ((slot_of s.queue x).func ≡ s.history.func x) × ((slot_of s.queue x).arg ≡ s.history.arg x)
      → Kept (suc n) (stepped s i weak (Pc.push_publish f a x))
  unfolding advance note
  publish-Inv f a x mine at filled =
      let slot = held_slot inv writing x at in
      (
        reshape inv x x full,
        write-Inv inv i x writing at (inl refl) mine
            (record (slot_of s.queue x) { generation = u16 (x + 1) }) x full
            (update s.history.published x true) (Pc.pushed x) (λ k ne. ground arith)
            (λ k e. ground arith)
            (record {
              here = slot.here;
              ahead = slot.ahead;
              behind = slot.behind;
              numbered = refl;
              at_stage = (slot.at_stage.0, slot.at_stage.1, filled);
            })
            (update_self s.history.published x true) (λ k e. cc) (slot.at_stage.1)
            (λ ne. absurd (ne refl)),
      )

  release-Inv :
      (f a x : ℕ)
      → owned (s.pc i) ≡ some x
      → Held z reading x
      → s.history.returned x ≡ true
      → Kept (suc n) (stepped s i weak (Pc.work_release x f a))
  unfolding advance note
  release-Inv f a x mine at done =
      let slot = held_slot inv reading x at in
      (
        reshape inv x (x + queue_max) free,
        write-Inv inv i x reading at (inr refl) mine
            (record (slot_of s.queue x) { generation = u16 (x + queue_max) }) (x + queue_max) free
            s.history.published (Pc.worked x) (λ k ne. refl) (λ k e. e)
            (record {
              here = omega arith;
              ahead = omega (arith, slot.ahead);
              behind = omega (arith, slot.at_stage.0);
              numbered = omega arith;
              at_stage = slot.ahead;
            })
            done (λ k e. cc) (omega (arith, slot.at_stage.0, inv.ordered)) (λ _. done),
      )

  advance-Inv :
      (p : Pc)
      → suc n < 2 ^ 64
      → owned (s.pc i) ≡ owned p
      → PcIs s.queue s.history z p
      → Kept (suc n) (stepped s i weak p)
  unfolding advance note
  advance-Inv (Pc.push_head f a) few mine is =
      stay (Pc.push_check f a s.queue.head) (omega arith) (λ k q. cc)
  advance-Inv (Pc.push_check f a x) few mine is = push_check-Inv f a x is
  advance-Inv (Pc.push_claim f a x) few mine is = push_claim_step f a x few is.1
  advance-Inv (Pc.push_func f a x) few mine (at, f_is, a_is) =
      field-Inv x (record (slot_of s.queue x) { func = f }) (Pc.push_arg f a x) mine at refl
        (rewritten x writing, f_is, a_is, ap Slot.func (update_self s.queue.slots (index_of x) _))
        refl
  advance-Inv (Pc.push_arg f a x) few mine (at, f_is, a_is, slot_f) =
      let e = update_self s.queue.slots (index_of x) (record (slot_of s.queue x) { arg = a }) in
      field-Inv x (record (slot_of s.queue x) { arg = a }) (Pc.push_publish f a x) mine at refl
        (rewritten x writing, f_is, a_is, ap Slot.func e ∙ slot_f, ap Slot.arg e) refl
  advance-Inv (Pc.push_publish f a x) few mine (at, f_is, a_is, slot_f, slot_a) =
      publish-Inv f a x mine at (slot_f ∙ sym f_is, slot_a ∙ sym a_is)
  advance-Inv Pc.pop_tail few mine is = stay (Pc.pop_check s.queue.tail) (omega arith) (λ k q. cc)
  advance-Inv (Pc.pop_check x) few mine is = pop_check-Inv x is
  advance-Inv (Pc.pop_claim x) few mine is = pop_claim_step x few is.1
  advance-Inv (Pc.work_func x) few mine (at, r) =
      stay (Pc.work_arg x (slot_of s.queue x).func)
        (at, r, (held_slot inv reading x at).at_stage.1.0) (λ k q. cc)
  advance-Inv (Pc.work_arg x f) few mine (at, r, f_is) =
      stay (Pc.running x f (slot_of s.queue x).arg)
        (at, r, f_is, (held_slot inv reading x at).at_stage.1.1) (λ k q. cc)
  advance-Inv (Pc.running x f a) few mine (at, r, f_is, a_is) =
      (z, return-Inv inv i x f a mine at (f_is, a_is))
  advance-Inv (Pc.work_release x f a) few mine (at, _, _, done) = release-Inv f a x mine at done
  advance-Inv Pc.idle few mine is = stay Pc.idle tt (λ k q. cc)
  advance-Inv (Pc.pushed x) few mine is = stay (Pc.pushed x) is (λ k q. cc)
  advance-Inv Pc.refused few mine is = stay Pc.refused tt (λ k q. cc)
  advance-Inv (Pc.worked x) few mine is = stay (Pc.worked x) is (λ k q. cc)
  advance-Inv Pc.found_none few mine is = stay Pc.found_none tt (λ k q. cc)

pub Step-Inv :
    {n : ℕ} {s t : System} {z : Shape} → suc n < 2 ^ 64 → Inv n s z → Step s t → Kept (suc n) t
Step-Inv {s} few inv (turn i weak) = advance-Inv inv i weak (s.pc i) few refl (inv.places i)
Step-Inv few inv (create i f a rest) = stay inv i false (Pc.push_head f a) tt (λ k q. cc)
Step-Inv few inv (try_work i rest) = stay inv i false Pc.pop_tail tt (λ k q. cc)

abbrev fresh : Shape
fresh = record { current = λ i. i; stage = λ _. free }

start-Inv : Inv 0 start fresh
unfolding start queue_init
start-Inv = record {
  counted = omega arith;
  ordered = omega arith;
  slots = λ i below. record {
    here = omega arith;
    ahead = omega arith;
    behind = omega arith;
    numbered = omega arith;
    at_stage = omega arith;
  };
  places = λ j. tt;
  unique = λ i j x e _. cc;
  published = λ x e. cc;
  ended = λ x e. cc;
  returned = λ x below. absurd (omega arith);
}

-- With fewer steps than a counter has values.
pub Reach-Inv : {n : ℕ} {s : System} → n < 2 ^ 64 → Reach n s → Kept n s
Reach-Inv few here = (fresh, start-Inv)
Reach-Inv few (later r st) = let (z, inv) = Reach-Inv (omega arith) r in Step-Inv few inv st
