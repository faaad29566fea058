-- ===== src/Tasks/Safety.antt =====
-- What holds of the queue of tasks in every state that the threads reach.
use reduct.Prelude.{
  ℕ, ◌+◌, ◌^◌, ◌≤◌, ◌<◌, sym, ap, ◌∙◌, subst, refl, true, false, not, some, ◌≡◌, inl, inr, arith,
  ◌==◌, Bool-cases,
}
use reduct.Tasks.Queue.{Queue, Pc, queue_max, index_of, slot_of, u16, id_of, task_done}
use reduct.Tasks.System.{System, History, Reach}
use reduct.Tasks.Invariant.{Stage, free, writing, full, reading, SlotIs, PcIs, owned}
use reduct.Tasks.Moves.{owned-Owns}
use reduct.Tasks.Steps.{slot_at, held_slot}
use reduct.Tasks.Advance.{Reach-Inv}

-- Two threads between their claim of a slot and its release, at the same slot, are one thread: the
-- plain reads and writes of a slot do not race.
pub owned_alone :
    {n : ℕ} {s : System}
    → n < 2 ^ 64
    → Reach n s
    → (i j x y : ℕ) → owned (s.pc i) ≡ some x
    → owned (s.pc j) ≡ some y
    → index_of x ≡ index_of y
    → i ≡ j
owned_alone {s} few r i j x y ei ej same =
    let (z, inv) = Reach-Inv few r in
    let (g, _, at) = owned-Owns s.queue s.history z (s.pc i) x (inv.places i) ei in
    let (k, _, at') = owned-Owns s.queue s.history z (s.pc j) y (inv.places j) ej in
    inv.unique i j x ei (ej ∙ ap some (sym at'.0 ∙ ap z.current (sym same) ∙ at.0))

-- A thread that runs a task runs the function and the argument that were pushed at its counter, of
-- a push that has ended, which has not run before; no other thread runs it.
pub running_lem :
    {n : ℕ} {s : System}
    → n < 2 ^ 64
    → Reach n s
    → (i x f a : ℕ) → s.pc i ≡ Pc.running x f a
    → (f ≡ s.history.func x)
      × (a ≡ s.history.arg x)
      × (s.history.returned x ≡ false)
      × (x < s.queue.tail)
      × ((j g b : ℕ) → s.pc j ≡ Pc.running x g b → j ≡ i)
running_lem {s} few r i x f a e =
    let (z, inv) = Reach-Inv few r in
    let is = subst (PcIs s.queue s.history z) e (inv.places i) in
    (
      is.2,
      is.3,
      is.1,
      (held_slot inv reading x is.0).at_stage.0,
      λ j g b ej. inv.unique j i x (ap owned ej) (ap owned e),
    )

-- The slot of an ended push keeps its generation until it is released.
waits :
    (q : Queue) (h : History) (x : ℕ) (g : Stage)
    → SlotIs q.head q.tail h (slot_of q x) (index_of x) x g
    → h.published x ≡ true
    → x < q.head
    → (slot_of q x).generation ≡ u16 (x + 1)
waits q h x free is out below = absurd (omega (arith, is.at_stage))
waits q h x writing is out below = cc (is.at_stage.2)
waits q h x full is out below = is.numbered
waits q h x reading is out below = is.numbered

index_u16 : (x : ℕ) → u16 (index_of x) ≡ index_of x
index_u16 x = omega arith

not_done :
    (q : Queue) (x : ℕ)
    → (slot_of q x).generation ≡ u16 (x + 1)
    → not ((slot_of q x).generation == u16 (x + 1)) ≡ true
    → ⊥
not_done q x e done = ground arith

-- A thread that joins a task of an ended push goes on only when its function has returned.
pub task_done-returned :
    {n : ℕ} {s : System}
    → n < 2 ^ 64
    → Reach n s
    → (x : ℕ) → s.history.published x ≡ true
    → task_done s.queue (id_of x) ≡ true
    → s.history.returned x ≡ true
unfolding task_done id_of
task_done-returned {s} few r x out done =
    let (z, inv) = Reach-Inv few r in
    elim (Bool-cases (z.current (index_of x) == x)) [
      | inl same ↦
          let here : z.current (index_of x) ≡ x = ground arith in
          let number =
            waits s.queue s.history x _ (held_slot inv (z.stage (index_of x)) x (here, refl)) out
              (inv.published x out) in
          absurd (
            not_done s.queue x number (
              subst (λ k. not ((s.queue.slots k).generation == u16 (x + 1)) ≡ true) (index_u16 x)
                done))
      | inr other ↦ inv.returned x (inv.published x out) (λ e. ground arith)
    ]

-- The tail never passes the head, nor falls behind it by more than the number of slots.
pub counters_lem :
    {n : ℕ} {s : System}
    → n < 2 ^ 64
    → Reach n s
    → (s.queue.tail ≤ s.queue.head) × (s.queue.head ≤ s.queue.tail + queue_max)
counters_lem {s} few r =
    let (z, inv) = Reach-Inv few r in
    let is = slot_at inv s.queue.tail in
    ground (arith, is.here, is.ahead, is.behind, inv.ordered, inv.counted)
