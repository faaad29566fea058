-- ===== src/Tasks/Steps.antt =====
-- The steps that claim a counter, write a slot or end a task keep the invariant, as long as the
-- counters do not wrap.
use reduct.Prelude.{
  ℕ, suc, ◌+◌, ◌^◌, ◌<◌, ◌∙◌, subst, refl, Bool, true, some, ◌≡◌, ◌≢◌, ◌⊎◌, inl, inr, arith, ◌==◌,
}
use reduct.Tasks.Queue.{Slot, Queue, Pc, index_of, slot_of, u64, difference, with_slot}
use reduct.Tasks.System.{System, History}
use reduct.Tasks.Invariant.{
  Stage, free, writing, full, reading, Shape, Held, SlotIs, PcIs, owned, Inv,
}
use reduct.Tasks.Moved.{Moved}
use reduct.Tasks.Moves.{Inv-Moved}
use reduct.Prelude.Maps.{update_self, update}

module _ {n : ℕ} {s : System} {z : Shape} (inv : Inv n s z) where
  -- The slot of a counter.
  pub slot_at :
      (x : ℕ)
      → SlotIs s.queue.head s.queue.tail s.history
          (slot_of s.queue x)
          (index_of x)
          (z.current (index_of x))
          (z.stage (index_of x))
  slot_at x = inv.slots (index_of x) (omega arith)

  pub held_slot :
      (g : Stage) (x : ℕ)
      → Held z g x
      → SlotIs s.queue.head s.queue.tail s.history (slot_of s.queue x) (index_of x) x g
  held_slot g x (c, e) =
      subst (λ k. SlotIs s.queue.head s.queue.tail s.history (slot_of s.queue x) (index_of x) k g) c
        (subst
          (λ k.
            SlotIs s.queue.head s.queue.tail s.history (slot_of s.queue x) (index_of x)
              (z.current (index_of x)) k)
          e (slot_at x))

  -- A slot whose generation is the head is free for it.
  pub free_at :
      (c : ℕ) (g : Stage)
      → SlotIs s.queue.head s.queue.tail s.history
          (slot_of s.queue s.queue.head)
          (index_of s.queue.head)
          c
          g
      → (difference (slot_of s.queue s.queue.head).generation s.queue.head == 0) ≡ true
      → (c ≡ s.queue.head) × (g ≡ free)
  unfolding difference
  free_at c free is e =
      ground (arith, is.here, is.ahead, is.behind, is.numbered, is.at_stage, inv.ordered)
  free_at c _ is e =
      absurd (ground (arith, is.here, is.ahead, is.behind, is.numbered, is.at_stage, inv.ordered))

  -- A slot whose generation is one past the tail is full.
  pub full_at :
      (c : ℕ) (g : Stage)
      → SlotIs s.queue.head s.queue.tail s.history
          (slot_of s.queue s.queue.tail)
          (index_of s.queue.tail)
          c
          g
      → (difference (slot_of s.queue s.queue.tail).generation (s.queue.tail + 1) == 0) ≡ true
      → (c ≡ s.queue.tail) × (g ≡ full)
  unfolding difference
  full_at c free is e =
      absurd (ground (arith, is.here, is.ahead, is.behind, is.numbered, is.at_stage, inv.ordered))
  full_at c writing is e =
      absurd (ground (arith, is.here, is.ahead, is.behind, is.numbered, is.at_stage, inv.ordered))
  full_at c full is e =
      ground (arith, is.here, is.ahead, is.behind, is.numbered, is.at_stage, inv.ordered)
  full_at c reading is e =
      absurd (ground (arith, is.here, is.ahead, is.behind, is.numbered, is.at_stage, inv.ordered))

  -- The shape with another counter and stage at one slot.
  abbrev pub reshape : ℕ → ℕ → Stage → Shape
  reshape y c g = record {
    current = update z.current (index_of y) c;
    stage = update z.stage (index_of y) g;
  }

  -- The owner of a slot writes it.
  module _ (i y : ℕ) (g : Stage) (at : Held z g y) (kind : (g ≡ writing) ⊎ (g ≡ reading))
      (mine : owned (s.pc i) ≡ some y) where
    wrote :
        (t : Slot) (c : ℕ) (g' : Stage) (p : ℕ → Bool)
        → ((x : ℕ) → x ≢ y → p x ≡ s.history.published x)
        → ((x : ℕ) → s.history.published x ≡ true → p x ≡ true)
        → Moved s.queue s.history z
            (with_slot s.queue y t)
            (record s.history { published = p })
            (reshape y c g')
            y
            g
    wrote t c g' p same kept = record {
      held = at;
      heads = inl (refl, λ e. ground arith);
      tails = inl (refl, λ e. ground arith);
      same_slots = λ k ne. ground arith;
      same_current = λ k ne. ground arith;
      same_stage = λ k ne. ground arith;
      same_func = λ x ne. refl;
      same_arg = λ x ne. refl;
      same_published = same;
      same_returned = λ x ne. refl;
      kept_published = kept;
      kept_returned = λ x e. e;
    }

    pub write-Inv :
        (t : Slot) (c : ℕ) (g' : Stage) (p : ℕ → Bool) (p' : Pc)
        → ((x : ℕ) → x ≢ y → p x ≡ s.history.published x)
        → ((x : ℕ) → s.history.published x ≡ true → p x ≡ true)
        → SlotIs s.queue.head s.queue.tail (record s.history { published = p }) t (index_of y) c g'
        → PcIs (with_slot s.queue y t) (record s.history { published = p }) (reshape y c g') p'
        → ((x : ℕ) → owned p' ≡ some x → x ≡ y)
        → y < s.queue.head
        → (c ≢ y → s.history.returned y ≡ true)
        → Inv
            (suc n)
            (record {
              queue = with_slot s.queue y t;
              pc = update s.pc i p';
              history = record s.history { published = p };
            })
            (reshape y c g')
    write-Inv t c g' p p' same kept slot place after below done =
        Inv-Moved inv i (wrote t c g' p same kept) p' (inl mine) inv.ordered
          (rw
            (
              update_self s.queue.slots (index_of y) t,
              update_self z.current (index_of y) c,
              update_self z.stage (index_of y) g',
            )
            slot)
          place after (λ _. below) (inv.ended y)
          (λ _ ne. done (λ e. ne (update_self z.current (index_of y) c ∙ e)))

  abbrev claimed_head : ℕ → ℕ → Queue × History
  claimed_head f a = (
    record s.queue { head = u64 (s.queue.head + 1) },
    record s.history {
      func = update s.history.func s.queue.head f;
      arg = update s.history.arg s.queue.head a;
    },
  )

  -- A thread claims the head.
  pub push_claim-Inv :
      (i f a : ℕ)
      → suc n < 2 ^ 64
      → Held z free s.queue.head
      → Inv
          (suc n)
          (record {
            queue = (claimed_head f a).0;
            pc = update s.pc i (Pc.push_func f a s.queue.head);
            history = (claimed_head f a).1;
          })
          (reshape s.queue.head s.queue.head writing)
  push_claim-Inv i f a few at =
      Inv-Moved inv i moved (Pc.push_func f a s.queue.head) (inr (inl refl))
        (ground (arith, inv.counted, inv.ordered))
        (rw (update_self z.current (index_of y) y, update_self z.stage (index_of y) writing)
          (record {
            here = refl;
            ahead = ground (arith, inv.counted);
            behind = is.behind;
            numbered = is.numbered;
            at_stage = (
              ground (arith, is.behind),
              ground (arith, inv.counted),
              ground (arith, inv.published y),
            );
          }))
        ((ground arith, ground arith), ground arith, ground arith) (λ x e. ground arith)
        (λ e. ground (arith, inv.counted)) (inv.ended y)
        (λ _ ne. absurd (ne (update_self z.current (index_of y) y)))
    where
      y : ℕ
      y = s.queue.head

      is : SlotIs s.queue.head s.queue.tail s.history (slot_of s.queue y) (index_of y) y free
      is = held_slot free y at

      moved :
          Moved s.queue s.history z
            (claimed_head f a).0
            (claimed_head f a).1
            (reshape y y writing)
            y
            free
      moved = record {
        held = at;
        heads = inr (refl, ground (arith, inv.counted), refl);
        tails = inl (refl, λ e. ground arith);
        same_slots = λ k ne. refl;
        same_current = λ k ne. ground arith;
        same_stage = λ k ne. ground arith;
        same_func = λ x ne. ground arith;
        same_arg = λ x ne. ground arith;
        same_published = λ x ne. refl;
        kept_published = λ x e. e;
        same_returned = λ x ne. refl;
        kept_returned = λ x e. e;
      }

  -- A thread claims the tail.
  pub pop_claim-Inv :
      (i : ℕ)
      → suc n < 2 ^ 64
      → Held z full s.queue.tail
      → Inv
          (suc n)
          (record {
            queue = record s.queue { tail = u64 (s.queue.tail + 1) };
            pc = update s.pc i (Pc.work_func s.queue.tail);
            history = s.history;
          })
          (reshape s.queue.tail s.queue.tail reading)
  pop_claim-Inv i few at =
      Inv-Moved inv i moved (Pc.work_func s.queue.tail) (inr (inr refl))
        (ground (arith, inv.counted, is.at_stage))
        (rw (update_self z.current (index_of y) y, update_self z.stage (index_of y) reading)
          (record {
            here = refl;
            ahead = omega (arith, is.ahead, at.0);
            behind = ground (arith, inv.counted, inv.ordered);
            numbered = ground (arith, is.numbered, at.0, at.1);
            at_stage = ground (arith, inv.counted, inv.ordered, is.at_stage);
          }))
        ((ground arith, ground arith), ground (arith, inv.ended y)) (λ x e. ground arith)
        (λ e. inv.published y e) (λ e. ground (arith, inv.ended y))
        (λ _ ne. absurd (ne (update_self z.current (index_of y) y)))
    where
      y : ℕ
      y = s.queue.tail

      is : SlotIs s.queue.head s.queue.tail s.history (slot_of s.queue y) (index_of y) y full
      is = held_slot full y at

      moved :
          Moved s.queue s.history z
            (record s.queue { tail = u64 (s.queue.tail + 1) })
            s.history
            (reshape y y reading)
            y
            full
      moved = record {
        held = at;
        heads = inl (refl, λ e. ground arith);
        tails = inr (refl, ground (arith, inv.counted, inv.ordered), refl);
        same_slots = λ k ne. refl;
        same_current = λ k ne. ground arith;
        same_stage = λ k ne. ground arith;
        same_func = λ x ne. refl;
        same_arg = λ x ne. refl;
        same_published = λ x ne. refl;
        kept_published = λ x e. e;
        same_returned = λ x ne. refl;
        kept_returned = λ x e. e;
      }

  -- The function of a task returns.
  pub return-Inv :
      (i y f a : ℕ)
      → owned (s.pc i) ≡ some y
      → Held z reading y
      → (f ≡ s.history.func y) × (a ≡ s.history.arg y)
      → Inv
          (suc n)
          (record {
            queue = s.queue;
            pc = update s.pc i (Pc.work_release y f a);
            history = record s.history { returned = update s.history.returned y true };
          })
          z
  return-Inv i y f a mine at (f_is, a_is) =
      Inv-Moved inv i moved (Pc.work_release y f a) (inl mine) inv.ordered
        (rw at.0 (
          rw at.1 (record {
            here = is.here;
            ahead = is.ahead;
            behind = is.behind;
            numbered = is.numbered;
            at_stage = is.at_stage;
          })))
        (at, f_is, a_is, update_self s.history.returned y true) (λ x e. ground arith)
        (inv.published y) (λ _. is.at_stage.0) (λ _ ne. absurd (ne at.0))
    where
      is : SlotIs s.queue.head s.queue.tail s.history (slot_of s.queue y) (index_of y) y reading
      is = held_slot reading y at

      moved :
          Moved s.queue s.history z s.queue
            (record s.history { returned = update s.history.returned y true })
            z
            y
            reading
      moved = record {
        held = at;
        heads = inl (refl, λ e. ground arith);
        tails = inl (refl, λ e. ground arith);
        same_slots = λ k ne. refl;
        same_current = λ k ne. refl;
        same_stage = λ k ne. refl;
        same_func = λ x ne. refl;
        same_arg = λ x ne. refl;
        same_published = λ x ne. refl;
        kept_published = λ x e. e;
        same_returned = λ x ne. ground arith;
        kept_returned = λ x e. ground arith;
      }
