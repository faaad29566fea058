-- ===== src/Tasks/Moved.antt =====
-- What a step that changes one slot, or claims one counter, leaves as it was.
use reduct.Prelude.{
  ℕ, suc, sym, ap, ◌∙◌, refl, ◌+◌, ◌%◌, ◌≤◌, true, some, ◌≡◌, ◌≢◌, ◌⊎◌, inl, inr, arith,
}
use reduct.Tasks.Queue.{Slot, Queue, Pc, queue_max, index_of, slot_of}
use reduct.Tasks.System.{History}
use reduct.Tasks.Invariant.{
  Stage, free, writing, full, reading, Shape, Held, AtStage, SlotIs, PcIs, owned,
}

pub record Moved (q : Queue) (h : History) (z : Shape) (q' : Queue) (h' : History) (z' : Shape)
    (y : ℕ) (stage : Stage) : Type 0 where
  pub held : Held z stage y
  pub heads :
      ((q'.head ≡ q.head) × (stage ≢ free))
      ⊎ ((y ≡ q.head) × (q'.head ≡ suc q.head) × (stage ≡ free))
  pub tails :
      ((q'.tail ≡ q.tail) × (stage ≢ full))
      ⊎ ((y ≡ q.tail) × (q'.tail ≡ suc q.tail) × (stage ≡ full))
  pub same_slots : (k : ℕ) → k ≢ index_of y → q'.slots k ≡ q.slots k
  pub same_current : (k : ℕ) → k ≢ index_of y → z'.current k ≡ z.current k
  pub same_stage : (k : ℕ) → k ≢ index_of y → z'.stage k ≡ z.stage k
  pub same_func : (x : ℕ) → x ≢ y → h'.func x ≡ h.func x
  pub same_arg : (x : ℕ) → x ≢ y → h'.arg x ≡ h.arg x
  pub same_published : (x : ℕ) → x ≢ y → h'.published x ≡ h.published x
  pub kept_published : (x : ℕ) → h.published x ≡ true → h'.published x ≡ true
  pub same_returned : (x : ℕ) → x ≢ y → h'.returned x ≡ h.returned x
  pub kept_returned : (x : ℕ) → h.returned x ≡ true → h'.returned x ≡ true

module _ {q : Queue} {h : History} {z : Shape} {q' : Queue} {h' : History} {z' : Shape} {y : ℕ}
    {stage : Stage} (m : Moved q h z q' h' z' y stage) where
  open m use {
    held, heads, tails, same_slots, same_current, same_stage, same_func, same_arg, same_published,
    kept_published, kept_returned,
  }

  -- Another slot.
  AtStage-Moved :
      (s : Slot) (c : ℕ) (g : Stage)
      → c % queue_max ≢ index_of y
      → q.head ≤ c + queue_max
      → AtStage q.head q.tail h s c g
      → AtStage q'.head q'.tail h' s c g
  AtStage-Moved s c free away a h = ground arith
  AtStage-Moved s c writing away a h = ground (arith, same_published c)
  AtStage-Moved s c full away a h = ground (arith, same_func c, same_arg c)
  AtStage-Moved s c reading away a h = ground (arith, same_func c, same_arg c)

  pub SlotIs-Moved :
      (i : ℕ)
      → i ≢ index_of y
      → SlotIs q.head q.tail h (q.slots i) i (z.current i) (z.stage i)
      → SlotIs q'.head q'.tail h' (q'.slots i) i (z'.current i) (z'.stage i)
  SlotIs-Moved i away was =
      rw (same_slots i away, same_current i away, same_stage i away)
        (record {
          here = was.here;
          ahead = ground (arith, was.here, was.ahead);
          behind = ground (arith, was.behind);
          numbered = was.numbered;
          at_stage =
              AtStage-Moved (q.slots i) (z.current i) (z.stage i) (λ e. away (ground arith))
                was.ahead was.at_stage;
        })

  -- Another thread.
  Held-Moved : (g : Stage) (x : ℕ) → index_of x ≢ index_of y → Held z g x → Held z' g x
  Held-Moved g x away (c, s) =
      (ground (arith, same_current (index_of x)), ground (arith, same_stage (index_of x)))

  -- Slots that are held at two counters, or in two stages.
  apart : (g : Stage) (x : ℕ) → Held z g x → (x ≢ y) ⊎ (g ≢ stage) → index_of x ≢ index_of y
  apart g x (c, s) (inl differ) e = differ (sym c ∙ ap z.current e ∙ held.0)
  apart g x (c, s) (inr differ) e = differ (sym s ∙ ap z.stage e ∙ held.1)

  -- A slot that is free or full has no owner; the others have one.
  abbrev pub NotOurs : Pc → Type 0
  NotOurs p = (x : ℕ) → owned p ≡ some x → (x ≢ y) ⊎ (stage ≡ free) ⊎ (stage ≡ full)

  owner_apart :
      (g : Stage) (x : ℕ)
      → (g ≡ writing) ⊎ (g ≡ reading)
      → Held z g x
      → (x ≢ y) ⊎ (stage ≡ free) ⊎ (stage ≡ full)
      → index_of x ≢ index_of y
  owner_apart g x kind h (inl differ) = apart g x h (inl differ)
  owner_apart g x kind h (inr stages) = apart g x h (inr (λ e. ground arith))

  -- What an owner of another slot says.
  owner :
      (g : Stage) (x : ℕ)
      → (g ≡ writing) ⊎ (g ≡ reading)
      → Held z g x
      → (x ≢ y) ⊎ (stage ≡ free) ⊎ (stage ≡ full)
      → record {
        same_held : Held z' g x;
        same_slot : slot_of q' x ≡ slot_of q x;
        same_func : h'.func x ≡ h.func x;
        same_arg : h'.arg x ≡ h.arg x;
        same_returned : h'.returned x ≡ h.returned x;
      }
  owner g x kind at ours =
      let away = owner_apart g x kind at ours in
      record {
        same_held = Held-Moved g x away at;
        same_slot = same_slots (index_of x) away;
        same_func = m.same_func x (λ e. away (ap index_of e));
        same_arg = m.same_arg x (λ e. away (ap index_of e));
        same_returned = m.same_returned x (λ e. away (ap index_of e));
      }

  claim_free : (x : ℕ) → x ≤ q.head → (x ≡ q.head → Held z free x) → x ≡ q'.head → Held z' free x
  claim_free x le was e = elim heads [
    | inl (same, other) ↦
        let h = was (e ∙ same) in Held-Moved free x (apart free x h (inr (λ k. other (sym k)))) h
    | inr (_, next, _) ↦ absurd (omega arith)
  ]

  claim_full : (x : ℕ) → x ≤ q.tail → (x ≡ q.tail → Held z full x) → x ≡ q'.tail → Held z' full x
  claim_full x le was e = elim tails [
    | inl (same, other) ↦
        let h = was (e ∙ same) in Held-Moved full x (apart full x h (inr (λ k. other (sym k)))) h
    | inr (_, next, _) ↦ absurd (omega arith)
  ]

  heads_le : q.head ≤ q'.head
  heads_le = ground arith

  tails_le : q.tail ≤ q'.tail
  tails_le = ground arith

  pub PcIs-Moved : (p : Pc) → NotOurs p → PcIs q h z p → PcIs q' h' z' p
  PcIs-Moved (Pc.push_check f a x) ours was = omega (arith, heads_le)
  PcIs-Moved (Pc.push_claim f a x) ours (le, was) = (omega (arith, heads_le), claim_free x le was)
  PcIs-Moved (Pc.push_func f a x) ours (at, f_is, a_is) =
      let k = owner writing x (inl refl) at (ours x refl) in
      (k.same_held, k.same_func ∙ f_is, k.same_arg ∙ a_is)
  PcIs-Moved (Pc.push_arg f a x) ours (at, f_is, a_is, slot_f) =
      let k = owner writing x (inl refl) at (ours x refl) in
      (k.same_held, k.same_func ∙ f_is, k.same_arg ∙ a_is, ap Slot.func k.same_slot ∙ slot_f)
  PcIs-Moved (Pc.push_publish f a x) ours (at, f_is, a_is, slot_f, slot_a) =
      let k = owner writing x (inl refl) at (ours x refl) in
      (
        k.same_held,
        k.same_func ∙ f_is,
        k.same_arg ∙ a_is,
        ap Slot.func k.same_slot ∙ slot_f,
        ap Slot.arg k.same_slot ∙ slot_a,
      )
  PcIs-Moved (Pc.pushed x) ours was = kept_published x was
  PcIs-Moved (Pc.pop_check x) ours was = omega (arith, tails_le)
  PcIs-Moved (Pc.pop_claim x) ours (le, was) = (omega (arith, tails_le), claim_full x le was)
  PcIs-Moved (Pc.work_func x) ours (at, r) =
      let k = owner reading x (inr refl) at (ours x refl) in (k.same_held, k.same_returned ∙ r)
  PcIs-Moved (Pc.work_arg x f) ours (at, r, f_is) =
      let k = owner reading x (inr refl) at (ours x refl) in
      (k.same_held, k.same_returned ∙ r, f_is ∙ sym k.same_func)
  PcIs-Moved (Pc.running x f a) ours (at, r, f_is, a_is) =
      let k = owner reading x (inr refl) at (ours x refl) in
      (k.same_held, k.same_returned ∙ r, f_is ∙ sym k.same_func, a_is ∙ sym k.same_arg)
  PcIs-Moved (Pc.work_release x f a) ours (at, f_is, a_is, done) =
      let k = owner reading x (inr refl) at (ours x refl) in
      (k.same_held, f_is ∙ sym k.same_func, a_is ∙ sym k.same_arg, kept_returned x done)
  PcIs-Moved (Pc.worked x) ours was = kept_returned x was
  PcIs-Moved Pc.idle ours was = tt
  PcIs-Moved (Pc.push_head f a) ours was = tt
  PcIs-Moved Pc.refused ours was = tt
  PcIs-Moved Pc.pop_tail ours was = tt
  PcIs-Moved Pc.found_none ours was = tt
