-- ===== src/Tasks/Order.antt =====
-- The queue as a list: its tasks from the tail to the head, with what they were pushed with.
use reduct.Prelude.{
  ℕ, zero, suc, ◌+◌, ◌-◌, ◌^◌, ◌≤◌, ◌<◌, sym, ap, ap₂, ◌∙◌, subst, refl, Bool, not, ◌&&◌, List, [],
  ◌∷◌, ◌++◌, length, ◌≡◌, inl, inr, arith, ◌==◌, Bool-cases,
}
use reduct.Tasks.Queue.{Queue, Pc, u64, advance, queue_max}
use reduct.Tasks.System.{System, History, note, Step, turn, create, try_work, Reach}
use reduct.Tasks.Invariant.{Shape, full, Inv, PcIs}
use reduct.Tasks.Steps.{held_slot}
use reduct.Tasks.Advance.{Reach-Inv}
use reduct.Tasks.Safety.{counters_lem}
use reduct.Prelude.Maps.{update_self, update}

abbrev pub job : History → ℕ → ℕ × ℕ
job h x = (h.func x, h.arg x)

-- The tasks at so many counters.
abbrev pub jobs : History → ℕ → ℕ → List (ℕ × ℕ)
jobs h x zero = []
jobs h x (suc n) = job h x ∷ jobs h (suc x) n

abbrev pub contents : System → List (ℕ × ℕ)
contents s = jobs s.history s.queue.tail (s.queue.head - s.queue.tail)

-- What a step does to that list: a thread that claims the head appends its task, and a thread that
-- claims the tail takes the first.
pub data Act (s t : System) : Type 0 where
  keep : contents t ≡ contents s → Act s t
  put :
      (i f a x : ℕ)
      → s.pc i ≡ Pc.push_claim f a x
      → t.pc i ≡ Pc.push_func f a x
      → contents t ≡ contents s ++ (f, a) ∷ []
      → Act s t
  take :
      (i x : ℕ)
      → s.pc i ≡ Pc.pop_claim x
      → t.pc i ≡ Pc.work_func x
      → contents s ≡ job s.history x ∷ contents t
      → Act s t

jobs_same :
    (h k : History) (x n : ℕ) → ((y : ℕ) → y < x + n → job k y ≡ job h y) → jobs k x n ≡ jobs h x n
jobs_same h k x zero same = refl
jobs_same h k x (suc n) same =
    rw (same x (omega arith), jobs_same h k (suc x) n (λ y below. same y (omega arith)))

jobs_snoc : (h : History) (x n : ℕ) → jobs h x (suc n) ≡ jobs h x n ++ job h (x + n) ∷ []
jobs_snoc h x zero = ap (λ y. job h y ∷ []) (omega arith)
jobs_snoc h x (suc n) =
    ap (λ l. job h x ∷ l)
      (jobs_snoc h (suc x) n ∙ ap (λ y. jobs h (suc x) n ++ job h y ∷ []) (omega arith))

length-jobs : (h : History) (x n : ℕ) → length (jobs h x n) ≡ n
length-jobs h x zero = refl
length-jobs h x (suc n) = omega (arith, length-jobs h (suc x) n)

module _ {n : ℕ} {s : System} {z : Shape} (inv : Inv n s z) (few : suc n < 2 ^ 64) where
  abbrev q : Queue
  q = s.queue

  abbrev h : History
  h = s.history

  put_jobs :
      (f a : ℕ) (k : History)
      → k.func ≡ update h.func q.head f
      → k.arg ≡ update h.arg q.head a
      → jobs k q.tail (u64 (q.head + 1) - q.tail) ≡ contents s ++ (f, a) ∷ []
  put_jobs f a k ef ea =
      ap (jobs k q.tail) (more inv.counted inv.ordered)
      ∙ jobs_snoc k q.tail (q.head - q.tail)
      ∙ ap₂ (λ l y. l ++ y ∷ []) (jobs_same h k q.tail (q.head - q.tail) old)
          (ap (job k) there ∙ new)
    where
      more : q.head ≤ n → q.tail ≤ q.head → u64 (q.head + 1) - q.tail ≡ suc (q.head - q.tail)
      more c o = omega arith

      there : q.tail + (q.head - q.tail) ≡ q.head
      there = omega (arith, inv.ordered)

      old : (y : ℕ) → y < q.tail + (q.head - q.tail) → job k y ≡ job h y
      old y below = rw (ef, ea) (ground (arith, there))

      new : job k q.head ≡ (f, a)
      new = rw (ef, ea) (ground arith)

  take_jobs :
      q.tail < q.head
      → contents s ≡ job h q.tail ∷ jobs h (u64 (q.tail + 1)) (q.head - u64 (q.tail + 1))
  take_jobs some_left =
      ap (jobs h q.tail) (less inv.counted)
      ∙ ap (λ y. job h q.tail ∷ jobs h y (q.head - y)) (next inv.counted)
    where
      less : q.head ≤ n → q.head - q.tail ≡ suc (q.head - suc q.tail)
      less c = omega arith

      next : q.head ≤ n → suc q.tail ≡ u64 (q.tail + 1)
      next c = omega arith

  -- A step that claims nothing.
  stays :
      (t : System)
      → t.queue.head ≡ q.head
      → t.queue.tail ≡ q.tail
      → ((y : ℕ) → job t.history y ≡ job h y)
      → Act s t
  stays t head tail same =
      keep (rw (head, tail) (jobs_same h t.history q.tail (q.head - q.tail) (λ y below. same y)))

  module _ (i : ℕ) (weak : Bool) where
    abbrev after : Pc → System
    after p = record {
      queue = (advance weak q p).0;
      pc = update s.pc i (advance weak q p).1;
      history = note p (advance weak q p).1 h;
    }

    push_claim-Act :
        (f a x : ℕ) → s.pc i ≡ Pc.push_claim f a x → Act s (after (Pc.push_claim f a x))
    unfolding advance note
    push_claim-Act f a x e = elim (Bool-cases ((q.head == x) && not weak)) [
      | inl won ↦
          let there : x ≡ q.head = ground arith in
          rw won (
            put i f a x e (update_self s.pc i (Pc.push_func f a x)) (
              subst
                (λ y.
                  jobs (record h { func = update h.func y f; arg = update h.arg y a }) q.tail
                    (u64 (y + 1) - q.tail)
                  ≡ contents s ++ (f, a) ∷ [])
                (sym there)
                (put_jobs f a
                  (record h { func = update h.func q.head f; arg = update h.arg q.head a }) refl
                  refl)))
      | inr lost ↦
          rw lost (stays (record s { pc = update s.pc i (Pc.push_head f a) }) refl refl (λ y. refl))
    ]

    pop_claim-Act : (x : ℕ) → s.pc i ≡ Pc.pop_claim x → Act s (after (Pc.pop_claim x))
    unfolding advance note
    pop_claim-Act x e = elim (Bool-cases ((q.tail == x) && not weak)) [
      | inl won ↦
          let there : x ≡ q.tail = ground arith in
          let is = subst (PcIs q h z) e (inv.places i) in
          let slot = held_slot inv full x (is.1 there) in
          rw won (
            take i x e (update_self s.pc i (Pc.work_func x)) (
              subst (λ y. contents s ≡ job h y ∷ jobs h (u64 (y + 1)) (q.head - u64 (y + 1)))
                (sym there) (take_jobs (subst (λ y. y < q.head) there slot.at_stage.1))))
      | inr lost ↦
          rw lost (stays (record s { pc = update s.pc i Pc.pop_tail }) refl refl (λ y. refl))
    ]

    advance-Act : (p : Pc) → s.pc i ≡ p → Act s (after p)
    unfolding advance note
    advance-Act (Pc.push_claim f a x) e = push_claim-Act f a x e
    advance-Act (Pc.pop_claim x) e = pop_claim-Act x e
    advance-Act (Pc.push_publish f a x) e =
        stays (after (Pc.push_publish f a x)) refl refl (λ y. refl)
    advance-Act (Pc.running x f a) e = stays (after (Pc.running x f a)) refl refl (λ y. refl)
    advance-Act p e = stays (after p) refl refl (λ y. refl)

-- Each step of a reached state keeps the list of tasks, appends the task of a thread that claims the
-- head, or takes the first task for a thread that claims the tail.
pub Step-Act : {n : ℕ} {s t : System} → suc n < 2 ^ 64 → Reach n s → Step s t → Act s t
Step-Act {s} few r (turn i weak) =
    let (z, inv) = Reach-Inv (omega arith) r in advance-Act inv few i weak (s.pc i) refl
Step-Act few r (create i f a rest) = keep refl
Step-Act few r (try_work i rest) = keep refl

-- That list has as many tasks as the head is ahead of the tail, at most the number of slots.
pub length-contents :
    {n : ℕ} {s : System}
    → n < 2 ^ 64
    → Reach n s
    → (s.queue.head ≡ s.queue.tail + length (contents s)) × (length (contents s) ≤ queue_max)
length-contents {s} few r =
    omega
      (arith, length-jobs s.history s.queue.tail (s.queue.head - s.queue.tail), counters_lem few r)
