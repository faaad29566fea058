-- ===== src/Tasks/Invariant.antt =====
-- What holds of the queue and the threads between two steps. Each slot has a current counter, the
-- last that was claimed there or the next that may be, and a stage.
use reduct.Prelude.{ℕ, ◌+◌, ◌%◌, ◌≤◌, ◌<◌, true, false, Option, none, some, ◌≡◌, ◌≢◌}
use reduct.Tasks.Queue.{Slot, Queue, Pc, queue_max, index_of, slot_of, u16}
use reduct.Tasks.System.{System, History}

pub data Stage : Type 0 where
  free : Stage
  writing : Stage
  full : Stage
  reading : Stage

-- How far the generation of a slot is ahead of its current counter.
abbrev pub offset : Stage → ℕ
offset free = 0
offset writing = 0
offset full = 1
offset reading = 1

-- The slots as the counters go through them.
pub record Shape : Type 0 where
  pub current : ℕ → ℕ
  pub stage : ℕ → Stage

-- The slot of a counter is at that counter, in a stage.
abbrev pub Held : Shape → Stage → ℕ → Type 0
Held z s x = (z.current (index_of x) ≡ x) × (z.stage (index_of x) ≡ s)

-- A slot has the function and the argument that were pushed at a counter.
abbrev pub Filled : History → Slot → ℕ → Type 0
Filled h s c = (s.func ≡ h.func c) × (s.arg ≡ h.arg c)

abbrev pub AtStage : (head tail : ℕ) → History → Slot → ℕ → Stage → Type 0
AtStage head tail h s c free = head ≤ c
AtStage head tail h s c writing = (tail ≤ c) × (c < head) × (h.published c ≡ false)
AtStage head tail h s c full = (tail ≤ c) × (c < head) × Filled h s c
AtStage head tail h s c reading = (c < tail) × Filled h s c

pub record SlotIs (head tail : ℕ) (h : History) (s : Slot) (i c : ℕ) (stage : Stage) : Type 0 where
  pub here : c % queue_max ≡ i
  pub ahead : head ≤ c + queue_max
  pub behind : c < tail + queue_max
  pub numbered : s.generation ≡ u16 (c + offset stage)
  pub at_stage : AtStage head tail h s c stage

-- What the local variables of a thread say.
abbrev pub PcIs : Queue → History → Shape → Pc → Type 0
PcIs q h z (Pc.push_check f a x) = x ≤ q.head
PcIs q h z (Pc.push_claim f a x) = (x ≤ q.head) × (x ≡ q.head → Held z free x)
PcIs q h z (Pc.push_func f a x) = Held z writing x × (h.func x ≡ f) × (h.arg x ≡ a)
PcIs q h z (Pc.push_arg f a x) =
    Held z writing x × (h.func x ≡ f) × (h.arg x ≡ a) × ((slot_of q x).func ≡ f)
PcIs q h z (Pc.push_publish f a x) =
    Held z writing x
    × (h.func x ≡ f)
    × (h.arg x ≡ a)
    × ((slot_of q x).func ≡ f)
    × ((slot_of q x).arg ≡ a)
PcIs q h z (Pc.pushed x) = h.published x ≡ true
PcIs q h z (Pc.pop_check x) = x ≤ q.tail
PcIs q h z (Pc.pop_claim x) = (x ≤ q.tail) × (x ≡ q.tail → Held z full x)
PcIs q h z (Pc.work_func x) = Held z reading x × (h.returned x ≡ false)
PcIs q h z (Pc.work_arg x f) = Held z reading x × (h.returned x ≡ false) × (f ≡ h.func x)
PcIs q h z (Pc.running x f a) =
    Held z reading x × (h.returned x ≡ false) × (f ≡ h.func x) × (a ≡ h.arg x)
PcIs q h z (Pc.work_release x f a) =
    Held z reading x × (f ≡ h.func x) × (a ≡ h.arg x) × (h.returned x ≡ true)
PcIs q h z (Pc.worked x) = h.returned x ≡ true
PcIs q h z _ = Unit

-- The counter that a thread has claimed, whose slot is its own.
abbrev pub owned : Pc → Option ℕ
owned (Pc.push_func f a x) = some x
owned (Pc.push_arg f a x) = some x
owned (Pc.push_publish f a x) = some x
owned (Pc.work_func x) = some x
owned (Pc.work_arg x f) = some x
owned (Pc.running x f a) = some x
owned (Pc.work_release x f a) = some x
owned _ = none

-- After `n` steps.
pub record Inv (n : ℕ) (s : System) (z : Shape) : Type 0 where
  pub counted : s.queue.head ≤ n
  pub ordered : s.queue.tail ≤ s.queue.head
  pub slots :
      (i : ℕ)
      → i < queue_max
      → SlotIs s.queue.head s.queue.tail s.history (s.queue.slots i) i (z.current i) (z.stage i)
  pub places : (j : ℕ) → PcIs s.queue s.history z (s.pc j)
  pub unique : (i j x : ℕ) → owned (s.pc i) ≡ some x → owned (s.pc j) ≡ some x → i ≡ j
  pub published : (x : ℕ) → s.history.published x ≡ true → x < s.queue.head
  pub ended : (x : ℕ) → s.history.returned x ≡ true → x < s.queue.tail
  pub returned :
      (x : ℕ) → x < s.queue.head → z.current (index_of x) ≢ x → s.history.returned x ≡ true
