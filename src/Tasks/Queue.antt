-- ===== src/Tasks/Queue.antt =====
-- The queue of src/task.c, one access of shared memory at a time. Accesses are sequentially
-- consistent. A thread stands at a `Pc`, which has the local variables that are live there; the
-- two plain writes and reads of a slot are steps of their own, so that a race would show.
use reduct.Prelude.{ℕ, ◌+◌, ◌-◌, ◌%◌, ◌^◌, Bool, not, ◌&&◌, leb, ◌==◌, if◌then◌else◌}
use reduct.Prelude.Maps.{update}

abbrev pub u16 : ℕ → ℕ
u16 n = n % 2 ^ 16

-- `size_t`
abbrev pub u64 : ℕ → ℕ
u64 n = n % 2 ^ 64

abbrev pub queue_max : ℕ
queue_max = 256

-- `reduct_task_t`: a function and its argument by address, and the generation, a `uint16_t`.
pub record Slot : Type 0 where
  pub generation : ℕ
  pub func : ℕ
  pub arg : ℕ

-- The part of `reduct_task_global_t` that the queue has.
pub record Queue : Type 0 where
  pub slots : ℕ → Slot
  pub head : ℕ
  pub tail : ℕ

-- `reduct_task_id_t`
pub record TaskId : Type 0 where
  pub index : ℕ
  pub generation : ℕ

-- `reduct_task_global_init`
unfoldable pub queue_init : Queue
queue_init = record {
  slots = λ i. record { generation = u16 i; func = 0; arg = 0 };
  head = 0;
  tail = 0;
}

-- Where a counter points.
abbrev pub index_of : ℕ → ℕ
index_of x = x % queue_max

abbrev pub slot_of : Queue → ℕ → Slot
slot_of q x = q.slots (index_of x)

-- `seq - (uint16_t)x` as the bits of an `int16_t`.
unfoldable pub difference : ℕ → ℕ → ℕ
difference seq x = u16 (seq + 2 ^ 16 - u16 x)

abbrev pub negative : ℕ → Bool
negative d = leb (2 ^ 15) d

-- The id that `reduct_task_create` gives out for the task at a counter.
unfoldable pub id_of : ℕ → TaskId
id_of head = record { index = u16 (index_of head); generation = u16 (head + 1) }

-- `reduct_task_done`
unfoldable pub task_done : Queue → TaskId → Bool
task_done q id = not ((q.slots id.index).generation == id.generation)

-- Where a thread stands: between two accesses of the shared memory, with its local variables.
pub data Pc : Type 0 where
  -- outside of the queue
  idle : Pc
  -- `reduct_task_push`, before it reads the head
  push_head : (func arg : ℕ) → Pc
  -- before it reads the generation
  push_check : (func arg head : ℕ) → Pc
  -- before the exchange of the head
  push_claim : (func arg head : ℕ) → Pc
  -- before it writes the function, the argument and the generation
  push_func : (func arg head : ℕ) → Pc
  push_arg : (func arg head : ℕ) → Pc
  push_publish : (func arg head : ℕ) → Pc
  -- `reduct_task_push` has returned true, or false
  pushed : (head : ℕ) → Pc
  refused : Pc
  -- `reduct_task_pop`, before it reads the tail, the generation, and before the exchange
  pop_tail : Pc
  pop_check : (tail : ℕ) → Pc
  pop_claim : (tail : ℕ) → Pc
  -- `reduct_task_try_work`, before it reads the function and the argument
  work_func : (tail : ℕ) → Pc
  work_arg : (tail func : ℕ) → Pc
  -- the function runs; it has returned, and the generation is not yet written
  running : (tail func arg : ℕ) → Pc
  work_release : (tail func arg : ℕ) → Pc
  -- `reduct_task_try_work` has returned true, or false
  worked : (tail : ℕ) → Pc
  found_none : Pc

abbrev pub with_slot : Queue → ℕ → Slot → Queue
with_slot q x s = record q { slots = update q.slots (index_of x) s }

-- The next access of a thread that stands at a place. `weak` says that a weak exchange fails for no
-- reason.
unfoldable pub advance : Bool → Queue → Pc → Queue × Pc
unfolding difference
advance weak q (Pc.push_head f a) = (q, Pc.push_check f a q.head)
advance weak q (Pc.push_check f a head) = (
  q,
  (let d = difference (slot_of q head).generation head in
      if d == 0
      then Pc.push_claim f a head
      else if negative d
      then Pc.refused
      else Pc.push_head f a),
)
advance weak q (Pc.push_claim f a head) =
    if (q.head == head) && not weak
    then (record q { head = u64 (head + 1) }, Pc.push_func f a head)
    else (q, Pc.push_head f a)
advance weak q (Pc.push_func f a head) =
    (with_slot q head (record (slot_of q head) { func = f }), Pc.push_arg f a head)
advance weak q (Pc.push_arg f a head) =
    (with_slot q head (record (slot_of q head) { arg = a }), Pc.push_publish f a head)
advance weak q (Pc.push_publish f a head) =
    (with_slot q head (record (slot_of q head) { generation = u16 (head + 1) }), Pc.pushed head)
advance weak q Pc.pop_tail = (q, Pc.pop_check q.tail)
advance weak q (Pc.pop_check tail) = (
  q,
  (let d = difference (slot_of q tail).generation (tail + 1) in
      if d == 0 then Pc.pop_claim tail else if negative d then Pc.found_none else Pc.pop_tail),
)
advance weak q (Pc.pop_claim tail) =
    if (q.tail == tail) && not weak
    then (record q { tail = u64 (tail + 1) }, Pc.work_func tail)
    else (q, Pc.pop_tail)
advance weak q (Pc.work_func tail) = (q, Pc.work_arg tail (slot_of q tail).func)
advance weak q (Pc.work_arg tail f) = (q, Pc.running tail f (slot_of q tail).arg)
advance weak q (Pc.running tail f a) = (q, Pc.work_release tail f a)
advance weak q (Pc.work_release tail f a) = (
  with_slot q tail (record (slot_of q tail) { generation = u16 (tail + queue_max) }),
  Pc.worked tail,
)
advance weak q p = (q, p)
