-- ===== src/Tasks/System.antt =====
-- Threads over one queue, interleaved in any order. The history remembers what each counter was
-- claimed for; no step reads it.
use reduct.Prelude.{ℕ, zero, suc, Bool, true, false, ◌≡◌}
use reduct.Tasks.Queue.{Queue, queue_init, Pc, advance}
use reduct.Prelude.Maps.{update}

-- What happened to the task at each counter: what it was pushed with, whether its push has ended,
-- and whether its function has returned.
pub record History : Type 0 where
  pub func : ℕ → ℕ
  pub arg : ℕ → ℕ
  pub published : ℕ → Bool
  pub returned : ℕ → Bool

-- A step of a thread that stood at `p` and now stands at `p'`.
unfoldable pub note : Pc → Pc → History → History
note (Pc.push_claim f a head) (Pc.push_func _ _ _) h = record h {
  func = update h.func head f;
  arg = update h.arg head a;
}
note (Pc.push_publish f a head) p' h = record h { published = update h.published head true }
note (Pc.running tail f a) p' h = record h { returned = update h.returned tail true }
note _ _ h = h

pub record System : Type 0 where
  pub queue : Queue
  pub pc : ℕ → Pc
  pub history : History

-- A thread outside of an operation may start any.
abbrev pub at_rest : Pc → Bool
at_rest Pc.idle = true
at_rest Pc.refused = true
at_rest (Pc.pushed _) = true
at_rest (Pc.worked _) = true
at_rest Pc.found_none = true
at_rest _ = false

abbrev pub go : System → ℕ → Queue × Pc → System
go s i (q, p) = record { queue = q; pc = update s.pc i p; history = note (s.pc i) p s.history }

abbrev pub start_at : System → ℕ → Pc → System
start_at s i p = record s { pc = update s.pc i p }

pub data Step (s : System) : System → Type 0 where
  -- a thread goes on
  turn : (i : ℕ) (weak : Bool) → Step s (go s i (advance weak s.queue (s.pc i)))
  -- `reduct_task_push` is called, by `reduct_task_create`
  create : (i f a : ℕ) → at_rest (s.pc i) ≡ true → Step s (start_at s i (Pc.push_head f a))
  -- `reduct_task_try_work` is called, by a worker or by a thread that joins a task
  try_work : (i : ℕ) → at_rest (s.pc i) ≡ true → Step s (start_at s i Pc.pop_tail)

unfoldable pub start : System
start = record {
  queue = queue_init;
  pc = λ _. Pc.idle;
  history = record { func = λ _. 0; arg = λ _. 0; published = λ _. false; returned = λ _. false };
}

-- The states after a number of steps.
pub data Reach : ℕ → System → Type 0 where
  here : Reach zero start
  later : {n : ℕ} {s t : System} → Reach n s → Step s t → Reach (suc n) t
