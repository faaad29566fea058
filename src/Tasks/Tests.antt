-- ===== src/Tasks/Tests.antt =====
-- Two threads on the queue: thread 0 pushes a task, thread 1 runs it.
use reduct.Prelude.{
  ℕ, ◌+◌, suc, ◌^◌, ◌<◌, ◌≤◌, refl, ap, Bool, true, false, List, [], ◌∷◌, ◌++◌, length, ◌≡◌, inl,
  inr, ◌⊎◌, arith,
}
use reduct.Tasks.Queue.{Pc, advance, queue_init, difference, queue_max, id_of, task_done}
use reduct.Tasks.System.{
  System, turn, create, try_work, Reach, here, later, start, note, at_rest, go,
}
use reduct.Tasks.Invariant.{owned}
use reduct.Tasks.Safety.{owned_alone, running_lem, task_done-returned}
use reduct.Tasks.Order.{Act, Step-Act, contents, length-contents}

-- What a thread is told to do.
data Order : Type 0 where
  goes : ℕ → Order
  pushes : (i f a : ℕ) → Order
  works : ℕ → Order

record Run : Type 0 where
  steps : ℕ
  last : System
  reach : Reach steps last

is_true : (b : Bool) → (b ≡ true) ⊎ (b ≡ false)
is_true true = inl refl
is_true false = inr refl

obey : Run → Order → Run
unfolding is_true
obey r (goes i) = record { steps = _; last = _; reach = later r.reach (turn i false) }
obey r (pushes i f a) = elim (is_true (at_rest (r.last.pc i))) [
  | inl e ↦ record { steps = _; last = _; reach = later r.reach (create i f a e) }
  | inr _ ↦ r
]
obey r (works i) = elim (is_true (at_rest (r.last.pc i))) [
  | inl e ↦ record { steps = _; last = _; reach = later r.reach (try_work i e) }
  | inr _ ↦ r
]

play : Run → List Order → Run
unfolding obey
play r [] = r
play r (o ∷ os) = play (obey r o) os

first : Run
first = record { steps = 0; last = start; reach = here }

abbrev push_five : List Order
push_five = pushes 0 5 7 ∷ goes 0 ∷ goes 0 ∷ goes 0 ∷ goes 0 ∷ goes 0 ∷ goes 0 ∷ []

-- Thread 1 is about to claim the task, runs it, and has play it.
abbrev about_to_pop : List Order
about_to_pop = push_five ++ works 1 ∷ goes 1 ∷ goes 1 ∷ []

abbrev runs_five : List Order
runs_five = about_to_pop ++ goes 1 ∷ goes 1 ∷ goes 1 ∷ []

abbrev ran_five : List Order
ran_five = runs_five ++ goes 1 ∷ goes 1 ∷ []

pushed_five : contents (play first push_five).last ≡ (5, 7) ∷ []
unfolding play first advance note start queue_init difference
pushed_five = refl

running_five : (play first runs_five).last.pc 1 ≡ Pc.running 0 5 7
unfolding play first advance note start queue_init difference
running_five = refl

ran : (play first ran_five).last.pc 1 ≡ Pc.worked 0
unfolding play first advance note start queue_init difference
ran = refl

at_run : System
at_run = (play first runs_five).last

thirteen_steps : (play first runs_five).steps ≡ 13
unfolding play first advance note start queue_init difference
thirteen_steps = refl

few : (play first runs_five).steps < 2 ^ 64
few = omega (arith, thirteen_steps)

owned_alone_example : ◌≡◌ {A = ℕ} 1 1
owned_alone_example =
    owned_alone few (play first runs_five).reach 1 1 0 0 (ap owned running_five)
      (ap owned running_five) refl

running_lem_example :
    (5 ≡ (play first runs_five).last.history.func 0)
    × (7 ≡ (play first runs_five).last.history.arg 0)
    × ((play first runs_five).last.history.returned 0 ≡ false)
    × (0 < (play first runs_five).last.queue.tail)
    × ((j g b : ℕ) → (play first runs_five).last.pc j ≡ Pc.running 0 g b → j ≡ 1)
running_lem_example = running_lem few (play first runs_five).reach 1 0 5 7 running_five

published_five : (play first ran_five).last.history.published 0 ≡ true
unfolding play first advance note start queue_init difference
published_five = refl

done_five : task_done (play first ran_five).last.queue (id_of 0) ≡ true
unfolding play first advance note start queue_init difference task_done id_of
done_five = refl

not_done_yet : task_done (play first runs_five).last.queue (id_of 0) ≡ false
unfolding play first advance note start queue_init difference task_done id_of
not_done_yet = refl

fifteen_steps : (play first ran_five).steps ≡ 15
unfolding play first advance note start queue_init difference
fifteen_steps = refl

few_more : (play first ran_five).steps < 2 ^ 64
few_more = omega (arith, fifteen_steps)

task_done-returned_example : (play first ran_five).last.history.returned 0 ≡ true
task_done-returned_example =
    task_done-returned few_more (play first ran_five).reach 0 published_five done_five

ten_steps : (play first about_to_pop).steps ≡ 10
unfolding play first advance note start queue_init difference
ten_steps = refl

few_to_pop : suc (play first about_to_pop).steps < 2 ^ 64
few_to_pop = omega (arith, ten_steps)

abbrev popping : System
popping = (play first about_to_pop).last

Step-Act_example : Act popping (go popping 1 (advance false popping.queue (popping.pc 1)))
Step-Act_example = Step-Act few_to_pop (play first about_to_pop).reach (turn 1 false)

length-contents_example :
    (at_run.queue.head ≡ at_run.queue.tail + length (contents at_run))
    × (length (contents at_run) ≤ queue_max)
unfolding at_run
length-contents_example = length-contents few (play first runs_five).reach
