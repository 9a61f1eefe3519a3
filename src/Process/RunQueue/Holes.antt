-- ===== src/Process/RunQueue/Holes.antt =====
-- `remove` of kernel/src/process/scheduler.rs leaves an empty slot and does not move `head` or `tail`.
use native.Mathlib.Decide.{ℕ_discrete}
use star_os_kernel.Prelude.{
  ℕ, zero, suc, ◌+◌, ◌-◌, ◌%◌, ◌^◌, ◌<◌, ◌≤◌, ◌≡◌, ◌≢◌, refl, ap, ◌∙◌, List, [], ◌∷◌, true, false,
  Option, none, some, Array, store, ok, arith,
}
use star_os_kernel.Process.Ids.{TaskId}
use star_os_kernel.Process.RunQueue.{RunQueue, push, pop, remove, find_slot, is_task}
use star_os_kernel.Process.RunQueue.Fifo.{Represents, pop_count, pop_zero, push_room, pushed}

is_task-true : (o : Option TaskId) (t : TaskId) → o ≡ some t → is_task o t ≡ true
is_task-true o t e = ground arith

is_task-false : (o : Option TaskId) (t : TaskId) → o ≢ some t → is_task o t ≡ false
is_task-false o t ne = ground arith

-- The search stops at a slot that holds the task where no earlier slot does.
find_slot_first :
    (tasks : Array (Option TaskId)) (t : TaskId) (left i h : ℕ)
    → i ≤ h
    → h < i + left
    → tasks h ≡ some t
    → ((j : ℕ) → j < h → tasks j ≢ some t)
    → find_slot tasks t left i ≡ some h
unfolding find_slot
find_slot_first tasks t zero i h lo hi at first = absurd (omega arith)
find_slot_first tasks t (suc left) i h lo hi at first = elim (ℕ_discrete i h) [
  | yes e ↦ rw (is_task-true (tasks i) t (ap tasks e ∙ at)) (ap some e)
  | no ne ↦
      rw (is_task-false (tasks i) t (first i (omega arith)))
        (find_slot_first tasks t left (i + 1) h (omega arith) (omega arith) at first)
]

abbrev pub removed : RunQueue → RunQueue
removed q = record q { tasks = store q.tasks q.head none; count = (q.count + 2 ^ 64 - 1) % 2 ^ 64 }

-- `remove` of the oldest task, where no earlier slot holds it too.
pub remove_oldest :
    (q : RunQueue) (x : TaskId) (xs : List TaskId)
    → Represents q (x ∷ xs)
    → ((j : ℕ) → j < q.head → q.tasks j ≢ some x)
    → remove q x ≡ (removed q, true)
unfolding remove
remove_oldest q x xs r first =
    rw (find_slot_first q.tasks x 64 0 q.head (omega arith) (omega arith) r.holds.0 first, remove)

pub pop-none : (q : RunQueue) → 0 < q.count → q.tasks q.head ≡ none → (pop q).1 ≡ none
pop-none q h e = rw (pop_count q h) e

pop_empty : (q : RunQueue) → q.count ≡ 0 → (pop q).1 ≡ none
pop_empty q e = rw (pop_zero q e)

pub pushed_hole :
    (q : RunQueue) (x y : TaskId)
    → Represents q (x ∷ [])
    → (pushed (removed q) y).tasks q.head ≡ none
pushed_hole q x y r = ground (arith, r.counted, r.tail_at, r.head_in)

-- A task that is pushed after the only task of a queue was removed is accepted and never comes
-- out: the first `pop` takes the slot that the removed task left, and then the count is zero.
pub removal_loses_next :
    (q : RunQueue) (x y : TaskId)
    → Represents q (x ∷ [])
    → ((j : ℕ) → j < q.head → q.tasks j ≢ some x)
    → let (r, answer) = push (remove q x).0 y in
      (answer ≡ ok tt) × ((pop r).1 ≡ none) × ((pop r).0.count ≡ 0) × ((pop (pop r).0).1 ≡ none)
removal_loses_next q x y r first =
    rw (remove_oldest q x [] r first, push_room (removed q) y (omega (arith, r.counted)))
      (refl, pop-none lost one (pushed_hole q x y r), left_none, pop_empty (pop lost).0 left_none)
  where
    lost : RunQueue
    lost = pushed (removed q) y

    one : 0 < lost.count
    one = omega (arith, r.counted)

    left_none : (pop lost).0.count ≡ 0
    left_none = rw (pop_count lost one) (omega (arith, r.counted))
