-- ===== src/Process/RunQueue.antt =====
-- kernel/src/process/scheduler.rs, `RunQueue`: the tasks of one priority in a ring of 64 slots.
pub mod Fifo
pub mod Holes
mod Tests
use star_os_kernel.Prelude.{
  ℕ, zero, suc, ◌+◌, ◌-◌, ◌%◌, ◌^◌, Bool, true, false, Option, none, some, Array, store, Result, ok,
  err, leb, ◌==◌, if◌then◌else◌,
}
use star_os_kernel.Process.Ids.{TaskId}
use star_os_kernel.Error.{KernelError, process, too_many_processes}

pub record RunQueue : Type 0 where
  pub tasks : Array (Option TaskId)
  pub head : ℕ
  pub tail : ℕ
  pub count : ℕ

unfoldable pub new : RunQueue
new = record { tasks = λ i. none; head = 0; tail = 0; count = 0 }

unfoldable pub push : RunQueue → TaskId → RunQueue × Result (Unit {0}) KernelError
push q task_id = if leb 64 q.count then (q, err (process too_many_processes)) else (
  record q {
    tasks = store q.tasks q.tail (some task_id);
    tail = (q.tail + 1) % 64;
    count = q.count + 1;
  },
  ok tt,
)

unfoldable pub pop : RunQueue → RunQueue × Option TaskId
pop q = if q.count == 0 then (q, none) else (
  record q { tasks = store q.tasks q.head none; head = (q.head + 1) % 64; count = q.count - 1 },
  q.tasks q.head,
)

unfoldable pub is_empty : RunQueue → Bool
is_empty q = q.count == 0

unfoldable pub len : RunQueue → ℕ
len q = q.count

-- `self.tasks[i] == Some(task_id)`
abbrev pub is_task : Option TaskId → TaskId → Bool
is_task none t = false
is_task (some x) t = x == t

-- The loop of `remove`: the first slot from `i` on, `left` slots at most, that holds the task.
unfoldable pub find_slot : Array (Option TaskId) → TaskId → ℕ → ℕ → Option ℕ
find_slot tasks t zero i = none
find_slot tasks t (suc left) i =
    let rest = find_slot tasks t left (i + 1) in if is_task (tasks i) t then some i else rest

-- `count -= 1` on a `usize`, which wraps at 0.
unfoldable pub remove : RunQueue → TaskId → RunQueue × Bool
remove q t = elim (find_slot q.tasks t 64 0) [
  | none ↦ (q, false)
  | some i ↦
      (record q { tasks = store q.tasks i none; count = (q.count + 2 ^ 64 - 1) % 2 ^ 64 }, true)
]
