-- ===== src/Process/Scheduler.antt =====
-- kernel/src/process/scheduler.rs, `Scheduler`: 256 run queues under a bitmap of the ones that are
-- not empty. A method returns the scheduler beside its result; counters are 64 bits wide.
pub mod Refine
pub mod Pick
pub mod Stuck
mod Tests
use star_os_kernel.Prelude.{
  ℕ, zero, suc, ◌+◌, ◌-◌, ◌*◌, ◌%◌, ◌^◌, Bool, true, false, Option, none, some, Array, store,
  Result, ok, err, ltb, ◌==◌, if◌then◌else◌,
}
use star_os_kernel.Error.{KernelError, process, process_not_found}
use star_os_kernel.Process.Ids.{TaskId, Priority}
use star_os_kernel.Process.RunQueue
use star_os_kernel.Process.RunQueue.{RunQueue, is_task}
use star_os_kernel.Process.PriorityBitmap
use star_os_kernel.Process.PriorityBitmap.{PriorityBitmap}

abbrev pub default_quantum : ℕ
default_quantum = 10

abbrev pub rt_min_quantum : ℕ
rt_min_quantum = 1

pub record SchedulerStats : Type 0 where
  pub total_switches : ℕ
  pub total_tasks : ℕ
  pub ready_tasks : ℕ
  pub running_tasks : ℕ
  pub blocked_tasks : ℕ

pub record Scheduler : Type 0 where
  pub run_queues : Array RunQueue
  pub priority_bitmap : PriorityBitmap
  pub current : Option TaskId
  pub current_priority : Option Priority
  pub idle_task : Option TaskId
  pub stats : SchedulerStats
  pub switches : ℕ
  pub slice_remaining : ℕ
  pub need_resched : Bool

unfoldable pub new : Scheduler
unfolding RunQueue.new PriorityBitmap.new
new = record {
  run_queues = λ p. RunQueue.new;
  priority_bitmap = PriorityBitmap.new;
  current = none;
  current_priority = none;
  idle_task = none;
  stats = record {
    total_switches = 0;
    total_tasks = 0;
    ready_tasks = 0;
    running_tasks = 0;
    blocked_tasks = 0;
  };
  switches = 0;
  slice_remaining = default_quantum;
  need_resched = false;
}

-- `x += 1` on a 64-bit counter.
abbrev pub increment : ℕ → ℕ
increment x = (x + 1) % 2 ^ 64

abbrev pub is_some : Option TaskId → Bool
is_some none = false
is_some (some t) = true

unfoldable pub tick : Scheduler → Scheduler × Bool
tick s =
    if is_some s.current
    then (let slice : ℕ = s.slice_remaining - 1 in
        let expired : Bool = if slice == 0 then true else s.need_resched in
        (record s { slice_remaining = slice; need_resched = expired }, expired))
    else (s, false)

unfoldable pub quantum_for_priority : Priority → ℕ
quantum_for_priority p =
    if ltb p 32
    then rt_min_quantum + p
    else if ltb p 128
    then default_quantum
    else default_quantum * 2

-- What `enqueue` does with the queue that it pushed to.
unfoldable pub accept :
    Scheduler
    → Priority
    → RunQueue × Result (Unit {0}) KernelError
    → Scheduler × Result (Unit {0}) KernelError
accept s priority (q, ok _) = (
  record s {
    run_queues = store s.run_queues priority q;
    priority_bitmap = PriorityBitmap.set s.priority_bitmap priority;
    stats = record (s.stats) { ready_tasks = increment (s.stats.ready_tasks) };
  },
  ok tt,
)
accept s priority (q, err e) = (record s { run_queues = store s.run_queues priority q }, err e)

unfoldable pub enqueue : Scheduler → TaskId → Priority → Scheduler × Result (Unit {0}) KernelError
unfolding accept
enqueue s task_id priority = accept s priority (RunQueue.push (s.run_queues priority) task_id)

-- `if self.run_queues[prio].is_empty() { self.priority_bitmap.clear(prio) }` for the queue `q`.
unfoldable pub clear_if_empty : PriorityBitmap → RunQueue → Priority → PriorityBitmap
clear_if_empty bits q priority =
    if RunQueue.is_empty q then PriorityBitmap.clear bits priority else bits

-- What `dequeue` does with the queue that it searched.
unfoldable pub release : Scheduler → Priority → RunQueue × Bool → Scheduler × Bool
release s priority (q, true) = (
  record s {
    run_queues = store s.run_queues priority q;
    priority_bitmap = clear_if_empty s.priority_bitmap q priority;
    stats = record (s.stats) { ready_tasks = s.stats.ready_tasks - 1 };
  },
  true,
)
release s priority (q, false) = (record s { run_queues = store s.run_queues priority q }, false)

unfoldable pub dequeue : Scheduler → TaskId → Priority → Scheduler × Bool
unfolding release
dequeue s task_id priority = release s priority (RunQueue.remove (s.run_queues priority) task_id)

-- The first half of `schedule`: a current task whose slice is used up goes back to its queue. The
-- result of `enqueue` is dropped.
unfoldable pub requeue : Scheduler → TaskId → Priority → Scheduler
requeue s task_id priority =
    let s' = (enqueue s task_id priority).0 in
    record s' {
      current = none;
      current_priority = none;
      stats = record (s'.stats) { running_tasks = s'.stats.running_tasks - 1 };
    }

unfoldable pub requeue_expired : Scheduler → Scheduler
requeue_expired s = elim s.current [
  | none ↦ s
  | some task_id ↦ elim s.current_priority [
    | none ↦ s
    | some priority ↦ if s.slice_remaining == 0 then requeue s task_id priority else s
  ]
]

-- What `schedule` does with the queue that it popped.
unfoldable pub take_task :
    Scheduler → Priority → RunQueue × Option TaskId → Scheduler × Option TaskId
take_task s priority (q, none) = (record s { run_queues = store s.run_queues priority q }, none)
take_task s priority (q, some task_id) = (
  record s {
    run_queues = store s.run_queues priority q;
    priority_bitmap = clear_if_empty s.priority_bitmap q priority;
    stats = record (s.stats) {
      ready_tasks = s.stats.ready_tasks - 1;
      running_tasks = increment (s.stats.running_tasks);
    };
    slice_remaining = quantum_for_priority priority;
  },
  some task_id,
)

-- The second half of `schedule`.
unfoldable pub pick : Scheduler → Scheduler × Option TaskId
unfolding take_task
pick s = elim (PriorityBitmap.find_highest s.priority_bitmap) [
  | none ↦ (s, none)
  | some priority ↦ take_task s priority (RunQueue.pop (s.run_queues priority))
]

unfoldable pub schedule : Scheduler → Scheduler × Option TaskId
schedule s = pick (requeue_expired (record s { need_resched = false }))

-- `self.current == Some(task_id)`, and what the methods do when it is.
abbrev pub leave_current : Scheduler → Scheduler
leave_current s = record s {
  current = none;
  stats = record (s.stats) { running_tasks = s.stats.running_tasks - 1 };
}

unfoldable pub yield_current :
    Scheduler → TaskId → Priority → Scheduler × Result (Unit {0}) KernelError
yield_current s task_id priority =
    enqueue (if is_task s.current task_id then leave_current s else s) task_id priority

unfoldable pub block : Scheduler → TaskId → Scheduler × Result (Unit {0}) KernelError
block s task_id =
    if is_task s.current task_id
    then (let s' : Scheduler = leave_current s in
        (
          record s' {
            stats = record (s'.stats) { blocked_tasks = increment (s'.stats.blocked_tasks) };
          },
          ok tt,
        ))
    else (s, err (process process_not_found))

unfoldable pub wake : Scheduler → TaskId → Priority → Scheduler × Result (Unit {0}) KernelError
wake s task_id priority =
    enqueue (record s { stats = record (s.stats) { blocked_tasks = s.stats.blocked_tasks - 1 } })
      task_id priority

abbrev pub forget_task : Scheduler → Scheduler
forget_task s = record s { stats = record (s.stats) { total_tasks = s.stats.total_tasks - 1 } }

unfoldable pub remove : Scheduler → TaskId → Priority → Scheduler × Bool
remove s task_id priority =
    if is_task s.current task_id
    then (forget_task (leave_current s), true)
    else (let (s', removed) = dequeue s task_id priority in
        if removed then (forget_task s', true) else (s', false))

unfoldable pub set_current : Scheduler → TaskId → Scheduler
set_current s task_id = record s {
  current = some task_id;
  switches = increment s.switches;
  stats = record (s.stats) { total_switches = increment (s.stats.total_switches) };
}

unfoldable pub set_current_with_priority : Scheduler → TaskId → Priority → Scheduler
set_current_with_priority s task_id priority = record (set_current s task_id) {
  current_priority = some priority;
}

unfoldable pub set_idle_task : Scheduler → TaskId → Scheduler
set_idle_task s task_id = record s { idle_task = some task_id }

unfoldable pub has_ready_tasks : Scheduler → Bool
has_ready_tasks s = is_some (PriorityBitmap.find_highest s.priority_bitmap)

unfoldable pub tasks_at_priority : Scheduler → Priority → ℕ
tasks_at_priority s priority = RunQueue.len (s.run_queues priority)
