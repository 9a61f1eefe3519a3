-- ===== src/Process/Mutex.antt =====
-- `Mutex` of kernel/src/process/sync.rs, shared by threads. Each atomic access of `lock`, of
-- `try_lock` and of the guard's `drop` that changes an atomic is one step; between two steps any
-- other thread may run. A turn of the loop of `lock` that does not get the lock changes nothing: the
-- part for the priority of the holder is empty.
pub mod Exclusion
mod Tests
use star_os_kernel.Prelude.{ℕ, Bool, true, false, List, [], ◌∷◌, Array, store, if◌then◌else◌}
use star_os_kernel.Process.Ids.{TaskId, Priority}

-- The three atomics; the data behind the lock is not part of the model.
pub record Mutex : Type 0 where
  pub locked : Bool
  pub owner : TaskId
  pub original_priority : Priority

unfoldable pub new : Mutex
new = record { locked = false; owner = 0; original_priority = 255 }

-- Where a thread stands: outside; in `lock` or `try_lock` after the exchange that set `locked`, and
-- after the store of the owner; with a guard; in `unlock` after the store of the owner.
pub data Place : Type 0 where
  outside : Place
  locking : TaskId → Priority → Place
  owning : TaskId → Priority → Place
  holding : TaskId → Priority → Place
  unlocking : Place

pub record System : Type 0 where
  pub mutex : Mutex
  pub threads : Array Place

unfoldable pub start : System
start = record { mutex = new; threads = λ i. outside }

-- The next step of thread `i`, at a place. A thread outside tries to lock for a task; `spurious` says
-- that `compare_exchange_weak` fails though the lock is free.
unfoldable pub advance : System → ℕ → TaskId → Priority → Bool → Place → System
advance s i task_id priority true outside = s
advance s i task_id priority false outside = if s.mutex.locked then s else record {
  mutex = record (s.mutex) { locked = true };
  threads = store s.threads i (locking task_id priority);
}
advance s i task_id priority spurious (locking t p) = record {
  mutex = record (s.mutex) { owner = t };
  threads = store s.threads i (owning t p);
}
advance s i task_id priority spurious (owning t p) = record {
  mutex = record (s.mutex) { original_priority = p };
  threads = store s.threads i (holding t p);
}
advance s i task_id priority spurious (holding t p) = record {
  mutex = record (s.mutex) { owner = 0 };
  threads = store s.threads i unlocking;
}
advance s i task_id priority spurious unlocking = record {
  mutex = record (s.mutex) { locked = false };
  threads = store s.threads i outside;
}

-- Who runs, the task and priority of a call of `lock`, and whether the exchange fails.
pub record Turn : Type 0 where
  pub thread : ℕ
  pub task_id : TaskId
  pub priority : Priority
  pub spurious : Bool

unfoldable pub step : System → Turn → System
step s t = advance s t.thread t.task_id t.priority t.spurious (s.threads t.thread)

unfoldable pub run : System → List Turn → System
run s [] = s
run s (t ∷ rest) = run (step s t) rest
