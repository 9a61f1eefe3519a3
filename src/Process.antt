-- ===== src/Process.antt =====
-- kernel/src/process: message passing, signals, shared memory, the scheduler and its queues, tasks.
pub mod Ids
pub mod MessageQueue
pub mod SharedMemory
pub mod SignalManager
pub mod RunQueue
pub mod PriorityBitmap
pub mod Semaphore
pub mod Scheduler
pub mod Mutex
pub mod RwLock
pub mod Task
