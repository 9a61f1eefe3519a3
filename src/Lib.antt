-- ===== src/Lib.antt =====
-- A model of the core of the StarOS kernel (kernel/src), with what makes it correct.
--
-- The kernel is a Rust crate. Its scheduler picks the running task by priority, tasks send each
-- other messages and signals and share memory, capabilities say what a task may do, the page
-- allocator hands out physical memory, page tables map addresses to it, the file system keeps files
-- in memory, and the ELF parser checks the programs to load. The parts call each other little: the
-- scheduler uses its run queues and the bitmap of their priorities, the task the states and limits
-- of its control block, the heap and the page tables the page allocator. Errors are those of
-- kernel/src/error.rs.
--
-- Which file models which part, with its children for the proofs:
--   Error                    kernel/src/error.rs
--   Process/Ids              TaskId and Priority of kernel/src/process/task.rs
--   Process/Task             Task, its states, stack and limits, of kernel/src/process/task.rs
--   Process/RunQueue         RunQueue, a ring of 64 tasks, of kernel/src/process/scheduler.rs
--   Process/PriorityBitmap   PriorityBitmap, 256 bits, of kernel/src/process/scheduler.rs
--   Process/Scheduler        Scheduler of kernel/src/process/scheduler.rs
--   Process/MessageQueue     Message and MessageQueue of kernel/src/process/ipc.rs
--   Process/SharedMemory     SharedMemory of kernel/src/process/ipc.rs
--   Process/SignalManager    Signal and SignalManager of kernel/src/process/ipc.rs
--   Process/Mutex            Mutex of kernel/src/process/sync.rs
--   Process/Semaphore        Semaphore of kernel/src/process/sync.rs
--   Process/RwLock           RwLock of kernel/src/process/sync.rs
--   AsyncIpc                 kernel/src/async_ipc.rs
--   Capabilities             kernel/src/capabilities.rs
--   Klog                     kernel/src/klog.rs
--   Memory/Physical          kernel/src/memory/physical.rs
--   Memory/PageTable         entries and tables of kernel/src/memory/virtual_mem.rs
--   Memory/VirtualMemory     VirtualMemory of kernel/src/memory/virtual_mem.rs
--   Memory/Buddy             BuddyAllocator of kernel/src/memory/heap.rs
--   Memory/Slab              SlabAllocator of kernel/src/memory/heap.rs
--   Memory/Heap              HeapAllocator of kernel/src/memory/heap.rs
--   Fs                       kernel/src/fs.rs
--   Elf                      kernel/src/elf.rs
--   UserSignals              kernel/src/signals.rs
--   Power                    kernel/src/power.rs
--   Ring                     the arithmetic of a ring of slots, which the two queues share
--   Words                    machine words, their bits, and bitmaps over several words
--   Prelude                  names of the libraries, lists, tests and Rust's Result
--
-- How the code is rendered. A struct is a record, an enum a data type, and a method that changes its
-- object returns the object beside its result. A definition has the name of the function that it
-- renders; a helper renders the part of a function behind a match or a loop. Machine integers are
-- natural numbers, with the wrap-around of their width written out: the release profile of
-- kernel/Cargo.toml sets overflow-checks to false. A fixed array is a function of the index, read
-- and written at indices in range, and a vector is a list. A panic, or a read out of bounds, is none
-- of an option where the code can reach one; the comment at `find_run` of Memory/Physical names an
-- exception, which the invariant of the page allocator excludes.
--
-- Loops recurse on the number of turns that they have left: 64 slots of a queue, 4 words of a
-- priority bitmap, 65536 words of the page bitmap, the pages of the memory, 256 inodes, the program
-- headers of a file, 4 levels of page tables, 11 orders of blocks, 63 doublings up to a power of two.
-- So every definition is total, and none needs fuel.
--
-- Pointers. The page tables lie in a memory of tables by page address, and a free list of the heap is
-- the list of the addresses of its blocks. The invariant of the page tables says that each table
-- lies in a page that the allocator gave out and that one path leads to it; the invariant of the
-- heap counts how many free or held blocks contain an address.
--
-- Atomics. Where a component is modelled as a state machine of one thread, an atomic access is a
-- plain one, and a compare-and-exchange on a value just read succeeds. The mutex, the semaphore, the
-- reader-writer lock and the asynchronous channel are modelled with all their threads: each atomic
-- access, and each access under a lock, is a step, and the results hold for every order of the
-- steps, sequentially consistent.
--
-- Not modelled: registers and instructions of the processor with the translation buffer, drivers and
-- other device access, the boot path, the network stack, cryptography, time, the dispatch of system
-- calls, the spinlock, and the foreign function interface.
pub mod AsyncIpc
pub mod Capabilities
pub mod Elf
pub mod Error
pub mod Fs
pub mod Klog
pub mod Memory
pub mod Power
pub mod Prelude
pub mod Process
pub mod Ring
pub mod UserSignals
pub mod Words
