-- ===== src/Memory.antt =====
-- kernel/src/memory: the allocator of physical pages, and page tables.
pub mod Physical
pub mod Buddy
pub mod Slab
pub mod Heap
pub mod PageTable
pub mod VirtualMemory
