-- ===== src/Memory/Slab/Tests.antt =====
-- The slab allocator of kernel/src/memory/heap.rs at a concrete state.
use star_os_kernel.Prelude.{◌≤◌, arith}
use star_os_kernel.Memory.Slab.{SlabAllocator, new, init, sizes, size_to_slab, alloc}
use star_os_kernel.Memory.Slab.Sizes.{init-IsReady}
use star_os_kernel.Memory.Slab.Serve.{Serves, alloc-Serves}
use star_os_kernel.Memory.Physical
use star_os_kernel.Memory.Buddy

abbrev fresh : SlabAllocator
fresh = init (new (Buddy.new (Physical.new 16777216 4096)))

alloc-Serves_example :
    Serves fresh (size_to_slab 100) (alloc fresh 100) × (100 ≤ sizes (size_to_slab 100))
alloc-Serves_example =
    alloc-Serves fresh 100 (init-IsReady (new (Buddy.new (Physical.new 16777216 4096))))
      (omega arith) (omega arith)
