-- ===== src/Memory/Heap/Tests.antt =====
-- The heap of kernel/src/memory/heap.rs at a concrete state.
use star_os_kernel.Prelude.{◌≡◌, inl, inr, arith}
use star_os_kernel.Memory.Heap.{HeapAllocator, Layout, null, new, alloc}
use star_os_kernel.Memory.Heap.Refusal.{never_served}
use star_os_kernel.Memory.Physical

abbrev heap : HeapAllocator
heap = new (Physical.new 16777216 4096)

abbrev three_kilobytes : Layout
three_kilobytes = record { size = 3072; align = 8 }

never_served_example : (alloc heap three_kilobytes).1 ≡ null
never_served_example = never_served heap three_kilobytes (inr (inl (omega arith, omega arith)))
