-- ===== src/Memory/Heap.antt =====
-- `HeapAllocator` of kernel/src/memory/heap.rs. The slab allocator stands beside the buddy allocator
-- with the one that its own pointer leads to: the local variable of `new`, of which the field is a
-- copy. Both take pages of the same allocator. The static variable GLOBAL_HEAP is left out.
pub mod Refusal
mod Tests
use star_os_kernel.Prelude.{
  ℕ, ◌+◌, ◌-◌, ◌*◌, ◌/◌, ◌^◌, max, Bool, true, false, Result, ok, err, ltb, leb, ◌==◌,
  if◌then◌else◌,
}
use star_os_kernel.Words.{trailing_zeros}
use star_os_kernel.Error.{KernelError}
use star_os_kernel.Memory.Physical.{PhysAddr, PhysicalAllocator}
use star_os_kernel.Memory.Buddy.{BuddyAllocator}
use star_os_kernel.Memory.Slab.{SlabAllocator, next_power_of_two}
use star_os_kernel.Memory.Buddy
use star_os_kernel.Memory.Slab

-- `core::alloc::Layout`
pub record Layout : Type 0 where
  pub size : ℕ
  pub align : ℕ

pub record HeapAllocator : Type 0 where
  pub buddy : BuddyAllocator
  pub slab : SlabAllocator

abbrev pub null : PhysAddr
null = 0

unfoldable pub new : PhysicalAllocator → HeapAllocator
new allocator = record {
  buddy = Buddy.new allocator;
  slab = Slab.init (Slab.new (Buddy.new allocator));
}

-- `unwrap_or(ptr::null_mut())`
unfoldable pub or_null : Result PhysAddr KernelError → PhysAddr
or_null (ok p) = p
or_null (err e) = null

-- A step of the slab allocator, and of the buddy allocator: the other one sees the same pages.
unfoldable pub slab_step : HeapAllocator → SlabAllocator → HeapAllocator
slab_step h slab' = record {
  buddy = record (h.buddy) { allocator = slab'.buddy.allocator };
  slab = slab';
}

unfoldable pub buddy_step : HeapAllocator → BuddyAllocator → HeapAllocator
buddy_step h buddy' = record {
  buddy = buddy';
  slab = record (h.slab) { buddy = record (h.slab.buddy) { allocator = buddy'.allocator } };
}

unfoldable pub alloc_small : HeapAllocator → Layout → HeapAllocator × PhysAddr
alloc_small h layout =
    if ltb (next_power_of_two (max layout.size 8)) layout.align
    then (h, null)
    else let r = Slab.alloc h.slab layout.size in (slab_step h r.0, or_null r.1)

-- The order of a size: `(size + 4095) / 4096` pages, rounded up to a power of two.
unfoldable pub order_of : ℕ → ℕ
order_of size = trailing_zeros 64 (next_power_of_two ((size + 4095) / 4096))

unfoldable pub alloc_large : HeapAllocator → Layout → HeapAllocator × PhysAddr
alloc_large h layout =
    if leb (2 ^ 64) (layout.size + 4095)
    then (h, null)
    else if leb 11 (order_of layout.size)
    then (h, null)
    else let r = Buddy.alloc h.buddy (order_of layout.size) in (buddy_step h r.0, or_null r.1)

unfoldable pub alloc : HeapAllocator → Layout → HeapAllocator × PhysAddr
alloc h layout =
    if layout.size == 0
    then (h, null)
    else if ltb 4096 layout.align
    then (h, null)
    else if ltb layout.size 4096
    then alloc_small h layout
    else alloc_large h layout

unfoldable pub dealloc_large : HeapAllocator → PhysAddr → Layout → HeapAllocator
dealloc_large h ptr layout =
    if leb 11 (order_of layout.size)
    then h
    else buddy_step h (Buddy.free h.buddy ptr (order_of layout.size)).0

unfoldable pub dealloc : HeapAllocator → PhysAddr → Layout → HeapAllocator
dealloc h ptr layout =
    if ptr == null
    then h
    else if layout.size == 0
    then h
    else if ltb layout.size 4096
    then slab_step h (Slab.free h.slab ptr layout.size).0
    else dealloc_large h ptr layout
