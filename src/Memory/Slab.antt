-- ===== src/Memory/Slab.antt =====
-- `SlabAllocator` of kernel/src/memory/heap.rs. The free blocks of a size, which the code links
-- through the blocks themselves, are the list of their addresses. The allocator of pages stands in
-- the record in place of the pointer to it.
pub mod Sizes
pub mod Cut
pub mod Serve
mod Tests
use star_os_kernel.Prelude.{
  ℕ, zero, suc, ◌+◌, ◌-◌, ◌*◌, ◌/◌, ◌^◌, max, Bool, true, false, ◌||◌, List, [], ◌∷◌, Array, store,
  Result, ok, err, ltb, leb, ◌==◌, if◌then◌else◌,
}
use star_os_kernel.Words.{trailing_zeros}
use star_os_kernel.Error.{KernelError, memory, invalid_size}
use star_os_kernel.Memory.Physical.{PhysAddr}
use star_os_kernel.Memory.Buddy.{BuddyAllocator}
use star_os_kernel.Memory.Buddy

pub record Slab : Type 0 where
  pub size : ℕ
  pub free_list : List PhysAddr

pub record SlabAllocator : Type 0 where
  pub slabs : Array Slab
  pub buddy : BuddyAllocator

unfoldable pub new : BuddyAllocator → SlabAllocator
new buddy = record { slabs = λ i. record { size = 0; free_list = [] }; buddy = buddy }

-- `[8, 16, 32, 64, 128, 256, 512, 1024, 2048]`
abbrev pub sizes : ℕ → ℕ
sizes i = 8 * 2 ^ i

-- `init` after `n` turns of its loop.
unfoldable pub init_sizes : ℕ → Array Slab → Array Slab
init_sizes zero slabs = slabs
init_sizes (suc i) slabs =
    let slabs' = init_sizes i slabs in store slabs' i (record (slabs' i) { size = sizes i })

unfoldable pub init : SlabAllocator → SlabAllocator
init s = record s { slabs = init_sizes 9 s.slabs }

-- `usize::next_power_of_two`: the least power of two from `p` on that is not below `n`.
unfoldable pub next_power_from : ℕ → ℕ → ℕ → ℕ
next_power_from zero p n = p
next_power_from (suc left) p n =
    let rest = next_power_from left (p * 2) n in if leb n p then p else rest

abbrev pub next_power_of_two : ℕ → ℕ
next_power_of_two n = next_power_from 63 1 n

unfoldable pub size_to_slab : ℕ → ℕ
size_to_slab size = trailing_zeros 64 (next_power_of_two (max size 8)) - 3

-- The list of a slab after its blocks at `page + i * size` for `i` from 1 to `n` are put on it.
unfoldable pub cut_page : PhysAddr → ℕ → ℕ → List PhysAddr → List PhysAddr
cut_page page size zero l = l
cut_page page size (suc n) l = (page + suc n * size) ∷ cut_page page size n l

unfoldable pub set_list : SlabAllocator → ℕ → List PhysAddr → SlabAllocator
set_list s i l = record s { slabs = store s.slabs i (record (s.slabs i) { free_list = l }) }

unfoldable pub split_page :
    SlabAllocator
    → ℕ
    → BuddyAllocator × Result PhysAddr KernelError
    → SlabAllocator × Result PhysAddr KernelError
split_page s i (buddy', err e) = (record s { buddy = buddy' }, err e)
split_page s i (buddy', ok page) =
    let slab = s.slabs i in
    (
      set_list (record s { buddy = buddy' }) i
          (cut_page page slab.size (4096 / slab.size - 1) slab.free_list),
      ok page,
    )

unfoldable pub alloc_block :
    SlabAllocator → ℕ → List PhysAddr → SlabAllocator × Result PhysAddr KernelError
alloc_block s i [] = split_page s i (Buddy.alloc s.buddy 0)
alloc_block s i (block ∷ rest) = (set_list s i rest, ok block)

unfoldable pub alloc : SlabAllocator → ℕ → SlabAllocator × Result PhysAddr KernelError
alloc s size =
    if (size == 0) || ltb 2048 size
    then (s, err (memory invalid_size))
    else alloc_block s (size_to_slab size) (s.slabs (size_to_slab size)).free_list

unfoldable pub free : SlabAllocator → PhysAddr → ℕ → SlabAllocator × Result (Unit {0}) KernelError
free s ptr size =
    if (size == 0) || ltb 2048 size
    then (s, err (memory invalid_size))
    else (set_list s (size_to_slab size) (ptr ∷ (s.slabs (size_to_slab size)).free_list), ok tt)
