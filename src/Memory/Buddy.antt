-- ===== src/Memory/Buddy.antt =====
-- `BuddyAllocator` of kernel/src/memory/heap.rs. The free blocks of an order, which the code links
-- through the blocks themselves, are the list of their addresses.
pub mod Cover
pub mod Alloc
pub mod Free
pub mod Fresh
pub mod History
mod Tests
use Prim.Native.Nat.{bit_xor}
use star_os_kernel.Prelude.{
  ℕ, zero, suc, ◌+◌, ◌-◌, ◌*◌, ◌^◌, Bool, true, false, List, [], ◌∷◌, Array, store, Result, ok, err,
  ltb, leb, ◌==◌, if◌then◌else◌,
}
use star_os_kernel.Error.{KernelError, memory, invalid_size}
use star_os_kernel.Memory.Physical.{PhysAddr, PhysicalAllocator, alloc_pages}

pub record BuddyAllocator : Type 0 where
  pub free_lists : Array (List PhysAddr)
  pub allocator : PhysicalAllocator

unfoldable pub new : PhysicalAllocator → BuddyAllocator
new allocator = record { free_lists = λ order. []; allocator = allocator }

-- `4096 << order`
abbrev pub block_size : ℕ → ℕ
block_size order = 4096 * 2 ^ order

-- A block becomes the first of the list of an order.
unfoldable pub push_block : BuddyAllocator → PhysAddr → ℕ → BuddyAllocator
push_block b block order = record b {
  free_lists = store b.free_lists order (block ∷ b.free_lists order);
}

-- The callers pass a `from_order` that is not below `to_order`.
unfoldable pub split_block :
    BuddyAllocator → PhysAddr → ℕ → ℕ → BuddyAllocator × Result PhysAddr KernelError
split_block b ptr zero to_order = (b, ok ptr)
split_block b ptr (suc split_order) to_order =
    let b' = push_block b (ptr + block_size split_order) split_order in
    let rest = split_block b' ptr split_order to_order in
    if suc split_order == to_order then (b, ok ptr) else rest

-- `alloc` where no list has a block.
unfoldable pub alloc_fresh :
    BuddyAllocator
    → PhysicalAllocator × Result PhysAddr KernelError
    → BuddyAllocator × Result PhysAddr KernelError
alloc_fresh b (allocator', r) = (record b { allocator = allocator' }, r)

-- What the search of `alloc` does with the list of a higher order, where `search` is the rest.
unfoldable pub split_first :
    BuddyAllocator
    → ℕ
    → ℕ
    → BuddyAllocator × Result PhysAddr KernelError
    → List PhysAddr
    → BuddyAllocator × Result PhysAddr KernelError
split_first b higher_order order search [] = search
split_first b higher_order order search (block ∷ rest) =
    split_block (record b { free_lists = store b.free_lists higher_order rest }) block higher_order
      order

-- The loop of `alloc` over the higher orders, and the end of `alloc` behind it.
unfoldable pub alloc_higher :
    BuddyAllocator → ℕ → ℕ → ℕ → BuddyAllocator × Result PhysAddr KernelError
alloc_higher b order zero higher_order = alloc_fresh b (alloc_pages b.allocator (2 ^ order))
alloc_higher b order (suc left) higher_order =
    split_first b higher_order order (alloc_higher b order left (higher_order + 1))
      (b.free_lists higher_order)

unfoldable pub alloc_first :
    BuddyAllocator → ℕ → List PhysAddr → BuddyAllocator × Result PhysAddr KernelError
alloc_first b order [] = alloc_higher b order (10 - order) (order + 1)
alloc_first b order (block ∷ rest) =
    (record b { free_lists = store b.free_lists order rest }, ok block)

unfoldable pub alloc : BuddyAllocator → ℕ → BuddyAllocator × Result PhysAddr KernelError
alloc b order =
    if leb 11 order
    then (b, err (memory invalid_size))
    else alloc_first b order (b.free_lists order)

unfoldable pub buddy_of : PhysAddr → ℕ → PhysAddr
buddy_of ptr order = bit_xor ptr (block_size order)

unfoldable pub is_listed : PhysAddr → List PhysAddr → Bool
is_listed ptr [] = false
is_listed ptr (block ∷ rest) =
    let later = is_listed ptr rest in if block == ptr then true else later

unfoldable pub is_free : BuddyAllocator → PhysAddr → ℕ → Bool
is_free b ptr order = is_listed ptr (b.free_lists order)

unfoldable pub unlink : PhysAddr → List PhysAddr → List PhysAddr
unlink target [] = []
unlink target (block ∷ rest) =
    let later = unlink target rest in if block == target then rest else block ∷ later

unfoldable pub remove_from_list : BuddyAllocator → PhysAddr → ℕ → BuddyAllocator
remove_from_list b ptr order = record b {
  free_lists = store b.free_lists order (unlink ptr (b.free_lists order));
}

-- `free` calls itself with the next order while the buddy is free; `left` orders are left.
unfoldable pub free_from :
    BuddyAllocator → PhysAddr → ℕ → ℕ → BuddyAllocator × Result (Unit {0}) KernelError
free_from b ptr zero order = (b, err (memory invalid_size))
free_from b ptr (suc left) order =
    let buddy_ptr = buddy_of ptr order in
    let coalesced = if ltb ptr buddy_ptr then ptr else buddy_ptr in
    let higher = free_from (remove_from_list b buddy_ptr order) coalesced left (order + 1) in
    if is_free b buddy_ptr order then higher else (push_block b ptr order, ok tt)

unfoldable pub free : BuddyAllocator → PhysAddr → ℕ → BuddyAllocator × Result (Unit {0}) KernelError
free b ptr order = free_from b ptr (11 - order) order
