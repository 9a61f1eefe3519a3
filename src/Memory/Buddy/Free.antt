-- ===== src/Memory/Buddy/Free.antt =====
-- `free` of the buddy allocator of kernel/src/memory/heap.rs.
use star_os_kernel.Prelude.{
  ℕ, zero, suc, ◌+◌, ◌-◌, ◌<◌, ◌≡◌, ◌⊎◌, inl, inr, refl, ap, true, Bool-cases, Result, ok, err, ltb,
  if◌then◌else◌, arith,
}
use star_os_kernel.Error.{KernelError, memory, invalid_size}
use star_os_kernel.Memory.Physical.{PhysAddr}
use star_os_kernel.Memory.Buddy.{
  BuddyAllocator, block_size, push_block, remove_from_list, is_free, buddy_of, free_from, free,
}
use star_os_kernel.Memory.Buddy.Cover.{
  inside, cover, cover-push_block, cover-remove_from_list, inside-coalesced,
}

-- What `free` makes of a block: either the free blocks cover it in addition to what they did, or it
-- reports an error, and the free blocks have lost a block of order 11 that contained it.
abbrev pub Released :
    BuddyAllocator → PhysAddr → ℕ → BuddyAllocator × Result (Unit {0}) KernelError → Type 0
Released b ptr order r =
    ((r.1 ≡ ok tt) × ((x : PhysAddr) → cover r.0 x ≡ cover b x + inside ptr (block_size order) x))
    ⊎ ((r.1 ≡ err (memory invalid_size))
        × (lost : PhysAddr) × ((x : PhysAddr)
            → cover r.0 x + inside lost (block_size 11) x
              ≡ cover b x + inside ptr (block_size order) x))

coalesced-Released :
    (b : BuddyAllocator) (ptr : PhysAddr) (order : ℕ)
    (r : BuddyAllocator × Result (Unit {0}) KernelError)
    → order < 11
    → is_free b (buddy_of ptr order) order ≡ true
    → Released
        (remove_from_list b (buddy_of ptr order) order)
        (if ltb ptr (buddy_of ptr order) then ptr else buddy_of ptr order)
        (order + 1)
        r
    → Released b ptr order r
coalesced-Released b ptr order r h merges (inl (e, f)) = inl (
  e,
  λ x. omega (
    arith,
    f x,
    inside-coalesced ptr order x,
    cover-remove_from_list b (buddy_of ptr order) order x h merges,
  ),
)
coalesced-Released b ptr order r h merges (inr (e, lost, f)) = inr (
  e,
  lost,
  λ x. omega (
    arith,
    f x,
    inside-coalesced ptr order x,
    cover-remove_from_list b (buddy_of ptr order) order x h merges,
  ),
)

free_from-Released :
    (b : BuddyAllocator) (ptr : PhysAddr) (left order : ℕ)
    → left + order ≡ 11
    → Released b ptr order (free_from b ptr left order)
unfolding free_from
free_from-Released b ptr zero order h =
    (let e : 11 ≡ order = omega arith in
      inr (refl, ptr, λ x. ap (λ (o : ℕ). cover b x + inside ptr (block_size o) x) e))
free_from-Released b ptr (suc left) order h =
    elim (Bool-cases (is_free b (buddy_of ptr order) order)) [
      | inl merges ↦ rw merges (
          coalesced-Released b ptr order _ (omega arith) merges (
            free_from-Released (remove_from_list b (buddy_of ptr order) order)
              (if ltb ptr (buddy_of ptr order) then ptr else buddy_of ptr order) left (order + 1)
              (omega arith)))
      | inr other ↦ rw other (inl (refl, λ x. cover-push_block b ptr order x (omega arith)))
    ]

-- `free` of a block of an order up to 10 either succeeds, and then the free blocks cover the
-- addresses of the block once more than before and every other address as often as before; or it
-- reports `InvalidSize`, and a block of order 11, which contains no address more often than the free
-- blocks and the freed block did together, is lost to the allocator.
pub free-Released :
    (b : BuddyAllocator) (ptr : PhysAddr) (order : ℕ)
    → order < 11
    → Released b ptr order (free b ptr order)
unfolding free
free-Released b ptr order h = free_from-Released b ptr (11 - order) order (omega arith)

-- A block of order 10 whose buddy is free is refused with `InvalidSize`, and the buddy is not free
-- any more: the free blocks cover its addresses once less, and every other address as often as
-- before.
pub free_loses :
    (b : BuddyAllocator) (ptr : PhysAddr)
    → is_free b (buddy_of ptr 10) 10 ≡ true
    → ((free b ptr 10).1 ≡ err (memory invalid_size))
      × ((x : PhysAddr)
          → cover (free b ptr 10).0 x + inside (buddy_of ptr 10) (block_size 10) x ≡ cover b x)
unfolding free free_from
free_loses b ptr merges =
    rw merges (refl, λ x. cover-remove_from_list b (buddy_of ptr 10) 10 x (omega arith) merges)

free_from-allocator :
    (b : BuddyAllocator) (ptr : PhysAddr) (left order : ℕ)
    → (free_from b ptr left order).0.allocator ≡ b.allocator
unfolding free_from remove_from_list push_block
free_from-allocator b ptr zero order = refl
free_from-allocator b ptr (suc left) order =
    elim (Bool-cases (is_free b (buddy_of ptr order) order)) [
      | inl merges ↦ rw merges (
          free_from-allocator (remove_from_list b (buddy_of ptr order) order)
            (if ltb ptr (buddy_of ptr order) then ptr else buddy_of ptr order) left (order + 1))
      | inr other ↦ rw other refl
    ]

-- `free` does not give pages back.
pub free-allocator :
    (b : BuddyAllocator) (ptr : PhysAddr) (order : ℕ) → (free b ptr order).0.allocator ≡ b.allocator
unfolding free
free-allocator b ptr order = free_from-allocator b ptr (11 - order) order
