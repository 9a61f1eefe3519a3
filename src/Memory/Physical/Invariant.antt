-- ===== src/Memory/Physical/Invariant.antt =====
-- The invariant of the allocator of kernel/src/memory/physical.rs, in terms of the marks of the pages.
use star_os_kernel.Prelude.{ℕ, ◌+◌, ◌*◌, ◌%◌, ◌^◌, ◌<◌, ◌≤◌, ◌≡◌, arith}
use star_os_kernel.Words.Bits.{bit-zero}
use star_os_kernel.Words.Marks.{mark, AreWords, count_clear, count_clear-all}
use star_os_kernel.Memory.Physical.{
  PhysicalAllocator, PhysAddr, page_size, max_pages, bitmap_len, new, page_addr,
}

-- No more pages than the bitmap has bits, none of whose words is wider than 64 bits; the count of
-- free pages is that of the clear marks below `total_pages`; no page from `total_pages` on is
-- marked; and the memory ends within the address space.
abbrev pub IsValid : PhysicalAllocator → Type 0
IsValid a =
    (a.total_pages ≤ max_pages)
    × AreWords bitmap_len a.bitmap
    × (a.free_count ≡ count_clear a.bitmap a.total_pages)
    × ((r : ℕ) → a.total_pages ≤ r → mark a.bitmap r ≡ 0)
    × (a.base_addr + a.total_pages * page_size ≤ 2 ^ 64)

pub new-IsValid :
    (base_addr : PhysAddr) (total_pages : ℕ)
    → total_pages ≤ max_pages
    → base_addr + total_pages * page_size ≤ 2 ^ 64
    → IsValid (new base_addr total_pages)
unfolding new
new-IsValid base_addr total_pages fits ends = (
  fits,
  λ k hk. omega arith,
  omega (arith, count_clear-all (λ i. 0) total_pages (λ r. bit-zero (r % 64))),
  λ r hr. bit-zero (r % 64),
  ends,
)

-- The address of a page below `total_pages` does not wrap.
pub page_addr_eq :
    (a : PhysicalAllocator) (p : ℕ)
    → IsValid a
    → p < a.total_pages
    → page_addr a p ≡ a.base_addr + p * page_size
unfolding page_addr
page_addr_eq a p (fits, words, count, beyond, ends) hp = omega arith
