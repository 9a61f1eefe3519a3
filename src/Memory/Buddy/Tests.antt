-- ===== src/Memory/Buddy/Tests.antt =====
-- The buddy allocator of kernel/src/memory/heap.rs at concrete states.
use star_os_kernel.Prelude.{◌+◌, ◌≡◌, refl, [], ◌∷◌, store, true, ok, err, arith}
use star_os_kernel.Words.{trailing_ones}
use star_os_kernel.Error.{memory, invalid_size}
use star_os_kernel.Memory.Physical.{PhysAddr, PhysicalAllocator}
use star_os_kernel.Memory.Physical.Invariant.{IsValid, new-IsValid}
use star_os_kernel.Memory.Buddy.{
  BuddyAllocator, block_size, new, alloc, alloc_first, alloc_higher, split_first, alloc_fresh, free,
  is_free, is_listed, buddy_of,
}
use star_os_kernel.Memory.Buddy.Cover.{inside, cover}
use star_os_kernel.Memory.Buddy.Alloc.{Allocates, alloc-Allocates}
use star_os_kernel.Memory.Buddy.Free.{Released, free-Released, free_loses}
use star_os_kernel.Memory.Buddy.History.{started, allocated, freed, NoOverlap, run-NoOverlap}
use star_os_kernel.Memory.Physical

-- 4096 pages from 16 MB on.
abbrev pages : PhysicalAllocator
pages = Physical.new 16777216 4096

pages-IsValid : IsValid pages
pages-IsValid = new-IsValid 16777216 4096 (omega arith) (omega arith)

-- A block of order 2, and one of order 10, are free.
abbrev two_free : BuddyAllocator
two_free = record (new pages) {
  free_lists = store (store (new pages).free_lists 2 (16777216 ∷ [])) 10 (20971520 ∷ []);
}

alloc-Allocates_example : Allocates two_free 0 (alloc two_free 0)
alloc-Allocates_example = alloc-Allocates two_free 0 (omega arith)

free-Released_example : Released two_free 16793600 2 (free two_free 16793600 2)
free-Released_example = free-Released two_free 16793600 2 (omega arith)

buddy_free : is_free two_free (buddy_of 16777216 10) 10 ≡ true
unfolding is_free is_listed buddy_of
buddy_free = refl

free_loses_example :
    ((free two_free 16777216 10).1 ≡ err (memory invalid_size))
    × ((x : PhysAddr)
        → cover (free two_free 16777216 10).0 x + inside (buddy_of 16777216 10) (block_size 10) x
          ≡ cover two_free x)
free_loses_example = free_loses two_free 16777216 buddy_free

first_page : (alloc (new pages) 0).1 ≡ ok 16777216
unfolding alloc new alloc_first alloc_higher split_first alloc_fresh Physical.alloc_pages
    Physical.alloc_page Physical.new Physical.alloc_from Physical.claim trailing_ones
    Physical.page_addr
first_page = refl

-- A page is taken and given back.
run-NoOverlap_example : NoOverlap (free (alloc (new pages) 0).0 16777216 0).0 []
run-NoOverlap_example =
    run-NoOverlap pages (free (alloc (new pages) 0).0 16777216 0).0 [] pages-IsValid
      (freed [] [] 0 16777216 (allocated started (omega arith) first_page) (omega arith))
