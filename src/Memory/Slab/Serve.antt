-- ===== src/Memory/Slab/Serve.antt =====
-- `alloc` and `free` of the slabs of kernel/src/memory/heap.rs in terms of their free memory.
use star_os_kernel.Prelude.{
  ℕ, ◌+◌, ◌<◌, ◌≤◌, ◌≡◌, ◌⊎◌, inl, inr, refl, ap, ◌∙◌, false, ◌||◌, List, [], ◌∷◌, Result, ok, err,
  ltb, ◌==◌, arith,
}
use star_os_kernel.Error.{KernelError}
use star_os_kernel.Memory.Physical.{PhysAddr, alloc_pages}
use star_os_kernel.Memory.Buddy.{BuddyAllocator, block_size}
use star_os_kernel.Memory.Buddy.Cover.{inside, blocks_over}
use star_os_kernel.Memory.Buddy.Alloc.{Allocates, alloc-Allocates}
use star_os_kernel.Memory.Slab.{
  SlabAllocator, sizes, set_list, split_page, alloc_block, size_to_slab, alloc, free,
}
use star_os_kernel.Memory.Slab.Sizes.{IsReady, size_to_slab_fits}
use star_os_kernel.Memory.Buddy
use star_os_kernel.Memory.Slab.Cut.{
  free_over, cut_over, set_list-IsReady, taken_out, slab_cover-set_list, slab_cover_kept,
  cover_kept, buddy_kept,
}

-- What `alloc` of the slab `i` makes of the allocator: a block of the free memory; or a block of a
-- page that `alloc_pages` gave, the rest of which is free; or the error of `alloc_pages`.
abbrev pub Serves : SlabAllocator → ℕ → SlabAllocator × Result PhysAddr KernelError → Type 0
Serves s i r =
    IsReady r.0
    × (((block : PhysAddr) × (r.1 ≡ ok block)
          × (r.0.buddy.allocator ≡ s.buddy.allocator)
          × ((x : PhysAddr) → free_over r.0 x + inside block (sizes i) x ≡ free_over s x))
        ⊎ (((r.0.buddy.allocator ≡ (alloc_pages s.buddy.allocator 1).0)
              × (r.1 ≡ (alloc_pages s.buddy.allocator 1).1))
            × (((page : PhysAddr) × (r.1 ≡ ok page)
                  × ((x : PhysAddr)
                      → free_over r.0 x + inside page (sizes i) x
                        ≡ free_over s x + inside page 4096 x))
                ⊎ ((e : KernelError) × (r.1 ≡ err e)
                    × ((x : PhysAddr) → free_over r.0 x ≡ free_over s x)))))

pages_kept :
    (s : SlabAllocator) (i : ℕ) (l : List PhysAddr)
    → (set_list s i l).buddy.allocator ≡ s.buddy.allocator
unfolding set_list
pages_kept s i l = refl

put_back :
    (s : SlabAllocator) (i : ℕ) (ptr x : PhysAddr)
    → i < 9
    → free_over (set_list s i (ptr ∷ (s.slabs i).free_list)) x
      ≡ free_over s x + inside ptr (sizes i) x
unfolding free_over blocks_over
put_back s i ptr x h = omega (
  arith,
  slab_cover-set_list s i (ptr ∷ (s.slabs i).free_list) x h,
  cover_kept s i (ptr ∷ (s.slabs i).free_list) x,
)

module _ (s : SlabAllocator) (i : ℕ) (h : i < 9) (ready : IsReady s) where
  split_page-Serves :
      (r : BuddyAllocator × Result PhysAddr KernelError)
      → Allocates s.buddy 0 r
      → Serves s i (split_page s i r)
  unfolding split_page free_over
  split_page-Serves (b, ok page) (inl (block, f, a, g)) =
      (let same : page ≡ block = cc in
        (
          set_list-IsReady _ i _ ready,
          inl (
            page,
            refl,
            ap (λ (q : BuddyAllocator). q.allocator) (buddy_kept s i b page) ∙ a,
            λ x. omega (
              arith,
              cut_over s i b page x h ready,
              g x,
              ap (λ (q : PhysAddr). inside q 4096 x) same,
            ),
          ),
        ))
  split_page-Serves (b, err e) (inl (block, f, a, g)) = cc
  split_page-Serves (b, ok page) (inr (none_free, a, f, g)) = (
    set_list-IsReady _ i _ ready,
    inr (
      (ap (λ (q : BuddyAllocator). q.allocator) (buddy_kept s i b page) ∙ a, f),
      inl (page, refl, λ x. omega (arith, cut_over s i b page x h ready, g x)),
    ),
  )
  split_page-Serves (b, err e) (inr (none_free, a, f, g)) =
      (ready, inr ((a, f), inr (e, refl, λ x. omega (arith, slab_cover_kept s b x, g x))))

  alloc_block-Serves :
      (l : List PhysAddr) → (s.slabs i).free_list ≡ l → Serves s i (alloc_block s i l)
  unfolding alloc_block
  alloc_block-Serves [] e =
      split_page-Serves (Buddy.alloc s.buddy 0) (alloc-Allocates s.buddy 0 (omega arith))
  alloc_block-Serves (block ∷ rest) e = (
    set_list-IsReady s i rest ready,
    inl (block, refl, pages_kept s i rest, λ x. taken_out s i block rest x h e),
  )

-- After `init`, `alloc` of a size from 1 to 2048 leaves the sizes of the slabs as they are. It
-- returns a block of the slab of that size, whose blocks have at least `size` bytes. The block comes
-- out of the free memory of the two allocators, or out of a page that `alloc_pages` gave, the rest of
-- which is free from then on; every other address is free as before. Only where `alloc_pages` fails
-- does it return an error, the one of `alloc_pages`, and the free memory stays.
pub alloc-Serves :
    (s : SlabAllocator) (size : ℕ)
    → IsReady s
    → 1 ≤ size
    → size ≤ 2048
    → Serves s (size_to_slab size) (alloc s size) × (size ≤ sizes (size_to_slab size))
unfolding alloc
alloc-Serves s size ready lo hi =
    (let fits = size_to_slab_fits size lo hi in
      let test : ((size == 0) || ltb 2048 size) ≡ false = ground arith in
      (
        rw test (
            alloc_block-Serves s (size_to_slab size) fits.0 ready
              (s.slabs (size_to_slab size)).free_list refl),
        fits.1,
      ))

-- After `init`, `free` of a block of a size from 1 to 2048 succeeds: the free memory covers the
-- addresses of the block, which has the size of the slab, once more than before and every other
-- address as often as before, and the slabs keep their sizes.
pub free-adds :
    (s : SlabAllocator) (ptr : PhysAddr) (size : ℕ)
    → IsReady s
    → 1 ≤ size
    → size ≤ 2048
    → ((free s ptr size).1 ≡ ok tt)
      × IsReady (free s ptr size).0
      × ((x : PhysAddr)
          → free_over (free s ptr size).0 x
            ≡ free_over s x + inside ptr (sizes (size_to_slab size)) x)
unfolding free
free-adds s ptr size ready lo hi =
    (let fits = size_to_slab_fits size lo hi in
      let test : ((size == 0) || ltb 2048 size) ≡ false = ground arith in
      rw test (
        refl,
        set_list-IsReady s (size_to_slab size) _ ready,
        λ x. put_back s (size_to_slab size) ptr x fits.0,
      ))
