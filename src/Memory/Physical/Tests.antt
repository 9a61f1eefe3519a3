-- ===== src/Memory/Physical/Tests.antt =====
-- The page allocator at concrete states.
use star_os_kernel.Prelude.{
  ℕ, ◌+◌, ◌*◌, ◌≡◌, ◌⊎◌, refl, ok, err, if◌then◌else◌, ◌==◌, true, false, arith,
}
use star_os_kernel.Words.{bit, set_bit}
use star_os_kernel.Words.Marks.{mark}
use star_os_kernel.Error.{memory, out_of_memory, invalid_alignment}
use star_os_kernel.Memory.Physical.{
  PhysicalAllocator, new, alloc_page, free_page, page_size, is_aligned,
}
use star_os_kernel.Memory.Physical.Invariant.{IsValid, new-IsValid}
use star_os_kernel.Memory.Physical.Page.{IsFirstFree, taken, taken-IsValid, alloc_page_cases}
use star_os_kernel.Memory.Physical.Run.{Takes, alloc_pages_first_fit}
use star_os_kernel.Memory.Physical.Release.{Frees, free_page_cases}
use star_os_kernel.Memory.Physical.ReleaseRun.{ReleasesRun, free_pages_run}

-- 100 pages from 2 MB on, of which the first and the third are taken.
abbrev fresh : PhysicalAllocator
fresh = new 2097152 100

abbrev used : PhysicalAllocator
used = taken (taken fresh 0) 2

fresh-IsValid : IsValid fresh
fresh-IsValid = new-IsValid 2097152 100 (omega arith) (omega arith)

used-IsValid : IsValid used
unfolding new bit set_bit
used-IsValid =
    taken-IsValid (taken fresh 0) 2 (taken-IsValid fresh 0 fresh-IsValid (omega arith) refl)
      (omega arith) refl

third_page : mark used.bitmap 2 ≡ 1
unfolding new bit set_bit
third_page = refl

alloc_page_cases_example :
    ((used.free_count ≡ 0) × (alloc_page used ≡ (used, err (memory out_of_memory))))
    ⊎ ((p : ℕ) × IsFirstFree used p
        × (alloc_page used ≡ (taken used p, ok (2097152 + p * page_size)))
        × ((r : ℕ) → mark (taken used p).bitmap r ≡ (if r == p then 1 else mark used.bitmap r))
        × IsValid (taken used p))
unfolding new
alloc_page_cases_example = alloc_page_cases used used-IsValid

alloc_pages_first_fit_example : Takes used 5
alloc_pages_first_fit_example = alloc_pages_first_fit used 5 used-IsValid (omega arith)

free_page_cases_example :
    ((is_aligned 2105344 ≡ false)
      × (free_page used 2105344 ≡ (used, err (memory invalid_alignment))))
    ⊎ ((is_aligned 2105344 ≡ true) × Frees used 2105344)
free_page_cases_example = free_page_cases used 2105344 used-IsValid

aligned : is_aligned 2105344 ≡ true
unfolding is_aligned
aligned = refl

free_pages_run_example : ReleasesRun used 2105344 1 2
unfolding new
free_pages_run_example =
    free_pages_run used 2105344 1 2 used-IsValid (omega arith) aligned
      (omega arith, refl, omega arith)
