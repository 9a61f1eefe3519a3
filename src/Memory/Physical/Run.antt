-- ===== src/Memory/Physical/Run.antt =====
-- Runs of pages of kernel/src/memory/physical.rs: `alloc_pages` takes the first run that fits.
use native.Mathlib.Decide.{dec_lt}
use star_os_kernel.Prelude.{
  ℕ, zero, suc, ◌+◌, ◌-◌, ◌*◌, ◌%◌, ◌^◌, ◌<◌, ◌≤◌, ◌≡◌, ◌⊎◌, inl, inr, refl, ap, ◌∙◌, none, some,
  Array, ok, err, ltb, if◌then◌else◌, arith,
}
use star_os_kernel.Words.Marks.{
  mark, with_mark, AreWords, count_clear, mark-with_mark, with_mark-AreWords, count_clear-with_mark,
  count_clear-le,
}
use star_os_kernel.Error.{memory, out_of_memory}
use star_os_kernel.Memory.Physical.{
  PhysicalAllocator, page_size, bitmap_len, page_addr, find_run, mark_page_allocated, mark_run,
  take_run, alloc_pages,
}
use star_os_kernel.Memory.Physical.Invariant.{IsValid, page_addr_eq}
use star_os_kernel.Memory.Physical.Search.{IsFreeRun, IsFirstRun, Finds, find_run-Finds, Finds-eq}

-- The bitmap with the marks of `n` pages from `s` on.
pub marked : Array ℕ → ℕ → ℕ → Array ℕ
marked bits s zero = bits
marked bits s (suc n) = with_mark (marked bits s n) (s + n)

mark_run-marked :
    (a : PhysicalAllocator) (s n : ℕ) → mark_run a s n ≡ record a { bitmap = marked a.bitmap s n }
unfolding mark_run mark_page_allocated marked
mark_run-marked a s zero = refl
mark_run-marked a s (suc n) = rw (mark_run-marked a s n) refl

mark-marked :
    (bits : Array ℕ) (s n r : ℕ)
    → mark (marked bits s n) r
      ≡ (if ltb r s then mark bits r else if ltb r (s + n) then 1 else mark bits r)
unfolding marked
mark-marked bits s zero r = ground arith
mark-marked bits s (suc n) r =
    ground (arith, mark-marked bits s n r, mark-with_mark (marked bits s n) (s + n) r)

marked-AreWords :
    (len : ℕ) (bits : Array ℕ) (s n : ℕ) → AreWords len bits → AreWords len (marked bits s n)
unfolding marked
marked-AreWords len bits s zero words = words
marked-AreWords len bits s (suc n) words =
    with_mark-AreWords len (marked bits s n) (s + n) (marked-AreWords len bits s n words)

count_clear-marked :
    (bits : Array ℕ) (s n total : ℕ)
    → s + n ≤ total
    → ((i : ℕ) → s ≤ i → i < s + n → mark bits i ≡ 0)
    → count_clear (marked bits s n) total + n ≡ count_clear bits total
unfolding marked
count_clear-marked bits s zero total fits free = omega arith
count_clear-marked bits s (suc n) total fits free =
    (let clear : mark (marked bits s n) (s + n) ≡ 0 =
        ground (arith, mark-marked bits s n (s + n), free (s + n) (omega arith) (omega arith)) in
      ground (
        arith,
        count_clear-with_mark (marked bits s n) (s + n) total clear,
        count_clear-marked bits s n total (omega arith) (λ i lo hi. free i lo (omega arith)),
      ))

-- The allocator after `n` pages from `s` on are taken.
abbrev pub run_taken : PhysicalAllocator → ℕ → ℕ → PhysicalAllocator
run_taken a s n = record a { bitmap = marked a.bitmap s n; free_count = a.free_count - n }

run_taken-IsValid :
    (a : PhysicalAllocator) (s n : ℕ)
    → IsValid a
    → s + n ≤ a.total_pages
    → IsFreeRun a n s
    → IsValid (run_taken a s n)
run_taken-IsValid a s n (fits, words, count, beyond, ends) inside free = (
  fits,
  marked-AreWords bitmap_len a.bitmap s n words,
  omega (arith, count_clear-marked a.bitmap s n a.total_pages inside free),
  λ r hr. ground (arith, mark-marked a.bitmap s n r, beyond r hr),
  ends,
)

take_run_taken :
    (a : PhysicalAllocator) (s n : ℕ)
    → IsValid a
    → 1 < n
    → s + n ≤ a.total_pages
    → n ≤ a.free_count
    → take_run a n (some s) ≡ (run_taken a s n, ok (a.base_addr + s * page_size))
unfolding take_run
take_run_taken a s n (fits, words, count, beyond, ends) many inside enough =
    (let fewer : (a.free_count + 2 ^ 64 - n) % 2 ^ 64 ≡ a.free_count - n =
        omega (arith, count_clear-le a.bitmap a.total_pages) in
      let addr : page_addr a s ≡ a.base_addr + s * page_size =
        page_addr_eq a s (fits, words, count, beyond, ends) (omega arith) in
      rw (mark_run-marked a s n, fewer, addr) refl)

-- What `alloc_pages` does for more than one page.
abbrev pub Takes : PhysicalAllocator → ℕ → Type 0
Takes a count =
    ((alloc_pages a count ≡ (a, err (memory out_of_memory)))
      × ((q : ℕ) → q + count ≤ a.total_pages → ¬ IsFreeRun a count q))
    ⊎ ((s : ℕ) × IsFirstRun a count a.total_pages s
        × (alloc_pages a count ≡ (run_taken a s count, ok (a.base_addr + s * page_size)))
        × ((r : ℕ)
            → mark (run_taken a s count).bitmap r ≡ (
                if ltb r s
                then mark a.bitmap r
                else if ltb r (s + count)
                then 1
                else mark a.bitmap r))
        × IsValid (run_taken a s count))

-- A run of `count` free pages counts at least `count` free pages.
free_run_counted :
    (a : PhysicalAllocator) (count s : ℕ)
    → IsValid a
    → s + count ≤ a.total_pages
    → IsFreeRun a count s
    → count ≤ a.free_count
free_run_counted a count s (fits, words, counted, beyond, ends) inside free =
    omega (arith, count_clear-marked a.bitmap s count a.total_pages inside free)

too_few :
    (a : PhysicalAllocator) (count : ℕ)
    → 1 < count
    → a.free_count < count
    → alloc_pages a count ≡ (a, err (memory out_of_memory))
unfolding alloc_pages
too_few a count many few = ground arith

enough :
    (a : PhysicalAllocator) (count : ℕ)
    → 1 < count
    → count ≤ a.free_count
    → alloc_pages a count ≡ take_run a count (find_run a count a.total_pages 0 none 0)
unfolding alloc_pages
enough a count many h = ground arith

found-Takes :
    (a : PhysicalAllocator) (count : ℕ)
    → IsValid a
    → 1 < count
    → count ≤ a.free_count
    → Finds a count a.total_pages (find_run a count a.total_pages 0 none 0)
    → Takes a count
unfolding take_run
found-Takes a count valid many h (inl (e, none_fits)) =
    inl (enough a count many h ∙ ap (take_run a count) e, none_fits)
found-Takes a count valid many h (inr (s, e, (inside, free, before))) = inr (
  s,
  (inside, free, before),
  enough a count many h ∙ ap (take_run a count) e ∙ take_run_taken a s count valid many inside h,
  λ r. mark-marked a.bitmap s count r,
  run_taken-IsValid a s count valid inside free,
)

-- In a valid allocator, `alloc_pages` for more than one page finds the first run of `count` free
-- pages: it marks just these, lowers the count of free pages by `count` and returns the address of
-- the first, and the allocator stays valid. It refuses, its state unchanged, only where no such run
-- lies below `total_pages`.
pub alloc_pages_first_fit :
    (a : PhysicalAllocator) (count : ℕ) → IsValid a → 1 < count → Takes a count
alloc_pages_first_fit a count valid many = elim (dec_lt a.free_count count) [
  | yes few ↦ inl (
    too_few a count many few,
    λ q fits free. absurd (omega (arith, free_run_counted a count q valid fits free)),
  )
  | no h ↦ found-Takes a count valid many (omega arith) (
      Finds-eq a count a.total_pages (0 + a.total_pages) _ _ (omega arith) refl (
        find_run-Finds a count a.total_pages 0 none 0 0 (
          refl,
          omega arith,
          λ nz. absurd (nz refl),
          λ i lo hi. absurd (omega arith),
          λ q hq. absurd (omega arith),
        )))
]
