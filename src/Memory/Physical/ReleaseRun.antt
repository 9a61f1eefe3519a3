-- ===== src/Memory/Physical/ReleaseRun.antt =====
-- `free_pages` of kernel/src/memory/physical.rs: when a run of pages is released.
use native.Mathlib.Decide.{ℕ_discrete, dec_lt, dec_le}
use star_os_kernel.Prelude.{
  ℕ, zero, suc, ◌+◌, ◌-◌, ◌/◌, ◌%◌, ◌^◌, ◌<◌, ◌≤◌, ◌≡◌, ◌≢◌, ◌⊎◌, inl, inr, refl, ap, ◌∙◌, true,
  false, none, some, Array, ok, err, leb, ltb, ◌==◌, if◌then◌else◌, arith,
}
use star_os_kernel.Words.Bits.{bit-lt}
use star_os_kernel.Words.Marks.{
  mark, without_mark, mark-without_mark, without_mark-AreWords, AreWords, count_clear,
  count_clear-without_mark, count_clear-le,
}
use star_os_kernel.Error.{memory, double_free}
use star_os_kernel.Memory.Physical.{
  PhysicalAllocator, PhysAddr, max_pages, bitmap_len, is_aligned, mark_page_free, any_free,
  clear_run, release_run, release_pages, free_pages,
}
use star_os_kernel.Memory.Physical.Invariant.{IsValid}
use star_os_kernel.Memory.Physical.Release.{is_page_free-mark, PageOf, addr_to_page-PageOf}

-- The `count` pages from `s` on are allocated.
abbrev pub IsUsedRun : PhysicalAllocator → ℕ → ℕ → Type 0
IsUsedRun a count s = (i : ℕ) → s ≤ i → i < s + count → mark a.bitmap i ≡ 1

-- What the first loop finds: a free page, the end of the bitmap, or neither.
abbrev Sees : PhysicalAllocator → ℕ → ℕ → Type 0
Sees a s n =
    ((any_free a s n ≡ some true) × ((i : ℕ) × (s ≤ i) × (i < s + n) × (mark a.bitmap i ≡ 0)))
    ⊎ ((any_free a s n ≡ none)
        × (max_pages < s + n)
        × (s ≤ max_pages → IsUsedRun a (max_pages - s) s))
    ⊎ ((any_free a s n ≡ some false) × IsUsedRun a n s)

used_longer :
    (a : PhysicalAllocator) (s last : ℕ)
    → mark a.bitmap s ≡ 1
    → ((i : ℕ) → s + 1 ≤ i → i < last → mark a.bitmap i ≡ 1)
    → (i : ℕ) → s ≤ i
    → i < last
    → mark a.bitmap i ≡ 1
used_longer a s last one later i lo hi = elim (ℕ_discrete i s) [
  | yes e ↦ ap (mark a.bitmap) e ∙ one
  | no ne ↦ later i (omega arith) hi
]

any_free_past : (a : PhysicalAllocator) (s n : ℕ) → max_pages ≤ s → any_free a s (suc n) ≡ none
unfolding any_free
any_free_past a s n h = ground arith

any_free_here :
    (a : PhysicalAllocator) (s n : ℕ)
    → s < max_pages
    → mark a.bitmap s ≡ 0
    → any_free a s (suc n) ≡ some true
unfolding any_free
any_free_here a s n h z =
    (let test : leb max_pages s ≡ false = ground arith in rw (test, is_page_free-mark a s, z) refl)

any_free_later :
    (a : PhysicalAllocator) (s n : ℕ)
    → s < max_pages
    → mark a.bitmap s ≡ 1
    → any_free a s (suc n) ≡ any_free a (s + 1) n
unfolding any_free
any_free_later a s n h one =
    (let test : leb max_pages s ≡ false = ground arith in
      rw (test, is_page_free-mark a s, one) refl)

Sees-later :
    (a : PhysicalAllocator) (s n : ℕ)
    → s < max_pages
    → mark a.bitmap s ≡ 1
    → Sees a (s + 1) n
    → Sees a s (suc n)
Sees-later a s n h one (inl (e, (i, lo, hi, z))) =
    inl (any_free_later a s n h one ∙ e, (i, omega arith, omega arith, z))
Sees-later a s n h one (inr (inl (e, past, used))) = inr (
    inl (
      any_free_later a s n h one ∙ e,
      omega arith,
      λ lo.
          used_longer a s (s + (max_pages - s)) one
            (λ i lo' hi'. used (omega arith) i lo' (omega arith)),
    ))
Sees-later a s n h one (inr (inr (e, used))) = inr (
    inr (
      any_free_later a s n h one ∙ e,
      used_longer a s (s + suc n) one (λ i lo hi. used i lo (omega arith)),
    ))

any_free-Sees : (a : PhysicalAllocator) (s n : ℕ) → Sees a s n
unfolding any_free
any_free-Sees a s zero = inr (inr (refl, λ i lo hi. absurd (omega arith)))
any_free-Sees a s (suc n) = elim (dec_lt s max_pages) [
  | no h ↦
      inr
        (inl (any_free_past a s n (omega arith), omega arith, λ lo i lo' hi'. absurd (omega arith)))
  | yes h ↦ elim (ℕ_discrete (mark a.bitmap s) 0) [
    | yes z ↦ inl (any_free_here a s n h z, (s, omega arith, omega arith, z))
    | no nz ↦
        Sees-later a s n h (omega (arith, bit-lt (a.bitmap (s / 64)) (s % 64)))
          (any_free-Sees a (s + 1) n)
  ]
]

-- The bitmap without the marks of `n` pages from `s` on.
pub unmarked : Array ℕ → ℕ → ℕ → Array ℕ
unmarked bits s zero = bits
unmarked bits s (suc n) = without_mark (unmarked bits s n) (s + n)

clear_run-unmarked :
    (a : PhysicalAllocator) (s n : ℕ)
    → clear_run a s n ≡ record a { bitmap = unmarked a.bitmap s n }
unfolding clear_run mark_page_free unmarked
clear_run-unmarked a s zero = refl
clear_run-unmarked a s (suc n) = rw (clear_run-unmarked a s n) refl

mark-unmarked :
    (bits : Array ℕ) (s n r : ℕ)
    → mark (unmarked bits s n) r
      ≡ (if ltb r s then mark bits r else if ltb r (s + n) then 0 else mark bits r)
unfolding unmarked
mark-unmarked bits s zero r = ground arith
mark-unmarked bits s (suc n) r =
    ground (arith, mark-unmarked bits s n r, mark-without_mark (unmarked bits s n) (s + n) r)

unmarked-AreWords :
    (len : ℕ) (bits : Array ℕ) (s n : ℕ) → AreWords len bits → AreWords len (unmarked bits s n)
unfolding unmarked
unmarked-AreWords len bits s zero words = words
unmarked-AreWords len bits s (suc n) words =
    without_mark-AreWords len (unmarked bits s n) (s + n) (unmarked-AreWords len bits s n words)

count_clear-unmarked :
    (bits : Array ℕ) (s n total : ℕ)
    → s + n ≤ total
    → ((i : ℕ) → s ≤ i → i < s + n → mark bits i ≡ 1)
    → count_clear (unmarked bits s n) total ≡ count_clear bits total + n
unfolding unmarked
count_clear-unmarked bits s zero total fits used = omega arith
count_clear-unmarked bits s (suc n) total fits used =
    (let set : mark (unmarked bits s n) (s + n) ≡ 1 =
        ground (arith, mark-unmarked bits s n (s + n), used (s + n) (omega arith) (omega arith)) in
      ground (
        arith,
        count_clear-without_mark (unmarked bits s n) (s + n) total set,
        count_clear-unmarked bits s n total (omega arith) (λ i lo hi. used i lo (omega arith)),
      ))

-- The allocator after `n` pages from `s` on are released.
abbrev pub run_released : PhysicalAllocator → ℕ → ℕ → PhysicalAllocator
run_released a s n = record a { bitmap = unmarked a.bitmap s n; free_count = a.free_count + n }

-- No page from `total_pages` on is allocated, so that an allocated run ends before it.
used_inside :
    (a : PhysicalAllocator) (s n : ℕ)
    → IsValid a
    → s < a.total_pages
    → IsUsedRun a n s
    → s + n ≤ a.total_pages
used_inside a s n (fits, words, count, beyond, ends) hs used = elim (dec_le (s + n) a.total_pages) [
  | yes h ↦ h
  | no h ↦ absurd (
      omega
        (arith, used a.total_pages (omega arith) (omega arith), beyond a.total_pages (omega arith)))
]

run_released-IsValid :
    (a : PhysicalAllocator) (s n : ℕ)
    → IsValid a
    → s + n ≤ a.total_pages
    → IsUsedRun a n s
    → IsValid (run_released a s n)
run_released-IsValid a s n (fits, words, count, beyond, ends) inside used = (
  fits,
  unmarked-AreWords bitmap_len a.bitmap s n words,
  omega (arith, count_clear-unmarked a.bitmap s n a.total_pages inside used),
  λ r hr. ground (arith, mark-unmarked a.bitmap s n r, beyond r hr),
  ends,
)

release_used :
    (a : PhysicalAllocator) (s n : ℕ)
    → IsValid a
    → s + n ≤ a.total_pages
    → release_run a s n (some false) ≡ some (run_released a s n, ok tt)
unfolding release_run
release_used a s n (fits, words, count, beyond, ends) inside =
    (let small : (a.free_count + n) % 2 ^ 64 ≡ a.free_count + n =
        omega (arith, count_clear-le a.bitmap a.total_pages) in
      rw (clear_run-unmarked a s n, small) refl)

-- What `free_pages` does in a valid allocator with the address of a page of the memory.
abbrev pub ReleasesRun : PhysicalAllocator → PhysAddr → ℕ → ℕ → Type 0
ReleasesRun a addr count s =
    ((free_pages a addr count ≡ some (a, err (memory double_free)))
      × ((i : ℕ) × (s ≤ i) × (i < s + count) × (mark a.bitmap i ≡ 0)))
    ⊎ ((free_pages a addr count ≡ none) × (a.total_pages ≡ max_pages) × (max_pages < s + count))
    ⊎ ((free_pages a addr count ≡ some (run_released a s count, ok tt))
        × (s + count ≤ a.total_pages)
        × IsUsedRun a count s
        × ((r : ℕ)
            → mark (run_released a s count).bitmap r ≡ (
                if ltb r s
                then mark a.bitmap r
                else if ltb r (s + count)
                then 0
                else mark a.bitmap r))
        × IsValid (run_released a s count))

all_pages :
    (a : PhysicalAllocator) (s : ℕ)
    → IsValid a
    → s < a.total_pages
    → (s ≤ max_pages → IsUsedRun a (max_pages - s) s)
    → a.total_pages ≡ max_pages
all_pages a s valid hs used =
    omega (arith, valid.0, used_inside a s (max_pages - s) valid hs (used (omega (arith, valid.0))))

free_pages_step :
    (a : PhysicalAllocator) (addr : PhysAddr) (count s : ℕ)
    → count ≢ 0
    → is_aligned addr ≡ true
    → PageOf a addr s
    → free_pages a addr count ≡ release_run a s count (any_free a s count)
unfolding free_pages release_pages
free_pages_step a addr count s nz al of =
    (let test : (count == 0) ≡ false = ground arith in
      rw (test, al, addr_to_page-PageOf a addr s of) refl)

-- Of a run that starts at a page of a valid allocator, `free_pages` either releases the pages, all
-- of which are allocated and lie below `total_pages`: just their marks are cleared, the count of free
-- pages goes up by `count`, and the allocator stays valid. Or it reports a double free, its state
-- unchanged, and one of the pages is free. Or it panics, and then the memory has as many pages as
-- the bitmap has bits and the run goes past the last.
pub free_pages_run :
    (a : PhysicalAllocator) (addr : PhysAddr) (count s : ℕ)
    → IsValid a
    → count ≢ 0
    → is_aligned addr ≡ true
    → PageOf a addr s
    → ReleasesRun a addr count s
unfolding release_run
free_pages_run a addr count s valid nz al of =
    (let e : free_pages a addr count ≡ release_run a s count (any_free a s count) =
        free_pages_step a addr count s nz al of in
      elim (any_free-Sees a s count) [
        | inl (f, hit) ↦ inl (e ∙ ap (release_run a s count) f, hit)
        | inr (inl (f, past, used)) ↦
            inr (inl (e ∙ ap (release_run a s count) f, all_pages a s valid of.2 used, past))
        | inr (inr (f, used)) ↦
            (let inside : s + count ≤ a.total_pages = used_inside a s count valid of.2 used in
              inr (
                inr (
                  e ∙ ap (release_run a s count) f ∙ release_used a s count valid inside,
                  inside,
                  used,
                  λ r. mark-unmarked a.bitmap s count r,
                  run_released-IsValid a s count valid inside used,
                )))
      ])
