-- ===== src/Memory/Physical.antt =====
-- kernel/src/memory/physical.rs: one bit for each 4 KB page, set where the page is allocated, and a
-- count of the free pages. A method returns the allocator beside its result. The atomic accesses
-- are steps of one thread, so a compare-and-exchange on a word that was just read succeeds.
pub mod Invariant
pub mod Page
pub mod Search
pub mod Run
pub mod Release
pub mod ReleaseRun
mod Tests
use star_os_kernel.Prelude.{
  ℕ, zero, suc, ◌+◌, ◌-◌, ◌*◌, ◌/◌, ◌%◌, ◌^◌, Bool, true, false, not, Option, none, some, Array,
  store, Result, ok, err, ltb, leb, ◌==◌, if◌then◌else◌, bit_and,
}
use star_os_kernel.Words.{set_bit, clear_bit, trailing_ones}
use star_os_kernel.Error.{
  KernelError, memory, invalid_parameter, out_of_memory, invalid_alignment, invalid_address,
  double_free,
}

abbrev pub page_size : ℕ
page_size = 4096

abbrev pub max_pages : ℕ
max_pages = 4 * 1024 * 1024

-- `PhysAddr(usize)`
abbrev pub PhysAddr : Type 0
PhysAddr = ℕ

unfoldable pub is_aligned : PhysAddr → Bool
is_aligned addr = addr % page_size == 0

-- The bitmap has 65536 words of 64 bits.
abbrev pub bitmap_len : ℕ
bitmap_len = max_pages / 64

pub record PhysicalAllocator : Type 0 where
  pub bitmap : Array ℕ
  pub total_pages : ℕ
  pub free_count : ℕ
  pub base_addr : PhysAddr

unfoldable pub new : PhysAddr → ℕ → PhysicalAllocator
new base_addr total_pages = record {
  bitmap = λ i. 0;
  total_pages = total_pages;
  free_count = total_pages;
  base_addr = base_addr;
}

-- The loop of `init` over the first words.
unfoldable pub clear_words : ℕ → Array ℕ → Array ℕ
clear_words zero bits = bits
clear_words (suc n) bits = store (clear_words n bits) n 0

unfoldable pub init : PhysicalAllocator → PhysicalAllocator × Result (Unit {0}) KernelError
init a = (record a { bitmap = clear_words bitmap_len a.bitmap; free_count = a.total_pages }, ok tt)

unfoldable pub is_page_free : PhysicalAllocator → ℕ → Bool
is_page_free a page = bit_and (a.bitmap (page / 64)) (2 ^ (page % 64)) == 0

unfoldable pub mark_page_allocated : PhysicalAllocator → ℕ → PhysicalAllocator
mark_page_allocated a page = record a {
  bitmap = store a.bitmap (page / 64) (set_bit (a.bitmap (page / 64)) (page % 64));
}

unfoldable pub mark_page_free : PhysicalAllocator → ℕ → PhysicalAllocator
mark_page_free a page = record a {
  bitmap = store a.bitmap (page / 64) (clear_bit 64 (a.bitmap (page / 64)) (page % 64));
}

-- `base_addr + page * PAGE_SIZE` as a `usize`.
unfoldable pub page_addr : PhysicalAllocator → ℕ → PhysAddr
page_addr a page = (a.base_addr + page * page_size) % 2 ^ 64

-- What `alloc_page` does in a word that is not full: it sets the lowest clear bit, then tests the
-- page number against the number of pages.
unfoldable pub claim : PhysicalAllocator → ℕ → PhysicalAllocator × Result PhysAddr KernelError
claim a word_idx =
    let bit_idx = trailing_ones 64 (a.bitmap word_idx) in
    let page_num = word_idx * 64 + bit_idx in
    let a' : PhysicalAllocator = record a {
      bitmap = store a.bitmap word_idx (set_bit (a.bitmap word_idx) bit_idx);
    } in
    if leb a.total_pages page_num then (a', err (memory out_of_memory)) else (
      record a' { free_count = (a.free_count + 2 ^ 64 - 1) % 2 ^ 64 },
      ok (page_addr a page_num),
    )

-- The loop of `alloc_page` over the words from `word_idx` on. A word that is not `usize::MAX` has a
-- clear bit, so that the inner loop claims a page in it.
unfoldable pub alloc_from :
    PhysicalAllocator → ℕ → ℕ → PhysicalAllocator × Result PhysAddr KernelError
alloc_from a zero word_idx = (a, err (memory out_of_memory))
alloc_from a (suc left) word_idx =
    let rest = alloc_from a left (word_idx + 1) in
    if a.bitmap word_idx == 2 ^ 64 - 1 then rest else claim a word_idx

unfoldable pub alloc_page : PhysicalAllocator → PhysicalAllocator × Result PhysAddr KernelError
alloc_page a =
    if a.free_count == 0 then (a, err (memory out_of_memory)) else alloc_from a bitmap_len 0

-- The scan of `alloc_pages` from `page` on: the first page of the first `count` free pages in a row.
-- A valid allocator has at most MAX_PAGES pages; with more the code panics at the first page beyond
-- the bitmap, and here the scan reads on.
unfoldable pub find_run : PhysicalAllocator → ℕ → ℕ → ℕ → Option ℕ → ℕ → Option ℕ
find_run a count zero page start consecutive = none
find_run a count (suc left) page start consecutive =
    let start' = if consecutive == 0 then some page else start in
    let further = find_run a count left (page + 1) start' (consecutive + 1) in
    let again = find_run a count left (page + 1) none 0 in
    if is_page_free a page then (if consecutive + 1 == count then start' else further) else again

-- `for i in 0..count { self.mark_page_allocated(start + i)? }`
unfoldable pub mark_run : PhysicalAllocator → ℕ → ℕ → PhysicalAllocator
mark_run a start zero = a
mark_run a start (suc n) = mark_page_allocated (mark_run a start n) (start + n)

-- What `alloc_pages` does with the result of the scan.
unfoldable pub take_run :
    PhysicalAllocator → ℕ → Option ℕ → PhysicalAllocator × Result PhysAddr KernelError
take_run a count none = (a, err (memory out_of_memory))
take_run a count (some start) =
    let a' = mark_run a start count in
    (record a' { free_count = (a'.free_count + 2 ^ 64 - count) % 2 ^ 64 }, ok (page_addr a start))

unfoldable pub alloc_pages : PhysicalAllocator → ℕ → PhysicalAllocator × Result PhysAddr KernelError
alloc_pages a count =
    if count == 0
    then (a, err (invalid_parameter "count must be > 0"))
    else if count == 1
    then alloc_page a
    else if ltb a.free_count count
    then (a, err (memory out_of_memory))
    else take_run a count (find_run a count a.total_pages 0 none 0)

unfoldable pub addr_to_page : PhysicalAllocator → PhysAddr → Result ℕ KernelError
addr_to_page a addr =
    if ltb addr a.base_addr
    then err (memory invalid_address)
    else (let page = (addr - a.base_addr) / page_size in
        if leb a.total_pages page then err (memory invalid_address) else ok page)

-- What `free_page` does with the page of the address.
unfoldable pub release_page :
    PhysicalAllocator → Result ℕ KernelError → PhysicalAllocator × Result (Unit {0}) KernelError
release_page a (err e) = (a, err e)
release_page a (ok page) =
    if is_page_free a page
    then (a, err (memory double_free))
    else (let a' = mark_page_free a page in
        (record a' { free_count = (a'.free_count + 1) % 2 ^ 64 }, ok tt))

unfoldable pub free_page :
    PhysicalAllocator → PhysAddr → PhysicalAllocator × Result (Unit {0}) KernelError
unfolding release_page
free_page a addr =
    if is_aligned addr
    then release_page a (addr_to_page a addr)
    else (a, err (memory invalid_alignment))

-- The first loop of `free_pages`: whether one of `n` pages is free already. It panics, which is
-- `none`, where it reads past the end of the bitmap.
unfoldable pub any_free : PhysicalAllocator → ℕ → ℕ → Option Bool
any_free a start zero = some false
any_free a start (suc n) =
    let rest = any_free a (start + 1) n in
    if leb max_pages start then none else if is_page_free a start then some true else rest

-- `for i in 0..count { self.mark_page_free(start_page + i)? }`
unfoldable pub clear_run : PhysicalAllocator → ℕ → ℕ → PhysicalAllocator
clear_run a start zero = a
clear_run a start (suc n) = mark_page_free (clear_run a start n) (start + n)

-- What `free_pages` does with the answer of the first loop, and with the page of the address.
unfoldable pub release_run :
    PhysicalAllocator
    → ℕ
    → ℕ
    → Option Bool
    → Option (PhysicalAllocator × Result (Unit {0}) KernelError)
release_run a start count none = none
release_run a start count (some true) = some (a, err (memory double_free))
release_run a start count (some false) =
    let a' = clear_run a start count in
    some (record a' { free_count = (a'.free_count + count) % 2 ^ 64 }, ok tt)

unfoldable pub release_pages :
    PhysicalAllocator
    → ℕ
    → Result ℕ KernelError
    → Option (PhysicalAllocator × Result (Unit {0}) KernelError)
unfolding release_run
release_pages a count (err e) = some (a, err e)
release_pages a count (ok start) = release_run a start count (any_free a start count)

unfoldable pub free_pages :
    PhysicalAllocator → PhysAddr → ℕ → Option (PhysicalAllocator × Result (Unit {0}) KernelError)
unfolding release_pages
free_pages a addr count =
    if count == 0
    then some (a, err (invalid_parameter "count must be > 0"))
    else if is_aligned addr
    then release_pages a count (addr_to_page a addr)
    else some (a, err (memory invalid_alignment))
