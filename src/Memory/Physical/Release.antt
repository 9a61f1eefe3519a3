-- ===== src/Memory/Physical/Release.antt =====
-- `free_page` of kernel/src/memory/physical.rs: its four outcomes, and that it undoes `alloc_page`.
use native.Mathlib.Decide.{ℕ_discrete, dec_lt, dec_le}
use star_os_kernel.Prelude.{
  ℕ, ◌+◌, ◌-◌, ◌*◌, ◌/◌, ◌%◌, ◌^◌, ◌<◌, ◌≤◌, ◌≡◌, ◌≢◌, ◌⊎◌, inl, inr, refl, ap, ◌∙◌, true, false,
  Array, ok, err, ◌==◌, arith,
}
use star_os_kernel.Words.Bits.{bit-lt, bit_and-pow_test}
use star_os_kernel.Words.Marks.{
  mark, with_mark, without_mark, mark-with_mark, mark-without_mark, without_mark-AreWords,
  count_clear-without_mark, count_clear-le,
}
use star_os_kernel.Error.{memory, invalid_alignment, invalid_address, double_free}
use star_os_kernel.Memory.Physical.{
  PhysicalAllocator, PhysAddr, page_size, bitmap_len, is_aligned, is_page_free, addr_to_page,
  mark_page_free, release_page, free_page, alloc_page,
}
use star_os_kernel.Memory.Physical.Invariant.{IsValid}
use star_os_kernel.Memory.Physical.Page.{taken, alloc_page_cases}

pub is_page_free-mark : (a : PhysicalAllocator) (p : ℕ) → is_page_free a p ≡ (mark a.bitmap p == 0)
unfolding is_page_free
is_page_free-mark a p = bit_and-pow_test (a.bitmap (p / 64)) (p % 64)

-- The allocator after page `p` is released.
abbrev pub released : PhysicalAllocator → ℕ → PhysicalAllocator
released a p = record a { bitmap = without_mark a.bitmap p; free_count = a.free_count + 1 }

pub released-IsValid :
    (a : PhysicalAllocator) (p : ℕ)
    → IsValid a
    → p < a.total_pages
    → mark a.bitmap p ≡ 1
    → IsValid (released a p)
released-IsValid a p (fits, words, count, beyond, ends) hp set = (
  fits,
  without_mark-AreWords bitmap_len a.bitmap p words,
  ground (arith, count_clear-without_mark a.bitmap p a.total_pages set),
  λ r hr. ground (arith, mark-without_mark a.bitmap p r, beyond r hr),
  ends,
)

release_page-free :
    (a : PhysicalAllocator) (p : ℕ)
    → mark a.bitmap p ≡ 0
    → release_page a (ok p) ≡ (a, err (memory double_free))
unfolding release_page
release_page-free a p e = rw (is_page_free-mark a p, e) refl

release_page-allocated :
    (a : PhysicalAllocator) (p : ℕ)
    → IsValid a
    → mark a.bitmap p ≡ 1
    → release_page a (ok p) ≡ (released a p, ok tt)
unfolding release_page mark_page_free
release_page-allocated a p (fits, words, count, beyond, ends) e =
    (let small : (a.free_count + 1) % 2 ^ 64 ≡ a.free_count + 1 =
        omega (arith, count_clear-le a.bitmap a.total_pages) in
      rw (is_page_free-mark a p, e, small) refl)

-- The page of an address within the memory.
abbrev pub PageOf : PhysicalAllocator → PhysAddr → ℕ → Type 0
PageOf a addr p =
    (a.base_addr ≤ addr) × (p ≡ (addr - a.base_addr) / page_size) × (p < a.total_pages)

pub addr_to_page-PageOf :
    (a : PhysicalAllocator) (addr : PhysAddr) (p : ℕ) → PageOf a addr p → addr_to_page a addr ≡ ok p
unfolding addr_to_page
addr_to_page-PageOf a addr p (lo, e, hi) = ground arith

addr_to_page-outside :
    (a : PhysicalAllocator) (addr : PhysAddr)
    → (addr < a.base_addr) ⊎ (a.base_addr + a.total_pages * page_size ≤ addr)
    → addr_to_page a addr ≡ err (memory invalid_address)
unfolding addr_to_page
addr_to_page-outside a addr (inl below) = ground arith
addr_to_page-outside a addr (inr above) = ground arith

aligned_free :
    (a : PhysicalAllocator) (addr : PhysAddr)
    → is_aligned addr ≡ true
    → free_page a addr ≡ release_page a (addr_to_page a addr)
unfolding free_page
aligned_free a addr e = rw e refl

outside_or_page :
    (a : PhysicalAllocator) (addr : PhysAddr)
    → ((addr < a.base_addr) ⊎ (a.base_addr + a.total_pages * page_size ≤ addr))
      ⊎ ((p : ℕ) × PageOf a addr p)
outside_or_page a addr = elim (dec_lt addr a.base_addr) [
  | yes h ↦ inl (inl h)
  | no h ↦ elim (dec_le (a.base_addr + a.total_pages * page_size) addr) [
    | yes h' ↦ inl (inr h')
    | no h' ↦ inr ((addr - a.base_addr) / page_size, (omega arith, refl, omega arith))
  ]
]

-- What `free_page` does in a valid allocator with an aligned address.
abbrev pub Frees : PhysicalAllocator → PhysAddr → Type 0
Frees a addr =
    (((addr < a.base_addr) ⊎ (a.base_addr + a.total_pages * page_size ≤ addr))
      × (free_page a addr ≡ (a, err (memory invalid_address))))
    ⊎ ((p : ℕ) × PageOf a addr p
        × (((mark a.bitmap p ≡ 0) × (free_page a addr ≡ (a, err (memory double_free))))
            ⊎ ((mark a.bitmap p ≡ 1)
                × (free_page a addr ≡ (released a p, ok tt))
                × IsValid (released a p))))

page-Frees :
    (a : PhysicalAllocator) (addr : PhysAddr) (p : ℕ)
    → IsValid a
    → is_aligned addr ≡ true
    → PageOf a addr p
    → Frees a addr
page-Frees a addr p valid al of =
    (let e : free_page a addr ≡ release_page a (ok p) =
        aligned_free a addr al ∙ ap (release_page a) (addr_to_page-PageOf a addr p of) in
      inr (
        p,
        of,
        elim (ℕ_discrete (mark a.bitmap p) 0) [
          | yes z ↦ inl (z, e ∙ release_page-free a p z)
          | no nz ↦
              (let one : mark a.bitmap p ≡ 1 = omega (arith, bit-lt (a.bitmap (p / 64)) (p % 64)) in
                inr (
                  one,
                  e ∙ release_page-allocated a p valid one,
                  released-IsValid a p valid of.2 one,
                ))
        ],
      ))

aligned-Frees :
    (a : PhysicalAllocator) (addr : PhysAddr) → IsValid a → is_aligned addr ≡ true → Frees a addr
unfolding release_page
aligned-Frees a addr valid al = elim (outside_or_page a addr) [
  | inl out ↦
      inl (out, aligned_free a addr al ∙ ap (release_page a) (addr_to_page-outside a addr out))
  | inr (p, of) ↦ page-Frees a addr p valid al of
]

is_aligned-true : (addr : PhysAddr) → addr % page_size ≡ 0 → is_aligned addr ≡ true
unfolding is_aligned
is_aligned-true addr e = ground arith

misaligned_free :
    (a : PhysicalAllocator) (addr : PhysAddr)
    → addr % page_size ≢ 0
    → (is_aligned addr ≡ false) × (free_page a addr ≡ (a, err (memory invalid_alignment)))
unfolding is_aligned free_page
misaligned_free a addr ne =
    (let e : (addr % page_size == 0) ≡ false = ground arith in (e, rw e refl))

-- In a valid allocator, `free_page` refuses a misaligned address, an address outside the memory and
-- a page that is free already, each with its own error and the state unchanged. It releases any
-- other page: its mark is cleared, the count goes up by one, and the allocator stays valid.
pub free_page_cases :
    (a : PhysicalAllocator) (addr : PhysAddr)
    → IsValid a
    → ((is_aligned addr ≡ false) × (free_page a addr ≡ (a, err (memory invalid_alignment))))
      ⊎ ((is_aligned addr ≡ true) × Frees a addr)
free_page_cases a addr valid = elim (ℕ_discrete (addr % page_size) 0) [
  | yes z ↦ inr (is_aligned-true addr z, aligned-Frees a addr valid (is_aligned-true addr z))
  | no nz ↦ inl (misaligned_free a addr nz)
]

undone :
    (bits : Array ℕ) (p r : ℕ)
    → mark bits p ≡ 0
    → mark (without_mark (with_mark bits p) p) r ≡ mark bits r
undone bits p r clear = elim (ℕ_discrete r p) [
  | yes e ↦ ground (arith, mark-without_mark (with_mark bits p) p r, ap (mark bits) e)
  | no ne ↦ ground (arith, mark-without_mark (with_mark bits p) p r, mark-with_mark bits p r)
]

release_taken :
    (a : PhysicalAllocator) (p : ℕ)
    → IsValid a
    → IsValid (taken a p)
    → a.base_addr % page_size ≡ 0
    → p < a.total_pages
    → free_page (taken a p) (a.base_addr + p * page_size) ≡ (released (taken a p) p, ok tt)
release_taken a p valid valid' al hp =
    (let t : PhysicalAllocator = taken a p in
      let addr : PhysAddr = a.base_addr + p * page_size in
      let set : mark t.bitmap p ≡ 1 = ground (arith, mark-with_mark a.bitmap p p) in
      aligned_free t addr (is_aligned-true addr (omega arith))
      ∙ ap (release_page t) (addr_to_page-PageOf t addr p (omega arith, omega arith, hp))
      ∙ release_page-allocated t p valid' set)

-- In a valid allocator with an aligned base and a free page, `free_page` accepts the address that
-- `alloc_page` returned; after it every mark and the count of free pages are as before.
pub free_page-alloc_page :
    (a : PhysicalAllocator)
    → IsValid a
    → a.base_addr % page_size ≡ 0
    → a.free_count ≢ 0
    → (a' a'' : PhysicalAllocator) × (addr : PhysAddr) × (alloc_page a ≡ (a', ok addr))
      × (free_page a' addr ≡ (a'', ok tt))
      × ((r : ℕ) → mark a''.bitmap r ≡ mark a.bitmap r)
      × (a''.free_count ≡ a.free_count)
free_page-alloc_page a valid al nz = elim (alloc_page_cases a valid) [
  | inl (z, e) ↦ absurd (nz z)
  | inr (p, first, e, marks, valid') ↦ (
    taken a p,
    released (taken a p) p,
    a.base_addr + p * page_size,
    e,
    release_taken a p valid valid' al first.0,
    λ r. undone a.bitmap p r first.1,
    omega arith,
  )
]
