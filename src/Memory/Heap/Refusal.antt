-- ===== src/Memory/Heap/Refusal.antt =====
-- Which sizes the heap of kernel/src/memory/heap.rs serves.
use native.Mathlib.Decide.{dec_lt}
use star_os_kernel.Prelude.{
  ℕ, ◌+◌, ◌*◌, ◌/◌, ◌^◌, ◌<◌, ◌≤◌, ◌≡◌, ◌⊎◌, inl, inr, refl, ap, ◌∙◌, true, false, Bool-cases, max,
  ◌||◌, ltb, leb, ◌==◌, arith,
}
use star_os_kernel.Words.{trailing_zeros}
use star_os_kernel.Memory.Buddy.{block_size}
use star_os_kernel.Memory.Slab.{SlabAllocator, next_power_of_two}
use star_os_kernel.Memory.Slab.Sizes.{next_power_from-Least, trailing_zeros-pow, pow_le}
use star_os_kernel.Memory.Heap.{
  HeapAllocator, Layout, null, or_null, alloc_small, order_of, alloc_large, alloc,
}
use star_os_kernel.Memory.Slab

-- The order of a size is the least whose blocks hold that many bytes.
pub order_of_fits :
    (size : ℕ)
    → 1 ≤ size
    → size + 4095 < 2 ^ 64
    → (size ≤ block_size (order_of size))
      × ((order_of size ≡ 0) ⊎ (block_size (order_of size) < 2 * (size + 4095)))
unfolding order_of
order_of_fits size lo hi =
    (let pages : ℕ = (size + 4095) / 4096 in
      let (j, e, f, k, o) = next_power_from-Least 63 0 1 pages 63 refl refl (omega arith) in
      let small : j < 64 = elim (dec_lt 63 j) [
        | no h ↦ omega arith
        | yes h ↦ absurd (elim o [ inl z ↦ omega arith | inr less ↦ omega (arith, pow_le 64 j h) ])
      ] in
      let order : order_of size ≡ j =
        ap (λ (p : ℕ). trailing_zeros 64 p) e ∙ trailing_zeros-pow 64 j small in
      let same : 2 ^ order_of size ≡ 2 ^ j = ap (λ (i : ℕ). 2 ^ i) order in
      (omega arith, elim o [ inl z ↦ inl (order ∙ z) | inr less ↦ inr (omega arith) ]))

too_large : (size : ℕ) → 4194304 < size → size + 4095 < 2 ^ 64 → leb 11 (order_of size) ≡ true
too_large size h fits =
    (let big : size ≤ block_size (order_of size) = (order_of_fits size (omega arith) fits).0 in
      elim (dec_lt (order_of size) 11) [
        | no l ↦ ground arith
        | yes l ↦ absurd (omega (arith, pow_le (order_of size) 10 (omega arith)))
      ])

alloc_large-null :
    (h : HeapAllocator) (layout : Layout) → 4194304 < layout.size → (alloc_large h layout).1 ≡ null
unfolding alloc_large
alloc_large-null h layout big = elim (Bool-cases (leb (2 ^ 64) (layout.size + 4095))) [
  | inl wraps ↦ rw wraps refl
  | inr fits ↦
      (let test : leb 11 (order_of layout.size) ≡ true = too_large layout.size big (ground arith) in
        rw (fits, test) refl)
]

alloc_small-null :
    (h : HeapAllocator) (layout : Layout) → 2048 < layout.size → (alloc_small h layout).1 ≡ null
unfolding alloc_small or_null Slab.alloc
alloc_small-null h layout big =
    (let test : ((layout.size == 0) || ltb 2048 layout.size) ≡ true = ground arith in
      elim (Bool-cases (ltb (next_power_of_two (max layout.size 8)) layout.align)) [
        | inl e ↦ rw e refl
        | inr e ↦ rw (e, test) refl
      ])

-- Whatever the alignment and the state, `alloc` returns null for a size of 0, for each size from 2049
-- to 4095 bytes, which is no size of the slab allocator and is not passed on to the buddy allocator,
-- and for each size above 4 MB.
pub never_served :
    (h : HeapAllocator) (layout : Layout)
    → (layout.size ≡ 0) ⊎ ((2048 < layout.size) × (layout.size < 4096)) ⊎ (4194304 < layout.size)
    → (alloc h layout).1 ≡ null
unfolding alloc
never_served h layout (inl z) =
    (let test : (layout.size == 0) ≡ true = ground arith in rw test refl)
never_served h layout (inr (inl (lo, hi))) =
    (let sized : (layout.size == 0) ≡ false = ground arith in
      let small : ltb layout.size 4096 ≡ true = ground arith in
      elim (Bool-cases (ltb 4096 layout.align)) [
        | inl e ↦ rw (sized, e) refl
        | inr e ↦ rw (sized, e, small) (alloc_small-null h layout lo)
      ])
never_served h layout (inr (inr big)) =
    (let sized : (layout.size == 0) ≡ false = ground arith in
      let large : ltb layout.size 4096 ≡ false = ground arith in
      elim (Bool-cases (ltb 4096 layout.align)) [
        | inl e ↦ rw (sized, e) refl
        | inr e ↦ rw (sized, e, large) (alloc_large-null h layout big)
      ])
