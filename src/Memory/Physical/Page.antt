-- ===== src/Memory/Physical/Page.antt =====
-- Single pages of kernel/src/memory/physical.rs: which page `alloc_page` takes.
use native.Mathlib.Decide.{ℕ_discrete, dec_lt}
use star_os_kernel.Prelude.{
  ℕ, zero, suc, ◌+◌, ◌-◌, ◌*◌, ◌/◌, ◌%◌, ◌^◌, ◌<◌, ◌≤◌, ◌≡◌, ◌≢◌, ◌⊎◌, inl, inr, refl, sym, ap, ap₂,
  ◌∙◌, false, Array, ok, err, leb, ◌==◌, if◌then◌else◌, arith,
}
use star_os_kernel.Words.{bit, trailing_ones}
use star_os_kernel.Words.Scan.{trailing_ones-lt, bit-trailing_ones, bit_below_ones}
use star_os_kernel.Words.Marks.{
  mark, with_mark, mark-with_mark, with_mark-AreWords, count_clear-with_mark, count_clear-le,
  count_clear-zero,
}
use star_os_kernel.Error.{memory, out_of_memory}
use star_os_kernel.Memory.Physical.{
  PhysicalAllocator, page_size, bitmap_len, page_addr, claim, alloc_from, alloc_page,
}
use star_os_kernel.Memory.Physical.Invariant.{IsValid, page_addr_eq}

skip_word :
    (a : PhysicalAllocator) (left idx : ℕ)
    → a.bitmap idx ≡ 2 ^ 64 - 1
    → alloc_from a (suc left) idx ≡ alloc_from a left (idx + 1)
unfolding alloc_from
skip_word a left idx e = rw e

claim_word :
    (a : PhysicalAllocator) (left idx : ℕ)
    → a.bitmap idx ≢ 2 ^ 64 - 1
    → alloc_from a (suc left) idx ≡ claim a idx
unfolding alloc_from
claim_word a left idx ne = ground arith

-- The loop claims in the first word that is not full.
abbrev Claims : PhysicalAllocator → ℕ → ℕ → Type 0
Claims a left idx =
    ((k : ℕ) → idx ≤ k → k < idx + left → a.bitmap k ≡ 2 ^ 64 - 1)
    ⊎ ((w : ℕ) × (alloc_from a left idx ≡ claim a w)
        × (w < idx + left)
        × (a.bitmap w ≢ 2 ^ 64 - 1)
        × ((k : ℕ) → idx ≤ k → k < w → a.bitmap k ≡ 2 ^ 64 - 1))

full_or_later :
    (a : PhysicalAllocator) (idx k : ℕ)
    → a.bitmap idx ≡ 2 ^ 64 - 1
    → (idx + 1 ≤ k → a.bitmap k ≡ 2 ^ 64 - 1)
    → idx ≤ k
    → a.bitmap k ≡ 2 ^ 64 - 1
full_or_later a idx k e later lo = elim (ℕ_discrete k idx) [
  | yes same ↦ ap a.bitmap same ∙ e
  | no ne ↦ later (omega arith)
]

Claims-skip :
    (a : PhysicalAllocator) (left idx : ℕ)
    → a.bitmap idx ≡ 2 ^ 64 - 1
    → Claims a left (idx + 1)
    → Claims a (suc left) idx
Claims-skip a left idx e (inl all) =
    inl (λ k lo hi. full_or_later a idx k e (λ h. all k h (omega arith)) lo)
Claims-skip a left idx e (inr (w, eq, hi, ne, before)) = inr (
  w,
  skip_word a left idx e ∙ eq,
  omega arith,
  ne,
  λ k lo' hi'. full_or_later a idx k e (λ h. before k h hi') lo',
)

alloc_from-Claims : (a : PhysicalAllocator) (left idx : ℕ) → Claims a left idx
alloc_from-Claims a zero idx = inl (λ k lo hi. absurd (omega arith))
alloc_from-Claims a (suc left) idx = elim (ℕ_discrete (a.bitmap idx) (2 ^ 64 - 1)) [
  | yes e ↦ Claims-skip a left idx e (alloc_from-Claims a left (idx + 1))
  | no ne ↦ inr (idx, claim_word a left idx ne, omega arith, ne, λ k lo hi. absurd (omega arith))
]

-- All marks of a full word are set.
ones : (j : ℕ) → j < 64 → bit (2 ^ 64 - 1) j ≡ 1
unfolding trailing_ones
ones j hj = bit_below_ones 64 (2 ^ 64 - 1) j hj

-- The pages before the claimed one, in earlier words or below it in its own, are allocated.
below_claim :
    (bits : Array ℕ) (w r : ℕ)
    → ((k : ℕ) → 0 ≤ k → k < w → bits k ≡ 2 ^ 64 - 1)
    → r < w * 64 + trailing_ones 64 (bits w)
    → trailing_ones 64 (bits w) < 64
    → mark bits r ≡ 1
below_claim bits w r before hr ht = elim (dec_lt (r / 64) w) [
  | yes earlier ↦
      ap (λ (x : ℕ). bit x (r % 64)) (before (r / 64) (omega arith) earlier)
      ∙ ones (r % 64) (omega arith)
  | no h ↦
      (let same : r / 64 ≡ w = omega arith in
        ap (λ (x : ℕ). bit (bits x) (r % 64)) same
        ∙ bit_below_ones 64 (bits w) (r % 64) (omega arith))
]

-- The allocator after page `p` is taken.
abbrev pub taken : PhysicalAllocator → ℕ → PhysicalAllocator
taken a p = record a { bitmap = with_mark a.bitmap p; free_count = a.free_count - 1 }

-- The first free page.
abbrev pub IsFirstFree : PhysicalAllocator → ℕ → Type 0
IsFirstFree a p =
    (p < a.total_pages) × (mark a.bitmap p ≡ 0) × ((r : ℕ) → r < p → mark a.bitmap r ≡ 1)

claim-taken :
    (a : PhysicalAllocator) (w p : ℕ)
    → IsValid a
    → a.free_count ≢ 0
    → p < a.total_pages
    → p ≡ w * 64 + trailing_ones 64 (a.bitmap w)
    → trailing_ones 64 (a.bitmap w) < 64
    → claim a w ≡ (taken a p, ok (page_addr a p))
unfolding claim
claim-taken a w p (fits, words, count, beyond, ends) nz hp e ht =
    (let word : p / 64 ≡ w = omega arith in
      let place : p % 64 ≡ trailing_ones 64 (a.bitmap w) = omega arith in
      let inside : leb a.total_pages (w * 64 + trailing_ones 64 (a.bitmap w)) ≡ false =
        ground arith in
      let one_less : (a.free_count + 2 ^ 64 - 1) % 2 ^ 64 ≡ a.free_count - 1 =
        omega (arith, count_clear-le a.bitmap a.total_pages) in
      rw (inside, word, place, one_less, sym e) refl)

claims_none :
    (a : PhysicalAllocator)
    → IsValid a
    → a.free_count ≢ 0
    → ((k : ℕ) → 0 ≤ k → k < 0 + bitmap_len → a.bitmap k ≡ 2 ^ 64 - 1)
    → ⊥
claims_none a (fits, words, count, beyond, ends) nz all = nz (
    omega (
      arith,
      count_clear-zero a.bitmap a.total_pages (λ r hr.
          ap (λ (x : ℕ). bit x (r % 64)) (all (r / 64) (omega arith) (omega arith))
          ∙ ones (r % 64) (omega arith)),
    ))

claims_first :
    (a : PhysicalAllocator) (w : ℕ)
    → IsValid a
    → a.free_count ≢ 0
    → trailing_ones 64 (a.bitmap w) < 64
    → ((k : ℕ) → 0 ≤ k → k < w → a.bitmap k ≡ 2 ^ 64 - 1)
    → IsFirstFree a (w * 64 + trailing_ones 64 (a.bitmap w))
claims_first a w (fits, words, count, beyond, ends) nz ht before =
    (let p : ℕ = w * 64 + trailing_ones 64 (a.bitmap w) in
      let below : (r : ℕ) → r < p → mark a.bitmap r ≡ 1 =
        λ r hr. below_claim a.bitmap w r before hr ht in
      (
        elim (dec_lt p a.total_pages) [
          | yes h ↦ h
          | no h ↦ absurd (
              nz (
                omega
                  (arith, count_clear-zero a.bitmap a.total_pages (λ r hr. below r (omega arith)))))
        ],
        ap₂ (λ (x y : ℕ). bit (a.bitmap x) y) (omega arith) (omega arith)
            ∙ bit-trailing_ones 64 (a.bitmap w) ht,
        below,
      ))

word_room :
    (a : PhysicalAllocator) (w : ℕ)
    → IsValid a
    → w < bitmap_len
    → a.bitmap w ≢ 2 ^ 64 - 1
    → trailing_ones 64 (a.bitmap w) < 64
word_room a w (fits, words, count, beyond, ends) hw ne =
    trailing_ones-lt 64 (a.bitmap w) (omega (arith, words w hw))

some_free : (a : PhysicalAllocator) → a.free_count ≢ 0 → alloc_page a ≡ alloc_from a bitmap_len 0
unfolding alloc_page
some_free a nz = ground arith

-- Of an allocator with a free page, `alloc_page` takes the first one and returns its address.
alloc_page_first :
    (a : PhysicalAllocator)
    → IsValid a
    → a.free_count ≢ 0
    → (p : ℕ) × IsFirstFree a p × (alloc_page a ≡ (taken a p, ok (a.base_addr + p * page_size)))
alloc_page_first a valid nz = elim (alloc_from-Claims a bitmap_len 0) [
  | inl all ↦ absurd (claims_none a valid nz all)
  | inr (w, e, hi, ne, before) ↦
      (let ht : trailing_ones 64 (a.bitmap w) < 64 = word_room a w valid hi ne in
        let p : ℕ = w * 64 + trailing_ones 64 (a.bitmap w) in
        let first : IsFirstFree a p = claims_first a w valid nz ht before in
        (
          p,
          first,
          some_free a nz
              ∙ e
              ∙ claim-taken a w p valid nz first.0 refl ht
              ∙ ap (λ (x : ℕ). (taken a p, ok x)) (page_addr_eq a p valid first.0),
        ))
]

pub taken-IsValid :
    (a : PhysicalAllocator) (p : ℕ)
    → IsValid a
    → p < a.total_pages
    → mark a.bitmap p ≡ 0
    → IsValid (taken a p)
taken-IsValid a p (fits, words, count, beyond, ends) hp clear = (
  fits,
  with_mark-AreWords bitmap_len a.bitmap p words,
  ground (arith, count_clear-with_mark a.bitmap p a.total_pages clear),
  λ r hr. ground (arith, mark-with_mark a.bitmap p r, beyond r hr),
  ends,
)

-- A valid allocator without a free page refuses and keeps its state. With one, `alloc_page` returns
-- the address of the first free page, below `total_pages`; that page becomes marked, no other mark
-- changes, the count of free pages goes down by one, and the allocator stays valid.
pub alloc_page_cases :
    (a : PhysicalAllocator)
    → IsValid a
    → ((a.free_count ≡ 0) × (alloc_page a ≡ (a, err (memory out_of_memory))))
      ⊎ ((p : ℕ) × IsFirstFree a p
          × (alloc_page a ≡ (taken a p, ok (a.base_addr + p * page_size)))
          × ((r : ℕ) → mark (taken a p).bitmap r ≡ (if r == p then 1 else mark a.bitmap r))
          × IsValid (taken a p))
unfolding alloc_page
alloc_page_cases a valid = elim (ℕ_discrete a.free_count 0) [
  | yes z ↦ inl (z, rw z refl)
  | no nz ↦
      (let (p, first, e) = alloc_page_first a valid nz in
        inr
          (p, first, e, λ r. mark-with_mark a.bitmap p r, taken-IsValid a p valid first.0 first.1))
]
