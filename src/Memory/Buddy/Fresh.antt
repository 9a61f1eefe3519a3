-- ===== src/Memory/Buddy/Fresh.antt =====
-- The pages that the allocator of kernel/src/memory/physical.rs has given out, by address, and how a
-- run for the buddy allocator adds to them.
use star_os_kernel.Prelude.{
  ℕ, zero, suc, ◌+◌, ◌-◌, ◌*◌, ◌/◌, ◌^◌, ◌<◌, ◌≤◌, ◌≡◌, ◌⊎◌, inl, inr, refl, sym, subst, ap, ◌∙◌,
  true, false, Result, ok, err, leb, if◌then◌else◌, arith,
}
use native.Mathlib.Decide.{dec_lt}
use native.Mathlib.Nat.{one-le-pow, pow-suc}
use star_os_kernel.Words.Marks.{mark}
use star_os_kernel.Error.{KernelError, memory, out_of_memory}
use star_os_kernel.Memory.Physical.{PhysAddr, PhysicalAllocator, page_size, alloc_page, alloc_pages}
use star_os_kernel.Memory.Physical.Invariant.{IsValid}
use star_os_kernel.Memory.Physical.Page.{taken, alloc_page_cases}
use star_os_kernel.Memory.Physical.Run.{run_taken, alloc_pages_first_fit}
use star_os_kernel.Memory.Buddy.{block_size}
use star_os_kernel.Memory.Buddy.Cover.{inside}

-- 1 where address `x` lies in a page that is given out, else 0.
unfoldable pub given_out : PhysicalAllocator → PhysAddr → ℕ
given_out a x = if leb a.base_addr x then mark a.bitmap ((x - a.base_addr) / page_size) else 0

inside_before : (base s n x : ℕ) → x < base → inside (base + s * page_size) (n * page_size) x ≡ 0
unfolding inside
inside_before base s n x h = ground arith

inside_run :
    (base s n x p : ℕ)
    → base ≤ x
    → p ≡ (x - base) / page_size
    → s ≤ p
    → p < s + n
    → inside (base + s * page_size) (n * page_size) x ≡ 1
unfolding inside
inside_run base s n x p h e lo hi = ground arith

outside_run :
    (base s n x p : ℕ)
    → base ≤ x
    → p ≡ (x - base) / page_size
    → (p < s) ⊎ (s + n ≤ p)
    → inside (base + s * page_size) (n * page_size) x ≡ 0
unfolding inside
outside_run base s n x p h e (inl lo) = ground arith
outside_run base s n x p h e (inr hi) = ground arith

module _ (a a' : PhysicalAllocator) (s n : ℕ) (x : PhysAddr) (same : a'.base_addr ≡ a.base_addr)
    (new : (r : ℕ) → s ≤ r → r < s + n → (mark a'.bitmap r ≡ 1) × (mark a.bitmap r ≡ 0))
    (old : (r : ℕ) → (r < s) ⊎ (s + n ≤ r) → mark a'.bitmap r ≡ mark a.bitmap r) where
  abbrev p : ℕ
  p = (x - a.base_addr) / page_size

  at_page :
      a.base_addr ≤ x → (given_out a x ≡ mark a.bitmap p) × (given_out a' x ≡ mark a'.bitmap p)
  unfolding given_out
  at_page h = (let test : leb a.base_addr x ≡ true = ground arith in rw (same, test) (refl, refl))

  outside_pages :
      a.base_addr ≤ x
      → (p < s) ⊎ (s + n ≤ p)
      → given_out a' x ≡ given_out a x + inside (a.base_addr + s * page_size) (n * page_size) x
  outside_pages h o = omega (arith, at_page h, old p o, outside_run a.base_addr s n x p h refl o)

  given_out_run :
      given_out a' x ≡ given_out a x + inside (a.base_addr + s * page_size) (n * page_size) x
  unfolding given_out
  given_out_run = elim (dec_lt x a.base_addr) [
    | yes h ↦
        (let test : leb a.base_addr x ≡ false = ground arith in
          rw (same, test) (omega (arith, inside_before a.base_addr s n x h)))
    | no h ↦ elim (dec_lt p s) [
      | yes lo ↦ outside_pages (omega arith) (inl lo)
      | no lo ↦ elim (dec_lt p (s + n)) [
        | no hi ↦ outside_pages (omega arith) (inr (omega arith))
        | yes hi ↦ omega (
          arith,
          at_page (omega arith),
          new p (omega arith) hi,
          inside_run a.base_addr s n x p (omega arith) refl (omega arith) hi,
        )
      ]
    ]
  ]

-- Either `alloc_pages` of a power of two refuses and keeps the pages, or it gives a block of that
-- many pages, which are given out from then on and were not before.
abbrev pub GivesOut :
    PhysicalAllocator → ℕ → PhysicalAllocator × Result PhysAddr KernelError → Type 0
GivesOut a order r =
    ((e : KernelError) × (r ≡ (a, err e)))
    ⊎ ((block : PhysAddr) × (r.1 ≡ ok block)
        × IsValid r.0
        × ((x : PhysAddr) → given_out r.0 x ≡ given_out a x + inside block (block_size order) x))

one-GivesOut : (a : PhysicalAllocator) → IsValid a → GivesOut a 0 (alloc_page a)
one-GivesOut a valid = elim (alloc_page_cases a valid) [
  | inl (z, e) ↦ inl (memory out_of_memory, e)
  | inr (p, first, e, marks, valid') ↦ rw e (
      inr (
        a.base_addr + p * page_size,
        refl,
        valid',
        λ x.
            given_out_run a (taken a p) p 1 x refl
              (λ r lo hi.
                (let f : r ≡ p = omega arith in
                  (ground (arith, marks r), ap (mark a.bitmap) f ∙ first.1)))
              (λ r o. ground (arith, marks r)),
      ))
]

run-GivesOut :
    (a : PhysicalAllocator) (order : ℕ)
    → IsValid a
    → 1 < 2 ^ order
    → GivesOut a order (alloc_pages a (2 ^ order))
run-GivesOut a order valid many = elim (alloc_pages_first_fit a (2 ^ order) valid many) [
  | inl (e, none_fits) ↦ inl (memory out_of_memory, e)
  | inr (s, (fits, are_free, first), e, marks, valid') ↦ rw e (
      inr (
        a.base_addr + s * page_size,
        refl,
        valid',
        λ x.
            given_out_run a (run_taken a s (2 ^ order)) s (2 ^ order) x refl
              (λ r lo hi. (ground (arith, marks r), are_free r lo hi))
              (λ r o. ground (arith, marks r))
            ∙ ap (λ (size : ℕ). given_out a x + inside (a.base_addr + s * page_size) size x)
                (let f : 2 ^ order * page_size ≡ block_size order = omega arith in f),
      ))
]

one_page : (a : PhysicalAllocator) → alloc_pages a 1 ≡ alloc_page a
unfolding alloc_pages
one_page a = refl

pub alloc_pages-GivesOut :
    (a : PhysicalAllocator) (order : ℕ) → IsValid a → GivesOut a order (alloc_pages a (2 ^ order))
alloc_pages-GivesOut a zero valid = subst (GivesOut a 0) (sym (one_page a)) (one-GivesOut a valid)
alloc_pages-GivesOut a (suc order) valid =
    run-GivesOut a (suc order) valid (omega (arith, pow-suc 2 order, one-le-pow order 2))
