-- ===== src/Memory/Buddy/Alloc.antt =====
-- `alloc` of the buddy allocator of kernel/src/memory/heap.rs.
use star_os_kernel.Prelude.{
  ℕ, zero, suc, ◌+◌, ◌-◌, ◌^◌, ◌<◌, ◌≤◌, ◌≡◌, ◌⊎◌, inl, inr, refl, sym, ap, ◌∙◌, true, false, List,
  [], ◌∷◌, store, Result, ok, leb, ◌==◌, arith,
}
use native.Mathlib.Decide.{ℕ_discrete}
use star_os_kernel.Error.{KernelError}
use star_os_kernel.Memory.Physical.{PhysAddr, alloc_pages}
use star_os_kernel.Memory.Buddy.{
  BuddyAllocator, block_size, push_block, split_block, split_first, alloc_fresh, alloc_higher,
  alloc_first, alloc,
}
use star_os_kernel.Memory.Buddy.Cover.{
  inside, blocks_over, cover, cover-store, cover-push_block, inside_join, double,
}

-- The block of `from` bytes at `ptr` comes out of the free memory but for the part returned.
abbrev Splits :
    BuddyAllocator → PhysAddr → ℕ → ℕ → BuddyAllocator × Result PhysAddr KernelError → Type 0
Splits b ptr from_order to_order r =
    (r.1 ≡ ok ptr)
    × (r.0.allocator ≡ b.allocator)
    × ((x : PhysAddr)
        → cover r.0 x + inside ptr (block_size to_order) x
          ≡ cover b x + inside ptr (block_size from_order) x)

same_pages :
    (b : BuddyAllocator) (block : PhysAddr) (order : ℕ)
    → (push_block b block order).allocator ≡ b.allocator
unfolding push_block
same_pages b block order = refl

inside_double :
    (ptr : PhysAddr) (order : ℕ) (x : PhysAddr)
    → inside ptr (block_size (suc order)) x ≡ inside ptr (block_size order + block_size order) x
inside_double ptr order x =
    (let e : block_size (suc order) ≡ block_size order + block_size order =
        omega
          (arith, double order, ap block_size (let f : order + 1 ≡ suc order = omega arith in f)) in
      ap (λ (s : ℕ). inside ptr s x) e)

split_block-Splits :
    (b : BuddyAllocator) (ptr : PhysAddr) (from_order to_order : ℕ)
    → to_order ≤ from_order
    → from_order < 11
    → Splits b ptr from_order to_order (split_block b ptr from_order to_order)
unfolding split_block
split_block-Splits b ptr zero to_order h l =
    (let e : to_order ≡ 0 = omega arith in
      (refl, refl, λ x. ap (λ (o : ℕ). cover b x + inside ptr (block_size o) x) e))
split_block-Splits b ptr (suc order) to_order h l = elim (ℕ_discrete (suc order) to_order) [
  | yes e ↦
      (let same : (suc order == to_order) ≡ true = ground arith in
        rw same (refl, refl, λ x. ap (λ (o : ℕ). cover b x + inside ptr (block_size o) x) (sym e)))
  | no ne ↦
      (let other : (suc order == to_order) ≡ false = ground arith in
        let b' = push_block b (ptr + block_size order) order in
        let (e, a, f) = split_block-Splits b' ptr order to_order (omega arith) (omega arith) in
        rw other (
          e,
          a ∙ same_pages b (ptr + block_size order) order,
          λ x. omega (
            arith,
            f x,
            cover-push_block b (ptr + block_size order) order x (omega arith),
            inside_join ptr (block_size order) (block_size order) x,
            inside_double ptr order x,
          ),
        ))
]

-- What `alloc` makes of the allocator: either a block comes out of the free memory, or no list of the
-- order or of a higher one has a block, and the result and the new state of the pages are those of
-- `alloc_pages`.
abbrev pub Allocates : BuddyAllocator → ℕ → BuddyAllocator × Result PhysAddr KernelError → Type 0
Allocates b order r =
    ((block : PhysAddr) × (r.1 ≡ ok block)
      × (r.0.allocator ≡ b.allocator)
      × ((x : PhysAddr) → cover r.0 x + inside block (block_size order) x ≡ cover b x))
    ⊎ (((h : ℕ) → order ≤ h → h < 11 → b.free_lists h ≡ [])
        × (r.0.allocator ≡ (alloc_pages b.allocator (2 ^ order)).0)
        × (r.1 ≡ (alloc_pages b.allocator (2 ^ order)).1)
        × ((x : PhysAddr) → cover r.0 x ≡ cover b x))

alloc_fresh-Allocates :
    (b : BuddyAllocator) (order : ℕ)
    → ((h : ℕ) → order ≤ h → h < 11 → b.free_lists h ≡ [])
    → Allocates b order (alloc_fresh b (alloc_pages b.allocator (2 ^ order)))
unfolding alloc_fresh cover
alloc_fresh-Allocates b order none_free = inr (none_free, refl, refl, λ x. refl)

taken_out :
    (b : BuddyAllocator) (block : PhysAddr) (rest : List PhysAddr) (h : ℕ) (x : PhysAddr)
    → h < 11
    → b.free_lists h ≡ block ∷ rest
    → cover (record b { free_lists = store b.free_lists h rest }) x + inside block (block_size h) x
      ≡ cover b x
unfolding blocks_over
taken_out b block rest h x l e =
    (let f : blocks_over (block_size h) (b.free_lists h) x
          ≡ inside block (block_size h) x + blocks_over (block_size h) rest x =
        ap (λ (q : List PhysAddr). blocks_over (block_size h) q x) e in
      omega (arith, cover-store b h rest x l))

empty_to :
    (b : BuddyAllocator) (order higher : ℕ)
    → ((h : ℕ) → order ≤ h → h < higher → b.free_lists h ≡ [])
    → b.free_lists higher ≡ []
    → (h : ℕ) → order ≤ h
    → h < higher + 1
    → b.free_lists h ≡ []
empty_to b order higher below e h lo hi = elim (ℕ_discrete h higher) [
  | yes f ↦ ap b.free_lists f ∙ e
  | no ne ↦ below h lo (omega arith)
]

split_first-Allocates :
    (b : BuddyAllocator) (order higher : ℕ) (search : BuddyAllocator × Result PhysAddr KernelError)
    (l : List PhysAddr)
    → order < higher
    → higher < 11
    → b.free_lists higher ≡ l
    → (b.free_lists higher ≡ [] → Allocates b order search)
    → Allocates b order (split_first b higher order search l)
unfolding split_first
split_first-Allocates b order higher search [] lo hi e go = go e
split_first-Allocates b order higher search (block ∷ rest) lo hi e go =
    (let b' : BuddyAllocator = record b { free_lists = store b.free_lists higher rest } in
      let (f, a, g) = split_block-Splits b' block higher order (omega arith) hi in
      inl (block, f, a, λ x. omega (arith, g x, taken_out b block rest higher x hi e)))

alloc_higher-Allocates :
    (b : BuddyAllocator) (order left higher : ℕ)
    → left + higher ≡ 11
    → order < higher
    → ((h : ℕ) → order ≤ h → h < higher → b.free_lists h ≡ [])
    → Allocates b order (alloc_higher b order left higher)
unfolding alloc_higher
alloc_higher-Allocates b order zero higher h lo below =
    alloc_fresh-Allocates b order (λ k l u. below k l (omega arith))
alloc_higher-Allocates b order (suc left) higher h lo below =
    split_first-Allocates b order higher (alloc_higher b order left (higher + 1))
      (b.free_lists higher) lo (omega arith) refl
      (λ e.
        alloc_higher-Allocates b order left (higher + 1) (omega arith) (omega arith)
          (empty_to b order higher below e))

alloc_first-Allocates :
    (b : BuddyAllocator) (order : ℕ) (l : List PhysAddr)
    → order < 11
    → b.free_lists order ≡ l
    → Allocates b order (alloc_first b order l)
unfolding alloc_first
alloc_first-Allocates b order [] h e =
    alloc_higher-Allocates b order (10 - order) (order + 1) (omega arith) (omega arith)
      (λ k lo hi. (let f : k ≡ order = omega arith in ap b.free_lists f ∙ e))
alloc_first-Allocates b order (block ∷ rest) h e =
    inl (block, refl, refl, λ x. taken_out b block rest order x h e)

-- `alloc` of an order up to 10 either takes a block of that order out of the free memory: the free
-- blocks cover the addresses of the block once less than before, every other address as often as
-- before, and the pages of the allocator stay; or no list of the order or of a higher one has a
-- block, the free blocks stay, and the result and the pages are those of `alloc_pages`.
pub alloc-Allocates :
    (b : BuddyAllocator) (order : ℕ) → order < 11 → Allocates b order (alloc b order)
unfolding alloc
alloc-Allocates b order h =
    (let small : leb 11 order ≡ false = ground arith in
      rw small (alloc_first-Allocates b order (b.free_lists order) h refl))
