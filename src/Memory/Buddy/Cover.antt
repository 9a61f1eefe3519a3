-- ===== src/Memory/Buddy/Cover.antt =====
-- Which addresses the free blocks of kernel/src/memory/heap.rs cover, and how often.
use native.Mathlib.Decide.{ℕ_discrete}
use native.Mathlib.Nat.{pow-suc}
use star_os_kernel.Prelude.{
  ℕ, zero, suc, ◌+◌, ◌^◌, ◌<◌, ◌≤◌, ◌≡◌, ◌⊎◌, inl, inr, refl, sym, ap, ◌∙◌, true, false, ◌&&◌, List,
  [], ◌∷◌, Array, store, ltb, leb, ◌==◌, if◌then◌else◌, arith,
}
use star_os_kernel.Words.Flip.{bit_xor-pow}
use star_os_kernel.Memory.Physical.{PhysAddr}
use star_os_kernel.Memory.Buddy.{
  BuddyAllocator, block_size, push_block, remove_from_list, unlink, is_free, is_listed, buddy_of,
}

-- 1 where the block of `size` bytes at `block` contains address `x`, else 0.
unfoldable pub inside : PhysAddr → ℕ → PhysAddr → ℕ
inside block size x = if leb block x && ltb x (block + size) then 1 else 0

unfoldable pub blocks_over : ℕ → List PhysAddr → PhysAddr → ℕ
blocks_over size [] x = 0
blocks_over size (block ∷ rest) x = inside block size x + blocks_over size rest x

-- How many blocks of the first `n` lists contain address `x`, where list `i` has blocks of `size i`
-- bytes.
unfoldable pub cover_below : (ℕ → ℕ) → Array (List PhysAddr) → ℕ → PhysAddr → ℕ
cover_below size lists zero x = 0
cover_below size lists (suc n) x = cover_below size lists n x + blocks_over (size n) (lists n) x

-- How many free blocks contain address `x`.
unfoldable pub cover : BuddyAllocator → PhysAddr → ℕ
cover b x = cover_below (λ order. block_size order) b.free_lists 11 x

pub inside_join :
    (block s t x : ℕ) → inside block (s + t) x ≡ inside block s x + inside (block + s) t x
unfolding inside
inside_join block s t x = ground arith

module _ (size : ℕ → ℕ) (lists : Array (List PhysAddr)) where
  cover_below-store_above :
      (n i : ℕ) (l : List PhysAddr) (x : PhysAddr)
      → n ≤ i
      → cover_below size (store lists i l) n x ≡ cover_below size lists n x
  unfolding cover_below
  cover_below-store_above zero i l x h = refl
  cover_below-store_above (suc n) i l x h =
      (let other : (n == i) ≡ false = ground arith in
        rw (other, cover_below-store_above n i l x (omega arith)) refl)

  -- A new list changes the cover by the difference of the two lists.
  pub cover_below-store :
      (n i : ℕ) (l : List PhysAddr) (x : PhysAddr)
      → i < n
      → cover_below size (store lists i l) n x + blocks_over (size i) (lists i) x
        ≡ cover_below size lists n x + blocks_over (size i) l x
  unfolding cover_below
  cover_below-store zero i l x h = absurd (omega arith)
  cover_below-store (suc n) i l x h = elim (ℕ_discrete n i) [
    | yes e ↦
        (let same : (n == i) ≡ true = ground arith in
          rw (same, cover_below-store_above n i l x (omega arith), sym e) (omega arith))
    | no ne ↦
        (let other : (n == i) ≡ false = ground arith in
          rw other (omega (arith, cover_below-store n i l x (omega arith))))
  ]

pub cover-store :
    (b : BuddyAllocator) (order : ℕ) (l : List PhysAddr) (x : PhysAddr)
    → order < 11
    → cover (record b { free_lists = store b.free_lists order l }) x
        + blocks_over (block_size order) (b.free_lists order) x
      ≡ cover b x + blocks_over (block_size order) l x
unfolding cover
cover-store b order l x h = cover_below-store (λ o. block_size o) b.free_lists 11 order l x h

pub cover-push_block :
    (b : BuddyAllocator) (block : PhysAddr) (order : ℕ) (x : PhysAddr)
    → order < 11
    → cover (push_block b block order) x ≡ cover b x + inside block (block_size order) x
unfolding push_block blocks_over
cover-push_block b block order x h =
    omega (arith, cover-store b order (block ∷ b.free_lists order) x h)

blocks_over-unlink :
    (size : ℕ) (block : PhysAddr) (l : List PhysAddr) (x : PhysAddr)
    → is_listed block l ≡ true
    → blocks_over size (unlink block l) x + inside block size x ≡ blocks_over size l x
unfolding blocks_over unlink is_listed
blocks_over-unlink size block [] x h = cc
blocks_over-unlink size block (first ∷ rest) x h = elim (ℕ_discrete first block) [
  | yes e ↦
      (let same : (first == block) ≡ true = ground arith in
        rw same (omega (arith, ap (λ (y : ℕ). inside y size x) e)))
  | no ne ↦
      (let other : (first == block) ≡ false = ground arith in
        let later : is_listed block rest ≡ true = sym (rw other refl) ∙ h in
        rw other (omega (arith, blocks_over-unlink size block rest x later)))
]

pub cover-remove_from_list :
    (b : BuddyAllocator) (block : PhysAddr) (order : ℕ) (x : PhysAddr)
    → order < 11
    → is_free b block order ≡ true
    → cover (remove_from_list b block order) x + inside block (block_size order) x ≡ cover b x
unfolding remove_from_list is_free
cover-remove_from_list b block order x h free = omega (
  arith,
  cover-store b order (unlink block (b.free_lists order)) x h,
  blocks_over-unlink (block_size order) block (b.free_lists order) x free,
)

pub double : (order : ℕ) → block_size (order + 1) ≡ block_size order + block_size order
double order =
    (let e : order + 1 ≡ suc order = omega arith in
      ap block_size e ∙ omega (arith, pow-suc 2 order))

size_pow : (order : ℕ) → block_size order ≡ 2 ^ (order + 12)
size_pow zero = refl
size_pow (suc order) = omega (
  arith,
  size_pow order,
  pow-suc 2 order,
  pow-suc 2 (order + 12),
  ap (λ (n : ℕ). 2 ^ n) (let e : suc order + 12 ≡ suc (order + 12) = omega arith in e),
)

-- The buddy of a block lies directly behind it or directly before it.
pub buddy_of_cases :
    (ptr : PhysAddr) (order : ℕ)
    → (buddy_of ptr order ≡ ptr + block_size order) ⊎ (buddy_of ptr order + block_size order ≡ ptr)
unfolding buddy_of
buddy_of_cases ptr order =
    (let size : block_size order ≡ 2 ^ (order + 12) = size_pow order in
      rw size (bit_xor-pow ptr (order + 12)))

inside_beside :
    (p q size x : ℕ)
    → (q ≡ p + size) ⊎ (q + size ≡ p)
    → inside (if ltb p q then p else q) (size + size) x ≡ inside p size x + inside q size x
unfolding inside
inside_beside p q size x (inl e) = ground arith
inside_beside p q size x (inr e) = ground arith

-- A block and its buddy are the halves of the block that `free` makes of them.
pub inside-coalesced :
    (ptr : PhysAddr) (order : ℕ) (x : PhysAddr)
    → inside
        (if ltb ptr (buddy_of ptr order) then ptr else buddy_of ptr order)
        (block_size (order + 1))
        x
      ≡ inside ptr (block_size order) x + inside (buddy_of ptr order) (block_size order) x
inside-coalesced ptr order x =
    ap (λ (s : ℕ). inside (if ltb ptr (buddy_of ptr order) then ptr else buddy_of ptr order) s x)
      (double order)
    ∙ inside_beside ptr (buddy_of ptr order) (block_size order) x (buddy_of_cases ptr order)
