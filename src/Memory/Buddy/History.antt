-- ===== src/Memory/Buddy/History.antt =====
-- Histories of calls of the buddy allocator of kernel/src/memory/heap.rs: who holds which memory.
use star_os_kernel.Prelude.{
  ℕ, ◌+◌, ◌<◌, ◌≤◌, ◌≡◌, inl, inr, refl, sym, subst, ap, ◌∙◌, List, [], ◌∷◌, ◌++◌, Result, ok, err,
  arith,
}
use star_os_kernel.Error.{KernelError}
use star_os_kernel.Memory.Physical.{PhysAddr, PhysicalAllocator}
use star_os_kernel.Memory.Physical.Invariant.{IsValid}
use star_os_kernel.Memory.Buddy.{BuddyAllocator, block_size, new, alloc, free}
use star_os_kernel.Memory.Buddy.Cover.{inside, blocks_over, cover_below, cover}
use star_os_kernel.Memory.Buddy.Alloc.{alloc-Allocates}
use star_os_kernel.Memory.Buddy.Free.{free-Released, free-allocator}
use star_os_kernel.Memory.Buddy.Fresh.{given_out, alloc_pages-GivesOut}

-- A block that a caller holds, with its order.
abbrev pub Held : Type 0
Held = PhysAddr × ℕ

-- How many held blocks contain address `x`.
unfoldable pub held_over : List Held → PhysAddr → ℕ
held_over [] x = 0
held_over ((block, order) ∷ rest) x = inside block (block_size order) x + held_over rest x

-- The states that calls reach from a new allocator on, with the blocks that the callers hold: they
-- ask for orders up to 10, and free only what they hold.
pub data Run (a : PhysicalAllocator) : BuddyAllocator → List Held → Type 0 where
  started : Run a (new a) []
  allocated :
      {b : BuddyAllocator} {held : List Held} {order : ℕ} {block : PhysAddr}
      → Run a b held
      → order < 11
      → (alloc b order).1 ≡ ok block
      → Run a (alloc b order).0 ((block, order) ∷ held)
  refused :
      {b : BuddyAllocator} {held : List Held} {order : ℕ} {e : KernelError}
      → Run a b held
      → order < 11
      → (alloc b order).1 ≡ err e
      → Run a (alloc b order).0 held
  freed :
      {b : BuddyAllocator} (before after : List Held) (order : ℕ) (block : PhysAddr)
      → Run a b (before ++ (block, order) ∷ after)
      → order < 11
      → Run a (free b block order).0 (before ++ after)

-- Free and held blocks together contain an address of a page that is given out at most once, and no
-- other address.
abbrev pub NoOverlap : BuddyAllocator → List Held → Type 0
NoOverlap b held =
    IsValid b.allocator × ((x : PhysAddr) → cover b x + held_over held x ≤ given_out b.allocator x)

held_over-append :
    (before after : List Held) (block : PhysAddr) (order : ℕ) (x : PhysAddr)
    → held_over (before ++ (block, order) ∷ after) x
      ≡ inside block (block_size order) x + held_over (before ++ after) x
unfolding held_over
held_over-append [] after block order x = refl
held_over-append ((p, o) ∷ before) after block order x =
    omega (arith, held_over-append before after block order x)

nothing_free : (a : PhysicalAllocator) (x : PhysAddr) → cover (new a) x ≡ 0
unfolding new cover cover_below blocks_over
nothing_free a x = refl

new-NoOverlap : (a : PhysicalAllocator) → IsValid a → NoOverlap (new a) []
unfolding new held_over
new-NoOverlap a valid = (valid, λ x. omega (arith, nothing_free a x))

-- Where `alloc` leaves the pages alone.
same_pages :
    (b b' : BuddyAllocator) (held held' : List Held)
    → NoOverlap b held
    → b'.allocator ≡ b.allocator
    → ((x : PhysAddr) → cover b' x + held_over held' x ≡ cover b x + held_over held x)
    → NoOverlap b' held'
same_pages b b' held held' (valid, once) a e = (
  subst IsValid (sym a) valid,
  λ x. omega (arith, once x, e x, ap (λ (p : PhysicalAllocator). given_out p x) a),
)

allocated-NoOverlap :
    (b : BuddyAllocator) (held : List Held) (order : ℕ) (block : PhysAddr)
    → NoOverlap b held
    → order < 11
    → (alloc b order).1 ≡ ok block
    → NoOverlap (alloc b order).0 ((block, order) ∷ held)
unfolding held_over
allocated-NoOverlap b held order block (valid, once) h e = elim (alloc-Allocates b order h) [
  | inl (p, f, a, g) ↦
      (let same : p ≡ block = cc in
        same_pages b (alloc b order).0 held ((block, order) ∷ held) (valid, once) a
          (λ x. omega (arith, g x, ap (λ (q : PhysAddr). inside q (block_size order) x) same)))
  | inr (none_free, a, f, g) ↦ elim (alloc_pages-GivesOut b.allocator order valid) [
    | inl (k, l) ↦
        (let failed : (alloc b order).1 ≡ err k =
            f ∙ ap (λ (r : PhysicalAllocator × Result PhysAddr KernelError). r.1) l in
          cc)
    | inr (p, l, valid', more) ↦
        (let same : p ≡ block = cc in
          (
            subst IsValid (sym a) valid',
            λ x. omega (
              arith,
              once x,
              g x,
              more x,
              ap (λ (q : PhysAddr). inside q (block_size order) x) same,
              ap (λ (q : PhysicalAllocator). given_out q x) a,
            ),
          ))
  ]
]

refused-NoOverlap :
    (b : BuddyAllocator) (held : List Held) (order : ℕ) (k : KernelError)
    → NoOverlap b held
    → order < 11
    → (alloc b order).1 ≡ err k
    → NoOverlap (alloc b order).0 held
refused-NoOverlap b held order k (valid, once) h e = elim (alloc-Allocates b order h) [
  | inl (p, f, a, g) ↦ cc
  | inr (none_free, a, f, g) ↦ elim (alloc_pages-GivesOut b.allocator order valid) [
    | inr (p, l, valid', more) ↦ cc
    | inl (j, l) ↦
        same_pages b (alloc b order).0 held held (valid, once)
          (a ∙ ap (λ (r : PhysicalAllocator × Result PhysAddr KernelError). r.0) l)
          (λ x. omega (arith, g x))
  ]
]

freed-NoOverlap :
    (b : BuddyAllocator) (before after : List Held) (order : ℕ) (block : PhysAddr)
    → NoOverlap b (before ++ (block, order) ∷ after)
    → order < 11
    → NoOverlap (free b block order).0 (before ++ after)
freed-NoOverlap b before after order block (valid, once) h = (
  subst IsValid (sym (free-allocator b block order)) valid,
  λ x. elim (free-Released b block order h) [
    | inl (e, f) ↦ omega (
      arith,
      once x,
      f x,
      held_over-append before after block order x,
      ap (λ (p : PhysicalAllocator). given_out p x) (free-allocator b block order),
    )
    | inr (e, lost, f) ↦ omega (
      arith,
      once x,
      f x,
      held_over-append before after block order x,
      ap (λ (p : PhysicalAllocator). given_out p x) (free-allocator b block order),
    )
  ],
)

-- Whatever sequence of calls runs from a new allocator on a valid page allocator, where the callers
-- ask for orders up to 10 and free only blocks that they hold: at the end the page allocator is
-- valid, the free blocks and the held blocks contain an address of a page that is given out at most
-- once in all, and they contain no other address. So no memory is handed out twice.
pub run-NoOverlap :
    (a : PhysicalAllocator) (b : BuddyAllocator) (held : List Held)
    → IsValid a
    → Run a b held
    → NoOverlap b held
run-NoOverlap a b held valid started = new-NoOverlap a valid
run-NoOverlap a b held valid
      (allocated {b = b₀} {held = held₀} {order = order} {block = block} r h e) =
    allocated-NoOverlap b₀ held₀ order block (run-NoOverlap a b₀ held₀ valid r) h e
run-NoOverlap a b held valid (refused {b = b₀} {order = order} {e = k} r h e) =
    refused-NoOverlap b₀ held order k (run-NoOverlap a b₀ held valid r) h e
run-NoOverlap a b held valid (freed {b = b₀} before after order block r h) =
    freed-NoOverlap b₀ before after order block
      (run-NoOverlap a b₀ (before ++ (block, order) ∷ after) valid r) h
