-- ===== src/Memory/VirtualMemory/Tree.antt =====
-- The page tables of kernel/src/memory/virtual_mem.rs as a tree in memory that the allocator gave out.
use native.Mathlib.Decide.{ℕ_discrete}
use star_os_kernel.Prelude.{
  ℕ, ◌+◌, ◌*◌, ◌%◌, ◌^◌, ◌<◌, ◌≤◌, ◌≡◌, ◌≢◌, ◌⊎◌, inl, inr, refl, sym, ap, ◌∙◌, true, false, none,
  some, [], ◌∷◌, length, Array, store, store_self, store_ne, arith,
}
use star_os_kernel.Words.{bit}
use star_os_kernel.Words.Marks.{mark}
use star_os_kernel.Memory.Physical.{PhysAddr, PhysicalAllocator, page_size}
use star_os_kernel.Memory.Physical.Invariant.{IsValid}
use star_os_kernel.Memory.Physical.Page.{taken}
use star_os_kernel.Memory.PageTable.{PageTable, is_valid, is_table, phys_addr, clear}
use star_os_kernel.Memory.VirtualMemory.{VirtualMemory}
use star_os_kernel.Memory.PageTable.Entry.{link_to, link_to-valid, phys_addr-link_to, is_valid-bit}
use star_os_kernel.Memory.VirtualMemory.Paths.{
  Path4, target, reach, reach_next, reach_stop, Through, through_dec, Through-longer, AgreeBut,
  OnlyPath, reach-unchanged,
}

-- The address of an allocated page.
abbrev pub IsOwned : PhysicalAllocator → PhysAddr → Type 0
IsOwned a addr =
    (n : ℕ) × (n < a.total_pages) × (addr ≡ a.base_addr + n * page_size) × (mark a.bitmap n ≡ 1)

-- The allocator is valid, its pages are aligned and have 48-bit addresses; each table lies in an
-- allocated page and just one path leads to it; and an entry above the last level leads to a table.
pub record IsTree (vm : VirtualMemory) : Type 0 where
  pub sound : IsValid vm.allocator
  pub aligned : vm.allocator.base_addr % page_size ≡ 0
  pub low : vm.allocator.base_addr + vm.allocator.total_pages * page_size ≤ 2 ^ 48
  pub unique :
      (p q : Path4) (a : PhysAddr)
      → length p ≤ 3
      → length q ≤ 3
      → reach vm.frames vm.root_table p ≡ some a
      → reach vm.frames vm.root_table q ≡ some a
      → p ≡ q
  pub owned :
      (p : Path4) (a : PhysAddr)
      → length p ≤ 3
      → reach vm.frames vm.root_table p ≡ some a
      → IsOwned vm.allocator a
  pub tables :
      (p : Path4) (a : PhysAddr) (i : ℕ)
      → length p ≤ 2
      → reach vm.frames vm.root_table p ≡ some a
      → is_valid (vm.frames a i) ≡ true
      → is_table (vm.frames a i) ≡ true

pub invalid_zero : is_valid 0 ≡ false
unfolding bit
invalid_zero = is_valid-bit 0

pub target-invalid : (e : ℕ) → is_valid e ≡ false → target e ≡ none
unfolding target
target-invalid e h = rw h refl

pub target-valid : (e : ℕ) → is_valid e ≡ true → target e ≡ some (phys_addr e)
unfolding target
target-valid e h = rw h refl

-- Where a path ends, every path through it does.
pub reach_beyond :
    (frames : Array PageTable) (root : PhysAddr) (x q : Path4)
    → reach frames root x ≡ none
    → Through x q
    → reach frames root q ≡ none
reach_beyond frames root x [] e h = absurd h
reach_beyond frames root x (j ∷ q) e (inl f) = ap (reach frames root) f ∙ e
reach_beyond frames root x (j ∷ q) e (inr h) =
    reach_stop frames root j q (reach_beyond frames root x q e h)

-- The memory after page `n` becomes a table, empty, linked at entry `i` of table `t`.
abbrev pub linked : VirtualMemory → PhysAddr → ℕ → ℕ → VirtualMemory
linked vm t i n =
    let page = vm.allocator.base_addr + n * page_size in
    let frames' : Array PageTable = store vm.frames page clear in
    record vm {
      allocator = taken vm.allocator n;
      frames = store frames' t (store (frames' t) i (link_to page));
    }

module _ (vm : VirtualMemory) (tree : IsTree vm) (p : Path4) (t : PhysAddr) (i n : ℕ)
    (at : reach vm.frames vm.root_table p ≡ some t) (high : length p ≤ 2)
    (empty : is_valid (vm.frames t i) ≡ false) (inside : n < vm.allocator.total_pages)
    (fresh : mark vm.allocator.bitmap n ≡ 0) where
  abbrev pub page : PhysAddr
  page = vm.allocator.base_addr + n * page_size

  abbrev pub new_frames : Array PageTable
  new_frames = (linked vm t i n).frames

  pub not_owned : (a : PhysAddr) → IsOwned vm.allocator a → a ≢ page
  not_owned a (m, hm, e, one) f =
      (let same : m ≡ n = omega arith in
        let g : mark vm.allocator.bitmap m ≡ mark vm.allocator.bitmap n =
          ap (mark vm.allocator.bitmap) same in
        omega arith)

  table_ne : t ≢ page
  table_ne = not_owned t (tree.owned p t (omega arith) at)

  pub at_link : new_frames t i ≡ link_to page
  at_link =
      ap (λ (e : PageTable). e i)
        (store_self (store vm.frames page clear) t
          (store (store vm.frames page clear t) i (link_to page)))
      ∙ store_self (store vm.frames page clear t) i (link_to page)

  pub page_empty : (j : ℕ) → new_frames page j ≡ 0
  unfolding clear
  page_empty j = ground (arith, table_ne)

  pub elsewhere :
      (a : PhysAddr) (j : ℕ) → a ≢ page → ¬ ((a ≡ t) × (j ≡ i)) → new_frames a j ≡ vm.frames a j
  elsewhere a j ne away = elim (ℕ_discrete a t) [
    | yes e ↦
        ap (λ (x : PhysAddr). new_frames x j) e
        ∙ ap (λ (e : PageTable). e j)
            (store_self (store vm.frames page clear) t
              (store (store vm.frames page clear t) i (link_to page)))
        ∙ store_ne (store vm.frames page clear t) i j (link_to page) (λ f. away (e, f))
        ∙ ap (λ (x : PageTable). x j) (store_ne vm.frames page t clear table_ne)
        ∙ ap (λ (x : PhysAddr). vm.frames x j) (sym e)
    | no h ↦
        ap (λ (x : PageTable). x j)
          (store_ne (store vm.frames page clear) t a
              (store (store vm.frames page clear t) i (link_to page)) h
            ∙ store_ne vm.frames page a clear ne)
  ]

  same_but : AgreeBut vm.frames new_frames vm.root_table t i p 4
  same_but q a j h e away = elsewhere a j (not_owned a (tree.owned q a (omega arith) e)) away

  only : OnlyPath vm.frames new_frames vm.root_table t i p 4
  only q h e = tree.unique q p t (omega arith) (omega arith) e at

  pub page_addr : phys_addr (link_to page) ≡ page
  page_addr = phys_addr-link_to page (omega (arith, tree.aligned)) (omega (arith, tree.low))

  not-Through_self : ¬ Through (i ∷ p) p
  not-Through_self h = elim (Through-longer (i ∷ p) p h) [
    | inl e ↦ absurd (omega (arith, ap length e))
    | inr lt ↦ omega arith
  ]

  pub to_page : reach new_frames vm.root_table (i ∷ p) ≡ some page
  to_page =
      reach_next new_frames vm.root_table t i p (
        reach-unchanged vm.frames new_frames vm.root_table t i p 4 p same_but only (omega arith)
          not-Through_self
        ∙ at)
      ∙ ap target at_link
      ∙ target-valid (link_to page) (link_to-valid page)
      ∙ ap some page_addr

  no_path : reach vm.frames vm.root_table (i ∷ p) ≡ none
  no_path = reach_next vm.frames vm.root_table t i p at ∙ target-invalid (vm.frames t i) empty

  -- Behind the new table no path goes on.
  behind : (q : Path4) → Through (i ∷ p) q → (q ≡ i ∷ p) ⊎ (reach new_frames vm.root_table q ≡ none)
  behind [] h = absurd h
  behind (j ∷ q) (inl e) = inl e
  behind (j ∷ q) (inr h) = inr (elim (behind q h) [
    | inr e ↦ reach_stop new_frames vm.root_table j q e
    | inl e ↦
        reach_next new_frames vm.root_table page j q
          (ap (reach new_frames vm.root_table) e ∙ to_page)
        ∙ ap target (page_empty j)
        ∙ target-invalid 0 invalid_zero
  ])

  -- The link adds just the path to the new table.
  pub reach-linked :
      (q : Path4)
      → length q ≤ 4
      → ((q ≡ i ∷ p) × (reach new_frames vm.root_table q ≡ some page))
        ⊎ (reach new_frames vm.root_table q ≡ reach vm.frames vm.root_table q)
  reach-linked q h = elim (through_dec (i ∷ p) q) [
    | no away ↦
        inr (reach-unchanged vm.frames new_frames vm.root_table t i p 4 q same_but only h away)
    | yes u ↦ elim (behind q u) [
      | inl e ↦ inl (e, ap (reach new_frames vm.root_table) e ∙ to_page)
      | inr e ↦ inr (e ∙ sym (reach_beyond vm.frames vm.root_table (i ∷ p) q no_path u))
    ]
  ]
