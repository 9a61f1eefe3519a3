-- ===== src/Memory/VirtualMemory/Create.antt =====
-- The loop of `map` in kernel/src/memory/virtual_mem.rs that makes the tables on the way to a page.
use star_os_kernel.Prelude.{
  ℕ, zero, suc, ◌+◌, ◌*◌, ◌<◌, ◌≤◌, ◌≡◌, ◌⊎◌, inl, inr, refl, sym, ap, ◌∙◌, subst, false,
  Bool-cases, some, ◌∷◌, length, Result, ok, err, arith,
}
use star_os_kernel.Words.Marks.{mark, count_clear-with_mark}
use star_os_kernel.Error.{KernelError, memory, out_of_memory}
use star_os_kernel.Memory.Physical.{PhysAddr, PhysicalAllocator, page_size, alloc_page}
use star_os_kernel.Memory.Physical.Invariant.{IsValid}
use star_os_kernel.Memory.Physical.Page.{taken, alloc_page_cases}
use star_os_kernel.Memory.PageTable.{VirtAddr, PageTable, is_valid, phys_addr, entry, table_index}
use star_os_kernel.Memory.VirtualMemory.{
  VirtualMemory, set_entry, link_table, next_table, create_tables, and_then,
}
use star_os_kernel.Memory.PageTable.Entry.{link_to, table_index-eq}
use star_os_kernel.Memory.VirtualMemory.Paths.{Path4, reach, reach_next}
use star_os_kernel.Memory.VirtualMemory.Missing.{absent, missing_from, missing_from-same}
use star_os_kernel.Memory.VirtualMemory.Tree.{
  IsTree, linked, reach-linked, to_page, page_addr, target-valid, target-invalid,
}
use star_os_kernel.Memory.VirtualMemory.Link.{linked-IsTree}

-- The tables are still a tree with the same root, and the paths of full length lead where they did.
pub record Extends (vm vm' : VirtualMemory) : Type 0 where
  pub tree : IsTree vm'
  pub root : vm'.root_table ≡ vm.root_table
  pub leaves :
      (q : Path4)
      → length q ≡ 4
      → reach vm'.frames vm'.root_table q ≡ reach vm.frames vm.root_table q

pub Extends-self : (vm : VirtualMemory) → IsTree vm → Extends vm vm
Extends-self vm tree = record { tree = tree; root = refl; leaves = λ q h. refl }

Extends-then : (a b c : VirtualMemory) → Extends a b → Extends b c → Extends a c
Extends-then a b c x y = record {
  tree = y.tree;
  root = y.root ∙ x.root;
  leaves = λ q h. y.leaves q h ∙ x.leaves q h;
}

-- A walk that has `n` tables to make ends with the table at the end of a path, `n` pages less being
-- free, or it has less than `n` free pages.
abbrev pub Walks : VirtualMemory → Path4 → ℕ → VirtualMemory × Result PhysAddr KernelError → Type 0
Walks vm q n result =
    (Extends vm result.0)
    × (((result.1 ≡ err (memory out_of_memory)) × (vm.allocator.free_count < n))
        ⊎ ((t : PhysAddr) × (result.1 ≡ ok t)
            × (reach result.0.frames result.0.root_table q ≡ some t)
            × (result.0.allocator.free_count + n ≡ vm.allocator.free_count)))

pub entry_in : (table : PageTable) (i : ℕ) → i < 512 → entry table i ≡ some (table i)
unfolding entry
entry_in table i h = ground arith

linked-Extends :
    (vm : VirtualMemory) (p : Path4) (t : PhysAddr) (i n : ℕ)
    → IsTree vm
    → reach vm.frames vm.root_table p ≡ some t
    → length p ≤ 2
    → is_valid (vm.frames t i) ≡ false
    → n < vm.allocator.total_pages
    → mark vm.allocator.bitmap n ≡ 0
    → Extends vm (linked vm t i n)
linked-Extends vm p t i n tree at high empty inside fresh = record {
  tree = linked-IsTree vm tree p t i n at high empty inside fresh;
  root = refl;
  leaves = λ q h. elim (reach-linked vm tree p t i n at high empty inside fresh q (omega arith)) [
    | inl (e, f) ↦ absurd (omega (arith, ap length e))
    | inr same ↦ same
  ];
}

taken_count :
    (a : PhysicalAllocator) (n : ℕ)
    → IsValid a
    → n < a.total_pages
    → mark a.bitmap n ≡ 0
    → (taken a n).free_count + 1 ≡ a.free_count
taken_count a n (fits, words, count, beyond, ends) h clear =
    ground (arith, count_clear-with_mark a.bitmap n a.total_pages clear)

link_table-Walks :
    (vm : VirtualMemory) (p : Path4) (t : PhysAddr) (i : ℕ)
    → IsTree vm
    → reach vm.frames vm.root_table p ≡ some t
    → length p ≤ 2
    → is_valid (vm.frames t i) ≡ false
    → Walks vm (i ∷ p) 1 (link_table vm t i (alloc_page vm.allocator))
unfolding link_table set_entry
link_table-Walks vm p t i tree at high empty = elim (alloc_page_cases vm.allocator tree.sound) [
  | inl (z, e) ↦ rw e (Extends-self vm tree, inl (refl, omega arith))
  | inr (n, first, e, marks, valid) ↦
      (let new_page : PhysAddr = vm.allocator.base_addr + n * page_size in
        rw e (
          linked-Extends vm p t i n tree at high empty first.0 first.1,
          inr (
            phys_addr (link_to new_page),
            refl,
            to_page vm tree p t i n at high empty first.0 first.1
                ∙ ap some (sym (page_addr vm tree p t i n at high empty first.0 first.1)),
            taken_count vm.allocator n tree.sound first.0 first.1,
          ),
        ))
]

pub next_table-Walks :
    (vm : VirtualMemory) (p : Path4) (t : PhysAddr) (i : ℕ)
    → IsTree vm
    → reach vm.frames vm.root_table p ≡ some t
    → length p ≤ 2
    → i < 512
    → Walks vm
        (i ∷ p)
        (absent (reach vm.frames vm.root_table (i ∷ p)))
        (next_table vm t i (entry (vm.frames t) i))
unfolding next_table absent
next_table-Walks vm p t i tree at high hi = elim (Bool-cases (is_valid (vm.frames t i))) [
  | inl v ↦
      (let there = reach_next vm.frames vm.root_table t i p at ∙ target-valid (vm.frames t i) v in
        rw (entry_in (vm.frames t) i hi, v, there)
          (Extends-self vm tree, inr (phys_addr (vm.frames t i), refl, refl, omega arith)))
  | inr v ↦
      (let stop = reach_next vm.frames vm.root_table t i p at ∙ target-invalid (vm.frames t i) v in
        rw (entry_in (vm.frames t) i hi, v, stop) (link_table-Walks vm p t i tree at high v))
]

-- A turn of the loop changes no path that is longer than the one to the table.
next_table_deeper :
    (vm : VirtualMemory) (p : Path4) (t : PhysAddr) (i : ℕ) (q : Path4)
    → IsTree vm
    → reach vm.frames vm.root_table p ≡ some t
    → length p ≤ 2
    → i < 512
    → length p + 1 < length q
    → length q ≤ 4
    → let vm' = (next_table vm t i (entry (vm.frames t) i)).0 in
      reach vm'.frames vm'.root_table q ≡ reach vm.frames vm.root_table q
unfolding next_table link_table set_entry
next_table_deeper vm p t i q tree at high hi longer short =
    elim (Bool-cases (is_valid (vm.frames t i))) [
      | inl v ↦ rw (entry_in (vm.frames t) i hi, v) refl
      | inr v ↦ elim (alloc_page_cases vm.allocator tree.sound) [
        | inl (z, e) ↦ rw (entry_in (vm.frames t) i hi, v, e) refl
        | inr (n, first, e, marks, valid) ↦
            rw (entry_in (vm.frames t) i hi, v, e)
              (elim (reach-linked vm tree p t i n at high v first.0 first.1 q short) [
                | inl (f, g) ↦ absurd (omega (arith, ap length f))
                | inr same ↦ same
              ])
      ]
    ]

-- The path of the indices of an address from one level on.
unfoldable pub path_from : VirtAddr → ℕ → ℕ → Path4 → Path4
path_from virt zero level p = p
path_from virt (suc left) level p = path_from virt left (level + 1) (table_index virt level ∷ p)

pub table_index-lt : (virt : VirtAddr) (level : ℕ) → table_index virt level < 512
table_index-lt virt level = omega (arith, table_index-eq virt level)

and_then-Walks :
    (vm : VirtualMemory) (r : VirtualMemory × Result PhysAddr KernelError)
    (next : VirtualMemory → PhysAddr → VirtualMemory × Result PhysAddr KernelError) (q q' : Path4)
    (n n' : ℕ)
    → Walks vm q n r
    → ((t : PhysAddr)
        → IsTree r.0
        → reach r.0.frames r.0.root_table q ≡ some t
        → Walks r.0 q' n' (next r.0 t))
    → Walks vm q' (n + n') (and_then r next)
unfolding and_then
and_then-Walks vm (vm', err e) next q q' n n' (x, inl (f, short)) go = (x, inl (f, omega arith))
and_then-Walks vm (vm', err e) next q q' n n' (x, inr (t, f, at, count)) go = cc
and_then-Walks vm (vm', ok t) next q q' n n' (x, inl (f, short)) go = cc
and_then-Walks vm (vm', ok t) next q q' n n' (x, inr (t', f, at, count)) go =
    (let same : t ≡ t' = cc in
      let later = go t x.tree (at ∙ ap some (sym same)) in
      (
        Extends-then vm vm' (next vm' t).0 x later.0,
        elim later.1 [
          | inl (g, short) ↦ inl (g, omega arith)
          | inr (t2, g, at2, count2) ↦ inr (t2, g, at2, omega arith)
        ],
      ))

-- The loop of `map` keeps the tree of tables and every path of full length. It ends with the table
-- at the end of the path of the address, each table that was missing made from a free page, or, where
-- fewer pages are free than tables are missing, with `OutOfMemory`.
pub create_tables-Walks :
    (vm : VirtualMemory) (virt : VirtAddr) (left level : ℕ) (p : Path4) (t : PhysAddr)
    → IsTree vm
    → reach vm.frames vm.root_table p ≡ some t
    → length p + left ≡ 3
    → Walks vm
        (path_from virt left level p)
        (missing_from vm virt left level p)
        (create_tables vm virt left level t)
unfolding create_tables path_from missing_from
create_tables-Walks vm virt zero level p t tree at h =
    (Extends-self vm tree, inr (t, refl, at, omega arith))
create_tables-Walks vm virt (suc left) level p t tree at h =
    (let i = table_index virt level in
      let r = next_table vm t i (entry (vm.frames t) i) in
      let same : missing_from r.0 virt left (level + 1) (i ∷ p)
          ≡ missing_from vm virt left (level + 1) (i ∷ p) =
        missing_from-same vm r.0 virt left (level + 1) (i ∷ p) (λ q longer short.
          next_table_deeper vm p t i q tree at (omega arith) (table_index-lt virt level)
            (omega arith) (omega arith)) in
      and_then-Walks vm r (λ vm' table'. create_tables vm' virt left (level + 1) table') (i ∷ p)
        (path_from virt left (level + 1) (i ∷ p)) (absent (reach vm.frames vm.root_table (i ∷ p)))
        (missing_from vm virt left (level + 1) (i ∷ p))
        (next_table-Walks vm p t i tree at (omega arith) (table_index-lt virt level))
        (λ t' tree' at'.
          subst
            (λ (n : ℕ).
              Walks r.0 (path_from virt left (level + 1) (i ∷ p)) n
                (create_tables r.0 virt left (level + 1) t'))
            same
            (create_tables-Walks r.0 virt left (level + 1) (i ∷ p) t' tree' at' (omega arith))))
