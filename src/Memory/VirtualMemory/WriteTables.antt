-- ===== src/Memory/VirtualMemory/WriteTables.antt =====
-- The tables that `map` of kernel/src/memory/virtual_mem.rs makes have no page that is both writable
-- and executable.
use native.Mathlib.Decide.{ℕ_discrete}
use star_os_kernel.Prelude.{
  ℕ, zero, suc, ◌+◌, ◌*◌, ◌<◌, ◌≤◌, ◌≡◌, inl, inr, refl, sym, ap, ap₂, ◌∙◌, true, false, Bool-cases,
  some, ◌∷◌, length, Result, ok, err, arith,
}
use star_os_kernel.Words.Marks.{mark}
use star_os_kernel.Error.{KernelError}
use star_os_kernel.Memory.Physical.{PhysAddr, page_size, alloc_page}
use star_os_kernel.Memory.Physical.Page.{alloc_page_cases}
use star_os_kernel.Memory.PageTable.{
  VirtAddr, PageTableEntry, validate_wx, is_valid, entry, table_index,
}
use star_os_kernel.Memory.VirtualMemory.{
  VirtualMemory, set_entry, and_then, link_table, next_table, create_tables,
}
use star_os_kernel.Memory.VirtualMemory.Paths.{Path4, reach}
use star_os_kernel.Memory.VirtualMemory.Tree.{
  IsTree, linked, reach-linked, not_owned, page_empty, invalid_zero,
}
use star_os_kernel.Memory.VirtualMemory.Missing.{absent}
use star_os_kernel.Memory.VirtualMemory.Leaf.{at_entry, above}
use star_os_kernel.Memory.VirtualMemory.Create.{Walks, next_table-Walks, entry_in, table_index-lt}
use star_os_kernel.Memory.VirtualMemory.Tree
use star_os_kernel.Memory.VirtualMemory.Leaf

-- Each valid entry of a last-level table passes the check.
abbrev pub AreWx : VirtualMemory → Type 0
AreWx vm =
    (q : Path4) (a : PhysAddr) (k : ℕ)
    → length q ≡ 3
    → reach vm.frames vm.root_table q ≡ some a
    → is_valid (vm.frames a k) ≡ true
    → validate_wx (vm.frames a k) ≡ ok tt

-- A write of an entry of a last-level table.
pub written-AreWx :
    (vm : VirtualMemory) (tree : IsTree vm) (p : Path4) (t : PhysAddr) (i : ℕ) (e : PageTableEntry)
    → reach vm.frames vm.root_table p ≡ some t
    → length p ≡ 3
    → AreWx vm
    → (is_valid e ≡ true → validate_wx e ≡ ok tt)
    → AreWx (set_entry vm t i e)
unfolding set_entry
written-AreWx vm tree p t i e at last wx good q a k h f v =
    (let old : reach vm.frames vm.root_table q ≡ some a =
        sym (above vm tree p t i e at last q (omega arith)) ∙ f in
      elim (ℕ_discrete a t) [
        | no ne ↦
            (let same = Leaf.elsewhere vm tree p t i e at last a k (λ u. ne u.0) in
              ap validate_wx same ∙ wx q a k h old (sym (ap is_valid same) ∙ v))
        | yes ea ↦ elim (ℕ_discrete k i) [
          | no ne ↦
              (let same = Leaf.elsewhere vm tree p t i e at last a k (λ u. ne u.1) in
                ap validate_wx same ∙ wx q a k h old (sym (ap is_valid same) ∙ v))
          | yes ek ↦
              (let same : (set_entry vm t i e).frames a k ≡ e =
                  ap₂ (λ (x : PhysAddr) (y : ℕ). (set_entry vm t i e).frames x y) ea ek
                  ∙ at_entry vm tree p t i e at last in
                ap validate_wx same ∙ good (sym (ap is_valid same) ∙ v))
        ]
      ])

-- A new table, which lies above the last level or is empty.
linked-AreWx :
    (vm : VirtualMemory) (tree : IsTree vm) (p : Path4) (t : PhysAddr) (i n : ℕ)
    → reach vm.frames vm.root_table p ≡ some t
    → length p ≤ 2
    → is_valid (vm.frames t i) ≡ false
    → n < vm.allocator.total_pages
    → mark vm.allocator.bitmap n ≡ 0
    → AreWx vm
    → AreWx (linked vm t i n)
linked-AreWx vm tree p t i n at high empty inside fresh wx q a k h f v =
    elim (reach-linked vm tree p t i n at high empty inside fresh q (omega arith)) [
      | inl (e, g) ↦
          (let new_page : PhysAddr = vm.allocator.base_addr + n * page_size in
            let ea : a ≡ new_page = cc in
            let none_there : is_valid ((linked vm t i n).frames a k) ≡ false =
              ap (λ (x : PhysAddr). is_valid ((linked vm t i n).frames x k)) ea
              ∙ ap is_valid (page_empty vm tree p t i n at high empty inside fresh k)
              ∙ invalid_zero in
            cc)
      | inr same_way ↦
          (let old : reach vm.frames vm.root_table q ≡ some a = sym same_way ∙ f in
            let same : (linked vm t i n).frames a k ≡ vm.frames a k =
              Tree.elsewhere vm tree p t i n at high empty inside fresh a k
                (not_owned vm tree p t i n at high empty inside fresh a
                  (tree.owned q a (omega arith) old))
                (λ u. absurd (
                  omega (
                    arith,
                    ap length
                        (tree.unique q p t (omega arith) (omega arith) (old ∙ ap some u.0) at),
                  ))) in
            ap validate_wx same ∙ wx q a k h old (sym (ap is_valid same) ∙ v))
    ]

link_table-AreWx :
    (vm : VirtualMemory) (p : Path4) (t : PhysAddr) (i : ℕ)
    → IsTree vm
    → reach vm.frames vm.root_table p ≡ some t
    → length p ≤ 2
    → is_valid (vm.frames t i) ≡ false
    → AreWx vm
    → AreWx (link_table vm t i (alloc_page vm.allocator)).0
unfolding link_table set_entry
link_table-AreWx vm p t i tree at high empty wx = elim (alloc_page_cases vm.allocator tree.sound) [
  | inl (z, e) ↦ rw e wx
  | inr (n, first, e, marks, valid) ↦
      rw e (linked-AreWx vm tree p t i n at high empty first.0 first.1 wx)
]

next_table-AreWx :
    (vm : VirtualMemory) (p : Path4) (t : PhysAddr) (i : ℕ)
    → IsTree vm
    → reach vm.frames vm.root_table p ≡ some t
    → length p ≤ 2
    → i < 512
    → AreWx vm
    → AreWx (next_table vm t i (entry (vm.frames t) i)).0
unfolding next_table
next_table-AreWx vm p t i tree at high hi wx = elim (Bool-cases (is_valid (vm.frames t i))) [
  | inl v ↦ rw (entry_in (vm.frames t) i hi, v) wx
  | inr v ↦ rw (entry_in (vm.frames t) i hi, v) (link_table-AreWx vm p t i tree at high v wx)
]

pub and_then-AreWx :
    {A B : Type 0} (r : VirtualMemory × Result A KernelError)
    (next : VirtualMemory → A → VirtualMemory × Result B KernelError)
    → AreWx r.0
    → ((a : A) → r.1 ≡ ok a → AreWx (next r.0 a).0)
    → AreWx (and_then r next).0
unfolding and_then
and_then-AreWx (vm, err e) next wx go = wx
and_then-AreWx (vm, ok a) next wx go = go a refl

-- Where a walk ends with a table.
pub walked :
    (vm : VirtualMemory) (q : Path4) (n : ℕ) (r : VirtualMemory × Result PhysAddr KernelError)
    (a : PhysAddr)
    → Walks vm q n r
    → r.1 ≡ ok a
    → IsTree r.0 × (reach r.0.frames r.0.root_table q ≡ some a)
walked vm q n r a (x, inl (f, short)) e = cc
walked vm q n r a (x, inr (t, f, at, count)) e =
    (let same : t ≡ a = cc in (x.tree, at ∙ ap some same))

pub create_tables-AreWx :
    (vm : VirtualMemory) (virt : VirtAddr) (left level : ℕ) (p : Path4) (t : PhysAddr)
    → IsTree vm
    → reach vm.frames vm.root_table p ≡ some t
    → length p + left ≡ 3
    → AreWx vm
    → AreWx (create_tables vm virt left level t).0
unfolding create_tables
create_tables-AreWx vm virt zero level p t tree at h wx = wx
create_tables-AreWx vm virt (suc left) level p t tree at h wx =
    (let i = table_index virt level in
      let r = next_table vm t i (entry (vm.frames t) i) in
      and_then-AreWx r (λ vm' table'. create_tables vm' virt left (level + 1) table')
        (next_table-AreWx vm p t i tree at (omega arith) (table_index-lt virt level) wx)
        (λ a e.
          (let (tree', at') =
              walked vm (i ∷ p) (absent (reach vm.frames vm.root_table (i ∷ p))) r a
                (next_table-Walks vm p t i tree at (omega arith) (table_index-lt virt level)) e in
            create_tables-AreWx r.0 virt left (level + 1) (i ∷ p) a tree' at' (omega arith)
              (next_table-AreWx vm p t i tree at (omega arith) (table_index-lt virt level) wx))))
