-- ===== src/Memory/VirtualMemory/WriteExecute.antt =====
-- No page of kernel/src/memory/virtual_mem.rs is both writable and executable.
use star_os_kernel.Prelude.{
  ℕ, ◌<◌, ◌≡◌, inl, inr, refl, sym, ap, ◌∙◌, Bool, true, false, Bool-cases, not, ◌||◌, some, [],
  length, Result, ok, err, if◌then◌else◌,
}
use star_os_kernel.Error.{KernelError}
use star_os_kernel.Memory.Physical.{PhysAddr, is_aligned}
use star_os_kernel.Memory.PageTable.{
  VirtAddr, Flags, flag_valid, union, validate_wx, is_valid, set_addr, set_flags, entry,
  table_index,
}
use star_os_kernel.Memory.VirtualMemory.{
  VirtualMemory, create_tables, set_leaf, map_page, map, find_table, leaf_of, clear_entry,
  clear_leaf, unmap, protect_entry, protect_leaf, protect_page, protect,
}
use star_os_kernel.Memory.VirtualMemory.Paths.{Path4, reach}
use star_os_kernel.Memory.VirtualMemory.Tree.{IsTree, invalid_zero}
use star_os_kernel.Memory.VirtualMemory.Missing.{missing_from}
use star_os_kernel.Memory.VirtualMemory.Create.{
  create_tables-Walks, entry_in, table_index-lt, path_from,
}
use star_os_kernel.Memory.VirtualMemory.Walk.{Finds, find_table-Finds}
use star_os_kernel.Memory.PageTable.WriteCheck.{validate_wx-set_addr, validate_wx-set_flags}
use star_os_kernel.Memory.VirtualMemory.WriteTables.{
  AreWx, written-AreWx, and_then-AreWx, walked, create_tables-AreWx,
}

set_leaf-AreWx :
    (vm : VirtualMemory) (tree : IsTree vm) (p : Path4) (t : PhysAddr) (i : ℕ) (phys : PhysAddr)
    (flags : Flags)
    → reach vm.frames vm.root_table p ≡ some t
    → length p ≡ 3
    → i < 512
    → validate_wx flags ≡ ok tt
    → AreWx vm
    → AreWx (set_leaf phys flags i vm t (entry (vm.frames t) i)).0
unfolding set_leaf
set_leaf-AreWx vm tree p t i phys flags at last hi good wx =
    elim (Bool-cases (is_valid (vm.frames t i))) [
      | inl v ↦ rw (entry_in (vm.frames t) i hi, v) wx
      | inr v ↦
          rw (entry_in (vm.frames t) i hi, v)
            (written-AreWx vm tree p t i (set_addr phys (union flags flag_valid)) at last wx
              (λ w. validate_wx-set_addr phys flags ∙ good))
    ]

root_path : (vm : VirtualMemory) → reach vm.frames vm.root_table [] ≡ some vm.root_table
unfolding reach
root_path vm = refl

three : (virt : VirtAddr) → length (path_from virt 3 0 []) ≡ 3
unfolding path_from
three virt = refl

map_page-AreWx :
    (vm : VirtualMemory) (virt : VirtAddr) (phys : PhysAddr) (flags : Flags)
    (r : Result (Unit {0}) KernelError)
    → IsTree vm
    → validate_wx flags ≡ r
    → AreWx vm
    → AreWx (map_page vm virt phys flags r).0
unfolding map_page
map_page-AreWx vm virt phys flags (err e) tree good wx = wx
map_page-AreWx vm virt phys flags (ok done) tree good wx =
    (let i = table_index virt 3 in
      let r = create_tables vm virt 3 0 vm.root_table in
      let kept = create_tables-AreWx vm virt 3 0 [] vm.root_table tree (root_path vm) refl wx in
      and_then-AreWx r (λ vm' table. set_leaf phys flags i vm' table (entry (vm'.frames table) i))
        kept
        (λ a e.
          (let (tree', at') =
              walked vm (path_from virt 3 0 []) (missing_from vm virt 3 0 []) r a
                (create_tables-Walks vm virt 3 0 [] vm.root_table tree (root_path vm) refl) e in
            set_leaf-AreWx r.0 tree' (path_from virt 3 0 []) a i phys flags at' (three virt)
              (table_index-lt virt 3) good kept)))

clear_leaf-AreWx :
    (vm : VirtualMemory) (tree : IsTree vm) (p : Path4) (i : ℕ) (r : Result PhysAddr KernelError)
    → length p ≡ 3
    → i < 512
    → Finds vm p r
    → AreWx vm
    → AreWx (clear_leaf vm i r).0
unfolding clear_leaf clear_entry leaf_of
clear_leaf-AreWx vm tree p i (err e) last hi found wx = wx
clear_leaf-AreWx vm tree p i (ok t) last hi (inl (f, g)) wx = cc
clear_leaf-AreWx vm tree p i (ok t) last hi (inr (t', f, at)) wx =
    (let same : t' ≡ t = cc in
      elim (Bool-cases (is_valid (vm.frames t i))) [
        | inl v ↦
            rw (entry_in (vm.frames t) i hi, v)
              (written-AreWx vm tree p t i 0 (at ∙ ap some same) last wx
                (λ w. (let z : false ≡ true = sym invalid_zero ∙ w in cc)))
        | inr v ↦ rw (entry_in (vm.frames t) i hi, v) wx
      ])

protect_leaf-AreWx :
    (vm : VirtualMemory) (tree : IsTree vm) (p : Path4) (i : ℕ) (flags : Flags)
    (r : Result PhysAddr KernelError)
    → length p ≡ 3
    → i < 512
    → validate_wx flags ≡ ok tt
    → Finds vm p r
    → AreWx vm
    → AreWx (protect_leaf vm flags i r).0
unfolding protect_leaf protect_entry leaf_of
protect_leaf-AreWx vm tree p i flags (err e) last hi good found wx = wx
protect_leaf-AreWx vm tree p i flags (ok t) last hi good (inl (f, g)) wx = cc
protect_leaf-AreWx vm tree p i flags (ok t) last hi good (inr (t', f, at)) wx =
    (let same : t' ≡ t = cc in
      elim (Bool-cases (is_valid (vm.frames t i))) [
        | inl v ↦
            rw (entry_in (vm.frames t) i hi, v)
              (written-AreWx vm tree p t i (set_flags (vm.frames t i) (union flags flag_valid))
                (at ∙ ap some same) last wx
                (λ w. validate_wx-set_flags (vm.frames t i) flags ∙ good))
        | inr v ↦ rw (entry_in (vm.frames t) i hi, v) wx
      ])

protect_page-AreWx :
    (vm : VirtualMemory) (virt : VirtAddr) (flags : Flags) (r : Result (Unit {0}) KernelError)
    → IsTree vm
    → validate_wx flags ≡ r
    → AreWx vm
    → AreWx (protect_page vm virt flags r).0
unfolding protect_page
protect_page-AreWx vm virt flags (err e) tree good wx = wx
protect_page-AreWx vm virt flags (ok done) tree good wx =
    protect_leaf-AreWx vm tree (path_from virt 3 0 []) (table_index virt 3) flags
      (find_table vm virt 3 0 vm.root_table) (three virt) (table_index-lt virt 3) good
      (find_table-Finds vm virt 3 0 [] vm.root_table (root_path vm)) wx

chosen-AreWx :
    {A : Type 0} (c : Bool) (a b : VirtualMemory × A)
    → AreWx a.0
    → AreWx b.0
    → AreWx (if c then a else b).0
chosen-AreWx true a b f g = f
chosen-AreWx false a b f g = g

-- In a tree of tables in which no valid entry of a last-level table is writable and executable, none
-- is after `map`, `unmap` or `protect`, whatever the arguments and whatever the call returns.
pub calls-AreWx :
    (vm : VirtualMemory) (virt : VirtAddr) (phys : PhysAddr) (flags : Flags)
    → IsTree vm
    → AreWx vm
    → AreWx (map vm virt phys flags).0 × AreWx (unmap vm virt).0 × AreWx (protect vm virt flags).0
unfolding map unmap protect
calls-AreWx vm virt phys flags tree wx = (
  chosen-AreWx (not (is_aligned virt) || not (is_aligned phys)) _ _ wx
      (map_page-AreWx vm virt phys flags (validate_wx flags) tree refl wx),
  chosen-AreWx (is_aligned virt) _ _
      (clear_leaf-AreWx vm tree (path_from virt 3 0 []) (table_index virt 3)
        (find_table vm virt 3 0 vm.root_table) (three virt) (table_index-lt virt 3)
        (find_table-Finds vm virt 3 0 [] vm.root_table (root_path vm)) wx)
      wx,
  chosen-AreWx (is_aligned virt) _ _
      (protect_page-AreWx vm virt flags (validate_wx flags) tree refl wx) wx,
)
