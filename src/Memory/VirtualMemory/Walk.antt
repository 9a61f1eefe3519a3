-- ===== src/Memory/VirtualMemory/Walk.antt =====
-- The loop of `unmap` and `protect` of kernel/src/memory/virtual_mem.rs, which makes no table, and
-- the last-level table of a page.
use star_os_kernel.Prelude.{
  ℕ, zero, suc, ◌+◌, ◌%◌, ◌^◌, ◌<◌, ◌≡◌, ◌⊎◌, inl, inr, refl, sym, ap, ◌∙◌, Bool-cases,
  Option-cases, none, some, [], ◌∷◌, Result, ok, err, arith,
}
use star_os_kernel.Error.{KernelError, memory, not_mapped}
use star_os_kernel.Memory.Physical.{PhysAddr, page_size}
use star_os_kernel.Memory.PageTable.{VirtAddr, is_valid, phys_addr, table_index}
use star_os_kernel.Memory.VirtualMemory.{VirtualMemory, below, find_table, translate}
use star_os_kernel.Memory.VirtualMemory.Paths.{Path4, reach, reach_next, reach_stop}
use star_os_kernel.Memory.VirtualMemory.Missing.{absent, missing_from, missing}
use star_os_kernel.Memory.VirtualMemory.Tree.{IsTree, target-valid, target-invalid}
use star_os_kernel.Memory.VirtualMemory.Create.{path_from, entry_in, table_index-lt}
use star_os_kernel.Memory.VirtualMemory.Translate.{path_of, path_from_stop, answer, translate-reach}

-- The walk without new tables ends with the table at the end of the path, or where the path ends.
abbrev pub Finds : VirtualMemory → Path4 → Result PhysAddr KernelError → Type 0
Finds vm p r =
    ((r ≡ err (memory not_mapped)) × (reach vm.frames vm.root_table p ≡ none))
    ⊎ ((t : PhysAddr) × (r ≡ ok t) × (reach vm.frames vm.root_table p ≡ some t))

pub find_table-Finds :
    (vm : VirtualMemory) (virt : VirtAddr) (left level : ℕ) (p : Path4) (t : PhysAddr)
    → reach vm.frames vm.root_table p ≡ some t
    → Finds vm (path_from virt left level p) (find_table vm virt left level t)
unfolding find_table path_from below
find_table-Finds vm virt zero level p t at = inr (t, refl, at)
find_table-Finds vm virt (suc left) level p t at =
    (let i = table_index virt level in
      let next = reach_next vm.frames vm.root_table t i p at in
      elim (Bool-cases (is_valid (vm.frames t i))) [
        | inl v ↦
            rw (entry_in (vm.frames t) i (table_index-lt virt level), v)
              (find_table-Finds vm virt left (level + 1) (i ∷ p) (phys_addr (vm.frames t i))
                (next ∙ target-valid (vm.frames t i) v))
        | inr v ↦
            rw (entry_in (vm.frames t) i (table_index-lt virt level), v)
              (inl (
                refl,
                path_from_stop vm.frames vm.root_table virt left (level + 1) (i ∷ p)
                    (next ∙ target-invalid (vm.frames t i) v),
              ))
      ])

pub whole_path : (virt : VirtAddr) → table_index virt 3 ∷ path_from virt 3 0 [] ≡ path_of virt
unfolding path_of path_from
whole_path virt = refl

pub last_path :
    (virt : VirtAddr) (p : Path4)
    → table_index virt 3 ∷ p ≡ path_of virt
    → p ≡ path_from virt 3 0 []
last_path virt p whole = (let e = whole ∙ sym (whole_path virt) in cc)

-- The last-level table of a page.
abbrev pub IsLastTable : VirtualMemory → VirtAddr → PhysAddr → Type 0
IsLastTable vm virt t = reach vm.frames vm.root_table (path_from virt 3 0 []) ≡ some t

pub no_page :
    (vm : VirtualMemory) (virt : VirtAddr)
    → IsTree vm
    → virt < 2 ^ 48
    → reach vm.frames vm.root_table (path_from virt 3 0 []) ≡ none
    → translate vm virt ≡ err (memory not_mapped)
no_page vm virt tree hv e =
    translate-reach vm virt tree hv
    ∙ ap (answer (virt % page_size)) (
        ap (reach vm.frames vm.root_table) (sym (whole_path virt))
        ∙ reach_stop vm.frames vm.root_table (table_index virt 3) (path_from virt 3 0 []) e)

-- Where a table on the way is missing, the path stops.
missing_from_stop :
    (vm : VirtualMemory) (virt : VirtAddr) (left level : ℕ) (p : Path4)
    → 0 < missing_from vm virt left level p
    → reach vm.frames vm.root_table (path_from virt left level p) ≡ none
unfolding missing_from path_from absent
missing_from_stop vm virt zero level p h = absurd (omega arith)
missing_from_stop vm virt (suc left) level p h =
    (let q : Path4 = table_index virt level ∷ p in
      elim (Option-cases (reach vm.frames vm.root_table q)) [
        | inl e ↦ path_from_stop vm.frames vm.root_table virt left (level + 1) q e
        | inr (t, e) ↦
            (let here : absent (reach vm.frames vm.root_table q) ≡ 0 = ap absent e in
              missing_from_stop vm virt left (level + 1) q (omega arith))
      ])

pub missing_unmapped :
    (vm : VirtualMemory) (virt : VirtAddr)
    → IsTree vm
    → virt < 2 ^ 48
    → 0 < missing vm virt
    → translate vm virt ≡ err (memory not_mapped)
unfolding missing
missing_unmapped vm virt tree hv h = no_page vm virt tree hv (missing_from_stop vm virt 3 0 [] h)
