-- ===== src/Memory/VirtualMemory/Unmap.antt =====
-- `unmap` and `protect` of kernel/src/memory/virtual_mem.rs in terms of `translate`.
use native.Mathlib.Decide.{ℕ_discrete}
use star_os_kernel.Prelude.{
  ℕ, ◌/◌, ◌%◌, ◌^◌, ◌<◌, ◌≡◌, ◌⊎◌, inl, inr, refl, sym, ap, ◌∙◌, true, false, Bool-cases, some, [],
  ◌∷◌, length, Result, ok, err, if◌then◌else◌, ◌==◌, arith,
}
use star_os_kernel.Words.{bit}
use star_os_kernel.Error.{KernelError, memory, not_mapped}
use star_os_kernel.Memory.Physical.{PhysAddr, page_size, is_aligned}
use star_os_kernel.Memory.PageTable.{
  VirtAddr, Flags, PageTableEntry, flag_valid, union, is_valid, phys_addr, set_flags, table_index,
  validate_wx,
}
use star_os_kernel.Memory.VirtualMemory.{
  VirtualMemory, set_entry, leaf_of, clear_entry, clear_leaf, unmap, protect_entry, protect_leaf,
  protect_page, protect, translate,
}
use star_os_kernel.Memory.PageTable.Entry.{
  AreFlags, union-valid, valid-set_flags, phys_addr-set_flags, phys_addr-lt, Carries,
  set_flags-Carries,
}
use star_os_kernel.Memory.VirtualMemory.Paths.{Path4, target, reach}
use star_os_kernel.Memory.VirtualMemory.Tree.{IsTree, target-valid, target-invalid, invalid_zero}
use star_os_kernel.Memory.VirtualMemory.Walk.{
  find_table-Finds, IsLastTable, whole_path, last_path, no_page,
}
use star_os_kernel.Memory.VirtualMemory.Leaf.{at_entry, elsewhere, above}
use star_os_kernel.Memory.VirtualMemory.Create.{path_from, entry_in, table_index-lt}
use star_os_kernel.Memory.VirtualMemory.Translate.{path_of, length-path_of, answer}
use star_os_kernel.Memory.VirtualMemory.Written.{
  SameMap, translate_entry_at, translate-written, set_entry-IsTree,
}

-- The outcomes of a call of `unmap` with the address of a page.
abbrev pub Unmapped :
    VirtualMemory → VirtAddr → VirtualMemory × Result PhysAddr KernelError → Type 0
Unmapped vm virt r =
    IsTree r.0
    × (((r.1 ≡ err (memory not_mapped))
          × (translate vm virt ≡ err (memory not_mapped))
          × (r.0 ≡ vm))
        ⊎ ((page : PhysAddr) × (r.1 ≡ ok page)
            × (translate vm virt ≡ ok page)
            × ((v : VirtAddr)
                → v < 2 ^ 48
                → translate r.0 v ≡ (
                    if v / page_size == virt / page_size
                    then err (memory not_mapped)
                    else translate vm v))))

-- The outcomes of a call of `protect` with the address of a page.
abbrev pub Protected :
    VirtualMemory → VirtAddr → Flags → VirtualMemory × Result (Unit {0}) KernelError → Type 0
Protected vm virt flags r =
    IsTree r.0
    × (((r.1 ≡ err (memory not_mapped))
          × (translate vm virt ≡ err (memory not_mapped))
          × (r.0 ≡ vm))
        ⊎ ((r.1 ≡ ok tt)
            × ((page : PhysAddr) × (translate vm virt ≡ ok page))
            × SameMap vm r.0
            × ((t : PhysAddr) × IsLastTable vm virt t
                × IsLastTable r.0 virt t
                × Carries (r.0.frames t (table_index virt 3)) flags
                × ((a : PhysAddr) (k : ℕ)
                    → ¬ ((a ≡ t) × (k ≡ table_index virt 3))
                    → r.0.frames a k ≡ vm.frames a k))))

module _ (vm : VirtualMemory) (tree : IsTree vm) (virt : VirtAddr) (hv : virt < 2 ^ 48)
    (av : virt % page_size ≡ 0) (t : PhysAddr) (p : Path4)
    (at : reach vm.frames vm.root_table p ≡ some t)
    (whole : table_index virt 3 ∷ p ≡ path_of virt) where
  abbrev i : ℕ
  i = table_index virt 3

  abbrev old : PageTableEntry
  old = vm.frames t i

  last : length p ≡ 3
  last = omega (arith, ap length whole, length-path_of virt)

  not_there : is_valid old ≡ false → translate vm virt ≡ err (memory not_mapped)
  not_there v =
      translate_entry_at vm tree virt hv t p at whole virt hv refl
      ∙ ap (answer (virt % page_size)) (target-invalid old v)

  there : is_valid old ≡ true → translate vm virt ≡ ok (phys_addr old)
  there v =
      translate_entry_at vm tree virt hv t p at whole virt hv refl
      ∙ ap (answer (virt % page_size)) (target-valid old v)
      ∙ ap ok (omega (arith, phys_addr-lt old))

  cleared :
      (v : VirtAddr)
      → v < 2 ^ 48
      → translate (set_entry vm t i 0) v
        ≡ (if v / page_size == virt / page_size then err (memory not_mapped) else translate vm v)
  cleared v h =
      translate-written vm tree virt hv t p at whole 0 v h
      ∙ ap
          (λ (a : Result PhysAddr KernelError).
            if v / page_size == virt / page_size then a else translate vm v)
          (ap (answer (v % page_size)) (target-invalid 0 invalid_zero))

  clear_entry-Unmapped : Unmapped vm virt (clear_leaf vm i (ok t))
  unfolding clear_leaf clear_entry leaf_of
  clear_entry-Unmapped = elim (Bool-cases (is_valid old)) [
    | inl v ↦
        rw (entry_in (vm.frames t) i (table_index-lt virt 3), v)
          (
            set_entry-IsTree vm tree virt hv t p at whole 0,
            inr (phys_addr old, refl, there v, cleared),
          )
    | inr v ↦
        rw (entry_in (vm.frames t) i (table_index-lt virt 3), v)
          (tree, inl (refl, not_there v, refl))
  ]

  module _ (flags : Flags) (fl : AreFlags flags) where
    abbrev new : PageTableEntry
    new = set_flags old (union flags flag_valid)

    same_target : is_valid old ≡ true → target new ≡ target old
    same_target v =
        target-valid new (valid-set_flags old (union flags flag_valid) (union-valid flags fl).1)
        ∙ ap some (phys_addr-set_flags old (union flags flag_valid) (union-valid flags fl).0)
        ∙ sym (target-valid old v)

    kept : is_valid old ≡ true → SameMap vm (set_entry vm t i new)
    kept v w h =
        translate-written vm tree virt hv t p at whole new w h
        ∙ elim (ℕ_discrete (w / page_size) (virt / page_size)) [
          | yes e ↦
              (let test : (w / page_size == virt / page_size) ≡ true = ground arith in
                rw test (
                  ap (answer (w % page_size)) (same_target v)
                  ∙ sym (translate_entry_at vm tree virt hv t p at whole w h e)))
          | no ne ↦
              (let test : (w / page_size == virt / page_size) ≡ false = ground arith in
                rw test refl)
        ]

    flagged :
        let vm' = set_entry vm t i new in
        (t : PhysAddr) × IsLastTable vm virt t
        × IsLastTable vm' virt t
        × Carries (vm'.frames t i) flags
        × ((a : PhysAddr) (k : ℕ) → ¬ ((a ≡ t) × (k ≡ i)) → vm'.frames a k ≡ vm.frames a k)
    unfolding set_entry
    flagged = (
      t,
      ap (reach vm.frames vm.root_table) (sym (last_path virt p whole)) ∙ at,
      ap (reach (set_entry vm t i new).frames vm.root_table) (sym (last_path virt p whole))
          ∙ above vm tree p t i new at last p (omega (arith, last))
          ∙ at,
      λ b off.
          ap (λ (x : ℕ). bit x b) (at_entry vm tree p t i new at last)
          ∙ set_flags-Carries old flags b off,
      elsewhere vm tree p t i new at last,
    )

    protect_leaf-Protected : Protected vm virt flags (protect_leaf vm flags i (ok t))
    unfolding protect_leaf protect_entry leaf_of
    protect_leaf-Protected = elim (Bool-cases (is_valid old)) [
      | inl v ↦
          rw (entry_in (vm.frames t) i (table_index-lt virt 3), v)
            (
              set_entry-IsTree vm tree virt hv t p at whole new,
              inr (refl, (phys_addr old, there v), kept v, flagged),
            )
      | inr v ↦
          rw (entry_in (vm.frames t) i (table_index-lt virt 3), v)
            (tree, inl (refl, not_there v, refl))
    ]

-- In a tree of tables, `unmap` of the address of a page leaves a tree of tables. Where the address
-- does not translate it reports `NotMapped` and changes nothing. Otherwise it returns the address of
-- the physical page; after the call just the addresses of the page do not translate any more, and
-- every other address translates as before.
pub unmap-Unmapped :
    (vm : VirtualMemory) (virt : VirtAddr)
    → IsTree vm
    → virt < 2 ^ 48
    → virt % page_size ≡ 0
    → Unmapped vm virt (unmap vm virt)
unfolding unmap is_aligned reach clear_leaf
unmap-Unmapped vm virt tree hv av =
    (let aligned : (virt % page_size == 0) ≡ true = ground arith in
      elim (find_table-Finds vm virt 3 0 [] vm.root_table refl) [
        | inl (e, f) ↦ rw (aligned, e) (tree, inl (refl, no_page vm virt tree hv f, refl))
        | inr (t, e, f) ↦
            rw (aligned, e)
              (clear_entry-Unmapped vm tree virt hv av t (path_from virt 3 0 []) f
                (whole_path virt))
      ])

-- In a tree of tables, `protect` of the address of a page, with flags that pass the check of writable
-- and executable pages and leave the address bits alone, leaves a tree of tables. Where the address
-- does not translate it reports `NotMapped` and changes nothing. Otherwise it succeeds: outside the
-- address bits, the entry of the page in its last-level table has just the new flags and the valid
-- bit; every other entry of every table is as before, and every address translates as before.
pub protect-Protected :
    (vm : VirtualMemory) (virt : VirtAddr) (flags : Flags)
    → IsTree vm
    → virt < 2 ^ 48
    → virt % page_size ≡ 0
    → AreFlags flags
    → validate_wx flags ≡ ok tt
    → Protected vm virt flags (protect vm virt flags)
unfolding protect is_aligned protect_page reach protect_leaf
protect-Protected vm virt flags tree hv av fl wx =
    (let aligned : (virt % page_size == 0) ≡ true = ground arith in
      elim (find_table-Finds vm virt 3 0 [] vm.root_table refl) [
        | inl (e, f) ↦ rw (aligned, wx, e) (tree, inl (refl, no_page vm virt tree hv f, refl))
        | inr (t, e, f) ↦
            rw (aligned, wx, e)
              (protect_leaf-Protected vm tree virt hv av t (path_from virt 3 0 []) f
                (whole_path virt) flags fl)
      ])
