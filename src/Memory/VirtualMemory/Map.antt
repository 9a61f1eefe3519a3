-- ===== src/Memory/VirtualMemory/Map.antt =====
-- `map` of kernel/src/memory/virtual_mem.rs in terms of `translate`.
use native.Mathlib.Decide.{ℕ_discrete}
use star_os_kernel.Prelude.{
  ℕ, ◌+◌, ◌/◌, ◌%◌, ◌^◌, ◌<◌, ◌≡◌, ◌⊎◌, inl, inr, refl, sym, ap, ap₂, ◌∙◌, true, false, Bool-cases,
  some, [], ◌∷◌, length, Result, ok, err, if◌then◌else◌, ◌==◌, arith,
}
use star_os_kernel.Words.{bit}
use star_os_kernel.Error.{KernelError, memory, out_of_memory, already_mapped, not_mapped}
use star_os_kernel.Memory.Physical.{PhysAddr, page_size, is_aligned}
use star_os_kernel.Memory.PageTable.{
  VirtAddr, Flags, PageTableEntry, flag_valid, union, is_valid, phys_addr, set_addr, entry,
  table_index, validate_wx,
}
use star_os_kernel.Memory.VirtualMemory.{
  VirtualMemory, set_entry, and_then, create_tables, set_leaf, map_page, map, translate,
}
use star_os_kernel.Memory.PageTable.Entry.{
  AreFlags, union-valid, valid-set_addr, phys_addr-set_addr, masked_page, Carries, set_addr-Carries,
}
use star_os_kernel.Memory.VirtualMemory.Paths.{Path4, target, reach}
use star_os_kernel.Memory.VirtualMemory.Tree.{IsTree, target-valid, target-invalid}
use star_os_kernel.Memory.VirtualMemory.Missing.{missing}
use star_os_kernel.Memory.VirtualMemory.Leaf.{at_entry, above}
use star_os_kernel.Memory.VirtualMemory.Create.{
  Extends, Walks, create_tables-Walks, path_from, entry_in, table_index-lt,
}
use star_os_kernel.Memory.VirtualMemory.Translate.{path_of, length-path_of, answer, translate-reach}
use star_os_kernel.Memory.VirtualMemory.Walk.{IsLastTable, whole_path, last_path, missing_unmapped}
use star_os_kernel.Memory.VirtualMemory.Written.{
  SameMap, translate_entry_at, translate-written, set_entry-IsTree,
}

pub Extends-SameMap : (vm vm' : VirtualMemory) → IsTree vm → Extends vm vm' → SameMap vm vm'
Extends-SameMap vm vm' tree x v hv =
    translate-reach vm' v x.tree hv
    ∙ ap (answer (v % page_size)) (x.leaves (path_of v) (length-path_of v))
    ∙ sym (translate-reach vm v tree hv)

-- The outcomes of a call of `map`.
abbrev pub Outcome :
    VirtualMemory
    → VirtAddr
    → PhysAddr
    → Flags
    → VirtualMemory × Result (Unit {0}) KernelError
    → Type 0
Outcome vm virt phys flags r =
    IsTree r.0
    × (((r.1 ≡ err (memory out_of_memory))
          × (vm.allocator.free_count < missing vm virt)
          × (translate vm virt ≡ err (memory not_mapped))
          × SameMap vm r.0)
        ⊎ ((r.1 ≡ err (memory already_mapped))
            × (r.0.allocator.free_count ≡ vm.allocator.free_count)
            × ((page : PhysAddr) × (translate vm virt ≡ ok page))
            × SameMap vm r.0)
        ⊎ ((r.1 ≡ ok tt)
            × (r.0.allocator.free_count + missing vm virt ≡ vm.allocator.free_count)
            × (translate vm virt ≡ err (memory not_mapped))
            × ((v : VirtAddr)
                → v < 2 ^ 48
                → translate r.0 v ≡ (
                    if v / page_size == virt / page_size
                    then ok (phys + v % page_size)
                    else translate vm v))
            × ((t : PhysAddr) × IsLastTable r.0 virt t
                × Carries (r.0.frames t (table_index virt 3)) flags)))

module _ (vm : VirtualMemory) (virt : VirtAddr) (phys : PhysAddr) (flags : Flags)
    (hv : virt < 2 ^ 48) (hp : phys < 2 ^ 48) (al : phys % page_size ≡ 0) (fl : AreFlags flags)
    (vm' : VirtualMemory) (x : Extends vm vm') (tree : IsTree vm) (t : PhysAddr) (p : Path4)
    (at : reach vm'.frames vm'.root_table p ≡ some t)
    (whole : table_index virt 3 ∷ p ≡ path_of virt)
    (count : vm'.allocator.free_count + missing vm virt ≡ vm.allocator.free_count) where
  abbrev i : ℕ
  i = table_index virt 3

  abbrev leaf : PageTableEntry
  leaf = set_addr phys (union flags flag_valid)

  leaf-target : target leaf ≡ some phys
  leaf-target =
      target-valid leaf (valid-set_addr phys (union flags flag_valid) (union-valid flags fl).1)
      ∙ ap some (
          phys_addr-set_addr phys (union flags flag_valid) (union-valid flags fl).0
          ∙ masked_page phys al hp)

  -- What the entry says is what the address translates to.
  before : translate vm virt ≡ answer (virt % page_size) (target (vm'.frames t i))
  before =
      sym (Extends-SameMap vm vm' tree x virt hv)
      ∙ translate_entry_at vm' x.tree virt hv t p at whole virt hv refl

  none_missing : (page : PhysAddr) → translate vm virt ≡ ok page → missing vm virt ≡ 0
  none_missing page there = elim (ℕ_discrete (missing vm virt) 0) [
    | yes z ↦ z
    | no nz ↦ (let e = missing_unmapped vm virt tree hv (omega arith) in cc)
  ]

  refused :
      is_valid (vm'.frames t i) ≡ true
      → Outcome vm virt phys flags (vm', err (memory already_mapped))
  refused v =
      (let page : PhysAddr = (phys_addr (vm'.frames t i) + virt % page_size) % 2 ^ 64 in
        let there : translate vm virt ≡ ok page =
          before ∙ ap (answer (virt % page_size)) (target-valid (vm'.frames t i) v) in
        (
          x.tree,
          inr (
              inl (
                refl,
                omega (arith, none_missing page there),
                (page, there),
                Extends-SameMap vm vm' tree x,
              )),
        ))

  mapped :
      (v : VirtAddr)
      → v < 2 ^ 48
      → translate (set_entry vm' t i leaf) v
        ≡ (if v / page_size == virt / page_size then ok (phys + v % page_size) else translate vm v)
  mapped v h =
      translate-written vm' x.tree virt hv t p at whole leaf v h
      ∙ ap₂
          (λ (a b : Result PhysAddr KernelError).
            if v / page_size == virt / page_size then a else b)
          (ap (answer (v % page_size)) leaf-target ∙ ap ok (omega arith))
          (Extends-SameMap vm vm' tree x v h)

  last : length p ≡ 3
  last = omega (arith, ap length whole, length-path_of virt)

  flagged :
      let vm2 = set_entry vm' t i leaf in
      (t' : PhysAddr) × IsLastTable vm2 virt t' × Carries (vm2.frames t' i) flags
  unfolding set_entry
  flagged = (
    t,
    ap (reach (set_entry vm' t i leaf).frames vm'.root_table) (sym (last_path virt p whole))
        ∙ above vm' x.tree p t i leaf at last p (omega (arith, last))
        ∙ at,
    λ b off.
        ap (λ (e : ℕ). bit e b) (at_entry vm' x.tree p t i leaf at last)
        ∙ set_addr-Carries phys flags b off,
  )

  accepted :
      is_valid (vm'.frames t i) ≡ false → Outcome vm virt phys flags (set_entry vm' t i leaf, ok tt)
  unfolding set_entry
  accepted v = (
    set_entry-IsTree vm' x.tree virt hv t p at whole leaf,
    inr (
        inr (
          refl,
          count,
          before ∙ ap (answer (virt % page_size)) (target-invalid (vm'.frames t i) v),
          mapped,
          flagged,
        )),
  )

  set_leaf-Outcome :
      Outcome vm virt phys flags (set_leaf phys flags i vm' t (entry (vm'.frames t) i))
  unfolding set_leaf
  set_leaf-Outcome = elim (Bool-cases (is_valid (vm'.frames t i))) [
    | inl v ↦ rw (entry_in (vm'.frames t) i (table_index-lt virt 3), v) (refused v)
    | inr v ↦ rw (entry_in (vm'.frames t) i (table_index-lt virt 3), v) (accepted v)
  ]

module _ (vm : VirtualMemory) (virt : VirtAddr) (phys : PhysAddr) (flags : Flags) (tree : IsTree vm)
    (hv : virt < 2 ^ 48) (hp : phys < 2 ^ 48) (al : phys % page_size ≡ 0)
    (fl : AreFlags flags) where
  walked-Outcome :
      (p : Path4) (r : VirtualMemory × Result PhysAddr KernelError)
      → table_index virt 3 ∷ p ≡ path_of virt
      → Walks vm p (missing vm virt) r
      → Outcome vm virt phys flags (
          and_then r (λ vm' table.
            set_leaf phys flags
              (table_index virt 3)
              vm'
              table
              (entry (vm'.frames table) (table_index virt 3))))
  unfolding and_then
  walked-Outcome p (vm', err e) whole (x, inl (f, short)) = (
    x.tree,
    inl (
      ap (λ (k : KernelError). err k) (cc),
      short,
      missing_unmapped vm virt tree hv (omega arith),
      Extends-SameMap vm vm' tree x,
    ),
  )
  walked-Outcome p (vm', err e) whole (x, inr (t, f, at, count)) = cc
  walked-Outcome p (vm', ok t) whole (x, inl (f, short)) = cc
  walked-Outcome p (vm', ok t) whole (x, inr (t', f, at, count)) =
      (let same : t ≡ t' = cc in
        set_leaf-Outcome vm virt phys flags hv hp al fl vm' x tree t p (at ∙ ap some (sym same))
          whole count)

  page_mapped : Outcome vm virt phys flags (map_page vm virt phys flags (ok tt))
  unfolding map_page reach missing
  page_mapped =
      walked-Outcome (path_from virt 3 0 []) (create_tables vm virt 3 0 vm.root_table)
        (whole_path virt) (create_tables-Walks vm virt 3 0 [] vm.root_table tree refl refl)

-- In a tree of tables, `map` of an aligned page to an aligned page, with flags that pass the check of
-- writable and executable pages and leave the address bits alone, has three outcomes, each of which
-- leaves a tree of tables. It reports `OutOfMemory` where fewer pages are free than tables of the
-- three levels below the root are missing on the way to the page, and the address does not
-- translate then; and `AlreadyMapped`, taking no page, where the address translates already; after
-- both every address translates as before. Otherwise it succeeds and takes a free page for each
-- table that was missing; the address did not translate, after the call just the addresses of its
-- page translate to the addresses of the physical page, every other address translates as before,
-- and outside the address bits the entry of the page in its last-level table has just the flags and
-- the valid bit.
pub map-Outcome :
    (vm : VirtualMemory) (virt : VirtAddr) (phys : PhysAddr) (flags : Flags)
    → IsTree vm
    → virt < 2 ^ 48
    → virt % page_size ≡ 0
    → phys < 2 ^ 48
    → phys % page_size ≡ 0
    → AreFlags flags
    → validate_wx flags ≡ ok tt
    → Outcome vm virt phys flags (map vm virt phys flags)
unfolding map is_aligned
map-Outcome vm virt phys flags tree hv av hp al fl wx =
    (let aligned_virt : (virt % page_size == 0) ≡ true = ground arith in
      let aligned_phys : (phys % page_size == 0) ≡ true = ground arith in
      rw (aligned_virt, aligned_phys, wx) (page_mapped vm virt phys flags tree hv hp al fl))
