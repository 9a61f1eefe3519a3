-- ===== src/Memory/VirtualMemory/Written.antt =====
-- What `translate` of kernel/src/memory/virtual_mem.rs answers after a write of a last-level entry.
use native.Mathlib.Decide.{ℕ_discrete}
use star_os_kernel.Prelude.{
  ℕ, ◌/◌, ◌%◌, ◌^◌, ◌<◌, ◌≡◌, sym, ap, ◌∙◌, true, false, some, ◌∷◌, length, if◌then◌else◌, ◌==◌,
  arith,
}
use star_os_kernel.Memory.Physical.{PhysAddr, page_size}
use star_os_kernel.Memory.PageTable.{VirtAddr, PageTableEntry, table_index}
use star_os_kernel.Memory.VirtualMemory.{VirtualMemory, set_entry, translate}
use star_os_kernel.Memory.VirtualMemory.Paths.{Path4, target, reach, reach_next}
use star_os_kernel.Memory.VirtualMemory.Tree.{IsTree}
use star_os_kernel.Memory.VirtualMemory.Translate.{
  path_of, length-path_of, answer, translate-reach, path_of-eq, path_of-page,
}
use star_os_kernel.Memory.VirtualMemory.Leaf.{reach-written, written-IsTree}

-- Every address translates as before.
abbrev pub SameMap : VirtualMemory → VirtualMemory → Type 0
SameMap vm vm' = (v : VirtAddr) → v < 2 ^ 48 → translate vm' v ≡ translate vm v

module _ (vm : VirtualMemory) (tree : IsTree vm) (virt : VirtAddr) (hv : virt < 2 ^ 48)
    (t : PhysAddr) (p : Path4) (at : reach vm.frames vm.root_table p ≡ some t)
    (whole : table_index virt 3 ∷ p ≡ path_of virt) where
  abbrev i : ℕ
  i = table_index virt 3

  short : length p ≡ 3
  short = omega (arith, ap length whole, length-path_of virt)

  -- An address of the page translates as its last-level entry says.
  pub translate_entry_at :
      (v : VirtAddr)
      → v < 2 ^ 48
      → v / page_size ≡ virt / page_size
      → translate vm v ≡ answer (v % page_size) (target (vm.frames t i))
  translate_entry_at v h e =
      translate-reach vm v tree h
      ∙ ap (answer (v % page_size)) (
          ap (reach vm.frames vm.root_table) (path_of-page v virt e ∙ sym whole)
          ∙ reach_next vm.frames vm.root_table t i p at)

  -- A write of the entry changes the addresses of the page alone.
  pub translate-written :
      (e : PageTableEntry) (v : VirtAddr)
      → v < 2 ^ 48
      → translate (set_entry vm t i e) v ≡ (
          if v / page_size == virt / page_size
          then answer (v % page_size) (target e)
          else translate vm v)
  unfolding set_entry
  translate-written e v h =
      (let ways = reach-written vm tree p t i e at short in
        let tree' : IsTree (set_entry vm t i e) = written-IsTree vm tree p t i e at short in
        let now = translate-reach (set_entry vm t i e) v tree' h in
        elim (ℕ_discrete (v / page_size) (virt / page_size)) [
          | yes f ↦
              (let test : (v / page_size == virt / page_size) ≡ true = ground arith in
                rw test (
                  now
                  ∙ ap (answer (v % page_size)) (
                      ap (reach (set_entry vm t i e).frames vm.root_table)
                        (path_of-page v virt f ∙ sym whole)
                      ∙ ways.0)))
          | no ne ↦
              (let test : (v / page_size == virt / page_size) ≡ false = ground arith in
                rw test (
                  now
                  ∙ ap (answer (v % page_size)) (
                      ways.1 (path_of v) (length-path_of v)
                        (λ f. ne (path_of-eq v virt h hv (f ∙ whole))))
                  ∙ sym (translate-reach vm v tree h)))
        ])

  pub set_entry-IsTree : (e : PageTableEntry) → IsTree (set_entry vm t i e)
  set_entry-IsTree e = written-IsTree vm tree p t i e at short
