-- ===== src/Memory/VirtualMemory/Translate.antt =====
-- `translate` of kernel/src/memory/virtual_mem.rs follows the path of the four indices of an address.
use star_os_kernel.Prelude.{
  ℕ, zero, suc, ◌+◌, ◌/◌, ◌%◌, ◌^◌, ◌<◌, ◌≤◌, ◌≡◌, inl, inr, refl, sym, ap, ap₂, ◌∙◌, true, false,
  Bool-cases, Option, none, some, [], ◌∷◌, length, Array, Result, ok, err, ◌==◌, arith,
}
use star_os_kernel.Error.{KernelError, memory, not_mapped}
use star_os_kernel.Memory.Physical.{PhysAddr, page_size}
use star_os_kernel.Memory.PageTable.{
  VirtAddr, PageTable, is_valid, is_table, is_block, phys_addr, table_index, page_offset,
  align_down,
}
use star_os_kernel.Memory.VirtualMemory.{VirtualMemory, translate, translate_from, translate_entry}
use star_os_kernel.Memory.PageTable.Entry.{table_index-eq, page_offset-eq, align_down-eq}
use star_os_kernel.Memory.VirtualMemory.Paths.{Path4, reach, reach_next, reach_stop}
use star_os_kernel.Memory.VirtualMemory.Tree.{IsTree, target-valid, target-invalid}
use star_os_kernel.Memory.VirtualMemory.Create.{path_from, entry_in, table_index-lt}

-- The path of an address.
unfoldable pub path_of : VirtAddr → Path4
path_of virt = path_from virt 4 0 []

pub length-path_of : (virt : VirtAddr) → length (path_of virt) ≡ 4
unfolding path_of path_from
length-path_of virt = refl

-- What `translate` answers for an offset in the page at the end of a path.
abbrev pub answer : ℕ → Option PhysAddr → Result PhysAddr KernelError
answer offset none = err (memory not_mapped)
answer offset (some page) = ok ((page + offset) % 2 ^ 64)

pub path_from_stop :
    (frames : Array PageTable) (root : PhysAddr) (virt : VirtAddr) (left level : ℕ) (p : Path4)
    → reach frames root p ≡ none
    → reach frames root (path_from virt left level p) ≡ none
unfolding path_from
path_from_stop frames root virt zero level p e = e
path_from_stop frames root virt (suc left) level p e =
    path_from_stop frames root virt left (level + 1) (table_index virt level ∷ p)
      (reach_stop frames root (table_index virt level) p e)

module _ (vm : VirtualMemory) (tree : IsTree vm) (virt : VirtAddr) (offset : ℕ) where
  step_invalid :
      (left level : ℕ) (t : PhysAddr)
      → is_valid (vm.frames t (table_index virt level)) ≡ false
      → translate_from vm virt offset (suc left) level t ≡ err (memory not_mapped)
  unfolding translate_from translate_entry
  step_invalid left level t v =
      rw (entry_in (vm.frames t) (table_index virt level) (table_index-lt virt level), v) refl

  step_last :
      (left : ℕ) (t : PhysAddr)
      → is_valid (vm.frames t (table_index virt 3)) ≡ true
      → translate_from vm virt offset (suc left) 3 t
        ≡ ok ((phys_addr (vm.frames t (table_index virt 3)) + offset) % 2 ^ 64)
  unfolding translate_from translate_entry
  step_last left t v =
      rw (entry_in (vm.frames t) (table_index virt 3) (table_index-lt virt 3), v) refl

  step_on :
      (left level : ℕ) (t : PhysAddr)
      → level ≤ 2
      → is_valid (vm.frames t (table_index virt level)) ≡ true
      → is_table (vm.frames t (table_index virt level)) ≡ true
      → translate_from vm virt offset (suc left) level t
        ≡ translate_from vm virt offset left
            (level + 1)
            (phys_addr (vm.frames t (table_index virt level)))
  unfolding translate_from translate_entry is_block
  step_on left level t h v w =
      (let high : (level == 3) ≡ false = ground arith in
        rw (entry_in (vm.frames t) (table_index virt level) (table_index-lt virt level), v, high, w)
          refl)

  stops :
      (left level : ℕ) (p : Path4) (t : PhysAddr)
      → reach vm.frames vm.root_table p ≡ some t
      → is_valid (vm.frames t (table_index virt level)) ≡ false
      → translate_from vm virt offset (suc left) level t
        ≡ answer offset (reach vm.frames vm.root_table (path_from virt (suc left) level p))
  unfolding path_from
  stops left level p t at v =
      (let i : ℕ = table_index virt level in
        step_invalid left level t v
        ∙ sym (
            ap (answer offset) (
              path_from_stop vm.frames vm.root_table virt left (level + 1) (i ∷ p)
                (reach_next vm.frames vm.root_table t i p at ∙ target-invalid (vm.frames t i) v))))

  last_level :
      (p : Path4) (t : PhysAddr)
      → reach vm.frames vm.root_table p ≡ some t
      → translate_from vm virt offset 1 3 t
        ≡ answer offset (reach vm.frames vm.root_table (path_from virt 1 3 p))
  unfolding path_from
  last_level p t at = elim (Bool-cases (is_valid (vm.frames t (table_index virt 3)))) [
    | inr v ↦ stops 0 3 p t at v
    | inl v ↦
        step_last 0 t v
        ∙ sym (
            ap (answer offset) (
              reach_next vm.frames vm.root_table t (table_index virt 3) p at
              ∙ target-valid (vm.frames t (table_index virt 3)) v))
  ]

  translate_from-reach :
      (left level : ℕ) (p : Path4) (t : PhysAddr)
      → reach vm.frames vm.root_table p ≡ some t
      → length p ≡ level
      → level + left ≡ 3
      → translate_from vm virt offset (suc left) level t
        ≡ answer offset (reach vm.frames vm.root_table (path_from virt (suc left) level p))
  unfolding path_from
  translate_from-reach zero level p t at h k =
      (let e : level ≡ 3 = omega arith in rw e (last_level p t at))
  translate_from-reach (suc left) level p t at h k =
      elim (Bool-cases (is_valid (vm.frames t (table_index virt level)))) [
        | inr v ↦ stops (suc left) level p t at v
        | inl v ↦
            step_on (suc left) level t (omega arith) v
              (tree.tables p t (table_index virt level) (omega arith) at v)
            ∙ translate_from-reach left (level + 1) (table_index virt level ∷ p)
                (phys_addr (vm.frames t (table_index virt level)))
                (reach_next vm.frames vm.root_table t (table_index virt level) p at
                  ∙ target-valid (vm.frames t (table_index virt level)) v)
                (omega arith) (omega arith)
      ]

same_index :
    (virt : VirtAddr) (level : ℕ)
    → virt < 2 ^ 48
    → level < 4
    → table_index (align_down virt) level ≡ table_index virt level
same_index virt zero h l =
    omega (arith, table_index-eq virt 0, table_index-eq (align_down virt) 0, align_down-eq virt)
same_index virt (suc zero) h l =
    omega (arith, table_index-eq virt 1, table_index-eq (align_down virt) 1, align_down-eq virt)
same_index virt (suc (suc zero)) h l =
    omega (arith, table_index-eq virt 2, table_index-eq (align_down virt) 2, align_down-eq virt)
same_index virt (suc (suc (suc zero))) h l =
    omega (arith, table_index-eq virt 3, table_index-eq (align_down virt) 3, align_down-eq virt)
same_index virt (suc (suc (suc (suc n)))) h l = absurd (omega arith)

path_of-align_down : (virt : VirtAddr) → virt < 2 ^ 48 → path_of (align_down virt) ≡ path_of virt
unfolding path_of path_from
path_of-align_down virt h =
    rw
      (
        same_index virt 0 h (omega arith),
        same_index virt 1 h (omega arith),
        same_index virt 2 h (omega arith),
        same_index virt 3 h (omega arith),
      )
      refl

-- In a tree of tables, `translate` answers the address at the end of the path of the page, with the
-- offset of the address added, and `NotMapped` where the path does not go so far.
pub translate-reach :
    (vm : VirtualMemory) (virt : VirtAddr)
    → IsTree vm
    → virt < 2 ^ 48
    → translate vm virt ≡ answer (virt % page_size) (reach vm.frames vm.root_table (path_of virt))
unfolding translate path_of reach
translate-reach vm virt tree h =
    translate_from-reach vm tree (align_down virt) (page_offset virt) 3 0 [] vm.root_table refl refl
      refl
    ∙ ap₂ (λ (o : ℕ) (p : Path4). answer o (reach vm.frames vm.root_table p)) (page_offset-eq virt)
        (path_of-align_down virt h)

-- Two addresses have the same path just where they lie in the same page.
pub path_of-eq :
    (v w : VirtAddr)
    → v < 2 ^ 48
    → w < 2 ^ 48
    → path_of v ≡ path_of w
    → v / page_size ≡ w / page_size
unfolding path_of path_from
path_of-eq v w hv hw e =
    (let e3 : table_index v 3 ≡ table_index w 3 = cc in
      let e2 : table_index v 2 ≡ table_index w 2 = cc in
      let e1 : table_index v 1 ≡ table_index w 1 = cc in
      let e0 : table_index v 0 ≡ table_index w 0 = cc in
      omega (
        arith,
        table_index-eq v 0,
        table_index-eq v 1,
        table_index-eq v 2,
        table_index-eq v 3,
        table_index-eq w 0,
        table_index-eq w 1,
        table_index-eq w 2,
        table_index-eq w 3,
      ))

pub path_of-page : (v w : VirtAddr) → v / page_size ≡ w / page_size → path_of v ≡ path_of w
unfolding path_of path_from
path_of-page v w e =
    rw
      (
        (let f : table_index v 0 ≡ table_index w 0 =
              omega (arith, table_index-eq v 0, table_index-eq w 0) in
            f),
        (let f : table_index v 1 ≡ table_index w 1 =
              omega (arith, table_index-eq v 1, table_index-eq w 1) in
            f),
        (let f : table_index v 2 ≡ table_index w 2 =
              omega (arith, table_index-eq v 2, table_index-eq w 2) in
            f),
        (let f : table_index v 3 ≡ table_index w 3 =
              omega (arith, table_index-eq v 3, table_index-eq w 3) in
            f),
      )
      refl
