-- ===== src/Memory/VirtualMemory/Missing.antt =====
-- How many of the tables on the way to a page kernel/src/memory/virtual_mem.rs has yet to make.
use star_os_kernel.Prelude.{
  ℕ, zero, suc, ◌+◌, ◌<◌, ◌≤◌, ◌≡◌, refl, ap₂, Option, none, some, [], ◌∷◌, length, arith,
}
use star_os_kernel.Memory.Physical.{PhysAddr}
use star_os_kernel.Memory.PageTable.{VirtAddr, table_index}
use star_os_kernel.Memory.VirtualMemory.{VirtualMemory}
use star_os_kernel.Memory.VirtualMemory.Paths.{Path4, reach}

unfoldable pub absent : Option PhysAddr → ℕ
absent none = 1
absent (some table) = 0

-- The tables of the next levels, below the end of a path, that no valid entries lead to.
unfoldable pub missing_from : VirtualMemory → VirtAddr → ℕ → ℕ → Path4 → ℕ
missing_from vm virt zero level p = 0
missing_from vm virt (suc left) level p =
    let q : Path4 = table_index virt level ∷ p in
    absent (reach vm.frames vm.root_table q) + missing_from vm virt left (level + 1) q

-- The tables of the three levels below the root that the page of an address lacks.
unfoldable pub missing : VirtualMemory → VirtAddr → ℕ
missing vm virt = missing_from vm virt 3 0 []

-- Only the paths that are longer matter.
pub missing_from-same :
    (vm vm' : VirtualMemory) (virt : VirtAddr) (left level : ℕ) (p : Path4)
    → ((q : Path4)
        → length p < length q
        → length q ≤ length p + left
        → reach vm'.frames vm'.root_table q ≡ reach vm.frames vm.root_table q)
    → missing_from vm' virt left level p ≡ missing_from vm virt left level p
unfolding missing_from
missing_from-same vm vm' virt zero level p same = refl
missing_from-same vm vm' virt (suc left) level p same =
    (let q : Path4 = table_index virt level ∷ p in
      ap₂ (λ (t : Option PhysAddr) (n : ℕ). absent t + n) (same q (omega arith) (omega arith))
        (missing_from-same vm vm' virt left (level + 1) q
          (λ q' longer short. same q' (omega arith) (omega arith))))
