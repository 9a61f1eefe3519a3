-- ===== src/Memory/VirtualMemory.antt =====
-- kernel/src/memory/virtual_mem.rs: page tables of four levels. The tables lie in physical memory,
-- one for each page address, and come from the page allocator.
-- The invalidation of the translation buffer is not part of the model.
pub mod Paths
pub mod Tree
pub mod Missing
pub mod Link
pub mod Create
pub mod Translate
pub mod Walk
pub mod Leaf
pub mod Written
pub mod Map
pub mod Unmap
pub mod WriteTables
pub mod WriteExecute
mod Tests
use star_os_kernel.Prelude.{
  ℕ, zero, suc, ◌+◌, ◌-◌, ◌*◌, ◌/◌, ◌%◌, ◌^◌, Bool, true, false, not, ◌&&◌, ◌||◌, Option, none,
  some, Array, store, Result, ok, err, ltb, ◌==◌, if◌then◌else◌, bit_and, bit_or,
}
use star_os_kernel.Words.{complement}
use star_os_kernel.Error.{
  KernelError, MemoryError, SecurityError, memory, security, invalid_alignment, already_mapped,
  not_mapped,
}
use star_os_kernel.Memory.Physical.{PhysAddr, PhysicalAllocator, page_size, is_aligned, alloc_page}
use star_os_kernel.Memory.PageTable.{
  VirtAddr, new_virt, page_offset, table_index, align_down, Flags, flag_valid, flag_table,
  flag_read_only, flag_execute, contains, union, validate_wx, PageTableEntry, addr_mask, is_valid,
  is_table, is_block, entry_flags, phys_addr, set_addr, set_flags, PageTable, entry, clear,
}

-- The manager with what its pointers lead to: the allocator and the tables at page addresses.
pub record VirtualMemory : Type 0 where
  pub root_table : PhysAddr
  pub allocator : PhysicalAllocator
  pub frames : Array PageTable

-- The write of an entry of a table.
unfoldable pub set_entry : VirtualMemory → PhysAddr → ℕ → PageTableEntry → VirtualMemory
set_entry vm table index e = record vm {
  frames = store vm.frames table (store (vm.frames table) index e);
}

-- A failing step ends the function with its error.
unfoldable pub and_then :
    {A B : Type 0}
    → VirtualMemory × Result A KernelError
    → (VirtualMemory → A → VirtualMemory × Result B KernelError)
    → VirtualMemory × Result B KernelError
and_then (vm, err e) next = (vm, err e)
and_then (vm, ok a) next = next vm a

-- What `map` does with a page for a new table.
unfoldable pub link_table :
    VirtualMemory
    → PhysAddr
    → ℕ
    → PhysicalAllocator × Result PhysAddr KernelError
    → VirtualMemory × Result PhysAddr KernelError
link_table vm table index (allocator', err e) = (record vm { allocator = allocator' }, err e)
link_table vm table index (allocator', ok page) =
    let vm' : VirtualMemory = record vm {
      allocator = allocator';
      frames = store vm.frames page clear;
    } in
    let e = set_addr page (union flag_table flag_valid) in
    (set_entry vm' table index e, ok (phys_addr e))

-- One turn of the loop of `map`: the table below an entry, made where the entry is not valid.
unfoldable pub next_table :
    VirtualMemory
    → PhysAddr
    → ℕ
    → Option PageTableEntry
    → VirtualMemory × Result PhysAddr KernelError
next_table vm table index none = (vm, err (memory MemoryError.invalid_address))
next_table vm table index (some e) =
    if is_valid e
    then (vm, ok (phys_addr e))
    else link_table vm table index (alloc_page vm.allocator)

unfoldable pub create_tables :
    VirtualMemory → VirtAddr → ℕ → ℕ → PhysAddr → VirtualMemory × Result PhysAddr KernelError
create_tables vm virt zero level table = (vm, ok table)
create_tables vm virt (suc left) level table =
    and_then
      (next_table vm table (table_index virt level)
        (entry (vm.frames table) (table_index virt level)))
      (λ vm' table'. create_tables vm' virt left (level + 1) table')

-- The end of `map`: the entry of the last level.
unfoldable pub set_leaf :
    PhysAddr
    → Flags
    → ℕ
    → VirtualMemory
    → PhysAddr
    → Option PageTableEntry
    → VirtualMemory × Result (Unit {0}) KernelError
set_leaf phys flags index vm table none = (vm, err (memory MemoryError.invalid_address))
set_leaf phys flags index vm table (some e) =
    if is_valid e
    then (vm, err (memory already_mapped))
    else (set_entry vm table index (set_addr phys (union flags flag_valid)), ok tt)

unfoldable pub map_page :
    VirtualMemory
    → VirtAddr
    → PhysAddr
    → Flags
    → Result (Unit {0}) KernelError
    → VirtualMemory × Result (Unit {0}) KernelError
map_page vm virt phys flags (err e) = (vm, err e)
map_page vm virt phys flags (ok done) =
    and_then (create_tables vm virt 3 0 vm.root_table) (λ vm' table.
      set_leaf phys flags (table_index virt 3) vm' table
        (entry (vm'.frames table) (table_index virt 3)))

unfoldable pub map :
    VirtualMemory → VirtAddr → PhysAddr → Flags → VirtualMemory × Result (Unit {0}) KernelError
map vm virt phys flags =
    if not (is_aligned virt) || not (is_aligned phys)
    then (vm, err (memory invalid_alignment))
    else map_page vm virt phys flags (validate_wx flags)

-- The loop of `unmap` and of `protect`, which makes no table.
unfoldable pub below :
    (PhysAddr → Result PhysAddr KernelError) → Option PageTableEntry → Result PhysAddr KernelError
below next none = err (memory MemoryError.invalid_address)
below next (some e) = if is_valid e then next (phys_addr e) else err (memory not_mapped)

unfoldable pub find_table :
    VirtualMemory → VirtAddr → ℕ → ℕ → PhysAddr → Result PhysAddr KernelError
find_table vm virt zero level table = ok table
find_table vm virt (suc left) level table =
    below (λ table'. find_table vm virt left (level + 1) table')
      (entry (vm.frames table) (table_index virt level))

-- The entry of the last level that `unmap` and `protect` change, with its table.
unfoldable pub leaf_of : Option PageTableEntry → Result PageTableEntry KernelError
leaf_of none = err (memory MemoryError.invalid_address)
leaf_of (some e) = if is_valid e then ok e else err (memory not_mapped)

unfoldable pub clear_entry :
    VirtualMemory
    → ℕ
    → PhysAddr
    → Result PageTableEntry KernelError
    → VirtualMemory × Result PhysAddr KernelError
clear_entry vm index table (err e) = (vm, err e)
clear_entry vm index table (ok e) = (set_entry vm table index 0, ok (phys_addr e))

unfoldable pub clear_leaf :
    VirtualMemory → ℕ → Result PhysAddr KernelError → VirtualMemory × Result PhysAddr KernelError
clear_leaf vm index (err e) = (vm, err e)
clear_leaf vm index (ok table) =
    clear_entry vm index table (leaf_of (entry (vm.frames table) index))

unfoldable pub unmap : VirtualMemory → VirtAddr → VirtualMemory × Result PhysAddr KernelError
unmap vm virt =
    if is_aligned virt
    then clear_leaf vm (table_index virt 3) (find_table vm virt 3 0 vm.root_table)
    else (vm, err (memory invalid_alignment))

unfoldable pub protect_entry :
    VirtualMemory
    → Flags
    → ℕ
    → PhysAddr
    → Result PageTableEntry KernelError
    → VirtualMemory × Result (Unit {0}) KernelError
protect_entry vm flags index table (err e) = (vm, err e)
protect_entry vm flags index table (ok e) =
    (set_entry vm table index (set_flags e (union flags flag_valid)), ok tt)

unfoldable pub protect_leaf :
    VirtualMemory
    → Flags
    → ℕ
    → Result PhysAddr KernelError
    → VirtualMemory × Result (Unit {0}) KernelError
protect_leaf vm flags index (err e) = (vm, err e)
protect_leaf vm flags index (ok table) =
    protect_entry vm flags index table (leaf_of (entry (vm.frames table) index))

unfoldable pub protect_page :
    VirtualMemory
    → VirtAddr
    → Flags
    → Result (Unit {0}) KernelError
    → VirtualMemory × Result (Unit {0}) KernelError
protect_page vm virt flags (err e) = (vm, err e)
protect_page vm virt flags (ok done) =
    protect_leaf vm flags (table_index virt 3) (find_table vm virt 3 0 vm.root_table)

unfoldable pub protect :
    VirtualMemory → VirtAddr → Flags → VirtualMemory × Result (Unit {0}) KernelError
protect vm virt flags =
    if is_aligned virt
    then protect_page vm virt flags (validate_wx flags)
    else (vm, err (memory invalid_alignment))

-- What the loop of `translate` does with an entry of a level.
unfoldable pub translate_entry :
    ℕ
    → ℕ
    → (PhysAddr → Result PhysAddr KernelError)
    → Option PageTableEntry
    → Result PhysAddr KernelError
translate_entry offset level next none = err (memory MemoryError.invalid_address)
translate_entry offset level next (some e) =
    if not (is_valid e)
    then err (memory not_mapped)
    else if (level == 3) || is_block e
    then ok ((phys_addr e + offset) % 2 ^ 64)
    else next (phys_addr e)

unfoldable pub translate_from :
    VirtualMemory → VirtAddr → ℕ → ℕ → ℕ → PhysAddr → Result PhysAddr KernelError
translate_from vm virt offset zero level table = err (memory not_mapped)
translate_from vm virt offset (suc left) level table =
    translate_entry offset level (λ table'. translate_from vm virt offset left (level + 1) table')
      (entry (vm.frames table) (table_index virt level))

unfoldable pub translate : VirtualMemory → VirtAddr → Result PhysAddr KernelError
translate vm virt = translate_from vm (align_down virt) (page_offset virt) 4 0 vm.root_table
