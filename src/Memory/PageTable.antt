-- ===== src/Memory/PageTable.antt =====
-- kernel/src/memory/virtual_mem.rs: virtual addresses, flags, page table entries and page tables. A
-- table has 512 entries of 64 bits.
pub mod Entry
pub mod WriteCheck
use star_os_kernel.Prelude.{
  ℕ, zero, suc, ◌+◌, ◌-◌, ◌*◌, ◌/◌, ◌%◌, ◌^◌, Bool, true, false, not, ◌&&◌, ◌||◌, Option, none,
  some, Array, store, Result, ok, err, ltb, ◌==◌, if◌then◌else◌, bit_and, bit_or,
}
use star_os_kernel.Words.{complement}
use star_os_kernel.Error.{
  KernelError, MemoryError, SecurityError, memory, security, invalid_alignment, already_mapped,
  not_mapped,
}
use star_os_kernel.Memory.Physical.{PhysAddr, PhysicalAllocator, page_size, is_aligned, alloc_page}

-- `VirtAddr(usize)`, made by a mask to 48 bits
abbrev pub VirtAddr : Type 0
VirtAddr = ℕ

unfoldable pub new_virt : ℕ → VirtAddr
new_virt addr = bit_and addr 0xffff_ffff_ffff

unfoldable pub page_offset : VirtAddr → ℕ
page_offset virt = bit_and virt (page_size - 1)

-- `x >> n` is `x / 2 ^ n`.
unfoldable pub table_index : VirtAddr → ℕ → ℕ
table_index virt level = bit_and (virt / 2 ^ (12 + (3 - level) * 9)) 0x1ff

unfoldable pub align_down : VirtAddr → VirtAddr
align_down virt = bit_and virt (complement 64 (page_size - 1))

abbrev pub Flags : Type 0
Flags = ℕ

abbrev pub flag_valid : Flags
flag_valid = 1

abbrev pub flag_table : Flags
flag_table = 2

abbrev pub flag_read_only : Flags
flag_read_only = 2 ^ 7

abbrev pub flag_execute : Flags
flag_execute = 2 ^ 53

unfoldable pub contains : Flags → Flags → Bool
contains flags other = bit_and flags other == other

unfoldable pub union : Flags → Flags → Flags
union flags other = bit_or flags other

unfoldable pub validate_wx : Flags → Result (Unit {0}) KernelError
validate_wx flags =
    if not (contains flags flag_read_only) && contains flags flag_execute
    then err (security SecurityError.permission_denied)
    else ok tt

abbrev pub PageTableEntry : Type 0
PageTableEntry = ℕ

abbrev pub addr_mask : ℕ
addr_mask = 0x0000_ffff_ffff_f000

unfoldable pub is_valid : PageTableEntry → Bool
is_valid e = not (bit_and e flag_valid == 0)

unfoldable pub is_table : PageTableEntry → Bool
is_table e = not (bit_and e flag_table == 0)

unfoldable pub is_block : PageTableEntry → Bool
is_block e = is_valid e && not (is_table e)

unfoldable pub entry_flags : PageTableEntry → Flags
entry_flags e = bit_and e 0xfff0_0000_0000_0fff

unfoldable pub phys_addr : PageTableEntry → PhysAddr
phys_addr e = bit_and e addr_mask

-- The entry after `set_addr`, and after `set_flags`.
unfoldable pub set_addr : PhysAddr → Flags → PageTableEntry
set_addr addr flags = bit_or (bit_and addr addr_mask) flags

unfoldable pub set_flags : PageTableEntry → Flags → PageTableEntry
set_flags e flags = bit_or (bit_and e addr_mask) flags

abbrev pub PageTable : Type 0
PageTable = Array PageTableEntry

unfoldable pub entry : PageTable → ℕ → Option PageTableEntry
entry table index = if ltb index 512 then some (table index) else none

unfoldable pub clear : PageTable
clear = λ i. 0
