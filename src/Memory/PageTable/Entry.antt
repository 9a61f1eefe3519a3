-- ===== src/Memory/PageTable/Entry.antt =====
-- Page table entries and the parts of a virtual address of kernel/src/memory/virtual_mem.rs.
use star_os_kernel.Prelude.{
  ℕ, ◌+◌, ◌-◌, ◌*◌, ◌/◌, ◌%◌, ◌^◌, ◌<◌, ◌≡◌, refl, ap, ◌∙◌, true, not, bit_and, bit_or, ◌==◌, arith,
}
use star_os_kernel.Words.{bit}
use star_os_kernel.Words.Bits.{
  bit-lt, bit-bit_or, bit-bit_and, bit-pow, bit_and-pow_test, bit_and-lt_mask, bit_or-lt,
}
use star_os_kernel.Words.Fields.{bit_and-low, bit_and-complement, masked_or, apart_or}
use star_os_kernel.Memory.Physical.{PhysAddr, page_size}
use star_os_kernel.Memory.PageTable.{
  VirtAddr, Flags, PageTableEntry, flag_valid, flag_table, addr_mask, union, is_valid, is_table,
  phys_addr, set_addr, set_flags, page_offset, table_index, align_down,
}

-- Flags that leave the address of an entry alone.
abbrev pub AreFlags : Flags → Type 0
AreFlags flags = (flags < 2 ^ 64) × (bit_and flags addr_mask ≡ 0)

pub is_valid-bit : (e : PageTableEntry) → is_valid e ≡ not (bit e 0 == 0)
unfolding is_valid
is_valid-bit e = ap not (bit_and-pow_test e 0)

pub is_table-bit : (e : PageTableEntry) → is_table e ≡ not (bit e 1 == 0)
unfolding is_table
is_table-bit e = ap not (bit_and-pow_test e 1)

pub phys_addr-set_addr :
    (addr : PhysAddr) (flags : Flags)
    → AreFlags flags
    → phys_addr (set_addr addr flags) ≡ bit_and addr addr_mask
unfolding phys_addr set_addr
phys_addr-set_addr addr flags (hf, apart) = masked_or 64 addr flags addr_mask (omega arith) hf apart

-- The mask keeps a page address of 48 bits.
pub masked_page :
    (addr : PhysAddr) → addr % page_size ≡ 0 → addr < 2 ^ 48 → bit_and addr addr_mask ≡ addr
masked_page addr al h =
    (let (q, e, r) = bit_and-low 12 addr in
      omega (arith, bit_and-complement 48 addr 4095 h (omega arith)))

pub valid-set_addr :
    (addr : PhysAddr) (flags : Flags) → bit flags 0 ≡ 1 → is_valid (set_addr addr flags) ≡ true
unfolding set_addr
valid-set_addr addr flags one = ground (
  arith,
  is_valid-bit (bit_or (bit_and addr addr_mask) flags),
  bit-bit_or 0 (bit_and addr addr_mask) flags,
  bit-lt (bit_and addr addr_mask) 0,
)

pub table-set_addr :
    (addr : PhysAddr) (flags : Flags) → bit flags 1 ≡ 1 → is_table (set_addr addr flags) ≡ true
unfolding set_addr
table-set_addr addr flags one = ground (
  arith,
  is_table-bit (bit_or (bit_and addr addr_mask) flags),
  bit-bit_or 1 (bit_and addr addr_mask) flags,
  bit-lt (bit_and addr addr_mask) 1,
)

-- `flags.union(Flags::VALID)`
pub union-valid :
    (flags : Flags)
    → AreFlags flags
    → AreFlags (union flags flag_valid) × (bit (union flags flag_valid) 0 ≡ 1)
unfolding union
union-valid flags (hf, apart) = (
  (
    bit_or-lt 64 flags 1 hf (omega arith),
    apart_or 64 flags 1 addr_mask hf (omega arith) apart refl,
  ),
  omega (arith, bit-bit_or 0 flags 1, bit-lt flags 0, bit-pow 0 0),
)

pub table_index-eq :
    (virt level : ℕ) → table_index virt level ≡ virt / 2 ^ (12 + (3 - level) * 9) % 512
unfolding table_index
table_index-eq virt level =
    (let (q, e, r) = bit_and-low 9 (virt / 2 ^ (12 + (3 - level) * 9)) in omega arith)

pub page_offset-eq : (virt : VirtAddr) → page_offset virt ≡ virt % page_size
unfolding page_offset
page_offset-eq virt = (let (q, e, r) = bit_and-low 12 virt in omega arith)

pub align_down-eq : (virt : VirtAddr) → virt < 2 ^ 64 → align_down virt + virt % page_size ≡ virt
unfolding align_down
align_down-eq virt h =
    (let (q, e, r) = bit_and-low 12 virt in
      omega (arith, bit_and-complement 64 virt 4095 h (omega arith)))

table_flags : AreFlags (union flag_table flag_valid)
unfolding union
table_flags = (omega arith, refl)

-- The entry that links a table.
abbrev pub link_to : PhysAddr → PageTableEntry
link_to page = set_addr page (union flag_table flag_valid)

pub link_to-valid : (page : PhysAddr) → is_valid (link_to page) ≡ true
unfolding union bit
link_to-valid page = valid-set_addr page (union flag_table flag_valid) refl

pub link_to-table : (page : PhysAddr) → is_table (link_to page) ≡ true
unfolding union bit
link_to-table page = table-set_addr page (union flag_table flag_valid) refl

pub phys_addr-link_to :
    (page : PhysAddr) → page % page_size ≡ 0 → page < 2 ^ 48 → phys_addr (link_to page) ≡ page
phys_addr-link_to page al h =
    phys_addr-set_addr page (union flag_table flag_valid) table_flags ∙ masked_page page al h

pub phys_addr-lt : (e : PageTableEntry) → phys_addr e < 2 ^ 48
unfolding phys_addr
phys_addr-lt e = bit_and-lt_mask 48 e addr_mask (omega arith)

-- `set_flags` keeps the address of an entry.
pub phys_addr-set_flags :
    (e : PageTableEntry) (flags : Flags)
    → AreFlags flags
    → phys_addr (set_flags e flags) ≡ phys_addr e
unfolding set_flags phys_addr set_addr
phys_addr-set_flags e flags fl = phys_addr-set_addr e flags fl

pub valid-set_flags :
    (e : PageTableEntry) (flags : Flags) → bit flags 0 ≡ 1 → is_valid (set_flags e flags) ≡ true
unfolding set_flags set_addr
valid-set_flags e flags one = valid-set_addr e flags one

-- Outside the bits of the address, the entry has just the flags and the valid bit.
abbrev pub Carries : PageTableEntry → Flags → Type 0
Carries e flags = (b : ℕ) → bit addr_mask b ≡ 0 → bit e b ≡ bit (union flags flag_valid) b

pub set_addr-Carries :
    (addr : PhysAddr) (flags : Flags) → Carries (set_addr addr (union flags flag_valid)) flags
unfolding set_addr
set_addr-Carries addr flags b off = omega (
  arith,
  bit-bit_or b (bit_and addr addr_mask) (union flags flag_valid),
  bit-bit_and b addr addr_mask,
)

pub set_flags-Carries :
    (e : PageTableEntry) (flags : Flags) → Carries (set_flags e (union flags flag_valid)) flags
unfolding set_flags set_addr
set_flags-Carries e flags = set_addr-Carries e flags
