-- ===== src/Memory/PageTable/WriteCheck.antt =====
-- The check of writable and executable pages in kernel/src/memory/virtual_mem.rs, on entries.
use star_os_kernel.Prelude.{ℕ, ◌*◌, ◌^◌, ◌≡◌, refl, ap, bit_and, bit_or, ◌==◌, arith}
use star_os_kernel.Words.{bit}
use star_os_kernel.Words.Bits.{bit-bit_and, bit-bit_or, bit_and-pow}
use star_os_kernel.Memory.Physical.{PhysAddr}
use star_os_kernel.Memory.PageTable.{
  Flags, PageTableEntry, flag_valid, addr_mask, contains, union, validate_wx, set_addr, set_flags,
}

contains-bit : (x k : ℕ) → contains x (2 ^ k) ≡ (bit x k * 2 ^ k == 2 ^ k)
unfolding contains
contains-bit x k = ap (λ (y : ℕ). y == 2 ^ k) (bit_and-pow k x)

-- The check of writable and executable reads two bits.
validate_wx-bit :
    (x y : ℕ) → bit x 7 ≡ bit y 7 → bit x 53 ≡ bit y 53 → validate_wx x ≡ validate_wx y
unfolding validate_wx
validate_wx-bit x y e f =
    rw (contains-bit x 7, contains-bit x 53, contains-bit y 7, contains-bit y 53, e, f) refl

entry-bit :
    (addr : PhysAddr) (flags : Flags) (k : ℕ)
    → bit addr_mask k ≡ 0
    → bit flag_valid k ≡ 0
    → bit (set_addr addr (union flags flag_valid)) k ≡ bit flags k
unfolding set_addr union
entry-bit addr flags k m v = omega (
  arith,
  bit-bit_or k (bit_and addr addr_mask) (bit_or flags flag_valid),
  bit-bit_and k addr addr_mask,
  bit-bit_or k flags flag_valid,
)

pub validate_wx-set_addr :
    (addr : PhysAddr) (flags : Flags)
    → validate_wx (set_addr addr (union flags flag_valid)) ≡ validate_wx flags
unfolding bit
validate_wx-set_addr addr flags =
    validate_wx-bit (set_addr addr (union flags flag_valid)) flags
      (entry-bit addr flags 7 refl refl) (entry-bit addr flags 53 refl refl)

pub validate_wx-set_flags :
    (e : PageTableEntry) (flags : Flags)
    → validate_wx (set_flags e (union flags flag_valid)) ≡ validate_wx flags
unfolding set_flags set_addr
validate_wx-set_flags e flags = validate_wx-set_addr e flags
