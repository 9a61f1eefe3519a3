-- ===== src/Elf.antt =====
-- kernel/src/elf.rs: the header and the program headers of an ELF64 file, read as bytes, and the
-- checks of the segments to load. `none` is a read past the end of the file.
pub mod Reads
pub mod Segments
mod Tests
use star_os_kernel.Prelude.{
  ℕ, zero, suc, ◌+◌, ◌*◌, ◌^◌, ◌%◌, Bool, true, false, not, ◌&&◌, ◌||◌, Option, none, some, List,
  [], ◌∷◌, Result, ok, err, ltb, leb, ◌==◌, if◌then◌else◌, length, take, drop, get_or,
}
use star_os_kernel.Process.MessageQueue.{le_word}

pub data ElfError : Type 0 where
  too_short : ElfError
  bad_magic : ElfError
  not_elf64 : ElfError
  not_little_endian : ElfError
  not_aarch64 : ElfError
  invalid_phdr : ElfError
  segment_out_of_range : ElfError
  overlapping_segments : ElfError

abbrev pub elfclass64 : ℕ
elfclass64 = 2

abbrev pub elfdata2lsb : ℕ
elfdata2lsb = 1

abbrev pub em_aarch64 : ℕ
em_aarch64 = 183

abbrev pub pt_load : ℕ
pt_load = 1

-- 0x0000_8000_0000_0000
abbrev pub user_space_limit : ℕ
user_space_limit = 2 ^ 47

pub record LoadSegment : Type 0 where
  pub vaddr : ℕ
  pub memsz : ℕ
  pub filesz : ℕ
  pub offset : ℕ
  pub flags : ℕ

pub record ElfInfo : Type 0 where
  pub entry_point : ℕ
  pub segments : List LoadSegment

pub record Elf64Ehdr : Type 0 where
  pub e_ident : List ℕ
  pub e_type : ℕ
  pub e_machine : ℕ
  pub e_version : ℕ
  pub e_entry : ℕ
  pub e_phoff : ℕ
  pub e_shoff : ℕ
  pub e_flags : ℕ
  pub e_ehsize : ℕ
  pub e_phentsize : ℕ
  pub e_phnum : ℕ
  pub e_shentsize : ℕ
  pub e_shnum : ℕ
  pub e_shstrndx : ℕ

pub record Elf64Phdr : Type 0 where
  pub p_type : ℕ
  pub p_flags : ℕ
  pub p_offset : ℕ
  pub p_vaddr : ℕ
  pub p_paddr : ℕ
  pub p_filesz : ℕ
  pub p_memsz : ℕ
  pub p_align : ℕ

abbrev pub ehdr_size : ℕ
ehdr_size = 64

abbrev pub phdr_size : ℕ
phdr_size = 56

-- The little-endian integer of `n` bytes at `off`.
unfoldable pub field : List ℕ → ℕ → ℕ → ℕ
field bytes off n = le_word (take n (drop off bytes))

-- `ptr::read_unaligned` of the header, whose fields lie in the order of the structure.
unfoldable pub read_ehdr : List ℕ → Option Elf64Ehdr
read_ehdr bytes =
    if leb ehdr_size (length bytes)
    then some (record {
      e_ident = take 16 bytes;
      e_type = field bytes 16 2;
      e_machine = field bytes 18 2;
      e_version = field bytes 20 4;
      e_entry = field bytes 24 8;
      e_phoff = field bytes 32 8;
      e_shoff = field bytes 40 8;
      e_flags = field bytes 48 4;
      e_ehsize = field bytes 52 2;
      e_phentsize = field bytes 54 2;
      e_phnum = field bytes 56 2;
      e_shentsize = field bytes 58 2;
      e_shnum = field bytes 60 2;
      e_shstrndx = field bytes 62 2;
    })
    else none

unfoldable pub read_phdr : List ℕ → ℕ → Option Elf64Phdr
read_phdr bytes off =
    if leb (off + phdr_size) (length bytes)
    then some (record {
      p_type = field bytes off 4;
      p_flags = field bytes (off + 4) 4;
      p_offset = field bytes (off + 8) 8;
      p_vaddr = field bytes (off + 16) 8;
      p_paddr = field bytes (off + 24) 8;
      p_filesz = field bytes (off + 32) 8;
      p_memsz = field bytes (off + 40) 8;
      p_align = field bytes (off + 48) 8;
    })
    else none

-- `e_ident[0..4] == ELF_MAGIC`
unfoldable pub is_magic : List ℕ → Bool
is_magic ident =
    (get_or ident 0 0 == 127)
    && ((get_or ident 1 0 == 69) && ((get_or ident 2 0 == 76) && (get_or ident 3 0 == 70)))

-- What the loop does with one program header: nothing, a segment, or an error.
unfoldable pub load_segment : Elf64Phdr → Result (Option LoadSegment) ElfError
load_segment ph =
    if not (ph.p_type == pt_load)
    then ok none
    else if leb (2 ^ 64) (ph.p_vaddr + ph.p_memsz)
    then err segment_out_of_range
    else if ltb user_space_limit (ph.p_vaddr + ph.p_memsz)
    then err segment_out_of_range
    else if ltb ph.p_memsz ph.p_filesz
    then err invalid_phdr
    else ok (
        some (record {
          vaddr = ph.p_vaddr;
          memsz = ph.p_memsz;
          filesz = ph.p_filesz;
          offset = ph.p_offset;
          flags = ph.p_flags;
        }))

unfoldable pub push_segment :
    LoadSegment
    → Option (Result (List LoadSegment) ElfError)
    → Option (Result (List LoadSegment) ElfError)
push_segment s none = none
push_segment s (some (err e)) = some (err e)
push_segment s (some (ok segments)) = some (ok (s ∷ segments))

unfoldable pub add_segment :
    Result (Option LoadSegment) ElfError
    → Option (Result (List LoadSegment) ElfError)
    → Option (Result (List LoadSegment) ElfError)
add_segment (err e) rest = some (err e)
add_segment (ok none) rest = rest
add_segment (ok (some s)) rest = push_segment s rest

unfoldable pub after_phdr :
    Option Elf64Phdr
    → Option (Result (List LoadSegment) ElfError)
    → Option (Result (List LoadSegment) ElfError)
after_phdr none rest = none
after_phdr (some ph) rest = add_segment (load_segment ph) rest

-- The loop over `left` program headers from number `i` on.
unfoldable pub read_segments : List ℕ → ℕ → ℕ → ℕ → ℕ → Option (Result (List LoadSegment) ElfError)
read_segments bytes ph_off ph_size zero i = some (ok [])
read_segments bytes ph_off ph_size (suc left) i =
    after_phdr (read_phdr bytes ((ph_off + i * ph_size) % 2 ^ 64))
      (read_segments bytes ph_off ph_size left (i + 1))

unfoldable pub overlaps : LoadSegment → LoadSegment → Bool
overlaps a b =
    ltb a.vaddr ((b.vaddr + b.memsz) % 2 ^ 64) && ltb b.vaddr ((a.vaddr + a.memsz) % 2 ^ 64)

-- The inner and the outer loop of the overlap check.
unfoldable pub overlaps_any : LoadSegment → List LoadSegment → Bool
overlaps_any a [] = false
overlaps_any a (b ∷ bs) = overlaps a b || overlaps_any a bs

unfoldable pub any_overlap : List LoadSegment → Bool
any_overlap [] = false
any_overlap (a ∷ bs) = overlaps_any a bs || any_overlap bs

unfoldable pub finish :
    ℕ → Option (Result (List LoadSegment) ElfError) → Option (Result ElfInfo ElfError)
finish entry none = none
finish entry (some (err e)) = some (err e)
finish entry (some (ok segments)) =
    if any_overlap segments
    then some (err overlapping_segments)
    else some (ok (record { entry_point = entry; segments = segments }))

-- The checks of the program header table, whose products and sums are checked ones.
unfoldable pub parse_table : List ℕ → Elf64Ehdr → Option (Result ElfInfo ElfError)
parse_table bytes h =
    let table = h.e_phentsize * h.e_phnum in
    if leb (2 ^ 64) table
    then some (err invalid_phdr)
    else if leb (2 ^ 64) (h.e_phoff + table)
    then some (err invalid_phdr)
    else if ltb h.e_phentsize phdr_size || ltb (length bytes) (h.e_phoff + table)
    then some (err invalid_phdr)
    else finish h.e_entry (read_segments bytes h.e_phoff h.e_phentsize h.e_phnum 0)

unfoldable pub parse_ehdr : List ℕ → Option Elf64Ehdr → Option (Result ElfInfo ElfError)
parse_ehdr bytes none = none
parse_ehdr bytes (some h) =
    if not (is_magic h.e_ident)
    then some (err bad_magic)
    else if not (get_or h.e_ident 4 0 == elfclass64)
    then some (err not_elf64)
    else if not (get_or h.e_ident 5 0 == elfdata2lsb)
    then some (err not_little_endian)
    else if not (h.e_machine == em_aarch64)
    then some (err not_aarch64)
    else parse_table bytes h

unfoldable pub parse_elf64 : List ℕ → Option (Result ElfInfo ElfError)
parse_elf64 bytes =
    if ltb (length bytes) ehdr_size
    then some (err too_short)
    else parse_ehdr bytes (read_ehdr bytes)
