-- ===== src/Elf/Tests.antt =====
-- The parser at a file with one segment, whose bytes lie past the end of the file.
use star_os_kernel.Prelude.{
  ℕ, ◌≡◌, refl, some, List, [], ◌∷◌, ◌++◌, Result, ok, replicate, All, arith,
}
use star_os_kernel.Process.MessageQueue.{le_word}
use star_os_kernel.Elf.{
  ElfError, ElfInfo, field, read_ehdr, read_phdr, is_magic, load_segment, push_segment, add_segment,
  after_phdr, read_segments, overlaps, overlaps_any, any_overlap, finish, parse_table, parse_ehdr,
  parse_elf64,
}
use star_os_kernel.Elf.Reads.{parse_elf64-Returns}
use star_os_kernel.Elf.Segments.{IsLoadable, AllDisjoint, parse_elf64_safe}

-- The field of eight bytes with the two lowest ones given, and that of four and of two bytes.
abbrev eight : ℕ → ℕ → List ℕ
eight a b = a ∷ b ∷ replicate 6 0

abbrev four : ℕ → List ℕ
four a = a ∷ replicate 3 0

abbrev two : ℕ → List ℕ
two a = a ∷ 0 ∷ []

abbrev header : List ℕ
header =
    127 ∷ 69 ∷ 76 ∷ 70 ∷ 2 ∷ 1 ∷ 1 ∷ replicate 9 0
    ++ (two 2
        ++ (two 183
            ++ (four 1
                ++ (eight 0 64
                    ++ (eight 64 0
                        ++ (eight 0 0
                            ++ (four 0
                                ++ (two 0
                                    ++ (two 56 ++ (two 1 ++ (two 0 ++ (two 0 ++ two 0))))))))))))

abbrev program_header : List ℕ
program_header =
    four 1
    ++ (four 5
        ++ (eight 0 16 ++ (eight 0 64 ++ (eight 0 64 ++ (eight 0 8 ++ (eight 0 16 ++ eight 0 0))))))

abbrev file : List ℕ
file = header ++ program_header

abbrev info : ElfInfo
info = record {
  entry_point = 16384;
  segments = record { vaddr = 16384; memsz = 4096; filesz = 2048; offset = 4096; flags = 5 } ∷ [];
}

parsed : parse_elf64 file ≡ some (ok info)
unfolding parse_elf64 parse_ehdr parse_table finish any_overlap overlaps_any overlaps read_segments
    after_phdr add_segment push_segment load_segment is_magic read_phdr read_ehdr field le_word
parsed = refl

parse_elf64-Returns_example : (r : Result ElfInfo ElfError) × (parse_elf64 file ≡ some r)
parse_elf64-Returns_example = parse_elf64-Returns file (omega arith)

parse_elf64_safe_example : All IsLoadable info.segments × AllDisjoint info.segments
parse_elf64_safe_example = parse_elf64_safe file info parsed
