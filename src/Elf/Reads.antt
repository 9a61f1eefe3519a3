-- ===== src/Elf/Reads.antt =====
-- `parse_elf64` of kernel/src/elf.rs never reads past the end of the file.
use native.Mathlib.Decide.{dec_le, dec_lt}
use star_os_kernel.Prelude.{
  ℕ, zero, suc, ◌+◌, ◌*◌, ◌^◌, ◌%◌, ◌<◌, ◌≤◌, ◌≡◌, refl, Bool, true, false, not, Option, none, some,
  List, [], ◌∷◌, Result, ok, err, ltb, leb, ◌==◌, if◌then◌else◌, length, get_or, arith,
}
use star_os_kernel.Elf.{
  ElfError, ElfInfo, LoadSegment, Elf64Ehdr, Elf64Phdr, phdr_size, ehdr_size, elfclass64,
  elfdata2lsb, em_aarch64, invalid_phdr, overlapping_segments, bad_magic, not_elf64,
  not_little_endian, not_aarch64, too_short, read_ehdr, read_phdr, is_magic, load_segment,
  push_segment, add_segment, after_phdr, read_segments, any_overlap, finish, parse_table,
  parse_ehdr, parse_elf64,
}

-- A read that stays within the file.
abbrev pub Returns : {A : Type 0} → Option A → Type 0
Returns {A} o = (a : A) × (o ≡ some a)

add_segment-Returns :
    (s : Result (Option LoadSegment) ElfError) (rest : Option (Result (List LoadSegment) ElfError))
    → Returns rest
    → Returns (add_segment s rest)
unfolding add_segment push_segment
add_segment-Returns (err e) rest r = (err e, refl)
add_segment-Returns (ok none) rest r = r
add_segment-Returns (ok (some s)) rest (err e, h) = (err e, rw h refl)
add_segment-Returns (ok (some s)) rest (ok segments, h) = (ok (s ∷ segments), rw h refl)

read_phdr-Returns :
    (bytes : List ℕ) (off : ℕ) → off + phdr_size ≤ length bytes → Returns (read_phdr bytes off)
unfolding read_phdr
read_phdr-Returns bytes off h =
    (let inside : leb (off + phdr_size) (length bytes) ≡ true = ground arith in rw inside (_, refl))

after_phdr-Returns :
    (ph : Option Elf64Phdr) (rest : Option (Result (List LoadSegment) ElfError))
    → Returns ph
    → Returns rest
    → Returns (after_phdr ph rest)
unfolding after_phdr
after_phdr-Returns none rest (a, e) r = cc
after_phdr-Returns (some ph) rest e r = add_segment-Returns (load_segment ph) rest r

read_segments-Returns :
    (bytes : List ℕ) (ph_off ph_size left i : ℕ)
    → phdr_size ≤ ph_size
    → length bytes < 2 ^ 64
    → ph_off + (i + left) * ph_size ≤ length bytes
    → Returns (read_segments bytes ph_off ph_size left i)
unfolding read_segments
read_segments-Returns bytes ph_off ph_size zero i wide short inside = (ok [], refl)
read_segments-Returns bytes ph_off ph_size (suc left) i wide short inside =
    (let e : (i + suc left) * ph_size ≡ i * ph_size + ph_size + left * ph_size = omega arith in
      after_phdr-Returns _ _
        (read_phdr-Returns bytes ((ph_off + i * ph_size) % 2 ^ 64) (omega arith))
        (read_segments-Returns bytes ph_off ph_size left (i + 1) wide short (omega arith)))

test-Returns :
    {A : Type 0} (b : Bool) {x y : Option A} → Returns x → Returns y → Returns (if b then x else y)
test-Returns true r s = r
test-Returns false r s = s

finish-Returns :
    (entry : ℕ) (found : Option (Result (List LoadSegment) ElfError))
    → Returns found
    → Returns (finish entry found)
unfolding finish
finish-Returns entry none (a, e) = cc
finish-Returns entry (some (err f)) r = (err f, refl)
finish-Returns entry (some (ok segments)) r =
    test-Returns (any_overlap segments) (err overlapping_segments, refl)
      (ok (record { entry_point = entry; segments = segments }), refl)

parse_table-Returns :
    (bytes : List ℕ) (h : Elf64Ehdr) → length bytes < 2 ^ 64 → Returns (parse_table bytes h)
unfolding parse_table
parse_table-Returns bytes h short =
    test-Returns (leb (2 ^ 64) (h.e_phentsize * h.e_phnum)) (err invalid_phdr, refl)
      (test-Returns (leb (2 ^ 64) (h.e_phoff + h.e_phentsize * h.e_phnum)) (err invalid_phdr, refl)
        (elim (dec_lt h.e_phentsize phdr_size) [
          | yes small ↦
              (let e : ltb h.e_phentsize phdr_size ≡ true = ground arith in
                rw e (err invalid_phdr, refl))
          | no wide ↦ elim (dec_le (h.e_phoff + h.e_phentsize * h.e_phnum) (length bytes)) [
            | yes inside ↦
                (let e : ltb h.e_phentsize phdr_size ≡ false = ground arith in
                  let f : ltb (length bytes) (h.e_phoff + h.e_phentsize * h.e_phnum) ≡ false =
                    ground arith in
                  rw (e, f)
                    (finish-Returns h.e_entry _ (
                      read_segments-Returns bytes h.e_phoff h.e_phentsize h.e_phnum 0 (omega arith)
                        short (omega arith))))
            | no past ↦
                (let e : ltb h.e_phentsize phdr_size ≡ false = ground arith in
                  let f : ltb (length bytes) (h.e_phoff + h.e_phentsize * h.e_phnum) ≡ true =
                    ground arith in
                  rw (e, f) (err invalid_phdr, refl))
          ]
        ]))

parse_ehdr-Returns :
    (bytes : List ℕ) (h : Option Elf64Ehdr)
    → length bytes < 2 ^ 64
    → Returns h
    → Returns (parse_ehdr bytes h)
unfolding parse_ehdr
parse_ehdr-Returns bytes none short (a, e) = cc
parse_ehdr-Returns bytes (some h) short r =
    test-Returns (not (is_magic h.e_ident)) (err bad_magic, refl)
      (test-Returns (not (get_or h.e_ident 4 0 == elfclass64)) (err not_elf64, refl)
        (test-Returns (not (get_or h.e_ident 5 0 == elfdata2lsb)) (err not_little_endian, refl)
          (test-Returns (not (h.e_machine == em_aarch64)) (err not_aarch64, refl)
            (parse_table-Returns bytes h short))))

read_ehdr-Returns : (bytes : List ℕ) → ehdr_size ≤ length bytes → Returns (read_ehdr bytes)
unfolding read_ehdr
read_ehdr-Returns bytes h =
    (let inside : leb ehdr_size (length bytes) ≡ true = ground arith in rw inside (_, refl))

-- For every file of fewer than 2 ^ 64 bytes, the parser returns a result: no read of the header or
-- of a program header goes past the end of the file.
pub parse_elf64-Returns :
    (bytes : List ℕ)
    → length bytes < 2 ^ 64
    → (r : Result ElfInfo ElfError) × (parse_elf64 bytes ≡ some r)
unfolding parse_elf64
parse_elf64-Returns bytes short = elim (dec_lt (length bytes) ehdr_size) [
  | yes few ↦
      (let e : ltb (length bytes) ehdr_size ≡ true = ground arith in rw e (err too_short, refl))
  | no h ↦
      (let e : ltb (length bytes) ehdr_size ≡ false = ground arith in
        rw e (
          parse_ehdr-Returns bytes (read_ehdr bytes) short (read_ehdr-Returns bytes (omega arith))))
]
