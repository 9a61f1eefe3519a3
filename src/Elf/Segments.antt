-- ===== src/Elf/Segments.antt =====
-- What `parse_elf64` of kernel/src/elf.rs guarantees of the segments that it accepts.
use star_os_kernel.Prelude.{
  ℕ, zero, suc, ◌+◌, ◌<◌, ◌≤◌, ◌≡◌, inl, inr, refl, subst, Bool, true, false, ◌||◌, Option, none,
  some, List, [], ◌∷◌, Result, ok, err, if◌then◌else◌, Bool-cases, All, arith,
}
use star_os_kernel.Elf.{
  ElfError, ElfInfo, LoadSegment, Elf64Ehdr, Elf64Phdr, user_space_limit, read_ehdr, load_segment,
  push_segment, add_segment, after_phdr, read_segments, overlaps, overlaps_any, any_overlap, finish,
  parse_table, parse_ehdr, parse_elf64,
}

-- A segment ends within the user's address space, and the file does not fill more than its memory.
abbrev pub IsLoadable : LoadSegment → Type 0
IsLoadable s = (s.vaddr + s.memsz ≤ user_space_limit) × (s.filesz ≤ s.memsz)

-- The address lies in the memory of the segment.
abbrev pub Holds : LoadSegment → ℕ → Type 0
Holds s x = (s.vaddr ≤ x) × (x < s.vaddr + s.memsz)

abbrev pub AreDisjoint : LoadSegment → LoadSegment → Type 0
AreDisjoint a b = (x : ℕ) → Holds a x → ¬ Holds b x

abbrev pub AllDisjoint : List LoadSegment → Type 0
AllDisjoint [] = Unit
AllDisjoint (a ∷ bs) = All (AreDisjoint a) bs × AllDisjoint bs

overlaps-AreDisjoint :
    (a b : LoadSegment) → IsLoadable a → IsLoadable b → overlaps a b ≡ false → AreDisjoint a b
unfolding overlaps
overlaps-AreDisjoint a b la lb e x ha hb = ground arith

or-false : (p q : Bool) → (p || q) ≡ false → (p ≡ false) × (q ≡ false)
or-false true q e = cc
or-false false q e = (refl, e)

overlaps_any-AllDisjoint :
    (a : LoadSegment) (bs : List LoadSegment)
    → IsLoadable a
    → All IsLoadable bs
    → overlaps_any a bs ≡ false
    → All (AreDisjoint a) bs
unfolding overlaps_any
overlaps_any-AllDisjoint a [] la lbs e = tt
overlaps_any-AllDisjoint a (b ∷ bs) la lbs e =
    (let both = or-false (overlaps a b) (overlaps_any a bs) e in
      (overlaps-AreDisjoint a b la lbs.0 both.0, overlaps_any-AllDisjoint a bs la lbs.1 both.1))

any_overlap-AllDisjoint :
    (bs : List LoadSegment) → All IsLoadable bs → any_overlap bs ≡ false → AllDisjoint bs
unfolding any_overlap
any_overlap-AllDisjoint [] l e = tt
any_overlap-AllDisjoint (a ∷ bs) l e =
    (let both = or-false (overlaps_any a bs) (any_overlap bs) e in
      (overlaps_any-AllDisjoint a bs l.0 l.1 both.0, any_overlap-AllDisjoint bs l.1 both.1))

-- A result of `load_segment` or of the loop, where it is no error, has loadable segments only.
abbrev OneLoadable : Result (Option LoadSegment) ElfError → Type 0
OneLoadable (err e) = Unit
OneLoadable (ok none) = Unit
OneLoadable (ok (some s)) = IsLoadable s

abbrev AllLoadable : Option (Result (List LoadSegment) ElfError) → Type 0
AllLoadable none = Unit
AllLoadable (some (err e)) = Unit
AllLoadable (some (ok segments)) = All IsLoadable segments

load_segment-OneLoadable : (ph : Elf64Phdr) → OneLoadable (load_segment ph)
unfolding load_segment
load_segment-OneLoadable ph = ground arith

push_segment-AllLoadable :
    (s : LoadSegment) (rest : Option (Result (List LoadSegment) ElfError))
    → IsLoadable s
    → AllLoadable rest
    → AllLoadable (push_segment s rest)
unfolding push_segment
push_segment-AllLoadable s none l h = tt
push_segment-AllLoadable s (some (err e)) l h = tt
push_segment-AllLoadable s (some (ok segments)) l h = (l, h)

add_segment-AllLoadable :
    (s : Result (Option LoadSegment) ElfError) (rest : Option (Result (List LoadSegment) ElfError))
    → OneLoadable s
    → AllLoadable rest
    → AllLoadable (add_segment s rest)
unfolding add_segment
add_segment-AllLoadable (err e) rest l h = tt
add_segment-AllLoadable (ok none) rest l h = h
add_segment-AllLoadable (ok (some s)) rest l h = push_segment-AllLoadable s rest l h

after_phdr-AllLoadable :
    (ph : Option Elf64Phdr) (rest : Option (Result (List LoadSegment) ElfError))
    → AllLoadable rest
    → AllLoadable (after_phdr ph rest)
unfolding after_phdr
after_phdr-AllLoadable none rest h = tt
after_phdr-AllLoadable (some ph) rest h =
    add_segment-AllLoadable (load_segment ph) rest (load_segment-OneLoadable ph) h

read_segments-AllLoadable :
    (bytes : List ℕ) (ph_off ph_size left i : ℕ)
    → AllLoadable (read_segments bytes ph_off ph_size left i)
unfolding read_segments
read_segments-AllLoadable bytes ph_off ph_size zero i = tt
read_segments-AllLoadable bytes ph_off ph_size (suc left) i =
    after_phdr-AllLoadable _ _ (read_segments-AllLoadable bytes ph_off ph_size left (i + 1))

-- An accepted file: loadable segments, no two of which share an address.
abbrev pub IsSafe : Option (Result ElfInfo ElfError) → Type 0
IsSafe none = Unit
IsSafe (some (err e)) = Unit
IsSafe (some (ok info)) = All IsLoadable info.segments × AllDisjoint info.segments

test-IsSafe :
    (b : Bool) (x y : Option (Result ElfInfo ElfError))
    → IsSafe x
    → IsSafe y
    → IsSafe (if b then x else y)
test-IsSafe true x y h k = h
test-IsSafe false x y h k = k

finish-IsSafe :
    (entry : ℕ) (found : Option (Result (List LoadSegment) ElfError))
    → AllLoadable found
    → IsSafe (finish entry found)
unfolding finish
finish-IsSafe entry none h = tt
finish-IsSafe entry (some (err e)) h = tt
finish-IsSafe entry (some (ok segments)) h = elim (Bool-cases (any_overlap segments)) [
  | inl e ↦ rw e tt
  | inr e ↦ rw e (h, any_overlap-AllDisjoint segments h e)
]

parse_table-IsSafe : (bytes : List ℕ) (h : Elf64Ehdr) → IsSafe (parse_table bytes h)
unfolding parse_table
parse_table-IsSafe bytes h =
    (let found = read_segments bytes h.e_phoff h.e_phentsize h.e_phnum 0 in
      ground (
        arith,
        finish-IsSafe h.e_entry found
            (read_segments-AllLoadable bytes h.e_phoff h.e_phentsize h.e_phnum 0),
      ))

parse_ehdr-IsSafe : (bytes : List ℕ) (h : Option Elf64Ehdr) → IsSafe (parse_ehdr bytes h)
unfolding parse_ehdr
parse_ehdr-IsSafe bytes none = tt
parse_ehdr-IsSafe bytes (some h) = ground (arith, parse_table-IsSafe bytes h)

parsed-IsSafe : (bytes : List ℕ) → IsSafe (parse_elf64 bytes)
unfolding parse_elf64
parsed-IsSafe bytes = ground (arith, parse_ehdr-IsSafe bytes (read_ehdr bytes))

-- Of every file that the parser accepts, each segment ends within the user's address space and takes
-- no more bytes from the file than it has memory, and no two segments share an address.
pub parse_elf64_safe :
    (bytes : List ℕ) (info : ElfInfo)
    → parse_elf64 bytes ≡ some (ok info)
    → All IsLoadable info.segments × AllDisjoint info.segments
parse_elf64_safe bytes info e = subst IsSafe e (parsed-IsSafe bytes)
