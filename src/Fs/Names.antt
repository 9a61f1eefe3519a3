-- ===== src/Fs/Names.antt =====
-- Directories of kernel/src/fs.rs: what `create` and `unlink` do to the names that `lookup` finds.
use native.Mathlib.Decide.{ℕ_discrete}
use star_os_kernel.Prelude.{
  ℕ, zero, suc, ◌+◌, ◌<◌, ◌≤◌, ◌≡◌, ◌≢◌, ◌⊎◌, inl, inr, refl, sym, ap, ap₂, ◌∙◌, true, false,
  Option, none, some, List, [], ◌∷◌, ◌++◌, Array, store, store_self, store_ne, Result, ok, err, ltb,
  leb, if◌then◌else◌, length, Bool-cases, arith,
}
use star_os_kernel.Fs.{
  RamFs, Inode, DirEntry, Name, FileType, FsError, no_space, not_found, max_inodes, max_dir_entries,
  eq_name, is_directory, is_invalid, new_inode, free_inode, claim_inode, alloc_inode, add_entry,
  link, create, find_entry, lookup,
}

pub eq_name_self : (n : Name) → eq_name n n ≡ true
unfolding eq_name
eq_name_self [] = refl
eq_name_self (x ∷ xs) = ground (arith, eq_name_self xs)

pub eq_name-eq : (n m : Name) → eq_name n m ≡ true → n ≡ m
unfolding eq_name
eq_name-eq [] [] e = refl
eq_name-eq [] (y ∷ ys) e = cc
eq_name-eq (x ∷ xs) [] e = cc
eq_name-eq (x ∷ xs) (y ∷ ys) e = elim (ℕ_discrete x y) [
  | yes h ↦ ap₂ ◌∷◌ h (eq_name-eq xs ys (ground arith))
  | no h ↦ ground arith
]

-- The first of two answers that is not an error.
abbrev pub or_else : Result ℕ FsError → Result ℕ FsError → Result ℕ FsError
or_else (ok i) later = ok i
or_else (err e) later = later

find_entry-append :
    (es : List DirEntry) (e : DirEntry) (n : Name)
    → find_entry (es ++ e ∷ []) n
      ≡ or_else (find_entry es n) (if eq_name e.name n then ok e.inode_id else err not_found)
unfolding find_entry
find_entry-append [] e n = refl
find_entry-append (d ∷ es) e n = elim (Bool-cases (eq_name d.name n)) [
  | inl h ↦ rw h refl
  | inr h ↦ rw h (find_entry-append es e n)
]

-- What `free_inode` finds.
abbrev Free : RamFs → ℕ → ℕ → Option ℕ → Type 0
Free fs first left found =
    ((found ≡ none) × ((i : ℕ) → first ≤ i → i < first + left → (fs.inodes i).in_use ≡ true))
    ⊎ ((i : ℕ) × (found ≡ some i)
        × (first ≤ i)
        × (i < first + left)
        × ((fs.inodes i).in_use ≡ false))

used_or_later :
    (fs : RamFs) (i j : ℕ)
    → (fs.inodes i).in_use ≡ true
    → (i + 1 ≤ j → (fs.inodes j).in_use ≡ true)
    → i ≤ j
    → (fs.inodes j).in_use ≡ true
used_or_later fs i j used later lo = elim (ℕ_discrete j i) [
  | yes e ↦ ap (λ (k : ℕ). (fs.inodes k).in_use) e ∙ used
  | no ne ↦ later (omega arith)
]

Free-later :
    (fs : RamFs) (i left : ℕ) (found : Option ℕ)
    → (fs.inodes i).in_use ≡ true
    → Free fs (i + 1) left found
    → Free fs i (suc left) found
Free-later fs i left found used (inl (e, all)) =
    inl (e, λ j lo hi. used_or_later fs i j used (λ h. all j h (omega arith)) lo)
Free-later fs i left found used (inr (j, e, lo, hi, unused)) =
    inr (j, e, omega arith, omega arith, unused)

free_inode-Free : (fs : RamFs) (left i : ℕ) → Free fs i left (free_inode fs left i)
unfolding free_inode
free_inode-Free fs zero i = inl (refl, λ j lo hi. absurd (omega arith))
free_inode-Free fs (suc left) i = elim (Bool-cases (fs.inodes i).in_use) [
  | inl used ↦ rw used (Free-later fs i left _ used (free_inode-Free fs left (i + 1)))
  | inr unused ↦ rw unused (inr (i, refl, omega arith, omega arith, unused))
]

-- A directory in use within the table, and a name that `create` takes into it.
abbrev pub IsDir : RamFs → ℕ → Type 0
IsDir fs parent =
    (parent < max_inodes)
    × ((fs.inodes parent).in_use ≡ true)
    × (is_directory (fs.inodes parent).ftype ≡ true)

create_room :
    (fs : RamFs) (parent : ℕ) (name : Name) (ftype : FileType)
    → IsDir fs parent
    → length name ≤ 255
    → length (fs.inodes parent).entries < max_dir_entries
    → create fs parent name ftype
      ≡ some (link parent name (claim_inode fs ftype (free_inode fs 255 1)))
unfolding create alloc_inode
create_room fs parent name ftype (inside, used, dir) short room =
    (let a : ltb 255 (length name) ≡ false = ground arith in
      let b : leb max_inodes parent ≡ false = ground arith in
      let c : leb max_dir_entries (length (fs.inodes parent).entries) ≡ false = ground arith in
      rw (a, b, used, dir, c) refl)

pub lookup_dir :
    (fs : RamFs) (parent : ℕ) (name : Name)
    → IsDir fs parent
    → lookup fs parent name ≡ find_entry (fs.inodes parent).entries name
unfolding lookup is_invalid
lookup_dir fs parent name (inside, used, dir) =
    (let b : leb max_inodes parent ≡ false = ground arith in rw (b, used, dir) refl)

abbrev claimed : RamFs → ℕ → FileType → RamFs
claimed fs i ftype = record fs { inodes = store fs.inodes i (new_inode ftype) }

-- The directory after an entry is added to it.
abbrev pub extended : Inode → Name → ℕ → Inode
extended dir name id = record dir {
  entries = dir.entries ++ record { name = name; inode_id = id } ∷ [];
}

abbrev pub created : RamFs → ℕ → Name → FileType → ℕ → RamFs
created fs parent name ftype id = record fs {
  inodes =
      store (store fs.inodes id (new_inode ftype)) parent (extended (fs.inodes parent) name id);
}

link_claimed :
    (fs : RamFs) (parent : ℕ) (name : Name) (ftype : FileType) (id : ℕ)
    → parent ≢ id
    → link parent name (claim_inode fs ftype (some id)) ≡ (created fs parent name ftype id, ok id)
unfolding link claim_inode add_entry
link_claimed fs parent name ftype id ne =
    rw (store_ne fs.inodes id parent (new_inode ftype) ne) refl

lookup-created :
    (fs : RamFs) (parent : ℕ) (name : Name) (ftype : FileType) (id : ℕ) (n : Name)
    → IsDir fs parent
    → lookup (created fs parent name ftype id) parent n
      ≡ or_else (lookup fs parent n) (if eq_name name n then ok id else err not_found)
lookup-created fs parent name ftype id n dir =
    (let fs' : RamFs = created fs parent name ftype id in
      let at : fs'.inodes parent ≡ extended (fs.inodes parent) name id =
        store_self (store fs.inodes id (new_inode ftype)) parent
          (extended (fs.inodes parent) name id) in
      let dir' : IsDir fs' parent = (
        dir.0,
        ap (λ (d : Inode). d.in_use) at ∙ dir.1,
        ap (λ (d : Inode). is_directory d.ftype) at ∙ dir.2,
      ) in
      lookup_dir fs' parent n dir'
      ∙ ap (λ (d : Inode). find_entry d.entries n) at
      ∙ find_entry-append (fs.inodes parent).entries (record { name = name; inode_id = id }) n
      ∙ ap (λ (r : Result ℕ FsError). or_else r (if eq_name name n then ok id else err not_found))
          (sym (lookup_dir fs parent n dir)))

other_name :
    (name n : Name) (id : ℕ) (found : Result ℕ FsError)
    → n ≢ name
    → ((i : ℕ) → found ≢ ok i)
    → or_else found (if eq_name name n then ok id else err not_found) ≡ err not_found
other_name name n id (ok i) ne missing = absurd (missing i refl)
other_name name n id (err e) ne missing = elim (Bool-cases (eq_name name n)) [
  | inl h ↦ absurd (ne (sym (eq_name-eq name n h)))
  | inr h ↦ rw h refl
]

-- A file or directory that `create` makes in inode `id`: the inode was unused and is fresh, only it
-- and the parent change, and of a lookup in the parent it answers just those of its name that
-- failed before.
abbrev pub Creates : RamFs → ℕ → Name → FileType → Type 0
Creates fs parent name ftype =
    (id : ℕ) × (fs' : RamFs) × (create fs parent name ftype ≡ some (fs', ok id))
    × (1 ≤ id)
    × (id < max_inodes)
    × ((fs.inodes id).in_use ≡ false)
    × (fs'.inodes id ≡ new_inode ftype)
    × ((j : ℕ) → j ≢ id → j ≢ parent → fs'.inodes j ≡ fs.inodes j)
    × ((n : Name)
        → lookup fs' parent n
          ≡ or_else (lookup fs parent n) (if eq_name name n then ok id else err not_found))

unused_ne :
    (fs : RamFs) (parent id : ℕ)
    → (fs.inodes parent).in_use ≡ true
    → (fs.inodes id).in_use ≡ false
    → parent ≢ id
unused_ne fs parent id used unused e =
    (let f : (fs.inodes parent).in_use ≡ (fs.inodes id).in_use =
        ap (λ (k : ℕ). (fs.inodes k).in_use) e in
      cc)

created-Creates :
    (fs : RamFs) (parent : ℕ) (name : Name) (ftype : FileType) (id : ℕ)
    → IsDir fs parent
    → create fs parent name ftype ≡ some (created fs parent name ftype id, ok id)
    → 1 ≤ id
    → id < max_inodes
    → (fs.inodes id).in_use ≡ false
    → Creates fs parent name ftype
created-Creates fs parent name ftype id dir e lo hi unused =
    (let ne : parent ≢ id = unused_ne fs parent id dir.1 unused in
      let inodes' : Array Inode = store fs.inodes id (new_inode ftype) in
      let dir' : Inode = extended (fs.inodes parent) name id in
      (
        id,
        created fs parent name ftype id,
        e,
        lo,
        hi,
        unused,
        store_ne inodes' parent id dir' (λ f. ne (sym f))
            ∙ store_self fs.inodes id (new_inode ftype),
        λ j other other'.
            store_ne inodes' parent j dir' other' ∙ store_ne fs.inodes id j (new_inode ftype) other,
        λ n. lookup-created fs parent name ftype id n dir,
      ))

-- In a directory with room, a name of at most 255 bytes is refused, the file system unchanged,
-- exactly where every inode from 1 on is in use. Otherwise `create` makes the file in an inode that
-- was unused: the inode is fresh, no inode but this one and the directory changes, and of the
-- lookups in the directory those of the name answer the new inode that failed before, and all
-- others, those of a name that was there already included, answer as before.
pub create-cases :
    (fs : RamFs) (parent : ℕ) (name : Name) (ftype : FileType)
    → IsDir fs parent
    → length name ≤ 255
    → length (fs.inodes parent).entries < max_dir_entries
    → (((i : ℕ) → 1 ≤ i → i < max_inodes → (fs.inodes i).in_use ≡ true)
        × (create fs parent name ftype ≡ some (fs, err no_space)))
      ⊎ Creates fs parent name ftype
unfolding link claim_inode
create-cases fs parent name ftype dir short room = elim (free_inode-Free fs 255 1) [
  | inl (e, all) ↦ inl (
    λ i lo hi. all i lo (omega arith),
    create_room fs parent name ftype dir short room
        ∙ ap (λ (o : Option ℕ). some (link parent name (claim_inode fs ftype o))) e,
  )
  | inr (id, e, lo, hi, unused) ↦ inr (
      created-Creates fs parent name ftype id dir
        (create_room fs parent name ftype dir short room
          ∙ ap (λ (o : Option ℕ). some (link parent name (claim_inode fs ftype o))) e
          ∙ ap some (link_claimed fs parent name ftype id (unused_ne fs parent id dir.1 unused)))
        lo (omega arith) unused)
]
