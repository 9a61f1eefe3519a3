-- ===== src/Fs/Tests.antt =====
-- The file system at concrete states.
use star_os_kernel.Prelude.{
  ℕ, ◌<◌, ◌≤◌, ◌≡◌, ◌≢◌, ◌⊎◌, refl, some, true, Bool, false, sym, ◌∙◌, if◌then◌else◌, List, [], ◌∷◌,
  ok, err, length, length-replicate, arith,
}
use star_os_kernel.Fs.{
  RamFs, Name, regular, new, new_inode, is_regular, is_directory, create, lookup, write, read,
  unlink, no_space, not_found, max_inodes, find_entry, eq_name,
}
use star_os_kernel.Fs.Content.{IsFile, patched, read-write}
use star_os_kernel.Fs.Names.{IsDir, Creates, created, create-cases, lookup_dir}
use star_os_kernel.Fs.Unlink.{Unlinks, unlink-cases}

abbrev notes : Name
notes = 110 ∷ 111 ∷ []

-- A file system with one file in its root directory.
abbrev one_file : RamFs
one_file = created new 0 notes regular 1

root-IsDir : IsDir new 0
unfolding new new_inode is_directory
root-IsDir = (omega arith, refl, refl)

one_file-IsDir : IsDir one_file 0
unfolding new new_inode is_directory
one_file-IsDir = (omega arith, refl, refl)

notes-IsFile : IsFile (one_file.inodes 1)
unfolding new_inode is_regular
notes-IsFile = (refl, refl, length-replicate {A = ℕ} 4096 0, omega arith)

create-cases_example :
    (((i : ℕ) → 1 ≤ i → i < max_inodes → (new.inodes i).in_use ≡ true)
      × (create new 0 notes regular ≡ some (new, err no_space)))
    ⊎ Creates new 0 notes regular
unfolding new new_inode
create-cases_example = create-cases new 0 notes regular root-IsDir (omega arith) (omega arith)

read-write_example :
    (fs' : RamFs) × (write one_file 1 4094 (1 ∷ 2 ∷ 3 ∷ []) ≡ some (fs', ok 2))
    × (fs'.inodes 1 ≡ patched (one_file.inodes 1) 4094 (1 ∷ 2 ∷ []))
    × ((j : ℕ) → j ≢ 1 → fs'.inodes j ≡ one_file.inodes j)
    × IsFile (fs'.inodes 1)
    × ((buf : List ℕ) → length buf ≡ 2 → read fs' 1 4094 buf ≡ some (1 ∷ 2 ∷ [], ok (length buf)))
read-write_example =
    read-write one_file 1 4094 (1 ∷ 2 ∷ 3 ∷ []) (omega arith) notes-IsFile (omega arith)
      (omega arith)

one_entry :
    (b : Bool) (i : ℕ) → (if b then ok 1 else err not_found) ≡ ok i → (i < max_inodes) × (i ≢ 0)
one_entry true i e = (let h : 1 ≡ i = cc in (omega arith, omega arith))
one_entry false i e = cc

one_file_leads : (n : Name) (i : ℕ) → lookup one_file 0 n ≡ ok i → (i < max_inodes) × (i ≢ 0)
unfolding find_entry eq_name new new_inode
one_file_leads n i e =
    one_entry (eq_name notes n) i (sym (lookup_dir one_file 0 n one_file-IsDir) ∙ e)

unlink-cases_example :
    ((lookup one_file 0 notes ≡ err not_found)
      × (unlink one_file 0 notes ≡ some (one_file, err not_found)))
    ⊎ Unlinks one_file 0 notes
unlink-cases_example = unlink-cases one_file 0 notes one_file-IsDir one_file_leads
