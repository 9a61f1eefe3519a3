-- ===== src/Fs.antt =====
-- kernel/src/fs.rs: the file system in memory, a table of 256 inodes. A method returns the file
-- system beside its result; `none` is a panic, where an index or a slice is out of bounds.
pub mod Content
pub mod Names
pub mod Unlink
mod Tests
use star_os_kernel.Prelude.{
  ℕ, zero, suc, ◌+◌, ◌-◌, ◌^◌, ◌%◌, min, Bool, true, false, not, ◌&&◌, Option, none, some, List, [],
  ◌∷◌, ◌++◌, Array, store, Result, ok, err, ltb, leb, ◌==◌, if◌then◌else◌, length, take, drop,
  replicate,
}

abbrev pub max_inodes : ℕ
max_inodes = 256

abbrev pub buf_size : ℕ
buf_size = 4096

abbrev pub max_dir_entries : ℕ
max_dir_entries = 64

-- The bytes of a string.
abbrev pub Name : Type 0
Name = List ℕ

unfoldable pub eq_name : Name → Name → Bool
eq_name [] [] = true
eq_name [] (y ∷ ys) = false
eq_name (x ∷ xs) [] = false
eq_name (x ∷ xs) (y ∷ ys) = (x == y) && eq_name xs ys

pub data FileType : Type 0 where
  regular : FileType
  directory : FileType
  char_dev : FileType
  block_dev : FileType

unfoldable pub is_directory : FileType → Bool
is_directory directory = true
is_directory _ = false

unfoldable pub is_regular : FileType → Bool
is_regular regular = true
is_regular _ = false

pub record DirEntry : Type 0 where
  pub name : Name
  pub inode_id : ℕ

pub record Inode : Type 0 where
  pub ftype : FileType
  pub content : List ℕ
  pub size : ℕ
  pub entries : List DirEntry
  pub in_use : Bool

unfoldable pub new_inode : FileType → Inode
new_inode ftype = record {
  ftype = ftype;
  content = if is_regular ftype then replicate buf_size 0 else [];
  size = 0;
  entries = [];
  in_use = true;
}

pub data FsError : Type 0 where
  no_space : FsError
  not_found : FsError
  not_directory : FsError
  not_file : FsError
  name_too_long : FsError
  dir_full : FsError
  invalid_inode : FsError

-- The vector of inodes keeps its 256 entries.
pub record RamFs : Type 0 where
  pub inodes : Array Inode

abbrev unused_inode : Inode
unused_inode = record { ftype = regular; content = []; size = 0; entries = []; in_use = false }

unfoldable pub new : RamFs
new = record { inodes = store (λ i. unused_inode) 0 (new_inode directory) }

-- The loop of `alloc_inode` over `left` inodes from `i` on: the first that is not in use.
unfoldable pub free_inode : RamFs → ℕ → ℕ → Option ℕ
free_inode fs zero i = none
free_inode fs (suc left) i =
    let rest = free_inode fs left (i + 1) in if (fs.inodes i).in_use then rest else some i

unfoldable pub claim_inode : RamFs → FileType → Option ℕ → RamFs × Result ℕ FsError
claim_inode fs ftype none = (fs, err no_space)
claim_inode fs ftype (some i) = (record fs { inodes = store fs.inodes i (new_inode ftype) }, ok i)

unfoldable pub alloc_inode : RamFs → FileType → RamFs × Result ℕ FsError
alloc_inode fs ftype = claim_inode fs ftype (free_inode fs (max_inodes - 1) 1)

unfoldable pub add_entry : RamFs → ℕ → DirEntry → RamFs
add_entry fs parent e = record fs {
  inodes =
      store fs.inodes parent
        (record (fs.inodes parent) { entries = (fs.inodes parent).entries ++ e ∷ [] });
}

-- What `create` does with the result of `alloc_inode`.
unfoldable pub link : ℕ → Name → RamFs × Result ℕ FsError → RamFs × Result ℕ FsError
link parent name (fs, err e) = (fs, err e)
link parent name (fs, ok id) = (add_entry fs parent (record { name = name; inode_id = id }), ok id)

unfoldable pub create : RamFs → ℕ → Name → FileType → Option (RamFs × Result ℕ FsError)
create fs parent name ftype =
    if ltb 255 (length name)
    then some (fs, err name_too_long)
    else if leb max_inodes parent
    then none
    else if not ((fs.inodes parent).in_use && is_directory (fs.inodes parent).ftype)
    then some (fs, err not_directory)
    else if leb max_dir_entries (length (fs.inodes parent).entries)
    then some (fs, err dir_full)
    else some (link parent name (alloc_inode fs ftype))

unfoldable pub mkdir : RamFs → ℕ → Name → Option (RamFs × Result ℕ FsError)
mkdir fs parent name = create fs parent name directory

-- The loop of `lookup`: the inode of the first entry of that name.
unfoldable pub find_entry : List DirEntry → Name → Result ℕ FsError
find_entry [] name = err not_found
find_entry (e ∷ es) name =
    let rest = find_entry es name in if eq_name e.name name then ok e.inode_id else rest

-- `inode >= MAX_INODES || !self.inodes[inode].in_use`
unfoldable pub is_invalid : RamFs → ℕ → Bool
is_invalid fs inode = if leb max_inodes inode then true else not (fs.inodes inode).in_use

unfoldable pub lookup : RamFs → ℕ → Name → Result ℕ FsError
lookup fs parent name =
    if is_invalid fs parent
    then err invalid_inode
    else if is_directory (fs.inodes parent).ftype
    then find_entry (fs.inodes parent).entries name
    else err not_directory

unfoldable pub open_inode : RamFs → ℕ → Result FileType FsError
open_inode fs inode = if is_invalid fs inode then err invalid_inode else ok (fs.inodes inode).ftype

-- `buf[..n].copy_from_slice(&node.data[offset..offset + n])`
unfoldable pub copy_out : List ℕ → ℕ → ℕ → List ℕ → Option (List ℕ × Result ℕ FsError)
copy_out content offset n buf =
    if leb (offset + n) (length content)
    then some (take n (drop offset content) ++ drop n buf, ok n)
    else none

-- The buffer is returned as `read` leaves it.
unfoldable pub read : RamFs → ℕ → ℕ → List ℕ → Option (List ℕ × Result ℕ FsError)
read fs inode offset buf =
    if is_invalid fs inode
    then some (buf, err invalid_inode)
    else if is_regular (fs.inodes inode).ftype
    then (if leb (fs.inodes inode).size offset
        then some (buf, ok 0)
        else copy_out (fs.inodes inode).content offset
            (min (length buf) ((fs.inodes inode).size - offset)) buf)
    else some (buf, err not_file)

-- `node.data[offset..end].copy_from_slice(&data[..n])`, the new size included.
unfoldable pub copy_in : Inode → ℕ → ℕ → List ℕ → Option Inode
copy_in node offset end data_in =
    if ltb end offset
    then none
    else if ltb (length node.content) end
    then none
    else some (record node {
      content = take offset node.content ++ (take (end - offset) data_in ++ drop end node.content);
      size = if ltb node.size end then end else node.size;
    })

unfoldable pub written : RamFs → ℕ → ℕ → Option Inode → Option (RamFs × Result ℕ FsError)
written fs inode n none = none
written fs inode n (some node) = some (record fs { inodes = store fs.inodes inode node }, ok n)

unfoldable pub write : RamFs → ℕ → ℕ → List ℕ → Option (RamFs × Result ℕ FsError)
write fs inode offset data_in =
    let end = min ((offset + length data_in) % 2 ^ 64) buf_size in
    if is_invalid fs inode
    then some (fs, err invalid_inode)
    else if is_regular (fs.inodes inode).ftype
    then written fs inode (end - offset) (copy_in (fs.inodes inode) offset end data_in)
    else some (fs, err not_file)

unfoldable pub keep_entry : DirEntry → Option (ℕ × List DirEntry) → Option (ℕ × List DirEntry)
keep_entry e none = none
keep_entry e (some (id, es)) = some (id, e ∷ es)

-- The entries without the first of that name, and the inode of that one.
unfoldable pub remove_entry : List DirEntry → Name → Option (ℕ × List DirEntry)
remove_entry [] name = none
remove_entry (e ∷ es) name =
    let rest = remove_entry es name in
    if eq_name e.name name then some (e.inode_id, es) else keep_entry e rest

-- What `unlink` does with the entry that it found.
unfoldable pub drop_entry :
    RamFs → ℕ → Option (ℕ × List DirEntry) → Option (RamFs × Result (Unit {0}) FsError)
drop_entry fs parent none = some (fs, err not_found)
drop_entry fs parent (some (id, es)) =
    let inodes' = store fs.inodes parent (record (fs.inodes parent) { entries = es }) in
    if leb max_inodes id
    then none
    else some (
      record fs {
        inodes =
            store inodes' id (record (inodes' id) { in_use = false; content = []; entries = [] });
      },
      ok tt,
    )

unfoldable pub unlink : RamFs → ℕ → Name → Option (RamFs × Result (Unit {0}) FsError)
unlink fs parent name =
    if is_invalid fs parent
    then some (fs, err invalid_inode)
    else if is_directory (fs.inodes parent).ftype
    then drop_entry fs parent (remove_entry (fs.inodes parent).entries name)
    else some (fs, err not_directory)
