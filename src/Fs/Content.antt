-- ===== src/Fs/Content.antt =====
-- What `write` of kernel/src/fs.rs puts into a file, and that `read` finds it there.
use mathlib.Core.List.{append-nil}
use native.Mathlib.Decide.{dec_le}
use star_os_kernel.Prelude.{
  ℕ, ◌+◌, ◌-◌, ◌^◌, ◌%◌, ◌<◌, ◌≤◌, ◌≡◌, ◌≢◌, refl, sym, subst, ap, ◌∙◌, min, max, true, false, none,
  some, List, [], ◌++◌, store, store_self, store_ne, ok, ltb, leb, if◌then◌else◌, length, take,
  drop, length-append, length-take, length-drop, take_append, drop_append, take_all, drop_all,
  arith,
}
use star_os_kernel.Fs.{
  RamFs, Inode, max_inodes, buf_size, is_regular, is_invalid, copy_in, copy_out, written, write,
  read,
}

-- A regular file whose buffer has its full length.
abbrev pub IsFile : Inode → Type 0
IsFile node =
    (node.in_use ≡ true)
    × (is_regular node.ftype ≡ true)
    × (length node.content ≡ buf_size)
    × (node.size ≤ buf_size)

-- The file with `bytes` at `offset`.
abbrev pub patched : Inode → ℕ → List ℕ → Inode
patched node offset bytes = record node {
  content = take offset node.content ++ (bytes ++ drop (offset + length bytes) node.content);
  size = max node.size (offset + length bytes);
}

length-patched :
    (node : Inode) (offset : ℕ) (bytes : List ℕ)
    → IsFile node
    → offset + length bytes ≤ buf_size
    → length (patched node offset bytes).content ≡ buf_size
length-patched node offset bytes (used, reg, full, small) fits = omega (
  arith,
  length-append (take offset node.content) (bytes ++ drop (offset + length bytes) node.content),
  length-append bytes (drop (offset + length bytes) node.content),
  length-take offset node.content,
  length-drop (offset + length bytes) node.content,
)

patched-IsFile :
    (node : Inode) (offset : ℕ) (bytes : List ℕ)
    → IsFile node
    → offset + length bytes ≤ buf_size
    → IsFile (patched node offset bytes)
patched-IsFile node offset bytes file fits =
    (file.0, file.1, length-patched node offset bytes file fits, omega (arith, file.3))

valid_inode :
    (fs : RamFs) (i : ℕ) → i < max_inodes → (fs.inodes i).in_use ≡ true → is_invalid fs i ≡ false
unfolding is_invalid
valid_inode fs i h used = ground arith

write_file :
    (fs : RamFs) (i offset : ℕ) (bytes : List ℕ)
    → i < max_inodes
    → IsFile (fs.inodes i)
    → write fs i offset bytes
      ≡ written fs i
          (min ((offset + length bytes) % 2 ^ 64) buf_size - offset)
          (copy_in (fs.inodes i) offset (min ((offset + length bytes) % 2 ^ 64) buf_size) bytes)
unfolding write
write_file fs i offset bytes hi file = rw (valid_inode fs i hi file.0, file.1) refl

copy_in-patched :
    (node : Inode) (offset end : ℕ) (bytes : List ℕ)
    → IsFile node
    → offset ≤ end
    → end ≤ buf_size
    → end - offset ≤ length bytes
    → copy_in node offset end bytes ≡ some (patched node offset (take (end - offset) bytes))
unfolding copy_in
copy_in-patched node offset end bytes (used, reg, full, small) lo hi few =
    (let before : ltb end offset ≡ false = ground arith in
      let within : ltb (length node.content) end ≡ false = ground arith in
      let stop : offset + length (take (end - offset) bytes) ≡ end =
        omega (arith, length-take (end - offset) bytes) in
      let larger : (if ltb node.size end then end else node.size) ≡ max node.size end =
        ground arith in
      rw (before, within, stop, larger) refl)

copy_in-before :
    (node : Inode) (offset end : ℕ) (bytes : List ℕ)
    → end < offset
    → copy_in node offset end bytes ≡ none
unfolding copy_in
copy_in-before node offset end bytes h = ground arith

-- The bytes that fit behind `offset`.
abbrev pub fitting : ℕ → List ℕ → List ℕ
fitting offset bytes = take (buf_size - offset) bytes

patched_part :
    (node : Inode) (offset : ℕ) (bytes : List ℕ)
    → IsFile node
    → offset + length bytes ≤ buf_size
    → take (length bytes) (drop offset (patched node offset bytes).content) ≡ bytes
patched_part node offset bytes (used, reg, full, small) fits =
    rw
      (drop_append (take offset node.content) (bytes ++ drop (offset + length bytes) node.content)
        offset (omega (arith, length-take offset node.content)))
      (take_append bytes (drop (offset + length bytes) node.content) (length bytes) refl)

abbrev after : RamFs → ℕ → Inode → RamFs
after fs i node = record fs { inodes = store fs.inodes i node }

read_file :
    (fs : RamFs) (i offset : ℕ) (buf : List ℕ) (node : Inode)
    → i < max_inodes
    → IsFile node
    → read (after fs i node) i offset buf ≡ (
        if leb node.size offset
        then some (buf, ok 0)
        else copy_out node.content offset (min (length buf) (node.size - offset)) buf)
unfolding read is_invalid
read_file fs i offset buf node hi (used, reg, full, small) =
    (let inside : leb max_inodes i ≡ false = ground arith in
      rw (inside, store_self fs.inodes i node, used, reg) refl)

copy_out_full :
    (content : List ℕ) (offset n : ℕ) (buf : List ℕ)
    → offset + n ≤ length content
    → length buf ≡ n
    → copy_out content offset n buf ≡ some (take n (drop offset content), ok n)
unfolding copy_out
copy_out_full content offset n buf h e =
    (let inside : leb (offset + n) (length content) ≡ true = ground arith in
      rw (inside, drop_all n buf (omega arith))
        (ap (λ (t : List ℕ). some (t, ok n)) (append-nil (take n (drop offset content)))))

nil_of_length : (bytes : List ℕ) → length bytes ≡ 0 → bytes ≡ []
nil_of_length bytes e = sym (take_all 0 bytes (omega arith))

length-fitting :
    (offset : ℕ) (bytes : List ℕ) → offset + length (fitting offset bytes) ≤ max offset buf_size
length-fitting offset bytes = omega (arith, length-take (buf_size - offset) bytes)

read_back :
    (fs : RamFs) (i offset : ℕ) (bytes buf : List ℕ) (node : Inode)
    → i < max_inodes
    → IsFile node
    → offset + length bytes ≤ buf_size
    → length buf ≡ length bytes
    → read (after fs i (patched node offset bytes)) i offset buf ≡ some (bytes, ok (length bytes))
read_back fs i offset bytes buf node hi file fits e =
    (let node' : Inode = patched node offset bytes in
      read_file fs i offset buf node' hi (patched-IsFile node offset bytes file fits)
      ∙ elim (dec_le node'.size offset) [
        | yes h ↦
            (let none_read : leb node'.size offset ≡ true = ground arith in
              rw (none_read, nil_of_length buf (omega arith), nil_of_length bytes (omega arith))
                refl)
        | no h ↦
            (let some_read : leb node'.size offset ≡ false = ground arith in
              let all : min (length buf) (node'.size - offset) ≡ length bytes = omega arith in
              rw (some_read, all)
                (copy_out_full node'.content offset (length bytes) buf
                    (omega (arith, length-patched node offset bytes file fits)) e
                  ∙ ap (λ (t : List ℕ). some (t, ok (length bytes)))
                      (patched_part node offset bytes file fits)))
      ])

take_short : (n m : ℕ) (bytes : List ℕ) → n ≡ min m (length bytes) → take n bytes ≡ take m bytes
take_short n m bytes e = elim (dec_le (length bytes) m) [
  | yes h ↦ take_all n bytes (omega arith) ∙ sym (take_all m bytes h)
  | no h ↦ ap (λ (k : ℕ). take k bytes) (omega arith)
]

write-fitting :
    (fs : RamFs) (i offset : ℕ) (bytes : List ℕ)
    → i < max_inodes
    → IsFile (fs.inodes i)
    → offset ≤ buf_size
    → offset + length bytes < 2 ^ 64
    → write fs i offset bytes
      ≡ some (
        after fs i (patched (fs.inodes i) offset (fitting offset bytes)),
        ok (length (fitting offset bytes)),
      )
unfolding written
write-fitting fs i offset bytes hi file lo short =
    (let end : ℕ = min ((offset + length bytes) % 2 ^ 64) buf_size in
      let same : take (end - offset) bytes ≡ fitting offset bytes =
        take_short (end - offset) (buf_size - offset) bytes (omega arith) in
      let count : end - offset ≡ length (fitting offset bytes) =
        omega (arith, length-take (buf_size - offset) bytes) in
      write_file fs i offset bytes hi file
      ∙ ap (written fs i (end - offset)) (
          copy_in-patched (fs.inodes i) offset end bytes file (omega arith) (omega arith)
            (omega arith))
      ∙ ap (λ (b : List ℕ). some (after fs i (patched (fs.inodes i) offset b), ok (end - offset)))
          same
      ∙ ap
          (λ (n : ℕ). some (after fs i (patched (fs.inodes i) offset (fitting offset bytes)), ok n))
          count)

-- A write to a file at an offset within its buffer stores the bytes that fit behind the offset and
-- returns their number: in the file they replace the bytes at the offset, every other inode stays,
-- and the file keeps its full buffer. A read of that many bytes at the offset gives them back.
pub read-write :
    (fs : RamFs) (i offset : ℕ) (bytes : List ℕ)
    → i < max_inodes
    → IsFile (fs.inodes i)
    → offset ≤ buf_size
    → offset + length bytes < 2 ^ 64
    → (fs' : RamFs) × (write fs i offset bytes ≡ some (fs', ok (length (fitting offset bytes))))
      × (fs'.inodes i ≡ patched (fs.inodes i) offset (fitting offset bytes))
      × ((j : ℕ) → j ≢ i → fs'.inodes j ≡ fs.inodes j)
      × IsFile (fs'.inodes i)
      × ((buf : List ℕ)
          → length buf ≡ length (fitting offset bytes)
          → read fs' i offset buf ≡ some (fitting offset bytes, ok (length buf)))
read-write fs i offset bytes hi file lo short =
    (let node : Inode = fs.inodes i in
      let part : List ℕ = fitting offset bytes in
      let fits : offset + length part ≤ buf_size = omega (arith, length-fitting offset bytes) in
      (
        after fs i (patched node offset part),
        write-fitting fs i offset bytes hi file lo short,
        store_self fs.inodes i (patched node offset part),
        λ j ne. store_ne fs.inodes i j (patched node offset part) ne,
        subst IsFile (sym (store_self fs.inodes i (patched node offset part)))
            (patched-IsFile node offset part file fits),
        λ buf e.
            read_back fs i offset part buf node hi file fits e
            ∙ ap (λ (n : ℕ). some (part, ok n)) (sym e),
      ))

-- A write at an offset past the buffer of a file does not return: it panics.
pub write_panics :
    (fs : RamFs) (i offset : ℕ) (bytes : List ℕ)
    → i < max_inodes
    → IsFile (fs.inodes i)
    → buf_size < offset
    → write fs i offset bytes ≡ none
unfolding written
write_panics fs i offset bytes hi file past =
    write_file fs i offset bytes hi file
    ∙ ap (written fs i (min ((offset + length bytes) % 2 ^ 64) buf_size - offset)) (
        copy_in-before (fs.inodes i) offset (min ((offset + length bytes) % 2 ^ 64) buf_size) bytes
          (omega arith))
