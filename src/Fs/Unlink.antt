-- ===== src/Fs/Unlink.antt =====
-- `unlink` of kernel/src/fs.rs: which entry it takes out of the directory, and what it frees.
use star_os_kernel.Prelude.{
  ℕ, ◌<◌, ◌≡◌, ◌≢◌, ◌⊎◌, inl, inr, refl, sym, ap, ◌∙◌, true, false, none, some, List, [], ◌∷◌, ◌++◌,
  Array, store, store_self, store_ne, ok, err, leb, Bool-cases, arith,
}
use star_os_kernel.Fs.{
  RamFs, Inode, DirEntry, Name, not_found, max_inodes, eq_name, is_directory, is_invalid,
  find_entry, lookup, remove_entry, keep_entry, drop_entry, unlink,
}
use star_os_kernel.Fs.Names.{IsDir, lookup_dir, eq_name-eq}

-- The first entry of a name, which leads to `id`, leaves, and the others keep their order. The name is
-- found then just where a later entry has it.
abbrev pub Cuts : List DirEntry → Name → ℕ → List DirEntry → Type 0
Cuts es name id es' =
    (before : List DirEntry) × (d : DirEntry) × (after : List DirEntry) × (es
      ≡ before ++ (d ∷ after))
    × (d.name ≡ name)
    × (d.inode_id ≡ id)
    × (find_entry before name ≡ err not_found)
    × (es' ≡ before ++ after)
    × (find_entry es' name ≡ find_entry after name)

-- The first entry of a name leaves; the entries of the other names are found as before.
abbrev Removes : List DirEntry → Name → Type 0
Removes es name =
    ((remove_entry es name ≡ none) × (find_entry es name ≡ err not_found))
    ⊎ ((id : ℕ) × (es' : List DirEntry) × (remove_entry es name ≡ some (id, es'))
        × (find_entry es name ≡ ok id)
        × Cuts es name id es'
        × ((n : Name) → n ≢ name → find_entry es' n ≡ find_entry es n))

skip_entry :
    (d : DirEntry) (es : List DirEntry) (n : Name)
    → eq_name d.name n ≡ false
    → find_entry (d ∷ es) n ≡ find_entry es n
unfolding find_entry
skip_entry d es n h = rw h refl

kept-entry :
    (d : DirEntry) (es es' : List DirEntry) (n : Name)
    → find_entry es' n ≡ find_entry es n
    → find_entry (d ∷ es') n ≡ find_entry (d ∷ es) n
unfolding find_entry
kept-entry d es es' n h = rw h refl

differs : (m n name : Name) → n ≢ name → eq_name m name ≡ true → eq_name m n ≡ false
differs m n name ne h = elim (Bool-cases (eq_name m n)) [
  | inl e ↦ absurd (ne (sym (eq_name-eq m n e) ∙ eq_name-eq m name h))
  | inr e ↦ e
]

Cuts-skip :
    (d : DirEntry) (es es' : List DirEntry) (name : Name) (id : ℕ)
    → eq_name d.name name ≡ false
    → Cuts es name id es'
    → Cuts (d ∷ es) name id (d ∷ es')
Cuts-skip d es es' name id h (before, e, after, split, named, leads, none_before, rest, later) = (
  d ∷ before,
  e,
  after,
  ap (λ (x : List DirEntry). d ∷ x) split,
  named,
  leads,
  skip_entry d before name h ∙ none_before,
  ap (λ (x : List DirEntry). d ∷ x) rest,
  skip_entry d es' name h ∙ later,
)

Removes-skip :
    (d : DirEntry) (es : List DirEntry) (name : Name)
    → eq_name d.name name ≡ false
    → Removes es name
    → Removes (d ∷ es) name
unfolding remove_entry keep_entry
Removes-skip d es name h (inl (e, f)) = inl (rw (h, e) refl, skip_entry d es name h ∙ f)
Removes-skip d es name h (inr (id, es', e, f, cuts, others)) = inr (
  id,
  d ∷ es',
  rw (h, e) refl,
  skip_entry d es name h ∙ f,
  Cuts-skip d es es' name id h cuts,
  λ n ne. kept-entry d es es' n (others n ne),
)

remove_entry-Removes : (es : List DirEntry) (name : Name) → Removes es name
unfolding remove_entry find_entry
remove_entry-Removes [] name = inl (refl, refl)
remove_entry-Removes (d ∷ es) name = elim (Bool-cases (eq_name d.name name)) [
  | inr h ↦ Removes-skip d es name h (remove_entry-Removes es name)
  | inl h ↦ inr (
    d.inode_id,
    es,
    rw h refl,
    rw h refl,
    ([], d, es, refl, eq_name-eq d.name name h, refl, refl, refl, refl),
    λ n ne. sym (skip_entry d es n (differs d.name n name ne h)),
  )
]

abbrev without : RamFs → ℕ → List DirEntry → Array Inode
without fs parent es = store fs.inodes parent (record (fs.inodes parent) { entries = es })

abbrev pub freed : Inode → Inode
freed node = record node { in_use = false; content = []; entries = [] }

abbrev unlinked : RamFs → ℕ → List DirEntry → ℕ → RamFs
unlinked fs parent es id = record fs {
  inodes = store (without fs parent es) id (freed (without fs parent es id));
}

drop_entry_in :
    (fs : RamFs) (parent id : ℕ) (es : List DirEntry)
    → id < max_inodes
    → drop_entry fs parent (some (id, es)) ≡ some (unlinked fs parent es id, ok tt)
unfolding drop_entry
drop_entry_in fs parent id es h =
    (let inside : leb max_inodes id ≡ false = ground arith in rw inside refl)

unlink_dir :
    (fs : RamFs) (parent : ℕ) (name : Name)
    → IsDir fs parent
    → unlink fs parent name ≡ drop_entry fs parent (remove_entry (fs.inodes parent).entries name)
unfolding unlink is_invalid
unlink_dir fs parent name (inside, used, dir) =
    (let b : leb max_inodes parent ≡ false = ground arith in rw (b, used, dir) refl)

parent_after :
    (fs : RamFs) (parent id : ℕ) (es : List DirEntry)
    → parent ≢ id
    → (unlinked fs parent es id).inodes parent ≡ record (fs.inodes parent) { entries = es }
parent_after fs parent id es ne =
    store_ne (without fs parent es) id parent (freed (without fs parent es id)) ne
    ∙ store_self fs.inodes parent (record (fs.inodes parent) { entries = es })

lookup-unlinked :
    (fs : RamFs) (parent id : ℕ) (es : List DirEntry) (n : Name)
    → IsDir fs parent
    → parent ≢ id
    → lookup (unlinked fs parent es id) parent n ≡ find_entry es n
lookup-unlinked fs parent id es n dir ne =
    (let fs' : RamFs = unlinked fs parent es id in
      let node : Inode = record (fs.inodes parent) { entries = es } in
      let at : fs'.inodes parent ≡ node = parent_after fs parent id es ne in
      let dir' : IsDir fs' parent = (
        dir.0,
        ap (λ (d : Inode). d.in_use) at ∙ dir.1,
        ap (λ (d : Inode). is_directory d.ftype) at ∙ dir.2,
      ) in
      lookup_dir fs' parent n dir' ∙ ap (λ (d : Inode). find_entry d.entries n) at)

-- What `unlink` does where the name is found.
abbrev pub Unlinks : RamFs → ℕ → Name → Type 0
Unlinks fs parent name =
    (id : ℕ) × (fs' : RamFs) × (lookup fs parent name ≡ ok id)
    × (unlink fs parent name ≡ some (fs', ok tt))
    × (fs'.inodes id ≡ freed (fs.inodes id))
    × ((es : List DirEntry) × Cuts (fs.inodes parent).entries name id es
        × (fs'.inodes parent ≡ record (fs.inodes parent) { entries = es })
        × (lookup fs' parent name ≡ find_entry es name))
    × ((j : ℕ) → j ≢ id → j ≢ parent → fs'.inodes j ≡ fs.inodes j)
    × ((n : Name) → n ≢ name → lookup fs' parent n ≡ lookup fs parent n)

unlinked-Unlinks :
    (fs : RamFs) (parent : ℕ) (name : Name) (id : ℕ) (es : List DirEntry)
    → IsDir fs parent
    → id < max_inodes
    → parent ≢ id
    → remove_entry (fs.inodes parent).entries name ≡ some (id, es)
    → find_entry (fs.inodes parent).entries name ≡ ok id
    → Cuts (fs.inodes parent).entries name id es
    → ((n : Name) → n ≢ name → find_entry es n ≡ find_entry (fs.inodes parent).entries n)
    → Unlinks fs parent name
unlinked-Unlinks fs parent name id es dir inside ne e f cuts others = (
  id,
  unlinked fs parent es id,
  lookup_dir fs parent name dir ∙ f,
  unlink_dir fs parent name dir
      ∙ ap (drop_entry fs parent) e
      ∙ drop_entry_in fs parent id es inside,
  store_self (without fs parent es) id (freed (without fs parent es id))
      ∙ ap freed (
          store_ne fs.inodes parent id (record (fs.inodes parent) { entries = es })
            (λ h. ne (sym h))),
  (es, cuts, parent_after fs parent id es ne, lookup-unlinked fs parent id es name dir ne),
  λ j other other'.
      store_ne (without fs parent es) id j (freed (without fs parent es id)) other
      ∙ store_ne fs.inodes parent j (record (fs.inodes parent) { entries = es }) other',
  λ n differ.
      lookup-unlinked fs parent id es n dir ne ∙ others n differ ∙ sym (lookup_dir fs parent n dir),
)

-- In a directory none of whose names leads out of the table or back to it, `unlink` reports a name
-- that `lookup` does not find, the file system unchanged. Where `lookup` finds the name, its first
-- entry leaves the directory and the other entries stay in their order, so that a lookup of the name
-- then finds the next entry of that name, and answers `NotFound` where there is none. The inode that
-- the name led to is no longer in use and empty, no inode but this one and the directory changes, and
-- a lookup of any other name answers as before.
pub unlink-cases :
    (fs : RamFs) (parent : ℕ) (name : Name)
    → IsDir fs parent
    → ((n : Name) (i : ℕ) → lookup fs parent n ≡ ok i → (i < max_inodes) × (i ≢ parent))
    → ((lookup fs parent name ≡ err not_found) × (unlink fs parent name ≡ some (fs, err not_found)))
      ⊎ Unlinks fs parent name
unfolding drop_entry
unlink-cases fs parent name dir leads =
    elim (remove_entry-Removes (fs.inodes parent).entries name) [
      | inl (e, f) ↦ inl (
        lookup_dir fs parent name dir ∙ f,
        unlink_dir fs parent name dir ∙ ap (drop_entry fs parent) e,
      )
      | inr (id, es, e, f, cuts, others) ↦
          (let at : (id < max_inodes) × (id ≢ parent) =
              leads name id (lookup_dir fs parent name dir ∙ f) in
            inr
              (unlinked-Unlinks fs parent name id es dir at.0 (λ h. at.1 (sym h)) e f cuts others))
    ]
