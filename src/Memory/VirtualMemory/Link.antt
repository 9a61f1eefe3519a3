-- ===== src/Memory/VirtualMemory/Link.antt =====
-- A page that becomes a table of kernel/src/memory/virtual_mem.rs keeps the tables a tree.
use native.Mathlib.Decide.{ℕ_discrete}
use star_os_kernel.Prelude.{
  ℕ, ◌+◌, ◌*◌, ◌<◌, ◌≤◌, ◌≡◌, ◌≢◌, ◌⊎◌, inl, inr, refl, sym, subst, ap, ◌∙◌, true, false, some, ◌∷◌,
  length, arith,
}
use star_os_kernel.Words.Marks.{mark, mark-with_mark}
use star_os_kernel.Memory.Physical.{PhysAddr, PhysicalAllocator, page_size}
use star_os_kernel.Memory.Physical.Page.{taken, taken-IsValid}
use star_os_kernel.Memory.PageTable.{is_valid, is_table}
use star_os_kernel.Memory.VirtualMemory.{VirtualMemory}
use star_os_kernel.Memory.PageTable.Entry.{link_to-table}
use star_os_kernel.Memory.VirtualMemory.Paths.{Path4, reach}
use star_os_kernel.Memory.VirtualMemory.Tree.{
  IsOwned, IsTree, linked, reach-linked, not_owned, page_empty, elsewhere, at_link, invalid_zero,
}

IsOwned-later :
    (a : PhysicalAllocator) (n : ℕ) (addr : PhysAddr) → IsOwned a addr → IsOwned (taken a n) addr
IsOwned-later a n addr (m, hm, e, one) = (m, hm, e, ground (arith, mark-with_mark a.bitmap n m))

IsOwned-now :
    (a : PhysicalAllocator) (n : ℕ)
    → n < a.total_pages
    → IsOwned (taken a n) (a.base_addr + n * page_size)
IsOwned-now a n h = (n, h, refl, ground (arith, mark-with_mark a.bitmap n n))

module _ (vm : VirtualMemory) (tree : IsTree vm) (p : Path4) (t : PhysAddr) (i n : ℕ)
    (at : reach vm.frames vm.root_table p ≡ some t) (high : length p ≤ 2)
    (empty : is_valid (vm.frames t i) ≡ false) (inside : n < vm.allocator.total_pages)
    (fresh : mark vm.allocator.bitmap n ≡ 0) where
  abbrev vm' : VirtualMemory
  vm' = linked vm t i n

  abbrev new_page : PhysAddr
  new_page = vm.allocator.base_addr + n * page_size

  ways :
      (q : Path4)
      → length q ≤ 4
      → ((q ≡ i ∷ p) × (reach vm'.frames vm.root_table q ≡ some new_page))
        ⊎ (reach vm'.frames vm.root_table q ≡ reach vm.frames vm.root_table q)
  ways = reach-linked vm tree p t i n at high empty inside fresh

  was_owned : (a : PhysAddr) → IsOwned vm.allocator a → a ≢ new_page
  was_owned = not_owned vm tree p t i n at high empty inside fresh

  -- An old path does not lead to the new page.
  old_path : (q : Path4) → length q ≤ 3 → reach vm.frames vm.root_table q ≡ some new_page → ⊥
  old_path q h e = was_owned new_page (tree.owned q new_page h e) refl

  linked_unique :
      (r q : Path4) (a : PhysAddr)
      → length r ≤ 3
      → length q ≤ 3
      → reach vm'.frames vm.root_table r ≡ some a
      → reach vm'.frames vm.root_table q ≡ some a
      → r ≡ q
  linked_unique r q a hr hq er eq = elim (ways r (omega arith)) [
    | inl (e, f) ↦ elim (ways q (omega arith)) [
      | inl (e', f') ↦ e ∙ sym e'
      | inr same ↦ absurd (old_path q hq (sym same ∙ eq ∙ sym er ∙ f))
    ]
    | inr same ↦ elim (ways q (omega arith)) [
      | inl (e', f') ↦ absurd (old_path r hr (sym same ∙ er ∙ sym eq ∙ f'))
      | inr same' ↦ tree.unique r q a hr hq (sym same ∙ er) (sym same' ∙ eq)
    ]
  ]

  linked-IsOwned :
      (q : Path4) (a : PhysAddr)
      → length q ≤ 3
      → reach vm'.frames vm.root_table q ≡ some a
      → IsOwned vm'.allocator a
  linked-IsOwned q a h e = elim (ways q (omega arith)) [
    | inl (f, g) ↦ subst (IsOwned vm'.allocator) (cc) (IsOwned-now vm.allocator n inside)
    | inr same ↦ IsOwned-later vm.allocator n a (tree.owned q a h (sym same ∙ e))
  ]

  linked-tables :
      (q : Path4) (a : PhysAddr) (k : ℕ)
      → length q ≤ 2
      → reach vm'.frames vm.root_table q ≡ some a
      → is_valid (vm'.frames a k) ≡ true
      → is_table (vm'.frames a k) ≡ true
  linked-tables q a k h e v = elim (ways q (omega arith)) [
    | inl (f, g) ↦
        (let ea : a ≡ new_page = cc in
          let z : is_valid (vm'.frames a k) ≡ false =
            ap (λ (x : PhysAddr). is_valid (vm'.frames x k)) ea
            ∙ ap is_valid (page_empty vm tree p t i n at high empty inside fresh k)
            ∙ invalid_zero in
          cc)
    | inr same ↦
        (let old : reach vm.frames vm.root_table q ≡ some a = sym same ∙ e in
          let away : ¬ ((a ≡ t) × (k ≡ i)) → vm'.frames a k ≡ vm.frames a k =
            elsewhere vm tree p t i n at high empty inside fresh a k
              (was_owned a (tree.owned q a (omega arith) old)) in
          elim (ℕ_discrete a t) [
            | yes ea ↦ elim (ℕ_discrete k i) [
              | yes ek ↦
                  ap (λ (x : PhysAddr). is_table (vm'.frames x k)) ea
                  ∙ ap (λ (x : ℕ). is_table (vm'.frames t x)) ek
                  ∙ ap is_table (at_link vm tree p t i n at high empty inside fresh)
                  ∙ link_to-table new_page
              | no nk ↦
                  (let same_entry = away (λ h'. nk h'.1) in
                    ap is_table same_entry
                    ∙ tree.tables q a k h old (sym (ap is_valid same_entry) ∙ v))
            ]
            | no na ↦
                (let same_entry = away (λ h'. na h'.0) in
                  ap is_table same_entry
                  ∙ tree.tables q a k h old (sym (ap is_valid same_entry) ∙ v))
          ])
  ]

  pub linked-IsTree : IsTree vm'
  linked-IsTree = record {
    sound = taken-IsValid vm.allocator n tree.sound inside fresh;
    aligned = tree.aligned;
    low = tree.low;
    unique = linked_unique;
    owned = linked-IsOwned;
    tables = linked-tables;
  }
