-- ===== src/Memory/VirtualMemory/Leaf.antt =====
-- A write of an entry of a last-level table of kernel/src/memory/virtual_mem.rs.
use native.Mathlib.Decide.{ℕ_discrete}
use star_os_kernel.Prelude.{
  ℕ, ◌≤◌, ◌≡◌, ◌≢◌, inl, inr, sym, ap, ◌∙◌, some, ◌∷◌, length, Array, store, store_self, store_ne,
  arith,
}
use star_os_kernel.Memory.Physical.{PhysAddr}
use star_os_kernel.Memory.PageTable.{PageTable, PageTableEntry, is_valid, is_table}
use star_os_kernel.Memory.VirtualMemory.{VirtualMemory, set_entry}
use star_os_kernel.Memory.VirtualMemory.Paths.{
  Path4, target, reach, reach_next, Through, Through-longer, AgreeBut, OnlyPath, reach-unchanged,
}
use star_os_kernel.Memory.VirtualMemory.Tree.{IsTree}

module _ (vm : VirtualMemory) (tree : IsTree vm) (p : Path4) (t : PhysAddr) (i : ℕ)
    (e : PageTableEntry) (at : reach vm.frames vm.root_table p ≡ some t) (last : length p ≡ 3) where
  abbrev new_frames : Array PageTable
  new_frames = store vm.frames t (store (vm.frames t) i e)

  pub at_entry : new_frames t i ≡ e
  at_entry =
      ap (λ (x : PageTable). x i) (store_self vm.frames t (store (vm.frames t) i e))
      ∙ store_self (vm.frames t) i e

  pub elsewhere : (a : PhysAddr) (j : ℕ) → ¬ ((a ≡ t) × (j ≡ i)) → new_frames a j ≡ vm.frames a j
  elsewhere a j away = elim (ℕ_discrete a t) [
    | yes f ↦
        ap (λ (x : PhysAddr). new_frames x j) f
        ∙ ap (λ (x : PageTable). x j) (store_self vm.frames t (store (vm.frames t) i e))
        ∙ store_ne (vm.frames t) i j e (λ g. away (f, g))
        ∙ ap (λ (x : PhysAddr). vm.frames x j) (sym f)
    | no ne ↦ ap (λ (x : PageTable). x j) (store_ne vm.frames t a (store (vm.frames t) i e) ne)
  ]

  same_but : AgreeBut vm.frames new_frames vm.root_table t i p 4
  same_but q a j h f away = elsewhere a j away

  only : OnlyPath vm.frames new_frames vm.root_table t i p 4
  only q h f = tree.unique q p t (omega arith) (omega arith) f at

  not_shorter : (q : Path4) → length q ≤ 3 → ¬ Through (i ∷ p) q
  not_shorter q h u = elim (Through-longer (i ∷ p) q u) [
    | inl f ↦ absurd (omega (arith, ap length f))
    | inr lt ↦ absurd (omega arith)
  ]

  not_other : (q : Path4) → length q ≡ 4 → q ≢ i ∷ p → ¬ Through (i ∷ p) q
  not_other q h ne u = elim (Through-longer (i ∷ p) q u) [ inl f ↦ ne f | inr lt ↦ omega arith ]

  pub above :
      (q : Path4)
      → length q ≤ 3
      → reach new_frames vm.root_table q ≡ reach vm.frames vm.root_table q
  above q h =
      reach-unchanged vm.frames new_frames vm.root_table t i p 4 q same_but only (omega arith)
        (not_shorter q h)

  -- The path of the entry leads where the entry says, and no other path changes.
  pub reach-written :
      (reach (set_entry vm t i e).frames vm.root_table (i ∷ p) ≡ target e)
      × ((q : Path4)
          → length q ≡ 4
          → q ≢ i ∷ p
          → reach (set_entry vm t i e).frames vm.root_table q ≡ reach vm.frames vm.root_table q)
  unfolding set_entry
  reach-written = (
    reach_next new_frames vm.root_table t i p (above p (omega arith) ∙ at) ∙ ap target at_entry,
    λ q h ne.
        reach-unchanged vm.frames new_frames vm.root_table t i p 4 q same_but only (omega arith)
          (not_other q h ne),
  )

  higher :
      (q : Path4) (a : PhysAddr) (k : ℕ)
      → length q ≤ 2
      → reach vm.frames vm.root_table q ≡ some a
      → new_frames a k ≡ vm.frames a k
  higher q a k h f = elsewhere a k (λ u. absurd (
      omega
        (arith, ap length (tree.unique q p t (omega arith) (omega arith) (f ∙ ap some u.0) at))))

  pub written-IsTree : IsTree (set_entry vm t i e)
  unfolding set_entry
  written-IsTree = record {
    sound = tree.sound;
    aligned = tree.aligned;
    low = tree.low;
    unique =
        λ r q a hr hq f g. tree.unique r q a hr hq (sym (above r hr) ∙ f) (sym (above q hq) ∙ g);
    owned = λ q a h f. tree.owned q a h (sym (above q h) ∙ f);
    tables = λ q a k h f v.
        (let old : reach vm.frames vm.root_table q ≡ some a = sym (above q (omega arith)) ∙ f in
          ap is_table (higher q a k h old)
          ∙ tree.tables q a k h old (sym (ap is_valid (higher q a k h old)) ∙ v));
  }
