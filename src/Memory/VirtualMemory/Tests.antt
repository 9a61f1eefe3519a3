-- ===== src/Memory/VirtualMemory/Tests.antt =====
-- The page tables of kernel/src/memory/virtual_mem.rs at concrete states.
use star_os_kernel.Prelude.{
  ℕ, ◌≡◌, inl, inr, refl, sym, ◌∙◌, true, false, none, some, [], ◌∷◌, Option-cases, ok, arith,
}
use star_os_kernel.Words.{bit, set_bit}
use star_os_kernel.Memory.Physical.{PhysAddr, new}
use star_os_kernel.Memory.Physical.Invariant.{new-IsValid}
use star_os_kernel.Memory.Physical.Page.{taken, taken-IsValid}
use star_os_kernel.Memory.PageTable.{flag_read_only, contains, validate_wx}
use star_os_kernel.Memory.VirtualMemory.{VirtualMemory, map, unmap, protect}
use star_os_kernel.Memory.VirtualMemory.Paths.{Path4, reach, reach_next, reach_stop}
use star_os_kernel.Memory.VirtualMemory.Tree.{IsTree, target-invalid, invalid_zero}
use star_os_kernel.Memory.VirtualMemory.Map.{Outcome, map-Outcome}
use star_os_kernel.Memory.VirtualMemory.WriteExecute.{calls-AreWx}
use star_os_kernel.Memory.VirtualMemory.WriteTables.{AreWx}
use star_os_kernel.Memory.VirtualMemory.Unmap.{
  Unmapped, Protected, unmap-Unmapped, protect-Protected,
}

-- 100 pages from 2 MB on; the first is the root table, which is empty.
abbrev empty : VirtualMemory
empty = record { root_table = 2097152; allocator = taken (new 2097152 100) 0; frames = λ a i. 0 }

stops : (i : ℕ) (p : Path4) → reach empty.frames 2097152 (i ∷ p) ≡ none
stops i p = elim (Option-cases (reach empty.frames 2097152 p)) [
  | inl e ↦ reach_stop empty.frames 2097152 i p e
  | inr (t, e) ↦ reach_next empty.frames 2097152 t i p e ∙ target-invalid 0 invalid_zero
]

root_alone :
    (p : Path4) (a : PhysAddr) → reach empty.frames 2097152 p ≡ some a → (p ≡ []) × (a ≡ 2097152)
unfolding reach
root_alone [] a e = (refl, cc)
root_alone (i ∷ p) a e = (let f = stops i p in cc)

empty-IsTree : IsTree empty
unfolding new bit set_bit
empty-IsTree = record {
  sound =
      taken-IsValid (new 2097152 100) 0 (new-IsValid 2097152 100 (omega arith) (omega arith))
        (omega arith) refl;
  aligned = refl;
  low = omega arith;
  unique = λ p q a hp hq e f. (root_alone p a e).0 ∙ sym (root_alone q a f).0;
  owned = λ p a h e. (0, omega arith, (root_alone p a e).1, refl);
  tables = λ p a i h e v. (let f : false ≡ true = sym invalid_zero ∙ v in cc);
}

allowed : validate_wx flag_read_only ≡ ok tt
unfolding validate_wx contains
allowed = refl

map-Outcome_example :
    Outcome empty 0x40201000 0x300000 flag_read_only (map empty 0x40201000 0x300000 flag_read_only)
map-Outcome_example =
    map-Outcome empty 0x40201000 0x300000 flag_read_only empty-IsTree (omega arith) refl
      (omega arith) refl (omega arith, refl) allowed

-- The page at 0x40201000 is mapped.
abbrev one_page : VirtualMemory
one_page = (map empty 0x40201000 0x300000 flag_read_only).0

one_page-IsTree : IsTree one_page
one_page-IsTree =
    (map-Outcome empty 0x40201000 0x300000 flag_read_only empty-IsTree (omega arith) refl
      (omega arith) refl (omega arith, refl) allowed).0

unmap-Unmapped_example : Unmapped one_page 0x40201000 (unmap one_page 0x40201000)
unmap-Unmapped_example = unmap-Unmapped one_page 0x40201000 one_page-IsTree (omega arith) refl

protect-Protected_example :
    Protected one_page 0x40201000 flag_read_only (protect one_page 0x40201000 flag_read_only)
protect-Protected_example =
    protect-Protected one_page 0x40201000 flag_read_only one_page-IsTree (omega arith) refl
      (omega arith, refl) allowed

empty-AreWx : AreWx empty
empty-AreWx q a k h e v = (let z : false ≡ true = sym invalid_zero ∙ v in cc)

calls-AreWx_example :
    AreWx (map empty 0x40201000 0x300000 flag_read_only).0
    × AreWx (unmap empty 0x40201000).0
    × AreWx (protect empty 0x40201000 flag_read_only).0
calls-AreWx_example = calls-AreWx empty 0x40201000 0x300000 flag_read_only empty-IsTree empty-AreWx
