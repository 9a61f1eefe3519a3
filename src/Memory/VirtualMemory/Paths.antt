-- ===== src/Memory/VirtualMemory/Paths.antt =====
-- Paths through the page tables of kernel/src/memory/virtual_mem.rs: the indices from the root on,
-- the last one first, and the address to which the valid entries on the path lead.
use native.Mathlib.Decide.{ℕ_discrete}
use star_os_kernel.Prelude.{
  ℕ, ◌<◌, ◌≤◌, ◌≡◌, ◌⊎◌, inl, inr, refl, sym, ap, ap₂, ◌∙◌, Option, Option-cases, none, some, List,
  [], ◌∷◌, length, Array, if◌then◌else◌, arith,
}
use star_os_kernel.Memory.Physical.{PhysAddr}
use star_os_kernel.Memory.PageTable.{PageTable, PageTableEntry, is_valid, phys_addr}

abbrev pub Path4 : Type 0
Path4 = List ℕ

-- The address in an entry of a table, where the entry is valid.
unfoldable pub target : PageTableEntry → Option PhysAddr
target e = if is_valid e then some (phys_addr e) else none

unfoldable pub down : Array PageTable → ℕ → Option PhysAddr → Option PhysAddr
down frames i none = none
down frames i (some table) = target (frames table i)

unfoldable pub reach : Array PageTable → PhysAddr → Path4 → Option PhysAddr
reach frames root [] = some root
reach frames root (i ∷ p) = down frames i (reach frames root p)

pub reach_next :
    (frames : Array PageTable) (root t : PhysAddr) (i : ℕ) (p : Path4)
    → reach frames root p ≡ some t
    → reach frames root (i ∷ p) ≡ target (frames t i)
unfolding reach down
reach_next frames root t i p e = rw e refl

pub reach_stop :
    (frames : Array PageTable) (root : PhysAddr) (i : ℕ) (p : Path4)
    → reach frames root p ≡ none
    → reach frames root (i ∷ p) ≡ none
unfolding reach down
reach_stop frames root i p e = rw e refl

-- The path goes through `x`.
abbrev pub Through : Path4 → Path4 → Type 0
Through x [] = ⊥
Through x (j ∷ q) = (j ∷ q ≡ x) ⊎ Through x q

same_path : (p q : Path4) → Dec (p ≡ q)
same_path [] [] = yes refl
same_path [] (j ∷ q) = no (λ e. cc)
same_path (i ∷ p) [] = no (λ e. cc)
same_path (i ∷ p) (j ∷ q) = elim (ℕ_discrete i j) [
  | no ne ↦ no (λ e. ne (cc))
  | yes h ↦ elim (same_path p q) [ yes k ↦ yes (ap₂ ◌∷◌ h k) | no ne ↦ no (λ e. ne (cc)) ]
]

pub through_dec : (x q : Path4) → Dec (Through x q)
through_dec x [] = no (λ h. h)
through_dec x (j ∷ q) = elim (same_path (j ∷ q) x) [
  | yes e ↦ yes (inl e)
  | no ne ↦ elim (through_dec x q) [
    | yes h ↦ yes (inr h)
    | no nh ↦ no (λ s. elim s [ inl e ↦ ne e | inr h ↦ nh h ])
  ]
]

-- A path through another is at least as long, and as long only where it is the same.
pub Through-longer : (x q : Path4) → Through x q → (q ≡ x) ⊎ (length x < length q)
Through-longer x [] h = absurd h
Through-longer x (j ∷ q) (inl e) = inl e
Through-longer x (j ∷ q) (inr h) =
    inr (elim (Through-longer x q h) [ inl e ↦ omega (arith, ap length e) | inr lt ↦ omega arith ])

module _ (frames frames' : Array PageTable) (root t : PhysAddr) (i : ℕ) (p : Path4) where
  -- Up to a length, the two memories have the same entries in the tables that a path reaches, except
  -- for entry `i` of table `t`.
  abbrev pub AgreeBut : ℕ → Type 0
  AgreeBut n =
      (q : Path4) (a : PhysAddr) (j : ℕ)
      → length q < n
      → reach frames root q ≡ some a
      → ¬ ((a ≡ t) × (j ≡ i))
      → frames' a j ≡ frames a j

  -- Only the path `p` leads to table `t`.
  abbrev pub OnlyPath : ℕ → Type 0
  OnlyPath n = (q : Path4) → length q < n → reach frames root q ≡ some t → q ≡ p

  pub reach-unchanged :
      (n : ℕ) (q : Path4)
      → AgreeBut n
      → OnlyPath n
      → length q ≤ n
      → ¬ Through (i ∷ p) q
      → reach frames' root q ≡ reach frames root q
  unfolding reach
  reach-unchanged n [] agree only h away = refl
  reach-unchanged n (j ∷ q) agree only h away =
      (let ih : reach frames' root q ≡ reach frames root q =
          reach-unchanged n q agree only (omega arith) (λ u. away (inr u)) in
        elim (Option-cases (reach frames root q)) [
          | inl e ↦ reach_stop frames' root j q (ih ∙ e) ∙ sym (reach_stop frames root j q e)
          | inr (a, e) ↦
              reach_next frames' root a j q (ih ∙ e)
              ∙ ap target (
                  agree q a j (omega arith) e
                    (λ h'. away (inl (ap₂ ◌∷◌ h'.1 (only q (omega arith) (e ∙ ap some h'.0))))))
              ∙ sym (reach_next frames root a j q e)
        ])
