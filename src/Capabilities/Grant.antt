-- ===== src/Capabilities/Grant.antt =====
-- `grant` never amplifies rights, along any chain of grants.
use star_os_kernel.Prelude.{
  ℕ, ◌≤◌, ◌≡◌, ◌⊎◌, inl, inr, refl, sym, ap, subst, ◌∙◌, true, false, Option, none, some, ok, err,
  Bool-cases, Option-cases, arith,
}
use native.Mathlib.Nat.{le_refl, le_trans}
use star_os_kernel.Words.{bit}
use star_os_kernel.Words.Bits.{bit-bit_and}
use star_os_kernel.Error.{security, not_found, permission_denied}
use star_os_kernel.Process.Ids.{TaskId}
use star_os_kernel.Capabilities.{
  Capability, CapabilitySpace, Rights, right_grant, contains, intersect, get, delegate, grant,
}

-- Every right of `r` is one of `q`.
abbrev pub Within : Rights → Rights → Type 0
Within r q = (j : ℕ) → bit r j ≤ bit q j

intersect-Within : (q r : Rights) → Within (intersect q r) q × Within (intersect q r) r
unfolding intersect
intersect-Within q r =
    (λ j. omega (arith, bit-bit_and j q r), λ j. omega (arith, bit-bit_and j q r))

abbrev granted : Capability → TaskId → Rights → Capability
granted c target r = record c { rights = intersect c.rights r; owner = target }

delegate_allowed :
    (c : Capability) (target : TaskId) (r : Rights)
    → contains c.rights right_grant ≡ true
    → delegate (some c) target r ≡ ok (granted c target r)
unfolding delegate
delegate_allowed c target r e = rw e

delegate_denied :
    (c : Capability) (target : TaskId) (r : Rights)
    → contains c.rights right_grant ≡ false
    → delegate (some c) target r ≡ err (security permission_denied)
unfolding delegate
delegate_denied c target r e = rw e

-- `grant` in every case: an empty or missing slot is not found, a capability without the right to
-- grant is refused, and otherwise the result names the same object in the same generation for
-- the target, with rights that are both rights of the capability and of the restriction.
pub grant-cases :
    (s : CapabilitySpace) (slot : ℕ) (target : TaskId) (r : Rights)
    → ((get s slot ≡ none) × (grant s slot target r ≡ err not_found))
      ⊎ ((c : Capability) × (get s slot ≡ some c)
          × (contains c.rights right_grant ≡ false)
          × (grant s slot target r ≡ err (security permission_denied)))
      ⊎ ((c : Capability) × (d : Capability) × (get s slot ≡ some c)
          × (contains c.rights right_grant ≡ true)
          × (grant s slot target r ≡ ok d)
          × (d.object_id ≡ c.object_id)
          × (d.generation ≡ c.generation)
          × (d.owner ≡ target)
          × Within d.rights c.rights
          × Within d.rights r)
unfolding grant delegate
grant-cases s slot target r = elim (Option-cases (get s slot)) [
  | inl e ↦ inl (e, ap (λ (o : Option Capability). delegate o target r) e)
  | inr (c, e) ↦ elim (Bool-cases (contains c.rights right_grant)) [
    | inl g ↦ inr (
        inr (
          c,
          granted c target r,
          e,
          g,
          ap (λ (o : Option Capability). delegate o target r) e ∙ delegate_allowed c target r g,
          refl,
          refl,
          refl,
          (intersect-Within c.rights r).0,
          (intersect-Within c.rights r).1,
        ))
    | inr g ↦ inr (
        inl (
          c,
          e,
          g,
          ap (λ (o : Option Capability). delegate o target r) e ∙ delegate_denied c target r g,
        ))
  ]
]

-- A capability that stems from another by grants, each out of a space that holds the one before.
pub data Derives (c : Capability) : Capability → Type 0 where
  itself : Derives c c
  granted_on :
      {d e : Capability} (s : CapabilitySpace) (slot : ℕ) (target : TaskId) (r : Rights)
      → Derives c d
      → get s slot ≡ some d
      → grant s slot target r ≡ ok e
      → Derives c e

one_grant :
    (s : CapabilitySpace) (slot : ℕ) (target : TaskId) (r : Rights) (d e : Capability)
    → get s slot ≡ some d
    → grant s slot target r ≡ ok e
    → (e.object_id ≡ d.object_id) × (e.generation ≡ d.generation) × Within e.rights d.rights
unfolding grant
one_grant s slot target r d e h g = elim (Bool-cases (contains d.rights right_grant)) [
  | inl q ↦
      (let same : granted d target r ≡ e = cc (from_slot, delegate_allowed d target r q) in
        subst
          (λ (x : Capability).
            (x.object_id ≡ d.object_id) × (x.generation ≡ d.generation) × Within x.rights d.rights)
          same (refl, refl, (intersect-Within d.rights r).0))
  | inr q ↦ cc (from_slot, delegate_denied d target r q)
]
  where
    from_slot : delegate (some d) target r ≡ ok e
    from_slot = ap (λ (o : Option Capability). delegate o target r) (sym h) ∙ g

-- However often a capability is handed on, the object and the generation stay, and no right comes
-- to it that the first capability did not carry.
pub Derives-Within :
    (c : Capability) {d : Capability}
    → Derives c d
    → (d.object_id ≡ c.object_id) × (d.generation ≡ c.generation) × Within d.rights c.rights
Derives-Within c itself = (refl, refl, λ j. le_refl _)
Derives-Within c (granted_on {d} {e} s slot target r before h g) =
    let (o, n, w) = one_grant s slot target r d e h g in
    let (o', n', w') = Derives-Within c before in (o ∙ o', n ∙ n', λ j. le_trans (w j) (w' j))
