-- ===== src/Capabilities/Check.antt =====
-- `has_rights` and the permission checks against the slots.
use star_os_kernel.Prelude.{
  ℕ, zero, suc, ◌^◌, ◌<◌, ◌≤◌, ◌≡◌, ◌↔◌, inl, inr, refl, true, Option, none, some, List, [], ◌∷◌,
  ok, get_elem?, Bool-cases, ==_iff, arith,
}
use star_os_kernel.Words.{bit}
use star_os_kernel.Words.Bits.{bit_and_eq_iff}
use star_os_kernel.Capabilities.{
  Capability, CapabilitySpace, Rights, right_send, right_receive, contains, flatten_slot, get,
  grants, any_grants, has_rights, check_send_permission, check_receive_permission,
}

-- Some slot holds a capability for the object with all the required rights.
abbrev pub Holds : CapabilitySpace → ℕ → Rights → Type 0
Holds s object required =
    (k : ℕ) × (c : Capability) × (get s k ≡ some c)
    × (c.object_id ≡ object)
    × (contains c.rights required ≡ true)

any_grants_sound :
    (object : ℕ) (required : Rights) (slots : List (Option Capability))
    → any_grants object required slots ≡ true
    → (k : ℕ) × (c : Capability) × (flatten_slot (get_elem? slots k) ≡ some c)
      × (c.object_id ≡ object)
      × (contains c.rights required ≡ true)
unfolding any_grants
any_grants_sound object required [] e = absurd (ground arith)
any_grants_sound object required (none ∷ slots) e =
    let (k, c, g, o, r) = any_grants_sound object required slots e in (suc k, c, g, o, r)
any_grants_sound object required (some c ∷ slots) e =
    elim (Bool-cases (grants object required (some c))) [
      | inl h ↦ (0, c, refl, ground arith, ground arith)
      | inr h ↦
          (let (k, d, g, o, r) = any_grants_sound object required slots (ground arith) in
            (suc k, d, g, o, r))
    ]

any_grants_complete :
    (object : ℕ) (required : Rights) (slots : List (Option Capability)) (k : ℕ) (c : Capability)
    → flatten_slot (get_elem? slots k) ≡ some c
    → c.object_id ≡ object
    → contains c.rights required ≡ true
    → any_grants object required slots ≡ true
unfolding any_grants
any_grants_complete object required [] k c g o r = cc
any_grants_complete object required (none ∷ slots) zero c g o r = cc
any_grants_complete object required (some d ∷ slots) zero c g o r = ground arith
any_grants_complete object required (slot ∷ slots) (suc k) c g o r =
    ground (arith, any_grants_complete object required slots k c g o r)

-- The permission checks pass exactly where some slot holds a capability for the channel that
-- carries the right to send, or to receive; otherwise the caller is told that it lacks permission.
pub check_permission_iff :
    (s : CapabilitySpace) (channel : ℕ)
    → ((check_send_permission s channel ≡ ok tt) ↔ Holds s channel right_send)
      × ((check_receive_permission s channel ≡ ok tt) ↔ Holds s channel right_receive)
unfolding check_send_permission check_receive_permission has_rights get
check_permission_iff s channel = (
  (
    λ e. any_grants_sound channel right_send s.caps (ground arith),
    λ (k, c, g, o, r). ground (arith, any_grants_complete channel right_send s.caps k c g o r),
  ),
  (
    λ e. any_grants_sound channel right_receive s.caps (ground arith),
    λ (k, c, g, o, r). ground (arith, any_grants_complete channel right_receive s.caps k c g o r),
  ),
)

-- For rights of 32 bits, `contains` says that every right asked for is held.
pub contains_iff :
    (held asked : Rights)
    → held < 2 ^ 32
    → asked < 2 ^ 32
    → (contains held asked ≡ true) ↔ ((j : ℕ) → j < 32 → bit asked j ≤ bit held j)
unfolding contains
contains_iff held asked hh ha = (
  λ e. (bit_and_eq_iff 32 held asked hh ha).0 ((==_iff _ _).0 e),
  λ sub. (==_iff _ _).1 ((bit_and_eq_iff 32 held asked hh ha).1 sub),
)
