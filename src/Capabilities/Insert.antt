-- ===== src/Capabilities/Insert.antt =====
-- Where `insert` puts a capability, and what the slots hold afterwards.
use star_os_kernel.Prelude.{
  ℕ, zero, suc, ◌+◌, ◌<◌, ◌≡◌, ◌≢◌, ◌⊎◌, inl, inr, refl, sym, ap, ◌∙◌, Option, none, some, List, [],
  ◌∷◌, ok, err, length, length-set, get_elem?, set, get_elem?-set_self, get_elem?-set_ne,
  get_elem?-set_cases, replicate, arith,
}
use native.Mathlib.Decide.{ℕ_discrete}
use star_os_kernel.Process.Ids.{TaskId}
use star_os_kernel.Error.{security, access_denied, resource_exhausted}
use star_os_kernel.Capabilities.{
  Capability, CapabilitySpace, new, free_slot, fill, insert, get, remove, flatten_slot, count,
  count_caps,
}

none_before :
    (c : Capability) (slots : List (Option Capability)) (bound : ℕ)
    → ((j : ℕ) → j < bound → get_elem? slots j ≢ some none)
    → (j : ℕ) → j < suc bound
    → get_elem? (some c ∷ slots) j ≢ some none
none_before c slots bound first zero hj e = cc
none_before c slots bound first (suc j) hj e = first j (omega arith) e

none_at_all :
    (c : Capability) (slots : List (Option Capability))
    → ((k : ℕ) → get_elem? slots k ≢ some none)
    → (k : ℕ) → get_elem? (some c ∷ slots) k ≢ some none
none_at_all c slots full zero e = cc
none_at_all c slots full (suc k) e = full k e

-- The slot that the search finds is the first empty one.
free_slot-cases :
    (slots : List (Option Capability)) (i : ℕ)
    → ((free_slot slots i ≡ none) × ((k : ℕ) → get_elem? slots k ≢ some none))
      ⊎ ((k : ℕ) × (free_slot slots i ≡ some (i + k))
          × (k < length slots)
          × (get_elem? slots k ≡ some none)
          × ((j : ℕ) → j < k → get_elem? slots j ≢ some none))
unfolding free_slot
free_slot-cases [] i = inl (refl, λ k e. cc)
free_slot-cases (none ∷ slots) i =
    inr (0, ap some (omega arith), omega arith, refl, λ j hj. absurd (omega arith))
free_slot-cases (some c ∷ slots) i = elim (free_slot-cases slots (i + 1)) [
  | inl (e, full) ↦ inl (e, none_at_all c slots full)
  | inr (k, e, hk, empty, first) ↦
      inr (suc k, e ∙ ap some (omega arith), omega arith, empty, none_before c slots k first)
]

count_caps-set :
    (slots : List (Option Capability)) (k : ℕ) (c : Capability)
    → get_elem? slots k ≡ some none
    → count_caps (set slots k (some c)) ≡ suc (count_caps slots)
unfolding count_caps
count_caps-set [] k c e = cc
count_caps-set (none ∷ slots) zero c e = refl
count_caps-set (some d ∷ slots) zero c e = cc
count_caps-set (none ∷ slots) (suc k) c e = count_caps-set slots k c e
count_caps-set (some d ∷ slots) (suc k) c e = ap suc (count_caps-set slots k c e)

abbrev filled : CapabilitySpace → Capability → ℕ → CapabilitySpace
filled s cap k = record s { caps = set s.caps k (some cap) }

insert_foreign :
    (s : CapabilitySpace) (cap : Capability)
    → cap.owner ≢ s.owner
    → insert s cap ≡ (s, err (security access_denied))
unfolding insert
insert_foreign s cap ne = ground arith

insert_own :
    (s : CapabilitySpace) (cap : Capability)
    → cap.owner ≡ s.owner
    → insert s cap ≡ fill s cap (free_slot s.caps 0)
unfolding insert
insert_own s cap e = ground arith

-- `insert` in every case. The capability of another task is refused, and so is any where no slot is
-- empty; the space is then unchanged. Otherwise the capability goes to the first empty slot, whose
-- index is returned, every other slot keeps what it holds, and the count grows by one.
pub insert-cases :
    (s : CapabilitySpace) (cap : Capability)
    → ((cap.owner ≢ s.owner) × (insert s cap ≡ (s, err (security access_denied))))
      ⊎ ((cap.owner ≡ s.owner)
          × ((k : ℕ) → get_elem? s.caps k ≢ some none)
          × (insert s cap ≡ (s, err resource_exhausted)))
      ⊎ ((cap.owner ≡ s.owner)
          × ((k : ℕ) × ((insert s cap).1 ≡ ok k)
              × (get_elem? s.caps k ≡ some none)
              × ((j : ℕ) → j < k → get_elem? s.caps j ≢ some none)
              × (get (insert s cap).0 k ≡ some cap)
              × ((j : ℕ) → j ≢ k → get (insert s cap).0 j ≡ get s j)
              × (count (insert s cap).0 ≡ count s + 1)))
unfolding fill get count
insert-cases s cap = elim (ℕ_discrete cap.owner s.owner) [
  | no ne ↦ inl (ne, insert_foreign s cap ne)
  | yes e ↦ elim (free_slot-cases s.caps 0) [
    | inl (f, full) ↦ inr (inl (e, full, insert_own s cap e ∙ ap (fill s cap) f))
    | inr (k, f, hk, empty, first) ↦ rw (insert_at k e f) (
        inr (
          inr (
            e,
            (
              k,
              refl,
              empty,
              first,
              ap flatten_slot (get_elem?-set_self s.caps k (some cap) hk),
              λ j ne. ap flatten_slot (get_elem?-set_ne s.caps (some cap) (λ h. ne (sym h))),
              count_filled k empty,
            ),
          )))
  ]
]
  where
    insert_at :
        (k : ℕ)
        → cap.owner ≡ s.owner
        → free_slot s.caps 0 ≡ some (0 + k)
        → insert s cap ≡ (filled s cap k, ok k)
    insert_at k e f =
        insert_own s cap e ∙ ap (fill s cap) (f ∙ ap some (let z : 0 + k ≡ k = omega arith in z))

    count_filled : (k : ℕ) → get_elem? s.caps k ≡ some none → count (filled s cap k) ≡ count s + 1
    count_filled k empty = omega (arith, count_caps-set s.caps k cap empty)

-- A space of 64 slots in which each capability belongs to the owner of the space.
pub record IsSpace (s : CapabilitySpace) : Type 0 where
  pub sized : length s.caps ≡ 64
  pub owned : (k : ℕ) (c : Capability) → get s k ≡ some c → c.owner ≡ s.owner

set_owned :
    (s : CapabilitySpace) (k j : ℕ) (slot : Option Capability) (c : Capability)
    → IsSpace s
    → ((d : Capability) → slot ≡ some d → d.owner ≡ s.owner)
    → flatten_slot (get_elem? (set s.caps k slot) j) ≡ some c
    → c.owner ≡ s.owner
unfolding get
set_owned s k j slot c v own g = elim (get_elem?-set_cases s.caps k j slot) [
  | inl e ↦ own c (sym (ap flatten_slot e) ∙ g)
  | inr e ↦ v.owned j c (sym (ap flatten_slot e) ∙ g)
]

set-IsSpace :
    (s : CapabilitySpace) (k : ℕ) (slot : Option Capability)
    → IsSpace s
    → ((d : Capability) → slot ≡ some d → d.owner ≡ s.owner)
    → IsSpace (record s { caps = set s.caps k slot })
unfolding get
set-IsSpace s k slot v own = record {
  sized = length-set s.caps k slot ∙ v.sized;
  owned = λ j c g. set_owned s k j slot c v own g;
}

fill-IsSpace :
    (s : CapabilitySpace) (c : Capability) (o : Option ℕ)
    → IsSpace s
    → c.owner ≡ s.owner
    → IsSpace (fill s c o).0
unfolding fill
fill-IsSpace s c none v e = v
fill-IsSpace s c (some k) v e = set-IsSpace s k (some c) v (λ d h. ground arith)

-- A space keeps its 64 slots, and holds capabilities of its owner alone, through `insert` of any
-- capability and `remove` from any slot.
pub spaces-IsSpace :
    (s : CapabilitySpace) (c : Capability) (slot : ℕ)
    → IsSpace s
    → IsSpace (insert s c).0 × IsSpace (remove s slot).0
unfolding remove
spaces-IsSpace s c slot v = (
  elim (ℕ_discrete c.owner s.owner) [
    | no ne ↦ rw (insert_foreign s c ne) v
    | yes e ↦ rw (insert_own s c e) (fill-IsSpace s c (free_slot s.caps 0) v e)
  ],
  set-IsSpace s slot none v (λ d h. cc),
)

empty_slots : (n k : ℕ) → flatten_slot (get_elem? (replicate n none) k) ≡ none
empty_slots zero k = refl
empty_slots (suc n) zero = refl
empty_slots (suc n) (suc k) = empty_slots n k

pub new-IsSpace : (owner : TaskId) → IsSpace (new owner)
unfolding new get
new-IsSpace owner = record { sized = refl; owned = λ k c g. cc (empty_slots 64 k) }
