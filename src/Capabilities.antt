-- ===== src/Capabilities.antt =====
-- kernel/src/capabilities.rs: rights, capabilities, and the 64 slots of a task.
pub mod Insert
pub mod Grant
pub mod Check
mod Tests
use star_os_kernel.Prelude.{
  ℕ, zero, suc, ◌+◌, Bool, true, false, ◌&&◌, ◌||◌, Option, none, some, List, [], ◌∷◌, Result, ok,
  err, bit_and, bit_or, get_elem?, set, replicate, ◌==◌, if◌then◌else◌,
}
use star_os_kernel.Error.{
  KernelError, security, access_denied, permission_denied, resource_exhausted, not_found,
}
use star_os_kernel.Process.Ids.{TaskId}

-- `Rights(u32)`, a set of bits.
abbrev pub Rights : Type 0
Rights = ℕ

abbrev pub right_none : Rights
right_none = 0

abbrev pub right_send : Rights
right_send = 1

abbrev pub right_receive : Rights
right_receive = 2

abbrev pub right_grant : Rights
right_grant = 4

abbrev pub right_map : Rights
right_map = 8

abbrev pub right_signal : Rights
right_signal = 16

abbrev pub right_create_child : Rights
right_create_child = 32

abbrev pub right_destroy : Rights
right_destroy = 64

abbrev pub right_all : Rights
right_all = 0x7F

unfoldable pub contains : Rights → Rights → Bool
contains r other = bit_and r other == other

unfoldable pub union : Rights → Rights → Rights
union r other = bit_or r other

unfoldable pub intersect : Rights → Rights → Rights
intersect r other = bit_and r other

unfoldable pub restrict : Rights → Rights → Rights
restrict r mask = bit_and r mask

pub record Capability : Type 0 where
  pub object_id : ℕ
  pub rights : Rights
  pub owner : TaskId
  pub generation : ℕ

abbrev pub max_caps_per_task : ℕ
max_caps_per_task = 64

pub record CapabilitySpace : Type 0 where
  pub caps : List (Option Capability)
  pub owner : TaskId

unfoldable pub new : TaskId → CapabilitySpace
new owner = record { caps = replicate max_caps_per_task none; owner = owner }

-- The loop of `insert`: the first empty slot from index `i` on.
unfoldable pub free_slot : List (Option Capability) → ℕ → Option ℕ
free_slot [] i = none
free_slot (none ∷ slots) i = some i
free_slot (some c ∷ slots) i = free_slot slots (i + 1)

-- What `insert` does with the slot that it found.
unfoldable pub fill :
    CapabilitySpace → Capability → Option ℕ → CapabilitySpace × Result ℕ KernelError
fill s cap none = (s, err resource_exhausted)
fill s cap (some i) = (record s { caps = set s.caps i (some cap) }, ok i)

unfoldable pub insert : CapabilitySpace → Capability → CapabilitySpace × Result ℕ KernelError
unfolding fill
insert s cap =
    if cap.owner == s.owner
    then fill s cap (free_slot s.caps 0)
    else (s, err (security access_denied))

abbrev pub flatten_slot : Option (Option Capability) → Option Capability
flatten_slot none = none
flatten_slot (some slot) = slot

unfoldable pub get : CapabilitySpace → ℕ → Option Capability
get s slot = flatten_slot (get_elem? s.caps slot)

-- `take` leaves the slot empty; a slot out of range is no slot.
unfoldable pub remove : CapabilitySpace → ℕ → CapabilitySpace × Option Capability
remove s slot = (record s { caps = set s.caps slot none }, flatten_slot (get_elem? s.caps slot))

abbrev pub grants : ℕ → Rights → Option Capability → Bool
grants object_id required none = false
grants object_id required (some cap) = cap.object_id == object_id && contains cap.rights required

unfoldable pub any_grants : ℕ → Rights → List (Option Capability) → Bool
any_grants object_id required [] = false
any_grants object_id required (slot ∷ slots) =
    grants object_id required slot || any_grants object_id required slots

unfoldable pub has_rights : CapabilitySpace → ℕ → Rights → Bool
unfolding any_grants
has_rights s object_id required = any_grants object_id required s.caps

-- What `grant` does with the capability in the slot.
unfoldable pub delegate : Option Capability → TaskId → Rights → Result Capability KernelError
delegate none target_owner restricted_rights = err not_found
delegate (some cap) target_owner restricted_rights =
    if contains cap.rights right_grant
    then ok (record {
      object_id = cap.object_id;
      rights = intersect cap.rights restricted_rights;
      owner = target_owner;
      generation = cap.generation;
    })
    else err (security permission_denied)

unfoldable pub grant : CapabilitySpace → ℕ → TaskId → Rights → Result Capability KernelError
grant s slot target_owner restricted_rights = delegate (get s slot) target_owner restricted_rights

unfoldable pub count_caps : List (Option Capability) → ℕ
count_caps [] = 0
count_caps (none ∷ slots) = count_caps slots
count_caps (some c ∷ slots) = suc (count_caps slots)

unfoldable pub count : CapabilitySpace → ℕ
count s = count_caps s.caps

unfoldable pub check_send_permission : CapabilitySpace → ℕ → Result (Unit {0}) KernelError
check_send_permission s channel_id =
    if has_rights s channel_id right_send then ok tt else err (security permission_denied)

unfoldable pub check_receive_permission : CapabilitySpace → ℕ → Result (Unit {0}) KernelError
check_receive_permission s channel_id =
    if has_rights s channel_id right_receive then ok tt else err (security permission_denied)
