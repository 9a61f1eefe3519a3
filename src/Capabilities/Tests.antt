-- ===== src/Capabilities/Tests.antt =====
-- Capability spaces at concrete contents.
use star_os_kernel.Prelude.{◌≡◌, ◌↔◌, ◌⊎◌, refl, true, false, none, some, ok, err}
use star_os_kernel.Error.{security, not_found, permission_denied}
use star_os_kernel.Capabilities.{
  Capability, CapabilitySpace, right_all, right_send, right_receive, right_grant, contains, new,
  free_slot, insert, get, grant, count, count_caps, check_send_permission, check_receive_permission,
  intersect, delegate,
}
use star_os_kernel.Capabilities.Grant.{Within, Derives, grant-cases, Derives-Within}
use star_os_kernel.Capabilities.Check.{Holds, check_permission_iff}

abbrev full_rights : Capability
full_rights = record { object_id = 100; rights = right_all; owner = 1; generation = 0 }

abbrev space : CapabilitySpace
space = (insert (new 1) full_rights).0

inserted :
    ((insert (new 1) full_rights).1 ≡ ok 0) × (count space ≡ 1) × (get space 0 ≡ some full_rights)
unfolding insert new count count_caps get free_slot
inserted = (refl, refl, refl)

grant-cases_example :
    ((get space 0 ≡ none) × (grant space 0 2 right_send ≡ err not_found))
    ⊎ ((c : Capability) × (get space 0 ≡ some c)
        × (contains c.rights right_grant ≡ false)
        × (grant space 0 2 right_send ≡ err (security permission_denied)))
    ⊎ ((c : Capability) × (d : Capability) × (get space 0 ≡ some c)
        × (contains c.rights right_grant ≡ true)
        × (grant space 0 2 right_send ≡ ok d)
        × (d.object_id ≡ c.object_id)
        × (d.generation ≡ c.generation)
        × (d.owner ≡ 2)
        × Within d.rights c.rights
        × Within d.rights right_send)
grant-cases_example = grant-cases space 0 2 right_send

abbrev handed_on : Capability
handed_on = record full_rights { rights = right_send; owner = 2 }

granted_once : grant space 0 2 right_send ≡ ok handed_on
unfolding grant delegate contains intersect get insert new free_slot
granted_once = refl

first_slot : get space 0 ≡ some full_rights
unfolding get insert new free_slot
first_slot = refl

Derives-Within_example :
    (handed_on.object_id ≡ 100) × (handed_on.generation ≡ 0) × Within right_send right_all
Derives-Within_example =
    Derives-Within full_rights
      (Derives.granted_on space 0 2 right_send Derives.itself first_slot granted_once)

check_permission_iff_example :
    ((check_send_permission space 100 ≡ ok tt) ↔ Holds space 100 right_send)
    × ((check_receive_permission space 100 ≡ ok tt) ↔ Holds space 100 right_receive)
check_permission_iff_example = check_permission_iff space 100
