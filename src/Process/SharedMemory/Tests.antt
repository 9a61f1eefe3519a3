-- ===== src/Process/SharedMemory/Tests.antt =====
-- The reference count at concrete calls.
use star_os_kernel.Prelude.{◌≡◌, refl, List, [], ◌∷◌, arith}
use star_os_kernel.Process.SharedMemory.{SharedMemory}
use star_os_kernel.Process.SharedMemory.Count.{
  Op, attaches, detaches, run, run_holders, run_counts_holders,
}

abbrev region : SharedMemory
region = record { base = 0x10000; size = 4096; ref_count = 1 }

abbrev script : List Op
script = attaches ∷ detaches ∷ detaches ∷ []

run_counts_holders_example : run region script ≡ run_holders 1 script
run_counts_holders_example = run_counts_holders script region 1 refl (omega arith) (omega arith)

abbrev released : SharedMemory
released = record region { ref_count = 0 }
