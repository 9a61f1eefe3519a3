-- ===== src/Process/SharedMemory.antt =====
-- kernel/src/process/ipc.rs, `SharedMemory`: a region with a reference count of width 64.
pub mod Count
mod Tests
use star_os_kernel.Prelude.{
  ℕ, ◌+◌, ◌-◌, ◌*◌, ◌%◌, ◌^◌, Bool, Result, ok, err, ltb, ◌==◌, if◌then◌else◌,
}
use star_os_kernel.Error.{KernelError, invalid_parameter}

pub record SharedMemory : Type 0 where
  pub base : ℕ
  pub size : ℕ
  pub ref_count : ℕ

abbrev pub max_size : ℕ
max_size = 64 * 1024 * 1024

unfoldable pub new : ℕ → ℕ → Result SharedMemory KernelError
new base size =
    if ltb max_size size
    then err (invalid_parameter "Shared memory exceeds 64MB limit")
    else ok (record { base = base; size = size; ref_count = 1 })

unfoldable pub attach : SharedMemory → SharedMemory × Result (Unit {0}) KernelError
attach s = (record s { ref_count = (s.ref_count + 1) % 2 ^ 64 }, ok tt)

-- `fetch_sub` wraps, and the count is checked afterwards.
unfoldable pub detach : SharedMemory → SharedMemory × Result Bool KernelError
detach s =
    let old = s.ref_count in
    let s' : SharedMemory = record s { ref_count = (old + 2 ^ 64 - 1) % 2 ^ 64 } in
    if old == 0 then (s', err (invalid_parameter "Invalid ref count")) else (s', ok (old == 1))
