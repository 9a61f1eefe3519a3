-- ===== src/Process/Ids.antt =====
-- kernel/src/process/task.rs, `TaskId` and `Priority`: a 64-bit number, and a byte of which 0 is the
-- most urgent.
use star_os_kernel.Prelude.{ℕ, Bool, leb}

abbrev pub TaskId : Type 0
TaskId = ℕ

abbrev pub Priority : Type 0
Priority = ℕ

abbrev pub realtime_max : ℕ
realtime_max = 0

abbrev pub realtime_min : ℕ
realtime_min = 63

abbrev pub high : ℕ
high = 64

abbrev pub normal : ℕ
normal = 128

abbrev pub low : ℕ
low = 192

abbrev pub idle : ℕ
idle = 255

unfoldable pub is_realtime : Priority → Bool
is_realtime p = leb p 63
