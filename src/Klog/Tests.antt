-- ===== src/Klog/Tests.antt =====
-- The log of kernel/src/klog.rs at concrete calls.
use star_os_kernel.Prelude.{◌-◌, ◌≡◌, min, List, [], ◌∷◌, length, drop, arith}
use star_os_kernel.Klog.{as_u8, info, error, debug, log_buffer_size, initial, read_last}
use star_os_kernel.Klog.Latest.{Call, level, entry, run, kept, read_last_newest}

abbrev calls : List Call
calls =
    entry error "fs" (104 ∷ 105 ∷ []) 7
    ∷ entry debug "fs" (108 ∷ 111 ∷ []) 8
    ∷ level debug
    ∷ entry debug "net" (49 ∷ []) 9
    ∷ []

read_last_newest_example :
    read_last (run initial calls) 2
    ≡ drop (length (kept (as_u8 info) calls) - min 2 log_buffer_size) (kept (as_u8 info) calls)
read_last_newest_example = read_last_newest calls 2 (omega arith)
