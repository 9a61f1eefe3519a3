-- ===== src/Klog.antt =====
-- kernel/src/klog.rs: the ring of log entries, as one thread uses it. The time of an entry is an
-- argument, since the code reads it from a register. The output to the serial line, which the code
-- does not make yet, and the macros are left out.
pub mod Latest
mod Tests
use star_os_kernel.Prelude.{
  ℕ, zero, suc, ◌+◌, ◌-◌, ◌%◌, ◌^◌, min, Bool, true, false, List, [], ◌∷◌, Array, store, length,
  get_or, String, ltb, leb, if◌then◌else◌,
}

pub data Level : Type 0 where
  emergency : Level
  alert : Level
  critical : Level
  error : Level
  warning : Level
  notice : Level
  info : Level
  debug : Level

-- `level as u8`
unfoldable pub as_u8 : Level → ℕ
as_u8 emergency = 0
as_u8 alert = 1
as_u8 critical = 2
as_u8 error = 3
as_u8 warning = 4
as_u8 notice = 5
as_u8 info = 6
as_u8 debug = 7

pub record LogEntry : Type 0 where
  pub level : Level
  pub timestamp_us : ℕ
  pub module_name : String
  pub message : Array ℕ
  pub msg_len : ℕ

unfoldable pub empty : LogEntry
empty = record { level = debug; timestamp_us = 0; module_name = ""; message = λ i. 0; msg_len = 0 }

-- `LOG_BUFFER_SIZE`
abbrev pub log_buffer_size : ℕ
log_buffer_size = 256

-- The static variables of the module.
pub record Klog : Type 0 where
  pub buffer : Array LogEntry
  pub write_pos : ℕ
  pub count : ℕ
  pub log_level : ℕ

unfoldable pub initial : Klog
initial = record { buffer = λ i. empty; write_pos = 0; count = 0; log_level = as_u8 info }

unfoldable pub set_level : Klog → Level → Klog
set_level k level = record k { log_level = as_u8 level }

unfoldable pub level_of : ℕ → Level
level_of zero = emergency
level_of (suc zero) = alert
level_of (suc (suc zero)) = critical
level_of (suc (suc (suc zero))) = error
level_of (suc (suc (suc (suc zero)))) = warning
level_of (suc (suc (suc (suc (suc zero))))) = notice
level_of (suc (suc (suc (suc (suc (suc zero)))))) = info
level_of (suc (suc (suc (suc (suc (suc (suc n))))))) = debug

unfoldable pub current_level : Klog → Level
current_level k = level_of k.log_level

-- The entry that `log` makes of its arguments.
unfoldable pub new_entry : Level → String → List ℕ → ℕ → LogEntry
new_entry level module_name msg now =
    let copy_len = min (length msg) 120 in
    record {
      level = level;
      timestamp_us = now;
      module_name = module_name;
      message = λ i. if ltb i copy_len then get_or msg i 0 else 0;
      msg_len = copy_len;
    }

unfoldable pub log : Klog → Level → String → List ℕ → ℕ → Klog
log k level module_name msg now = if ltb k.log_level (as_u8 level) then k else record k {
  buffer = store k.buffer (k.write_pos % log_buffer_size) (new_entry level module_name msg now);
  write_pos = (k.write_pos + 1) % 2 ^ 64;
  count = (k.count + 1) % 2 ^ 64;
}

unfoldable pub total_messages : Klog → ℕ
total_messages k = k.count

-- The entries at `n` positions of the ring from `start` on.
unfoldable pub entries_from : Klog → ℕ → ℕ → List LogEntry
entries_from k start zero = []
entries_from k start (suc n) = k.buffer (start % log_buffer_size) ∷ entries_from k (start + 1) n

unfoldable pub read_last : Klog → ℕ → List LogEntry
read_last k wanted =
    let available = min k.count log_buffer_size in
    let read_count = min wanted available in
    let start =
      if leb read_count k.write_pos
      then k.write_pos - read_count
      else log_buffer_size - (read_count - k.write_pos) in
    entries_from k start read_count
