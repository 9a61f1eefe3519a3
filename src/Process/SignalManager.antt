-- ===== src/Process/SignalManager.antt =====
-- kernel/src/process/ipc.rs, `Signal` and `SignalManager`: the bitmaps of pending and of blocked
-- signals, 64 bits wide, and eight handlers. A handler is a function pointer of the task, here a
-- value of any type.
pub mod Pending
mod Tests
use star_os_kernel.Prelude.{
  ℕ, ◌+◌, ◌-◌, ◌%◌, ◌^◌, Bool, not, Option, none, some, Array, store, bit_and, ltb, ◌==◌,
  if◌then◌else◌,
}
use star_os_kernel.Words.{complement, set_bit, clear_bit, trailing_zeros}

pub data Signal : Type 0 where
  kill interrupt terminate stop continue child user1 user2 : Signal

-- `signal as u8`
abbrev pub as_u8 : Signal → ℕ
as_u8 kill = 1
as_u8 interrupt = 2
as_u8 terminate = 3
as_u8 stop = 4
as_u8 continue = 5
as_u8 child = 6
as_u8 user1 = 7
as_u8 user2 = 8

unfoldable pub from_u8 : ℕ → Option Signal
from_u8 v =
    if v == 1
    then some kill
    else if v == 2
    then some interrupt
    else if v == 3
    then some terminate
    else if v == 4
    then some stop
    else if v == 5
    then some continue
    else if v == 6
    then some child
    else if v == 7
    then some user1
    else if v == 8
    then some user2
    else none

pub record SignalManager (Handler : Type 0) : Type 0 where
  pub pending : ℕ
  pub blocked : ℕ
  pub handlers : Array (Option Handler)

module _ {Handler : Type 0} where
  unfoldable pub send_signal : SignalManager Handler → Signal → SignalManager Handler
  send_signal m signal = record m { pending = set_bit m.pending (as_u8 signal) }

  -- `pending & !blocked`
  unfoldable pub deliverable : SignalManager Handler → ℕ
  deliverable m = bit_and m.pending (complement 64 m.blocked)

  unfoldable pub has_pending : SignalManager Handler → Bool
  has_pending m = not (deliverable m == 0)

  unfoldable pub get_pending : SignalManager Handler → Option Signal
  get_pending m =
      if deliverable m == 0 then none else from_u8 (trailing_zeros 64 (deliverable m) % 256)

  unfoldable pub clear_signal : SignalManager Handler → Signal → SignalManager Handler
  clear_signal m signal = record m { pending = clear_bit 64 m.pending (as_u8 signal) }

  unfoldable pub block_signal : SignalManager Handler → Signal → SignalManager Handler
  block_signal m signal = record m { blocked = set_bit m.blocked (as_u8 signal) }

  unfoldable pub unblock_signal : SignalManager Handler → Signal → SignalManager Handler
  unblock_signal m signal = record m { blocked = clear_bit 64 m.blocked (as_u8 signal) }

  unfoldable pub set_handler : SignalManager Handler → Signal → Handler → SignalManager Handler
  set_handler m signal handler =
      if ltb (as_u8 signal - 1) 8
      then record m { handlers = store m.handlers (as_u8 signal - 1) (some handler) }
      else m

  unfoldable pub get_handler : SignalManager Handler → Signal → Option Handler
  get_handler m signal = if ltb (as_u8 signal - 1) 8 then m.handlers (as_u8 signal - 1) else none

unfoldable pub new : (Handler : Type 0) → SignalManager Handler
new Handler = record { pending = 0; blocked = 0; handlers = λ i. none }
