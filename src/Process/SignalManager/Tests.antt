-- ===== src/Process/SignalManager/Tests.antt =====
-- Signals at a concrete manager.
use star_os_kernel.Prelude.{ℕ, ◌≤◌, ◌≡◌, ◌⊎◌, refl, true, none, some}
use star_os_kernel.Words.{set_bit, clear_bit, trailing_zeros}
use star_os_kernel.Process.SignalManager.{
  Signal, as_u8, SignalManager, new, send_signal, block_signal, clear_signal, unblock_signal,
  get_pending, has_pending, deliverable, from_u8,
}
use star_os_kernel.Process.SignalManager.Pending.{
  IsValid, IsDeliverable, new-IsValid, signals-IsValid, get_pending_lowest,
}

abbrev fresh : SignalManager ℕ
fresh = new ℕ

abbrev busy : SignalManager ℕ
busy = block_signal (send_signal (send_signal fresh Signal.user1) Signal.interrupt) Signal.interrupt

busy_pending :
    (get_pending busy ≡ some Signal.user1)
    × (has_pending busy ≡ true)
    × (get_pending (unblock_signal busy Signal.interrupt) ≡ some Signal.interrupt)
    × (get_pending (clear_signal busy Signal.user1) ≡ none)
unfolding get_pending has_pending deliverable from_u8 trailing_zeros new send_signal block_signal
    unblock_signal clear_signal set_bit clear_bit
busy_pending = (refl, refl, refl, refl)

one-IsValid : IsValid (send_signal fresh Signal.user1)
one-IsValid = (signals-IsValid fresh Signal.user1 (new-IsValid ℕ)).0

two-IsValid : IsValid (send_signal (send_signal fresh Signal.user1) Signal.interrupt)
two-IsValid = (signals-IsValid (send_signal fresh Signal.user1) Signal.interrupt one-IsValid).0

busy-IsValid : IsValid busy
busy-IsValid =
    (signals-IsValid (send_signal (send_signal fresh Signal.user1) Signal.interrupt)
      Signal.interrupt two-IsValid).2

get_pending_lowest_example :
    ((get_pending busy ≡ none) × ((t : Signal) → ¬ IsDeliverable busy t))
    ⊎ ((s : Signal) × (get_pending busy ≡ some s)
        × IsDeliverable busy s
        × ((t : Signal) → IsDeliverable busy t → as_u8 s ≤ as_u8 t))
get_pending_lowest_example = get_pending_lowest busy busy-IsValid
