-- ===== src/UserSignals/Tests.antt =====
-- A task with two pending signals, one of them blocked.
use star_os_kernel.Prelude.{
  ℕ, ◌<◌, ◌≡◌, ◌⊎◌, refl, true, none, some, ok, err, store, ◌==◌, if◌then◌else◌, arith,
}
use star_os_kernel.Words.{bit}
use star_os_kernel.UserSignals.{
  SavedContext, SignalState, SignalStorage, new, is_signal, dequeue_signal, setup_signal_frame,
  restore_signal_frame, sigreturn_trampoline,
}
use star_os_kernel.UserSignals.Delivery.{
  IsDeliverable, IsLowest, delivered, dequeue_signal-cases, restore_signal_frame-setup_signal_frame,
}

-- Signals 2 and 9 are pending and blocked, and 10 has a handler.
abbrev busy : SignalState
busy = record {
  pending = 516;
  blocked = 516;
  handlers = store (λ i. none) 10 (some 65536);
  saved_ctx = none;
}

abbrev table : SignalStorage
table = store (λ i. new) 3 busy

abbrev registers : SavedContext
registers = record { x = λ i. i; sp = 32768; pc = 4096; pstate = 0 }

dequeue_signal-cases_example :
    (((dequeue_signal table 3).1 ≡ none)
      × ((dequeue_signal table 3).0 3 ≡ busy)
      × ((j : ℕ) → j < 32 → ¬ IsDeliverable busy j))
    ⊎ ((sig : ℕ) × ((dequeue_signal table 3).1 ≡ some sig)
        × IsLowest busy sig
        × ((dequeue_signal table 3).0 3 ≡ delivered busy sig)
        × ((j : ℕ)
            → j < 32
            → bit (delivered busy sig).pending j ≡ (if j == sig then 0 else bit busy.pending j)))
dequeue_signal-cases_example =
    dequeue_signal-cases table 3 (omega arith) (omega arith) (omega arith)

is_signal_ten : is_signal 10 ≡ true
unfolding is_signal
is_signal_ten = refl

restore_signal_frame-setup_signal_frame_example :
    (table' table'' : SignalStorage) × (entered : SavedContext) × (setup_signal_frame table 3 10
        registers
      ≡ (table', entered, ok tt))
    × (entered.pc ≡ 65536)
    × (entered.x 0 ≡ 10)
    × (entered.x 30 ≡ sigreturn_trampoline)
    × (entered.sp ≡ registers.sp)
    × (restore_signal_frame table' 3 registers ≡ (table'', registers, ok tt))
    × ((restore_signal_frame table'' 3 registers).2 ≡ err "no saved signal frame")
restore_signal_frame-setup_signal_frame_example =
    restore_signal_frame-setup_signal_frame table 3 10 65536 registers registers (omega arith)
      is_signal_ten refl
