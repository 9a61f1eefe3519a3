-- ===== src/AsyncIpc/Tests.antt =====
-- Channels of kernel/src/async_ipc.rs at concrete schedules.
use star_os_kernel.Prelude.{
  ℕ, ◌≡◌, ◌≢◌, ◌⊎◌, inl, inr, refl, true, Bool-cases, List, [], ◌∷◌, arith, ◌==◌,
}
use star_os_kernel.AsyncIpc.{
  IpcMessage, Call, send, poll, close, new, start, go, begin, advance, step, run, try_recv,
  push_back, waking, waiting, registering, outside, System,
}
use star_os_kernel.AsyncIpc.Fifo.{InOrder, run-InOrder}
use star_os_kernel.AsyncIpc.Wakes.{run_wakes}
use star_os_kernel.AsyncIpc.Stuck.{receives, is_close, NoClose, IsStuck}
use star_os_kernel.AsyncIpc.Close.{close_missed}

abbrev hello : IpcMessage
hello = record { sender = 1; msg_type = 42; payload = 1 ∷ 2 ∷ 3 ∷ [] }

-- Thread 0 polls and waits, and thread 1 sends.
abbrev talk : List (ℕ × Call)
talk = (0, poll) ∷ (0, poll) ∷ (0, poll) ∷ (0, poll) ∷ (1, send hello) ∷ (1, send hello) ∷ []

run-InOrder_example : InOrder (run start talk)
run-InOrder_example = run-InOrder talk

zero_waits : (run start talk).threads 0 ≡ waiting
unfolding run start new step advance begin go try_recv push_back
zero_waits = refl

run_wakes_example :
    ((run start talk).channel.queue ≡ [])
    ⊎ ((j : ℕ) × ((run start talk).threads j ≡ waking)
        × ((call : Call) (m : ℕ) → (step (run start talk) j call).threads m ≢ waiting))
run_wakes_example = run_wakes talk 0 zero_waits

-- Thread 0 has found the channel empty and open.
abbrev half_polled : System
half_polled = run start ((0, poll) ∷ (0, poll) ∷ [])

half_polled_quiet : (k : ℕ) → receives (half_polled.threads k) ≡ true
unfolding run start new step advance begin go try_recv receives
half_polled_quiet k = elim (Bool-cases (k == 0)) [ inl e ↦ rw e refl | inr e ↦ rw e refl ]

at_register : half_polled.threads 0 ≡ registering
unfolding run start new step advance begin go try_recv
at_register = refl

no_message : half_polled.channel.queue ≡ []
unfolding run start new step advance begin go try_recv
no_message = refl

one_outside : half_polled.threads 1 ≡ outside
unfolding run start new step advance begin go try_recv
one_outside = refl

abbrev afterwards : List (ℕ × Call)
afterwards = (2, send hello) ∷ (0, poll) ∷ []

afterwards-NoClose : NoClose afterwards
unfolding is_close
afterwards-NoClose = (refl, (refl, tt))

close_missed_example :
    IsStuck
      (run (run half_polled ((1, close) ∷ (1, poll) ∷ (0, poll) ∷ (0, poll) ∷ [])) afterwards)
      0
close_missed_example =
    close_missed half_polled 0 1 (omega arith) no_message at_register one_outside half_polled_quiet
      afterwards afterwards-NoClose
