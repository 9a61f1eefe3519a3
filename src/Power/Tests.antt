-- ===== src/Power/Tests.antt =====
-- A phone's processor, from 300 MHz to 2.4 GHz.
use star_os_kernel.Prelude.{List, [], ◌∷◌, arith}
use star_os_kernel.Power.{suspend, new}
use star_os_kernel.Power.Frequency.{
  Op, sets_state, sets_frequency, enters_idle, exits_idle, run, IsWithin, run-new-IsWithin,
}

abbrev calls : List Op
calls =
    enters_idle
    ∷ enters_idle
    ∷ enters_idle
    ∷ enters_idle
    ∷ sets_frequency 100000
    ∷ sets_frequency 1200000
    ∷ exits_idle
    ∷ sets_state suspend
    ∷ []

run-new-IsWithin_example : IsWithin 300000 2400000 (run (new 300000 2400000) calls)
run-new-IsWithin_example = run-new-IsWithin 300000 2400000 calls (omega arith)
