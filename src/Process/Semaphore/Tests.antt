-- ===== src/Process/Semaphore/Tests.antt =====
-- A semaphore of kernel/src/process/sync.rs at a concrete schedule.
use star_os_kernel.Prelude.{ℕ, ◌+◌, ◌≤◌, ◌≡◌, false, List, [], ◌∷◌, arith}
use star_os_kernel.Process.Semaphore.{Turn, Call, wait, try_wait, signal, start, run}
use star_os_kernel.Process.Semaphore.Count.{run_counts}

abbrev turn : ℕ → Call → Turn
turn k call = record { thread = k; call = call; spurious = false }

-- Two threads load the same count; one of them takes the permit, and a third gives one back.
abbrev turns : List Turn
turns =
    turn 0 wait
    ∷ turn 1 try_wait
    ∷ turn 0 wait
    ∷ turn 1 try_wait
    ∷ turn 2 signal
    ∷ turn 2 signal
    ∷ []

run_counts_example :
    ((run (start 1 2) turns).semaphore.count ≤ 2)
    × ((run (start 1 2) turns).semaphore.count + (run (start 1 2) turns).taken
        ≡ 1 + (run (start 1 2) turns).given)
run_counts_example = run_counts 1 2 (omega arith) turns (omega arith)
