-- ===== src/Process/Mutex/Tests.antt =====
-- The mutex of kernel/src/process/sync.rs at a concrete schedule.
use star_os_kernel.Prelude.{ℕ, ◌+◌, ◌≡◌, ◌≢◌, refl, true, false, List, [], ◌∷◌}
use star_os_kernel.Process.Mutex.{Turn, new, start, advance, step, run, holding, outside}
use star_os_kernel.Process.Mutex.Exclusion.{run_excludes_others}

abbrev turn : ℕ → Turn
turn k = record { thread = k; task_id = k + 7; priority = 10; spurious = false }

-- Thread 0 locks, and thread 1 tries to.
abbrev turns : List Turn
turns = turn 0 ∷ turn 1 ∷ turn 0 ∷ turn 0 ∷ turn 1 ∷ []

zero_holds : (run start turns).threads 0 ≡ holding 7 10
unfolding run step start new advance
zero_holds = refl

run_excludes_others_example :
    ((run start turns).mutex.locked ≡ true)
    × ((run start turns).mutex.owner ≡ 7)
    × ((run start turns).mutex.original_priority ≡ 10)
    × ((k : ℕ) → k ≢ 0 → (run start turns).threads k ≡ outside)
run_excludes_others_example = run_excludes_others turns 0 7 10 zero_holds
