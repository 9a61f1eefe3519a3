-- ===== src/Process/RwLock/Tests.antt =====
-- Two threads at a lock: the first writes, and the second has turned away.
use star_os_kernel.Prelude.{ℕ, ◌≢◌, ◌≡◌, refl, some, List, [], ◌∷◌, get_elem?, arith}
use star_os_kernel.Process.RwLock.{
  outside, writing, reading, Call, read, write, start, run, step, move, advance, begin, new,
  fetch_add, fetch_sub,
}
use star_os_kernel.Process.RwLock.Exclusion.{run_excludes}

abbrev schedule : List (ℕ × Call)
schedule = (1, read) ∷ (0, write) ∷ (1, read) ∷ (0, write) ∷ (1, read) ∷ (1, read) ∷ (0, write) ∷ []

first_writes : get_elem? (run (start 2) schedule).threads 0 ≡ some writing
unfolding run start step move advance begin new fetch_add fetch_sub
first_writes = refl

second_turned_away : get_elem? (run (start 2) schedule).threads 1 ≡ some outside
unfolding run start step move advance begin new fetch_add fetch_sub
second_turned_away = refl

run_excludes_example : (outside ≢ writing) × (outside ≢ reading)
run_excludes_example =
    run_excludes 2 schedule 0 1 outside (omega arith) (omega arith) first_writes second_turned_away
