-- ===== src/Process/RunQueue/Tests.antt =====
-- Run queues at concrete states.
use star_os_kernel.Prelude.{◌≡◌, refl, [], ◌∷◌, some, arith}
use star_os_kernel.Process.RunQueue.{RunQueue, new, push, pop}
use star_os_kernel.Process.RunQueue.Fifo.{Represents, new-Represents, push-Represents}

abbrev one_task : RunQueue
one_task = (push new 7).0

one_task-Represents : Represents one_task (7 ∷ [])
one_task-Represents = (push-Represents 7 new-Represents (omega arith)).0

two_in_order :
    ((pop (push one_task 8).0).1 ≡ some 7) × ((pop (pop (push one_task 8).0).0).1 ≡ some 8)
unfolding push pop new
two_in_order = (refl, refl)

head_one_task : one_task.head ≡ 0
unfolding push new
head_one_task = refl
