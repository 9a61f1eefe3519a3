-- ===== src/Process/Scheduler/Tests.antt =====
-- Runs of the scheduler, and its theorems at concrete states.
use star_os_kernel.Prelude.{
  ℕ, zero, suc, ◌≤◌, ◌≡◌, inl, refl, List, [], ◌∷◌, ◌++◌, true, none, some, Array, store, ok,
  length, length-append, arith,
}
use star_os_kernel.Process.Ids.{TaskId, normal, high}
use star_os_kernel.Words.{set_bit, trailing_zeros}
use star_os_kernel.Process.RunQueue
use star_os_kernel.Process.PriorityBitmap
use star_os_kernel.Process.Scheduler.{
  Scheduler, new, enqueue, dequeue, schedule, pick, requeue_expired,
}
use star_os_kernel.Process.Scheduler.Refine.{IsScheduler, new-IsScheduler, enqueue_refines}
use star_os_kernel.Process.Scheduler.Pick.{Picks, schedule-Picks, schedule_preempts, schedule_drops}
use star_os_kernel.Process.Scheduler.Stuck.{schedules, dequeue_starves}

abbrev none_ready : Array (List TaskId)
none_ready p = []

-- Task 7 waits at the normal priority.
abbrev lone : Scheduler
lone = (enqueue new 7 normal).0

abbrev lone_ready : Array (List TaskId)
lone_ready = store none_ready normal (7 ∷ [])

lone-IsScheduler : IsScheduler lone lone_ready
lone-IsScheduler =
    (enqueue_refines new none_ready new-IsScheduler 7 normal (omega arith) (omega arith)).0

-- Task 8 waits at the high priority, too.
abbrev mixed : Scheduler
mixed = (enqueue lone 8 high).0

abbrev mixed_ready : Array (List TaskId)
mixed_ready = store lone_ready high (8 ∷ [])

mixed-IsScheduler : IsScheduler mixed mixed_ready
mixed-IsScheduler =
    (enqueue_refines lone lone_ready lone-IsScheduler 8 high (omega arith) (omega arith)).0

mixed_order : (schedule mixed).1 ≡ some 8
unfolding schedule enqueue new pick PriorityBitmap.find_highest PriorityBitmap.find_from
    requeue_expired RunQueue.push PriorityBitmap.set set_bit RunQueue.pop trailing_zeros
mixed_order = refl

idle_lone : lone.current ≡ none
unfolding enqueue new RunQueue.push RunQueue.new
idle_lone = refl

idle_mixed : mixed.current ≡ none
unfolding enqueue new RunQueue.push RunQueue.new PriorityBitmap.new PriorityBitmap.set
idle_mixed = refl

schedule-Picks_example : Picks mixed_ready (schedule mixed)
schedule-Picks_example = schedule-Picks mixed mixed_ready mixed-IsScheduler (inl idle_mixed)

-- Task 9 has used up its slice.
abbrev used_up : Scheduler
used_up = record mixed { current = some 9; current_priority = some normal; slice_remaining = 0 }

used_up-IsScheduler : IsScheduler used_up mixed_ready
used_up-IsScheduler =
    let v = mixed-IsScheduler in record { words = v.words; queues = v.queues; marked = v.marked }

schedule_preempts_example : Picks (store mixed_ready normal (7 ∷ 9 ∷ [])) (schedule used_up)
schedule_preempts_example =
    schedule_preempts used_up mixed_ready 9 normal used_up-IsScheduler refl refl refl (omega arith)
      (omega arith)

-- `n` tasks at priority 5.
crowd : ℕ → Scheduler
crowd zero = new
crowd (suc n) = (enqueue (crowd n) n 5).0

crowd_ready : ℕ → Array (List TaskId)
crowd_ready zero = none_ready
crowd_ready (suc n) = store (crowd_ready n) 5 (crowd_ready n 5 ++ n ∷ [])

length-crowd_ready : (n : ℕ) → length (crowd_ready n 5) ≡ n
unfolding crowd_ready
length-crowd_ready zero = refl
length-crowd_ready (suc n) =
    omega (arith, length-append (crowd_ready n 5) (n ∷ []), length-crowd_ready n)

crowd-IsScheduler : (n : ℕ) → n ≤ 64 → IsScheduler (crowd n) (crowd_ready n)
unfolding crowd crowd_ready
crowd-IsScheduler zero h = new-IsScheduler
crowd-IsScheduler (suc n) h =
    (enqueue_refines (crowd n) (crowd_ready n) (crowd-IsScheduler n (omega arith)) n 5 (omega arith)
      (omega (arith, length-crowd_ready n))).0

abbrev crowded : Scheduler
crowded = record (crowd 64) { current = some 70; current_priority = some 5; slice_remaining = 0 }

crowded-IsScheduler : IsScheduler crowded (crowd_ready 64)
crowded-IsScheduler =
    let v = crowd-IsScheduler 64 (omega arith) in
    record { words = v.words; queues = v.queues; marked = v.marked }

schedule_drops_example :
    Picks (crowd_ready 64) (schedule crowded) × ((schedule crowded).0.current ≡ none)
schedule_drops_example =
    schedule_drops crowded (crowd_ready 64) 70 5 crowded-IsScheduler refl refl refl (omega arith)
      (omega (arith, length-crowd_ready 64))

head_lone : (lone.run_queues normal).head ≡ 0
unfolding enqueue new RunQueue.push RunQueue.new
head_lone = refl

dequeue_starves_example :
    ((dequeue lone 7 normal).1 ≡ true)
    × ((enqueue (dequeue lone 7 normal).0 8 normal).1 ≡ ok tt)
    × (schedules 3 (enqueue (dequeue lone 7 normal).0 8 normal).0 ≡ none ∷ none ∷ none ∷ [])
dequeue_starves_example =
    dequeue_starves lone lone_ready 7 8 normal lone-IsScheduler (omega arith) refl
      (λ r hr. ground arith) idle_lone (λ j hj. absurd (omega (arith, head_lone))) 3
