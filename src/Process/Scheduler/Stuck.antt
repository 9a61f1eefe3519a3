-- ===== src/Process/Scheduler/Stuck.antt =====
-- What `dequeue` of kernel/src/process/scheduler.rs can lead to: the slot that it empties stays in
-- the ring, and a priority stays marked though its queue counts no task.
use star_os_kernel.Prelude.{
  ℕ, zero, suc, ◌-◌, ◌<◌, ◌≡◌, ◌≢◌, inl, refl, ap, ◌∙◌, subst, List, [], ◌∷◌, true, false, Option,
  none, some, Array, store, store_self, ok, arith,
}
use star_os_kernel.Process.Ids.{TaskId, Priority}
use star_os_kernel.Process.RunQueue.{RunQueue, push, pop, is_empty}
use star_os_kernel.Process.RunQueue.Fifo.{
  Represents, pushed, popped, push_room, pop_count, pop_zero,
}
use star_os_kernel.Process.RunQueue.Holes.{removed, remove_oldest, pushed_hole}
use star_os_kernel.Process.PriorityBitmap.{set, clear, find_highest}
use star_os_kernel.Words.Marks.{mark}
use star_os_kernel.Process.PriorityBitmap.Highest.{
  mark-set, mark-clear, set-IsWords, find_highest_eq,
}
use star_os_kernel.Process.Scheduler.{
  Scheduler, accept, enqueue, dequeue, release, clear_if_empty, take_task, schedule, increment,
}
use star_os_kernel.Process.Scheduler.Refine.{waiting, IsScheduler}
use star_os_kernel.Process.Scheduler.Pick.{
  clear_if_empty-IsWords, pick-some, requeue_expired-Continues,
}

-- The most urgent marked priority counts no task, and nothing is put back.
abbrev pub IsStuck : Scheduler → Priority → Type 0
IsStuck s p =
    (find_highest s.priority_bitmap ≡ some p) × ((s.run_queues p).count ≡ 0) × (s.current ≡ none)

schedule_continues :
    (s : Scheduler) (p : Priority)
    → find_highest s.priority_bitmap ≡ some p
    → s.current ≡ none
    → schedule s ≡ take_task (record s { need_resched = false }) p (pop (s.run_queues p))
unfolding schedule
schedule_continues s p e c =
    let s' : Scheduler = record s { need_resched = false } in
    rw (requeue_expired-Continues s' (inl c)) (pick-some s' p e)

IsStuck-state :
    (s : Scheduler) (p : Priority) (q : RunQueue)
    → find_highest s.priority_bitmap ≡ some p
    → s.current ≡ none
    → q.count ≡ 0
    → IsStuck (take_task s p (q, none)).0 p
unfolding take_task
IsStuck-state s p q e c z = (e, ap (λ (x : RunQueue). x.count) (store_self s.run_queues p q) ∙ z, c)

-- `n` calls of `schedule` in a row, and their answers.
pub schedules : ℕ → Scheduler → List (Option TaskId)
schedules zero s = []
schedules (suc n) s = let (s', answer) = schedule s in answer ∷ schedules n s'

abbrev nothings : ℕ → List (Option TaskId)
nothings zero = []
nothings (suc n) = none ∷ nothings n

IsStuck-schedule :
    (s : Scheduler) (p : Priority)
    → IsStuck s p
    → ((schedule s).1 ≡ none) × IsStuck (schedule s).0 p
unfolding take_task
IsStuck-schedule s p (e, z, c) =
    rw (schedule_continues s p e c, pop_zero (s.run_queues p) z)
      (refl, IsStuck-state (record s { need_resched = false }) p (s.run_queues p) e c z)

pub stuck_schedules :
    (n : ℕ) (s : Scheduler) (p : Priority) → IsStuck s p → schedules n s ≡ nothings n
unfolding schedules
stuck_schedules zero s p h = refl
stuck_schedules (suc n) s p h =
    let (e, h') = IsStuck-schedule s p h in rw (e, stuck_schedules n (schedule s).0 p h')

module _ (s : Scheduler) (ready : Array (List TaskId)) (x y : TaskId) (p : Priority)
    (v : IsScheduler s ready) (hp : p < 256) (lone : ready p ≡ x ∷ [])
    (urgent : (r : ℕ) → r < p → ready r ≡ []) (idle : s.current ≡ none)
    (first : (j : ℕ) → j < (s.run_queues p).head → (s.run_queues p).tasks j ≢ some x) where
  abbrev without : Scheduler
  without = record s {
    run_queues = store s.run_queues p (removed (s.run_queues p));
    priority_bitmap = clear_if_empty s.priority_bitmap (removed (s.run_queues p)) p;
    stats = record (s.stats) { ready_tasks = s.stats.ready_tasks - 1 };
  }

  abbrev with_next : Scheduler
  with_next = record without {
    run_queues = store without.run_queues p (pushed (removed (s.run_queues p)) y);
    priority_bitmap = set without.priority_bitmap p;
    stats = record (without.stats) { ready_tasks = increment (without.stats.ready_tasks) };
  }

  holds_x : Represents (s.run_queues p) (x ∷ [])
  holds_x = subst (Represents (s.run_queues p)) lone (v.queues p hp)

  none_left : (removed (s.run_queues p)).count ≡ 0
  none_left = omega (arith, holds_x.counted)

  dequeue_lone : dequeue s x p ≡ (without, true)
  unfolding dequeue
  dequeue_lone = ap (release s p) (remove_oldest (s.run_queues p) x [] holds_x first)

  enqueue_next : enqueue without y p ≡ (with_next, ok tt)
  unfolding enqueue
  enqueue_next =
      ap (λ (q : RunQueue). accept without p (push q y))
        (store_self s.run_queues p (removed (s.run_queues p)))
      ∙ ap (accept without p) (push_room (removed (s.run_queues p)) y (omega (arith, none_left)))

  cleared : without.priority_bitmap ≡ clear s.priority_bitmap p
  unfolding clear_if_empty is_empty
  cleared = rw none_left

  unmarked : (r : ℕ) → r < p → mark with_next.priority_bitmap r ≡ 0
  unmarked r hr = rw cleared (
      ground (
        arith,
        mark-set (clear s.priority_bitmap p) p r,
        mark-clear s.priority_bitmap p r,
        v.marked r (omega arith),
        ap waiting (urgent r hr),
      ))

  marked_again : find_highest with_next.priority_bitmap ≡ some p
  marked_again =
      find_highest_eq with_next.priority_bitmap p
        (set-IsWords without.priority_bitmap p
          (clear_if_empty-IsWords s.priority_bitmap (removed (s.run_queues p)) p v.words))
        hp (ground (arith, mark-set without.priority_bitmap p p)) unmarked

  schedule_next :
      schedule with_next
      ≡ take_task
          (record with_next { need_resched = false })
          p
          (popped (pushed (removed (s.run_queues p)) y), none)
  schedule_next =
      schedule_continues with_next p marked_again idle
      ∙ ap (λ (q : RunQueue). take_task s' p (pop q)) (store_self without.run_queues p full)
      ∙ ap (take_task s' p) (pop_count full (omega (arith, none_left)))
      ∙ ap (λ (o : Option TaskId). take_task s' p (popped full, o))
          (pushed_hole (s.run_queues p) x y holds_x)
    where
      s' : Scheduler
      s' = record with_next { need_resched = false }

      full : RunQueue
      full = pushed (removed (s.run_queues p)) y

  -- In a scheduler whose queues hold the lists of waiting tasks, let the one task of the most urgent
  -- priority that has a task be dequeued while no task runs, where no slot of its queue before the
  -- head holds that task too, and let a task be enqueued there. The calls are accepted, and from
  -- then on `schedule` answers nothing, however often it is called, whatever tasks wait at other
  -- priorities.
  pub dequeue_starves :
      (n : ℕ)
      → ((dequeue s x p).1 ≡ true)
        × ((enqueue (dequeue s x p).0 y p).1 ≡ ok tt)
        × (schedules n (enqueue (dequeue s x p).0 y p).0 ≡ nothings n)
  unfolding schedules take_task
  dequeue_starves zero = rw (dequeue_lone, enqueue_next) (refl, refl, refl)
  dequeue_starves (suc n) =
      rw (dequeue_lone, enqueue_next)
        (
          refl,
          refl,
          rw schedule_next (
              ap (λ t. none ∷ t)
                (stuck_schedules n _ p (
                  IsStuck-state (record with_next { need_resched = false }) p
                    (popped (pushed (removed (s.run_queues p)) y)) marked_again idle
                    (omega (arith, none_left))))),
        )
