-- ===== src/Process/Scheduler/Refine.antt =====
-- The scheduler against its contract: one list of waiting tasks for each priority, and the oldest
-- task of the most urgent priority that has one is picked.
use star_os_kernel.Prelude.{
  ℕ, ◌%◌, ◌<◌, ◌≤◌, ◌≡◌, refl, ap, sym, ◌∙◌, subst, List, [], ◌∷◌, ◌++◌, Array, store,
  store_related, store_same, ok, err, length, arith,
}
use star_os_kernel.Error.{process, too_many_processes}
use star_os_kernel.Words.Bits.{bit-zero}
use star_os_kernel.Process.PriorityBitmap
use star_os_kernel.Process.Ids.{TaskId, Priority}
use star_os_kernel.Process.RunQueue.{RunQueue}
use star_os_kernel.Process.RunQueue.Fifo.{
  Represents, pushed, push_room, push_full, new-Represents, push-Represents,
}
use star_os_kernel.Process.PriorityBitmap.{PriorityBitmap, set, clear, find_highest}
use star_os_kernel.Words.Marks.{mark}
use star_os_kernel.Process.PriorityBitmap.Highest.{IsWords, mark-set, set-IsWords}
use star_os_kernel.Process.Scheduler.{Scheduler, new, accept, enqueue, increment}

-- 1 where some task waits.
abbrev pub waiting : List TaskId → ℕ
waiting [] = 0
waiting (t ∷ ts) = 1

-- The queues hold the tasks `ready`, and the bitmap marks the queues that are not empty.
pub record IsScheduler (s : Scheduler) (ready : Array (List TaskId)) : Type 0 where
  pub words : IsWords s.priority_bitmap
  pub queues : (p : ℕ) → p < 256 → Represents (s.run_queues p) (ready p)
  pub marked : (p : ℕ) → p < 256 → mark s.priority_bitmap p ≡ waiting (ready p)

abbrev pub enqueued : Scheduler → TaskId → Priority → Scheduler
enqueued s t p = record s {
  run_queues = store s.run_queues p (pushed (s.run_queues p) t);
  priority_bitmap = set s.priority_bitmap p;
  stats = record (s.stats) { ready_tasks = increment (s.stats.ready_tasks) };
}

pub enqueue_room :
    (s : Scheduler) (t : TaskId) (p : Priority)
    → (s.run_queues p).count < 64
    → enqueue s t p ≡ (enqueued s t p, ok tt)
unfolding enqueue
enqueue_room s t p room = ap (accept s p) (push_room (s.run_queues p) t room)

abbrev pub refused : Scheduler → Priority → Scheduler
refused s p = record s { run_queues = store s.run_queues p (s.run_queues p) }

pub enqueue_full :
    (s : Scheduler) (t : TaskId) (p : Priority)
    → 64 ≤ (s.run_queues p).count
    → enqueue s t p ≡ (refused s p, err (process too_many_processes))
unfolding enqueue
enqueue_full s t p full = ap (accept s p) (push_full (s.run_queues p) t full)

waiting-append : (ts : List TaskId) (t : TaskId) → waiting (ts ++ t ∷ []) ≡ 1
waiting-append [] t = refl
waiting-append (x ∷ ts) t = refl

module _ (s : Scheduler) (ready : Array (List TaskId)) (v : IsScheduler s ready) where
  pub enqueued-IsScheduler :
      (t : TaskId) (p : Priority)
      → p < 256
      → length (ready p) < 64
      → IsScheduler (enqueued s t p) (store ready p (ready p ++ t ∷ []))
  enqueued-IsScheduler t p hp room = record {
    words = set-IsWords s.priority_bitmap p v.words;
    queues = λ r hr.
        store_related Represents s.run_queues ready p r (pushed (s.run_queues p) t)
          (ready p ++ t ∷ []) one (v.queues r hr);
    marked = λ r hr.
        mark-set s.priority_bitmap p r
        ∙ store_related (λ (n : ℕ) (ts : List TaskId). n ≡ waiting ts) (mark s.priority_bitmap)
            ready p r 1 (ready p ++ t ∷ []) (sym (waiting-append (ready p) t)) (v.marked r hr);
  }
    where
      q : RunQueue
      q = s.run_queues p

      few : q.count < 64
      few = omega (arith, (v.queues p hp).counted)

      one : Represents (pushed q t) (ready p ++ t ∷ [])
      one = rw (push_room q t few) at ((push-Represents t (v.queues p hp) room).0)

  -- `enqueue` appends the task to the list of its priority where fewer than 64 tasks wait there.
  pub enqueue_refines :
      (t : TaskId) (p : Priority)
      → p < 256
      → length (ready p) < 64
      → IsScheduler (enqueue s t p).0 (store ready p (ready p ++ t ∷ []))
        × ((enqueue s t p).1 ≡ ok tt)
  enqueue_refines t p hp room =
      rw (enqueue_room s t p (omega (arith, (v.queues p hp).counted)))
        (enqueued-IsScheduler t p hp room, refl)

  pub refused-IsScheduler : (p : Priority) → p < 256 → IsScheduler (refused s p) ready
  refused-IsScheduler p hp = record {
    words = v.words;
    queues = λ r hr.
        subst (λ (q : RunQueue). Represents q (ready r)) (sym (store_same s.run_queues p r))
          (v.queues r hr);
    marked = v.marked;
  }

  -- `enqueue` refuses a task, and keeps the waiting tasks, where 64 tasks wait at its priority.
  pub enqueue_refuses :
      (t : TaskId) (p : Priority)
      → p < 256
      → 64 ≤ length (ready p)
      → IsScheduler (enqueue s t p).0 ready × ((enqueue s t p).1 ≡ err (process too_many_processes))
  enqueue_refuses t p hp full =
      rw (enqueue_full s t p (omega (arith, (v.queues p hp).counted)))
        (refused-IsScheduler p hp, refl)

pub new-IsScheduler : IsScheduler new (λ p. [])
unfolding new PriorityBitmap.new
new-IsScheduler = record {
  words = λ k hk. omega arith;
  queues = λ p hp. new-Represents;
  marked = λ p hp. bit-zero (p % 64);
}
