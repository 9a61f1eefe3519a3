-- ===== src/Process/Scheduler/Pick.antt =====
-- `schedule` of kernel/src/process/scheduler.rs picks the oldest task of the most urgent priority.
use star_os_kernel.Prelude.{
  ℕ, ◌-◌, ◌<◌, ◌≤◌, ◌≡◌, ◌≢◌, ◌⊎◌, inl, inr, refl, ap, sym, ◌∙◌, subst, List, [], ◌∷◌, ◌++◌, false,
  Option, none, some, Array, store, store_related, store_same, length, ◌==◌, Bool-cases,
  Option-cases, arith,
}
use star_os_kernel.Process.Ids.{TaskId, Priority}
use star_os_kernel.Process.RunQueue.{RunQueue, pop, is_empty}
use star_os_kernel.Process.RunQueue.Fifo.{Represents, popped, pop_count, pop-Represents}
use star_os_kernel.Process.PriorityBitmap.{PriorityBitmap, find_highest}
use star_os_kernel.Words.Marks.{mark}
use star_os_kernel.Process.PriorityBitmap.Highest.{
  IsWords, mark-clear, clear-IsWords, find_highest_lowest,
}
use star_os_kernel.Process.Scheduler.{
  Scheduler, enqueue, increment, clear_if_empty, take_task, pick, requeue, requeue_expired,
  schedule, quantum_for_priority,
}
use star_os_kernel.Process.Scheduler.Refine.{waiting, IsScheduler, enqueue_refines, enqueue_refuses}

pub clear_if_empty-IsWords :
    (bits : PriorityBitmap) (q : RunQueue) (p : ℕ)
    → IsWords bits
    → IsWords (clear_if_empty bits q p)
unfolding clear_if_empty
clear_if_empty-IsWords bits q p w = elim (Bool-cases (is_empty q)) [
  | inl e ↦ rw e (clear-IsWords bits p w)
  | inr e ↦ rw e w
]

-- A queue that holds `ts` is marked exactly where `ts` is not empty, if its mark was set.
mark-clear_if_empty :
    (bits : PriorityBitmap) (q : RunQueue) (ts : List TaskId) (p : ℕ)
    → Represents q ts
    → mark bits p ≡ 1
    → (r : ℕ) → mark (clear_if_empty bits q p) r ≡ store (mark bits) p (waiting ts) r
unfolding clear_if_empty is_empty
mark-clear_if_empty bits q [] p v one r =
    let e : q.count ≡ 0 = sym v.counted in rw e (mark-clear bits p r)
mark-clear_if_empty bits q (t ∷ ts) p v one r =
    let e : (q.count == 0) ≡ false = ground (arith, v.counted) in
    rw e (sym (ap (λ (n : ℕ). store (mark bits) p n r) (sym one) ∙ store_same (mark bits) p r))

module _ (s : Scheduler) (ready : Array (List TaskId)) (v : IsScheduler s ready) where
  abbrev taken : TaskId → Priority → Scheduler
  taken t p = record s {
    run_queues = store s.run_queues p (popped (s.run_queues p));
    priority_bitmap = clear_if_empty s.priority_bitmap (popped (s.run_queues p)) p;
    stats = record (s.stats) {
      ready_tasks = s.stats.ready_tasks - 1;
      running_tasks = increment (s.stats.running_tasks);
    };
    slice_remaining = quantum_for_priority p;
  }

  take_task_oldest :
      (t : TaskId) (ts : List TaskId) (p : Priority)
      → p < 256
      → ready p ≡ t ∷ ts
      → take_task s p (pop (s.run_queues p)) ≡ (taken t p, some t)
  unfolding take_task
  take_task_oldest t ts p hp e =
      ap (take_task s p) (pop_count q (omega (arith, r.counted)))
      ∙ ap (λ (o : Option TaskId). take_task s p (popped q, o)) r.holds.0
    where
      q : RunQueue
      q = s.run_queues p

      r : Represents q (t ∷ ts)
      r = subst (Represents q) e (v.queues p hp)

  taken-IsScheduler :
      (t : TaskId) (ts : List TaskId) (p : Priority)
      → p < 256
      → ready p ≡ t ∷ ts
      → IsScheduler (taken t p) (store ready p ts)
  taken-IsScheduler t ts p hp e = record {
    words = clear_if_empty-IsWords s.priority_bitmap (popped q) p v.words;
    queues =
        λ r hr. store_related Represents s.run_queues ready p r (popped q) ts rest (v.queues r hr);
    marked = λ r hr.
        mark-clear_if_empty s.priority_bitmap (popped q) ts p rest (v.marked p hp ∙ ap waiting e) r
        ∙ store_related (λ (n : ℕ) (us : List TaskId). n ≡ waiting us) (mark s.priority_bitmap)
            ready p r (waiting ts) ts refl (v.marked r hr);
  }
    where
      q : RunQueue
      q = s.run_queues p

      holds : Represents q (t ∷ ts)
      holds = subst (Represents q) e (v.queues p hp)

      rest : Represents (popped q) ts
      rest = rw (pop_count q (omega (arith, holds.counted))) at ((pop-Represents holds).0)

waiting-zero : (ts : List TaskId) → waiting ts ≡ 0 → ts ≡ []
waiting-zero [] e = refl
waiting-zero (t ∷ ts) e = absurd (omega arith)

waiting-one :
    (ts : List TaskId) → waiting ts ≡ 1 → (t : TaskId) × (us : List TaskId) × (ts ≡ t ∷ us)
waiting-one [] e = absurd (omega arith)
waiting-one (t ∷ ts) e = (t, ts, refl)

-- What a scheduler with the waiting tasks `ready` may answer: nothing where no task waits, and
-- otherwise the oldest task of the most urgent priority that has one, which then leaves its list.
abbrev pub Picks : Array (List TaskId) → Scheduler × Option TaskId → Type 0
Picks ready (s', answer) =
    ((answer ≡ none) × ((r : ℕ) → r < 256 → ready r ≡ []) × IsScheduler s' ready)
    ⊎ ((p : Priority) × (t : TaskId) × (ts : List TaskId) × (answer ≡ some t)
        × (p < 256)
        × (ready p ≡ t ∷ ts)
        × ((r : ℕ) → r < p → ready r ≡ [])
        × IsScheduler s' (store ready p ts)
        × (s'.slice_remaining ≡ quantum_for_priority p))

pick-none : (s : Scheduler) → find_highest s.priority_bitmap ≡ none → pick s ≡ (s, none)
unfolding pick
pick-none s e = rw (e, pick)

pub pick-some :
    (s : Scheduler) (p : Priority)
    → find_highest s.priority_bitmap ≡ some p
    → pick s ≡ take_task s p (pop (s.run_queues p))
unfolding pick
pick-some s p e = rw (e, pick)

current-take_task :
    (s : Scheduler) (p : Priority) (r : RunQueue × Option TaskId)
    → (take_task s p r).0.current ≡ s.current
unfolding take_task
current-take_task s p (q, none) = refl
current-take_task s p (q, some t) = refl

pub current-pick : (s : Scheduler) → (pick s).0.current ≡ s.current
current-pick s = elim (Option-cases (find_highest s.priority_bitmap)) [
  | inl e ↦ rw (pick-none s e)
  | inr (p, e) ↦ rw (pick-some s p e) (current-take_task s p (pop (s.run_queues p)))
]

current-requeue : (s : Scheduler) (t : TaskId) (p : Priority) → (requeue s t p).current ≡ none
unfolding requeue
current-requeue s t p = refl

pub pick-Picks :
    (s : Scheduler) (ready : Array (List TaskId)) → IsScheduler s ready → Picks ready (pick s)
pick-Picks s ready v = elim (find_highest_lowest s.priority_bitmap v.words) [
  | inl (e, unmarked) ↦
      rw (pick-none s e)
        (inl (refl, λ r hr. waiting-zero (ready r) (sym (v.marked r hr) ∙ unmarked r hr), v))
  | inr (p, e, hp, one, below) ↦
      (let (t, ts, eq) = waiting-one (ready p) (sym (v.marked p hp) ∙ one) in
        rw (pick-some s p e, take_task_oldest s ready v t ts p hp eq)
          (inr (
            p,
            t,
            ts,
            refl,
            hp,
            eq,
            λ r hr. waiting-zero (ready r) (sym (v.marked r (omega arith)) ∙ below r hr),
            taken-IsScheduler s ready v t ts p hp eq,
            refl,
          )))
]

-- Nothing is put back: no task runs, or its slice is not used up.
abbrev pub Continues : Scheduler → Type 0
Continues s = (s.current ≡ none) ⊎ (s.current_priority ≡ none) ⊎ (s.slice_remaining ≢ 0)

pub requeue_expired-Continues : (s : Scheduler) → Continues s → requeue_expired s ≡ s
unfolding requeue_expired
requeue_expired-Continues s c = ground arith

requeue_expired_used_up :
    (s : Scheduler) (t : TaskId) (p : Priority)
    → s.current ≡ some t
    → s.current_priority ≡ some p
    → s.slice_remaining ≡ 0
    → requeue_expired s ≡ requeue s t p
unfolding requeue_expired
requeue_expired_used_up s t p e f g = ground arith

resched-IsScheduler :
    (s : Scheduler) (ready : Array (List TaskId))
    → IsScheduler s ready
    → IsScheduler (record s { need_resched = false }) ready
resched-IsScheduler s ready v = record { words = v.words; queues = v.queues; marked = v.marked }

-- Where no task runs, or the slice of the running task is not used up, `schedule` picks among the
-- waiting tasks.
pub schedule-Picks :
    (s : Scheduler) (ready : Array (List TaskId))
    → IsScheduler s ready
    → Continues s
    → Picks ready (schedule s)
unfolding schedule
schedule-Picks s ready v c =
    rw (requeue_expired-Continues (record s { need_resched = false }) c)
      (pick-Picks (record s { need_resched = false }) ready (resched-IsScheduler s ready v))

left-IsScheduler :
    (s : Scheduler) (ready : Array (List TaskId)) (t : TaskId) (p : Priority)
    → IsScheduler (enqueue s t p).0 ready
    → IsScheduler (requeue s t p) ready
unfolding requeue
left-IsScheduler s ready t p v = record { words = v.words; queues = v.queues; marked = v.marked }

-- A running task whose slice is used up first goes to the end of the list of its priority, where
-- that has room, and then `schedule` picks.
pub schedule_preempts :
    (s : Scheduler) (ready : Array (List TaskId)) (t : TaskId) (p : Priority)
    → IsScheduler s ready
    → s.current ≡ some t
    → s.current_priority ≡ some p
    → s.slice_remaining ≡ 0
    → p < 256
    → length (ready p) < 64
    → Picks (store ready p (ready p ++ t ∷ [])) (schedule s)
unfolding schedule
schedule_preempts s ready t p v e f g hp room =
    let s' : Scheduler = record s { need_resched = false } in
    rw (requeue_expired_used_up s' t p e f g) (
      pick-Picks (requeue s' t p) (store ready p (ready p ++ t ∷ [])) (
        left-IsScheduler s' (store ready p (ready p ++ t ∷ [])) t p
          (enqueue_refines s' ready (resched-IsScheduler s ready v) t p hp room).0))

-- Where 64 tasks wait at the priority of a running task whose slice is used up, `schedule` drops
-- that task: it picks among the other tasks alone, and no task is left running.
pub schedule_drops :
    (s : Scheduler) (ready : Array (List TaskId)) (t : TaskId) (p : Priority)
    → IsScheduler s ready
    → s.current ≡ some t
    → s.current_priority ≡ some p
    → s.slice_remaining ≡ 0
    → p < 256
    → 64 ≤ length (ready p)
    → Picks ready (schedule s) × ((schedule s).0.current ≡ none)
unfolding schedule
schedule_drops s ready t p v e f g hp full =
    let s' : Scheduler = record s { need_resched = false } in
    rw (requeue_expired_used_up s' t p e f g) (
      pick-Picks (requeue s' t p) ready (
          left-IsScheduler s' ready t p
            (enqueue_refuses s' ready (resched-IsScheduler s ready v) t p hp full).0),
      current-pick (requeue s' t p) ∙ current-requeue s' t p,
    )
