-- ===== src/Process/RunQueue/Fifo.antt =====
-- Without removals a run queue is a bounded first-in first-out list.
use star_os_kernel.Prelude.{
  ◌+◌, ◌-◌, ◌%◌, ◌<◌, ◌≤◌, ◌≡◌, refl, List, [], ◌∷◌, ◌++◌, none, some, store, ok, err, length,
  arith,
}
use star_os_kernel.Error.{process, too_many_processes}
use star_os_kernel.Ring.{IsRing, IsRing-push, IsRing-pop}
use star_os_kernel.Process.Ids.{TaskId}
use star_os_kernel.Process.RunQueue.{RunQueue, new, push, pop}

-- The queue holds the tasks `ts`, the longest waiting first.
abbrev pub Represents : RunQueue → List TaskId → Type 0
Represents q ts = IsRing 64 q.tasks q.head q.tail q.count ts

pub new-Represents : Represents new []
unfolding new
new-Represents = record {
  head_in = omega arith;
  fits = omega arith;
  counted = refl;
  tail_at = refl;
  holds = tt;
}

abbrev pub pushed : RunQueue → TaskId → RunQueue
pushed q t = record q {
  tasks = store q.tasks q.tail (some t);
  tail = (q.tail + 1) % 64;
  count = q.count + 1;
}

abbrev pub popped : RunQueue → RunQueue
popped q = record q {
  tasks = store q.tasks q.head none;
  head = (q.head + 1) % 64;
  count = q.count - 1;
}

pub push_room : (q : RunQueue) (t : TaskId) → q.count < 64 → push q t ≡ (pushed q t, ok tt)
unfolding push
push_room q t room = ground arith

pub push_full :
    (q : RunQueue) (t : TaskId) → 64 ≤ q.count → push q t ≡ (q, err (process too_many_processes))
unfolding push
push_full q t full = ground arith

pub pop_count : (q : RunQueue) → 0 < q.count → pop q ≡ (popped q, q.tasks q.head)
unfolding pop
pop_count q waiting = ground arith

pub pop_zero : (q : RunQueue) → q.count ≡ 0 → pop q ≡ (q, none)
unfolding pop
pop_zero q e = rw e

pub push-Represents :
    {q : RunQueue} {ts : List TaskId} (t : TaskId)
    → Represents q ts
    → length ts < 64
    → Represents (push q t).0 (ts ++ t ∷ []) × ((push q t).1 ≡ ok tt)
push-Represents {q} t r room =
    rw (push_room q t (omega (arith, r.counted))) (IsRing-push 64 t r (omega arith), refl)

pub pop-Represents :
    {q : RunQueue} {t : TaskId} {ts : List TaskId}
    → Represents q (t ∷ ts)
    → Represents (pop q).0 ts × ((pop q).1 ≡ some t)
pop-Represents {q} r = rw (pop_count q (omega (arith, r.counted))) (IsRing-pop 64 r, r.holds.0)
