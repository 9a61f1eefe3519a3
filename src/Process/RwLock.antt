-- ===== src/Process/RwLock.antt =====
-- `RwLock` of kernel/src/process/sync.rs, shared by threads. Each atomic access of `read`, of
-- `write` and of the guards' `drop` is one step; between two steps any other thread may run. A
-- turn of a spin loop that changes nothing leaves the thread where it is.
pub mod Counts
pub mod Exclusion
mod Tests
use star_os_kernel.Prelude.{
  ℕ, zero, suc, ◌+◌, ◌-◌, ◌^◌, ◌%◌, Bool, true, false, Option, none, some, List, [], ◌∷◌, leb, ◌==◌,
  if◌then◌else◌, get_elem?, set, replicate,
}

-- The two atomics; the counter is a `usize`.
pub record RwLock : Type 0 where
  pub readers : ℕ
  pub writer : Bool

unfoldable pub new : RwLock
new = record { readers = 0; writer = false }

-- Where a thread stands: outside; in `read` after the first test of `writer`, after `fetch_add`, and
-- before the `fetch_sub` that undoes it; with a read guard; in `write` after it has set `writer`;
-- with a write guard.
pub data Place : Type 0 where
  outside : Place
  entering : Place
  checking : Place
  backing_out : Place
  reading : Place
  draining : Place
  writing : Place

-- What a thread outside calls.
pub data Call : Type 0 where
  read : Call
  write : Call

unfoldable pub fetch_add : RwLock → RwLock
fetch_add l = record l { readers = (l.readers + 1) % 2 ^ 64 }

unfoldable pub fetch_sub : RwLock → RwLock
fetch_sub l = record l { readers = (l.readers + 2 ^ 64 - 1) % 2 ^ 64 }

unfoldable pub begin : Call → RwLock → RwLock × Place
begin read l = (l, if l.writer then outside else entering)
begin write l = if l.writer then (l, outside) else (record l { writer = true }, draining)

-- The next atomic access of a thread. A thread with a guard drops it.
unfoldable pub advance : Call → RwLock → Place → RwLock × Place
unfolding begin
advance call l outside = begin call l
advance call l entering = (fetch_add l, checking)
advance call l checking = (l, if l.writer then backing_out else reading)
advance call l backing_out = (fetch_sub l, outside)
advance call l reading = (fetch_sub l, outside)
advance call l draining = (l, if l.readers == 0 then writing else draining)
advance call l writing = (record l { writer = false }, outside)

-- The lock and the places of all threads.
pub record System : Type 0 where
  pub lock : RwLock
  pub threads : List Place

unfoldable pub start : ℕ → System
start n = record { lock = new; threads = replicate n outside }

unfoldable pub move : System → ℕ → Call → Option Place → System
move s i call none = s
move s i call (some place) =
    let r = advance call s.lock place in record { lock = r.0; threads = set s.threads i r.1 }

-- One step of thread `i`, and a run of the threads in the order of a schedule.
unfoldable pub step : System → ℕ → Call → System
step s i call = move s i call (get_elem? s.threads i)

unfoldable pub run : System → List (ℕ × Call) → System
run s [] = s
run s ((i, call) ∷ rest) = run (step s i call) rest
