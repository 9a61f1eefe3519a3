-- ===== src/Process/Semaphore.antt =====
-- `Semaphore` of kernel/src/process/sync.rs, shared by threads. Each atomic access of `wait`, of
-- `try_wait` and of `signal` is one step; between two steps any other thread may run. A thread whose
-- exchange fails, or that has to wait, stands outside again: `wait` and `signal` then start anew.
pub mod Count
mod Tests
use star_os_kernel.Prelude.{
  ℕ, suc, ◌+◌, ◌-◌, ◌%◌, ◌^◌, Bool, true, false, not, ◌&&◌, ◌||◌, List, [], ◌∷◌, Array, store, ltb,
  leb, ◌==◌, if◌then◌else◌,
}

pub record Semaphore : Type 0 where
  pub count : ℕ
  pub max : ℕ

unfoldable pub new : ℕ → ℕ → Semaphore
new initial max = record { count = initial; max = max }

-- Where a thread stands: outside; in `wait` or `try_wait`, and in `signal`, behind the load, with the
-- count that it loaded. The exchange of `wait` is weak, that of `try_wait` is not.
pub data Place : Type 0 where
  outside : Place
  taking : Bool → ℕ → Place
  giving : ℕ → Place

pub data Call : Type 0 where
  wait : Call
  try_wait : Call
  signal : Call

-- The semaphore and its threads, with the numbers of successful calls of `wait` or `try_wait` and of
-- `signal` so far.
pub record System : Type 0 where
  pub semaphore : Semaphore
  pub threads : Array Place
  pub taken : ℕ
  pub given : ℕ

unfoldable pub start : ℕ → ℕ → System
start initial max = record {
  semaphore = new initial max;
  threads = λ i. outside;
  taken = 0;
  given = 0;
}

unfoldable pub go : System → ℕ → Place → System
go s i place = record s { threads = store s.threads i place }

unfoldable pub set_count : System → ℕ → System
set_count s n = record s { semaphore = record (s.semaphore) { count = n } }

-- The load.
unfoldable pub begin : System → ℕ → Call → System
begin s i wait = go s i (if ltb 0 s.semaphore.count then taking true s.semaphore.count else outside)
begin s i try_wait =
    go s i (if ltb 0 s.semaphore.count then taking false s.semaphore.count else outside)
begin s i signal =
    go s i (if leb s.semaphore.max s.semaphore.count then outside else giving s.semaphore.count)

-- The next step of thread `i`, at a place; `spurious` says that a weak exchange fails though the
-- count is the expected one.
unfoldable pub advance : System → ℕ → Call → Bool → Place → System
advance s i call spurious outside = begin s i call
advance s i call spurious (taking weak current) =
    if (s.semaphore.count == current) && not (weak && spurious)
    then record (go (set_count s (current - 1)) i outside) { taken = s.taken + 1 }
    else go s i outside
advance s i call spurious (giving current) =
    if (s.semaphore.count == current) && not spurious
    then record (go (set_count s ((current + 1) % 2 ^ 64)) i outside) { given = s.given + 1 }
    else go s i outside

pub record Turn : Type 0 where
  pub thread : ℕ
  pub call : Call
  pub spurious : Bool

unfoldable pub step : System → Turn → System
step s t = advance s t.thread t.call t.spurious (s.threads t.thread)

unfoldable pub run : System → List Turn → System
run s [] = s
run s (t ∷ rest) = run (step s t) rest
