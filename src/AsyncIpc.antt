-- ===== src/AsyncIpc.antt =====
-- kernel/src/async_ipc.rs: a channel that any number of threads use. Each access under a lock and each
-- access of the flag `closed` is one step; between two steps any other thread may run. A waker is
-- the number of its thread; a thread that is woken is polled again, also where it is woken before
-- its poll has returned.
pub mod Fifo
pub mod Wakers
pub mod Wakes
pub mod Stuck
pub mod Close
mod Tests
use star_os_kernel.Prelude.{
  ℕ, zero, suc, ◌+◌, ◌%◌, ◌^◌, Bool, true, false, List, [], ◌∷◌, ◌++◌, Array, store, length, leb,
  if◌then◌else◌,
}
use star_os_kernel.Process.Ids.{TaskId}

-- `CHANNEL_CAPACITY`
abbrev pub channel_capacity : ℕ
channel_capacity = 64

pub record IpcMessage : Type 0 where
  pub sender : TaskId
  pub msg_type : ℕ
  pub payload : List ℕ

pub record Channel : Type 0 where
  pub queue : List IpcMessage
  pub wakers : List ℕ
  pub closed : Bool
  pub msg_count : ℕ

unfoldable pub new : Channel
new = record { queue = []; wakers = []; closed = false; msg_count = 0 }

-- Where a thread stands: outside; in `send` with the message, after the test of `closed`; in `send`
-- after the message went into the queue; in `close` after the store; in `poll` after the first
-- `try_recv`, after the test of `closed`, and after its waker was pushed, woken since or not;
-- outside with a pending future.
pub data Place : Type 0 where
  outside : Place
  sending : IpcMessage → Place
  waking : Place
  closing : Place
  polling : Place
  registering : Place
  rechecking : Bool → Place
  waiting : Place

-- What a thread outside calls.
pub data Call : Type 0 where
  send : IpcMessage → Call
  poll : Call
  close : Call

-- The channel and its threads, with the messages that went into the queue and came out so far.
pub record System : Type 0 where
  pub channel : Channel
  pub threads : Array Place
  pub sent : List IpcMessage
  pub received : List IpcMessage

unfoldable pub start : System
start = record { channel = new; threads = λ i. outside; sent = []; received = [] }

unfoldable pub go : System → ℕ → Place → System
go s i place = record s { threads = store s.threads i place }

-- `w.wake()`
unfoldable pub woken : Place → Place
woken outside = outside
woken (sending msg) = sending msg
woken waking = waking
woken closing = closing
woken polling = polling
woken registering = registering
woken (rechecking was_woken) = rechecking true
woken waiting = outside

-- `for w in wakers.drain(..) { w.wake(); }`
unfoldable pub wake_each : List ℕ → Array Place → Array Place
wake_each [] threads = threads
wake_each (w ∷ wakers) threads = wake_each wakers (store threads w (woken (threads w)))

unfoldable pub drain : System → ℕ → System
drain s i =
    go
      (record s {
        channel = record (s.channel) { wakers = [] };
        threads = wake_each s.channel.wakers s.threads;
      })
      i outside

-- `try_recv` by thread `i`, which goes to `place` where the queue is empty.
unfoldable pub try_recv : System → ℕ → Place → List IpcMessage → System
try_recv s i place [] = go s i place
try_recv s i place (msg ∷ rest) =
    go
      (record s {
        channel = record (s.channel) { queue = rest };
        received = s.received ++ (msg ∷ []);
      })
      i outside

-- The part of `send` under the lock of the queue.
unfoldable pub push_back : System → ℕ → IpcMessage → System
push_back s i msg =
    if leb channel_capacity (length s.channel.queue)
    then go s i outside
    else go
        (record s {
          channel = record (s.channel) {
            queue = s.channel.queue ++ (msg ∷ []);
            msg_count = (s.channel.msg_count + 1) % 2 ^ 32;
          };
          sent = s.sent ++ (msg ∷ []);
        })
        i waking

unfoldable pub begin : System → ℕ → Call → System
begin s i (send msg) = go s i (if s.channel.closed then outside else sending msg)
begin s i poll = try_recv s i polling s.channel.queue
begin s i close = go (record s { channel = record (s.channel) { closed = true } }) i closing

-- The next step of thread `i`, which stands at a place.
unfoldable pub advance : System → ℕ → Call → Place → System
advance s i call outside = begin s i call
advance s i call (sending msg) = push_back s i msg
advance s i call waking = drain s i
advance s i call closing = drain s i
advance s i call polling = go s i (if s.channel.closed then outside else registering)
advance s i call registering =
    go (record s { channel = record (s.channel) { wakers = s.channel.wakers ++ (i ∷ []) } }) i
      (rechecking false)
advance s i call (rechecking was_woken) =
    try_recv s i (if was_woken then outside else waiting) s.channel.queue
advance s i call waiting = s

unfoldable pub step : System → ℕ → Call → System
step s i call = advance s i call (s.threads i)

unfoldable pub run : System → List (ℕ × Call) → System
run s [] = s
run s ((i, call) ∷ rest) = run (step s i call) rest
