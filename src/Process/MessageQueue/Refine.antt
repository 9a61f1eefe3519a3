-- ===== src/Process/MessageQueue/Refine.antt =====
-- The ring of messages behaves as a bounded first-in first-out list.
use native.Mathlib.Decide.{dec_lt}
use star_os_kernel.Prelude.{
  store, lt→ltb, le→not_ltb, ◌%◌, ◌+◌, ◌-◌, ◌<◌, ◌≤◌, ◌≡◌, ◌↔◌, refl, sym, ap, List, [], ◌∷◌, ◌++◌,
  Option, none, some, true, Result, ok, err, length, ltb, if◌then◌else◌, arith,
}
use star_os_kernel.Error.{KernelError, resource_exhausted}
use star_os_kernel.Ring.{IsRing, IsRing-push, IsRing-pop}
use star_os_kernel.Process.MessageQueue.{
  Message, MessageQueue, new, send, receive, len, is_empty, is_full,
}

-- The queue holds the messages `xs`, oldest first.
abbrev pub Represents : MessageQueue → List Message → Type 0
Represents q xs = IsRing 32 q.messages q.head q.tail q.count xs

pub new-Represents : Represents new []
unfolding new
new-Represents = record {
  head_in = omega arith;
  fits = omega arith;
  counted = refl;
  tail_at = refl;
  holds = tt;
}

abbrev pushed : MessageQueue → Message → MessageQueue
pushed q m = record q {
  messages = store q.messages q.tail (some m);
  tail = (q.tail + 1) % 32;
  count = q.count + 1;
}

abbrev popped : MessageQueue → MessageQueue
popped q = record q {
  messages = store q.messages q.head none;
  head = (q.head + 1) % 32;
  count = q.count - 1;
}

send_room : (q : MessageQueue) (m : Message) → q.count < 32 → send q m ≡ (pushed q m, ok tt)
unfolding send
send_room q m room = ground arith

receive_some : (q : MessageQueue) → 0 < q.count → receive q ≡ (popped q, q.messages q.head)
unfolding receive
receive_some q some_left = ground arith

pub send-Represents :
    {q : MessageQueue} {xs : List Message} (m : Message)
    → Represents q xs
    → length xs < 32
    → Represents (send q m).0 (xs ++ m ∷ []) × ((send q m).1 ≡ ok tt)
send-Represents {q} {xs} m r room =
    rw (send_room q m (omega (arith, r.counted))) (IsRing-push 32 m r (omega arith), refl)

pub send_full :
    {q : MessageQueue} {xs : List Message} (m : Message)
    → Represents q xs
    → 32 ≤ length xs
    → send q m ≡ (q, err resource_exhausted)
unfolding send
send_full m r full = ground (arith, r.counted)

pub receive_empty : {q : MessageQueue} → Represents q [] → receive q ≡ (q, none)
unfolding receive
receive_empty r = ground (arith, r.counted)

pub receive-Represents :
    {q : MessageQueue} {x : Message} {xs : List Message}
    → Represents q (x ∷ xs)
    → Represents (receive q).0 xs × ((receive q).1 ≡ some x)
receive-Represents {q} {x} {xs} r =
    rw (receive_some q (omega (arith, r.counted))) (IsRing-pop 32 r, r.holds.0)

-- What a client asks of a queue, and what it sees.
pub data Op : Type 0 where
  sends : Message → Op
  receives : Op

pub data Reply : Type 0 where
  sent : Result (Unit {0}) KernelError → Reply
  received : Option Message → Reply

pub run : MessageQueue → List Op → List Reply
run q [] = []
run q (sends m ∷ ops) = let (q', r) = send q m in sent r ∷ run q' ops
run q (receives ∷ ops) = let (q', r) = receive q in received r ∷ run q' ops

-- The specification: a list of at most 32 messages, oldest first.
pub run_fifo : List Message → List Op → List Reply
run_fifo xs [] = []
run_fifo xs (sends m ∷ ops) =
    if ltb (length xs) 32
    then sent (ok tt) ∷ run_fifo (xs ++ m ∷ []) ops
    else sent (err resource_exhausted) ∷ run_fifo xs ops
run_fifo [] (receives ∷ ops) = received none ∷ run_fifo [] ops
run_fifo (x ∷ xs) (receives ∷ ops) = received (some x) ∷ run_fifo xs ops

-- For every list of calls, a queue that holds `xs` answers each call as the bounded first-in
-- first-out list `xs` does: a send is accepted exactly below 32 messages, and a receive gives the
-- oldest message.
pub run_refines :
    (ops : List Op) (q : MessageQueue) (xs : List Message)
    → Represents q xs
    → run q ops ≡ run_fifo xs ops
unfolding run run_fifo
run_refines [] q xs r = refl
run_refines (sends m ∷ ops) q xs r = elim (dec_lt (length xs) 32) [
  | yes room ↦
      rw ((send-Represents m r room).1, lt→ltb (length xs) 32 room)
        (ap (λ t. sent (ok tt) ∷ t)
          (run_refines ops (send q m).0 (xs ++ m ∷ []) (send-Represents m r room).0))
  | no full ↦
      rw (send_full m r (omega arith), le→not_ltb (length xs) 32 (omega arith))
        (ap (λ t. sent (err resource_exhausted) ∷ t) (run_refines ops q xs r))
]
run_refines (receives ∷ ops) q [] r =
    rw (receive_empty r) (ap (λ t. received none ∷ t) (run_refines ops q [] r))
run_refines (receives ∷ ops) q (x ∷ xs) r =
    rw (receive-Represents r).1
      (ap (λ t. received (some x) ∷ t) (run_refines ops (receive q).0 xs (receive-Represents r).0))

-- What the counters tell a client: the length, and the two tests, of the list that is held.
pub len_refines :
    {q : MessageQueue} (xs : List Message)
    → Represents q xs
    → (len q ≡ length xs)
      × ((is_empty q ≡ true) ↔ (xs ≡ []))
      × ((is_full q ≡ true) ↔ (32 ≤ length xs))
unfolding len is_empty is_full
len_refines [] r =
    (sym r.counted, (λ _. refl, λ _. ground (arith, r.counted)), ground (arith, r.counted))
len_refines (x ∷ xs) r =
    (sym r.counted, (λ e. ground (arith, r.counted), λ e. cc), ground (arith, r.counted))
