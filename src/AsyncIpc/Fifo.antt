-- ===== src/AsyncIpc/Fifo.antt =====
-- The order of the messages of a channel of kernel/src/async_ipc.rs.
use star_os_kernel.Prelude.{
  ℕ, ◌%◌, ◌^◌, ◌≤◌, ◌≡◌, inl, inr, refl, sym, ap, ◌∙◌, Bool-cases, List, [], ◌∷◌, ◌++◌, length,
  length-append, leb, if◌then◌else◌, arith,
}
use mathlib.Core.List.{append_assoc}
use star_os_kernel.AsyncIpc.{
  channel_capacity, IpcMessage, new, Place, outside, sending, waking, closing, polling, registering,
  rechecking, waiting, Call, send, poll, close, System, start, go, drain, try_recv, push_back,
  begin, advance, step, run,
}

-- The queue has room for its messages, and what came out of it, followed by what it holds, is what
-- went into it, in that order.
unfoldable pub InOrder : System → Type 0
InOrder s =
    (s.received ++ s.channel.queue ≡ s.sent)
    × (length s.channel.queue ≤ channel_capacity)
    × (s.channel.msg_count ≡ length s.sent % 2 ^ 32)

try_recv-InOrder :
    (s : System) (i : ℕ) (place : Place) (q : List IpcMessage)
    → s.channel.queue ≡ q
    → InOrder s
    → InOrder (try_recv s i place q)
unfolding InOrder try_recv go
try_recv-InOrder s i place [] e v = v
try_recv-InOrder s i place (msg ∷ rest) e (order, room, count) = (
  append_assoc s.received (msg ∷ []) rest
      ∙ ap (λ (q : List IpcMessage). s.received ++ q) (sym e)
      ∙ order,
  omega (arith, ap length e),
  count,
)

push_back-InOrder :
    (s : System) (i : ℕ) (msg : IpcMessage) → InOrder s → InOrder (push_back s i msg)
unfolding InOrder push_back go
push_back-InOrder s i msg (order, room, count) =
    elim (Bool-cases (leb channel_capacity (length s.channel.queue))) [
      | inl full ↦ rw full (order, room, count)
      | inr free ↦ rw free (
        sym (append_assoc s.received s.channel.queue (msg ∷ []))
            ∙ ap (λ (q : List IpcMessage). q ++ (msg ∷ [])) order,
        ground (arith, length-append s.channel.queue (msg ∷ [])),
        omega (arith, length-append s.sent (msg ∷ [])),
      )
    ]

begin-InOrder : (s : System) (i : ℕ) (call : Call) → InOrder s → InOrder (begin s i call)
unfolding InOrder begin go
begin-InOrder s i (send msg) v = v
begin-InOrder s i poll v = try_recv-InOrder s i polling s.channel.queue refl v
begin-InOrder s i close v = v

advance-InOrder :
    (s : System) (i : ℕ) (call : Call) (place : Place)
    → InOrder s
    → InOrder (advance s i call place)
unfolding InOrder advance go drain
advance-InOrder s i call outside v = begin-InOrder s i call v
advance-InOrder s i call (sending msg) v = push_back-InOrder s i msg v
advance-InOrder s i call waking v = v
advance-InOrder s i call closing v = v
advance-InOrder s i call polling v = v
advance-InOrder s i call registering v = v
advance-InOrder s i call (rechecking was_woken) v =
    try_recv-InOrder s i (if was_woken then outside else waiting) s.channel.queue refl v
advance-InOrder s i call waiting v = v

later-InOrder : (s : System) (schedule : List (ℕ × Call)) → InOrder s → InOrder (run s schedule)
unfolding run step
later-InOrder s [] v = v
later-InOrder s ((i, call) ∷ rest) v =
    later-InOrder (advance s i call (s.threads i)) rest (advance-InOrder s i call (s.threads i) v)

-- However the steps of the threads interleave, from a new channel on: the messages that came out of
-- the queue, followed by those that it holds, are those that went into it, in that order; the queue
-- holds at most 64; and the count of messages is that of the messages that went in, modulo 2 ^ 32.
pub run-InOrder : (schedule : List (ℕ × Call)) → InOrder (run start schedule)
unfolding InOrder start new
run-InOrder schedule = later-InOrder start schedule (refl, omega arith, refl)
