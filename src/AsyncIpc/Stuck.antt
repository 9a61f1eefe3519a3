-- ===== src/AsyncIpc/Stuck.antt =====
-- Threads that wait at a closed channel of kernel/src/async_ipc.rs.
use star_os_kernel.Prelude.{
  ℕ, ◌≡◌, ◌≢◌, inl, inr, refl, sym, ap, ◌∙◌, Bool, true, false, Bool-cases, List, [], ◌∷◌, ◌++◌,
  store, store_ne, ◌==◌, if◌then◌else◌,
}
use star_os_kernel.AsyncIpc.{
  IpcMessage, Channel, Place, outside, sending, waking, closing, polling, registering, rechecking,
  waiting, Call, send, poll, close, System, go, try_recv, begin, advance, step, run,
}

-- Neither in `send` nor in `close`.
unfoldable pub receives : Place → Bool
receives outside = true
receives (sending msg) = false
receives waking = false
receives closing = false
receives polling = true
receives registering = true
receives (rechecking was_woken) = true
receives waiting = true

unfoldable pub is_close : Call → Bool
is_close (send msg) = false
is_close poll = false
is_close close = true

abbrev pub NoClose : List (ℕ × Call) → Type 0
NoClose [] = Unit {0}
NoClose ((k, call) ∷ rest) = (is_close call ≡ false) × NoClose rest

-- The channel is closed, no thread is in `send` or `close`, and thread `i` waits.
unfoldable pub IsStuck : System → ℕ → Type 0
IsStuck s i =
    (s.channel.closed ≡ true) × (s.threads i ≡ waiting) × ((k : ℕ) → receives (s.threads k) ≡ true)

moved-IsStuck :
    (s : System) (i k : ℕ) (ch : Channel) (p : Place) (sent received : List IpcMessage)
    → IsStuck s i
    → s.threads k ≢ waiting
    → ch.closed ≡ true
    → receives p ≡ true
    → IsStuck
        (record { channel = ch; threads = store s.threads k p; sent = sent; received = received })
        i
unfolding IsStuck
moved-IsStuck s i k ch p sent received (closed, waits, all) other still quiet = (
  still,
  store_ne s.threads k i p (λ e. other (ap s.threads (sym e) ∙ waits)) ∙ waits,
  λ m. elim (Bool-cases (m == k)) [ inl e ↦ rw e quiet | inr e ↦ rw e (all m) ],
)

try_recv-IsStuck :
    (s : System) (i k : ℕ) (p : Place) (q : List IpcMessage)
    → IsStuck s i
    → s.threads k ≢ waiting
    → receives p ≡ true
    → IsStuck (try_recv s k p q) i
unfolding try_recv go IsStuck receives
try_recv-IsStuck s i k p [] v other quiet =
    moved-IsStuck s i k s.channel p s.sent s.received v other v.0 quiet
try_recv-IsStuck s i k p (msg ∷ rest) v other quiet =
    moved-IsStuck s i k (record (s.channel) { queue = rest }) outside s.sent
      (s.received ++ (msg ∷ [])) v other v.0 refl

begin-IsStuck :
    (s : System) (i k : ℕ) (call : Call)
    → IsStuck s i
    → s.threads k ≢ waiting
    → is_close call ≡ false
    → IsStuck (begin s k call) i
unfolding begin go IsStuck receives is_close
begin-IsStuck s i k (send msg) v other quiet =
    moved-IsStuck s i k s.channel (if s.channel.closed then outside else sending msg) s.sent
      s.received v other v.0 (ap (λ (c : Bool). receives (if c then outside else sending msg)) v.0)
begin-IsStuck s i k poll v other quiet = try_recv-IsStuck s i k polling s.channel.queue v other refl
begin-IsStuck s i k close v other quiet = cc

advance-IsStuck :
    (s : System) (i k : ℕ) (call : Call) (place : Place)
    → s.threads k ≡ place
    → IsStuck s i
    → is_close call ≡ false
    → IsStuck (advance s k call place) i
unfolding advance go IsStuck receives
advance-IsStuck s i k call outside e v quiet = begin-IsStuck s i k call v (λ w. cc) quiet
advance-IsStuck s i k call (sending msg) e v quiet = (let f = sym (ap receives e) ∙ v.2 k in cc)
advance-IsStuck s i k call waking e v quiet = (let f = sym (ap receives e) ∙ v.2 k in cc)
advance-IsStuck s i k call closing e v quiet = (let f = sym (ap receives e) ∙ v.2 k in cc)
advance-IsStuck s i k call polling e v quiet =
    moved-IsStuck s i k s.channel (if s.channel.closed then outside else registering) s.sent
      s.received v (λ w. cc) v.0
      (ap (λ (c : Bool). receives (if c then outside else registering)) v.0)
advance-IsStuck s i k call registering e v quiet =
    moved-IsStuck s i k (record (s.channel) { wakers = s.channel.wakers ++ (k ∷ []) })
      (rechecking false) s.sent s.received v (λ w. cc) v.0 refl
advance-IsStuck s i k call (rechecking true) e v quiet =
    try_recv-IsStuck s i k outside s.channel.queue v (λ w. cc) refl
advance-IsStuck s i k call (rechecking false) e v quiet =
    try_recv-IsStuck s i k waiting s.channel.queue v (λ w. cc) refl
advance-IsStuck s i k call waiting e v quiet = v

pub later-IsStuck :
    (s : System) (i : ℕ) (schedule : List (ℕ × Call))
    → IsStuck s i
    → NoClose schedule
    → IsStuck (run s schedule) i
unfolding run step
later-IsStuck s i [] v quiet = v
later-IsStuck s i ((k, call) ∷ rest) v quiet =
    later-IsStuck (advance s k call (s.threads k)) i rest
      (advance-IsStuck s i k call (s.threads k) refl v quiet.0) quiet.1
