-- ===== src/AsyncIpc/Wakes.antt =====
-- No message of a channel of kernel/src/async_ipc.rs waits beside a thread that is not going to be
-- woken.
use native.Mathlib.Decide.{ℕ_discrete}
use star_os_kernel.Prelude.{
  ℕ, ◌+◌, ◌%◌, ◌^◌, ◌≡◌, ◌≢◌, ◌⊎◌, inl, inr, refl, sym, ap, ◌∙◌, true, false, Bool-cases, List, [],
  ◌∷◌, ◌++◌, store, store_self, store_ne, length, leb, if◌then◌else◌,
}
use star_os_kernel.AsyncIpc.{
  channel_capacity, IpcMessage, Channel, new, Place, outside, sending, waking, closing, polling,
  registering, rechecking, waiting, Call, send, poll, close, System, start, go, drain, try_recv,
  push_back, begin, advance, step, run,
}
use star_os_kernel.AsyncIpc.Wakers.{is_in, is_in-append, is_in_last, awaits, drain_wakes_all}

-- Each thread that depends on its waker has it in the list, and where a thread waits though there
-- is a message, another thread is about to wake all.
unfoldable pub IsAwaited : System → Type 0
IsAwaited s =
    ((k : ℕ) → awaits (s.threads k) ≡ true → is_in k s.channel.wakers ≡ true)
    × ((k : ℕ)
        → s.threads k ≡ waiting
        → (s.channel.queue ≡ []) ⊎ ((j : ℕ) × (s.threads j ≡ waking)))

not_waiting : (p : Place) → awaits p ≡ false → p ≡ waiting → ⊥
unfolding awaits
not_waiting p free w = (let e : true ≡ false = sym (ap awaits w) ∙ free in cc)

module _ (s : System) (i : ℕ) (old : s.threads i ≢ waking) (v : IsAwaited s) where
  -- Thread `i`, which is not about to wake the others, goes to place `p` with a new channel.
  moved-IsAwaited :
      (ch : Channel) (p : Place) (sent received : List IpcMessage)
      → ((k : ℕ) → is_in k s.channel.wakers ≡ true → is_in k ch.wakers ≡ true)
      → (awaits p ≡ true → is_in i ch.wakers ≡ true)
      → (p ≡ waiting → ch.queue ≡ [])
      → (s.channel.queue ≡ [] → (ch.queue ≡ []) ⊎ (p ≡ waking))
      → IsAwaited
          (record { channel = ch; threads = store s.threads i p; sent = sent; received = received })
  unfolding IsAwaited
  moved-IsAwaited ch p sent received more mine stops still = (
    λ k h. elim (ℕ_discrete k i) [
      | yes e ↦
          (let here : store s.threads i p k ≡ p =
              ap (store s.threads i p) e ∙ store_self s.threads i p in
            ap (λ (q : ℕ). is_in q ch.wakers) e ∙ mine (sym (ap awaits here) ∙ h))
      | no ne ↦ more k (v.0 k (sym (ap awaits (store_ne s.threads i k p ne)) ∙ h))
    ],
    λ k h. elim (ℕ_discrete k i) [
      | yes e ↦ inl (stops (sym (ap (store s.threads i p) e ∙ store_self s.threads i p) ∙ h))
      | no ne ↦ elim (v.1 k (sym (store_ne s.threads i k p ne) ∙ h)) [
        | inl q ↦ elim (still q) [ inl q' ↦ inl q' | inr w ↦ inr (i, store_self s.threads i p ∙ w) ]
        | inr (j, w) ↦ inr (j, store_ne s.threads i j p (λ e. old (ap s.threads (sym e) ∙ w)) ∙ w)
      ]
    ],
  )

  -- Thread `i` goes to a place where it does not depend on its waker, and the channel keeps its
  -- messages and its wakers.
  went-IsAwaited :
      (ch : Channel) (p : Place)
      → ch.queue ≡ s.channel.queue
      → ch.wakers ≡ s.channel.wakers
      → awaits p ≡ false
      → IsAwaited (go (record s { channel = ch }) i p)
  unfolding go
  went-IsAwaited ch p same same_wakers free =
      moved-IsAwaited ch p s.sent s.received (λ k h. ap (is_in k) same_wakers ∙ h) (λ a. cc)
        (λ w. absurd (not_waiting p free w)) (λ q. inl (same ∙ q))

  try_recv-IsAwaited :
      (p : Place) (q : List IpcMessage)
      → s.channel.queue ≡ q
      → (awaits p ≡ true → is_in i s.channel.wakers ≡ true)
      → p ≢ waking
      → IsAwaited (try_recv s i p q)
  unfolding try_recv go awaits
  try_recv-IsAwaited p [] e mine ne =
      moved-IsAwaited s.channel p s.sent s.received (λ k h. h) mine (λ w. e) (λ q. inl q)
  try_recv-IsAwaited p (msg ∷ rest) e mine ne =
      moved-IsAwaited (record (s.channel) { queue = rest }) outside s.sent
        (s.received ++ (msg ∷ [])) (λ k h. h) (λ a. cc) (λ w. absurd (not_waiting outside refl w))
        (λ q. cc)

  push_back-IsAwaited : (msg : IpcMessage) → IsAwaited (push_back s i msg)
  unfolding push_back go awaits
  push_back-IsAwaited msg = elim (Bool-cases (leb channel_capacity (length s.channel.queue))) [
    | inl full ↦ rw full (went-IsAwaited s.channel outside refl refl refl)
    | inr free ↦ rw free (
        moved-IsAwaited
          (record (s.channel) {
            queue = s.channel.queue ++ (msg ∷ []);
            msg_count = (s.channel.msg_count + 1) % 2 ^ 32;
          })
          waking (s.sent ++ (msg ∷ [])) s.received (λ k h. h) (λ a. cc)
          (λ w. absurd (not_waiting waking refl w)) (λ q. inr refl))
  ]

  begin-IsAwaited : (call : Call) → IsAwaited (begin s i call)
  unfolding begin awaits
  begin-IsAwaited (send msg) =
      went-IsAwaited s.channel (if s.channel.closed then outside else sending msg) refl refl
        (elim (Bool-cases s.channel.closed) [ inl e ↦ rw e refl | inr e ↦ rw e refl ])
  begin-IsAwaited poll = try_recv-IsAwaited polling s.channel.queue refl (λ a. cc) (λ w. cc)
  begin-IsAwaited close =
      went-IsAwaited (record (s.channel) { closed = true }) closing refl refl refl

  registering-IsAwaited : (call : Call) → IsAwaited (advance s i call registering)
  unfolding advance go
  registering-IsAwaited call =
      moved-IsAwaited (record (s.channel) { wakers = s.channel.wakers ++ (i ∷ []) })
        (rechecking false) s.sent s.received (λ k h. is_in-append k i s.channel.wakers h)
        (λ a. is_in_last i s.channel.wakers) (λ w. cc) (λ q. inl q)

drain-IsAwaited : (s : System) (i : ℕ) → IsAwaited s → IsAwaited (drain s i)
unfolding IsAwaited
drain-IsAwaited s i v =
    (let free = drain_wakes_all s i v.0 in
      (
        λ k h. (let e : false ≡ true = sym (free k) ∙ h in cc),
        λ k h. absurd (not_waiting ((drain s i).threads k) (free k) h),
      ))

advance-IsAwaited :
    (s : System) (i : ℕ) (call : Call) (place : Place)
    → s.threads i ≡ place
    → IsAwaited s
    → IsAwaited (advance s i call place)
unfolding advance awaits IsAwaited
advance-IsAwaited s i call outside e v = begin-IsAwaited s i (λ w. cc) v call
advance-IsAwaited s i call (sending msg) e v = push_back-IsAwaited s i (λ w. cc) v msg
advance-IsAwaited s i call waking e v = drain-IsAwaited s i v
advance-IsAwaited s i call closing e v = drain-IsAwaited s i v
advance-IsAwaited s i call polling e v =
    went-IsAwaited s i (λ w. cc) v s.channel (if s.channel.closed then outside else registering)
      refl refl (elim (Bool-cases s.channel.closed) [ inl c ↦ rw c refl | inr c ↦ rw c refl ])
advance-IsAwaited s i call registering e v = registering-IsAwaited s i (λ w. cc) v call
advance-IsAwaited s i call (rechecking true) e v =
    try_recv-IsAwaited s i (λ w. cc) v outside s.channel.queue refl (λ a. cc) (λ w. cc)
advance-IsAwaited s i call (rechecking false) e v =
    try_recv-IsAwaited s i (λ w. cc) v waiting s.channel.queue refl (λ a. v.0 i (ap awaits e))
      (λ w. cc)
advance-IsAwaited s i call waiting e v = v

later-IsAwaited :
    (s : System) (schedule : List (ℕ × Call)) → IsAwaited s → IsAwaited (run s schedule)
unfolding run step
later-IsAwaited s [] v = v
later-IsAwaited s ((i, call) ∷ rest) v =
    later-IsAwaited (advance s i call (s.threads i)) rest
      (advance-IsAwaited s i call (s.threads i) refl v)

start-IsAwaited : IsAwaited start
unfolding IsAwaited start new awaits
start-IsAwaited = (λ k h. cc, λ k h. cc)

wakes_all :
    (s : System) (j : ℕ) (call : Call) (m : ℕ)
    → s.threads j ≡ waking
    → IsAwaited s
    → (step s j call).threads m ≢ waiting
unfolding IsAwaited step advance
wakes_all s j call m w v = rw w (not_waiting ((drain s j).threads m) (drain_wakes_all s j v.0 m))

-- However the steps of the threads interleave, from a new channel on: where a thread waits though the
-- queue holds a message, another thread stands where its next step wakes all, and after that step
-- no thread waits.
pub run_wakes :
    (schedule : List (ℕ × Call)) (k : ℕ)
    → (run start schedule).threads k ≡ waiting
    → ((run start schedule).channel.queue ≡ [])
      ⊎ ((j : ℕ) × ((run start schedule).threads j ≡ waking)
          × ((call : Call) (m : ℕ) → (step (run start schedule) j call).threads m ≢ waiting))
unfolding IsAwaited
run_wakes schedule k h =
    (let s = run start schedule in
      let v : IsAwaited s = later-IsAwaited start schedule start-IsAwaited in
      elim (v.1 k h) [
        | inl e ↦ inl e
        | inr (j, w) ↦ inr (j, w, λ call m. wakes_all s j call m w v)
      ])
