-- ===== src/UserSignals.antt =====
-- kernel/src/signals.rs: signals 1 to 31 of user tasks, with one state for each of 256 tasks. The
-- loop of `dequeue_signal` succeeds in its first turn where no other core changes the word.
pub mod Delivery
mod Tests
use star_os_kernel.Prelude.{
  ℕ, ◌+◌, ◌-◌, ◌^◌, Bool, true, false, not, ◌||◌, Option, none, some, String, Array, store, Result,
  ok, err, bit_and, bit_or, ltb, leb, ◌==◌, if◌then◌else◌,
}
use star_os_kernel.Words.{complement, set_bit, clear_bit, trailing_zeros}

abbrev pub sigkill : ℕ
sigkill = 9

abbrev pub sigstop : ℕ
sigstop = 19

abbrev pub max_tasks : ℕ
max_tasks = 256

unfoldable pub uncatchable_mask : ℕ
uncatchable_mask = bit_or (2 ^ sigkill) (2 ^ sigstop)

pub record SavedContext : Type 0 where
  pub x : Array ℕ
  pub sp : ℕ
  pub pc : ℕ
  pub pstate : ℕ

pub record SignalState : Type 0 where
  pub pending : ℕ
  pub blocked : ℕ
  pub handlers : Array (Option ℕ)
  pub saved_ctx : Option SavedContext

unfoldable pub new : SignalState
new = record { pending = 0; blocked = 0; handlers = λ i. none; saved_ctx = none }

-- The states of all tasks.
abbrev pub SignalStorage : Type 0
SignalStorage = Array SignalState

unfoldable pub get_state : SignalStorage → ℕ → Option SignalState
get_state table task_id = if leb max_tasks task_id then none else some (table task_id)

unfoldable pub is_signal : ℕ → Bool
is_signal signal = not ((signal == 0) || ltb 31 signal)

-- What an operation does with the state that `get_state` returns.
unfoldable pub update :
    SignalStorage
    → ℕ
    → (SignalState → SignalState)
    → Option SignalState
    → SignalStorage × Result (Unit {0}) String
update table task_id change none = (table, err "invalid task_id")
update table task_id change (some state) = (store table task_id (change state), ok tt)

unfoldable pub send_signal : SignalStorage → ℕ → ℕ → SignalStorage × Result (Unit {0}) String
unfolding update
send_signal table task_id signal =
    if is_signal signal
    then update table task_id (λ state. record state { pending = set_bit state.pending signal })
        (get_state table task_id)
    else (table, err "invalid signal number")

-- `pending & (!blocked | UNCATCHABLE_MASK)`
unfoldable pub deliverable : SignalState → ℕ
deliverable state = bit_and state.pending (bit_or (complement 32 state.blocked) uncatchable_mask)

unfoldable pub take_signal : SignalState → SignalState × Option ℕ
take_signal state =
    let sig = trailing_zeros 32 (deliverable state) in
    if deliverable state == 0
    then (state, none)
    else (record state { pending = clear_bit 32 state.pending sig }, some sig)

unfoldable pub dequeue_from : SignalStorage → ℕ → Option SignalState → SignalStorage × Option ℕ
dequeue_from table task_id none = (table, none)
dequeue_from table task_id (some state) =
    (store table task_id (take_signal state).0, (take_signal state).1)

unfoldable pub dequeue_signal : SignalStorage → ℕ → SignalStorage × Option ℕ
dequeue_signal table task_id = dequeue_from table task_id (get_state table task_id)

unfoldable pub set_handler : SignalStorage → ℕ → ℕ → ℕ → SignalStorage × Result (Unit {0}) String
unfolding update
set_handler table task_id signal handler_addr =
    if not (is_signal signal)
    then (table, err "invalid signal number")
    else if not (bit_and (2 ^ signal) uncatchable_mask == 0)
    then (table, err "cannot catch SIGKILL or SIGSTOP")
    else update table task_id
        (λ state. record state { handlers = store state.handlers signal (some handler_addr) })
        (get_state table task_id)

unfoldable pub set_signal_mask : SignalStorage → ℕ → ℕ → SignalStorage × Result (Unit {0}) String
unfolding update
set_signal_mask table task_id mask =
    update table task_id
      (λ state. record state { blocked = bit_and mask (complement 32 uncatchable_mask) })
      (get_state table task_id)

-- 0xFFFF_FFFF_0000
abbrev pub sigreturn_trampoline : ℕ
sigreturn_trampoline = 281474976645120

unfoldable pub frame_in :
    SignalStorage
    → ℕ
    → ℕ
    → SavedContext
    → SignalState
    → Option ℕ
    → SignalStorage × SavedContext × Result (Unit {0}) String
frame_in table task_id signal ctx state none = (table, ctx, err "no handler registered")
frame_in table task_id signal ctx state (some handler) = (
  store table task_id (record state { saved_ctx = some ctx }),
  record ctx { x = store (store ctx.x 0 signal) 30 sigreturn_trampoline; pc = handler },
  ok tt,
)

unfoldable pub frame_for :
    SignalStorage
    → ℕ
    → ℕ
    → SavedContext
    → Option SignalState
    → SignalStorage × SavedContext × Result (Unit {0}) String
frame_for table task_id signal ctx none = (table, ctx, err "invalid task_id")
frame_for table task_id signal ctx (some state) =
    frame_in table task_id signal ctx state (state.handlers signal)

unfoldable pub setup_signal_frame :
    SignalStorage → ℕ → ℕ → SavedContext → SignalStorage × SavedContext × Result (Unit {0}) String
setup_signal_frame table task_id signal ctx =
    if is_signal signal
    then frame_for table task_id signal ctx (get_state table task_id)
    else (table, ctx, err "invalid signal number")

unfoldable pub restore_in :
    SignalStorage
    → ℕ
    → SavedContext
    → SignalState
    → Option SavedContext
    → SignalStorage × SavedContext × Result (Unit {0}) String
restore_in table task_id ctx state none = (table, ctx, err "no saved signal frame")
restore_in table task_id ctx state (some saved) =
    (store table task_id (record state { saved_ctx = none }), saved, ok tt)

unfoldable pub restore_for :
    SignalStorage
    → ℕ
    → SavedContext
    → Option SignalState
    → SignalStorage × SavedContext × Result (Unit {0}) String
restore_for table task_id ctx none = (table, ctx, err "invalid task_id")
restore_for table task_id ctx (some state) = restore_in table task_id ctx state state.saved_ctx

unfoldable pub restore_signal_frame :
    SignalStorage → ℕ → SavedContext → SignalStorage × SavedContext × Result (Unit {0}) String
restore_signal_frame table task_id ctx = restore_for table task_id ctx (get_state table task_id)
