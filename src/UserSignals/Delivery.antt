-- ===== src/UserSignals/Delivery.antt =====
-- Which signal `dequeue_signal` of kernel/src/signals.rs delivers, and signal frames.
use native.Mathlib.Decide.{ℕ_discrete}
use star_os_kernel.Prelude.{
  ℕ, ◌-◌, ◌^◌, ◌<◌, ◌≡◌, ◌≢◌, ◌⊎◌, inl, inr, refl, ap, ◌∙◌, min, max, true, false, Option, none,
  some, store, store_self, ok, err, ◌==◌, if◌then◌else◌, bit_or, arith,
}
use star_os_kernel.Words.{bit, complement, clear_bit, trailing_zeros}
use star_os_kernel.Words.Bits.{
  bit-lt, bit-zero, bit-bit_and, bit-bit_or, bit-complement, bit-pow, bit-clear_bit, bit_and-lt,
}
use star_os_kernel.Words.Scan.{trailing_zeros-lt, bit-trailing_zeros, bit_below_zeros}
use star_os_kernel.UserSignals.{
  SavedContext, SignalState, SignalStorage, max_tasks, uncatchable_mask, sigkill, sigstop,
  get_state, deliverable, take_signal, dequeue_from, dequeue_signal, is_signal, frame_for, frame_in,
  setup_signal_frame, restore_for, restore_in, restore_signal_frame, sigreturn_trampoline,
}

-- Pending, and not blocked or one of the two signals that cannot be blocked.
abbrev pub IsDeliverable : SignalState → ℕ → Type 0
IsDeliverable state j =
    (bit state.pending j ≡ 1) × ((bit state.blocked j ≡ 0) ⊎ ((j ≡ sigkill) ⊎ (j ≡ sigstop)))

abbrev AreWords : SignalState → Type 0
AreWords state = (state.pending < 2 ^ 32) × (state.blocked < 2 ^ 32)

bit-uncatchable_mask :
    (j : ℕ) → bit uncatchable_mask j ≡ (if j == 9 then 1 else if j == 19 then 1 else 0)
unfolding uncatchable_mask
bit-uncatchable_mask j = ground (arith, bit-bit_or j (2 ^ 9) (2 ^ 19), bit-pow 9 j, bit-pow 19 j)

bit-deliverable :
    (state : SignalState) (j : ℕ)
    → state.blocked < 2 ^ 32
    → j < 32
    → bit (deliverable state) j
      ≡ min
          (bit state.pending j)
          (max (1 - bit state.blocked j) (if j == 9 then 1 else if j == 19 then 1 else 0))
unfolding deliverable
bit-deliverable state j word hj = omega (
  arith,
  bit-bit_and j state.pending (bit_or (complement 32 state.blocked) uncatchable_mask),
  bit-bit_or j (complement 32 state.blocked) uncatchable_mask,
  bit-complement 32 state.blocked j word hj,
  bit-uncatchable_mask j,
)

deliverable_iff :
    (state : SignalState) (j : ℕ)
    → state.blocked < 2 ^ 32
    → j < 32
    → (bit (deliverable state) j ≡ 1 → IsDeliverable state j)
      × (IsDeliverable state j → bit (deliverable state) j ≡ 1)
deliverable_iff state j word hj =
    ground (arith, bit-deliverable state j word hj, bit-lt state.pending j, bit-lt state.blocked j)

state_of :
    (table : SignalStorage) (task_id : ℕ)
    → task_id < max_tasks
    → get_state table task_id ≡ some (table task_id)
unfolding get_state
state_of table task_id h = ground arith

-- The state after the delivery of a signal.
abbrev pub delivered : SignalState → ℕ → SignalState
delivered state sig = record state { pending = clear_bit 32 state.pending sig }

-- The lowest deliverable signal.
abbrev pub IsLowest : SignalState → ℕ → Type 0
IsLowest state sig =
    (sig < 32) × IsDeliverable state sig × ((j : ℕ) → j < sig → ¬ IsDeliverable state j)

no_bit : (state : SignalState) (j : ℕ) → deliverable state ≡ 0 → bit (deliverable state) j ≡ 0
no_bit state j z = ap (λ (w : ℕ). bit w j) z ∙ bit-zero j

deliverable-lt : (state : SignalState) → AreWords state → deliverable state < 2 ^ 32
unfolding deliverable
deliverable-lt state words = bit_and-lt 32 state.pending _ words.0

take_signal-none : (state : SignalState) → deliverable state ≡ 0 → take_signal state ≡ (state, none)
unfolding take_signal
take_signal-none state z =
    (let test : (deliverable state == 0) ≡ true = ground arith in rw test refl)

take_signal-some :
    (state : SignalState)
    → deliverable state ≢ 0
    → take_signal state ≡ (
      delivered state (trailing_zeros 32 (deliverable state)),
      some (trailing_zeros 32 (deliverable state)),
    )
unfolding take_signal
take_signal-some state nz =
    (let test : (deliverable state == 0) ≡ false = ground arith in rw test refl)

lowest :
    (state : SignalState)
    → AreWords state
    → deliverable state ≢ 0
    → IsLowest state (trailing_zeros 32 (deliverable state))
lowest state words nz =
    (let sig : ℕ = trailing_zeros 32 (deliverable state) in
      let small : sig < 32 =
        trailing_zeros-lt 32 (deliverable state) nz (deliverable-lt state words) in
      (
        small,
        (deliverable_iff state sig words.1 small).0
            (bit-trailing_zeros 32 (deliverable state) small),
        λ j hj d. absurd (
            omega (
              arith,
              bit_below_zeros 32 (deliverable state) j hj,
              (deliverable_iff state j words.1 (omega arith)).1 d,
            )),
      ))

dequeue_in :
    (table : SignalStorage) (task_id : ℕ) (state : SignalState) (answer : Option ℕ)
    → task_id < max_tasks
    → take_signal (table task_id) ≡ (state, answer)
    → ((dequeue_signal table task_id).1 ≡ answer)
      × ((dequeue_signal table task_id).0 task_id ≡ state)
unfolding dequeue_signal dequeue_from
dequeue_in table task_id state answer h e =
    rw (state_of table task_id h, e) (refl, store_self table task_id state)

-- Of a task in the table, whose words have 32 bits, `dequeue_signal` gives nothing exactly where no
-- signal is deliverable: pending, and not blocked or one of SIGKILL and SIGSTOP. Otherwise it gives
-- the deliverable signal of the lowest number, and takes just this one from the pending signals.
pub dequeue_signal-cases :
    (table : SignalStorage) (task_id : ℕ)
    → task_id < max_tasks
    → (table task_id).pending < 2 ^ 32
    → (table task_id).blocked < 2 ^ 32
    → (((dequeue_signal table task_id).1 ≡ none)
        × ((dequeue_signal table task_id).0 task_id ≡ table task_id)
        × ((j : ℕ) → j < 32 → ¬ IsDeliverable (table task_id) j))
      ⊎ ((sig : ℕ) × ((dequeue_signal table task_id).1 ≡ some sig)
          × IsLowest (table task_id) sig
          × ((dequeue_signal table task_id).0 task_id ≡ delivered (table task_id) sig)
          × ((j : ℕ)
              → j < 32
              → bit (delivered (table task_id) sig).pending j
                ≡ (if j == sig then 0 else bit (table task_id).pending j)))
dequeue_signal-cases table task_id h pw bw =
    (let state : SignalState = table task_id in
      let sig : ℕ = trailing_zeros 32 (deliverable state) in
      elim (ℕ_discrete (deliverable state) 0) [
        | yes z ↦
            (let e = dequeue_in table task_id state none h (take_signal-none state z) in
              inl (
                e.0,
                e.1,
                λ j hj d.
                    absurd (omega (arith, (deliverable_iff state j bw hj).1 d, no_bit state j z)),
              ))
        | no nz ↦
            (let e =
                dequeue_in table task_id (delivered state sig) (some sig) h
                  (take_signal-some state nz) in
              let low : IsLowest state sig = lowest state (pw, bw) nz in
              inr (sig, e.0, low, e.1, λ j hj. bit-clear_bit 32 state.pending sig j low.0 hj))
      ])

restore-some :
    (table : SignalStorage) (task_id : ℕ) (left saved : SavedContext)
    → task_id < max_tasks
    → (table task_id).saved_ctx ≡ some saved
    → restore_signal_frame table task_id left
      ≡ (store table task_id (record (table task_id) { saved_ctx = none }), saved, ok tt)
unfolding restore_signal_frame restore_for restore_in
restore-some table task_id left saved h e = rw (state_of table task_id h, e) refl

restore-none :
    (table : SignalStorage) (task_id : ℕ) (left : SavedContext)
    → task_id < max_tasks
    → (table task_id).saved_ctx ≡ none
    → restore_signal_frame table task_id left ≡ (table, left, err "no saved signal frame")
unfolding restore_signal_frame restore_for restore_in
restore-none table task_id left h e = rw (state_of table task_id h, e) refl

-- A signal frame for a registered handler: the task continues in the handler, with the number of the
-- signal as its argument and its own stack, and returns to the trampoline. The return restores the
-- registers that the task had, whatever the handler leaves in them, and just once.
pub restore_signal_frame-setup_signal_frame :
    (table : SignalStorage) (task_id signal handler : ℕ) (ctx left : SavedContext)
    → task_id < max_tasks
    → is_signal signal ≡ true
    → (table task_id).handlers signal ≡ some handler
    → (table' table'' : SignalStorage) × (entered : SavedContext) × (setup_signal_frame table
          task_id signal ctx
        ≡ (table', entered, ok tt))
      × (entered.pc ≡ handler)
      × (entered.x 0 ≡ signal)
      × (entered.x 30 ≡ sigreturn_trampoline)
      × (entered.sp ≡ ctx.sp)
      × (restore_signal_frame table' task_id left ≡ (table'', ctx, ok tt))
      × ((restore_signal_frame table'' task_id left).2 ≡ err "no saved signal frame")
unfolding setup_signal_frame frame_for frame_in
restore_signal_frame-setup_signal_frame table task_id signal handler ctx left h sig e =
    (let t' : SignalStorage =
        store table task_id (record (table task_id) { saved_ctx = some ctx }) in
      let t'' : SignalStorage = store t' task_id (record (t' task_id) { saved_ctx = none }) in
      (
        t',
        t'',
        record ctx { x = store (store ctx.x 0 signal) 30 sigreturn_trampoline; pc = handler },
        rw (sig, state_of table task_id h, e) refl,
        refl,
        refl,
        refl,
        refl,
        restore-some t' task_id left ctx h
            (ap (λ (s : SignalState). s.saved_ctx) (store_self table task_id _)),
        ap (λ r. r.2)
            (restore-none t'' task_id left h
              (ap (λ (s : SignalState). s.saved_ctx) (store_self t' task_id _))),
      ))
