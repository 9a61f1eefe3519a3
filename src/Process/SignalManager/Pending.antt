-- ===== src/Process/SignalManager/Pending.antt =====
-- Which signals are delivered, and in which order.
use native.Mathlib.Decide.{ℕ_discrete, dec_lt}
use star_os_kernel.Prelude.{
  ap, ◌∙◌, ℕ, zero, suc, ◌-◌, ◌^◌, ◌<◌, ◌≤◌, ◌≡◌, ◌≢◌, ◌⊎◌, inl, inr, refl, none, some, min, ◌==◌,
  if◌then◌else◌, arith,
}
use star_os_kernel.Words.{bit, complement, trailing_zeros}
use star_os_kernel.Words.Bits.{
  bit-lt, bit-zero, bit-bit_and, bit-complement, bit_and-lt, bit-set_bit, bit-clear_bit, set_bit-lt,
  clear_bit-lt,
}
use star_os_kernel.Words.Scan.{trailing_zeros-lt, bit-trailing_zeros, bit_below_zeros}
use star_os_kernel.Process.SignalManager.{
  Signal, as_u8, from_u8, SignalManager, send_signal, deliverable, get_pending, clear_signal,
  block_signal, unblock_signal, new,
}

as_u8-lt : (s : Signal) → (0 < as_u8 s) × (as_u8 s < 9)
as_u8-lt Signal.kill = omega arith
as_u8-lt s = omega arith

from_u8-as_u8 : (s : Signal) → from_u8 (as_u8 s) ≡ some s
unfolding from_u8
from_u8-as_u8 Signal.kill = refl
from_u8-as_u8 s = refl

from_u8-some : (v : ℕ) → 0 < v → v < 9 → (s : Signal) × (from_u8 v ≡ some s) × (as_u8 s ≡ v)
unfolding from_u8
from_u8-some zero lo hi = absurd (omega arith)
from_u8-some (suc zero) lo hi = (Signal.kill, refl, refl)
from_u8-some (suc (suc zero)) lo hi = (Signal.interrupt, refl, refl)
from_u8-some (suc (suc (suc zero))) lo hi = (Signal.terminate, refl, refl)
from_u8-some (suc (suc (suc (suc zero)))) lo hi = (Signal.stop, refl, refl)
from_u8-some (suc (suc (suc (suc (suc zero))))) lo hi = (Signal.continue, refl, refl)
from_u8-some (suc (suc (suc (suc (suc (suc zero)))))) lo hi = (Signal.child, refl, refl)
from_u8-some (suc (suc (suc (suc (suc (suc (suc zero))))))) lo hi = (Signal.user1, refl, refl)
from_u8-some (suc (suc (suc (suc (suc (suc (suc (suc zero)))))))) lo hi = (Signal.user2, refl, refl)
from_u8-some (suc (suc (suc (suc (suc (suc (suc (suc (suc n))))))))) lo hi = absurd (omega arith)

module _ {Handler : Type 0} where
  -- The words are words, and only the bits of the eight signals are pending.
  pub record IsValid (m : SignalManager Handler) : Type 0 where
    pub pending_word : m.pending < 2 ^ 64
    pub blocked_word : m.blocked < 2 ^ 64
    pub known : (j : ℕ) → j < 64 → bit m.pending j ≡ 1 → (0 < j) × (j < 9)

  -- A signal that is pending and not blocked.
  abbrev pub IsDeliverable : SignalManager Handler → Signal → Type 0
  IsDeliverable m s = (bit m.pending (as_u8 s) ≡ 1) × (bit m.blocked (as_u8 s) ≡ 0)

  bit-deliverable :
      (m : SignalManager Handler) (j : ℕ)
      → m.blocked < 2 ^ 64
      → j < 64
      → bit (deliverable m) j ≡ min (bit m.pending j) (1 - bit m.blocked j)
  unfolding deliverable
  bit-deliverable m j word hj = omega (
    arith,
    bit-bit_and j m.pending (complement 64 m.blocked),
    bit-complement 64 m.blocked j word hj,
  )

  deliverable-lt : (m : SignalManager Handler) → IsValid m → deliverable m < 2 ^ 64
  unfolding deliverable
  deliverable-lt m v = bit_and-lt 64 m.pending (complement 64 m.blocked) v.pending_word

  lowest-IsDeliverable :
      (m : SignalManager Handler)
      → IsValid m
      → deliverable m ≢ 0
      → let k = trailing_zeros 64 (deliverable m) in
        (k < 64) × (bit m.pending k ≡ 1) × (bit m.blocked k ≡ 0)
  lowest-IsDeliverable m v nz =
      let k = trailing_zeros 64 (deliverable m) in
      let word : deliverable m < 2 ^ 64 = deliverable-lt m v in
      let hk : k < 64 = trailing_zeros-lt 64 (deliverable m) nz word in
      let one : bit (deliverable m) k ≡ 1 = bit-trailing_zeros 64 (deliverable m) hk in
      let b : bit (deliverable m) k ≡ min (bit m.pending k) (1 - bit m.blocked k) =
        bit-deliverable m k v.blocked_word hk in
      (hk, omega (arith, bit-lt m.pending k), omega (arith, bit-lt m.pending k, bit-lt m.blocked k))

  -- A deliverable signal is a set bit of `pending & !blocked`.
  IsDeliverable-bit :
      (m : SignalManager Handler) (s : Signal)
      → IsValid m
      → IsDeliverable m s
      → bit (deliverable m) (as_u8 s) ≡ 1
  IsDeliverable-bit m s v d =
      omega
        (arith, bit-deliverable m (as_u8 s) v.blocked_word (omega (arith, as_u8-lt s)), d.0, d.1)

  get_pending_zero : (m : SignalManager Handler) → deliverable m ≡ 0 → get_pending m ≡ none
  unfolding get_pending
  get_pending_zero m e = rw e

  get_pending_bit :
      (m : SignalManager Handler)
      → deliverable m ≢ 0
      → trailing_zeros 64 (deliverable m) < 64
      → get_pending m ≡ from_u8 (trailing_zeros 64 (deliverable m))
  unfolding get_pending
  get_pending_bit m nz hk = ground arith

  lowest_known :
      (m : SignalManager Handler)
      → IsValid m
      → deliverable m ≢ 0
      → (s : Signal) × (get_pending m ≡ some s) × (as_u8 s ≡ trailing_zeros 64 (deliverable m))
  lowest_known m v nz =
      let (hk, one, free) = lowest-IsDeliverable m v nz in
      let (lo, hi) = v.known (trailing_zeros 64 (deliverable m)) hk one in
      let (s, e, n) = from_u8-some (trailing_zeros 64 (deliverable m)) lo hi in
      (s, get_pending_bit m nz hk ∙ e, n)

  -- Of a valid manager, `get_pending` gives nothing exactly where no signal is deliverable, and
  -- otherwise the deliverable signal of the lowest number.
  pub get_pending_lowest :
      (m : SignalManager Handler)
      → IsValid m
      → ((get_pending m ≡ none) × ((t : Signal) → ¬ IsDeliverable m t))
        ⊎ ((s : Signal) × (get_pending m ≡ some s)
            × IsDeliverable m s
            × ((t : Signal) → IsDeliverable m t → as_u8 s ≤ as_u8 t))
  get_pending_lowest m v = elim (ℕ_discrete (deliverable m) 0) [
    | yes e ↦ inl (
      get_pending_zero m e,
      λ t d.
          omega (
            arith,
            IsDeliverable-bit m t v d,
            ap (λ (w : ℕ). bit w (as_u8 t)) e,
            bit-zero (as_u8 t),
          ),
    )
    | no nz ↦
        (let (s, e, n) = lowest_known m v nz in
          let (hk, one, free) = lowest-IsDeliverable m v nz in
          inr (
            s,
            e,
            (ap (bit m.pending) n ∙ one, ap (bit m.blocked) n ∙ free),
            λ t d. not_below s t n (IsDeliverable-bit m t v d),
          ))
  ]
    where
      not_below :
          (s t : Signal)
          → as_u8 s ≡ trailing_zeros 64 (deliverable m)
          → bit (deliverable m) (as_u8 t) ≡ 1
          → as_u8 s ≤ as_u8 t
      not_below s t n one = elim (dec_lt (as_u8 t) (as_u8 s)) [
        | yes below ↦
            absurd (omega (arith, bit_below_zeros 64 (deliverable m) (as_u8 t) (omega arith)))
        | no h ↦ omega arith
      ]

  -- The four operations keep a valid manager valid.
  pub signals-IsValid :
      (m : SignalManager Handler) (s : Signal)
      → IsValid m
      → IsValid (send_signal m s)
        × IsValid (clear_signal m s)
        × IsValid (block_signal m s)
        × IsValid (unblock_signal m s)
  unfolding send_signal clear_signal block_signal unblock_signal
  signals-IsValid m s v = (
    record {
      pending_word = set_bit-lt 64 m.pending (as_u8 s) v.pending_word hs;
      blocked_word = v.blocked_word;
      known = λ j hj e. ground (arith, v.known j hj, bit-set_bit m.pending (as_u8 s) j, as_u8-lt s);
    },
    record {
      pending_word = clear_bit-lt 64 m.pending (as_u8 s) v.pending_word;
      blocked_word = v.blocked_word;
      known = λ j hj e. ground (arith, v.known j hj, bit-clear_bit 64 m.pending (as_u8 s) j hs hj);
    },
    record {
      pending_word = v.pending_word;
      blocked_word = set_bit-lt 64 m.blocked (as_u8 s) v.blocked_word hs;
      known = v.known;
    },
    record {
      pending_word = v.pending_word;
      blocked_word = clear_bit-lt 64 m.blocked (as_u8 s) v.blocked_word;
      known = v.known;
    },
  )
    where
      hs : as_u8 s < 64
      hs = omega (arith, as_u8-lt s)

  -- Sending, clearing, blocking and unblocking a signal changes the pending or the blocked mark of
  -- that signal alone, and leaves the marks of every other signal and the other bitmap.
  pub signals_marks :
      (m : SignalManager Handler) (s t : Signal)
      → ((bit (send_signal m s).pending (as_u8 t)
            ≡ (if as_u8 t == as_u8 s then 1 else bit m.pending (as_u8 t)))
          × ((send_signal m s).blocked ≡ m.blocked))
        × ((bit (clear_signal m s).pending (as_u8 t)
              ≡ (if as_u8 t == as_u8 s then 0 else bit m.pending (as_u8 t)))
            × ((clear_signal m s).blocked ≡ m.blocked))
        × ((bit (block_signal m s).blocked (as_u8 t)
              ≡ (if as_u8 t == as_u8 s then 1 else bit m.blocked (as_u8 t)))
            × ((block_signal m s).pending ≡ m.pending))
        × ((bit (unblock_signal m s).blocked (as_u8 t)
              ≡ (if as_u8 t == as_u8 s then 0 else bit m.blocked (as_u8 t)))
            × ((unblock_signal m s).pending ≡ m.pending))
  unfolding send_signal clear_signal block_signal unblock_signal
  signals_marks m s t = (
    (bit-set_bit m.pending (as_u8 s) (as_u8 t), refl),
    (bit-clear_bit 64 m.pending (as_u8 s) (as_u8 t) hs ht, refl),
    (bit-set_bit m.blocked (as_u8 s) (as_u8 t), refl),
    (bit-clear_bit 64 m.blocked (as_u8 s) (as_u8 t) hs ht, refl),
  )
    where
      hs : as_u8 s < 64
      hs = omega (arith, as_u8-lt s)

      ht : as_u8 t < 64
      ht = omega (arith, as_u8-lt t)

pub new-IsValid : (Handler : Type 0) → IsValid (new Handler)
unfolding new
new-IsValid Handler = record {
  pending_word = omega arith;
  blocked_word = omega arith;
  known = λ j hj e. absurd (omega (arith, bit-zero j));
}
