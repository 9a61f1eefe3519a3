-- ===== src/Process/PriorityBitmap/Highest.antt =====
-- The search of `find_highest` against the marks.
use native.Mathlib.Decide.{ℕ_discrete, dec_lt}
use star_os_kernel.Prelude.{
  ℕ, zero, suc, ◌+◌, ◌*◌, ◌/◌, ◌%◌, ◌<◌, ◌≤◌, ◌≡◌, ◌≢◌, ◌⊎◌, inl, inr, refl, ap, ap₂, ◌∙◌, none,
  some, ◌==◌, if◌then◌else◌, arith,
}
use star_os_kernel.Words.{bit, trailing_zeros}
use star_os_kernel.Words.Bits.{bit-zero}
use star_os_kernel.Words.Marks.{
  mark, AreWords, mark-with_mark, mark-without_mark, with_mark-AreWords, without_mark-AreWords,
}
use star_os_kernel.Words.Scan.{
  trailing_zeros-lt, trailing_zeros-le, bit-trailing_zeros, bit_below_zeros,
}
use star_os_kernel.Process.PriorityBitmap.{PriorityBitmap, set, clear, find_from, find_highest}

abbrev pub IsWords : PriorityBitmap → Type 0
IsWords = AreWords 4

pub mark-set :
    (bits : PriorityBitmap) (p r : ℕ) → mark (set bits p) r ≡ (if r == p then 1 else mark bits r)
unfolding set
mark-set bits p r = mark-with_mark bits p r

pub mark-clear :
    (bits : PriorityBitmap) (p r : ℕ) → mark (clear bits p) r ≡ (if r == p then 0 else mark bits r)
unfolding clear
mark-clear bits p r = mark-without_mark bits p r

pub set-IsWords : (bits : PriorityBitmap) (p : ℕ) → IsWords bits → IsWords (set bits p)
unfolding set
set-IsWords bits p w = with_mark-AreWords 4 bits p w

pub clear-IsWords : (bits : PriorityBitmap) (p : ℕ) → IsWords bits → IsWords (clear bits p)
unfolding clear
clear-IsWords bits p w = without_mark-AreWords 4 bits p w

abbrev First : PriorityBitmap → ℕ → ℕ → Type 0
First bits left idx =
    ((find_from bits left idx ≡ none) × ((k : ℕ) → idx ≤ k → k < idx + left → bits k ≡ 0))
    ⊎ ((w : ℕ) × (find_from bits left idx ≡ some ((w * 64 + trailing_zeros 64 (bits w)) % 256))
        × (idx ≤ w)
        × (w < idx + left)
        × (bits w ≢ 0)
        × ((k : ℕ) → idx ≤ k → k < w → bits k ≡ 0))

find_from_skip :
    (bits : PriorityBitmap) (left idx : ℕ)
    → bits idx ≡ 0
    → find_from bits (suc left) idx ≡ find_from bits left (idx + 1)
unfolding find_from
find_from_skip bits left idx e = rw e

find_from_stop :
    (bits : PriorityBitmap) (left idx : ℕ)
    → bits idx ≢ 0
    → find_from bits (suc left) idx ≡ some ((idx * 64 + trailing_zeros 64 (bits idx)) % 256)
unfolding find_from
find_from_stop bits left idx nz = ground arith

zero_or_later :
    (bits : PriorityBitmap) (idx k : ℕ)
    → bits idx ≡ 0
    → (idx + 1 ≤ k → bits k ≡ 0)
    → idx ≤ k
    → bits k ≡ 0
zero_or_later bits idx k z later lo = elim (ℕ_discrete k idx) [
  | yes e ↦ ap bits e ∙ z
  | no ne ↦ later (omega arith)
]

First-skip :
    (bits : PriorityBitmap) (left idx : ℕ)
    → bits idx ≡ 0
    → First bits left (idx + 1)
    → First bits (suc left) idx
First-skip bits left idx z (inl (e, clear)) = inl (
  find_from_skip bits left idx z ∙ e,
  λ k lo hi. zero_or_later bits idx k z (λ h. clear k h (omega arith)) lo,
)
First-skip bits left idx z (inr (w, e, lo, hi, nz, clear)) = inr (
  w,
  find_from_skip bits left idx z ∙ e,
  omega arith,
  omega arith,
  nz,
  λ k lo' hi'. zero_or_later bits idx k z (λ h. clear k h hi') lo',
)

find_from-First : (bits : PriorityBitmap) (left idx : ℕ) → First bits left idx
unfolding find_from
find_from-First bits zero idx = inl (refl, λ k lo hi. absurd (omega arith))
find_from-First bits (suc left) idx = elim (ℕ_discrete (bits idx) 0) [
  | yes z ↦ First-skip bits left idx z (find_from-First bits left (idx + 1))
  | no nz ↦ inr (
    idx,
    find_from_stop bits left idx nz,
    omega arith,
    omega arith,
    nz,
    λ k lo hi. absurd (omega arith),
  )
]

place_mark :
    (bits : PriorityBitmap) (w k : ℕ) → k < 64 → bit (bits w) k ≡ 1 → mark bits (w * 64 + k) ≡ 1
place_mark bits w k hk e = ap₂ (λ (a b : ℕ). bit (bits a) b) (omega arith) (omega arith) ∙ e

-- A lower priority lies in an earlier word, or below the lowest set bit of the same word.
below_mark :
    (bits : PriorityBitmap) (w r : ℕ)
    → ((j : ℕ) → j < w → bits j ≡ 0)
    → r < w * 64 + trailing_zeros 64 (bits w)
    → mark bits r ≡ 0
below_mark bits w r clear hr = elim (dec_lt (r / 64) w) [
  | yes earlier ↦ ap (λ (x : ℕ). bit x (r % 64)) (clear (r / 64) earlier) ∙ bit-zero (r % 64)
  | no h ↦ elim (ℕ_discrete (r / 64) w) [
    | yes same ↦
        ap (λ (x : ℕ). bit (bits x) (r % 64)) same
        ∙ bit_below_zeros 64 (bits w) (r % 64) (omega arith)
    | no later ↦ absurd (omega (arith, trailing_zeros-le 64 (bits w)))
  ]
]

-- Of four words, `find_highest` finds nothing exactly where no priority is marked, and otherwise
-- the marked priority of the lowest number, the most urgent one.
pub find_highest_lowest :
    (bits : PriorityBitmap)
    → IsWords bits
    → ((find_highest bits ≡ none) × ((r : ℕ) → r < 256 → mark bits r ≡ 0))
      ⊎ ((p : ℕ) × (find_highest bits ≡ some p)
          × (p < 256)
          × (mark bits p ≡ 1)
          × ((r : ℕ) → r < p → mark bits r ≡ 0))
unfolding find_highest
find_highest_lowest bits words = elim (find_from-First bits 4 0) [
  | inl (e, clear) ↦ inl (
    e,
    λ r hr.
        ap (λ (w : ℕ). bit w (r % 64)) (clear (r / 64) (omega arith) (omega arith))
        ∙ bit-zero (r % 64),
  )
  | inr (w, e, lo, hi, nz, clear) ↦
      (let k = trailing_zeros 64 (bits w) in
        let hk : k < 64 = trailing_zeros-lt 64 (bits w) nz (words w (omega arith)) in
        inr (
          w * 64 + k,
          e ∙ ap some (omega arith),
          omega arith,
          place_mark bits w k hk (bit-trailing_zeros 64 (bits w) hk),
          λ r hr. below_mark bits w r (λ j. clear j (omega arith)) hr,
        ))
]

pub find_highest_eq :
    (bits : PriorityBitmap) (p : ℕ)
    → IsWords bits
    → p < 256
    → mark bits p ≡ 1
    → ((r : ℕ) → r < p → mark bits r ≡ 0)
    → find_highest bits ≡ some p
find_highest_eq bits p words hp one below = elim (find_highest_lowest bits words) [
  | inl (e, clear) ↦ absurd (omega (arith, clear p hp))
  | inr (q, e, hq, one', below') ↦ elim (dec_lt q p) [
    | yes lower ↦ absurd (omega (arith, below q lower))
    | no h ↦ elim (dec_lt p q) [
      | yes higher ↦ absurd (omega (arith, below' p higher))
      | no h' ↦ e ∙ ap some (omega arith)
    ]
  ]
]
