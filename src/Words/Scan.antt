-- ===== src/Words/Scan.antt =====
-- What the scans find: the lowest set, or the lowest clear, bit of a word.
use native.Mathlib.Nat.{pow-suc, one-le-pow}
use star_os_kernel.Prelude.{ℕ, zero, suc, ◌-◌, ◌/◌, ◌^◌, ◌≤◌, ◌<◌, ◌≡◌, ◌≢◌, arith}
use star_os_kernel.Words.{bit, trailing_zeros, trailing_ones}

pub trailing_zeros-le : (w x : ℕ) → trailing_zeros w x ≤ w
unfolding trailing_zeros
trailing_zeros-le zero x = omega arith
trailing_zeros-le (suc w) x = ground (arith, trailing_zeros-le w (x / 2))

-- A word that is not zero has a set bit within its width.
pub trailing_zeros-lt : (w x : ℕ) → x ≢ 0 → x < 2 ^ w → trailing_zeros w x < w
unfolding trailing_zeros
trailing_zeros-lt zero x nz h = absurd (nz (omega arith))
trailing_zeros-lt (suc w) x nz h = ground (arith, pow-suc 2 w, trailing_zeros-lt w (x / 2))

pub bit-trailing_zeros : (w x : ℕ) → trailing_zeros w x < w → bit x (trailing_zeros w x) ≡ 1
unfolding trailing_zeros bit
bit-trailing_zeros zero x h = absurd (omega arith)
bit-trailing_zeros (suc w) x h = ground (arith, bit-trailing_zeros w (x / 2))

pub bit_below_zeros : (w x j : ℕ) → j < trailing_zeros w x → bit x j ≡ 0
unfolding trailing_zeros bit
bit_below_zeros zero x j h = absurd (omega arith)
bit_below_zeros (suc w) x zero h = ground arith
bit_below_zeros (suc w) x (suc j) h = ground (arith, bit_below_zeros w (x / 2) j)

-- A word that is not all ones has a clear bit within its width.
pub trailing_ones-lt : (w x : ℕ) → x < 2 ^ w - 1 → trailing_ones w x < w
unfolding trailing_ones
trailing_ones-lt zero x h = absurd (omega arith)
trailing_ones-lt (suc w) x h =
    ground (arith, pow-suc 2 w, one-le-pow w 2, trailing_ones-lt w (x / 2))

pub bit-trailing_ones : (w x : ℕ) → trailing_ones w x < w → bit x (trailing_ones w x) ≡ 0
unfolding trailing_ones bit
bit-trailing_ones zero x h = absurd (omega arith)
bit-trailing_ones (suc w) x h = ground (arith, bit-trailing_ones w (x / 2))

pub bit_below_ones : (w x j : ℕ) → j < trailing_ones w x → bit x j ≡ 1
unfolding trailing_ones bit
bit_below_ones zero x j h = absurd (omega arith)
bit_below_ones (suc w) x zero h = ground arith
bit_below_ones (suc w) x (suc j) h = ground (arith, bit_below_ones w (x / 2) j)

-- A word with no set bit is zero.
pub eq-zero_of_bits : (w x : ℕ) → x < 2 ^ w → ((j : ℕ) → j < w → bit x j ≡ 0) → x ≡ 0
unfolding bit
eq-zero_of_bits zero x h clear = omega arith
eq-zero_of_bits (suc w) x h clear = omega (
  arith,
  clear 0 (omega arith),
  eq-zero_of_bits w (x / 2) (omega (arith, pow-suc 2 w)) (λ j hj. clear (suc j) (omega arith)),
)
