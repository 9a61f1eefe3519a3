-- ===== src/Words.antt =====
-- Machine words as native numbers: the bits of `&`, `|`, `!` and `1 << i`, and the scans
-- `trailing_zeros` and `trailing_ones` of the integer types.
mod Step
pub mod Bits
pub mod Scan
pub mod Marks
pub mod Fields
pub mod Flip
use star_os_kernel.Prelude.{
  ℕ, zero, suc, ◌+◌, ◌-◌, ◌/◌, ◌%◌, ◌^◌, ◌==◌, if◌then◌else◌, bit_and, bit_or,
}

-- Bit `j` of `x`, as 0 or 1.
unfoldable pub bit : ℕ → ℕ → ℕ
bit x zero = x % 2
bit x (suc j) = bit (x / 2) j

-- `!x` at width `w`.
abbrev pub complement : ℕ → ℕ → ℕ
complement w x = 2 ^ w - 1 - x

-- `x | (1 << i)`, `x & !(1 << i)` and `x & (1 << i)` at width `w`.
unfoldable pub set_bit : ℕ → ℕ → ℕ
set_bit x i = bit_or x (2 ^ i)

unfoldable pub clear_bit : ℕ → ℕ → ℕ → ℕ
clear_bit w x i = bit_and x (complement w (2 ^ i))

-- The number of low zeros, or of low ones, of a word of width `w`.
unfoldable pub trailing_zeros : ℕ → ℕ → ℕ
trailing_zeros zero x = 0
trailing_zeros (suc w) x = let rest = trailing_zeros w (x / 2) in if x % 2 == 0 then rest + 1 else 0

unfoldable pub trailing_ones : ℕ → ℕ → ℕ
trailing_ones zero x = 0
trailing_ones (suc w) x = let rest = trailing_ones w (x / 2) in if x % 2 == 0 then 0 else rest + 1
