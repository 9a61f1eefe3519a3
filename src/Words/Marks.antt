-- ===== src/Words/Marks.antt =====
-- Bitmaps over several 64-bit words: the mark of number `p` is bit `p % 64` of word `p / 64`.
use star_os_kernel.Prelude.{
  ℕ, zero, suc, ◌+◌, ◌-◌, ◌/◌, ◌%◌, ◌^◌, ◌<◌, ◌≤◌, ◌≡◌, Array, store, ltb, ◌==◌, if◌then◌else◌,
  arith,
}
use star_os_kernel.Words.{bit, set_bit, clear_bit}
use star_os_kernel.Words.Bits.{bit-set_bit, bit-clear_bit, set_bit-lt, clear_bit-lt}

-- The mark of a number, as 0 or 1.
abbrev pub mark : Array ℕ → ℕ → ℕ
mark bits p = bit (bits (p / 64)) (p % 64)

abbrev pub with_mark : Array ℕ → ℕ → Array ℕ
with_mark bits p = store bits (p / 64) (set_bit (bits (p / 64)) (p % 64))

abbrev pub without_mark : Array ℕ → ℕ → Array ℕ
without_mark bits p = store bits (p / 64) (clear_bit 64 (bits (p / 64)) (p % 64))

-- The first `n` words are words.
abbrev pub AreWords : ℕ → Array ℕ → Type 0
AreWords n bits = (k : ℕ) → k < n → bits k < 2 ^ 64

pub same_place : (p r : ℕ) → p / 64 ≡ r / 64 → p % 64 ≡ r % 64 → p ≡ r
same_place p r e f = omega arith

pub mark-with_mark :
    (bits : Array ℕ) (p r : ℕ) → mark (with_mark bits p) r ≡ (if r == p then 1 else mark bits r)
mark-with_mark bits p r =
    ground (arith, bit-set_bit (bits (p / 64)) (p % 64) (r % 64), same_place r p)

pub mark-without_mark :
    (bits : Array ℕ) (p r : ℕ) → mark (without_mark bits p) r ≡ (if r == p then 0 else mark bits r)
mark-without_mark bits p r =
    ground (arith, bit-clear_bit 64 (bits (p / 64)) (p % 64) (r % 64), same_place r p)

pub with_mark-AreWords :
    (n : ℕ) (bits : Array ℕ) (p : ℕ) → AreWords n bits → AreWords n (with_mark bits p)
with_mark-AreWords n bits p w k hk = ground (arith, w k hk, set_bit-lt 64 (bits (p / 64)) (p % 64))

pub without_mark-AreWords :
    (n : ℕ) (bits : Array ℕ) (p : ℕ) → AreWords n bits → AreWords n (without_mark bits p)
without_mark-AreWords n bits p w k hk =
    ground (arith, w k hk, clear_bit-lt 64 (bits (p / 64)) (p % 64))

-- How many of the first `n` numbers are not marked.
pub count_clear : Array ℕ → ℕ → ℕ
count_clear bits zero = 0
count_clear bits (suc n) = count_clear bits n + (1 - mark bits n)

pub count_clear-with_mark :
    (bits : Array ℕ) (p n : ℕ)
    → mark bits p ≡ 0
    → count_clear (with_mark bits p) n + (if ltb p n then 1 else 0) ≡ count_clear bits n
unfolding count_clear
count_clear-with_mark bits p zero e = ground arith
count_clear-with_mark bits p (suc n) e =
    ground (arith, count_clear-with_mark bits p n e, mark-with_mark bits p n)

pub count_clear-without_mark :
    (bits : Array ℕ) (p n : ℕ)
    → mark bits p ≡ 1
    → count_clear (without_mark bits p) n ≡ count_clear bits n + (if ltb p n then 1 else 0)
unfolding count_clear
count_clear-without_mark bits p zero e = ground arith
count_clear-without_mark bits p (suc n) e =
    ground (arith, count_clear-without_mark bits p n e, mark-without_mark bits p n)

pub count_clear-le : (bits : Array ℕ) (n : ℕ) → count_clear bits n ≤ n
unfolding count_clear
count_clear-le bits zero = omega arith
count_clear-le bits (suc n) = omega (arith, count_clear-le bits n)

-- Where every number is marked, none is clear.
pub count_clear-zero :
    (bits : Array ℕ) (n : ℕ) → ((r : ℕ) → r < n → mark bits r ≡ 1) → count_clear bits n ≡ 0
unfolding count_clear
count_clear-zero bits zero all = omega arith
count_clear-zero bits (suc n) all =
    omega (arith, all n (omega arith), count_clear-zero bits n (λ r hr. all r (omega arith)))

-- Where no number is marked, all of them are clear.
pub count_clear-all :
    (bits : Array ℕ) (n : ℕ) → ((r : ℕ) → mark bits r ≡ 0) → count_clear bits n ≡ n
unfolding count_clear
count_clear-all bits zero clear = omega arith
count_clear-all bits (suc n) clear = omega (arith, count_clear-all bits n clear, clear n)
