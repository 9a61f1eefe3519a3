-- ===== src/Words/Bits.antt =====
-- The bits of a word after a set or a clear of one bit, at every width.
use Prim.Native.Nat.{bit_and-bitwise}
use native.Mathlib.Nat.{pow-suc, one-le-pow}
use star_os_kernel.Prelude.{
  ℕ, zero, suc, ◌-◌, ◌*◌, ◌/◌, ◌^◌, ◌≤◌, ◌<◌, ◌==◌, if◌then◌else◌, min, max, bit_and, bit_or, ◌≡◌,
  ◌↔◌, refl, ap, ◌⊎◌, inl, inr, arith,
}
use star_os_kernel.Words.{bit, complement, set_bit, clear_bit}
use star_os_kernel.Words.Step.{bit_or_step, bit_and_step}

pub bit-cases : (x j : ℕ) → (bit x j ≡ 0) ⊎ (bit x j ≡ 1)
unfolding bit
bit-cases x zero = omega arith
bit-cases x (suc j) = bit-cases (x / 2) j

pub bit-lt : (x j : ℕ) → bit x j < 2
unfolding bit
bit-lt x zero = omega arith
bit-lt x (suc j) = bit-lt (x / 2) j

pub bit-bit_or : (j a b : ℕ) → bit (bit_or a b) j ≡ max (bit a j) (bit b j)
unfolding bit
bit-bit_or zero a b = omega (arith, bit_or_step a b)
bit-bit_or (suc j) a b =
    rw (let e : bit_or a b / 2 ≡ bit_or (a / 2) (b / 2) = omega (arith, bit_or_step a b) in e)
      (bit-bit_or j (a / 2) (b / 2))

pub bit-bit_and : (j a b : ℕ) → bit (bit_and a b) j ≡ min (bit a j) (bit b j)
unfolding bit
bit-bit_and zero a b = omega (arith, bit_and_step a b)
bit-bit_and (suc j) a b =
    rw (let e : bit_and a b / 2 ≡ bit_and (a / 2) (b / 2) = omega (arith, bit_and_step a b) in e)
      (bit-bit_and j (a / 2) (b / 2))

pub bit-zero : (j : ℕ) → bit 0 j ≡ 0
unfolding bit
bit-zero zero = refl
bit-zero (suc j) = bit-zero j

half-pow : (i : ℕ) → 2 ^ suc i / 2 ≡ 2 ^ i
half-pow i = omega (arith, pow-suc 2 i)

pub bit-pow : (i j : ℕ) → bit (2 ^ i) j ≡ (if j == i then 1 else 0)
unfolding bit
bit-pow zero zero = refl
bit-pow zero (suc j) = ground (arith, bit-zero j)
bit-pow (suc i) zero = ground (arith, pow-suc 2 i)
bit-pow (suc i) (suc j) = rw (half-pow i) (ground (arith, bit-pow i j))

half-complement : (w x : ℕ) → x < 2 ^ suc w → complement (suc w) x / 2 ≡ complement w (x / 2)
half-complement w x h = omega (arith, pow-suc 2 w, one-le-pow w 2)

pub bit-complement : (w x j : ℕ) → x < 2 ^ w → j < w → bit (complement w x) j ≡ 1 - bit x j
unfolding bit
bit-complement zero x j hx hj = absurd (omega arith)
bit-complement (suc w) x zero hx hj = omega (arith, pow-suc 2 w, one-le-pow w 2)
bit-complement (suc w) x (suc j) hx hj =
    rw (half-complement w x hx)
      (bit-complement w (x / 2) j (omega (arith, pow-suc 2 w)) (omega arith))

pub pow-lt : (i w : ℕ) → i < w → 2 ^ i < 2 ^ w
pow-lt zero zero h = absurd (omega arith)
pow-lt zero (suc w) h = omega (arith, pow-suc 2 w, one-le-pow w 2)
pow-lt (suc i) zero h = absurd (omega arith)
pow-lt (suc i) (suc w) h = omega (arith, pow-suc 2 i, pow-suc 2 w, pow-lt i w (omega arith))

pub bit-set_bit : (x i j : ℕ) → bit (set_bit x i) j ≡ (if j == i then 1 else bit x j)
unfolding set_bit
bit-set_bit x i j = ground (arith, bit-bit_or j x (2 ^ i), bit-pow i j, bit-lt x j)

pub bit-clear_bit :
    (w x i j : ℕ) → i < w → j < w → bit (clear_bit w x i) j ≡ (if j == i then 0 else bit x j)
unfolding clear_bit
bit-clear_bit w x i j hi hj = ground (
  arith,
  bit-bit_and j x (complement w (2 ^ i)),
  bit-complement w (2 ^ i) j (pow-lt i w hi) hj,
  bit-pow i j,
  bit-lt x j,
)

pub bit_or-lt : (w a b : ℕ) → a < 2 ^ w → b < 2 ^ w → bit_or a b < 2 ^ w
bit_or-lt zero zero zero ha hb = omega arith
bit_or-lt zero (suc a) b ha hb = absurd (omega arith)
bit_or-lt zero zero (suc b) ha hb = absurd (omega arith)
bit_or-lt (suc w) a b ha hb = omega (
  arith,
  pow-suc 2 w,
  bit_or_step a b,
  bit_or-lt w (a / 2) (b / 2) (omega (arith, pow-suc 2 w)) (omega (arith, pow-suc 2 w)),
)

-- `x & 0`, for a word of any width that holds `x`.
masked_out : (w x : ℕ) → x < 2 ^ w → bit_and x 0 ≡ 0
masked_out zero zero h = bit_and-bitwise 0 0
masked_out zero (suc x) h = absurd (omega arith)
masked_out (suc w) x h =
    omega (arith, bit_and_step x 0, masked_out w (x / 2) (omega (arith, pow-suc 2 w)))

lt-pow : (n : ℕ) → n < 2 ^ n
lt-pow zero = omega arith
lt-pow (suc n) = omega (arith, pow-suc 2 n, lt-pow n)

pub bit_and-zero : (x : ℕ) → bit_and x 0 ≡ 0
bit_and-zero x = masked_out x x (lt-pow x)

pub bit_and-lt : (w a b : ℕ) → a < 2 ^ w → bit_and a b < 2 ^ w
bit_and-lt zero zero b ha = omega (arith, bit_and-bitwise 0 b)
bit_and-lt zero (suc a) b ha = absurd (omega arith)
bit_and-lt (suc w) a b ha = omega (
  arith,
  pow-suc 2 w,
  bit_and_step a b,
  bit_and-lt w (a / 2) (b / 2) (omega (arith, pow-suc 2 w)),
)

-- A mask bounds what it selects.
pub bit_and-lt_mask : (w a m : ℕ) → m < 2 ^ w → bit_and a m < 2 ^ w
bit_and-lt_mask zero a zero hm = omega (arith, bit_and-zero a)
bit_and-lt_mask zero a (suc m) hm = absurd (omega arith)
bit_and-lt_mask (suc w) a m hm = omega (
  arith,
  pow-suc 2 w,
  bit_and_step a m,
  bit_and-lt_mask w (a / 2) (m / 2) (omega (arith, pow-suc 2 w)),
)

-- A word stays a word.
pub set_bit-lt : (w x i : ℕ) → x < 2 ^ w → i < w → set_bit x i < 2 ^ w
unfolding set_bit
set_bit-lt w x i hx hi = bit_or-lt w x (2 ^ i) hx (pow-lt i w hi)

pub clear_bit-lt : (w x i : ℕ) → x < 2 ^ w → clear_bit w x i < 2 ^ w
unfolding clear_bit
clear_bit-lt w x i hx = bit_and-lt w x (complement w (2 ^ i)) hx

-- `x & (1 << i)` is that one bit of `x`.
pub bit_and-pow : (i x : ℕ) → bit_and x (2 ^ i) ≡ bit x i * 2 ^ i
unfolding bit
bit_and-pow zero x = omega (arith, bit_and_step x 1, bit_and-zero (x / 2))
bit_and-pow (suc i) x = omega (
  arith,
  pow-suc 2 i,
  bit_and_step x (2 ^ suc i),
  ap (bit_and (x / 2)) (half-pow i),
  bit_and-pow i (x / 2),
  ap (λ (t : ℕ). bit (x / 2) i * t) (pow-suc 2 i),
)

-- The test `x & (1 << i) == 0` reads one bit.
pub bit_and-pow_test : (x i : ℕ) → (bit_and x (2 ^ i) == 0) ≡ (bit x i == 0)
bit_and-pow_test x i = elim (bit-cases x i) [
  | inl e ↦ ground (arith, bit_and-pow i x, ap (λ (t : ℕ). t * 2 ^ i) e)
  | inr e ↦ ground (arith, bit_and-pow i x, ap (λ (t : ℕ). t * 2 ^ i) e, one-le-pow i 2)
]

-- Two words of one width with the same bits are equal.
pub eq_of_bits : (w x y : ℕ) → x < 2 ^ w → y < 2 ^ w → ((j : ℕ) → j < w → bit x j ≡ bit y j) → x ≡ y
unfolding bit
eq_of_bits zero x y hx hy same = omega arith
eq_of_bits (suc w) x y hx hy same = omega (
  arith,
  same 0 (omega arith),
  eq_of_bits w (x / 2) (y / 2) (omega (arith, pow-suc 2 w)) (omega (arith, pow-suc 2 w))
      (λ j hj. same (suc j) (omega arith)),
)

-- `r & o == o` says that every bit of `o` is one of `r`.
pub bit_and_eq_iff :
    (w r o : ℕ) → r < 2 ^ w → o < 2 ^ w → (bit_and r o ≡ o) ↔ ((j : ℕ) → j < w → bit o j ≤ bit r j)
bit_and_eq_iff w r o hr ho = (
  λ e j hj. omega (arith, bit-bit_and j r o, ap (λ (t : ℕ). bit t j) e),
  λ sub.
      eq_of_bits w (bit_and r o) o (bit_and-lt w r o hr) ho
        (λ j hj. omega (arith, bit-bit_and j r o, sub j hj)),
)
