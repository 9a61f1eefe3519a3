-- ===== src/Words/Step.antt =====
-- The native `&` and `|` consume one binary digit of each operand at a time. Their definition spends
-- fuel on it; here each is an equation for the lowest digit.
use Prim.Native.Nat.{digits, bit_and-bitwise, bit_or-bitwise}
use native.Mathlib.Decide.{dec_lt}
use star_os_kernel.Prelude.{
  ℕ, zero, suc, ◌+◌, ◌*◌, ◌/◌, ◌%◌, ◌≤◌, min, max, bit_and, bit_or, ◌≡◌, refl, ap, ◌∙◌, arith,
}

module _ (past : ℕ → ℕ) (op : ℕ → ℕ → ℕ) where
  -- One unit of fuel beyond the first operand changes nothing.
  spare_unit : (k x y : ℕ) → x ≤ k → digits past op (suc k) x y ≡ digits past op k x y
  spare_unit zero zero y h = refl
  spare_unit zero (suc x) y h = absurd (omega arith)
  spare_unit (suc k) zero y h = refl
  spare_unit (suc k) (suc x) y h =
      ap (λ (t : ℕ). t * 2 + op (suc x % 2) (y % 2))
        (spare_unit k (suc x / 2) (y / 2) (omega arith))

  -- The first operand is fuel enough.
  own_fuel : (k x y : ℕ) → x ≤ k → digits past op k x y ≡ digits past op x x y
  own_fuel zero zero y h = refl
  own_fuel zero (suc x) y h = absurd (omega arith)
  own_fuel (suc k) x y h = elim (dec_lt k x) [
    | yes last ↦ (let e : suc k ≡ x = omega arith in ap (λ (t : ℕ). digits past op t x y) e)
    | no below ↦ spare_unit k x y (omega arith) ∙ own_fuel k x y (omega arith)
  ]

  pub lowest_digit :
      (x y : ℕ)
      → digits past op (suc x) (suc x) y
        ≡ digits past op (suc x / 2) (suc x / 2) (y / 2) * 2 + op (suc x % 2) (y % 2)
  lowest_digit x y =
      ap (λ (t : ℕ). t * 2 + op (suc x % 2) (y % 2)) (own_fuel x (suc x / 2) (y / 2) (omega arith))

pub bit_or_step : (a b : ℕ) → bit_or a b ≡ bit_or (a / 2) (b / 2) * 2 + max (a % 2) (b % 2)
bit_or_step zero b = omega (arith, bit_or-bitwise zero b, bit_or-bitwise zero (b / 2))
bit_or_step (suc a) b = omega (
  arith,
  bit_or-bitwise (suc a) b,
  bit_or-bitwise (suc a / 2) (b / 2),
  lowest_digit (λ y. y) max a b,
)

pub bit_and_step : (a b : ℕ) → bit_and a b ≡ bit_and (a / 2) (b / 2) * 2 + min (a % 2) (b % 2)
bit_and_step zero b = omega (arith, bit_and-bitwise zero b, bit_and-bitwise zero (b / 2))
bit_and_step (suc a) b = omega (
  arith,
  bit_and-bitwise (suc a) b,
  bit_and-bitwise (suc a / 2) (b / 2),
  lowest_digit (λ y. zero) min a b,
)
