-- ===== src/Words/Flip.antt =====
-- `x ^ (1 << k)` adds or takes away that power of two.
use Prim.Native.Nat.{bit_xor, bit_xor-bitwise, differ}
use native.Mathlib.Nat.{pow-suc}
use star_os_kernel.Prelude.{
  ℕ, zero, suc, ◌+◌, ◌*◌, ◌/◌, ◌%◌, ◌^◌, ◌<◌, ◌≤◌, ◌≡◌, ◌⊎◌, inl, inr, refl, ap, ap₂, ◌∙◌, arith,
}
use star_os_kernel.Words.Step.{lowest_digit}

bit_xor_step : (a b : ℕ) → bit_xor a b ≡ bit_xor (a / 2) (b / 2) * 2 + differ (a % 2) (b % 2)
bit_xor_step zero b = omega (arith, bit_xor-bitwise zero b, bit_xor-bitwise zero (b / 2))
bit_xor_step (suc a) b = omega (
  arith,
  bit_xor-bitwise (suc a) b,
  bit_xor-bitwise (suc a / 2) (b / 2),
  lowest_digit (λ y. y) differ a b,
)

differ-zero : (x : ℕ) → differ x 0 ≡ x
differ-zero zero = refl
differ-zero (suc x) = refl

xor_zero_to : (n x : ℕ) → x ≤ n → bit_xor x 0 ≡ x
xor_zero_to zero zero h = omega (arith, bit_xor-bitwise 0 0)
xor_zero_to zero (suc x) h = absurd (omega arith)
xor_zero_to (suc n) zero h = omega (arith, bit_xor-bitwise 0 0)
xor_zero_to (suc n) (suc x) h = omega (
  arith,
  bit_xor_step (suc x) 0,
  xor_zero_to n (suc x / 2) (omega arith),
  differ-zero (suc x % 2),
)

bit_xor-zero : (x : ℕ) → bit_xor x 0 ≡ x
bit_xor-zero x = xor_zero_to x x (omega arith)

differ_one : (x : ℕ) → x < 2 → ((x ≡ 0) × (differ x 1 ≡ 1)) ⊎ ((x ≡ 1) × (differ x 1 ≡ 0))
differ_one zero h = inl (refl, refl)
differ_one (suc zero) h = inr (refl, refl)
differ_one (suc (suc x)) h = absurd (omega arith)

pub bit_xor-pow : (x k : ℕ) → (bit_xor x (2 ^ k) ≡ x + 2 ^ k) ⊎ (bit_xor x (2 ^ k) + 2 ^ k ≡ x)
bit_xor-pow x zero = elim (differ_one (x % 2) (omega arith)) [
  | inl (e, f) ↦ inl (omega (arith, bit_xor_step x 1, bit_xor-zero (x / 2)))
  | inr (e, f) ↦ inr (omega (arith, bit_xor_step x 1, bit_xor-zero (x / 2)))
]
bit_xor-pow x (suc k) =
    (let half : 2 ^ suc k / 2 ≡ 2 ^ k = omega (arith, pow-suc 2 k) in
      let step : bit_xor x (2 ^ suc k) ≡ bit_xor (x / 2) (2 ^ k) * 2 + x % 2 =
        bit_xor_step x (2 ^ suc k)
        ∙ ap₂ (λ (a b : ℕ). bit_xor (x / 2) a * 2 + b) half
            (ap (differ (x % 2)) (omega (arith, pow-suc 2 k)) ∙ differ-zero (x % 2)) in
      elim (bit_xor-pow (x / 2) k) [
        | inl e ↦ inl (omega (arith, pow-suc 2 k))
        | inr e ↦ inr (omega (arith, pow-suc 2 k))
      ])
