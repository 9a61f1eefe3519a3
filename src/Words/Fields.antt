-- ===== src/Words/Fields.antt =====
-- Fields of machine words: a mask of low bits, and a mask that leaves them out.
use native.Mathlib.Nat.{pow-suc, one-le-pow}
use star_os_kernel.Prelude.{
  ℕ, zero, suc, ◌+◌, ◌-◌, ◌*◌, ◌/◌, ◌^◌, ◌<◌, ◌≡◌, ap, bit_and, bit_or, arith,
}
use star_os_kernel.Words.{bit, complement}
use star_os_kernel.Words.Step.{bit_and_step}
use star_os_kernel.Words.Bits.{
  bit-lt, bit-zero, bit-bit_and, bit-bit_or, bit_and-lt, bit_and-lt_mask, bit_or-lt, eq_of_bits,
  bit_and-zero,
}

half_low : (k : ℕ) → (2 ^ suc k - 1) / 2 ≡ 2 ^ k - 1
half_low k = omega (arith, pow-suc 2 k, one-le-pow k 2)

-- `x & (2 ^ k - 1)` is `x % 2 ^ k`.
pub bit_and-low :
    (k x : ℕ) → (q : ℕ) × (x ≡ q * 2 ^ k + bit_and x (2 ^ k - 1)) × (bit_and x (2 ^ k - 1) < 2 ^ k)
bit_and-low zero x = (x, omega (arith, bit_and-zero x), omega (arith, bit_and-zero x))
bit_and-low (suc k) x =
    (let (q, e, h) = bit_and-low k (x / 2) in
      let s = bit_and_step x (2 ^ suc k - 1) in
      let t : bit_and (x / 2) ((2 ^ suc k - 1) / 2) ≡ bit_and (x / 2) (2 ^ k - 1) =
        ap (bit_and (x / 2)) (half_low k) in
      let u : q * 2 ^ suc k ≡ 2 * (q * 2 ^ k) =
        omega (arith, ap (λ (t : ℕ). q * t) (pow-suc 2 k)) in
      (q, omega (arith, pow-suc 2 k, one-le-pow k 2), omega (arith, pow-suc 2 k, one-le-pow k 2)))

half_rest : (w m : ℕ) → m < 2 ^ suc w → complement (suc w) m / 2 ≡ complement w (m / 2)
half_rest w m h = omega (arith, pow-suc 2 w, one-le-pow w 2)

-- The bits of a mask and the others make up the word.
pub bit_and-complement :
    (w x m : ℕ) → x < 2 ^ w → m < 2 ^ w → bit_and x m + bit_and x (complement w m) ≡ x
bit_and-complement zero x m hx hm =
    omega (arith, bit_and-lt 0 x m hx, bit_and-lt 0 x (complement 0 m) hx)
bit_and-complement (suc w) x m hx hm = omega (
  arith,
  pow-suc 2 w,
  one-le-pow w 2,
  bit_and_step x m,
  bit_and_step x (complement (suc w) m),
  ap (bit_and (x / 2)) (half_rest w m hm),
  bit_and-complement w (x / 2) (m / 2) (omega (arith, pow-suc 2 w)) (omega (arith, pow-suc 2 w)),
)

-- A field that a mask selects is not changed by bits outside the mask.
pub masked_or :
    (w x f m : ℕ)
    → m < 2 ^ w
    → f < 2 ^ w
    → bit_and f m ≡ 0
    → bit_and (bit_or (bit_and x m) f) m ≡ bit_and x m
masked_or w x f m hm hf apart =
    eq_of_bits w _ _ (bit_and-lt_mask w (bit_or (bit_and x m) f) m hm) (bit_and-lt_mask w x m hm)
      (λ j hj. omega (
        arith,
        bit-bit_and j (bit_or (bit_and x m) f) m,
        bit-bit_or j (bit_and x m) f,
        bit-bit_and j x m,
        bit-bit_and j f m,
        ap (λ (t : ℕ). bit t j) apart,
        bit-zero j,
        bit-lt x j,
        bit-lt m j,
        bit-lt f j,
      ))

-- Words outside a mask stay outside it together.
pub apart_or :
    (w f g m : ℕ)
    → f < 2 ^ w
    → g < 2 ^ w
    → bit_and f m ≡ 0
    → bit_and g m ≡ 0
    → bit_and (bit_or f g) m ≡ 0
apart_or w f g m hf hg af ag =
    eq_of_bits w _ 0 (bit_and-lt w _ m (bit_or-lt w f g hf hg)) (one-le-pow w 2 (omega arith))
      (λ j hj. omega (
        arith,
        bit-bit_and j (bit_or f g) m,
        bit-bit_or j f g,
        bit-bit_and j f m,
        bit-bit_and j g m,
        ap (λ (t : ℕ). bit t j) af,
        ap (λ (t : ℕ). bit t j) ag,
        bit-zero j,
      ))
