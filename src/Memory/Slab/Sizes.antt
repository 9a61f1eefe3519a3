-- ===== src/Memory/Slab/Sizes.antt =====
-- Which slab of kernel/src/memory/heap.rs serves a size.
use native.Mathlib.Decide.{dec_lt, ℕ_discrete}
use native.Mathlib.Nat.{pow-suc}
use star_os_kernel.Prelude.{
  ℕ, zero, suc, ◌+◌, ◌-◌, ◌*◌, ◌/◌, ◌%◌, ◌^◌, ◌<◌, ◌≤◌, ◌≡◌, ◌⊎◌, inl, inr, refl, sym, ap, ◌∙◌,
  true, false, max, Array, leb, ◌==◌, arith,
}
use star_os_kernel.Words.{trailing_zeros}
use star_os_kernel.Words.Bits.{pow-lt}
use star_os_kernel.Memory.Slab.{
  Slab, SlabAllocator, init, sizes, init_sizes, next_power_from, size_to_slab,
}

-- The power of two that the search from `2 ^ k` on finds.
abbrev pub Least : ℕ → ℕ → ℕ → Type 0
Least k n p = (j : ℕ) × (p ≡ 2 ^ j) × (n ≤ 2 ^ j) × (k ≤ j) × ((j ≡ k) ⊎ (2 ^ j < 2 * n))

pub next_power_from-Least :
    (left k p n m : ℕ) → p ≡ 2 ^ k → k + left ≡ m → n ≤ 2 ^ m → Least k n (next_power_from left p n)
unfolding next_power_from
next_power_from-Least zero k p n m e w h =
    (let f : m ≡ k = omega arith in
      (k, e, omega (arith, ap (λ (i : ℕ). 2 ^ i) f), omega arith, inl refl))
next_power_from-Least (suc left) k p n m e w h = elim (dec_lt p n) [
  | no small ↦
      (let test : leb n p ≡ true = ground arith in
        rw test (k, e, omega arith, omega arith, inl refl))
  | yes big ↦
      (let test : leb n p ≡ false = ground arith in
        let (j, g, f, lo, o) =
          next_power_from-Least left (suc k) (p * 2) n m (omega (arith, pow-suc 2 k)) (omega arith)
            h in
        rw test (
          j,
          g,
          f,
          omega arith,
          inr (elim o [
            | inl same ↦ omega (arith, pow-suc 2 k, ap (λ (i : ℕ). 2 ^ i) same)
            | inr less ↦ less
          ]),
        ))
]

pub trailing_zeros-pow : (w j : ℕ) → j < w → trailing_zeros w (2 ^ j) ≡ j
unfolding trailing_zeros
trailing_zeros-pow zero j h = absurd (omega arith)
trailing_zeros-pow (suc w) zero h = refl
trailing_zeros-pow (suc w) (suc j) h =
    (let half : 2 ^ suc j / 2 ≡ 2 ^ j = omega (arith, pow-suc 2 j) in
      let even : (2 ^ suc j % 2 == 0) ≡ true = ground (arith, pow-suc 2 j) in
      rw (even, half) (omega (arith, trailing_zeros-pow w j (omega arith))))

-- The order of the power of two that serves a size.
pub pow_le : (k j : ℕ) → k ≤ j → 2 ^ k ≤ 2 ^ j
pow_le k j h = elim (dec_lt k j) [
  | yes l ↦ omega (arith, pow-lt k j l)
  | no l ↦ (let e : j ≡ k = omega arith in omega (arith, ap (λ (i : ℕ). 2 ^ i) e))
]

eight_times : (j : ℕ) → 3 ≤ j → 2 ^ j ≡ sizes (j - 3)
eight_times j h =
    (let e : j ≡ suc (suc (suc (j - 3))) = omega arith in
      omega (
        arith,
        ap (λ (i : ℕ). 2 ^ i) e,
        pow-suc 2 (suc (suc (j - 3))),
        pow-suc 2 (suc (j - 3)),
        pow-suc 2 (j - 3),
      ))

power_of :
    (size j : ℕ)
    → max size 8 ≤ 2 ^ j
    → (j ≡ 0) ⊎ (2 ^ j < 2 * max size 8)
    → size ≤ 2048
    → (3 ≤ j) × (j ≤ 11)
power_of size j lo o hi = (
  elim (dec_lt j 3) [ yes h ↦ absurd (omega (arith, pow-lt j 3 h)) | no h ↦ omega arith ],
  elim (dec_lt 11 j) [
    | no h ↦ omega arith
    | yes h ↦ absurd (elim o [ inl z ↦ omega arith | inr less ↦ omega (arith, pow_le 12 j h) ])
  ],
)

-- The slab of a size is one of nine, and its blocks are the smallest that hold that many bytes.
pub size_to_slab_fits :
    (size : ℕ)
    → 1 ≤ size
    → size ≤ 2048
    → (size_to_slab size < 9)
      × (size ≤ sizes (size_to_slab size))
      × ((size_to_slab size ≡ 0) ⊎ (sizes (size_to_slab size) < 2 * size))
unfolding size_to_slab
size_to_slab_fits size lo hi =
    (let (j, e, f, k, o) = next_power_from-Least 63 0 1 (max size 8) 63 refl refl (omega arith) in
      let (j_lo, j_hi) = power_of size j f o hi in
      let order : size_to_slab size ≡ j - 3 =
        ap (λ (p : ℕ). trailing_zeros 64 p - 3) e
        ∙ ap (λ (i : ℕ). i - 3) (trailing_zeros-pow 64 j (omega arith)) in
      let size_eq : sizes (size_to_slab size) ≡ 2 ^ j = ap sizes order ∙ sym (eight_times j j_lo) in
      (
        omega arith,
        omega arith,
        elim (dec_lt size 8) [
          | yes small ↦ inl (elim (dec_lt 3 j) [
            | no h ↦ omega arith
            | yes h ↦
                absurd (elim o [ inl z ↦ omega arith | inr less ↦ omega (arith, pow_le 4 j h) ])
          ])
          | no large ↦ inr (elim o [ inl z ↦ absurd (omega arith) | inr less ↦ omega arith ])
        ],
      ))

init_sizes-size : (n i : ℕ) (slabs : Array Slab) → i < n → (init_sizes n slabs i).size ≡ sizes i
unfolding init_sizes
init_sizes-size zero i slabs h = absurd (omega arith)
init_sizes-size (suc n) i slabs h = elim (ℕ_discrete i n) [
  | yes e ↦ (let test : (i == n) ≡ true = ground arith in rw test (ap sizes (sym e)))
  | no ne ↦
      (let test : (i == n) ≡ false = ground arith in
        rw test (init_sizes-size n i slabs (omega arith)))
]

-- After `init` the nine slabs have their sizes.
abbrev pub IsReady : SlabAllocator → Type 0
IsReady s = (i : ℕ) → i < 9 → (s.slabs i).size ≡ sizes i

pub init-IsReady : (s : SlabAllocator) → IsReady (init s)
unfolding init
init-IsReady s i h = init_sizes-size 9 i s.slabs h
