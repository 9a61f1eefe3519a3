-- ===== src/Prelude/Results.antt =====
-- `Result<T, E>` of Rust, and fixed-size arrays as functions of the index.
use Prim.Native.Nat.{ℕ}
use mathlib.Core.Path.{◌≡◌}
use mathlib.Core.Logic.{◌≢◌, inl, inr}
use native.Mathlib.Omega.{arith}
use star_os_kernel.Prelude.Tests.{◌==◌, if◌then◌else◌, Bool-cases}

pub data Result {ℓ κ} (A : Type ℓ) (E : Type κ) : Type (ℓ ⊔ κ) where
  ok : A → Result A E
  err : E → Result A E

-- An array `[T; N]` is read at an index below `N` only; each component proves that it does so.
abbrev pub Array {ℓ} : Type ℓ → Type ℓ
Array A = ℕ → A

abbrev pub store {ℓ} : {A : Type ℓ} → Array A → ℕ → A → Array A
store a i v j = if j == i then v else a j

pub store_self {ℓ} : {A : Type ℓ} (a : Array A) (i : ℕ) (v : A) → store a i v i ≡ v
store_self a i v = ground arith

pub store_ne {ℓ} : {A : Type ℓ} (a : Array A) (i j : ℕ) (v : A) → j ≢ i → store a i v j ≡ a j
store_ne a i j v h = ground arith

-- A relation between two arrays outlives a store into both.
pub store_related {ℓ κ μ} :
    {A : Type ℓ} {B : Type κ} (R : A → B → Type μ) (a : Array A) (b : Array B) (i j : ℕ) (v : A)
    (w : B)
    → R v w
    → R (a j) (b j)
    → R (store a i v j) (store b i w j)
store_related R a b i j v w h k = elim (Bool-cases (j == i)) [ inl e ↦ rw e h | inr e ↦ rw e k ]

pub store_same {ℓ} : {A : Type ℓ} (a : Array A) (i j : ℕ) → store a i (a i) j ≡ a j
store_same a i j = ground arith
