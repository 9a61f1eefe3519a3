-- ===== src/Ring.antt =====
-- Circular buffers over `[Option<T>; N]`: the arithmetic that `MessageQueue` (process/ipc.rs) and
-- `RunQueue` (process/scheduler.rs) share. Each keeps `head`, `tail` and `count`.
use native.Mathlib.Nat.{mod-eq_of_lt, mod-eq-sub-mod}
use native.Mathlib.Decide.{dec_lt}
use star_os_kernel.Prelude.{
  ℕ, suc, ◌+◌, ◌-◌, ◌%◌, ◌≤◌, ◌<◌, ◌≡◌, ◌≢◌, ◌⊎◌, inl, inr, sym, ap, ◌∙◌, subst, List, [], ◌∷◌,
  ◌++◌, Option, none, some, Array, store, store_self, length, length-append, arith,
}

-- One step, or one turn less a step, round a ring.
mod_cases : (a n : ℕ) → a < n + n → ((a < n) × (a % n ≡ a)) ⊎ ((n ≤ a) × (a % n + n ≡ a))
mod_cases a n h = elim (dec_lt a n) [
  | yes p ↦ inl (p, mod-eq_of_lt p)
  | no p ↦ inr (
    omega arith,
    omega (
      arith,
      mod-eq-sub-mod {n = a} {m = n} (omega arith),
      mod-eq_of_lt {n = a - n} {m = n} (omega arith),
    ),
  )
]

-- `k` places from `h + 1` on are `k + 1` places from `h` on.
next_place : (n h k : ℕ) → h < n → suc k < n → ((h + 1) % n + k) % n ≡ (h + suc k) % n
next_place n h k hh hk = omega (
  arith,
  mod_cases (h + 1) n (omega arith),
  mod_cases ((h + 1) % n + k) n (omega (arith, mod_cases (h + 1) n (omega arith))),
  mod_cases (h + suc k) n (omega arith),
)

next_ne : (n h k : ℕ) → h < n → suc k < n → (h + suc k) % n ≢ h
next_ne n h k hh hk = omega (arith, mod_cases (h + suc k) n (omega arith))

pub next-lt : (n h : ℕ) → h < n → (h + 1) % n < n
next-lt n h hh = omega (arith, mod_cases (h + 1) n (omega arith))

module _ {ℓ} {A : Type ℓ} (n : ℕ) where
  -- The slots from `h` on, going round at `n`, hold the listed values.
  abbrev pub Holds : Array (Option A) → ℕ → List A → Type ℓ
  Holds buf h [] = Unit
  Holds buf h (x ∷ xs) = (buf h ≡ some x) × Holds buf ((h + 1) % n) xs

  -- A slot that lies `d` places behind the listed ones is not one of them.
  pub Holds-store :
      (buf : Array (Option A)) (i : ℕ) (v : Option A) (xs : List A) (h d : ℕ)
      → h < n
      → length xs + d < n
      → i ≡ (h + (length xs + d)) % n
      → Holds buf h xs
      → Holds (store buf i v) h xs
  Holds-store buf i v [] h d hh hd e r = tt
  Holds-store buf i v (x ∷ xs) h d hh hd e (now, r) = (
    ground (arith, next_ne n h (length xs + d), now),
    Holds-store buf i v xs ((h + 1) % n) d (next-lt n h hh) (omega arith)
        (e
          ∙ ap (λ (t : ℕ). (h + t) % n) (omega arith)
          ∙ sym (next_place n h (length xs + d) hh (omega arith)))
        r,
  )

  pub Holds-append :
      (buf : Array (Option A)) (v : A) (xs : List A) (h : ℕ)
      → h < n
      → length xs < n
      → Holds buf h xs
      → buf ((h + length xs) % n) ≡ some v
      → Holds buf h (xs ++ v ∷ [])
  Holds-append buf v [] h hh hl r e =
      (subst (λ (i : ℕ). buf i ≡ some v) (omega (arith, mod_cases (h + 0) n (omega arith))) e, tt)
  Holds-append buf v (x ∷ xs) h hh hl (now, r) e = (
    now,
    Holds-append buf v xs ((h + 1) % n) (next-lt n h hh) (omega arith) r
        (subst (λ (i : ℕ). buf i ≡ some v) (sym (next_place n h (length xs) hh hl)) e),
  )

  -- A ring that holds `xs`, oldest first.
  pub record IsRing (buf : Array (Option A)) (head tail count : ℕ) (xs : List A) : Type ℓ where
    pub head_in : head < n
    pub fits : count ≤ n
    pub counted : length xs ≡ count
    pub tail_at : tail ≡ (head + count) % n
    pub holds : Holds buf head xs

  module _ {buf : Array (Option A)} {head tail count : ℕ} where
    pub tail-lt : {xs : List A} → IsRing buf head tail count xs → tail < n
    tail-lt r = omega (arith, mod_cases (head + count) n (omega arith))

    tail_place : {xs : List A} → IsRing buf head tail count xs → tail ≡ (head + length xs) % n
    tail_place r = r.tail_at ∙ ap (λ (t : ℕ). (head + t) % n) (sym r.counted)

    -- The slot before the second oldest value is one turn less a step behind it.
    turn :
        {x : A} {xs : List A}
        → IsRing buf head tail count (x ∷ xs)
        → head ≡ ((head + 1) % n + (length xs + (n - 1 - length xs))) % n
    turn {x} {xs} r = omega (
      arith,
      mod_cases (head + 1) n (omega arith),
      mod_cases ((head + 1) % n + (length xs + (n - 1 - length xs))) n
          (omega (arith, next-lt n head r.head_in)),
    )

    pub IsRing-push :
        {xs : List A} (v : A)
        → IsRing buf head tail count xs
        → count < n
        → IsRing (store buf tail (some v)) head ((tail + 1) % n) (count + 1) (xs ++ v ∷ [])
    IsRing-push {xs} v r room = record {
      head_in = r.head_in;
      fits = omega arith;
      counted = omega (arith, length-append xs (v ∷ []), r.counted);
      tail_at = omega (
        arith,
        mod_cases (head + count) n (omega arith),
        mod_cases (tail + 1) n (omega (arith, tail-lt r)),
        mod_cases (head + (count + 1)) n (omega arith),
      );
      holds =
          Holds-append (store buf tail (some v)) v xs head r.head_in (omega arith)
            (Holds-store buf tail (some v) xs head 0 r.head_in (omega arith)
              (tail_place r ∙ ap (λ (t : ℕ). (head + t) % n) (omega arith)) r.holds)
            (subst (λ (i : ℕ). store buf tail (some v) i ≡ some v) (tail_place r)
              (store_self buf tail (some v)));
    }

    pub IsRing-pop :
        {x : A} {xs : List A}
        → IsRing buf head tail count (x ∷ xs)
        → IsRing (store buf head none) ((head + 1) % n) tail (count - 1) xs
    IsRing-pop {x} {xs} r = record {
      head_in = next-lt n head r.head_in;
      fits = omega (arith, r.fits);
      counted = omega (arith, r.counted);
      tail_at = omega (
        arith,
        mod_cases (head + count) n (omega arith),
        mod_cases (head + 1) n (omega arith),
        mod_cases ((head + 1) % n + (count - 1)) n (omega (arith, next-lt n head r.head_in)),
      );
      holds =
          Holds-store buf head none xs ((head + 1) % n) (n - 1 - length xs)
            (next-lt n head r.head_in) (omega arith) (turn r) r.holds.1;
    }
