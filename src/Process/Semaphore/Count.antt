-- ===== src/Process/Semaphore/Count.antt =====
-- What the count of a `Semaphore` of kernel/src/process/sync.rs says, in every order of the steps.
use native.Mathlib.Decide.{ℕ_discrete}
use star_os_kernel.Prelude.{
  ℕ, ◌+◌, ◌-◌, ◌%◌, ◌^◌, ◌<◌, ◌≤◌, ◌≡◌, refl, sym, subst, ap, ◌∙◌, Bool, true, false, not, ◌&&◌,
  List, [], ◌∷◌, store, store_self, store_ne, ltb, leb, ◌==◌, if◌then◌else◌, arith,
}
use star_os_kernel.Process.Semaphore.{
  new, Place, outside, taking, giving, Call, wait, try_wait, signal, System, start, go, set_count,
  begin, advance, Turn, step, run,
}

-- What a thread knows of the count that it loaded.
unfoldable pub Fits : ℕ → Place → Type 0
Fits max outside = Unit {0}
Fits max (taking weak current) = 0 < current
Fits max (giving current) = current < max

-- Of a semaphore with a bound, and the number of permits at the start.
unfoldable pub IsCounted : ℕ → ℕ → System → Type 0
IsCounted initial max s =
    (s.semaphore.max ≡ max)
    × (s.semaphore.count ≤ max)
    × (s.semaphore.count + s.taken ≡ initial + s.given)
    × ((k : ℕ) → Fits max (s.threads k))

module _ (initial max : ℕ) (bound : max < 2 ^ 64) where
  -- Thread `i` goes to place `q`, with a new count.
  moved-IsCounted :
      (s : System) (i : ℕ) (q : Place) (n taken given : ℕ)
      → IsCounted initial max s
      → n ≤ max
      → n + taken ≡ initial + given
      → Fits max q
      → IsCounted initial max (record {
        semaphore = record { count = n; max = s.semaphore.max };
        threads = store s.threads i q;
        taken = taken;
        given = given;
      })
  unfolding IsCounted
  moved-IsCounted s i q n taken given (same, small, sum, fits) h e f = (
    same,
    h,
    e,
    λ k. elim (ℕ_discrete k i) [
      | yes g ↦ subst (Fits max) (sym (ap (store s.threads i q) g ∙ store_self s.threads i q)) f
      | no ne ↦ subst (Fits max) (sym (store_ne s.threads i k q ne)) (fits k)
    ],
  )

  went-IsCounted :
      (s : System) (i : ℕ) (q : Place)
      → IsCounted initial max s
      → Fits max q
      → IsCounted initial max (go s i q)
  unfolding go IsCounted
  went-IsCounted s i q v f = moved-IsCounted s i q s.semaphore.count s.taken s.given v v.1 v.2 f

  chosen-Fits :
      (c : Bool) (p q : Place)
      → (c ≡ true → Fits max p)
      → (c ≡ false → Fits max q)
      → Fits max (if c then p else q)
  chosen-Fits true p q f g = f refl
  chosen-Fits false p q f g = g refl

  chosen-IsCounted :
      (c : Bool) (a b : System)
      → (c ≡ true → IsCounted initial max a)
      → (c ≡ false → IsCounted initial max b)
      → IsCounted initial max (if c then a else b)
  chosen-IsCounted true a b f g = f refl
  chosen-IsCounted false a b f g = g refl

  begin-IsCounted :
      (s : System) (i : ℕ) (call : Call)
      → IsCounted initial max s
      → IsCounted initial max (begin s i call)
  unfolding begin Fits IsCounted
  begin-IsCounted s i wait v =
      went-IsCounted s i _ v
        (chosen-Fits (ltb 0 s.semaphore.count) _ _ (λ e. ground arith) (λ e. tt))
  begin-IsCounted s i try_wait v =
      went-IsCounted s i _ v
        (chosen-Fits (ltb 0 s.semaphore.count) _ _ (λ e. ground arith) (λ e. tt))
  begin-IsCounted s i signal v =
      went-IsCounted s i _ v (
        chosen-Fits (leb s.semaphore.max s.semaphore.count) _ _ (λ e. tt)
          (λ e. ground (arith, v.0)))

  advance-IsCounted :
      (s : System) (i : ℕ) (call : Call) (spurious : Bool) (place : Place)
      → s.threads i ≡ place
      → IsCounted initial max s
      → IsCounted initial max (advance s i call spurious place)
  unfolding advance set_count go Fits IsCounted
  advance-IsCounted s i call spurious outside e v = begin-IsCounted s i call v
  advance-IsCounted s i call spurious (taking weak current) e v =
      (let positive : 0 < current = subst (Fits max) e (v.3 i) in
        chosen-IsCounted ((s.semaphore.count == current) && not (weak && spurious)) _ _
          (λ c.
            (let same : s.semaphore.count ≡ current = ground arith in
              moved-IsCounted s i outside (current - 1) (s.taken + 1) s.given v (omega arith)
                (omega arith) tt))
          (λ c. went-IsCounted s i outside v tt))
  advance-IsCounted s i call spurious (giving current) e v =
      (let below : current < max = subst (Fits max) e (v.3 i) in
        chosen-IsCounted ((s.semaphore.count == current) && not spurious) _ _
          (λ c.
            (let same : s.semaphore.count ≡ current = ground arith in
              moved-IsCounted s i outside ((current + 1) % 2 ^ 64) s.taken (s.given + 1) v
                (omega arith) (omega arith) tt))
          (λ c. went-IsCounted s i outside v tt))

  later-IsCounted :
      (s : System) (turns : List Turn)
      → IsCounted initial max s
      → IsCounted initial max (run s turns)
  unfolding run step
  later-IsCounted s [] v = v
  later-IsCounted s (t ∷ rest) v =
      later-IsCounted (advance s t.thread t.call t.spurious (s.threads t.thread)) rest
        (advance-IsCounted s t.thread t.call t.spurious (s.threads t.thread) refl v)

  start-IsCounted : initial ≤ max → IsCounted initial max (start initial max)
  unfolding IsCounted start new Fits
  start-IsCounted h = (refl, h, refl, λ k. tt)

  -- However the steps of the threads interleave, from a semaphore on whose initial count is within
  -- its bound, which has 64 bits: the count stays within the bound, and together with the number of
  -- successful waits it is the initial count with the number of successful signals. So never more
  -- waits succeed than there were permits.
  pub run_counts :
      (turns : List Turn)
      → initial ≤ max
      → ((run (start initial max) turns).semaphore.count ≤ max)
        × ((run (start initial max) turns).semaphore.count + (run (start initial max) turns).taken
            ≡ initial + (run (start initial max) turns).given)
  unfolding IsCounted
  run_counts turns h =
      (let v = later-IsCounted (start initial max) turns (start-IsCounted h) in (v.1, v.2))
