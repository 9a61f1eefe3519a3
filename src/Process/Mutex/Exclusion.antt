-- ===== src/Process/Mutex/Exclusion.antt =====
-- Mutual exclusion of `Mutex` of kernel/src/process/sync.rs, in every order of the steps.
use native.Mathlib.Decide.{ℕ_discrete}
use star_os_kernel.Prelude.{
  ℕ, ◌≡◌, ◌≢◌, ◌⊎◌, refl, sym, subst, ap, ◌∙◌, inl, inr, Bool, true, false, List, [], ◌∷◌, store,
  store_self, store_ne, if◌then◌else◌,
}
use star_os_kernel.Process.Ids.{TaskId, Priority}
use star_os_kernel.Process.Mutex.{
  Mutex, new, Place, outside, locking, owning, holding, unlocking, System, start, advance, Turn,
  step, run,
}

-- What the atomics say while one thread has the lock at a place.
unfoldable pub Agrees : Mutex → Place → Type 0
Agrees m outside = ⊥
Agrees m (locking t p) = Unit {0}
Agrees m (owning t p) = m.owner ≡ t
Agrees m (holding t p) = (m.owner ≡ t) × (m.original_priority ≡ p)
Agrees m unlocking = Unit {0}

-- Either the lock is free and all threads are outside, or just one thread has it and the atomics
-- say so.
unfoldable pub IsExclusive : System → Type 0
IsExclusive s =
    ((s.mutex.locked ≡ false) × ((k : ℕ) → s.threads k ≡ outside))
    ⊎ ((s.mutex.locked ≡ true)
        × (i : ℕ) × Agrees s.mutex (s.threads i)
        × ((k : ℕ) → k ≢ i → s.threads k ≡ outside))

module _ (s : System) (i : ℕ) (q : Place) (m : Mutex) where
  abbrev after : System
  after = record { mutex = m; threads = store s.threads i q }

  -- A thread that is not outside is the one that has the lock.
  only :
      s.threads i ≢ outside
      → IsExclusive s
      → (s.mutex.locked ≡ true)
        × Agrees s.mutex (s.threads i)
        × ((k : ℕ) → k ≢ i → s.threads k ≡ outside)
  unfolding IsExclusive
  only ne (inl (free, all)) = absurd (ne (all i))
  only ne (inr (held, j, agrees, alone)) = elim (ℕ_discrete i j) [
    | yes e ↦ (
      held,
      subst (λ (n : ℕ). Agrees s.mutex (s.threads n)) (sym e) agrees,
      λ k other. alone k (λ f. other (f ∙ sym e)),
    )
    | no other ↦ absurd (ne (alone i other))
  ]

  held-IsExclusive :
      m.locked ≡ true → Agrees m q → ((k : ℕ) → k ≢ i → s.threads k ≡ outside) → IsExclusive after
  unfolding IsExclusive
  held-IsExclusive held agrees alone = inr (
    held,
    i,
    subst (Agrees m) (sym (store_self s.threads i q)) agrees,
    λ k ne. store_ne s.threads i k q ne ∙ alone k ne,
  )

  went-IsExclusive :
      s.threads i ≢ outside
      → m.locked ≡ s.mutex.locked
      → (Agrees s.mutex (s.threads i) → Agrees m q)
      → IsExclusive s
      → IsExclusive after
  went-IsExclusive ne same agree v =
      (let (held, agrees, alone) = only ne v in held-IsExclusive (same ∙ held) (agree agrees) alone)

free-IsExclusive :
    (s : System) (i : ℕ) (m : Mutex)
    → s.threads i ≢ outside
    → m.locked ≡ false
    → IsExclusive s
    → IsExclusive (record { mutex = m; threads = store s.threads i outside })
unfolding IsExclusive
free-IsExclusive s i m ne free v = inl (
  free,
  λ k. elim (ℕ_discrete k i) [
    | yes e ↦ ap (store s.threads i outside) e ∙ store_self s.threads i outside
    | no other ↦ store_ne s.threads i k outside other ∙ (only s i outside m ne v).2 k other
  ],
)

lock-IsExclusive :
    (s : System) (i : ℕ) (t : TaskId) (p : Priority)
    → s.mutex.locked ≡ false
    → IsExclusive s
    → IsExclusive (record {
      mutex = record (s.mutex) { locked = true };
      threads = store s.threads i (locking t p);
    })
unfolding IsExclusive Agrees
lock-IsExclusive s i t p free (inl (f, all)) =
    held-IsExclusive s i (locking t p) (record (s.mutex) { locked = true }) refl tt (λ k ne. all k)
lock-IsExclusive s i t p free (inr (held, j, agrees, alone)) = cc

either-IsExclusive :
    (c : Bool) (a b : System)
    → (c ≡ true → IsExclusive a)
    → (c ≡ false → IsExclusive b)
    → IsExclusive (if c then a else b)
either-IsExclusive true a b f g = f refl
either-IsExclusive false a b f g = g refl

advance-IsExclusive :
    (s : System) (i : ℕ) (t : TaskId) (p : Priority) (b : Bool) (place : Place)
    → s.threads i ≡ place
    → IsExclusive s
    → IsExclusive (advance s i t p b place)
unfolding advance Agrees
advance-IsExclusive s i t p true outside e v = v
advance-IsExclusive s i t p false outside e v =
    either-IsExclusive s.mutex.locked _ _ (λ held. v) (λ free. lock-IsExclusive s i t p free v)
advance-IsExclusive s i t p b (locking u q) e v =
    went-IsExclusive s i (owning u q) (record (s.mutex) { owner = u }) (λ f. cc) refl (λ a. refl) v
advance-IsExclusive s i t p b (owning u q) e v =
    went-IsExclusive s i (holding u q) (record (s.mutex) { original_priority = q }) (λ f. cc) refl
      (λ a. (subst (Agrees s.mutex) e a, refl)) v
advance-IsExclusive s i t p b (holding u q) e v =
    went-IsExclusive s i unlocking (record (s.mutex) { owner = 0 }) (λ f. cc) refl (λ a. tt) v
advance-IsExclusive s i t p b unlocking e v =
    free-IsExclusive s i (record (s.mutex) { locked = false }) (λ f. cc) refl v

later-IsExclusive : (s : System) (turns : List Turn) → IsExclusive s → IsExclusive (run s turns)
unfolding run step
later-IsExclusive s [] v = v
later-IsExclusive s (t ∷ rest) v =
    later-IsExclusive (advance s t.thread t.task_id t.priority t.spurious (s.threads t.thread)) rest
      (advance-IsExclusive s t.thread t.task_id t.priority t.spurious (s.threads t.thread) refl v)

start-IsExclusive : IsExclusive start
unfolding IsExclusive start new
start-IsExclusive = inl (refl, λ k. refl)

-- However the steps of the threads interleave, from a new mutex on: where a thread holds the guard
-- for a task of a priority, no other thread is inside `lock` behind the exchange, holds a guard or is
-- in `unlock`, the flag is set, and the atomics name that task and that priority.
pub run_excludes_others :
    (turns : List Turn) (i : ℕ) (t : TaskId) (p : Priority)
    → (run start turns).threads i ≡ holding t p
    → ((run start turns).mutex.locked ≡ true)
      × ((run start turns).mutex.owner ≡ t)
      × ((run start turns).mutex.original_priority ≡ p)
      × ((k : ℕ) → k ≢ i → (run start turns).threads k ≡ outside)
unfolding Agrees
run_excludes_others turns i t p e =
    (let s = run start turns in
      let (held, agrees, alone) =
        only s i outside s.mutex (λ f. cc) (later-IsExclusive start turns start-IsExclusive) in
      let said = subst (Agrees s.mutex) e agrees in (held, said.0, said.1, alone))
