-- ===== src/Process/RwLock/Exclusion.antt =====
-- Mutual exclusion of `RwLock` of kernel/src/process/sync.rs, in every order of the steps.
use native.Mathlib.Decide.{dec_lt, ℕ_discrete}
use star_os_kernel.Prelude.{
  ℕ, ◌+◌, ◌-◌, ◌^◌, ◌%◌, ◌<◌, ◌≤◌, ◌≡◌, ◌≢◌, refl, ap, inl, inr, Bool, true, false, some, List, [],
  ◌∷◌, get_elem?, set, length, length-set, length-replicate, ◌==◌, if◌then◌else◌, Bool-cases,
  Option-cases, arith,
}
use star_os_kernel.Process.RwLock.{
  RwLock, new, Place, outside, entering, checking, backing_out, reading, draining, writing, Call,
  read, write, fetch_add, fetch_sub, begin, advance, System, start, move, step, run,
}
use star_os_kernel.Process.RwLock.Counts.{
  sum_of, sum_of-set, sum_of-replicate, get_elem?-sum_of, two_of-sum_of, sum_of-le, sum_of_mono,
  counted, reads, claims, writes, counted-le, reads-counted, writes-claims,
}

abbrev flag : Bool → ℕ
flag b = if b then 1 else 0

-- The counter counts the threads that have added to it, the flag says that just one thread has set
-- it, and while a thread writes none reads.
unfoldable pub IsSound : System → Type 0
IsSound s =
    (length s.threads < 2 ^ 64)
    × (s.lock.readers ≡ sum_of counted s.threads)
    × (flag s.lock.writer ≡ sum_of claims s.threads)
    × (1 ≤ sum_of writes s.threads → sum_of reads s.threads ≡ 0)

start-IsSound : (n : ℕ) → n < 2 ^ 64 → IsSound (start n)
unfolding start new IsSound
start-IsSound n h = (
  omega (arith, length-replicate n outside),
  omega (arith, sum_of-replicate counted n refl),
  omega (arith, sum_of-replicate claims n refl),
  λ w. omega (arith, sum_of-replicate reads n refl),
)

-- A thread goes from `p` to `q`, and the lock changes with it.
update-IsSound :
    (s : System) (i : ℕ) (p q : Place) (lock' : RwLock)
    → get_elem? s.threads i ≡ some p
    → IsSound s
    → lock'.readers + counted p ≡ s.lock.readers + counted q
    → flag lock'.writer + claims p ≡ flag s.lock.writer + claims q
    → (writes p + 1 ≤ sum_of writes s.threads + writes q
        → sum_of reads s.threads + reads q ≡ reads p)
    → IsSound (record { lock = lock'; threads = set s.threads i q })
unfolding IsSound
update-IsSound s i p q lock' e (short, count, owner, alone) dr dw excl = (
  omega (arith, length-set s.threads i q),
  omega (arith, sum_of-set counted s.threads i p q e),
  omega (arith, sum_of-set claims s.threads i p q e),
  λ w. omega (
    arith,
    excl (omega (arith, sum_of-set writes s.threads i p q e)),
    sum_of-set reads s.threads i p q e,
  ),
)

-- The counter has room for every thread that has not added to it yet.
readers_room :
    (s : System) (i : ℕ) (p : Place)
    → get_elem? s.threads i ≡ some p
    → IsSound s
    → counted p ≡ 0
    → (s.lock.readers + 1) % 2 ^ 64 ≡ s.lock.readers + 1
unfolding IsSound
readers_room s i p e (short, count, owner, alone) none_yet = omega (
  arith,
  sum_of-set counted s.threads i p checking e,
  sum_of-le counted (set s.threads i checking) counted-le,
  length-set s.threads i checking,
)

readers_back :
    (s : System) (i : ℕ) (p : Place)
    → get_elem? s.threads i ≡ some p
    → IsSound s
    → counted p ≡ 1
    → (s.lock.readers + 2 ^ 64 - 1) % 2 ^ 64 + 1 ≡ s.lock.readers
unfolding IsSound
readers_back s i p e (short, count, owner, alone) one =
    omega (arith, get_elem?-sum_of counted s.threads i p e, sum_of-le counted s.threads counted-le)

alone_writes : (s : System) → IsSound s → 1 ≤ sum_of writes s.threads → sum_of reads s.threads ≡ 0
unfolding IsSound
alone_writes s (short, count, owner, alone) h = alone h

-- While the flag is down no thread writes.
flag_down : (s : System) → IsSound s → s.lock.writer ≡ false → sum_of writes s.threads ≡ 0
unfolding IsSound
flag_down s (short, count, owner, alone) w =
    ground (arith, sum_of_mono writes claims s.threads writes-claims)

-- While the counter is zero no thread reads.
count_zero : (s : System) → IsSound s → s.lock.readers ≡ 0 → sum_of reads s.threads ≡ 0
unfolding IsSound
count_zero s (short, count, owner, alone) z =
    omega (arith, sum_of_mono reads counted s.threads reads-counted)

-- A thread that has set the flag finds it up.
flag_up :
    (s : System) (i : ℕ) (p : Place)
    → get_elem? s.threads i ≡ some p
    → IsSound s
    → claims p ≡ 1
    → flag s.lock.writer ≡ 1
unfolding IsSound
flag_up s i p e (short, count, owner, alone) one =
    ground (arith, get_elem?-sum_of claims s.threads i p e)

begin-IsSound :
    (s : System) (i : ℕ) (call : Call)
    → get_elem? s.threads i ≡ some outside
    → IsSound s
    → IsSound
        (record { lock = (begin call s.lock).0; threads = set s.threads i (begin call s.lock).1 })
unfolding begin
begin-IsSound s i read e sound = elim (Bool-cases s.lock.writer) [
  | inl w ↦ simp w (
      update-IsSound s i outside outside s.lock e sound refl refl
        (λ h. omega (arith, alone_writes s sound)))
  | inr w ↦ simp w (
      update-IsSound s i outside entering s.lock e sound refl refl
        (λ h. omega (arith, alone_writes s sound)))
]
begin-IsSound s i write e sound = elim (Bool-cases s.lock.writer) [
  | inl w ↦ simp w (
      update-IsSound s i outside outside s.lock e sound refl refl
        (λ h. omega (arith, alone_writes s sound)))
  | inr w ↦ simp w (
      update-IsSound s i outside draining (record s.lock { writer = true }) e sound refl
        (omega (arith, ap flag w)) (λ h. omega (arith, alone_writes s sound)))
]

move-IsSound :
    (s : System) (i : ℕ) (call : Call) (p : Place)
    → get_elem? s.threads i ≡ some p
    → IsSound s
    → IsSound (move s i call (some p))
unfolding move advance fetch_add fetch_sub
move-IsSound s i call outside e sound = begin-IsSound s i call e sound
move-IsSound s i call entering e sound =
    update-IsSound s i entering checking (fetch_add s.lock) e sound
      (omega (arith, readers_room s i entering e sound refl)) refl
      (λ h. omega (arith, alone_writes s sound))
move-IsSound s i call checking e sound = elim (Bool-cases s.lock.writer) [
  | inl w ↦ simp w (
      update-IsSound s i checking backing_out s.lock e sound refl refl
        (λ h. omega (arith, alone_writes s sound)))
  | inr w ↦ simp w (
      update-IsSound s i checking reading s.lock e sound refl refl
        (λ h. absurd (omega (arith, flag_down s sound w))))
]
move-IsSound s i call backing_out e sound =
    update-IsSound s i backing_out outside (fetch_sub s.lock) e sound
      (omega (arith, readers_back s i backing_out e sound refl)) refl
      (λ h. omega (arith, alone_writes s sound))
move-IsSound s i call reading e sound =
    update-IsSound s i reading outside (fetch_sub s.lock) e sound
      (omega (arith, readers_back s i reading e sound refl)) refl
      (λ h.
        absurd (omega (arith, alone_writes s sound, get_elem?-sum_of reads s.threads i reading e)))
move-IsSound s i call draining e sound = elim (ℕ_discrete s.lock.readers 0) [
  | yes z ↦
      (let test : (s.lock.readers == 0) ≡ true = ground arith in
        rw test (
          update-IsSound s i draining writing s.lock e sound refl refl
            (λ h. omega (arith, count_zero s sound z))))
  | no nz ↦
      (let test : (s.lock.readers == 0) ≡ false = ground arith in
        rw test (
          update-IsSound s i draining draining s.lock e sound refl refl
            (λ h. omega (arith, alone_writes s sound))))
]
move-IsSound s i call writing e sound =
    update-IsSound s i writing outside (record s.lock { writer = false }) e sound refl
      (omega (arith, flag_up s i writing e sound refl)) (λ h. omega (arith, alone_writes s sound))

step-IsSound : (s : System) (i : ℕ) (call : Call) → IsSound s → IsSound (step s i call)
unfolding step move
step-IsSound s i call sound = elim (Option-cases (get_elem? s.threads i)) [
  | inl e ↦ rw e sound
  | inr (p, e) ↦ rw e (move-IsSound s i call p e sound)
]

run-IsSound : (s : System) (schedule : List (ℕ × Call)) → IsSound s → IsSound (run s schedule)
unfolding run
run-IsSound s [] sound = sound
run-IsSound s ((i, call) ∷ rest) sound =
    run-IsSound (step s i call) rest (step-IsSound s i call sound)

excluded :
    (s : System) (i j : ℕ) (q : Place)
    → IsSound s
    → i ≢ j
    → get_elem? s.threads i ≡ some writing
    → get_elem? s.threads j ≡ some q
    → (q ≢ writing) × (q ≢ reading)
unfolding IsSound
excluded s i j q (short, count, owner, alone) ne e f = (
  λ h.
      (let two : claims q ≡ 1 = ap claims h in
        let apart : claims writing + claims q ≤ sum_of claims s.threads = elim (dec_lt i j) [
          | yes lt ↦ two_of-sum_of claims s.threads i j writing q lt e f
          | no h' ↦ omega (arith, two_of-sum_of claims s.threads j i q writing (omega arith) f e)
        ] in
        ground arith),
  λ h.
      (let one : reads q ≡ 1 = ap reads h in
        omega (
          arith,
          get_elem?-sum_of reads s.threads j q f,
          alone (omega (arith, get_elem?-sum_of writes s.threads i writing e)),
        )),
)

-- However the steps of fewer than 2 ^ 64 threads interleave, from a fresh lock on: while one thread
-- has a write guard, no other thread has a write guard or a read guard.
pub run_excludes :
    (n : ℕ) (schedule : List (ℕ × Call)) (i j : ℕ) (q : Place)
    → n < 2 ^ 64
    → i ≢ j
    → get_elem? (run (start n) schedule).threads i ≡ some writing
    → get_elem? (run (start n) schedule).threads j ≡ some q
    → (q ≢ writing) × (q ≢ reading)
run_excludes n schedule i j q h ne e f =
    excluded (run (start n) schedule) i j q (run-IsSound (start n) schedule (start-IsSound n h)) ne
      e f
