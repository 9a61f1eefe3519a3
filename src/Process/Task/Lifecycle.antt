-- ===== src/Process/Task/Lifecycle.antt =====
-- The states of a task (kernel/src/process/task.rs): which changes are accepted, and how a task ends.
use star_os_kernel.Prelude.{
  ℕ, ◌≡◌, ◌≢◌, ◌⊎◌, inl, inr, refl, ap, ◌∙◌, sym, subst, true, false, Option, none, some, ok, err,
  Bool-cases, Option-cases, arith,
}
use star_os_kernel.Error.{process, already_terminated, invalid_parameter}
use star_os_kernel.Process.Ids.{TaskId}
use star_os_kernel.Process.Task.{
  TaskState, as_u8, from_u8, Task, state, or_terminated, valid_transition, set_state, suspend,
  resume, is_state, become_zombie, reap_later, terminate, is_terminated, exit_code,
}

TaskState-discrete : Discrete TaskState
TaskState-discrete = hlevel

-- The changes of state that the kernel means to accept.
pub data Step : TaskState → TaskState → Type 0 where
  start : Step TaskState.ready TaskState.running
  yields : Step TaskState.running TaskState.ready
  waits : Step TaskState.running TaskState.blocked
  wakes : Step TaskState.blocked TaskState.ready
  suspends : {s : TaskState} → s ≢ TaskState.terminated → Step s TaskState.suspended
  resumes : Step TaskState.suspended TaskState.ready
  ends : {s : TaskState} → Step s TaskState.terminated
  becomes_zombie : Step TaskState.terminated TaskState.zombie

Step-sound : {a b : TaskState} → Step a b → valid_transition a b ≡ true
unfolding valid_transition
Step-sound start = refl
Step-sound yields = refl
Step-sound waits = refl
Step-sound wakes = refl
Step-sound (suspends {s} ne) = ground arith
Step-sound resumes = refl
Step-sound (ends {s}) = ground arith
Step-sound becomes_zombie = refl

Step-complete : (a b : TaskState) → valid_transition a b ≡ true → Step a b
unfolding valid_transition
Step-complete TaskState.ready TaskState.running e = start
Step-complete TaskState.running TaskState.ready e = yields
Step-complete TaskState.running TaskState.blocked e = waits
Step-complete TaskState.blocked TaskState.ready e = wakes
Step-complete TaskState.terminated TaskState.suspended e = absurd (ground arith)
Step-complete a TaskState.suspended e = suspends (λ h. cc)
Step-complete TaskState.suspended TaskState.ready e = resumes
Step-complete a TaskState.terminated e = ends
Step-complete TaskState.terminated TaskState.zombie e = becomes_zombie
Step-complete a b e = absurd (ground arith)

pub from_u8-as_u8 : (s : TaskState) → from_u8 (as_u8 s) ≡ some s
unfolding from_u8
from_u8-as_u8 TaskState.ready = refl
from_u8-as_u8 s = refl

-- The byte of a state reads back as that state.
pub state_written : (t : Task) (s : TaskState) → state (record t { state_byte = as_u8 s }) ≡ s
unfolding state
state_written t s = ap or_terminated (from_u8-as_u8 s)

-- `set_state` accepts exactly the steps of the task's state machine. Then the task is in the new
-- state, and otherwise it is unchanged and the caller is told.
pub set_state_steps :
    (t : Task) (s : TaskState)
    → (Step (state t) s × ((set_state t s).1 ≡ ok tt) × (state (set_state t s).0 ≡ s))
      ⊎ ((¬ Step (state t) s)
          × (set_state t s ≡ (t, err (invalid_parameter "Invalid state transition"))))
unfolding set_state
set_state_steps t s = elim (Bool-cases (valid_transition (state t) s)) [
  | inl e ↦ inl (Step-complete (state t) s e, rw e, rw e (state_written t s))
  | inr e ↦ inr (λ st. cc (Step-sound st), rw e)
]

set_state-Step :
    (t : Task) (s : TaskState)
    → Step (state t) s
    → set_state t s ≡ (record t { state_byte = as_u8 s }, ok tt)
unfolding set_state
set_state-Step t s st = rw (Step-sound st)

is_state-false :
    (a : TaskState) → a ≢ TaskState.terminated → is_state a TaskState.terminated ≡ false
is_state-false TaskState.terminated ne = absurd (ne refl)
is_state-false TaskState.ready ne = refl
is_state-false a ne = refl

abbrev ended : Task → ℕ → Task
ended t code = record t { exit_value = code; state_byte = as_u8 TaskState.terminated }

abbrev zombified : Task → ℕ → Task
zombified t code = record t { exit_value = code; state_byte = as_u8 TaskState.zombie }

terminate_again :
    (t : Task) (code : ℕ)
    → state t ≡ TaskState.terminated
    → terminate t code ≡ (t, err (process already_terminated))
unfolding terminate
terminate_again t code e = rw e

terminate_live :
    (t : Task) (code : ℕ)
    → state t ≢ TaskState.terminated
    → terminate t code ≡ reap_later (ended t code, ok tt)
unfolding terminate
terminate_live t code ne = rw (
  is_state-false (state t) ne,
  set_state-Step (record t { exit_value = code }) TaskState.terminated ends,
)

reap_later_orphan :
    (t : Task) (code : ℕ)
    → t.parent ≡ none
    → reap_later (ended t code, ok tt) ≡ (ended t code, ok tt)
unfolding reap_later
reap_later_orphan t code e = ap (λ (o : Option TaskId). become_zombie o (ended t code)) e

reap_later_child :
    (t : Task) (code : ℕ) (p : TaskId)
    → t.parent ≡ some p
    → reap_later (ended t code, ok tt) ≡ (zombified t code, ok tt)
unfolding reap_later
reap_later_child t code p e =
    ap (λ (o : Option TaskId). become_zombie o (ended t code)) e
    ∙ set_state-Step (ended t code) TaskState.zombie (
        subst (λ (s : TaskState). Step s TaskState.zombie)
          (sym (state_written (record t { exit_value = code }) TaskState.terminated))
          becomes_zombie)

exit_code-ended :
    (t : Task) (code : ℕ)
    → (exit_code (ended t code) ≡ some code) × (exit_code (zombified t code) ≡ some code)
unfolding exit_code is_terminated state from_u8
exit_code-ended t code = (refl, refl)

-- What `terminate` does in every case: a terminated task is refused and unchanged. Any other task
-- gets the exit code; with a parent it waits as a zombie, without one it is terminated.
pub terminate_ends :
    (t : Task) (code : ℕ)
    → ((state t ≡ TaskState.terminated)
        × (terminate t code ≡ (t, err (process already_terminated))))
      ⊎ ((state t ≢ TaskState.terminated)
          × ((terminate t code).1 ≡ ok tt)
          × (exit_code (terminate t code).0 ≡ some code)
          × (((t.parent ≡ none) × (state (terminate t code).0 ≡ TaskState.terminated))
              ⊎ ((p : TaskId) × (t.parent ≡ some p)
                  × (state (terminate t code).0 ≡ TaskState.zombie))))
terminate_ends t code = elim (TaskState-discrete (state t) TaskState.terminated) [
  | yes e ↦ inl (e, terminate_again t code e)
  | no ne ↦ elim (Option-cases t.parent) [
    | inl e ↦
        rw (terminate_live t code ne, reap_later_orphan t code e)
          (inr (
            ne,
            refl,
            (exit_code-ended t code).0,
            inl (e, state_written (record t { exit_value = code }) TaskState.terminated),
          ))
    | inr (p, e) ↦
        rw (terminate_live t code ne, reap_later_child t code p e)
          (inr (
            ne,
            refl,
            (exit_code-ended t code).1,
            inr (p, e, state_written (record t { exit_value = code }) TaskState.zombie),
          ))
  ]
]

-- A zombie is not at its end: it can be suspended and resumed, and is then ready to run again.
pub zombie_revives :
    (t : Task)
    → state t ≡ TaskState.zombie
    → ((suspend t).1 ≡ ok tt)
      × ((resume (suspend t).0).1 ≡ ok tt)
      × (state (resume (suspend t).0).0 ≡ TaskState.ready)
unfolding suspend resume
zombie_revives t e =
    rw
      (
        set_state-Step t TaskState.suspended
            (subst (λ (s : TaskState). Step s TaskState.suspended) (sym e) (suspends (λ h. cc))),
        state_written t TaskState.suspended,
        set_state-Step (record t { state_byte = as_u8 TaskState.suspended }) TaskState.ready
            (subst (λ (s : TaskState). Step s TaskState.ready)
              (sym (state_written t TaskState.suspended)) resumes),
      )
      (refl, refl, state_written t TaskState.ready)
