-- ===== src/Process/Task.antt =====
-- kernel/src/process/task.rs: the task control block, its states, its stack and its limits. A method
-- returns the task beside its result.
pub mod Lifecycle
pub mod Limits
mod Tests
use star_os_kernel.Prelude.{
  ℕ, ◌+◌, ◌-◌, ◌*◌, ◌%◌, ◌^◌, Bool, true, false, not, ◌||◌, Option, none, some, List, [], ◌∷◌,
  replicate, Result, ok, err, ltb, ◌==◌, if◌then◌else◌,
}
use star_os_kernel.Error.{
  KernelError, memory, process, invalid_size, invalid_alignment, invalid_process_id,
  already_terminated, invalid_parameter, resource_exhausted,
}
use star_os_kernel.Process.Ids.{TaskId, Priority}

pub data TaskState : Type 0 where
  ready running blocked suspended terminated zombie : TaskState

-- `state as u8`
abbrev pub as_u8 : TaskState → ℕ
as_u8 ready = 0
as_u8 running = 1
as_u8 blocked = 2
as_u8 suspended = 3
as_u8 terminated = 4
as_u8 zombie = 5

unfoldable pub from_u8 : ℕ → Option TaskState
from_u8 v =
    if v == 0
    then some ready
    else if v == 1
    then some running
    else if v == 2
    then some blocked
    else if v == 3
    then some suspended
    else if v == 4
    then some terminated
    else if v == 5
    then some zombie
    else none

-- The registers: 31 general ones, 32 of floating point.
pub record Context : Type 0 where
  pub x : List ℕ
  pub sp : ℕ
  pub pc : ℕ
  pub pstate : ℕ
  pub v : List ℕ
  pub fpcr : ℕ
  pub fpsr : ℕ

unfoldable pub new_context : Context
new_context = record {
  x = replicate 31 0;
  sp = 0;
  pc = 0;
  pstate = 0;
  v = replicate 32 0;
  fpcr = 0;
  fpsr = 0;
}

abbrev set_first : List ℕ → ℕ → List ℕ
set_first [] a = []
set_first (r ∷ rs) a = a ∷ rs

unfoldable pub init_context : Context → ℕ → ℕ → ℕ → Context
init_context c entry stack_top arg = record c {
  x = set_first c.x arg;
  sp = stack_top;
  pc = entry;
  pstate = 0x3C5;
}

pub record Stack : Type 0 where
  pub base : ℕ
  pub size : ℕ
  pub guard_page : Bool
  pub canary : ℕ

abbrev pub min_size : ℕ
min_size = 8 * 1024

abbrev pub canary_value : ℕ
canary_value = 0xDEADBEEFCAFEBABE

unfoldable pub new_stack : ℕ → ℕ → Bool → Result Stack KernelError
new_stack base size guard_page =
    if ltb size min_size
    then err (memory invalid_size)
    else if not (base % 4096 == 0)
    then err (memory invalid_alignment)
    else ok (record { base = base; size = size; guard_page = guard_page; canary = canary_value })

-- `base + size` of a stack, as a `usize`.
unfoldable pub stack_top : Stack → ℕ
stack_top s = (s.base + s.size) % 2 ^ 64

unfoldable pub check_overflow : Stack → Result (Unit {0}) KernelError
check_overflow s = if s.canary == canary_value then ok tt else err (process invalid_process_id)

pub record TaskStats : Type 0 where
  pub cpu_time : ℕ
  pub switches : ℕ
  pub page_faults : ℕ
  pub syscalls : ℕ

-- `state` is the byte that the kernel stores.
pub record Task : Type 0 where
  pub id : TaskId
  pub state_byte : ℕ
  pub priority : Priority
  pub context : Context
  pub stack : Stack
  pub parent : Option TaskId
  pub exit_value : ℕ
  pub stats : TaskStats
  pub owned_pages : ℕ
  pub max_pages : ℕ
  pub open_fds : ℕ
  pub max_fds : ℕ
  pub memory_allocated : ℕ
  pub max_memory : ℕ

-- The task that `Task::new` makes of its stack.
unfoldable pub init_task : TaskId → ℕ → ℕ → Priority → Option TaskId → ℕ → Stack → Task
init_task id entry arg priority parent max_pages stack = record {
  id = id;
  state_byte = as_u8 ready;
  priority = priority;
  context = init_context new_context entry (stack_top stack) arg;
  stack = stack;
  parent = parent;
  exit_value = 0;
  stats = record { cpu_time = 0; switches = 0; page_faults = 0; syscalls = 0 };
  owned_pages = 0;
  max_pages = max_pages;
  open_fds = 0;
  max_fds = 1024;
  memory_allocated = 0;
  max_memory = 256 * 1024 * 1024;
}

unfoldable pub build :
    TaskId
    → ℕ
    → ℕ
    → Priority
    → Option TaskId
    → ℕ
    → Result Stack KernelError
    → Result Task KernelError
unfolding init_task
build id entry arg priority parent max_pages (err e) = err e
build id entry arg priority parent max_pages (ok stack) =
    ok (init_task id entry arg priority parent max_pages stack)

-- The counter `NEXT_TASK_ID` goes in and comes out; it advances also where the stack is refused.
unfoldable pub new : ℕ → ℕ → ℕ → ℕ → ℕ → Priority → Option TaskId → ℕ → ℕ × Result Task KernelError
unfolding build
new next_task_id entry arg stack_base stack_size priority parent max_pages = (
  (next_task_id + 1) % 2 ^ 64,
  build next_task_id entry arg priority parent max_pages (new_stack stack_base stack_size true),
)

abbrev or_terminated : Option TaskState → TaskState
or_terminated none = terminated
or_terminated (some s) = s

unfoldable pub state : Task → TaskState
state t = or_terminated (from_u8 t.state_byte)

-- The table of `set_state`, its arms in their order.
unfoldable pub valid_transition : TaskState → TaskState → Bool
valid_transition ready running = true
valid_transition running ready = true
valid_transition running blocked = true
valid_transition blocked ready = true
valid_transition terminated suspended = false
valid_transition current suspended = true
valid_transition suspended ready = true
valid_transition current terminated = true
valid_transition terminated zombie = true
valid_transition current other = false

unfoldable pub set_state : Task → TaskState → Task × Result (Unit {0}) KernelError
set_state t new_state =
    if valid_transition (state t) new_state
    then (record t { state_byte = as_u8 new_state }, ok tt)
    else (t, err (invalid_parameter "Invalid state transition"))

unfoldable pub suspend : Task → Task × Result (Unit {0}) KernelError
suspend t = set_state t suspended

-- `self.state() == s`
abbrev pub is_state : TaskState → TaskState → Bool
is_state a b = as_u8 a == as_u8 b

unfoldable pub resume : Task → Task × Result (Unit {0}) KernelError
resume t =
    if is_state (state t) suspended
    then set_state t ready
    else (t, err (invalid_parameter "Task is not suspended"))

-- `if self.parent.is_some() { self.set_state(Zombie)? }`
unfoldable pub become_zombie : Option TaskId → Task → Task × Result (Unit {0}) KernelError
become_zombie none t = (t, ok tt)
become_zombie (some p) t = set_state t zombie

-- What `terminate` does after it marked the task terminated.
unfoldable pub reap_later :
    Task × Result (Unit {0}) KernelError → Task × Result (Unit {0}) KernelError
unfolding become_zombie
reap_later (t, err e) = (t, err e)
reap_later (t, ok _) = become_zombie t.parent t

unfoldable pub terminate : Task → ℕ → Task × Result (Unit {0}) KernelError
terminate t exit_code =
    if is_state (state t) terminated
    then (t, err (process already_terminated))
    else reap_later (set_state (record t { exit_value = exit_code }) terminated)

unfoldable pub is_terminated : Task → Bool
is_terminated t = is_state (state t) terminated || is_state (state t) zombie

unfoldable pub exit_code : Task → Option ℕ
exit_code t = if is_terminated t then some t.exit_value else none

unfoldable pub check_limits : Task → Result (Unit {0}) KernelError
check_limits t =
    if ltb t.max_pages t.owned_pages
    then err resource_exhausted
    else if ltb t.max_fds t.open_fds
    then err resource_exhausted
    else if ltb t.max_memory t.memory_allocated
    then err resource_exhausted
    else ok tt

-- `owned_pages + count` is a `u64` addition, which wraps.
unfoldable pub alloc_pages : Task → ℕ → Task × Result (Unit {0}) KernelError
alloc_pages t count =
    let total = (t.owned_pages + count) % 2 ^ 64 in
    if ltb t.max_pages total
    then (t, err resource_exhausted)
    else (record t { owned_pages = total }, ok tt)

unfoldable pub free_pages : Task → ℕ → Task
free_pages t count = record t { owned_pages = t.owned_pages - count }
