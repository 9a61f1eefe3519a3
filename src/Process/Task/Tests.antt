-- ===== src/Process/Task/Tests.antt =====
-- Tasks at concrete states.
use star_os_kernel.Prelude.{◌≡◌, ◌⊎◌, true, some, ok, err}
use star_os_kernel.Error.{invalid_parameter}
use star_os_kernel.Process.Ids.{normal}
use star_os_kernel.Process.Task.{
  TaskState, as_u8, Task, Stack, init_task, canary_value, state, set_state,
}
use star_os_kernel.Process.Task.Lifecycle.{Step, set_state_steps}

abbrev big_stack : Stack
big_stack = record { base = 0x10000; size = 0x10000; guard_page = true; canary = canary_value }

abbrev child : Task
child = init_task 7 0x4000 0 normal (some 1) 16 big_stack

set_state_steps_example :
    (Step (state child) TaskState.running
      × ((set_state child TaskState.running).1 ≡ ok tt)
      × (state (set_state child TaskState.running).0 ≡ TaskState.running))
    ⊎ ((¬ Step (state child) TaskState.running)
        × (set_state child TaskState.running
            ≡ (child, err (invalid_parameter "Invalid state transition"))))
set_state_steps_example = set_state_steps child TaskState.running

abbrev dead : Task
dead = record child { state_byte = as_u8 TaskState.zombie }

abbrev owner : Task
owner = record child { owned_pages = 4; max_pages = 16 }
