-- ===== src/Process/Task/Limits.antt =====
-- The resources of a task (kernel/src/process/task.rs): pages, descriptors, memory, and its stack.
use star_os_kernel.Prelude.{
  ℕ, ◌+◌, ◌%◌, ◌^◌, ◌<◌, ◌≤◌, ◌≡◌, ◌↔◌, ◌⊎◌, inl, inr, refl, ap, true, Option, Result, ok, err,
  arith,
}
use native.Mathlib.Decide.{dec_lt}
use star_os_kernel.Error.{KernelError, memory, invalid_size, invalid_alignment, resource_exhausted}
use star_os_kernel.Process.Ids.{TaskId, Priority}
use star_os_kernel.Process.Task.{
  TaskState, Task, Stack, init_task, build, new, new_stack, new_context, init_context, stack_top,
  min_size, canary_value, check_overflow, state, from_u8, check_limits, alloc_pages, free_pages,
}

-- `check_limits` succeeds exactly where each of the three counts is within its bound.
pub check_limits_iff :
    (t : Task)
    → (check_limits t ≡ ok tt) ↔ (
        (t.owned_pages ≤ t.max_pages)
        × (t.open_fds ≤ t.max_fds)
        × (t.memory_allocated ≤ t.max_memory))
unfolding check_limits
check_limits_iff t = ground arith

-- Where the sum fits 64 bits, `alloc_pages` grants the pages exactly within the bound, and
-- otherwise changes nothing; freeing them again restores the task.
pub alloc_pages_bounds :
    (t : Task) (count : ℕ)
    → t.owned_pages + count < 2 ^ 64
    → ((t.owned_pages + count ≤ t.max_pages)
        × (alloc_pages t count ≡ (record t { owned_pages = t.owned_pages + count }, ok tt))
        × (free_pages (alloc_pages t count).0 count ≡ t))
      ⊎ ((t.max_pages < t.owned_pages + count)
          × (alloc_pages t count ≡ (t, err resource_exhausted)))
unfolding alloc_pages free_pages
alloc_pages_bounds t count fits = elim (dec_lt t.max_pages (t.owned_pages + count)) [
  | yes h ↦ inr (h, ground arith)
  | no h ↦ inl (omega arith, ground arith, ground arith)
]

-- A request so large that the sum wraps is granted to every task within its bound, and lowers the
-- count of its pages.
pub alloc_pages_wraps :
    (t : Task) (count : ℕ)
    → t.owned_pages ≤ t.max_pages
    → t.owned_pages < 2 ^ 64
    → count < 2 ^ 64
    → 2 ^ 64 ≤ t.owned_pages + count
    → ((alloc_pages t count).1 ≡ ok tt) × ((alloc_pages t count).0.owned_pages < t.owned_pages)
unfolding alloc_pages
alloc_pages_wraps t count h small big wraps = ground arith

abbrev fresh_stack : ℕ → ℕ → Stack
fresh_stack base size = record {
  base = base;
  size = size;
  guard_page = true;
  canary = canary_value;
}

new_stack_cases :
    (base size : ℕ)
    → ((size < min_size) × (new_stack base size true ≡ err (memory invalid_size)))
      ⊎ ((min_size ≤ size)
          × (0 < base % 4096)
          × (new_stack base size true ≡ err (memory invalid_alignment)))
      ⊎ ((min_size ≤ size)
          × (base % 4096 ≡ 0)
          × (new_stack base size true ≡ ok (fresh_stack base size)))
unfolding new_stack
new_stack_cases base size = elim (dec_lt size min_size) [
  | yes small ↦ inl (small, ground arith)
  | no h ↦ elim (dec_lt 0 (base % 4096)) [
    | yes off ↦ inr (inl (omega arith, off, ground arith))
    | no aligned ↦ inr (inr (omega arith, omega arith, ground arith))
  ]
]

-- `Task::new` in every case: a stack that is too small, or not aligned, is refused with the
-- matching error. Any other gives a task that is ready, within its limits and with an intact stack,
-- and that starts at its entry with the stack pointer at the end of the stack.
pub new_task :
    (next_id entry arg base size : ℕ) (priority : Priority) (parent : Option TaskId) (max_pages : ℕ)
    → let answer = (new next_id entry arg base size priority parent max_pages).1 in
      ((size < min_size) × (answer ≡ err (memory invalid_size)))
      ⊎ ((min_size ≤ size) × (0 < base % 4096) × (answer ≡ err (memory invalid_alignment)))
      ⊎ ((min_size ≤ size)
          × (base % 4096 ≡ 0)
          × ((t : Task) × (answer ≡ ok t)
              × (t.id ≡ next_id)
              × (state t ≡ TaskState.ready)
              × (check_limits t ≡ ok tt)
              × (check_overflow t.stack ≡ ok tt)
              × (t.context.sp ≡ (base + size) % 2 ^ 64)
              × (t.context.pc ≡ entry)))
unfolding new state from_u8 check_limits check_overflow stack_top init_context new_context
new_task next_id entry arg base size priority parent max_pages = elim (new_stack_cases base size) [
  | inl (h, e) ↦ inl (h, ap make e)
  | inr (inl (h, k, e)) ↦ inr (inl (h, k, ap make e))
  | inr (inr (h, k, e)) ↦ inr (
      inr (
        h,
        k,
        (task, ap make e, refl, refl, (check_limits_iff task).1 (omega arith), refl, refl, refl),
      ))
]
  where
    make : Result Stack KernelError → Result Task KernelError
    make = build next_id entry arg priority parent max_pages

    task : Task
    task = init_task next_id entry arg priority parent max_pages (fresh_stack base size)
