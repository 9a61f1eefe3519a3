-- ===== src/Process/PriorityBitmap.antt =====
-- kernel/src/process/scheduler.rs, `PriorityBitmap`: 256 marks in four words.
pub mod Highest
mod Tests
use star_os_kernel.Prelude.{
  ℕ, zero, suc, ◌+◌, ◌*◌, ◌/◌, ◌%◌, Option, none, some, Array, store, ◌==◌, if◌then◌else◌,
}
use star_os_kernel.Words.{set_bit, clear_bit, trailing_zeros}

abbrev pub PriorityBitmap : Type 0
PriorityBitmap = Array ℕ

unfoldable pub new : PriorityBitmap
new i = 0

unfoldable pub set : PriorityBitmap → ℕ → PriorityBitmap
set bits priority = store bits (priority / 64) (set_bit (bits (priority / 64)) (priority % 64))

unfoldable pub clear : PriorityBitmap → ℕ → PriorityBitmap
clear bits priority =
    store bits (priority / 64) (clear_bit 64 (bits (priority / 64)) (priority % 64))

-- The loop of `find_highest` over the words from `word_idx` on; the result is a `u8`.
unfoldable pub find_from : PriorityBitmap → ℕ → ℕ → Option ℕ
find_from bits zero word_idx = none
find_from bits (suc left) word_idx =
    let rest = find_from bits left (word_idx + 1) in
    if bits word_idx == 0
    then rest
    else some ((word_idx * 64 + trailing_zeros 64 (bits word_idx)) % 256)

unfoldable pub find_highest : PriorityBitmap → Option ℕ
find_highest bits = find_from bits 4 0
