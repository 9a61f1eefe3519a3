-- ===== src/Process/PriorityBitmap/Tests.antt =====
-- The bitmap at concrete marks.
use star_os_kernel.Prelude.{◌≡◌, refl, none, some, arith}
use star_os_kernel.Words.{set_bit, clear_bit, trailing_zeros}
use star_os_kernel.Process.PriorityBitmap.{PriorityBitmap, new, set, clear, find_from, find_highest}
use star_os_kernel.Process.PriorityBitmap.Highest.{IsWords}

abbrev three : PriorityBitmap
three = set (set (set new 128) 64) 0

three_highest :
    (find_highest three ≡ some 0)
    × (find_highest (clear three 0) ≡ some 64)
    × (find_highest (clear (clear three 0) 64) ≡ some 128)
    × (find_highest new ≡ none)
unfolding find_highest find_from set clear new set_bit clear_bit trailing_zeros
three_highest = (refl, refl, refl, refl)

new-IsWords : IsWords new
unfolding new
new-IsWords k hk = omega arith
