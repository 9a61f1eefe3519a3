-- ===== src/Power/Frequency.antt =====
-- The bounds of the frequency, and the last state, of kernel/src/power.rs.
use star_os_kernel.Prelude.{ℕ, ◌≤◌, ◌≡◌, refl, List, [], ◌∷◌, arith}
use star_os_kernel.Power.{
  PowerState, off, Governor, PowerManager, new, state, sleeps, enter, set_state, set_governor,
  set_frequency, block_suspend, unblock_suspend, register_wake_source, cpu_idle_enter,
  cpu_idle_exit,
}

-- The calls of a power manager.
pub data Op : Type 0 where
  sets_state : PowerState → Op
  sets_governor : Governor → Op
  sets_frequency : ℕ → Op
  blocks : Op
  unblocks : Op
  registers : ℕ → Op
  enters_idle : Op
  exits_idle : Op

unfoldable pub apply : PowerManager → Op → PowerManager
apply m (sets_state s) = (set_state m s).0
apply m (sets_governor g) = set_governor m g
apply m (sets_frequency f) = (set_frequency m f).0
apply m blocks = block_suspend m
apply m unblocks = unblock_suspend m
apply m (registers irq) = register_wake_source m irq
apply m enters_idle = cpu_idle_enter m
apply m exits_idle = cpu_idle_exit m

unfoldable pub run : PowerManager → List Op → PowerManager
run m [] = m
run m (op ∷ ops) = run (apply m op) ops

-- The frequency lies within the bounds, which are those of the start.
abbrev pub IsWithin : ℕ → ℕ → PowerManager → Type 0
IsWithin low high m =
    (m.min_freq_khz ≡ low)
    × (m.max_freq_khz ≡ high)
    × (low ≤ m.current_freq_khz)
    × (m.current_freq_khz ≤ high)

set_state-IsWithin :
    (low high : ℕ) (m : PowerManager) (s : PowerState)
    → IsWithin low high m
    → IsWithin low high (set_state m s).0
unfolding set_state enter
set_state-IsWithin low high m s w = ground arith

apply-IsWithin :
    (low high : ℕ) (m : PowerManager) (op : Op)
    → low ≤ high
    → IsWithin low high m
    → IsWithin low high (apply m op)
unfolding apply set_governor set_frequency block_suspend unblock_suspend register_wake_source
    cpu_idle_enter cpu_idle_exit
apply-IsWithin low high m (sets_state s) le w = set_state-IsWithin low high m s w
apply-IsWithin low high m (sets_governor g) le w = w
apply-IsWithin low high m (sets_frequency f) le w = ground arith
apply-IsWithin low high m blocks le w = w
apply-IsWithin low high m unblocks le w = w
apply-IsWithin low high m (registers irq) le w = w
apply-IsWithin low high m enters_idle le w = ground arith
apply-IsWithin low high m exits_idle le w = ground arith

run-IsWithin :
    (low high : ℕ) (ops : List Op) (m : PowerManager)
    → low ≤ high
    → IsWithin low high m
    → IsWithin low high (run m ops)
unfolding run
run-IsWithin low high [] m le w = w
run-IsWithin low high (op ∷ ops) m le w =
    run-IsWithin low high ops (apply m op) le (apply-IsWithin low high m op le w)

-- From the start, whatever is called, the frequency stays between the bounds that the manager was
-- made with, where the lower is not above the upper.
pub run-new-IsWithin :
    (low high : ℕ) (ops : List Op) → low ≤ high → IsWithin low high (run (new low high) ops)
unfolding new
run-new-IsWithin low high ops le =
    run-IsWithin low high ops (new low high) le (refl, refl, le, omega arith)

apply_off : (m : PowerManager) (op : Op) → 5 ≤ m.power_state → 5 ≤ (apply m op).power_state
unfolding apply set_governor set_frequency block_suspend unblock_suspend register_wake_source
    cpu_idle_enter cpu_idle_exit set_state enter state
apply_off m op h = ground arith

run_off : (ops : List Op) (m : PowerManager) → 5 ≤ m.power_state → 5 ≤ (run m ops).power_state
unfolding run
run_off [] m h = h
run_off (op ∷ ops) m h = run_off ops (apply m op) (apply_off m op h)

switched_off : (m : PowerManager) → 5 ≤ (set_state m off).0.power_state
unfolding set_state enter state sleeps
switched_off m = ground arith

state-off : (m : PowerManager) → 5 ≤ m.power_state → state m ≡ off
unfolding state
state-off m h = ground arith

-- After a request to power off, in whatever state, the state is off whatever is called.
pub set_state-off : (m : PowerManager) (ops : List Op) → state (run (set_state m off).0 ops) ≡ off
set_state-off m ops =
    state-off (run (set_state m off).0 ops) (run_off ops (set_state m off).0 (switched_off m))
