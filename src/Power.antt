-- ===== src/Power.antt =====
-- kernel/src/power.rs: the power state, the governor and the frequency of the processor. Each call is
-- one step; what `set_frequency` and the shutdown write to the hardware is not part of the model.
pub mod Frequency
mod Tests
use star_os_kernel.Prelude.{
  ℕ, ◌/◌, ◌%◌, ◌^◌, max, Bool, true, false, ◌&&◌, ◌||◌, Result, ok, err, ltb, ◌==◌, if◌then◌else◌,
}
use star_os_kernel.Words.{set_bit}
use star_os_kernel.Error.{KernelError, operation_failed, not_supported, invalid_parameter}

pub data PowerState : Type 0 where
  active idle standby suspend hibernate off : PowerState

abbrev pub as_u8 : PowerState → ℕ
as_u8 active = 0
as_u8 idle = 1
as_u8 standby = 2
as_u8 suspend = 3
as_u8 hibernate = 4
as_u8 off = 5

pub data Governor : Type 0 where
  performance powersave on_demand userspace : Governor

abbrev pub governor_as_u8 : Governor → ℕ
governor_as_u8 performance = 0
governor_as_u8 powersave = 1
governor_as_u8 on_demand = 2
governor_as_u8 userspace = 3

-- The atomics hold the numbers of the state and of the governor.
pub record PowerManager : Type 0 where
  pub power_state : ℕ
  pub power_governor : ℕ
  pub current_freq_khz : ℕ
  pub min_freq_khz : ℕ
  pub max_freq_khz : ℕ
  pub suspend_blocked : Bool
  pub wake_sources : ℕ

unfoldable pub new : ℕ → ℕ → PowerManager
new min_freq_khz max_freq_khz = record {
  power_state = as_u8 active;
  power_governor = governor_as_u8 on_demand;
  current_freq_khz = max_freq_khz;
  min_freq_khz = min_freq_khz;
  max_freq_khz = max_freq_khz;
  suspend_blocked = false;
  wake_sources = 0;
}

unfoldable pub state : PowerManager → PowerState
state m =
    if m.power_state == 0
    then active
    else if m.power_state == 1
    then idle
    else if m.power_state == 2
    then standby
    else if m.power_state == 3
    then suspend
    else if m.power_state == 4
    then hibernate
    else off

-- `matches!(new_state, Suspend | Hibernate)`
unfoldable pub sleeps : PowerState → Bool
sleeps suspend = true
sleeps hibernate = true
sleeps _ = false

unfoldable pub enter :
    PowerManager → PowerState → PowerState → PowerManager × Result (Unit {0}) KernelError
enter m off new_state = (m, err not_supported)
enter m _ new_state = (record m { power_state = as_u8 new_state }, ok tt)

unfoldable pub set_state : PowerManager → PowerState → PowerManager × Result (Unit {0}) KernelError
set_state m new_state =
    if sleeps new_state && m.suspend_blocked
    then (m, err operation_failed)
    else enter m (state m) new_state

unfoldable pub set_governor : PowerManager → Governor → PowerManager
set_governor m gov = record m { power_governor = governor_as_u8 gov }

unfoldable pub governor : PowerManager → Governor
governor m =
    if m.power_governor == 0
    then performance
    else if m.power_governor == 1
    then powersave
    else if m.power_governor == 2
    then on_demand
    else userspace

unfoldable pub set_frequency : PowerManager → ℕ → PowerManager × Result (Unit {0}) KernelError
set_frequency m freq_khz =
    if ltb freq_khz m.min_freq_khz || ltb m.max_freq_khz freq_khz
    then (m, err (invalid_parameter "frequency out of range"))
    else (record m { current_freq_khz = freq_khz }, ok tt)

unfoldable pub block_suspend : PowerManager → PowerManager
block_suspend m = record m { suspend_blocked = true }

unfoldable pub unblock_suspend : PowerManager → PowerManager
unblock_suspend m = record m { suspend_blocked = false }

-- `1 << (irq & 31)`
unfoldable pub register_wake_source : PowerManager → ℕ → PowerManager
register_wake_source m irq = record m { wake_sources = set_bit m.wake_sources (irq % 32) }

unfoldable pub is_on_demand : Governor → Bool
is_on_demand on_demand = true
is_on_demand _ = false

unfoldable pub cpu_idle_enter : PowerManager → PowerManager
cpu_idle_enter m =
    if is_on_demand (governor m)
    then record m { current_freq_khz = max (m.current_freq_khz / 2) m.min_freq_khz }
    else m

unfoldable pub cpu_idle_exit : PowerManager → PowerManager
cpu_idle_exit m =
    if is_on_demand (governor m) then record m { current_freq_khz = m.max_freq_khz } else m
