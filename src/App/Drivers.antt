-- ===== src/App/Drivers.antt =====
-- The battery and the start of the network core: device/bootloader/Source/battery.c and ipc.c.
use swarmit.Base.{ℕ, Bool, false, not, ltb, ◌&&◌, if◌then◌else◌, Outcome, next, stopped}
use swarmit.Shared.{IpcSharedData}
use swarmit.App.{NetCore, AppState}

-- BATTERY_LEVEL_MAX_MV
abbrev pub battery_level_max_mv : ℕ
battery_level_max_mv = 3000

-- `to_mv` is the floating-point conversion of the 12 bits read.
unfoldable pub battery_level_read : (ℕ → ℕ) → ℕ → ℕ
battery_level_read to_mv value_12b =
    let voltage_mv = to_mv value_12b in
    if ltb battery_level_max_mv voltage_mv then battery_level_max_mv else voltage_mv

module _ {L : Type 0} where
  -- `wake` is what the network core makes of the shared structure once it runs. The wait is endless
  -- if it never reports ready.
  unfoldable pub release_network_core : NetCore → Bool → AppState L → Outcome (AppState L)
  release_network_core wake forced_off s =
      if not forced_off && s.shared.net_ready
      then next s
      else if (wake waiting).net_ready
      then next (record s { shared = wake waiting })
      else stopped (record s { shared = wake waiting })
    where
      waiting : IpcSharedData
      waiting = if not forced_off then record s.shared { net_ready = false } else s.shared
