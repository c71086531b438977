-- ===== src/Single/Start.antt =====
-- The start of device/bootloader-single-core/Source/main.c, up to its loop or to the user image.
use swarmit.Base.{ℕ, Bool, true, List, ◌∷◌, Option, some, if◌then◌else◌, Outcome, next, stopped}
use swarmit.Protocol.{ready, running}
use swarmit.App.Ota.{base_address}
use swarmit.App.Boot.{is_soft_reset, Watchdog, setup_watchdog0, Periodic, read_battery}
use swarmit.Single.{SingleState, watchdog_start, emit, mari_init}

-- SWARMIT_MARI_NET_ID
abbrev pub net_id : ℕ
net_id = 0x12AA

abbrev pub battery_update_delay : ℕ
battery_update_delay = 1000

-- The registers that the start reads and writes: RESETREAS, the watchdog, VTOR, whether the pin of
-- the LED is an output, the periodic calls of timer 1, and the period of the status timer.
pub record SingleMachine : Type 0 where
  pub reset_reason : ℕ
  pub watchdog : Watchdog
  pub vtor : ℕ
  pub led_output : Bool
  pub timers : List Periodic
  pub status_period_us : Option ℕ

-- The LED and the timers of the loop.
unfoldable pub setup_loop : SingleMachine → SingleMachine
setup_loop m = record m {
  led_output = true;
  timers =
      record { channel = 1; period_ms = battery_update_delay; callback = read_battery } ∷ m.timers;
  status_period_us = some 1_000_000;
}

-- After a reset by software the watchdog is set up and started and the user image entered, after
-- any other the loop follows. `sreq_msk` is the bit of the register for a reset by software, and
-- `level` what `battery_level_read` returns; `setup_watchdog` is the text of `setup_watchdog0`.
unfoldable pub start_up :
    ℕ → ℕ → ℕ → ℕ → SingleMachine → SingleState → SingleMachine × Outcome SingleState
unfolding setup_watchdog0 setup_loop
start_up sreq_msk device_id device_type level m s =
    if is_soft_reset sreq_msk m.reset_reason
    then (
      record m' { watchdog = setup_watchdog0 m.watchdog; vtor = base_address },
      stopped (
          emit watchdog_start
            (record s' { vars = record s'.vars { status = running }; in_user_image = true })),
    )
    else (
      setup_loop m',
      next (record s' {
        base_addr = base_address;
        ota_require_erase = true;
        vars = record s'.vars { status = ready };
      }),
    )
  where
    m' : SingleMachine
    m' = record m { reset_reason = 0 }

    s' : SingleState
    s' = record (emit (mari_init net_id) s) {
      device_id = device_id;
      vars = record s.vars { device_type = device_type; battery_level = level };
    }
