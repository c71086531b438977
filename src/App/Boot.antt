-- ===== src/App/Boot.antt =====
-- The start of device/bootloader/Source/main.c: what `main` does before its loop, up to the decision
-- between the user image and the loop.
use Prim.Native.Nat.{bit_and}
use swarmit.Base.{
  ℕ, Bool, true, List, [], ◌∷◌, ◌&&◌, ltb, leb, ◌==◌, ◌!=◌, if◌then◌else◌, Outcome, next, stopped,
  fault, ◌>>=◌, ◌-◌,
}
use swarmit.Protocol.{ready, running}
use swarmit.Shared.{IpcLh2Calibration, lh2_basestation_count_max}
use swarmit.Localization.{Localizer}
use swarmit.Tz.{SpuBits, Spu}
use swarmit.Tz.User.{
  Board, ScbMasks, Scb, Irq, ipc, spim4, user_irqs, setup_scb, setup_ns_user, setup_memory,
}
use swarmit.Wires.{Wires, configure_channels}
use swarmit.App.{NetCore, AppState, Led, red, green, blue}
use swarmit.App.Mari.{mari_init}
use swarmit.App.Drivers.{release_network_core}
use swarmit.App.Ota.{base_address}
use swarmit.App.Loop.{boot_intent_user_image}

-- What the timer calls, in the handlers of the main loop.
pub data Callback : Type 0 where
  update_position read_battery : Callback

-- `db_timer_set_periodic_ms`, with its channel and its period.
pub record Periodic : Type 0 where
  pub channel : ℕ
  pub period_ms : ℕ
  pub callback : Callback

abbrev pub position_update_delay_ms : ℕ
position_update_delay_ms = 100

abbrev pub battery_update_delay : ℕ
battery_update_delay = 1000

-- A watchdog: whether it runs in sleep, waits while the debugger halts the core, its first reload
-- register, its count, and whether the program has started it.
pub record Watchdog : Type 0 where
  pub sleep_run : Bool
  pub halt_pause : Bool
  pub rr0_enabled : Bool
  pub crv : ℕ
  pub started : Bool

-- One second of the clock of 32768 Hz. The bits written pause the count while the core is halted.
unfoldable pub setup_watchdog1 : Watchdog → Watchdog
setup_watchdog1 w = record w {
  sleep_run = true;
  halt_pause = true;
  rr0_enabled = true;
  crv = 32768 - 1;
}

unfoldable pub setup_watchdog0 : Watchdog → Watchdog
setup_watchdog0 w = record w {
  sleep_run = true;
  halt_pause = true;
  rr0_enabled = true;
  crv = 32768 - 1;
  started = true;
}

-- The registers that the start reads and writes, beside those of the drivers.
pub record Machine : Type 0 where
  pub spu : Spu
  pub scb : Scb
  -- RESETREAS
  pub reset_reason : ℕ
  -- the interrupts handed to the user image, the last one first
  pub non_secure_irqs : List Irq
  pub watchdog0 : Watchdog
  pub watchdog1 : Watchdog
  -- VTOR of the user side, and whether the core has jumped to the image
  pub vtor_ns : ℕ
  pub in_user_image : Bool
  pub wires : Wires
  -- the pins of the LEDs that are outputs, and the periodic calls of timer 1, the last one first
  pub led_outputs : List Led
  pub timers : List Periodic

-- `resetreas & (RESET_RESETREAS_SREQ_Detected << RESET_RESETREAS_SREQ_Pos)`, given the mask
abbrev pub is_soft_reset : ℕ → ℕ → Bool
is_soft_reset sreq_msk reason = bit_and reason sreq_msk != 0

abbrev pub push_all : List Irq → List Irq → List Irq
push_all [] acc = acc
push_all (i ∷ is) acc = push_all is (i ∷ acc)

-- `NVIC_ClearTargetState` of SPIM4 and IPC
abbrev clear_target_states : List Irq → List Irq
clear_target_states [] = []
clear_target_states (ipc ∷ is) = clear_target_states is
clear_target_states (spim4 ∷ is) = clear_target_states is
clear_target_states (i ∷ is) = i ∷ clear_target_states is

-- The LEDs and the timer of the main loop.
unfoldable pub setup_loop : Machine → Machine
setup_loop m = record m {
  led_outputs = blue ∷ green ∷ red ∷ m.led_outputs;
  timers =
      record { channel = 2; period_ms = battery_update_delay; callback = read_battery }
      ∷ record { channel = 1; period_ms = position_update_delay_ms; callback = update_position }
      ∷ m.timers;
}

module _ {L : Type 0} (loc : Localizer L) (bits : SpuBits) (masks : ScbMasks) (board : Board)
    (sreq_msk : ℕ) where
  -- The calibration, if there is one.
  unfoldable pub init_localization : AppState L → Outcome (AppState L)
  init_localization s =
      if ltb 0 c.homography_count && leb c.homography_count lh2_basestation_count_max
      then finish (loc.init c.homographies c.homography_count s.localization)
      else next s
    where
      c : IpcLh2Calibration
      c = s.shared.lh2_calibration

      finish : Outcome L → Outcome (AppState L)
      finish r = elim r [
        | next l ↦ next (record s { localization = l })
        | stopped l ↦ stopped (record s { localization = l })
        | fault ↦ fault
      ]

  -- `setup_ns_user`, the watchdog, and the jump.
  unfoldable pub enter_user_image : Machine → Machine
  unfolding setup_scb setup_ns_user setup_watchdog0
  enter_user_image m = record m {
    spu = setup_ns_user bits board m.spu;
    scb = setup_scb masks m.scb;
    non_secure_irqs = spim4 ∷ ipc ∷ push_all user_irqs m.non_secure_irqs;
    watchdog0 = setup_watchdog0 m.watchdog0;
    vtor_ns = base_address;
    in_user_image = true;
  }

  -- What the start makes of the reset: its reason (in a register that is cleared by writing back its
  -- bits) and the intent are read once and cleared, and the user image runs
  -- only after a reset by software that asked for it.
  unfoldable pub boot : Machine → AppState L → Machine × Outcome (AppState L)
  unfolding init_localization enter_user_image setup_loop
  boot m s =
      if is_soft_reset sreq_msk m.reset_reason && s.boot_intent == boot_intent_user_image
      then (enter_user_image m', init_localization user >>= λ s'. stopped s')
      else (
        setup_loop m',
        next (record cleared {
          base_addr = base_address;
          ota_require_erase = true;
          shared = record s.shared { status = ready };
        }),
      )
    where
      m' : Machine
      m' = record m { reset_reason = 0; non_secure_irqs = clear_target_states m.non_secure_irqs }

      cleared : AppState L
      cleared = record s { boot_intent = 0 }

      user : AppState L
      user = record cleared { shared = record s.shared { status = running } }

  -- The battery level, and the boot, once the network core has answered.
  unfoldable pub boot_after : ℕ → Machine → Outcome (AppState L) → Machine × Outcome (AppState L)
  unfolding boot
  boot_after level m (next s) =
      boot m (record s { shared = record s.shared { battery_level = level } })
  boot_after level m (stopped s) = (m, stopped s)
  boot_after level m fault = (m, fault)

  -- `main` up to its loop: the memory map, the wires between the cores, the device type, the start of the network core, the
  -- request that starts mari, the battery, and the boot. `wake` and `forced_off` are as in
  -- `release_network_core`, `level` is what `battery_level_read` returns.
  unfoldable pub start_up :
      NetCore → NetCore → Bool → ℕ → ℕ → Machine → AppState L → Machine × Outcome (AppState L)
  unfolding setup_memory setup_watchdog1 configure_channels release_network_core mari_init
      boot_after
  start_up wake answer forced_off device_type level m s =
      let m' = record m {
        spu = setup_memory bits m.spu;
        watchdog1 = setup_watchdog1 m.watchdog1;
        wires = configure_channels m.wires;
      } in
      let s' = record s { shared = record s.shared { device_type = device_type } } in
      boot_after level m' (release_network_core wake forced_off s' >>= mari_init answer)
