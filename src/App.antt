-- ===== src/App.antt =====
-- The secure bootloader on the application core, device/bootloader/Source/main.c: its state, and
-- what it takes from the network core and the drivers. The children define its operations (Mari,
-- Ota, Loop, Boot) and prove what they do.
pub mod Mari
pub mod Ota
pub mod Loop
pub mod Boot
pub mod Erase
pub mod Image
pub mod Progress
pub mod Update
pub mod Kept
pub mod Rounds
pub mod Restart
pub mod Start
pub mod Capture
pub mod Bounds
pub mod Drivers
use swarmit.Base.{ℕ, Bool, true, List, ◌∷◌, ◌≡◌}
use swarmit.Shared.{IpcSharedData}
use swarmit.Nvmc.{Nvmc}

-- What the network core makes of the shared structure between a request and the end of the wait
-- for its acknowledgement.
abbrev pub NetCore : Type 0
NetCore = IpcSharedData → IpcSharedData

-- What the bootloader relies on: the request is acknowledged, and serving it changes neither the
-- update nor the status.
pub record IsNetCore (answer : NetCore) : Type 0 where
  pub acks : (d : IpcSharedData) → (answer d).net_ack ≡ true
  pub keeps_ota : (d : IpcSharedData) → (answer d).ota ≡ d.ota
  pub keeps_status : (d : IpcSharedData) → (answer d).status ≡ d.status

pub data Led : Type 0 where
  red green blue : Led

-- What the core does to its surroundings.
pub data Effect : Type 0 where
  task_send : ℕ → Effect
  -- a pdu handed to the network core
  node_tx : List ℕ → Effect
  led_clear : Led → Effect
  led_toggle : Led → Effect
  system_reset : Effect

-- `bootloader_app_data_t` with the boot intent, the localization data, the shared structure, the
-- flash and the effects so far, the last one first. The field `last_position` is used by no code.
pub record AppState (L : Type 0) : Type 0 where
  pub notification_buffer : List ℕ
  pub base_addr : ℕ
  pub ota_start_request : Bool
  pub ota_require_erase : Bool
  pub ota_chunk_request : Bool
  pub lh2_calibration_ready : Bool
  pub lh2_capture_request : Bool
  pub lh2_capturing : Bool
  pub start_application : Bool
  pub system_reset_requested : Bool
  pub position_update : Bool
  pub battery_update : Bool
  pub boot_intent : ℕ
  pub localization : L
  pub shared : IpcSharedData
  pub nvmc : Nvmc
  pub effects : List Effect

-- `NRF_IPC_S->TASKS_SEND[channel] = 1`
abbrev pub send_task : {L : Type 0} → ℕ → AppState L → AppState L
send_task channel s = record s { effects = task_send channel ∷ s.effects }
