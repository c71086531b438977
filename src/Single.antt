-- ===== src/Single.antt =====
-- The bootloader for boards with one core, device/bootloader-single-core/Source/main.c: its state.
-- The children define its operations (Request, Loop) and prove what they do.
pub mod Request
pub mod Loop
pub mod Safety
pub mod Start
pub mod Runs
pub mod Refine
pub mod Transfer
pub mod Update
pub mod Air
use swarmit.Base.{ℕ, Bool, List, ◌∷◌}
use swarmit.Protocol.{ApplicationStatus}
use swarmit.Shared.{IpcOtaData, IpcLogData}
use swarmit.Nvmc.{Nvmc}

-- The mari configurations of this program.
pub data TxConfig : Type 0 where
  tx_default tx_internal : TxConfig

pub data Effect : Type 0 where
  tx_payload : List ℕ → TxConfig → Effect
  mari_init : ℕ → Effect
  watchdog_start : Effect
  system_reset : Effect
  led_toggle : Effect

-- swarmit_data_t; the two pdus are used by no code.
pub record SwarmitData : Type 0 where
  pub status : ApplicationStatus
  pub battery_level : ℕ
  pub device_type : ℕ
  pub log : IpcLogData
  pub ota : IpcOtaData

-- `bootloader_app_data_t` with `swarmit_data_t`, the flash, whether the user image was entered, and
-- the effects so far, the last one first. The field `last_chunk_acked` is used by no code.
pub record SingleState : Type 0 where
  pub notification_buffer : List ℕ
  pub base_addr : ℕ
  pub ota_start_request : Bool
  pub ota_require_erase : Bool
  pub ota_chunk_request : Bool
  pub battery_update : Bool
  pub req_received : Bool
  pub log_received : Bool
  pub send_status : Bool
  pub req_buffer : List ℕ
  pub expected_hash : List ℕ
  pub computed_hash : List ℕ
  pub device_id : ℕ
  pub metrics_rx_counter : ℕ
  pub metrics_tx_counter : ℕ
  pub metrics_received : Bool
  pub vars : SwarmitData
  pub nvmc : Nvmc
  pub in_user_image : Bool
  pub effects : List Effect

abbrev pub emit : Effect → SingleState → SingleState
emit e s = record s { effects = e ∷ s.effects }

abbrev pub transmit : List ℕ → TxConfig → SingleState → SingleState
transmit payload tx = emit (tx_payload payload tx)
