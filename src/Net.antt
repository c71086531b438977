-- ===== src/Net.antt =====
-- The network core, device/network_core/Source/main.c: its state, and what it takes from elsewhere.
-- The children define its operations (Packet, Config, Request, Loop) and prove what they do.
pub mod Packet
pub mod Config
pub mod Request
pub mod Loop
pub mod Status
pub mod Waiting
pub mod Bounds
pub mod Chunk
pub mod Commit
pub mod Session
pub mod Runs
pub mod Notify
pub mod Calibration
use swarmit.Base.{ℕ, Bool, List, ◌∷◌}
use swarmit.Shared.{IpcReq, IpcSharedData}
use swarmit.Nvmc.{Store, Nvmc}

-- What the program takes from the mari and crypto libraries and from the hardware. `metrics_fields`
-- writes the counters, the two slot numbers and the signal strength into a metrics payload.
pub record Platform : Type 0 where
  pub sha256 : List ℕ → List ℕ
  pub metrics_payload_size : ℕ
  pub metrics_probe : ℕ
  pub metrics_fields : List ℕ → ℕ → ℕ → ℕ → ℕ → ℕ → List ℕ
  pub broadcast_address : ℕ
  pub store : Store

-- What the libraries and the peripherals return during one round of the main loop. `connected` is
-- whether the wait for a connection ends.
pub record Inputs : Type 0 where
  pub connected : Bool
  pub asn_rx : ℕ
  pub asn_tx : ℕ
  pub rssi : ℕ
  pub timestamp : ℕ
  pub random : ℕ

-- SWARMIT_TX_DEFAULT, SWARMIT_TX_DOTBOT_FORWARD, MARI_TX_INTERNAL
pub data TxConfig : Type 0 where
  tx_default tx_dotbot_forward tx_internal : TxConfig

-- What the core does to its surroundings: it raises an IPC task, hands a payload to mari, starts
-- mari or the random number generator.
pub data Effect : Type 0 where
  task_send : ℕ → Effect
  tx_payload : List ℕ → TxConfig → Effect
  mari_init : ℕ → Effect
  rng_init : Effect

-- swarmit_config_t, the matrices as one row of words
pub record SwarmitConfig : Type 0 where
  pub magic : ℕ
  pub has_net_id : ℕ
  pub net_id : ℕ
  pub homography_count : ℕ
  pub homographies : List ℕ

-- `swrmt_app_data_t` with the shared structure, the flash and the effects so far, the last one
-- first. The fields that no code uses, `gpio_event_idx` and `last_chunk_acked`, are left out, and
-- so is the hash context, which lives within one call chain of the library.
pub record NetState : Type 0 where
  pub req_received : Bool
  pub data_received : Bool
  pub send_status : Bool
  pub req_buffer : List ℕ
  pub notification_buffer : List ℕ
  pub ipc_req : IpcReq
  pub ipc_log_received : Bool
  pub expected_hash : List ℕ
  pub computed_hash : List ℕ
  pub device_id : ℕ
  pub mari_net_id : ℕ
  pub mari_initialized : Bool
  pub metrics_rx_counter : ℕ
  pub metrics_tx_counter : ℕ
  pub metrics_received : Bool
  pub config : SwarmitConfig
  pub lh2_calibration_ready : Bool
  pub shared : IpcSharedData
  pub nvmc : Nvmc
  pub effects : List Effect

-- `NRF_IPC_NS->TASKS_SEND[channel] = 1`
abbrev pub send_task : ℕ → NetState → NetState
send_task channel s = record s { effects = task_send channel ∷ s.effects }
