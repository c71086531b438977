-- ===== src/Shared.antt =====
-- The structure in RAM that the two cores of the nRF5340 share: device/bootloader/Source/ipc.h and
-- device/network_core/Source/ipc.h, which declare it alike.
use swarmit.Base.{ℕ, Bool, List}
use swarmit.Protocol.{ApplicationStatus}

-- ipc_req_t
pub data IpcReq : Type 0 where
  req_none mari_init_req mari_node_tx_req rng_init_req rng_read_req : IpcReq

-- ipc_channels_t
abbrev pub chan_req : ℕ
chan_req = 0

abbrev pub chan_radio_rx : ℕ
chan_radio_rx = 1

abbrev pub chan_application_start : ℕ
chan_application_start = 2

abbrev pub chan_application_stop : ℕ
chan_application_stop = 3

abbrev pub chan_soc_reset : ℕ
chan_soc_reset = 4

abbrev pub chan_log_event : ℕ
chan_log_event = 5

abbrev pub chan_ota_start : ℕ
chan_ota_start = 6

abbrev pub chan_ota_chunk : ℕ
chan_ota_chunk = 7

abbrev pub chan_calibration_data : ℕ
chan_calibration_data = 8

abbrev pub chan_lh2_capture : ℕ
chan_lh2_capture = 9

-- LH2_BASESTATION_COUNT_MAX
abbrev pub lh2_basestation_count_max : ℕ
lh2_basestation_count_max = 16

-- The words of `int32_t homographies[16][3][3]`.
abbrev pub homographies_length : ℕ
homographies_length = 144

-- ipc_log_data_t; `bytes` is its `data`, an array of INT8_MAX.
pub record IpcLogData : Type 0 where
  pub len : ℕ
  pub bytes : List ℕ

abbrev pub log_data_size : ℕ
log_data_size = 127

-- ipc_radio_pdu_t
pub record IpcRadioPdu : Type 0 where
  pub len : ℕ
  pub buffer : List ℕ

-- ipc_ota_data_t. `last_chunk_acked` is an `int32_t`, kept as its bit pattern.
pub record IpcOtaData : Type 0 where
  pub image_size : ℕ
  pub chunk_count : ℕ
  pub chunk_index : ℕ
  pub chunk_size : ℕ
  pub last_chunk_acked : ℕ
  pub chunk : List ℕ

-- The length of the array `chunk`, INT8_MAX + 1.
abbrev pub ota_buffer_size : ℕ
ota_buffer_size = 128

-- The pattern of the `int32_t` -1.
abbrev pub no_chunk_acked : ℕ
no_chunk_acked = 0xffff_ffff

-- position_2d_t
pub record Position2d : Type 0 where
  pub x : ℕ
  pub y : ℕ

-- ipc_lh2_calibration_t, the matrices as one row of words
pub record IpcLh2Calibration : Type 0 where
  pub homography_count : ℕ
  pub homographies : List ℕ

-- ipc_shared_data_t
pub record IpcSharedData : Type 0 where
  pub net_ready : Bool
  pub net_ack : Bool
  pub req : IpcReq
  pub status : ApplicationStatus
  pub battery_level : ℕ
  pub device_type : ℕ
  pub log : IpcLogData
  pub rng : ℕ
  pub ota : IpcOtaData
  pub target_position : Position2d
  pub current_position : Position2d
  pub tx_pdu : IpcRadioPdu
  pub rx_pdu : IpcRadioPdu
  pub lh2_calibration : IpcLh2Calibration
