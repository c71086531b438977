-- ===== src/Examples.antt =====
-- The data of the tests: a flash controller, a platform, a network core and an application core.
pub mod Network
pub mod Application
pub mod Devices
pub mod Cores
pub mod Experiments
pub mod Sample
pub mod Traffic
pub mod Startup
pub mod OneCore
pub mod Locks
use swarmit.Base.{
  ℕ, ◌==◌, ◌+◌, ◌*◌, Bool, true, false, List, [], ◌∷◌, ◌++◌, leb, ltb, ◌&&◌, replicate,
  if◌then◌else◌, arith, refl,
}
use swarmit.Base.Bytes.{u32_bytes}
use swarmit.Protocol.{ApplicationStatus, ready, msg_ota_chunk}
use swarmit.Shared.{req_none, IpcSharedData, IpcOtaData}
use swarmit.Nvmc.{Store, Geometry, ren, wen, een, erased_word, Nvmc}
use swarmit.Nvmc.Laws.{IsController}
use swarmit.Net.{Platform, Inputs, NetState}
use swarmit.App.{NetCore, IsNetCore, AppState}

-- A controller that erases pages of the size of `g`.
abbrev pub controller : Geometry → Store
controller g ren a v f b = f b
controller g wen a v f b = if b == a then v else f b
controller g een a v f b = if leb a b && ltb b (a + g.page_size) then erased_word else f b

pub controller_lem : (g : Geometry) → IsController g (controller g)
controller_lem g = record {
  wen_writes = λ a v f e. ground arith;
  wen_keeps = λ a v b f e. ground arith;
  een_erases = λ a v b f lo up. ground arith;
  een_keeps = λ a v b f o. ground arith;
}

abbrev pub blank : Nvmc
blank = record { config = ren; memory = λ a. erased_word }

abbrev pub platform : Geometry → Platform
platform g = record {
  sha256 = λ bs. replicate 32 7;
  metrics_payload_size = 24;
  metrics_probe = 0x9c;
  metrics_fields = λ bs rx rx_asn tx tx_asn rssi. bs;
  broadcast_address = 0xffff_ffff_ffff_ffff;
  store = controller g;
}

abbrev pub inputs : Inputs
inputs = record {
  connected = true;
  asn_rx = 10;
  asn_tx = 20;
  rssi = 200;
  timestamp = 1000;
  random = 77;
}

abbrev pub shared : ApplicationStatus → IpcSharedData
shared status = record {
  net_ready = true;
  net_ack = false;
  req = req_none;
  status = status;
  battery_level = 2950;
  device_type = 1;
  log = record { len = 3; bytes = replicate 127 5 };
  rng = 0;
  ota = record {
    image_size = 200;
    chunk_count = 2;
    chunk_index = 0;
    chunk_size = 0;
    last_chunk_acked = 0xffff_ffff;
    chunk = replicate 128 0;
  };
  target_position = record { x = 0; y = 0 };
  current_position = record { x = 300; y = 70_000 };
  tx_pdu = record { len = 2; buffer = replicate 255 3 };
  rx_pdu = record { len = 0; buffer = replicate 255 0 };
  lh2_calibration = record { homography_count = 0; homographies = replicate 144 0 };
}

-- A network core with a request in its buffer.
abbrev pub net_core : ApplicationStatus → List ℕ → NetState
net_core status request = record {
  req_received = true;
  data_received = false;
  send_status = true;
  req_buffer = request;
  notification_buffer = replicate 255 0;
  ipc_req = req_none;
  ipc_log_received = true;
  expected_hash = replicate 32 0;
  computed_hash = replicate 32 0;
  device_id = 42;
  mari_net_id = 0xA000;
  mari_initialized = false;
  metrics_rx_counter = 0;
  metrics_tx_counter = 0;
  metrics_received = false;
  config = record {
    magic = 0;
    has_net_id = 1;
    net_id = 0x1234;
    homography_count = 0;
    homographies = replicate 144 0;
  };
  lh2_calibration_ready = false;
  shared = shared status;
  nvmc = blank;
  effects = [];
}

-- The request of a chunk of this index and size, whose hash is that of `platform`.
abbrev pub chunk_request : ℕ → ℕ → List ℕ
chunk_request index size =
    (msg_ota_chunk ∷ u32_bytes index ++ (size ∷ replicate 8 7)) ++ replicate 241 9

-- An application core in its bootloader.
abbrev pub app_core : {L : Type 0} → L → ApplicationStatus → AppState L
app_core l status = record {
  notification_buffer = replicate 255 0;
  base_addr = 0x10000;
  ota_start_request = true;
  ota_require_erase = true;
  ota_chunk_request = false;
  lh2_calibration_ready = false;
  lh2_capture_request = false;
  lh2_capturing = true;
  start_application = true;
  system_reset_requested = true;
  position_update = false;
  battery_update = false;
  boot_intent = 0;
  localization = l;
  shared = shared status;
  nvmc = blank;
  effects = [];
}

-- A network core that does what it is asked for.
abbrev pub answer : NetCore
answer d = record d { net_ack = true }

pub answer-IsNetCore : IsNetCore answer
answer-IsNetCore = record { acks = λ d. refl; keeps_ota = λ d. refl; keeps_status = λ d. refl }
