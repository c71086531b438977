-- ===== src/Examples/Devices.antt =====
-- Tests of the lighthouse module, the memory map, the gateway and the single core program.
use swarmit.Base.{
  ℕ, ◌+◌, ◌≡◌, ◌⊎◌, refl, true, false, List, [], ◌∷◌, arith, replicate, take, drop, Leads, ltb, ◌-◌,
}
use swarmit.Protocol.{ready, programming, msg_ota_start}
use swarmit.Nvmc.{net_geometry}
use swarmit.Localization.{
  Basestation, Reals, LocalizationData, localization_get_raw_counts, localization_get_position,
}
use swarmit.Localization.Counts.{pending, get_raw_counts-pending}
use swarmit.Localization.Position.{get_position-rejected}
use swarmit.Tz.Maps.{user_spu, user_spu-ram, user_spu-flash}
use swarmit.App.{AppState}
use swarmit.Gateway.{Memory, GatewayState}
use swarmit.Single.{SingleState}
use swarmit.Single.Request.{handle_request}
use swarmit.Single.Safety.{single_request-status}
use swarmit.Examples.{chunk_request, blank, platform, shared, app_core, net_core, inputs}
use swarmit.Link.Bounds.{
  DeviceEvent, packet, net_interrupt, net_round, app_round, log_data, keep_alive, Device,
}
use swarmit.Examples.Application.{bits, board, machine}

-- Coordinates that are whole numbers.
abbrev reals : Reals
reals = record {
  Double = ℕ;
  Float = ℕ;
  calculate_position = λ c1 c2 i. (c1, c2);
  double_of = λ n. n;
  lt_double = ltb;
  u32_of_double = λ n. n;
  float_of_u32 = λ n. n;
  sub_float = λ a b. (a - b) + (b - a);
  add_float = ◌+◌;
  powf = λ a b. a;
  sqrtf = λ a. a;
  lt_float = ltb;
}

abbrev basestations : List Basestation
basestations =
    record { ready0 = true; ready1 = false; count1 = 1; count2 = 2 }
    ∷ record { ready0 = true; ready1 = true; count1 = 3000; count2 = 4000 }
    ∷ []

-- Localization data with a position accepted before.
abbrev located : ℕ → LocalizationData reals
located x = record {
  basestations = basestations;
  coordinates = (0, 0);
  position = record { x = 0; y = 0 };
  previous_position = record { x = x; y = 4000 };
  calibration_loaded = true;
  lh2_started = true;
  stored = [];
  starts = 1;
}

get_raw_counts-pending_example :
    ((localization_get_raw_counts basestations 14).0 ≡ take 14 (pending 0 basestations))
    × (pending 0 (localization_get_raw_counts basestations 14).1 ≡ drop 14 (pending 0 basestations))
get_raw_counts-pending_example = get_raw_counts-pending basestations 14

get_position-rejected_example :
    (localization_get_position reals (located 2000)).1.previous_position
    ≡ record { x = 2000; y = 4000 }
unfolding localization_get_position
get_position-rejected_example = get_position-rejected reals (located 2000) refl refl

abbrev core : AppState (LocalizationData reals)
core = app_core (located 2800) ready

-- No basestation is seen.
abbrev idle : AppState (LocalizationData reals)
idle = record core { localization = record core.localization { basestations = [] } }

user_spu-ram_example : (user_spu bits board machine.spu).ram_region 3 ≡ 7
user_spu-ram_example = user_spu-ram bits board machine.spu 3

user_spu-flash_example : (user_spu bits board machine.spu).flash_region 3 ≡ 23
user_spu-flash_example = user_spu-flash bits board machine.spu 3 (omega arith)

abbrev memory : Memory
memory a = a

abbrev gateway : GatewayState (LocalizationData reals)
gateway = record {
  app = core;
  tx_data_buffer = replicate 255 0;
  localization_data_available = false;
  reloads = 0;
  received = [];
}

-- A chunk arrives and is served, a log that is too long and one that fits are asked for, and the
-- second is sent; then a round of the application core captures the samples that wait.
abbrev device_events : List DeviceEvent
device_events =
    packet 42 (chunk_request 1 72)
    ∷ net_round inputs
    ∷ log_data memory 0x2000_9000 200
    ∷ log_data memory 0x2000_9000 5
    ∷ net_interrupt false true
    ∷ net_round inputs
    ∷ app_round inputs 2900
    ∷ keep_alive 2900
    ∷ []

abbrev device : Device (LocalizationData reals)
device = record { net = net_core programming (replicate 255 0); gateway = gateway }

-- A single core with the start of an update in its buffer.
abbrev pub single : SingleState
single = record {
  notification_buffer = replicate 255 0;
  base_addr = 0x10000;
  ota_start_request = false;
  ota_require_erase = true;
  ota_chunk_request = false;
  battery_update = false;
  req_received = true;
  log_received = false;
  send_status = false;
  req_buffer = msg_ota_start ∷ replicate 254 1;
  expected_hash = replicate 32 0;
  computed_hash = replicate 32 0;
  device_id = 42;
  metrics_rx_counter = 0;
  metrics_tx_counter = 0;
  metrics_received = false;
  vars = record {
    status = ready;
    battery_level = 2900;
    device_type = 1;
    log = (shared ready).log;
    ota = (shared ready).ota;
  };
  nvmc = blank;
  in_user_image = false;
  effects = [];
}

single_request-status_example :
    Leads
      (λ s'.
        (s'.vars.status ≡ ready)
        ⊎ ((ready ≡ ready) × (s'.vars.status ≡ programming) × (msg_ota_start ≡ msg_ota_start)))
      (handle_request (platform net_geometry) single)
single_request-status_example = single_request-status (platform net_geometry) single

abbrev oversized : SingleState
oversized = record single { req_buffer = chunk_request 1 200 }
