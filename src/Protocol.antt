-- ===== src/Protocol.antt =====
-- The SwarmIT radio protocol: protocol.h of the three programs under device/. The bytes of a request
-- are read at the offsets of the packed structs behind `swrmt_request_t`, whose `type` is one byte.
use swarmit.Base.{
  ℕ, Bool, true, false, List, get_or, take, drop, ◌∷◌, ◌++◌, if◌then◌else◌, Outcome, next, fault,
  ltb, length, write_at, set, ◌%◌, ◌^◌,
}
use swarmit.Base.Bytes.{read_u32, read_words, u64_bytes}

-- swrmt_application_status_t
pub data ApplicationStatus : Type 0 where
  ready running stopping resetting programming : ApplicationStatus

-- The byte that stands for a status.
abbrev pub status_code : ApplicationStatus → ℕ
status_code ready = 0
status_code running = 1
status_code stopping = 2
status_code resetting = 3
status_code programming = 4

abbrev pub is_ready : ApplicationStatus → Bool
is_ready ready = true
is_ready _ = false

abbrev pub is_running : ApplicationStatus → Bool
is_running running = true
is_running _ = false

abbrev pub is_stopping : ApplicationStatus → Bool
is_stopping stopping = true
is_stopping _ = false

abbrev pub is_resetting : ApplicationStatus → Bool
is_resetting resetting = true
is_resetting _ = false

abbrev pub is_programming : ApplicationStatus → Bool
is_programming programming = true
is_programming _ = false

-- swrmt_device_type_t
abbrev pub device_type_unknown : ℕ
device_type_unknown = 0

abbrev pub device_type_dotbotv3 : ℕ
device_type_dotbotv3 = 1

abbrev pub device_type_dotbotv2 : ℕ
device_type_dotbotv2 = 2

abbrev pub device_type_nrf5340dk : ℕ
device_type_nrf5340dk = 3

abbrev pub device_type_nrf52840dk : ℕ
device_type_nrf52840dk = 4

-- swrmt_message_type_t
abbrev pub msg_status : ℕ
msg_status = 0x80

abbrev pub msg_start : ℕ
msg_start = 0x81

abbrev pub msg_stop : ℕ
msg_stop = 0x82

abbrev pub msg_reset : ℕ
msg_reset = 0x83

abbrev pub msg_ota_start : ℕ
msg_ota_start = 0x84

abbrev pub msg_ota_chunk : ℕ
msg_ota_chunk = 0x85

abbrev pub msg_ota_start_ack : ℕ
msg_ota_start_ack = 0x86

abbrev pub msg_ota_chunk_ack : ℕ
msg_ota_chunk_ack = 0x87

abbrev pub msg_log_event : ℕ
msg_log_event = 0x89

abbrev pub msg_lh2_calibration : ℕ
msg_lh2_calibration = 0xA1

abbrev pub msg_lh2_capture : ℕ
msg_lh2_capture = 0xA2

-- SWRMT_OTA_CHUNK_SIZE of the two bootloaders
abbrev pub ota_chunk_size : ℕ
ota_chunk_size = 128

-- SWRMT_OTA_SHA256_LENGTH
abbrev pub ota_sha256_length : ℕ
ota_sha256_length = 32

-- swrmt_request_t
abbrev pub request_type : List ℕ → ℕ
request_type req = get_or req 0 0

-- swrmt_ota_start_pkt_t at `req->data`
pub record OtaStartPkt : Type 0 where
  pub image_size : ℕ
  pub chunk_count : ℕ

abbrev pub ota_start_pkt : List ℕ → OtaStartPkt
ota_start_pkt req = record { image_size = read_u32 req 1; chunk_count = read_u32 req 5 }

-- swrmt_ota_chunk_pkt_t at `req->data`, without its last array: `chunk_offset` is where it begins.
-- The handlers copy 32 bytes from `sha`, an array of 8.
pub record OtaChunkPkt : Type 0 where
  pub index : ℕ
  pub chunk_size : ℕ
  pub sha : List ℕ

abbrev pub ota_chunk_pkt : List ℕ → OtaChunkPkt
ota_chunk_pkt req = record {
  index = read_u32 req 1;
  chunk_size = get_or req 5 0;
  sha = take ota_sha256_length (drop 6 req);
}

abbrev pub chunk_offset : ℕ
chunk_offset = 14

-- swrmt_lh2_calibration_data_t at `req->data`; a matrix is the row of its nine words.
pub record Lh2CalibrationData : Type 0 where
  pub homography_count : ℕ
  pub homography_index : ℕ
  pub homography : List ℕ

abbrev pub lh2_calibration_data : List ℕ → Lh2CalibrationData
lh2_calibration_data req = record {
  homography_count = read_u32 req 1;
  homography_index = read_u32 req 5;
  homography = read_words req 9 9;
}

-- protocol_header_t
pub record ProtocolHeader : Type 0 where
  pub version : ℕ
  pub packet_type : ℕ
  pub dst : ℕ
  pub src : ℕ

abbrev pub header_bytes : ProtocolHeader → List ℕ
header_bytes h = h.version ∷ h.packet_type ∷ u64_bytes h.dst ++ u64_bytes h.src

-- The buffer and the length that the function returns. FIRMWARE_VERSION is 1 and PACKET_DATA 16;
-- `device_id` is what `db_device_id` returns. A buffer without room is written past its end.
unfoldable pub protocol_header_to_buffer : ℕ → List ℕ → ℕ → Outcome (List ℕ × ℕ)
protocol_header_to_buffer device_id buffer dst =
    if ltb (length buffer) 18
    then fault
    else next (
      write_at buffer 0
          (header_bytes (record { version = 1; packet_type = 16; dst = dst; src = device_id })),
      18,
    )

-- PROTOCOL_ADVERTISEMENT is 4.
unfoldable pub db_protocol_advertisement_to_buffer : List ℕ → ℕ → Outcome (List ℕ × ℕ)
db_protocol_advertisement_to_buffer buffer application =
    if ltb (length buffer) 2 then fault else next (set (set buffer 0 4) 1 (application % 2 ^ 8), 2)
