-- ===== src/Net/Request.antt =====
-- The requests of the testbed, the `switch` of the main loop of
-- device/network_core/Source/main.c: one function for each case.
use swarmit.Base.{
  ℕ, Bool, true, false, List, [], ◌∷◌, ◌+◌, ◌-◌, ◌*◌, ◌&&◌, ◌||◌, not, length, take, drop,
  replicate, write_at, leb, ltb, ◌==◌, if◌then◌else◌, Outcome, next, fault,
}
use swarmit.Base.Bytes.{read_u32}
use swarmit.Protocol.{
  stopping, resetting, programming, is_ready, is_running, is_resetting, is_programming, msg_start,
  msg_stop, msg_reset, msg_ota_start, msg_ota_chunk, msg_lh2_calibration, msg_lh2_capture,
  request_type, ota_start_pkt, ota_chunk_pkt, chunk_offset, OtaChunkPkt, Lh2CalibrationData,
  lh2_calibration_data,
}
use swarmit.Shared.{
  IpcOtaData, chan_application_start, chan_application_stop, chan_ota_start, chan_ota_chunk,
  chan_lh2_capture, no_chunk_acked, ota_buffer_size, lh2_basestation_count_max, homographies_length,
}
use swarmit.Net.{Platform, NetState, SwarmitConfig, send_task}
use swarmit.Net.Config.{commit_config_and_reboot}

unfoldable pub on_start : NetState → NetState
on_start s = if not (is_ready s.shared.status) then s else send_task chan_application_start s

unfoldable pub on_stop : NetState → NetState
on_stop s =
    if not (is_running status) && not (is_resetting status) && not (is_programming status)
    then s
    else send_task chan_application_stop
        (record s { shared = record s.shared { status = stopping } })
  where
    open s.shared use {status}

unfoldable pub on_reset : NetState → NetState
on_reset s = if not (is_ready s.shared.status) then s else record s {
  shared = record s.shared {
    target_position = record { x = read_u32 s.req_buffer 1; y = read_u32 s.req_buffer 5 };
    status = resetting;
  };
}

unfoldable pub on_ota_start : NetState → NetState
on_ota_start s =
    if not (is_ready s.shared.status) && not (is_programming s.shared.status)
    then s
    else send_task chan_ota_start (record s {
      shared = record s.shared {
        ota = record s.shared.ota {
          last_chunk_acked = no_chunk_acked;
          image_size = (ota_start_pkt s.req_buffer).image_size;
          chunk_count = (ota_start_pkt s.req_buffer).chunk_count;
        };
        status = programming;
      };
    })

unfoldable pub same_bytes : List ℕ → List ℕ → Bool
same_bytes [] [] = true
same_bytes [] (y ∷ ys) = false
same_bytes (x ∷ xs) [] = false
same_bytes (x ∷ xs) (y ∷ ys) = x == y && same_bytes xs ys

-- `memcmp(a, b, n) == 0`
unfoldable pub equal_bytes : ℕ → List ℕ → List ℕ → Bool
unfolding same_bytes
equal_bytes n a b = same_bytes (take n a) (take n b)

abbrev pub set_ota : IpcOtaData → NetState → NetState
set_ota ota s = record s { shared = record s.shared { ota = ota } }

-- Take the chunk in and compare its hash. The copy goes out of bounds if the size in the packet
-- passes the end of the buffer of the chunk, or of the request. The source reads up to 128 bytes from
-- the packet's `chunk[64]`, and copies 32 bytes from its `sha[8]`: both go past the ends of the arrays
-- that the packed struct declares, but stay in the request buffer, of which they are part, so they
-- do not count as out of bounds here.
unfoldable pub verify_chunk : Platform → NetState → Outcome NetState
verify_chunk p s =
    if ltb ota_buffer_size size || ltb (length s.req_buffer) (chunk_offset + size)
    then fault
    else if equal_bytes 8 digest pkt.sha
    then next (send_task chan_ota_chunk checked)
    else next checked
  where
    pkt : OtaChunkPkt
    pkt = ota_chunk_pkt s.req_buffer

    size : ℕ
    size = pkt.chunk_size

    chunk : List ℕ
    chunk = write_at s.shared.ota.chunk 0 (take size (drop chunk_offset s.req_buffer))

    digest : List ℕ
    digest = p.sha256 (take size chunk)

    checked : NetState
    checked = record s {
      shared = record s.shared { ota = record s.shared.ota { chunk_size = size; chunk = chunk } };
      expected_hash = pkt.sha;
      computed_hash = digest;
    }

unfoldable pub on_ota_chunk : Platform → NetState → Outcome NetState
unfolding verify_chunk
on_ota_chunk p s =
    if not (is_programming s.shared.status) && not (is_ready s.shared.status)
    then next s
    else if leb s.shared.ota.chunk_count index
    then next s'
    else if s.shared.ota.last_chunk_acked == index
    then next (send_task chan_ota_chunk s')
    else verify_chunk p s'
  where
    index : ℕ
    index = (ota_chunk_pkt s.req_buffer).index

    s' : NetState
    s' = set_ota (record s.shared.ota { chunk_index = index }) s

-- The new matrix goes to its place, after the first packet of a session has cleared them all.
abbrev pub store_matrix : Lh2CalibrationData → SwarmitConfig → SwarmitConfig
store_matrix pkt c = record c {
  homography_count = pkt.homography_count;
  homographies =
      write_at
        (if pkt.homography_index == 0 then replicate homographies_length 0 else c.homographies)
        (9 * pkt.homography_index) pkt.homography;
}

unfoldable pub on_lh2_calibration : Platform → NetState → Outcome NetState
unfolding commit_config_and_reboot
on_lh2_calibration p s =
    if not (is_ready s.shared.status)
    then next s
    else if leb lh2_basestation_count_max pkt.homography_index
    then next s
    else if pkt.homography_count == 0 || ltb lh2_basestation_count_max pkt.homography_count
    then next s
    else if leb pkt.homography_count pkt.homography_index
    then next s
    else if pkt.homography_index == pkt.homography_count - 1
    then commit_config_and_reboot p.store s'
    else next s'
  where
    pkt : Lh2CalibrationData
    pkt = lh2_calibration_data s.req_buffer

    s' : NetState
    s' = record s { config = store_matrix pkt s.config }

unfoldable pub on_lh2_capture : NetState → NetState
on_lh2_capture s = if not (is_ready s.shared.status) then s else send_task chan_lh2_capture s

-- `switch (req->type)`
unfoldable pub dispatch : Platform → ℕ → NetState → Outcome NetState
unfolding on_start on_stop on_reset on_ota_start on_ota_chunk on_lh2_calibration on_lh2_capture
dispatch p type s =
    if type == msg_start
    then next (on_start s)
    else if type == msg_stop
    then next (on_stop s)
    else if type == msg_reset
    then next (on_reset s)
    else if type == msg_ota_start
    then next (on_ota_start s)
    else if type == msg_ota_chunk
    then on_ota_chunk p s
    else if type == msg_lh2_calibration
    then on_lh2_calibration p s
    else if type == msg_lh2_capture
    then next (on_lh2_capture s)
    else next s

-- The block of the main loop that serves a request.
unfoldable pub handle_request : Platform → NetState → Outcome NetState
unfolding dispatch
handle_request p s =
    if s.req_received
    then dispatch p (request_type s.req_buffer) (record s { req_received = false })
    else next s
