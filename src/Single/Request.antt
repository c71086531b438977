-- ===== src/Single/Request.antt =====
-- Packets and requests of device/bootloader-single-core/Source/main.c.
use swarmit.Base.{
  ℕ, true, false, List, ◌+◌, ◌&&◌, ◌||◌, not, length, take, drop, write_at, leb, ltb, ◌==◌,
  if◌then◌else◌, Outcome, next, stopped, fault,
}
use swarmit.Protocol.{
  programming, is_ready, is_running, is_programming, request_type, msg_status, msg_start, msg_stop,
  msg_ota_start, msg_ota_chunk, ota_start_pkt, ota_chunk_pkt, chunk_offset, OtaChunkPkt,
}
use swarmit.Shared.{IpcOtaData, no_chunk_acked, ota_buffer_size}
use swarmit.Net.{Platform}
use swarmit.Net.Packet.{MrEvent, new_packet}
use swarmit.Net.Request.{equal_bytes}
use swarmit.Single.{SingleState, watchdog_start, system_reset, emit}

-- The packets that are no request and no probe are ignored, whatever the status.
unfoldable pub handle_packet : Platform → List ℕ → SingleState → SingleState
handle_packet p packet s =
    if leb msg_status packet_type && leb packet_type msg_ota_chunk
    then record s' { req_received = true }
    else if length packet == p.metrics_payload_size && packet_type == p.metrics_probe
    then record s' { metrics_received = true }
    else s'
  where
    s' : SingleState
    s' = record s { req_buffer = write_at s.req_buffer 0 packet }

    packet_type : ℕ
    packet_type = request_type s'.req_buffer

unfoldable pub mari_event_callback : Platform → MrEvent → SingleState → SingleState
unfolding handle_packet
mari_event_callback p (new_packet dst payload) s = handle_packet p payload s
mari_event_callback p _ s = s

-- _send_status and _read_battery, called by the timers
unfoldable pub on_send_status : SingleState → SingleState
on_send_status s = record s { send_status = true }

unfoldable pub on_read_battery : SingleState → SingleState
on_read_battery s = record s { battery_update = true }

unfoldable pub on_start : SingleState → Outcome SingleState
on_start s = if not (is_ready s.vars.status) then next s else stopped (emit system_reset s)

-- The watchdog is started, and resets the chip when it runs out.
unfoldable pub on_stop : SingleState → SingleState
on_stop s =
    if not (is_running s.vars.status) && not (is_programming s.vars.status)
    then s
    else emit watchdog_start s

unfoldable pub on_ota_start : SingleState → SingleState
on_ota_start s =
    if not (is_ready s.vars.status) && not (is_programming s.vars.status) then s else record s {
      vars = record s.vars {
        ota = record s.vars.ota {
          last_chunk_acked = no_chunk_acked;
          image_size = (ota_start_pkt s.req_buffer).image_size;
          chunk_count = (ota_start_pkt s.req_buffer).chunk_count;
        };
        status = programming;
      };
      ota_start_request = true;
    }

abbrev pub set_ota : IpcOtaData → SingleState → SingleState
set_ota ota s = record s { vars = record s.vars { ota = ota } }

-- Out of bounds are the copies that leave the buffer of the chunk or of the request. Those from
-- `chunk[64]` and the 32 bytes from `sha[8]` pass the ends of the arrays that the packed struct
-- declares, but stay in the request buffer.
unfoldable pub verify_chunk : Platform → SingleState → Outcome SingleState
verify_chunk p s =
    if ltb ota_buffer_size size || ltb (length s.req_buffer) (chunk_offset + size)
    then fault
    else if equal_bytes 8 digest pkt.sha
    then next (record checked { ota_chunk_request = true })
    else next checked
  where
    pkt : OtaChunkPkt
    pkt = ota_chunk_pkt s.req_buffer

    size : ℕ
    size = pkt.chunk_size

    chunk : List ℕ
    chunk = write_at s.vars.ota.chunk 0 (take size (drop chunk_offset s.req_buffer))

    digest : List ℕ
    digest = p.sha256 (take size chunk)

    checked : SingleState
    checked = record (set_ota (record s.vars.ota { chunk_size = size; chunk = chunk }) s) {
      expected_hash = pkt.sha;
      computed_hash = digest;
    }

unfoldable pub on_ota_chunk : Platform → SingleState → Outcome SingleState
unfolding verify_chunk
on_ota_chunk p s =
    if not (is_programming s.vars.status) && not (is_ready s.vars.status)
    then next s
    else if leb s.vars.ota.chunk_count index
    then next s'
    else if s.vars.ota.last_chunk_acked == index
    then next (record s' { ota_chunk_request = true })
    else verify_chunk p s'
  where
    index : ℕ
    index = (ota_chunk_pkt s.req_buffer).index

    s' : SingleState
    s' = set_ota (record s.vars.ota { chunk_index = index }) s

-- `switch (req->type)`
unfoldable pub dispatch : Platform → ℕ → SingleState → Outcome SingleState
unfolding on_start on_stop on_ota_start on_ota_chunk
dispatch p type s =
    if type == msg_start
    then on_start s
    else if type == msg_stop
    then next (on_stop s)
    else if type == msg_ota_start
    then next (on_ota_start s)
    else if type == msg_ota_chunk
    then on_ota_chunk p s
    else next s

unfoldable pub handle_request : Platform → SingleState → Outcome SingleState
unfolding dispatch
handle_request p s =
    if s.req_received
    then dispatch p (request_type s.req_buffer) (record s { req_received = false })
    else next s
