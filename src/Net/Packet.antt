-- ===== src/Net/Packet.antt =====
-- The interrupt side of device/network_core/Source/main.c: packets from mari, the status timer and
-- the requests of the application core.
use swarmit.Base.{
  ℕ, Bool, true, List, ◌&&◌, ◌||◌, not, length, write_at, leb, ◌==◌, ◌!=◌, if◌then◌else◌,
}
use swarmit.Protocol.{
  is_running, request_type, msg_status, msg_ota_chunk, msg_lh2_calibration, msg_lh2_capture,
}
use swarmit.Shared.{IpcRadioPdu}
use swarmit.Net.{Platform, NetState}

-- mr_event_t with the data that the callback reads
pub data MrEvent : Type 0 where
  new_packet : ℕ → List ℕ → MrEvent
  connected disconnected error other : MrEvent

-- The types that the main loop takes.
abbrev pub is_request : ℕ → Bool
is_request t =
    leb msg_status t && leb t msg_ota_chunk || t == msg_lh2_calibration || t == msg_lh2_capture

-- `memcpy` of the packet over the pdu
abbrev pub fill_pdu : IpcRadioPdu → List ℕ → IpcRadioPdu
fill_pdu pdu packet = record { len = length packet; buffer = write_at pdu.buffer 0 packet }

-- The packet goes to the request buffer whatever it is. `length packet` is a `uint8_t`.
unfoldable pub handle_packet : Platform → ℕ → List ℕ → NetState → NetState
handle_packet p dst_address packet s =
    if length packet == p.metrics_payload_size && packet_type == p.metrics_probe
    then record s' { metrics_received = true }
    else if is_request packet_type
    then record s' { req_received = true }
    else if not (is_running s.shared.status)
    then s'
    else if dst_address != p.broadcast_address && dst_address != s.device_id
    then s'
    else record s' {
      shared = record s.shared { rx_pdu = fill_pdu s.shared.rx_pdu packet };
      data_received = true;
    }
  where
    s' : NetState
    s' = record s { req_buffer = write_at s.req_buffer 0 packet }

    packet_type : ℕ
    packet_type = request_type s'.req_buffer

-- The other events are printed, or ignored.
unfoldable pub mari_event_callback : Platform → MrEvent → NetState → NetState
unfolding handle_packet
mari_event_callback p (new_packet dst payload) s = handle_packet p dst payload s
mari_event_callback p _ s = s

-- _send_status, called by the timer
unfoldable pub on_send_status : NetState → NetState
on_send_status s = record s { send_status = true }

-- IPC_IRQHandler, with the two event registers that it reads and clears
unfoldable pub ipc_irq_handler : Bool → Bool → NetState → NetState
ipc_irq_handler req_event log_event s =
    let s' = if req_event then record s { ipc_req = s.shared.req } else s in
    if log_event then record s' { ipc_log_received = true } else s'
