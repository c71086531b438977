-- ===== src/Single/Loop.antt =====
-- The main loop of device/bootloader-single-core/Source/main.c.
use swarmit.Base.{
  ℕ, Bool, true, false, List, [], ◌∷◌, ◌++◌, ◌+◌, ◌%◌, ◌^◌, not, ltb, take, write_at, ◌==◌,
  if◌then◌else◌, Outcome, next, stopped, fault, ◌>>=◌,
}
use swarmit.Base.Bytes.{u16_bytes, u32_bytes}
use swarmit.Protocol.{
  ready, status_code, msg_status, msg_log_event, msg_ota_start_ack, msg_ota_chunk_ack,
}
use swarmit.Shared.{IpcOtaData, log_data_size}
use swarmit.Nvmc.{Store, nvmc_write}
use swarmit.Net.{Platform, Inputs}
use swarmit.App.Ota.{pages_count, erase_pages, chunk_address, chunk_word, is_last_chunk}
use swarmit.Single.{SwarmitData, SingleState, tx_default, tx_internal, led_toggle, emit, transmit}
use swarmit.Single.Request.{handle_request}

-- The position of a status notification is the origin.
unfoldable pub status_message : SwarmitData → List ℕ
status_message d =
    msg_status ∷ d.device_type ∷ status_code d.status ∷ u16_bytes d.battery_level
    ++ (u32_bytes 0 ++ u32_bytes 0)

abbrev pub fill : List ℕ → SingleState → SingleState
fill packet s = record s { notification_buffer = write_at s.notification_buffer 0 packet }

unfoldable pub notify_status : SingleState → SingleState
unfolding status_message
notify_status s =
    if s.send_status then transmit (take 13 s'.notification_buffer) tx_default s' else s
  where
    s' : SingleState
    s' = record (fill (status_message s.vars) s) { send_status = false }

unfoldable pub reply_metrics : Platform → Inputs → SingleState → SingleState
reply_metrics p e s =
    if s.metrics_received
    then transmit (take p.metrics_payload_size buffer) tx_internal (record s {
      metrics_received = false;
      metrics_rx_counter = rx;
      metrics_tx_counter = tx;
      req_buffer = buffer;
    })
    else s
  where
    rx : ℕ
    rx = (s.metrics_rx_counter + 1) % 2 ^ 32

    tx : ℕ
    tx = (s.metrics_tx_counter + 1) % 2 ^ 32

    buffer : List ℕ
    buffer = p.metrics_fields s.req_buffer rx e.asn_rx tx e.asn_tx e.rssi

unfoldable pub notify_log : Inputs → SingleState → Outcome SingleState
notify_log e s =
    if not s.log_received
    then next s
    else if ltb log_data_size s.vars.log.len
    then fault
    else next (transmit (take (6 + s.vars.log.len) s'.notification_buffer) tx_default s')
  where
    s' : SingleState
    s' =
        record (fill
          (msg_log_event ∷ u32_bytes e.timestamp
            ++ (s.vars.log.len ∷ take s.vars.log.len s.vars.log.bytes))
          s) { log_received = false }

-- A notification waits for a connection, without end if none comes.
unfoldable pub notify : Bool → List ℕ → SingleState → Outcome SingleState
notify connected packet s =
    if connected then next (transmit packet tx_default (fill packet s)) else stopped (fill packet s)

unfoldable pub erase_image : Store → SingleState → SingleState
unfolding erase_pages
erase_image store s =
    if s.ota_require_erase
    then record s {
      nvmc = erase_pages store 0 (pages_count s.vars.ota.image_size) s.nvmc;
      ota_require_erase = false;
    }
    else s

unfoldable pub handle_ota_start : Store → Bool → SingleState → Outcome SingleState
unfolding notify erase_image
handle_ota_start store connected s =
    if s.ota_start_request
    then notify connected (msg_ota_start_ack ∷ [])
        (erase_image store (record s { ota_start_request = false }))
    else next s

unfoldable pub write_chunk : Store → SingleState → SingleState
unfolding nvmc_write
write_chunk store s = if ota.last_chunk_acked == ota.chunk_index then s else record s {
  nvmc =
      nvmc_write store (chunk_address s.base_addr ota.chunk_index) (chunk_word ota.chunk)
        ota.chunk_size s.nvmc;
  ota_require_erase = true;
}
  where
    ota : IpcOtaData
    ota = s.vars.ota

abbrev pub ack_chunk : SingleState → SingleState
ack_chunk s = record s {
  vars = record s.vars { ota = record s.vars.ota { last_chunk_acked = s.vars.ota.chunk_index } };
}

unfoldable pub finish_ota : SingleState → SingleState
finish_ota s =
    if is_last_chunk s.vars.ota then record s { vars = record s.vars { status = ready } } else s

unfoldable pub acknowledge : Bool → SingleState → Outcome SingleState
unfolding notify finish_ota
acknowledge connected s =
    notify connected (msg_ota_chunk_ack ∷ u32_bytes s.vars.ota.chunk_index) (ack_chunk s) >>= λ s'.
    next (finish_ota s')

unfoldable pub handle_ota_chunk : Store → Bool → SingleState → Outcome SingleState
unfolding write_chunk acknowledge
handle_ota_chunk store connected s =
    if s.ota_chunk_request
    then acknowledge connected (write_chunk store (record s { ota_chunk_request = false }))
    else next s

-- `level` is what `battery_level_read` returns.
unfoldable pub update_battery : ℕ → SingleState → SingleState
update_battery level s =
    if s.battery_update
    then record (emit led_toggle s) {
      vars = record s.vars { battery_level = level };
      battery_update = false;
    }
    else s

-- One round of `while (1)`.
unfoldable pub main_loop : Platform → Inputs → ℕ → SingleState → Outcome SingleState
main_loop p e level s =
    handle_request p (notify_status s)
    >>= (λ a. notify_log e (reply_metrics p e a))
    >>= handle_ota_start p.store e.connected
    >>= handle_ota_chunk p.store e.connected
    >>= (λ b. next (update_battery level b))
