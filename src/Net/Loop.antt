-- ===== src/Net/Loop.antt =====
-- The main loop of device/network_core/Source/main.c: a block for each flag, their sequence, and
-- what `main` does before the loop.
use swarmit.Base.{
  ℕ, Bool, true, false, List, ◌∷◌, ◌+◌, ◌^◌, ◌%◌, ◌++◌, ◌||◌, not, take, write_at, ltb,
  if◌then◌else◌, Outcome, next, stopped, fault, ◌>>=◌,
}
use swarmit.Base.Bytes.{u16_bytes, u32_bytes}
use swarmit.Protocol.{is_running, is_stopping, status_code, msg_status, msg_log_event}
use swarmit.Shared.{
  IpcReq, req_none, mari_init_req, mari_node_tx_req, rng_init_req, rng_read_req, IpcSharedData,
  chan_calibration_data, chan_radio_rx, log_data_size,
}
use swarmit.Net.{
  Platform, Inputs, TxConfig, tx_default, tx_dotbot_forward, tx_internal, tx_payload, mari_init,
  rng_init, NetState, send_task,
}
use swarmit.Net.Config.{load_config}
use swarmit.Net.Request.{handle_request}

-- mari_node_tx_payload
abbrev pub transmit : List ℕ → TxConfig → NetState → NetState
transmit payload tx s = record s { effects = tx_payload payload tx ∷ s.effects }

unfoldable pub announce_calibration : NetState → NetState
announce_calibration s =
    if s.lh2_calibration_ready
    then send_task chan_calibration_data (record s { lh2_calibration_ready = false })
    else s

-- The thirteen bytes of a status notification.
unfoldable pub status_message : IpcSharedData → List ℕ
status_message d =
    msg_status ∷ d.device_type ∷ status_code d.status ∷ u16_bytes d.battery_level
    ++ (u32_bytes d.current_position.x ++ u32_bytes d.current_position.y)

unfoldable pub notify_status : NetState → NetState
unfolding status_message
notify_status s =
    if s.send_status
    then transmit (take 13 buffer) tx_default
        (record s { send_status = false; notification_buffer = buffer })
    else s
  where
    buffer : List ℕ
    buffer = write_at s.notification_buffer 0 (status_message s.shared)

-- The bytes of a log notification: the log is copied with its length in front.
unfoldable pub log_message : ℕ → IpcSharedData → List ℕ
log_message timestamp d =
    msg_log_event ∷ u32_bytes timestamp ++ (d.log.len ∷ take d.log.len d.log.bytes)

-- The copy goes out of bounds if the length of the log passes its array.
unfoldable pub notify_log : Inputs → NetState → Outcome NetState
unfolding log_message
notify_log e s =
    if not s.ipc_log_received
    then next s
    else if ltb log_data_size s.shared.log.len
    then fault
    else next (
        transmit (take (6 + s.shared.log.len) buffer) tx_default
          (record s { ipc_log_received = false; notification_buffer = buffer }))
  where
    buffer : List ℕ
    buffer = write_at s.notification_buffer 0 (log_message e.timestamp s.shared)

-- `user_running ? &SWARMIT_TX_DOTBOT_FORWARD : &SWARMIT_TX_DEFAULT`
abbrev pub tx_config : IpcSharedData → TxConfig
tx_config d = if is_running d.status || is_stopping d.status then tx_dotbot_forward else tx_default

-- `switch (_app_vars.ipc_req)`. A wait for a connection that does not come is endless.
unfoldable pub serve_request : Inputs → IpcReq → NetState → Outcome NetState
serve_request e mari_init_req s = next (
    if s.mari_initialized
    then s
    else record s { mari_initialized = true; effects = mari_init s.mari_net_id ∷ s.effects })
serve_request e mari_node_tx_req s =
    if e.connected
    then next (transmit (take s.shared.tx_pdu.len s.shared.tx_pdu.buffer) (tx_config s.shared) s)
    else stopped s
serve_request e rng_init_req s = next (record s { effects = rng_init ∷ s.effects })
serve_request e rng_read_req s = next (record s { shared = record s.shared { rng = e.random } })
serve_request e _ s = next s

-- `net_ack` is cleared before the request is served and set after it.
unfoldable pub set_ack : Bool → NetState → NetState
set_ack ack s = record s { shared = record s.shared { net_ack = ack } }

abbrev pub is_none : IpcReq → Bool
is_none req_none = true
is_none _ = false

unfoldable pub handle_ipc : Inputs → NetState → Outcome NetState
unfolding serve_request set_ack
handle_ipc e s =
    if is_none s.ipc_req
    then next s
    else serve_request e s.ipc_req (set_ack false s) >>= λ s'.
        next (record (set_ack true s') { ipc_req = req_none })

unfoldable pub forward_data : NetState → NetState
forward_data s =
    if s.data_received then send_task chan_radio_rx (record s { data_received = false }) else s

-- The reply is written over the request buffer, where the probe is.
unfoldable pub reply_metrics : Platform → Inputs → NetState → NetState
reply_metrics p e s =
    if s.metrics_received
    then transmit (take p.metrics_payload_size buffer) tx_internal (record s {
      metrics_received = false;
      metrics_rx_counter = rx;
      metrics_tx_counter = tx;
      req_buffer = buffer;
    })
    else s
  where
    rx : ℕ
    rx = (s.metrics_rx_counter + 1) % 2 ^ 32

    tx : ℕ
    tx = (s.metrics_tx_counter + 1) % 2 ^ 32

    buffer : List ℕ
    buffer = p.metrics_fields s.req_buffer rx e.asn_rx tx e.asn_tx e.rssi

-- One round of `while (1)`.
unfoldable pub main_loop : Platform → Inputs → NetState → Outcome NetState
main_loop p e s =
    handle_request p (notify_status (announce_calibration s))
    >>= handle_ipc e
    >>= (λ s'. notify_log e (reply_metrics p e (forward_data s')))

-- `main` up to the loop, given the identifier that `_deviceid` reads.
unfoldable pub start_up : ℕ → NetState → NetState
unfolding load_config
start_up device_id s =
    let s' = load_config (record s { device_id = device_id }) in
    record s' { shared = record s'.shared { net_ready = true } }
