-- ===== src/Net/Notify.antt =====
-- What the network core sends: status and log notifications, and the requests that it serves for
-- the application core (device/network_core/Source/main.c).
use swarmit.Base.{
  ℕ, ◌+◌, ◌^◌, ◌≤◌, ◌<◌, ◌≡◌, ◌≢◌, refl, ap, true, false, List, ◌∷◌, arith, length, get_or, take,
  write_at, length-take, take-write_at, Returns, subst, ltb, if◌then◌else◌,
}
use swarmit.Base.Bytes.{read_u16, read_u32}
use swarmit.Protocol.{status_code, msg_status}
use swarmit.Shared.{
  req_none, mari_node_tx_req, rng_read_req, IpcSharedData, log_data_size, IpcReq, mari_init_req,
  rng_init_req,
}
use swarmit.Net.{Inputs, NetState, tx_payload, tx_default, Effect, mari_init, rng_init}
use swarmit.Net.Loop.{status_message, notify_status, log_message, notify_log, handle_ipc, tx_config}

-- The fields of a status notification, by their places in the packet.
pub record IsStatusOf (d : IpcSharedData) (payload : List ℕ) : Type 0 where
  pub size : length payload ≡ 13
  pub type : get_or payload 0 0 ≡ msg_status
  pub device : get_or payload 1 0 ≡ d.device_type
  pub status : get_or payload 2 0 ≡ status_code d.status
  pub battery : read_u16 payload 3 ≡ d.battery_level
  pub pos_x : read_u32 payload 5 ≡ d.current_position.x
  pub pos_y : read_u32 payload 9 ≡ d.current_position.y

status_message-IsStatusOf :
    (d : IpcSharedData)
    → d.battery_level < 2 ^ 16
    → d.current_position.x < 2 ^ 32
    → d.current_position.y < 2 ^ 32
    → IsStatusOf d (status_message d)
unfolding status_message
status_message-IsStatusOf d b x y = omega arith

-- When the timer has asked for it, the core sends one status notification, whose thirteen bytes
-- give the device, the status, the battery level and the position of the shared structure. The
-- buffer has its full length, and the numbers fit their types.
pub notify_status-payload :
    (s : NetState)
    → s.send_status ≡ true
    → length s.notification_buffer ≡ 255
    → s.shared.battery_level < 2 ^ 16
    → s.shared.current_position.x < 2 ^ 32
    → s.shared.current_position.y < 2 ^ 32
    → (payload : List ℕ) × ((notify_status s).effects ≡ tx_payload payload tx_default ∷ s.effects)
      × IsStatusOf s.shared payload
      × ((notify_status s).send_status ≡ false)
unfolding notify_status
notify_status-payload s f l b x y = (
  status_message s.shared,
  rw (f, take-write_at s.notification_buffer (status_message s.shared) (omega arith)),
  status_message-IsStatusOf s.shared b x y,
  rw f,
)

-- When a log was announced, the core sends one notification with the time stamp and the log, its
-- length in front. The buffer and the log have their full lengths, and the log fits its array.
pub notify_log-payload :
    (e : Inputs) (s : NetState)
    → s.ipc_log_received ≡ true
    → length s.notification_buffer ≡ 255
    → length s.shared.log.bytes ≡ 127
    → s.shared.log.len ≤ 127
    → Returns
        (λ s'.
          (s'.effects ≡ tx_payload (log_message e.timestamp s.shared) tx_default ∷ s.effects)
          × (s'.ipc_log_received ≡ false))
        (notify_log e s)
unfolding notify_log
notify_log-payload e s f l d n =
    rw (f, fits)
      (
        ap (λ b. tx_payload b tx_default ∷ s.effects)
            (subst (λ k. take k (write_at s.notification_buffer 0 message) ≡ message) size
              (take-write_at s.notification_buffer message (omega (arith, size)))),
        refl,
      )
  where
    message : List ℕ
    message = log_message e.timestamp s.shared

    fits : ltb log_data_size s.shared.log.len ≡ false
    fits = ground arith

    size : length message ≡ 6 + s.shared.log.len
    size = omega (arith, length-take s.shared.log.len s.shared.log.bytes)

-- What each request makes the core do.
abbrev pub effects_of : IpcReq → NetState → List Effect
effects_of mari_init_req s =
    if s.mari_initialized then s.effects else mari_init s.mari_net_id ∷ s.effects
effects_of mari_node_tx_req s =
    tx_payload (take s.shared.tx_pdu.len s.shared.tx_pdu.buffer) (tx_config s.shared) ∷ s.effects
effects_of rng_init_req s = rng_init ∷ s.effects
effects_of _ s = s.effects

-- The random number that is then shared.
abbrev pub random_of : Inputs → IpcReq → NetState → ℕ
random_of e rng_read_req s = e.random
random_of e _ s = s.shared.rng

-- What a served request leaves behind.
pub record Served (e : Inputs) (s s' : NetState) : Type 0 where
  pub acked : s'.shared.net_ack ≡ true
  pub cleared : s'.ipc_req ≡ req_none
  pub ota : s'.shared.ota ≡ s.shared.ota
  pub status : s'.shared.status ≡ s.shared.status
  pub effects : s'.effects ≡ effects_of s.ipc_req s
  pub random : s'.shared.rng ≡ random_of e s.ipc_req s

-- A request of the application core is served and acknowledged, if the core is connected: mari is
-- started unless it was, a pdu is sent under the protocol that the status asks for, the random
-- number generator is started, or a random number is handed over. The update and the status are
-- left alone.
pub handle_ipc-Served :
    (e : Inputs) (s : NetState)
    → e.connected ≡ true
    → s.ipc_req ≢ req_none
    → Returns (Served e s) (handle_ipc e s)
unfolding handle_ipc
handle_ipc-Served e s c r = ground arith
