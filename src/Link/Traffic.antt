-- ===== src/Link/Traffic.antt =====
-- What passes between the user image and the air: device/bootloader/Source/cmse_implib.c, the wires,
-- and device/network_core/Source/main.c.
use Prim.Native.Nat.{bit_and}
use swarmit.Base.{
  ℕ, ◌^◌, ◌≤◌, ◌<◌, ◌≡◌, ◌≢◌, ◌⊎◌, refl, ◌∙◌, ap, ap₂, sym, subst, arith, Bool, true, false, List,
  [], ◌∷◌, ◌++◌, ◌!=◌, ◌&&◌, ◌||◌, length, take, write_at, length-write_at, take-write_at, Returns,
  Returns-map,
}
use swarmit.Base.Bytes.{u32_bytes}
use swarmit.Base.Splice.{get_or-write_at_head}
use swarmit.Protocol.{running, msg_log_event}
use swarmit.Shared.{chan_req, chan_radio_rx, chan_log_event, log_data_size, IpcSharedData}
use swarmit.Net.{Platform, Inputs, NetState, tx_payload, tx_default, send_task}
use swarmit.Net.Packet.{is_request, handle_packet, ipc_irq_handler, fill_pdu}
use swarmit.Net.Loop.{log_message, main_loop, forward_data}
use swarmit.Net.Waiting.{main_loop-log}
use swarmit.Net
use swarmit.App.{Effect, task_send}
use swarmit.Gateway.{
  Memory, load_bytes, GatewayState, in_secure_space, swarmit_log_data, swarmit_ipc_isr, set_shared,
}
use swarmit.Gateway.Checks.{swarmit_log_data-taken}
use swarmit.Wires.{Ipc, configure_channels, configure_app_ipc, configure_net_ipc}
use swarmit.Wires.Delivery.{connected, net_ipc}
use swarmit.Link.{raised}
use swarmit.Link.Wired.{app_wires, interrupting, interrupting_lem}

-- Whether an event of the network core is set by the tasks of the application core among these
-- effects.
unfoldable pub received : Ipc → Ipc → ℕ → List Effect → Bool
received a b e [] = false
received a b e (task_send t ∷ es) = connected a b t e || received a b e es
received a b e (_ ∷ es) = received a b e es

-- Whether the handler of the network core finds it.
abbrev pub net_event : ℕ → List Effect → Bool
net_event e es = received app_wires.ipc net_ipc e es && bit_and net_ipc.inten (2 ^ e) != 0

log_event : net_event chan_log_event (task_send chan_log_event ∷ []) ≡ true
unfolding received configure_channels configure_app_ipc configure_net_ipc
log_event = refl

log-length :
    {L : Type 0} (m : Memory) (addr size : ℕ) (g : GatewayState L)
    → length (swarmit_log_data m addr size g).app.shared.log.bytes ≡ length g.app.shared.log.bytes
unfolding swarmit_log_data
log-length m addr size g =
    ground (arith, length-write_at g.app.shared.log.bytes 0 (load_bytes m addr size))

-- The interrupt for a log.
record IsSeen (n n' : NetState) : Type 0 where
  received : n'.ipc_log_received ≡ true
  shared : n'.shared ≡ n.shared
  buffer : n'.notification_buffer ≡ n.notification_buffer
  idle : n'.req_received ≡ n.req_received

log-IsSeen : (b : Bool) (n : NetState) → IsSeen n (ipc_irq_handler b true n)
unfolding ipc_irq_handler
log-IsSeen b n = ground arith

-- A log of the user image reaches the air: a log that fits and starts at no secure address is written
-- to the shared structure and announced, the announcement is found by the handler of the network
-- core, and the next whole round of its main loop comes to an end, and as the last thing it does sends
-- a notification, a time stamp and the length followed by the bytes at the address that the user image
-- gave. The buffers have their full lengths, no task was pending before, the network core has no
-- packet to serve and is connected.
pub log_sent :
    {L : Type 0} (m : Memory) (addr size : ℕ) (g : GatewayState L) (p : Platform) (e : Inputs)
    (n : NetState)
    → size ≤ log_data_size
    → in_secure_space addr ≡ false
    → length g.app.shared.log.bytes ≡ log_data_size
    → g.app.effects ≡ []
    → length n.notification_buffer ≡ 255
    → n.req_received ≡ false
    → e.connected ≡ true
    → Returns
        (λ n'.
          (es : List Net.Effect) × (n'.effects
            ≡ tx_payload
                (msg_log_event ∷ u32_bytes e.timestamp ++ (size ∷ load_bytes m addr size))
                tx_default
              ∷ es))
        (main_loop p e (
          ipc_irq_handler
            (net_event chan_req (swarmit_log_data m addr size g).app.effects)
            (net_event chan_log_event (swarmit_log_data m addr size g).app.effects)
            (record n { shared = (swarmit_log_data m addr size g).app.shared })))
unfolding log_message
log_sent {L = L} m addr size g p e n h o l k room idle c =
    subst (λ z. Returns Sent (main_loop p e (ipc_irq_handler asked z shown))) (sym announced)
      (Returns-map (main_loop p e (ipc_irq_handler asked true shown))
        (main_loop-log p e c (ipc_irq_handler asked true shown) (seen.idle ∙ idle) seen.received
          (ap length seen.buffer ∙ room)
          (ap (λ (d : IpcSharedData). length d.log.bytes) seen.shared
            ∙ log-length m addr size g
            ∙ l)
          (subst (λ z. z ≤ 127) (sym (ap (λ (d : IpcSharedData). d.log.len) seen.shared ∙ taken.1))
            h))
        (λ u x. (x.0, x.1 ∙ ap (λ bs. tx_payload bs tx_default ∷ x.0) message)))
  where
    logged : GatewayState L
    logged = swarmit_log_data m addr size g

    taken :
        (logged.app.effects ≡ task_send chan_log_event ∷ g.app.effects)
        × (logged.app.shared.log.len ≡ size)
        × (take size logged.app.shared.log.bytes ≡ load_bytes m addr size)
    taken = swarmit_log_data-taken m addr size g h o l

    asked : Bool
    asked = net_event chan_req logged.app.effects

    shown : NetState
    shown = record n { shared = logged.app.shared }

    seen : IsSeen shown (ipc_irq_handler asked true shown)
    seen = log-IsSeen asked shown

    announced : net_event chan_log_event logged.app.effects ≡ true
    announced =
        ap (net_event chan_log_event) (taken.0 ∙ ap (λ es. task_send chan_log_event ∷ es) k)
        ∙ log_event

    Sent : NetState → Type 0
    Sent n' =
        (es : List Net.Effect) × (n'.effects
          ≡ tx_payload (msg_log_event ∷ u32_bytes e.timestamp ++ (size ∷ load_bytes m addr size))
              tx_default
            ∷ es)

    message :
        log_message e.timestamp (ipc_irq_handler asked true shown).shared
        ≡ msg_log_event ∷ u32_bytes e.timestamp ++ (size ∷ load_bytes m addr size)
    message =
        ap (log_message e.timestamp) seen.shared
        ∙ ap₂ (λ z bs. msg_log_event ∷ u32_bytes e.timestamp ++ (z ∷ bs)) taken.1
            (subst (λ z. take z logged.app.shared.log.bytes ≡ load_bytes m addr size) (sym taken.1)
              taken.2)

-- The network core once it has passed a packet on.
abbrev passed : ℕ → List ℕ → NetState → NetState
passed type bs n = send_task chan_radio_rx (record n {
  req_buffer = write_at n.req_buffer 0 (type ∷ bs);
  data_received = false;
  shared = record n.shared { rx_pdu = fill_pdu n.shared.rx_pdu (type ∷ bs) };
})

forwarded :
    (p : Platform) (dst type : ℕ) (bs : List ℕ) (n : NetState)
    → n.shared.status ≡ running
    → (dst ≡ p.broadcast_address) ⊎ (dst ≡ n.device_id)
    → is_request type ≡ false
    → p.metrics_probe ≢ type
    → 0 < length n.req_buffer
    → forward_data (handle_packet p dst (type ∷ bs) n) ≡ passed type bs n
unfolding forward_data handle_packet
forwarded p dst type bs n st d r ne room =
    ground (arith, get_or-write_at_head n.req_buffer bs type 0 room)

-- A packet for the user image reaches it: when the user image runs, a packet from the air that is no
-- request and no probe and goes to this robot or to all is copied to the shared structure and
-- announced, the interrupt is delivered, and the callback of the user image is given the bytes of
-- the packet. The packet fits the pdu, and there is a request buffer.
pub data_received :
    {L : Type 0} (p : Platform) (dst type : ℕ) (bs : List ℕ) (n : NetState) (g : GatewayState L)
    → n.shared.status ≡ running
    → (dst ≡ p.broadcast_address) ⊎ (dst ≡ n.device_id)
    → is_request type ≡ false
    → p.metrics_probe ≢ type
    → length (type ∷ bs) ≤ length n.shared.rx_pdu.buffer
    → 0 < length n.req_buffer
    → (swarmit_ipc_isr
        (interrupting net_ipc app_wires.ipc chan_radio_rx
          (forward_data (handle_packet p dst (type ∷ bs) n)).effects)
        (set_shared (forward_data (handle_packet p dst (type ∷ bs) n)).shared g)).received
      ≡ (type ∷ bs) ∷ g.received
unfolding swarmit_ipc_isr raised configure_channels
data_received p dst type bs n g st d r ne fits room =
    ap
      (λ (z : NetState).
        (swarmit_ipc_isr (interrupting net_ipc app_wires.ipc chan_radio_rx z.effects)
          (set_shared z.shared g)).received)
      (forwarded p dst type bs n st d r ne room)
    ∙ ap (λ c. (swarmit_ipc_isr c (set_shared (passed type bs n).shared g)).received)
        (interrupting_lem chan_radio_rx (passed type bs n).effects refl refl)
    ∙ ap (λ b. b ∷ g.received) (take-write_at n.shared.rx_pdu.buffer (type ∷ bs) fits)
