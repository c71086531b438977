-- ===== src/Sample/Round.antt =====
-- What a round of sample/Source/main.c leaves behind, through the secure side.
use swarmit.Gateway.Checks.{with_app-Returns}
use Prim.Native.Nat.{bit_xor}
use swarmit.Base.{
  ℕ, ◌+◌, ◌^◌, ◌≡◌, arith, true, false, List, ◌∷◌, length, take, write_at, take-write_at, Outcome,
  Returns, Returns-map, Returns->>=, next, stopped, fault, ap, refl, ◌∙◌, ◌%◌, ◌*◌,
}
use swarmit.Shared.{
  IpcLogData, mari_node_tx_req, chan_req, chan_log_event, log_data_size, IpcSharedData,
}
use swarmit.Localization.{Localizer}
use swarmit.App.{NetCore, task_send, node_tx}
use swarmit.App.Mari.{mari_node_tx, ipc_network_call, wait_ack}
use swarmit.Gateway.{
  Memory, load_bytes, GatewayState, with_app, packet_data, in_secure_space, swarmit_keep_alive,
  swarmit_send_data_packet, swarmit_log_data,
}
use swarmit.Sample.{SampleState, with_gateway, delay_ms, timer0_irq_handler, round}

-- What the reload leaves alone.
record IsReloaded {L : Type 0} (g g' : GatewayState L) : Type 0 where
  effects : g'.app.effects ≡ g.app.effects
  buffer : g'.tx_data_buffer ≡ g.tx_data_buffer
  log : g'.app.shared.log ≡ g.app.shared.log
  reloads : g'.reloads ≡ g.reloads + 1

keep_alive-IsReloaded :
    {L : Type 0} (loc : Localizer L) (level : ℕ) (g : GatewayState L)
    → IsReloaded g (swarmit_keep_alive loc level g)
unfolding swarmit_keep_alive
keep_alive-IsReloaded loc level g = ground arith

with_gateway-Returns :
    {L : Type 0} (P : GatewayState L → Type 0) (s : SampleState L) (w : Outcome (GatewayState L))
    → Returns P w
    → Returns (λ s'. P s'.gateway × (s'.out ≡ s.out)) (with_gateway s w)
with_gateway-Returns P s (next g) h = (h, refl)
with_gateway-Returns P s (stopped g) h = absurd h
with_gateway-Returns P s fault h = absurd h

-- The packet and its announcement.
record IsSent {L : Type 0} (bytes : List ℕ) (g g' : GatewayState L) : Type 0 where
  effects : g'.app.effects ≡ task_send chan_req ∷ node_tx (packet_data ∷ 5 ∷ bytes) ∷ g.app.effects
  log : g'.app.shared.log ≡ g.app.shared.log
  reloads : g'.reloads ≡ g.reloads

module _ {L : Type 0} (answer : NetCore) (acks : (d : IpcSharedData) → (answer d).net_ack ≡ true)
    (keeps : (d : IpcSharedData) → (answer d).log ≡ d.log) (m : Memory) where
  tx-Sent :
      (packet : List ℕ) (g : GatewayState L)
      → Returns
          (λ a.
            (a.effects ≡ task_send chan_req ∷ node_tx packet ∷ g.app.effects)
            × (a.shared.log ≡ g.app.shared.log))
          (mari_node_tx answer packet g.app)
  unfolding mari_node_tx ipc_network_call wait_ack
  tx-Sent packet g = ground (arith, acks sent, keeps sent)
    where
      sent : IpcSharedData
      sent = record g.app.shared {
        req = mari_node_tx_req;
        tx_pdu = record {
          len = length packet;
          buffer = write_at g.app.shared.tx_pdu.buffer 0 packet;
        };
      }

  send-IsSent :
      (slot packet : ℕ) (g : GatewayState L)
      → length g.tx_data_buffer ≡ 255
      → Returns (IsSent (load_bytes m slot 5) g) (swarmit_send_data_packet answer m slot packet 5 g)
  unfolding swarmit_send_data_packet load_bytes
  send-IsSent slot packet g l =
      Returns-map (with_app g' (mari_node_tx answer (take 7 buffer) g.app))
        (with_app-Returns _ g' (mari_node_tx answer (take 7 buffer) g.app)
          (tx-Sent (take 7 buffer) g'))
        (λ u x. record {
          effects =
              x.0.0
              ∙ ap (λ bs. task_send chan_req ∷ node_tx bs ∷ g.app.effects)
                  (take-write_at g.tx_data_buffer (packet_data ∷ 5 ∷ load_bytes m slot 5)
                    (omega arith));
          log = x.0.1;
          reloads = x.1;
        })
    where
      buffer : List ℕ
      buffer = write_at g.tx_data_buffer 0 (packet_data ∷ 5 ∷ load_bytes m slot 5)

      g' : GatewayState L
      g' = record g { tx_data_buffer = buffer }

log-Logged :
    {L : Type 0} (m : Memory) (addr : ℕ) (g : GatewayState L)
    → length g.app.shared.log.bytes ≡ log_data_size
    → in_secure_space addr ≡ false
    → ((swarmit_log_data m addr 7 g).app.effects ≡ task_send chan_log_event ∷ g.app.effects)
      × ((swarmit_log_data m addr 7 g).app.shared.log.len ≡ 7)
      × (take 7 (swarmit_log_data m addr 7 g).app.shared.log.bytes ≡ load_bytes m addr 7)
      × ((swarmit_log_data m addr 7 g).reloads ≡ g.reloads)
unfolding swarmit_log_data load_bytes
log-Logged m addr g l o =
    ground (arith, take-write_at g.app.shared.log.bytes (load_bytes m addr 7) (omega arith))

-- A round of the sample that the timer and the network core answer, with its strings outside the
-- addresses taken for secure: the watchdog is reloaded, the LED toggles, `Logging` is in the log
-- and announced, and the packet sent is a header followed by five bytes from the variable on the
-- secure stack, wherever `Hello` is. The buffers have their lengths, and the network core leaves
-- the log alone.
pub round_lem :
    {L : Type 0} (loc : Localizer L) (answer : NetCore) (m : Memory)
    (hello logging packet_slot level now : ℕ) (s : SampleState L)
    → ((d : IpcSharedData) → (answer d).net_ack ≡ true)
    → ((d : IpcSharedData) → (answer d).log ≡ d.log)
    → length s.gateway.tx_data_buffer ≡ 255
    → length s.gateway.app.shared.log.bytes ≡ log_data_size
    → in_secure_space logging ≡ false
    → Returns
        (λ s'.
          (s'.gateway.app.effects
            ≡ task_send chan_log_event
              ∷ task_send chan_req
              ∷ node_tx (packet_data ∷ 5 ∷ load_bytes m packet_slot 5)
              ∷ s.gateway.app.effects)
          × (s'.gateway.app.shared.log.len ≡ 7)
          × (take 7 s'.gateway.app.shared.log.bytes ≡ load_bytes m logging 7)
          × (s'.gateway.reloads ≡ s.gateway.reloads + 1)
          × (s'.out ≡ bit_xor s.out (2 ^ 28)))
        (round loc answer m hello logging packet_slot level now true s)
unfolding round delay_ms timer0_irq_handler
round_lem {L = L} loc answer m hello logging packet_slot level now s acks keeps room log out =
    Returns->>= (λ t. IsSent (load_bytes m packet_slot 5) g t.gateway × (t.out ≡ s.out)) _ sent
      logged
      (with_gateway-Returns _ waited _
        (send-IsSent answer acks keeps m packet_slot hello g (ap length alive.buffer ∙ room)))
      (λ t x.
        let w =
          log-Logged m logging t.gateway
            (ap (λ (l : IpcLogData). length l.bytes) (x.0.log ∙ alive.log) ∙ log) out in
        (
          w.0
              ∙ ap (λ es. task_send chan_log_event ∷ es)
                  (x.0.effects
                    ∙ ap
                        (λ es.
                          task_send chan_req
                          ∷ node_tx (packet_data ∷ 5 ∷ load_bytes m packet_slot 5)
                          ∷ es)
                        alive.effects),
          w.1,
          w.2,
          w.3 ∙ x.0.reloads ∙ alive.reloads,
          ap (λ o. bit_xor o (2 ^ 28)) x.1,
        ))
  where
    waited : SampleState L
    waited = record s { cc = (now + 500 * 1000) % 2 ^ 32; timer_running = false }

    g : GatewayState L
    g = swarmit_keep_alive loc level s.gateway

    alive : IsReloaded s.gateway g
    alive = keep_alive-IsReloaded loc level s.gateway

    sent : Outcome (SampleState L)
    sent = with_gateway waited (swarmit_send_data_packet answer m packet_slot hello 5 g)

    logged : SampleState L → Outcome (SampleState L)
    logged t = next (record t {
      gateway = swarmit_log_data m logging 7 t.gateway;
      out = bit_xor t.out (2 ^ 28);
    })
