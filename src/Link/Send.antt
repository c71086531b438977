-- ===== src/Link/Send.antt =====
-- A packet that the user image sends, from device/bootloader/Source/cmse_implib.c to the air through
-- device/bootloader/Source/mari.c and the requests of device/network_core/Source/main.c.
use swarmit.Base.{
  ℕ, ◌≤◌, ◌≡◌, ◌≢◌, refl, ◌∙◌, ap, sym, subst, arith, true, false, List, ◌∷◌, length, take,
  write_at, take-write_at, Outcome, next, stopped, fault, Returns, Returns-map,
}
use swarmit.Shared.{chan_req, req_none, mari_node_tx_req, IpcSharedData}
use swarmit.Net.{Inputs, NetState, tx_payload}
use swarmit.Net.Packet.{ipc_irq_handler}
use swarmit.Net.Loop.{tx_config, handle_ipc, serve_request}
use swarmit.Net.Notify.{handle_ipc-Served}
use swarmit.App.{NetCore, AppState, task_send, node_tx}
use swarmit.App.Mari.{mari_node_tx, ipc_network_call, wait_ack}
use swarmit.Gateway.{Memory, load_bytes, GatewayState, with_app, swarmit_send_raw_data}
use swarmit.Gateway.Checks.{length-load_bytes, with_app-Returns}
use swarmit.Wires.{configure_channels, configure_app_ipc, configure_net_ipc}
use swarmit.Link.Traffic.{net_event, received}

-- What the network core makes of the shared structure when it is called: its interrupt, and its
-- block for requests.
abbrev shared_after : IpcSharedData → Outcome NetState → IpcSharedData
shared_after d (next n) = n.shared
shared_after d (stopped n) = n.shared
shared_after d fault = d

unfoldable pub net_answer : Inputs → NetState → NetCore
unfolding ipc_irq_handler handle_ipc
net_answer e n d =
    shared_after d (handle_ipc e (ipc_irq_handler true false (record n { shared = d })))

-- The shared structure when the application core calls for a packet.
abbrev pub called : List ℕ → IpcSharedData → IpcSharedData
called bytes d = record d {
  req = mari_node_tx_req;
  tx_pdu = record { len = length bytes; buffer = write_at d.tx_pdu.buffer 0 bytes };
}

net_answer-ack :
    (e : Inputs) (n : NetState) (bytes : List ℕ) (d : IpcSharedData)
    → e.connected ≡ true
    → (net_answer e n (called bytes d)).net_ack ≡ true
unfolding net_answer serve_request
net_answer-ack e n bytes d c = ground arith

call_event :
    (bytes : List ℕ) {L : Type 0} (a : AppState L)
    → net_event chan_req (task_send chan_req ∷ node_tx bytes ∷ a.effects) ≡ true
unfolding received configure_channels configure_app_ipc configure_net_ipc
call_event bytes a = refl

is_call : mari_node_tx_req ≢ req_none
is_call h = cc

module _ {L : Type 0} (m : Memory) (packet size : ℕ) (g : GatewayState L) (e : Inputs)
    (n : NetState) where
  abbrev pub sent : List ℕ
  sent = load_bytes m packet size

  call_lem :
      e.connected ≡ true
      → Returns
          (λ (a : AppState L).
            (a.effects ≡ task_send chan_req ∷ node_tx sent ∷ g.app.effects)
            × (a.shared.net_ack ≡ false))
          (mari_node_tx (net_answer e n) sent g.app)
  unfolding mari_node_tx ipc_network_call wait_ack
  call_lem c = ground (arith, net_answer-ack e n sent g.app.shared c)

  -- A packet that the user image sends raw goes to the air: the call of the gateway returns, with
  -- the acknowledgement of the network core taken back, and the network core, whose handler has
  -- found the call, has sent the bytes at the address that the user image gave, under the protocol
  -- that the status asks for, and nothing else. The pdu has room for the packet, and the network
  -- core is connected.
  pub raw_sent :
      size ≤ length g.app.shared.tx_pdu.buffer
      → e.connected ≡ true
      → Returns
          (λ g'.
            (g'.app.effects ≡ task_send chan_req ∷ node_tx sent ∷ g.app.effects)
            × (g'.app.shared.net_ack ≡ false))
          (swarmit_send_raw_data (net_answer e n) m packet size g)
        × Returns
            (λ n'.
              n'.effects
              ≡ tx_payload (load_bytes m packet size) (tx_config g.app.shared) ∷ n.effects)
            (handle_ipc e (
              ipc_irq_handler
                (net_event chan_req (task_send chan_req ∷ node_tx sent ∷ g.app.effects))
                false
                (record n { shared = called sent g.app.shared })))
  unfolding swarmit_send_raw_data ipc_irq_handler
  raw_sent h c = (
    Returns-map (with_app g (mari_node_tx (net_answer e n) sent g.app))
        (with_app-Returns _ g (mari_node_tx (net_answer e n) sent g.app) (call_lem c)) (λ u x. x.0),
    subst (λ b. Returns Sent (handle_ipc e (ipc_irq_handler b false asked)))
        (sym (call_event sent g.app))
        (Returns-map (handle_ipc e (record asked { ipc_req = mari_node_tx_req }))
          (handle_ipc-Served e (record asked { ipc_req = mari_node_tx_req }) c is_call)
          (λ u x. x.effects ∙ ap (λ bs. tx_payload bs (tx_config g.app.shared) ∷ n.effects) whole)),
  )
    where
      asked : NetState
      asked = record n { shared = called sent g.app.shared }

      Sent : NetState → Type 0
      Sent n' =
          n'.effects ≡ tx_payload (load_bytes m packet size) (tx_config g.app.shared) ∷ n.effects

      whole : take (length sent) (write_at g.app.shared.tx_pdu.buffer 0 sent) ≡ sent
      whole = take-write_at g.app.shared.tx_pdu.buffer sent (
          subst (λ z. z ≤ length g.app.shared.tx_pdu.buffer) (sym (length-load_bytes m packet size))
            h)
