-- ===== src/Examples/Traffic.antt =====
-- Tests of what passes between the user image and the air.
use swarmit.Base.{◌≡◌, ◌++◌, refl, inr, arith, false, [], ◌∷◌, replicate, Returns, List}
use swarmit.Base.Bytes.{u32_bytes}
use swarmit.Protocol.{running, msg_log_event}
use swarmit.Shared.{chan_req, chan_log_event, chan_radio_rx}
use swarmit.Nvmc.{net_geometry}
use swarmit.Net
use swarmit.Net.{NetState, tx_payload, tx_default, tx_dotbot_forward}
use swarmit.Net.Packet.{handle_packet, ipc_irq_handler}
use swarmit.Net.Loop.{main_loop, forward_data, handle_ipc}
use swarmit.Gateway.{
  Memory, GatewayState, swarmit_log_data, swarmit_ipc_isr, swarmit_send_raw_data, set_shared,
  load_bytes,
}
use swarmit.Wires.Delivery.{net_ipc}
use swarmit.Link.Wired.{app_wires, interrupting}
use swarmit.App.{task_send, node_tx}
use swarmit.Link.Send.{net_answer, called, raw_sent}
use swarmit.Link.Traffic.{net_event, log_sent, data_received}
use swarmit.Examples.{platform, inputs, shared, net_core, app_core}

abbrev memory : Memory
memory a = 7

abbrev gateway : GatewayState Unit
gateway = record {
  app = app_core tt running;
  tx_data_buffer = replicate 255 0;
  localization_data_available = false;
  reloads = 0;
  received = [];
}

abbrev network : NetState
network = net_core running (replicate 255 0)

-- The network core with no packet to serve.
abbrev quiet : NetState
quiet = record network { req_received = false }

log_sent_example :
    Returns
      (λ n'.
        (es : List Net.Effect) × (n'.effects
          ≡ tx_payload (msg_log_event ∷ u32_bytes 1000 ++ (3 ∷ 7 ∷ 7 ∷ 7 ∷ [])) tx_default ∷ es))
      (main_loop (platform net_geometry) inputs (
        ipc_irq_handler
          (net_event chan_req (swarmit_log_data memory 0x2000_9000 3 gateway).app.effects)
          (net_event chan_log_event (swarmit_log_data memory 0x2000_9000 3 gateway).app.effects)
          (record quiet { shared = (swarmit_log_data memory 0x2000_9000 3 gateway).app.shared })))
unfolding load_bytes
log_sent_example =
    log_sent memory 0x2000_9000 3 gateway (platform net_geometry) inputs quiet (omega arith) refl
      refl refl refl refl refl

data_received_example :
    (swarmit_ipc_isr
      (interrupting net_ipc app_wires.ipc chan_radio_rx
        (forward_data (handle_packet (platform net_geometry) 42 (16 ∷ 1 ∷ 2 ∷ []) network)).effects)
      (set_shared
        (forward_data (handle_packet (platform net_geometry) 42 (16 ∷ 1 ∷ 2 ∷ []) network)).shared
        gateway)).received
    ≡ (16 ∷ 1 ∷ 2 ∷ []) ∷ []
data_received_example =
    data_received (platform net_geometry) 42 16 (1 ∷ 2 ∷ []) network gateway refl (inr refl) refl
      (ground arith) (omega arith) (omega arith)

raw_sent_example :
    Returns
      (λ g'.
        (g'.app.effects ≡ task_send chan_req ∷ node_tx (7 ∷ 7 ∷ []) ∷ [])
        × (g'.app.shared.net_ack ≡ false))
      (swarmit_send_raw_data (net_answer inputs network) memory 0x2000_9000 2 gateway)
    × Returns
        (λ n'. n'.effects ≡ tx_payload (7 ∷ 7 ∷ []) tx_dotbot_forward ∷ [])
        (handle_ipc inputs (
          ipc_irq_handler
            (net_event chan_req (task_send chan_req ∷ node_tx (7 ∷ 7 ∷ []) ∷ []))
            false
            (record network { shared = called (7 ∷ 7 ∷ []) (shared running) })))
unfolding load_bytes
raw_sent_example = raw_sent memory 0x2000_9000 2 gateway inputs network (omega arith) refl
