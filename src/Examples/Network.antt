-- ===== src/Examples/Network.antt =====
-- Tests of the network core, device/network_core/Source/main.c.
use swarmit.Base.{
  ℕ, ◌≡◌, ◌⊎◌, refl, true, false, List, [], ◌∷◌, ◌++◌, arith, replicate, drop, Leads, Returns, next,
  stopped,
}
use swarmit.Protocol.{ready, running, programming, msg_stop, msg_start}
use swarmit.Shared.{mari_node_tx_req}
use swarmit.Nvmc.{net_geometry}
use swarmit.Net.{NetState, tx_payload, tx_default}
use swarmit.Net.Packet.{MrEvent}
use swarmit.Net.Config.{load_config}
use swarmit.Net.Request.{on_ota_chunk, handle_request}
use swarmit.Net.Loop.{notify_status, handle_ipc}
use swarmit.Net.Status.{Edge, handle_request-Edge, handle_request-dropped}
use swarmit.Net.Chunk.{Forwarded, on_ota_chunk-Forwarded}
use swarmit.Net.Calibration.{calibrate, words, calibration-survives}
use swarmit.Net.Runs.{NetEvent, run, IsSane, inits, all_sent, run-IsSane}
use swarmit.Net.Notify.{IsStatusOf, notify_status-payload, Served, handle_ipc-Served}
use swarmit.Examples.{controller_lem, platform, inputs, shared, net_core, chunk_request}

abbrev stop_request : List ℕ
stop_request = msg_stop ∷ replicate 254 0

abbrev matrix : List ℕ
matrix = 1 ∷ 2 ∷ 3 ∷ 4 ∷ 5 ∷ 6 ∷ 7 ∷ 8 ∷ 9 ∷ []

handle_request-Edge_example :
    Leads
      (λ s'. Edge msg_stop running s'.shared.status)
      (handle_request (platform net_geometry) (net_core running stop_request))
handle_request-Edge_example =
    handle_request-Edge (platform net_geometry) (net_core running stop_request)

handle_request-dropped_example :
    handle_request (platform net_geometry) (net_core ready stop_request)
    ≡ next (record (net_core ready stop_request) { req_received = false })
handle_request-dropped_example =
    handle_request-dropped (platform net_geometry) (net_core ready stop_request) refl

on_ota_chunk-Forwarded_example :
    Leads
      (λ s'.
        (s'.effects ≡ [])
        ⊎ Forwarded (platform net_geometry) (net_core programming (chunk_request 1 72)) s')
      (on_ota_chunk (platform net_geometry) (net_core programming (chunk_request 1 72)))
on_ota_chunk-Forwarded_example =
    on_ota_chunk-Forwarded (platform net_geometry) (net_core programming (chunk_request 1 72))

calibration-survives_example :
    (s' : NetState) × (calibrate
        (platform net_geometry)
        1
        0
        (matrix ∷ [])
        (net_core ready stop_request)
      ≡ stopped s')
    × (let b = load_config (record (net_core ready stop_request) { nvmc = s'.nvmc }) in
        (b.shared.lh2_calibration.homography_count ≡ 1)
        × (b.shared.lh2_calibration.homographies ≡ words (matrix ∷ []) ++ drop 9 (replicate 144 0))
        × (b.lh2_calibration_ready ≡ true)
        × (b.mari_net_id ≡ 0x1234))
calibration-survives_example =
    calibration-survives (platform net_geometry) (controller_lem net_geometry) matrix []
      (net_core ready stop_request) (net_core ready stop_request) (omega arith) (omega arith)
      ((refl, omega arith), tt) refl refl refl

abbrev events : List NetEvent
events =
    NetEvent.radio (MrEvent.new_packet 42 (msg_start ∷ []))
    ∷ NetEvent.timer
    ∷ NetEvent.round inputs
    ∷ []

run-IsSane_example : Leads IsSane (run (platform net_geometry) events (net_core ready stop_request))
unfolding inits all_sent
run-IsSane_example =
    run-IsSane (platform net_geometry) events (net_core ready stop_request) (λ _ _ _ _ _ _. refl)
      (record {
        req_buffer = refl;
        notification_buffer = refl;
        homographies = refl;
        started = refl;
        configured = refl;
      })

notify_status-payload_example :
    (payload : List ℕ) × ((notify_status (net_core ready stop_request)).effects
      ≡ tx_payload payload tx_default ∷ [])
    × IsStatusOf (shared ready) payload
    × ((notify_status (net_core ready stop_request)).send_status ≡ false)
notify_status-payload_example =
    notify_status-payload (net_core ready stop_request) refl refl (omega arith) (omega arith)
      (omega arith)

abbrev asked : NetState
asked = record (net_core ready stop_request) { ipc_req = mari_node_tx_req }

handle_ipc-Served_example : Returns (Served inputs asked) (handle_ipc inputs asked)
handle_ipc-Served_example = handle_ipc-Served inputs asked refl (λ e. grind (arith, e))
