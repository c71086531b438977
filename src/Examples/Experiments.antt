-- ===== src/Examples/Experiments.antt =====
-- Tests of an experiment, from its start to its stop.
use swarmit.Base.{◌≡◌, refl, arith, true, false, [], ◌∷◌, replicate, Leads, Returns, Stops}
use swarmit.Protocol.{ready, running, stopping, msg_start, msg_stop}
use swarmit.Nvmc.{net_geometry, app_geometry}
use swarmit.Net.{task_send}
use swarmit.Net.Request.{handle_request}
use swarmit.App.{NetCore}
use swarmit.App.Boot.{Machine, start_up}
use swarmit.App.Start.{IsFresh}
use swarmit.Wires.Delivery.{net_ipc}
use swarmit.Link.{raised, events_of}
use swarmit.Link.Robot.{Robot}
use swarmit.Link.Wired.{interrupts, starts_watchdog1, app_wires, interrupts_lem}
use swarmit.Link.Round.{net_serves, serve_round}
use swarmit.Link.Watchdog.{handle_request-watchdog}
use swarmit.Link.Experiment.{start_lem, stop_lem}
use swarmit.Examples.{platform, net_core, app_core, controller, answer, answer-IsNetCore}
use swarmit.Examples.Application.{localizer, bits, board, masks, machine}

abbrev waiting : Robot Unit
waiting = record {
  net = net_core ready (replicate 255 0);
  app = record (app_core tt ready) { ota_start_request = false; lh2_calibration_ready = false };
}

abbrev busy : Robot Unit
busy = record { net = net_core running (replicate 255 0); app = app_core tt running }

-- A network core that comes up.
abbrev wake : NetCore
wake d = record d { net_ready = true }

-- The machine after a reset by the second watchdog.
abbrev expired : Machine
expired = record machine { reset_reason = 2 }

start_lem_example :
    Stops
      (λ r'.
        ((start_up localizer bits masks board 4 wake answer false 1 2950 machine
            (record (app_core tt ready) { boot_intent = r'.app.boot_intent })).0.in_user_image
          ≡ true)
        × Stops
            (λ s. s.shared.status ≡ running)
            (start_up localizer bits masks board 4 wake answer false 1 2950 machine
              (record (app_core tt ready) { boot_intent = r'.app.boot_intent })).1)
      (serve_round
        (platform net_geometry)
        localizer
        (controller app_geometry)
        answer
        app_wires
        2950
        (msg_start ∷ [])
        waiting)
start_lem_example =
    start_lem (platform net_geometry) localizer (controller app_geometry) answer 2950 [] waiting
      (ground arith)
      (record {
        room = omega arith;
        status = refl;
        ota_start = refl;
        ota_chunk = refl;
        calibration = refl;
      })
      bits masks board 4 wake (λ d. refl) answer-IsNetCore (λ hs n l a b. tt) false 1 2950 machine
      (app_core tt ready) refl

stop_lem_example :
    Returns
      (λ n. (n.shared.status ≡ stopping) × (starts_watchdog1 net_ipc app_wires 16 n.effects ≡ true))
      (net_serves (platform net_geometry) (msg_stop ∷ []) busy)
    × ((start_up localizer bits masks board 4 wake answer false 1 2950 expired
          (app_core tt running)).0.in_user_image
        ≡ false)
    × Returns IsFresh
        (start_up localizer bits masks board 4 wake answer false 1 2950 expired
          (app_core tt running)).1
stop_lem_example =
    stop_lem (platform net_geometry) localizer [] busy (ground arith) (omega arith) refl bits masks
      board 4 wake answer (λ d. refl) answer-IsNetCore false 1 2950 expired (app_core tt running)
      refl refl

handle_request-watchdog_example :
    Leads
      (λ n'. starts_watchdog1 net_ipc app_wires 16 n'.effects ≡ true)
      (handle_request (platform net_geometry) (net_core running (msg_stop ∷ [])))
handle_request-watchdog_example =
    handle_request-watchdog (platform net_geometry) (net_core running (msg_stop ∷ [])) refl

interrupts_lem_example :
    (interrupts net_ipc app_wires (task_send 3 ∷ []) ≡ events_of (task_send 3 ∷ []))
    × (starts_watchdog1 net_ipc app_wires 16 (task_send 3 ∷ []) ≡ true)
unfolding raised
interrupts_lem_example = interrupts_lem (task_send 3 ∷ [])
