-- ===== src/Examples/OneCore.antt =====
-- Tests of the update of the program for one core.
use swarmit.Base.{
  ◌+◌, ◌*◌, ◌≡◌, refl, inl, true, arith, Returns, ◌>>=◌, false, List, [], ◌∷◌, none, Leads, inr,
}
use swarmit.Protocol.{ready, programming, is_running, msg_stop}
use swarmit.Nvmc.{app_geometry}
use swarmit.App.{AppState}
use swarmit.App.Ota.{base_address, chunk_word}
use swarmit.App.Ota
use swarmit.Single.{SingleState}
use swarmit.Net.Packet.{MrEvent}
use swarmit.Single.Start.{SingleMachine, start_up}
use swarmit.Single.Runs.{SingleEvent, radio, status_timer, round, run, single_start-run}
use swarmit.Single.Air.{serve_update}
use swarmit.Single.Air.Update.{single_air_lem}
use swarmit.Examples.{platform, inputs, app_core, controller, controller_lem}
use swarmit.Examples.Application.{unset}
use swarmit.Examples.Devices.{single}
use swarmit.Examples.Cores.{firmware}

-- A start was asked for.
abbrev started : SingleState
started = record single {
  ota_start_request = true;
  vars = record single.vars {
    status = programming;
    ota = record single.vars.ota { last_chunk_acked = 0xffff_ffff };
  };
}

abbrev core : AppState Unit
core = app_core tt programming

abbrev single_machine : SingleMachine
single_machine = record {
  reset_reason = 1;
  watchdog = unset;
  vtor = 0;
  led_output = false;
  timers = [];
  status_period_us = none;
}

-- A stop comes after a reset that was none by software.
abbrev stopping_events : List SingleEvent
stopping_events =
    radio (MrEvent.new_packet 42 (msg_stop ∷ [])) ∷ status_timer ∷ round inputs 2900 ∷ []

single_start-run_example :
    Leads
      (λ s'. (is_running s'.vars.status ≡ false) × (s'.in_user_image ≡ false))
      ((start_up 4 42 4 2900 single_machine single).1
        >>= run (platform app_geometry) stopping_events)
single_start-run_example =
    single_start-run (platform app_geometry) 4 42 4 2900 single_machine single stopping_events refl

-- The same firmware as for two cores, each chunk three times.
single_air_lem_example :
    Returns
      (λ s'.
        (s'.nvmc.memory (base_address + 1 * 128 + 4 * 3) ≡ chunk_word (firmware 1) 3)
        × (s'.nvmc.memory 0 ≡ 0xffff_ffff)
        × (s'.vars.status ≡ ready))
      (serve_update
        (platform app_geometry)
        (controller app_geometry)
        firmware
        (λ _. 2)
        200
        2
        single)
single_air_lem_example =
    single_air_lem (platform app_geometry) (controller app_geometry) (controller_lem app_geometry)
      firmware (λ _. 2) 200 2 (record { sizes = λ i. ground arith; count = omega arith })
      (λ bs. refl) (ground arith) (ground arith) (omega arith) (omega arith) (omega arith) single
      (record {
        room = refl;
        buffer = refl;
        status = inr refl;
        erase = refl;
        chunk = refl;
        base_addr = refl;
      })
      1 3 0 (omega arith) (omega arith) (inl (omega arith))
