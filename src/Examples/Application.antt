-- ===== src/Examples/Application.antt =====
-- Tests of the application core, device/bootloader/Source/main.c.
use swarmit.Base.{
  ◌+◌, ◌*◌, ◌≡◌, inl, refl, true, false, [], arith, replicate, Leads, Returns, next, ◌>>=◌, ◌==◌,
  none, if◌then◌else◌, List, ◌∷◌,
}
use swarmit.Protocol.{ready, programming}
use swarmit.Nvmc.{app_geometry}
use swarmit.Localization.{Localizer}
use swarmit.Tz.{SpuBits}
use swarmit.Tz.User.{Board, ScbMasks}
use swarmit.Wires.{reset_wires}
use swarmit.App.{AppState}
use swarmit.App.Ota.{base_address, chunk_word, handle_ota_start}
use swarmit.App.Loop.{handle_resets, IpcEvents}
use swarmit.App.Boot.{Machine, boot, Watchdog}
use swarmit.App.Erase.{Started, handle_ota_start-Started}
use swarmit.App.Image.{Image, transfer}
use swarmit.App.Update.{update_lem}
use swarmit.App.Rounds.{Request, rounds, rounds_lem}
use swarmit.App.Restart.{handle_resets-boot}
use swarmit.Examples.{controller, controller_lem, app_core, answer, answer-IsNetCore}

-- An image of two chunks.
abbrev pub image : Image
image = record {
  chunks = λ k. replicate 128 (k + 1);
  sizes = λ k. if k == 0 then 128 else 72;
  count = 2;
}

abbrev pub localizer : Localizer Unit
localizer = record {
  start = λ l. l;
  init = λ hs n l. next l;
  process_data = λ l. (false, l);
  get_position = λ l. (none, l);
  get_raw_counts = λ l n. ([], l);
}

abbrev pub bits : SpuBits
bits = record {
  periph_non_secure = 0;
  periph_dma = 8;
  flash_secure = 23;
  flash_non_secure = 7;
  ram_secure = 23;
  ram_non_secure = 7;
}

abbrev pub board : Board
board = record {
  is_dotbot_v3 = true;
  lh2_e_port = 0;
  lh2_e_pin = 9;
  lh2_d_port = 0;
  lh2_d_pin = 10;
}

abbrev pub masks : ScbMasks
masks = record {
  vectkey_msk = 0xffff_0000;
  vectkey = 0x05fa_0000;
  pris_msk = 0x4000;
  bfhfnmins_msk = 0x2000;
  sysresetreqs_msk = 8;
  cp10 = 0x400;
  cp11 = 0x800;
  securefaultena_msk = 0x8_0000;
  div_0_trp_msk = 16;
  unalign_trp_msk = 8;
}

abbrev pub unset : Watchdog
unset = record {
  sleep_run = false;
  halt_pause = false;
  rr0_enabled = false;
  crv = 0xffff_ffff;
  started = false;
}

-- The machine after a reset by software.
abbrev pub machine : Machine
machine = record {
  spu = record {
    flash_region = λ i. 0;
    ram_region = λ i. 0;
    periph = λ i. 0;
    gpio_port = λ i. 0;
    nsc_region = 0;
    nsc_size = 0;
  };
  scb = record { aircr = 0; nsacr = 0; shcsr = 0; ccr = 0; sau_ctrl = 0 };
  reset_reason = 4;
  non_secure_irqs = [];
  watchdog0 = unset;
  watchdog1 = unset;
  vtor_ns = 0;
  in_user_image = false;
  wires = reset_wires;
  led_outputs = [];
  timers = [];
}

abbrev core : AppState Unit
core = app_core tt programming

handle_ota_start-Started_example :
    Returns (Started core) (handle_ota_start (controller app_geometry) answer core)
handle_ota_start-Started_example =
    handle_ota_start-Started (controller_lem app_geometry) answer-IsNetCore core refl (omega arith)

-- The last chunk is 72 bytes long, and each chunk arrives three times.
update_lem_example :
    Returns
      (λ s'.
        (s'.nvmc.memory (base_address + 1 * 128 + 4 * 3) ≡ chunk_word (replicate 128 2) 3)
        × (s'.nvmc.memory 0 ≡ 0xffff_ffff)
        × (s'.shared.status ≡ ready))
      (handle_ota_start (controller app_geometry) answer core
        >>= transfer (controller app_geometry) answer image (λ _. 2) 0 2)
update_lem_example =
    update_lem (controller_lem app_geometry) answer-IsNetCore image
      (record { sizes = λ i. ground arith; count = omega arith }) (λ _. 2) core 1 3 0 (omega arith)
      (record {
        request = refl;
        erase = refl;
        base_addr = refl;
        chunk_count = refl;
        size = omega arith;
        most = omega arith;
        acked = refl;
        status = refl;
      })
      (omega arith) (omega arith) (inl (omega arith))

handle_resets-boot_example :
    Leads
      (λ s'.
        (boot localizer bits masks board 4 machine
          (record core { boot_intent = s'.boot_intent })).0.in_user_image
        ≡ true)
      (handle_resets localizer core)
handle_resets-boot_example =
    handle_resets-boot localizer bits masks board 4 machine core core refl refl refl

abbrev raised : IpcEvents
raised = record {
  ota_start = true;
  ota_chunk = true;
  application_start = false;
  soc_reset = false;
  calibration_data = false;
  lh2_capture = true;
}

-- An image of part of a page with its second chunk, and then the largest one with its last.
abbrev requests : List Request
requests =
    record {
      image_size = 200;
      chunk_count = 2;
      chunk_index = 1;
      chunk_size = 72;
      chunk = replicate 128 2;
      events = raised;
      level = 2900;
    }
    ∷ record {
      image_size = 0xf0000;
      chunk_count = 7680;
      chunk_index = 7679;
      chunk_size = 128;
      chunk = replicate 128 3;
      events = raised;
      level = 2800;
    }
    ∷ []

rounds_lem_example :
    Leads
      (λ s'. s'.nvmc.memory 0xfffc ≡ 0xffff_ffff)
      (rounds localizer (controller app_geometry) answer requests core)
rounds_lem_example =
    rounds_lem (controller app_geometry) answer (controller_lem app_geometry) (λ d. refl) localizer
      requests core 0xfffc
      (
        record { image = omega arith; chunk = omega arith },
        (record { image = omega arith; chunk = omega arith }, tt),
      )
      (omega arith) refl
