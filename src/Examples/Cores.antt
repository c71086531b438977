-- ===== src/Examples/Cores.antt =====
-- Tests of the two cores together.
use swarmit.Base.{
  false, ℕ, List, ◌*◌, ◌+◌, inr, Returns, ◌==◌, if◌then◌else◌, ◌≡◌, refl, arith, inl, replicate,
}
use swarmit.Protocol.{ready}
use swarmit.Nvmc.{net_geometry, app_geometry}
use swarmit.App.Ota.{base_address, chunk_word}
use swarmit.Link.Robot.{Robot, serve_update}
use swarmit.Link.Update.{serve_update_lem}
use swarmit.Examples.{
  platform, net_core, app_core, controller, controller_lem, answer, answer-IsNetCore,
}

-- Two chunks of 128 and of 72 bytes.
abbrev pub firmware : ℕ → List ℕ
firmware i = replicate (if i == 0 then 128 else 72) i

-- A robot that is ready for an update.
abbrev robot : Robot Unit
robot = record {
  net = net_core ready (replicate 255 0);
  app = record (app_core tt ready) { ota_start_request = false };
}

-- The firmware is sent with each chunk three times.
serve_update_lem_example :
    Returns
      (λ r'.
        (r'.app.nvmc.memory (base_address + 1 * 128 + 4 * 3) ≡ chunk_word (firmware 1) 3)
        × (r'.app.nvmc.memory 0 ≡ 0xffff_ffff)
        × (r'.app.shared.status ≡ ready))
      (serve_update
        (platform net_geometry)
        (controller app_geometry)
        answer
        firmware
        (λ _. 2)
        200
        2
        robot)
serve_update_lem_example =
    serve_update_lem (platform net_geometry) (controller_lem app_geometry) answer-IsNetCore firmware
      (λ _. 2) 200 2 (record { sizes = λ i. ground arith; count = omega arith }) (λ bs. refl)
      (omega arith) (omega arith) (omega arith) (omega arith) (omega arith) robot
      (record {
        room = refl;
        buffer = refl;
        status = inr refl;
        erase = refl;
        chunk = refl;
        base_addr = refl;
      })
      1 3 0 (omega arith) (omega arith) (inl (omega arith))
