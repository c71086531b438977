-- ===== src/Examples/Sample.antt =====
-- Tests of the user image of the repository.
use Prim.Native.Nat.{bit_xor}
use swarmit.Base.{
  ◌^◌, ◌≡◌, refl, true, false, [], ◌∷◌, take, replicate, if◌then◌else◌, leb, Returns,
}
use swarmit.Protocol.{running}
use swarmit.App.{task_send, node_tx}
use swarmit.Gateway.{Memory, load_bytes}
use swarmit.Sample.{SampleState, round}
use swarmit.Sample.Round.{round_lem}
use swarmit.Examples.{app_core, answer}
use swarmit.Examples.Application.{localizer}

-- The strings of the image, both of the letter h, and 9 elsewhere.
abbrev memory : Memory
memory a = if leb 0x2000_9000 a then 0x68 else 9

abbrev sample : SampleState Unit
sample = record {
  timer_running = false;
  cc = 0;
  out = 0;
  gateway = record {
    app = app_core tt running;
    tx_data_buffer = replicate 255 0;
    localization_data_available = false;
    reloads = 2;
    received = [];
  };
}

round_lem_example :
    Returns
      (λ s'.
        (s'.gateway.app.effects
          ≡ task_send 5 ∷ task_send 0 ∷ node_tx (16 ∷ 5 ∷ 9 ∷ 9 ∷ 9 ∷ 9 ∷ 9 ∷ []) ∷ [])
        × (s'.gateway.app.shared.log.len ≡ 7)
        × (take 7 s'.gateway.app.shared.log.bytes ≡ replicate 7 0x68)
        × (s'.gateway.reloads ≡ 3)
        × (s'.out ≡ bit_xor 0 (2 ^ 28)))
      (round localizer answer memory 0x2000_9000 0x2000_9100 0x2000_7f00 2900 1000 true sample)
unfolding load_bytes
round_lem_example =
    round_lem localizer answer memory 0x2000_9000 0x2000_9100 0x2000_7f00 2900 1000 sample
      (λ d. refl) (λ d. refl) refl refl refl
