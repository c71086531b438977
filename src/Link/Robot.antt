-- ===== src/Link/Robot.antt =====
-- A robot, which is its two cores: a packet that comes in over the air, served by the main loop of
-- device/network_core/Source/main.c and then by the update blocks of
-- device/bootloader/Source/main.c.
use swarmit.Base.{
  ℕ, zero, suc, ◌+◌, ◌≡◌, refl, List, [], Outcome, next, stopped, fault, ◌>>=◌, Returns,
}
use swarmit.Nvmc.{Store}
use swarmit.Net.{Platform, NetState}
use swarmit.Net.Packet.{handle_packet}
use swarmit.Net.Request.{handle_request}
use swarmit.App.{NetCore, AppState}
use swarmit.App.Ota.{handle_ota_start, handle_ota_chunk}
use swarmit.App.Loop.{ipc_irq_handler}
use swarmit.Link.{events_of}
use swarmit.Link.Packets.{start_packet, chunk_packet}

-- The shared structure is the one of the application core.
pub record Robot (L : Type 0) : Type 0 where
  pub net : NetState
  pub app : AppState L

module _ {L : Type 0} where
  abbrev pub with_net : NetState → Outcome (AppState L) → Outcome (Robot L)
  with_net n (next a) = next (record { net = n; app = a })
  with_net n (stopped a) = stopped (record { net = n; app = a })
  with_net n fault = fault

  pub with_net-Returns :
      (P : AppState L → Type 0) (n : NetState) (w : Outcome (AppState L))
      → Returns P w
      → Returns (λ r. P r.app × (r.net ≡ n)) (with_net n w)
  with_net-Returns P n (next a) h = (h, refl)
  with_net-Returns P n (stopped a) h = absurd h
  with_net-Returns P n fault h = absurd h

  -- What the application core does once the network core has come this far.
  abbrev pub then_app :
      (AppState L → Outcome (AppState L)) → AppState L → Outcome NetState → Outcome (Robot L)
  then_app work a (next n) =
      with_net n (work (ipc_irq_handler (events_of n.effects) (record a { shared = n.shared })))
  then_app work a (stopped n) = stopped (record {
    net = n;
    app = ipc_irq_handler (events_of n.effects) (record a { shared = n.shared });
  })
  then_app work a fault = fault

module _ {L : Type 0} (p : Platform) (store : Store) (answer : NetCore) where
  -- The two blocks for updates in the main loop of the application core.
  unfoldable pub update_blocks : AppState L → Outcome (AppState L)
  unfolding handle_ota_start handle_ota_chunk
  update_blocks a = handle_ota_start store answer a >>= handle_ota_chunk store answer

  -- A packet, received and served by both cores.
  unfoldable pub serve_packet : List ℕ → Robot L → Outcome (Robot L)
  unfolding handle_packet handle_request ipc_irq_handler events_of update_blocks
  serve_packet packet r = then_app update_blocks r.app (
      handle_request p (
        handle_packet p p.broadcast_address packet
          (record r.net { shared = r.app.shared; effects = [] })))

  -- The same packet again, some number of times.
  unfoldable pub serve_again : List ℕ → ℕ → Robot L → Outcome (Robot L)
  unfolding serve_packet
  serve_again packet zero r = next r
  serve_again packet (suc n) r = serve_packet packet r >>= serve_again packet n

  -- The packets of the chunks from `k` on, `n` of them, each as often as the sender repeats it.
  unfoldable pub serve_chunks : (ℕ → List ℕ) → (ℕ → ℕ) → ℕ → ℕ → Robot L → Outcome (Robot L)
  unfolding serve_again
  serve_chunks bytes repeats k zero r = next r
  serve_chunks bytes repeats k (suc n) r =
      serve_packet (chunk_packet p.sha256 k (bytes k)) r
      >>= serve_again (chunk_packet p.sha256 k (bytes k)) (repeats k)
      >>= serve_chunks bytes repeats (k + 1) n

  -- An update over the air: its start, and its chunks in order.
  unfoldable pub serve_update : (ℕ → List ℕ) → (ℕ → ℕ) → ℕ → ℕ → Robot L → Outcome (Robot L)
  unfolding serve_chunks
  serve_update bytes repeats size count r =
      serve_packet (start_packet size count) r >>= serve_chunks bytes repeats 0 count
