-- ===== src/Single/Air.antt =====
-- An update over the air of device/bootloader-single-core/Source/main.c, packet by packet, next to
-- that of the program for two cores.
pub mod Request
pub mod Packet
pub mod Update
use swarmit.Base.{
  ℕ, zero, suc, ◌+◌, ◌<◌, ◌≡◌, ◌≢◌, refl, ◌∙◌, ap, sym, subst, arith, true, false, List, [], ◌∷◌,
  length, write_at, Outcome, next, stopped, fault, ◌>>=◌, Returns, Returns-map, Returns->>=, ◌⊎◌,
  inl, inr, leb, ◌&&◌, length-write_at,
}
use swarmit.Protocol.{msg_status, msg_ota_start, msg_ota_chunk, request_type, ota_start_pkt}
use swarmit.Shared.{no_chunk_acked, chan_ota_start}
use swarmit.Nvmc.{Store}
use swarmit.Net.{Platform, NetState}
use swarmit.Net.Packet.{is_request}
use swarmit.App.{NetCore, IsNetCore, AppState}
use swarmit.App.Loop.{ipc_irq_handler}
use swarmit.Link.{raised, events_of}
use swarmit.Link.Robot.{Robot, with_net, then_app, update_blocks}
use swarmit.Link.Packets.{start_packet, chunk_packet}
use swarmit.Single.{SingleState}
use swarmit.Single.Request.{
  handle_packet, handle_request, on_ota_start, on_ota_chunk, verify_chunk, dispatch,
}
use swarmit.Single.Loop.{handle_ota_start, handle_ota_chunk}
use swarmit.Single.Refine.{Same, Both, update-Same}
use swarmit.Base.Splice.{get_or-write_at_head}
use swarmit.Link.Round.{net_serves, arrived, net_serves-dispatch}

module _ (p : Platform) (store : Store) where
  -- A packet, received and served, over a radio that stays connected.
  unfoldable pub serve_packet : List ℕ → SingleState → Outcome SingleState
  unfolding handle_packet handle_request handle_ota_start handle_ota_chunk
  serve_packet packet s =
      handle_request p (handle_packet p packet s)
      >>= handle_ota_start store true
      >>= handle_ota_chunk store true

  -- The same packet again, some number of times.
  unfoldable pub serve_again : List ℕ → ℕ → SingleState → Outcome SingleState
  unfolding serve_packet
  serve_again packet zero s = next s
  serve_again packet (suc n) s = serve_packet packet s >>= serve_again packet n

  -- The packets of the chunks from `k` on, `n` of them, each as often as the sender repeats it.
  unfoldable pub serve_chunks : (ℕ → List ℕ) → (ℕ → ℕ) → ℕ → ℕ → SingleState → Outcome SingleState
  unfolding serve_again
  serve_chunks bytes repeats k zero s = next s
  serve_chunks bytes repeats k (suc n) s =
      serve_packet (chunk_packet p.sha256 k (bytes k)) s
      >>= serve_again (chunk_packet p.sha256 k (bytes k)) (repeats k)
      >>= serve_chunks bytes repeats (k + 1) n

  -- An update over the air: its start, and its chunks in order.
  unfoldable pub serve_update : (ℕ → List ℕ) → (ℕ → ℕ) → ℕ → ℕ → SingleState → Outcome SingleState
  unfolding serve_chunks
  serve_update bytes repeats size count s =
      serve_packet (start_packet size count) s >>= serve_chunks bytes repeats 0 count
