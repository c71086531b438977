-- ===== src/Single/Air/Update.antt =====
-- A whole update over the air of device/bootloader-single-core/Source/main.c.
use swarmit.Base.{
  ℕ, zero, suc, ◌+◌, ◌*◌, ◌≤◌, ◌<◌, ◌≡◌, ◌≢◌, ◌⊎◌, inl, inr, refl, ◌∙◌, ap, false, List, [], length,
  Outcome, next, stopped, fault, ◌>>=◌, Returns, true, ◌++◌,
}
use swarmit.Protocol.{ready, programming, msg_ota_start, msg_ota_chunk, ota_chunk_size}
use swarmit.Shared.{req_none}
use swarmit.Nvmc.{Store, app_geometry}
use swarmit.Nvmc.Laws.{IsController}
use swarmit.Net.{Platform}
use swarmit.App.{NetCore, IsNetCore}
use swarmit.App.Ota.{base_address}
use swarmit.App.Erase.{image_limit}
use swarmit.App.Image.{Fits, placed_word}
use swarmit.Link.Robot.{Robot}
use swarmit.Link.Robot
use swarmit.Link.Packets.{start_packet, chunk_packet}
use swarmit.Link.Chunks.{image_of}
use swarmit.Link.Update.{serve_update_lem}
use swarmit.Base.Bytes.{u32_bytes}
use swarmit.Single.{SingleState}
use swarmit.Single.Transfer.{view, view-Same, answer, answer-IsNetCore}
use swarmit.Single.Air.{serve_packet, serve_again, serve_chunks, serve_update}
use swarmit.Single.Air.Packet.{Alike, FollowsRobot, FollowsRobot->>=, packet-FollowsRobot}

module _ {L : Type 0} (p : Platform) (store : Store) (answer : NetCore) (a : IsNetCore answer)
    (starts : p.metrics_probe ≢ msg_ota_start) (ne : p.metrics_probe ≢ msg_ota_chunk) where
  chunk-FollowsRobot :
      (k : ℕ) (bs : List ℕ) (s : SingleState) (r : Robot L)
      → Alike s r
      → FollowsRobot
          (serve_packet p store (chunk_packet p.sha256 k bs) s)
          (Robot.serve_packet p store answer (chunk_packet p.sha256 k bs) r)
  chunk-FollowsRobot k bs s r q =
      packet-FollowsRobot p store answer a msg_ota_chunk _ s r (inr refl) ne q

  again-FollowsRobot :
      (k : ℕ) (bs : List ℕ) (n : ℕ) (s : SingleState) (r : Robot L)
      → Alike s r
      → FollowsRobot
          (serve_again p store (chunk_packet p.sha256 k bs) n s)
          (Robot.serve_again p store answer (chunk_packet p.sha256 k bs) n r)
  unfolding serve_again Robot.serve_again
  again-FollowsRobot k bs zero s r q = q
  again-FollowsRobot k bs (suc n) s r q =
      FollowsRobot->>= _ _ (Robot.serve_packet p store answer (chunk_packet p.sha256 k bs) r) _
        (chunk-FollowsRobot k bs s r q) (again-FollowsRobot k bs n)

  chunks-FollowsRobot :
      (bytes : ℕ → List ℕ) (repeats : ℕ → ℕ) (k n : ℕ) (s : SingleState) (r : Robot L)
      → Alike s r
      → FollowsRobot
          (serve_chunks p store bytes repeats k n s)
          (Robot.serve_chunks p store answer bytes repeats k n r)
  unfolding serve_chunks Robot.serve_chunks
  chunks-FollowsRobot bytes repeats k zero s r q = q
  chunks-FollowsRobot bytes repeats k (suc n) s r q =
      FollowsRobot->>= _ _
        (Robot.serve_packet p store answer (chunk_packet p.sha256 k (bytes k)) r
          >>= Robot.serve_again p store answer (chunk_packet p.sha256 k (bytes k)) (repeats k))
        _
        (FollowsRobot->>= _ _
          (Robot.serve_packet p store answer (chunk_packet p.sha256 k (bytes k)) r) _
          (chunk-FollowsRobot k (bytes k) s r q) (again-FollowsRobot k (bytes k) (repeats k)))
        (chunks-FollowsRobot bytes repeats (k + 1) n)

  update-FollowsRobot :
      (bytes : ℕ → List ℕ) (repeats : ℕ → ℕ) (size count : ℕ) (s : SingleState) (r : Robot L)
      → Alike s r
      → FollowsRobot
          (serve_update p store bytes repeats size count s)
          (Robot.serve_update p store answer bytes repeats size count r)
  unfolding serve_update Robot.serve_update
  update-FollowsRobot bytes repeats size count s r q =
      FollowsRobot->>= _ _ (Robot.serve_packet p store answer (start_packet size count) r) _
        (packet-FollowsRobot p store answer a msg_ota_start (u32_bytes size ++ u32_bytes count) s r
          (inl refl) starts q)
        (chunks-FollowsRobot bytes repeats 0 count)

FollowsRobot-Returns :
    {L : Type 0} (P : Robot L → Type 0) (Q : SingleState → Type 0) (o : Outcome SingleState)
    (w : Outcome (Robot L))
    → FollowsRobot o w
    → Returns P w
    → ((s : SingleState) (r : Robot L) → Alike s r → P r → Q s)
    → Returns Q o
FollowsRobot-Returns P Q (next s) (next r) h k f = f s r h k
FollowsRobot-Returns P Q (stopped s) (next r) h k f = h
FollowsRobot-Returns P Q fault (next r) h k f = h
FollowsRobot-Returns P Q o (stopped r) h k f = absurd k
FollowsRobot-Returns P Q o fault h k f = absurd k

-- The program can take an update: it is ready, or in an update that was left, no chunk is asked for,
-- and its buffers have their lengths.
pub record IsListening (s : SingleState) : Type 0 where
  pub room : length s.req_buffer ≡ 255
  pub buffer : length s.vars.ota.chunk ≡ 128
  pub status : (s.vars.status ≡ programming) ⊎ (s.vars.status ≡ ready)
  pub erase : s.ota_require_erase ≡ true
  pub chunk : s.ota_chunk_request ≡ false
  pub base_addr : s.base_addr ≡ base_address

-- A robot of two cores at the same place.
abbrev robot_view : SingleState → Robot Unit
robot_view s = record {
  net = record {
    req_received = s.req_received;
    data_received = false;
    send_status = s.send_status;
    req_buffer = s.req_buffer;
    notification_buffer = s.notification_buffer;
    ipc_req = req_none;
    ipc_log_received = s.log_received;
    expected_hash = s.expected_hash;
    computed_hash = s.computed_hash;
    device_id = s.device_id;
    mari_net_id = 0;
    mari_initialized = true;
    metrics_rx_counter = s.metrics_rx_counter;
    metrics_tx_counter = s.metrics_tx_counter;
    metrics_received = s.metrics_received;
    config = record {
      magic = 0;
      has_net_id = 0;
      net_id = 0;
      homography_count = 0;
      homographies = [];
    };
    lh2_calibration_ready = false;
    shared = (view s).shared;
    nvmc = s.nvmc;
    effects = [];
  };
  app = view s;
}

-- An update that is sent over the air to the program for one core, its start and its chunks, each as
-- often as the sender likes, is checked against the hashes of the chunks and stored: every whole word
-- of every chunk is at its place above the bootloader, and the rest of the 128 bytes of each chunk is
-- erased, so that the last bytes of a chunk whose size is no multiple of four are not stored. No word
-- outside the pages of the image has changed, and the program is ready. The program is ready at first or in an update that
-- was left, with erasing due and no chunk asked for; the firmware is not empty, fits the flash, has
-- no more chunks than its size calls for and none above 128 bytes; the hash has 32 bytes, the packets
-- are not taken for probes of the radio, which stays connected, and the controller behaves as
-- documented. Its buffers have their lengths.
pub single_air_lem :
    (p : Platform) (store : Store) (c : IsController app_geometry store) (bytes : ℕ → List ℕ)
    (repeats : ℕ → ℕ) (size count : ℕ)
    → Fits (image_of bytes count)
    → ((bs : List ℕ) → length (p.sha256 bs) ≡ 32)
    → p.metrics_probe ≢ msg_ota_start
    → p.metrics_probe ≢ msg_ota_chunk
    → 0 < count
    → size ≤ 0xf0000
    → count * ota_chunk_size < size + ota_chunk_size
    → (s : SingleState) → IsListening s
    → (i j b : ℕ) → i < count
    → 4 * j < ota_chunk_size
    → (b < base_address) ⊎ (image_limit size ≤ b)
    → Returns
        (λ s'.
          (s'.nvmc.memory (base_address + i * ota_chunk_size + 4 * j)
            ≡ placed_word (length (bytes i)) (bytes i) j)
          × (s'.nvmc.memory b ≡ s.nvmc.memory b)
          × (s'.vars.status ≡ ready))
        (serve_update p store bytes repeats size count s)
single_air_lem p store c bytes repeats size count fits hash starts ne some limit most s l i j b hi
      hj o =
    FollowsRobot-Returns _ _ (serve_update p store bytes repeats size count s)
      (Robot.serve_update p store answer bytes repeats size count (robot_view s))
      (update-FollowsRobot p store answer answer-IsNetCore starts ne bytes repeats size count s
        (robot_view s) (record { same = view-Same s; buffer = refl; room = l.room }))
      (serve_update_lem p c answer-IsNetCore bytes repeats size count fits hash starts ne some limit
        most (robot_view s)
        (record {
          room = l.room;
          buffer = l.buffer;
          status = l.status;
          erase = l.erase;
          chunk = l.chunk;
          base_addr = l.base_addr;
        })
        i j b hi hj o)
      (λ s' r q x. (
        ap (λ z. z.memory (base_address + i * ota_chunk_size + 4 * j)) q.same.nvmc ∙ x.0,
        ap (λ z. z.memory b) q.same.nvmc ∙ x.1,
        q.same.status ∙ x.2,
      ))
