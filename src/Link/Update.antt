-- ===== src/Link/Update.antt =====
-- An update over the air, from its first packet to its words in the flash, through both cores.
use swarmit.Base.{
  ℕ, ◌+◌, ◌*◌, ◌≤◌, ◌<◌, ◌≡◌, ◌≢◌, ◌⊎◌, inl, inr, refl, ◌∙◌, ap, sym, subst, true, false, List, [],
  arith, length, write_at, length-write_at, next, Returns, Returns-map, Returns->>=, if-elim,
}
use swarmit.Base.Splice.{get_or-write_at_head}
use swarmit.Protocol.{
  ready, programming, msg_ota_start, msg_ota_chunk, request_type, ota_chunk_size, ota_start_pkt,
}
use swarmit.Shared.{chan_ota_start, no_chunk_acked}
use swarmit.Nvmc.{Store, app_geometry}
use swarmit.Nvmc.Laws.{IsController}
use swarmit.Net.{Platform, NetState, send_task}
use swarmit.Net.Request.{on_ota_start, handle_request, dispatch}
use swarmit.Net.Session.{received}
use swarmit.App.{NetCore, IsNetCore, AppState}
use swarmit.App.Ota.{base_address, handle_ota_start, handle_ota_chunk}
use swarmit.App.Erase.{
  Started, image_limit, image_limit_lem, erased_image, erased_image_outside,
  handle_ota_start-Started,
}
use swarmit.App.Image.{Fits, placed_word, Progress-placed_word}
use swarmit.App.Update.{IsAsked, Started-Progress}
use swarmit.Link.Packets.{start_packet, start_packet_lem}
use swarmit.Link.Robot.{
  Robot, with_net, with_net-Returns, then_app, update_blocks, serve_packet, serve_chunks,
  serve_update,
}
use swarmit.Link.Chunks.{image_of, OnAir}
use swarmit.Link.Series.{serve_chunks_lem}

-- A robot that can take an update: it is ready, or in an update that was left, nothing is asked of
-- its bootloader, and its buffers have their lengths.
pub record IsListening {L : Type 0} (r : Robot L) : Type 0 where
  pub room : length r.net.req_buffer ≡ 255
  pub buffer : length r.app.shared.ota.chunk ≡ 128
  pub status : (r.app.shared.status ≡ programming) ⊎ (r.app.shared.status ≡ ready)
  pub erase : r.app.ota_require_erase ≡ true
  pub chunk : r.app.ota_chunk_request ≡ false
  pub base_addr : r.app.base_addr ≡ base_address

-- The bootloader once it is asked for the start.
abbrev asked : {L : Type 0} → ℕ → ℕ → AppState L → AppState L
asked size count s = record s {
  ota_start_request = true;
  shared = record s.shared {
    ota = record s.shared.ota {
      last_chunk_acked = no_chunk_acked;
      image_size = size;
      chunk_count = count;
    };
    status = programming;
  };
}

-- The network core once it has served the start.
abbrev start_served : NetState → NetState
start_served t = send_task chan_ota_start (record t {
  shared = record t.shared {
    ota = record t.shared.ota {
      last_chunk_acked = no_chunk_acked;
      image_size = (ota_start_pkt t.req_buffer).image_size;
      chunk_count = (ota_start_pkt t.req_buffer).chunk_count;
    };
    status = programming;
  };
})

on_ota_start_lem :
    (t : NetState)
    → (t.shared.status ≡ programming) ⊎ (t.shared.status ≡ ready)
    → on_ota_start t ≡ start_served t
unfolding on_ota_start
on_ota_start_lem t st = ground arith

serve_start_type :
    (p : Platform) (t : NetState)
    → t.req_received ≡ true
    → request_type t.req_buffer ≡ msg_ota_start
    → handle_request p t ≡ next (on_ota_start (record t { req_received = false }))
unfolding handle_request dispatch
serve_start_type p t r e =
    if-elim (λ o. o ≡ next (on_ota_start (record t { req_received = false }))) t.req_received
      (λ _. ap (λ y. dispatch p y (record t { req_received = false })) e)
      (λ q. absurd (ground arith))

handle_ota_chunk-idle :
    {L : Type 0} (store : Store) (answer : NetCore) (s : AppState L)
    → s.ota_chunk_request ≡ false
    → handle_ota_chunk store answer s ≡ next s
unfolding handle_ota_chunk
handle_ota_chunk-idle store answer s e =
    if-elim (λ o. o ≡ next s) s.ota_chunk_request (λ q. absurd (ground arith)) (λ _. refl)

module _ {L : Type 0} (p : Platform) {store : Store} {answer : NetCore}
    (c : IsController app_geometry store) (a : IsNetCore answer) (bytes : ℕ → List ℕ)
    (repeats : ℕ → ℕ) (size count : ℕ) (fits : Fits (image_of bytes count))
    (hash : (bs : List ℕ) → length (p.sha256 bs) ≡ 32) (starts : p.metrics_probe ≢ msg_ota_start)
    (ne : p.metrics_probe ≢ msg_ota_chunk) (some : 0 < count) (limit : size ≤ 0xf0000)
    (most : count * ota_chunk_size < size + ota_chunk_size) (r : Robot L) (l : IsListening r) where
  -- The network core with the packet of the start in its buffer.
  abbrev t : NetState
  t = record r.net {
    req_buffer = write_at r.net.req_buffer 0 (start_packet size count);
    req_received = false;
    shared = r.app.shared;
    effects = [];
  }

  started :
      serve_packet p store answer (start_packet size count) r
      ≡ with_net (start_served t) (update_blocks p store answer (asked size count r.app))
  unfolding serve_packet
  started =
      ap (then_app (update_blocks p store answer) r.app) (
        ap (handle_request p) (
          received p msg_ota_start _ (record r.net { shared = r.app.shared; effects = [] }) refl
            starts (omega (arith, l.room)))
        ∙ serve_start_type p (record t { req_received = true }) refl
            (get_or-write_at_head r.net.req_buffer _ msg_ota_start 0 (omega (arith, l.room)))
        ∙ ap next (on_ota_start_lem t l.status))
      ∙ ap
          (λ (z : ℕ × ℕ).
            with_net (start_served t) (update_blocks p store answer (asked z.0 z.1 r.app)))
          (λ i. (packet.0 i, packet.1 i))
    where
      packet :
          ((ota_start_pkt t.req_buffer).image_size ≡ size)
          × ((ota_start_pkt t.req_buffer).chunk_count ≡ count)
      packet =
          start_packet_lem r.net.req_buffer l.room size count (omega arith)
            (omega (arith, fits.count))

  request : IsAsked (image_of bytes count) (asked size count r.app)
  request = record {
    request = refl;
    erase = l.erase;
    base_addr = l.base_addr;
    chunk_count = refl;
    size = limit;
    most = most;
    acked = refl;
    status = refl;
  }

  start-OnAir :
      Returns
        (OnAir (image_of bytes count) (erased_image size r.app.nvmc.memory) 0)
        (serve_packet p store answer (start_packet size count) r)
  unfolding update_blocks
  start-OnAir =
      subst (Returns (OnAir (image_of bytes count) (erased_image size r.app.nvmc.memory) 0))
        (sym started)
        (Returns-map (with_net (start_served t) (update_blocks p store answer asked_app))
          (with_net-Returns (Started asked_app) (start_served t)
            (update_blocks p store answer asked_app)
            (Returns->>= (Started asked_app) (Started asked_app)
              (handle_ota_start store answer asked_app) (handle_ota_chunk store answer)
              (handle_ota_start-Started c a asked_app refl limit)
              (λ s' x.
                subst (Returns (Started asked_app))
                  (sym (handle_ota_chunk-idle store answer s' (x.ota_chunk_request ∙ l.chunk))) x)))
          (λ r' h. record {
            progress =
                Started-Progress c a (image_of bytes count) fits repeats asked_app r'.app some
                  request h.0;
            room =
                ap (λ n. length n.req_buffer) h.1
                ∙ length-write_at r.net.req_buffer 0 (start_packet size count)
                ∙ l.room;
            buffer = ap (λ o. length o.chunk) h.0.ota ∙ l.buffer;
            idle = h.0.ota_start_request;
          }))
    where
      asked_app : AppState L
      asked_app = asked size count r.app

  -- An update that is sent over the air, its start and its chunks, each as often as the sender likes,
  -- passes the network core, which checks the hashes, and the bootloader, which stores the chunks.
  -- Then every whole word of every chunk is at its place above the bootloader, and the rest of the
  -- 128 bytes of each chunk is erased, so that the last bytes of a chunk whose size is no multiple of
  -- four are not stored. No word outside the pages of the image has changed, and the robot is ready. The
  -- robot is ready at first or in an update that was left, with erasing due and nothing asked of
  -- the bootloader; the firmware is not empty, fits the flash, has no more chunks than its size
  -- calls for and none above 128 bytes; the hash has 32 bytes, the packets are not taken for
  -- probes of the radio, the controller behaves as documented, and the network core acknowledges
  -- and leaves the update alone. The buffers have their lengths.
  pub serve_update_lem :
      (i j b : ℕ)
      → i < count
      → 4 * j < ota_chunk_size
      → (b < base_address) ⊎ (image_limit size ≤ b)
      → Returns
          (λ r'.
            (r'.app.nvmc.memory (base_address + i * ota_chunk_size + 4 * j)
              ≡ placed_word (length (bytes i)) (bytes i) j)
            × (r'.app.nvmc.memory b ≡ r.app.nvmc.memory b)
            × (r'.app.shared.status ≡ ready))
          (serve_update p store answer bytes repeats size count r)
  unfolding serve_update
  serve_update_lem i j b hi hj o =
      Returns-map (serve_update p store answer bytes repeats size count r)
        (Returns->>= (OnAir (image_of bytes count) (erased_image size r.app.nvmc.memory) 0)
          (OnAir (image_of bytes count) (erased_image size r.app.nvmc.memory) count)
          (serve_packet p store answer (start_packet size count) r)
          (serve_chunks p store answer bytes repeats 0 count) start-OnAir
          (λ r' q.
            serve_chunks_lem p c a bytes count fits (erased_image size r.app.nvmc.memory) hash ne
              repeats 0 count r' (omega arith) q))
        (λ r' q. (
          Progress-placed_word i j q.progress hi hj,
          q.progress.outside b (past o) ∙ erased_image_outside size r.app.nvmc.memory b o,
          q.progress.done some refl,
        ))
    where
      past :
          (b < base_address) ⊎ (image_limit size ≤ b)
          → (b < base_address) ⊎ (base_address + count * ota_chunk_size ≤ b)
      past (inl h) = inl h
      past (inr h) = inr (omega (arith, image_limit_lem size, most, h))
