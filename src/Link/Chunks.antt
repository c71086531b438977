-- ===== src/Link/Chunks.antt =====
-- The chunks of an update over the air, through both cores.
use swarmit.Base.{
  ℕ, ◌+◌, ◌<◌, ◌≡◌, ◌≢◌, ◌⊎◌, refl, ◌∙◌, ap, sym, subst, true, false, List, [], arith, length, take,
  drop, next, ◌>>=◌, Returns, Returns-map, if-elim, Returns-and,
}
use swarmit.Protocol.{ready, programming, msg_ota_chunk, ota_chunk_pkt, request_type, chunk_offset}
use swarmit.Shared.{chan_ota_chunk}
use swarmit.Nvmc.{Store, Flash, app_geometry}
use swarmit.Nvmc.Laws.{IsController}
use swarmit.Net.{Platform, NetState, send_task}
use swarmit.Net.Packet.{handle_packet}
use swarmit.Net.Request.{set_ota, on_ota_chunk, handle_request, dispatch}
use swarmit.Net.Session.{received}
use swarmit.App.{NetCore, IsNetCore, AppState}
use swarmit.App.Ota.{handle_ota_start, handle_ota_chunk, write_chunk, acknowledge}
use swarmit.App.Image.{Image, arrive, Progress, Fits, acknowledge-Acknowledged}
use swarmit.Link.Packets.{
  chunk_packet, filled, filled-index, filled-size, filled-type, filled-bytes,
}
use swarmit.Link.Robot.{Robot, with_net, with_net-Returns, update_blocks}

-- The image of chunks with these bytes.
abbrev pub image_of : (ℕ → List ℕ) → ℕ → Image
image_of bytes count = record { chunks = bytes; sizes = λ k. length (bytes k); count = count }

-- A robot in an update of which `k` chunks have come.
pub record OnAir {L : Type 0} (m : Image) (f : Flash) (k : ℕ) (r : Robot L) : Type 0 where
  pub progress : Progress m f k r.app
  pub room : length r.net.req_buffer ≡ 255
  pub buffer : length r.app.shared.ota.chunk ≡ 128
  pub idle : r.app.ota_start_request ≡ false

pub serve_chunk_type :
    (p : Platform) (t : NetState)
    → t.req_received ≡ true
    → request_type t.req_buffer ≡ msg_ota_chunk
    → handle_request p t ≡ on_ota_chunk p (record t { req_received = false })
unfolding handle_request dispatch
serve_chunk_type p t r e =
    if-elim (λ o. o ≡ on_ota_chunk p (record t { req_received = false })) t.req_received
      (λ _. ap (λ y. dispatch p y (record t { req_received = false })) e)
      (λ q. absurd (ground arith))

pub on_ota_chunk-again :
    (p : Platform) (t : NetState)
    → (t.shared.status ≡ programming) ⊎ (t.shared.status ≡ ready)
    → (ota_chunk_pkt t.req_buffer).index < t.shared.ota.chunk_count
    → t.shared.ota.last_chunk_acked ≡ (ota_chunk_pkt t.req_buffer).index
    → on_ota_chunk p t
      ≡ next (
          send_task chan_ota_chunk
            (set_ota (record t.shared.ota { chunk_index = (ota_chunk_pkt t.req_buffer).index }) t))
unfolding on_ota_chunk
on_ota_chunk-again p t st v n = ground arith

write_chunk-keeps :
    {L : Type 0} (store : Store) (s : AppState L)
    → ((write_chunk store s).ota_start_request ≡ s.ota_start_request)
      × ((write_chunk store s).shared ≡ s.shared)
unfolding write_chunk
write_chunk-keeps store s = ground arith

module _ {L : Type 0} (p : Platform) {store : Store} {answer : NetCore}
    (c : IsController app_geometry store) (a : IsNetCore answer) (m : Image) (fits : Fits m)
    (f : Flash) where
  -- The two blocks, on a chunk that has arrived.
  update_blocks_lem :
      (k size : ℕ) (chunk : List ℕ) (s : AppState L)
      → s.ota_start_request ≡ false
      → update_blocks p store answer (arrive k size chunk s)
        ≡ handle_ota_chunk store answer (arrive k size chunk s)
  unfolding update_blocks handle_ota_start
  update_blocks_lem k size chunk s e =
      if-elim
        (λ o.
          (o >>= handle_ota_chunk store answer)
          ≡ handle_ota_chunk store answer (arrive k size chunk s))
        s.ota_start_request (λ q. absurd (ground arith)) (λ _. refl)

  handle_ota_chunk-keeps :
      (k size : ℕ) (chunk : List ℕ) (s : AppState L)
      → Returns
          (λ s'. (s'.ota_start_request ≡ s.ota_start_request) × (s'.shared.ota.chunk ≡ chunk))
          (handle_ota_chunk store answer (arrive k size chunk s))
  unfolding handle_ota_chunk
  handle_ota_chunk-keeps k size chunk s =
      let w = write_chunk store (record (arrive k size chunk s) { ota_chunk_request = false }) in
      let (start, shared) =
        write_chunk-keeps store (record (arrive k size chunk s) { ota_chunk_request = false }) in
      Returns-map (acknowledge answer w) (acknowledge-Acknowledged a w) (λ s' x.
        (x.ota_start_request ∙ start, ap (λ o. o.chunk) x.ota ∙ ap (λ d. d.ota.chunk) shared))

  pub arrived-OnAir :
      (k size : ℕ) (chunk : List ℕ) (s : AppState L) (n : NetState)
      → s.ota_start_request ≡ false
      → length n.req_buffer ≡ 255
      → length chunk ≡ 128
      → Returns (Progress m f (k + 1)) (handle_ota_chunk store answer (arrive k size chunk s))
      → Returns
          (OnAir m f (k + 1))
          (with_net n (update_blocks p store answer (arrive k size chunk s)))
  arrived-OnAir k size chunk s n idle room len w =
      subst (λ o. Returns (OnAir m f (k + 1)) (with_net n o))
        (sym (update_blocks_lem k size chunk s idle))
        (Returns-map (with_net n (handle_ota_chunk store answer (arrive k size chunk s)))
          (with_net-Returns
            (λ s'.
              Progress m f (k + 1) s'
              × ((s'.ota_start_request ≡ s.ota_start_request) × (s'.shared.ota.chunk ≡ chunk)))
            n (handle_ota_chunk store answer (arrive k size chunk s))
            (Returns-and (Progress m f (k + 1))
              (λ s'. (s'.ota_start_request ≡ s.ota_start_request) × (s'.shared.ota.chunk ≡ chunk))
              (handle_ota_chunk store answer (arrive k size chunk s)) w
              (handle_ota_chunk-keeps k size chunk s)))
          (λ r h. record {
            progress = h.0.0;
            room = ap (λ x. length x.req_buffer) h.1 ∙ room;
            buffer = ap length h.0.1.1 ∙ len;
            idle = h.0.1.0 ∙ idle;
          }))

-- What the section that follows is about: the bytes of the chunks, and the hash of the library.
module _ {L : Type 0} (p : Platform) {store : Store} {answer : NetCore}
    (c : IsController app_geometry store) (a : IsNetCore answer) (bytes : ℕ → List ℕ) (count : ℕ)
    (fits : Fits (image_of bytes count)) (f : Flash)
    (hash : (bs : List ℕ) → length (p.sha256 bs) ≡ 32) (ne : p.metrics_probe ≢ msg_ota_chunk) where
  module _ (k : ℕ) (r : Robot L) (hk : k < count) (room : length r.net.req_buffer ≡ 255)
      (buffer : length r.app.shared.ota.chunk ≡ 128) where
    -- The network core with the packet in its buffer.
    abbrev pub got : NetState
    got = record r.net {
      req_buffer =
          filled r.net.req_buffer room p.sha256 k (bytes k) (fits.sizes k) (hash (bytes k));
      req_received = false;
      shared = r.app.shared;
      effects = [];
    }

    abbrev pub index : (ota_chunk_pkt got.req_buffer).index ≡ k
    index =
        filled-index r.net.req_buffer room p.sha256 k (bytes k) (fits.sizes k) (hash (bytes k))
          (omega (arith, fits.count))

    abbrev pub size : (ota_chunk_pkt got.req_buffer).chunk_size ≡ length (bytes k)
    size = filled-size r.net.req_buffer room p.sha256 k (bytes k) (fits.sizes k) (hash (bytes k))

    pub payload :
        take (ota_chunk_pkt got.req_buffer).chunk_size (drop chunk_offset got.req_buffer) ≡ bytes k
    payload =
        ap (λ z. take z (drop chunk_offset got.req_buffer)) size
        ∙ filled-bytes r.net.req_buffer room p.sha256 k (bytes k) (fits.sizes k) (hash (bytes k))

    -- The packet reaches the handler of chunks.
    pub reached :
        handle_request p (
          handle_packet p p.broadcast_address
            (chunk_packet p.sha256 k (bytes k))
            (record r.net { shared = r.app.shared; effects = [] }))
        ≡ on_ota_chunk p got
    reached =
        ap (handle_request p) (
          received p msg_ota_chunk _ (record r.net { shared = r.app.shared; effects = [] }) refl ne
            (omega arith))
        ∙ serve_chunk_type p (record got { req_received = true }) refl
            (filled-type r.net.req_buffer room p.sha256 k (bytes k) (fits.sizes k) (hash (bytes k)))
