-- ===== src/Link.antt =====
-- The two cores together: a chunk that device/network_core/Source/main.c takes in, and what the
-- interrupt of device/bootloader/Source/main.c makes of it.
pub mod Packets
pub mod Robot
pub mod Chunks
pub mod Delivery
pub mod Series
pub mod Update
pub mod Wired
pub mod Traffic
pub mod Send
pub mod Bounds
pub mod Round
pub mod Watchdog
pub mod Experiment
use swarmit.Base.{
  ℕ, ◌≤◌, ◌<◌, ◌≡◌, ◌≢◌, Bool, true, false, List, [], ◌∷◌, ◌==◌, ◌||◌, arith, length, take, drop,
  write_at, Outcome, next, stopped, fault, refl, ap, ◌∙◌, ◌⊎◌,
}
use swarmit.Protocol.{programming, ota_chunk_pkt, OtaChunkPkt, chunk_offset, ready}
use swarmit.Shared.{
  ota_buffer_size, chan_ota_start, chan_ota_chunk, chan_application_start, chan_soc_reset,
  chan_calibration_data, chan_lh2_capture,
}
use swarmit.Net.{Platform, NetState, Effect, send_task, task_send}
use swarmit.Net.Request.{equal_bytes, verify_chunk, on_ota_chunk, set_ota}
use swarmit.Net.Chunk.{fits}
use swarmit.App.{AppState}
use swarmit.App.Loop.{IpcEvents, ipc_irq_handler}
use swarmit.App.Image.{Image, arrive}

-- Whether a channel was raised.
unfoldable pub raised : ℕ → List Effect → Bool
raised channel [] = false
raised channel (task_send c ∷ es) = c == channel || raised channel es
raised channel (_ ∷ es) = raised channel es

-- The event registers of the application core after these effects.
unfoldable pub events_of : List Effect → IpcEvents
unfolding raised
events_of es = record {
  ota_start = raised chan_ota_start es;
  ota_chunk = raised chan_ota_chunk es;
  application_start = raised chan_application_start es;
  soc_reset = raised chan_soc_reset es;
  calibration_data = raised chan_calibration_data es;
  lh2_capture = raised chan_lh2_capture es;
}

-- The shared buffer after the chunk of the packet was copied to it.
abbrev chunk_of : NetState → List ℕ
chunk_of t =
    write_at t.shared.ota.chunk 0
      (take (ota_chunk_pkt t.req_buffer).chunk_size (drop chunk_offset t.req_buffer))

module _ {L : Type 0} where
  -- The interrupt that follows a step of the network core, over the structure that both share.
  abbrev pub interrupted : Outcome NetState → AppState L → Outcome (AppState L)
  interrupted (next s) a =
      next (ipc_irq_handler (events_of s.effects) (record a { shared = s.shared }))
  interrupted (stopped s) a =
      stopped (ipc_irq_handler (events_of s.effects) (record a { shared = s.shared }))
  interrupted fault a = fault

  -- The network core serves the chunk in its buffer, from no effects.
  unfoldable pub pass_chunk : Platform → NetState → AppState L → Outcome (AppState L)
  unfolding on_ota_chunk events_of ipc_irq_handler
  pass_chunk p s a = interrupted (on_ota_chunk p (record s { shared = a.shared; effects = [] })) a

-- The network core once it has checked the chunk of its packet.
abbrev pub checked : Platform → NetState → NetState
checked p t = send_task chan_ota_chunk (record t {
  shared = record t.shared {
    ota = record t.shared.ota {
      chunk_size = (ota_chunk_pkt t.req_buffer).chunk_size;
      chunk = chunk_of t;
    };
  };
  expected_hash = (ota_chunk_pkt t.req_buffer).sha;
  computed_hash = p.sha256 (take (ota_chunk_pkt t.req_buffer).chunk_size (chunk_of t));
})

pub verify_chunk-checked :
    (p : Platform) (t : NetState)
    → (ota_chunk_pkt t.req_buffer).chunk_size ≤ ota_buffer_size
    → length t.req_buffer ≡ 255
    → equal_bytes 8
        (p.sha256 (take (ota_chunk_pkt t.req_buffer).chunk_size (chunk_of t)))
        (ota_chunk_pkt t.req_buffer).sha
      ≡ true
    → verify_chunk p t ≡ next (checked p t)
unfolding verify_chunk
verify_chunk-checked p t h l e =
    rw (fits (ota_chunk_pkt t.req_buffer).chunk_size (length t.req_buffer) h l, e) refl

pub on_ota_chunk-fresh :
    (p : Platform) (t : NetState)
    → (t.shared.status ≡ programming) ⊎ (t.shared.status ≡ ready)
    → (ota_chunk_pkt t.req_buffer).index < t.shared.ota.chunk_count
    → t.shared.ota.last_chunk_acked ≢ (ota_chunk_pkt t.req_buffer).index
    → on_ota_chunk p t
      ≡ verify_chunk p
          (set_ota (record t.shared.ota { chunk_index = (ota_chunk_pkt t.req_buffer).index }) t)
unfolding on_ota_chunk
on_ota_chunk-fresh p t st v n = ground arith

module _ {L : Type 0} (p : Platform) (s : NetState) (a : AppState L) where
  abbrev pkt : OtaChunkPkt
  pkt = ota_chunk_pkt s.req_buffer

  -- The shared buffer, with the chunk of the packet in it.
  abbrev pub sent_chunk : List ℕ
  sent_chunk = write_at a.shared.ota.chunk 0 (take pkt.chunk_size (drop chunk_offset s.req_buffer))

  -- A new chunk of a valid index, whose size fits the buffers and whose hash is the one of its
  -- packet, arrives at the bootloader: its index, size and bytes are in the shared structure, the
  -- bootloader is asked to write it, and nothing else of its state changes.
  pub pass_chunk-arrive :
      (a.shared.status ≡ programming) ⊎ (a.shared.status ≡ ready)
      → pkt.index < a.shared.ota.chunk_count
      → a.shared.ota.last_chunk_acked ≢ pkt.index
      → pkt.chunk_size ≤ ota_buffer_size
      → length s.req_buffer ≡ 255
      → equal_bytes 8 (p.sha256 (take pkt.chunk_size sent_chunk)) pkt.sha ≡ true
      → pass_chunk p s a ≡ next (arrive pkt.index pkt.chunk_size sent_chunk a)
  unfolding pass_chunk
  pass_chunk-arrive st v n h l e =
      ap (λ r. interrupted r a)
        (on_ota_chunk-fresh p start st v n
          ∙ verify_chunk-checked p (set_ota (record a.shared.ota { chunk_index = pkt.index }) start)
              h l e)
    where
      start : NetState
      start = record s { shared = a.shared; effects = [] }

  -- A chunk that was acknowledged last arrives again, as it stands in the shared structure, and its
  -- packet is not looked into.
  pub pass_chunk-again :
      (a.shared.status ≡ programming) ⊎ (a.shared.status ≡ ready)
      → pkt.index < a.shared.ota.chunk_count
      → a.shared.ota.last_chunk_acked ≡ pkt.index
      → pass_chunk p s a ≡ next (arrive pkt.index a.shared.ota.chunk_size a.shared.ota.chunk a)
  unfolding pass_chunk
  pass_chunk-again st v n = ground arith
