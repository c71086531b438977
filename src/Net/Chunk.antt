-- ===== src/Net/Chunk.antt =====
-- The firmware chunks that device/network_core/Source/main.c passes on to the application core.
use swarmit.Base.{ltb, ◌||◌, false, ℕ, true, ◌+◌, ◌≤◌, ◌<◌, ◌≡◌, ◌⊎◌, ◌∷◌, take, arith, Leads}
use swarmit.Protocol.{ota_chunk_pkt, chunk_offset}
use swarmit.Shared.{chan_ota_chunk, ota_buffer_size}
use swarmit.Net.{Platform, NetState, task_send}
use swarmit.Net.Request.{equal_bytes, on_ota_chunk}

-- The state after a chunk was passed on from `s`.
pub record Forwarded (p : Platform) (s s' : NetState) : Type 0 where
  pub announced : s'.effects ≡ task_send chan_ota_chunk ∷ s.effects
  pub index_set : s'.shared.ota.chunk_index ≡ (ota_chunk_pkt s.req_buffer).index
  pub index_valid : s'.shared.ota.chunk_index < s.shared.ota.chunk_count
  pub checked :
      (s'.shared.ota.last_chunk_acked ≡ s'.shared.ota.chunk_index)
      ⊎ (equal_bytes 8
            (p.sha256 (take s'.shared.ota.chunk_size s'.shared.ota.chunk))
            (ota_chunk_pkt s.req_buffer).sha
          ≡ true)

-- A chunk is announced to the application core only with an index below the number of chunks, and
-- only if it was acknowledged last or the hash of the bytes taken in starts with the eight bytes
-- of its packet. In all other cases nothing is announced.
pub on_ota_chunk-Forwarded :
    (p : Platform) (s : NetState)
    → Leads (λ s'. (s'.effects ≡ s.effects) ⊎ Forwarded p s s') (on_ota_chunk p s)
unfolding on_ota_chunk
on_ota_chunk-Forwarded p s = ground arith

pub fits :
    (size len : ℕ)
    → size ≤ ota_buffer_size
    → len ≡ 255
    → (ltb ota_buffer_size size || ltb len (chunk_offset + size)) ≡ false
fits size len h l = ground arith
