-- ===== src/Single/Update.antt =====
-- A whole update of device/bootloader-single-core/Source/main.c, from what is proved of the update
-- of device/bootloader/Source/main.c.
use swarmit.Base.{ℕ, ◌+◌, ◌*◌, ◌≤◌, ◌<◌, ◌≡◌, ◌⊎◌, ◌∙◌, ap, true, ◌>>=◌, Returns}
use swarmit.Protocol.{ready, programming, ota_chunk_size}
use swarmit.Shared.{no_chunk_acked}
use swarmit.Nvmc.{Store, app_geometry}
use swarmit.Nvmc.Laws.{IsController}
use swarmit.App.Ota.{base_address, chunk_word}
use swarmit.App.Ota
use swarmit.App.Erase.{image_limit}
use swarmit.App.Image.{Image, Fits, placed_word}
use swarmit.App.Image
use swarmit.App.Update.{update_lem}
use swarmit.Single.{SingleState}
use swarmit.Single.Loop.{handle_ota_start}
use swarmit.Single.Refine.{Both->>=, start-Same}
use swarmit.Single.Transfer.{
  transfer, view, view-Same, answer, answer-IsNetCore, Both-Returns, transfer-Same,
}

-- A start of an update was asked for, of an image of this number of chunks.
pub record IsStarted (m : Image) (s : SingleState) : Type 0 where
  pub request : s.ota_start_request ≡ true
  pub erase : s.ota_require_erase ≡ true
  pub base_addr : s.base_addr ≡ base_address
  pub chunk_count : s.vars.ota.chunk_count ≡ m.count
  pub size : s.vars.ota.image_size ≤ 0xf0000
  pub most : m.count * ota_chunk_size < s.vars.ota.image_size + ota_chunk_size
  pub acked : s.vars.ota.last_chunk_acked ≡ no_chunk_acked
  pub status : s.vars.status ≡ programming

-- The program for one core stores an image as the bootloader of two cores does: every whole word
-- of every chunk is at its place above the bootloader, the rest of each place is erased, no word below that place and none past the pages of
-- the image is changed, and the program is ready, however often the sender repeats each chunk. The
-- image is not empty, fits the flash and has no more chunks than its size calls for; the start was
-- asked for with erasing due and no chunk acknowledged; the controller behaves as documented, and
-- the radio stays connected.
pub single_update_lem :
    (store : Store) (c : IsController app_geometry store) (m : Image) (fits : Fits m)
    (repeats : ℕ → ℕ) (s : SingleState) (i j b : ℕ)
    → 0 < m.count
    → IsStarted m s
    → i < m.count
    → 4 * j < ota_chunk_size
    → (b < base_address) ⊎ (image_limit s.vars.ota.image_size ≤ b)
    → Returns
        (λ s'.
          (s'.nvmc.memory (base_address + i * ota_chunk_size + 4 * j)
            ≡ placed_word (m.sizes i) (m.chunks i) j)
          × (s'.nvmc.memory b ≡ s.nvmc.memory b)
          × (s'.vars.status ≡ ready))
        (handle_ota_start store true s >>= transfer store m repeats 0 m.count)
single_update_lem store c m fits repeats s i j b n q hi hj o =
    Both-Returns _ _ (handle_ota_start store true s >>= transfer store m repeats 0 m.count)
      (Ota.handle_ota_start store answer (view s)
        >>= Image.transfer store answer m repeats 0 m.count)
      (Both->>= (handle_ota_start store true s) (transfer store m repeats 0 m.count)
        (Ota.handle_ota_start store answer (view s))
        (Image.transfer store answer m repeats 0 m.count)
        (start-Same answer-IsNetCore store s (view s) (view-Same s))
        (λ s' a' q'. transfer-Same store m repeats 0 m.count s' a' q'))
      (update_lem c answer-IsNetCore m fits repeats (view s) i j b n
        (record {
          request = q.request;
          erase = q.erase;
          base_addr = q.base_addr;
          chunk_count = q.chunk_count;
          size = q.size;
          most = q.most;
          acked = q.acked;
          status = q.status;
        })
        hi hj o)
      (λ s' a x y. (
        ap (λ z. z.memory (base_address + i * ota_chunk_size + 4 * j)) x.nvmc ∙ y.0,
        ap (λ z. z.memory b) x.nvmc ∙ y.1,
        x.status ∙ y.2,
      ))
