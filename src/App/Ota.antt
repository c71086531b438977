-- ===== src/App/Ota.antt =====
-- The update blocks of the main loop of device/bootloader/Source/main.c: erasing the pages of the
-- user image, and writing its chunks.
use swarmit.Base.{
  ℕ, zero, suc, ◌+◌, ◌-◌, ◌*◌, ◌/◌, ◌%◌, ◌^◌, Bool, true, false, List, [], ◌∷◌, write_at, ◌==◌,
  ◌!=◌, if◌then◌else◌, Outcome, next, ◌>>=◌,
}
use swarmit.Base.Bytes.{read_u32, u32_bytes}
use swarmit.Protocol.{ready, msg_ota_start_ack, msg_ota_chunk_ack, ota_chunk_size}
use swarmit.Shared.{IpcOtaData}
use swarmit.Nvmc.{Store, Nvmc, app_geometry, nvmc_page_erase, nvmc_write}
use swarmit.App.{NetCore, AppState}
use swarmit.App.Mari.{mari_node_tx}

-- SWARMIT_BASE_ADDRESS
abbrev pub base_address : ℕ
base_address = 0x10000

-- The first flash page of the user image.
abbrev pub first_page : ℕ
first_page = 16

abbrev pub pages_count : ℕ → ℕ
pages_count image_size = image_size / 4096 + (if image_size % 4096 != 0 then 1 else 0)

-- The word `i` of the bytes of a chunk.
abbrev pub chunk_word : List ℕ → ℕ → ℕ
chunk_word chunk i = read_u32 chunk (4 * i)

-- The address of a chunk, a `uint32_t`.
abbrev pub chunk_address : ℕ → ℕ → ℕ
chunk_address base index = (base + index * ota_chunk_size) % 2 ^ 32

abbrev pub is_last_chunk : IpcOtaData → Bool
is_last_chunk o = o.chunk_index == (o.chunk_count + 2 ^ 32 - 1) % 2 ^ 32

module _ (store : Store) where
  -- The erasing loop from `page` on, with its rounds left.
  unfoldable pub erase_pages : ℕ → ℕ → Nvmc → Nvmc
  unfolding nvmc_page_erase
  erase_pages page zero n = n
  erase_pages page (suc k) n =
      erase_pages (page + 1) k (nvmc_page_erase store app_geometry (page + first_page) n)

module _ {L : Type 0} (store : Store) where
  unfoldable pub erase_image : AppState L → AppState L
  unfolding erase_pages
  erase_image s =
      if s.ota_require_erase
      then record s {
        nvmc = erase_pages store 0 (pages_count s.shared.ota.image_size) s.nvmc;
        ota_require_erase = false;
      }
      else s

  -- A chunk that was acknowledged last is not written again.
  unfoldable pub write_chunk : AppState L → AppState L
  unfolding nvmc_write
  write_chunk s = if ota.last_chunk_acked == ota.chunk_index then s else record s {
    nvmc =
        nvmc_write store (chunk_address s.base_addr ota.chunk_index) (chunk_word ota.chunk)
          ota.chunk_size s.nvmc;
    ota_require_erase = true;
  }
    where
      ota : IpcOtaData
      ota = s.shared.ota

module _ {L : Type 0} where
  abbrev pub ack_chunk : AppState L → AppState L
  ack_chunk s = record s {
    shared = record s.shared {
      ota = record s.shared.ota { last_chunk_acked = s.shared.ota.chunk_index };
    };
  }

  -- Back to ready after the last chunk.
  unfoldable pub finish_ota : AppState L → AppState L
  finish_ota s =
      if is_last_chunk s.shared.ota
      then record s { shared = record s.shared { status = ready } }
      else s

module _ {L : Type 0} (answer : NetCore) where
  -- A notification from the start of the buffer.
  unfoldable pub notify : List ℕ → AppState L → Outcome (AppState L)
  unfolding mari_node_tx
  notify packet s =
      mari_node_tx answer packet
        (record s { notification_buffer = write_at s.notification_buffer 0 packet })

  -- The chunk is acknowledged, and after the last one the bootloader is ready again.
  unfoldable pub acknowledge : AppState L → Outcome (AppState L)
  unfolding notify finish_ota
  acknowledge s =
      notify (msg_ota_chunk_ack ∷ u32_bytes s.shared.ota.chunk_index) (ack_chunk s) >>= λ s'.
      next (finish_ota s')

module _ {L : Type 0} (store : Store) (answer : NetCore) where
  unfoldable pub handle_ota_start : AppState L → Outcome (AppState L)
  unfolding erase_image notify
  handle_ota_start s =
      if s.ota_start_request
      then notify answer (msg_ota_start_ack ∷ [])
          (erase_image store (record s { ota_start_request = false }))
      else next s

  unfoldable pub handle_ota_chunk : AppState L → Outcome (AppState L)
  unfolding write_chunk acknowledge
  handle_ota_chunk s =
      if s.ota_chunk_request
      then acknowledge answer (write_chunk store (record s { ota_chunk_request = false }))
      else next s
