-- ===== src/App/Kept.antt =====
-- What a round of the main loop of device/bootloader/Source/main.c leaves of the flash.
use swarmit.Base.{
  ◌&&◌, ℕ, ◌+◌, ◌*◌, ◌/◌, ◌≤◌, ◌<◌, ◌≡◌, inl, ◌∙◌, arith, Bool, false, List, [], ◌∷◌, Outcome, next,
  ◌>>=◌, Leads, Leads->>=, if-elim,
}
use swarmit.Base.Bytes.{u32_bytes}
use swarmit.Protocol.{msg_ota_chunk_ack, msg_ota_start_ack, ota_chunk_size}
use swarmit.Shared.{IpcSharedData}
use swarmit.Localization.{Localizer, Lh2RawSample}
use swarmit.Nvmc.{Store, app_geometry, nvmc_write}
use swarmit.Nvmc.Laws.{IsController, write_from_outside}
use swarmit.App.{NetCore, AppState}
use swarmit.App.Ota.{
  base_address, erase_image, chunk_address, chunk_word, ack_chunk, write_chunk, notify, acknowledge,
  finish_ota, handle_ota_start, handle_ota_chunk,
}
use swarmit.App.Erase.{erase_pages_lem, erased_image_outside}
use swarmit.App.Loop.{
  load_calibration, start_capture, handle_resets, update_battery, process_localization, main_loop,
  capture, log_capture, update_position, max_samples,
}

-- The network core leaves the update alone.
abbrev pub KeepsOta : NetCore → Type 0
KeepsOta answer = (d : IpcSharedData) → (answer d).ota ≡ d.ota

-- The update at hand, an image and a chunk of it, lies in the flash above the bootloader, and the
-- word `b` of the bootloader holds `v`.
pub record IsAbove {L : Type 0} (b v : ℕ) (s : AppState L) : Type 0 where
  pub base_addr : s.base_addr ≡ base_address
  pub image : s.shared.ota.image_size ≤ 0xf0000
  pub chunk : s.shared.ota.chunk_index * ota_chunk_size + s.shared.ota.chunk_size ≤ 0xf0000
  pub word : s.nvmc.memory b ≡ v

module _ {L : Type 0} (store : Store) (answer : NetCore) (c : IsController app_geometry store)
    (a : KeepsOta answer) (loc : Localizer L) (b v : ℕ) (low : b < base_address) where
  erase_image-IsAbove : (s : AppState L) → IsAbove b v s → IsAbove b v (erase_image store s)
  unfolding erase_image
  erase_image-IsAbove s h =
      if-elim (IsAbove b v) s.ota_require_erase
        (λ _. record {
          base_addr = h.base_addr;
          image = h.image;
          chunk = h.chunk;
          word =
              erase_pages_lem c s.shared.ota.image_size s.nvmc b h.image
              ∙ erased_image_outside s.shared.ota.image_size s.nvmc.memory b (inl low)
              ∙ h.word;
        })
        (λ _. h)

  write_chunk-IsAbove : (s : AppState L) → IsAbove b v s → IsAbove b v (write_chunk store s)
  unfolding write_chunk nvmc_write
  write_chunk-IsAbove s h = grind (
    arith,
    h.base_addr,
    h.chunk,
    h.word,
    write_from_outside c (chunk_address s.base_addr s.shared.ota.chunk_index)
        (chunk_word s.shared.ota.chunk) 0 (s.shared.ota.chunk_size / 4) s.nvmc.memory b
        (omega (arith, h.base_addr, h.chunk)) (inl (omega (arith, h.base_addr, h.chunk, low))),
  )

  notify-IsAbove :
      (packet : List ℕ) (s : AppState L)
      → IsAbove b v s
      → Leads (IsAbove b v) (notify answer packet s)
  unfolding notify
  notify-IsAbove packet s h = grind (arith, a)

  start-IsAbove :
      (s : AppState L) → IsAbove b v s → Leads (IsAbove b v) (handle_ota_start store answer s)
  unfolding handle_ota_start
  start-IsAbove s h =
      if-elim (Leads (IsAbove b v)) s.ota_start_request
        (λ _.
          notify-IsAbove (msg_ota_start_ack ∷ [])
            (erase_image store (record s { ota_start_request = false }))
            (erase_image-IsAbove (record s { ota_start_request = false }) (ground arith)))
        (λ _. h)

  acknowledge-IsAbove :
      (s : AppState L) → IsAbove b v s → Leads (IsAbove b v) (acknowledge answer s)
  unfolding acknowledge finish_ota
  acknowledge-IsAbove s h =
      Leads->>= (IsAbove b v)
        (notify answer (msg_ota_chunk_ack ∷ u32_bytes s.shared.ota.chunk_index) (ack_chunk s))
        (λ s'. next (finish_ota s'))
        (notify-IsAbove (msg_ota_chunk_ack ∷ u32_bytes s.shared.ota.chunk_index) (ack_chunk s)
          (ground arith))
        (λ s' k. ground arith)

  chunk-IsAbove :
      (s : AppState L) → IsAbove b v s → Leads (IsAbove b v) (handle_ota_chunk store answer s)
  unfolding handle_ota_chunk
  chunk-IsAbove s h =
      if-elim (Leads (IsAbove b v)) s.ota_chunk_request
        (λ _.
          acknowledge-IsAbove (write_chunk store (record s { ota_chunk_request = false }))
            (write_chunk-IsAbove (record s { ota_chunk_request = false }) (ground arith)))
        (λ _. h)

  load-IsAbove : (s : AppState L) → IsAbove b v s → Leads (IsAbove b v) (load_calibration loc s)
  unfolding load_calibration
  load-IsAbove s h = ground arith

  resets-IsAbove : (s : AppState L) → IsAbove b v s → Leads (IsAbove b v) (handle_resets loc s)
  unfolding handle_resets
  resets-IsAbove s h = ground arith

  simple-IsAbove :
      (level : ℕ) (s : AppState L)
      → IsAbove b v s
      → IsAbove b v (start_capture loc s) × IsAbove b v (update_battery loc level s)
  unfolding start_capture update_battery
  simple-IsAbove level s h = ground arith

  log-IsAbove :
      (xs : List Lh2RawSample) (s : AppState L)
      → IsAbove b v s
      → Leads (IsAbove b v) (log_capture loc xs s)
  unfolding log_capture
  log-IsAbove [] s h = h
  log-IsAbove (x ∷ xs) s h = ground arith

  capture-IsAbove :
      (available : Bool) (s : AppState L)
      → IsAbove b v s
      → Leads (IsAbove b v) (capture loc available s)
  unfolding capture
  capture-IsAbove available s h =
      if-elim (Leads (IsAbove b v)) (s.lh2_capturing && available)
        (λ _.
          log-IsAbove (loc.get_raw_counts s.localization max_samples).0
            (record s { localization = (loc.get_raw_counts s.localization max_samples).1 })
            (ground arith))
        (λ _. h)

  position-IsAbove :
      (available : Bool) (s : AppState L)
      → IsAbove b v s
      → IsAbove b v (update_position loc available s)
  unfolding update_position
  position-IsAbove available s h = ground arith

  localization-IsAbove :
      (s : AppState L) → IsAbove b v s → Leads (IsAbove b v) (process_localization loc s)
  unfolding process_localization
  localization-IsAbove s h =
      Leads->>= (IsAbove b v) (capture loc available processed)
        (λ s'. next (update_position loc available s'))
        (capture-IsAbove available processed (ground arith))
        (λ s' k. position-IsAbove available s' k)
    where
      available : Bool
      available = (loc.process_data s.localization).0

      processed : AppState L
      processed = record s { localization = (loc.process_data s.localization).1 }

  pub round-IsAbove :
      (level : ℕ) (s : AppState L)
      → IsAbove b v s
      → Leads (IsAbove b v) (main_loop loc store answer level s)
  unfolding main_loop
  round-IsAbove level s h =
      Leads->>= (IsAbove b v) (started >>= handle_ota_chunk store answer >>= handle_resets loc)
        (λ s'. process_localization loc (update_battery loc level s'))
        (Leads->>= (IsAbove b v) (started >>= handle_ota_chunk store answer) (handle_resets loc)
          (Leads->>= (IsAbove b v) started (handle_ota_chunk store answer)
            (Leads->>= (IsAbove b v) (load_calibration loc s)
              (λ s'. handle_ota_start store answer (start_capture loc s')) (load-IsAbove s h)
              (λ s' k. start-IsAbove (start_capture loc s') (simple-IsAbove level s' k).0))
            (λ s' k. chunk-IsAbove s' k))
          (λ s' k. resets-IsAbove s' k))
        (λ s' k. localization-IsAbove (update_battery loc level s') (simple-IsAbove level s' k).1)
    where
      started : Outcome (AppState L)
      started =
          load_calibration loc s >>= (λ s'. handle_ota_start store answer (start_capture loc s'))
