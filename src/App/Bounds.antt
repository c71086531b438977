-- ===== src/App/Bounds.antt =====
-- The arrays that device/bootloader/Source/main.c and localization.c copy from and to, in a round of
-- the main loop with the lighthouse module in place.
use swarmit.Base.{
  ℕ, ◌≤◌, ◌≡◌, arith, Bool, false, List, [], ◌∷◌, ◌&&◌, length, length-take, if-elim, Outcome, next,
  ◌>>=◌, Ensures, Ensures->>=, subst, sym, ltb,
}
use swarmit.Base.Bytes.{u32_bytes}
use swarmit.Protocol.{msg_ota_start_ack, msg_ota_chunk_ack}
use swarmit.Shared.{IpcSharedData, log_data_size}
use swarmit.Nvmc.{Store}
use swarmit.Localization.{
  Reals, LocalizationData, Lh2RawSample, Basestation, localizer, localization_get_raw_counts,
  localization_init,
}
use swarmit.Localization.Counts.{pending, get_raw_counts-pending}
use swarmit.Net.Bounds.{WithinArrays}
use swarmit.App.{NetCore, AppState}
use swarmit.App.Ota.{
  erase_image, write_chunk, ack_chunk, notify, acknowledge, finish_ota, handle_ota_start,
  handle_ota_chunk,
}
use swarmit.App.Loop.{
  max_samples, capture_bytes, load_calibration, start_capture, handle_resets, update_battery,
  log_capture, capture, update_position, process_localization, main_loop,
}
use swarmit.App.Capture.{length-capture_bytes}

-- The network core keeps the counts within their arrays while it serves a call.
abbrev pub KeepsWithin : NetCore → Type 0
KeepsWithin answer = (d : IpcSharedData) → WithinArrays d → WithinArrays (answer d)

abbrev pub AppWithin : {L : Type 0} → AppState L → Type 0
AppWithin s = WithinArrays s.shared

module _ {L : Type 0} (store : Store) {answer : NetCore} (k : KeepsWithin answer) where
  notify-AppWithin :
      (packet : List ℕ) (s : AppState L) → AppWithin s → Ensures AppWithin (notify answer packet s)
  unfolding notify
  notify-AppWithin packet s h = grind (arith, k)

  start-AppWithin :
      (s : AppState L) → AppWithin s → Ensures AppWithin (handle_ota_start store answer s)
  unfolding handle_ota_start erase_image
  start-AppWithin s h =
      if-elim (Ensures AppWithin) s.ota_start_request
        (λ _.
          notify-AppWithin (msg_ota_start_ack ∷ [])
            (erase_image store (record s { ota_start_request = false })) (ground arith))
        (λ _. h)

  acknowledge-AppWithin : (s : AppState L) → AppWithin s → Ensures AppWithin (acknowledge answer s)
  unfolding acknowledge finish_ota
  acknowledge-AppWithin s h =
      Ensures->>= AppWithin
        (notify answer (msg_ota_chunk_ack ∷ u32_bytes s.shared.ota.chunk_index) (ack_chunk s)) _
        (notify-AppWithin (msg_ota_chunk_ack ∷ u32_bytes s.shared.ota.chunk_index) (ack_chunk s)
          (ground arith))
        (λ s' h'. ground arith)

  chunk-AppWithin :
      (s : AppState L) → AppWithin s → Ensures AppWithin (handle_ota_chunk store answer s)
  unfolding handle_ota_chunk write_chunk
  chunk-AppWithin s h =
      if-elim (Ensures AppWithin) s.ota_chunk_request
        (λ _.
          acknowledge-AppWithin (write_chunk store (record s { ota_chunk_request = false }))
            (ground arith))
        (λ _. h)

module _ (r : Reals) (process : List Basestation → List Basestation) where
  load-AppWithin :
      (s : AppState (LocalizationData r))
      → AppWithin s
      → Ensures AppWithin (load_calibration (localizer r process) s)
  unfolding load_calibration localization_init
  load-AppWithin s h = ground (arith, h.matrices)

  resets-AppWithin :
      (s : AppState (LocalizationData r))
      → AppWithin s
      → Ensures AppWithin (handle_resets (localizer r process) s)
  unfolding handle_resets
  resets-AppWithin s h = ground arith

  simple-AppWithin :
      (level : ℕ) (s : AppState (LocalizationData r))
      → AppWithin s
      → AppWithin (start_capture (localizer r process) s)
        × AppWithin (update_battery (localizer r process) level s)
  unfolding start_capture update_battery
  simple-AppWithin level s h = ground arith

  log_capture-AppWithin :
      (xs : List Lh2RawSample) (s : AppState (LocalizationData r))
      → length xs ≤ 14
      → AppWithin s
      → Ensures AppWithin (log_capture (localizer r process) xs s)
  unfolding log_capture
  log_capture-AppWithin [] s n h = h
  log_capture-AppWithin (x ∷ xs) s n h =
      rw small
        (record { log = omega (arith, length-capture_bytes (x ∷ xs)); matrices = h.matrices })
    where
      small : ltb log_data_size (length (capture_bytes (x ∷ xs))) ≡ false
      small = grind (arith, length-capture_bytes (x ∷ xs))

  capture-AppWithin :
      (available : Bool) (s : AppState (LocalizationData r))
      → AppWithin s
      → Ensures AppWithin (capture (localizer r process) available s)
  unfolding capture
  capture-AppWithin available s h =
      if-elim (Ensures AppWithin) (s.lh2_capturing && available)
        (λ _. log_capture-AppWithin (localization_get_raw_counts bs max_samples).0 _ few h) (λ _. h)
    where
      bs : List Basestation
      bs = s.localization.basestations

      few : length (localization_get_raw_counts bs max_samples).0 ≤ 14
      few =
          subst (λ z. length z ≤ 14) (sym (get_raw_counts-pending bs max_samples).0)
            (omega (arith, length-take max_samples (pending 0 bs)))

  position-AppWithin :
      (available : Bool) (s : AppState (LocalizationData r))
      → AppWithin s
      → AppWithin (update_position (localizer r process) available s)
  unfolding update_position
  position-AppWithin available s h = ground arith

  localization-AppWithin :
      (s : AppState (LocalizationData r))
      → AppWithin s
      → Ensures AppWithin (process_localization (localizer r process) s)
  unfolding process_localization
  localization-AppWithin s h =
      Ensures->>= AppWithin (capture (localizer r process) available processed)
        (λ s'. next (update_position (localizer r process) available s'))
        (capture-AppWithin available processed h) (λ s' h'. position-AppWithin available s' h')
    where
      available : Bool
      available = ((localizer r process).process_data s.localization).0

      processed : AppState (LocalizationData r)
      processed = record s { localization = ((localizer r process).process_data s.localization).1 }

  pub round-AppWithin :
      (store : Store) {answer : NetCore} (k : KeepsWithin answer) (level : ℕ)
      (s : AppState (LocalizationData r))
      → AppWithin s
      → Ensures AppWithin (main_loop (localizer r process) store answer level s)
  unfolding main_loop
  round-AppWithin store {answer} k level s h =
      Ensures->>= AppWithin
        (started >>= handle_ota_chunk store answer >>= handle_resets (localizer r process)) _
        (Ensures->>= AppWithin (started >>= handle_ota_chunk store answer) _
          (Ensures->>= AppWithin started _
            (Ensures->>= AppWithin (load_calibration (localizer r process) s) _ (load-AppWithin s h)
              (λ a q. start-AppWithin store k _ (simple-AppWithin level a q).0))
            (λ a q. chunk-AppWithin store k a q))
          (λ a q. resets-AppWithin a q))
        (λ b q. localization-AppWithin _ (simple-AppWithin level b q).1)
    where
      started : Outcome (AppState (LocalizationData r))
      started =
          load_calibration (localizer r process) s
          >>= (λ a. handle_ota_start store answer (start_capture (localizer r process) a))
