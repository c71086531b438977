-- ===== src/App/Loop.antt =====
-- The other blocks of the main loop of device/bootloader/Source/main.c, their sequence, and the
-- handlers that set the flags.
use swarmit.Base.{
  ℕ, Bool, true, false, List, [], ◌∷◌, ◌++◌, ◌&&◌, ltb, length, write_at, if◌then◌else◌, Outcome,
  next, stopped, ◌>>=◌, Option, none, some, fault,
}
use swarmit.Base.Bytes.{u32_bytes}
use swarmit.Shared.{Position2d, chan_log_event, log_data_size}
use swarmit.Nvmc.{Store}
use swarmit.Localization.{Localizer, Lh2RawSample}
use swarmit.App.{
  NetCore, red, green, blue, Effect, led_clear, led_toggle, system_reset, AppState, send_task,
}
use swarmit.App.Ota.{handle_ota_start, handle_ota_chunk}

-- SWRMT_BOOT_INTENT_USER_IMAGE and SWRMT_BOOT_INTENT_BOOTLOADER
abbrev pub boot_intent_user_image : ℕ
boot_intent_user_image = 0xC0DE_C0DE

abbrev pub boot_intent_bootloader : ℕ
boot_intent_bootloader = 0xB007_B007

abbrev pub battery_voltage_full : ℕ
battery_voltage_full = 2900

abbrev pub battery_voltage_warning : ℕ
battery_voltage_warning = 1500

-- SWRMT_LH2_CALIB_TAG
abbrev pub lh2_calib_tag : ℕ
lh2_calib_tag = 0xCA

-- `max_samples`, (INT8_MAX - 1) / 9, which is below LH2_BASESTATION_COUNT_MAX
abbrev pub max_samples : ℕ
max_samples = 14

-- Nine bytes for each sample.
unfoldable pub sample_bytes : List Lh2RawSample → List ℕ
sample_bytes [] = []
sample_bytes (s ∷ ss) = (s.lh_index ∷ u32_bytes s.count1 ++ u32_bytes s.count2) ++ sample_bytes ss

-- The bytes of a capture, as they are put into the log.
unfoldable pub capture_bytes : List Lh2RawSample → List ℕ
unfolding sample_bytes
capture_bytes samples = lh2_calib_tag ∷ sample_bytes samples

abbrev pub led_effects : ℕ → List Effect
led_effects level =
    if ltb battery_voltage_full level
    then led_toggle blue ∷ led_clear green ∷ led_clear red ∷ []
    else if ltb battery_voltage_warning level
    then led_clear blue ∷ led_toggle green ∷ led_clear red ∷ []
    else led_clear blue ∷ led_clear green ∷ led_toggle red ∷ []

module _ {L : Type 0} (loc : Localizer L) where
  unfoldable pub load_calibration : AppState L → Outcome (AppState L)
  load_calibration s =
      if s.lh2_calibration_ready
      then finish (
          loc.init s.shared.lh2_calibration.homographies s.shared.lh2_calibration.homography_count
            s.localization)
      else next s
    where
      s' : L → AppState L
      s' l = record s { lh2_calibration_ready = false; localization = l }

      finish : Outcome L → Outcome (AppState L)
      finish r = elim r [ next l ↦ next (s' l) | stopped l ↦ stopped (s' l) | fault ↦ fault ]

  unfoldable pub start_capture : AppState L → AppState L
  start_capture s =
      if s.lh2_capture_request
      then record s {
        lh2_capture_request = false;
        localization = loc.start s.localization;
        lh2_capturing = true;
      }
      else s

  -- The two resets do not come back.
  unfoldable pub handle_resets : AppState L → Outcome (AppState L)
  handle_resets s =
      if s.start_application
      then stopped
          (record s { boot_intent = boot_intent_user_image; effects = system_reset ∷ s.effects })
      else if s.system_reset_requested
      then stopped
          (record s { boot_intent = boot_intent_bootloader; effects = system_reset ∷ s.effects })
      else next s

  -- `level` is what `battery_level_read` returns.
  unfoldable pub update_battery : ℕ → AppState L → AppState L
  update_battery level s =
      if s.battery_update
      then record s {
        battery_update = false;
        shared = record s.shared { battery_level = level };
        effects = led_effects level ++ s.effects;
      }
      else s

  -- A capture goes into the log of the shared structure and is announced, if there is a sample. The
  -- writes go out of bounds if its bytes pass the array of the log.
  unfoldable pub log_capture : List Lh2RawSample → AppState L → Outcome (AppState L)
  unfolding capture_bytes
  log_capture [] s = next s
  log_capture (x ∷ xs) s =
      if ltb log_data_size (length (capture_bytes (x ∷ xs)))
      then fault
      else next
          (record (send_task chan_log_event (record s {
            shared = record s.shared {
              log = record {
                len = length (capture_bytes (x ∷ xs));
                bytes = write_at s.shared.log.bytes 0 (capture_bytes (x ∷ xs));
              };
            };
          })) { lh2_capturing = false })

  unfoldable pub capture : Bool → AppState L → Outcome (AppState L)
  unfolding log_capture
  capture data_available s =
      if s.lh2_capturing && data_available
      then log_capture drained.0 (record s { localization = drained.1 })
      else next s
    where
      drained : List Lh2RawSample × L
      drained = loc.get_raw_counts s.localization max_samples

  abbrev pub set_position : Option Position2d → AppState L → AppState L
  set_position none s = s
  set_position (some q) s = record s { shared = record s.shared { current_position = q } }

  unfoldable pub update_position : Bool → AppState L → AppState L
  update_position data_available s =
      if s.position_update && data_available
      then record (set_position found.0 (record s { localization = found.1 })) {
        position_update = false;
      }
      else s
    where
      found : Option Position2d × L
      found = loc.get_position s.localization

  unfoldable pub process_localization : AppState L → Outcome (AppState L)
  unfolding capture update_position
  process_localization s =
      let (data_available, l) = loc.process_data s.localization in
      capture data_available (record s { localization = l }) >>= λ s'.
      next (update_position data_available s')

  -- One round of `while (1)`.
  unfoldable pub main_loop : Store → NetCore → ℕ → AppState L → Outcome (AppState L)
  main_loop store answer level s =
      load_calibration s
      >>= (λ a. handle_ota_start store answer (start_capture a))
      >>= handle_ota_chunk store answer
      >>= handle_resets
      >>= (λ b. process_localization (update_battery level b))

-- The event registers that IPC_IRQHandler reads and clears.
pub record IpcEvents : Type 0 where
  pub ota_start : Bool
  pub ota_chunk : Bool
  pub application_start : Bool
  pub soc_reset : Bool
  pub calibration_data : Bool
  pub lh2_capture : Bool

abbrev pub raise : Bool → Bool → Bool
raise event flag = if event then true else flag

module _ {L : Type 0} where
  unfoldable pub ipc_irq_handler : IpcEvents → AppState L → AppState L
  ipc_irq_handler e s = record s {
    ota_start_request = raise e.ota_start s.ota_start_request;
    ota_chunk_request = raise e.ota_chunk s.ota_chunk_request;
    start_application = raise e.application_start s.start_application;
    system_reset_requested = raise e.soc_reset s.system_reset_requested;
    lh2_calibration_ready = raise e.calibration_data s.lh2_calibration_ready;
    lh2_capture_request = raise e.lh2_capture s.lh2_capture_request;
  }

  -- _update_position and _read_battery, called by the timer
  unfoldable pub on_update_position : AppState L → AppState L
  on_update_position s = record s { position_update = true }

  unfoldable pub on_read_battery : AppState L → AppState L
  on_read_battery s = record s { battery_update = true }
