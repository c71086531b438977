-- ===== src/App/Capture.antt =====
-- The capture of raw counts for a calibration (device/bootloader/Source/main.c), with the
-- lighthouse module in place.
use swarmit.Base.{
  ◌+◌, ◌*◌, ◌≤◌, ◌≡◌, ◌∷◌, [], ◌++◌, List, Bool, false, refl, arith, length, take, length-append,
  if-elim, ◌&&◌, Returns,
}
use swarmit.Base.Bytes.{u32_bytes}
use swarmit.Shared.{log_data_size, chan_log_event}
use swarmit.Localization.{Reals, LocalizationData, Lh2RawSample, Basestation, localizer}
use swarmit.Localization.Counts.{pending, get_raw_counts-pending}
use swarmit.App.{AppState, task_send, Effect}
use swarmit.App.Loop.{sample_bytes, capture_bytes, log_capture, capture}

length-sample_bytes : (xs : List Lh2RawSample) → length (sample_bytes xs) ≡ 9 * length xs
unfolding sample_bytes
length-sample_bytes [] = omega arith
length-sample_bytes (x ∷ xs) = omega (
  arith,
  length-sample_bytes xs,
  length-append (x.lh_index ∷ u32_bytes x.count1 ++ u32_bytes x.count2) (sample_bytes xs),
)

pub length-capture_bytes : (xs : List Lh2RawSample) → length (capture_bytes xs) ≡ 1 + 9 * length xs
unfolding capture_bytes
length-capture_bytes xs = omega (arith, length-sample_bytes xs)

-- What a capture of the samples `xs` leaves in the state.
pub record Logged {L : Type 0} (xs : List Lh2RawSample) (before : List Effect) (s' : AppState L)
    : Type 0 where
  pub len : s'.shared.log.len ≡ 1 + 9 * length xs
  pub fits : s'.shared.log.len ≤ log_data_size
  pub bytes : take s'.shared.log.len s'.shared.log.bytes ≡ capture_bytes xs
  pub announced : s'.effects ≡ task_send chan_log_event ∷ before
  pub done : s'.lh2_capturing ≡ false

module _ (r : Reals) (process : List Basestation → List Basestation) where
  -- While no sample waits, a capture sends nothing and stays open.
  pub capture-waits :
      (s : AppState (LocalizationData r)) (data_available : Bool)
      → pending 0 s.localization.basestations ≡ []
      → Returns
          (λ s'. (s'.effects ≡ s.effects) × (s'.lh2_capturing ≡ s.lh2_capturing))
          (capture (localizer r process) data_available s)
  unfolding capture log_capture
  capture-waits s data_available e =
      if-elim (Returns (λ s'. (s'.effects ≡ s.effects) × (s'.lh2_capturing ≡ s.lh2_capturing)))
        (s.lh2_capturing && data_available)
        (λ _. rw ((get_raw_counts-pending s.localization.basestations 14).0, e) (refl, refl))
        (λ _. (refl, refl))
